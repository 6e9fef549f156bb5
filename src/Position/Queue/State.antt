-- ===== src/Position/Queue/State.antt =====
-- app/services/position/order_queue.py: `OrderExecutionQueue` as a state, with a function for each
-- part of its loop that runs between two awaits, so that calls may come between them.
-- Tasks are objects that the priority queue and the dict of pending tasks share: the state holds
-- them by identity. Which queued task `get` returns is an argument: enqueue changes the priority of
-- objects inside the heap, so that the order of the heap is not kept.
pub mod Dict
pub mod Pending
pub mod Enqueue
pub mod Intents
use adviser_ai_constructor.Prelude.{
  ℕ, ◌+◌, Bool, true, false, not, ◌&&◌, ◌||◌, Option, none, some, List, [], ◌∷◌, ◌++◌, ltb, ◌==◌,
  if◌then◌else◌,
}
use adviser_ai_constructor.Float.{Float, ◌⊏◌, ◌⊖◌, abs}
use adviser_ai_constructor.Text.{text_eq, starts_with}
use adviser_ai_constructor.Position.Queue.Task.{
  Value, null, text, ParamKey, symbol, side, quantity, new_quantity, full_quantity, client_order_id,
  reason, Params, Format, OrderPriority, emergency_close, rank, Action, place_sl, replace_sl, is_sl,
  OrderTask, get_default, get, task_key, key_of, is_multi_tp_reason,
}
use adviser_ai_constructor.Position.Queue.Execute.{has_positive_emergency_quantity}

-- `dict[str, OrderTask]` in the order of insertion, its tasks by identity.
abbrev pub Pending : Type 0
Pending = List (List ℕ × ℕ)

-- `d.get(key)`
unfoldable pub lookup : List ℕ → Pending → Option ℕ
lookup key [] = none
lookup key ((k, i) ∷ d) = if text_eq k key then some i else lookup key d

-- `d.pop(key, None)`
unfoldable pub pop : List ℕ → Pending → Pending
pop key [] = []
pop key ((k, i) ∷ d) = if text_eq k key then d else (k, i) ∷ pop key d

-- `d[key] = i`
unfoldable pub insert : List ℕ → ℕ → Pending → Pending
insert key i [] = (key, i) ∷ []
insert key i ((k, j) ∷ d) = if text_eq k key then (k, i) ∷ d else (k, j) ∷ insert key i d

unfoldable pub mem_key : List ℕ → List (List ℕ) → Bool
mem_key key [] = false
mem_key key (k ∷ ks) = if text_eq k key then true else mem_key key ks

unfoldable pub discard : List ℕ → List (List ℕ) → List (List ℕ)
discard key [] = []
discard key (k ∷ ks) = let rest = discard key ks in if text_eq k key then rest else k ∷ rest

unfoldable pub mem_id : ℕ → List ℕ → Bool
mem_id i [] = false
mem_id i (j ∷ js) = if j == i then true else mem_id i js

unfoldable pub remove_id : ℕ → List ℕ → List ℕ
remove_id i [] = []
remove_id i (j ∷ js) = if j == i then js else j ∷ remove_id i js

pub record OrderExecutionQueue (F : Type 0) : Type 0 where
  pub objects : ℕ → Option (OrderTask F)
  pub next_id : ℕ
  pub heap : List ℕ
  pub pending_tasks : Pending
  pub tombstoned_keys : List (List ℕ)
  -- The task that the loop holds, with the key that it had when it was taken.
  pub current : Option (ℕ × List ℕ)

abbrev pub empty : {F : Type 0} → OrderExecutionQueue F
empty = record {
  objects = λ i. none;
  next_id = 0;
  heap = [];
  pending_tasks = [];
  tombstoned_keys = [];
  current = none;
}

abbrev pub update : {A : Type 0} → (ℕ → Option A) → ℕ → A → ℕ → Option A
update objects i a j = if j == i then some a else objects j

abbrev pub is_replace_sl : Action → Bool
is_replace_sl replace_sl = true
is_replace_sl _ = false

pub rekey : List ℕ → List ℕ → ℕ → Pending → Pending
rekey old_key new_key i d = if text_eq new_key old_key then d else insert new_key i (pop old_key d)

module _ {F : Type 0} ⦃fl : Float F⦄ ⦃py : Format F⦄ where
  -- `_quickfire_coalesce_window_seconds`
  abbrev pub quickfire_window : F
  quickfire_window = fl.ratio 1 2

  -- The three `continue` tests of `_find_quickfire_replace_sl`, for one pending task.
  unfoldable pub is_quickfire : List ℕ → F → OrderTask F → Bool
  is_quickfire position_id created_at existing =
      text_eq existing.position_id position_id
      && is_replace_sl existing.action
      && is_multi_tp_reason (get existing.params reason)
      && not (quickfire_window ⊏ abs (existing.created_at ⊖ created_at))

  abbrev pub is_quickfire_at : (ℕ → Option (OrderTask F)) → List ℕ → F → ℕ → Bool
  is_quickfire_at objects position_id created_at i = elim (objects i) [
    | none ↦ false
    | some t ↦ is_quickfire position_id created_at t
  ]

  unfoldable pub find_quickfire :
      (ℕ → Option (OrderTask F)) → List ℕ → F → Pending → Option (List ℕ × ℕ)
  find_quickfire objects position_id created_at [] = none
  find_quickfire objects position_id created_at ((k, i) ∷ d) =
      if is_quickfire_at objects position_id created_at i
      then some (k, i)
      else find_quickfire objects position_id created_at d

  -- The latest intent in the older object, at the higher of the two priorities.
  unfoldable pub refresh : OrderTask F → OrderTask F → OrderTask F
  refresh task existing = record existing {
    params = task.params;
    created_at = task.created_at;
    priority =
        if ltb (rank task.priority) (rank existing.priority)
        then task.priority
        else existing.priority;
  }

  -- The merge under an equal key: only the SL actions take the time and the priority too.
  unfoldable pub merge : OrderTask F → OrderTask F → OrderTask F
  unfolding refresh
  merge task existing =
      if is_sl task.action then refresh task existing else record existing { params = task.params }

  unfoldable pub modify :
      (OrderTask F → OrderTask F) → ℕ → OrderExecutionQueue F → OrderExecutionQueue F
  modify f i q = elim (q.objects i) [
    | none ↦ q
    | some t ↦ record q { objects = update q.objects i (f t) }
  ]

  pub coalesce : OrderTask F → List ℕ × ℕ → OrderExecutionQueue F → OrderExecutionQueue F
  unfolding modify rekey refresh
  coalesce task (old_key, i) q =
      modify (refresh task) i
        (record q { pending_tasks = rekey old_key (key_of task) i q.pending_tasks })

  -- `self._pending_tasks[key] = task; self._queue.put(task)`
  unfoldable pub add : OrderTask F → OrderExecutionQueue F → OrderExecutionQueue F
  add task q = record q {
    objects = update q.objects q.next_id task;
    next_id = q.next_id + 1;
    heap = q.heap ++ q.next_id ∷ [];
    pending_tasks = insert (key_of task) q.next_id q.pending_tasks;
  }

  merge_or_add : OrderTask F → OrderExecutionQueue F → OrderExecutionQueue F
  unfolding add modify merge
  merge_or_add task q = elim (lookup (key_of task) q.pending_tasks) [
    | some i ↦ modify (merge task) i q
    | none ↦ add task q
  ]

  unfoldable pub quickfire_target : OrderTask F → OrderExecutionQueue F → Option (List ℕ × ℕ)
  quickfire_target task q =
      if is_replace_sl task.action && is_multi_tp_reason (get task.params reason)
      then find_quickfire q.objects task.position_id task.created_at q.pending_tasks
      else none

  unfoldable pub enqueue : OrderTask F → OrderExecutionQueue F → OrderExecutionQueue F
  unfolding quickfire_target coalesce merge_or_add
  enqueue task q = elim (quickfire_target task q) [
    | some target ↦ coalesce task target q
    | none ↦ merge_or_add task q
  ]
