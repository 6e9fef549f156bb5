-- ===== src/Position/Queue/Loop.antt =====
-- app/services/position/order_queue.py: the steps of `start_processing`, the escalation of a failed
-- stop-loss task, and `purge_pending`. Between two steps any call of `enqueue` or `purge_pending`
-- may come: the loop holds its task in `current`.
mod Gone
mod Purge
mod Steps
mod Single
mod Dropped
mod Lost
mod Tombstone
mod Tests
use adviser_ai_constructor.Prelude.{
  ℕ, ◌+◌, Bool, true, false, not, ◌&&◌, Option, none, some, List, [], ◌∷◌, ◌++◌, ltb, if◌then◌else◌,
}
use adviser_ai_constructor.Float.{Float, ◌⊗◌, of_ℕ, min_f}
use adviser_ai_constructor.Text.{starts_with}
use adviser_ai_constructor.Position.Queue.Task.{
  Value, null, text, ParamKey, symbol, side, quantity, new_quantity, full_quantity, client_order_id,
  reason, Params, Format, OrderPriority, emergency_close, Action, place_sl, replace_sl,
  emergency_market_close, OrderTask, is_sl, get_default, get, key_of,
}
use adviser_ai_constructor.Position.Queue.Execute.{has_positive_emergency_quantity}
use adviser_ai_constructor.Position.Queue.State.{
  Pending, lookup, pop, mem_key, discard, mem_id, remove_id, OrderExecutionQueue, modify, enqueue,
}

-- The parameters of the emergency task: each key stands in the dict, with None for a missing value.
unfoldable pub emergency_params : {F : Type 0} → List ℕ → Params F → Params F
emergency_params why params symbol = some (get params symbol)
emergency_params why params side = some (get params side)
emergency_params why params full_quantity =
    some (get_default params full_quantity (get_default params quantity (get params new_quantity)))
emergency_params why params client_order_id = some (get params client_order_id)
emergency_params why params reason = some (text why)
emergency_params why params _ = none

unfoldable pub emergency_task : {F : Type 0} → F → List ℕ → OrderTask F → OrderTask F
unfolding emergency_params
emergency_task now why task = record {
  priority = emergency_close;
  created_at = now;
  position_id = task.position_id;
  action = emergency_market_close;
  params = emergency_params why task.params;
  retry_count = 0;
  max_retries = 3;
}

-- How the execution of a task, its callback included, ended.
pub data Outcome : Type 0 where
  succeeded transient_error would_trigger already_flat fatal_error : Outcome

module _ {F : Type 0} ⦃fl : Float F⦄ ⦃py : Format F⦄ where
  -- `_compute_backoff`: `pow2` is `2 ** retry_count`.
  compute_backoff : ℕ → F
  compute_backoff pow2 = min_f (fl.ratio 1 2 ⊗ of_ℕ pow2) (of_ℕ 10)

  -- `_handle_max_retries` and the end of `_handle_fatal_error`
  unfoldable pub escalate : F → List ℕ → OrderTask F → OrderExecutionQueue F → OrderExecutionQueue F
  escalate now why task q =
      if is_sl task.action && has_positive_emergency_quantity task.params
      then enqueue (emergency_task now why task) q
      else q

  -- `self._queue.get()`, the key, and the test for a tombstone
  unfoldable pub take_task : ℕ → OrderTask F → OrderExecutionQueue F → OrderExecutionQueue F
  take_task i task q =
      if mem_key (key_of task) q.tombstoned_keys
      then record q {
        heap = remove_id i q.heap;
        tombstoned_keys = discard (key_of task) q.tombstoned_keys;
      }
      else record q { heap = remove_id i q.heap; current = some (i, key_of task) }

  -- The loop takes the task `i` of the heap, if the loop is free and the heap has it.
  unfoldable pub dequeue : ℕ → OrderExecutionQueue F → OrderExecutionQueue F
  unfolding take_task
  dequeue i q = elim q.current [
    | some c ↦ q
    | none ↦ elim (q.objects i) [
      | none ↦ q
      | some task ↦ if mem_id i q.heap then take_task i task q else q
    ]
  ]

  -- The task goes back, and stays pending.
  put_back : ℕ → OrderExecutionQueue F → OrderExecutionQueue F
  put_back i q = record q { heap = q.heap ++ i ∷ []; current = none }

  -- `finally: self._pending_tasks.pop(key, None)`
  unfoldable pub clear : List ℕ → OrderExecutionQueue F → OrderExecutionQueue F
  clear key q = record q { pending_tasks = pop key q.pending_tasks; current = none }

  abbrev retried : OrderTask F → OrderTask F
  retried task = record task { retry_count = task.retry_count + 1 }

  -- `raw` is the text of the error that the emergency task's reason quotes.
  unfoldable pub settle :
      F
      → List ℕ
      → Outcome
      → ℕ
      → List ℕ
      → OrderTask F
      → OrderExecutionQueue F
      → OrderExecutionQueue F
  unfolding put_back clear
  settle now raw transient_error i key task q =
      if ltb task.retry_count task.max_retries
      then put_back i (modify retried i q)
      else clear key (escalate now raw task q)
  settle now raw fatal_error i key task q = clear key (escalate now raw task q)
  settle now raw _ i key task q = clear key q

  -- The end of the execution that `current` names.
  unfoldable pub finish : F → List ℕ → Outcome → OrderExecutionQueue F → OrderExecutionQueue F
  unfolding settle
  finish now raw outcome q = elim q.current [
    | none ↦ q
    | some c ↦ elim (q.objects c.0) [ none ↦ q | some task ↦ settle now raw outcome c.0 c.1 task q ]
  ]

  -- No headroom at the rate limit, since the queue was stopped: the task goes back.
  no_headroom : OrderExecutionQueue F → OrderExecutionQueue F
  unfolding put_back
  no_headroom q = elim q.current [ none ↦ q | some c ↦ put_back c.0 q ]

  -- Whether `purge_pending` drops the entry; `actions` is the set of actions.
  unfoldable pub is_purged :
      (ℕ → Option (OrderTask F)) → List ℕ → (Action → Bool) → List ℕ × ℕ → Bool
  is_purged objects position_id actions (key, i) =
      starts_with (position_id ++ b':' ∷ []) key
      && elim (objects i) [ none ↦ false | some t ↦ actions t.action ]

  -- The entries that stay, and the keys that are purged, in order.
  unfoldable pub split_pending :
      (ℕ → Option (OrderTask F)) → List ℕ → (Action → Bool) → Pending → Pending × List (List ℕ)
  split_pending objects position_id actions [] = ([], [])
  split_pending objects position_id actions (e ∷ d) =
      let (kept, purged) = split_pending objects position_id actions d in
      if is_purged objects position_id actions e then (kept, e.0 ∷ purged) else (e ∷ kept, purged)

  -- `purge_pending`, with the list of keys that it returns
  unfoldable pub purge_pending :
      List ℕ → (Action → Bool) → OrderExecutionQueue F → OrderExecutionQueue F × List (List ℕ)
  unfolding split_pending
  purge_pending position_id actions q =
      let (kept, purged) = split_pending q.objects position_id actions q.pending_tasks in
      (record q { pending_tasks = kept; tombstoned_keys = q.tombstoned_keys ++ purged }, purged)

-- What may happen to the queue between two awaits of the loop.
pub data Event (F : Type 0) : Type 0 where
  enqueued : OrderTask F → Event F
  dequeued : ℕ → Event F
  finished : F → List ℕ → Outcome → Event F
  stopped : Event F
  purged : List ℕ → (Action → Bool) → Event F

module _ {F : Type 0} ⦃fl : Float F⦄ ⦃py : Format F⦄ where
  pub step : Event F → OrderExecutionQueue F → OrderExecutionQueue F
  step (enqueued task) q = enqueue task q
  step (dequeued i) q = dequeue i q
  step (finished now raw outcome) q = finish now raw outcome q
  step stopped q = no_headroom q
  step (purged position_id actions) q = (purge_pending position_id actions q).0

  pub run : List (Event F) → OrderExecutionQueue F → OrderExecutionQueue F
  unfolding step
  run [] q = q
  run (e ∷ events) q = run events (step e q)
