-- ===== src/Position/Queue/Loop/Tests.antt =====
-- The queue at concrete inputs: one position, its stop-loss moves, and the two ways to lose a task.
use adviser_ai_constructor.Prelude.{
  ℕ, ◌≡◌, ◌≢◌, ◌⊎◌, refl, Bool, true, false, none, some, List, [], ◌∷◌, arith, All, ◌≤◌,
}
use adviser_ai_constructor.Float.Fixed.{ℤ, pos, negsuc, fixed}
use adviser_ai_constructor.Text.{codes, text_eq, text_eq_iff, starts_with, contains}
use adviser_ai_constructor.Position.Queue.Task.{
  sell, Value, num, text, order_side, symbol, side, new_trigger_price, full_quantity,
  client_order_id, reason, Params, Format, sl_adjustment, rank, Action, replace_sl, OrderTask,
  is_sl, task_key, key_of, format_target, to_float, action_name, is_multi_tp_reason,
}
use adviser_ai_constructor.Position.Queue.State.{
  remove_id, lookup, pop, insert, mem_key, mem_id, OrderExecutionQueue, empty, quickfire_target,
  find_quickfire, is_quickfire, enqueue,
}
use adviser_ai_constructor.Position.Queue.State.Pending.{IsValid}
use adviser_ai_constructor.Position.Queue.State.Enqueue.{enqueue-latest_intent}
use adviser_ai_constructor.Position.Queue.Loop.{
  succeeded, settle, finish, dequeue, take_task, purge_pending, is_purged, Event, enqueued,
  dequeued, run, step, clear,
}
use adviser_ai_constructor.Position.Queue.Loop.Gone.{holds}
use adviser_ai_constructor.Position.Queue.Loop.Dropped.{purge-drops}
use adviser_ai_constructor.Position.Queue.Loop.Steps.{run-IsValid}
use adviser_ai_constructor.Position.Queue.Loop.Lost.{coalesced_in_flight-lost}
use adviser_ai_constructor.Position.Queue.Loop.Tombstone.{stale_tombstone-drops}

abbrev print_number : ℤ → List ℕ
print_number (pos n) = n ∷ []
print_number (negsuc n) = b'-' ∷ n ∷ []

abbrev print_value : Value ℤ → List ℕ
print_value (num x) = print_number x
print_value (text t) = t
print_value _ = codes "?"

-- A stand-in for the formats of Python, which prints a number as one character.
instance abbrev plain_format : Format ℤ
plain_format = record { format_10g = print_number; show = print_value; parse_float = λ t. none }

abbrev move_params : ℤ → Params ℤ
move_params x new_trigger_price = some (num x)
move_params x full_quantity = some (num (pos 5))
move_params x symbol = some (text (codes "BTC"))
move_params x side = some (order_side sell)
move_params x client_order_id = some (text (codes "id"))
move_params x reason = some (text (codes "tp1_hit_sl_adjustment"))
move_params x _ = none

-- A multi-TP move of the stop-loss of position 7 to a price.
abbrev move : ℤ → OrderTask ℤ
move x = record {
  priority = sl_adjustment;
  created_at = pos 0;
  position_id = codes "7";
  action = replace_sl;
  params = move_params x;
  retry_count = 0;
  max_retries = 3;
}

abbrev events : List (Event ℤ)
events = enqueued (move (pos 100)) ∷ dequeued 0 ∷ []

abbrev waiting : OrderExecutionQueue ℤ
waiting = run (enqueued (move (pos 100)) ∷ []) empty

abbrev executing : OrderExecutionQueue ℤ
executing = run events empty

run-IsValid_example : IsValid ℤ fixed plain_format executing
unfolding action_name
run-IsValid_example = run-IsValid events ((omega arith, refl), (tt, tt))

waiting-IsValid : IsValid ℤ fixed plain_format waiting
waiting-IsValid = run-IsValid (enqueued (move (pos 100)) ∷ []) ((omega arith, refl), tt)

enqueue-latest_intent_example :
    (i : ℕ) × (t : OrderTask ℤ) × (lookup
        (key_of (move (pos 110)))
        (enqueue (move (pos 110)) waiting).pending_tasks
      ≡ some i)
    × ((enqueue (move (pos 110)) waiting).objects i ≡ some t)
    × (t.position_id ≡ codes "7")
    × (t.action ≡ replace_sl)
    × (t.params ≡ move_params (pos 110))
    × ((is_sl replace_sl ≡ false) ⊎ (rank t.priority ≤ rank sl_adjustment))
enqueue-latest_intent_example =
    enqueue-latest_intent (move (pos 110)) waiting waiting-IsValid (omega arith, refl)

abbrev any_action : Action → Bool
any_action action = true

waiting-pending : lookup (key_of (move (pos 100))) waiting.pending_tasks ≡ some 0
unfolding run step enqueue quickfire_target find_quickfire lookup task_key action_name
    is_multi_tp_reason starts_with contains insert text_eq
waiting-pending = refl

seven-plain : All (λ c. c ≢ b':') (codes "7")
seven-plain = omega arith

abbrev afterwards : List (Event ℤ)
afterwards = dequeued 0 ∷ enqueued (move (pos 100)) ∷ dequeued 0 ∷ []

purge-drops_example :
    let q' = (purge_pending (codes "7") any_action waiting).0 in
    let later = run afterwards (dequeue 0 q') in
    (lookup (key_of (move (pos 100))) q'.pending_tasks ≡ none)
    × ((dequeue 0 q').current ≡ none)
    × (holds 0 later.current ≡ false)
    × (mem_id 0 later.heap ≡ false)
unfolding run step enqueue is_multi_tp_reason starts_with contains find_quickfire lookup mem_id
    remove_id
purge-drops_example =
    purge-drops (enqueued (move (pos 100)) ∷ []) (codes "7") any_action (key_of (move (pos 100))) 0
      (move (pos 100)) afterwards ((omega arith, refl), tt) seven-plain refl waiting-pending refl
      refl refl refl

executing-IsValid : IsValid ℤ fixed plain_format executing
executing-IsValid = run-IsValid events ((omega arith, refl), (tt, tt))

executing-current : executing.current ≡ some (0, key_of (move (pos 100)))
unfolding run step enqueue quickfire_target find_quickfire lookup task_key action_name dequeue
    take_task mem_id mem_key is_multi_tp_reason starts_with contains
executing-current = refl

executing-target : quickfire_target (move (pos 110)) executing ≡ some (key_of (move (pos 100)), 0)
unfolding run step enqueue quickfire_target find_quickfire lookup task_key action_name dequeue
    take_task mem_id mem_key is_quickfire is_multi_tp_reason starts_with contains text_eq insert
executing-target = refl

keys_differ : text_eq (key_of (move (pos 110))) (key_of (move (pos 100))) ≡ false
unfolding task_key action_name text_eq format_target to_float
keys_differ = refl

coalesced_in_flight-lost_example :
    let q' = finish (pos 1) (codes "e") succeeded (enqueue (move (pos 110)) executing) in
    (q'.heap ≡ executing.heap)
    × (q'.current ≡ none)
    × (lookup (key_of (move (pos 110))) q'.pending_tasks ≡ some 0)
    × ((enqueue (move (pos 110)) q').heap ≡ executing.heap)
coalesced_in_flight-lost_example =
    coalesced_in_flight-lost (pos 1) (codes "e") (move (pos 110)) executing 0
      (key_of (move (pos 100))) (key_of (move (pos 100))) executing-IsValid (omega arith, refl)
      executing-current executing-target
      (λ e.
        ground
          (arith, keys_differ, text_eq_iff (key_of (move (pos 110))) (key_of (move (pos 100)))))

stale_tombstone-drops_example :
    let q₁ =
      finish (pos 1) (codes "e") succeeded (purge_pending (codes "7") any_action executing).0 in
    let q₂ = dequeue q₁.next_id (enqueue (move (pos 100)) q₁) in
    (q₂.current ≡ none)
    × (q₂.heap ≡ q₁.heap)
    × (lookup (key_of (move (pos 100))) q₂.pending_tasks ≡ some q₁.next_id)
unfolding run step enqueue quickfire_target find_quickfire lookup task_key action_name dequeue
    take_task mem_id mem_key is_multi_tp_reason starts_with contains insert text_eq finish settle
    clear purge_pending pop is_purged
stale_tombstone-drops_example =
    stale_tombstone-drops (pos 1) (codes "e") any_action executing 0 (move (pos 100))
      (move (pos 100)) executing-IsValid executing-current refl refl refl refl refl
