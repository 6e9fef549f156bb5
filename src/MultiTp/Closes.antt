-- ===== src/MultiTp/Closes.antt =====
-- What the engine does with the queue and the machine when a level is filled.
use adviser_ai_constructor.Prelude.{
  ℕ, ◌≡◌, refl, ◌∙◌, ap, true, false, ◌⊎◌, some, List, arith, String, get_elem?, length-set,
}
use adviser_ai_constructor.Float.{Float, IsOrdered, IsCancelling, of_ℕ}
use adviser_ai_constructor.Position.Fsm.{
  open_, adjusting, closing, closed, PositionStateMachine, transition, can_transition,
  valid_transitions,
}
use adviser_ai_constructor.Position.Queue.Task.{Format}
use adviser_ai_constructor.Position.Queue.Execute.{LiveReply}
use adviser_ai_constructor.Position.Queue.State.{OrderExecutionQueue}
use adviser_ai_constructor.MultiTp.Shift.{TpLevel, TpPosition, decide_shift}
use adviser_ai_constructor.MultiTp.{
  Moment, is_last_level, fill, close_qty, advance, dispatch_sl_shift, handle_tp_triggered,
  remaining_quantity, transition_all_closed,
}
use adviser_ai_constructor.MultiTp.Once.{is_stale, handle-fresh}

all_closed-closed :
    (now : String) (m : PositionStateMachine)
    → (m.state ≡ open_) ⊎ (m.state ≡ adjusting) ⊎ (m.state ≡ closing)
    → (transition_all_closed now m).state ≡ closed
unfolding transition_all_closed transition can_transition valid_transitions
all_closed-closed now m h = ground arith

module _ {F : Type 0} ⦃fl : Float F⦄ ⦃py : Format F⦄ (decimal : ℕ → List ℕ) where
  remaining_self : IsOrdered F fl → IsCancelling F fl → (x : F) → remaining_quantity x x ≡ of_ℕ 0
  unfolding remaining_quantity
  remaining_self ordered cancelling x =
      ground (arith, cancelling.sub_self x, ordered.leq_total (of_ℕ 0) (of_ℕ 0))

  still_last :
      (now : Moment F) (i : ℕ) (l : TpLevel F) (p : TpPosition F)
      → is_last_level i (fill now i l p) ≡ is_last_level i p
  unfolding fill
  still_last now i l p = rw (length-set p.tp_levels i) refl

  dispatch-last :
      (now : Moment F) (i : ℕ) (l : TpLevel F) (live : LiveReply F) (p : TpPosition F)
      (q : OrderExecutionQueue F)
      → is_last_level i p ≡ true
      → dispatch_sl_shift decimal now i l live p q ≡ q
  unfolding dispatch_sl_shift decide_shift
  dispatch-last now i l live p q last = ground arith

  advance-empty :
      IsOrdered F fl
      → (now : Moment F) (p : TpPosition F) → p.current_quantity ≡ of_ℕ 0
      → (advance now p).state ≡ (transition_all_closed now.iso p.state_machine).state
  unfolding advance
  advance-empty ordered now p e = ground (arith, ordered.leq_total (of_ℕ 0) (of_ℕ 0))

  fill-last :
      IsOrdered F fl
      → IsCancelling F fl
      → (now : Moment F) (i : ℕ) (l : TpLevel F) (p : TpPosition F) → is_last_level i p ≡ true
      → (fill now i l p).current_quantity ≡ of_ℕ 0
  unfolding fill close_qty
  fill-last ordered cancelling now i l p last =
      rw last (remaining_self ordered cancelling p.current_quantity)

  -- Where the floats are ordered and a float less itself is zero, the first event for the last
  -- level of a position in OPEN, ADJUSTING or CLOSING leaves no quantity and a CLOSED machine, and
  -- moves no stop-loss: the queue is as it was.
  pub handle-last_level :
      IsOrdered F fl
      → IsCancelling F fl
      → (now : Moment F) (i : ℕ) (live : LiveReply F) (p : TpPosition F) (q : OrderExecutionQueue F)
        (l : TpLevel F)
      → get_elem? p.tp_levels i ≡ some l
      → is_stale decimal i l p ≡ false
      → is_last_level i p ≡ true
      → (p.state_machine.state ≡ open_)
        ⊎ (p.state_machine.state ≡ adjusting)
        ⊎ (p.state_machine.state ≡ closing)
      → (p' : TpPosition F) × (handle_tp_triggered decimal now i live (p, q) ≡ some (p', q))
        × (p'.current_quantity ≡ of_ℕ 0)
        × (p'.state ≡ closed)
  handle-last_level ordered cancelling now i live p q l at fresh last state =
      let empty = fill-last ordered cancelling now i l p last in
      let same = dispatch-last now i l live (fill now i l p) q (still_last now i l p ∙ last) in
      (
        advance now (fill now i l p),
        handle-fresh decimal now i live p q l at fresh
            ∙ ap (λ q'. some (advance now (fill now i l p), q')) same,
        unfold advance in empty,
        advance-empty ordered now (fill now i l p) empty
            ∙ (unfold fill in all_closed-closed now.iso p.state_machine state),
      )
