-- ===== src/MultiTp/Events.antt =====
-- Any events for a position: each level is filled at most once, and the quantity stays a quantity.
pub mod Final
use adviser_ai_constructor.Prelude.{
  ℕ, ◌≡◌, ◌≢◌, refl, true, false, inl, inr, Option, none, some, List, [], ◌∷◌, ◌++◌, arith, All,
  All-append, ==_iff,
}
use adviser_ai_constructor.Float.{Float, IsOrdered, ◌⊖◌, ◌⊑◌, of_ℕ}
use adviser_ai_constructor.Position.Queue.Task.{Format}
use adviser_ai_constructor.Position.Queue.Execute.{LiveReply}
use adviser_ai_constructor.Position.Queue.State.{mem_id, OrderExecutionQueue}
use adviser_ai_constructor.Position.Queue.State.Dict.{
  IsOnce, IsOnce-append, mem_id-last, mem_id-append, mem_id-append_ne,
}
use adviser_ai_constructor.MultiTp.Shift.{TpLevel, TpPosition}
use adviser_ai_constructor.MultiTp.{
  Moment, fill, advance, dispatch_sl_shift, handle_tp_triggered, remaining_quantity,
}
use adviser_ai_constructor.MultiTp.Once.{levels_of, is_stale, handle-cases, advance-keeps}

All-known :
    (is ds : List ℕ) (j : ℕ)
    → All (λ i. mem_id i ds ≡ true) is
    → All (λ i. mem_id i (ds ++ j ∷ []) ≡ true) is
All-known [] ds j h = tt
All-known (i ∷ is) ds j h = (mem_id-append i j ds h.0, All-known is ds j h.1)

unlisted :
    (j : ℕ) (is ds : List ℕ)
    → All (λ i. mem_id i ds ≡ true) is
    → mem_id j ds ≡ false
    → mem_id j is ≡ false
unfolding mem_id
unlisted j [] ds h new = refl
unlisted j (i ∷ is) ds h new = ground (arith, unlisted j is ds, ==_iff i j)

-- An event for a level, at a moment, with what the exchange replies.
abbrev pub TpEvent : Type 0 → Type 0
TpEvent F = Moment F × ℕ × LiveReply F

module _ {F : Type 0} ⦃fl : Float F⦄ ⦃py : Format F⦄ (decimal : ℕ → List ℕ) where
  abbrev after :
      Option (TpPosition F × OrderExecutionQueue F)
      → TpPosition F × OrderExecutionQueue F
      → TpPosition F × OrderExecutionQueue F
  after none s = s
  after (some s') s = s'

  -- Events in order; one that raises changes nothing.
  pub run_events :
      List (TpEvent F) → TpPosition F × OrderExecutionQueue F → TpPosition F × OrderExecutionQueue F
  run_events [] s = s
  run_events ((now, i, live) ∷ events) s =
      run_events events (after (handle_tp_triggered decimal now i live s) s)

  -- The history names no level twice, and only levels that are dispatched; the quantity is not
  -- negative.
  record IsAccounted (p : TpPosition F) : Type 0 where
    once : IsOnce (levels_of p.tp_history)
    known : All (λ i. mem_id i p.dispatched_sl_levels ≡ true) (levels_of p.tp_history)
    nonnegative : (of_ℕ 0 ⊑ p.current_quantity) ≡ true

  remaining-nonnegative :
      IsOrdered F fl → (current closed : F) → (of_ℕ 0 ⊑ remaining_quantity current closed) ≡ true
  unfolding remaining_quantity
  remaining-nonnegative ordered current closed =
      ground
        (arith, ordered.leq_total (of_ℕ 0) (of_ℕ 0), ordered.leq_total (of_ℕ 0) (current ⊖ closed))

  fill-IsAccounted :
      IsOrdered F fl
      → (now : Moment F) (i : ℕ) (l : TpLevel F) (p : TpPosition F) → is_stale decimal i l p ≡ false
      → IsAccounted p
      → IsAccounted (advance now (fill now i l p))
  fill-IsAccounted ordered now i l p fresh v =
      let (levels, dispatched, history, quantity) = advance-keeps decimal now i l p in
      let new : mem_id i p.dispatched_sl_levels ≡ false = ground arith in
      record {
        once = rw history (
            IsOnce-append i (levels_of p.tp_history) v.once
              (unlisted i (levels_of p.tp_history) p.dispatched_sl_levels v.known new));
        known =
            rw (history, dispatched)
              (All-append _ (levels_of p.tp_history) (i ∷ [])
                (All-known (levels_of p.tp_history) p.dispatched_sl_levels i v.known)
                (mem_id-last i p.dispatched_sl_levels, tt));
        nonnegative = rw quantity (unfold fill in remaining-nonnegative ordered _ _);
      }

  run_events-keeps :
      IsOrdered F fl
      → (events : List (TpEvent F)) (p : TpPosition F) (q : OrderExecutionQueue F) → IsAccounted p
      → IsAccounted (run_events events (p, q)).0
  unfolding run_events
  run_events-keeps ordered [] p q v = v
  run_events-keeps ordered ((now, i, live) ∷ events) p q v =
      elim (handle-cases decimal now i live p q) [
        | inl e ↦ rw (e, run_events) (run_events-keeps ordered events p q v)
        | inr (inl (l, at, stale, e)) ↦ rw (e, run_events) (run_events-keeps ordered events p q v)
        | inr (inr (l, at, fresh, e)) ↦
            rw (e, run_events)
              (run_events-keeps ordered events (advance now (fill now i l p))
                (dispatch_sl_shift decimal now i l live (fill now i l p) q)
                (fill-IsAccounted ordered now i l p fresh v))
      ]

  -- Where the floats are ordered, over any events for a position without a history and with a
  -- quantity that is not negative, in any order and with any repetitions, no level is filled twice
  -- and the quantity never gets negative.
  pub run_events-IsOnce :
      IsOrdered F fl
      → (events : List (TpEvent F)) (p : TpPosition F) (q : OrderExecutionQueue F)
      → p.tp_history ≡ []
      → (of_ℕ 0 ⊑ p.current_quantity) ≡ true
      → let p' = (run_events events (p, q)).0 in
        (IsOnce (levels_of p'.tp_history)) × ((of_ℕ 0 ⊑ p'.current_quantity) ≡ true)
  run_events-IsOnce ordered events p q new nonnegative =
      let v =
        run_events-keeps ordered events p q
          (record { once = rw new tt; known = rw new tt; nonnegative = nonnegative }) in
      (v.once, v.nonnegative)
