-- ===== src/LiveTracker/Unsent.antt =====
-- A stop that is recorded and not sent: `_dispatch_replace_sl` without a stop-loss order.
use adviser_ai_constructor.Prelude.{
  ap, ◌∙◌, ◌∷◌, ◌++◌, All, ℕ, ◌≡◌, refl, inl, inr, true, ◌&&◌, none, some, List, [], Bool-cases,
}
use adviser_ai_constructor.Float.{Float, IsOrdered, ◌⊏◌, ◌⊑◌, of_ℕ}
use adviser_ai_constructor.Text.{text_eq_iff}
use adviser_ai_constructor.StopLoss.{PositionContext, apply_state_changes, SlAdjustmentResult}
use adviser_ai_constructor.StopLoss.Protects.{apply-current}
use adviser_ai_constructor.StopLoss.Trailing.{OnlyTrails, evaluate-repeats}
use adviser_ai_constructor.Position.Queue.Task.{Format, OrderTask}
use adviser_ai_constructor.LiveTracker.{
  Tracked, RealtimeSlAdjuster, Environment, is_position_eligible, cooldown_elapsed,
  evaluate_pipeline, dispatch_replace_sl, tick_position,
}
use adviser_ai_constructor.LiveTracker.Ticks.{moved_stop, tick_position-moves}

pub record LaterTick (F : Type 0) : Type 0 where
  pub now : F
  pub price : F
  pub adjuster : RealtimeSlAdjuster F
  pub order : List ℕ

module _ {F : Type 0} ⦃fl : Float F⦄ ⦃py : Format F⦄ (env : Environment F) where
  dispatch-nothing :
      (now : F) (p : Tracked F) (r : SlAdjustmentResult F)
      → p.sl_exchange_order_id ≡ []
      → dispatch_replace_sl env now p r ≡ []
  unfolding dispatch_replace_sl
  dispatch-nothing now p r missing = rw ((text_eq_iff p.sl_exchange_order_id []).1 missing) refl

  tick_position-idle :
      (now price : F) (s : RealtimeSlAdjuster F) (p : Tracked F)
      → evaluate_pipeline env price s p ≡ none
      → tick_position env now price s p ≡ (s, p, [])
  unfolding tick_position
  tick_position-idle now price s p e =
      elim (Bool-cases (is_position_eligible s p && cooldown_elapsed now p.position_id s)) [
        | inl h ↦ rw (h, tick_position) (rw (e, tick_position) refl)
        | inr h ↦ rw (h, tick_position) refl
      ]

  pipeline-repeats :
      IsOrdered F fl
      → (price price' : F) (s s' : RealtimeSlAdjuster F) (p next : Tracked F)
        (r : SlAdjustmentResult F)
      → OnlyTrails p.context
      → (of_ℕ 0 ⊏ price) ≡ true
      → (price' ⊑ price) ≡ true
      → evaluate_pipeline env price s p ≡ some r
      → next.context ≡ apply_state_changes r p.context
      → evaluate_pipeline env price' s' next ≡ none
  unfolding evaluate_pipeline
  pipeline-repeats ordered price price' s s' p next r o positive lower e same =
      rw same (evaluate-repeats ordered p.context price price' _ _ r o positive lower e)

  -- The position after later ticks, and the tasks that they enqueue. Before each tick an order of the
  -- position may have appeared or changed.
  pub later_ticks : List (LaterTick F) → Tracked F → Tracked F × List (OrderTask F)
  later_ticks [] p = (p, [])
  later_ticks (t ∷ ticks) p =
      let (_, p', tasks) =
        tick_position env t.now t.price t.adjuster (record p { sl_exchange_order_id = t.order }) in
      let (p'', more) = later_ticks ticks p' in (p'', tasks ++ more)

  later_ticks-idle :
      IsOrdered F fl
      → (price : F) (s : RealtimeSlAdjuster F) (p p' : Tracked F) (r : SlAdjustmentResult F)
        (ticks : List (LaterTick F))
      → OnlyTrails p.context
      → (of_ℕ 0 ⊏ price) ≡ true
      → evaluate_pipeline env price s p ≡ some r
      → p'.context ≡ apply_state_changes r p.context
      → All (λ t. (t.price ⊑ price) ≡ true) ticks
      → ((later_ticks ticks p').0.context ≡ apply_state_changes r p.context)
        × ((later_ticks ticks p').1 ≡ [])
  unfolding later_ticks
  later_ticks-idle ordered price s p p' r [] o positive e same h = (same, refl)
  later_ticks-idle ordered price s p p' r (t ∷ ticks) o positive e same h =
      let next = record p' { sl_exchange_order_id = t.order } in
      let quiet =
        tick_position-idle t.now t.price t.adjuster next
          (pipeline-repeats ordered price t.price s t.adjuster p next r o positive h.0 e same) in
      rw (quiet, later_ticks)
        (later_ticks-idle ordered price s p next r ticks o positive e same h.1)

  -- Where the floats are ordered, take an eligible long position that only trails, whose cooldown has elapsed and that
  -- has no stop-loss order. A tick whose price gives a result records the new stop and enqueues nothing; nor do
  -- any later ticks at prices that are no higher, whatever their clocks and bars are, though the
  -- position may have an order by then, and they leave the recorded stop.
  pub tick_position-unsent :
      IsOrdered F fl
      → (now price : F) (s : RealtimeSlAdjuster F) (p : Tracked F) (r : SlAdjustmentResult F)
        (ticks : List (LaterTick F))
      → OnlyTrails p.context
      → (of_ℕ 0 ⊏ price) ≡ true
      → All (λ t. (t.price ⊑ price) ≡ true) ticks
      → is_position_eligible s p ≡ true
      → cooldown_elapsed now p.position_id s ≡ true
      → evaluate_pipeline env price s p ≡ some r
      → p.sl_exchange_order_id ≡ []
      → let p' = (tick_position env now price s p).1 in
        (p'.context.current_sl_price ≡ r.new_sl_price)
        × ((tick_position env now price s p).2 ≡ [])
        × ((later_ticks ticks p').0.context.current_sl_price ≡ r.new_sl_price)
        × ((later_ticks ticks p').1 ≡ [])
  tick_position-unsent ordered now price s p r ticks o positive lower ok elapsed e missing =
      let (kept, silent) =
        later_ticks-idle ordered price s p (moved_stop env r p) r ticks o positive e refl lower in
      rw (tick_position-moves env now price s p r ok elapsed e) (
        apply-current r p.context,
        dispatch-nothing now (moved_stop env r p) r missing,
        ap (λ (c : PositionContext F). c.current_sl_price) kept ∙ apply-current r p.context,
        silent,
      )
