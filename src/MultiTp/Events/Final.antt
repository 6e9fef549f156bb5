-- ===== src/MultiTp/Events/Final.antt =====
-- A level that was filled, or refused as filled, stays so: no later event for it does anything.
use adviser_ai_constructor.Prelude.{
  ℕ, ◌≡◌, ◌≢◌, refl, sym, ◌∙◌, ap, true, inl, inr, Option, some, List, [], ◌∷◌, arith, ◌==◌, ==_iff,
  Bool-cases, get_elem?, get_elem?-set_self, get_elem?-set_ne,
}
use adviser_ai_constructor.Float.{Float}
use adviser_ai_constructor.Position.Queue.Task.{Format}
use adviser_ai_constructor.Position.Queue.Execute.{LiveReply}
use adviser_ai_constructor.Position.Queue.State.{OrderExecutionQueue}
use adviser_ai_constructor.Position.Queue.State.Dict.{mem_id-append}
use adviser_ai_constructor.MultiTp.Shift.{TpLevel, triggered, TpPosition}
use adviser_ai_constructor.MultiTp.{Moment, fill, advance, handle_tp_triggered}
use adviser_ai_constructor.MultiTp.Once.{is_stale, handle-stale, handle-cases, advance-keeps}
use adviser_ai_constructor.MultiTp.Events.{TpEvent, after, run_events}

some_pair :
    {A B : Type 0} {a a' : A} {b b' : B}
    → ◌≡◌ {A = Option (A × B)} (some (a, b)) (some (a', b'))
    → (a ≡ a') × (b ≡ b')
some_pair h = (cc, cc)

module _ {F : Type 0} ⦃fl : Float F⦄ ⦃py : Format F⦄ (decimal : ℕ → List ℕ) where
  -- The position has the level, and it is triggered or was dispatched.
  abbrev IsSpent : ℕ → TpPosition F → Type 0
  IsSpent i p =
      (l : TpLevel F) × (get_elem? p.tp_levels i ≡ some l) × (is_stale decimal i l p ≡ true)

  fill-spends :
      (now : Moment F) (i : ℕ) (l : TpLevel F) (p : TpPosition F)
      → get_elem? p.tp_levels i ≡ some l
      → IsSpent i (advance now (fill now i l p))
  fill-spends now i l p e =
      let (levels, _, _, _) = advance-keeps decimal now i l p in
      (
        record l { status = triggered },
        ap (λ ls. get_elem? ls i) levels
            ∙ get_elem?-set_self p.tp_levels i l (record l { status = triggered }) e,
        refl,
      )

  -- An event for another level leaves the level and the mark of its dispatch.
  fill-keeps_IsSpent :
      (now : Moment F) (i j : ℕ) (l : TpLevel F) (p : TpPosition F)
      → j ≢ i
      → IsSpent i p
      → IsSpent i (advance now (fill now j l p))
  fill-keeps_IsSpent now i j l p ne (m, at, stale) =
      let (levels, dispatched, _, _) = advance-keeps decimal now j l p in
      (
        m,
        ap (λ ls. get_elem? ls i) levels
            ∙ (get_elem?-set_ne p.tp_levels j i (record l { status = triggered }) ne ∙ at),
        rw dispatched (ground (arith, mem_id-append i j p.dispatched_sl_levels)),
      )

  handle-spends :
      (now : Moment F) (i : ℕ) (live : LiveReply F) (p p' : TpPosition F)
      (q q' : OrderExecutionQueue F)
      → handle_tp_triggered decimal now i live (p, q) ≡ some (p', q')
      → IsSpent i p'
  handle-spends now i live p p' q q' h = elim (handle-cases decimal now i live p q) [
    | inl e ↦ cc
    | inr (inl (l, at, stale, same)) ↦
        let (ep, eq) = some_pair (sym same ∙ h) in rw (← ep) (l, at, stale)
    | inr (inr (l, at, fresh, next)) ↦
        let (ep, eq) = some_pair (sym next ∙ h) in rw (← ep) (fill-spends now i l p at)
  ]

  handle-keeps_IsSpent :
      (now : Moment F) (i j : ℕ) (live : LiveReply F) (p : TpPosition F) (q : OrderExecutionQueue F)
      → IsSpent i p
      → IsSpent i (after decimal (handle_tp_triggered decimal now j live (p, q)) (p, q)).0
  handle-keeps_IsSpent now i j live p q h = elim (handle-cases decimal now j live p q) [
    | inl e ↦ rw e h
    | inr (inl (l, at, stale, same)) ↦ rw same h
    | inr (inr (l, at, fresh, next)) ↦ rw next (elim (Bool-cases (j == i)) [
      | inl e ↦
          let same : j ≡ i = ground (arith, ==_iff j i) in rw (← same) (fill-spends now j l p at)
      | inr e ↦ fill-keeps_IsSpent now i j l p (ground (arith, ==_iff j i)) h
    ])
  ]

  run_events-keeps_IsSpent :
      (events : List (TpEvent F)) (i : ℕ) (s : TpPosition F × OrderExecutionQueue F)
      → IsSpent i s.0
      → IsSpent i (run_events decimal events s).0
  unfolding run_events
  run_events-keeps_IsSpent [] i s h = h
  run_events-keeps_IsSpent ((now, j, live) ∷ events) i s h =
      run_events-keeps_IsSpent events i _ (handle-keeps_IsSpent now i j live s.0 s.1 h)

  -- After the engine accepted an event for a level, and after any further events for any levels, an event for that
  -- level leaves the position and the queue as they are, whatever the clock and the exchange say.
  pub handle_tp_triggered-final :
      (now later : Moment F) (i : ℕ) (live live' : LiveReply F) (events : List (TpEvent F))
      (p p' : TpPosition F) (q q' : OrderExecutionQueue F)
      → handle_tp_triggered decimal now i live (p, q) ≡ some (p', q')
      → handle_tp_triggered decimal later i live' (run_events decimal events (p', q'))
        ≡ some (run_events decimal events (p', q'))
  handle_tp_triggered-final now later i live live' events p p' q q' h =
      let s = run_events decimal events (p', q') in
      let (l, at, stale) =
        run_events-keeps_IsSpent events i (p', q') (handle-spends now i live p p' q q' h) in
      handle-stale decimal later i live' s.0 s.1 l at stale
