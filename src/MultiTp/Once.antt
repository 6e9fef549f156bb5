-- ===== src/MultiTp/Once.antt =====
-- What an event does: it is refused, changes nothing, or fills its level.
use adviser_ai_constructor.Prelude.{
  ℕ, ◌≡◌, refl, ap, Bool, true, false, ◌||◌, ◌⊎◌, inl, inr, none, some, List, [], ◌∷◌, ◌++◌,
  Option-cases, Bool-cases, get_elem?, set,
}
use adviser_ai_constructor.Float.{Float}
use adviser_ai_constructor.Position.Queue.Task.{Format}
use adviser_ai_constructor.Position.Queue.Execute.{LiveReply}
use adviser_ai_constructor.Position.Queue.State.{mem_id, OrderExecutionQueue}
use adviser_ai_constructor.MultiTp.Shift.{TpLevel, triggered, TpPosition, TpHistoryEntry}
use adviser_ai_constructor.MultiTp.{
  Moment, is_triggered, fill, advance, dispatch_sl_shift, handle_tp_triggered, history_entry,
}

-- What a history says of its levels, none of which it names twice.
abbrev pub levels_of : {F : Type 0} → List (TpHistoryEntry F) → List ℕ
levels_of [] = []
levels_of (e ∷ history) = e.tp_level ∷ levels_of history

levels_of-append :
    {F : Type 0} (history : List (TpHistoryEntry F)) (e : TpHistoryEntry F)
    → levels_of (history ++ e ∷ []) ≡ levels_of history ++ e.tp_level ∷ []
levels_of-append [] e = refl
levels_of-append (f ∷ history) e = ap (λ is. f.tp_level ∷ is) (levels_of-append history e)

module _ {F : Type 0} ⦃fl : Float F⦄ ⦃py : Format F⦄ (decimal : ℕ → List ℕ) where
  -- The level is triggered, or was dispatched.
  abbrev pub is_stale : ℕ → TpLevel F → TpPosition F → Bool
  is_stale i l p = is_triggered l.status || mem_id i p.dispatched_sl_levels

  pub handle-stale :
      (now : Moment F) (i : ℕ) (live : LiveReply F) (p : TpPosition F) (q : OrderExecutionQueue F)
      (l : TpLevel F)
      → get_elem? p.tp_levels i ≡ some l
      → is_stale i l p ≡ true
      → handle_tp_triggered decimal now i live (p, q) ≡ some (p, q)
  unfolding handle_tp_triggered
  handle-stale now i live p q l e h = rw (e, handle_tp_triggered) (rw h)

  pub handle-fresh :
      (now : Moment F) (i : ℕ) (live : LiveReply F) (p : TpPosition F) (q : OrderExecutionQueue F)
      (l : TpLevel F)
      → get_elem? p.tp_levels i ≡ some l
      → is_stale i l p ≡ false
      → handle_tp_triggered decimal now i live (p, q)
        ≡ some (
          advance now (fill now i l p),
          dispatch_sl_shift decimal now i l live (fill now i l p) q,
        )
  unfolding handle_tp_triggered
  handle-fresh now i live p q l e h = rw (e, handle_tp_triggered) (rw h)

  handle-missing :
      (now : Moment F) (i : ℕ) (live : LiveReply F) (p : TpPosition F) (q : OrderExecutionQueue F)
      → get_elem? p.tp_levels i ≡ none
      → handle_tp_triggered decimal now i live (p, q) ≡ none
  unfolding handle_tp_triggered
  handle-missing now i live p q e = rw (e, handle_tp_triggered)

  -- An event is refused, is stale, or fills its level.
  abbrev pub Handled : Moment F → ℕ → LiveReply F → TpPosition F → OrderExecutionQueue F → Type 0
  Handled now i live p q =
      (handle_tp_triggered decimal now i live (p, q) ≡ none)
      ⊎ ((l : TpLevel F) × (get_elem? p.tp_levels i ≡ some l)
          × (is_stale i l p ≡ true)
          × (handle_tp_triggered decimal now i live (p, q) ≡ some (p, q)))
      ⊎ ((l : TpLevel F) × (get_elem? p.tp_levels i ≡ some l)
          × (is_stale i l p ≡ false)
          × (handle_tp_triggered decimal now i live (p, q)
              ≡ some (
                advance now (fill now i l p),
                dispatch_sl_shift decimal now i l live (fill now i l p) q,
              )))

  pub handle-cases :
      (now : Moment F) (i : ℕ) (live : LiveReply F) (p : TpPosition F) (q : OrderExecutionQueue F)
      → Handled now i live p q
  handle-cases now i live p q = elim (Option-cases (get_elem? p.tp_levels i)) [
    | inl e ↦ inl (handle-missing now i live p q e)
    | inr (l, e) ↦ elim (Bool-cases (is_stale i l p)) [
      | inl h ↦ inr (inl (l, e, h, handle-stale now i live p q l e h))
      | inr h ↦ inr (inr (l, e, h, handle-fresh now i live p q l e h))
    ]
  ]

  pub advance-keeps :
      (now : Moment F) (i : ℕ) (l : TpLevel F) (p : TpPosition F)
      → let p' = advance now (fill now i l p) in
        (p'.tp_levels ≡ set p.tp_levels i (record l { status = triggered }))
        × (p'.dispatched_sl_levels ≡ p.dispatched_sl_levels ++ i ∷ [])
        × (levels_of p'.tp_history ≡ levels_of p.tp_history ++ i ∷ [])
        × (p'.current_quantity ≡ (fill now i l p).current_quantity)
  unfolding fill advance history_entry
  advance-keeps now i l p = (refl, refl, levels_of-append p.tp_history _, refl)
