-- ===== src/Position/Queue/Execute/Emergency.antt =====
-- The emergency close: what it may send, what it must send, and where it sends nothing.
use adviser_ai_constructor.Prelude.{
  ℕ, ◌≡◌, refl, Bool, true, false, Option, none, some, List, ◌∷◌, arith, Option-cases, ◌⊎◌, inl,
  inr,
}
use adviser_ai_constructor.Float.{Float, IsOrdered, ◌⊏◌, ◌⊑◌, of_ℕ, min_f, abs}
use adviser_ai_constructor.Text.{codes}
use adviser_ai_constructor.Position.Queue.Task.{
  OrderSide, null, num, text, order_side, symbol, side, full_quantity, client_order_id, Params,
  Format, emergency_market_close, OrderTask, get,
}
use adviser_ai_constructor.Position.Queue.Execute.{
  Result, ok, err, Call, close_part, skip, LiveReply, snapshot, live_size, is_flat,
  emergency_close_dust_epsilon, close_quantity, close_at_market, execute_emergency, execute_action,
  execute_task, require_side, resolve_emergency_quantity, require_str, require_str_or,
}

-- Whether the execution calls the adapter.
abbrev pub places : {F : Type 0} → Result (Call F) → Bool
places (ok skip) = false
places (ok _) = true
places err = false

Result-cases : {A : Type 0} (r : Result A) → (r ≡ err) ⊎ ((a : A) × (r ≡ ok a))
Result-cases (ok a) = inr (a, refl)
Result-cases err = inl refl

module _ {F : Type 0} ⦃fl : Float F⦄ ⦃py : Format F⦄ where
  leq_refl : IsOrdered F fl → (x : F) → (x ⊑ x) ≡ true
  leq_refl ordered x = ground (arith, ordered.leq_total x x)

  close_at_market_lem :
      (symbol_name : List ℕ) (params : Params F) (emergency_id : List ℕ) (q : F)
      → {s c k : List ℕ} {d : OrderSide} {qty : F} {p : Option F}
      → close_at_market symbol_name params emergency_id q ≡ ok (close_part s d qty c k p)
      → (qty ≡ q) × (k ≡ codes "market") × (p ≡ none)
  unfolding close_at_market
  close_at_market_lem symbol_name params emergency_id q h = ground arith

  close_quantity-within :
      IsOrdered F fl
      → (requested live qty : F) → close_quantity requested (some live) ≡ some qty
      → (qty ⊑ live) ≡ true
  unfolding close_quantity
  close_quantity-within ordered requested live qty h =
      ground (arith, leq_refl ordered live, ordered.leq_total requested live)

  -- Where the floats are ordered and the exchange gives a live size that is a number, an emergency
  -- close that reaches the adapter is a market order of at most that size, against a position that
  -- is not flat.
  pub emergency-within_live :
      IsOrdered F fl
      → (task : OrderTask F) (emergency_id : List ℕ) (live : LiveReply F) (x : F)
      → {s c k : List ℕ} {d : OrderSide} {qty : F} {p : Option F}
      → task.action ≡ emergency_market_close
      → live_size live ≡ some x
      → execute_task task emergency_id live ≡ ok (close_part s d qty c k p)
      → ((qty ⊑ x) ≡ true) × (is_flat live ≡ false) × (k ≡ codes "market") × (p ≡ none)
  unfolding execute_task execute_action execute_emergency
  emergency-within_live ordered task emergency_id live x {s = s} {c = c} {k = k} {d = d} {qty = qty}
        {p = p} act size h =
      elim (Result-cases (require_str task.params symbol)) [
        | inl e ↦ ground arith
        | inr (name, e) ↦ elim (Result-cases (resolve_emergency_quantity task.params)) [
          | inl e' ↦ ground arith
          | inr (requested, e') ↦ elim (Option-cases (close_quantity requested (some x))) [
            | inl e'' ↦ ground arith
            | inr (q, e'') ↦ ground (
              arith,
              close_at_market_lem name task.params emergency_id q {s = s} {c = c} {k = k} {d = d}
                  {qty = qty} {p = p},
              close_quantity-within ordered requested x q e'',
            )
          ]
        ]
      ]

  -- Where the exchange has no position or dust, and also where asking it raised, an emergency close
  -- sends nothing, whatever its parameters.
  emergency-is_flat :
      (task : OrderTask F) (emergency_id : List ℕ) (live : LiveReply F)
      → task.action ≡ emergency_market_close
      → is_flat live ≡ true
      → places (execute_task task emergency_id live) ≡ false
  unfolding execute_task execute_action execute_emergency
  emergency-is_flat task emergency_id live act flat = ground arith

  -- A snapshot larger than the dust, and a task with a symbol, a side, a client order id and a
  -- positive full quantity, make a market order of the smaller of the quantity and the live size.
  pub emergency-closes :
      (task : OrderTask F) (emergency_id : List ℕ) (size q : F) (c c' : ℕ) (t t' : List ℕ)
      (d : OrderSide)
      → task.action ≡ emergency_market_close
      → (emergency_close_dust_epsilon ⊏ abs size) ≡ true
      → task.params symbol ≡ some (text (c ∷ t))
      → task.params side ≡ some (order_side d)
      → task.params client_order_id ≡ some (text (c' ∷ t'))
      → task.params full_quantity ≡ some (num q)
      → (of_ℕ 0 ⊏ q) ≡ true
      → execute_task task emergency_id (snapshot (num size))
        ≡ ok (close_part (c ∷ t) d (min_f q (abs size)) (c' ∷ t') (codes "market") none)
  unfolding execute_task execute_action execute_emergency require_str resolve_emergency_quantity
      close_quantity close_at_market require_side require_str_or is_flat
  emergency-closes task emergency_id size q c c' t t' d act dust hs hd hc hq pos = ground arith

  -- A task with no side sends nothing, whatever the exchange replies.
  pub emergency_without_side :
      (task : OrderTask F) (emergency_id : List ℕ) (live : LiveReply F)
      → task.action ≡ emergency_market_close
      → get task.params side ≡ null
      → places (execute_task task emergency_id live) ≡ false
  unfolding execute_task execute_action execute_emergency close_at_market
  emergency_without_side task emergency_id live act h =
      let e : require_side task.params side ≡ err = unfold require_side in rw h in ground arith
