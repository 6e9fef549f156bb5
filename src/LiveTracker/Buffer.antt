-- ===== src/LiveTracker/Buffer.antt =====
-- The window of bars: bounded, and with the newest bar at its end.
use adviser_ai_constructor.Prelude.{
  ℕ, zero, suc, ◌-◌, ◌≤◌, ◌<◌, ◌≡◌, refl, ◌∙◌, Bool, true, false, some, List, [], ◌∷◌, length,
  arith, Bool-cases, inl, inr, ◌&&◌,
}
use adviser_ai_constructor.Float.{Float, ◌⊑◌, of_ℕ}
use adviser_ai_constructor.Position.Queue.Task.{Format}
use adviser_ai_constructor.Position.Queue.State.{mem_key}
use adviser_ai_constructor.LiveTracker.{
  Bar, KlineEvent, Tracked, RealtimeSlAdjuster, Environment, drop, last_of, put_bar, store_bar,
  is_killed, mark, check_kill_switch, tick_position, tick_unless, tick_positions, extract_bar,
  on_tick,
}

length-drop : {A : Type 0} (n : ℕ) (xs : List A) → length (drop n xs) ≡ length xs - n
unfolding drop
length-drop zero xs = omega arith
length-drop (suc n) [] = omega arith
length-drop (suc n) (x ∷ xs) = omega (arith, length-drop n xs)

last_of-drop : {A : Type 0} (n : ℕ) (xs : List A) → n < length xs → last_of (drop n xs) ≡ last_of xs
unfolding drop last_of
last_of-drop zero xs h = refl
last_of-drop (suc n) [] h = absurd (omega (arith, h))
last_of-drop (suc zero) (x ∷ []) h = absurd (omega (arith, h))
last_of-drop (suc (suc n)) (x ∷ []) h = absurd (omega (arith, h))
last_of-drop (suc n) (x ∷ (y ∷ xs)) h = last_of-drop n (y ∷ xs) (omega (arith, h))

last_of-cons : {A : Type 0} (x : A) (xs : List A) → 0 < length xs → last_of (x ∷ xs) ≡ last_of xs
unfolding last_of
last_of-cons x [] h = absurd (omega (arith, h))
last_of-cons x (y ∷ xs) h = refl

module _ {F : Type 0} ⦃fl : Float F⦄ where
  put_bar-last :
      (bar : Bar F) (bars : List (Bar F))
      → (last_of (put_bar bar bars) ≡ some bar) × (0 < length (put_bar bar bars))
  unfolding put_bar last_of
  put_bar-last bar [] = (refl, omega arith)
  put_bar-last bar (b ∷ []) = ground arith
  put_bar-last bar (b ∷ (c ∷ bars)) =
      let (last, some_bar) = put_bar-last bar (c ∷ bars) in
      (last_of-cons b (put_bar bar (c ∷ bars)) some_bar ∙ last, omega arith)

  store_bar-window :
      (bar : Bar F) (s : RealtimeSlAdjuster F)
      → 0 < s.buffer_bars
      → (length (store_bar bar s).buffer ≤ s.buffer_bars)
        × (last_of (store_bar bar s).buffer ≡ some bar)
  unfolding store_bar
  store_bar-window bar s h =
      let bars = put_bar bar s.buffer in
      let (last, some_bar) = put_bar-last bar s.buffer in
      let n = length-drop (length bars - s.buffer_bars) bars in
      (
        omega (arith, n),
        last_of-drop (length bars - s.buffer_bars) bars (omega (arith, h, some_bar)) ∙ last,
      )

  module _ (env : Environment F) where
    mark-keeps :
        (hit : Bool) (now : F) (id : List ℕ) (s : RealtimeSlAdjuster F)
        → ((mark env hit now id s).buffer ≡ s.buffer) × ((mark env hit now id s).symbol ≡ s.symbol)
    unfolding mark
    mark-keeps true now id s = (refl, refl)
    mark-keeps false now id s = (refl, refl)

    pub check-keeps :
        (now : F) (bar : Bar F) (s : RealtimeSlAdjuster F) (positions : List (Tracked F))
        → let s' = (check_kill_switch env now bar s positions).0 in
          (s'.buffer ≡ s.buffer) × (s'.symbol ≡ s.symbol)
    unfolding check_kill_switch
    check-keeps now bar s [] = (refl, refl)
    check-keeps now bar s (p ∷ positions) =
        let hit = s.has_handler && is_killed env now bar s p in
        let (b, y) = check-keeps now bar (mark env hit now p.position_id s) positions in
        let (b', y') = mark-keeps hit now p.position_id s in (b ∙ b', y ∙ y')

    module _ ⦃py : Format F⦄ where
      pub tick_unless-keeps :
          (killed : Bool) (now price : F) (s : RealtimeSlAdjuster F) (p : Tracked F)
          → let s' = (tick_unless env killed now price s p).0 in
            (s'.buffer ≡ s.buffer) × (s'.symbol ≡ s.symbol)
      unfolding tick_unless tick_position
      tick_unless-keeps killed now price s p = ground arith

      pub tick_positions-keeps :
          (now price : F) (killed : List (List ℕ)) (s : RealtimeSlAdjuster F)
          (positions : List (Tracked F))
          → let s' = (tick_positions env now price killed s positions).0 in
            (s'.buffer ≡ s.buffer) × (s'.symbol ≡ s.symbol)
      unfolding tick_positions
      tick_positions-keeps now price killed s [] = (refl, refl)
      tick_positions-keeps now price killed s (p ∷ positions) =
          let hit = mem_key p.position_id killed in
          let (b, y) = tick_unless-keeps hit now price s p in
          let (b', y') =
            tick_positions-keeps now price killed (tick_unless env hit now price s p).0 positions in
          (b' ∙ b, y' ∙ y)

      -- Where room for a bar is given: after a tick with a bar that can be read, whatever the positions, the
      -- buffer holds no more bars than it has room for, and the bar of the tick stands last.
      pub on_tick-window :
          (now : F) (event : KlineEvent F) (s : RealtimeSlAdjuster F) (positions : List (Tracked F))
          (bar : Bar F)
          → 0 < s.buffer_bars
          → extract_bar env event ≡ some bar
          → let s' = (on_tick env now event s positions).0 in
            (length s'.buffer ≤ s.buffer_bars) × (last_of s'.buffer ≡ some bar)
      unfolding on_tick
      on_tick-window now event s positions bar room e = elim (Bool-cases (bar.close ⊑ of_ℕ 0)) [
        | inl h ↦ rw (e, on_tick) (rw h (store_bar-window bar s room))
        | inr h ↦
            let s' = store_bar bar s in
            let checked = check_kill_switch env now bar s' positions in
            let same =
              (tick_positions-keeps now bar.close checked.2 checked.0 checked.1).0
              ∙ (check-keeps now bar s' positions).0 in
            rw (e, on_tick) (rw h (rw same (store_bar-window bar s room)))
      ]
