-- ===== src/Totp/Lockout.antt =====
-- How often a code can be guessed.
use adviser_ai_constructor.Prelude.{
  ℕ, suc, ◌+◌, ◌-◌, ◌*◌, ◌≤◌, ◌<◌, ◌≡◌, refl, Bool, true, false, inl, inr, some, List, [], ◌∷◌,
  arith, All, leb, Bool-cases,
}
use adviser_ai_constructor.Totp.{
  Library, TotpService, UserTotp, UserRecoveryCode, Store, Verified, locked, answer, settle_row,
  check_code, is_locked, seconds_left, verify,
}

-- An attempt: its time, and the code.
abbrev pub Attempt : Type 0
Attempt = ℕ × List ℕ

module _ (lib : Library) (service : TotpService) where
  abbrev lockout : ℕ
  lockout = service.lockout_minutes * 60000000

  abbrev tally : Verified → ℕ → ℕ
  tally (locked seconds) n = n
  tally (answer ok) n = suc n

  -- How many of the attempts are compared with the secret.
  pub guesses : List Attempt → Store → ℕ
  guesses [] s = 0
  guesses ((now, code) ∷ attempts) s =
      let (s', r) = verify lib service now code false s in tally r (guesses attempts s')

  -- A wrong code, at a time within one lockout after the first.
  abbrev pub IsWrong : ℕ → List ℕ → Attempt → Type 0
  IsWrong first secret (now, code) =
      (first ≤ now)
      × (now < first + lockout)
      × (lib.verify_code (lib.decrypt secret) code now ≡ false)

  abbrev store_of : UserTotp → List UserRecoveryCode → Store
  store_of row codes = record { row = some row; codes = codes }

  verify-locked :
      (now : ℕ) (code : List ℕ) (allow : Bool) (row : UserTotp) (codes : List UserRecoveryCode)
      → is_locked now row ≡ true
      → verify lib service now code allow (store_of row codes)
        ≡ (store_of row codes, locked (seconds_left now row))
  unfolding verify
  verify-locked now code allow row codes h = rw h refl

  verify-wrong :
      (now : ℕ) (code : List ℕ) (row : UserTotp) (codes : List UserRecoveryCode)
      → is_locked now row ≡ false
      → lib.verify_code (lib.decrypt row.secret_encrypted) code now ≡ false
      → verify lib service now code false (store_of row codes)
        ≡ (store_of (settle_row service now false row) codes, answer false)
  unfolding verify check_code
  verify-wrong now code row codes h e = rw (h, e) refl

  locks :
      (now : ℕ) (row : UserTotp)
      → leb service.max_attempts (row.failed_attempts + 1) ≡ true
      → (settle_row service now false row).locked_until ≡ some (now + lockout)
  unfolding settle_row
  locks now row h = rw h refl

  counts :
      (now : ℕ) (row : UserTotp)
      → leb service.max_attempts (row.failed_attempts + 1) ≡ false
      → settle_row service now false row ≡ record row { failed_attempts = row.failed_attempts + 1 }
  unfolding settle_row
  counts now row h = rw h refl

  -- Under a lock that outlasts them no attempt is compared.
  guesses-locked :
      (until : ℕ) (attempts : List Attempt) (row : UserTotp) (codes : List UserRecoveryCode)
      → row.locked_until ≡ some until
      → All (λ a. a.0 < until) attempts
      → guesses attempts (store_of row codes) ≡ 0
  unfolding guesses
  guesses-locked until [] row codes e h = refl
  guesses-locked until ((now, code) ∷ attempts) row codes e h =
      rw (verify-locked now code false row codes (rw e ground (arith, h.0)))
        (guesses-locked until attempts row codes e h.1)

  later :
      (first now : ℕ) (secret : List ℕ) (attempts : List Attempt)
      → first ≤ now
      → All (IsWrong first secret) attempts
      → All (λ a. a.0 < now + lockout) attempts
  later first now secret [] le h = tt
  later first now secret (a ∷ attempts) le h =
      (omega (arith, le, h.0.1), later first now secret attempts le h.1)

  -- Of any wrong codes without recovery codes that are tried within the time of one lockout, in any order
  -- and however many, no more are compared with the secret than failures are left before the
  -- limit.
  pub guesses-bounded :
      (first : ℕ) (attempts : List Attempt) (row : UserTotp) (codes : List UserRecoveryCode)
      → row.failed_attempts < service.max_attempts
      → All (IsWrong first row.secret_encrypted) attempts
      → guesses attempts (record { row = some row; codes = codes })
        ≤ service.max_attempts - row.failed_attempts
  unfolding guesses
  guesses-bounded first [] row codes lt h = omega arith
  guesses-bounded first ((now, code) ∷ attempts) row codes lt h =
      elim (Bool-cases (is_locked now row)) [
        | inl shut ↦
            rw (verify-locked now code false row codes shut)
              (guesses-bounded first attempts row codes lt h.1)
        | inr free ↦ elim (Bool-cases (leb service.max_attempts (row.failed_attempts + 1))) [
          | inl last ↦
              let shut_out =
                guesses-locked (now + lockout) attempts (settle_row service now false row) codes
                  (locks now row last) (later first now row.secret_encrypted attempts h.0.0 h.1) in
              rw (verify-wrong now code row codes free h.0.2, shut_out) (omega (arith, lt))
          | inr more ↦
              let rest =
                guesses-bounded first attempts
                  (record row { failed_attempts = row.failed_attempts + 1 }) codes
                  (ground (arith, more)) h.1 in
              rw (verify-wrong now code row codes free h.0.2, counts now row more)
                (omega (arith, lt, rest))
        ]
      ]
