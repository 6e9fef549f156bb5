-- ===== src/Totp/Recovery.antt =====
-- What a recovery code can do, and that it can do so once.
use adviser_ai_constructor.Prelude.{
  ℕ, ◌≡◌, ◌≢◌, refl, ◌∙◌, Bool, true, false, not, ◌&&◌, inl, inr, none, some, List, [], ◌∷◌, arith,
  ◌==◌, Bool-cases,
}
use adviser_ai_constructor.Totp.{
  Library, TotpService, UserTotp, UserRecoveryCode, Store, answer, is_some_time, use_codes,
  count_unused, settle_row, confirm, check_code, is_locked, verify, is_enabled,
}

-- An attempt: its time, the code, and whether recovery codes count.
abbrev pub Login : Type 0
Login = ℕ × List ℕ × Bool

module _ (lib : Library) (service : TotpService) where
  abbrev store_of : UserTotp → List UserRecoveryCode → Store
  store_of row codes = record { row = some row; codes = codes }

  pub run_logins : List Login → Store → Store
  run_logins [] s = s
  run_logins ((now, code, allow) ∷ logins) s =
      run_logins logins (verify lib service now code allow s).0

  -- The row of the user has the secret, and no unused code has the hash.
  abbrev IsSpent : List ℕ → List ℕ → Store → Type 0
  IsSpent hash secret s =
      (row : UserTotp) × (codes : List UserRecoveryCode) × (s ≡ store_of row codes)
      × (row.secret_encrypted ≡ secret)
      × (count_unused hash codes ≡ 0)

  use_codes-spent :
      (now : ℕ) (hash : List ℕ) (codes : List UserRecoveryCode)
      → count_unused hash (use_codes now hash codes) ≡ 0
  unfolding use_codes count_unused
  use_codes-spent now hash [] = refl
  use_codes-spent now hash (c ∷ codes) = ground (arith, use_codes-spent now hash codes)

  by_recovery :
      (now : ℕ) (code : List ℕ) (row : UserTotp) (codes : List UserRecoveryCode)
      → lib.verify_code (lib.decrypt row.secret_encrypted) code now ≡ false
      → is_some_time row.confirmed_at ≡ true
      → is_locked now row ≡ false
      → let ok = count_unused (lib.hash_token code) codes == 1 in
        verify lib service now code true (store_of row codes) ≡ (
          store_of (settle_row service now ok row) (use_codes now (lib.hash_token code) codes),
          answer ok,
        )
  unfolding verify check_code
  by_recovery now code row codes wrong on free = rw (wrong, free) (rw on refl)

  -- Accepted without a valid time-based code, the enrollment is confirmed and the code was unused.
  accepted :
      (now : ℕ) (code : List ℕ) (row : UserTotp) (codes : List UserRecoveryCode)
      → lib.verify_code (lib.decrypt row.secret_encrypted) code now ≡ false
      → (verify lib service now code true (store_of row codes)).1 ≡ answer true
      → (is_some_time row.confirmed_at ≡ true)
        × (is_locked now row ≡ false)
        × ((count_unused (lib.hash_token code) codes == 1) ≡ true)
  unfolding verify check_code
  accepted now code row codes wrong h = ground arith

  use_codes-keeps_spent :
      (now : ℕ) (hash other : List ℕ) (codes : List UserRecoveryCode)
      → count_unused hash codes ≡ 0
      → count_unused hash (use_codes now other codes) ≡ 0
  unfolding use_codes count_unused
  use_codes-keeps_spent now hash other [] h = refl
  use_codes-keeps_spent now hash other (c ∷ codes) h =
      ground (arith, use_codes-keeps_spent now hash other codes)

  settle-secret :
      (now : ℕ) (ok : Bool) (row : UserTotp)
      → (settle_row service now ok row).secret_encrypted ≡ row.secret_encrypted
  unfolding settle_row
  settle-secret now true row = refl
  settle-secret now false row = ground arith

  confirm-secret :
      (ok : Bool) (now : ℕ) (row : UserTotp)
      → (confirm ok now row).secret_encrypted ≡ row.secret_encrypted
  confirm-secret ok now row = ground arith

  check-IsSpent :
      (now : ℕ) (code : List ℕ) (allow : Bool) (hash : List ℕ) (row : UserTotp)
      (codes : List UserRecoveryCode)
      → count_unused hash codes ≡ 0
      → IsSpent hash row.secret_encrypted (check_code lib service now code allow row codes).0
  unfolding check_code
  check-IsSpent now code allow hash row codes h =
      let valid = lib.verify_code (lib.decrypt row.secret_encrypted) code now in
      let row' = confirm valid now row in
      let ok = count_unused (lib.hash_token code) codes == 1 in
      let secret = confirm-secret valid now row in
      elim (Bool-cases (not valid && allow && is_some_time row'.confirmed_at)) [
        | inl recovery ↦ rw recovery (
          settle_row service now ok row',
          use_codes now (lib.hash_token code) codes,
          refl,
          settle-secret now ok row' ∙ secret,
          use_codes-keeps_spent now hash (lib.hash_token code) codes h,
        )
        | inr plain ↦ rw plain (
          settle_row service now valid row',
          codes,
          refl,
          settle-secret now valid row' ∙ secret,
          h,
        )
      ]

  verify-open :
      (now : ℕ) (code : List ℕ) (allow : Bool) (row : UserTotp) (codes : List UserRecoveryCode)
      → is_locked now row ≡ false
      → (verify lib service now code allow (store_of row codes)).0
        ≡ (check_code lib service now code allow row codes).0
  unfolding verify
  verify-open now code allow row codes free = rw free refl

  verify-shut :
      (now : ℕ) (code : List ℕ) (allow : Bool) (row : UserTotp) (codes : List UserRecoveryCode)
      → is_locked now row ≡ true
      → (verify lib service now code allow (store_of row codes)).0 ≡ store_of row codes
  unfolding verify
  verify-shut now code allow row codes shut = rw shut refl

  verify-IsSpent :
      (now : ℕ) (code : List ℕ) (allow : Bool) (hash secret : List ℕ) (s : Store)
      → IsSpent hash secret s
      → IsSpent hash secret (verify lib service now code allow s).0
  verify-IsSpent now code allow hash secret s (row, codes, at, same, h) =
      elim (Bool-cases (is_locked now row)) [
        | inl shut ↦ rw (at, verify-shut now code allow row codes shut) (row, codes, refl, same, h)
        | inr free ↦
            rw (at, verify-open now code allow row codes free, ← same)
              (check-IsSpent now code allow hash row codes h)
      ]

  logins-IsSpent :
      (logins : List Login) (hash secret : List ℕ) (s : Store)
      → IsSpent hash secret s
      → IsSpent hash secret (run_logins logins s)
  unfolding run_logins
  logins-IsSpent [] hash secret s h = h
  logins-IsSpent ((now, code, allow) ∷ logins) hash secret s h =
      logins-IsSpent logins hash secret _ (verify-IsSpent now code allow hash secret s h)

  refused :
      (now : ℕ) (code : List ℕ) (row : UserTotp) (codes : List UserRecoveryCode)
      → count_unused (lib.hash_token code) codes ≡ 0
      → lib.verify_code (lib.decrypt row.secret_encrypted) code now ≡ false
      → (verify lib service now code true (store_of row codes)).1 ≢ answer true
  unfolding verify check_code
  refused now code row codes h wrong e = ground arith

  spent-refused :
      (now : ℕ) (code secret : List ℕ) (s : Store)
      → IsSpent (lib.hash_token code) secret s
      → lib.verify_code (lib.decrypt secret) code now ≡ false
      → (verify lib service now code true s).1 ≢ answer true
  spent-refused now code secret s (row, codes, at, same, h) wrong =
      rw at (refused now code row codes h (rw same wrong))

  by_recovery-IsSpent :
      (now : ℕ) (code : List ℕ) (row : UserTotp) (codes : List UserRecoveryCode)
      → lib.verify_code (lib.decrypt row.secret_encrypted) code now ≡ false
      → (verify lib service now code true (store_of row codes)).1 ≡ answer true
      → IsSpent
          (lib.hash_token code)
          row.secret_encrypted
          (verify lib service now code true (store_of row codes)).0
  by_recovery-IsSpent now code row codes wrong h =
      let (on, free, unused) = accepted now code row codes wrong h in
      let hash = lib.hash_token code in
      let ok = count_unused hash codes == 1 in
      rw (by_recovery now code row codes wrong on free) (
        settle_row service now ok row,
        use_codes now hash codes,
        refl,
        settle-secret now ok row,
        use_codes-spent now hash codes,
      )

  -- After a recovery code was accepted, where it was no valid time-based code, and after any further attempts with any
  -- codes, it is not accepted again at a time at which it is no valid time-based code.
  pub recovery-spent :
      (now later : ℕ) (code : List ℕ) (logins : List Login) (row : UserTotp)
      (codes : List UserRecoveryCode)
      → lib.verify_code (lib.decrypt row.secret_encrypted) code now ≡ false
      → lib.verify_code (lib.decrypt row.secret_encrypted) code later ≡ false
      → (verify lib service now code true (record { row = some row; codes = codes })).1
        ≡ answer true
      → (verify lib service later code true (
          run_logins logins
            (verify lib service now code true (record { row = some row; codes = codes })).0)).1
        ≢ answer true
  recovery-spent now later code logins row codes wrong wrong' h =
      spent-refused later code row.secret_encrypted _
        (logins-IsSpent logins (lib.hash_token code) row.secret_encrypted _
          (by_recovery-IsSpent now code row codes wrong h))
        wrong'

  -- Only a valid time-based code turns the second factor on: no recovery code and no failure does.
  pub enabled-verified :
      (now : ℕ) (code : List ℕ) (allow : Bool) (row : UserTotp) (codes : List UserRecoveryCode)
      → row.confirmed_at ≡ none
      → is_enabled (verify lib service now code allow (record { row = some row; codes = codes })).0
        ≡ true
      → (lib.verify_code (lib.decrypt row.secret_encrypted) code now ≡ true)
        × (is_locked now row ≡ false)
  unfolding verify check_code settle_row is_enabled
  enabled-verified now code allow row codes e h = ground arith
