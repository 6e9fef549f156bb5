-- ===== src/Totp.antt =====
-- app/services/totp.py: `TotpService` on the row and the recovery codes of one user. Times are
-- microseconds. pyotp, the cipher and the hash of tokens are arguments, and so are the secret and the
-- codes that are drawn at random; the address in the provisioning link is left out.
pub mod Lockout
mod Recovery
mod Tests
use adviser_ai_constructor.Prelude.{
  ℕ, suc, ◌+◌, ◌-◌, ◌*◌, ◌/◌, Bool, true, false, not, ◌&&◌, Option, none, some, List, [], ◌∷◌, ltb,
  leb, ◌==◌, if◌then◌else◌,
}
use adviser_ai_constructor.Text.{text_eq}

-- What the service calls: `pyotp.TOTP(secret).verify(code, valid_window=1)` at a time, the cipher, and
-- `hash_token`.
pub record Library : Type 0 where
  pub verify_code : List ℕ → List ℕ → ℕ → Bool
  pub encrypt : List ℕ → List ℕ
  pub decrypt : List ℕ → List ℕ
  pub hash_token : List ℕ → List ℕ

pub record TotpService : Type 0 where
  pub max_attempts : ℕ
  pub lockout_minutes : ℕ

pub record UserTotp : Type 0 where
  pub secret_encrypted : List ℕ
  pub confirmed_at : Option ℕ
  pub failed_attempts : ℕ
  pub locked_until : Option ℕ

pub record UserRecoveryCode : Type 0 where
  pub code_hash : List ℕ
  pub used_at : Option ℕ

-- The rows of the user
pub record Store : Type 0 where
  pub row : Option UserTotp
  pub codes : List UserRecoveryCode

-- The answer of `verify`, or its TotpLockedError.
pub data Verified : Type 0 where
  locked : ℕ → Verified
  answer : Bool → Verified

abbrev pub is_some_time : Option ℕ → Bool
is_some_time none = false
is_some_time (some t) = true

new_codes : Library → List (List ℕ) → List UserRecoveryCode
new_codes lib [] = []
new_codes lib (c ∷ drawn) =
    record { code_hash = lib.hash_token c; used_at = none } ∷ new_codes lib drawn

-- The row that `enroll` writes: that of a row before keeps its failures and its lock.
enrolled_row : Library → List ℕ → Option UserTotp → UserTotp
enrolled_row lib secret none = record {
  secret_encrypted = lib.encrypt secret;
  confirmed_at = none;
  failed_attempts = 0;
  locked_until = none;
}
enrolled_row lib secret (some row) = record row {
  secret_encrypted = lib.encrypt secret;
  confirmed_at = none;
}

-- `enroll`, with the secret and the recovery codes that were drawn
pub enroll : Library → List ℕ → List (List ℕ) → Store → Store
unfolding new_codes enrolled_row
enroll lib secret drawn s = record {
  row = some (enrolled_row lib secret s.row);
  codes = new_codes lib drawn;
}

-- `code_hash == hash and used_at IS NULL`
abbrev pub is_unused : List ℕ → UserRecoveryCode → Bool
is_unused hash c = text_eq c.code_hash hash && not (is_some_time c.used_at)

abbrev pub mark_used : ℕ → List ℕ → UserRecoveryCode → UserRecoveryCode
mark_used now hash c = if is_unused hash c then record c { used_at = some now } else c

-- The UPDATE of `_consume_recovery_code`, and its row count
pub use_codes : ℕ → List ℕ → List UserRecoveryCode → List UserRecoveryCode
use_codes now hash [] = []
use_codes now hash (c ∷ cs) = mark_used now hash c ∷ use_codes now hash cs

pub count_unused : List ℕ → List UserRecoveryCode → ℕ
count_unused hash [] = 0
count_unused hash (c ∷ cs) =
    let rest = count_unused hash cs in if is_unused hash c then suc rest else rest

-- The row after an answer
pub settle_row : TotpService → ℕ → Bool → UserTotp → UserTotp
settle_row service now true row = record row { failed_attempts = 0; locked_until = none }
settle_row service now false row =
    if leb service.max_attempts (row.failed_attempts + 1)
    then record row {
      failed_attempts = 0;
      locked_until = some (now + service.lockout_minutes * 60000000);
    }
    else record row { failed_attempts = row.failed_attempts + 1 }

abbrev confirm : Bool → ℕ → UserTotp → UserTotp
confirm ok now row =
    if ok && not (is_some_time row.confirmed_at)
    then record row { confirmed_at = some now }
    else row

-- `verify` past the lock
pub check_code :
    Library → TotpService → ℕ → List ℕ → Bool → UserTotp → List UserRecoveryCode → Store × Bool
unfolding use_codes count_unused settle_row
check_code lib service now code allow_recovery row codes =
    let valid = lib.verify_code (lib.decrypt row.secret_encrypted) code now in
    let row' = confirm valid now row in
    let hash = lib.hash_token code in
    if not valid && allow_recovery && is_some_time row'.confirmed_at
    then (let ok = count_unused hash codes == 1 in
        (
          record { row = some (settle_row service now ok row'); codes = use_codes now hash codes },
          ok,
        ))
    else (record { row = some (settle_row service now valid row'); codes = codes }, valid)

abbrev pub is_locked : ℕ → UserTotp → Bool
is_locked now row = elim row.locked_until [ none ↦ false | some until ↦ ltb now until ]

-- The whole seconds that are left of a lock
seconds_left : ℕ → UserTotp → ℕ
seconds_left now row = elim row.locked_until [ none ↦ 0 | some until ↦ (until - now) / 1000000 ]

pub verify : Library → TotpService → ℕ → List ℕ → Bool → Store → Store × Verified
unfolding check_code seconds_left
verify lib service now code allow_recovery s = elim s.row [
  | none ↦ (s, answer false)
  | some row ↦
      let (s', ok) = check_code lib service now code allow_recovery row s.codes in
      if is_locked now row then (s, locked (seconds_left now row)) else (s', answer ok)
]

pub is_enabled : Store → Bool
is_enabled s = elim s.row [ none ↦ false | some row ↦ is_some_time row.confirmed_at ]

disable : Store → Store
disable s = record { row = none; codes = [] }
