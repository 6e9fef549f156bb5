-- ===== src/Totp/Tests.antt =====
-- Two attempts are allowed, and the lock holds for one minute.
use adviser_ai_constructor.Prelude.{◌-◌, ◌≤◌, ◌≢◌, refl, true, none, some, List, [], ◌∷◌, arith}
use adviser_ai_constructor.Text.{codes, text_eq}
use adviser_ai_constructor.Totp.{Library, TotpService, UserTotp, UserRecoveryCode, answer, verify}
use adviser_ai_constructor.Totp.Lockout.{Attempt, guesses, guesses-bounded}
use adviser_ai_constructor.Totp.Recovery.{Login, run_logins, recovery-spent}

-- A stand-in for the libraries: the valid code is the secret.
abbrev plain : Library
plain = record {
  verify_code = λ secret code now. text_eq secret code;
  encrypt = λ t. t;
  decrypt = λ t. t;
  hash_token = λ t. t;
}

abbrev service : TotpService
service = record { max_attempts = 2; lockout_minutes = 1 }

abbrev pending : UserTotp
pending = record {
  secret_encrypted = codes "123456";
  confirmed_at = none;
  failed_attempts = 0;
  locked_until = none;
}

abbrev confirmed : UserTotp
confirmed = record pending { confirmed_at = some 1 }

abbrev attempts : List Attempt
attempts = (10, codes "000000") ∷ (11, codes "000001") ∷ (12, codes "000002") ∷ []

guesses-bounded_example :
    guesses plain service attempts (record { row = some confirmed; codes = [] }) ≤ 2 - 0
unfolding text_eq
guesses-bounded_example = guesses-bounded plain service 10 attempts confirmed [] (omega arith) (
  (omega arith, omega arith, refl),
  ((omega arith, omega arith, refl), ((omega arith, omega arith, refl), tt)),
)

abbrev one_code : List UserRecoveryCode
one_code = record { code_hash = codes "ab"; used_at = none } ∷ []

-- A login with a valid code, and a failure.
abbrev logins : List Login
logins = (15, codes "123456", true) ∷ (16, codes "cd", true) ∷ []

recovery-spent_example :
    (verify plain service 20 (codes "ab") true (
      run_logins plain service logins
        (verify plain service 10
          (codes "ab")
          true
          (record { row = some confirmed; codes = one_code })).0)).1
    ≢ answer true
unfolding text_eq verify
recovery-spent_example =
    recovery-spent plain service 10 20 (codes "ab") logins confirmed one_code refl refl refl
