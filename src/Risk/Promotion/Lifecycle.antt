-- ===== src/Risk/Promotion/Lifecycle.antt =====
-- The lifecycle of a strategy: real money only behind the gate, and the stages without a way out.
use adviser_ai_constructor.Prelude.{
  ℕ, ◌≡◌, ◌⊎◌, inl, inr, refl, ap, ◌∙◌, Bool, true, false, some, List, [], ◌∷◌, ◌++◌, arith,
  Option-cases,
}
use adviser_ai_constructor.Risk.Promotion.{
  LifecycleStage, research, sandbox, validation, live, rejected, archived, PromotionTrigger,
  gate_passed, valid_transitions, LogEntry, PromotionStateMachine, machine, transition, Attempt,
  attempt_on, run,
}

abbrev pub is_live : LifecycleStage → Bool
is_live live = true
is_live _ = false

-- The last entry of a log, if there is one, satisfies the predicate.
abbrev pub Last : (LogEntry → Type 0) → List LogEntry → Type 0
Last P [] = ⊥
Last P (e ∷ []) = P e
Last P (e ∷ f ∷ log) = Last P (f ∷ log)

Last-append :
    (P : LogEntry → Type 0) (log : List LogEntry) (e : LogEntry) → P e → Last P (log ++ e ∷ [])
Last-append P [] e h = h
Last-append P (f ∷ []) e h = h
Last-append P (f ∷ g ∷ log) e h = Last-append P (g ∷ log) e h

-- The entry is the passing of the gate, from the validation to real money.
abbrev pub IsGatePassed : LogEntry → Type 0
IsGatePassed e = (e.trigger ≡ gate_passed) × (e.from_stage ≡ validation) × (e.to_stage ≡ live)

into_live :
    (stage : LifecycleStage) (trigger : PromotionTrigger)
    → valid_transitions stage trigger ≡ some live
    → (trigger ≡ gate_passed) × (stage ≡ validation)
unfolding valid_transitions
into_live research trigger h = ground arith
into_live sandbox trigger h = ground arith
into_live validation trigger h = ground arith
into_live live trigger h = ground arith
into_live rejected trigger h = ground arith
into_live archived trigger h = ground arith

is_live-cases : (stage : LifecycleStage) → (stage ≡ live) ⊎ (is_live stage ≡ false)
is_live-cases research = inr refl
is_live-cases sandbox = inr refl
is_live-cases validation = inr refl
is_live-cases live = inl refl
is_live-cases rejected = inr refl
is_live-cases archived = inr refl

abbrev IsGated : PromotionStateMachine → Type 0
IsGated m = (is_live m.stage ≡ false) ⊎ Last IsGatePassed m.transition_log

attempt-IsGated : (a : Attempt) (m : PromotionStateMachine) → IsGated m → IsGated (attempt_on a m)
unfolding attempt_on transition
attempt-IsGated a m h = elim (Option-cases (valid_transitions m.stage a.trigger)) [
  | inl e ↦ rw (e, attempt_on, transition) h
  | inr (next, e) ↦ elim (is_live-cases next) [
    | inl arrived ↦
        let (trigger, from) = into_live m.stage a.trigger (e ∙ ap some arrived) in
        rw (e, attempt_on, transition)
          (inr (Last-append IsGatePassed m.transition_log _ (trigger, from, arrived)))
    | inr elsewhere ↦ rw (e, attempt_on, transition) (inl elsewhere)
  ]
]

run-IsGated :
    (attempts : List Attempt) (m : PromotionStateMachine) → IsGated m → IsGated (run attempts m)
unfolding run
run-IsGated [] m h = h
run-IsGated (a ∷ attempts) m h = run-IsGated attempts (attempt_on a m) (attempt-IsGated a m h)

-- A machine that starts in a stage other than live, and is live after any attempts, those refused
-- included, has last logged the passing of the gate, from the validation.
pub live-gated :
    (config_id : ℕ) (initial : LifecycleStage) (attempts : List Attempt)
    → is_live initial ≡ false
    → (run attempts (machine config_id initial)).stage ≡ live
    → Last IsGatePassed (run attempts (machine config_id initial)).transition_log
live-gated config_id initial attempts start arrived =
    ground (arith, run-IsGated attempts (machine config_id initial) (inl start))

-- A rejected or archived strategy stays as it is, its log included.
pub run-terminal_stage :
    (attempts : List Attempt) (m : PromotionStateMachine)
    → (m.stage ≡ rejected) ⊎ (m.stage ≡ archived)
    → run attempts m ≡ m
unfolding run attempt_on transition valid_transitions
run-terminal_stage [] m h = refl
run-terminal_stage (a ∷ attempts) m h = ground (arith, run-terminal_stage attempts m h)
