-- ===== src/Risk/Promotion.antt =====
-- app/services/auto_trade/promotion/kpi_gate.py and state_machine.py: the gate that a strategy passes
-- to trade real money, and the lifecycle of a strategy.

pub mod Gate
pub mod Lifecycle
use adviser_ai_constructor.Prelude.{
  ℕ, Bool, true, false, not, ◌&&◌, Option, none, some, List, [], ◌∷◌, ◌++◌, String, leb,
  if◌then◌else◌,
}
use adviser_ai_constructor.Float.{Float, ◌⊏◌, ◌⊑◌, of_ℕ}
use adviser_ai_constructor.Risk.{AutoTradeRiskConfig, StrategyHealth, health_min_trades}

pub data CriterionName : Type 0 where
  min_trades min_sandbox_days min_win_rate max_dd : CriterionName

pub record GateCriterion (F : Type 0) : Type 0 where
  pub name : CriterionName
  pub actual : F
  pub threshold : F
  pub passed : Bool

pub record PromotionDecision (F : Type 0) : Type 0 where
  pub can_promote : Bool
  pub criteria : List (GateCriterion F)

all_passed : {F : Type 0} → List (GateCriterion F) → Bool
all_passed [] = true
all_passed (c ∷ cs) = c.passed && all_passed cs

-- `_resolve`, and `risk_cfg.field if risk_cfg else None`
abbrev pub resolve : {A : Type 0} → Option A → A → A
resolve none default = default
resolve (some a) default = a

abbrev pub field_of : {A B : Type 0} → Option A → (A → Option B) → Option B
field_of none field = none
field_of (some a) field = field a

module _ {F : Type 0} ⦃fl : Float F⦄ where
  abbrev pub min_trades_of : Option (AutoTradeRiskConfig F) → ℕ
  min_trades_of risk_cfg = resolve (field_of risk_cfg (λ r. r.promote_min_trades)) 20

  abbrev pub min_days_of : Option (AutoTradeRiskConfig F) → F
  min_days_of risk_cfg = resolve (field_of risk_cfg (λ r. r.promote_min_sandbox_days)) (of_ℕ 7)

  abbrev pub min_win_rate_of : Option (AutoTradeRiskConfig F) → F
  min_win_rate_of risk_cfg = resolve (field_of risk_cfg (λ r. r.promote_min_win_rate_pct)) (of_ℕ 50)

  abbrev pub max_dd_of : Option (AutoTradeRiskConfig F) → F
  max_dd_of risk_cfg = resolve (field_of risk_cfg (λ r. r.promote_max_dd_pct)) (of_ℕ 25)

  is_proven : StrategyHealth F → ℕ → Bool
  is_proven health trades =
      not health.is_insufficient
      && leb health_min_trades health.sample_size
      && leb trades health.sample_size

  criteria_of : StrategyHealth F → Option (AutoTradeRiskConfig F) → F → List (GateCriterion F)
  unfolding is_proven
  criteria_of health risk_cfg days =
      let reliable = is_proven health (min_trades_of risk_cfg) in
      record {
        name = min_trades;
        actual = of_ℕ health.sample_size;
        threshold = of_ℕ (min_trades_of risk_cfg);
        passed = reliable;
      }
      ∷ record {
        name = min_sandbox_days;
        actual = days;
        threshold = min_days_of risk_cfg;
        passed = min_days_of risk_cfg ⊑ days;
      }
      ∷ record {
        name = min_win_rate;
        actual = health.win_rate_pct;
        threshold = min_win_rate_of risk_cfg;
        passed = reliable && (min_win_rate_of risk_cfg ⊑ health.win_rate_pct);
      }
      ∷ record {
        name = max_dd;
        actual = health.max_dd_pct;
        threshold = max_dd_of risk_cfg;
        passed = reliable && (health.max_dd_pct ⊑ max_dd_of risk_cfg);
      }
      ∷ []

  pub evaluate_promotion_gate :
      StrategyHealth F → Option (AutoTradeRiskConfig F) → F → PromotionDecision F
  unfolding criteria_of all_passed
  evaluate_promotion_gate health risk_cfg days = record {
    can_promote = all_passed (criteria_of health risk_cfg days);
    criteria = criteria_of health risk_cfg days;
  }

-- The lifecycle.
pub data LifecycleStage : Type 0 where
  research sandbox validation live rejected archived : LifecycleStage

pub data PromotionTrigger : Type 0 where
  submit_to_sandbox request_promotion gate_passed gate_failed demote reject archive :
      PromotionTrigger

-- `VALID_TRANSITIONS`: `none` for a trigger that the stage has not.
pub valid_transitions : LifecycleStage → PromotionTrigger → Option LifecycleStage
valid_transitions research submit_to_sandbox = some sandbox
valid_transitions research reject = some rejected
valid_transitions research archive = some archived
valid_transitions sandbox request_promotion = some validation
valid_transitions sandbox reject = some rejected
valid_transitions sandbox archive = some archived
valid_transitions validation gate_passed = some live
valid_transitions validation gate_failed = some sandbox
valid_transitions validation archive = some archived
valid_transitions live demote = some sandbox
valid_transitions live archive = some archived
valid_transitions stage trigger = none

-- An entry of the log; its time is an argument of the transition, its metadata is left out.
pub record LogEntry : Type 0 where
  pub timestamp : String
  pub from_stage : LifecycleStage
  pub to_stage : LifecycleStage
  pub trigger : PromotionTrigger
  pub reason : String

pub record PromotionStateMachine : Type 0 where
  pub config_id : ℕ
  pub stage : LifecycleStage
  pub transition_log : List LogEntry

abbrev pub machine : ℕ → LifecycleStage → PromotionStateMachine
machine config_id initial_stage = record {
  config_id = config_id;
  stage = initial_stage;
  transition_log = [];
}

abbrev move_to :
    String
    → String
    → PromotionTrigger
    → PromotionStateMachine
    → LifecycleStage
    → PromotionStateMachine
move_to now why trigger m new_stage = record m {
  stage = new_stage;
  transition_log =
      m.transition_log
      ++ record {
        timestamp = now;
        from_stage = m.stage;
        to_stage = new_stage;
        trigger = trigger;
        reason = why;
      }
        ∷ [];
}

-- `transition`, with `apply_transition`: `none` where it raises, which changes nothing.
pub transition :
    String → String → PromotionTrigger → PromotionStateMachine → Option PromotionStateMachine
unfolding valid_transitions
transition now why trigger m = elim (valid_transitions m.stage trigger) [
  | none ↦ none
  | some new_stage ↦ some (move_to now why trigger m new_stage)
]

-- A call of `transition` by a caller that catches the error.
pub record Attempt : Type 0 where
  pub now : String
  pub reason : String
  pub trigger : PromotionTrigger

attempt_on : Attempt → PromotionStateMachine → PromotionStateMachine
unfolding transition
attempt_on a m = elim (transition a.now a.reason a.trigger m) [ none ↦ m | some next ↦ next ]

unfoldable pub run : List Attempt → PromotionStateMachine → PromotionStateMachine
unfolding attempt_on
run [] m = m
run (a ∷ attempts) m = run attempts (attempt_on a m)
