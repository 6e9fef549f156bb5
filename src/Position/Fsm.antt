-- ===== src/Position/Fsm.antt =====
-- app/services/position/state_machine.py: the states of a position, the table of its transitions,
-- and the machine that logs them. The time of a log entry is an argument, the clock's reading;
-- `metadata` is left out, since nothing reads it back.
mod Log
mod Reconnect
mod Tests
use adviser_ai_constructor.Prelude.{
  ◌≡◌, Bool, Option, none, some, List, [], ◌∷◌, ◌++◌, String, is_some,
}

pub data PositionState : Type 0 where
  pending entering open_ adjusting closing : PositionState
  closed cancelled failed reconnecting error_recovery : PositionState

pub data TransitionTrigger : Type 0 where
  entry_submitted entry_filled entry_rejected entry_timeout : TransitionTrigger
  entry_cancelled indicator_trigger trailing_tick breakeven_reached : TransitionTrigger
  volatility_shift adjustment_complete adjustment_failed : TransitionTrigger
  sl_triggered tp_triggered partial_close manual_close : TransitionTrigger
  all_closed close_failed ws_disconnected ws_reconnected : TransitionTrigger
  sync_complete emergency_sl_placed emergency_close : TransitionTrigger

-- `VALID_TRANSITIONS.get(state, {}).get(trigger)`
unfoldable pub valid_transitions : PositionState → TransitionTrigger → Option PositionState
valid_transitions pending entry_submitted = some entering
valid_transitions pending entry_cancelled = some cancelled
valid_transitions entering entry_filled = some open_
valid_transitions entering entry_rejected = some failed
valid_transitions entering entry_timeout = some failed
valid_transitions entering entry_cancelled = some cancelled
valid_transitions open_ indicator_trigger = some adjusting
valid_transitions open_ trailing_tick = some adjusting
valid_transitions open_ breakeven_reached = some adjusting
valid_transitions open_ volatility_shift = some adjusting
valid_transitions open_ sl_triggered = some closing
valid_transitions open_ tp_triggered = some closing
valid_transitions open_ partial_close = some closing
valid_transitions open_ manual_close = some closing
valid_transitions open_ ws_disconnected = some reconnecting
valid_transitions adjusting adjustment_complete = some open_
valid_transitions adjusting adjustment_failed = some error_recovery
valid_transitions adjusting sl_triggered = some closing
valid_transitions adjusting tp_triggered = some closing
valid_transitions adjusting manual_close = some closing
valid_transitions adjusting ws_disconnected = some reconnecting
valid_transitions closing all_closed = some closed
valid_transitions closing close_failed = some error_recovery
valid_transitions closing partial_close = some open_
valid_transitions closing ws_disconnected = some reconnecting
valid_transitions reconnecting ws_reconnected = some open_
valid_transitions reconnecting sync_complete = some open_
valid_transitions reconnecting all_closed = some closed
valid_transitions error_recovery emergency_sl_placed = some open_
valid_transitions error_recovery emergency_close = some closed
valid_transitions _ _ = none

-- One entry of `_transition_log`.
pub record LogEntry : Type 0 where
  pub timestamp : String
  pub from : PositionState
  pub to : PositionState
  pub trigger : TransitionTrigger
  pub reason : String

pub record PositionStateMachine : Type 0 where
  pub position_id : String
  pub state : PositionState
  pub pre_reconnect_state : Option PositionState
  pub transition_log : List LogEntry

abbrev pub machine : String → PositionState → PositionStateMachine
machine position_id initial_state = record {
  position_id = position_id;
  state = initial_state;
  pre_reconnect_state = none;
  transition_log = [];
}

unfoldable pub can_transition : TransitionTrigger → PositionStateMachine → Bool
can_transition trigger m = is_some (valid_transitions m.state trigger)

-- The state that is remembered when the transition leads to RECONNECTING.
remember : PositionState → PositionState → Option PositionState → Option PositionState
remember reconnecting old_state pre = some old_state
remember _ old_state pre = pre

-- The state and the memory after the step for SYNC_COMPLETE.
restore :
    TransitionTrigger → PositionState → Option PositionState → PositionState × Option PositionState
restore sync_complete new_state (some pre) = (pre, none)
restore _ new_state pre = (new_state, pre)

commit :
    String
    → TransitionTrigger
    → String
    → PositionState
    → PositionStateMachine
    → PositionStateMachine
unfolding remember restore
commit now trigger reason target m =
    let (new_state, pre) = restore trigger target (remember target m.state m.pre_reconnect_state) in
    record m {
      state = new_state;
      pre_reconnect_state = pre;
      transition_log =
          m.transition_log
          ++ record {
            timestamp = now;
            from = m.state;
            to = new_state;
            trigger = trigger;
            reason = reason;
          }
            ∷ [];
    }

-- `none` is `InvalidTransitionError`. The result's state is the value that the method returns.
unfoldable pub transition :
    String → TransitionTrigger → String → PositionStateMachine → Option PositionStateMachine
unfolding commit valid_transitions
transition now trigger reason m = elim (valid_transitions m.state trigger) [
  | none ↦ none
  | some target ↦ some (commit now trigger reason target m)
]

-- A caller's sequence of attempts, each with its time and reason: an attempt that raises leaves the
-- machine as it was.
pub record Attempt : Type 0 where
  pub now : String
  pub trigger : TransitionTrigger
  pub reason : String

abbrev keep {ℓ} : {A : Type ℓ} → Option A → A → A
keep none a = a
keep (some b) a = b

pub run : List Attempt → PositionStateMachine → PositionStateMachine
unfolding transition
run [] m = m
run (a ∷ rest) m = run rest (keep (transition a.now a.trigger a.reason m) m)
