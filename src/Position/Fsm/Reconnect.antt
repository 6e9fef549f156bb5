-- ===== src/Position/Fsm/Reconnect.antt =====
-- What a lost connection does to a machine, which states end it, and what every machine that holds
-- a position has behind it.
use adviser_ai_constructor.Prelude.{
  ◌≡◌, refl, Bool, true, false, ◌||◌, Option, none, some, List, [], ◌∷◌, ◌++◌, ◌⊎◌, inl, inr, arith,
  String, Option-cases, is_some,
}
use adviser_ai_constructor.Position.Fsm.{
  PositionState, pending, entering, open_, adjusting, closing, closed, cancelled, failed,
  reconnecting, TransitionTrigger, entry_filled, ws_disconnected, sync_complete, valid_transitions,
  LogEntry, PositionStateMachine, machine, can_transition, remember, restore, commit, transition,
  Attempt, keep, run,
}

-- CLOSED, CANCELLED and FAILED
abbrev pub is_terminal : PositionState → Bool
is_terminal closed = true
is_terminal cancelled = true
is_terminal failed = true
is_terminal _ = false

terminal_refuses :
    (s : PositionState) (trigger : TransitionTrigger)
    → is_terminal s ≡ true
    → valid_transitions s trigger ≡ none
unfolding valid_transitions
terminal_refuses closed trigger h = refl
terminal_refuses cancelled trigger h = refl
terminal_refuses failed trigger h = refl
terminal_refuses _ trigger h = cc

-- A machine in CLOSED, CANCELLED or FAILED refuses every trigger: no sequence of attempts changes
-- its state, its memory or its log.
pub run-terminal :
    (attempts : List Attempt) (m : PositionStateMachine)
    → is_terminal m.state ≡ true
    → run attempts m ≡ m
unfolding run transition
run-terminal [] m h = refl
run-terminal (a ∷ rest) m h =
    rw (terminal_refuses m.state a.trigger h, transition, keep) (run-terminal rest m h)

-- The states in which a position is held on the exchange and its connection is up.
abbrev pub is_trading : PositionState → Bool
is_trading open_ = true
is_trading adjusting = true
is_trading closing = true
is_trading _ = false

-- A connection that is lost and then synchronised gives back the state that it was lost in, whatever
-- the machine remembered before, and forgets it.
pub disconnect_sync :
    (t₁ t₂ r₁ r₂ : String) (m : PositionStateMachine)
    → can_transition ws_disconnected m ≡ true
    → let m' =
        run
          (record { now = t₁; trigger = ws_disconnected; reason = r₁ }
            ∷ record { now = t₂; trigger = sync_complete; reason = r₂ }
            ∷ [])
          m in
      (m'.state ≡ m.state) × (m'.pre_reconnect_state ≡ none)
unfolding run transition can_transition commit remember restore
disconnect_sync t₁ t₂ r₁ r₂ m h = ground arith

abbrev is_trading_option : Option PositionState → Bool
is_trading_option none = false
is_trading_option (some s) = is_trading s

-- In RECONNECTING the machine remembers a trading state.
pub record Remembers (m : PositionStateMachine) : Type 0 where
  pub while_away : m.state ≡ reconnecting → is_trading_option m.pre_reconnect_state ≡ true
  pub stale : (m.pre_reconnect_state ≡ none) ⊎ (is_trading_option m.pre_reconnect_state ≡ true)

transition-Remembers :
    (now : String) (trigger : TransitionTrigger) (reason : String) (m : PositionStateMachine)
    → Remembers m
    → Remembers (keep (transition now trigger reason m) m)
unfolding transition commit remember restore
transition-Remembers now trigger reason m h = ground arith

run-Remembers :
    (attempts : List Attempt) (m : PositionStateMachine) → Remembers m → Remembers (run attempts m)
unfolding run
run-Remembers [] m h = h
run-Remembers (a ∷ rest) m h =
    run-Remembers rest (keep (transition a.now a.trigger a.reason m) m)
      (transition-Remembers a.now a.trigger a.reason m h)

-- From a fresh machine, whatever the attempts: once in RECONNECTING, SYNC_COMPLETE is accepted and
-- leads to OPEN, ADJUSTING or CLOSING, never to a state in which no position is held.
pub sync-is_trading :
    (position_id now reason : String) (attempts : List Attempt)
    → (run attempts (machine position_id pending)).state ≡ reconnecting
    → let m = run attempts (machine position_id pending) in
      (m' : PositionStateMachine) × (transition now sync_complete reason m ≡ some m')
      × (is_trading m'.state ≡ true)
unfolding transition commit restore remember
sync-is_trading position_id now reason attempts away =
    let m = run attempts (machine position_id pending) in
    let h = run-Remembers attempts (machine position_id pending) (ground arith) in
    (commit now sync_complete reason open_ m, ground arith, ground arith)

-- The states that no position reaches without a filled entry.
abbrev pub is_held : PositionState → Bool
is_held pending = false
is_held entering = false
is_held cancelled = false
is_held failed = false
is_held _ = true

abbrev pub is_fill : TransitionTrigger → Bool
is_fill entry_filled = true
is_fill _ = false

pub logs_fill : List LogEntry → Bool
logs_fill [] = false
logs_fill (e ∷ log) = is_fill e.trigger || logs_fill log

logs_fill-append :
    (log : List LogEntry) (e : LogEntry)
    → logs_fill (log ++ e ∷ []) ≡ (logs_fill log || is_fill e.trigger)
unfolding logs_fill
logs_fill-append [] e = ground arith
logs_fill-append (x ∷ log) e = ground (arith, logs_fill-append log e)

record IsFilled (m : PositionStateMachine) : Type 0 where
  filled : is_held m.state ≡ true → logs_fill m.transition_log ≡ true
  remembered : m.pre_reconnect_state ≡ none ⊎ logs_fill m.transition_log ≡ true

commit-logs_fill :
    (now : String) (trigger : TransitionTrigger) (reason : String) (t : PositionState)
    (m : PositionStateMachine)
    → logs_fill (commit now trigger reason t m).transition_log
      ≡ (logs_fill m.transition_log || is_fill trigger)
unfolding commit
commit-logs_fill now trigger reason t m = logs_fill-append m.transition_log _

restore-is_held :
    (trigger : TransitionTrigger) (s t : PositionState) (pre : Option PositionState)
    → valid_transitions s trigger ≡ some t
    → is_held (restore trigger t (remember t s pre)).0 ≡ true
    → (is_held s || is_fill trigger || is_some pre) ≡ true
unfolding valid_transitions restore remember
restore-is_held trigger s t pre h = ground arith

commit-IsFilled :
    (now : String) (trigger : TransitionTrigger) (reason : String) (t : PositionState)
    (m : PositionStateMachine)
    → IsFilled m
    → valid_transitions m.state trigger ≡ some t
    → IsFilled (commit now trigger reason t m)
commit-IsFilled now trigger reason t m h e = record {
  filled = λ held. rw commit-logs_fill (
      ground
        (arith, restore-is_held trigger m.state t m.pre_reconnect_state e (unfold commit in held)));
  remembered =
      rw commit-logs_fill (unfold commit remember restore valid_transitions in ground arith);
}

transition-IsFilled :
    (now : String) (trigger : TransitionTrigger) (reason : String) (m : PositionStateMachine)
    → IsFilled m
    → IsFilled (keep (transition now trigger reason m) m)
unfolding transition
transition-IsFilled now trigger reason m h =
    elim (Option-cases (valid_transitions m.state trigger)) [
      | inl e ↦ rw (e, transition, keep) h
      | inr (t, e) ↦ rw (e, transition, keep) (commit-IsFilled now trigger reason t m h e)
    ]

run-IsFilled :
    (attempts : List Attempt) (m : PositionStateMachine) → IsFilled m → IsFilled (run attempts m)
unfolding run
run-IsFilled [] m h = h
run-IsFilled (a ∷ rest) m h =
    run-IsFilled rest (keep (transition a.now a.trigger a.reason m) m)
      (transition-IsFilled a.now a.trigger a.reason m h)

-- A machine that began in PENDING and is in any state but PENDING, ENTERING, CANCELLED and FAILED
-- has an ENTRY_FILLED in its log: no attempts, faults and recoveries included, open a position whose
-- entry was never filled.
pub held-logs_fill :
    (position_id : String) (attempts : List Attempt)
    → is_held (run attempts (machine position_id pending)).state ≡ true
    → logs_fill (run attempts (machine position_id pending)).transition_log ≡ true
held-logs_fill position_id attempts =
    (run-IsFilled attempts (machine position_id pending) (ground arith)).filled
