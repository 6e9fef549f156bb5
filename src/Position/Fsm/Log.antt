-- ===== src/Position/Fsm/Log.antt =====
-- What the transition log of a machine says, for every sequence of attempts.
use adviser_ai_constructor.Prelude.{
  ◌≡◌, refl, List, [], ◌∷◌, ◌++◌, some, Option, ◌⊎◌, inl, inr, arith, Option-cases, String,
}
use adviser_ai_constructor.Position.Fsm.{
  PositionState, TransitionTrigger, sync_complete, valid_transitions, LogEntry,
  PositionStateMachine, machine, commit, remember, restore, transition, run, Attempt, keep,
}

-- The entry is a step of the table, or SYNC_COMPLETE restoring a remembered state.
abbrev pub IsStep : LogEntry → Type 0
IsStep e =
    (valid_transitions e.from e.trigger ≡ some e.to)
    ⊎ ((e.trigger ≡ sync_complete) × (e.from ≡ PositionState.reconnecting))

-- The log leads from one state to the other, each entry starting where the one before it ended.
abbrev pub Leads : PositionState → List LogEntry → PositionState → Type 0
Leads s [] t = s ≡ t
Leads s (e ∷ es) t = (e.from ≡ s) × IsStep e × Leads e.to es t

Leads-append :
    (s : PositionState) (log : List LogEntry) (e : LogEntry)
    → Leads s log e.from
    → IsStep e
    → Leads s (log ++ e ∷ []) e.to
Leads-append s [] e h st = ground arith
Leads-append s (x ∷ log) e h st = (h.0, h.1, Leads-append x.to log e h.2 st)

-- SYNC_COMPLETE is in the table for RECONNECTING alone.
sync_complete_source :
    (s t : PositionState)
    → valid_transitions s sync_complete ≡ some t
    → s ≡ PositionState.reconnecting
unfolding valid_transitions
sync_complete_source PositionState.reconnecting t h = refl
sync_complete_source _ t h = cc

-- Only SYNC_COMPLETE leaves the table.
restore_lem :
    (t : PositionState) (trigger : TransitionTrigger) (pre : Option PositionState)
    → ((restore trigger t pre).0 ≡ t) ⊎ (trigger ≡ sync_complete)
unfolding restore
restore_lem t sync_complete pre = inr refl
restore_lem t _ pre = inl refl

commit-IsStep :
    (now : String) (trigger : TransitionTrigger) (reason : String) (t : PositionState)
    (m : PositionStateMachine)
    → valid_transitions m.state trigger ≡ some t
    → IsStep (record {
      timestamp = now;
      from = m.state;
      to = (commit now trigger reason t m).state;
      trigger = trigger;
      reason = reason;
    })
unfolding commit
commit-IsStep now trigger reason t m h = ground (
  arith,
  restore_lem t trigger (remember t m.state m.pre_reconnect_state),
  sync_complete_source m.state t,
)

transition-Leads :
    (s : PositionState) (now : String) (trigger : TransitionTrigger) (reason : String)
    (m : PositionStateMachine)
    → Leads s m.transition_log m.state
    → let m' = keep (transition now trigger reason m) m in Leads s m'.transition_log m'.state
unfolding transition
transition-Leads s now trigger reason m h =
    elim (Option-cases (valid_transitions m.state trigger)) [
      | inl e ↦ rw (e, transition, Leads, keep) h
      | inr (t, e) ↦
          rw (e, transition, Leads, keep)
            (unfold commit in
              Leads-append s m.transition_log _ h (commit-IsStep now trigger reason t m e))
    ]

run-Leads :
    (s : PositionState) (attempts : List Attempt) (m : PositionStateMachine)
    → Leads s m.transition_log m.state
    → Leads s (run attempts m).transition_log (run attempts m).state
unfolding run
run-Leads s [] m h = h
run-Leads s (a ∷ rest) m h =
    run-Leads s rest (keep (transition a.now a.trigger a.reason m) m)
      (transition-Leads s a.now a.trigger a.reason m h)

-- Whatever the attempts, those that raise included, the log of a machine that began in a state
-- leads from that state to the machine's present one: each entry starts where the entry before it
-- ended, and is a step of the table, or SYNC_COMPLETE restoring a state from RECONNECTING.
pub log-Leads :
    (position_id : String) (s : PositionState) (attempts : List Attempt)
    → let m = run attempts (machine position_id s) in Leads s m.transition_log m.state
log-Leads position_id s attempts = run-Leads s attempts (machine position_id s) refl
