-- ===== src/Position/Fsm/Tests.antt =====
-- The position machine at concrete inputs.
use adviser_ai_constructor.Prelude.{◌≡◌, refl, true, none, List, [], ◌∷◌}
use adviser_ai_constructor.Position.Fsm.{
  pending, closing, reconnecting, TransitionTrigger, entry_submitted, entry_filled, manual_close,
  all_closed, ws_disconnected, sync_complete, machine, valid_transitions, can_transition,
  transition, Attempt, run,
}
use adviser_ai_constructor.Position.Fsm.Log.{Leads, log-Leads}
use adviser_ai_constructor.Position.Fsm.Reconnect.{disconnect_sync, logs_fill, held-logs_fill}

abbrev attempt : TransitionTrigger → Attempt
attempt trigger = record { now = "t"; trigger = trigger; reason = "" }

-- The second attempt raises.
abbrev attempts : List Attempt
attempts =
    attempt entry_submitted
    ∷ attempt all_closed
    ∷ attempt entry_filled
    ∷ attempt manual_close
    ∷ attempt ws_disconnected
    ∷ []

run-attempts : (run attempts (machine "7" pending)).state ≡ reconnecting
unfolding run transition
run-attempts = refl

log-Leads_example :
    Leads pending
      (run attempts (machine "7" pending)).transition_log
      (run attempts (machine "7" pending)).state
log-Leads_example = log-Leads "7" pending attempts

disconnect_sync_example :
    let m = run (attempt ws_disconnected ∷ attempt sync_complete ∷ []) (machine "7" closing) in
    (m.state ≡ closing) × (m.pre_reconnect_state ≡ none)
unfolding can_transition valid_transitions
disconnect_sync_example = disconnect_sync "t" "t" "" "" (machine "7" closing) refl

held-logs_fill_example : logs_fill (run attempts (machine "7" pending)).transition_log ≡ true
unfolding run transition
held-logs_fill_example = held-logs_fill "7" attempts refl
