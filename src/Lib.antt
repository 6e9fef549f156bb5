-- ===== src/Lib.antt =====
-- The trading core of AdviserAI-constructor: what keeps a live position protected, and what decides
-- whether a strategy may trade. Paths are from the root of the repository.
--
-- How the parts interact. A position has a state machine. Its stop-loss is moved by rules that look at
-- each tick, by the events of watchers, and by the engine of take-profit levels after a fill; a move
-- becomes a task of the order queue, which merges tasks by key, executes them one at a time on an
-- exchange adapter, retries, and turns a stop-loss task that fails for good into an
-- emergency close. The risk engine checks an entry, the KPI guard pauses a live strategy, and the
-- promotion gate with its lifecycle decides whether a strategy trades real money. The AI overlay may
-- block an entry and scales the multiplier of a volatility stop.
--
-- Which file models what:
--   Position/Fsm: app/services/position/state_machine.py. `transition` gives `none` where the code
--     raises; `run` is a caller that catches the error.
--   Position/Queue/Task: OrderTask and `_task_key` of app/services/position/order_queue.py. A dict of
--     parameters is a function from the keys that the queue reads to optional dynamic values.
--   Position/Queue/Execute: `_execute_task` of the same file, as the one call of the adapter that a task
--     makes, or an error.
--   Position/Queue/State: the state of OrderExecutionQueue and `enqueue`. Tasks are shared objects, so
--     the heap and the dict of pending tasks hold identities.
--   Position/Queue/Loop: `start_processing`, cut into the steps between two awaits, the escalation, and
--     `purge_pending`. `run` takes any interleaving of these with calls from outside.
--   StopLoss: trailing.py, breakeven.py, volatility.py, pipeline.py and kill_switch.py of
--     app/services/sl_tp.
--   LiveTracker: live_tracker.py of the same folder. `on_tick` gives the adjuster, the positions and
--     the tasks that the tick enqueues.
--   MultiTp: multi_tp.py of the same folder. `handle_tp_triggered` acts on a position and on the
--     order queue of Position/Queue/State.
--   Pnl: futures_pnl.py and pnl.py of app/services/execution; Pnl itself is what they share.
--   RateLimiter: app/services/exchange/rate_limiter.py.
--   Signal: app/services/auto_trade/signal.py. A payload is a JSON object.
--   Watchers: app/services/watchers/rule_engine.py, the conditions that watch an indicator, and in
--     Watchers/Bus the handler of event_bus.py, whose tasks go to the order queue.
--   Totp: app/services/totp.py, on the rows of one user.
--   Risk/PreTrade and Risk/KpiGuard: engine.py and kpi_guard.py of app/services/auto_trade/risk.
--   Risk/Promotion: kpi_gate.py and state_machine.py of app/services/auto_trade/promotion.
--   Overlay: scaler.py of app/services/auto_trade/ai_overlay, without the rewriting of the
--     conditions of watchers.
--   Prelude, Float and Text: what the others share. Tests stand in modules of that name.
--
-- Floats are a parameter, the record `Float`, with the order of all floats but NaN as the named
-- hypothesis `IsOrdered`; Float/Fixed gives a concrete instance. What the code does with NaN, which a signal or an
-- indicator may hold as the text nan, is not modelled. The conversions of Python between
-- numbers and text are the parameter `Format`. Texts are lists of characters, as numbers. The clock, the
-- replies of the exchange and the choice of the heap among its items are arguments. No definition
-- takes fuel but the loop over lots of Pnl: its fuel is the number of the lots and one, since a round
-- pops a lot or uses the order up, and then one look at the condition is left; all other recursion is
-- over lists. Where a proof needs it, `IsCancelling` says that a float less itself is zero, and
-- `IsLiteral` that the literals are not negative.
--
-- Not modelled: logging, audit hooks, locks, the text of errors and of audit payloads, database access,
-- `await_quiescent`, the order of the heap, and the parts of the repository that the list above does
-- not name.
pub mod Prelude
pub mod Float
pub mod Text
pub mod Position
pub mod StopLoss
pub mod Risk
pub mod Overlay
pub mod MultiTp
pub mod Pnl
pub mod RateLimiter
pub mod LiveTracker
pub mod Totp
pub mod Signal
pub mod Watchers
