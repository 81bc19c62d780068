-- ===== src/Supervision/Monitor.antt =====
-- src/rdp/session/supervision/monitor.rs: the event loop of the supervisor, and what a subscriber
-- reads. The watch channel holds the last status sent.
use cheirizo.Prelude.{Bool, true, false, List, [], ◌∷◌}
use cheirizo.Supervision.{SessionStatus, SessionStatusEvent, invalid, apply_event}

unfoldable pub apply_events : SessionStatus → List SessionStatusEvent → SessionStatus
apply_events s [] = s
apply_events s (e ∷ es) = apply_events (apply_event s e).0 es

-- What `select!` sees, in the order in which it sees it: an event, or the `None` after the last
-- reporter was dropped, which `Some(event)` does not match, so that only the shutdown is waited for;
-- and what `recv` of the shutdown gives: a message, or that the channel is closed or lagged behind.
pub data Signal : Type 0 where
  event : SessionStatusEvent → Signal
  reporters_dropped : Signal
  shutdown shutdown_closed shutdown_lagged : Signal

-- Whether the loop has stopped, and the status that the channel holds.
unfoldable pub run : SessionStatus → List Signal → Bool × SessionStatus
run state [] = (false, state)
run state (event e ∷ rest) = run (apply_event state e).0 rest
run state (reporters_dropped ∷ rest) = run state rest
run state (shutdown ∷ rest) = (true, state)
run state (shutdown_closed ∷ rest) = (true, state)
run state (shutdown_lagged ∷ rest) = (true, state)

unfoldable pub is_session_valid : SessionStatus → Bool
is_session_valid state = elim state.overall [ invalid ↦ false | _ ↦ true ]
