-- ===== src/Supervision/Tests.antt =====
-- Runs of the supervision.
use cheirizo.Prelude.{true, false, [], ◌∷◌, ◌≡◌, refl}
use cheirizo.Supervision.{
  SessionStatusEvent, default_status, apply_event, clipboard_failed, all_healthy,
}
use cheirizo.Supervision.Overall.{IsCoherent, apply_event-IsCoherent}
use cheirizo.Supervision.Monitor.{event, reporters_dropped, shutdown_closed, run}

abbrev clipboard_gone : SessionStatusEvent
clipboard_gone = clipboard_failed "no access"

apply_event-IsCoherent_example :
    IsCoherent (apply_event default_status clipboard_gone).0
    × ((apply_event default_status clipboard_gone).1 ≡ all_healthy)
    × ((apply_event default_status clipboard_gone).2
        ≡ (apply_event default_status clipboard_gone).0.overall)
apply_event-IsCoherent_example = apply_event-IsCoherent default_status clipboard_gone

-- The loop goes on when the reporters are gone, and stops when the shutdown channel does.
shutdown_channel_gone :
    (run default_status (reporters_dropped ∷ shutdown_closed ∷ event clipboard_gone ∷ [])
      ≡ (true, default_status))
    × (run default_status (reporters_dropped ∷ []) ≡ (false, default_status))
unfolding run
shutdown_channel_gone = (refl, refl)
