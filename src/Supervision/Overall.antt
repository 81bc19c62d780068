-- ===== src/Supervision/Overall.antt =====
-- The overall status is a function of the aspects.
use cheirizo.Prelude.{true, ◌≡◌, ◌↔◌, ◌⊎◌, ◌≢◌, refl, arith}
use cheirizo.Supervision.{
  SessionStatus, SessionStatusEvent, all_healthy, some_degraded, invalid, recovering, is_healthy,
  is_failed, apply_change, recompute_overall, apply_event,
}

-- A core aspect has failed.
abbrev pub CoreFailed : SessionStatus → Type 0
CoreFailed s =
    (is_failed s.session ≡ true) ⊎ (is_failed s.graphics ≡ true) ⊎ (is_failed s.input ≡ true)

abbrev pub AllHealthy : SessionStatus → Type 0
AllHealthy s =
    (is_healthy s.session ≡ true)
    × (is_healthy s.graphics ≡ true)
    × (is_healthy s.input ≡ true)
    × (is_healthy s.clipboard ≡ true)

-- What the overall status says of the aspects.
pub record IsCoherent (s : SessionStatus) : Type 0 where
  pub invalid_iff : (s.overall ≡ invalid) ↔ CoreFailed s
  pub healthy_iff : (s.overall ≡ all_healthy) ↔ AllHealthy s
  pub degraded_iff : (s.overall ≡ some_degraded) ↔ ((¬ CoreFailed s) × (¬ AllHealthy s))
  pub not_recovering : s.overall ≢ recovering

recompute_overall-IsCoherent : (s : SessionStatus) → IsCoherent (recompute_overall s)
unfolding recompute_overall
recompute_overall-IsCoherent s = ground arith

-- After every event, on every status: the session is invalid exactly when the session, graphics or
-- input aspect has failed, healthy exactly when all four are healthy or not applicable, degraded in
-- all other cases, and never recovering; and the pair returned is the overall status before and
-- after.
pub apply_event-IsCoherent :
    (s : SessionStatus) (e : SessionStatusEvent)
    → IsCoherent (apply_event s e).0
      × ((apply_event s e).1 ≡ s.overall)
      × ((apply_event s e).2 ≡ (apply_event s e).0.overall)
unfolding apply_event
apply_event-IsCoherent s e = (recompute_overall-IsCoherent (apply_change e s), refl, refl)
