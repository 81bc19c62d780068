-- ===== src/Sesman/Registry/Reads.antt =====
-- What a read of the registry gives.
use cheirizo.Prelude.{Option, none, some, ◌≡◌, ◌⊎◌, refl, arith}
use cheirizo.Sesman.State.{SesmanConfig, SessionState}
use cheirizo.Sesman.Health.{Host, session_status}
use cheirizo.Sesman.Teardown.{Disk, ok, err, registry_unreadable}
use cheirizo.Sesman.Registry.{read_status}

pub read_status-cases :
    (h : Host) (disk : Disk) (config : SesmanConfig) (registry : Option SessionState)
    → (read_status h disk config registry ≡ err registry_unreadable)
      ⊎ (read_status h disk config registry ≡ ok (session_status h config registry))
unfolding read_status
read_status-cases h disk config registry = ground arith

pub session_status-state :
    (h : Host) (config : SesmanConfig) (registry : Option SessionState)
    → (session_status h config registry).state ≡ registry
unfolding session_status
session_status-state h config none = refl
session_status-state h config (some s) = refl
