-- ===== src/Sesman/Registry/Dates.antt =====
-- The dates that the idle timeout of a session manager leads to.
use cheirizo.Prelude.{ℕ, ◌+◌, ◌≤◌, true, false, none, some, ◌≡◌, refl, arith, ◌==◌, ltb}
use cheirizo.Sesman.State.{SesmanConfig}
use cheirizo.Sesman.Registry.{add_timeout, idle_deadline_after, date_max}

add_timeout_dated :
    (base timeout : ℕ)
    → base + timeout ≤ date_max
    → add_timeout base timeout ≡ some (base + timeout)
unfolding add_timeout
add_timeout_dated base timeout dated =
    let small : ltb timeout 9223372036854775808 ≡ true = ground arith in
    let fits : ltb date_max (base + timeout) ≡ false = ground arith in rw (small, fits) refl

pub idle_deadline_after-never :
    (config : SesmanConfig) (base : ℕ)
    → (config.idle_timeout_ms == 0) ≡ true
    → idle_deadline_after config base ≡ some none
unfolding idle_deadline_after
idle_deadline_after-never config base never = rw never refl

pub idle_deadline_after-dated :
    (config : SesmanConfig) (base : ℕ)
    → (config.idle_timeout_ms == 0) ≡ false
    → base + config.idle_timeout_ms ≤ date_max
    → idle_deadline_after config base ≡ some (some (base + config.idle_timeout_ms))
unfolding idle_deadline_after
idle_deadline_after-dated config base bounded dated =
    rw (bounded, add_timeout_dated base config.idle_timeout_ms dated) refl
