-- ===== src/Sesman/Health/Serve.antt =====
-- What holds of a session that can serve.
use cheirizo.Prelude.{
  ℕ, zero, suc, ◌<◌, Bool, true, false, not, Option, none, some, List, [], ◌∷◌, ◌++◌, all, All, ◌≡◌,
  refl, arith, ◌⊎◌, inl, inr, Bool-cases, Option-cases, Text, text_eq, text_eq_self, text_eq_sound,
}
use cheirizo.Sesman.State.{
  SesmanConfig, ComponentConfig, ComponentState, SessionState, healthy, degraded, missing, dead,
}
use cheirizo.Sesman.Health.{
  Host, find_state, find_config, component_ready, scan_components, removed_components,
  state_belongs_to_config, dead_and_alive, session_status, status_can_serve, is_optional, health_of,
}

-- No two components have one name, which `validate` checks.
abbrev pub Distinct : List ComponentConfig → Type 0
Distinct [] = Unit
Distinct (c ∷ cs) =
    (all (λ (d : ComponentConfig). not (text_eq c.name d.name)) cs ≡ true) × Distinct cs

find_config-skip :
    (c : ComponentConfig) (whole cs : List ComponentConfig)
    → all (λ (d : ComponentConfig). not (text_eq c.name d.name)) cs ≡ true
    → All (λ (d : ComponentConfig). find_config d.name whole ≡ some d) cs
    → All (λ (d : ComponentConfig). find_config d.name (c ∷ whole) ≡ some d) cs
find_config-skip c whole [] h k = tt
find_config-skip c whole (d ∷ cs) h k =
    (ground arith, find_config-skip c whole cs (ground arith) k.1)

find_config_self :
    (cs : List ComponentConfig)
    → Distinct cs
    → All (λ (c : ComponentConfig). find_config c.name cs ≡ some c) cs
find_config_self [] h = tt
find_config_self (c ∷ cs) h =
    (rw (text_eq_self c.name) refl, find_config-skip c cs cs h.0 (find_config_self cs h.1))

-- The component is on record, its process runs with the configured command, and it is ready.
abbrev pub Running : Host → List ComponentState → ComponentConfig → Type 0
Running h states c =
    (p : ComponentState) × (find_state c.name states ≡ some p) × (component_ready h c p ≡ true)

find_state-name :
    (name : Text) (states : List ComponentState) (p : ComponentState)
    → find_state name states ≡ some p
    → p.name ≡ name
find_state-name name [] p e = absurd (cc)
find_state-name name (c ∷ cs) p e = elim (Bool-cases (text_eq c.name name)) [
  | inl same ↦ let found : c ≡ p = ground arith in rw (← found) (text_eq_sound c.name name same)
  | inr other ↦ find_state-name name cs p (ground arith)
]

all-append : (q : Text → Bool) (xs ys : List Text) → all q (xs ++ ys) ≡ true → all q xs ≡ true
all-append q [] ys h = refl
all-append q (x ∷ xs) ys h = ground (arith, all-append q xs ys)

module _ (h : Host) (states : List ComponentState) (whole : List ComponentConfig) where
  -- One round of the scan, of a component that is required.
  required_runs :
      (c : ComponentConfig) (rest : List ComponentConfig)
      → find_config c.name whole ≡ some c
      → all (is_optional whole) (scan_components h states (c ∷ rest)).0 ≡ true
      → c.required ≡ true
      → Running h states c
  unfolding scan_components
  required_runs c rest found optional needed = elim (Option-cases (find_state c.name states)) [
    | inl absent ↦ absurd (ground arith)
    | inr (p, there) ↦ elim (Bool-cases (component_ready h c p)) [
      | inl ready ↦ (p, there, ready)
      | inr down ↦ absurd (ground (arith, find_state-name c.name states p there))
    ]
  ]

  scan-rest :
      (c : ComponentConfig) (rest : List ComponentConfig)
      → all (is_optional whole) (scan_components h states (c ∷ rest)).0 ≡ true
      → all (is_optional whole) (scan_components h states rest).0 ≡ true
  unfolding scan_components
  scan-rest c rest optional = ground arith

  all_required_run :
      (rest : List ComponentConfig)
      → All (λ (c : ComponentConfig). find_config c.name whole ≡ some c) rest
      → all (is_optional whole) (scan_components h states rest).0 ≡ true
      → All (λ (c : ComponentConfig). c.required ≡ true → Running h states c) rest
  all_required_run [] found optional = tt
  all_required_run (c ∷ rest) found optional = (
    required_runs c rest found.0 optional,
    all_required_run rest found.1 (scan-rest c rest optional),
  )

serves_of :
    (q : Text → Bool) (gone : List Text) (alive : ℕ)
    → (elim (health_of (gone, alive)) [
      | healthy ↦ true
      | degraded ↦ all q gone
      | missing ↦ false
      | dead ↦ false
    ])
      ≡ true
    → (all q gone ≡ true) × ((gone ≡ []) ⊎ (0 < alive))
serves_of q [] alive h = (refl, inl refl)
serves_of q (name ∷ gone) zero h = absurd (cc)
serves_of q (name ∷ gone) (suc alive) h = (ground arith, inr (omega arith))

-- Only optional components are dead in a session that can serve, and the registry is its own.
served :
    (h : Host) (config : SesmanConfig) (s : SessionState)
    → status_can_serve config (session_status h config (some s)) ≡ true
    → (all (is_optional config.components) (dead_and_alive h config s).0 ≡ true)
      × (((dead_and_alive h config s).0 ≡ []) ⊎ (0 < (dead_and_alive h config s).1))
unfolding status_can_serve session_status
served h config s serves =
    serves_of (is_optional config.components) (dead_and_alive h config s).0
      (dead_and_alive h config s).1 serves

served-belongs :
    (h : Host) (config : SesmanConfig) (s : SessionState)
    → ((dead_and_alive h config s).0 ≡ []) ⊎ (0 < (dead_and_alive h config s).1)
    → state_belongs_to_config h config s ≡ true
unfolding dead_and_alive
served-belongs h config s some_alive = elim (Bool-cases (state_belongs_to_config h config s)) [
  | inl own ↦ own
  | inr foreign ↦ absurd (ground (arith, foreign))
]

served-scan :
    (h : Host) (config : SesmanConfig) (s : SessionState)
    → state_belongs_to_config h config s ≡ true
    → all (is_optional config.components) (dead_and_alive h config s).0 ≡ true
    → all (is_optional config.components) (scan_components h s.components config.components).0
      ≡ true
unfolding dead_and_alive
served-scan h config s own optional =
    all-append (is_optional config.components) (scan_components h s.components config.components).0
      (removed_components config.components s.components) (rw own at optional)

-- A session that can serve has a registry of this configuration, user and boot, in which every
-- required component is on record with the configured command, runs and is ready.
pub status_can_serve-Running :
    (h : Host) (config : SesmanConfig) (registry : Option SessionState)
    → Distinct config.components
    → status_can_serve config (session_status h config registry) ≡ true
    → (s : SessionState) × (registry ≡ some s)
      × (state_belongs_to_config h config s ≡ true)
      × All
          (λ (c : ComponentConfig). c.required ≡ true → Running h s.components c)
          config.components
unfolding status_can_serve session_status
status_can_serve-Running h config none distinct serves = absurd (cc)
status_can_serve-Running h config (some s) distinct serves =
    let (optional, alive) = served h config s serves in
    let own = served-belongs h config s alive in
    (
      s,
      refl,
      own,
      all_required_run h s.components config.components config.components
          (find_config_self config.components distinct) (served-scan h config s own optional),
    )
