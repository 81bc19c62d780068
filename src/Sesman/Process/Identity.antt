-- ===== src/Sesman/Process/Identity.antt =====
-- Whom sesman may signal: the process that it spawned, and no other.
use cheirizo.Prelude.{
  ℕ, true, false, Option, none, some, List, ◌∷◌, ◌≡◌, ◌≢◌, ◌⊎◌, inl, inr, ap, arith, Bool-cases,
  Option-cases, Text, text_eq_self, text_eq_sound,
}
use cheirizo.Sesman.Process.{
  Kernel, ProcessSignature, MatchPurpose, status, signal, process_alive, process_matches,
  is_fully_hardened, capture_identity, is_text,
}

-- The process that now has the recorded id is alive and carries every recorded identity.
pub record IsSpawned (k : Kernel) (s : ProcessSignature) : Type 0 where
  pub alive : process_alive k s.pid ≡ true
  pub same_boot : (b : Text) × (s.boot_id ≡ some b) × (k.boot_id ≡ some b)
  pub same_ticks : (t : ℕ) × (s.start_ticks ≡ some t) × (k.ticks_of s.pid ≡ some t)
  pub same_group : (g : ℕ) × (s.pgid ≡ some g) × (k.group_of s.pid ≡ some g)
  pub same_user :
      (u : ℕ) × (s.uid ≡ some u)
      × (real : ℕ) × (effective : ℕ) × (k.status_uids s.pid ≡ some (real, effective))
      × ((real ≡ u) ⊎ (effective ≡ u))

is_text_sound : (o : Option Text) (t : Text) → is_text o t ≡ true → o ≡ some t
is_text_sound none t h = absurd (cc)
is_text_sound (some s) t h = ap some (text_eq_sound s t h)

module _ (k : Kernel) (s : ProcessSignature) (h : process_matches k s signal ≡ true) where
  boot_recorded : (b : Text) × (s.boot_id ≡ some b) × (is_text k.boot_id b ≡ true)
  unfolding process_matches is_fully_hardened
  boot_recorded = elim (Option-cases s.boot_id) [
    | inl e ↦ absurd (ground arith)
    | inr (b, e) ↦ (b, e, ground arith)
  ]

  ticks_recorded : (t : ℕ) × (s.start_ticks ≡ some t) × (k.ticks_of s.pid ≡ some t)
  unfolding process_matches is_fully_hardened
  ticks_recorded = elim (Option-cases s.start_ticks) [
    | inl e ↦ absurd (ground arith)
    | inr (t, e) ↦ (t, e, ground arith)
  ]

  group_recorded : (g : ℕ) × (s.pgid ≡ some g) × (k.group_of s.pid ≡ some g)
  unfolding process_matches is_fully_hardened
  group_recorded = elim (Option-cases s.pgid) [
    | inl e ↦ absurd (ground arith)
    | inr (g, e) ↦ (g, e, ground arith)
  ]

  user_recorded :
      (u : ℕ) × (s.uid ≡ some u)
      × (real : ℕ) × (effective : ℕ) × (k.status_uids s.pid ≡ some (real, effective))
      × ((real ≡ u) ⊎ (effective ≡ u))
  unfolding process_matches is_fully_hardened
  user_recorded = elim (Option-cases s.uid) [
    | inl e ↦ absurd (ground arith)
    | inr (u, e) ↦ elim (Option-cases (k.status_uids s.pid)) [
      | inl f ↦ absurd (ground arith)
      | inr ((real, effective), f) ↦ (u, e, real, effective, f, ground arith)
    ]
  ]

  -- A process may be signalled only if it is alive and carries the boot id, the start ticks, the
  -- process group and a user id that were all recorded when sesman spawned it.
  pub signal-IsSpawned : IsSpawned k s
  unfolding process_matches
  signal-IsSpawned = record {
    alive = ground arith;
    same_boot = let (b, e, f) = boot_recorded in (b, e, is_text_sound k.boot_id b f);
    same_ticks = ticks_recorded;
    same_group = group_recorded;
    same_user = user_recorded;
  }

-- A process that may be signalled also counts as running.
pub signal-status :
    (k : Kernel) (s : ProcessSignature)
    → process_matches k s signal ≡ true
    → process_matches k s status ≡ true
unfolding process_matches
signal-status k s h = ground arith

-- Where start ticks were recorded, a process with other ticks, that has taken the id over, neither
-- counts as running nor may be signalled.
pub reused_pid_refused :
    (k : Kernel) (s : ProcessSignature) (purpose : MatchPurpose) (t : ℕ)
    → s.start_ticks ≡ some t
    → k.ticks_of s.pid ≢ some t
    → process_matches k s purpose ≡ false
unfolding process_matches
reused_pid_refused k s purpose t e other = elim (Bool-cases (process_matches k s purpose)) [
  | inl matched ↦ absurd (other (ground arith))
  | inr refused ↦ refused
]

-- The identity that is captured of a live process, where the kernel shows all of it, matches that
-- process for a signal.
pub captured_matches :
    (k : Kernel) (pid now ticks group real effective : ℕ) (boot c : Text) (args : List Text)
    → process_alive k pid ≡ true
    → k.ticks_of pid ≡ some ticks
    → k.group_of pid ≡ some group
    → k.status_uids pid ≡ some (real, effective)
    → k.boot_id ≡ some boot
    → let id = capture_identity k pid in
      process_matches k
        (record {
          pid = pid;
          command = c ∷ args;
          started_at = now;
          start_ticks = id.start_ticks;
          boot_id = id.boot_id;
          uid = id.uid;
          pgid = id.pgid;
        })
        signal
      ≡ true
unfolding process_matches is_fully_hardened capture_identity
captured_matches k pid now ticks group real effective boot c args alive t g u b =
    let same = text_eq_self boot in ground (arith, same)
