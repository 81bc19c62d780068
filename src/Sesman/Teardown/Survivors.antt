-- ===== src/Sesman/Teardown/Survivors.antt =====
-- When a teardown drops the registry.
use cheirizo.Prelude.{
  ℕ, true, false, Option, none, List, [], ◌∷◌, ◌≡◌, refl, sym, subst, arith, All, ◌⊎◌, inl, inr,
  Bool-cases,
}
use cheirizo.Sesman.Process.{Kernel, is_empty}
use cheirizo.Sesman.State.{SesmanConfig, SessionState}
use cheirizo.Sesman.Health.{Host}
use cheirizo.Sesman.Teardown.{
  Moments, Disk, Target, SesmanError, ok, err, target_alive, survivors, finish, stop_state, terms,
  kills, all_targets,
}

no_survivors :
    (look : ℕ → Kernel) (ts : List Target)
    → is_empty (survivors look ts) ≡ true
    → All (λ t. target_alive (look t.index) t ≡ false) ts
unfolding survivors
no_survivors look [] h = tt
no_survivors look (t ∷ ts) h = elim (Bool-cases (target_alive (look t.index) t)) [
  | inl alive ↦ absurd (ground (arith, alive))
  | inr gone ↦ (gone, no_survivors look ts (rw gone at h))
]

module _ (h : Host) (m : Moments) (disk : Disk) (config : SesmanConfig) (s : SessionState) where
  -- What a teardown that succeeds has done.
  pub record IsDone (registry' : Option SessionState) : Type 0 where
    pub dropped : registry' ≡ none
    pub cleaned : disk.cleanup_ok ≡ true
    pub stopped :
        All (λ t. target_alive (m.last_look t.index) t ≡ false) (all_targets h m disk config s)

  finish_outcomes :
      (registry : Option SessionState)
      → let r = finish h m disk config s registry in
        ((r.1 ≡ ok tt) × IsDone r.0) ⊎ ((x : SesmanError) × (r.1 ≡ err x) × (r.0 ≡ registry))
  unfolding finish
  finish_outcomes registry =
      let left = is_empty (survivors m.last_look (all_targets h m disk config s)) in
      elim (Bool-cases left) [
        | inr some_left ↦ rw some_left (inr (_, refl, refl))
        | inl none_left ↦ elim (Bool-cases disk.cleanup_ok) [
          | inr dirty ↦ rw (none_left, dirty) (inr (_, refl, refl))
          | inl clean ↦ elim (Bool-cases disk.remove_ok) [
            | inr kept ↦ rw (none_left, clean, kept) (inr (_, refl, refl))
            | inl removed ↦
                let gone : (finish h m disk config s registry).0 ≡ none =
                  rw (none_left, clean, removed) refl in
                let finished : IsDone none = record {
                  dropped = refl;
                  cleaned = clean;
                  stopped = no_survivors m.last_look (all_targets h m disk config s) none_left;
                } in
                inl (rw (none_left, clean, removed) refl, subst IsDone (sym gone) finished)
          ]
        ]
      ]

  -- A teardown either succeeds, with the registry dropped after every authorized target was seen
  -- to have stopped and the runtime files were removed, or fails and leaves the registry as it was.
  pub stop_state_outcomes :
      (registry : Option SessionState)
      → let r = stop_state h m disk config s registry in
        ((r.result ≡ ok tt) × IsDone r.registry)
        ⊎ ((x : SesmanError) × (r.result ≡ err x) × (r.registry ≡ registry))
  unfolding stop_state
  stop_state_outcomes registry = elim (Bool-cases (terms h m disk config s).1) [
    | inr stuck ↦ rw stuck (inr (_, refl, refl))
    | inl fine ↦ elim (Bool-cases (kills h m disk config s).1) [
      | inr stuck ↦ rw (fine, stuck) (inr (_, refl, refl))
      | inl sent ↦ rw (fine, sent) (finish_outcomes registry)
    ]
  ]
