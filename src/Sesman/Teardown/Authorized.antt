-- ===== src/Sesman/Teardown/Authorized.antt =====
-- Whom a teardown signals.
use mathlib.Core.List.{reverse, reverse-cons}
use cheirizo.Prelude.{
  ℕ, zero, suc, ◌+◌, Bool, true, not, ◌&&◌, Option, none, some, List, [], ◌∷◌, ◌++◌, ◌≡◌, refl, sym,
  ap, ◌∙◌, arith, All, inl, inr, Bool-cases,
}
use cheirizo.Sesman.Process.{Kernel}
use cheirizo.Sesman.Process.Identity.{IsSpawned, signal-IsSpawned}
use cheirizo.Sesman.State.{SesmanConfig, ComponentState, SessionState}
use cheirizo.Sesman.Health.{Host, component_signature, state_belongs_to_config}
use cheirizo.Sesman.Teardown.{
  Moments, Disk, Target, Sent, Signal, sigterm, sigkill, is_authorized, targets, target_alive,
  send_round, sent_to, stop_state, terms, kills, all_targets,
}

-- The element at an index.
abbrev pub get_elem {ℓ} : {A : Type ℓ} → List A → ℕ → Option A
get_elem [] n = none
get_elem (x ∷ xs) zero = some x
get_elem (x ∷ xs) (suc n) = get_elem xs n

module _ {ℓ} {A : Type ℓ} where
  pub All-append {κ} : (P : A → Type κ) (xs ys : List A) → All P xs → All P ys → All P (xs ++ ys)
  All-append P [] ys h k = k
  All-append P (x ∷ xs) ys h k = (h.0, All-append P xs ys h.1 k)

  pub All-reverse {κ} : (P : A → Type κ) (xs : List A) → All P xs → All P (reverse xs)
  All-reverse P [] h = tt
  All-reverse P (x ∷ xs) h =
      rw (reverse-cons x xs) (All-append P (reverse xs) (x ∷ []) (All-reverse P xs h.1) (h.0, tt))

module _ (owned : Bool) (authorize : ℕ → Kernel) (components : List ComponentState) where
  -- A target stands at its index in the registry; if it is authorized, the registry is sesman's
  -- own, and the process was the spawned one, and its group its own, when that was looked at.
  pub record IsTarget (t : Target) : Type 0 where
    pub recorded : get_elem components t.index ≡ some t.component
    pub verified :
        t.authorized ≡ true
        → (owned ≡ true)
          × IsSpawned (authorize t.index) (component_signature t.component)
          × (t.component.process_group ≡ true → t.component.pgid ≡ some t.component.pid)

  authorized-IsSpawned :
      (k : Kernel) (c : ComponentState)
      → is_authorized owned k c ≡ true
      → (owned ≡ true)
        × IsSpawned k (component_signature c)
        × (c.process_group ≡ true → c.pgid ≡ some c.pid)
  unfolding is_authorized
  authorized-IsSpawned k c h =
      (ground arith, signal-IsSpawned k (component_signature c) (ground arith), λ g. ground arith)

  targets-IsTarget :
      (cs : List ComponentState) (i : ℕ)
      → ((n : ℕ) → get_elem components (i + n) ≡ get_elem cs n)
      → All IsTarget (targets owned authorize i cs)
  unfolding targets
  targets-IsTarget [] i at = tt
  targets-IsTarget (c ∷ cs) i at =
      let here : i + 0 ≡ i = omega arith in
      (
        record {
          recorded = ap (get_elem components) (sym here) ∙ at 0;
          verified = λ h. authorized-IsSpawned (authorize i) c h;
        },
        targets-IsTarget cs (i + 1) (λ n.
            let next : i + 1 + n ≡ i + suc n = omega arith in
            ap (get_elem components) next ∙ at (suc n)),
      )

module _ (h : Host) (m : Moments) (disk : Disk) (config : SesmanConfig) (s : SessionState) where
  -- The signal goes to a component of the registry, which is of this configuration, user and boot;
  -- its process was verified as the one spawned, and a group that is signalled is its own.
  pub record IsVerified (x : Sent) : Type 0 where
    pub index : ℕ
    pub component : ComponentState
    pub recorded : get_elem s.components index ≡ some component
    pub owned : state_belongs_to_config h config s ≡ true
    pub spawned : IsSpawned (m.authorize index) (component_signature component)
    pub same_pid : x.pid ≡ component.pid
    pub same_scope : x.process_group ≡ component.process_group
    pub own_group : x.process_group ≡ true → component.pgid ≡ some component.pid

  abbrev Targeted : Target → Type 0
  Targeted t = IsTarget (state_belongs_to_config h config s) m.authorize s.components t

  sent_to-IsVerified :
      (g : Signal) (t : Target) → Targeted t → t.authorized ≡ true → IsVerified (sent_to g t)
  sent_to-IsVerified g t target auth =
      let (own, spawned, group) = target.verified auth in
      record {
        index = t.index;
        component = t.component;
        recorded = target.recorded;
        owned = own;
        spawned = spawned;
        same_pid = refl;
        same_scope = refl;
        own_group = group;
      }

  alive-authorized : (k : Kernel) (t : Target) → target_alive k t ≡ true → t.authorized ≡ true
  unfolding target_alive
  alive-authorized k t alive = ground arith

  send_round-IsVerified :
      (g : Signal) (look : ℕ → Kernel) (sent : ℕ → Bool) (again : ℕ → Kernel) (ts : List Target)
      → All Targeted ts
      → All IsVerified (send_round g look sent again ts).0
  unfolding send_round
  send_round-IsVerified g look sent again [] targeted = tt
  send_round-IsVerified g look sent again (t ∷ ts) targeted =
      let rest = send_round-IsVerified g look sent again ts targeted.1 in
      elim (Bool-cases (target_alive (look t.index) t)) [
        | inr gone ↦ rw gone rest
        | inl alive ↦
            let first =
              sent_to-IsVerified g t targeted.0 (alive-authorized (look t.index) t alive) in
            elim (Bool-cases (not (sent t.index) && target_alive (again t.index) t)) [
              | inl stuck ↦ rw (alive, stuck) (first, tt)
              | inr fine ↦ rw (alive, fine) (first, rest)
            ]
      ]

  all_targets-Targeted : All Targeted (all_targets h m disk config s)
  all_targets-Targeted =
      targets-IsTarget (state_belongs_to_config h config s) m.authorize s.components s.components 0
        (λ n. let same : 0 + n ≡ n = omega arith in ap (get_elem s.components) same)

  -- Whatever the kernel shows and answers during a teardown, and however it ends, every signal that
  -- it sends goes to a process verified as one of the session's own.
  pub stop_state-IsVerified :
      (registry : Option SessionState) → All IsVerified (stop_state h m disk config s registry).sent
  unfolding stop_state
  stop_state-IsVerified registry =
      let turned = All-reverse Targeted (all_targets h m disk config s) all_targets-Targeted in
      let first =
        send_round-IsVerified sigterm m.term_look m.term_sent m.term_again
          (reverse (all_targets h m disk config s)) turned in
      let second =
        send_round-IsVerified sigkill m.kill_look m.kill_sent m.kill_again
          (reverse (all_targets h m disk config s)) turned in
      let both =
        All-append IsVerified (terms h m disk config s).0 (kills h m disk config s).0 first
          second in
      elim (Bool-cases (terms h m disk config s).1) [
        | inr stuck ↦ rw stuck first
        | inl fine ↦ elim (Bool-cases (kills h m disk config s).1) [
          | inr stuck ↦ rw (fine, stuck) both
          | inl done ↦ rw (fine, done) both
        ]
      ]
