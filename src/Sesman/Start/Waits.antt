-- ===== src/Sesman/Start/Waits.antt =====
-- How a wait for a component that starts ends, and when.
use cheirizo.Prelude.{
  ℕ, zero, suc, ◌+◌, ◌*◌, ◌/◌, ◌≤◌, ◌<◌, true, false, Option, some, ◌≡◌, refl, arith, ◌⊎◌, inl, inr,
  Bool-cases, leb, subst, sym,
}
use cheirizo.Sesman.State.{SesmanConfig, ComponentConfig, SessionState}
use cheirizo.Sesman.Health.{Host, readiness_holds}
use cheirizo.Sesman.Start.{
  Readiness, ready, given_up, exited, late, is_running, wait_from, wait_until_ready,
}

module _ (component : ComponentConfig) (s : SessionState) (looks : ℕ → Host) (clock : ℕ → ℕ)
    (deadline : ℕ) where
  -- A round after which the wait goes on: the component runs, but is not ready, before the deadline.
  abbrev pub Waits : ℕ → Type 0
  Waits k =
      (is_running (looks k) component s ≡ true)
      × (readiness_holds (looks k) component.readiness ≡ false)
      × (clock k < deadline)

  -- A round in which the time for the component is over.
  abbrev pub TimesOut : ℕ → Type 0
  TimesOut k =
      (is_running (looks k) component s ≡ true)
      × (readiness_holds (looks k) component.readiness ≡ false)
      × (deadline ≤ clock k)

  -- What the last round has seen, by how the wait ends.
  abbrev pub Ends : Readiness → ℕ → Type 0
  Ends ready k =
      (is_running (looks k) component s ≡ true)
      × (readiness_holds (looks k) component.readiness ≡ true)
  Ends exited k = (is_running (looks k) component s ≡ false) × (component.required ≡ true)
  Ends late k = TimesOut k × (component.required ≡ true)
  Ends given_up k =
      (component.required ≡ false) × ((is_running (looks k) component s ≡ false) ⊎ TimesOut k)

  -- A wait from a round on that has ended.
  record IsOver (first : ℕ) (result : Option Readiness) : Type 0 where
    readiness : Readiness
    round : ℕ
    is_result : result ≡ some readiness
    after : first ≤ round
    before : (j : ℕ) → first ≤ j → j < round → Waits j
    ended : Ends readiness round

  IsOver-here :
      (k : ℕ) (result : Option Readiness) (r : Readiness)
      → result ≡ some r
      → Ends r k
      → IsOver k result
  IsOver-here k result r e ended = record {
    readiness = r;
    round = k;
    is_result = e;
    after = omega arith;
    before = λ j from to. absurd (omega (arith, from, to));
    ended = ended;
  }

  stopped_lem :
      (k rounds : ℕ)
      → is_running (looks k) component s ≡ false
      → IsOver k (wait_from component s looks clock deadline (suc rounds) k)
  unfolding wait_from
  stopped_lem k rounds gone = elim (Bool-cases component.required) [
    | inl needed ↦ IsOver-here k _ exited (rw (gone, needed) refl) (gone, needed)
    | inr free ↦ IsOver-here k _ given_up (rw (gone, free) refl) (free, inl gone)
  ]

  timed_out_lem :
      (k rounds : ℕ)
      → TimesOut k
      → IsOver k (wait_from component s looks clock deadline (suc rounds) k)
  unfolding wait_from
  timed_out_lem k rounds (alive, unready, passed) =
      let past : leb deadline (clock k) ≡ true = ground arith in
      elim (Bool-cases component.required) [
        | inl needed ↦
            IsOver-here k _ late (rw (alive, unready, past, needed) refl)
              ((alive, unready, passed), needed)
        | inr free ↦
            IsOver-here k _ given_up (rw (alive, unready, past, free) refl)
              (free, inr (alive, unready, passed))
      ]

  ready_lem :
      (k rounds : ℕ)
      → is_running (looks k) component s ≡ true
      → readiness_holds (looks k) component.readiness ≡ true
      → IsOver k (wait_from component s looks clock deadline (suc rounds) k)
  unfolding wait_from
  ready_lem k rounds alive holds = IsOver-here k _ ready (rw (alive, holds) refl) (alive, holds)

  goes_on :
      (k rounds : ℕ)
      → Waits k
      → wait_from component s looks clock deadline (suc rounds) k
        ≡ wait_from component s looks clock deadline rounds (k + 1)
  unfolding wait_from
  goes_on k rounds (alive, unready, early) =
      let soon : leb deadline (clock k) ≡ false = ground arith in rw (alive, unready, soon) refl

  later-IsOver :
      (k : ℕ) (result : Option Readiness) → Waits k → IsOver (k + 1) result → IsOver k result
  later-IsOver k result here o =
      let after : k + 1 ≤ o.round = o.after in
      record {
        readiness = o.readiness;
        round = o.round;
        is_result = o.is_result;
        after = omega arith;
        before = λ j from to. elim (Nat-eq-or-lt k j from) [
          | inl same ↦ subst Waits same here
          | inr beyond ↦ o.before j beyond to
        ];
        ended = o.ended;
      }
    where
      Nat-eq-or-lt : (a b : ℕ) → a ≤ b → (a ≡ b) ⊎ (a + 1 ≤ b)
      Nat-eq-or-lt a b h = ground arith

  round_lem :
      (k rounds : ℕ)
      → (Waits k → IsOver k (wait_from component s looks clock deadline (suc rounds) k))
      → IsOver k (wait_from component s looks clock deadline (suc rounds) k)
  round_lem k rounds further = elim (Bool-cases (is_running (looks k) component s)) [
    | inr gone ↦ stopped_lem k rounds gone
    | inl alive ↦ elim (Bool-cases (readiness_holds (looks k) component.readiness)) [
      | inl holds ↦ ready_lem k rounds alive holds
      | inr unready ↦ elim (Bool-cases (leb deadline (clock k))) [
        | inl past ↦ timed_out_lem k rounds (alive, unready, ground arith)
        | inr early ↦ further (alive, unready, ground arith)
      ]
    ]
  ]

  wait_from-IsOver :
      ((k : ℕ) → clock k + 100 ≤ clock (k + 1))
      → (rounds k : ℕ) → deadline ≤ clock k + 100 * rounds
      → IsOver k (wait_from component s looks clock deadline (suc rounds) k)
  wait_from-IsOver ticks zero k enough =
      round_lem k 0 (λ (alive, unready, early). absurd (omega (arith, early, enough)))
  wait_from-IsOver ticks (suc rounds) k enough = round_lem k (suc rounds) (λ here.
      let later = wait_from-IsOver ticks rounds (k + 1) (omega (arith, ticks k, enough)) in
      subst (IsOver k) (sym (goes_on k (suc rounds) here)) (later-IsOver k _ here later))

tick_lem :
    (began k now next : ℕ) → began + 100 * k ≤ now → now + 100 ≤ next → began + 100 * suc k ≤ next
tick_lem began k now next before tick = omega arith

start_lem : (began now : ℕ) → began ≤ now → began + 100 * 0 ≤ now
start_lem began now start = omega arith

suc_lem : (k : ℕ) → k + 1 ≡ suc k
suc_lem k = omega arith

-- The clock after some rounds.
clock_lem :
    (clock : ℕ → ℕ) (began : ℕ)
    → began ≤ clock 0
    → ((k : ℕ) → clock k + 100 ≤ clock (k + 1))
    → (k : ℕ) → began + 100 * k ≤ clock k
clock_lem clock began start ticks zero = start_lem began (clock 0) start
clock_lem clock began start ticks (suc k) =
    tick_lem began k (clock k) (clock (suc k)) (clock_lem clock began start ticks k)
      (subst (λ n. clock k + 100 ≤ clock n) (suc_lem k) (ticks k))

module _ (config : SesmanConfig) (component : ComponentConfig) (s : SessionState) (began : ℕ)
    (looks : ℕ → Host) (clock : ℕ → ℕ) where
  -- A wait has ended in a round.
  pub record IsWaited (result : Option Readiness) : Type 0 where
    pub readiness : Readiness
    pub round : ℕ
    pub is_result : result ≡ some readiness
    pub before :
        (j : ℕ) → j < round → Waits component s looks clock (began + config.start_timeout_ms) j
    pub ended : Ends component s looks clock (began + config.start_timeout_ms) readiness round
    pub soon : 100 * round < config.start_timeout_ms + 100

  soon_lem :
      (round : ℕ)
      → began ≤ clock 0
      → ((k : ℕ) → clock k + 100 ≤ clock (k + 1))
      → ((j : ℕ) → j < round → clock j < began + config.start_timeout_ms)
      → 100 * round < config.start_timeout_ms + 100
  soon_lem zero start ticks early = omega arith
  soon_lem (suc k) start ticks early =
      let at = clock_lem clock began start ticks k in
      let last = early k (omega arith) in omega (arith, at, last)

  -- If the clock does not run backwards from the start of the wait, and a sleep takes at least its
  -- 100 milliseconds, the wait ends, in a round before the start timeout has passed by more than one
  -- sleep. In all rounds before it the component was running but not ready, before the deadline. It
  -- ends as ready if the component is seen to run and to be ready; in an error if it is required
  -- and has exited, or is not ready in a round that is not before the deadline; and is given up in
  -- these two cases if it is optional.
  pub wait_until_ready_ends :
      began ≤ clock 0
      → ((k : ℕ) → clock k + 100 ≤ clock (k + 1))
      → IsWaited (wait_until_ready config component s began looks clock)
  unfolding wait_until_ready
  wait_until_ready_ends start ticks =
      let o =
        wait_from-IsOver component s looks clock (began + config.start_timeout_ms) ticks
          (config.start_timeout_ms / 100 + 1) 0 (omega (arith, start)) in
      record {
        readiness = o.readiness;
        round = o.round;
        is_result = o.is_result;
        before = λ j to. o.before j (omega arith) to;
        ended = o.ended;
        soon = soon_lem o.round start ticks (λ j to. (o.before j (omega arith) to).2);
      }
