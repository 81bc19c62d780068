-- ===== src/Sesman/Teardown/Reached.antt =====
-- Which processes a teardown reaches with SIGTERM.
use mathlib.Core.List.{
  reverse, reverse-reverse, Mem, mem-cons_self, mem-cons_of_mem, mem-append_left,
}
use cheirizo.Prelude.{
  ℕ, Bool, true, not, ◌&&◌, Option, List, [], ◌∷◌, ◌≡◌, refl, sym, subst, arith, All, inl, inr,
  Bool-cases,
}
use cheirizo.Sesman.Process.{Kernel}
use cheirizo.Sesman.State.{SesmanConfig, SessionState}
use cheirizo.Sesman.Health.{Host}
use cheirizo.Sesman.Teardown.{
  Moments, Disk, Target, Sent, Signal, sigterm, target_alive, send_round, sent_to, stop_state,
  terms, kills, all_targets,
}
use cheirizo.Sesman.Teardown.Authorized.{All-reverse}

-- A target that is alive when it is looked at is among those that were signalled.
abbrev pub IsReached : Signal → (ℕ → Kernel) → List Sent → Target → Type 0
IsReached g look sent t = target_alive (look t.index) t ≡ true → Mem (sent_to g t) sent

All-map {ℓ κ} :
    {A : Type ℓ} (P Q : A → Type κ) (xs : List A) → ((x : A) → P x → Q x) → All P xs → All Q xs
All-map P Q [] f h = tt
All-map P Q (x ∷ xs) f h = (f x h.0, All-map P Q xs f h.1)

send_round-IsReached :
    (g : Signal) (look : ℕ → Kernel) (sent : ℕ → Bool) (again : ℕ → Kernel) (ts : List Target)
    → (send_round g look sent again ts).1 ≡ true
    → All (IsReached g look (send_round g look sent again ts).0) ts
unfolding send_round
send_round-IsReached g look sent again [] through = tt
send_round-IsReached g look sent again (t ∷ ts) through =
    let rest = send_round g look sent again ts in
    let Reached : List Sent → Type 0 = λ xs. All (IsReached g look xs) (t ∷ ts) in
    elim (Bool-cases (target_alive (look t.index) t)) [
      | inr gone ↦
          let same : (send_round g look sent again (t ∷ ts)).0 ≡ rest.0 = rw gone refl in
          let later = send_round-IsReached g look sent again ts (rw gone at through) in
          subst Reached (sym same) (λ living. absurd (cc (gone, living)), later)
      | inl alive ↦ elim (Bool-cases (not (sent t.index) && target_alive (again t.index) t)) [
        | inl stuck ↦ absurd (ground (arith, alive, stuck, through))
        | inr fine ↦
            let went : rest.1 ≡ true = rw (alive, fine) at through in
            let later = send_round-IsReached g look sent again ts went in
            let same : (send_round g look sent again (t ∷ ts)).0 ≡ sent_to g t ∷ rest.0 =
              rw (alive, fine) refl in
            subst Reached (sym same) (
              λ living. mem-cons_self,
              All-map (IsReached g look rest.0) (IsReached g look (sent_to g t ∷ rest.0)) ts
                  (λ x reached living. mem-cons_of_mem (sent_to g t) (reached living)) later,
            )
      ]
    ]

module _ (h : Host) (m : Moments) (disk : Disk) (config : SesmanConfig) (s : SessionState) where
  terms-sent :
      (registry : Option SessionState) (x : Sent)
      → Mem x (terms h m disk config s).0
      → Mem x (stop_state h m disk config s registry).sent
  unfolding stop_state
  terms-sent registry x in_terms = elim (Bool-cases (terms h m disk config s).1) [
    | inr stuck ↦ rw stuck in_terms
    | inl fine ↦ elim (Bool-cases (kills h m disk config s).1) [
      | inr stuck ↦ rw (fine, stuck) (mem-append_left _ in_terms)
      | inl sent ↦ rw (fine, sent) (mem-append_left _ in_terms)
    ]
  ]

  -- Unless a call of `kill` fails for a target that is still alive after it, a teardown sends
  -- SIGTERM to every authorized target that is alive when its turn comes.
  pub stop_state-IsReached :
      (registry : Option SessionState)
      → (terms h m disk config s).1 ≡ true
      → All
          (IsReached sigterm m.term_look (stop_state h m disk config s registry).sent)
          (all_targets h m disk config s)
  stop_state-IsReached registry through =
      let ts = all_targets h m disk config s in
      let turned =
        send_round-IsReached sigterm m.term_look m.term_sent m.term_again (reverse ts) through in
      let back =
        All-reverse (IsReached sigterm m.term_look (terms h m disk config s).0) (reverse ts)
          turned in
      let straight : All (IsReached sigterm m.term_look (terms h m disk config s).0) ts =
        subst (All (IsReached sigterm m.term_look (terms h m disk config s).0)) (reverse-reverse ts)
          back in
      All-map (IsReached sigterm m.term_look (terms h m disk config s).0)
        (IsReached sigterm m.term_look (stop_state h m disk config s registry).sent) ts
        (λ t reached living. terms-sent registry (sent_to sigterm t) (reached living)) straight
