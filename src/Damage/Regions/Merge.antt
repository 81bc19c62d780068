-- ===== src/Damage/Regions/Merge.antt =====
-- `merge_regions` ends, keeps what holds of its regions, and leaves them pairwise apart.
use cheirizo.Prelude.{
  ℕ, zero, suc, leb, ◌≤◌, ◌<◌, Bool, true, false, not, ◌||◌, ◌≡◌, refl, ◌⊎◌, List, [], ◌∷◌, length,
  any, all, All, replicate, arith,
}
use cheirizo.Damage.Region.{DamageRegion, is_adjacent, union}
use cheirizo.Damage.Regions.{absorb, merge_pass, merge_round, merge_loop, merge_regions}

-- The regions whose flag is not set.
abbrev unused : List DamageRegion → List Bool → List DamageRegion
unused [] us = []
unused (r ∷ rs) [] = []
unused (r ∷ rs) (true ∷ us) = unused rs us
unused (r ∷ rs) (false ∷ us) = r ∷ unused rs us

unused_all : (rs : List DamageRegion) → unused rs (replicate (length rs) false) ≡ rs
unused_all [] = refl
unused_all (r ∷ rs) = ground (arith, unused_all rs)

-- No region is adjacent to one that stands behind it.
abbrev pub IsApart : ℕ → List DamageRegion → Type 0
IsApart d [] = Unit
IsApart d (r ∷ rs) = (all (λ s. not (is_adjacent r s d)) rs ≡ true) × IsApart d rs

module _ (d : ℕ) where
  abbrev Fewer : List DamageRegion → List DamageRegion → Bool → Bool → Type 0
  Fewer rs rs' changed changed' =
      (length rs' ≤ length rs) × (changed' ≡ true → (changed ≡ true) ⊎ (length rs' < length rs))

  absorb-Fewer :
      (c : DamageRegion) (rs : List DamageRegion) (us : List Bool) (ch : Bool)
      → let a = absorb d c rs us ch in Fewer (unused rs us) (unused rs a.1) ch a.2
  unfolding absorb
  absorb-Fewer c [] us ch = ground arith
  absorb-Fewer c (r ∷ rs) [] ch = ground arith
  absorb-Fewer c (r ∷ rs) (true ∷ us) ch = absorb-Fewer c rs us ch
  absorb-Fewer c (r ∷ rs) (false ∷ us) ch =
      ground (arith, absorb-Fewer c rs us ch, absorb-Fewer (union c r) rs us true)

  pass-Fewer :
      (rs : List DamageRegion) (us : List Bool) (ch : Bool)
      → let m = merge_pass d rs us ch in Fewer (unused rs us) m.0 ch m.1
  unfolding merge_pass
  pass-Fewer [] us ch = ground arith
  pass-Fewer (r ∷ rs) [] ch = ground arith
  pass-Fewer (r ∷ rs) (true ∷ us) ch = pass-Fewer rs us ch
  pass-Fewer (r ∷ rs) (false ∷ us) ch =
      let a = absorb d r rs us ch in ground (arith, absorb-Fewer r rs us ch, pass-Fewer rs a.1 a.2)

  absorb_unchanged :
      (c : DamageRegion) (rs : List DamageRegion) (us : List Bool) (ch : Bool)
      → let a = absorb d c rs us ch in
        a.2 ≡ false
        → (ch ≡ false)
          × (a.0 ≡ c)
          × (a.1 ≡ us)
          × (all (λ s. not (is_adjacent c s d)) (unused rs us) ≡ true)
  unfolding absorb
  absorb_unchanged c [] us ch h = ground arith
  absorb_unchanged c (r ∷ rs) [] ch h = ground arith
  absorb_unchanged c (r ∷ rs) (true ∷ us) ch h = ground (arith, absorb_unchanged c rs us ch)
  absorb_unchanged c (r ∷ rs) (false ∷ us) ch h =
      ground (arith, absorb_unchanged c rs us ch, absorb_unchanged (union c r) rs us true)

  pass_unchanged :
      (rs : List DamageRegion) (us : List Bool) (ch : Bool)
      → let m = merge_pass d rs us ch in
        m.1 ≡ false → (ch ≡ false) × (m.0 ≡ unused rs us) × IsApart d (unused rs us)
  unfolding merge_pass
  pass_unchanged [] us ch h = ground arith
  pass_unchanged (r ∷ rs) [] ch h = ground arith
  pass_unchanged (r ∷ rs) (true ∷ us) ch h = pass_unchanged rs us ch h
  pass_unchanged (r ∷ rs) (false ∷ us) ch h =
      let a = absorb d r rs us ch in
      ground (arith, absorb_unchanged r rs us ch, pass_unchanged rs a.1 a.2 h)

-- A test and a property of regions that pass from two regions to their union.
module _ (d : ℕ) (Q : DamageRegion → Type 0)
    (Q-union : (a b : DamageRegion) → Q a → Q b → Q (union a b)) (p : DamageRegion → Bool)
    (p-union : (a b : DamageRegion) → Q a → Q b → (p a || p b) ≡ true → p (union a b) ≡ true) where
  absorb_keeps :
      (c : DamageRegion) (rs : List DamageRegion) (us : List Bool) (ch : Bool)
      → Q c
      → All Q (unused rs us)
      → let a = absorb d c rs us ch in
        Q a.0
        × All Q (unused rs a.1)
        × (any p (c ∷ unused rs us) ≡ true → any p (a.0 ∷ unused rs a.1) ≡ true)
  unfolding absorb
  absorb_keeps c [] us ch q qs = ground arith
  absorb_keeps c (r ∷ rs) [] ch q qs = ground arith
  absorb_keeps c (r ∷ rs) (true ∷ us) ch q qs = absorb_keeps c rs us ch q qs
  absorb_keeps c (r ∷ rs) (false ∷ us) ch q qs = ground (
    arith,
    Q-union c r q qs.0,
    p-union c r q qs.0,
    absorb_keeps c rs us ch q qs.1,
    absorb_keeps (union c r) rs us true (Q-union c r q qs.0) qs.1,
  )

  pass_keeps :
      (rs : List DamageRegion) (us : List Bool) (ch : Bool)
      → All Q (unused rs us)
      → let m = merge_pass d rs us ch in
        All Q m.0 × (any p (unused rs us) ≡ true → any p m.0 ≡ true)
  unfolding merge_pass
  pass_keeps [] us ch qs = ground arith
  pass_keeps (r ∷ rs) [] ch qs = ground arith
  pass_keeps (r ∷ rs) (true ∷ us) ch qs = pass_keeps rs us ch qs
  pass_keeps (r ∷ rs) (false ∷ us) ch qs =
      let a = absorb d r rs us ch in
      let k = absorb_keeps r rs us ch qs.0 qs.1 in ground (arith, k, pass_keeps rs a.1 a.2 k.1)

  round_keeps :
      (rs : List DamageRegion)
      → All Q rs
      → All Q (merge_round d rs).0 × (any p rs ≡ true → any p (merge_round d rs).0 ≡ true)
  unfolding merge_round
  round_keeps rs qs =
      let k = pass_keeps rs (replicate (length rs) false) false in rw (unused_all rs) at k qs

  loop_keeps :
      (fuel : ℕ) (rs : List DamageRegion)
      → All Q rs
      → All Q (merge_loop d fuel rs) × (any p rs ≡ true → any p (merge_loop d fuel rs) ≡ true)
  unfolding merge_loop
  loop_keeps zero rs qs = (qs, λ h. h)
  loop_keeps (suc fuel) rs qs =
      let k = round_keeps rs qs in ground (arith, k, loop_keeps fuel (merge_round d rs).0 k.0)

  -- What passes to unions and holds of every region holds of every merged region, and what some
  -- region passes, some merged region passes.
  pub merge_keeps :
      (rs : List DamageRegion)
      → All Q rs
      → All Q (merge_regions rs d) × (any p rs ≡ true → any p (merge_regions rs d) ≡ true)
  unfolding merge_regions
  merge_keeps rs qs = ground (arith, loop_keeps (length rs) rs qs)

module _ (d : ℕ) where
  round_unchanged :
      (rs : List DamageRegion)
      → (merge_round d rs).1 ≡ false
      → ((merge_round d rs).0 ≡ rs) × IsApart d rs
  unfolding merge_round
  round_unchanged rs h =
      let (_, same, apart) = pass_unchanged d rs (replicate (length rs) false) false h in
      (rw (unused_all rs) at same, rw (unused_all rs) at apart)

  round_fewer :
      (rs : List DamageRegion)
      → (merge_round d rs).1 ≡ true
      → length (merge_round d rs).0 < length rs
  unfolding merge_round
  round_fewer rs h =
      ground (arith, pass-Fewer d rs (replicate (length rs) false) false, unused_all rs)

  -- With at least as many rounds as regions, the loop ends by its test.
  loop_ends :
      (fuel : ℕ) (rs : List DamageRegion)
      → length rs ≤ fuel
      → IsApart d (merge_loop d fuel rs)
        × (length (merge_loop d fuel rs) ≤ length rs)
        × (merge_round d (merge_loop d fuel rs) ≡ (merge_loop d fuel rs, false))
  unfolding merge_loop
  loop_ends zero [] h = (tt, omega arith, unfold merge_round in refl)
  loop_ends zero (r ∷ rs) h = absurd (omega arith)
  loop_ends (suc fuel) rs h =
      ground (arith, round_unchanged rs, round_fewer rs, loop_ends fuel (merge_round d rs).0)

  -- The regions that come out are pairwise apart, a further round would change nothing, and there
  -- are no more of them than came in.
  pub merge_regions-IsApart :
      (rs : List DamageRegion)
      → IsApart d (merge_regions rs d)
        × (length (merge_regions rs d) ≤ length rs)
        × (merge_round d (merge_regions rs d) ≡ (merge_regions rs d, false))
  unfolding merge_regions
  merge_regions-IsApart [] = (tt, omega arith, unfold merge_round in refl)
  merge_regions-IsApart (r ∷ []) = ((refl, tt), omega arith, unfold merge_round in refl)
  merge_regions-IsApart (r ∷ s ∷ rs) =
      let several : leb (suc (suc (length rs))) 1 ≡ false = ground arith in
      rw (several, merge_regions) (loop_ends (length (r ∷ s ∷ rs)) (r ∷ s ∷ rs) (omega arith))
