-- ===== src/Prelude/Maps.antt =====
-- A map with text keys whose entries are iterated over, as an association list.
use Prim.Native.Nat.{ℕ, ◌+◌}
use mathlib.Core.Path.{◌≡◌, refl}
use mathlib.Core.Logic.{inl, inr}
use mathlib.Core.Bool.{Bool, false}
use mathlib.Core.Option.{Option, none, some}
use mathlib.Core.List.{List, [], ◌∷◌}
use native.Mathlib.Omega.{arith}
use cheirizo.Prelude.Tests.{if◌then◌else◌, Bool-cases}
use cheirizo.Prelude.Texts.{Text, text_eq, text_eq_sound}

module _ {ℓ} {A : Type ℓ} where
  unfoldable pub lookup : Text → List (Text × A) → Option A
  lookup k [] = none
  lookup k ((j, v) ∷ m) = if text_eq j k then some v else lookup k m

  unfoldable pub remove : Text → List (Text × A) → List (Text × A)
  remove k [] = []
  remove k ((j, v) ∷ m) = if text_eq j k then m else (j, v) ∷ remove k m

  -- How many values pass a test.
  unfoldable pub count : (A → Bool) → List (Text × A) → ℕ
  count p [] = 0
  count p ((j, v) ∷ m) = (if p v then 1 else 0) + count p m

  -- No key stands twice.
  abbrev pub Distinct : List (Text × A) → Type ℓ
  Distinct [] = Unit
  Distinct ((k, v) ∷ m) = (lookup k m ≡ none) × Distinct m

  pub count-remove :
      (p : A → Bool) (k : Text) (m : List (Text × A)) (v : A)
      → lookup k m ≡ some v
      → count p m ≡ count p (remove k m) + (if p v then 1 else 0)
  unfolding lookup remove count
  count-remove p k [] v h = absurd (cc)
  count-remove p k ((j, v) ∷ m) w h = ground (arith, count-remove p k m w)

  pub lookup-remove-none :
      (j k : Text) (m : List (Text × A)) → lookup j m ≡ none → lookup j (remove k m) ≡ none
  unfolding lookup remove
  lookup-remove-none j k [] h = refl
  lookup-remove-none j k ((i, v) ∷ m) h = ground (arith, lookup-remove-none j k m)

  pub Distinct-remove : (k : Text) (m : List (Text × A)) → Distinct m → Distinct (remove k m)
  unfolding remove
  Distinct-remove k [] d = tt
  Distinct-remove k ((j, v) ∷ m) d = elim (Bool-cases (text_eq j k)) [
    | inl same ↦ rw same d.1
    | inr other ↦ rw other (lookup-remove-none j k m d.0, Distinct-remove k m d.1)
  ]

  pub lookup-remove_self :
      (k : Text) (m : List (Text × A)) → Distinct m → lookup k (remove k m) ≡ none
  unfolding lookup remove
  lookup-remove_self k [] d = refl
  lookup-remove_self k ((j, v) ∷ m) d = elim (Bool-cases (text_eq j k)) [
    | inl same ↦ rw same (rw (← text_eq_sound j k same) d.0)
    | inr other ↦ rw (other, other) (lookup-remove_self k m d.1)
  ]

  pub lookup-remove_other :
      (j k : Text) (m : List (Text × A)) → text_eq k j ≡ false → lookup j (remove k m) ≡ lookup j m
  unfolding lookup remove
  lookup-remove_other j k [] h = refl
  lookup-remove_other j k ((i, v) ∷ m) h = elim (Bool-cases (text_eq i k)) [
    | inl same ↦ rw same (rw (text_eq_sound i k same, h) refl)
    | inr other ↦ rw other (ground (arith, lookup-remove_other j k m h))
  ]
