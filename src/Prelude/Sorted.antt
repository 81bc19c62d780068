-- ===== src/Prelude/Sorted.antt =====
-- A map with text keys in order, as `BTreeMap<String, _>`: the order of the code points is that of the
-- bytes.
use mathlib.Core.Path.{◌≡◌, refl}
use mathlib.Core.Bool.{Bool, true, false, ◌&&◌, ◌||◌}
use mathlib.Core.Option.{Option, none, some}
use mathlib.Core.List.{List, [], ◌∷◌, ◌++◌}
use native.Mathlib.Omega.{arith}
use cheirizo.Prelude.Tests.{if◌then◌else◌, ltb, ◌==◌}
use cheirizo.Prelude.Lists.{All}
use cheirizo.Prelude.Texts.{Text, text_eq, text_eq_self}

unfoldable pub text_lt : Text → Text → Bool
text_lt [] [] = false
text_lt [] (d ∷ t) = true
text_lt (c ∷ s) [] = false
text_lt (c ∷ s) (d ∷ t) = ltb c d || (c == d && text_lt s t)

text_lt-text_eq : (s t : Text) → text_lt s t ≡ true → text_eq s t ≡ false
unfolding text_lt text_eq
text_lt-text_eq [] [] h = absurd (cc)
text_lt-text_eq [] (d ∷ t) h = refl
text_lt-text_eq (c ∷ s) [] h = refl
text_lt-text_eq (c ∷ s) (d ∷ t) h = ground (arith, text_lt-text_eq s t)

text_lt_asymm : (s t : Text) → text_lt s t ≡ true → text_lt t s ≡ false
unfolding text_lt
text_lt_asymm [] [] h = refl
text_lt_asymm [] (d ∷ t) h = refl
text_lt_asymm (c ∷ s) [] h = absurd (cc)
text_lt_asymm (c ∷ s) (d ∷ t) h = ground (arith, text_lt_asymm s t)

module _ {ℓ} {A : Type ℓ} where
  unfoldable pub find : Text → List (Text × A) → Option A
  find k [] = none
  find k ((j, v) ∷ m) = if text_eq j k then some v else find k m

  unfoldable pub put : Text → A → List (Text × A) → List (Text × A)
  put k v [] = (k, v) ∷ []
  put k v ((j, w) ∷ m) =
      if text_eq j k
      then (k, v) ∷ m
      else if text_lt k j
      then (k, v) ∷ (j, w) ∷ m
      else (j, w) ∷ put k v m

  -- All keys come before one.
  abbrev pub Before : Text → List (Text × A) → Type 0
  Before k = All (λ e. text_lt e.0 k ≡ true)

  -- A key behind all others is found last and put last, and replaced there.
  pub find-last : (k : Text) (m : List (Text × A)) → Before k m → find k m ≡ none
  unfolding find
  find-last k [] h = refl
  find-last k ((j, w) ∷ m) h = rw (text_lt-text_eq j k h.0) (find-last k m h.1)

  pub put-last :
      (k : Text) (v : A) (m : List (Text × A)) → Before k m → put k v m ≡ m ++ (k, v) ∷ []
  unfolding put
  put-last k v [] h = refl
  put-last k v ((j, w) ∷ m) h =
      rw (text_lt-text_eq j k h.0, text_lt_asymm j k h.0, put-last k v m h.1) refl

  pub find-snoc :
      (k : Text) (v : A) (m : List (Text × A)) → Before k m → find k (m ++ (k, v) ∷ []) ≡ some v
  unfolding find
  find-snoc k v [] h = rw (text_eq_self k) refl
  find-snoc k v ((j, w) ∷ m) h = rw (text_lt-text_eq j k h.0) (find-snoc k v m h.1)

  pub put-snoc :
      (k : Text) (v w : A) (m : List (Text × A))
      → Before k m
      → put k v (m ++ (k, w) ∷ []) ≡ m ++ (k, v) ∷ []
  unfolding put
  put-snoc k v w [] h = rw (text_eq_self k) refl
  put-snoc k v w ((j, u) ∷ m) h =
      rw (text_lt-text_eq j k h.0, text_lt_asymm j k h.0, put-snoc k v w m h.1) refl
