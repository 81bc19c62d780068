-- ===== src/Prelude/Utf16.antt =====
-- `str::encode_utf16`, `String::from_utf16` and the little-endian bytes of code units and words.
use Prim.Native.Nat.{ℕ, ◌+◌, ◌-◌, ◌*◌, ◌/◌, ◌%◌, ◌≤◌, ◌<◌}
use mathlib.Core.Path.{◌≡◌, refl, ◌∙◌}
use mathlib.Core.Logic.{◌⊎◌, inl, inr}
use mathlib.Core.Bool.{Bool, true, false, ◌&&◌}
use mathlib.Core.Option.{Option, none, some}
use mathlib.Core.List.{List, [], ◌∷◌, ◌++◌}
use native.Mathlib.Omega.{arith}
use cheirizo.Prelude.Tests.{if◌then◌else◌, ltb, leb, ltb→lt, Bool-cases}
use cheirizo.Prelude.Lists.{All, all, length}
use cheirizo.Prelude.Texts.{Text}
use cheirizo.Prelude.Strings.{cons_some}

-- A `char`: no surrogate.
abbrev pub IsScalar : ℕ → Type 0
IsScalar c = (c < 0xd800) ⊎ ((0xe000 ≤ c) × (c < 0x110000))

pub below_surrogates : (s : Text) → all (λ c. ltb c 0xd800) s ≡ true → All IsScalar s
below_surrogates [] h = tt
below_surrogates (c ∷ s) h = (inl (ground arith), below_surrogates s (ground arith))

unfoldable pub units_of : ℕ → List ℕ
units_of c =
    if ltb c 0x10000
    then c ∷ []
    else (0xd800 + (c - 0x10000) / 1024) ∷ (0xdc00 + (c - 0x10000) % 1024) ∷ []

unfoldable pub encode_utf16 : Text → List ℕ
unfolding units_of
encode_utf16 [] = []
encode_utf16 (c ∷ s) = units_of c ++ encode_utf16 s

abbrev pub is_high : ℕ → Bool
is_high u = leb 0xd800 u && leb u 0xdbff

abbrev pub is_low : ℕ → Bool
is_low u = leb 0xdc00 u && leb u 0xdfff

abbrev pub join : ℕ → ℕ → ℕ
join high low = 0x10000 + (high - 0xd800) * 1024 + (low - 0xdc00)

-- The units behind a high surrogate that waits for its low one, or behind none.
unfoldable pub decode_units : Option ℕ → List ℕ → Option Text
decode_units none [] = some []
decode_units (some high) [] = none
decode_units none (u ∷ us) = elim (is_high u) [
  | true ↦ decode_units (some u) us
  | false ↦ elim (is_low u) [ true ↦ none | false ↦ cons_some u (decode_units none us) ]
]
decode_units (some high) (u ∷ us) = elim (is_low u) [
  | true ↦ cons_some (join high u) (decode_units none us)
  | false ↦ none
]

unfoldable pub from_utf16 : List ℕ → Option Text
unfolding decode_units
from_utf16 us = decode_units none us

-- `String::from_utf16_lossy`: a lone surrogate is replaced.
unfoldable pub decode_lossy : Option ℕ → List ℕ → Text
decode_lossy none [] = []
decode_lossy (some high) [] = 0xfffd ∷ []
decode_lossy none (u ∷ us) = elim (is_high u) [
  | true ↦ decode_lossy (some u) us
  | false ↦ elim (is_low u) [
    | true ↦ 0xfffd ∷ decode_lossy none us
    | false ↦ u ∷ decode_lossy none us
  ]
]
decode_lossy (some high) (u ∷ us) = elim (is_low u) [
  | true ↦ join high u ∷ decode_lossy none us
  | false ↦ elim (is_high u) [
    | true ↦ 0xfffd ∷ decode_lossy (some u) us
    | false ↦ 0xfffd ∷ u ∷ decode_lossy none us
  ]
]

unfoldable pub from_utf16_lossy : List ℕ → Text
unfolding decode_lossy
from_utf16_lossy us = decode_lossy none us

decode_plain :
    (u : ℕ) (us : List ℕ)
    → is_high u ≡ false
    → is_low u ≡ false
    → decode_units none (u ∷ us) ≡ cons_some u (decode_units none us)
unfolding decode_units
decode_plain u us high low = rw (decode_units, high, low) refl

decode_low :
    (u v : ℕ) (us : List ℕ)
    → is_low v ≡ true
    → decode_units (some u) (v ∷ us) ≡ cons_some (join u v) (decode_units none us)
unfolding decode_units
decode_low u v us low = rw (decode_units, low) refl

decode_pair :
    (u v : ℕ) (us : List ℕ)
    → is_high u ≡ true
    → is_low v ≡ true
    → decode_units none (u ∷ v ∷ us) ≡ cons_some (join u v) (decode_units none us)
unfolding decode_units
decode_pair u v us high low = rw (decode_units, high) (decode_low u v us low)

decode-units_of :
    (c : ℕ) (us : List ℕ)
    → IsScalar c
    → decode_units none (units_of c ++ us) ≡ cons_some c (decode_units none us)
unfolding units_of
decode-units_of c us h = elim (Bool-cases (ltb c 0x10000)) [
  | inl small ↦ rw small (decode_plain c us (ground arith) (ground arith))
  | inr large ↦
      let same : join (0xd800 + (c - 0x10000) / 1024) (0xdc00 + (c - 0x10000) % 1024) ≡ c =
        ground arith in
      rw large (
        decode_pair (0xd800 + (c - 0x10000) / 1024) (0xdc00 + (c - 0x10000) % 1024) us
          (ground arith) (ground arith)
        ∙ rw same refl)
]

-- A text that is written in UTF-16 is read back.
pub from_utf16-encode_utf16 : (s : Text) → All IsScalar s → from_utf16 (encode_utf16 s) ≡ some s
unfolding from_utf16 encode_utf16
from_utf16-encode_utf16 [] h = refl
from_utf16-encode_utf16 (c ∷ s) h =
    rw (decode-units_of c (encode_utf16 s) h.0, from_utf16-encode_utf16 s h.1) refl

lossy-units_of :
    (c : ℕ) (us : List ℕ)
    → IsScalar c
    → decode_lossy none (units_of c ++ us) ≡ c ∷ decode_lossy none us
unfolding units_of
lossy-units_of c us h = elim (Bool-cases (ltb c 0x10000)) [
  | inl small ↦ rw small (plain c (ground arith) (ground arith))
  | inr large ↦
      let same : join (0xd800 + (c - 0x10000) / 1024) (0xdc00 + (c - 0x10000) % 1024) ≡ c =
        ground arith in
      rw large (
        pair (0xd800 + (c - 0x10000) / 1024) (0xdc00 + (c - 0x10000) % 1024) (ground arith)
          (ground arith)
        ∙ rw same refl)
]
  where
    plain :
        (u : ℕ)
        → is_high u ≡ false
        → is_low u ≡ false
        → decode_lossy none (u ∷ us) ≡ u ∷ decode_lossy none us
    plain u high low = unfold decode_lossy in rw (decode_lossy, high, low) refl

    waiting :
        (u v : ℕ)
        → is_low v ≡ true
        → decode_lossy (some u) (v ∷ us) ≡ join u v ∷ decode_lossy none us
    waiting u v low = unfold decode_lossy in rw (decode_lossy, low) refl

    pair :
        (u v : ℕ)
        → is_high u ≡ true
        → is_low v ≡ true
        → decode_lossy none (u ∷ v ∷ us) ≡ join u v ∷ decode_lossy none us
    pair u v high low = unfold decode_lossy in rw (decode_lossy, high) (waiting u v low)

pub from_utf16_lossy-encode_utf16 :
    (s : Text) → All IsScalar s → from_utf16_lossy (encode_utf16 s) ≡ s
unfolding from_utf16_lossy encode_utf16
from_utf16_lossy-encode_utf16 [] h = unfold decode_lossy in refl
from_utf16_lossy-encode_utf16 (c ∷ s) h =
    rw (lossy-units_of c (encode_utf16 s) h.0, from_utf16_lossy-encode_utf16 s h.1) refl

-- `u16::to_le_bytes`, `u16::from_le_bytes` and those of `u32`.
abbrev pub le16 : ℕ → List ℕ
le16 u = u % 256 ∷ u / 256 % 256 ∷ []

abbrev pub of_le16 : ℕ → ℕ → ℕ
of_le16 a b = a + 256 * b

abbrev pub le32 : ℕ → List ℕ
le32 n = n % 256 ∷ n / 256 % 256 ∷ n / 65536 % 256 ∷ n / 16777216 % 256 ∷ []

abbrev pub of_le32 : ℕ → ℕ → ℕ → ℕ → ℕ
of_le32 a b c d = a + 256 * b + 65536 * c + 16777216 * d

pub of_le32-le32 :
    (n : ℕ)
    → n < 4294967296
    → of_le32 (n % 256) (n / 256 % 256) (n / 65536 % 256) (n / 16777216 % 256) ≡ n
of_le32-le32 n h = omega arith

-- `flat_map(to_le_bytes)`, and `chunks_exact(2)` with `from_le_bytes`.
unfoldable pub unit_bytes : List ℕ → List ℕ
unit_bytes [] = []
unit_bytes (u ∷ us) = le16 u ++ unit_bytes us

unfoldable pub units : List ℕ → List ℕ
units [] = []
units (a ∷ []) = []
units (a ∷ b ∷ bytes) = of_le16 a b ∷ units bytes

abbrev pub IsUnit : ℕ → Type 0
IsUnit u = u < 65536

pub units-unit_bytes :
    (us bytes : List ℕ) → All IsUnit us → units (unit_bytes us ++ bytes) ≡ us ++ units bytes
unfolding units unit_bytes
units-unit_bytes [] bytes h = refl
units-unit_bytes (u ∷ us) bytes h =
    let e : of_le16 (u % 256) (u / 256 % 256) ≡ u = omega (arith, h.0) in
    rw (e, units-unit_bytes us bytes h.1) refl

pub length-unit_bytes : (us : List ℕ) → length (unit_bytes us) ≡ length us + length us
unfolding unit_bytes
length-unit_bytes [] = omega arith
length-unit_bytes (u ∷ us) = omega (arith, length-unit_bytes us)

pub encode_utf16-IsUnit : (s : Text) → All IsScalar s → All IsUnit (encode_utf16 s)
unfolding encode_utf16
encode_utf16-IsUnit [] h = tt
encode_utf16-IsUnit (c ∷ s) h = elim (Bool-cases (ltb c 0x10000)) [
  | inl small ↦ rw small (ltb→lt c 0x10000 small, encode_utf16-IsUnit s h.1)
  | inr large ↦ rw large (ground arith, (ground arith, encode_utf16-IsUnit s h.1))
]
