-- ===== src/Prelude/Utf8.antt =====
-- `str::from_utf8`.
use Prim.Native.Nat.{ℕ, zero, suc, ◌+◌, ◌-◌, ◌*◌}
use mathlib.Core.Path.{◌≡◌, refl}
use mathlib.Core.Bool.{Bool, true, false, ◌&&◌, ◌||◌}
use mathlib.Core.Option.{Option, none, some}
use mathlib.Core.List.{List, [], ◌∷◌}
use cheirizo.Prelude.Tests.{ltb, leb}
use cheirizo.Prelude.Lists.{All}
use cheirizo.Prelude.Texts.{Text}
use cheirizo.Prelude.Strings.{cons_some}

abbrev is_char : ℕ → Bool
is_char c = ltb c 0xd800 || (leb 0xe000 c && ltb c 0x110000)

-- The bytes where a character still wants some bytes, with what is read of it and its least value.
unfoldable pub decode_bytes : ℕ → ℕ → ℕ → List ℕ → Option Text
decode_bytes zero c least [] = some []
decode_bytes (suc n) c least [] = none
decode_bytes zero c least (b ∷ bytes) = elim (ltb b 0x80) [
  | true ↦ cons_some b (decode_bytes zero 0 0 bytes)
  | false ↦ elim (leb 0xc0 b && leb b 0xdf) [
    | true ↦ decode_bytes 1 (b - 0xc0) 0x80 bytes
    | false ↦ elim (leb 0xe0 b && leb b 0xef) [
      | true ↦ decode_bytes 2 (b - 0xe0) 0x800 bytes
      | false ↦ elim (leb 0xf0 b && leb b 0xf7) [
        | true ↦ decode_bytes 3 (b - 0xf0) 0x10000 bytes
        | false ↦ none
      ]
    ]
  ]
]
decode_bytes (suc zero) c least (b ∷ bytes) =
    let c' = c * 64 + (b - 0x80) in
    elim (leb 0x80 b && leb b 0xbf && leb least c' && is_char c') [
      | true ↦ cons_some c' (decode_bytes zero 0 0 bytes)
      | false ↦ none
    ]
decode_bytes (suc (suc n)) c least (b ∷ bytes) = elim (leb 0x80 b && leb b 0xbf) [
  | true ↦ decode_bytes (suc n) (c * 64 + (b - 0x80)) least bytes
  | false ↦ none
]

unfoldable pub from_utf8 : List ℕ → Option Text
unfolding decode_bytes
from_utf8 bytes = decode_bytes zero 0 0 bytes

abbrev pub IsAscii : ℕ → Type 0
IsAscii c = ltb c 0x80 ≡ true

pub from_utf8-ascii : (s : Text) → All IsAscii s → from_utf8 s ≡ some s
unfolding from_utf8
from_utf8-ascii [] h = refl
from_utf8-ascii (c ∷ s) h = rw (decode_bytes, h.0, from_utf8-ascii s h.1) refl
