-- ===== src/Prelude/Strings.antt =====
-- The operations of the standard library on texts that the parsers use.
use Prim.Native.Char.{code}
use Prim.Native.String.{String}
use Prim.Native.Nat.{ℕ}
use mathlib.Core.Path.{◌≡◌, refl}
use mathlib.Core.Bool.{Bool, false, ◌&&◌, ◌||◌}
use mathlib.Core.Option.{Option, none, some}
use mathlib.Core.List.{List, [], ◌∷◌, ◌++◌}
use native.Mathlib.Omega.{arith}
use cheirizo.Prelude.Tests.{if◌then◌else◌, leb, ◌==◌}
use cheirizo.Prelude.Lists.{All}
use cheirizo.Prelude.Texts.{Text}

-- The code points of a literal.
abbrev pub codes : String → Text
codes String.[] = []
codes (String.◌∷◌ c s) = code c ∷ codes s

-- `char::is_whitespace`.
unfoldable pub is_whitespace : ℕ → Bool
is_whitespace c =
    (leb 9 c && leb c 13)
    || c == 32
    || c == 0x85
    || c == 0xa0
    || c == 0x1680
    || (leb 0x2000 c && leb c 0x200a)
    || c == 0x2028
    || c == 0x2029
    || c == 0x202f
    || c == 0x205f
    || c == 0x3000

unfoldable pub trim_start : Text → Text
trim_start [] = []
trim_start (c ∷ s) = if is_whitespace c then trim_start s else c ∷ s

abbrev pub add_end : ℕ → Text → Text
add_end c [] = if is_whitespace c then [] else c ∷ []
add_end c (d ∷ s) = c ∷ d ∷ s

unfoldable pub trim_end : Text → Text
trim_end [] = []
trim_end (c ∷ s) = add_end c (trim_end s)

unfoldable pub trim : Text → Text
unfolding trim_start trim_end
trim s = trim_end (trim_start s)

-- `strip_prefix` and `strip_suffix` of one character.
unfoldable pub strip_prefix : ℕ → Text → Option Text
strip_prefix q [] = none
strip_prefix q (c ∷ s) = if c == q then some s else none

abbrev pub cons_some : ℕ → Option Text → Option Text
cons_some c none = none
cons_some c (some s) = some (c ∷ s)

unfoldable pub strip_suffix : ℕ → Text → Option Text
strip_suffix q [] = none
strip_suffix q (c ∷ []) = if c == q then some [] else none
strip_suffix q (c ∷ d ∷ s) = cons_some c (strip_suffix q (d ∷ s))

-- `strip_prefix` and `strip_suffix`, both.
unfoldable pub between : ℕ → ℕ → Text → Option Text
unfolding strip_prefix strip_suffix
between p q s = elim (strip_prefix p s) [ none ↦ none | some rest ↦ strip_suffix q rest ]

abbrev pub cons_pair : ℕ → Option (Text × Text) → Option (Text × Text)
cons_pair c none = none
cons_pair c (some (s, t)) = some (c ∷ s, t)

unfoldable pub split_once : ℕ → Text → Option (Text × Text)
split_once q [] = none
split_once q (c ∷ s) =
    let rest = split_once q s in if c == q then some ([], s) else cons_pair c rest

-- The parts between the separators: of the empty text, one empty part.
abbrev pub cons_part : ℕ → List Text → List Text
cons_part c [] = (c ∷ []) ∷ []
cons_part c (p ∷ ps) = (c ∷ p) ∷ ps

unfoldable pub split : ℕ → Text → List Text
split q [] = [] ∷ []
split q (c ∷ s) = let rest = split q s in if c == q then [] ∷ rest else cons_part c rest

unfoldable pub contains : ℕ → Text → Bool
contains q [] = false
contains q (c ∷ s) = c == q || contains q s

unfoldable pub any_whitespace : Text → Bool
any_whitespace [] = false
any_whitespace (c ∷ s) = is_whitespace c || any_whitespace s

-- A text without a character.
abbrev pub Lacks : ℕ → Text → Type 0
Lacks q = All (λ c. (c == q) ≡ false)

-- A text without white space.
abbrev pub Solid : Text → Type 0
Solid = All (λ c. is_whitespace c ≡ false)

pub trim_end-snoc :
    (s : Text) (q : ℕ) → is_whitespace q ≡ false → trim_end (s ++ q ∷ []) ≡ s ++ q ∷ []
unfolding trim_end
trim_end-snoc [] q h = rw h refl
trim_end-snoc (c ∷ []) q h = rw h refl
trim_end-snoc (c ∷ d ∷ s) q h = rw (trim_end-snoc (d ∷ s) q h) refl

pub trim_end-Solid : (s : Text) → Solid s → trim_end s ≡ s
unfolding trim_end
trim_end-Solid [] h = refl
trim_end-Solid (c ∷ []) h = rw (h.0) refl
trim_end-Solid (c ∷ d ∷ s) h = rw (trim_end-Solid (d ∷ s) h.1) refl

pub trim-Solid : (s : Text) → Solid s → trim s ≡ s
unfolding trim trim_start
trim-Solid [] h = refl
trim-Solid (c ∷ s) h = rw (h.0) (trim_end-Solid (c ∷ s) h)

-- A text whose first and last characters are no white space.
pub trim_enclosed :
    (p : ℕ) (s : Text) (q : ℕ)
    → is_whitespace p ≡ false
    → is_whitespace q ≡ false
    → trim (p ∷ (s ++ q ∷ [])) ≡ p ∷ (s ++ q ∷ [])
unfolding trim trim_start
trim_enclosed p s q hp hq = rw hp (trim_end-snoc (p ∷ s) q hq)

pub strip_suffix-snoc : (q : ℕ) (s : Text) → strip_suffix q (s ++ q ∷ []) ≡ some s
unfolding strip_suffix
strip_suffix-snoc q [] = ground arith
strip_suffix-snoc q (c ∷ []) = ground (arith, strip_suffix-snoc q [])
strip_suffix-snoc q (c ∷ d ∷ s) = rw (strip_suffix-snoc q (d ∷ s)) refl

pub between_enclosed : (p q : ℕ) (s : Text) → between p q (p ∷ (s ++ q ∷ [])) ≡ some s
unfolding between
between_enclosed p q s = ground (arith, strip_suffix-snoc q s)

pub split-lacking : (q : ℕ) (s : Text) → Lacks q s → split q s ≡ s ∷ []
unfolding split
split-lacking q [] h = refl
split-lacking q (c ∷ s) h = rw (h.0, split-lacking q s h.1) refl

pub split-append :
    (q : ℕ) (s rest : Text) → Lacks q s → split q (s ++ (q ∷ rest)) ≡ s ∷ split q rest
unfolding split
split-append q [] rest h = ground arith
split-append q (c ∷ s) rest h = rw (h.0, split-append q s rest h.1) refl

pub split_once-append :
    (q : ℕ) (s rest : Text) → Lacks q s → split_once q (s ++ (q ∷ rest)) ≡ some (s, rest)
unfolding split_once
split_once-append q [] rest h = ground arith
split_once-append q (c ∷ s) rest h = rw (h.0, split_once-append q s rest h.1) refl

-- `str::lines`: a line feed ends a line, with a carriage return before it, and after the last one
-- nothing more is a line.
unfoldable pub drop_return : Text → Text
unfolding strip_suffix
drop_return s = elim (strip_suffix b'\r' s) [ none ↦ s | some rest ↦ rest ]

abbrev pub last_line : Text → List Text
last_line [] = []
last_line (c ∷ s) = (c ∷ s) ∷ []

unfoldable pub line_parts : List Text → List Text
unfolding drop_return
line_parts [] = []
line_parts (p ∷ []) = last_line p
line_parts (p ∷ q ∷ ps) = drop_return p ∷ line_parts (q ∷ ps)

unfoldable pub lines : Text → List Text
unfolding split line_parts
lines s = line_parts (split b'\n' s)

-- Lines that are written with a line feed behind each.
unfoldable pub unlines : List Text → Text
unlines [] = []
unlines (line ∷ rest) = line ++ (b'\n' ∷ unlines rest)

abbrev pub IsLine : Text → Type 0
IsLine line = Lacks b'\n' line × Lacks b'\r' line

strip_suffix-lacking : (q : ℕ) (s : Text) → Lacks q s → strip_suffix q s ≡ none
unfolding strip_suffix
strip_suffix-lacking q [] h = refl
strip_suffix-lacking q (c ∷ []) h = rw h.0 refl
strip_suffix-lacking q (c ∷ d ∷ s) h = rw (strip_suffix-lacking q (d ∷ s) h.1) refl

drop_return-lacking : (s : Text) → Lacks b'\r' s → drop_return s ≡ s
unfolding drop_return
drop_return-lacking s h = rw (drop_return, strip_suffix-lacking b'\r' s h) refl

split-unlines : (ls : List Text) → All IsLine ls → split b'\n' (unlines ls) ≡ ls ++ [] ∷ []
unfolding unlines
split-unlines [] h = unfold split in refl
split-unlines (l ∷ ls) h = rw (split-append b'\n' l (unlines ls) h.0.0, split-unlines ls h.1) refl

line_parts-lines : (ls : List Text) → All IsLine ls → line_parts (ls ++ [] ∷ []) ≡ ls
unfolding line_parts
line_parts-lines [] h = refl
line_parts-lines (l ∷ []) h = rw (line_parts, drop_return-lacking l h.0.1) refl
line_parts-lines (l ∷ k ∷ ls) h =
    rw (line_parts, drop_return-lacking l h.0.1, line_parts-lines (k ∷ ls) h.1) refl

pub lines-unlines : (ls : List Text) → All IsLine ls → lines (unlines ls) ≡ ls
unfolding lines
lines-unlines ls h = rw (split-unlines ls h) (line_parts-lines ls h)
