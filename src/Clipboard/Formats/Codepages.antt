-- ===== src/Clipboard/Formats/Codepages.antt =====
-- The code pages Windows-1252 and 437 of src/rdp/channels/clipboard/core/formats.rs. The arms of a
-- `match` on code points are a table.
use cheirizo.Prelude.{
  ℕ, ◌-◌, ◌≡◌, ◌≢◌, ◌⊎◌, refl, arith, Bool, true, false, ◌&&◌, ◌||◌, ltb, leb, ◌==◌, if◌then◌else◌,
  Option, none, some, List, [], ◌∷◌, get_or, all, Bool-cases, inl, inr,
}

abbrev pub find_byte : ℕ → List (ℕ × ℕ) → Option ℕ
find_byte c [] = none
find_byte c ((d, b) ∷ rows) = if c == d then some b else find_byte c rows

abbrev pub find_char : ℕ → List (ℕ × ℕ) → Option ℕ
find_char b [] = none
find_char b ((c, d) ∷ rows) = if b == d then some c else find_char b rows

abbrev pub or_else : Option ℕ → ℕ → ℕ
or_else none d = d
or_else (some n) d = n

abbrev windows1252_rows : List (ℕ × ℕ)
windows1252_rows =
    (0x20ac, 128)
    ∷ (0x201a, 130)
    ∷ (0x192, 131)
    ∷ (0x201e, 132)
    ∷ (0x2026, 133)
    ∷ (0x2020, 134)
    ∷ (0x2021, 135)
    ∷ (0x2c6, 136)
    ∷ (0x2030, 137)
    ∷ (0x160, 138)
    ∷ (0x2039, 139)
    ∷ (0x152, 140)
    ∷ (0x17d, 142)
    ∷ (0x2018, 145)
    ∷ (0x2019, 146)
    ∷ (0x201c, 147)
    ∷ (0x201d, 148)
    ∷ (0x2022, 149)
    ∷ (0x2013, 150)
    ∷ (0x2014, 151)
    ∷ (0x2dc, 152)
    ∷ (0x2122, 153)
    ∷ (0x161, 154)
    ∷ (0x203a, 155)
    ∷ (0x153, 156)
    ∷ (0x17e, 158)
    ∷ (0x178, 159)
    ∷ []

unfoldable pub char_to_windows1252 : ℕ → ℕ
char_to_windows1252 c =
    if ltb c 128
    then c
    else or_else (find_byte c windows1252_rows) (if leb 160 c && leb c 255 then c else b'?')

unfoldable pub windows1252_to_char : ℕ → ℕ
windows1252_to_char b =
    if ltb b 128 then b else if leb 160 b then b else or_else (find_char b windows1252_rows) b'?'

abbrev cp437_rows : List (ℕ × ℕ)
cp437_rows =
    (0xc7, 128)
    ∷ (0xfc, 129)
    ∷ (0xe9, 130)
    ∷ (0xe2, 131)
    ∷ (0xe4, 132)
    ∷ (0xe0, 133)
    ∷ (0xe5, 134)
    ∷ (0xe7, 135)
    ∷ (0xea, 136)
    ∷ (0xeb, 137)
    ∷ (0xe8, 138)
    ∷ (0xef, 139)
    ∷ (0xee, 140)
    ∷ (0xec, 141)
    ∷ (0xc4, 142)
    ∷ (0xc5, 143)
    ∷ (0xc9, 144)
    ∷ (0xe6, 145)
    ∷ (0xc6, 146)
    ∷ (0xf4, 147)
    ∷ (0xf6, 148)
    ∷ (0xf2, 149)
    ∷ (0xfb, 150)
    ∷ (0xf9, 151)
    ∷ (0xff, 152)
    ∷ (0xd6, 153)
    ∷ (0xdc, 154)
    ∷ (0xa2, 155)
    ∷ (0xa3, 156)
    ∷ (0xa5, 157)
    ∷ (0x20a7, 158)
    ∷ (0x192, 159)
    ∷ (0xe1, 160)
    ∷ (0xed, 161)
    ∷ (0xf3, 162)
    ∷ (0xfa, 163)
    ∷ (0xf1, 164)
    ∷ (0xd1, 165)
    ∷ (0xaa, 166)
    ∷ (0xba, 167)
    ∷ (0xbf, 168)
    ∷ (0xa1, 173)
    ∷ (0xab, 174)
    ∷ (0xbb, 175)
    ∷ (0xb0, 248)
    ∷ (0xb7, 249)
    ∷ (0xb2, 253)
    ∷ []

abbrev cp437_high : List ℕ
cp437_high =
    0xc7 ∷ 0xfc ∷ 0xe9 ∷ 0xe2 ∷ 0xe4 ∷ 0xe0 ∷ 0xe5 ∷ 0xe7 ∷ 0xea ∷ 0xeb ∷ 0xe8 ∷ 0xef ∷ 0xee ∷ 0xec
    ∷ 0xc4 ∷ 0xc5 ∷ 0xc9 ∷ 0xe6 ∷ 0xc6 ∷ 0xf4 ∷ 0xf6 ∷ 0xf2 ∷ 0xfb ∷ 0xf9 ∷ 0xff ∷ 0xd6 ∷ 0xdc
    ∷ 0xa2 ∷ 0xa3 ∷ 0xa5 ∷ 0x20a7 ∷ 0x192 ∷ 0xe1 ∷ 0xed ∷ 0xf3 ∷ 0xfa ∷ 0xf1 ∷ 0xd1 ∷ 0xaa ∷ 0xba
    ∷ 0xbf ∷ 0x2310 ∷ 0xac ∷ 0xbd ∷ 0xbc ∷ 0xa1 ∷ 0xab ∷ 0xbb ∷ 0x2591 ∷ 0x2592 ∷ 0x2593 ∷ 0x2502
    ∷ 0x2524 ∷ 0x2561 ∷ 0x2562 ∷ 0x2556 ∷ 0x2555 ∷ 0x2563 ∷ 0x2551 ∷ 0x2557 ∷ 0x255d ∷ 0x255c
    ∷ 0x255b ∷ 0x2510 ∷ 0x2514 ∷ 0x2534 ∷ 0x252c ∷ 0x251c ∷ 0x2500 ∷ 0x253c ∷ 0x255e ∷ 0x255f
    ∷ 0x255a ∷ 0x2554 ∷ 0x2569 ∷ 0x2566 ∷ 0x2560 ∷ 0x2550 ∷ 0x256c ∷ 0x2567 ∷ 0x2568 ∷ 0x2564
    ∷ 0x2565 ∷ 0x2559 ∷ 0x2558 ∷ 0x2552 ∷ 0x2553 ∷ 0x256b ∷ 0x256a ∷ 0x2518 ∷ 0x250c ∷ 0x2588
    ∷ 0x2584 ∷ 0x258c ∷ 0x2590 ∷ 0x2580 ∷ 0x3b1 ∷ 0xdf ∷ 0x393 ∷ 0x3c0 ∷ 0x3a3 ∷ 0x3c3 ∷ 0xb5
    ∷ 0x3c4 ∷ 0x3a6 ∷ 0x398 ∷ 0x3a9 ∷ 0x3b4 ∷ 0x221e ∷ 0x3c6 ∷ 0x3b5 ∷ 0x2229 ∷ 0x2261 ∷ 0xb1
    ∷ 0x2265 ∷ 0x2264 ∷ 0x2320 ∷ 0x2321 ∷ 0xf7 ∷ 0x2248 ∷ 0xb0 ∷ 0x2219 ∷ 0xb7 ∷ 0x221a ∷ 0x207f
    ∷ 0xb2 ∷ 0x25a0 ∷ 0x20 ∷ []

unfoldable pub char_to_cp437 : ℕ → ℕ
char_to_cp437 c =
    if leb 32 c && ltb c 127
    then c
    else if ltb c 32
    then c
    else or_else (find_byte c cp437_rows) b'?'

unfoldable pub cp437_to_char : ℕ → ℕ
cp437_to_char b =
    if ltb b 32
    then b
    else if ltb b 127
    then b
    else if b == 127
    then 0x2302
    else get_or cp437_high (b - 128) 0

-- The rows that a function reads back, but for one character.
abbrev reads_back : (ℕ → ℕ) → ℕ → ℕ × ℕ → Bool
reads_back f skip (c, b) = f b == c || c == skip

find_byte-back :
    (f : ℕ → ℕ) (skip c other : ℕ) (rows : List (ℕ × ℕ))
    → all (reads_back f skip) rows ≡ true
    → (c == skip) ≡ false
    → (f other ≡ c) ⊎ (other ≡ b'?')
    → (f (or_else (find_byte c rows) other) ≡ c) ⊎ (or_else (find_byte c rows) other ≡ b'?')
find_byte-back f skip c other [] h n o = o
find_byte-back f skip c other ((d, b) ∷ rows) h n o = elim (Bool-cases (c == d)) [
  | inl e ↦ rw e (inl (ground arith))
  | inr e ↦ rw e (find_byte-back f skip c other rows (ground arith) n o)
]

latin_back :
    (c : ℕ)
    → (windows1252_to_char (if leb 160 c && leb c 255 then c else b'?') ≡ c)
      ⊎ ((if leb 160 c && leb c 255 then c else b'?') ≡ b'?')
latin_back c = elim (Bool-cases (leb 160 c && leb c 255)) [
  | inl e ↦
      let n : ltb c 128 ≡ false = ground arith in
      let m : leb 160 c ≡ true = ground arith in
      rw e (inl (unfold windows1252_to_char in rw (n, m) refl))
  | inr e ↦ rw e (inr refl)
]

-- A character comes back from its byte of Windows-1252, or the byte is a question mark.
pub windows1252_back :
    (c : ℕ) → (windows1252_to_char (char_to_windows1252 c) ≡ c) ⊎ (char_to_windows1252 c ≡ b'?')
unfolding char_to_windows1252
windows1252_back c = elim (Bool-cases (ltb c 128)) [
  | inl e ↦ rw e (inl (unfold windows1252_to_char in rw e refl))
  | inr e ↦ rw e (
      find_byte-back windows1252_to_char 0 c (if leb 160 c && leb c 255 then c else b'?')
        windows1252_rows (unfold windows1252_to_char in refl) (ground arith) (latin_back c))
]

-- The same for code page 437, but for the middle dot.
pub cp437_back :
    (c : ℕ) → c ≢ 0xb7 → (cp437_to_char (char_to_cp437 c) ≡ c) ⊎ (char_to_cp437 c ≡ b'?')
unfolding char_to_cp437
cp437_back c h = elim (Bool-cases (leb 32 c && ltb c 127)) [
  | inl e ↦
      let n : ltb c 32 ≡ false = ground arith in
      let m : ltb c 127 ≡ true = ground arith in rw e (inl (unfold cp437_to_char in rw (n, m) refl))
  | inr e ↦ rw e (elim (Bool-cases (ltb c 32)) [
    | inl f ↦ rw f (inl (unfold cp437_to_char in rw f refl))
    | inr f ↦ rw f (
        find_byte-back cp437_to_char 0xb7 c b'?' cp437_rows (unfold cp437_to_char in refl)
          (ground arith) (inr refl))
  ])
]
