-- ===== src/Clipboard/Formats/Rtf/RoundTrip.antt =====
-- A text that is written as RTF is read back.
use mathlib.Core.List.{append_assoc, append-nil}
use cheirizo.Prelude.{
  ℕ, zero, suc, ◌+◌, ◌-◌, ◌/◌, ◌%◌, ◌≤◌, ◌≡◌, ◌⊎◌, ◌∙◌, refl, ltb→lt, sym, subst, arith, true,
  false, ltb, leb, ◌==◌, ==_iff, none, some, [], ◌∷◌, ◌++◌, length, All, Text, text_eq, Bool-cases,
  inl, inr,
}
use cheirizo.Prelude.Int.{◌+ℤ◌}
use cheirizo.Prelude.Utf8.{from_utf8-ascii}
use cheirizo.Prelude.Utf16.{IsScalar, units_of, is_high, is_low, join}
use cheirizo.Clipboard.Sanitize.{byte_len}
use cheirizo.Clipboard.Formats.{ok, and_then}
use cheirizo.Clipboard.Formats.Rtf.{
  Reader, new_reader, rtf_head, unit_escape, unit_escapes, escape, escape_all, text_to_rtf, span,
  parameter, read_unit,
}
use cheirizo.Clipboard.Formats.Rtf.Rounds.{
  Round, escaped, obey, control, control_word, round, rtf_to_text,
}
use cheirizo.Clipboard.Formats.Rtf.Ends.{Reads, Reads-length, Reads-end, Reads-step}
use cheirizo.Clipboard.Formats.Rtf.Ascii.{document, document-IsAscii}
use cheirizo.Clipboard.Formats.Rtf.Numbers.{body, Reads-unit}

-- The first so many rounds.
rounds : ℕ → Reader → Text → Round
rounds zero r s = ([], r, s)
rounds (suc n) r [] = ([], r, [])
rounds (suc n) r (c ∷ s) =
    let first = round r c s in
    let rest = rounds n first.1 first.2 in (first.0 ++ rest.0, rest.1, rest.2)

Reads-rounds :
    (n : ℕ) (r : Reader) (s t : Text)
    → Reads (rounds n r s).1 (rounds n r s).2 t
    → Reads r s ((rounds n r s).0 ++ t)
unfolding rounds
Reads-rounds zero r s t h = h
Reads-rounds (suc n) r [] t h = h
Reads-rounds (suc n) r (c ∷ s) t h =
    let first = round r c s in
    let rest = rounds n first.1 first.2 in
    subst (Reads r (c ∷ s)) (sym (append_assoc first.0 rest.0 t))
      (Reads-step r c s first (rest.0 ++ t) refl (Reads-rounds n first.1 first.2 t h))

Reads-head : (rest t : Text) → Reads (body none 0) rest t → Reads new_reader (rtf_head ++ rest) t
unfolding rounds round control_word control obey escaped span parameter text_eq ◌+ℤ◌
Reads-head rest t h = Reads-rounds 20 new_reader (rtf_head ++ rest) t h

-- A character that a document keeps: a line feed, or one that is not a control character below 32.
abbrev pub IsText : ℕ → Type 0
IsText c = IsScalar c × ((c ≡ b'\n') ⊎ (32 ≤ c))

Reads-plain :
    (c : ℕ) (rest t : Text)
    → (c == b'\\') ≡ false
    → (c == b'{') ≡ false
    → (c == b'}') ≡ false
    → 32 ≤ c
    → Reads (body none 0) rest t
    → Reads (body none 0) (c ∷ rest) (c ∷ t)
Reads-plain c rest t e₁ e₂ e₃ h =
    let printed : leb 32 c ≡ true = ground arith in
    Reads-step (body none 0) c rest (c ∷ [], body none 0, rest) t
      (unfold round in rw (e₂, e₃, e₁, printed) refl)

read_plain :
    (u : ℕ)
    → is_high u ≡ false
    → is_low u ≡ false
    → read_unit (body none 0) u ≡ (u ∷ [], body none 1)
unfolding read_unit
read_plain u high low = rw (high, low) refl

read_high : (u : ℕ) → is_high u ≡ true → read_unit (body none 0) u ≡ ([], body (some u) 1)
unfolding read_unit
read_high u high = rw high refl

read_low :
    (high u : ℕ)
    → is_high u ≡ false
    → is_low u ≡ true
    → read_unit (body (some high) 0) u ≡ (join high u ∷ [], body none 1)
unfolding read_unit
read_low high u e₁ e₂ = rw (e₁, e₂) refl

Reads-units :
    (c : ℕ) (rest t : Text)
    → IsScalar c
    → Reads (body none 0) rest t
    → Reads (body none 0) (unit_escapes (units_of c) ++ rest) (c ∷ t)
unfolding units_of
Reads-units c rest t scalar h = elim (Bool-cases (ltb c 0x10000)) [
  | inl e ↦
      rw (e, append-nil (unit_escape c))
        (Reads-unit none none c rest (c ∷ []) t (ltb→lt c 0x10000 e)
          (read_plain c (ground arith) (ground arith)) h)
  | inr e ↦
      let high : ℕ = 0xd800 + (c - 0x10000) / 1024 in
      let low : ℕ = 0xdc00 + (c - 0x10000) % 1024 in
      let same : join high low ≡ c = ground arith in
      let second : Reads (body (some high) 0) (unit_escape low ++ rest) (c ∷ t) =
        Reads-unit (some high) none low rest (c ∷ []) t (ground arith)
          (read_low high low (ground arith) (ground arith) ∙ rw same refl) h in
      rw (e, append-nil (unit_escape low), append_assoc (unit_escape high) (unit_escape low) rest)
        (Reads-unit none (some high) high (unit_escape low ++ rest) [] (c ∷ t) (ground arith)
          (read_high high (ground arith)) second)
]

abbrev Kept : Text → Text → ℕ → Type 0
Kept rest t c = Reads (body none 0) (escape c ++ rest) (c ∷ t)

Kept-marks :
    (rest t : Text)
    → Reads (body none 0) rest t
    → Kept rest t b'\\' × Kept rest t b'{' × Kept rest t b'}' × Kept rest t b'\n'
unfolding escape rounds round control_word control obey escaped span parameter text_eq
Kept-marks rest t h = (
  Reads-rounds 1 (body none 0) (escape b'\\' ++ rest) t h,
  Reads-rounds 1 (body none 0) (escape b'{' ++ rest) t h,
  Reads-rounds 1 (body none 0) (escape b'}' ++ rest) t h,
  Reads-rounds 2 (body none 0) (escape b'\n' ++ rest) t h,
)

Kept-other :
    (c : ℕ) (rest t : Text)
    → IsText c
    → (c == b'\\') ≡ false
    → (c == b'{') ≡ false
    → (c == b'}') ≡ false
    → (c == b'\n') ≡ false
    → Reads (body none 0) rest t
    → Kept rest t c
unfolding escape
Kept-other c rest t text e₁ e₂ e₃ e₄ h =
    let printed : 32 ≤ c = ground (arith, text.1) in
    let kept : (c == b'\r') ≡ false = ground arith in
    elim (Bool-cases (ltb c 128)) [
      | inl e ↦ rw (e₁, e₂, e₃, e₄, kept, e) (Reads-plain c rest t e₁ e₂ e₃ printed h)
      | inr e ↦ rw (e₁, e₂, e₃, e₄, kept, e) (Reads-units c rest t text.0 h)
    ]

-- Each character that is kept is read from what stands for it.
Kept-all : (c : ℕ) (rest t : Text) → IsText c → Reads (body none 0) rest t → Kept rest t c
Kept-all c rest t text h =
    let marks = Kept-marks rest t h in
    elim (Bool-cases (c == b'\\')) [
      | inl e ↦ subst (Kept rest t) (sym ((==_iff c b'\\').0 e)) marks.0
      | inr e₁ ↦ elim (Bool-cases (c == b'{')) [
        | inl e ↦ subst (Kept rest t) (sym ((==_iff c b'{').0 e)) marks.1
        | inr e₂ ↦ elim (Bool-cases (c == b'}')) [
          | inl e ↦ subst (Kept rest t) (sym ((==_iff c b'}').0 e)) marks.2
          | inr e₃ ↦ elim (Bool-cases (c == b'\n')) [
            | inl e ↦ subst (Kept rest t) (sym ((==_iff c b'\n').0 e)) marks.3
            | inr e₄ ↦ Kept-other c rest t text e₁ e₂ e₃ e₄ h
          ]
        ]
      ]
    ]

Reads-close : Reads (body none 0) (b'}' ∷ []) []
unfolding rounds round ◌+ℤ◌
Reads-close = Reads-rounds 1 (body none 0) (b'}' ∷ []) [] (Reads-end _ refl)

Reads-all : (s : Text) → All IsText s → Reads (body none 0) (escape_all s ++ b'}' ∷ []) s
unfolding escape_all
Reads-all [] h = Reads-close
Reads-all (c ∷ s) h =
    rw (append_assoc (escape c) (escape_all s) (b'}' ∷ []))
      (Kept-all c (escape_all s ++ b'}' ∷ []) s h.0 (Reads-all s h.1))

-- A text whose characters below 32 are line feeds, and which fits into the limit as it is and as RTF,
-- comes back from its RTF form.
pub rtf_round_trip :
    (max : ℕ) (s : Text)
    → All IsText s
    → byte_len s ≤ max
    → length (document s) ≤ max
    → and_then (text_to_rtf max s) (rtf_to_text max) ≡ ok s
unfolding text_to_rtf rtf_to_text
rtf_round_trip max s text small fits =
    let e₁ : ltb max (byte_len s) ≡ false = ground arith in
    let e₂ : ltb max (length (document s)) ≡ false = ground arith in
    rw
      (
        e₁,
        e₂,
        from_utf8-ascii (document s) (document-IsAscii s),
        Reads-length new_reader (document s) s
            (Reads-head (escape_all s ++ b'}' ∷ []) s (Reads-all s text)),
      )
      refl
