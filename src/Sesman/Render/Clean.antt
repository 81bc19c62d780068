-- ===== src/Sesman/Render/Clean.antt =====
-- Texts that the cleaning of a line leaves as they are.
use mathlib.Core.List.{append-nil, append_assoc}
use cheirizo.Prelude.{
  ℕ, ◌≡◌, ◌∙◌, refl, sym, ap, arith, Bool, true, false, ◌==◌, List, [], ◌∷◌, ◌++◌, All, Text,
  Bool-cases, inl, inr,
}
use cheirizo.Prelude.Strings.{
  is_whitespace, trim, trim_end, Solid, trim-Solid, trim_end-Solid, trim_end-snoc, trim_enclosed,
  contains,
}
use cheirizo.Sesman.Scalars.{
  strip_from, strip_ini_comment, format_ini_scalar, format_ini_list, join_values, needs_quotes,
  escape_quotes,
}
use cheirizo.Sesman.Scalars.RoundTrip.{Unquoted, escape_quotes-Unquoted, trim-format, Solid-of_test}

-- The scan for a comment passes over the text, from any place outside quotes to another one.
abbrev pub Passes : Text → Type 0
Passes s =
    (b : Bool)
    → (b' : Bool) × ((rest : Text)
        → strip_from false false b (s ++ rest) ≡ s ++ strip_from false false b' rest)

pub strip_of_Passes : (s : Text) → Passes s → strip_ini_comment s ≡ s
unfolding strip_ini_comment
strip_of_Passes s p =
    let (b, over) = p true in
    ap (strip_from false false true) (sym (append-nil s))
    ∙ over []
    ∙ unfold strip_from in append-nil s

Passes-nil : Passes []
Passes-nil b = (b, λ rest. refl)

pub Passes-append : (s t : Text) → Passes s → Passes t → Passes (s ++ t)
Passes-append s t p q b =
    let (b', over_s) = p b in
    let (b'', over_t) = q b' in
    (
      b'',
      λ rest.
          ap (strip_from false false b) (append_assoc s t rest)
          ∙ over_s (t ++ rest)
          ∙ ap (λ (u : Text). s ++ u) (over_t rest)
          ∙ sym (append_assoc s t (strip_from false false b'' rest)),
    )

-- A character that starts no comment and no quotes.
abbrev pub Safe : ℕ → Type 0
Safe c =
    ((c == b'"') ≡ false) × ((c == b'\'') ≡ false) × ((c == b'#') ≡ false) × ((c == b';') ≡ false)

Passes-Safe : (c : ℕ) → Safe c → Passes (c ∷ [])
unfolding strip_from
Passes-Safe c h b = (is_whitespace c, λ rest. ground arith)

pub Passes-all-Safe : (s : Text) → All Safe s → Passes s
Passes-all-Safe [] h = Passes-nil
Passes-all-Safe (c ∷ s) h = Passes-append (c ∷ []) s (Passes-Safe c h.0) (Passes-all-Safe s h.1)

closing_quote : is_whitespace b'"' ≡ false
unfolding is_whitespace
closing_quote = refl

inside_quotes :
    (v rest : Text) (b : Bool)
    → Unquoted v
    → strip_from false true b (v ++ (b'"' ∷ rest)) ≡ v ++ (b'"' ∷ strip_from false false false rest)
unfolding strip_from
inside_quotes [] rest b h = ground (arith, closing_quote)
inside_quotes (c ∷ v) rest b h = ground (arith, inside_quotes v rest (is_whitespace c))

pub Passes-quoted : (v : Text) → Unquoted v → Passes (b'"' ∷ (v ++ b'"' ∷ []))
unfolding strip_from
Passes-quoted v h b = (
  false,
  λ rest.
      rw
        (
          append_assoc v (b'"' ∷ []) rest,
          append_assoc v (b'"' ∷ []) (strip_from false false false rest),
        )
        (ap (λ (u : Text). b'"' ∷ u) (inside_quotes v rest (is_whitespace b'"') h)),
)

Safe-of_tests :
    (v : Text) → Unquoted v → contains b'#' v ≡ false → contains b';' v ≡ false → All Safe v
unfolding contains
Safe-of_tests [] h a b = tt
Safe-of_tests (c ∷ v) h a b =
    ((h.0.0, h.0.1, ground arith, ground arith), Safe-of_tests v h.1 (ground arith) (ground arith))

pub Passes-format : (v : Text) → Unquoted v → Passes (format_ini_scalar v)
unfolding format_ini_scalar
Passes-format v h = elim (Bool-cases (needs_quotes v)) [
  | inl quoted ↦ rw (quoted, escape_quotes-Unquoted v h) (Passes-quoted v h)
  | inr plain ↦ rw plain (Passes-all-Safe v (Safe-of_tests v h (ground arith) (ground arith)))
]

Passes-join : (vs : List Text) → All Unquoted vs → Passes (join_values vs)
unfolding join_values
Passes-join [] h = Passes-nil
Passes-join (v ∷ []) h = Passes-format v h.0
Passes-join (v ∷ w ∷ vs) h =
    Passes-append (format_ini_scalar v) (b',' ∷ b' ' ∷ join_values (w ∷ vs)) (Passes-format v h.0) (
      Passes-append (b',' ∷ b' ' ∷ []) (join_values (w ∷ vs))
        (Passes-all-Safe (b',' ∷ b' ' ∷ [])
          ((refl, refl, refl, refl), ((refl, refl, refl, refl), tt)))
        (Passes-join (w ∷ vs) h.1))

Passes-format_list : (vs : List Text) → All Unquoted vs → Passes (format_ini_list vs)
unfolding format_ini_list
Passes-format_list vs h =
    Passes-append (b'[' ∷ []) (join_values vs ++ b']' ∷ [])
      (Passes-all-Safe (b'[' ∷ []) ((refl, refl, refl, refl), tt))
      (Passes-append (join_values vs) (b']' ∷ []) (Passes-join vs h)
        (Passes-all-Safe (b']' ∷ []) ((refl, refl, refl, refl), tt)))

-- A text that can stand behind the equals sign as it is.
pub record IsClean (w : Text) : Type 0 where
  pub passes : Passes w
  pub trimmed : trim w ≡ w
  pub end_trimmed : trim_end w ≡ w

-- A text of safe characters without white space.
abbrev pub IsRaw : Text → Type 0
IsRaw = All (λ c. Safe c × (is_whitespace c ≡ false))

pub raw-Safe : (s : Text) → IsRaw s → All Safe s
raw-Safe [] h = tt
raw-Safe (c ∷ s) h = (h.0.0, raw-Safe s h.1)

pub raw-Solid : (s : Text) → IsRaw s → Solid s
raw-Solid [] h = tt
raw-Solid (c ∷ s) h = (h.0.1, raw-Solid s h.1)

pub raw-Unquoted : (s : Text) → IsRaw s → Unquoted s
raw-Unquoted [] h = tt
raw-Unquoted (c ∷ s) h = ((h.0.0.0, h.0.0.1), raw-Unquoted s h.1)

pub raw-IsClean : (s : Text) → IsRaw s → IsClean s
raw-IsClean s h = record {
  passes = Passes-all-Safe s (raw-Safe s h);
  trimmed = trim-Solid s (raw-Solid s h);
  end_trimmed = trim_end-Solid s (raw-Solid s h);
}

format_end : (v : Text) → Unquoted v → trim_end (format_ini_scalar v) ≡ format_ini_scalar v
unfolding format_ini_scalar
format_end v h = elim (Bool-cases (needs_quotes v)) [
  | inl quoted ↦ rw quoted (trim_end-snoc (b'"' ∷ escape_quotes v) b'"' closing_quote)
  | inr plain ↦ rw plain (trim_end-Solid v (Solid-of_test v (ground arith)))
]

pub format-IsClean : (v : Text) → Unquoted v → IsClean (format_ini_scalar v)
format-IsClean v h = record {
  passes = Passes-format v h;
  trimmed = trim-format v h;
  end_trimmed = format_end v h;
}

pub format_list-IsClean : (vs : List Text) → All Unquoted vs → IsClean (format_ini_list vs)
format_list-IsClean vs h = record {
  passes = Passes-format_list vs h;
  trimmed =
      unfold format_ini_list is_whitespace in trim_enclosed b'[' (join_values vs) b']' refl refl;
  end_trimmed =
      unfold format_ini_list is_whitespace in trim_end-snoc (b'[' ∷ join_values vs) b']' refl;
}
