-- ===== src/Sesman/Scalars/RoundTrip.antt =====
-- Values are read as they are written.
use cheirizo.Prelude.{
  ℕ, ◌≡◌, ◌≢◌, ◌∙◌, refl, ap, sym, length, ◌≤◌, ◌<◌, arith, true, false, ◌==◌, none, List, [], ◌∷◌,
  ◌++◌, All, Text, Bool-cases, inl, inr,
}
use cheirizo.Prelude.Strings.{
  is_whitespace, trim, strip_prefix, between, split, contains, any_whitespace, Lacks, Solid,
  trim-Solid, trim_enclosed, between_enclosed, split-append, split-lacking, cons_part, trim_start,
  trim_end,
}
use cheirizo.Sesman.Scalars.{
  unquote_ini_scalar, format_ini_scalar, escape_quotes, needs_quotes, is_empty, parse_ini_list,
  format_ini_list, join_values, list_items, or_whole, or_else,
}

-- A value without quotes of either kind.
abbrev pub Unquoted : Text → Type 0
Unquoted = All (λ c. ((c == b'"') ≡ false) × ((c == b'\'') ≡ false))

pub escape_quotes-Unquoted : (v : Text) → Unquoted v → escape_quotes v ≡ v
unfolding escape_quotes
escape_quotes-Unquoted [] h = refl
escape_quotes-Unquoted (c ∷ v) h = rw (h.0.0, escape_quotes-Unquoted v h.1) refl

pub Solid-of_test : (v : Text) → any_whitespace v ≡ false → Solid v
unfolding any_whitespace
Solid-of_test [] h = tt
Solid-of_test (c ∷ v) h = (ground arith, Solid-of_test v (ground arith))

Lacks-of_test : (q : ℕ) (v : Text) → contains q v ≡ false → Lacks q v
unfolding contains
Lacks-of_test q [] h = tt
Lacks-of_test q (c ∷ v) h = (ground arith, Lacks-of_test q v (ground arith))

between-none : (q : ℕ) (c : ℕ) (v : Text) → (c == q) ≡ false → between q q (c ∷ v) ≡ none
unfolding between strip_prefix
between-none q c v h = ground arith

-- A written value is trimmed already.
pub trim-format : (v : Text) → Unquoted v → trim (format_ini_scalar v) ≡ format_ini_scalar v
unfolding format_ini_scalar is_whitespace
trim-format v h = elim (Bool-cases (needs_quotes v)) [
  | inl quoted ↦ rw quoted (trim_enclosed b'"' (escape_quotes v) b'"' refl refl)
  | inr plain ↦ rw plain (trim-Solid v (Solid-of_test v (ground arith)))
]

abbrev as_read : Text → Text
as_read w = or_whole (or_else (between b'"' b'"' w) (between b'\'' b'\'' w)) w

as_read_plain : (v : Text) → Unquoted v → needs_quotes v ≡ false → as_read v ≡ v
as_read_plain [] h plain = absurd (cc)
as_read_plain (c ∷ v) h plain = rw (between-none b'"' c v h.0.0, between-none b'\'' c v h.0.1) refl

-- A value without quotes is read as it was written.
pub unquote-format : (v : Text) → Unquoted v → unquote_ini_scalar (format_ini_scalar v) ≡ v
unfolding unquote_ini_scalar format_ini_scalar
unquote-format v h = rw (trim-format v h) (elim (Bool-cases (needs_quotes v)) [
  | inl quoted ↦
      rw (format_ini_scalar, quoted, escape_quotes-Unquoted v h, between_enclosed b'"' b'"' v) refl
  | inr plain ↦ rw (format_ini_scalar, plain) (as_read_plain v h plain)
])

length-escape_quotes-le : (v : Text) → length v ≤ length (escape_quotes v)
unfolding escape_quotes
length-escape_quotes-le [] = omega arith
length-escape_quotes-le (c ∷ v) = ground (arith, length-escape_quotes-le v)

length-escape_quotes-lt : (v : Text) → contains b'"' v ≡ true → length v < length (escape_quotes v)
unfolding escape_quotes contains
length-escape_quotes-lt [] h = absurd (cc)
length-escape_quotes-lt (c ∷ v) h =
    ground (arith, length-escape_quotes-le v, length-escape_quotes-lt v)

-- A value that is written in quotes and has a double quote in it is not read as it was written.
pub unquote-format_lossy :
    (v : Text)
    → needs_quotes v ≡ true
    → contains b'"' v ≡ true
    → unquote_ini_scalar (format_ini_scalar v) ≢ v
unfolding unquote_ini_scalar format_ini_scalar is_whitespace
unquote-format_lossy v quoted has_quote same =
    let longer = length-escape_quotes-lt v has_quote in
    let read : unquote_ini_scalar (format_ini_scalar v) ≡ escape_quotes v =
      rw
        (
          format_ini_scalar,
          quoted,
          trim_enclosed b'"' (escape_quotes v) b'"' refl refl,
          between_enclosed b'"' b'"' (escape_quotes v),
        )
        refl in
    let equal : length (escape_quotes v) ≡ length v = ap length (sym read ∙ same) in
    absurd (omega arith)

-- An item of a list: no quotes, and no comma.
abbrev pub IsItem : Text → Type 0
IsItem v = Unquoted v × Lacks b',' v

Lacks-snoc : (q : ℕ) (v : Text) (c : ℕ) → Lacks q v → (c == q) ≡ false → Lacks q (v ++ c ∷ [])
Lacks-snoc q [] c h k = (k, tt)
Lacks-snoc q (d ∷ v) c h k = (h.0, Lacks-snoc q v c h.1 k)

format-Lacks : (v : Text) → IsItem v → Lacks b',' (format_ini_scalar v)
unfolding format_ini_scalar
format-Lacks v h = elim (Bool-cases (needs_quotes v)) [
  | inl quoted ↦ rw (quoted, escape_quotes-Unquoted v h.0) (refl, Lacks-snoc b',' v b'"' h.1 refl)
  | inr plain ↦ rw plain h.1
]

list_items-space : (parts : List Text) → list_items (cons_part b' ' parts) ≡ list_items parts
unfolding list_items trim trim_start is_whitespace
list_items-space [] = refl
list_items-space (p ∷ ps) = refl

format_nonempty : (v : Text) → is_empty (format_ini_scalar v) ≡ false
unfolding format_ini_scalar
format_nonempty [] = refl
format_nonempty (c ∷ v) = elim (Bool-cases (needs_quotes (c ∷ v))) [
  | inl quoted ↦ rw quoted refl
  | inr plain ↦ rw plain refl
]

list_items_trimmed :
    (p : Text) (ps : List Text)
    → trim p ≡ p
    → is_empty p ≡ false
    → list_items (p ∷ ps) ≡ unquote_ini_scalar p ∷ list_items ps
unfolding list_items
list_items_trimmed [] ps trimmed there = absurd (cc)
list_items_trimmed (c ∷ s) ps trimmed there = rw (trimmed, list_items) refl

list_items-format :
    (v : Text) (ps : List Text)
    → Unquoted v
    → list_items (format_ini_scalar v ∷ ps) ≡ v ∷ list_items ps
list_items-format v ps h =
    list_items_trimmed (format_ini_scalar v) ps (trim-format v h) (format_nonempty v)
    ∙ rw (unquote-format v h) refl

split-space : (s : Text) → split b',' (b' ' ∷ s) ≡ cons_part b' ' (split b',' s)
unfolding split
split-space s = refl

list_items-join : (vs : List Text) → All IsItem vs → list_items (split b',' (join_values vs)) ≡ vs
unfolding join_values
list_items-join [] h = unfold split list_items trim trim_start trim_end in refl
list_items-join (v ∷ []) h =
    rw (split-lacking b',' (format_ini_scalar v) (format-Lacks v h.0))
      (list_items-format v [] h.0.0 ∙ unfold list_items in refl)
list_items-join (v ∷ w ∷ vs) h =
    rw (split-append b',' (format_ini_scalar v) (b' ' ∷ join_values (w ∷ vs)) (format-Lacks v h.0))
      (list_items-format v (split b',' (b' ' ∷ join_values (w ∷ vs))) h.0.0
        ∙ ap (λ (rest : List Text). v ∷ rest)
            (rw split-space (
              list_items-space (split b',' (join_values (w ∷ vs))) ∙ list_items-join (w ∷ vs) h.1)))

-- A list of values without quotes and commas is read as it was written.
pub parse-format_list : (vs : List Text) → All IsItem vs → parse_ini_list (format_ini_list vs) ≡ vs
unfolding parse_ini_list format_ini_list is_whitespace
parse-format_list vs h =
    rw
      (
        trim_enclosed b'[' (join_values vs) b']' refl refl,
        between_enclosed b'[' b']' (join_values vs),
      )
      (list_items-join vs h)
