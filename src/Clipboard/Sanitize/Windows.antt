-- ===== src/Clipboard/Sanitize/Windows.antt =====
-- The names that the client is offered.
use cheirizo.Prelude.{
  ℕ, ◌≤◌, ◌≡◌, refl, ap, arith, false, ◌||◌, ltb, ◌==◌, List, [], ◌∷◌, map, length, All, Text,
  text_eq, Bool-cases, inl, inr,
}
use cheirizo.Prelude.Strings.{codes, contains, split, cons_part}
use cheirizo.Clipboard.Sanitize.{
  byte_len, is_control, windows_invalid_chars, unnamed, windows_char, keep_end, strip_trailing,
  truncate_name, first_part, is_reserved, finish_windows, sanitize_filename_for_windows,
}
use cheirizo.Clipboard.Sanitize.Names.{truncate-All}

abbrev pub IsWindowsChar : ℕ → Type 0
IsWindowsChar c = (contains c windows_invalid_chars || is_control c) ≡ false

map-windows_char : (s : Text) → All IsWindowsChar (map windows_char s)
unfolding windows_char contains
map-windows_char [] = tt
map-windows_char (c ∷ s) = (
  elim (Bool-cases (contains c windows_invalid_chars || is_control c)) [
    | inl e ↦ rw e refl
    | inr e ↦ rw e e
  ],
  map-windows_char s,
)

byte_len-map : (s : Text) → byte_len (map windows_char s) ≤ byte_len s
unfolding windows_char contains
byte_len-map [] = omega arith
byte_len-map (c ∷ s) = elim (Bool-cases (contains c windows_invalid_chars || is_control c)) [
  | inl e ↦ rw e (ground (arith, byte_len-map s))
  | inr e ↦ rw e (omega (arith, byte_len-map s))
]

strip-All {κ} : (P : ℕ → Type κ) (s : Text) → All P s → All P (strip_trailing s)
unfolding strip_trailing
strip-All P [] h = tt
strip-All P (c ∷ s) h = step (strip_trailing s) (strip-All P s h.1)
  where
    step : (t : Text) → All P t → All P (keep_end c t)
    step [] k = elim (Bool-cases (c == b'.' || c == b' ')) [
      | inl e ↦ rw e tt
      | inr e ↦ rw e (h.0, tt)
    ]
    step (d ∷ t) k = (h.0, k)

byte_len-strip : (s : Text) → byte_len (strip_trailing s) ≤ byte_len s
unfolding strip_trailing
byte_len-strip [] = omega arith
byte_len-strip (c ∷ s) = step (strip_trailing s) (byte_len-strip s)
  where
    step : (t : Text) → byte_len t ≤ byte_len s → byte_len (keep_end c t) ≤ byte_len (c ∷ s)
    step [] k = ground arith
    step (d ∷ t) k = omega (arith, k)

strip_idem : (s : Text) → strip_trailing (strip_trailing s) ≡ strip_trailing s
unfolding strip_trailing
strip_idem [] = refl
strip_idem (c ∷ s) = step (strip_trailing s) (strip_idem s)
  where
    step : (t : Text) → strip_trailing t ≡ t → strip_trailing (keep_end c t) ≡ keep_end c t
    step [] k = elim (Bool-cases (c == b'.' || c == b' ')) [
      | inl e ↦ rw e refl
      | inr e ↦ rw e (rw e refl)
    ]
    step (d ∷ t) k = rw k refl

-- A name that the rules of Windows leave as it is: only allowed characters, no dot or space at the
-- end, no reserved name before the first dot, and of 1 to 255 bytes.
pub record IsWindowsName (to_uppercase : Text → Text) (name : Text) : Type 0 where
  pub allowed : All IsWindowsChar name
  pub stripped : strip_trailing name ≡ name
  pub not_reserved : is_reserved to_uppercase name ≡ false
  pub nonempty : 1 ≤ length name
  pub fits : byte_len name ≤ 255

truncate_short : (s : Text) → byte_len s ≤ 255 → truncate_name s ≡ s
unfolding truncate_name
truncate_short s h = let e : ltb 255 (byte_len s) ≡ false = ground arith in rw e refl

underscore_stripped :
    (c : ℕ) (s : Text)
    → strip_trailing (c ∷ s) ≡ c ∷ s
    → strip_trailing (b'_' ∷ c ∷ s) ≡ b'_' ∷ c ∷ s
unfolding strip_trailing
underscore_stripped c s e = ap (keep_end b'_') e

module _ (to_uppercase : Text → Text) where
  -- The upper case of a text that begins with an underscore begins with one.
  abbrev pub KeepsUnderscore : Type 0
  KeepsUnderscore = (s : Text) → (t : Text) × (to_uppercase (b'_' ∷ s) ≡ b'_' ∷ t)

  first_part-keep : (t : Text) → (p : Text) × (first_part (b'_' ∷ t) ≡ b'_' ∷ p)
  unfolding first_part split
  first_part-keep t = step (split b'.' t)
    where
      step :
          (ps : List Text)
          → (p : Text) × (elim (cons_part b'_' ps) [ [] ↦ [] | q ∷ qs ↦ q ] ≡ b'_' ∷ p)
      step [] = ([], refl)
      step (q ∷ qs) = (q, refl)

  underscore_unreserved : KeepsUnderscore → (s : Text) → is_reserved to_uppercase (b'_' ∷ s) ≡ false
  unfolding is_reserved text_eq
  underscore_unreserved keeps s =
      let first = first_part-keep ((keeps s).0) in rw (keeps s).1 (rw first.1 refl)

  windows-IsWindowsName :
      KeepsUnderscore
      → (s : Text) → All IsWindowsChar s
      → strip_trailing s ≡ s
      → byte_len s ≤ 254
      → IsWindowsName to_uppercase (finish_windows to_uppercase s)
  unfolding finish_windows contains strip_trailing
  windows-IsWindowsName keeps [] a e h = record {
    allowed = ground arith;
    stripped = refl;
    not_reserved = underscore_unreserved keeps (codes "unnamed_");
    nonempty = omega arith;
    fits = omega arith;
  }
  windows-IsWindowsName keeps (c ∷ s) a e h = elim (Bool-cases (is_reserved to_uppercase (c ∷ s))) [
    | inl r ↦
        rw (r, truncate_short (b'_' ∷ c ∷ s) (omega (arith, h)))
          record {
            allowed = (refl, a);
            stripped = underscore_stripped c s e;
            not_reserved = underscore_unreserved keeps (c ∷ s);
            nonempty = omega arith;
            fits = omega (arith, h);
          }
    | inr r ↦
        rw (r, truncate_short (c ∷ s) (omega (arith, h)))
          record {
            allowed = a;
            stripped = e;
            not_reserved = r;
            nonempty = omega arith;
            fits = omega (arith, h);
          }
  ]

  -- If a text that begins with an underscore does so in upper case, a local name of at most 254 bytes
  -- becomes a name whose characters are allowed, with no dot or space at the end, whose text before
  -- the first dot is no reserved name, of at least one character and at most 255 bytes.
  pub sanitize_filename_for_windows-IsWindowsName :
      KeepsUnderscore
      → (s : Text) → byte_len s ≤ 254
      → IsWindowsName to_uppercase (sanitize_filename_for_windows to_uppercase s)
  unfolding sanitize_filename_for_windows
  sanitize_filename_for_windows-IsWindowsName keeps [] h =
      windows-IsWindowsName keeps [] tt (unfold strip_trailing in refl) (omega arith)
  sanitize_filename_for_windows-IsWindowsName keeps (c ∷ s) h =
      let name : Text = map windows_char (c ∷ s) in
      windows-IsWindowsName keeps (strip_trailing name)
        (strip-All IsWindowsChar name (map-windows_char (c ∷ s))) (strip_idem name)
        (omega (arith, h, byte_len-strip name, byte_len-map (c ∷ s)))

  finish-All {κ} :
      (P : ℕ → Type κ)
      → All P unnamed
      → (s : Text) → All P s
      → All P (finish_windows to_uppercase s)
  unfolding finish_windows
  finish-All P extra [] h = extra
  finish-All P extra (c ∷ s) h = elim (Bool-cases (is_reserved to_uppercase (c ∷ s))) [
    | inl r ↦ rw r (truncate-All P (b'_' ∷ c ∷ s) (extra.0, h))
    | inr r ↦ rw r (truncate-All P (c ∷ s) h)
  ]

  -- What holds of the characters of a name and of those that are put into it holds of the result.
  pub sanitize-All {κ} :
      (P : ℕ → Type κ)
      → All P unnamed
      → (s : Text) → All P (map windows_char s)
      → All P (sanitize_filename_for_windows to_uppercase s)
  unfolding sanitize_filename_for_windows
  sanitize-All P extra [] h = extra
  sanitize-All P extra (c ∷ s) h =
      finish-All P extra (strip_trailing (map windows_char (c ∷ s)))
        (strip-All P (map windows_char (c ∷ s)) h)
