-- ===== src/Clipboard/Sanitize/Names.antt =====
-- A cleaned name is safe to join to a directory.
use cheirizo.Prelude.{
  ℕ, zero, suc, ◌+◌, ◌-◌, ◌*◌, ◌≤◌, ◌<◌, ◌≡◌, refl, ap, sym, subst, ◌∙◌, min, ltb→lt, arith,
  if◌then◌else◌, Bool, false, ◌||◌, ltb, ◌==◌, Option, none, some, List, [], ◌∷◌, ◌++◌, map, take,
  length, length-append, All, Text, text_eq, Bool-cases, inl, inr,
}
use cheirizo.Clipboard.Sanitize.{
  byte_len, unnamed, last_dot, cut_name, truncate_name, linux_char, guard_dash, is_dots,
  sanitize_filename_for_linux,
}

module _ {ℓ κ} {A : Type ℓ} (P : A → Type κ) where
  All-take : (n : ℕ) (xs : List A) → All P xs → All P (take n xs)
  All-take zero xs h = tt
  All-take (suc n) [] h = tt
  All-take (suc n) (x ∷ xs) h = (h.0, All-take n xs h.1)

  pub All-append : (xs ys : List A) → All P xs → All P ys → All P (xs ++ ys)
  All-append [] ys h k = k
  All-append (x ∷ xs) ys h k = (h.0, All-append xs ys h.1 k)

  All-parts : (xs ys : List A) → All P (xs ++ ys) → All P xs × All P ys
  All-parts [] ys h = (tt, h)
  All-parts (x ∷ xs) ys h =
      let rest : All P xs × All P ys = All-parts xs ys h.1 in ((h.0, rest.0), rest.1)

length-take : (n : ℕ) (s : Text) → length (take n s) ≡ min n (length s)
length-take zero s = omega arith
length-take (suc n) [] = omega arith
length-take (suc n) (c ∷ s) = omega (arith, length-take n s)

pub length-byte_len : (s : Text) → (length s ≤ byte_len s) × (byte_len s ≤ 4 * length s)
length-byte_len [] = (omega arith, omega arith)
length-byte_len (c ∷ s) = (ground (arith, length-byte_len s), ground (arith, length-byte_len s))

-- The text before the last dot and the one from it on.
abbrev Splits : Text → Option (Text × Text) → Type 0
Splits s none = Unit
Splits s (some (base, ext)) = (s ≡ base ++ ext) × (1 ≤ length ext)

last_dot-Splits : (s : Text) → Splits s (last_dot s)
unfolding last_dot
last_dot-Splits [] = tt
last_dot-Splits (c ∷ s) = step (last_dot s) (last_dot-Splits s)
  where
    step :
        (o : Option (Text × Text))
        → Splits s o
        → Splits (c ∷ s) (elim o [
          | some (base, ext) ↦ some (c ∷ base, ext)
          | none ↦ if c == b'.' then some ([], c ∷ s) else none
        ])
    step none h = elim (Bool-cases (c == b'.')) [
      | inl e ↦ rw e (refl, omega arith)
      | inr e ↦ rw e tt
    ]
    step (some (base, ext)) h = (cc (h.0), h.1)

plain_cut-length :
    (s : Text) → 255 < byte_len s → (length (take 255 s) ≤ 255) × (3 ≤ length (take 255 s))
plain_cut-length s big =
    (omega (arith, length-take 255 s), omega (arith, length-take 255 s, length-byte_len s))

cut-length :
    (o : Option (Text × Text)) (s : Text)
    → Splits s o
    → 255 < byte_len s
    → (length (cut_name o s) ≤ 255) × (3 ≤ length (cut_name o s))
unfolding cut_name
cut-length none s h big = plain_cut-length s big
cut-length (some (base, ext)) s h big = elim (Bool-cases (ltb (byte_len ext) 254)) [
  | inl e ↦
      let le : byte_len ext < 254 = ltb→lt _ _ e in
      let whole : length s ≡ length base + length ext = ap length (h.0) ∙ length-append base ext in
      let parts : length (take (255 - byte_len ext) base ++ ext)
          ≡ min (255 - byte_len ext) (length base) + length ext =
        length-append (take (255 - byte_len ext) base) ext
        ∙ ap (λ n. n + length ext) (length-take (255 - byte_len ext) base) in
      rw e (
        omega (arith, le, parts, length-byte_len ext),
        omega (arith, le, parts, whole, h.1, length-byte_len ext, length-byte_len s),
      )
  | inr e ↦ rw e (plain_cut-length s big)
]

abbrev pub lead_dash : Text → Bool
lead_dash [] = false
lead_dash (c ∷ s) = c == b'-'

lead_dash-take : (n : ℕ) (s ext : Text) → lead_dash (take (suc n) s ++ ext) ≡ lead_dash (s ++ ext)
lead_dash-take n [] ext = refl
lead_dash-take n (c ∷ s) ext = refl

plain_cut-lead_dash : (s : Text) → lead_dash (take 255 s) ≡ lead_dash s
plain_cut-lead_dash [] = refl
plain_cut-lead_dash (c ∷ s) = refl

cut-lead_dash :
    (o : Option (Text × Text)) (s : Text) → Splits s o → lead_dash (cut_name o s) ≡ lead_dash s
unfolding cut_name
cut-lead_dash none s h = plain_cut-lead_dash s
cut-lead_dash (some (base, ext)) s h = elim (Bool-cases (ltb (byte_len ext) 254)) [
  | inl e ↦
      let le : byte_len ext < 254 = ltb→lt _ _ e in
      let n : 255 - byte_len ext ≡ suc (254 - byte_len ext) = omega (arith, le) in
      rw (e, n) (lead_dash-take (254 - byte_len ext) base ext ∙ ap lead_dash (sym (h.0)))
  | inr e ↦ rw e (plain_cut-lead_dash s)
]

module _ {κ} (P : ℕ → Type κ) where
  cut-All : (o : Option (Text × Text)) (s : Text) → Splits s o → All P s → All P (cut_name o s)
  unfolding cut_name
  cut-All none s h a = All-take P 255 s a
  cut-All (some (base, ext)) s h a =
      let parts : All P base × All P ext = All-parts P base ext (subst (All P) (h.0) a) in
      elim (Bool-cases (ltb (byte_len ext) 254)) [
        | inl e ↦
            rw e (All-append P _ ext (All-take P (255 - byte_len ext) base (parts.0)) (parts.1))
        | inr e ↦ rw e (All-take P 255 s a)
      ]

is_dots_long : (s : Text) → 3 ≤ length s → is_dots s ≡ false
unfolding is_dots text_eq
is_dots_long [] h = absurd (omega arith)
is_dots_long (c ∷ []) h = absurd (omega arith)
is_dots_long (c ∷ d ∷ []) h = absurd (omega arith)
is_dots_long (c ∷ d ∷ e ∷ s) h = ground arith

-- A name without the characters that are not allowed, with at most 255 characters, that is neither
-- empty nor a reference to a directory and begins with no dash.
pub record IsName {κ} (P : ℕ → Type κ) (name : Text) : Type κ where
  pub allowed : All P name
  pub no_dots : is_dots name ≡ false
  pub no_dash : lead_dash name ≡ false
  pub fits : length name ≤ 255

pub truncate-All {κ} : (P : ℕ → Type κ) (s : Text) → All P s → All P (truncate_name s)
unfolding truncate_name
truncate-All P s a = elim (Bool-cases (ltb 255 (byte_len s))) [
  | inl big ↦ rw big (cut-All P (last_dot s) s (last_dot-Splits s) a)
  | inr small ↦ rw small a
]

truncate-IsName {κ} :
    (P : ℕ → Type κ) (s : Text)
    → All P s
    → is_dots s ≡ false
    → lead_dash s ≡ false
    → IsName P (truncate_name s)
unfolding truncate_name
truncate-IsName P s a dots dash = elim (Bool-cases (ltb 255 (byte_len s))) [
  | inl big ↦
      let cut : Text = cut_name (last_dot s) s in
      let lengths : (length cut ≤ 255) × (3 ≤ length cut) =
        cut-length (last_dot s) s (last_dot-Splits s) (ltb→lt _ _ big) in
      rw big record {
        allowed = cut-All P (last_dot s) s (last_dot-Splits s) a;
        no_dots = is_dots_long cut lengths.1;
        no_dash = cut-lead_dash (last_dot s) s (last_dot-Splits s) ∙ dash;
        fits = lengths.0;
      }
  | inr small ↦ rw small record {
    allowed = a;
    no_dots = dots;
    no_dash = dash;
    fits = ground (arith, length-byte_len s);
  }
]

abbrev pub IsLinuxChar : ℕ → Type 0
IsLinuxChar c = (c == b'/' || c == 0 || c == b'\\') ≡ false

map-linux_char : (s : Text) → All IsLinuxChar (map linux_char s)
unfolding linux_char
map-linux_char [] = tt
map-linux_char (c ∷ s) = (ground arith, map-linux_char s)

guard_dash-All : (s : Text) → All IsLinuxChar s → All IsLinuxChar (guard_dash s)
unfolding guard_dash
guard_dash-All [] h = tt
guard_dash-All (c ∷ s) h = elim (Bool-cases (c == b'-')) [ inl e ↦ rw e (refl, h) | inr e ↦ rw e h ]

lead_dash-guard_dash : (s : Text) → lead_dash (guard_dash s) ≡ false
unfolding guard_dash
lead_dash-guard_dash [] = refl
lead_dash-guard_dash (c ∷ s) = ground arith

unnamed-IsName {κ} : (P : ℕ → Type κ) → All P unnamed → IsName P unnamed
unfolding is_dots text_eq
unnamed-IsName P a = record { allowed = a; no_dots = refl; no_dash = refl; fits = omega arith }

unnamed-IsLinuxChar : All IsLinuxChar unnamed
unnamed-IsLinuxChar = ground arith

-- Whatever name the client sends, the cleaned name has no path separator, backslash or null
-- character and at most 255 characters, is not empty, not `.` and not `..`, and does not begin with a
-- dash.
pub sanitize_filename_for_linux-IsName :
    (s : Text) → IsName IsLinuxChar (sanitize_filename_for_linux s)
unfolding sanitize_filename_for_linux
sanitize_filename_for_linux-IsName [] = unnamed-IsName IsLinuxChar unnamed-IsLinuxChar
sanitize_filename_for_linux-IsName (c ∷ s) =
    let name : Text = guard_dash (map linux_char (c ∷ s)) in
    elim (Bool-cases (is_dots name)) [
      | inl e ↦ rw e (unnamed-IsName IsLinuxChar unnamed-IsLinuxChar)
      | inr e ↦ rw e (
          truncate-IsName IsLinuxChar name
            (guard_dash-All (map linux_char (c ∷ s)) (map-linux_char (c ∷ s))) e
            (lead_dash-guard_dash (map linux_char (c ∷ s))))
    ]
