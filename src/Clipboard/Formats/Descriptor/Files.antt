-- ===== src/Clipboard/Formats/Descriptor/Files.antt =====
-- The list of files that is announced, and what the other side reads.
use mathlib.Core.List.{append_assoc}
use cheirizo.Prelude.{
  ℕ, zero, suc, ◌+◌, ◌*◌, ◌≤◌, ◌<◌, ◌≡◌, ◌∙◌, refl, ap, sym, arith, false, ◌||◌, ltb, ◌==◌, Option,
  some, List, [], ◌∷◌, ◌++◌, map, length, length-append, All, take, drop, replicate, min, Text,
  Bool-cases, inl, inr,
}
use cheirizo.Prelude.Words.{as_u32}
use cheirizo.Prelude.Strings.{contains}
use cheirizo.Prelude.Utf16.{IsScalar, below_surrogates, encode_utf16, le32, of_le32-le32}
use cheirizo.Clipboard.Sanitize.{
  byte_len, is_control, windows_invalid_chars, unnamed, windows_char, sanitize_filename_for_windows,
}
use cheirizo.Clipboard.Sanitize.Windows.{
  IsWindowsChar, KeepsUnderscore, sanitize_filename_for_windows-IsWindowsName, sanitize-All,
}
use cheirizo.Clipboard.Formats.{Converted, ok, and_then}
use cheirizo.Clipboard.Formats.RoundTrip.{length-encode_utf16}
use cheirizo.Clipboard.Formats.Descriptor.{
  FileDescriptor, Metadata, parse_each, parse_list, parse, write_units, build_header, build,
  build_each, build_list, u32_at,
}
use cheirizo.Clipboard.Formats.Descriptor.Layout.{described, parse-built, take-all}

length-map {ℓ κ} :
    {A : Type ℓ} {B : Type κ} (f : A → B) (xs : List A) → length (map f xs) ≡ length xs
length-map f [] = refl
length-map f (x ∷ xs) = ap suc (length-map f xs)

joined :
    (x y : Converted (List ℕ)) (bytes rest : List ℕ)
    → x ≡ ok bytes
    → y ≡ ok rest
    → and_then x (λ b. and_then y (λ r. ok (b ++ r))) ≡ ok (bytes ++ rest)
joined x y bytes rest h k = rw (h, k) refl

take-append : (n : ℕ) (xs ys : List ℕ) → length xs ≡ n → take n (xs ++ ys) ≡ xs
take-append zero [] ys h = refl
take-append zero (x ∷ xs) ys h = absurd (omega arith)
take-append (suc n) [] ys h = absurd (omega arith)
take-append (suc n) (x ∷ xs) ys h = ap (λ l. x ∷ l) (take-append n xs ys (omega arith))

drop-append : (n : ℕ) (xs ys : List ℕ) → length xs ≡ n → drop n (xs ++ ys) ≡ ys
drop-append zero [] ys h = refl
drop-append zero (x ∷ xs) ys h = absurd (omega arith)
drop-append (suc n) [] ys h = absurd (omega arith)
drop-append (suc n) (x ∷ xs) ys h = drop-append n xs ys (omega arith)

windows_char-IsScalar : (s : Text) → All IsScalar s → All IsScalar (map windows_char s)
unfolding windows_char contains
windows_char-IsScalar [] h = tt
windows_char-IsScalar (c ∷ s) h = (
  elim (Bool-cases (contains c windows_invalid_chars || is_control c)) [
    | inl e ↦ rw e (inl (omega arith))
    | inr e ↦ rw e h.0
  ],
  windows_char-IsScalar s h.1,
)

IsWindowsChar-nonzero : (s : Text) → All IsWindowsChar s → All (λ c. 0 < c) s
IsWindowsChar-nonzero [] h = tt
IsWindowsChar-nonzero (c ∷ s) h = (ground arith, IsWindowsChar-nonzero s h.1)

unnamed-IsScalar : All IsScalar unnamed
unnamed-IsScalar = below_surrogates unnamed refl

-- A file of a file system: a length of 64 bits and a name of at most 254 bytes.
pub record IsFile (file : Metadata × Text) : Type 0 where
  pub len : file.0.len < 18446744073709551616
  pub scalars : All IsScalar file.1
  pub short : byte_len file.1 ≤ 254

abbrev pub present : Metadata × Text → Option Metadata × Option Text
present (m, raw) = (some m, some raw)

module _ (to_uppercase : Text → Text) (keeps : KeepsUnderscore to_uppercase) where
  abbrev block : Metadata × Text → List ℕ
  block (m, raw) =
      write_units 72 (encode_utf16 (sanitize_filename_for_windows to_uppercase raw))
        (build_header m (replicate 592 0))

  abbrev blocks : List (Metadata × Text) → List ℕ
  blocks [] = []
  blocks (file ∷ files) = block file ++ blocks files

  abbrev announced : Metadata × Text → FileDescriptor
  announced (m, raw) = described m (sanitize_filename_for_windows to_uppercase raw)

  build-block :
      (file : Metadata × Text)
      → IsFile file
      → (build to_uppercase (present file).0 (present file).1 ≡ ok (block file))
        × (parse (block file) ≡ ok (announced file))
        × (length (block file) ≡ 592)
  unfolding build
  build-block (m, raw) h =
      let name : Text = sanitize_filename_for_windows to_uppercase raw in
      let safe = sanitize_filename_for_windows-IsWindowsName to_uppercase keeps raw h.short in
      let scalars : All IsScalar name =
        sanitize-All to_uppercase IsScalar unnamed-IsScalar raw
          (windows_char-IsScalar raw h.scalars) in
      let fits : length (encode_utf16 name) ≤ 259 =
        omega (arith, length-encode_utf16 name, safe.fits) in
      let whole : min (length (encode_utf16 name)) 259 ≡ length (encode_utf16 name) = omega arith in
      let read = parse-built m name h.len scalars (IsWindowsChar-nonzero name safe.allowed) fits in
      (
        rw (whole, take-all (length (encode_utf16 name)) (encode_utf16 name) refl) refl,
        read.0,
        read.1,
      )

  build_each-blocks :
      (files : List (Metadata × Text))
      → All IsFile files
      → (build_each to_uppercase (map present files) ≡ ok (blocks files))
        × (length (blocks files) ≡ length files * 592)
  unfolding build_each
  build_each-blocks [] h = (refl, omega arith)
  build_each-blocks ((m, raw) ∷ files) h =
      let first = build-block (m, raw) h.0 in
      let rest = build_each-blocks files h.1 in
      (
        joined _ _ (block (m, raw)) (blocks files) first.0 rest.0,
        omega (arith, length-append (block (m, raw)) (blocks files), first.2, rest.1),
      )

  none_announced :
      (files : List (Metadata × Text)) → length files ≡ 0 → ok [] ≡ ok (map announced files)
  none_announced [] h = refl
  none_announced (file ∷ files) h = absurd (omega arith)

  parse_each-blocks :
      (files : List (Metadata × Text)) (before : List ℕ) (i : ℕ)
      → All IsFile files
      → length before ≡ 4 + i * 592
      → parse_each (length files) i (before ++ blocks files) ≡ ok (map announced files)
  unfolding parse_each
  parse_each-blocks [] before i h e = refl
  parse_each-blocks (file ∷ files) before i h e =
      let first = build-block file h.0 in
      let here : take 592 (drop (4 + i * 592) (before ++ (block file ++ blocks files)))
          ≡ block file =
        ap (take 592) (drop-append (4 + i * 592) before (block file ++ blocks files) e)
        ∙ take-append 592 (block file) (blocks files) first.2 in
      let there : parse_each (length files) (i + 1) (before ++ (block file ++ blocks files))
          ≡ ok (map announced files) =
        ap (parse_each (length files) (i + 1))
          (sym (append_assoc before (block file) (blocks files)))
        ∙ parse_each-blocks files (before ++ block file) (i + 1) h.1
            (omega (arith, length-append before (block file), e, first.2)) in
      rw (here, first.1, there) refl

  -- A list of fewer than 2^32 files, each of which has its metadata, a length of 64 bits and a name of
  -- at most 254 bytes, is built, and what is read from it are the files in their order, each with its
  -- attributes, its length and its name cleaned for Windows, if a text that begins with an underscore
  -- does so in upper case.
  pub parse_list-build_list :
      (files : List (Metadata × Text))
      → All IsFile files
      → length files < 4294967296
      → and_then (build_list to_uppercase (map present files)) parse_list ≡ ok (map announced files)
  unfolding build_list parse_list
  parse_list-build_list files h few =
      let n : ℕ = length files in
      let built = build_each-blocks files h in
      let before : List ℕ = le32 (as_u32 n) in
      let count : u32_at 0 (before ++ blocks files) ≡ n =
        of_le32-le32 (as_u32 n) (omega arith) ∙ omega arith in
      let size : length (before ++ blocks files) ≡ 4 + n * 592 =
        omega (arith, length-append before (blocks files), built.1) in
      let enough : ltb (4 + n * 592) 4 ≡ false = ground arith in
      let all : ltb (4 + n * 592) (4 + n * 592) ≡ false = ground arith in
      rw (built.0, length-map present files)
        (rw (size, count, enough, all)
          (elim (Bool-cases (n == 0)) [
            | inl e ↦ rw e (none_announced files (ground arith))
            | inr e ↦ rw e (parse_each-blocks files before 0 h refl)
          ]))
