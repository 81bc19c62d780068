-- ===== src/Clipboard/Formats/Descriptor/Layout.antt =====
-- What `build` puts where, and what `parse` reads there.
use cheirizo.Prelude.{
  ℕ, zero, suc, ◌+◌, ◌-◌, ◌*◌, ◌/◌, ◌%◌, ◌≤◌, ◌<◌, ◌≡◌, ◌∙◌, refl, ap, arith, false, ltb, ◌==◌,
  if◌then◌else◌, none, some, List, [], ◌∷◌, ◌++◌, length, length-append, length-replicate, All,
  take, drop, replicate, Text, Bool-cases, inl, inr,
}
use cheirizo.Prelude.Words.{as_u32}
use cheirizo.Prelude.Utf16.{
  IsScalar, units_of, encode_utf16, from_utf16-encode_utf16, encode_utf16-IsUnit, units, unit_bytes,
  le16, of_le32-le32, units-unit_bytes, length-unit_bytes,
}
use cheirizo.Clipboard.Formats.{ok}
use cheirizo.Clipboard.Formats.Descriptor.{
  FileDescriptor, Metadata, flag_filesize, take_nonzero, parse_utf16_filename, parse, descriptor,
  write, write_units, build_header,
}

write-right :
    (xs bytes into : List ℕ) (i j : ℕ)
    → j ≡ length xs + i
    → write j bytes (xs ++ into) ≡ xs ++ write i bytes into
unfolding write
write-right [] bytes into i j h = let e : j ≡ i = omega arith in rw e refl
write-right (x ∷ xs) bytes into i zero h = absurd (omega arith)
write-right (x ∷ xs) bytes into i (suc j) h =
    ap (λ l. x ∷ l) (write-right xs bytes into i j (omega arith))

write_units-right :
    (us xs into : List ℕ) (i j : ℕ)
    → j ≡ length xs + i
    → write_units j us (xs ++ into) ≡ xs ++ write_units i us into
unfolding write_units
write_units-right [] xs into i j h = refl
write_units-right (u ∷ us) xs into i j h =
    rw (write-right xs (le16 u) into i j h)
      (write_units-right us xs (write i (le16 u) into) (i + 2) (j + 2) (omega arith))

-- Units that are written over zeros stand before the zeros that are left.
write_units-zeros :
    (us : List ℕ) (m n : ℕ)
    → m ≡ length us + length us + n
    → write_units 0 us (replicate m 0) ≡ unit_bytes us ++ replicate n 0
unfolding write_units unit_bytes
write_units-zeros [] m n h = let e : m ≡ n = omega arith in rw e refl
write_units-zeros (u ∷ us) zero n h = absurd (omega arith)
write_units-zeros (u ∷ us) (suc zero) n h = absurd (omega arith)
write_units-zeros (u ∷ us) (suc (suc m)) n h =
    unfold write in
    write_units-right us (le16 u) (replicate m 0) 0 2 (omega arith)
    ∙ ap (λ l. le16 u ++ l) (write_units-zeros us m n (omega arith))

abbrev header : Metadata → List ℕ
header m = build_header m (replicate 72 0)

build_header-split : (m : Metadata) → build_header m (replicate 592 0) ≡ header m ++ replicate 520 0
unfolding build_header write
build_header-split m = refl

length-header : (m : Metadata) → length (header m) ≡ 72
unfolding build_header write
length-header m = refl

drop-header : (m : Metadata) (tail : List ℕ) → drop 72 (header m ++ tail) ≡ tail
unfolding build_header write
drop-header m tail = refl

-- The bytes of a descriptor: a header, the units of the name, and zeros.
built :
    (m : Metadata) (us : List ℕ) (n : ℕ)
    → 520 ≡ length us + length us + n
    → write_units 72 us (build_header m (replicate 592 0))
      ≡ header m ++ (unit_bytes us ++ replicate n 0)
built m us n h = rw (build_header-split m) (
    write_units-right us (header m) (replicate 520 0) 0 72 (omega (arith, length-header m))
    ∙ ap (λ l. header m ++ l) (write_units-zeros us 520 n h))

units-replicate : (n : ℕ) → take_nonzero (units (replicate n 0)) ≡ []
unfolding units
units-replicate zero = refl
units-replicate (suc zero) = refl
units-replicate (suc (suc n)) = refl

abbrev pub IsNonzero : ℕ → Type 0
IsNonzero u = 0 < u

pub take_nonzero-append :
    (us vs : List ℕ) → All IsNonzero us → take_nonzero vs ≡ [] → take_nonzero (us ++ vs) ≡ us
take_nonzero-append [] vs h e = e
take_nonzero-append (u ∷ us) vs h e =
    let n : (u == 0) ≡ false = ground arith in rw (n, take_nonzero-append us vs h.1 e) refl

pub encode_utf16-IsNonzero : (s : Text) → All IsNonzero s → All IsNonzero (encode_utf16 s)
unfolding encode_utf16 units_of
encode_utf16-IsNonzero [] h = tt
encode_utf16-IsNonzero (c ∷ s) h = elim (Bool-cases (ltb c 0x10000)) [
  | inl e ↦ rw e (h.0, encode_utf16-IsNonzero s h.1)
  | inr e ↦ rw e (omega arith, (omega arith, encode_utf16-IsNonzero s h.1))
]

pub take-all : (n : ℕ) (xs : List ℕ) → length xs ≡ n → take n xs ≡ xs
take-all zero [] h = refl
take-all zero (x ∷ xs) h = absurd (omega arith)
take-all (suc n) [] h = absurd (omega arith)
take-all (suc n) (x ∷ xs) h = ap (λ l. x ∷ l) (take-all n xs (omega arith))

-- The name that is read behind a header.
parse_name :
    (s : Text) (n : ℕ)
    → All IsScalar s
    → All IsNonzero s
    → 520 ≡ length (encode_utf16 s) + length (encode_utf16 s) + n
    → parse_utf16_filename (unit_bytes (encode_utf16 s) ++ replicate n 0) ≡ ok s
unfolding parse_utf16_filename
parse_name s n scalars nonzero h =
    let us : List ℕ = encode_utf16 s in
    let total : length (unit_bytes us ++ replicate n 0) ≡ 520 = omega (
      arith,
      length-append (unit_bytes us) (replicate n 0),
      length-unit_bytes us,
      length-replicate n zero,
    ) in
    let read : take_nonzero (units (unit_bytes us ++ replicate n 0)) ≡ us =
      ap take_nonzero (units-unit_bytes us (replicate n 0) (encode_utf16-IsUnit s scalars))
      ∙ take_nonzero-append us (units (replicate n 0)) (encode_utf16-IsNonzero s nonzero)
          (units-replicate n) in
    rw (total, read, from_utf16-encode_utf16 s scalars) refl

-- What a file of the file system is announced as.
abbrev pub described : Metadata → Text → FileDescriptor
described m name = record {
  flags = flag_filesize;
  attributes = if m.is_dir then 0x10 else 0x80;
  creation_time = none;
  access_time = none;
  write_time = none;
  size = some m.len;
  name = name;
}

descriptor-header :
    (m : Metadata) (tail : List ℕ) (name : Text)
    → m.len < 18446744073709551616
    → descriptor (header m ++ tail) name ≡ described m name
unfolding build_header write
descriptor-header m tail name h =
    let attributes = of_le32-le32 (if m.is_dir then 0x10 else 0x80) (ground arith) in
    let high = of_le32-le32 (as_u32 (m.len / 4294967296)) (omega arith) in
    let low = of_le32-le32 (as_u32 m.len) (omega arith) in
    let whole : 4294967296 * (m.len / 4294967296 % 4294967296) + m.len % 4294967296 ≡ m.len =
      omega (arith, h) in
    rw (attributes, high, low, whole) refl

-- A descriptor that was built is read.
pub parse-built :
    (m : Metadata) (s : Text)
    → m.len < 18446744073709551616
    → All IsScalar s
    → All IsNonzero s
    → length (encode_utf16 s) ≤ 259
    → let block : List ℕ = write_units 72 (encode_utf16 s) (build_header m (replicate 592 0)) in
      (parse block ≡ ok (described m s)) × (length block ≡ 592)
unfolding parse
parse-built m s len scalars nonzero fits =
    let us : List ℕ = encode_utf16 s in
    let n : ℕ = 520 - (length us + length us) in
    let all : 520 ≡ length us + length us + n = omega arith in
    let tail : List ℕ = unit_bytes us ++ replicate n 0 in
    let size : length tail ≡ 520 = omega (
      arith,
      length-append (unit_bytes us) (replicate n 0),
      length-unit_bytes us,
      length-replicate n zero,
    ) in
    let total : length (header m ++ tail) ≡ 592 =
      omega (arith, length-append (header m) tail, length-header m) in
    rw (built m us n all) (
      rw
          (
            total,
            drop-header m tail,
            take-all 520 tail size,
            parse_name s n scalars nonzero all,
            descriptor-header m tail s len,
          )
          refl,
      total,
    )
