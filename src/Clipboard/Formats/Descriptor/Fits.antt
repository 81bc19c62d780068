-- ===== src/Clipboard/Formats/Descriptor/Fits.antt =====
-- A list of descriptors from any sender.
use cheirizo.Prelude.{
  ℕ, zero, suc, ◌+◌, ◌*◌, ◌≤◌, ◌≡◌, ◌⊎◌, refl, ap, arith, Bool, true, false, ltb, ◌==◌,
  if◌then◌else◌, List, [], ◌∷◌, length, take, drop, inl, inr,
}
use cheirizo.Clipboard.Formats.{Converted, ok, err, and_then}
use cheirizo.Clipboard.Formats.Descriptor.{FileDescriptor, u32_at, parse, parse_each, parse_list}

and_then-ok {ℓ κ} :
    {A : Type ℓ} {B : Type κ} (x : Converted A) (f : A → Converted B) (b : B)
    → and_then x f ≡ ok b
    → (a : A) × (x ≡ ok a) × (f a ≡ ok b)
and_then-ok (ok a) f b e = (a, refl, e)
and_then-ok (err r) f b e = absurd (cc)

longer :
    (d : FileDescriptor) (l ds : List FileDescriptor) {n : ℕ}
    → ok (d ∷ l) ≡ ok ds
    → length l ≡ n
    → length ds ≡ suc n
longer d l [] e h = absurd (cc)
longer d l (d' ∷ ds) e h = let same : ds ≡ l = cc in rw same (ap suc h)

parse_each-length :
    (n i : ℕ) (bytes : List ℕ) (ds : List FileDescriptor)
    → parse_each n i bytes ≡ ok ds
    → length ds ≡ n
unfolding parse_each
parse_each-length zero i bytes [] e = refl
parse_each-length zero i bytes (d ∷ ds) e = absurd (cc)
parse_each-length (suc n) i bytes ds e =
    let first = and_then-ok (parse (take 592 (drop (4 + i * 592) bytes))) _ ds e in
    let rest = and_then-ok (parse_each n (i + 1) bytes) (λ l. ok (first.0 ∷ l)) ds first.2 in
    longer first.0 rest.0 ds rest.2 (parse_each-length n (i + 1) bytes rest.0 rest.1)

no_files : (ds : List FileDescriptor) → ok [] ≡ ok ds → length ds ≡ 0
no_files [] e = refl
no_files (d ∷ ds) e = absurd (cc)

if-ok :
    (b : Bool) (x y : Converted (List FileDescriptor)) (ds : List FileDescriptor)
    → (if b then x else y) ≡ ok ds
    → ((b ≡ true) × (x ≡ ok ds)) ⊎ ((b ≡ false) × (y ≡ ok ds))
if-ok true x y ds e = inl (refl, e)
if-ok false x y ds e = inr (refl, e)

-- Whatever bytes the client sends as a list of files: if it is read, it has as many files as the count
-- says, and all their descriptors lie within the bytes.
pub parse_list_fits :
    (bytes : List ℕ) (ds : List FileDescriptor)
    → parse_list bytes ≡ ok ds
    → (length ds ≡ u32_at 0 bytes) × (4 + length ds * 592 ≤ length bytes)
unfolding parse_list
parse_list_fits bytes ds e = elim (if-ok (ltb (length bytes) 4) _ _ ds e) [
  | inl (b, e₁) ↦ absurd (cc)
  | inr (long, e₁) ↦ elim (if-ok (u32_at 0 bytes == 0) _ _ ds e₁) [
    | inl (zeroes, e₂) ↦
        let empty : length ds ≡ 0 = no_files ds e₂ in rw empty (ground arith, ground arith)
    | inr (filled, e₂) ↦ elim (if-ok (ltb (length bytes) (4 + u32_at 0 bytes * 592)) _ _ ds e₂) [
      | inl (short, e₃) ↦ absurd (cc)
      | inr (enough, e₃) ↦
          let count : length ds ≡ u32_at 0 bytes =
            parse_each-length (u32_at 0 bytes) 0 bytes ds e₃ in
          (count, rw count (ground arith))
    ]
  ]
]
