-- ===== src/Sesman/Render/LineEnds.antt =====
-- No written value, entry and header has a line end in it.
use cheirizo.Prelude.{
  ℕ, ◌≡◌, refl, arith, true, false, ◌==◌, List, [], ◌∷◌, ◌++◌, All, all, Text, Bool-cases, inl, inr,
}
use cheirizo.Prelude.Strings.{is_whitespace, Lacks, IsLine}
use cheirizo.Sesman.Scalars.{
  show_unsigned, format_ini_list, format_ini_scalar, join_values, needs_quotes,
}
use cheirizo.Sesman.Scalars.RoundTrip.{Unquoted, escape_quotes-Unquoted}
use cheirizo.Sesman.Render.{entry, header}
use cheirizo.Sesman.Render.Clean.{IsRaw}
use cheirizo.Sesman.Render.Steps.{is_plain, plain-IsRaw, show_unsigned-IsRaw}
use cheirizo.Sesman.Render.Sections.{IsEntry}

Lacks-append : (q : ℕ) (s t : Text) → Lacks q s → Lacks q t → Lacks q (s ++ t)
Lacks-append q [] t h k = k
Lacks-append q (c ∷ s) t h k = (h.0, Lacks-append q s t h.1 k)

IsLine-append : (s t : Text) → IsLine s → IsLine t → IsLine (s ++ t)
IsLine-append s t h k = (Lacks-append b'\n' s t h.0 k.0, Lacks-append b'\r' s t h.1 k.1)

visible : (c : ℕ) → is_whitespace c ≡ false → ((c == b'\n') ≡ false) × ((c == b'\r') ≡ false)
unfolding is_whitespace
visible c h = (ground arith, ground arith)

raw-IsLine : (s : Text) → IsRaw s → IsLine s
raw-IsLine [] h = (tt, tt)
raw-IsLine (c ∷ s) h =
    let (feed, return) = visible c h.0.1 in
    let (feeds, returns) = raw-IsLine s h.1 in ((feed, feeds), (return, returns))

pub IsLine-entry : (k v : Text) → IsRaw k → IsLine v → IsLine (entry k v)
IsLine-entry k v hk hv = IsLine-append k (b'=' ∷ v) (raw-IsLine k hk) ((refl, hv.0), (refl, hv.1))

pub raw_entry-IsLine : (k v : Text) → all is_plain k ≡ true → IsRaw v → IsLine (entry k v)
raw_entry-IsLine k v hk hv = IsLine-entry k v (plain-IsRaw k hk) (raw-IsLine v hv)

pub header-IsLine : (name : Text) → all is_plain name ≡ true → IsLine (header name)
header-IsLine name h =
    let (feeds, returns) =
      IsLine-append name (b']' ∷ []) (raw-IsLine name (plain-IsRaw name h))
        ((refl, tt), (refl, tt)) in
    ((refl, feeds), (refl, returns))

pub scalar-IsLine : (v : Text) → Unquoted v → IsLine v → IsLine (format_ini_scalar v)
unfolding format_ini_scalar
scalar-IsLine v u h = elim (Bool-cases (needs_quotes v)) [
  | inl quoted ↦
      rw (quoted, escape_quotes-Unquoted v u)
        (let (feeds, returns) = IsLine-append v (b'"' ∷ []) h ((refl, tt), (refl, tt)) in
          ((refl, feeds), (refl, returns)))
  | inr plain ↦ rw plain h
]

values-IsLine : (vs : List Text) → All IsEntry vs → IsLine (join_values vs)
unfolding join_values
values-IsLine [] h = (tt, tt)
values-IsLine (v ∷ []) h = scalar-IsLine v h.0.0.0 h.0.1
values-IsLine (v ∷ w ∷ vs) h =
    IsLine-append (format_ini_scalar v) (b',' ∷ b' ' ∷ join_values (w ∷ vs))
      (scalar-IsLine v h.0.0.0 h.0.1)
      (IsLine-append (b',' ∷ b' ' ∷ []) (join_values (w ∷ vs))
        ((refl, (refl, tt)), (refl, (refl, tt))) (values-IsLine (w ∷ vs) h.1))

pub list-IsLine :
    (k : Text) (vs : List Text)
    → all is_plain k ≡ true
    → All IsEntry vs
    → IsLine (entry k (format_ini_list vs))
unfolding format_ini_list
list-IsLine k vs hk h =
    let (feeds, returns) =
      IsLine-append (join_values vs) (b']' ∷ []) (values-IsLine vs h) ((refl, tt), (refl, tt)) in
    IsLine-entry k _ (plain-IsRaw k hk) ((refl, feeds), (refl, returns))

pub number-IsLine : (k : Text) (n : ℕ) → all is_plain k ≡ true → IsLine (entry k (show_unsigned n))
number-IsLine k n h = raw_entry-IsLine k (show_unsigned n) h (show_unsigned-IsRaw n)

pub no-IsLine : IsLine []
no-IsLine = (tt, tt)

pub all-append : (ls ks : List Text) → All IsLine ls → All IsLine ks → All IsLine (ls ++ ks)
all-append [] ks h k = k
all-append (l ∷ ls) ks h k = (h.0, all-append ls ks h.1 k)
