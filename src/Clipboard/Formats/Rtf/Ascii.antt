-- ===== src/Clipboard/Formats/Rtf/Ascii.antt =====
-- A text is written as RTF in ASCII alone.
use cheirizo.Prelude.{
  ℕ, ◌-◌, refl, Bool, arith, true, false, ltb, ◌==◌, if◌then◌else◌, List, [], ◌∷◌, ◌++◌, All, Text,
  Bool-cases, inl, inr,
}
use cheirizo.Prelude.Utf8.{IsAscii}
use cheirizo.Prelude.Utf16.{units_of}
use cheirizo.Sesman.Scalars.{show_unsigned}
use cheirizo.Clipboard.Sanitize.Names.{All-append}
use cheirizo.Clipboard.Formats.Rtf.{rtf_head, unit_escape, unit_escapes, escape, escape_all}
use cheirizo.Clipboard.Formats.Rtf.Numbers.{show-IsAscii}

unit_escapes-IsAscii : (us : List ℕ) → All IsAscii (unit_escapes us)
unfolding unit_escape
unit_escapes-IsAscii [] = tt
unit_escapes-IsAscii (u ∷ us) = (
  refl,
  (
    refl,
    All-append IsAscii _ (unit_escapes us) (All-append IsAscii _ (b'?' ∷ []) (shown u) (refl, tt))
        (unit_escapes-IsAscii us),
  ),
)
  where
    shown :
        (u : ℕ)
        → All IsAscii (if ltb u 32768 then show_unsigned u else b'-' ∷ show_unsigned (65536 - u))
    shown u = elim (Bool-cases (ltb u 32768)) [
      | inl e ↦ rw e (show-IsAscii u)
      | inr e ↦ rw e (refl, show-IsAscii (65536 - u))
    ]

escape-IsAscii : (c : ℕ) → All IsAscii (escape c)
unfolding escape
escape-IsAscii c =
    choose (c == b'\\') _ _ (refl, (refl, tt))
      (choose (c == b'{') _ _ (refl, (refl, tt))
        (choose (c == b'}') _ _ (refl, (refl, tt))
          (choose (c == b'\n') _ _ (refl, (refl, (refl, (refl, (refl, tt)))))
            (choose (c == b'\r') _ _ tt plain))))
  where
    choose :
        (b : Bool) (x y : Text) → All IsAscii x → All IsAscii y → All IsAscii (if b then x else y)
    choose true x y h k = h
    choose false x y h k = k

    plain : All IsAscii (if ltb c 128 then c ∷ [] else unit_escapes (units_of c))
    plain = elim (Bool-cases (ltb c 128)) [
      | inl e ↦ rw e (e, tt)
      | inr e ↦ rw e (unit_escapes-IsAscii (units_of c))
    ]

escape_all-IsAscii : (s : Text) → All IsAscii (escape_all s)
unfolding escape_all
escape_all-IsAscii [] = tt
escape_all-IsAscii (c ∷ s) =
    All-append IsAscii (escape c) (escape_all s) (escape-IsAscii c) (escape_all-IsAscii s)

abbrev pub document : Text → Text
document s = rtf_head ++ (escape_all s ++ b'}' ∷ [])

pub document-IsAscii : (s : Text) → All IsAscii (document s)
document-IsAscii s =
    All-append IsAscii rtf_head (escape_all s ++ b'}' ∷ []) (ground arith)
      (All-append IsAscii (escape_all s) (b'}' ∷ []) (escape_all-IsAscii s) (refl, tt))
