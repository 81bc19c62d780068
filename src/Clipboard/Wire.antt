-- ===== src/Clipboard/Wire.antt =====
-- The texts that src/rdp/channels/clipboard/manager.rs sends to the client and takes from it as
-- CF_UNICODETEXT. A text stands for its bytes in UTF-8.
use cheirizo.Prelude.{
  ℕ, ◌≡◌, ◌∙◌, refl, ap, arith, false, not, ◌&&◌, ltb, ◌==◌, if◌then◌else◌, List, [], ◌∷◌, ◌++◌,
  All, length, length-append, retain, Text, Bool-cases, inl, inr,
}
use cheirizo.Prelude.Utf16.{
  IsScalar, encode_utf16, from_utf16_lossy, unit_bytes, units, units-unit_bytes,
  encode_utf16-IsUnit, from_utf16_lossy-encode_utf16,
}
use cheirizo.Clipboard.Sanitize.{
  convert_line_endings_to_unix, convert_line_endings_to_windows, add_returns,
  sanitize_text_for_windows, sanitize_text_for_linux,
}
use cheirizo.Clipboard.Sanitize.Texts.{sanitize_text_for_linux-windows}
use cheirizo.Clipboard.Formats.Descriptor.{take_nonzero}
use cheirizo.Clipboard.Formats.Descriptor.Layout.{
  IsNonzero, take_nonzero-append, encode_utf16-IsNonzero,
}

unfoldable pub unicode_for_client : Text → List ℕ
unfolding sanitize_text_for_windows encode_utf16 unit_bytes
unicode_for_client s = unit_bytes (encode_utf16 (sanitize_text_for_windows s)) ++ 0 ∷ 0 ∷ []

pub data Delivered : Type 0 where
  as_text : Text → Delivered
  as_bytes : List ℕ → Delivered

-- Fewer than two bytes are passed through.
unfoldable pub text_from_client : List ℕ → Delivered
unfolding units from_utf16_lossy sanitize_text_for_linux
text_from_client bytes =
    if ltb (length bytes) 2
    then as_bytes bytes
    else as_text (sanitize_text_for_linux (from_utf16_lossy (take_nonzero (units bytes))))

unix-All {κ} : (P : ℕ → Type κ) (s : Text) → All P s → All P (convert_line_endings_to_unix s)
unfolding convert_line_endings_to_unix
unix-All P [] h = tt
unix-All P (c ∷ []) h = h
unix-All P (c ∷ d ∷ s) h = elim (Bool-cases (c == b'\r' && d == b'\n')) [
  | inl e ↦ rw e (unix-All P (d ∷ s) h.1)
  | inr e ↦ rw e (h.0, unix-All P (d ∷ s) h.1)
]

returned-IsScalar : (s : Text) → All IsScalar s → All IsScalar (add_returns s)
unfolding add_returns
returned-IsScalar [] h = tt
returned-IsScalar (c ∷ s) h = elim (Bool-cases (c == b'\n')) [
  | inl e ↦ rw e (inl (omega arith), (inl (omega arith), returned-IsScalar s h.1))
  | inr e ↦ rw e (h.0, returned-IsScalar s h.1)
]

sanitized-IsScalar : (s : Text) → All IsScalar s → All IsScalar (sanitize_text_for_windows s)
unfolding sanitize_text_for_windows convert_line_endings_to_windows
sanitized-IsScalar s h = kept _ (returned-IsScalar _ (unix-All IsScalar s h))
  where
    kept : (t : Text) → All IsScalar t → All IsScalar (retain (λ c. not (c == 0)) t)
    kept [] k = tt
    kept (c ∷ t) k = elim (Bool-cases (c == 0)) [
      | inl e ↦ rw e (kept t k.1)
      | inr e ↦ rw e (k.0, kept t k.1)
    ]

retain-IsNonzero : (s : Text) → All IsNonzero (retain (λ c. not (c == 0)) s)
retain-IsNonzero [] = tt
retain-IsNonzero (c ∷ s) = elim (Bool-cases (c == 0)) [
  | inl e ↦ rw e (retain-IsNonzero s)
  | inr e ↦ rw e (ground arith, retain-IsNonzero s)
]

-- A local text that is sent to the client and comes back unchanged is delivered as the text cleaned
-- for the desktop, whatever line ends and null characters it has.
pub client_round_trip :
    (s : Text)
    → All IsScalar s
    → text_from_client (unicode_for_client s) ≡ as_text (sanitize_text_for_linux s)
unfolding text_from_client unicode_for_client
client_round_trip s scalars =
    let sent : Text = sanitize_text_for_windows s in
    let us : List ℕ = encode_utf16 sent in
    let sent-scalars : All IsScalar sent = sanitized-IsScalar s scalars in
    let long : ltb (length (unit_bytes us ++ 0 ∷ 0 ∷ [])) 2 ≡ false =
      ground (arith, length-append (unit_bytes us) (0 ∷ 0 ∷ [])) in
    let nonzero : All IsNonzero us =
      encode_utf16-IsNonzero sent (
        unfold sanitize_text_for_windows in retain-IsNonzero (convert_line_endings_to_windows s)) in
    let read : take_nonzero (units (unit_bytes us ++ 0 ∷ 0 ∷ [])) ≡ us =
      ap take_nonzero (units-unit_bytes us (0 ∷ 0 ∷ []) (encode_utf16-IsUnit sent sent-scalars))
      ∙ take_nonzero-append us (units (0 ∷ 0 ∷ [])) nonzero (unfold units in refl) in
    rw
      (
        long,
        read,
        from_utf16_lossy-encode_utf16 sent sent-scalars,
        sanitize_text_for_linux-windows s,
      )
      refl
