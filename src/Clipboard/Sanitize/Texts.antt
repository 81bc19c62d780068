-- ===== src/Clipboard/Sanitize/Texts.antt =====
-- What becomes of a text on its way to the client and back.
use cheirizo.Prelude.{ℕ, ◌≡◌, refl, arith, false, not, ◌==◌, [], ◌∷◌, retain, Text}
use cheirizo.Clipboard.Sanitize.{
  convert_line_endings_to_unix, add_returns, convert_line_endings_to_windows,
  sanitize_text_for_linux, sanitize_text_for_windows,
}

unix-keep :
    (c : ℕ) (s : Text)
    → (c == b'\r') ≡ false
    → convert_line_endings_to_unix (c ∷ s) ≡ c ∷ convert_line_endings_to_unix s
unfolding convert_line_endings_to_unix
unix-keep c [] h = refl
unix-keep c (d ∷ s) h = rw h refl

-- No text with carriage returns added begins with a line feed.
unix-add_returns : (s : Text) → convert_line_endings_to_unix (add_returns s) ≡ s
unfolding convert_line_endings_to_unix add_returns
unix-add_returns [] = refl
unix-add_returns (c ∷ []) = ground arith
unix-add_returns (c ∷ d ∷ s) = ground (arith, unix-add_returns (d ∷ s), unix-keep b'\n')

retain-add_returns :
    (s : Text)
    → retain (λ c. not (c == 0)) (add_returns s) ≡ add_returns (retain (λ c. not (c == 0)) s)
unfolding add_returns
retain-add_returns [] = refl
retain-add_returns (c ∷ s) = ground (arith, retain-add_returns s)

retain_idem :
    (s : Text)
    → retain (λ c. not (c == 0)) (retain (λ c. not (c == 0)) s) ≡ retain (λ c. not (c == 0)) s
retain_idem [] = refl
retain_idem (c ∷ s) = ground (arith, retain_idem s)

-- A local text that is cleaned for the client, and what comes back cleaned for the desktop, is the
-- text cleaned for the desktop alone: no line end is added or lost on the way, whatever mixture of
-- line ends and null characters the text has.
pub sanitize_text_for_linux-windows :
    (s : Text) → sanitize_text_for_linux (sanitize_text_for_windows s) ≡ sanitize_text_for_linux s
unfolding sanitize_text_for_linux sanitize_text_for_windows convert_line_endings_to_windows
sanitize_text_for_linux-windows s =
    rw
      (
        retain-add_returns (convert_line_endings_to_unix s),
        unix-add_returns (retain (λ c. not (c == 0)) (convert_line_endings_to_unix s)),
      )
      (retain_idem (convert_line_endings_to_unix s))
