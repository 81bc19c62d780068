-- ===== src/Clipboard/Formats/Rtf/Rounds.antt =====
-- The rounds of `rtf_to_text`.
use cheirizo.Prelude.{
  ℕ, zero, suc, ◌-◌, Bool, true, false, not, ◌&&◌, ◌||◌, ltb, leb, ◌==◌, if◌then◌else◌, Option,
  none, some, List, [], ◌∷◌, ◌++◌, length, any, take, drop, Text, text_eq,
}
use cheirizo.Prelude.Int.{ℤ, pos, negsuc, ◌+ℤ◌}
use cheirizo.Prelude.Strings.{codes}
use cheirizo.Prelude.Utf8.{from_utf8}
use cheirizo.Clipboard.Formats.{Converted, ok, and_then, ok_or, limited, invalid_utf8}
use cheirizo.Clipboard.Formats.Rtf.{
  Reader, new_reader, is_alpha, is_digit, span, drop_one, parameter, skip_destinations, as_unit,
  replacement, read_unit, parse_hex, char_of_byte,
}

abbrev pub Round : Type 0
Round = Text × Reader × Text

-- The character behind a backslash that no letter follows.
unfoldable pub escaped : Reader → Text → Round
unfolding parse_hex
escaped r [] = ([], r, [])
escaped r (c ∷ s) =
    if c == b'\\' || c == b'{' || c == b'}'
    then (c ∷ [], r, s)
    else if c == b'\''
    then (char_of_byte (parse_hex (take 2 s)), r, drop 2 s)
    else if c == b'*'
    then ([], record r { skip_depth = some r.group_depth }, s)
    else ([], r, s)

abbrev pub set_fallback : Reader → Option ℤ → Reader
set_fallback r (some (pos n)) = record r { unicode_fallback_count = n }
set_fallback r (some (negsuc n)) = r
set_fallback r none = r

abbrev pub unicode : Reader → Option ℤ → Text → Round
unicode r none s = ([], r, s)
unicode r (some z) s = ((read_unit r (as_unit z)).0, (read_unit r (as_unit z)).1, s)

unfoldable pub obey : Reader → Text → Option ℤ → Text → Round
unfolding text_eq read_unit escaped
obey r word value s =
    if text_eq word (codes "par") || text_eq word (codes "line")
    then (b'\n' ∷ [], r, s)
    else if text_eq word (codes "tab")
    then (b'\t' ∷ [], r, s)
    else if text_eq word (codes "uc")
    then ([], set_fallback r value, s)
    else if text_eq word (codes "u")
    then unicode r value s
    else if text_eq word []
    then escaped r s
    else ([], r, s)

abbrev pub is_some : Option ℤ → Bool
is_some none = false
is_some (some z) = true

-- What a control word does, with the text behind its parameter and a space.
unfoldable pub control : Reader → Text → Option ℤ → Text → Round
unfolding text_eq obey
control r word value s =
    if any (text_eq word) skip_destinations
    then ([], record r { skip_depth = some r.group_depth }, s)
    else if is_some r.skip_depth
    then ([], r, s)
    else obey r word value s

unfoldable pub control_word : Reader → Text → Round
unfolding span parameter control
control_word r s =
    let word = span is_alpha s in
    let value = parameter word.1 in control r word.0 value.0 (drop_one b' ' value.1)

-- The escape that stands for a fallback character, behind its backslash.
unfoldable pub skip_escape : Text → Text
unfolding span
skip_escape [] = []
skip_escape (e ∷ s) =
    if e == b'\''
    then drop 2 s
    else if is_alpha e
    then drop_one b' ' (span is_digit (drop_one b'-' (span is_alpha s).1)).1
    else s

abbrev pub same_depth : ℤ → ℤ → Bool
same_depth (pos m) (pos n) = m == n
same_depth (negsuc m) (negsuc n) = m == n
same_depth _ _ = false

abbrev pub leave_skip : Option ℤ → ℤ → Option ℤ
leave_skip none depth = none
leave_skip (some z) depth = if same_depth depth z then none else some z

unfoldable pub round : Reader → ℕ → Text → Round
unfolding control_word skip_escape ◌+ℤ◌
round r c s =
    if ltb 0 r.fallback_chars_to_skip
    then (
      [],
      record r { fallback_chars_to_skip = r.fallback_chars_to_skip - 1 },
      if c == b'\\' then skip_escape s else s,
    )
    else if c == b'{'
    then ([], record r { group_depth = r.group_depth +ℤ pos 1 }, s)
    else if c == b'}'
    then (
      [],
      record r {
        skip_depth = leave_skip r.skip_depth r.group_depth;
        group_depth = r.group_depth +ℤ negsuc 0;
      },
      s,
    )
    else if c == b'\\'
    then control_word r s
    else if leb 32 c && not (is_some r.skip_depth)
    then (c ∷ [], r, s)
    else ([], r, s)

abbrev pub behind_text : Text → Option Text → Option Text
behind_text out none = none
behind_text out (some t) = some (out ++ t)

-- The loop, for at most so many rounds.
unfoldable pub run_rounds : ℕ → Reader → Text → Option Text
unfolding round
run_rounds fuel r [] = some (replacement r.pending_high_surrogate)
run_rounds zero r (c ∷ s) = none
run_rounds (suc fuel) r (c ∷ s) =
    let next = round r c s in behind_text next.0 (run_rounds fuel next.1 next.2)

abbrev pub or_empty : Option Text → Text
or_empty none = []
or_empty (some t) = t

-- With as many rounds as there are characters.
unfoldable pub rtf_to_text : ℕ → List ℕ → Converted Text
unfolding from_utf8 run_rounds
rtf_to_text max bytes = limited max (length bytes) (
    and_then (ok_or invalid_utf8 (from_utf8 bytes))
      (λ text. ok (or_empty (run_rounds (length text) new_reader text))))
