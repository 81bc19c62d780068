-- ===== src/Sesman/Render/Lines.antt =====
-- One written line is read back, and runs of lines.
use cheirizo.Prelude.{ℕ, ◌+◌, ◌≡◌, refl, arith, false, ◌==◌, none, List, [], ◌∷◌, ◌++◌, Text}
use cheirizo.Prelude.Strings.{
  is_whitespace, trim, trim_start, trim_end, Lacks, Solid, trim-Solid, trim_enclosed, between,
  between_enclosed, strip_prefix, split_once-append,
}
use cheirizo.Sesman.Scalars.{strip_ini_comment, unquote_ini_scalar}
use cheirizo.Sesman.Ini.{IniState, ok, parse_line, parse_stripped, parse_lines, apply_entry}
use cheirizo.Sesman.Render.{entry, header}
use cheirizo.Sesman.Render.Clean.{
  Passes, IsClean, IsRaw, strip_of_Passes, Passes-append, Passes-all-Safe, raw-Safe, raw-Solid,
}

-- A key: it is not empty, has only raw characters, no equals sign, and does not look like a header.
abbrev pub IsKey : Text → Type 0
IsKey [] = ⊥
IsKey (c ∷ k) = ((c == b'[') ≡ false) × IsRaw (c ∷ k) × Lacks b'=' (c ∷ k)

trim_end_entry :
    (k w : Text) → Solid k → trim_end w ≡ w → trim_end (k ++ (b'=' ∷ w)) ≡ k ++ (b'=' ∷ w)
unfolding trim_end is_whitespace
trim_end_entry [] [] hk hw = refl
trim_end_entry [] (d ∷ w) hk hw = rw hw refl
trim_end_entry (c ∷ []) w hk hw = rw (trim_end_entry [] w tt hw) refl
trim_end_entry (c ∷ d ∷ k) w hk hw = rw (trim_end_entry (d ∷ k) w hk.1 hw) refl

trim-entry :
    (c : ℕ) (k w : Text) → IsRaw (c ∷ k) → trim_end w ≡ w → trim (entry (c ∷ k) w) ≡ entry (c ∷ k) w
unfolding trim trim_start
trim-entry c k w raw ended = rw (raw.0.1) (trim_end_entry (c ∷ k) w (raw-Solid (c ∷ k) raw) ended)

Passes-entry : (k w : Text) → IsRaw k → IsClean w → Passes (entry k w)
Passes-entry k w raw h = Passes-append k (b'=' ∷ w) (Passes-all-Safe k (raw-Safe k raw)) (
    Passes-append (b'=' ∷ []) w (Passes-all-Safe (b'=' ∷ []) ((refl, refl, refl, refl), tt))
      h.passes)

Passes-header : (name : Text) → IsRaw name → Passes (header name)
Passes-header name raw =
    Passes-append (b'[' ∷ []) (name ++ b']' ∷ [])
      (Passes-all-Safe (b'[' ∷ []) ((refl, refl, refl, refl), tt))
      (Passes-append name (b']' ∷ []) (Passes-all-Safe name (raw-Safe name raw))
        (Passes-all-Safe (b']' ∷ []) ((refl, refl, refl, refl), tt)))

trim-header : (name : Text) → trim (header name) ≡ header name
unfolding is_whitespace
trim-header name = trim_enclosed b'[' name b']' refl refl

not_between : (c : ℕ) (s : Text) → (c == b'[') ≡ false → between b'[' b']' (c ∷ s) ≡ none
unfolding between strip_prefix
not_between c s h = ground arith

module _ (to_lowercase to_uppercase : Text → Text) where
  stripped_entry :
      (st : IniState) (n c : ℕ) (key w : Text)
      → IsKey (c ∷ key)
      → IsClean w
      → parse_stripped to_lowercase to_uppercase st n (entry (c ∷ key) w)
        ≡ apply_entry to_lowercase to_uppercase st (to_lowercase (c ∷ key)) (unquote_ini_scalar w) n
  unfolding parse_stripped
  stripped_entry st n c key w k h =
      let (no_header, raw, no_sign) = k in
      rw (parse_stripped, not_between c (key ++ (b'=' ∷ w)) no_header)
        (rw (split_once-append b'=' (c ∷ key) w no_sign)
          (rw (trim-Solid (c ∷ key) (raw-Solid (c ∷ key) raw), h.trimmed) refl))

  -- A written entry comes to the entry of its section.
  pub parse_entry :
      (st : IniState) (n : ℕ) (key w : Text)
      → IsKey key
      → IsClean w
      → parse_line to_lowercase to_uppercase st n (entry key w)
        ≡ apply_entry to_lowercase to_uppercase st (to_lowercase key) (unquote_ini_scalar w) n
  unfolding parse_line
  parse_entry st n [] w k h = absurd k
  parse_entry st n (c ∷ key) w k h =
      let stripped = strip_of_Passes (entry (c ∷ key) w) (Passes-entry (c ∷ key) w k.1 h) in
      let trimmed = trim-entry c key w k.1 h.end_trimmed in
      rw (parse_line, stripped, trimmed) (stripped_entry st n c key w k h)

  pub parse_header :
      (st : IniState) (n : ℕ) (name : Text)
      → IsRaw name
      → parse_line to_lowercase to_uppercase st n (header name)
        ≡ ok (record st { section = to_lowercase name })
  unfolding parse_line parse_stripped
  parse_header st n name h =
      let stripped = strip_of_Passes (header name) (Passes-header name h) in
      let trimmed = trim-header name in
      rw (parse_line, stripped, trimmed)
        (rw (parse_stripped, between_enclosed b'[' b']' name)
          (rw (trim-Solid name (raw-Solid name h)) refl))

  pub parse_blank : (st : IniState) (n : ℕ) → parse_line to_lowercase to_uppercase st n [] ≡ ok st
  unfolding parse_line parse_stripped strip_ini_comment trim trim_start trim_end
  parse_blank st n = refl

  -- From one state to another over some lines, each of which is read without an error.
  pub data Reads : IniState → List Text → IniState → Type 0 where
    reads_nothing : {st : IniState} → Reads st [] st
    reads :
        {st st' st'' : IniState} {l : Text} {ls : List Text}
        → ((n : ℕ) → parse_line to_lowercase to_uppercase st n l ≡ ok st')
        → Reads st' ls st''
        → Reads st (l ∷ ls) st''

  pub Reads-append :
      {st st' st'' : IniState} {ls ks : List Text}
      → Reads st ls st'
      → Reads st' ks st''
      → Reads st (ls ++ ks) st''
  Reads-append reads_nothing q = q
  Reads-append (reads step more) q = reads step (Reads-append more q)

  -- The loop over the lines goes the same way.
  pub parse_lines-Reads :
      {st st' : IniState} {ls : List Text} (n : ℕ)
      → Reads st ls st'
      → parse_lines to_lowercase to_uppercase st n ls ≡ ok st'
  unfolding parse_lines
  parse_lines-Reads n reads_nothing = refl
  parse_lines-Reads n (reads step more) = rw (parse_lines, step n) (parse_lines-Reads (n + 1) more)
