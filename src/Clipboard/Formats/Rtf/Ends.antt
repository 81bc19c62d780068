-- ===== src/Clipboard/Formats/Rtf/Ends.antt =====
-- The reader ends on every text, and more rounds change nothing.
use cheirizo.Prelude.{
  ℕ, zero, suc, ◌+◌, ◌≤◌, ◌≡◌, ◌∙◌, sym, subst, refl, ap, arith, Bool, true, false, not, ◌&&◌, ◌||◌,
  ltb, leb, ◌==◌, if◌then◌else◌, Option, none, some, [], ◌∷◌, ◌++◌, length, any, drop, Text,
  text_eq, Bool-cases, inl, inr,
}
use cheirizo.Prelude.Int.{ℤ}
use cheirizo.Prelude.Strings.{codes}
use cheirizo.Clipboard.Formats.Rtf.{
  Reader, is_alpha, is_digit, span, drop_one, parameter, skip_destinations, replacement,
}
use cheirizo.Clipboard.Formats.Rtf.Rounds.{
  Round, escaped, unicode, obey, is_some, control, control_word, skip_escape, round, behind_text,
  run_rounds,
}

span-length : (p : ℕ → Bool) (s : Text) → length (span p s).1 ≤ length s
unfolding span
span-length p [] = omega arith
span-length p (c ∷ s) = ground (arith, span-length p s)

drop_one-length : (q : ℕ) (s : Text) → length (drop_one q s) ≤ length s
drop_one-length q [] = omega arith
drop_one-length q (c ∷ s) = ground arith

drop-length : (n : ℕ) (s : Text) → length (drop n s) ≤ length s
drop-length zero s = omega arith
drop-length (suc n) [] = omega arith
drop-length (suc n) (c ∷ s) = omega (arith, drop-length n s)

-- A round that leaves no more than so many characters.
abbrev Leaves : ℕ → Round → Type 0
Leaves n x = length x.2 ≤ n

either : (b : Bool) (n : ℕ) (x y : Round) → Leaves n x → Leaves n y → Leaves n (if b then x else y)
either true n x y h k = h
either false n x y h k = k

parameter-length : (s : Text) → length (parameter s).1 ≤ length s
unfolding parameter
parameter-length [] = omega arith
parameter-length (c ∷ s) = elim (Bool-cases (c == b'-')) [
  | inl e ↦ rw e (omega (arith, span-length is_digit s))
  | inr e ↦ rw e (span-length is_digit (c ∷ s))
]

unicode-Leaves : (r : Reader) (value : Option ℤ) (s : Text) → Leaves (length s) (unicode r value s)
unicode-Leaves r none s = omega arith
unicode-Leaves r (some z) s = omega arith

escaped-Leaves : (r : Reader) (s : Text) → Leaves (length s) (escaped r s)
unfolding escaped
escaped-Leaves r [] = omega arith
escaped-Leaves r (c ∷ s) = either (c == b'\\' || c == b'{' || c == b'}') _ _ _ (omega arith) (
    either (c == b'\'') _ _ _ (omega (arith, drop-length 2 s))
      (either (c == b'*') _ _ _ (omega arith) (omega arith)))

obey-Leaves :
    (r : Reader) (word : Text) (value : Option ℤ) (s : Text)
    → Leaves (length s) (obey r word value s)
unfolding obey
obey-Leaves r word value s =
    let same : length s ≤ length s = omega arith in
    either (text_eq word (codes "par") || text_eq word (codes "line")) _ _ _ same (
      either (text_eq word (codes "tab")) _ _ _ same (
        either (text_eq word (codes "uc")) _ _ _ same (
          either (text_eq word (codes "u")) _ _ _ (unicode-Leaves r value s)
            (either (text_eq word []) _ _ _ (escaped-Leaves r s) same))))

control-Leaves :
    (r : Reader) (word : Text) (value : Option ℤ) (s : Text)
    → Leaves (length s) (control r word value s)
unfolding control
control-Leaves r word value s =
    let same : length s ≤ length s = omega arith in
    either (any (text_eq word) skip_destinations) _ _ _ same
      (either (is_some r.skip_depth) _ _ _ same (obey-Leaves r word value s))

control_word-Leaves : (r : Reader) (s : Text) → Leaves (length s) (control_word r s)
unfolding control_word
control_word-Leaves r s =
    let word = span is_alpha s in
    let value = parameter word.1 in
    omega (
      arith,
      span-length is_alpha s,
      parameter-length word.1,
      drop_one-length b' ' value.1,
      control-Leaves r word.0 value.0 (drop_one b' ' value.1),
    )

skip_escape-length : (s : Text) → length (skip_escape s) ≤ length s
unfolding skip_escape
skip_escape-length [] = omega arith
skip_escape-length (e ∷ s) = elim (Bool-cases (e == b'\'')) [
  | inl q ↦ rw q (omega (arith, drop-length 2 s))
  | inr q ↦ rw q (elim (Bool-cases (is_alpha e)) [
    | inl a ↦
        let after : Text = (span is_alpha s).1 in
        let number : Text = (span is_digit (drop_one b'-' after)).1 in
        rw a (
          omega (
            arith,
            span-length is_alpha s,
            drop_one-length b'-' after,
            span-length is_digit (drop_one b'-' after),
            drop_one-length b' ' number,
          ))
    | inr a ↦ rw a (omega arith)
  ])
]

fallback-length : (c : ℕ) (s : Text) → length (if c == b'\\' then skip_escape s else s) ≤ length s
fallback-length c s = ground (arith, skip_escape-length s)

round-Leaves : (r : Reader) (c : ℕ) (s : Text) → Leaves (length s) (round r c s)
unfolding round
round-Leaves r c s =
    let same : length s ≤ length s = omega arith in
    either (ltb 0 r.fallback_chars_to_skip) _ _ _ (fallback-length c s) (
      either (c == b'{') _ _ _ same (
        either (c == b'}') _ _ _ same (
          either (c == b'\\') _ _ _ (control_word-Leaves r s)
            (either (leb 32 c && not (is_some r.skip_depth)) _ _ _ same same))))

-- As many rounds as there are characters are enough.
pub run_rounds_ends :
    (fuel : ℕ) (r : Reader) (s : Text)
    → length s ≤ fuel
    → (t : Text) × (run_rounds fuel r s ≡ some t)
unfolding run_rounds
run_rounds_ends fuel r [] h = (replacement r.pending_high_surrogate, refl)
run_rounds_ends zero r (c ∷ s) h = absurd (omega arith)
run_rounds_ends (suc fuel) r (c ∷ s) h =
    let next = round r c s in
    let rest = run_rounds_ends fuel next.1 next.2 (omega (arith, round-Leaves r c s)) in
    (next.0 ++ rest.0, ap (behind_text next.0) rest.1)

behind_text-some :
    (out : Text) (o : Option Text) (t : Text)
    → behind_text out o ≡ some t
    → (u : Text) × (o ≡ some u) × (t ≡ out ++ u)
behind_text-some out none t e = absurd (cc)
behind_text-some out (some u) t e = (u, refl, cc)

-- What some number of rounds reads, a larger number reads.
pub run_rounds_more :
    (fuel more : ℕ) (r : Reader) (s t : Text)
    → fuel ≤ more
    → run_rounds fuel r s ≡ some t
    → run_rounds more r s ≡ some t
unfolding run_rounds
run_rounds_more fuel more r [] t h e = e
run_rounds_more zero more r (c ∷ s) t h e = absurd (cc)
run_rounds_more (suc fuel) zero r (c ∷ s) t h e = absurd (omega arith)
run_rounds_more (suc fuel) (suc more) r (c ∷ s) t h e =
    let next = round r c s in
    let read = behind_text-some next.0 (run_rounds fuel next.1 next.2) t e in
    ap (behind_text next.0) (run_rounds_more fuel more next.1 next.2 read.0 (omega arith) read.1)
    ∙ ap some (sym read.2)

-- A reading: some number of rounds gives the text.
abbrev pub Reads : Reader → Text → Text → Type 0
Reads r s t = (fuel : ℕ) × (run_rounds fuel r s ≡ some t)

-- Then as many rounds as there are characters give it.
pub Reads-length : (r : Reader) (s t : Text) → Reads r s t → run_rounds (length s) r s ≡ some t
Reads-length r s t (fuel, e) =
    let ended = run_rounds_ends (length s) r s (omega arith) in
    let most : ℕ = fuel + length s in
    let same : some t ≡ some ended.0 =
      sym (run_rounds_more fuel most r s t (omega arith) e)
      ∙ run_rounds_more (length s) most r s ended.0 (omega arith) ended.1 in
    ended.1 ∙ sym same

pub Reads-end : (r : Reader) → r.pending_high_surrogate ≡ none → Reads r [] []
unfolding run_rounds
Reads-end r h = (0, rw h refl)

Reads-round :
    (r : Reader) (c : ℕ) (s t : Text)
    → Reads (round r c s).1 (round r c s).2 t
    → Reads r (c ∷ s) ((round r c s).0 ++ t)
unfolding run_rounds
Reads-round r c s t (fuel, e) = (suc fuel, ap (behind_text (round r c s).0) e)

pub Reads-step :
    (r : Reader) (c : ℕ) (s : Text) (next : Round) (t : Text)
    → round r c s ≡ next
    → Reads next.1 next.2 t
    → Reads r (c ∷ s) (next.0 ++ t)
Reads-step r c s next t e reads =
    subst (λ x. Reads r (c ∷ s) (x.0 ++ t)) e
      (Reads-round r c s t (subst (λ x. Reads x.1 x.2 t) (sym e) reads))
