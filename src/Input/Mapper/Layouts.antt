-- ===== src/Input/Mapper/Layouts.antt =====
-- Which layouts give each key a code of its own.
use cheirizo.Prelude.{
  ℕ, ◌%◌, ◌<◌, ◌≡◌, ◌∙◌, refl, sym, ap, arith, Bool, true, false, not, ◌&&◌, ◌||◌, ◌==◌, Option,
  none, some, List, [], ◌∷◌, ◌++◌, Text, text_eq, text_eq_sound, Bool-cases, inl, inr, any, all,
  subst,
}
use cheirizo.Prelude.Maps.{lookup}
use cheirizo.Prelude.Strings.{codes}
use cheirizo.Input.Mapper.Tables.{Table, primary_table, layout_tables}
use cheirizo.Input.Mapper.{
  ScancodeMapper, ok, err, unknown_scancode, new_mapper, get, ok_or, or_else, override,
  translate_scancode, set_layout,
}

abbrev has_code : ℕ → Table → Bool
has_code v [] = false
has_code v ((k, w) ∷ t) = w == v || has_code v t

-- No code stands twice.
abbrev one_to_one : Table → Bool
one_to_one [] = true
one_to_one ((k, v) ∷ t) = not (has_code v t) && one_to_one t

-- The entries of a table whose scancode another one does not have.
abbrev add_unless : Option ℕ → ℕ → ℕ → Table → Table
add_unless none k v t = (k, v) ∷ t
add_unless (some w) k v t = t

abbrev behind : Table → Table → Table
behind o [] = []
behind o ((k, v) ∷ t) = add_unless (get k o) k v (behind o t)

get-has_code : (s v : ℕ) (t : Table) → get s t ≡ some v → has_code v t ≡ true
unfolding get
get-has_code s v [] h = absurd (cc)
get-has_code s v ((k, w) ∷ t) h = ground (arith, get-has_code s v t)

get-one_to_one :
    (t : Table) (r s v : ℕ) → one_to_one t ≡ true → get r t ≡ some v → get s t ≡ some v → r ≡ s
unfolding get
get-one_to_one [] r s v h a b = absurd (cc)
get-one_to_one ((k, w) ∷ t) r s v h a b =
    ground (arith, get-has_code r v t, get-has_code s v t, get-one_to_one t r s v)

get-append : (s : ℕ) (o t : Table) → get s (o ++ t) ≡ or_else (get s o) (get s t)
unfolding get
get-append s [] t = refl
get-append s ((k, v) ∷ o) t = ground (arith, get-append s o t)

get-add_unless :
    (r : Option ℕ) (s k v : ℕ) (o b t : Table)
    → get k o ≡ r
    → or_else (get s o) (get s b) ≡ or_else (get s o) (get s t)
    → or_else (get s o) (get s (add_unless r k v b)) ≡ or_else (get s o) (get s ((k, v) ∷ t))
unfolding get
get-add_unless none s k v o b t e h = elim (Bool-cases (k == s)) [
  | inl same ↦ rw same refl
  | inr other ↦ rw other h
]
get-add_unless (some w) s k v o b t e h = elim (Bool-cases (k == s)) [
  | inl same ↦
      let equal : k ≡ s = ground arith in
      let found : get s o ≡ some w = ap (λ (j : ℕ). get j o) (sym equal) ∙ e in rw found refl
  | inr other ↦ rw other h
]

get-behind :
    (s : ℕ) (o t : Table) → or_else (get s o) (get s (behind o t)) ≡ or_else (get s o) (get s t)
unfolding get
get-behind s o [] = refl
get-behind s o ((k, v) ∷ t) =
    get-add_unless (get k o) s k v o (behind o t) t refl (get-behind s o t)

-- The table of a layout, and the entries of the primary one that it leaves.
abbrev overrides : Text → Table
overrides layout = elim (lookup layout layout_tables) [ none ↦ [] | some o ↦ o ]

abbrev effective : Text → Table
effective layout = overrides layout ++ behind (overrides layout) primary_table

abbrev mapper_of : Text → ScancodeMapper
mapper_of layout = set_layout new_mapper layout

override_of :
    (r : Option Table) (s : ℕ)
    → elim r as (λ x. Option ℕ) [ none ↦ none | some o ↦ get s o ]
      ≡ get s (elim r as (λ x. Table) [ none ↦ [] | some o ↦ o ])
unfolding get
override_of none s = refl
override_of (some o) s = refl

get-effective :
    (layout : Text) (s : ℕ)
    → or_else (override (mapper_of layout) s) (get s primary_table) ≡ get s (effective layout)
unfolding override set_layout new_mapper
get-effective layout s =
    ap (λ (r : Option ℕ). or_else r (get s primary_table))
      (override_of (lookup layout layout_tables) s)
    ∙ sym (get-behind s (overrides layout) primary_table)
    ∙ sym (get-append s (overrides layout) (behind (overrides layout) primary_table))

ok_or_found : (r : Option ℕ) (s k : ℕ) → ok_or r s ≡ ok k → r ≡ some k
ok_or_found none s k h = absurd (cc)
ok_or_found (some v) s k h = ground arith

translated_found :
    (layout : Text) (s k : ℕ)
    → s < 65536
    → translate_scancode (mapper_of layout) s false false ≡ ok k
    → get s (effective layout) ≡ some k
unfolding translate_scancode new_mapper set_layout
translated_found layout s k lt h =
    let short : s % 65536 ≡ s = omega arith in
    sym (get-effective layout s)
    ∙ ok_or_found (or_else (override (mapper_of layout) s) (get s primary_table)) s k (
        subst
          (λ (t : ℕ).
            ok_or (or_else (override (mapper_of layout) t) (get t primary_table)) t ≡ ok k)
          short h)

abbrev pub proper_layouts : List Text
proper_layouts =
    codes "us"
    ∷ codes "de"
    ∷ codes "es"
    ∷ codes "pt"
    ∷ codes "it"
    ∷ codes "ch"
    ∷ codes "colemak"
    ∷ []

holds_of_any :
    (f : Text → Bool) (layout : Text) (ls : List Text)
    → all f ls ≡ true
    → any (λ l. text_eq l layout) ls ≡ true
    → f layout ≡ true
holds_of_any f layout [] h e = absurd (cc)
holds_of_any f layout (l ∷ ls) h e = elim (Bool-cases (text_eq l layout)) [
  | inl same ↦ subst (λ (t : Text). f t ≡ true) (text_eq_sound l layout same) (ground arith)
  | inr other ↦ holds_of_any f layout ls (ground arith) (ground arith)
]

proper-one_to_one : all (λ layout. one_to_one (effective layout)) proper_layouts ≡ true
unfolding get lookup text_eq
proper-one_to_one = refl

-- In seven of the layouts, two scancodes of 16 bits without a prefix that translate to the same key code are
-- the same one.
pub translate_scancode_unique :
    (layout : Text) (r s k : ℕ)
    → any (λ l. text_eq l layout) proper_layouts ≡ true
    → r < 65536
    → s < 65536
    → translate_scancode (set_layout new_mapper layout) r false false ≡ ok k
    → translate_scancode (set_layout new_mapper layout) s false false ≡ ok k
    → r ≡ s
translate_scancode_unique layout r s k proper hr hs a b =
    get-one_to_one (effective layout) r s k
      (holds_of_any (λ l. one_to_one (effective l)) layout proper_layouts proper-one_to_one proper)
      (translated_found layout r k hr a) (translated_found layout s k hs b)

-- No scancode of 16 bits has a key with the E1 prefix.
pub e1_unknown :
    (m : ScancodeMapper) (s : ℕ) (extended : Bool)
    → m.e1_map ≡ new_mapper.e1_map
    → s < 65536
    → translate_scancode m s extended true ≡ err (unknown_scancode s)
unfolding translate_scancode new_mapper get
e1_unknown m s extended same lt =
    rw same (let short : s % 65536 ≡ s = omega arith in ground (arith, short))
