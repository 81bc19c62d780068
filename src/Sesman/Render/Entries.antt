-- ===== src/Sesman/Render/Entries.antt =====
-- What one entry of a component does to the state of the parser.
use cheirizo.Prelude.{
  ℕ, zero, suc, ◌≡◌, ◌∙◌, refl, ap, arith, none, some, List, [], ◌∷◌, ◌++◌, Text, text_eq, length,
}
use cheirizo.Prelude.Sorted.{put, Before, put-last, find-last, find-snoc, put-snoc}
use cheirizo.Prelude.Strings.{codes}
use cheirizo.Sesman.State.{SesmanConfig, ComponentConfig}
use cheirizo.Sesman.Ini.{
  IniState, ok, apply_entry, apply_component_key, component_entry, empty_component, behind,
  trim_start_matches, starts_with, section_name, set_in_component, set_component_env, map_result,
  with_component, component_with_env,
}
use cheirizo.Sesman.Render.Sections.{state_at}

behind-append : (p s : Text) → behind p (p ++ s) ≡ some s
unfolding behind text_eq
behind-append [] s = refl
behind-append (c ∷ p) s = ground (arith, behind-append p s)

trim_start_matches-none :
    (fuel : ℕ) (prefix s : Text) → behind prefix s ≡ none → trim_start_matches fuel prefix s ≡ s
unfolding trim_start_matches
trim_start_matches-none zero prefix s h = refl
trim_start_matches-none (suc fuel) prefix s h = rw (trim_start_matches, h) refl

trim_start_matches_once :
    (fuel : ℕ) (prefix s : Text)
    → behind prefix s ≡ none
    → trim_start_matches (suc fuel) prefix (prefix ++ s) ≡ s
unfolding trim_start_matches
trim_start_matches_once fuel prefix s h =
    rw (trim_start_matches, behind-append prefix s) (trim_start_matches-none fuel prefix s h)

abbrev pub component_section : Text → Text
component_section name = codes "component:" ++ name

abbrev pub env_section : Text → Text
env_section name = codes "component_env:" ++ name

section_name-component :
    (c : SesmanConfig) (m : List (Text × ComponentConfig)) (name : Text)
    → behind (codes "component:") name ≡ none
    → section_name (codes "component:") (state_at c (component_section name) m) ≡ name
unfolding section_name
section_name-component c m name h =
    trim_start_matches_once (length (codes "omponent:" ++ name)) (codes "component:") name h

section_name-env :
    (c : SesmanConfig) (m : List (Text × ComponentConfig)) (name : Text)
    → behind (codes "component_env:") name ≡ none
    → section_name (codes "component_env:") (state_at c (env_section name) m) ≡ name
unfolding section_name
section_name-env c m name h =
    trim_start_matches_once (length (codes "omponent_env:" ++ name)) (codes "component_env:") name h

-- An entry of a component, given what the map had and has for it.
set_in_component_of :
    (st : IniState) (m : List (Text × ComponentConfig)) (name key v : Text) (n : ℕ)
    (a d : ComponentConfig)
    → component_entry name st.components ≡ a
    → apply_component_key a key v n ≡ ok d
    → put name d st.components ≡ m
    → set_in_component st name key v n ≡ ok (record st { components = m })
unfolding set_in_component
set_in_component_of st m name key v n a d had made has =
    ap
      (λ (b : ComponentConfig). map_result (with_component st name) (apply_component_key b key v n))
      had
    ∙ ap (map_result (with_component st name)) made
    ∙ ap (λ (l : List (Text × ComponentConfig)). ok (record st { components = l })) has

component_entry-first :
    (x : Text) (m : List (Text × ComponentConfig))
    → Before x m
    → component_entry x m ≡ empty_component x
unfolding component_entry
component_entry-first x m last = rw (component_entry, find-last x m last) refl

component_entry-later :
    (x : Text) (a : ComponentConfig) (m : List (Text × ComponentConfig))
    → Before x m
    → component_entry x (m ++ (x, a) ∷ []) ≡ a
unfolding component_entry
component_entry-later x a m last = rw (component_entry, find-snoc x a m last) refl

module _ (to_lowercase to_uppercase : Text → Text) where
  entry_of_component :
      (c : SesmanConfig) (m : List (Text × ComponentConfig)) (name key v : Text) (n : ℕ)
      → apply_entry to_lowercase to_uppercase (state_at c (component_section name) m) key v n
        ≡ set_in_component
            (state_at c (component_section name) m)
            (section_name (codes "component:") (state_at c (component_section name) m))
            key
            v
            n
  unfolding apply_entry text_eq starts_with behind
  entry_of_component c m name key v n = refl

  entry_of_env :
      (c : SesmanConfig) (m : List (Text × ComponentConfig)) (name key v : Text) (n : ℕ)
      → apply_entry to_lowercase to_uppercase (state_at c (env_section name) m) key v n
        ≡ ok (
            set_component_env
              (state_at c (env_section name) m)
              (section_name (codes "component_env:") (state_at c (env_section name) m))
              (to_uppercase key)
              v)
  unfolding apply_entry text_eq starts_with behind
  entry_of_env c m name key v n = refl

  module _ (c : SesmanConfig) (m : List (Text × ComponentConfig)) (x : Text)
      (once : behind (codes "component:") x ≡ none) (last : Before x m) where
    -- The first entry of a component adds it behind the others.
    pub first_entry :
        (d : ComponentConfig) (key v : Text) (n : ℕ)
        → apply_component_key (empty_component x) key v n ≡ ok d
        → apply_entry to_lowercase to_uppercase (state_at c (component_section x) m) key v n
          ≡ ok (state_at c (component_section x) (m ++ (x, d) ∷ []))
    first_entry d key v n e =
        entry_of_component c m x key v n
        ∙ ap (λ (name : Text). set_in_component (state_at c (component_section x) m) name key v n)
            (section_name-component c m x once)
        ∙ set_in_component_of (state_at c (component_section x) m) _ x key v n (empty_component x) d
            (component_entry-first x m last) e (put-last x d m last)

    pub later_entry :
        (a d : ComponentConfig) (key v : Text) (n : ℕ)
        → apply_component_key a key v n ≡ ok d
        → apply_entry to_lowercase to_uppercase
            (state_at c (component_section x) (m ++ (x, a) ∷ []))
            key
            v
            n
          ≡ ok (state_at c (component_section x) (m ++ (x, d) ∷ []))
    later_entry a d key v n e =
        let with_a = m ++ (x, a) ∷ [] in
        entry_of_component c with_a x key v n
        ∙ ap
            (λ (name : Text).
              set_in_component (state_at c (component_section x) with_a) name key v n)
            (section_name-component c with_a x once)
        ∙ set_in_component_of (state_at c (component_section x) with_a) _ x key v n a d
            (component_entry-later x a m last) e (put-snoc x d a m last)

    pub later_variable :
        (a : ComponentConfig) (key v : Text) (n : ℕ)
        → behind (codes "component_env:") x ≡ none
        → apply_entry to_lowercase to_uppercase
            (state_at c (env_section x) (m ++ (x, a) ∷ []))
            key
            v
            n
          ≡ ok (
              state_at c
                (env_section x)
                (m ++ (x, record a { env = put (to_uppercase key) v a.env }) ∷ []))
    unfolding set_component_env
    later_variable a key v n env_once =
        let with_a = m ++ (x, a) ∷ [] in
        let st = state_at c (env_section x) with_a in
        let set : ComponentConfig → ComponentConfig =
          λ d. component_with_env d (to_uppercase key) v in
        entry_of_env c with_a x key v n
        ∙ ap (λ (name : Text). ok (set_component_env st name (to_uppercase key) v))
            (section_name-env c with_a x env_once)
        ∙ ap (λ (d : ComponentConfig). ok (with_component st x (set d)))
            (component_entry-later x a m last)
        ∙ ap (λ (l : List (Text × ComponentConfig)). ok (record st { components = l }))
            (put-snoc x (set a) a m last)
