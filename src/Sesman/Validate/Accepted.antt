-- ===== src/Sesman/Validate/Accepted.antt =====
-- What a configuration that validates is.
use cheirizo.Prelude.{
  ℕ, Bool, true, false, not, Option, none, some, List, [], ◌∷◌, All, all, any, Text, text_eq, ◌≡◌,
  ◌↔◌, refl, subst, arith,
}
use cheirizo.Prelude.Strings.{trim}
use cheirizo.Auth.Username.{UsernameError, validate_username}
use cheirizo.Sesman.State.{SesmanConfig, ComponentConfig, SessionState}
use cheirizo.Sesman.Scalars.{is_empty}
use cheirizo.Sesman.Ini.{Result, ok, err, parse_sesman_ini}
use cheirizo.Sesman.Health.{Host, session_status, status_can_serve, state_belongs_to_config}
use cheirizo.Sesman.Health.Serve.{Distinct, Running, status_can_serve-Running}
use cheirizo.Sesman.Validate.{
  ConfigError, is_absolute, validate_components, validate_rest, checked_user, validate, is_none,
  apply_runtime_defaults, loaded, if_valid, load_parsed, load, content,
}

-- A component with a name and a command that are not blank.
abbrev pub Runnable : ComponentConfig → Type 0
Runnable c = (is_empty (trim c.name) ≡ false) × (is_empty (trim c.command) ≡ false)

abbrev Unseen : List Text → List ComponentConfig → Type 0
Unseen seen = All (λ (c : ComponentConfig). any (λ s. text_eq s c.name) seen ≡ false)

Unseen-split :
    (seen : List Text) (name : Text) (cs : List ComponentConfig)
    → Unseen (name ∷ seen) cs
    → (all (λ (d : ComponentConfig). not (text_eq name d.name)) cs ≡ true) × Unseen seen cs
Unseen-split seen name [] h = (refl, tt)
Unseen-split seen name (c ∷ cs) h =
    let (apart, rest) = Unseen-split seen name cs h.1 in
    (ground (arith, h.0), (ground (arith, h.0), rest))

Unseen-join :
    (seen : List Text) (name : Text) (cs : List ComponentConfig)
    → all (λ (d : ComponentConfig). not (text_eq name d.name)) cs ≡ true
    → Unseen seen cs
    → Unseen (name ∷ seen) cs
Unseen-join seen name [] a h = tt
Unseen-join seen name (c ∷ cs) a h =
    (ground (arith, h.0), Unseen-join seen name cs (ground arith) h.1)

validate_components-Sound :
    (seen : List Text) (cs : List ComponentConfig)
    → validate_components seen cs ≡ none
    → All Runnable cs × Distinct cs × Unseen seen cs
unfolding validate_components
validate_components-Sound seen [] h = (tt, tt, tt)
validate_components-Sound seen (c ∷ cs) h =
    let (runnable, distinct, unseen) =
      validate_components-Sound (c.name ∷ seen) cs (ground arith) in
    let (apart, before) = Unseen-split seen c.name cs unseen in
    (((ground arith, ground arith), runnable), (apart, distinct), (ground arith, before))

validate_components-none :
    (seen : List Text) (cs : List ComponentConfig)
    → All Runnable cs
    → Distinct cs
    → Unseen seen cs
    → validate_components seen cs ≡ none
unfolding validate_components
validate_components-none seen [] r d u = refl
validate_components-none seen (c ∷ cs) r d u =
    let rest =
      validate_components-none (c.name ∷ seen) cs r.1 d.1 (Unseen-join seen c.name cs d.0 u.1) in
    rw (r.0.0, u.0, r.0.1) rest

Unseen-nothing : (cs : List ComponentConfig) → Unseen [] cs
Unseen-nothing [] = tt
Unseen-nothing (c ∷ cs) = (refl, Unseen-nothing cs)

module _ (is_alphanumeric is_control : ℕ → Bool) where
  -- What `validate` is to check.
  pub record IsAccepted (c : SesmanConfig) : Type 0 where
    pub session_name : is_empty (trim c.session_name) ≡ false
    pub user_there : is_empty (trim c.user) ≡ false
    pub user_valid : validate_username is_alphanumeric is_control c.user ≡ none
    pub runtime_absolute : is_absolute c.xdg_runtime_dir ≡ true
    pub state_absolute : is_absolute c.state_dir ≡ true
    pub log_absolute : is_absolute c.log_dir ≡ true
    pub some_component : is_none c.components ≡ false
    pub runnable : All Runnable c.components
    pub distinct : Distinct c.components

  checked_user-none :
      (r : Option UsernameError) (rest : Option ConfigError)
      → checked_user is_alphanumeric is_control r rest ≡ none
      → (r ≡ none) × (rest ≡ none)
  checked_user-none none rest h = (refl, h)
  checked_user-none (some e) rest h = absurd (cc)

  validate-checks :
      (c : SesmanConfig)
      → validate is_alphanumeric is_control c ≡ none
      → (is_empty (trim c.session_name) ≡ false)
        × (is_empty (trim c.user) ≡ false)
        × (checked_user is_alphanumeric is_control
              (validate_username is_alphanumeric is_control c.user)
              (validate_rest is_alphanumeric is_control c)
            ≡ none)
  unfolding validate
  validate-checks c h = (ground arith, ground arith, ground arith)

  validate_rest-checks :
      (c : SesmanConfig)
      → validate_rest is_alphanumeric is_control c ≡ none
      → (is_absolute c.xdg_runtime_dir ≡ true)
        × (is_absolute c.state_dir ≡ true)
        × (is_absolute c.log_dir ≡ true)
        × (is_none c.components ≡ false)
        × (validate_components [] c.components ≡ none)
  unfolding validate_rest
  validate_rest-checks c h = (ground arith, ground arith, ground arith, ground arith, ground arith)

  accepted : (c : SesmanConfig) → validate is_alphanumeric is_control c ≡ none → IsAccepted c
  accepted c h =
      let (name, user, checked) = validate-checks c h in
      let (valid, rest) = checked_user-none _ _ checked in
      let (runtime, state, log, there, components) = validate_rest-checks c rest in
      let (runnable, distinct, unseen) = validate_components-Sound [] c.components components in
      record {
        session_name = name;
        user_there = user;
        user_valid = valid;
        runtime_absolute = runtime;
        state_absolute = state;
        log_absolute = log;
        some_component = there;
        runnable = runnable;
        distinct = distinct;
      }

  validated : (c : SesmanConfig) → IsAccepted c → validate is_alphanumeric is_control c ≡ none
  unfolding validate validate_rest
  validated c v =
      let components =
        validate_components-none [] c.components v.runnable v.distinct
          (Unseen-nothing c.components) in
      rw
        (
          v.session_name, v.user_there, v.user_valid, v.runtime_absolute, v.state_absolute,
          v.log_absolute, v.some_component,
        )
        components

  -- A configuration validates exactly when its session name and user are not blank, the user name is valid, the
  -- three directories are absolute, there is a component, no component has a blank name or command, and
  -- no two have one name.
  pub validate-IsAccepted :
      (c : SesmanConfig) → (validate is_alphanumeric is_control c ≡ none) ↔ IsAccepted c
  validate-IsAccepted c = (accepted c, validated c)

  if_valid-loaded :
      (c d : SesmanConfig) (r : Option ConfigError) → if_valid c r ≡ loaded d → (r ≡ none) × (c ≡ d)
  if_valid-loaded c d none h = (refl, ground arith)
  if_valid-loaded c d (some e) h = absurd (cc)

  module _ (to_lowercase to_uppercase : Text → Text) where
    load_parsed-validate :
        (default c : SesmanConfig) (r : Result SesmanConfig)
        → load_parsed is_alphanumeric is_control to_lowercase to_uppercase default r ≡ loaded c
        → validate is_alphanumeric is_control c ≡ none
    load_parsed-validate default c (err e) h = absurd (cc)
    load_parsed-validate default c (ok d) h =
        let (valid, same) = if_valid-loaded (apply_runtime_defaults default d) c _ h in
        subst (λ (e : SesmanConfig). validate is_alphanumeric is_control e ≡ none) same valid

    -- A session of a configuration that was loaded from a file can serve only if there is a registry of this
    -- configuration, user and boot, in which every required component is on record with the configured
    -- command, runs and is ready.
    pub loaded-Running :
        (default c : SesmanConfig) (text : Text) (h : Host) (registry : Option SessionState)
        → load is_alphanumeric is_control to_lowercase to_uppercase default (some (content text))
          ≡ loaded c
        → status_can_serve c (session_status h c registry) ≡ true
        → (s : SessionState) × (registry ≡ some s)
          × (state_belongs_to_config h c s ≡ true)
          × All (λ (d : ComponentConfig). d.required ≡ true → Running h s.components d) c.components
    unfolding load
    loaded-Running default c text h registry from_file serves =
        let valid =
          load_parsed-validate default c (parse_sesman_ini to_lowercase to_uppercase default text)
            from_file in
        status_can_serve-Running h c registry ((validate-IsAccepted c).0 valid).distinct serves
