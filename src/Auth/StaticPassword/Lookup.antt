-- ===== src/Auth/StaticPassword/Lookup.antt =====
-- When the validator accepts, what an attempt does to the lockout, and which entries can match.
use cheirizo.Prelude.{
  text_eq, Bool-cases, ℕ, Bool, true, false, none, List, [], ◌∷◌, ◌++◌, ◌≡◌, ◌⊎◌, inl, inr, refl,
  arith,
}
use cheirizo.Auth.PeerLimit.{blocked_for, failure}
use cheirizo.Auth.Username.{Name, backslash, at_sign, normalize_local_account_name}
use cheirizo.Auth.Username.Local.{Free, normalize-Free}
use cheirizo.Auth.StaticPassword.{
  StaticPasswordValidator, CredentialDecision, reject, is_some, is_valid_name, is_accepted,
  validate, get,
}

text_eq-Free : (sep : ℕ) (s t : Name) → text_eq s t ≡ true → Free sep t → Free sep s
unfolding text_eq
text_eq-Free sep [] [] e h = refl
text_eq-Free sep (c ∷ s) (d ∷ t) e h = ground (arith, text_eq-Free sep s t)
text_eq-Free sep [] (d ∷ t) e h = refl
text_eq-Free sep (c ∷ s) [] e h = absurd (cc)

module _ {Hash Password : Type 0} (is_alphanumeric is_control : ℕ → Bool)
    (verify_password : Hash → Password → Bool) (v : StaticPasswordValidator Hash) (username : Name)
    (password : Password) (now : ℕ) where
  abbrev outcome : StaticPasswordValidator Hash × CredentialDecision
  outcome = validate is_alphanumeric is_control verify_password v username password now

  abbrev matches : Bool
  matches = is_accepted verify_password v.hashes (normalize_local_account_name username) password

  -- A rejection has one of three reasons. An invalid name and a blocked peer change nothing, so
  -- such an attempt neither lengthens nor ends a lockout; wrong credentials of a peer that is not
  -- blocked put one more failure on record.
  pub validate_rejects :
      outcome.1 ≡ reject
      → ((is_valid_name is_alphanumeric is_control username ≡ false) × (outcome.0 ≡ v))
        ⊎ ((is_some (blocked_for v.peers v.peers.current now) ≡ true) × (outcome.0 ≡ v))
        ⊎ ((is_valid_name is_alphanumeric is_control username ≡ true)
            × (blocked_for v.peers v.peers.current now ≡ none)
            × (matches ≡ false)
            × (outcome.0 ≡ record v { peers = failure v.peers v.peers.current now }))
  unfolding validate
  validate_rejects h = ground arith

module _ {Hash : Type 0} where
  get-Free :
      (sep : ℕ) (key user : Name) (h : Hash) (rest : List (Name × Hash))
      → Free sep user
      → ¬ Free sep key
      → get user ((key, h) ∷ rest) ≡ get user rest
  unfolding get
  get-Free sep key user h rest free named = elim (Bool-cases (text_eq key user)) [
    | inl same ↦ absurd (named (text_eq-Free sep key user same free))
    | inr other ↦ rw other
  ]

  get-before :
      (user : Name) (before rest rest' : List (Name × Hash))
      → get user rest ≡ get user rest'
      → get user (before ++ rest) ≡ get user (before ++ rest')
  unfolding get
  get-before user [] rest rest' e = e
  get-before user ((key, h) ∷ before) rest rest' e = rw (get-before user before rest rest' e)

  -- An entry whose name has a domain or a realm part is never looked up: dropping it from the map
  -- changes what no user name finds.
  pub qualified_entry_unused :
      (key username : Name) (h : Hash) (before rest : List (Name × Hash))
      → (¬ Free backslash key) ⊎ (¬ Free at_sign key)
      → get (normalize_local_account_name username) (before ++ (key, h) ∷ rest)
        ≡ get (normalize_local_account_name username) (before ++ rest)
  qualified_entry_unused key username h before rest (inl named) =
      get-before (normalize_local_account_name username) before ((key, h) ∷ rest) rest (
        get-Free backslash key (normalize_local_account_name username) h rest
          (normalize-Free username).0 named)
  qualified_entry_unused key username h before rest (inr named) =
      get-before (normalize_local_account_name username) before ((key, h) ∷ rest) rest (
        get-Free at_sign key (normalize_local_account_name username) h rest
          (normalize-Free username).1 named)
