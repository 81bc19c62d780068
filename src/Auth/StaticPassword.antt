-- ===== src/Auth/StaticPassword.antt =====
-- src/auth/static_password.rs. Argon2 is a crate: its parser and its check are parameters. The map
-- of hashes is an association list with one entry for a name.
pub mod Lookup
use cheirizo.Prelude.{
  text_eq, ℕ, Bool, true, false, not, ◌&&◌, ◌||◌, ◌==◌, if◌then◌else◌, Option, none, some, List, [],
  ◌∷◌, all,
}
use cheirizo.Auth.PeerLimit.{PeerGuard, IpAddr, new, set_peer, blocked_for, success, failure, prune}
use cheirizo.Auth.Username.{Name, validate_username, normalize_local_account_name}

pub data CredentialDecision : Type 0 where
  accept reject : CredentialDecision

abbrev pub is_some {ℓ} : {A : Type ℓ} → Option A → Bool
is_some none = false
is_some (some a) = true

pub record StaticPasswordValidator (Hash : Type 0) : Type 0 where
  pub hashes : List (Name × Hash)
  pub peers : PeerGuard

module _ {Hash : Type 0} where
  unfoldable pub get : Name → List (Name × Hash) → Option Hash
  unfolding text_eq
  get user [] = none
  get user ((key, h) ∷ rest) = if text_eq key user then some h else get user rest

  -- `collect` into a map: a later value replaces an earlier one of the same name.
  unfoldable pub insert : Name → Hash → List (Name × Hash) → List (Name × Hash)
  unfolding text_eq
  insert user h [] = (user, h) ∷ []
  insert user h ((key, k) ∷ rest) =
      if text_eq key user then (key, h) ∷ rest else (key, k) ∷ insert user h rest

  unfoldable pub collect : List (Name × Hash) → List (Name × Hash) → List (Name × Hash)
  unfolding insert
  collect [] known = known
  collect ((user, h) ∷ rest) known = collect rest (insert user h known)

  unfoldable pub set_peer_ip : StaticPasswordValidator Hash → IpAddr → StaticPasswordValidator Hash
  set_peer_ip v ip = record v { peers = set_peer v.peers ip }

  unfoldable pub prune_stale_entries :
      StaticPasswordValidator Hash → ℕ → StaticPasswordValidator Hash
  prune_stale_entries v now = record v { peers = prune v.peers now }

module _ {Hash Password : Type 0} (verify_password : Hash → Password → Bool) where
  unfoldable pub is_accepted : List (Name × Hash) → Name → Password → Bool
  is_accepted hashes user password = elim (get user hashes) [
    | none ↦ false
    | some h ↦ verify_password h password
  ]

module _ (is_alphanumeric is_control : ℕ → Bool) where
  abbrev pub is_valid_name : Name → Bool
  is_valid_name user = not (is_some (validate_username is_alphanumeric is_control user))

  -- `none` is any of the errors: no credential, a name or a hash that is refused.
  unfoldable pub new_hashes :
      {Hash : Type 0} → (Hash → Bool) → List (Name × Hash) → Option (StaticPasswordValidator Hash)
  unfolding collect
  new_hashes {Hash} is_argon2id_hash values = elim (collect values []) [
    | [] ↦ none
    | entry ∷ entries ↦
        if all (λ (e : Name × Hash). is_valid_name e.0 && is_argon2id_hash e.1) (entry ∷ entries)
        then some (record { hashes = entry ∷ entries; peers = new })
        else none
  ]

  -- The clock is read twice in a failing call, by `blocked_for` and by `failure`: one value.
  unfoldable pub validate :
      {Hash Password : Type 0}
      → (Hash → Password → Bool)
      → StaticPasswordValidator Hash
      → Name
      → Password
      → ℕ
      → StaticPasswordValidator Hash × CredentialDecision
  unfolding is_accepted
  validate verify_password v username password now =
      let ip = v.peers.current in
      if not (is_valid_name username)
      then (v, reject)
      else if is_some (blocked_for v.peers ip now)
      then (v, reject)
      else if is_accepted verify_password v.hashes (normalize_local_account_name username) password
      then (record v { peers = success v.peers ip }, accept)
      else (record v { peers = failure v.peers ip now }, reject)
