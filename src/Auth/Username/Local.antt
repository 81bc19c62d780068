-- ===== src/Auth/Username/Local.antt =====
-- The local account name that later code sees.
use cheirizo.Prelude.{
  ℕ, Bool, true, false, not, ◌==◌, none, some, [], ◌∷◌, ◌++◌, all, ◌≡◌, ◌≢◌, refl, arith,
}
use cheirizo.Auth.Username.{
  Name, backslash, at_sign, after_last, before_first, or_whole, normalize_local_account_name,
  is_empty, is_account_char, is_allowed, validate_username,
}

abbrev pub Free : ℕ → Name → Type 0
Free sep s = all (λ c. not (c == sep)) s ≡ true

after_last-Free : (sep : ℕ) (s : Name) → Free sep (or_whole (after_last sep s) s)
unfolding after_last
after_last-Free sep [] = refl
after_last-Free sep (c ∷ s) = ground (arith, after_last-Free sep s)

before_first-Free : (sep : ℕ) (s : Name) → Free sep (or_whole (before_first sep s) s)
unfolding before_first
before_first-Free sep [] = refl
before_first-Free sep (c ∷ s) = ground (arith, before_first-Free sep s)

after_last-none : (sep : ℕ) (s : Name) → Free sep s → after_last sep s ≡ none
unfolding after_last
after_last-none sep [] h = refl
after_last-none sep (c ∷ s) h = ground (arith, after_last-none sep s)

before_first-none : (sep : ℕ) (s : Name) → Free sep s → before_first sep s ≡ none
unfolding before_first
before_first-none sep [] h = refl
before_first-none sep (c ∷ s) h = ground (arith, before_first-none sep s)

after_last-append :
    (sep : ℕ) (domain s : Name) → Free sep s → after_last sep (domain ++ sep ∷ s) ≡ some s
unfolding after_last
after_last-append sep [] s h = ground (arith, after_last-none sep s)
after_last-append sep (c ∷ domain) s h = ground (arith, after_last-append sep domain s)

before_first-append :
    (sep : ℕ) (s realm : Name) → Free sep s → before_first sep (s ++ sep ∷ realm) ≡ some s
unfolding before_first
before_first-append sep [] realm h = ground arith
before_first-append sep (c ∷ s) realm h = ground (arith, before_first-append sep s realm)

Free-append : (sep x : ℕ) (s t : Name) → Free sep s → Free sep t → sep ≢ x → Free sep (s ++ x ∷ t)
Free-append sep x [] t h k ne = ground arith
Free-append sep x (c ∷ s) t h k ne = ground (arith, Free-append sep x s t)

-- A property of every character passes to the parts.
after_last-all :
    (p : ℕ → Bool) (sep : ℕ) (s : Name)
    → all p s ≡ true
    → all p (or_whole (after_last sep s) s) ≡ true
unfolding after_last
after_last-all p sep [] h = refl
after_last-all p sep (c ∷ s) h = ground (arith, after_last-all p sep s)

before_first-all :
    (p : ℕ → Bool) (sep : ℕ) (s : Name)
    → all p s ≡ true
    → all p (or_whole (before_first sep s) s) ≡ true
unfolding before_first
before_first-all p sep [] h = refl
before_first-all p sep (c ∷ s) h = ground (arith, before_first-all p sep s)

pub normalize-all :
    (p : ℕ → Bool) (u : Name) → all p u ≡ true → all p (normalize_local_account_name u) ≡ true
unfolding normalize_local_account_name
normalize-all p u h =
    before_first-all p at_sign (or_whole (after_last backslash u) u)
      (after_last-all p backslash u h)

pub normalize-Free :
    (u : Name)
    → Free backslash (normalize_local_account_name u)
      × Free at_sign (normalize_local_account_name u)
unfolding normalize_local_account_name
normalize-Free u =
    let local = or_whole (after_last backslash u) u in
    (
      before_first-all (λ c. not (c == backslash)) at_sign local (after_last-Free backslash u),
      before_first-Free at_sign local,
    )

-- Normalising a name twice is normalising it once, and a domain and a realm around a plain user
-- name are taken off: `DOMAIN\user`, `user@realm` and `DOMAIN\user@realm` all give `user`.
pub normalize_forms :
    (domain user realm : Name)
    → Free backslash user
    → Free at_sign user
    → Free backslash realm
    → (normalize_local_account_name (domain ++ backslash ∷ user) ≡ user)
      × (normalize_local_account_name (user ++ at_sign ∷ realm) ≡ user)
      × (normalize_local_account_name (domain ++ backslash ∷ (user ++ at_sign ∷ realm)) ≡ user)
      × (normalize_local_account_name user ≡ user)
unfolding normalize_local_account_name
normalize_forms domain user realm nb na nr =
    let nur = Free-append backslash at_sign user realm nb nr (omega arith) in
    (
      ground (arith, after_last-append backslash domain user nb, before_first-none at_sign user na),
      ground (
        arith,
        after_last-none backslash (user ++ at_sign ∷ realm) nur,
        before_first-append at_sign user realm na,
      ),
      ground (
        arith,
        after_last-append backslash domain (user ++ at_sign ∷ realm) nur,
        before_first-append at_sign user realm na,
      ),
      ground (arith, after_last-none backslash user nb, before_first-none at_sign user na),
    )

pub normalize_idempotent :
    (u : Name)
    → normalize_local_account_name (normalize_local_account_name u) ≡ normalize_local_account_name u
normalize_idempotent u =
    let (nb, na) = normalize-Free u in
    (normalize_forms [] (normalize_local_account_name u) [] nb na refl).3

module _ (is_alphanumeric : ℕ → Bool) where
  account_chars :
      (s : Name)
      → all (is_allowed is_alphanumeric) s ≡ true
      → Free backslash s
      → Free at_sign s
      → all (is_account_char is_alphanumeric) s ≡ true
  account_chars [] h nb na = refl
  account_chars (c ∷ s) h nb na = ground (arith, account_chars s)

module _ (is_alphanumeric is_control : ℕ → Bool) where
  valid_parts :
      (u : Name)
      → validate_username is_alphanumeric is_control u ≡ none
      → (all (is_allowed is_alphanumeric) u ≡ true)
        × (is_empty (normalize_local_account_name u) ≡ false)
  unfolding validate_username
  valid_parts u h = ground arith

  -- Of a name that validates, the local account name is not empty and consists of alphanumeric
  -- characters, `_`, `-` and `.` alone, whatever the character classes are.
  pub validate_username_safe :
      (u : Name)
      → validate_username is_alphanumeric is_control u ≡ none
      → (is_empty (normalize_local_account_name u) ≡ false)
        × (all (is_account_char is_alphanumeric) (normalize_local_account_name u) ≡ true)
  validate_username_safe u h =
      let (allowed, some_account) = valid_parts u h in
      let (nb, na) = normalize-Free u in
      (
        some_account,
        account_chars is_alphanumeric (normalize_local_account_name u)
            (normalize-all (is_allowed is_alphanumeric) u allowed) nb na,
      )
