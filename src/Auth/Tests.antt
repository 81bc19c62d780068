-- ===== src/Auth/Tests.antt =====
-- Runs of the authentication: lockouts, account names and credentials.
use cheirizo.Prelude.{text_eq, ℕ, Bool, ◌&&◌, ◌==◌, leb, ltb, none, some, [], ◌∷◌, ◌++◌, ◌≡◌, refl}
use cheirizo.Auth.PeerLimit.{IpAddr, v4, new, blocked_for}
use cheirizo.Auth.PeerLimit.Lockout.{fail_all, blocked_for-fail_all}
use cheirizo.Auth.Username.{
  Name, at_sign, normalize_local_account_name, validate_username, after_last, before_first,
}
use cheirizo.Auth.StaticPassword.{StaticPasswordValidator, reject, validate, get, is_accepted}

abbrev home : IpAddr
home = v4 2130706433

abbrev away : IpAddr
away = v4 167772161

-- Four failures, the last at 40 ms: blocked for five seconds from then.
blocked_for-fail_all_example :
    blocked_for (fail_all new home (10 ∷ 20 ∷ 30 ∷ 40 ∷ [])) home 1040 ≡ some 4000
blocked_for-fail_all_example =
    blocked_for-fail_all new home 10 (20 ∷ 30 ∷ 40 ∷ []) 1040 (unfold new in refl)

-- `ann`, `CORP` and `lab`.
abbrev ann : Name
ann = 97 ∷ 110 ∷ 110 ∷ []

abbrev corp : Name
corp = 67 ∷ 79 ∷ 82 ∷ 80 ∷ []

abbrev lab : Name
lab = 108 ∷ 97 ∷ 98 ∷ []

-- The letters, and the control characters, of ASCII.
abbrev is_letter : ℕ → Bool
is_letter c = leb 97 c && leb c 122

abbrev is_low : ℕ → Bool
is_low c = ltb c 32

ann_at_lab : validate_username is_letter is_low (ann ++ at_sign ∷ lab) ≡ none
unfolding validate_username normalize_local_account_name after_last before_first
ann_at_lab = refl

-- Hashes that are the passwords.
abbrev same : ℕ → ℕ → Bool
same h p = h == p

abbrev validator : StaticPasswordValidator ℕ
validator = record { hashes = (ann, 7) ∷ []; peers = new }

wrong_password : (validate is_letter is_low same validator ann 8 100).1 ≡ reject
unfolding validate validate_username normalize_local_account_name after_last before_first
    blocked_for new is_accepted get text_eq
wrong_password = refl
