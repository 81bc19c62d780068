-- ===== src/Auth/PeerLimit/Lockout.antt =====
-- How failures add up to a lockout, and what leaves one alone.
use cheirizo.Prelude.{
  ℕ, ◌+◌, ◌≤◌, min, true, false, leb, ◌==◌, if◌then◌else◌, Option, none, some, List, [], ◌∷◌,
  length, ◌≡◌, refl, arith,
}
use cheirizo.Auth.PeerLimit.{
  IpAddr, v4, v6, ip_eq, PeerGuard, elapsed, checked_sub, blocked_for, failure, success, prune,
  set_peer,
}

pub ip_eq_self : (ip : IpAddr) → ip_eq ip ip ≡ true
ip_eq_self (v4 a) = ground arith
ip_eq_self (v6 a) = ground arith

-- Failures of one address at the given times, the first one first.
abbrev pub fail_all : PeerGuard → IpAddr → List ℕ → PeerGuard
fail_all g ip [] = g
fail_all g ip (t ∷ ts) = fail_all (failure g ip t) ip ts

abbrev pub last_of : ℕ → List ℕ → ℕ
last_of t [] = t
last_of t (u ∷ ts) = last_of u ts

-- The lockout ladder, by the number of failures and the time since the last one.
abbrev pub penalty : ℕ → ℕ → Option ℕ
penalty n since =
    if leb n 3
    then none
    else if n == 4
    then checked_sub 5000 since
    else if n == 5
    then checked_sub 15000 since
    else checked_sub 60000 since

fail_all_entry :
    (g : PeerGuard) (ip : IpAddr) (c a : ℕ) (ts : List ℕ)
    → c ≤ 255
    → g.failures ip ≡ some (record { count = c; at = a })
    → (fail_all g ip ts).failures ip
      ≡ some (record { count = min (c + length ts) 255; at = last_of a ts })
fail_all_entry g ip c a [] fits e = ground arith
fail_all_entry g ip c a (t ∷ ts) fits e =
    let counted : (failure g ip t).failures ip ≡ some (record { count = min (c + 1) 255; at = t }) =
      (unfold failure in ground (arith, ip_eq_self ip)) in
    ground (arith, fail_all_entry (failure g ip t) ip (min (c + 1) 255) t ts (omega arith) counted)

-- Of an address with no failures on record, any number of failures, however many, blocks it by the
-- ladder: not at all up to three, then 5, 15 and 60 seconds from the last failure.
pub blocked_for-fail_all :
    (g : PeerGuard) (ip : IpAddr) (t : ℕ) (ts : List ℕ) (now : ℕ)
    → g.failures ip ≡ none
    → blocked_for (fail_all g ip (t ∷ ts)) ip now
      ≡ penalty (length (t ∷ ts)) (elapsed now (last_of t ts))
unfolding blocked_for
blocked_for-fail_all g ip t ts now e =
    let counted : (failure g ip t).failures ip ≡ some (record { count = 1; at = t }) =
      (unfold failure in ground (arith, ip_eq_self ip)) in
    ground (arith, fail_all_entry (failure g ip t) ip 1 t ts (omega arith) counted)

-- What the calls for one address change for another: nothing; and a success or a prune never
-- blocks, while a prune changes no lockout of any address.
pub lockout_isolated :
    (g : PeerGuard) (ip other : IpAddr) (t now : ℕ)
    → ip_eq ip other ≡ false
    → (blocked_for (failure g ip t) other now ≡ blocked_for g other now)
      × (blocked_for (success g ip) other now ≡ blocked_for g other now)
      × (blocked_for (success g ip) ip now ≡ none)
      × (blocked_for (set_peer g ip) other now ≡ blocked_for g other now)
unfolding blocked_for failure success set_peer
lockout_isolated g ip other t now apart =
    (ground arith, ground arith, ground (arith, ip_eq_self ip), refl)

-- Pruning drops only entries whose lockout is over: at that time and at any later one, it changes
-- the lockout of no address.
pub blocked_for-prune :
    (g : PeerGuard) (ip : IpAddr) (now later : ℕ)
    → now ≤ later
    → blocked_for (prune g now) ip later ≡ blocked_for g ip later
unfolding blocked_for prune
blocked_for-prune g ip now later h = ground arith
