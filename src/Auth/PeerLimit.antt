-- ===== src/Auth/PeerLimit.antt =====
-- src/auth/peer_limit.rs. Instants and durations are milliseconds, the map is a function of the
-- address, and a call that reads the clock takes its value. The mutexes make each call one step.
pub mod Lockout
use cheirizo.Prelude.{
  ℕ, ◌+◌, ◌-◌, Bool, true, false, ltb, leb, ◌==◌, if◌then◌else◌, Option, none, some,
}
use cheirizo.Prelude.Words.{sat_add8}

pub data IpAddr : Type 0 where
  v4 v6 : ℕ → IpAddr

abbrev pub ip_eq : IpAddr → IpAddr → Bool
ip_eq (v4 a) (v4 b) = a == b
ip_eq (v6 a) (v6 b) = a == b
ip_eq (v4 a) (v6 b) = false
ip_eq (v6 a) (v4 b) = false

pub record Failure : Type 0 where
  pub count : ℕ
  pub at : ℕ

pub record PeerGuard : Type 0 where
  pub current : IpAddr
  pub failures : IpAddr → Option Failure

unfoldable pub new : PeerGuard
new = record { current = v4 0; failures = λ ip. none }

unfoldable pub set_peer : PeerGuard → IpAddr → PeerGuard
set_peer g ip = record g { current = ip }

abbrev pub elapsed : ℕ → ℕ → ℕ
elapsed now at = now - at

-- `Duration::checked_sub`.
abbrev pub checked_sub : ℕ → ℕ → Option ℕ
checked_sub a b = if leb b a then some (a - b) else none

unfoldable pub entry_block : Failure → ℕ → Option ℕ
entry_block e now =
    if leb e.count 3
    then none
    else checked_sub (if e.count == 4 then 5000 else if e.count == 5 then 15000 else 60000)
        (elapsed now e.at)

-- How long the address is still blocked.
unfoldable pub blocked_for : PeerGuard → IpAddr → ℕ → Option ℕ
unfolding entry_block
blocked_for g ip now = elim (g.failures ip) [ none ↦ none | some e ↦ entry_block e now ]

abbrev pub put : PeerGuard → IpAddr → Option Failure → PeerGuard
put g ip e = record g { failures = λ other. if ip_eq ip other then e else g.failures other }

unfoldable pub failure : PeerGuard → IpAddr → ℕ → PeerGuard
failure g ip now =
    let count : ℕ = elim (g.failures ip) [ none ↦ 0 | some e ↦ e.count ] in
    put g ip (some (record { count = sat_add8 count 1; at = now }))

unfoldable pub success : PeerGuard → IpAddr → PeerGuard
success g ip = put g ip none

unfoldable pub prune : PeerGuard → ℕ → PeerGuard
prune g now = record g {
  failures = λ ip. elim (g.failures ip) [
    | none ↦ none
    | some e ↦ if ltb (elapsed now e.at) 120000 then some e else none
  ];
}
