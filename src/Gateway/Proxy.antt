-- ===== src/Gateway/Proxy.antt =====
-- gateway/internal/infra/proxy/tcp.go: the check of the target and how a relay ends. Arguments are
-- net.LookupIP and net.ParseIP, the outcome of the dial, and what the two directions of the copy
-- report. An IPv4 address, also one written as IPv6, is `v4` of its bytes.
pub mod Guard
use ztna_project.Base.{
  ℕ, ◌/◌, ◌%◌, Bool, true, false, not, ◌&&◌, ◌||◌, Option, none, some, List, [], ◌∷◌, ltb, ◌==◌,
  if◌then◌else◌, ℤ, pos, is_positive, exceeds, Text, codes, is_empty,
}

pub data Ip : Type 0 where
  v4 : (a b c d : ℕ) → Ip
  v6 : List ℕ → Ip

abbrev all_zero : List ℕ → Bool
all_zero [] = true
all_zero (b ∷ bs) = b == 0 && all_zero bs

abbrev is_one : List ℕ → Bool
is_one [] = false
is_one (b ∷ []) = b == 1
is_one (b ∷ c ∷ bs) = b == 0 && is_one (c ∷ bs)

-- The methods of net.IP.
unfoldable pub is_loopback : Ip → Bool
is_loopback (v4 a b c d) = a == 127
is_loopback (v6 bytes) = is_one bytes

unfoldable pub is_link_local_unicast : Ip → Bool
is_link_local_unicast (v4 a b c d) = a == 169 && b == 254
is_link_local_unicast (v6 (x ∷ y ∷ rest)) = x == 254 && y / 64 == 2
is_link_local_unicast (v6 _) = false

unfoldable pub is_link_local_multicast : Ip → Bool
is_link_local_multicast (v4 a b c d) = a == 224 && b == 0 && c == 0
is_link_local_multicast (v6 (x ∷ y ∷ rest)) = x == 255 && y % 16 == 2
is_link_local_multicast (v6 _) = false

unfoldable pub is_multicast : Ip → Bool
is_multicast (v4 a b c d) = a / 16 == 14
is_multicast (v6 (x ∷ rest)) = x == 255
is_multicast (v6 _) = false

unfoldable pub is_unspecified : Ip → Bool
is_unspecified (v4 a b c d) = a == 0 && b == 0 && c == 0 && d == 0
is_unspecified (v6 bytes) = all_zero bytes

unfoldable pub is_metadata : Ip → Bool
is_metadata (v4 a b c d) = a == 169 && b == 254 && c == 169 && d == 254
is_metadata (v6 _) = false

pub data TargetError : Type 0 where
  empty_host bad_port unresolved loopback link_local multicast unspecified metadata : TargetError

-- One round of the loop over the addresses.
unfoldable pub ip_error : Ip → Option TargetError
unfolding is_loopback is_link_local_unicast is_link_local_multicast is_multicast is_unspecified
    is_metadata
ip_error ip =
    if is_loopback ip
    then some loopback
    else if is_link_local_unicast ip || is_link_local_multicast ip
    then some link_local
    else if is_multicast ip
    then some multicast
    else if is_unspecified ip
    then some unspecified
    else if is_metadata ip
    then some metadata
    else none

abbrev pub or_next : Option TargetError → Option TargetError → Option TargetError
or_next (some e) rest = some e
or_next none rest = rest

unfoldable pub ips_error : List Ip → Option TargetError
unfolding ip_error
ips_error [] = none
ips_error (ip ∷ ips) = or_next (ip_error ip) (ips_error ips)

-- The addresses of a host: those of the lookup, else the one that it spells.
abbrev pub one_of : Option Ip → Option (List Ip)
one_of none = none
one_of (some ip) = some (ip ∷ [])

abbrev pub addresses : (parse_ip : Text → Option Ip) → Text → Option (List Ip) → Option (List Ip)
addresses parse_ip host none = one_of (parse_ip host)
addresses parse_ip host (some ips) = some ips

abbrev pub addresses_error : Option (List Ip) → Option TargetError
addresses_error none = some unresolved
addresses_error (some ips) = ips_error ips

unfoldable pub validate_target :
    (lookup_ip : Text → Option (List Ip))
    → (parse_ip : Text → Option Ip) → (host : Text) → (port : ℤ) → Option TargetError
unfolding ips_error
validate_target lookup_ip parse_ip host port =
    if is_empty host
    then some empty_host
    else if not (is_positive port) || exceeds port 65535
    then some bad_port
    else addresses_error (addresses parse_ip host (lookup_ip host))

-- The context of the session at the end of the relay, and what the first of the two copies reports:
-- its direction, and whether it failed.
pub data ContextState : Type 0 where
  live deadline_exceeded cancelled : ContextState

pub data Direction : Type 0 where
  client_to_target target_to_client : Direction

pub record Copy : Type 0 where
  pub direction : Direction
  pub is_failed : Bool

abbrev broken_by : Direction → Text
broken_by client_to_target = codes "client_close"
broken_by target_to_client = codes "target_close"

unfoldable pub end_reason : ContextState → Copy → Text
end_reason deadline_exceeded first = codes "ttl_expired"
end_reason cancelled first = codes "admin_kill"
end_reason live first = if first.is_failed then broken_by first.direction else codes "normal"

-- TCPProxy.Proxy, so far as its reason goes: the check, the dial, the relay.
unfoldable pub proxy : Option TargetError → (dialled : Bool) → ContextState → Copy → Text
unfolding end_reason
proxy (some e) dialled ctx first = codes "invalid_target"
proxy none dialled ctx first = if dialled then end_reason ctx first else codes "target_unreachable"
