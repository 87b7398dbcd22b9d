-- ===== src/Gateway/Proxy/Guard.antt =====
-- Which targets pass the check.
use ztna_project.Base.{
  ℕ, ◌≤◌, ◌≡◌, refl, ap, sym, ◌∙◌, ◌≢◌, Bool, true, false, not, ◌||◌, Option, none, some, List, [],
  ◌∷◌, All, arith, if◌then◌else◌, ℤ, pos, is_positive, exceeds, Text, is_empty,
}
use ztna_project.Gateway.Proxy.{
  Ip, v4, TargetError, empty_host, bad_port, loopback, link_local, multicast, unspecified, metadata,
  is_loopback, is_link_local_unicast, is_link_local_multicast, is_multicast, is_unspecified,
  is_metadata, ip_error, or_next, ips_error, addresses, addresses_error, validate_target,
}

-- None of the kinds of addresses that must not be reached.
abbrev pub IsPublic : Ip → Type 0
IsPublic ip =
    (is_loopback ip ≡ false)
    × (is_link_local_unicast ip ≡ false)
    × (is_multicast ip ≡ false)
    × (is_unspecified ip ≡ false)
    × (ip ≢ v4 169 254 169 254)

past_error :
    (failing : Bool) (e : TargetError) (rest : Option TargetError)
    → (if failing then some e else rest) ≡ none
    → (failing ≡ false) × (rest ≡ none)
past_error true e rest h = ground (arith, h)
past_error false e rest h = (refl, h)

past_next : (o rest : Option TargetError) → or_next o rest ≡ none → (o ≡ none) × (rest ≡ none)
past_next none rest h = (refl, h)
past_next (some e) rest h = ground (arith, h)

or-left : (a b : Bool) → (a || b) ≡ false → a ≡ false
or-left true b h = h
or-left false b h = refl

metadata-refused : (ip : Ip) → is_metadata ip ≡ false → ip ≢ v4 169 254 169 254
unfolding is_metadata
metadata-refused ip h = λ same. (let clash = sym h ∙ ap is_metadata same in ground (arith, clash))

ip_error-IsPublic : (ip : Ip) → ip_error ip ≡ none → IsPublic ip
unfolding ip_error
ip_error-IsPublic ip h =
    let (loop, h1) = past_error (is_loopback ip) loopback _ h in
    let (link, h2) =
      past_error (is_link_local_unicast ip || is_link_local_multicast ip) link_local _ h1 in
    let (multi, h3) = past_error (is_multicast ip) multicast _ h2 in
    let (unspec, h4) = past_error (is_unspecified ip) unspecified _ h3 in
    let (meta, _) = past_error (is_metadata ip) metadata _ h4 in
    (loop, or-left (is_link_local_unicast ip) _ link, multi, unspec, metadata-refused ip meta)

ips_error-All : (ips : List Ip) → ips_error ips ≡ none → All IsPublic ips
unfolding ips_error
ips_error-All [] h = tt
ips_error-All (ip ∷ ips) h =
    let (one, rest) = past_next (ip_error ip) (ips_error ips) h in
    (ip_error-IsPublic ip one, ips_error-All ips rest)

addresses_error-none :
    (o : Option (List Ip))
    → addresses_error o ≡ none
    → (ips : List Ip) × (o ≡ some ips) × All IsPublic ips
addresses_error-none none h = ground (arith, h)
addresses_error-none (some ips) h = (ips, refl, ips_error-All ips h)

port_in_range :
    (port : ℤ)
    → (not (is_positive port) || exceeds port 65535) ≡ false
    → (n : ℕ) × (port ≡ pos n) × (1 ≤ n) × (n ≤ 65535)
port_in_range (pos n) h = (n, refl, ground (arith, h), ground (arith, h))
port_in_range (ℤ.negsuc n) h = ground (arith, h)

-- A target passes only with a host and a port from 1 to 65535, and when every address of the host is
-- neither a loopback, link-local, multicast or unspecified address nor that of the metadata service.
pub validate_target-none :
    (lookup_ip : Text → Option (List Ip)) (parse_ip : Text → Option Ip) (host : Text) (port : ℤ)
    → validate_target lookup_ip parse_ip host port ≡ none
    → (is_empty host ≡ false)
      × ((n : ℕ) × (port ≡ pos n) × (1 ≤ n) × (n ≤ 65535))
      × ((ips : List Ip) × (addresses parse_ip host (lookup_ip host) ≡ some ips) × All IsPublic ips)
unfolding validate_target
validate_target-none lookup_ip parse_ip host port h =
    let (named, h1) = past_error (is_empty host) empty_host _ h in
    let (numbered, h2) = past_error (not (is_positive port) || exceeds port 65535) bad_port _ h1 in
    (named, port_in_range port numbered, addresses_error-none _ h2)
