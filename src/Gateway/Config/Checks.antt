-- ===== src/Gateway/Config/Checks.antt =====
-- What a configuration that is loaded guarantees to the rest of the gateway.
use mathlib.Core.Path.{subst}
use ztna_project.Base.{
  ◌≤◌, ◌≡◌, refl, ◌⊎◌, inl, inr, Bool, true, false, not, ◌&&◌, Option, none, some, [], ◌∷◌, arith,
  if◌then◌else◌, Bool-cases, is_positive, Text, codes, text_eq, text_eq_iff, is_empty, length,
}
use ztna_project.Gateway.Config.{
  Config, ConfigError, default_text, apply_defaults, validate, token_error, mtls_error, or_else,
  load, checked, bad_listen_addr, bad_key_file, bad_cert_file, bad_base_url, bad_pep_id,
  bad_auth_mode, bad_dial_timeout, bad_max_conns, bad_cp_down_mode,
}

past_check :
    (failing : Bool) (e : ConfigError) (rest : Option ConfigError)
    → (if failing then some e else rest) ≡ none
    → (failing ≡ false) × (rest ≡ none)
past_check true e rest h = ground (arith, h)
past_check false e rest h = (refl, h)

past_else : (o rest : Option ConfigError) → or_else o rest ≡ none → (o ≡ none) × (rest ≡ none)
past_else none rest h = (refl, h)
past_else (some e) rest h = ground (arith, h)

-- The gateway can prove its identity: with a token of 16 bytes at least, or with a certificate, and
-- then it also knows the authority of the other side unless it is told not to check it.
abbrev HasCredentials : Config → Type 0
HasCredentials c =
    ((c.auth_mode ≡ codes "token") × (16 ≤ length c.pep_token))
    ⊎ ((c.auth_mode ≡ codes "mtls")
        × (is_empty c.client_cert_file ≡ false)
        × (is_empty c.client_key_file ≡ false)
        × ((c.insecure_skip_verify ≡ true) ⊎ (is_empty c.ca_file ≡ false)))

pub record IsUsable (is_duration : Text → Bool) (c : Config) : Type 0 where
  pub credentials : HasCredentials c
  pub listens : is_empty c.listen_addr ≡ false
  pub key_pair : is_empty c.cert_file ≡ is_empty c.key_file
  pub control_plane : is_empty c.base_url ≡ false
  pub named : is_empty c.pep_id ≡ false
  pub timed : is_duration c.dial_timeout ≡ true
  pub bounded : is_positive c.max_conns ≡ true
  pub mode : (c.cp_down_mode ≡ codes "deny") ⊎ (c.cp_down_mode ≡ codes "cache_allow")

token_error-none :
    (c : Config) → token_error c ≡ none → c.auth_mode ≡ codes "token" → 16 ≤ length c.pep_token
unfolding token_error
token_error-none c h mode = ground (arith, h, (text_eq_iff c.auth_mode (codes "token")).1 mode)

mtls_error-none :
    (c : Config)
    → mtls_error c ≡ none
    → c.auth_mode ≡ codes "mtls"
    → (is_empty c.client_cert_file ≡ false)
      × (is_empty c.client_key_file ≡ false)
      × ((c.insecure_skip_verify ≡ true) ⊎ (is_empty c.ca_file ≡ false))
unfolding mtls_error
mtls_error-none c h mode = ground (arith, h, (text_eq_iff c.auth_mode (codes "mtls")).1 mode)

not-false : {b : Bool} → not b ≡ false → b ≡ true
not-false h = ground (arith, h)

one_of : (t u v : Text) → (not (text_eq t u) && not (text_eq t v)) ≡ false → (t ≡ u) ⊎ (t ≡ v)
one_of t u v h = elim (Bool-cases (text_eq t u)) [
  | inl same ↦ inl ((text_eq_iff t u).0 same)
  | inr differs ↦ inr ((text_eq_iff t v).0 (ground (arith, h, differs)))
]

both_or_neither : (a b : Bool) → (not a && b) ≡ false → (not b && a) ≡ false → a ≡ b
both_or_neither true b h k = ground (arith, h, k)
both_or_neither false b h k = ground (arith, h, k)

credentials_of :
    (c : Config)
    → (c.auth_mode ≡ codes "mtls") ⊎ (c.auth_mode ≡ codes "token")
    → token_error c ≡ none
    → mtls_error c ≡ none
    → HasCredentials c
credentials_of c (inl mtls) t m =
    let (cert, key, ca) = mtls_error-none c m mtls in inr (mtls, cert, key, ca)
credentials_of c (inr token) t m = inl (token, token_error-none c t token)

validate-IsUsable :
    (is_duration : Text → Bool) (c : Config)
    → validate is_duration c ≡ none
    → IsUsable is_duration c
unfolding validate
validate-IsUsable is_duration c h =
    let (listens, h1) = past_check (is_empty c.listen_addr) bad_listen_addr _ h in
    let (key, h2) =
      past_check (not (is_empty c.cert_file) && is_empty c.key_file) bad_key_file _ h1 in
    let (cert, h3) =
      past_check (not (is_empty c.key_file) && is_empty c.cert_file) bad_cert_file _ h2 in
    let (url, h4) = past_check (is_empty c.base_url) bad_base_url _ h3 in
    let (named, h5) = past_check (is_empty c.pep_id) bad_pep_id _ h4 in
    let (mode, h6) =
      past_check
        (not (text_eq c.auth_mode (codes "mtls")) && not (text_eq c.auth_mode (codes "token")))
        bad_auth_mode _ h5 in
    let (token, h7) = past_else (token_error c) _ h6 in
    let (mtls, h8) = past_else (mtls_error c) _ h7 in
    let (timed, h9) = past_check (not (is_duration c.dial_timeout)) bad_dial_timeout _ h8 in
    let (bounded, h10) = past_check (not (is_positive c.max_conns)) bad_max_conns _ h9 in
    let (down, _) =
      past_check
        (not (text_eq c.cp_down_mode (codes "deny"))
          && not (text_eq c.cp_down_mode (codes "cache_allow")))
        bad_cp_down_mode _ h10 in
    record {
      credentials =
          credentials_of c (one_of c.auth_mode (codes "mtls") (codes "token") mode) token mtls;
      listens = listens;
      key_pair = both_or_neither (is_empty c.cert_file) (is_empty c.key_file) key cert;
      control_plane = url;
      named = named;
      timed = not-false timed;
      bounded = not-false bounded;
      mode = one_of c.cp_down_mode (codes "deny") (codes "cache_allow") down;
    }

checked-some : (c d : Config) (o : Option ConfigError) → checked c o ≡ some d → (o ≡ none) × (c ≡ d)
checked-some c d none e = (refl, ground (arith, e))
checked-some c d (some x) e = ground (arith, e)

default_text-filled :
    (default t : Text) → is_empty default ≡ false → is_empty (default_text default t) ≡ false
default_text-filled default [] h = h
default_text-filled default (x ∷ t) h = refl

apply_defaults-IsBounded :
    (c : Config) → is_positive (apply_defaults c).decision_cache_max_keys ≡ true
unfolding apply_defaults
apply_defaults-IsBounded c = elim (Bool-cases (is_positive c.decision_cache_max_keys)) [
  | inl good ↦ rw good good
  | inr bad ↦ rw bad refl
]

apply_defaults-named :
    (c : Config)
    → is_empty (apply_defaults c).pep_id ≡ false
    → is_empty (apply_defaults c).gateway_id ≡ false
unfolding apply_defaults
apply_defaults-named c h = default_text-filled c.pep_id c.gateway_id h

-- A configuration that Load accepts can be used: the gateway has an address to listen on, a name,
-- the address of the control plane and a way to prove its identity to it, a certificate exactly
-- where it has a key, a positive bound on the connections, a duration that can be read, and a known
-- mode; the bound of the cache is positive, and the gateway's identifier is not empty.
pub load-IsUsable :
    (is_duration : Text → Bool) (file : Option Config) (c : Config)
    → load is_duration file ≡ some c
    → IsUsable is_duration c
      × (is_positive c.decision_cache_max_keys ≡ true)
      × (is_empty c.gateway_id ≡ false)
unfolding load
load-IsUsable is_duration none c e = ground (arith, e)
load-IsUsable is_duration (some file) c e =
    let (valid, same) =
      checked-some (apply_defaults file) c (validate is_duration (apply_defaults file)) e in
    let usable = validate-IsUsable is_duration (apply_defaults file) valid in
    subst
      (λ x.
        IsUsable is_duration x
        × (is_positive x.decision_cache_max_keys ≡ true)
        × (is_empty x.gateway_id ≡ false))
      same (usable, apply_defaults-IsBounded file, apply_defaults-named file usable.named)
