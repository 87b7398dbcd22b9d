-- ===== src/Gateway/Config.antt =====
-- gateway/internal/config/config.go: the configuration, its defaults and its checks, and the routes.
-- The file's YAML is an argument, `none` where it cannot be read; so is time.ParseDuration, as the
-- test that it succeeds. Durations are nanoseconds.
pub mod Checks
pub mod Routes
use ztna_project.Base.{
  ℕ, ◌*◌, ◌≡◌, Bool, true, false, not, ◌&&◌, ◌||◌, Option, none, some, List, [], ◌∷◌, ltb,
  if◌then◌else◌, ℤ, pos, negsuc, is_positive, int_eq, Text, codes, text_eq, is_empty, length,
  has_prefix, before_last,
}

pub record Route : Type 0 where
  pub resource_type : Text
  pub resource_match : Text
  pub target : Text

-- The sections of the file, one after the other; a pointer to a Boolean is an option.
pub record Config : Type 0 where
  pub listen_addr : Text
  pub cert_file : Text
  pub key_file : Text
  pub client_ca_file : Text
  pub base_url : Text
  pub ca_file : Text
  pub insecure_skip_verify : Bool
  pub auth_mode : Text
  pub client_cert_file : Text
  pub client_key_file : Text
  pub pep_id : Text
  pub pep_token : Text
  pub dial_timeout : Text
  pub max_conns : ℤ
  pub rate_limit : ℤ
  pub log_level : Text
  pub log_format : Text
  pub gateway_id : Text
  pub heartbeat_every : ℤ
  pub require_registration : Option Bool
  pub strict_revocation : Option Bool
  pub decision_cache_ttl : ℤ
  pub decision_cache_max_keys : ℤ
  pub cp_down_mode : Text
  pub crl_refresh_interval : ℤ
  pub routes : List Route

abbrev pub default_text : Text → Text → Text
default_text default t = if is_empty t then default else t

abbrev default_int : ℤ → ℤ → ℤ
default_int default z = if int_eq z (pos 0) then default else z

abbrev seconds : ℕ → ℤ
seconds n = pos (n * 1_000_000_000)

unfoldable pub apply_defaults : Config → Config
apply_defaults c = record c {
  listen_addr = default_text (codes "0.0.0.0:9443") c.listen_addr;
  gateway_id = default_text c.pep_id c.gateway_id;
  dial_timeout = default_text (codes "10s") c.dial_timeout;
  max_conns = default_int (pos 1000) c.max_conns;
  log_level = default_text (codes "info") c.log_level;
  log_format = default_text (codes "json") c.log_format;
  auth_mode = default_text (codes "token") c.auth_mode;
  heartbeat_every = default_int (seconds 30) c.heartbeat_every;
  decision_cache_ttl = default_int (seconds 60) c.decision_cache_ttl;
  decision_cache_max_keys =
      if is_positive c.decision_cache_max_keys then c.decision_cache_max_keys else pos 5000;
  cp_down_mode = default_text (codes "deny") c.cp_down_mode;
  crl_refresh_interval = default_int (seconds 60) c.crl_refresh_interval;
}

-- The field that a check of Validate complains about.
pub data ConfigError : Type 0 where
  bad_listen_addr bad_key_file bad_cert_file bad_base_url bad_pep_id bad_auth_mode : ConfigError
  bad_token short_token bad_client_cert bad_ca_file bad_dial_timeout bad_max_conns : ConfigError
  bad_cp_down_mode unreadable : ConfigError

-- The checks that depend on how the gateway proves its identity.
unfoldable pub token_error : Config → Option ConfigError
token_error c =
    if not (text_eq c.auth_mode (codes "token"))
    then none
    else if is_empty c.pep_token
    then some bad_token
    else if ltb (length c.pep_token) 16
    then some short_token
    else none

unfoldable pub mtls_error : Config → Option ConfigError
mtls_error c =
    if not (text_eq c.auth_mode (codes "mtls"))
    then none
    else if is_empty c.client_cert_file || is_empty c.client_key_file
    then some bad_client_cert
    else if not c.insecure_skip_verify && is_empty c.ca_file
    then some bad_ca_file
    else none

abbrev pub or_else : Option ConfigError → Option ConfigError → Option ConfigError
or_else (some e) rest = some e
or_else none rest = rest

-- The first check that fails.
unfoldable pub validate : (is_duration : Text → Bool) → Config → Option ConfigError
unfolding token_error mtls_error
validate is_duration c =
    if is_empty c.listen_addr
    then some bad_listen_addr
    else if not (is_empty c.cert_file) && is_empty c.key_file
    then some bad_key_file
    else if not (is_empty c.key_file) && is_empty c.cert_file
    then some bad_cert_file
    else if is_empty c.base_url
    then some bad_base_url
    else if is_empty c.pep_id
    then some bad_pep_id
    else if not (text_eq c.auth_mode (codes "mtls")) && not (text_eq c.auth_mode (codes "token"))
    then some bad_auth_mode
    else or_else (token_error c) (
        or_else (mtls_error c) (
          if not (is_duration c.dial_timeout)
          then some bad_dial_timeout
          else if not (is_positive c.max_conns)
          then some bad_max_conns
          else if not (text_eq c.cp_down_mode (codes "deny"))
              && not (text_eq c.cp_down_mode (codes "cache_allow"))
          then some bad_cp_down_mode
          else none))

abbrev pub checked : Config → Option ConfigError → Option Config
checked c none = some c
checked c (some e) = none

unfoldable pub load : (is_duration : Text → Bool) → Option Config → Option Config
unfolding apply_defaults validate
load is_duration none = none
load is_duration (some c) = checked (apply_defaults c) (validate is_duration (apply_defaults c))

abbrev true_unless : Option Bool → Bool
true_unless none = true
true_unless (some b) = b

unfoldable require_registration_enabled : Config → Bool
require_registration_enabled c = true_unless c.require_registration

unfoldable strict_revocation_enabled : Config → Bool
strict_revocation_enabled c = true_unless c.strict_revocation

-- The comparison of the two lengths is part of that of the texts.
unfoldable pub match_field : Text → Text → Bool
match_field pattern value =
    if text_eq pattern (codes "*") || is_empty pattern then true else text_eq pattern value

unfoldable pub match_route_pattern : Text → Text → Bool
match_route_pattern pattern value =
    if text_eq pattern (codes "*") then true else elim (before_last b'*' pattern) [
      | some prefix ↦ has_prefix value prefix
      | none ↦ text_eq pattern value
    ]

abbrev pub fits : (resource_type canonical : Text) → Route → Bool
fits resource_type canonical r =
    match_field r.resource_type resource_type && match_route_pattern r.resource_match canonical

unfoldable pub resolve_route : (resource_type canonical : Text) → List Route → Option Text
unfolding match_field match_route_pattern
resolve_route resource_type canonical [] = none
resolve_route resource_type canonical (r ∷ rs) =
    let rest = resolve_route resource_type canonical rs in
    if fits resource_type canonical r then some r.target else rest
