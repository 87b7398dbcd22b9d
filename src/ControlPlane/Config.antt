-- ===== src/ControlPlane/Config.antt =====
-- control-plane/internal/config/config.go: the configuration of the control plane, its defaults and
-- its checks. The decoded YAML file, time.ParseDuration and the test that a file exists are
-- arguments. Durations are nanoseconds.
pub mod Checks
pub mod Sound
use ztna_project.Base.{
  ℕ, ◌*◌, ◌≡◌, Bool, true, false, not, ◌&&◌, ◌||◌, Option, none, some, List, [], ◌∷◌, ◌++◌, map,
  if◌then◌else◌, ℤ, pos, negsuc, is_positive, int_eq, exceeds, Text, codes, text_eq, is_empty,
  trim_space, to_lower, to_upper, has_prefix, first_failing,
}

pub record TlsConfig : Type 0 where
  pub enabled : Bool
  pub cert_file : Text
  pub key_file : Text
  pub client_ca_file : Text
  pub require_client_auth : Bool

pub record ServerConfig : Type 0 where
  pub address : Text
  pub port : ℤ
  pub read_timeout : Text
  pub write_timeout : Text
  pub idle_timeout : Text
  pub read_header_timeout : Text
  pub tls : TlsConfig

pub record DatabaseConfig : Type 0 where
  pub path : Text
  pub busy_timeout : Text
  pub pragmas : List Text

pub record OidcConfig : Type 0 where
  pub issuer : Text
  pub audience : Text
  pub username_claim : Text
  pub groups_claim : Text
  pub allowed_algs : List Text
  pub jwks_cache_ttl : Text
  pub audience_mode : Text
  pub admin_group : Text
  pub allow_http_issuer : Bool
  pub ca_file : Text
  pub insecure_skip_verify : Bool

-- A map of tokens is an association list; a pointer to a Boolean is an option.
pub record PepSection : Type 0 where
  pub auth_mode : Text
  pub tokens : List (Text × Text)
  pub decision_ttl_seconds : ℤ
  pub require_registration : Option Bool
  pub revoked_pep_ids : List Text

pub record SshCaSection : Type 0 where
  pub key_path : Text
  pub default_ttl : Text
  pub min_ttl : Text
  pub max_ttl : Text
  pub allowed_principals : List Text

pub record DeviceCaSection : Type 0 where
  pub key_path : Text
  pub cert_path : Text
  pub default_ttl : Text
  pub min_ttl : Text
  pub max_ttl : Text
  pub allowed_key_types : List Text

-- The seed files stand in their sections, which hold nothing else.
pub record Config : Type 0 where
  pub server : ServerConfig
  pub pep_server : ServerConfig
  pub database : DatabaseConfig
  pub oidc : OidcConfig
  pub pep : PepSection
  pub sshca : SshCaSection
  pub device_ca : DeviceCaSection
  pub policy_seed_file : Text
  pub resource_seed_file : Text
  pub log_level : Text
  pub log_format : Text

abbrev pub or_default : (default t : Text) → Text
or_default default t = if is_empty t then default else t

unfoldable pub apply_server_defaults : ServerConfig → (default_port : ℤ) → ServerConfig
apply_server_defaults s default_port = record s {
  address = or_default (codes "0.0.0.0") s.address;
  port = if int_eq s.port (pos 0) then default_port else s.port;
  read_timeout = or_default (codes "10s") s.read_timeout;
  write_timeout = or_default (codes "10s") s.write_timeout;
  idle_timeout = or_default (codes "60s") s.idle_timeout;
  read_header_timeout = or_default (codes "5s") s.read_header_timeout;
}

unfoldable pub oidc_defaults : OidcConfig → OidcConfig
oidc_defaults o = record o {
  groups_claim = or_default (codes "groups") o.groups_claim;
  allowed_algs = if is_empty o.allowed_algs then codes "RS256" ∷ [] else o.allowed_algs;
  jwks_cache_ttl = or_default (codes "10m") o.jwks_cache_ttl;
  audience_mode = or_default (codes "aud") o.audience_mode;
}

-- TLS with client certificates, and the files of the public server where there are none.
unfoldable pub pep_server_defaults : (public_tls : TlsConfig) → ServerConfig → ServerConfig
unfolding apply_server_defaults
pep_server_defaults public_tls s = record (apply_server_defaults s (pos 8443)) {
  tls = record {
    enabled = true;
    require_client_auth = true;
    cert_file = or_default public_tls.cert_file s.tls.cert_file;
    key_file = or_default public_tls.key_file s.tls.key_file;
    client_ca_file = or_default public_tls.client_ca_file s.tls.client_ca_file;
  };
}

unfoldable pub pep_defaults : PepSection → PepSection
pep_defaults p = record p {
  auth_mode = or_default (codes "mtls") p.auth_mode;
  decision_ttl_seconds =
      if is_positive p.decision_ttl_seconds then p.decision_ttl_seconds else pos 60;
}

unfoldable pub sshca_defaults : SshCaSection → SshCaSection
sshca_defaults s = record s {
  default_ttl = or_default (codes "15m") s.default_ttl;
  min_ttl = or_default (codes "1m") s.min_ttl;
  max_ttl = or_default (codes "60m") s.max_ttl;
}

unfoldable pub device_ca_defaults : DeviceCaSection → DeviceCaSection
device_ca_defaults d = record d {
  key_path = or_default (codes "pki/device_ca.key") d.key_path;
  cert_path = or_default (codes "pki/device_ca.crt") d.cert_path;
  default_ttl = or_default (codes "168h") d.default_ttl;
  min_ttl = or_default (codes "1h") d.min_ttl;
  max_ttl = or_default (codes "720h") d.max_ttl;
  allowed_key_types =
      if is_empty d.allowed_key_types
      then codes "ed25519" ∷ codes "ecdsa-p256" ∷ []
      else d.allowed_key_types;
}

unfoldable pub apply_defaults : Config → Config
unfolding apply_server_defaults oidc_defaults pep_server_defaults pep_defaults sshca_defaults
    device_ca_defaults
apply_defaults c = record c {
  server = apply_server_defaults c.server (pos 8080);
  database = record c.database { busy_timeout = or_default (codes "5s") c.database.busy_timeout };
  oidc = oidc_defaults c.oidc;
  pep = pep_defaults c.pep;
  pep_server =
      if text_eq (or_default (codes "mtls") c.pep.auth_mode) (codes "mtls")
      then pep_server_defaults c.server.tls c.pep_server
      else c.pep_server;
  sshca = sshca_defaults c.sshca;
  device_ca = device_ca_defaults c.device_ca;
  log_level = or_default (codes "info") c.log_level;
  log_format = or_default (codes "json") c.log_format;
}

unfoldable pep_require_registration_enabled : Config → Bool
pep_require_registration_enabled c = elim c.pep.require_registration [ none ↦ true | some b ↦ b ]

abbrev duration_or : (fallback : ℤ) → Option ℤ → ℤ
duration_or fallback none = fallback
duration_or fallback (some d) = d

unfoldable parse_duration_or_default :
    (parse_duration : Text → Option ℤ) → (raw : Text) (fallback : ℤ) → ℤ
parse_duration_or_default parse_duration raw fallback =
    if is_empty raw then fallback else duration_or fallback (parse_duration raw)

abbrev pub hours : ℕ → ℤ
hours n = pos (n * 3_600_000_000_000)

-- DeviceDefaultTTL, DeviceMinTTL and DeviceMaxTTL.
unfoldable device_default_ttl : (parse_duration : Text → Option ℤ) → Config → ℤ
unfolding parse_duration_or_default
device_default_ttl parse_duration c =
    parse_duration_or_default parse_duration c.device_ca.default_ttl (hours 168)

unfoldable device_min_ttl : (parse_duration : Text → Option ℤ) → Config → ℤ
unfolding parse_duration_or_default
device_min_ttl parse_duration c =
    parse_duration_or_default parse_duration c.device_ca.min_ttl (hours 1)

unfoldable device_max_ttl : (parse_duration : Text → Option ℤ) → Config → ℤ
unfolding parse_duration_or_default
device_max_ttl parse_duration c =
    parse_duration_or_default parse_duration c.device_ca.max_ttl (hours 720)
