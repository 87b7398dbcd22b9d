-- ===== src/ControlPlane/Config/Checks.antt =====
-- Validate and Load of control-plane/internal/config/config.go. The checks of a section are a list
-- in the order of the code; the first that fails is the error.
use ztna_project.Base.{
  Bool, true, false, not, ◌&&◌, ◌||◌, Option, none, some, List, [], ◌∷◌, ◌++◌, leb, ℤ, pos, negsuc,
  is_positive, exceeds, pos_part, Text, codes, text_eq, is_empty, trim_space, to_lower, to_upper,
  has_prefix, first_failing,
}
use ztna_project.ControlPlane.Config.{
  ServerConfig, DatabaseConfig, OidcConfig, PepSection, SshCaSection, DeviceCaSection, Config,
  apply_defaults,
}

-- What the operating system and the library say of texts: a file exists, a duration is read.
pub record Environment : Type 0 where
  pub parse_duration : Text → Option ℤ
  pub exists_file : Text → Bool

-- The field that a check complains about; for a lifetime, its section.
pub data ConfigError : Type 0 where
  server_port server_tls oidc_issuer oidc_http_issuer oidc_audience oidc_username_claim :
      ConfigError
  oidc_groups_claim oidc_allowed_algs oidc_jwks_cache_ttl oidc_audience_mode oidc_ca_file :
      ConfigError
  database_path database_busy_timeout sshca_key_path sshca_ttl device_ca_path : ConfigError
  device_ca_ttl device_ca_key_types pep_auth_mode pep_tokens pep_server_port : ConfigError
  pep_server_tls pep_revoked_ids : ConfigError

abbrev pub Check : Type 0
Check = Bool × ConfigError

abbrev pub is_port : ℤ → Bool
is_port (negsuc n) = false
is_port (pos n) = leb 1 n && leb n 65535

abbrev pub is_read : Option ℤ → Bool
is_read none = false
is_read (some d) = true

-- A value where the duration is not read.
abbrev pub or_zero : Option ℤ → ℤ
or_zero none = pos 0
or_zero (some d) = d

unfoldable pub server_checks : ServerConfig → List Check
server_checks s =
    (not (is_port s.port), server_port)
    ∷ (s.tls.enabled && (is_empty s.tls.cert_file || is_empty s.tls.key_file), server_tls)
    ∷ []

-- Some algorithm of the list is not RS256.
unfoldable pub has_other_alg : List Text → Bool
unfolding to_upper trim_space
has_other_alg [] = false
has_other_alg (alg ∷ rest) =
    not (text_eq (to_upper (trim_space alg)) (codes "RS256")) || has_other_alg rest

unfoldable pub is_http_issuer : Text → Bool
unfolding to_lower trim_space has_prefix
is_http_issuer issuer = has_prefix (to_lower (trim_space issuer)) (codes "http://")

-- A text that is given and is no duration.
abbrev is_bad_duration : Environment → Text → Bool
is_bad_duration env t = not (is_empty t) && not (is_read (env.parse_duration t))

unfoldable pub oidc_checks : Environment → OidcConfig → List Check
unfolding has_other_alg is_http_issuer
oidc_checks env o =
    (is_empty o.issuer, oidc_issuer)
    ∷ (not o.allow_http_issuer && is_http_issuer o.issuer, oidc_http_issuer)
    ∷ (is_empty o.audience, oidc_audience)
    ∷ (is_empty o.username_claim, oidc_username_claim)
    ∷ (is_empty o.groups_claim, oidc_groups_claim)
    ∷ (is_empty o.allowed_algs, oidc_allowed_algs)
    ∷ (has_other_alg o.allowed_algs, oidc_allowed_algs)
    ∷ (is_bad_duration env o.jwks_cache_ttl, oidc_jwks_cache_ttl)
    ∷ (
      not (is_empty o.audience_mode)
          && (not (text_eq o.audience_mode (codes "aud"))
              && not (text_eq o.audience_mode (codes "aud_or_azp"))),
      oidc_audience_mode,
    )
    ∷ (not (is_empty o.ca_file) && not (env.exists_file o.ca_file), oidc_ca_file)
    ∷ []

unfoldable pub database_checks : Environment → DatabaseConfig → List Check
database_checks env d =
    (is_empty d.path, database_path)
    ∷ (is_bad_duration env d.busy_timeout, database_busy_timeout)
    ∷ []

-- The lifetimes of both authorities: the default is a duration, the bounds are where they are
-- given, and a positive maximum is not below the minimum.
unfoldable pub ttl_checks : Environment → (default min max : Text) (e : ConfigError) → List Check
ttl_checks env default min max e =
    (not (is_read (env.parse_duration default)), e)
    ∷ (is_bad_duration env min, e)
    ∷ (is_bad_duration env max, e)
    ∷ (
      (not (is_empty min) && not (is_empty max))
          && (is_positive (or_zero (env.parse_duration max))
              && exceeds (or_zero (env.parse_duration min))
                  (pos_part (or_zero (env.parse_duration max)))),
      e,
    )
    ∷ []

unfoldable pub has_other_key_type : List Text → Bool
unfolding to_lower trim_space
has_other_key_type [] = false
has_other_key_type (kt ∷ rest) =
    let name = to_lower (trim_space kt) in
    (not (text_eq name (codes "ed25519"))
      && (not (text_eq name (codes "ecdsa-p256")) && not (is_empty name)))
    || has_other_key_type rest

unfoldable pub sshca_checks : Environment → SshCaSection → List Check
unfolding ttl_checks
sshca_checks env s =
    (is_empty s.key_path, sshca_key_path)
    ∷ ttl_checks env s.default_ttl s.min_ttl s.max_ttl sshca_ttl

unfoldable pub device_ca_checks : Environment → DeviceCaSection → List Check
unfolding ttl_checks has_other_key_type
device_ca_checks env d =
    (is_empty d.key_path, device_ca_path)
    ∷ (is_empty d.cert_path, device_ca_path)
    ∷ (ttl_checks env d.default_ttl d.min_ttl d.max_ttl device_ca_ttl
        ++ (has_other_key_type d.allowed_key_types, device_ca_key_types) ∷ [])

unfoldable pub has_blank : List Text → Bool
unfolding trim_space
has_blank [] = false
has_blank (t ∷ rest) = is_empty (trim_space t) || has_blank rest

unfoldable pub pep_checks : PepSection → ServerConfig → List Check
unfolding has_blank
pep_checks p s =
    let token = text_eq p.auth_mode (codes "token") in
    let mtls = text_eq p.auth_mode (codes "mtls") in
    (not token && not mtls, pep_auth_mode)
    ∷ (token && is_empty p.tokens, pep_tokens)
    ∷ (mtls && not (is_port s.port), pep_server_port)
    ∷ (mtls && not s.tls.enabled, pep_server_tls)
    ∷ (mtls && (is_empty s.tls.cert_file || is_empty s.tls.key_file), pep_server_tls)
    ∷ (mtls && is_empty s.tls.client_ca_file, pep_server_tls)
    ∷ (has_blank p.revoked_pep_ids, pep_revoked_ids)
    ∷ []

unfoldable pub checks : Environment → Config → List Check
unfolding server_checks oidc_checks database_checks sshca_checks device_ca_checks pep_checks
checks env c =
    server_checks c.server
    ++ (oidc_checks env c.oidc
        ++ (database_checks env c.database
            ++ (sshca_checks env c.sshca
                ++ (device_ca_checks env c.device_ca ++ pep_checks c.pep c.pep_server))))

unfoldable pub validate : Environment → Config → Option ConfigError
unfolding checks first_failing
validate env c = first_failing (checks env c)

pub data Loaded : Type 0 where
  loaded : Config → Loaded
  unreadable : Loaded
  invalid : ConfigError → Loaded

abbrev pub checked : Config → Option ConfigError → Loaded
checked c none = loaded c
checked c (some e) = invalid e

-- The file is `none` where it cannot be read or parsed.
unfoldable pub load : Environment → Option Config → Loaded
unfolding apply_defaults validate
load env none = unreadable
load env (some c) = checked (apply_defaults c) (validate env (apply_defaults c))
