-- ===== src/Client/Config.antt =====
-- client/internal/config/config.go: the configuration of the client. The decoded YAML file is an
-- argument, `none` where it cannot be read.
use mathlib.Core.Path.{subst}
use ztna_project.Base.{
  ◌≡◌, refl, Bool, true, false, not, ◌&&◌, Option, none, some, List, [], ◌∷◌, arith, if◌then◌else◌,
  Text, codes, is_empty, has_prefix, first_failing, first_failing-none,
}

pub record Config : Type 0 where
  pub oidc_issuer : Text
  pub oidc_client_id : Text
  pub oidc_client_secret : Text
  pub oidc_audience : Text
  pub oidc_ca_file : Text
  pub oidc_insecure : Bool
  pub base_url : Text
  pub base_ca_file : Text
  pub base_insecure : Bool
  pub gateway_address : Text
  pub tls_ca_file : Text
  pub storage_path : Text
  pub insecure_allow_http_oidc : Bool
  pub log_level : Text
  pub log_format : Text

abbrev pub or_default : (default t : Text) → Text
or_default default t = if is_empty t then default else t

unfoldable pub apply_defaults : Config → Config
apply_defaults c = record c {
  log_level = or_default (codes "info") c.log_level;
  log_format = or_default (codes "json") c.log_format;
  storage_path = or_default (codes "./.ztna") c.storage_path;
}

pub data ConfigError : Type 0 where
  no_issuer no_client_id no_base_url no_gateway_address http_issuer unreadable : ConfigError

-- The checks of Validate in their order; the prefix is compared byte by byte.
unfoldable pub checks : Config → List (Bool × ConfigError)
unfolding has_prefix
checks c =
    (is_empty c.oidc_issuer, no_issuer)
    ∷ (is_empty c.oidc_client_id, no_client_id)
    ∷ (is_empty c.base_url, no_base_url)
    ∷ (is_empty c.gateway_address, no_gateway_address)
    ∷ (not c.insecure_allow_http_oidc && has_prefix c.oidc_issuer (codes "http://"), http_issuer)
    ∷ []

unfoldable pub validate : Config → Option ConfigError
unfolding checks first_failing
validate c = first_failing (checks c)

pub data Loaded : Type 0 where
  loaded : Config → Loaded
  refused : ConfigError → Loaded

abbrev pub checked : Config → Option ConfigError → Loaded
checked c none = loaded c
checked c (some e) = refused e

unfoldable pub load : Option Config → Loaded
unfolding apply_defaults validate
load none = refused unreadable
load (some c) = checked (apply_defaults c) (validate (apply_defaults c))

-- What a loaded configuration offers: a provider, a control plane and a gateway to call, a place for
-- the tokens, and a provider over plain HTTP only where this is allowed.
pub record IsUsable (c : Config) : Type 0 where
  pub issuer : is_empty c.oidc_issuer ≡ false
  pub client_id : is_empty c.oidc_client_id ≡ false
  pub base : is_empty c.base_url ≡ false
  pub gateway : is_empty c.gateway_address ≡ false
  pub storage : is_empty c.storage_path ≡ false
  pub secure : has_prefix c.oidc_issuer (codes "http://") ≡ true → c.insecure_allow_http_oidc ≡ true

validate-IsUsable : (c : Config) → validate c ≡ none → is_empty c.storage_path ≡ false → IsUsable c
unfolding validate checks
validate-IsUsable c e stored =
    let (issuer, (client, (base, (gateway, (secure, _))))) = first_failing-none (checks c) e in
    record {
      issuer = issuer;
      client_id = client;
      base = base;
      gateway = gateway;
      storage = stored;
      secure = λ plain. ground (arith, secure, plain);
    }

checked-loaded :
    (c c' : Config) (o : Option ConfigError) → checked c o ≡ loaded c' → (o ≡ none) × (c ≡ c')
checked-loaded c c' none e = (refl, ground (arith, e))
checked-loaded c c' (some problem) e = ground (arith, e)

default-filled : (d t : Text) → is_empty d ≡ false → is_empty (or_default d t) ≡ false
default-filled d t filled = ground (arith, filled)

-- A configuration of the client that is loaded is usable.
pub load-IsUsable : (file c : Config) → load (some file) ≡ loaded c → IsUsable c
unfolding load apply_defaults
load-IsUsable file c e =
    let (valid, same) = checked-loaded (apply_defaults file) c _ e in
    subst IsUsable same (
      validate-IsUsable (apply_defaults file) valid
        (default-filled (codes "./.ztna") file.storage_path refl))
