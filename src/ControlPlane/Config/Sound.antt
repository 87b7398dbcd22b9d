-- ===== src/ControlPlane/Config/Sound.antt =====
-- What a configuration that is loaded guarantees to the rest of the control plane.
use mathlib.Core.Path.{subst}
use ztna_project.Base.{
  ℕ, ◌≤◌, ◌≡◌, refl, ◌⊎◌, inl, inr, Bool, true, false, not, Option, none, some, List, [], ◌∷◌, ◌++◌,
  arith, Bool-cases, All, append-All, ℤ, pos, negsuc, is_positive, exceeds, pos_part, Text, codes,
  text_eq, text_eq_iff, is_empty, trim_space, to_upper, first_failing-none,
}
use ztna_project.ControlPlane.Config.{
  Config, apply_defaults, pep_server_defaults, pep_defaults, or_default,
}
use ztna_project.ControlPlane.Config.Checks.{
  has_other_key_type, device_ca_key_types, sshca_ttl, device_ca_ttl, Environment, ConfigError,
  Check, is_port, is_read, or_zero, server_checks, has_other_alg, is_http_issuer, oidc_checks,
  database_checks, ttl_checks, sshca_checks, device_ca_checks, pep_checks, checks, validate, loaded,
  checked, load,
}

-- The test of the check is false.
abbrev IsPassed : Check → Type 0
IsPassed k = k.0 ≡ false

-- Every algorithm is RS256, up to case and white space.
abbrev IsRs256 : Text → Type 0
IsRs256 alg = to_upper (trim_space alg) ≡ codes "RS256"

-- A lifetime's bounds: the default is a duration, and a positive maximum is at least the minimum.
abbrev AreOrdered : Environment → (default min max : Text) → Type 0
AreOrdered env default min max =
    (is_read (env.parse_duration default) ≡ true)
    × ((is_empty min ≡ false) → is_read (env.parse_duration min) ≡ true)
    × ((is_empty max ≡ false) → is_read (env.parse_duration max) ≡ true)
    × ((is_empty min ≡ false)
        → (is_empty max ≡ false)
        → is_positive (or_zero (env.parse_duration max)) ≡ true
        → pos_part (or_zero (env.parse_duration min)) ≤ pos_part (or_zero (env.parse_duration max)))

-- How gateways prove their identity: by a token, of which there is one at least, or by a client
-- certificate, on a server with TLS, a key pair and an authority for clients.
abbrev AuthenticatesGateways : Config → Type 0
AuthenticatesGateways c =
    ((c.pep.auth_mode ≡ codes "token") × (is_empty c.pep.tokens ≡ false))
    ⊎ ((c.pep.auth_mode ≡ codes "mtls")
        × (c.pep_server.tls.enabled ≡ true)
        × (is_port c.pep_server.port ≡ true)
        × (is_empty c.pep_server.tls.cert_file ≡ false)
        × (is_empty c.pep_server.tls.key_file ≡ false)
        × (is_empty c.pep_server.tls.client_ca_file ≡ false))

pub record IsSound (env : Environment) (c : Config) : Type 0 where
  pub port : is_port c.server.port ≡ true
  pub public_tls :
      c.server.tls.enabled ≡ true
      → (is_empty c.server.tls.cert_file ≡ false) × (is_empty c.server.tls.key_file ≡ false)
  pub issuer : is_empty c.oidc.issuer ≡ false
  pub secure_issuer : is_http_issuer c.oidc.issuer ≡ true → c.oidc.allow_http_issuer ≡ true
  pub audience : is_empty c.oidc.audience ≡ false
  pub algs : All IsRs256 c.oidc.allowed_algs
  pub some_alg : is_empty c.oidc.allowed_algs ≡ false
  pub gateways : AuthenticatesGateways c
  pub ssh_ttl : AreOrdered env c.sshca.default_ttl c.sshca.min_ttl c.sshca.max_ttl
  pub device_ttl : AreOrdered env c.device_ca.default_ttl c.device_ca.min_ttl c.device_ca.max_ttl

not-false : {b : Bool} → not b ≡ false → b ≡ true
not-false h = ground (arith, h)

has_other_alg-All : (algs : List Text) → has_other_alg algs ≡ false → All IsRs256 algs
unfolding has_other_alg
has_other_alg-All [] h = tt
has_other_alg-All (alg ∷ rest) h = (
  ground (arith, h, text_eq_iff (to_upper (trim_space alg)) (codes "RS256")),
  has_other_alg-All rest (ground (arith, h)),
)

exceeds-false : (z : ℤ) (n : ℕ) → exceeds z n ≡ false → pos_part z ≤ n
exceeds-false (pos m) n h = ground (arith, h)
exceeds-false (negsuc m) n h = omega arith

ttl_checks-AreOrdered :
    (env : Environment) (default min max : Text) (e : ConfigError)
    → All IsPassed (ttl_checks env default min max e)
    → AreOrdered env default min max
unfolding ttl_checks
ttl_checks-AreOrdered env default min max e (read, (low, (high, (order, _)))) = (
  not-false read,
  (λ given. ground (arith, low, given)),
  (λ given. ground (arith, high, given)),
  (λ given given' positive.
      exceeds-false (or_zero (env.parse_duration min)) (pos_part (or_zero (env.parse_duration max)))
        (ground (arith, order, given, given', positive))),
)

pep_checks-AuthenticatesGateways :
    (c : Config) → All IsPassed (pep_checks c.pep c.pep_server) → AuthenticatesGateways c
unfolding pep_checks
pep_checks-AuthenticatesGateways c (mode, (tokens, (port, (enabled, (pair, (ca, _)))))) =
    elim (Bool-cases (text_eq c.pep.auth_mode (codes "mtls"))) [
      | inl mtls ↦ inr (
        (text_eq_iff c.pep.auth_mode (codes "mtls")).0 mtls,
        ground (arith, enabled, mtls),
        ground (arith, port, mtls),
        ground (arith, pair, mtls),
        ground (arith, pair, mtls),
        ground (arith, ca, mtls),
      )
      | inr other ↦
          let token : text_eq c.pep.auth_mode (codes "token") ≡ true =
            ground (arith, mode, other) in
          inl ((text_eq_iff c.pep.auth_mode (codes "token")).0 token, ground (arith, tokens, token))
    ]

validate-IsSound : (env : Environment) (c : Config) → validate env c ≡ none → IsSound env c
unfolding validate checks server_checks oidc_checks sshca_checks device_ca_checks
validate-IsSound env c h =
    let pep = pep_checks c.pep c.pep_server in
    let device = device_ca_checks env c.device_ca in
    let ssh = sshca_checks env c.sshca in
    let database = database_checks env c.database in
    let oidc = oidc_checks env c.oidc in
    let (all_server, rest) =
      append-All IsPassed (server_checks c.server) (oidc ++ (database ++ (ssh ++ (device ++ pep))))
        (first_failing-none (checks env c) h) in
    let (all_oidc, rest1) = append-All IsPassed oidc (database ++ (ssh ++ (device ++ pep))) rest in
    let (_, rest2) = append-All IsPassed database (ssh ++ (device ++ pep)) rest1 in
    let (all_ssh, rest3) = append-All IsPassed ssh (device ++ pep) rest2 in
    let (all_device, all_pep) = append-All IsPassed device pep rest3 in
    let (_, ssh_ttl) = all_ssh in
    let (_, (_, keys)) = all_device in
    let (device_ttl, _) =
      append-All IsPassed
        (ttl_checks env c.device_ca.default_ttl c.device_ca.min_ttl c.device_ca.max_ttl
          device_ca_ttl)
        ((has_other_key_type c.device_ca.allowed_key_types, device_ca_key_types) ∷ []) keys in
    let (port, (tls, _)) = all_server in
    let (issuer, (http, (audience, (_, (_, (algs, (only, _))))))) = all_oidc in
    record {
      port = not-false port;
      public_tls = λ on. (ground (arith, tls, on), ground (arith, tls, on));
      issuer = issuer;
      secure_issuer = λ plain. ground (arith, http, plain);
      audience = audience;
      algs = has_other_alg-All c.oidc.allowed_algs only;
      some_alg = algs;
      gateways = pep_checks-AuthenticatesGateways c all_pep;
      ssh_ttl = ttl_checks-AreOrdered env _ _ _ sshca_ttl ssh_ttl;
      device_ttl = ttl_checks-AreOrdered env _ _ _ device_ca_ttl device_ttl;
    }

checked-loaded :
    (c c' : Config) (o : Option ConfigError) → checked c o ≡ loaded c' → (o ≡ none) × (c ≡ c')
checked-loaded c c' none e = (refl, ground (arith, e))
checked-loaded c c' (some problem) e = ground (arith, e)

-- What the defaults add to the checks.
abbrev pub IsServed : Config → Type 0
IsServed c =
    (is_positive c.pep.decision_ttl_seconds ≡ true)
    × (c.pep.auth_mode ≡ codes "mtls" → c.pep_server.tls.require_client_auth ≡ true)

apply_defaults-IsServed : (c : Config) → IsServed (apply_defaults c)
unfolding apply_defaults pep_defaults pep_server_defaults
apply_defaults-IsServed c = (
  ground arith,
  (λ mtls.
      rw ((text_eq_iff (or_default (codes "mtls") c.pep.auth_mode) (codes "mtls")).1 mtls) refl),
)

-- A configuration that is loaded is sound: ports are valid, the tokens of users are checked for an
-- audience, with RS256 alone and keys that come over plain HTTP only where this is allowed,
-- gateways prove their identity by a configured token or by a certificate on a server that asks
-- for one, lifetimes have ordered bounds, and decisions live for a positive time.
pub load-IsSound :
    (env : Environment) (file : Config) (c : Config)
    → load env (some file) ≡ loaded c
    → IsSound env c × IsServed c
unfolding load
load-IsSound env file c e =
    let (valid, same) =
      checked-loaded (apply_defaults file) c (validate env (apply_defaults file)) e in
    (
      subst (IsSound env) same (validate-IsSound env (apply_defaults file) valid),
      subst IsServed same (apply_defaults-IsServed file),
    )
