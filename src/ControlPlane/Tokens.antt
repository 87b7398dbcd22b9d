-- ===== src/ControlPlane/Tokens.antt =====
-- control-plane/internal/security/oidc/validator.go: access tokens, their keys and their claims.
-- The JWT library (parsing, signatures, the check of the registered claims) is a record of
-- functions; the answer of the identity provider is an argument of each call, and so is the clock,
-- in nanoseconds. The TLS set-up of the HTTP client is left out.
pub mod Custom
pub mod Keys
pub mod Rotation
pub mod Trusted
pub mod Groups
use ztna_project.Base.{
  ℕ, ◌+◌, Bool, true, false, not, ◌&&◌, ◌||◌, Option, none, some, List, [], ◌∷◌, ◌++◌,
  if◌then◌else◌, ltb, ℤ, pos, negsuc, Text, codes, text_eq, is_empty, member, lookup, insert,
  trim_space, to_upper, has_byte, fields, split, trim_right,
}
pub use ztna_project.ControlPlane.Tokens.Custom.{Claim, text, items, other}
unfoldable pub use ztna_project.ControlPlane.Tokens.Custom.{
  claim_string, trimmed_parts, names_in, claim_strings,
}
use ztna_project.ControlPlane.Model.{Subject}
use ztna_project.ControlPlane.Config.{OidcConfig}

pub record StdClaims : Type 0 where
  pub issuer : Text
  pub subject : Text
  pub audience : List Text
  pub expires_at : Option ℕ

pub record Claims : Type 0 where
  pub std : StdClaims
  pub custom : List (Text × Claim)

pub record Header : Type 0 where
  pub algorithm : Text
  pub key_id : Text

-- A parsed token; its claims are read with a key that verifies it, `none` with any other.
pub record Token : Type 0 where
  pub headers : List Header
  pub claims : (key : Text) → Option Claims

-- A key of the provider's set; `key` is its material.
pub record Jwk : Type 0 where
  pub key_id : Text
  pub use_for : Text
  pub key : Option Text

-- The JWT library: jwt.ParseSigned with the algorithms that it accepts, and Claims.Validate.
pub record Jwt : Type 0 where
  pub parse_signed : (allowed : List Text) (raw : Text) → Option Token
  pub validate_std : (issuer : Text) (now : ℕ) → StdClaims → Bool

pub record JwksCache : Type 0 where
  pub keys : List (Text × Text)
  pub expires_at : ℕ

pub record Validator : Type 0 where
  pub issuer : Text
  pub audience : Text
  pub username_claim : Text
  pub groups_claim : Text
  pub audience_mode : Text
  pub allowed_algs : List Text
  pub cache_ttl : ℕ
  pub cache : JwksCache

unfoldable pub allowed_of : List Text → List Text
unfolding to_upper trim_space
allowed_of [] = []
allowed_of (alg ∷ rest) =
    let name = to_upper (trim_space alg) in
    if is_empty name then allowed_of rest else name ∷ allowed_of rest

abbrev pub with_ttl : OidcConfig → Option ℕ → Option Validator
with_ttl cfg none = none
with_ttl cfg (some ttl) = some (record {
  issuer = trim_right b'/' cfg.issuer;
  audience = cfg.audience;
  username_claim = cfg.username_claim;
  groups_claim = cfg.groups_claim;
  audience_mode = cfg.audience_mode;
  allowed_algs = allowed_of cfg.allowed_algs;
  cache_ttl = ttl;
  cache = record { keys = []; expires_at = 0 };
})

-- A duration that is not read is an error.
unfoldable new_validator : (parse_duration : Text → Option ℕ) → OidcConfig → Option Validator
unfolding allowed_of trim_right
new_validator parse_duration cfg = with_ttl cfg (parse_duration cfg.jwks_cache_ttl)

unfoldable pub audience_matches : Validator → Claims → Bool
unfolding claim_string
audience_matches v c =
    if is_empty v.audience
    then true
    else if text_eq v.audience_mode (codes "aud_or_azp")
    then member v.audience c.std.audience
      || text_eq (claim_string c.custom (codes "azp")) v.audience
    else member v.audience c.std.audience

-- The keys that refreshJWKS keeps: with an identifier and material, for signatures or for any use.
abbrev pub is_usable : Jwk → Bool
is_usable k = not (is_empty k.key_id) && (is_empty k.use_for || text_eq k.use_for (codes "sig"))

abbrev pub add_key : Text → Option Text → List (Text × Text) → List (Text × Text)
add_key kid none keys = keys
add_key kid (some material) keys = insert kid material keys

-- The loop adds the keys in their order; `acc` holds those before.
unfoldable pub usable_keys : List Jwk → (acc : List (Text × Text)) → List (Text × Text)
usable_keys [] acc = acc
usable_keys (k ∷ set) acc =
    usable_keys set (if is_usable k then add_key k.key_id k.key acc else acc)

unfoldable pub cached_key : (now : ℕ) (kid : Text) → JwksCache → Option Text
cached_key now kid c = if ltb c.expires_at now then none else lookup kid c.keys

-- The clock at each reading: before the fetch, at its end, and at the second look into the cache.
pub record Clock : Type 0 where
  pub now : ℕ
  pub fetched_at : ℕ
  pub after : ℕ

-- The outcome of a fetch is `none` for every error of the request, its status or its body.
abbrev pub stored : Validator → (fetched_at : ℕ) → Option (List Jwk) → Option JwksCache
stored v fetched_at none = none
stored v fetched_at (some set) =
    some (record { keys = usable_keys set []; expires_at = fetched_at + v.cache_ttl })

-- `none` is an error; a valid cache is kept where nothing forces a fetch.
unfoldable pub refresh_jwks :
    Clock → (force : Bool) (fetched : Option (List Jwk)) → Validator → Option Validator
unfolding usable_keys
refresh_jwks t force fetched v =
    if ltb t.now v.cache.expires_at && not force
    then some v
    else elim (stored v t.fetched_at fetched) [
      | none ↦ none
      | some cache ↦ some (record v { cache = cache })
    ]

abbrev pub after_refresh : Clock → Text → Validator → Option Validator → Validator × Option Text
after_refresh t kid v none = (v, none)
after_refresh t kid v (some v') = (v', cached_key t.after kid v'.cache)

abbrev pub after_cached :
    Clock → Text → Option (List Jwk) → Validator → Option Text → Validator × Option Text
after_cached t kid fetched v (some key) = (v, some key)
after_cached t kid fetched v none = after_refresh t kid v (refresh_jwks t true fetched v)

unfoldable pub key_for_kid :
    Clock → (kid : Text) → (fetched : Option (List Jwk)) → Validator → Validator × Option Text
unfolding cached_key refresh_jwks
key_for_kid t kid fetched v =
    if is_empty (trim_space kid)
    then (v, none)
    else after_cached t kid fetched v (cached_key t.now kid v.cache)

-- The user that the claims name; the username falls back on the subject.
unfoldable pub subject_of : Validator → Claims → Subject
unfolding claim_string claim_strings
subject_of v c =
    let name = claim_string c.custom v.username_claim in
    record {
      sub = c.std.subject;
      username = if is_empty name then c.std.subject else name;
      groups = claim_strings c.custom v.groups_claim;
    }

abbrev pub after_claims : Jwt → Validator → (now : ℕ) → Option Claims → Option Subject
after_claims jwt v now none = none
after_claims jwt v now (some c) =
    if not (jwt.validate_std v.issuer now c.std) || not (audience_matches v c)
    then none
    else some (subject_of v c)

abbrev pub after_key : Jwt → Clock → Token → Validator × Option Text → Validator × Option Subject
after_key jwt t token (v, none) = (v, none)
after_key jwt t token (v, some key) = (v, after_claims jwt v t.after (token.claims key))

abbrev pub after_header :
    Jwt → Clock → Option (List Jwk) → Token → List Header → Validator → Validator × Option Subject
after_header jwt t fetched token [] v = (v, none)
after_header jwt t fetched token (h ∷ hs) v =
    if is_empty h.algorithm || not (member (to_upper h.algorithm) v.allowed_algs)
    then (v, none)
    else after_key jwt t token (key_for_kid t h.key_id fetched v)

abbrev pub after_parse :
    Jwt → Clock → Option (List Jwk) → Option Token → Validator → Validator × Option Subject
after_parse jwt t fetched none v = (v, none)
after_parse jwt t fetched (some token) v = after_header jwt t fetched token token.headers v

-- Validate: `none` for each of its errors, which the middleware does not tell apart.
unfoldable pub validate :
    Jwt
    → Clock
    → (fetched : Option (List Jwk)) (raw : Text) → Validator
    → Validator × Option Subject
unfolding key_for_kid audience_matches subject_of
validate jwt t fetched raw v = after_parse jwt t fetched (jwt.parse_signed v.allowed_algs raw) v
