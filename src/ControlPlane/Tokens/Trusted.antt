-- ===== src/ControlPlane/Tokens/Trusted.antt =====
-- Which tokens are accepted, and what is taken from them.
use mathlib.Core.Path.{subst}
use ztna_project.Base.{
  ℕ, ◌+◌, ◌≤◌, ◌≡◌, refl, ap, sym, if◌then◌else◌, ◌∙◌, ◌⊎◌, inl, inr, true, not, ◌||◌, Option, none,
  some, List, [], ◌∷◌, arith, Bool-cases, Text, codes, text_eq_iff, is_empty, member, to_upper,
  trim_space,
}
use ztna_project.ControlPlane.Model.{Subject}
use ztna_project.ControlPlane.Tokens.{
  Claims, Header, Token, Jwk, Jwt, JwksCache, cached_key, refresh_jwks, after_refresh, after_cached,
  Validator, claim_string, claim_strings, audience_matches, Clock, key_for_kid, subject_of,
  after_claims, after_key, after_header, after_parse, validate,
}
use ztna_project.ControlPlane.Tokens.Keys.{Offers, Call, run, WasOffered, refreshed}
use ztna_project.ControlPlane.Tokens.Rotation.{key_for_kid-run}

-- The token is for this audience: it says so, or where the mode allows it, it was issued for this
-- party; without a configured audience every token is.
abbrev IsAudience : Validator → Claims → Type 0
IsAudience v c =
    (v.audience ≡ [])
    ⊎ ((member v.audience c.std.audience ≡ true)
        ⊎ ((v.audience_mode ≡ codes "aud_or_azp")
            × (claim_string c.custom (codes "azp") ≡ v.audience)))

empty-eq : (t : Text) → is_empty t ≡ true → t ≡ []
empty-eq [] e = refl
empty-eq (c ∷ t) e = ground (arith, e)

audience_matches-IsAudience :
    (v : Validator) (c : Claims) → audience_matches v c ≡ true → IsAudience v c
unfolding audience_matches
audience_matches-IsAudience v c e = elim (Bool-cases (is_empty v.audience)) [
  | inl unset ↦ inl (empty-eq v.audience unset)
  | inr set ↦ elim (Bool-cases (member v.audience c.std.audience)) [
    | inl listed ↦ inr (inl listed)
    | inr unlisted ↦ inr (
        inr (
          ground (arith, e, set, unlisted, text_eq_iff v.audience_mode (codes "aud_or_azp")),
          ground (
            arith,
            e,
            set,
            unlisted,
            text_eq_iff (claim_string c.custom (codes "azp")) v.audience,
          ),
        ))
  ]
]

-- The key was offered by the provider, in this call or in an earlier one that has not outlived the
-- lifetime of the keys.
abbrev pub IsOffered : List Call → Validator → Clock → Option (List Jwk) → (kid key : Text) → Type 0
IsOffered calls v t fetched kid key =
    ((set : List Jwk) × (fetched ≡ some set) × Offers set kid key)
    ⊎ ((at : ℕ) × WasOffered calls kid key at × (t.now ≤ at + v.cache_ttl))

-- The user that the claims name: with the subject's identifier, the name and the groups under the
-- configured claims, and the identifier for a name that is missing.
abbrev IsTaken : Validator → Claims → Subject → Type 0
IsTaken v c subject =
    let name = claim_string c.custom v.username_claim in
    (subject.sub ≡ c.std.subject)
    × (subject.username ≡ (if is_empty name then c.std.subject else name))
    × (subject.groups ≡ claim_strings c.custom v.groups_claim)

-- What the validation reads of its configuration, and finds; `h` is the token's first header.
abbrev pub IsValidated :
    Jwt
    → Clock
    → (raw : Text) → Subject
    → Token
    → Header
    → (key : Text) → Claims
    → Validator
    → Type 0
IsValidated jwt t raw subject token h key c v =
    (jwt.parse_signed v.allowed_algs raw ≡ some token)
    × ((others : List Header) × (token.headers ≡ h ∷ others))
    × (member (to_upper h.algorithm) v.allowed_algs ≡ true)
    × (token.claims key ≡ some c)
    × (jwt.validate_std v.issuer t.after c.std ≡ true)
    × IsAudience v c
    × IsTaken v c subject

subject_of-IsTaken :
    (v : Validator) (c : Claims) (subject : Subject)
    → subject_of v c ≡ subject
    → IsTaken v c subject
unfolding subject_of
subject_of-IsTaken v c subject e =
    (ap (λ x. x.sub) (sym e), ap (λ x. x.username) (sym e), ap (λ x. x.groups) (sym e))

after_claims-some :
    (jwt : Jwt) (v : Validator) (now : ℕ) (o : Option Claims) (subject : Subject)
    → after_claims jwt v now o ≡ some subject
    → (c : Claims) × (o ≡ some c)
      × (jwt.validate_std v.issuer now c.std ≡ true)
      × IsAudience v c
      × IsTaken v c subject
after_claims-some jwt v now none subject e = ground (arith, e)
after_claims-some jwt v now (some c) subject e =
    elim (Bool-cases (not (jwt.validate_std v.issuer now c.std) || not (audience_matches v c))) [
      | inl refused ↦
          let clash : none ≡ some subject = rw (refused, after_claims) at e in ground (arith, clash)
      | inr passed ↦
          let same : some (subject_of v c) ≡ some subject = rw (passed, after_claims) at e in
          (
            c,
            refl,
            ground (arith, passed),
            audience_matches-IsAudience v c (ground (arith, passed)),
            subject_of-IsTaken v c subject (ground (arith, same)),
          )
    ]

after_key-some :
    (jwt : Jwt) (t : Clock) (token : Token) (p : Validator × Option Text) (subject : Subject)
    → (after_key jwt t token p).1 ≡ some subject
    → (key : Text) × (p.1 ≡ some key)
      × (after_claims jwt p.0 t.after (token.claims key) ≡ some subject)
after_key-some jwt t token (v, none) subject e = ground (arith, e)
after_key-some jwt t token (v, some key) subject e = (key, refl, e)

-- The key's cache is all that a call changes.
abbrev SameBut : Validator → Validator → Type 0
SameBut v w = (cache : JwksCache) × (w ≡ record v { cache = cache })

after_refresh-SameBut :
    (t : Clock) (kid : Text) (fetched : Option (List Jwk)) (v : Validator)
    → SameBut v (after_refresh t kid v (refresh_jwks t true fetched v)).0
after_refresh-SameBut t kid fetched v = elim (refreshed t fetched v) [
  | inl (_, failed) ↦ (v.cache, ap (λ o. (after_refresh t kid v o).0) failed)
  | inr (set, _, done) ↦ (_, ap (λ o. (after_refresh t kid v o).0) done)
]

after_cached-SameBut :
    (t : Clock) (kid : Text) (fetched : Option (List Jwk)) (v : Validator) (o : Option Text)
    → SameBut v (after_cached t kid fetched v o).0
after_cached-SameBut t kid fetched v (some key) = (v.cache, refl)
after_cached-SameBut t kid fetched v none = after_refresh-SameBut t kid fetched v

key_for_kid-SameBut :
    (t : Clock) (kid : Text) (fetched : Option (List Jwk)) (v : Validator)
    → SameBut v (key_for_kid t kid fetched v).0
unfolding key_for_kid
key_for_kid-SameBut t kid fetched v = elim (Bool-cases (is_empty (trim_space kid))) [
  | inl blank ↦ (v.cache, rw (blank, key_for_kid) refl)
  | inr named ↦
      let (cache, same) = after_cached-SameBut t kid fetched v (cached_key t.now kid v.cache) in
      (cache, rw (named, key_for_kid) same)
]

run-SameBut : (calls : List Call) (v : Validator) → SameBut v (run calls v)
unfolding run
run-SameBut [] v = (v.cache, refl)
run-SameBut (c ∷ calls) v =
    let (_, before) = run-SameBut calls v in
    let (cache, after) = key_for_kid-SameBut c.clock c.kid c.fetched (run calls v) in
    (cache, after ∙ ap (λ (w : Validator). record w { cache = cache }) before)

after_header-some :
    (jwt : Jwt) (t : Clock) (fetched : Option (List Jwk)) (raw : Text) (token : Token)
    (hs : List Header) (v : Validator) (subject : Subject)
    → jwt.parse_signed v.allowed_algs raw ≡ some token
    → token.headers ≡ hs
    → (after_header jwt t fetched token hs v).1 ≡ some subject
    → (h : Header) × (key : Text) × (c : Claims) × ((key_for_kid t h.key_id fetched v).1 ≡ some key)
      × IsValidated jwt t raw subject token h key c v
after_header-some jwt t fetched raw token [] v subject parsed first e = ground (arith, e)
after_header-some jwt t fetched raw token (h ∷ hs) v subject parsed first e =
    elim (Bool-cases (is_empty h.algorithm || not (member (to_upper h.algorithm) v.allowed_algs))) [
      | inl refused ↦
          let clash : none ≡ some subject = rw (refused, after_header) at e in ground (arith, clash)
      | inr passed ↦
          let e1 : (after_key jwt t token (key_for_kid t h.key_id fetched v)).1 ≡ some subject =
            rw (passed, after_header) at e in
          let (key, found, e2) = after_key-some jwt t token _ subject e1 in
          let (cache, same) = key_for_kid-SameBut t h.key_id fetched v in
          let (c, verified, std, audience, taken) =
            after_claims-some jwt (record v { cache = cache }) t.after (token.claims key) subject
              (subst (λ w. after_claims jwt w t.after (token.claims key) ≡ some subject) same e2) in
          (
            h,
            key,
            c,
            found,
            (parsed, (hs, first), ground (arith, passed), verified, std, audience, taken),
          )
    ]

after_parse-some :
    (jwt : Jwt) (t : Clock) (fetched : Option (List Jwk)) (raw : Text) (o : Option Token)
    (v : Validator) (subject : Subject)
    → jwt.parse_signed v.allowed_algs raw ≡ o
    → (after_parse jwt t fetched o v).1 ≡ some subject
    → (token : Token) × (h : Header) × (key : Text) × (c : Claims) × ((key_for_kid t h.key_id
          fetched v).1
        ≡ some key)
      × IsValidated jwt t raw subject token h key c v
after_parse-some jwt t fetched raw none v subject parsed e = ground (arith, e)
after_parse-some jwt t fetched raw (some token) v subject parsed e =
    let (h, key, c, found, validated) =
      after_header-some jwt t fetched raw token token.headers v subject parsed refl e in
    (token, h, key, c, found, validated)

-- A user is accepted, after any history of calls on a new validator, only with a token that the
-- library parses under the allowed algorithms, with one of them in its first header, with claims that a
-- key verifies which the provider offers under that header's key identifier in this call, or offered
-- no longer ago than the lifetime of the keys; the library finds the claims valid for the issuer
-- and the time, the token is for the configured audience, and the user is the one in the claims.
pub validate-IsTrusted :
    (jwt : Jwt) (calls : List Call) (v : Validator) (t : Clock) (fetched : Option (List Jwk))
    (raw : Text) (subject : Subject)
    → v.cache.keys ≡ []
    → (validate jwt t fetched raw (run calls v)).1 ≡ some subject
    → (token : Token) × (h : Header) × (key : Text) × (c : Claims) × IsOffered calls v t fetched
        h.key_id key
      × IsValidated jwt t raw subject token h key c v
unfolding validate
validate-IsTrusted jwt calls v t fetched raw subject empty e =
    let w = run calls v in
    let (token, h, key, c, found, validated) =
      after_parse-some jwt t fetched raw (jwt.parse_signed w.allowed_algs raw) w subject refl e in
    let (cache, same) = run-SameBut calls v in
    let there = subst (IsValidated jwt t raw subject token h key c) same validated in
    (token, h, key, c, key_for_kid-run calls v t h.key_id key fetched empty found, there)
