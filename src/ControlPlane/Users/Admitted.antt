-- ===== src/ControlPlane/Users/Admitted.antt =====
-- Whom the middleware lets through.
use ztna_project.Base.{
  ◌≡◌, refl, ap, ◌∙◌, ◌⊎◌, inl, inr, true, false, Option, none, some, List, [], ◌∷◌, arith,
  Bool-cases, Text, codes, text_eq, text_eq_iff, is_empty, equal_fold, split_two, trim_space,
  after_prefix, after_prefix_iff, IsIn, ◌↔◌,
}
use ztna_project.ControlPlane.Model.{Subject, forbidden, ok, err, past_guard, ok-injective}
use ztna_project.ControlPlane.Tokens.{Claims, Header, Token, Jwk, Jwt, Validator, Clock, validate}
use ztna_project.ControlPlane.Tokens.Keys.{Call, run}
use ztna_project.ControlPlane.Tokens.Trusted.{IsOffered, IsValidated, validate-IsTrusted}
use ztna_project.ControlPlane.Users.{
  bearer_of, bearer_token, or_unauthorized, after_bearer, require_user, without_slash,
  has_admin_group, require_admin,
}

-- The group is among the user's, or it is there with a slash before it.
abbrev pub IsAdmin : (admin_group : Text) → Subject → Type 0
IsAdmin admin_group s =
    (group : Text) × IsIn group s.groups × ((group ≡ admin_group) ⊎ (group ≡ b'/' ∷ admin_group))

without_slash-eq :
    (group name : Text) (o : Option Text)
    → after_prefix (codes "/") group ≡ o
    → without_slash group o ≡ name
    → (group ≡ name) ⊎ (group ≡ b'/' ∷ name)
without_slash-eq group name none e h = inl h
without_slash-eq group name (some rest) e h =
    inr ((after_prefix_iff (codes "/") group rest).0 e ∙ ap (λ r. b'/' ∷ r) h)

has_admin_group-some :
    (admin_group : Text) (groups : List Text)
    → has_admin_group admin_group groups ≡ true
    → (group : Text) × IsIn group groups × ((group ≡ admin_group) ⊎ (group ≡ b'/' ∷ admin_group))
unfolding has_admin_group
has_admin_group-some admin_group [] e = ground (arith, e)
has_admin_group-some admin_group (g ∷ rest) e =
    elim (Bool-cases (text_eq (without_slash g (after_prefix (codes "/") g)) admin_group)) [
      | inl stripped ↦ (
        g,
        inl refl,
        without_slash-eq g admin_group _ refl ((text_eq_iff _ admin_group).0 stripped),
      )
      | inr other ↦ elim (Bool-cases (text_eq g admin_group)) [
        | inl same ↦ (g, inl refl, inl ((text_eq_iff g admin_group).0 same))
        | inr apart ↦
            let (h, among, named) =
              has_admin_group-some admin_group rest (ground (arith, e, other, apart)) in
            (h, inr among, named)
      ]
    ]

some-has_admin_group :
    (admin_group : Text) (groups : List Text) (group : Text)
    → IsIn group groups
    → (group ≡ admin_group) ⊎ (group ≡ b'/' ∷ admin_group)
    → has_admin_group admin_group groups ≡ true
unfolding has_admin_group
some-has_admin_group admin_group [] group among named = elim among [ ]
some-has_admin_group admin_group (g ∷ rest) group (inr among) named =
    ground (arith, some-has_admin_group admin_group rest group among named)
some-has_admin_group admin_group (g ∷ rest) group (inl here) (inl same) =
    ground (arith, (text_eq_iff g admin_group).1 (here ∙ same))
some-has_admin_group admin_group (g ∷ rest) group (inl here) (inr slashed) =
    let found = (after_prefix_iff (codes "/") g admin_group).1 (here ∙ slashed) in
    let stripped : without_slash g (after_prefix (codes "/") g) ≡ admin_group =
      ap (without_slash g) found in
    ground
      (arith, (text_eq_iff (without_slash g (after_prefix (codes "/") g)) admin_group).1 stripped)

-- An administrator's route is open exactly to an authenticated user who has the configured group,
-- with or without a slash before it; to nobody where no group is configured.
pub require_admin_iff :
    (admin_group : Text) (user : Option Subject) (s : Subject)
    → (require_admin admin_group user ≡ ok s)
      ↔ ((user ≡ some s) × (is_empty admin_group ≡ false) × IsAdmin admin_group s)
unfolding require_admin
require_admin_iff admin_group none s =
    ((λ e. ground (arith, e)), (λ (absent, _, _). ground (arith, absent)))
require_admin_iff admin_group (some subject) s = (
  (λ e.
      (let (set, e1) = past_guard (is_empty admin_group) forbidden _ _ e in
        elim (Bool-cases (has_admin_group admin_group subject.groups)) [
          | inl member ↦
              let same : ok subject ≡ ok s = rw member at e1 in
              let eq = ok-injective same in
              let (g, among, named) = has_admin_group-some admin_group subject.groups member in
              (ap some eq, set, (g, (rw (ap (λ (x : Subject). x.groups) eq) at among), named))
          | inr outsider ↦
              let clash : err forbidden ≡ ok s = rw outsider at e1 in ground (arith, clash)
        ])),
  (λ (same, set, (g, among, named)).
      (let eq : subject ≡ s = ground (arith, same) in
        let held =
          ap (λ (x : Subject). has_admin_group admin_group x.groups) eq
          ∙ some-has_admin_group admin_group s.groups g among named in
        rw (set, held) (ap ok eq))),
)

-- A header of the form that the middleware asks for.
abbrev pub IsBearer : (header raw : Text) → Type 0
IsBearer header raw =
    (scheme : Text) × (rest : Text) × (split_two b' ' header ≡ some (scheme, rest))
    × (equal_fold scheme (codes "Bearer") ≡ true)
    × (trim_space rest ≡ raw)

bearer_of-some :
    (o : Option (Text × Text)) (raw : Text)
    → bearer_of o ≡ some raw
    → (scheme : Text) × (rest : Text) × (o ≡ some (scheme, rest))
      × (equal_fold scheme (codes "Bearer") ≡ true)
      × (trim_space rest ≡ raw)
bearer_of-some none raw e = ground (arith, e)
bearer_of-some (some (scheme, rest)) raw e =
    elim (Bool-cases (equal_fold scheme (codes "Bearer"))) [
      | inl bearer ↦
          let same : some (trim_space rest) ≡ some raw = rw (bearer, bearer_of) at e in
          (scheme, rest, refl, bearer, ground (arith, same))
      | inr other ↦
          let clash : none ≡ some raw = rw (other, bearer_of) at e in ground (arith, clash)
    ]

bearer_token-IsBearer : (header raw : Text) → bearer_token header ≡ some raw → IsBearer header raw
unfolding bearer_token
bearer_token-IsBearer header raw e = elim (Bool-cases (is_empty header)) [
  | inl empty ↦ let clash : none ≡ some raw = rw (empty, bearer_token) at e in ground (arith, clash)
  | inr filled ↦ bearer_of-some (split_two b' ' header) raw (rw (filled, bearer_token) at e)
]

or_unauthorized-ok :
    (p : Validator × Option Subject) (s : Subject) → (or_unauthorized p).1 ≡ ok s → p.1 ≡ some s
or_unauthorized-ok (v, none) s e = ground (arith, e)
or_unauthorized-ok (v, some subject) s e = ap some (ok-injective e)

after_bearer-ok :
    (jwt : Jwt) (t : Clock) (fetched : Option (List Jwk)) (o : Option Text) (v : Validator)
    (s : Subject)
    → (after_bearer jwt t fetched o v).1 ≡ ok s
    → (raw : Text) × (o ≡ some raw) × ((validate jwt t fetched raw v).1 ≡ some s)
after_bearer-ok jwt t fetched none v s e = ground (arith, e)
after_bearer-ok jwt t fetched (some raw) v s e = (raw, refl, or_unauthorized-ok _ s e)

-- A user passes the middleware only with a token in a header of the bearer scheme, and only if the
-- token is trusted: verified with a key that the provider offers or has offered within the lifetime
-- of the keys, under an allowed algorithm, for the issuer, the time and the audience.
pub require_user-IsTrusted :
    (jwt : Jwt) (calls : List Call) (v : Validator) (t : Clock) (fetched : Option (List Jwk))
    (header : Text) (s : Subject)
    → v.cache.keys ≡ []
    → (require_user jwt t fetched header (run calls v)).1 ≡ ok s
    → (raw : Text) × IsBearer header raw
      × ((token : Token) × (h : Header) × (key : Text) × (c : Claims) × IsOffered calls v t fetched
            h.key_id key
          × IsValidated jwt t raw s token h key c v)
unfolding require_user
require_user-IsTrusted jwt calls v t fetched header s empty e =
    let (raw, bearer, valid) =
      after_bearer-ok jwt t fetched (bearer_token header) (run calls v) s e in
    (
      raw,
      bearer_token-IsBearer header raw bearer,
      validate-IsTrusted jwt calls v t fetched raw s empty valid,
    )
