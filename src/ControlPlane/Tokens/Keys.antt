-- ===== src/ControlPlane/Tokens/Keys.antt =====
-- Where the keys come from with which tokens are checked.
use ztna_project.Base.{
  ℕ, ◌+◌, ◌≡◌, refl, sym, ap, ◌∙◌, ◌⊎◌, inl, inr, true, Option, none, some, List, [], ◌∷◌, arith,
  if◌then◌else◌, Bool-cases, Text, text_eq, text_eq_iff, is_empty, lookup, lookup-insert,
  trim_space, IsIn,
}
use ztna_project.ControlPlane.Tokens.{
  Jwk, Validator, is_usable, add_key, usable_keys, cached_key, Clock, refresh_jwks, after_refresh,
  after_cached, key_for_kid,
}

-- The set offers this key under the identifier, for signatures or for any use.
abbrev pub Offers : List Jwk → (kid key : Text) → Type 0
Offers set kid key =
    (k : Jwk) × IsIn k set × (k.key_id ≡ kid) × (k.key ≡ some key) × (is_usable k ≡ true)

Offers-more :
    (k : Jwk) (set : List Jwk) (kid key : Text) → Offers set kid key → Offers (k ∷ set) kid key
Offers-more k set kid key (j, among, named, material, usable) =
    (j, inr among, named, material, usable)

add_key-lookup :
    (id : Text) (o : Option Text) (kid key : Text) (acc : List (Text × Text))
    → lookup kid (add_key id o acc) ≡ some key
    → ((id ≡ kid) × (o ≡ some key)) ⊎ (lookup kid acc ≡ some key)
add_key-lookup id none kid key acc e = inr e
add_key-lookup id (some material) kid key acc e = elim (Bool-cases (text_eq id kid)) [
  | inl same ↦
      inl ((text_eq_iff id kid).0 same, (rw same at (sym (lookup-insert id kid material acc) ∙ e)))
  | inr apart ↦ inr (rw apart at (sym (lookup-insert id kid material acc) ∙ e))
]

pub usable_keys-Offers :
    (set : List Jwk) (acc : List (Text × Text)) (kid key : Text)
    → lookup kid (usable_keys set acc) ≡ some key
    → Offers set kid key ⊎ (lookup kid acc ≡ some key)
unfolding usable_keys
usable_keys-Offers [] acc kid key e = inr e
usable_keys-Offers (k ∷ set) acc kid key e =
    elim (usable_keys-Offers set (if is_usable k then add_key k.key_id k.key acc else acc) kid key
      e) [
        | inl later ↦ inl (Offers-more k set kid key later)
        | inr held ↦ elim (Bool-cases (is_usable k)) [
          | inl usable ↦ elim (add_key-lookup k.key_id k.key kid key acc (rw usable at held)) [
            | inl (named, material) ↦ inl (k, inl refl, named, material, usable)
            | inr before ↦ inr before
          ]
          | inr useless ↦ inr (rw useless at held)
        ]
      ]

-- One call: its clock, the identifier that it asks for, and what a fetch would give.
pub record Call : Type 0 where
  pub clock : Clock
  pub kid : Text
  pub fetched : Option (List Jwk)

unfoldable pub run : List Call → Validator → Validator
unfolding key_for_kid
run [] v = v
run (c ∷ calls) v = (key_for_kid c.clock c.kid c.fetched (run calls v)).0

-- The provider offered the key in a call of the history whose fetch ended at that time.
abbrev pub WasOffered : List Call → (kid key : Text) (at : ℕ) → Type 0
WasOffered calls kid key at =
    (c : Call) × (set : List Jwk) × IsIn c calls
    × (c.fetched ≡ some set)
    × Offers set kid key
    × (c.clock.fetched_at ≡ at)

abbrev IsFed : List Call → (ttl : ℕ) → Validator → Type 0
IsFed calls ttl v =
    (v.cache_ttl ≡ ttl)
    × ((kid key : Text)
        → lookup kid v.cache.keys ≡ some key
        → (at : ℕ) × WasOffered calls kid key at × (v.cache.expires_at ≡ at + ttl))

IsFed-more :
    (c : Call) (calls : List Call) (ttl : ℕ) (v : Validator)
    → IsFed calls ttl v
    → IsFed (c ∷ calls) ttl v
IsFed-more c calls ttl v (same, fed) = (
  same,
  (λ kid key found.
      (let (at, (d, set, among, fetched, offers, ended), expires) = fed kid key found in
        (at, (d, set, inr among, fetched, offers, ended), expires))),
)

lookup-nothing : (kid key : Text) → lookup {V = Text} kid [] ≡ some key → none ≡ some key
unfolding lookup
lookup-nothing kid key e = e

-- What a forced refresh leads to.
pub refreshed :
    (t : Clock) (fetched : Option (List Jwk)) (v : Validator)
    → ((fetched ≡ none) × (refresh_jwks t true fetched v ≡ none))
      ⊎ ((set : List Jwk) × (fetched ≡ some set)
          × (refresh_jwks t true fetched v
              ≡ some (record v {
                cache = record {
                  keys = usable_keys set [];
                  expires_at = t.fetched_at + v.cache_ttl;
                };
              })))
unfolding refresh_jwks
refreshed t none v = inl (refl, ground arith)
refreshed t (some set) v = inr (set, refl, ground arith)

step-IsFed :
    (c : Call) (calls : List Call) (ttl : ℕ) (v : Validator)
    → IsFed calls ttl v
    → IsFed
        (c ∷ calls)
        ttl
        (after_refresh c.clock c.kid v (refresh_jwks c.clock true c.fetched v)).0
step-IsFed c calls ttl v fed = elim (refreshed c.clock c.fetched v) [
  | inl (_, failed) ↦ rw failed (IsFed-more c calls ttl v fed)
  | inr (set, fetched, done) ↦ rw done (
    fed.0,
    (λ kid key found. elim (usable_keys-Offers set [] kid key found) [
      | inl offers ↦ (
        c.clock.fetched_at,
        (c, set, inl refl, fetched, offers, refl),
        ap (λ ttl. c.clock.fetched_at + ttl) fed.0,
      )
      | inr held ↦ ground (arith, lookup-nothing kid key held)
    ]),
  )
]

cached-IsFed :
    (c : Call) (calls : List Call) (ttl : ℕ) (v : Validator) (o : Option Text)
    → IsFed calls ttl v
    → IsFed (c ∷ calls) ttl (after_cached c.clock c.kid c.fetched v o).0
cached-IsFed c calls ttl v (some key) fed = IsFed-more c calls ttl v fed
cached-IsFed c calls ttl v none fed = step-IsFed c calls ttl v fed

key_for_kid-IsFed :
    (c : Call) (calls : List Call) (ttl : ℕ) (v : Validator)
    → IsFed calls ttl v
    → IsFed (c ∷ calls) ttl (key_for_kid c.clock c.kid c.fetched v).0
unfolding key_for_kid
key_for_kid-IsFed c calls ttl v fed = elim (Bool-cases (is_empty (trim_space c.kid))) [
  | inl blank ↦ rw (blank, key_for_kid) (IsFed-more c calls ttl v fed)
  | inr named ↦
      rw (named, key_for_kid)
        (cached-IsFed c calls ttl v (cached_key c.clock.now c.kid v.cache) fed)
]

pub run-IsFed :
    (calls : List Call) (v : Validator) → v.cache.keys ≡ [] → IsFed calls v.cache_ttl (run calls v)
unfolding run
run-IsFed [] v empty = (
  refl,
  (λ kid key found. ground (arith, lookup-nothing kid key (ap (lookup kid) (sym empty) ∙ found))),
)
run-IsFed (c ∷ calls) v empty =
    key_for_kid-IsFed c calls v.cache_ttl (run calls v) (run-IsFed calls v empty)
