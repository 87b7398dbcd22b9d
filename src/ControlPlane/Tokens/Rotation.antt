-- ===== src/ControlPlane/Tokens/Rotation.antt =====
-- Which key a token is checked with: never one that the provider did not offer, and a new one as
-- soon as it is asked for.
use ztna_project.Base.{
  ℕ, ◌+◌, ◌≤◌, ◌≡◌, refl, ap, ◌∙◌, ◌⊎◌, inl, inr, true, false, Option, none, some, List, [], ◌∷◌,
  arith, Bool-cases, ltb, Text, text_eq, text_eq_iff, text_eq_refl, is_empty, lookup, lookup-insert,
  trim_space, IsIn,
}
use ztna_project.ControlPlane.Tokens.{
  Jwk, JwksCache, Validator, is_usable, add_key, usable_keys, cached_key, Clock, refresh_jwks,
  after_refresh, after_cached, key_for_kid,
}
use ztna_project.ControlPlane.Tokens.Keys.{
  Offers, usable_keys-Offers, Call, run, WasOffered, run-IsFed, refreshed,
}

not_after : (a b : ℕ) → ltb a b ≡ false → b ≤ a
not_after a b h = ground (arith, h)

cached_key-some :
    (now : ℕ) (kid key : Text) (c : JwksCache)
    → cached_key now kid c ≡ some key
    → (now ≤ c.expires_at) × (lookup kid c.keys ≡ some key)
unfolding cached_key
cached_key-some now kid key c e = elim (Bool-cases (ltb c.expires_at now)) [
  | inl expired ↦
      let clash : none ≡ some key = rw (expired, cached_key) at e in ground (arith, clash)
  | inr valid ↦ (not_after c.expires_at now valid, (rw (valid, cached_key) at e))
]

-- The key of a call comes from the cache as it was, or from the fetch of the call.
after_refresh-some :
    (t : Clock) (kid key : Text) (fetched : Option (List Jwk)) (v : Validator)
    → (after_refresh t kid v (refresh_jwks t true fetched v)).1 ≡ some key
    → (set : List Jwk) × (fetched ≡ some set) × Offers set kid key
unfolding lookup
after_refresh-some t kid key fetched v e = elim (refreshed t fetched v) [
  | inl (_, failed) ↦
      let clash : none ≡ some key = rw (failed, after_refresh) at e in ground (arith, clash)
  | inr (set, offered, done) ↦
      let (_, found) =
        cached_key-some t.after kid key
          (record { keys = usable_keys set []; expires_at = t.fetched_at + v.cache_ttl })
          (rw (done, after_refresh) at e) in
      elim (usable_keys-Offers set [] kid key found) [
        | inl offers ↦ (set, offered, offers)
        | inr held ↦ ground (arith, held)
      ]
]

after_cached-some :
    (t : Clock) (kid key : Text) (fetched : Option (List Jwk)) (v : Validator) (o : Option Text)
    → (after_cached t kid fetched v o).1 ≡ some key
    → (o ≡ some key) ⊎ ((set : List Jwk) × (fetched ≡ some set) × Offers set kid key)
after_cached-some t kid key fetched v (some k) e = inl e
after_cached-some t kid key fetched v none e = inr (after_refresh-some t kid key fetched v e)

-- After any history of calls on a new validator, a token is checked with a key only if the provider
-- offers it under the token's key identifier in the fetch of this call, or offered it so in one
-- whose result has not outlived the configured lifetime when this call begins.
pub key_for_kid-run :
    (calls : List Call) (v : Validator) (t : Clock) (kid key : Text) (fetched : Option (List Jwk))
    → v.cache.keys ≡ []
    → (key_for_kid t kid fetched (run calls v)).1 ≡ some key
    → ((set : List Jwk) × (fetched ≡ some set) × Offers set kid key)
      ⊎ ((at : ℕ) × WasOffered calls kid key at × (t.now ≤ at + v.cache_ttl))
unfolding key_for_kid
key_for_kid-run calls v t kid key fetched empty e =
    let now = run calls v in
    elim (Bool-cases (is_empty (trim_space kid))) [
      | inl blank ↦
          let clash : none ≡ some key = rw (blank, key_for_kid) at e in ground (arith, clash)
      | inr named ↦
          let e1 : (after_cached t kid fetched now (cached_key t.now kid now.cache)).1 ≡ some key =
            rw (named, key_for_kid) at e in
          elim (after_cached-some t kid key fetched now (cached_key t.now kid now.cache) e1) [
            | inr fresh ↦ inl fresh
            | inl kept ↦
                let (valid, found) = cached_key-some t.now kid key now.cache kept in
                let (at, offered, expires) = (run-IsFed calls v empty).1 kid key found in
                inr (at, offered, ground (arith, valid, expires))
          ]
    ]

-- No usable key of the set has this identifier but with this material.
abbrev pub IsOnly : List Jwk → (kid key : Text) → Type 0
IsOnly set kid key =
    (k : Jwk)
    → IsIn k set
    → k.key_id ≡ kid
    → is_usable k ≡ true
    → (k.key ≡ none) ⊎ (k.key ≡ some key)

add_key-keeps :
    (id : Text) (o : Option Text) (kid key : Text) (acc : List (Text × Text))
    → (id ≡ kid → (o ≡ none) ⊎ (o ≡ some key))
    → lookup kid acc ≡ some key
    → lookup kid (add_key id o acc) ≡ some key
add_key-keeps id none kid key acc only held = held
add_key-keeps id (some material) kid key acc only held = elim (Bool-cases (text_eq id kid)) [
  | inr apart ↦ lookup-insert id kid material acc ∙ rw apart held
  | inl same ↦ elim (only ((text_eq_iff id kid).0 same)) [
    | inl nothing ↦ ground (arith, nothing)
    | inr material_is ↦ lookup-insert id kid material acc ∙ rw same material_is
  ]
]

usable_keys-keeps :
    (set : List Jwk) (acc : List (Text × Text)) (kid key : Text)
    → IsOnly set kid key
    → lookup kid acc ≡ some key
    → lookup kid (usable_keys set acc) ≡ some key
unfolding usable_keys
usable_keys-keeps [] acc kid key only held = held
usable_keys-keeps (k ∷ set) acc kid key only held =
    usable_keys-keeps set _ kid key (λ j among. only j (inr among))
      (elim (Bool-cases (is_usable k)) [
        | inl usable ↦ rw usable (
            add_key-keeps k.key_id k.key kid key acc (λ named. only k (inl refl) named usable) held)
        | inr useless ↦ rw useless held
      ])

usable_keys-offered :
    (set : List Jwk) (acc : List (Text × Text)) (kid key : Text)
    → IsOnly set kid key
    → Offers set kid key
    → lookup kid (usable_keys set acc) ≡ some key
unfolding usable_keys
usable_keys-offered [] acc kid key only (j, among, _, _, _) = elim among [ ]
usable_keys-offered (k ∷ set) acc kid key only (j, inr among, named, material, usable) =
    usable_keys-offered set _ kid key (λ i within. only i (inr within))
      (j, among, named, material, usable)
usable_keys-offered (k ∷ set) acc kid key only (j, inl here, named, material, usable) =
    let usable' : is_usable k ≡ true = ap is_usable here ∙ usable in
    let held : lookup kid (add_key k.key_id k.key acc) ≡ some key =
      rw (ap (λ (i : Jwk). i.key_id) here ∙ named, ap (λ (i : Jwk). i.key) here ∙ material)
        (lookup-insert kid kid key acc ∙ rw (text_eq_refl kid) refl) in
    usable_keys-keeps set _ kid key (λ i within. only i (inr within)) (rw usable' held)

cached_key-valid :
    (now : ℕ) (kid key : Text) (c : JwksCache)
    → now ≤ c.expires_at
    → lookup kid c.keys ≡ some key
    → cached_key now kid c ≡ some key
unfolding cached_key
cached_key-valid now kid key c valid found = ground (arith, valid, found)

refresh_jwks-forced :
    (t : Clock) (set : List Jwk) (v : Validator)
    → refresh_jwks t true (some set) v
      ≡ some (record v {
        cache = record { keys = usable_keys set []; expires_at = t.fetched_at + v.cache_ttl };
      })
unfolding refresh_jwks
refresh_jwks-forced t set v = ground arith

-- A token with a key identifier that the cache does not know, or no longer, is not refused for it:
-- the keys are fetched at once, and where the provider offers exactly one key under the identifier
-- and the cache is still valid at the second look, the token is checked with this key.
pub key_for_kid-rotated :
    (t : Clock) (kid key : Text) (set : List Jwk) (v : Validator)
    → is_empty (trim_space kid) ≡ false
    → cached_key t.now kid v.cache ≡ none
    → Offers set kid key
    → IsOnly set kid key
    → t.after ≤ t.fetched_at + v.cache_ttl
    → (key_for_kid t kid (some set) v).1 ≡ some key
unfolding key_for_kid
key_for_kid-rotated t kid key set v named unknown offers only recent =
    let valid =
      cached_key-valid t.after kid key
        (record { keys = usable_keys set []; expires_at = t.fetched_at + v.cache_ttl }) recent
        (usable_keys-offered set [] kid key only offers) in
    rw (named, key_for_kid)
      (ap (λ o. (after_cached t kid (some set) v o).1) unknown
        ∙ ap (λ o. (after_refresh t kid v o).1) (refresh_jwks-forced t set v)
        ∙ valid)
