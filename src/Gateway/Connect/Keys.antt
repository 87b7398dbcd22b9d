-- ===== src/Gateway/Connect/Keys.antt =====
-- The decisions of the cache and those of the control plane.
use ztna_project.Base.{
  ℕ, ◌≡◌, refl, ap, sym, ◌∙◌, ◌↔◌, ◌⊎◌, inl, inr, Option, none, some, ◌∷◌, ◌++◌, arith, pos, Text,
  Lacks, split_two, split_two-append, format_ℤ, format_ℕ-injective,
}
use ztna_project.Gateway.Cache.{Cache, DecisionEntry, get}
use ztna_project.Gateway.Identity.{SubjectRef}
use ztna_project.Gateway.Connect.{
  ResourceTarget, AuthzResponse, Handler, Arrival, cache_key, cached_response, authz_request,
  after_get, after_authorize, resolve_decision,
}

-- The decision is that of an entry of the cache that is not over, for the same key; or it is the
-- answer of the control plane to the request for this subject, action and resource.
abbrev ComesFrom :
    Handler → Arrival → SubjectRef → Text → ResourceTarget → Option Cache → AuthzResponse → Type 0
ComesFrom h a subject action r cache d =
    ((c : Cache) × (entry : DecisionEntry) × (cache ≡ some c)
      × ((get (cache_key subject action r) a.now c).1 ≡ some entry)
      × (d ≡ cached_response entry))
    ⊎ (h.authorize (authz_request h a subject action r) ≡ some d)

some-injective : {x y : AuthzResponse} → some x ≡ some y → x ≡ y
some-injective e = ground (arith, e)

after_authorize-some :
    (h : Handler) (a : Arrival) (key : Text) (cache : Option Cache) (o : Option AuthzResponse)
    (d : AuthzResponse)
    → (after_authorize h a key cache o).1 ≡ some d
    → o ≡ some d
after_authorize-some h a key cache none d e = e
after_authorize-some h a key cache (some x) d e = e

after_get-ComesFrom :
    (h : Handler) (a : Arrival) (subject : SubjectRef) (action : Text) (r : ResourceTarget)
    (c : Cache) (g : Cache × Option DecisionEntry) (d : AuthzResponse)
    → get (cache_key subject action r) a.now c ≡ g
    → (after_get h a subject action r g).1 ≡ some d
    → ComesFrom h a subject action r (some c) d
after_get-ComesFrom h a subject action r c (c', some entry) d found e =
    inl (c, entry, refl, ap (λ x. x.1) found, sym (some-injective e))
after_get-ComesFrom h a subject action r c (c', none) d found e = inr (
    after_authorize-some h a (cache_key subject action r) (some c')
      (h.authorize (authz_request h a subject action r)) d e)

-- Every decision comes from the control plane, now or through an entry of the cache for the same
-- subject, action, type, host and port; without either there is none.
resolve_decision-ComesFrom :
    (h : Handler) (a : Arrival) (subject : SubjectRef) (action : Text) (r : ResourceTarget)
    (cache : Option Cache) (d : AuthzResponse)
    → (resolve_decision h a subject action r cache).1 ≡ some d
    → ComesFrom h a subject action r cache d
unfolding resolve_decision
resolve_decision-ComesFrom h a subject action r none d e = inr (
    after_authorize-some h a (cache_key subject action r) none
      (h.authorize (authz_request h a subject action r)) d e)
resolve_decision-ComesFrom h a subject action r (some c) d e =
    after_get-ComesFrom h a subject action r c _ d refl e

-- Two texts that begin with parts without the separator, and agree.
first_part :
    (s t u v : Text)
    → Lacks b'|' s
    → Lacks b'|' t
    → s ++ b'|' ∷ u ≡ t ++ b'|' ∷ v
    → (s ≡ t) × (u ≡ v)
first_part s t u v hs ht e =
    let both : some (s, u) ≡ some (t, v) =
      sym (split_two-append b'|' s u hs) ∙ ap (split_two b'|') e ∙ split_two-append b'|' t v ht in
    (ground (arith, both), ground (arith, both))

-- The parts of a key have no separator in them, and the port is a number.
abbrev pub IsPlain : SubjectRef → Text → ResourceTarget → ℕ → Type 0
IsPlain subject action r port =
    Lacks b'|' subject.sub
    × Lacks b'|' action
    × Lacks b'|' r.type
    × Lacks b'|' r.host
    × (r.port ≡ pos port)

abbrev after_action : ResourceTarget → Text
after_action r = r.type ++ b'|' ∷ (r.host ++ b'|' ∷ format_ℤ r.port)

cache_key-injective :
    (s t : SubjectRef) (action other_action : Text) (r q : ResourceTarget) (m n : ℕ)
    → IsPlain s action r m
    → IsPlain t other_action q n
    → cache_key s action r ≡ cache_key t other_action q
    → (s.sub ≡ t.sub)
      × (action ≡ other_action)
      × (r.type ≡ q.type)
      × (r.host ≡ q.host)
      × (r.port ≡ q.port)
unfolding cache_key format_ℤ
cache_key-injective s t action other_action r q m n (hs, ha, hr, hh, hp) (ks, ka, kr, kh, kp) e =
    let (subs, e1) =
      first_part s.sub t.sub (action ++ b'|' ∷ after_action r)
        (other_action ++ b'|' ∷ after_action q) hs ks e in
    let (actions, e2) = first_part action other_action (after_action r) (after_action q) ha ka e1 in
    let (types, e3) =
      first_part r.type q.type (r.host ++ b'|' ∷ format_ℤ r.port) (q.host ++ b'|' ∷ format_ℤ q.port)
        hr kr e2 in
    let (hosts, e4) = first_part r.host q.host (format_ℤ r.port) (format_ℤ q.port) hh kh e3 in
    let same = format_ℕ-injective m n (sym (ap format_ℤ hp) ∙ e4 ∙ ap format_ℤ kp) in
    (subs, actions, types, hosts, hp ∙ ap pos same ∙ sym kp)

parts-cache_key :
    (s t : SubjectRef) (action other_action : Text) (r q : ResourceTarget)
    → (s.sub ≡ t.sub)
      × (action ≡ other_action)
      × (r.type ≡ q.type)
      × (r.host ≡ q.host)
      × (r.port ≡ q.port)
    → cache_key s action r ≡ cache_key t other_action q
unfolding cache_key
parts-cache_key s t action other_action r q (subs, actions, types, hosts, ports) =
    rw (subs, actions, types, hosts, ports) refl

-- Keys whose parts have no separator in them, with ports that are not negative, are equal exactly
-- for the same subject identifier, action, type, host and port. What else a request for a decision
-- carries is not in the key: requests that differ only in the groups or the name of the user, in
-- the name of the resource or in the address of the client share their entry.
pub cache_key_iff :
    (s t : SubjectRef) (action other_action : Text) (r q : ResourceTarget) (m n : ℕ)
    → IsPlain s action r m
    → IsPlain t other_action q n
    → (cache_key s action r ≡ cache_key t other_action q) ↔ (
        (s.sub ≡ t.sub)
        × (action ≡ other_action)
        × (r.type ≡ q.type)
        × (r.host ≡ q.host)
        × (r.port ≡ q.port))
cache_key_iff s t action other_action r q m n plain other = (
  cache_key-injective s t action other_action r q m n plain other,
  parts-cache_key s t action other_action r q,
)
