-- ===== src/Gateway/Connect/Backed.antt =====
-- The decisions that the cache keeps, over the connections of a gateway.
use mathlib.Core.Path.{subst}
use ztna_project.Base.{
  ℕ, List, [], ◌∷◌, IsIn, ◌≡◌, refl, sym, ◌∙◌, inl, inr, Option, none, some, arith, ltb, leb,
  length, Bool-cases, Option-cases, ℤ, is_positive, Text, text_eq, text_eq_iff, lookup, insert,
  delete, lookup-insert, lookup-delete,
}
use ztna_project.Gateway.Cache.{Cache, DecisionEntry, Item, new_cache, get, put, make_room}
use ztna_project.Gateway.Identity.{SubjectRef}
use ztna_project.Gateway.Connect.{
  ResourceTarget, AuthzResponse, Handler, Arrival, cache_key, cached_response, authz_request,
  after_get, after_authorize, remember, entry_of, entry_ttl, resolve_decision,
}

-- A call for a decision. Its handler's `authorize` is the control plane as it answers in this call;
-- it may answer otherwise in the next one.
pub record Call : Type 0 where
  pub handler : Handler
  pub arrival : Arrival
  pub subject : SubjectRef
  pub action : Text
  pub target : ResourceTarget

-- A history of calls on one cache, the last one first, and what is left of the cache.
unfoldable pub run : Cache → List Call → Option Cache
unfolding resolve_decision
run c [] = some c
run c (q ∷ calls) =
    (resolve_decision q.handler q.arrival q.subject q.action q.target (run c calls)).0

-- In some call of the history the control plane gave this decision, on a request with this key.
abbrev pub WasGiven : List Call → Text → DecisionEntry → Type 0
WasGiven calls key entry =
    (q : Call) × (d : AuthzResponse) × IsIn q calls
    × (cache_key q.subject q.action q.target ≡ key)
    × (q.handler.authorize (record {
      subject = q.subject;
      action = q.action;
      resource = q.target;
      source_ip = q.arrival.remote_addr;
      gateway_id = q.handler.gateway_id;
    })
        ≡ some d)
    × (entry.decision ≡ d.decision)
    × (entry.reason ≡ d.reason)
    × (entry.policy_version ≡ d.policy_version)

abbrev IsBacked : (Text → DecisionEntry → Type 0) → Cache → Type 0
IsBacked P c = (key : Text) (it : Item) → lookup key c.items ≡ some it → P key it.entry

delete-IsBacked :
    (P : Text → DecisionEntry → Type 0) (key : Text) (c : Cache)
    → IsBacked P c
    → IsBacked P (record c { items = delete key c.items })
delete-IsBacked P key c backed k it found = elim (Bool-cases (text_eq key k)) [
  | inl same ↦
      let gone : none ≡ some it = rw same at (sym (lookup-delete key k c.items) ∙ found) in
      ground (arith, gone)
  | inr other ↦
      let kept : lookup k c.items ≡ some it =
        rw other at (sym (lookup-delete key k c.items) ∙ found) in
      backed k it kept
]

insert-IsBacked :
    (P : Text → DecisionEntry → Type 0) (key : Text) (new : Item) (c : Cache)
    → IsBacked P c
    → P key new.entry
    → IsBacked P (record c { items = insert key new c.items })
insert-IsBacked P key new c backed given k it found = elim (Bool-cases (text_eq key k)) [
  | inl same ↦
      let here : some new ≡ some it = rw same at (sym (lookup-insert key k new c.items) ∙ found) in
      let item : new ≡ it = ground (arith, here) in
      subst (λ x. P x it.entry) ((text_eq_iff key k).0 same) (subst (λ x. P key x.entry) item given)
  | inr other ↦
      let kept : lookup k c.items ≡ some it =
        rw other at (sym (lookup-insert key k new c.items) ∙ found) in
      backed k it kept
]

put-IsBacked :
    (P : Text → DecisionEntry → Type 0) (victim key : Text) (entry : DecisionEntry) (ttl : ℤ)
    (now : ℕ) (c : Cache)
    → IsBacked P c
    → P key entry
    → IsBacked P (put victim key entry ttl now c)
unfolding put make_room
put-IsBacked P victim key entry ttl now c backed given = elim (Bool-cases (is_positive ttl)) [
  | inl lasting ↦ elim (Bool-cases (leb c.max_entries (length c.items))) [
    | inl full ↦
        rw (lasting, full, put, make_room)
          (insert-IsBacked P key _ (record c { items = delete victim c.items })
            (delete-IsBacked P victim c backed) given)
    | inr free ↦ rw (lasting, free, put, make_room) (insert-IsBacked P key _ c backed given)
  ]
  | inr useless ↦ rw (useless, put) backed
]

-- A read that finds an entry leaves the cache as it is; one that does not may delete it.
get_cases :
    (P : Text → DecisionEntry → Type 0) (key : Text) (now : ℕ) (c : Cache)
    → IsBacked P c
    → IsBacked P (get key now c).0
      × ((entry : DecisionEntry) → (get key now c).1 ≡ some entry → P key entry)
unfolding get
get_cases P key now c backed = elim (Option-cases (lookup key c.items)) [
  | inl missing ↦
      rw (missing, get)
        (backed, (λ (entry : DecisionEntry) (e : none ≡ some entry). ground (arith, e)))
  | inr (it, found) ↦ elim (Bool-cases (ltb it.expires now)) [
    | inl over ↦
        rw (found, over, get)
          (
            delete-IsBacked P key c backed,
            (λ (entry : DecisionEntry) (e : none ≡ some entry). ground (arith, e)),
          )
    | inr live ↦
        rw (found, live, get)
          (
            backed,
            (λ (entry : DecisionEntry) (e : some it.entry ≡ some entry).
                (let same : it.entry ≡ entry = ground (arith, e) in
                  subst (P key) same (backed key it found))),
          )
  ]
]

abbrev IsBackedIn : (Text → DecisionEntry → Type 0) → Option Cache → Type 0
IsBackedIn P none = Unit
IsBackedIn P (some c) = IsBacked P c

-- A cache after a decision, and the decision.
abbrev Keeps :
    (Text → DecisionEntry → Type 0) → (key : Text) → Option Cache × Option AuthzResponse → Type 0
Keeps P key o = IsBackedIn P o.0 × ((d : AuthzResponse) → o.1 ≡ some d → P key (entry_of d))

remember-IsBackedIn :
    (P : Text → DecisionEntry → Type 0) (h : Handler) (a : Arrival) (key : Text) (c : Cache)
    (d : AuthzResponse)
    → IsBacked P c
    → P key (entry_of d)
    → IsBackedIn P (remember h a key (some c) d)
remember-IsBackedIn P h a key c d backed given = elim (Bool-cases (is_positive d.ttl_seconds)) [
  | inl lasting ↦
      rw lasting (put-IsBacked P a.victim key (entry_of d) (entry_ttl h d) a.later c backed given)
  | inr useless ↦ rw useless backed
]

after_authorize-Keeps :
    (P : Text → DecisionEntry → Type 0) (h : Handler) (a : Arrival) (key : Text) (c : Cache)
    (o : Option AuthzResponse)
    → IsBacked P c
    → ((d : AuthzResponse) → o ≡ some d → P key (entry_of d))
    → Keeps P key (after_authorize h a key (some c) o)
after_authorize-Keeps P h a key c none backed given = (backed, given)
after_authorize-Keeps P h a key c (some d) backed given =
    (remember-IsBackedIn P h a key c d backed (given d refl), given)

after_get-Keeps :
    (P : Text → DecisionEntry → Type 0) (q : Call) (g : Cache × Option DecisionEntry)
    → IsBacked P g.0
    → ((entry : DecisionEntry) → g.1 ≡ some entry → P (cache_key q.subject q.action q.target) entry)
    → ((d : AuthzResponse)
        → q.handler.authorize (authz_request q.handler q.arrival q.subject q.action q.target)
          ≡ some d
        → P (cache_key q.subject q.action q.target) (entry_of d))
    → Keeps P
        (cache_key q.subject q.action q.target)
        (after_get q.handler q.arrival q.subject q.action q.target g)
after_get-Keeps P q (c, none) backed given fresh =
    after_authorize-Keeps P q.handler q.arrival (cache_key q.subject q.action q.target) c _ backed
      fresh
after_get-Keeps P q (c, some entry) backed given fresh = (
  backed,
  (λ (d : AuthzResponse) (e : some (cached_response entry) ≡ some d).
      (let same : cached_response entry ≡ d = ground (arith, e) in
        subst (λ x. P (cache_key q.subject q.action q.target) (entry_of x)) same
          (given entry refl))),
)

uncached-Keeps :
    (P : Text → DecisionEntry → Type 0) (h : Handler) (a : Arrival) (key : Text)
    (o : Option AuthzResponse)
    → ((d : AuthzResponse) → o ≡ some d → P key (entry_of d))
    → Keeps P key (after_authorize h a key none o)
uncached-Keeps P h a key none fresh = (tt, fresh)
uncached-Keeps P h a key (some d) fresh = (tt, fresh)

resolve_decision-Keeps :
    (P : Text → DecisionEntry → Type 0) (q : Call) (o : Option Cache)
    → IsBackedIn P o
    → ((d : AuthzResponse)
        → q.handler.authorize (authz_request q.handler q.arrival q.subject q.action q.target)
          ≡ some d
        → P (cache_key q.subject q.action q.target) (entry_of d))
    → Keeps P
        (cache_key q.subject q.action q.target)
        (resolve_decision q.handler q.arrival q.subject q.action q.target o)
unfolding resolve_decision
resolve_decision-Keeps P q (some c) backed fresh =
    let (kept, given) =
      get_cases P (cache_key q.subject q.action q.target) q.arrival.now c backed in
    after_get-Keeps P q _ kept given fresh
resolve_decision-Keeps P q none backed fresh =
    uncached-Keeps P q.handler q.arrival (cache_key q.subject q.action q.target) _ fresh

-- A history that is longer.
WasGiven-more :
    (q : Call) (calls : List Call) (key : Text) (entry : DecisionEntry)
    → WasGiven calls key entry
    → WasGiven (q ∷ calls) key entry
WasGiven-more q calls key entry (p, d, among, same, answer, effect, reason, version) =
    (p, d, inr among, same, answer, effect, reason, version)

IsBackedIn-more :
    (q : Call) (calls : List Call) (o : Option Cache)
    → IsBackedIn (WasGiven calls) o
    → IsBackedIn (WasGiven (q ∷ calls)) o
IsBackedIn-more q calls none backed = tt
IsBackedIn-more q calls (some c) backed =
    λ key it found. WasGiven-more q calls key it.entry (backed key it found)

run-Keeps :
    (max : ℤ) (calls : List Call) (q : Call)
    → IsBackedIn (WasGiven calls) (run (new_cache max) calls)
    → Keeps (WasGiven (q ∷ calls)) (cache_key q.subject q.action q.target) (
        resolve_decision q.handler q.arrival q.subject q.action q.target
          (run (new_cache max) calls))
run-Keeps max calls q backed =
    resolve_decision-Keeps (WasGiven (q ∷ calls)) q (run (new_cache max) calls)
      (IsBackedIn-more q calls (run (new_cache max) calls) backed)
      (λ d answer. (q, d, inl refl, refl, answer, refl, refl, refl))

run-IsBackedIn :
    (max : ℤ) (calls : List Call) → IsBackedIn (WasGiven calls) (run (new_cache max) calls)
unfolding run new_cache lookup
run-IsBackedIn max [] = λ key it found. ground (arith, found)
run-IsBackedIn max (q ∷ calls) = (run-Keeps max calls q (run-IsBackedIn max calls)).0

-- After any history of calls on a new cache, with a control plane that may answer each call as it
-- likes, every decision of a call, from the cache or not, is one that the control plane gave in
-- this call or in one of the history, with that effect, reason and policy version, on a request for
-- that call's own subject, action, target, address and gateway; and the two calls' subjects,
-- actions and targets have the same cache key.
pub resolve_decision-run :
    (max : ℤ) (calls : List Call) (q : Call) (d : AuthzResponse)
    → (resolve_decision q.handler q.arrival q.subject q.action q.target
        (run (new_cache max) calls)).1
      ≡ some d
    → WasGiven (q ∷ calls) (cache_key q.subject q.action q.target) (entry_of d)
resolve_decision-run max calls q = (run-Keeps max calls q (run-IsBackedIn max calls)).1
