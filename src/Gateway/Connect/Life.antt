-- ===== src/Gateway/Connect/Life.antt =====
-- The end of a connection, and the lifetime of its session.
use mathlib.Core.Path.{subst}
use ztna_project.Base.{
  ℕ, ◌≡◌, ◌≢◌, refl, ap, sym, ◌∙◌, inl, inr, Bool, true, false, none, some, arith, Option-cases, ℤ,
  Text, text_eq_iff, text_eq_refl, lookup, lookup-insert, lookup-delete,
}
use ztna_project.Gateway.Session.{
  Manager, get_session, set_end_stats, end_stats, unregister, is_expired, admit,
}
use ztna_project.Gateway.Cache.{Cache, DecisionEntry, get}
use ztna_project.Gateway.Identity.{SubjectRef}
use ztna_project.Gateway.Connect.{
  ResourceTarget, AuthzResponse, Handler, State, Arrival, cached_response, cache_key, after_get,
  resolve_decision,
}
use ztna_project.Gateway.Connect.Handling.{
  Opening, opened, refused, ProxyResult, open_session, new_session, end_session, after_opening,
  handle_connection,
}

unregister-lookup :
    (id : Text) (m : Manager)
    → (get_session id (unregister id m) ≡ none)
      × ((j : Text) → j ≢ id → get_session j (unregister id m) ≡ get_session j m)
unfolding unregister get_session
unregister-lookup id m = elim (Option-cases (lookup id m.sessions)) [
  | inl missing ↦ rw (missing, unregister) (missing, λ j other. refl)
  | inr (s, found) ↦
      rw (found, unregister)
        (
          ground (arith, lookup-delete id id m.sessions, text_eq_refl id),
          λ j other. ground (arith, lookup-delete id j m.sessions, text_eq_iff id j),
        )
]

set_end_stats-lookup :
    (id : Text) (bytes_in bytes_out : ℤ) (reason : Text) (m : Manager) (j : Text)
    → j ≢ id
    → get_session j (set_end_stats id bytes_in bytes_out reason m) ≡ get_session j m
unfolding set_end_stats get_session
set_end_stats-lookup id bytes_in bytes_out reason m j h =
    elim (Option-cases (lookup id m.sessions)) [
      | inl missing ↦ rw (missing, set_end_stats)
      | inr (s, found) ↦
          rw (found, set_end_stats)
            (ground (
              arith,
              lookup-insert id j (end_stats bytes_in bytes_out reason s) m.sessions,
              text_eq_iff id j,
            ))
    ]

end_session_lem :
    (written : Bool) (p : ProxyResult) (id : Text) (m : Manager)
    → (get_session id (end_session written p id m) ≡ none)
      × ((j : Text) → j ≢ id → get_session j (end_session written p id m) ≡ get_session j m)
unfolding end_session
end_session_lem false p id m = unregister-lookup id m
end_session_lem true p id m =
    let ended = set_end_stats id p.bytes_in p.bytes_out p.end_reason m in
    let (gone, kept) = unregister-lookup id ended in
    (
      gone,
      λ j other.
          kept j other ∙ set_end_stats-lookup id p.bytes_in p.bytes_out p.end_reason m j other,
    )

opened-injective :
    {i j host host' : Text} {port port' : ℕ} {r r' : ResourceTarget} {d d' : AuthzResponse}
    → opened i host port r d ≡ opened j host' port' r' d'
    → i ≡ j
opened-injective e = ground (arith, e)

after_opening_lem :
    (meanwhile : Manager → Manager) (written : Bool)
    (proxy : (host : Text) (port : ℕ) → ProxyResult) (o : State × Opening) (id host : Text)
    (port : ℕ) (r : ResourceTarget) (d : AuthzResponse)
    → o.1 ≡ opened id host port r d
    → (get_session id (after_opening meanwhile written proxy o).sessions ≡ none)
      × ((j : Text)
          → j ≢ id
          → get_session j (after_opening meanwhile written proxy o).sessions
            ≡ get_session j (meanwhile o.0.sessions))
after_opening_lem meanwhile written proxy (st, refused reason x) id host port r d e =
    ground (arith, e)
after_opening_lem meanwhile written proxy (st, opened i host' port' r' d') id host port r d e =
    subst
      (λ k.
        (get_session k (end_session written (proxy host' port') i (meanwhile st.sessions)) ≡ none)
        × ((j : Text)
            → j ≢ k
            → get_session j (end_session written (proxy host' port') i (meanwhile st.sessions))
              ≡ get_session j (meanwhile st.sessions)))
      (opened-injective e) (end_session_lem written (proxy host' port') i (meanwhile st.sessions))

-- Once its session is opened: however a connection ends, also when the answer to the client cannot be written, and whatever
-- happens to the sessions meanwhile, its own session is gone at the end, and every other session is
-- what it was just before.
pub handle_connection-ends :
    (h : Handler) (a : Arrival) (meanwhile : Manager → Manager) (written : Bool)
    (proxy : (host : Text) (port : ℕ) → ProxyResult) (st : State) (id host : Text) (port : ℕ)
    (r : ResourceTarget) (d : AuthzResponse)
    → (open_session h a st).1 ≡ opened id host port r d
    → (get_session id (handle_connection h a meanwhile written proxy st).sessions ≡ none)
      × ((j : Text)
          → j ≢ id
          → get_session j (handle_connection h a meanwhile written proxy st).sessions
            ≡ get_session j (meanwhile (open_session h a st).0.sessions))
unfolding handle_connection
handle_connection-ends h a meanwhile written proxy st id host port r d e =
    after_opening_lem meanwhile written proxy (open_session h a st) id host port r d e

cached_response-unlimited :
    (a : Arrival) (r : ResourceTarget) (entry : DecisionEntry) (id : Text) (start now : ℕ)
    → is_expired now (admit id start (new_session a r (cached_response entry))) ≡ false
unfolding admit new_session
cached_response-unlimited a r entry id start now = refl

-- When the cache answers, the session that is opened on its decision never expires for the
-- collector, whatever the lifetime was that the control plane gave to the decision.
pub resolve_decision-unlimited :
    (h : Handler) (a : Arrival) (subject : SubjectRef) (action : Text) (r : ResourceTarget)
    (c c' : Cache) (entry : DecisionEntry) (d : AuthzResponse) (id : Text) (start now : ℕ)
    → get (cache_key subject action r) a.now c ≡ (c', some entry)
    → (resolve_decision h a subject action r (some c)).1 ≡ some d
    → is_expired now (admit id start (new_session a r d)) ≡ false
unfolding resolve_decision
resolve_decision-unlimited h a subject action r c c' entry d id start now hit e =
    let same : some (cached_response entry) ≡ some d =
      sym (ap (λ g. (after_get h a subject action r g).1) hit) ∙ e in
    subst (λ x. is_expired now (admit id start (new_session a r x)) ≡ false) (ground (arith, same))
      (cached_response-unlimited a r entry id start now)
