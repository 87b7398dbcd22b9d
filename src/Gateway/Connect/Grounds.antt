-- ===== src/Gateway/Connect/Grounds.antt =====
-- What entitles to a session, what is stored for it, and what a refusal rests on.
use ztna_project.Base.{
  ℕ, ◌≤◌, ◌+◌, ◌*◌, ℤ, pos, is_positive, pos_part, ◌≡◌, refl, ◌⊎◌, ◌≢◌, true, false, Option, none,
  some, arith, if◌then◌else◌, Text, codes,
}
use ztna_project.Gateway.Session.{Session, second, active_count_for_subject, admit}
use ztna_project.Gateway.Identity.{extract_subject_from_cert}
use ztna_project.Gateway.Connect.{
  ResourceTarget, ConnectRequest, AuthzResponse, Denial, Handler, State, Arrival, rejects,
  to_target, resolve_target, resolve_decision, certificate_revoked, unreadable_request,
  unsupported_action, incomplete_request, by_policy, control_plane_down, session_limit,
}
use ztna_project.Gateway.Connect.Handling.{is_on_list, new_session, is_incomplete}

-- The certificate is not on the list, a request to connect was read, its resource leads to the
-- target, and the decision on it, from the cache or the control plane, is to allow.
abbrev pub IsEntitled :
    Handler → Arrival → State → (host : Text) (port : ℕ) → ResourceTarget → AuthzResponse → Type 0
IsEntitled h a st host port r d =
    (is_on_list h.crl a.cert.serial ≡ false)
    × ((req : ConnectRequest) × (a.request ≡ some req)
        × (req.action ≡ codes "connect")
        × (resolve_target h req.resource ≡ to_target host port r)
        × ((resolve_decision h a (extract_subject_from_cert a.cert) req.action r st.cache).1
            ≡ some d)
        × (d.decision ≡ codes "allow"))

-- The session is stored for the subject and the certificate that connected, for this resource and
-- decision, with the lifetime of the decision from now on, and with a context that can be cancelled.
abbrev pub IsStoredFor : Arrival → ResourceTarget → AuthzResponse → Session → Type 0
IsStoredFor a r d s =
    (s.id ≡ a.session_id)
    × (s.sub ≡ (extract_subject_from_cert a.cert).sub)
    × (s.username ≡ (extract_subject_from_cert a.cert).username)
    × (s.cert_serial ≡ a.cert.serial)
    × (s.source_ip ≡ a.remote_addr)
    × (s.resource_type ≡ r.type)
    × (s.resource_name ≡ r.name)
    × (s.resource_host ≡ r.host)
    × (s.resource_port ≡ r.port)
    × (s.decision_id ≡ d.decision_id)
    × (s.ttl_seconds ≡ d.ttl_seconds)
    × (s.started_at ≡ a.later)
    × ((n : ℕ) → 1 ≤ n → d.ttl_seconds ≡ pos n → s.expires_at ≡ a.later + n * 1_000_000_000)
    × (s.cancel_func ≡ some a.ctx)

limited_end :
    (ttl : ℤ) (later n : ℕ)
    → 1 ≤ n
    → ttl ≡ pos n
    → (if is_positive ttl then later + pos_part ttl * second else 0) ≡ later + n * 1_000_000_000
limited_end ttl later n low e = rw e (ground arith)

pub admit-IsStoredFor :
    (a : Arrival) (r : ResourceTarget) (d : AuthzResponse)
    → IsStoredFor a r d (admit a.session_id a.later (new_session a r d))
unfolding admit new_session
admit-IsStoredFor a r d = (
  refl,
  refl,
  refl,
  refl,
  refl,
  refl,
  refl,
  refl,
  refl,
  refl,
  refl,
  refl,
  (λ (n : ℕ) (low : 1 ≤ n) (e : d.ttl_seconds ≡ pos n). limited_end d.ttl_seconds a.later n low e),
  refl,
)

-- The decision does not open a session: there is none, it is not to allow, or the subject has as
-- many sessions as the configured limit.
abbrev pub IsWithheld : Arrival → State → Option AuthzResponse → Denial → (id : Text) → Type 0
IsWithheld a st o reason id =
    ((o ≡ none) × (reason ≡ control_plane_down))
    ⊎ ((d : AuthzResponse) × (o ≡ some d)
        × (id ≡ d.decision_id)
        × (((d.decision ≢ codes "allow") × (reason ≡ by_policy d.reason))
            ⊎ ((reason ≡ session_limit)
                × (is_positive st.sessions.max_per_subject ≡ true)
                × (pos_part st.sessions.max_per_subject
                    ≤ active_count_for_subject (extract_subject_from_cert a.cert).sub
                        st.sessions))))

-- What a request that was read is refused for.
abbrev pub IsRejected : Handler → Arrival → State → ConnectRequest → Denial → (id : Text) → Type 0
IsRejected h a st req reason id =
    ((req.action ≢ codes "connect") × (reason ≡ unsupported_action))
    ⊎ (((is_incomplete req.resource ≡ true) × (reason ≡ incomplete_request))
        ⊎ ((resolve_target h req.resource ≡ rejects reason)
            ⊎ ((host : Text) × (port : ℕ) × (r : ResourceTarget) × (resolve_target h req.resource
                  ≡ to_target host port r)
                × IsWithheld a st
                    (resolve_decision h a (extract_subject_from_cert a.cert) req.action r
                      st.cache).1
                    reason id)))

-- What a connection is refused for.
abbrev pub IsRefusable : Handler → Arrival → State → Denial → (id : Text) → Type 0
IsRefusable h a st reason id =
    ((is_on_list h.crl a.cert.serial ≡ true) × (reason ≡ certificate_revoked))
    ⊎ (((a.request ≡ none) × (reason ≡ unreadable_request))
        ⊎ ((req : ConnectRequest) × (a.request ≡ some req) × IsRejected h a st req reason id))
