-- ===== src/Gateway/Connect/Handling.antt =====
-- HandleConnection of gateway/internal/usecase/connect/handler.go, up to the session that it opens
-- and from there to its end.
use ztna_project.Base.{
  ℕ, Bool, false, not, ◌&&◌, ◌||◌, Option, none, some, [], if◌then◌else◌, ℤ, pos, is_positive, Text,
  codes, text_eq, is_empty,
}
use ztna_project.Gateway.Session.{
  Session, Manager, register, RegisterResult, registered, limit_reached, set_end_stats, unregister,
}
use ztna_project.Gateway.Cache.{Cache}
use ztna_project.Gateway.Revocation.{Store, is_revoked}
use ztna_project.Gateway.Identity.{extract_subject_from_cert}
use ztna_project.Gateway.Connect.{
  ResourceTarget, ConnectRequest, AuthzResponse, Denial, certificate_revoked, unreadable_request,
  unsupported_action, incomplete_request, control_plane_down, session_limit, by_policy, Handler,
  State, Arrival, Resolution, rejects, to_target, resolve_target, resolve_decision,
}

-- A denial with its decision's identifier; or a session, where its traffic goes, the resource and
-- the decision.
pub data Opening : Type 0 where
  refused : Denial → (decision_id : Text) → Opening
  opened : (session_id host : Text) (port : ℕ) → ResourceTarget → AuthzResponse → Opening

abbrev pub is_on_list : Option Store → Text → Bool
is_on_list none serial = false
is_on_list (some store) serial = is_revoked serial store

-- The session that is handed to Register.
unfoldable pub new_session : Arrival → ResourceTarget → AuthzResponse → Session
unfolding extract_subject_from_cert
new_session a r d =
    let subject = extract_subject_from_cert a.cert in
    record {
      id = [];
      sub = subject.sub;
      username = subject.username;
      resource_type = r.type;
      resource_name = r.name;
      resource_host = r.host;
      resource_port = r.port;
      started_at = 0;
      source_ip = a.remote_addr;
      decision_id = d.decision_id;
      ttl_seconds = d.ttl_seconds;
      expires_at = 0;
      cancel_func = some a.ctx;
      bytes_in = pos 0;
      bytes_out = pos 0;
      end_reason = [];
      cert_serial = a.cert.serial;
    }

abbrev pub after_register :
    Option Cache
    → (host : Text) (port : ℕ) → ResourceTarget
    → AuthzResponse
    → Manager × RegisterResult
    → State × Opening
after_register cache host port r d (m, registered id) =
    (record { sessions = m; cache = cache }, opened id host port r d)
after_register cache host port r d (m, limit_reached count max) =
    (record { sessions = m; cache = cache }, refused session_limit d.decision_id)

abbrev pub after_decision :
    Arrival
    → Manager
    → (host : Text) (port : ℕ) → ResourceTarget
    → Option Cache × Option AuthzResponse
    → State × Opening
after_decision a m host port r (cache, none) =
    (record { sessions = m; cache = cache }, refused control_plane_down [])
after_decision a m host port r (cache, some d) =
    if not (text_eq d.decision (codes "allow"))
    then (record { sessions = m; cache = cache }, refused (by_policy d.reason) d.decision_id)
    else after_register cache host port r d (register a.session_id a.later (new_session a r d) m)

abbrev pub after_target : Handler → Arrival → State → Text → Resolution → State × Opening
after_target h a st action (rejects reason) = (st, refused reason [])
after_target h a st action (to_target host port r) =
    after_decision a st.sessions host port r
      (resolve_decision h a (extract_subject_from_cert a.cert) action r st.cache)

abbrev pub is_incomplete : ResourceTarget → Bool
is_incomplete r =
    is_empty r.name && (is_empty r.host || not (is_positive r.port) || is_empty r.type)

abbrev pub after_request : Handler → Arrival → State → Option ConnectRequest → State × Opening
after_request h a st none = (st, refused unreadable_request [])
after_request h a st (some req) =
    if not (text_eq req.action (codes "connect"))
    then (st, refused unsupported_action [])
    else if is_incomplete req.resource
    then (st, refused incomplete_request [])
    else after_target h a st req.action (resolve_target h req.resource)

-- Steps 1 to 8.
unfoldable pub open_session : Handler → Arrival → State → State × Opening
unfolding new_session resolve_target resolve_decision register extract_subject_from_cert is_revoked
open_session h a st =
    if is_on_list h.crl a.cert.serial
    then (st, refused certificate_revoked [])
    else after_request h a st a.request

-- What the relay of the traffic reports.
pub record ProxyResult : Type 0 where
  pub bytes_in : ℤ
  pub bytes_out : ℤ
  pub end_reason : Text

-- Steps 10 to 12: without the answer to the client there is no relay.
unfoldable pub end_session : (written : Bool) → ProxyResult → (id : Text) → Manager → Manager
unfolding set_end_stats unregister
end_session written p id m =
    if written
    then unregister id (set_end_stats id p.bytes_in p.bytes_out p.end_reason m)
    else unregister id m

-- A whole connection; `meanwhile` is what the other goroutines do to the sessions before this one
-- ends.
abbrev pub after_opening :
    (meanwhile : Manager → Manager)
    → (written : Bool) → ((host : Text) (port : ℕ) → ProxyResult)
    → State × Opening
    → State
after_opening meanwhile written proxy (st, refused reason decision_id) = st
after_opening meanwhile written proxy (st, opened id host port r d) = record st {
  sessions = end_session written (proxy host port) id (meanwhile st.sessions);
}

unfoldable pub handle_connection :
    Handler
    → Arrival
    → (meanwhile : Manager → Manager) → (written : Bool)
    → (proxy : (host : Text) (port : ℕ) → ProxyResult) → State
    → State
unfolding open_session end_session
handle_connection h a meanwhile written proxy st =
    after_opening meanwhile written proxy (open_session h a st)
