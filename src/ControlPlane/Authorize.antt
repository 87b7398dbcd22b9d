-- ===== src/ControlPlane/Authorize.antt =====
-- The decision on a request: control-plane/internal/service/decision/service.go, the handler
-- control-plane/internal/api/handlers/pep_authorize.go, the audit service
-- control-plane/internal/service/audit/service.go and the insertion of
-- control-plane/internal/store/sqlite/repo.go. The clock, the random identifier and net.ParseIP
-- are arguments.
pub mod Sources
pub mod Gate
pub mod Reached
pub mod Grants
pub mod Allowed
use ztna_project.Base.{
  ◌≡◌, Bool, true, false, not, ◌&&◌, ◌||◌, Option, none, some, List, [], ◌∷◌, ◌++◌, if◌then◌else◌,
  ℤ, is_positive, pos, ℕ, Text, codes, text_eq, to_lower, trim_space, is_empty, lookup, until,
  split_host_port,
}
use ztna_project.ControlPlane.Model.{
  Subject, HostPort, Resource, canonical, resource_ssh, resource_http, resource_web, resource_db,
  DecisionEffect, allow, deny, Decision, PolicySnapshot, Error, unauthorized, forbidden,
  invalid_input, Result, ok, err, JsonValue, text, other,
}
use ztna_project.ControlPlane.Requests.{
  ResourceRequest, AuthorizeRequest, typed_part, host_or, resolved_host, port_or, resolved_port,
  is_known_type, subject_of, resource_of, validate_request, Peer, checked_ip, extract_context_ip,
  remote_ip, extract_remote_ip, format_subject_for_audit,
}
use ztna_project.ControlPlane.Policy.{Access, evaluate, text_of}
use ztna_project.ControlPlane.PolicyStore.{PolicyDb, get_active}
use ztna_project.ControlPlane.Gateways.{GatewayDb, HeartbeatStatus, registered, status_of}

-- The time to live that New keeps.
unfoldable pub decision_ttl : ℤ → ℤ
decision_ttl ttl = if is_positive ttl then ttl else pos 60

abbrev decision_of : (ttl : ℤ) → (uuid : Text) → PolicySnapshot → DecisionEffect × Text → Decision
decision_of ttl uuid snapshot (effect, reason) = record {
  effect = effect;
  reason = reason;
  ttl_seconds = ttl;
  policy_version = snapshot.version.id;
  decision_id = codes "dec-" ++ uuid;
}

-- Service.Authorize of the decision service.
unfoldable pub decide : (ttl : ℤ) → (uuid : Text) → PolicyDb → Access → Result Decision
unfolding get_active evaluate
decide ttl uuid db a = elim (get_active db) [
  | err e ↦ err e
  | ok snapshot ↦ ok (decision_of ttl uuid snapshot (evaluate snapshot a))
]

-- The columns of the table audit_events, but the row's number.
pub record AuditEvent : Type 0 where
  pub timestamp : Text
  pub subject : Text
  pub action : Text
  pub resource : Text
  pub decision : Text
  pub reason : Text
  pub pep_id : Text
  pub source_ip : Text
  pub policy_version : ℤ

-- Service.Append of the audit service, and the insertion; `stored` is false where the database
-- refuses the row.
unfoldable pub append_event :
    (now : Text) → (stored : Bool) → AuditEvent → List AuditEvent → List AuditEvent
append_event now stored event events =
    let stamped = if is_empty event.timestamp then record event { timestamp = now } else event in
    if stored then events ++ stamped ∷ [] else events

abbrev pub effect_name : DecisionEffect → Text
effect_name allow = codes "allow"
effect_name deny = codes "deny"

-- What surrounds a call: configuration, clock, random identifier, the gateway that the middleware
-- found (empty where there is none), and the outcome of the insertion. `require_registration` is
-- true where the option is set and the handler has the gateway service.
pub record Surroundings : Type 0 where
  pub require_registration : Bool
  pub ttl : ℤ
  pub now : Text
  pub minutes : ℕ
  pub uuid : Text
  pub pep_id : Text
  pub peer : Peer
  pub stored : Bool

-- A written error; the 403 of a gateway that is not registered; or the response.
pub data Answer : Type 0 where
  failed : Error → Answer
  not_registered : HeartbeatStatus → Answer
  decided : Decision → Answer

abbrev pub gate_of : HeartbeatStatus × Option Error → Option Answer
gate_of (registered, none) = none
gate_of (status, _) = some (not_registered status)

-- The check of the gateway: an answer that ends the call, or none.
unfoldable pub gate : Surroundings → GatewayDb → Option Answer
unfolding status_of
gate w gateways =
    if not w.require_registration
    then none
    else if is_empty w.pep_id
    then some (failed unauthorized)
    else gate_of (status_of w.pep_id gateways)

unfoldable pub audit_event :
    (is_ip : Text → Bool)
    → Surroundings
    → AuthorizeRequest
    → Subject
    → Resource
    → Decision
    → AuditEvent
unfolding extract_context_ip extract_remote_ip format_subject_for_audit
audit_event is_ip w req subject resource d =
    let ip = extract_context_ip is_ip req.context in
    record {
      timestamp = [];
      subject = format_subject_for_audit subject;
      action = req.action;
      resource = canonical resource;
      decision = effect_name d.effect;
      reason = d.reason;
      pep_id = w.pep_id;
      source_ip = if is_empty ip then extract_remote_ip is_ip w.peer else ip;
      policy_version = d.policy_version;
    }

abbrev pub access_of : Surroundings → AuthorizeRequest → Subject → Resource → Access
access_of w req subject resource = record {
  subject = subject;
  action = req.action;
  resource = resource;
  ctx = req.context;
  now = w.minutes;
}

abbrev pub after_decision :
    (Text → Bool)
    → Surroundings
    → AuthorizeRequest
    → Subject
    → Resource
    → List AuditEvent
    → Result Decision
    → Answer × List AuditEvent
after_decision is_ip w req subject resource events (err e) = (failed e, events)
after_decision is_ip w req subject resource events (ok d) =
    (decided d, append_event w.now w.stored (audit_event is_ip w req subject resource d) events)

abbrev pub after_validation :
    (Text → Bool)
    → Surroundings
    → PolicyDb
    → AuthorizeRequest
    → List AuditEvent
    → Result (Subject × Resource)
    → Answer × List AuditEvent
after_validation is_ip w policies req events (err e) = (failed e, events)
after_validation is_ip w policies req events (ok (subject, resource)) =
    after_decision is_ip w req subject resource events
      (decide (decision_ttl w.ttl) w.uuid policies (access_of w req subject resource))

abbrev pub after_gate :
    (Text → Bool)
    → Surroundings
    → PolicyDb
    → AuthorizeRequest
    → List AuditEvent
    → Option Answer
    → Answer × List AuditEvent
after_gate is_ip w policies req events (some answer) = (answer, events)
after_gate is_ip w policies req events none =
    after_validation is_ip w policies req events (validate_request req)

-- The handler; the body is `none` where it is no JSON of that form or longer than 1 MB.
unfoldable pub authorize :
    (is_ip : Text → Bool)
    → Surroundings
    → PolicyDb
    → GatewayDb
    → Option AuthorizeRequest
    → List AuditEvent
    → Answer × List AuditEvent
unfolding gate decide validate_request audit_event append_event decision_ttl
authorize is_ip w policies gateways none events = (failed invalid_input, events)
authorize is_ip w policies gateways (some req) events =
    after_gate is_ip w policies req events (gate w gateways)
