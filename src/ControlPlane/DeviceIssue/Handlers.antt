-- ===== src/ControlPlane/DeviceIssue/Handlers.antt =====
-- The handlers of control-plane/internal/api/handlers/device_cert.go and admin_device_certs.go: the
-- issue of a certificate to a user and its revocation by an administrator, with the audit.
use ztna_project.Base.{
  ℕ, ◌-◌, ◌*◌, ◌%◌, ◌^◌, Bool, Option, none, some, List, [], ◌++◌, if◌then◌else◌, ltb, ℤ, pos,
  negsuc, Text, codes, is_empty, hex,
}
use ztna_project.ControlPlane.Model.{Subject, unauthorized, invalid_input, Result, ok, err}
use ztna_project.ControlPlane.Requests.{Peer, extract_remote_ip, format_subject_for_audit}
use ztna_project.ControlPlane.Authorize.{AuditEvent, append_event}
use ztna_project.ControlPlane.DeviceCerts.{CertDb, revoke_handler}
use ztna_project.ControlPlane.DeviceIssue.{
  PublicKey, ClientCertificate, Draw, DeviceCaConfig, issue_device_cert,
}

-- The body of the request of a client.
pub record DeviceCertRequest : Type 0 where
  pub csr_pem : Text
  pub csr : Option PublicKey
  pub ttl_seconds : Option ℤ

-- A product of 64-bit integers, as it wraps around.
abbrev wrap64 : ℕ → ℤ
wrap64 n = let m = n % 2 ^ 64 in if ltb m (2 ^ 63) then pos m else negsuc (2 ^ 64 - 1 - m)

-- A number of seconds as a duration; `none` where it is not positive.
unfoldable pub seconds_of : ℤ → Option ℤ
seconds_of (negsuc n) = none
seconds_of (pos n) = if ltb 0 n then some (wrap64 (n * 1_000_000_000)) else none

abbrev pub Answered : Type 0
Answered = Result ClientCertificate × CertDb × List AuditEvent

-- What surrounds a handler: the peer, the test of addresses, the clock and the audit's database.
pub record Around : Type 0 where
  pub is_ip : Text → Bool
  pub peer : Peer
  pub now : Text
  pub audit_stores : Bool

abbrev pub event_of : Around → Subject → (action resource reason : Text) → AuditEvent
event_of w subject action resource reason = record {
  timestamp = [];
  subject = format_subject_for_audit subject;
  action = action;
  resource = resource;
  decision = codes "allow";
  reason = reason;
  pep_id = [];
  source_ip = extract_remote_ip w.is_ip w.peer;
  policy_version = pos 0;
}

abbrev pub after_issue :
    Around → Subject → CertDb → List AuditEvent → Result (ClientCertificate × CertDb) → Answered
after_issue w subject db events (err e) = (err e, db, events)
after_issue w subject db events (ok (cert, db')) = (
  ok cert,
  db',
  append_event w.now w.audit_stores
      (event_of w subject (codes "issue_device_cert") (codes "device_cert:" ++ hex cert.serial)
        (codes "issued"))
      events,
)

abbrev pub with_lifetime :
    (parse : Text → Option ℤ)
    → Around
    → Draw
    → DeviceCaConfig
    → Subject
    → DeviceCertRequest
    → CertDb
    → List AuditEvent
    → Option (Option ℤ)
    → Answered
with_lifetime parse w d cfg subject req db events none = (err invalid_input, db, events)
with_lifetime parse w d cfg subject req db events (some ttl) = after_issue w subject db events (
    issue_device_cert parse d cfg
      (record { subject = subject; csr_pem = req.csr_pem; csr = req.csr; ttl = ttl }) db)

-- No lifetime is asked for, or a positive one.
abbrev pub asked : Option ℤ → Option (Option ℤ)
asked none = some none
asked (some seconds) = elim (seconds_of seconds) [ none ↦ none | some ttl ↦ some (some ttl) ]

-- Issue: `none` for a request without an authenticated user, and for a body that is no such JSON.
unfoldable pub issue :
    (parse : Text → Option ℤ)
    → Around
    → Draw
    → DeviceCaConfig
    → Option Subject
    → Option DeviceCertRequest
    → CertDb
    → List AuditEvent
    → Answered
unfolding issue_device_cert seconds_of append_event
issue parse w d cfg none body db events = (err unauthorized, db, events)
issue parse w d cfg (some subject) none db events = (err invalid_input, db, events)
issue parse w d cfg (some subject) (some req) db events =
    if is_empty req.csr_pem
    then (err invalid_input, db, events)
    else with_lifetime parse w d cfg subject req db events (asked req.ttl_seconds)

abbrev after_revocation :
    Around
    → Subject
    → (serial reason : Text) → CertDb
    → List AuditEvent
    → Result CertDb
    → Result CertDb × List AuditEvent
after_revocation w subject serial reason db events (err e) = (err e, events)
after_revocation w subject serial reason db events (ok db') = (
  ok db',
  append_event w.now w.audit_stores
      (event_of w subject (codes "revoke_device_cert") (codes "device_cert:" ++ serial) reason)
      events,
)

-- Revoke of an authenticated administrator, with its row in the audit.
unfoldable revoke :
    Around
    → (now reason serial : Text) → Option Subject
    → CertDb
    → List AuditEvent
    → Result CertDb × List AuditEvent
unfolding revoke_handler append_event
revoke w now reason serial none db events = (err unauthorized, events)
revoke w now reason serial (some subject) db events =
    after_revocation w subject serial (if is_empty reason then codes "admin-revocation" else reason)
      db events (revoke_handler now reason serial db)
