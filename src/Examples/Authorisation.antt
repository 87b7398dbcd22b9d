-- ===== src/Examples/Authorisation.antt =====
-- The theorems on decisions and on revocation at concrete inputs.
use ztna_project.Base.{
  ◌≡◌, ◌≢◌, ◌↔◌, refl, Bool, true, false, none, some, List, [], ◌∷◌, ◌++◌, All, arith, pos, Text,
  codes, text_eq, lookup, insert, member, hex, format_ℤ, to_lower, trim_space, has_prefix,
  before_last, equal_fold, count_if, keep,
}
use ztna_project.ControlPlane.Model.{Subject, Resource, Decision, allow, ok, canonical, text}
use ztna_project.ControlPlane.Policy.{evaluate, match_subject}
use ztna_project.ControlPlane.PolicyStore.{PolicyDb}
use ztna_project.ControlPlane.Gateways.{GatewayDb}
use ztna_project.ControlPlane.Requests.{AuthorizeRequest, validate_request}
use ztna_project.ControlPlane.Authorize.{Surroundings, AuditEvent, decided, authorize, access_of}
use ztna_project.ControlPlane.Authorize.Reached.{Allows}
use ztna_project.ControlPlane.Authorize.Gate.{AsksRegistered}
use ztna_project.ControlPlane.Authorize.Grants.{Records}
use ztna_project.ControlPlane.Authorize.Allowed.{authorize-allow}
use ztna_project.ControlPlane.DeviceCerts.{
  DeviceCert, CertDb, store_device_cert, revoke_device_cert, generate_crl,
}
use ztna_project.ControlPlane.DeviceCerts.Listed.{IsKeyed}
use ztna_project.ControlPlane.DeviceCerts.Keyed.{call-IsKeyed, stores, call}
use ztna_project.Gateway.Session.{
  Session, Call, Manager, register, get_session, admit, run, registers, new_manager_with_limits,
  kill_by_serial,
}
use ztna_project.Gateway.Session.Limits.{IsValid, run-IsValid, new_manager_with_limits-IsValid}
use ztna_project.Gateway.Revocation.{new_store, is_revoked, fetch_and_update}
use ztna_project.Gateway.Revocation.Refresh.{NoneRevoked, fetch_and_update-NoneRevoked}
use ztna_project.System.Revocation.{downloaded, revoke_device_cert-fetch_and_update}

-- A checker that knows one address.
is_lab_ip : Text → Bool
is_lab_ip t = text_eq t (codes "10.0.0.7")

abbrev dev_policy : PolicyDb
dev_policy = record {
  versions =
      record { id = pos 1; active = true; created_at = codes "t"; created_by = codes "root" } ∷ [];
  rules =
      record {
        id = pos 1;
        version_id = pos 1;
        effect = codes "allow";
        subject_match = codes "user:ann";
        action = codes "connect";
        resource_type = codes "ssh";
        resource_match = codes "*";
        created_at = codes "t";
        allowed_hours = [];
        required_device_trust = [];
      }
      ∷ [];
  next_version = 2;
  next_rule = 2;
}

abbrev lab_gateways : GatewayDb
lab_gateways =
    (
      codes "gw-1",
      record {
        id = codes "gw-1";
        name = codes "gw-1";
        registered_at = codes "t0";
        last_seen = [];
        active = true;
        fingerprint = [];
        software_version = [];
      },
    )
    ∷ []

abbrev call_from_gateway : Surroundings
call_from_gateway = record {
  require_registration = true;
  ttl = pos 0;
  now = codes "t1";
  minutes = 600;
  uuid = codes "u";
  pep_id = codes "gw-1";
  peer = record { forwarded_for = []; real_ip = []; remote_addr = codes "10.0.0.7:5000" };
  stored = true;
}

abbrev ssh_access : AuthorizeRequest
ssh_access = record {
  subject = record { sub = codes "u-1"; username = codes "ann"; groups = [] };
  action = codes "connect";
  resource = record {
    type = codes "SSH";
    name = codes "dev";
    host = codes "lan";
    port = pos 22;
    ssh = none;
    http = none;
  };
  context = (codes "src_ip", text (codes "10.0.0.7")) ∷ [];
}

abbrev ssh_decision : Decision
ssh_decision = record {
  effect = allow;
  reason = codes "rule:1";
  ttl_seconds = pos 60;
  policy_version = pos 1;
  decision_id = codes "dec-u";
}

ssh_allowed :
    (authorize is_lab_ip call_from_gateway dev_policy lab_gateways (some ssh_access) []).0
    ≡ decided ssh_decision
unfolding authorize text_eq lookup to_lower trim_space evaluate match_subject has_prefix equal_fold
    before_last format_ℤ canonical
ssh_allowed = refl

authorize-allow_example :
    AsksRegistered call_from_gateway lab_gateways
    × ((subject : Subject) × (resource : Resource) × (validate_request ssh_access
          ≡ ok (subject, resource))
        × Allows dev_policy (access_of call_from_gateway ssh_access subject resource) ssh_decision
        × (true ≡ true
            → (event : AuditEvent) × Records call_from_gateway ssh_access subject resource
                ssh_decision event
              × ((authorize is_lab_ip call_from_gateway dev_policy lab_gateways
                    (some ssh_access)
                    []).1
                  ≡ [] ++ event ∷ [])))
authorize-allow_example =
    authorize-allow is_lab_ip call_from_gateway dev_policy lab_gateways ssh_access [] ssh_decision
      ssh_allowed refl

abbrev ann_cert : DeviceCert
ann_cert = record {
  serial = hex 75;
  sub = codes "u-1";
  username = codes "ann";
  fingerprint = codes "f";
  issued_at = codes "t0";
  expires_at = codes "t9";
  revoked = false;
  revoked_at = [];
  revocation_reason = [];
}

abbrev certs : CertDb
certs = (hex 75, ann_cert) ∷ []

abbrev certs_after : CertDb
certs_after =
    (
      hex 75,
      record ann_cert { revoked = true; revoked_at = codes "t1"; revocation_reason = codes "lost" },
    )
    ∷ []

no_certs-IsKeyed : IsKeyed []
unfolding lookup
no_certs-IsKeyed = λ serial cert found. ground (arith, found)

certs-IsKeyed : IsKeyed certs
unfolding call store_device_cert lookup insert text_eq hex
certs-IsKeyed = call-IsKeyed (stores ann_cert) [] certs no_certs-IsKeyed refl

ann_revoked : revoke_device_cert (codes "t1") (codes "lost") (hex 75) certs ≡ ok certs_after
unfolding revoke_device_cert lookup insert text_eq hex
ann_revoked = refl

abbrev other_session : Session
other_session = record {
  id = [];
  sub = codes "bob";
  username = codes "bob";
  resource_type = codes "ssh";
  resource_name = codes "dev";
  resource_host = codes "lan";
  resource_port = pos 22;
  started_at = 0;
  source_ip = [];
  decision_id = codes "dec-2";
  ttl_seconds = pos 60;
  expires_at = 0;
  cancel_func = some 8;
  bytes_in = pos 0;
  bytes_out = pos 0;
  end_reason = [];
  cert_serial = codes "99";
}

abbrev session_calls : List Call
session_calls =
    registers (codes "s1") 5 (record other_session { cert_serial = codes "75" })
    ∷ registers (codes "s2") 6 other_session
    ∷ []

sessions : Manager
sessions = run session_calls (new_manager_with_limits (pos 5))

sessions-IsValid : IsValid sessions
unfolding sessions
sessions-IsValid = run-IsValid session_calls _ (new_manager_with_limits-IsValid (pos 5))

none-NoneRevoked : NoneRevoked new_store sessions
unfolding is_revoked new_store member
none-NoneRevoked = λ id s found. refl

kept_session :
    get_session
      (codes "s2")
      (fetch_and_update 9 (some (downloaded certs_after)) new_store sessions).1
    ≡ some (admit (codes "s2") 6 other_session)
unfolding fetch_and_update sessions run new_manager_with_limits register get_session lookup text_eq
    count_if insert generate_crl hex format_ℤ kill_by_serial member keep new_store
kept_session = refl

revoke_device_cert-fetch_and_update_example : codes "99" ≢ format_ℤ (pos 75)
unfolding admit
revoke_device_cert-fetch_and_update_example =
    revoke_device_cert-fetch_and_update (codes "t1") (codes "lost") 74 certs certs_after 9 new_store
      sessions (codes "s2") (admit (codes "s2") 6 other_session) certs-IsKeyed ann_revoked
      sessions-IsValid none-NoneRevoked kept_session

serials_filled : All (λ (serial : Text). serial ≢ []) (codes "75" ∷ [])
serials_filled = ((λ (same : codes "75" ≡ []). ground (arith, same)), tt)

fetch_and_update-NoneRevoked_example :
    ((serial : Text)
      → is_revoked serial (fetch_and_update 9 (some (codes "75" ∷ [])) new_store sessions).0
        ≡ member serial (codes "75" ∷ []))
    × ((id : Text) (s : Session)
        → (get_session id (fetch_and_update 9 (some (codes "75" ∷ [])) new_store sessions).1
            ≡ some s)
          ↔ ((get_session id sessions ≡ some s) × (member s.cert_serial (codes "75" ∷ []) ≡ false)))
    × NoneRevoked
        (fetch_and_update 9 (some (codes "75" ∷ [])) new_store sessions).0
        (fetch_and_update 9 (some (codes "75" ∷ [])) new_store sessions).1
fetch_and_update-NoneRevoked_example =
    fetch_and_update-NoneRevoked 9 (codes "75" ∷ []) new_store sessions sessions-IsValid
      serials_filled none-NoneRevoked
