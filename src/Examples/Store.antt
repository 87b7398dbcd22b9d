-- ===== src/Examples/Store.antt =====
-- The theorems on the tables of the control plane at concrete inputs.
use ztna_project.Base.{
  ◌↔◌, ◌≡◌, ◌≢◌, refl, if◌then◌else◌, true, false, Option, none, some, List, [], ◌∷◌, All, ℤ, pos,
  Text, codes, text_eq, lookup, insert, member, to_lower, trim_space, has_prefix,
}
use ztna_project.ControlPlane.Model.{PolicyRule, ok}
use ztna_project.ControlPlane.Policy.{validate_effect}
use ztna_project.ControlPlane.PolicyStore.{Call, creates, activates, run, empty_db, normalise_all}
use ztna_project.ControlPlane.PolicyStore.Effects.{IsMeant, run-IsMeant}
use ztna_project.ControlPlane.PolicyStore.Activation.{HasOneActive, run-HasOneActive}
use ztna_project.ControlPlane.Gateways.{
  Gateway, GatewayDb, registered, status_of, PepConfig, PepRequest, require_pep, is_listed, Body,
  decoded, RegisterRequest, register_handler,
}
use ztna_project.ControlPlane.Gateways.Liveness.{status_of-register_handler}
use ztna_project.ControlPlane.Gateways.Access.{Proves, require_pep_iff}
use ztna_project.ControlPlane.Credentials.{
  SshCaConfig, IssueRequest, SshCert, resolve_principals, clamp_ttl, parse_duration_or_zero,
  chosen_ttl, issue_ssh_cert,
}
use ztna_project.ControlPlane.Credentials.Principals.{AreAllowed, issue_ssh_cert-AreAllowed}
use ztna_project.ControlPlane.Records.{
  RecordDb, StartRequest, EndRequest, started, completed, start_handler, end_handler,
}
use ztna_project.ControlPlane.Records.Lifecycle.{start_handler-end_handler}

abbrev pub ops_rule : PolicyRule
ops_rule = record {
  id = pos 0;
  version_id = pos 0;
  effect = codes " Allow";
  subject_match = codes "group:ops";
  action = codes "Connect";
  resource_type = codes "ssh";
  resource_match = codes "*";
  created_at = [];
  allowed_hours = [];
  required_device_trust = [];
}

abbrev pub stored_rule : PolicyRule
stored_rule = record ops_rule { effect = codes "allow"; action = codes "connect" }

abbrev pub policy_calls : List Call
policy_calls =
    creates (codes "t1") (codes "root") (ops_rule ∷ []) ∷ activates (pos 1) ∷ activates (pos 9) ∷ []

run-IsMeant_example : All (IsMeant policy_calls) (run policy_calls empty_db).rules
run-IsMeant_example = run-IsMeant policy_calls

run-HasOneActive_example : HasOneActive (run policy_calls empty_db).versions
run-HasOneActive_example = run-HasOneActive policy_calls

pub ops_normal : normalise_all (ops_rule ∷ []) ≡ ok (stored_rule ∷ [])
unfolding normalise_all validate_effect to_lower trim_space text_eq
ops_normal = refl

abbrev pub old_gateway : Gateway
old_gateway = record {
  id = codes "gw-1";
  name = codes "gw-1";
  registered_at = codes "t0";
  last_seen = [];
  active = false;
  fingerprint = [];
  software_version = codes "1.0";
}

abbrev gateways : GatewayDb
gateways = (codes "gw-1", old_gateway) ∷ []

abbrev registration : Body RegisterRequest
registration =
    decoded
      (record { gateway_id = codes "gw-1"; name = []; version = codes "1.1"; fingerprint = [] })

abbrev gateways_after : GatewayDb
gateways_after =
    (codes "gw-1", record old_gateway { active = true; software_version = codes "1.1" }) ∷ []

registers_again :
    register_handler (codes "t1") (codes "gw-1") registration gateways ≡ ok gateways_after
unfolding register_handler lookup insert text_eq
registers_again = refl

status_of-register_handler_example :
    (status_of (codes "gw-1") gateways_after ≡ (registered, none))
    × ((j : Text) → j ≢ codes "gw-1" → lookup j gateways_after ≡ lookup j gateways)
status_of-register_handler_example =
    status_of-register_handler (codes "t1") (codes "gw-1") registration gateways gateways_after
      registers_again

abbrev pep_config : PepConfig
pep_config = record {
  auth_mode = codes "token";
  tokens = (codes "gw-1", codes "s3cret") ∷ [];
  revoked_pep_ids = codes "gw-9" ∷ [];
}

abbrev pep_request : PepRequest
pep_request = record { peer_common_name = none; pep_id = codes "gw-1"; pep_token = codes "s3cret" }

require_pep_example : (require_pep pep_config pep_request ≡ ok (codes "gw-1")) ↔ (
    Proves pep_config pep_request (codes "gw-1")
    × (is_listed (codes "gw-1") pep_config.revoked_pep_ids ≡ false))
require_pep_example = require_pep_iff pep_config pep_request (codes "gw-1")

pep_passes : require_pep pep_config pep_request ≡ ok (codes "gw-1")
unfolding require_pep lookup text_eq
pep_passes = refl

-- A parser that knows two durations.
durations : Text → Option ℤ
durations raw =
    if text_eq raw (codes "1h")
    then some (pos 3600)
    else if text_eq raw (codes "8h")
    then some (pos 28800)
    else none

abbrev ssh_config : SshCaConfig
ssh_config = record {
  default_ttl = codes "1h";
  min_ttl = [];
  max_ttl = codes "8h";
  allowed_principals = codes "${username}" ∷ codes "deploy" ∷ [];
}

abbrev ssh_request : IssueRequest
ssh_request = record {
  subject = record { sub = codes "u-1"; username = codes "ann"; groups = [] };
  ttl = some (pos 99999);
  principals = codes "ann" ∷ codes "root" ∷ codes "deploy" ∷ [];
}

abbrev ssh_cert : SshCert
ssh_cert = record {
  principals = codes "ann" ∷ codes "deploy" ∷ [];
  ttl = pos 28800;
  key_id = codes "u-1";
}

ssh_issued : issue_ssh_cert durations true ssh_config ssh_request ≡ ok ssh_cert
unfolding issue_ssh_cert durations text_eq trim_space has_prefix member
ssh_issued = refl

issue_ssh_cert_example :
    AreAllowed
      (resolve_principals ssh_config.allowed_principals ssh_request.subject)
      ssh_cert.principals
    × ((default : ℤ) × (durations ssh_config.default_ttl ≡ some default)
        × (clamp_ttl
              (parse_duration_or_zero durations ssh_config.min_ttl)
              (parse_duration_or_zero durations ssh_config.max_ttl)
              (chosen_ttl ssh_request.ttl default)
            ≡ ok ssh_cert.ttl))
issue_ssh_cert_example =
    issue_ssh_cert-AreAllowed durations true ssh_config ssh_request ssh_cert ssh_issued

abbrev start : StartRequest
start = record {
  session_id = codes "s1";
  decision_id = codes "dec-1";
  subject_sub = codes "u-1";
  subject_username = codes "ann";
  device_serial = [];
  resource_type = codes "ssh";
  resource_name = codes "dev";
  resource_match = codes "ssh:lan:22";
}

abbrev end : EndRequest
end = record {
  session_id = codes "s1";
  bytes_in = pos 3;
  bytes_out = pos 4;
  duration_ms = pos 900;
  end_reason = codes "normal";
}

abbrev records : RecordDb
records = (codes "s1", started (codes "t1") start) ∷ []

abbrev no_records : RecordDb
no_records = []

starts : start_handler (codes "t1") (some start) no_records ≡ ok records
unfolding start_handler lookup insert
starts = refl

start_handler-end_handler_example :
    (lookup (codes "s1") no_records ≡ none)
    × ((db'' : RecordDb) × (end_handler (codes "t2") (some end) records ≡ ok db'')
        × (lookup (codes "s1") db''
            ≡ some (completed (codes "t2") end (started (codes "t1") start)))
        × ((j : Text) → j ≢ codes "s1" → lookup j db'' ≡ lookup j no_records))
start_handler-end_handler_example =
    start_handler-end_handler (codes "t1") (codes "t2") start end no_records records starts refl
