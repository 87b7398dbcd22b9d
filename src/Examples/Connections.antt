-- ===== src/Examples/Connections.antt =====
-- The theorems on connections at concrete inputs.
use ztna_project.Base.{
  ℕ, insert, ◌↔◌, ◌≤◌, ◌≡◌, ◌≢◌, refl, true, false, Option, none, some, List, [], ◌∷◌, ◌++◌, All,
  arith, pos, Text, codes, text_eq, is_empty, lookup, count_if, split_host_port, has_byte, scan_int,
  is_space, format_ℤ,
}
use ztna_project.Gateway.Session.{register, get_session, admit, is_expired}
use ztna_project.Gateway.Cache.{new_cache, put, make_room, Cache, DecisionEntry, get}
use ztna_project.Gateway.Identity.{Certificate, SubjectRef}
use ztna_project.Gateway.Connect.{
  ResourceTarget, ResolvedResource, AuthzResponse, Handler, State, Arrival, to_target,
  resolve_target, resolve_decision, cache_key, cached_response, entry_of,
}
use ztna_project.Gateway.Connect.Handling.{
  opened, ProxyResult, open_session, new_session, handle_connection,
}
use ztna_project.Gateway.Connect.Opening.{Outcome, open_session_cases}
use ztna_project.Gateway.Connect.Targets.{IsAuthorisedTarget, resolve_target-IsAuthorisedTarget}
use ztna_project.Gateway.Connect.Keys.{IsPlain, cache_key_iff}
use ztna_project.Gateway.Connect.Backed.{Call, run, WasGiven, resolve_decision-run}
use ztna_project.Gateway.Connect.Life.{handle_connection-ends, resolve_decision-unlimited}
use ztna_project.Gateway.Framing.{write_message, read_message}
use ztna_project.Gateway.Framing.Roundtrip.{read_message-write_message}
use ztna_project.Gateway.Proxy.{Ip, v4, validate_target, addresses}
use ztna_project.Gateway.Proxy.Guard.{IsPublic, validate_target-none}

abbrev pub ann_cert : Certificate
ann_cert = record {
  common_name = codes "ann";
  organization = codes "dev" ∷ [];
  dns_names = [];
  uris = record { scheme = codes "oidc"; opaque = codes "u-1"; whole = codes "oidc:u-1" } ∷ [];
  serial = codes "75";
}

abbrev ann : SubjectRef
ann = record { sub = codes "u-1"; username = codes "ann"; groups = codes "dev" ∷ [] }

abbrev asked : ResourceTarget
asked = record { type = codes "ssh"; host = []; port = pos 0; name = codes "dev" }

abbrev dev_host : ResolvedResource
dev_host = record {
  name = codes "dev";
  backend = codes "lan:22";
  type = codes "ssh";
  access_mode = codes "full";
}

abbrev reached : ResourceTarget
reached = record { type = codes "ssh"; host = codes "lan"; port = pos 22; name = codes "dev" }

abbrev yes_for_a_minute : AuthzResponse
yes_for_a_minute = record {
  decision = codes "allow";
  ttl_seconds = pos 60;
  reason = codes "rule:1";
  policy_version = pos 1;
  decision_id = codes "dec-1";
}

abbrev pub lab_handler : Handler
lab_handler = record {
  crl = none;
  cache_ttl = pos 0;
  routes = [];
  resources = some (λ name. some dev_host);
  authorize = λ req. some yes_for_a_minute;
  gateway_id = codes "gw-1";
}

abbrev arrival : Arrival
arrival = record {
  cert = ann_cert;
  remote_addr = codes "10.0.0.7:5000";
  request = some (record { action = codes "connect"; resource = asked });
  now = 5;
  later = 6;
  victim = [];
  session_id = codes "s1";
  ctx = 1;
}

abbrev idle : State
idle = record { sessions = record { sessions = []; max_per_subject = pos 10 }; cache = none }

open_session_cases_example :
    Outcome lab_handler arrival idle (open_session lab_handler arrival idle)
open_session_cases_example = open_session_cases lab_handler arrival idle

reaches : resolve_target lab_handler asked ≡ to_target (codes "lan") 22 reached
unfolding resolve_target split_host_port has_byte scan_int is_space
reaches = refl

resolve_target_example : IsAuthorisedTarget lab_handler asked (codes "lan") 22 reached
resolve_target_example =
    resolve_target-IsAuthorisedTarget lab_handler asked (codes "lan") 22 reached reaches

-- A connection that the control plane decides, and one after it, when the control plane is down.
abbrev first_call : Call
first_call = record {
  handler = lab_handler;
  arrival = arrival;
  subject = ann;
  action = codes "connect";
  target = reached;
}

abbrev second_call : Call
second_call = record first_call {
  handler = record lab_handler { authorize = λ req. none };
  arrival = record arrival { now = 7; later = 8 };
}

abbrev from_cache : AuthzResponse
from_cache = cached_response (entry_of yes_for_a_minute)

second_decision :
    (resolve_decision second_call.handler second_call.arrival ann
      (codes "connect")
      reached
      (run (new_cache (pos 2)) (first_call ∷ []))).1
    ≡ some from_cache
unfolding resolve_decision run new_cache get put make_room cache_key lookup insert text_eq format_ℤ
second_decision = refl

resolve_decision-run_example :
    WasGiven
      (second_call ∷ first_call ∷ [])
      (cache_key ann (codes "connect") reached)
      (entry_of from_cache)
resolve_decision-run_example =
    resolve_decision-run (pos 2) (first_call ∷ []) second_call from_cache second_decision

reached-IsPlain : IsPlain ann (codes "connect") reached 22
reached-IsPlain = (ground arith, ground arith, ground arith, ground arith, refl)

cache_key_example :
    (cache_key ann (codes "connect") reached
      ≡ cache_key (record ann { groups = [] }) (codes "connect") reached)
    ↔ ((ann.sub ≡ ann.sub)
        × (codes "connect" ≡ codes "connect")
        × (reached.type ≡ reached.type)
        × (reached.host ≡ reached.host)
        × (reached.port ≡ reached.port))
cache_key_example =
    cache_key_iff ann (record ann { groups = [] }) (codes "connect") (codes "connect") reached
      reached 22 22 reached-IsPlain reached-IsPlain

opens :
    (open_session lab_handler arrival idle).1
    ≡ opened (codes "s1") (codes "lan") 22 reached yes_for_a_minute
unfolding open_session resolve_target resolve_decision register text_eq count_if split_host_port
    has_byte scan_int is_space
opens = refl

abbrev relayed : (host : Text) → (port : ℕ) → ProxyResult
relayed host port = record { bytes_in = pos 3; bytes_out = pos 4; end_reason = codes "normal" }

handle_connection-ends_example :
    (get_session
        (codes "s1")
        (handle_connection lab_handler arrival (λ m. m) true relayed idle).sessions
      ≡ none)
    × ((j : Text)
        → j ≢ codes "s1"
        → get_session j (handle_connection lab_handler arrival (λ m. m) true relayed idle).sessions
          ≡ get_session j (open_session lab_handler arrival idle).0.sessions)
handle_connection-ends_example =
    handle_connection-ends lab_handler arrival (λ m. m) true relayed idle (codes "s1") (codes "lan")
      22 reached yes_for_a_minute opens

abbrev kept_entry : DecisionEntry
kept_entry = record { decision = codes "allow"; reason = codes "rule:1"; policy_version = pos 1 }

abbrev warm : Cache
warm = record {
  items = (codes "u-1|connect|ssh|lan|22", record { entry = kept_entry; expires = 100 }) ∷ [];
  max_entries = 5000;
}

abbrev unlimited : AuthzResponse
unlimited = record {
  decision = codes "allow";
  ttl_seconds = pos 0;
  reason = codes "rule:1";
  policy_version = pos 1;
  decision_id = codes "cached";
}

hits : get (cache_key ann (codes "connect") reached) 5 warm ≡ (warm, some kept_entry)
unfolding get cache_key lookup text_eq format_ℤ
hits = refl

decides_from_cache :
    (resolve_decision lab_handler arrival ann (codes "connect") reached (some warm)).1
    ≡ some unlimited
unfolding resolve_decision get cache_key lookup text_eq format_ℤ
decides_from_cache = refl

resolve_decision-unlimited_example :
    is_expired 999999999999999 (admit (codes "s2") 6 (new_session arrival reached unlimited))
    ≡ false
resolve_decision-unlimited_example =
    resolve_decision-unlimited lab_handler arrival ann (codes "connect") reached warm warm
      kept_entry unlimited (codes "s2") 6 999999999999999 hits decides_from_cache

abbrev marshal_text : Text → Option (List ℕ)
marshal_text t = some (b'"' ∷ t)

abbrev unmarshal_text : List ℕ → Option Text
unmarshal_text [] = none
unmarshal_text (q ∷ t) = some t

written : write_message marshal_text (codes "hi") ≡ some (0 ∷ 0 ∷ 0 ∷ 3 ∷ codes "\"hi")
unfolding write_message
written = refl

read_message-write_message_example :
    read_message unmarshal_text ((0 ∷ 0 ∷ 0 ∷ 3 ∷ codes "\"hi") ++ 9 ∷ [])
    ≡ some (codes "hi", 9 ∷ [])
read_message-write_message_example =
    read_message-write_message marshal_text unmarshal_text (codes "hi") (codes "\"hi")
      (0 ∷ 0 ∷ 0 ∷ 3 ∷ codes "\"hi") (9 ∷ []) refl
      (λ (same : codes "\"hi" ≡ []). ground (arith, same)) refl written

abbrev lookup_lan : Text → Option (List Ip)
lookup_lan host = some (v4 10 0 0 9 ∷ [])

abbrev parse_nothing : Text → Option Ip
parse_nothing host = none

lan_passes : validate_target lookup_lan parse_nothing (codes "lan") (pos 22) ≡ none
unfolding validate_target
lan_passes = refl

validate_target_example :
    (is_empty (codes "lan") ≡ false)
    × ((n : ℕ) × (pos 22 ≡ pos n) × (1 ≤ n) × (n ≤ 65535))
    × ((ips : List Ip) × (addresses parse_nothing (codes "lan") (lookup_lan (codes "lan"))
          ≡ some ips)
        × All IsPublic ips)
validate_target_example =
    validate_target-none lookup_lan parse_nothing (codes "lan") (pos 22) lan_passes
