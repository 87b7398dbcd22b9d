-- ===== src/Examples/Gateway.antt =====
-- The gateway's theorems at concrete inputs.
use ztna_project.Base.{◌≤◌, ◌≡◌, refl, not, some, List, [], ◌∷◌, arith, pos, codes, text_eq, lookup}
use ztna_project.Gateway.Session.{
  Session, Manager, new_manager_with_limits, active_count_for_subject, get_session, is_expired,
  reap_expired, Call, registers, run,
}
use ztna_project.Gateway.Session.Limits.{
  IsValid, run-IsValid, new_manager_with_limits-IsValid, active_count_for_subject-run-le,
}
use ztna_project.Gateway.Session.Removal.{filter_found, reap_expired_lem}
use ztna_project.Gateway.Cache.{Cache, DecisionEntry, put}
use ztna_project.Gateway.Cache.Laws.{IsBounded, put-IsBounded}

abbrev alice_session : Session
alice_session = record {
  id = [];
  sub = codes "alice";
  username = codes "alice";
  resource_type = codes "ssh";
  resource_name = codes "dev";
  resource_host = codes "lan-app";
  resource_port = pos 22;
  started_at = 0;
  source_ip = codes "10.0.0.7";
  decision_id = codes "dec-1";
  ttl_seconds = pos 60;
  expires_at = 0;
  cancel_func = some 7;
  bytes_in = pos 0;
  bytes_out = pos 0;
  end_reason = [];
  cert_serial = codes "4711";
}

abbrev history : List Call
history = registers (codes "s1") 5 alice_session ∷ registers (codes "s2") 6 alice_session ∷ []

-- A manager with a limit of one session for a subject, after two attempts.
busy : Manager
busy = run history (new_manager_with_limits (pos 1))

busy-IsValid : IsValid busy
unfolding busy
busy-IsValid = run-IsValid history _ (new_manager_with_limits-IsValid (pos 1))

active_count_for_subject-run-le_example :
    active_count_for_subject (codes "alice") (run history (new_manager_with_limits (pos 1))) ≤ 1
active_count_for_subject-run-le_example =
    active_count_for_subject-run-le (pos 1) history (codes "alice")

reap_expired_example :
    get_session (codes "s1") (reap_expired 100_000_000_000 busy).0
    ≡ filter_found (λ s. not (is_expired 100_000_000_000 s)) (get_session (codes "s1") busy)
reap_expired_example = reap_expired_lem 100_000_000_000 busy (codes "s1") busy-IsValid

abbrev allow_entry : DecisionEntry
allow_entry = record { decision = codes "allow"; reason = codes "rule:1"; policy_version = pos 3 }

abbrev full_cache : Cache
full_cache = record {
  items = (codes "k", record { entry = allow_entry; expires = 10 }) ∷ [];
  max_entries = 1;
}

put-IsBounded_example : IsBounded (put (codes "k") (codes "new") allow_entry (pos 5) 3 full_cache)
unfolding lookup text_eq
put-IsBounded_example =
    put-IsBounded (codes "k") (codes "new") allow_entry (pos 5) 3 full_cache
      {w = record { entry = allow_entry; expires = 10 }}
      (record { room = omega arith; bounded = omega arith }) (λ h. refl)
