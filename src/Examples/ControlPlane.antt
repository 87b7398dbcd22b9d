-- ===== src/Examples/ControlPlane.antt =====
-- The control plane's theorems at concrete inputs.
use mathlib.Core.List.{Memᴰ}
use ztna_project.Base.{
  ◌<◌, ◌≡◌, refl, ◌↔◌, true, none, some, [], ◌∷◌, arith, pos, codes, text_eq, equal_fold,
  has_prefix, before_last, split_two, atoi, trim_space, format_ℤ,
}
use ztna_project.ControlPlane.Model.{PolicyRule, PolicySnapshot, Subject, canonical, allow, text}
use ztna_project.ControlPlane.Policy.{
  Access, match_subject, match_allowed_hours, applies, rule_reason, evaluate, parse_hhmm, in_window,
}
use ztna_project.ControlPlane.Policy.Hours.{minutes_after, match_allowed_hours_iff}
use ztna_project.ControlPlane.Policy.Patterns.{NamesSubject, match_subject_iff}
use ztna_project.ControlPlane.Policy.Verdict.{IsFirst, evaluate-allow}

abbrev ann : Subject
ann = record { sub = codes "u-1"; username = codes "ann"; groups = codes "dev" ∷ [] }

abbrev dev_rule : PolicyRule
dev_rule = record {
  id = pos 4;
  version_id = pos 1;
  effect = codes "allow";
  subject_match = codes "group:dev";
  action = codes "connect";
  resource_type = codes "*";
  resource_match = codes "*";
  created_at = [];
  allowed_hours = codes "22:00-06:00";
  required_device_trust = [];
}

abbrev night_policy : PolicySnapshot
night_policy = record {
  version = record { id = pos 1; active = true; created_at = []; created_by = codes "root" };
  rules = dev_rule ∷ [];
}

abbrev grafana : Access
grafana = record {
  subject = ann;
  action = codes "Connect";
  resource = record {
    type = codes "web";
    ssh = none;
    http = some (record { host = codes "10.0.0.9"; port = pos 3000 });
  };
  ctx = (codes "device_trust", text (codes "high")) ∷ [];
  now = 60;
}

evaluate_tests : evaluate night_policy grafana ≡ (allow, codes "rule:4")
unfolding evaluate match_subject match_allowed_hours parse_hhmm text_eq equal_fold before_last
    has_prefix split_two atoi trim_space canonical in_window format_ℤ
evaluate_tests = refl

evaluate-allow_example :
    (rule : PolicyRule) × IsFirst grafana (canonical grafana.resource) rule night_policy.rules
    × Memᴰ rule night_policy.rules
    × (applies grafana (canonical grafana.resource) rule ≡ true)
    × (rule.effect ≡ codes "allow")
    × (codes "rule:4" ≡ rule_reason rule)
evaluate-allow_example = evaluate-allow night_policy grafana (codes "rule:4") evaluate_tests

match_allowed_hours_example :
    (match_allowed_hours 60 (codes "22:00-06:30") ≡ true)
    ↔ (minutes_after 1320 60 < minutes_after 1320 390)
match_allowed_hours_example =
    match_allowed_hours_iff 22 0 6 30 60 (omega arith) (omega arith) (omega arith) (omega arith)
      (omega arith)

match_subject_example :
    (match_subject (codes "group:dev") ann ≡ true) ↔ NamesSubject (codes "group:dev") ann
match_subject_example = match_subject_iff (codes "group:dev") ann
