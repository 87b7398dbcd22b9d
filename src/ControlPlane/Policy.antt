-- ===== src/ControlPlane/Policy.antt =====
-- control-plane/internal/domain/policy/evaluation.go: the evaluation of a policy. The clock is an
-- argument, the minutes since midnight UTC.
pub mod Hours
pub mod Patterns
pub mod Verdict
use mathlib.Core.Option
use ztna_project.Base.{
  ℕ, ◌+◌, ◌*◌, Bool, true, false, not, ◌&&◌, ◌||◌, Option, none, some, List, [], ◌∷◌, ◌++◌, ltb,
  leb, if◌then◌else◌, ℤ, pos, negsuc, exceeds, Text, codes, text_eq, to_lower, equal_fold,
  trim_space, has_prefix, after_prefix, before_last, split_two, atoi, format_ℤ, is_empty, lookup,
}
use ztna_project.ControlPlane.Model.{
  PolicyRule, PolicySnapshot, Subject, Resource, canonical, DecisionEffect, allow, deny, JsonValue,
  text, other,
}

unfoldable pub has_group : Text → List Text → Bool
has_group group [] = false
has_group group (g ∷ gs) = text_eq g group || has_group group gs

-- `HasPrefix` and `TrimPrefix` with one prefix are one call of `after_prefix`.
unfoldable pub match_subject : Text → Subject → Bool
unfolding has_group
match_subject pattern subject =
    if text_eq pattern (codes "*") then true else elim (after_prefix (codes "user:") pattern) [
      | some name ↦ text_eq subject.username name
      | none ↦ elim (after_prefix (codes "group:") pattern) [
        | some group ↦ has_group group subject.groups
        | none ↦ elim (after_prefix (codes "sub:") pattern) [
          | some sub ↦ text_eq subject.sub sub
          | none ↦ false
        ]
      ]
    ]

unfoldable match_action : Text → Text → Bool
match_action pattern action =
    if text_eq pattern (codes "*") then true else equal_fold pattern action

unfoldable pub match_field : Text → Text → Bool
match_field pattern value = if text_eq pattern (codes "*") then true else equal_fold pattern value

unfoldable pub match_resource : Text → Text → Bool
match_resource pattern canon =
    if text_eq pattern (codes "*") then true else elim (before_last b'*' pattern) [
      | some prefix ↦ has_prefix canon prefix
      | none ↦ equal_fold pattern canon
    ]

-- An integer that is not negative and not above the bound.
abbrev within : ℕ → Option ℤ → Option ℕ
within bound none = none
within bound (some (negsuc n)) = none
within bound (some (pos n)) = if ltb bound n then none else some n

abbrev minutes_of : Option ℕ → Option ℕ → Option ℕ
minutes_of none m = none
minutes_of (some h) none = none
minutes_of (some h) (some m) = some (h * 60 + m)

unfoldable pub parse_hhmm : Text → Option ℕ
parse_hhmm s = elim (split_two b':' (trim_space s)) [
  | none ↦ none
  | some (hours, minutes) ↦ minutes_of (within 23 (atoi hours)) (within 59 (atoi minutes))
]

-- From `start`, included, to `end`, excluded; round midnight where the end comes first.
unfoldable pub in_window : (start end now : ℕ) → Bool
in_window start end now =
    if leb start end then leb start now && ltb now end else leb start now || ltb now end

abbrev window_of : ℕ → Option ℕ → Option ℕ → Bool
window_of now none end = true
window_of now (some start) none = true
window_of now (some start) (some end) = in_window start end now

-- A specification that cannot be read is no restriction.
unfoldable pub match_allowed_hours : (now : ℕ) → Text → Bool
match_allowed_hours now spec = elim (split_two b'-' spec) [
  | none ↦ true
  | some (start, end) ↦ window_of now (parse_hhmm start) (parse_hhmm end)
]

unfoldable pub trust_level : Text → ℕ
trust_level level =
    let l = to_lower level in
    if text_eq l (codes "high")
    then 3
    else if text_eq l (codes "medium")
    then 2
    else if text_eq l (codes "low")
    then 1
    else 0

-- The `device_trust` of the context, if it is a string.
abbrev pub text_of : Option JsonValue → Option Text
text_of none = none
text_of (some other) = none
text_of (some (text t)) = some t

unfoldable pub match_device_trust : Text → List (Text × JsonValue) → Bool
unfolding trust_level
match_device_trust required ctx = elim (text_of (lookup (codes "device_trust") ctx)) [
  | none ↦ false
  | some actual ↦ if is_empty actual then false else leb (trust_level required) (trust_level actual)
]

-- What a request brings to the evaluation: subject, action, resource, context and time.
pub record Access : Type 0 where
  pub subject : Subject
  pub action : Text
  pub resource : Resource
  pub ctx : List (Text × JsonValue)
  pub now : ℕ

-- The tests of one round of the loop, each of which skips the rule.
unfoldable pub applies : Access → (canon : Text) → PolicyRule → Bool
unfolding match_subject match_action match_field match_resource match_allowed_hours
    match_device_trust
applies a canon rule =
    match_subject rule.subject_match a.subject
    && match_action rule.action a.action
    && match_field rule.resource_type a.resource.type
    && match_resource rule.resource_match canon
    && (is_empty rule.allowed_hours || match_allowed_hours a.now rule.allowed_hours)
    && (is_empty rule.required_device_trust || match_device_trust rule.required_device_trust a.ctx)

abbrev pub rule_reason : PolicyRule → Text
rule_reason rule = codes "rule:" ++ format_ℤ rule.id

abbrev pub verdict_of : PolicyRule → DecisionEffect × Text
verdict_of rule =
    if text_eq rule.effect (codes "allow")
    then (allow, rule_reason rule)
    else (deny, rule_reason rule)

unfoldable pub evaluate_rules : List PolicyRule → Access → (canon : Text) → DecisionEffect × Text
unfolding applies
evaluate_rules [] a canon = (deny, codes "default-deny")
evaluate_rules (rule ∷ rules) a canon =
    if applies a canon rule then verdict_of rule else evaluate_rules rules a canon

unfoldable pub evaluate : PolicySnapshot → Access → DecisionEffect × Text
unfolding evaluate_rules
evaluate snapshot a = evaluate_rules snapshot.rules a (canonical a.resource)

unfoldable pub validate_effect : Text → Bool
validate_effect effect =
    let e = to_lower (trim_space effect) in text_eq e (codes "allow") || text_eq e (codes "deny")
