-- ===== src/ControlPlane/Policy/Verdict.antt =====
-- The verdict of a policy: the first rule that applies decides, and nothing is allowed by default.
use mathlib.Core.List.{Memᴰ}
use ztna_project.Base.{
  ◌≡◌, refl, ◌⊎◌, inl, inr, true, false, Option, List, [], ◌∷◌, arith, if◌then◌else◌, Bool-cases,
  Text, codes, text_eq, text_eq_iff, All, sym, ◌∙◌, ap,
}
use ztna_project.ControlPlane.Model.{
  PolicyRule, PolicySnapshot, Resource, HostPort, canonical, allow, deny,
}
use ztna_project.ControlPlane.Policy.{
  Access, applies, verdict_of, rule_reason, evaluate_rules, evaluate,
}

-- `rule` applies to the request, whose resource has the canonical form `canon`, and no rule before
-- it does.
pub data IsFirst (a : Access) (canon : Text) (rule : PolicyRule) : List PolicyRule → Type 0 where
  here :
      {rules : List PolicyRule} → applies a canon rule ≡ true → IsFirst a canon rule (rule ∷ rules)
  later :
      {r : PolicyRule} {rules : List PolicyRule}
      → applies a canon r ≡ false
      → IsFirst a canon rule rules
      → IsFirst a canon rule (r ∷ rules)

abbrev NoneApplies : Access → Text → List PolicyRule → Type 0
NoneApplies a canon rules = All (λ r. applies a canon r ≡ false) rules

evaluate_rules_cases :
    (rules : List PolicyRule) (a : Access) (canon : Text)
    → ((rule : PolicyRule) × IsFirst a canon rule rules
        × (evaluate_rules rules a canon ≡ verdict_of rule))
      ⊎ (NoneApplies a canon rules × (evaluate_rules rules a canon ≡ (deny, codes "default-deny")))
unfolding evaluate_rules
evaluate_rules_cases [] a canon = inr (tt, refl)
evaluate_rules_cases (r ∷ rules) a canon = elim (Bool-cases (applies a canon r)) [
  | inl fits ↦ inl (r, here fits, rw fits)
  | inr skipped ↦ elim (evaluate_rules_cases rules a canon) [
    | inl (rule, first, e) ↦ inl (rule, later skipped first, rw skipped e)
    | inr (others, e) ↦ inr ((skipped, others), rw skipped e)
  ]
]

-- Either a rule applies, and the first one that does gives its effect and its number; or none
-- does, and the answer is the default denial.
evaluate_cases :
    (snapshot : PolicySnapshot) (a : Access)
    → ((rule : PolicyRule) × IsFirst a (canonical a.resource) rule snapshot.rules
        × (evaluate snapshot a ≡ verdict_of rule))
      ⊎ (NoneApplies a (canonical a.resource) snapshot.rules
          × (evaluate snapshot a ≡ (deny, codes "default-deny")))
unfolding evaluate
evaluate_cases snapshot a = evaluate_rules_cases snapshot.rules a (canonical a.resource)

IsFirst-Memᴰ :
    (a : Access) (canon : Text) (rule : PolicyRule) {rules : List PolicyRule}
    → IsFirst a canon rule rules
    → Memᴰ rule rules × (applies a canon rule ≡ true)
IsFirst-Memᴰ a canon rule (here fits) = (Memᴰ.head refl, fits)
IsFirst-Memᴰ a canon rule (later skipped first) =
    let (listed, fits) = IsFirst-Memᴰ a canon rule first in (Memᴰ.tail listed, fits)

verdict_of-allow :
    (rule : PolicyRule) {reason : Text}
    → verdict_of rule ≡ (allow, reason)
    → (rule.effect ≡ codes "allow") × (reason ≡ rule_reason rule)
verdict_of-allow rule {reason} e = elim (Bool-cases (text_eq rule.effect (codes "allow"))) [
  | inl same ↦ ((text_eq_iff rule.effect (codes "allow")).0 same, ground (arith, same))
  | inr other ↦ ground (arith, other)
]

-- Access is allowed only by a rule of the policy whose effect is "allow", that applies to the
-- request, and that no earlier applicable rule precedes; the reason names that rule.
pub evaluate-allow :
    (snapshot : PolicySnapshot) (a : Access) (reason : Text)
    → evaluate snapshot a ≡ (allow, reason)
    → (rule : PolicyRule) × IsFirst a (canonical a.resource) rule snapshot.rules
      × Memᴰ rule snapshot.rules
      × (applies a (canonical a.resource) rule ≡ true)
      × (rule.effect ≡ codes "allow")
      × (reason ≡ rule_reason rule)
evaluate-allow snapshot a reason e = elim (evaluate_cases snapshot a) [
  | inl (rule, first, same) ↦
      let (listed, fits) = IsFirst-Memᴰ a (canonical a.resource) rule first in
      let (effect, named) = verdict_of-allow rule (sym same ∙ e) in
      (rule, first, listed, fits, effect, named)
  | inr (others, same) ↦ cc
]

-- Another resource of the type that `a` asks for.
abbrev at_host : Access → Option HostPort → Option HostPort → Access
at_host a ssh http = record a {
  resource = record { type = a.resource.type; ssh = ssh; http = http };
}

canonical-other_type :
    (r : Resource)
    → text_eq r.type (codes "ssh") ≡ false
    → text_eq r.type (codes "http") ≡ false
    → canonical r ≡ codes "unknown"
unfolding canonical
canonical-other_type r p q = rw (p, q)

evaluate_rules-at_host :
    (rules : List PolicyRule) (a : Access) (canon : Text) (ssh http : Option HostPort)
    → evaluate_rules rules (at_host a ssh http) canon ≡ evaluate_rules rules a canon
unfolding evaluate_rules
evaluate_rules-at_host [] a canon ssh http = refl
evaluate_rules-at_host (r ∷ rules) a canon ssh http =
    ap (λ rest. if applies a canon r then verdict_of r else rest)
      (evaluate_rules-at_host rules a canon ssh http)

-- A resource that is neither "ssh" nor "http", a web application or a database for example, is
-- judged without regard to its host and its port: two such resources of one type get one verdict.
evaluate-at_host :
    (snapshot : PolicySnapshot) (a : Access) (ssh http : Option HostPort)
    → text_eq a.resource.type (codes "ssh") ≡ false
    → text_eq a.resource.type (codes "http") ≡ false
    → evaluate snapshot (at_host a ssh http) ≡ evaluate snapshot a
unfolding evaluate
evaluate-at_host snapshot a ssh http p q =
    rw (canonical-other_type (at_host a ssh http).resource p q, canonical-other_type a.resource p q)
      (evaluate_rules-at_host snapshot.rules a (codes "unknown") ssh http)
