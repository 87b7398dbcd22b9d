-- ===== src/ControlPlane/Authorize/Reached.antt =====
-- The decision that the active policy reaches.
use ztna_project.Base.{
  ◌≡◌, ap, sym, ◌∙◌, inl, inr, arith, if◌then◌else◌, Text, codes, ℤ, is_positive, pos,
}
use ztna_project.ControlPlane.Model.{
  Decision, allow, PolicySnapshot, PolicyRule, canonical, Error, ok, err, ok-injective,
  Result-cases,
}
use ztna_project.ControlPlane.Policy.{Access, evaluate, rule_reason}
use ztna_project.ControlPlane.Policy.Verdict.{IsFirst, evaluate-allow}
use ztna_project.ControlPlane.PolicyStore.{PolicyDb, get_active}
use ztna_project.ControlPlane.Authorize.{Surroundings, decide, decision_ttl}

-- The policy that is active allows the access: by a rule with that effect, the first that applies.
abbrev pub Allows : PolicyDb → Access → Decision → Type 0
Allows db a d =
    (snapshot : PolicySnapshot) × (get_active db ≡ ok snapshot)
    × (d.policy_version ≡ snapshot.version.id)
    × ((rule : PolicyRule) × IsFirst a (canonical a.resource) rule snapshot.rules
        × (rule.effect ≡ codes "allow")
        × (d.reason ≡ rule_reason rule))

decide-found :
    (ttl : ℤ) (uuid : Text) (db : PolicyDb) (a : Access) (d : Decision)
    → decide ttl uuid db a ≡ ok d
    → (snapshot : PolicySnapshot) × (get_active db ≡ ok snapshot)
      × (d.policy_version ≡ snapshot.version.id)
      × (evaluate snapshot a ≡ (d.effect, d.reason))
      × (d.ttl_seconds ≡ ttl)
unfolding decide
decide-found ttl uuid db a d e = elim (Result-cases (get_active db)) [
  | inl (snapshot, found) ↦
      let same = ok-injective (rw (found, decide) at e) in
      (
        snapshot,
        found,
        ap (λ x. x.policy_version) (sym same),
        ap (λ x. (x.effect, x.reason)) same,
        ap (λ x. x.ttl_seconds) (sym same),
      )
  | inr (problem, missing) ↦
      let impossible : err problem ≡ ok d = rw (missing, decide) at e in ground (arith, impossible)
]

-- The decision is the verdict of the active policy, with its version and the configured time to
-- live, or a minute where there is none.
abbrev pub IsReached : Surroundings → PolicyDb → Access → Decision → Type 0
IsReached w db a d =
    (snapshot : PolicySnapshot) × (get_active db ≡ ok snapshot)
    × (d.policy_version ≡ snapshot.version.id)
    × (evaluate snapshot a ≡ (d.effect, d.reason))
    × (d.ttl_seconds ≡ (if is_positive w.ttl then w.ttl else pos 60))

pub reached-allow :
    (w : Surroundings) (db : PolicyDb) (a : Access) (d : Decision)
    → IsReached w db a d
    → d.effect ≡ allow
    → Allows db a d
reached-allow w db a d (snapshot, found, version, verdict, _) granted =
    let (rule, first, _, _, effect, reason) =
      evaluate-allow snapshot a d.reason (verdict ∙ ap (λ x. (x, d.reason)) granted) in
    (snapshot, found, version, (rule, first, effect, reason))

pub decide-IsReached :
    (w : Surroundings) (db : PolicyDb) (a : Access) (d : Decision)
    → decide (decision_ttl w.ttl) w.uuid db a ≡ ok d
    → IsReached w db a d
unfolding decision_ttl
decide-IsReached w db a d e = decide-found (decision_ttl w.ttl) w.uuid db a d e

pub decide-err :
    (ttl : ℤ) (uuid : Text) (db : PolicyDb) (a : Access) (problem : Error)
    → decide ttl uuid db a ≡ err problem
    → get_active db ≡ err problem
unfolding decide
decide-err ttl uuid db a problem e = elim (Result-cases (get_active db)) [
  | inl (snapshot, found) ↦ let clash = rw (found, decide) at e in ground (arith, clash)
  | inr (other, missing) ↦
      let same : err other ≡ err problem = rw (missing, decide) at e in
      let problems : other ≡ problem = ground (arith, same) in missing ∙ ap err problems
]
