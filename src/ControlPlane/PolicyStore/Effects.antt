-- ===== src/ControlPlane/PolicyStore/Effects.antt =====
-- What the policy tables hold, over any history of calls.
use ztna_project.Base.{
  ℕ, suc, ◌≡◌, refl, pos, IsIn, ap, ◌∙◌, ◌⊎◌, inl, inr, true, ◌||◌, List, [], ◌∷◌, arith,
  Bool-cases, ℤ, Text, codes, text_eq, text_eq_iff, to_lower, trim_space, to_lower_idem,
  trim_space_idem, trim_space-to_lower, All, All-append,
}
use ztna_project.ControlPlane.Model.{PolicyRule, ok, Result-cases}
use ztna_project.ControlPlane.Policy.{validate_effect}
use ztna_project.ControlPlane.PolicyStore.{
  PolicyDb, rule_rows, normalise, normalise_all, create_version, activate_version, Call, creates,
  activates, step, run, empty_db,
}

-- Exactly one of the two words that the evaluation and the database know.
abbrev pub HasEffect : PolicyRule → Type 0
HasEffect r = (r.effect ≡ codes "allow") ⊎ (r.effect ≡ codes "deny")

normalise-effect :
    (r : PolicyRule) → to_lower (trim_space (normalise r).effect) ≡ (normalise r).effect
unfolding normalise
normalise-effect r =
    ap to_lower (trim_space-to_lower (trim_space r.effect) ∙ ap to_lower (trim_space_idem r.effect))
    ∙ to_lower_idem (trim_space r.effect)

HasEffect-of_validate :
    (r : PolicyRule)
    → to_lower (trim_space r.effect) ≡ r.effect
    → validate_effect r.effect ≡ true
    → HasEffect r
unfolding validate_effect
HasEffect-of_validate r e h =
    let test : (text_eq r.effect (codes "allow") || text_eq r.effect (codes "deny")) ≡ true =
      rw e at h in
    ground (arith, test, text_eq_iff r.effect (codes "allow"), text_eq_iff r.effect (codes "deny"))

normalise_all-cons :
    (r : PolicyRule) (rules normal : List PolicyRule)
    → normalise_all (r ∷ rules) ≡ ok normal
    → (validate_effect (normalise r).effect ≡ true)
      × ((rest : List PolicyRule) × (normalise_all rules ≡ ok rest) × (normal ≡ normalise r ∷ rest))
unfolding normalise_all
normalise_all-cons r rules normal e = elim (Bool-cases (validate_effect (normalise r).effect)) [
  | inl valid ↦ elim (Result-cases (normalise_all rules)) [
    | inl (rest, found) ↦ (valid, (rest, found, ground (arith, valid, found)))
    | inr (problem, failed) ↦ ground (arith, valid, failed)
  ]
  | inr invalid ↦ ground (arith, invalid)
]

-- The stored rule is the one that an administrator gave: its effect, action and type in lower case,
-- the effect without the white space around it, and all else as it was.
abbrev pub Means : (given stored : PolicyRule) → Type 0
Means given stored =
    (stored.effect ≡ to_lower (trim_space given.effect))
    × (stored.action ≡ to_lower given.action)
    × (stored.resource_type ≡ to_lower given.resource_type)
    × (stored.subject_match ≡ given.subject_match)
    × (stored.resource_match ≡ given.resource_match)
    × (stored.allowed_hours ≡ given.allowed_hours)
    × (stored.required_device_trust ≡ given.required_device_trust)

-- The rule stands in a version that a call of the history creates.
abbrev pub WasGiven : List Call → PolicyRule → Type 0
WasGiven cs given =
    (now : Text) × (created_by : Text) × (rules : List PolicyRule) × IsIn
      (creates now created_by rules) cs
    × IsIn given rules

-- The stored rule has one of the two effects, and a rule was given that it means.
abbrev pub IsMeant : List Call → PolicyRule → Type 0
IsMeant cs row = HasEffect row × ((given : PolicyRule) × WasGiven cs given × Means given row)

-- The stored rules are those that were given, one by one and in their order, of one version.
abbrev pub AreRowsOf : (version_id : ℤ) (given stored : List PolicyRule) → Type 0
AreRowsOf id [] [] = Unit
AreRowsOf id [] (row ∷ rows) = ⊥
AreRowsOf id (r ∷ rules) [] = ⊥
AreRowsOf id (r ∷ rules) (row ∷ rows) =
    Means r row × (row.version_id ≡ id) × AreRowsOf id rules rows

normalise-Means : (r : PolicyRule) → Means r (normalise r)
unfolding normalise
normalise-Means r = (refl, refl, refl, refl, refl, refl, refl)

pub rule_rows-AreRowsOf :
    (now : Text) (version next : ℕ) (rules normal : List PolicyRule)
    → normalise_all rules ≡ ok normal
    → AreRowsOf (pos version) rules (rule_rows now version next normal)
unfolding rule_rows
rule_rows-AreRowsOf now version next [] normal e =
    let empty : normal ≡ [] = unfold normalise_all in cc in rw empty tt
rule_rows-AreRowsOf now version next (r ∷ rules) normal e =
    let (_, (rest, found, same)) = normalise_all-cons r rules normal e in
    rw same (normalise-Means r, refl, rule_rows-AreRowsOf now version (suc next) rules rest found)

rule_rows-IsMeant :
    (all : List Call) (now created_by : Text) (version next : ℕ)
    (rules before normal : List PolicyRule)
    → IsIn (creates now created_by before) all
    → ((r : PolicyRule) → IsIn r rules → IsIn r before)
    → normalise_all rules ≡ ok normal
    → All (IsMeant all) (rule_rows now version next normal)
unfolding rule_rows
rule_rows-IsMeant all now created_by version next [] before normal called among e =
    let empty : normal ≡ [] = unfold normalise_all in cc in rw empty tt
rule_rows-IsMeant all now created_by version next (r ∷ rules) before normal called among e =
    let (valid, (rest, found, same)) = normalise_all-cons r rules normal e in
    rw same (
      (
        HasEffect-of_validate (normalise r) (normalise-effect r) valid,
        (r, (now, created_by, before, called, among r (inl refl)), normalise-Means r),
      ),
      rule_rows-IsMeant all now created_by version (suc next) rules before rest called
          (λ x i. among x (inr i)) found,
    )

create_version-IsMeant :
    (all : List Call) (now created_by : Text) (rules : List PolicyRule) (db : PolicyDb)
    → IsIn (creates now created_by rules) all
    → All (IsMeant all) db.rules
    → All (IsMeant all) (step (creates now created_by rules) db).rules
unfolding step create_version
create_version-IsMeant all now created_by rules db called h =
    elim (Result-cases (normalise_all rules)) [
      | inr (problem, failed) ↦ rw (failed, create_version, step) h
      | inl (normal, found) ↦
          rw (found, create_version, step)
            (All-append (IsMeant all) db.rules (rule_rows now db.next_version db.next_rule normal) h
              (rule_rows-IsMeant all now created_by db.next_version db.next_rule rules rules normal
                called (λ x i. i) found))
    ]

activates-rules : (id : ℤ) (db : PolicyDb) → (step (activates id) db).rules ≡ db.rules
unfolding step activate_version
activates-rules id db = ground arith

step-IsMeant :
    (all : List Call) (c : Call) (db : PolicyDb)
    → IsIn c all
    → All (IsMeant all) db.rules
    → All (IsMeant all) (step c db).rules
step-IsMeant all (creates now created_by rules) db called h =
    create_version-IsMeant all now created_by rules db called h
step-IsMeant all (activates id) db called h = rw (activates-rules id db) h

run-IsMeant_from :
    (all cs : List Call) (db : PolicyDb)
    → ((c : Call) → IsIn c cs → IsIn c all)
    → All (IsMeant all) db.rules
    → All (IsMeant all) (run cs db).rules
unfolding run
run-IsMeant_from all [] db among h = h
run-IsMeant_from all (c ∷ cs) db among h =
    run-IsMeant_from all cs (step c db) (λ x i. among x (inr i))
      (step-IsMeant all c db (among c (inl refl)) h)

-- Whatever versions are created and activated, every stored rule has exactly the effect "allow" or
-- "deny", in lower case and without white space, and it is a rule that was given in a version which
-- some call of the history creates: its effect is the given one in lower case without the white
-- space around it, its action and type are the given ones in lower case, and its subject, resource,
-- hours and device trust are as they were given.
pub run-IsMeant : (cs : List Call) → All (IsMeant cs) (run cs empty_db).rules
run-IsMeant cs = run-IsMeant_from cs cs empty_db (λ c i. i) tt
