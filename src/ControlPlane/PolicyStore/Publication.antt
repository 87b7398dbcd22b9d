-- ===== src/ControlPlane/PolicyStore/Publication.antt =====
-- From the creation of a version to the policy that is evaluated.
use ztna_project.Base.{
  ℕ, suc, ◌<◌, ◌≡◌, refl, ap, sym, ◌∙◌, inl, inr, true, false, List, [], ◌∷◌, ◌++◌, arith,
  Bool-cases, ℤ, pos, int_eq, int_eq_iff, ==_iff, Text, All, All-append,
}
use ztna_project.ControlPlane.Model.{PolicyVersion, PolicyRule, ok, Result-cases}
use ztna_project.ControlPlane.PolicyStore.{
  PolicyDb, rule_rows, create_policy_version, has_version, rules_of, normalise_all, create_version,
  activate_version, get_active, Call, creates, activates, step, run, empty_db,
}
use ztna_project.ControlPlane.PolicyStore.Activation.{get_active-activate_version}

-- The rule belongs to a version that is already numbered.
abbrev IsNumbered : ℕ → PolicyRule → Type 0
IsNumbered next r = (k : ℕ) × (r.version_id ≡ pos k) × (k < next)

IsNumbered-mono :
    (n : ℕ) (rs : List PolicyRule) → All (IsNumbered n) rs → All (IsNumbered (suc n)) rs
IsNumbered-mono n [] h = tt
IsNumbered-mono n (r ∷ rs) ((k, e, lt), h) = ((k, e, omega arith), IsNumbered-mono n rs h)

rule_rows-IsNumbered :
    (now : Text) (v next : ℕ) (rs : List PolicyRule)
    → All (IsNumbered (suc v)) (rule_rows now v next rs)
unfolding rule_rows
rule_rows-IsNumbered now v next [] = tt
rule_rows-IsNumbered now v next (r ∷ rs) =
    ((v, refl, omega arith), rule_rows-IsNumbered now v (suc next) rs)

abbrev AreNumbered : PolicyDb → Type 0
AreNumbered db = All (IsNumbered db.next_version) db.rules

step-AreNumbered : (c : Call) (db : PolicyDb) → AreNumbered db → AreNumbered (step c db)
unfolding step create_version activate_version
step-AreNumbered (creates now created_by rules) db h = elim (Result-cases (normalise_all rules)) [
  | inr (problem, failed) ↦ rw (failed, create_version, step) h
  | inl (normal, found) ↦
      rw (found, create_version, step)
        (All-append (IsNumbered (suc db.next_version)) db.rules _
          (IsNumbered-mono db.next_version db.rules h)
          (rule_rows-IsNumbered now db.next_version db.next_rule normal))
]
step-AreNumbered (activates id) db h = elim (Bool-cases (has_version id db.versions)) [
  | inl known ↦ rw (known, activate_version, step) h
  | inr unknown ↦ rw (unknown, activate_version, step) h
]

run-AreNumbered : (cs : List Call) (db : PolicyDb) → AreNumbered db → AreNumbered (run cs db)
unfolding run
run-AreNumbered [] db h = h
run-AreNumbered (c ∷ cs) db h = run-AreNumbered cs (step c db) (step-AreNumbered c db h)

rules_of-below : (n : ℕ) (rs : List PolicyRule) → All (IsNumbered n) rs → rules_of (pos n) rs ≡ []
unfolding rules_of
rules_of-below n [] h = refl
rules_of-below n (r ∷ rs) ((k, e, lt), h) =
    ground (arith, rules_of-below n rs h, int_eq_iff r.version_id (pos n))

rules_of-append :
    (id : ℤ) (xs ys : List PolicyRule) → rules_of id (xs ++ ys) ≡ rules_of id xs ++ rules_of id ys
unfolding rules_of
rules_of-append id [] ys = refl
rules_of-append id (r ∷ xs) ys = elim (Bool-cases (int_eq r.version_id id)) [
  | inl same ↦ rw same (ap (λ t. r ∷ t) (rules_of-append id xs ys))
  | inr other ↦ rw other (rules_of-append id xs ys)
]

rules_of-rule_rows :
    (now : Text) (v next : ℕ) (rs : List PolicyRule)
    → rules_of (pos v) (rule_rows now v next rs) ≡ rule_rows now v next rs
unfolding rules_of rule_rows
rules_of-rule_rows now v next [] = refl
rules_of-rule_rows now v next (r ∷ rs) =
    ground (arith, ==_iff v v, rules_of-rule_rows now v (suc next) rs)

has_version-append :
    (id : ℤ) (vs : List PolicyVersion) (v : PolicyVersion)
    → int_eq v.id id ≡ true
    → has_version id (vs ++ v ∷ []) ≡ true
unfolding has_version
has_version-append id [] v e = rw e
has_version-append id (w ∷ vs) v e = ground (arith, has_version-append id vs v e)

created_rules :
    (now created_by : Text) (normal : List PolicyRule) (db : PolicyDb)
    → AreNumbered db
    → rules_of (pos db.next_version) (create_policy_version now created_by normal db).0.rules
      ≡ rule_rows now db.next_version db.next_rule normal
unfolding create_policy_version
created_rules now created_by normal db h =
    rules_of-append (pos db.next_version) db.rules
      (rule_rows now db.next_version db.next_rule normal)
    ∙ rw (rules_of-below db.next_version db.rules h)
        (rules_of-rule_rows now db.next_version db.next_rule normal)

created_version :
    (now created_by : Text) (normal : List PolicyRule) (db : PolicyDb)
    → has_version (pos db.next_version) (create_policy_version now created_by normal db).0.versions
      ≡ true
unfolding create_policy_version
created_version now created_by normal db =
    has_version-append (pos db.next_version) db.versions _
      ((int_eq_iff _ (pos db.next_version)).1 refl)

-- The version with these rules is created in `db`, activated and read back.
abbrev pub IsPublished :
    (now created_by : Text) → (rules normal : List PolicyRule) → PolicyDb → Type 0
IsPublished now created_by rules normal db =
    (db' : PolicyDb) × (id : ℤ) × (db'' : PolicyDb) × (v : PolicyVersion) × (create_version now
        created_by rules db
      ≡ ok (db', id))
    × (activate_version id db' ≡ ok db'')
    × (v.id ≡ id)
    × (get_active db''
        ≡ ok (record { version = v; rules = rule_rows now db.next_version db.next_rule normal }))

published :
    (now created_by : Text) (rules normal : List PolicyRule) (db : PolicyDb)
    → normalise_all rules ≡ ok normal
    → AreNumbered db
    → IsPublished now created_by rules normal db
unfolding create_version
published now created_by rules normal db e h =
    let db' : PolicyDb = (create_policy_version now created_by normal db).0 in
    elim (get_active-activate_version (pos db.next_version) db') [
      | inl (refused, unknown) ↦
          let clash : true ≡ false = sym (created_version now created_by normal db) ∙ unknown in
          cc clash
      | inr (db'', v, activated, read, same, active, kept) ↦ (
        db',
        pos db.next_version,
        db'',
        v,
        rw (e, create_version) (unfold create_policy_version in refl),
        activated,
        same,
        rw (← created_rules now created_by normal db h) read,
      )
    ]

-- After any history of calls, a version whose rules all normalise is created, its identifier can
-- be activated, and the policy read then is that version with exactly these rules, normalised and
-- in their order.
pub get_active-create_version :
    (cs : List Call) (now created_by : Text) (rules normal : List PolicyRule)
    → normalise_all rules ≡ ok normal
    → IsPublished now created_by rules normal (run cs empty_db)
get_active-create_version cs now created_by rules normal e =
    published now created_by rules normal (run cs empty_db) e (run-AreNumbered cs empty_db tt)
