-- ===== src/ControlPlane/PolicyStore.antt =====
-- The policies of control-plane/internal/store/sqlite/repo.go with
-- control-plane/internal/service/policy/service.go. A table is the list of its rows in the order of
-- their identifiers; a call that SQLite itself refuses is not modelled. A transaction that is rolled
-- back leaves the tables as they were.
pub mod Activation
pub mod Publication
pub mod Effects
use ztna_project.Base.{
  ℕ, suc, ◌+◌, Bool, true, false, ◌&&◌, ◌||◌, Option, none, some, List, [], ◌∷◌, ◌++◌,
  if◌then◌else◌, ℤ, pos, int_eq, Text, text_lt, to_lower, trim_space, length,
}
use ztna_project.ControlPlane.Model.{
  PolicyVersion, PolicyRule, PolicySnapshot, Error, not_found, internal, Result, ok, err,
}
use ztna_project.ControlPlane.Policy.{validate_effect}

-- The tables policy_versions and policy_rules, with the next identifier of each.
pub record PolicyDb : Type 0 where
  pub versions : List PolicyVersion
  pub rules : List PolicyRule
  pub next_version : ℕ
  pub next_rule : ℕ

-- The rows that the loop of CreatePolicyVersion inserts.
unfoldable pub rule_rows :
    (now : Text) → (version : ℕ) → (next : ℕ) → List PolicyRule → List PolicyRule
rule_rows now version next [] = []
rule_rows now version next (rule ∷ rules) =
    record rule { id = pos next; version_id = pos version; created_at = now }
    ∷ rule_rows now version (suc next) rules

unfoldable pub create_policy_version :
    (now created_by : Text) → List PolicyRule → PolicyDb → PolicyDb × ℤ
unfolding rule_rows
create_policy_version now created_by rules db = (
  record {
    versions =
        db.versions
        ++ record {
          id = pos db.next_version;
          active = false;
          created_at = now;
          created_by = created_by;
        }
          ∷ [];
    rules = db.rules ++ rule_rows now db.next_version db.next_rule rules;
    next_version = suc db.next_version;
    next_rule = db.next_rule + length rules;
  },
  pos db.next_version,
)

-- `UPDATE policy_versions SET active = 0`, then `SET active = 1 WHERE id = ?`.
unfoldable pub set_only_active : ℤ → List PolicyVersion → List PolicyVersion
set_only_active id [] = []
set_only_active id (v ∷ vs) = record v { active = int_eq v.id id } ∷ set_only_active id vs

unfoldable pub has_version : ℤ → List PolicyVersion → Bool
has_version id [] = false
has_version id (v ∷ vs) = int_eq v.id id || has_version id vs

-- No row is affected where the identifier is unknown, and the transaction is rolled back.
unfoldable activate_policy_version : ℤ → PolicyDb → Option PolicyDb
unfolding set_only_active has_version
activate_policy_version id db =
    if has_version id db.versions
    then some (record db { versions = set_only_active id db.versions })
    else none

-- `WHERE active = 1 ORDER BY created_at DESC LIMIT 1`.
abbrev latest_of : PolicyVersion → Option PolicyVersion → PolicyVersion
latest_of v none = v
latest_of v (some w) = if text_lt v.created_at w.created_at then w else v

unfoldable pub active_version : List PolicyVersion → Option PolicyVersion
active_version [] = none
active_version (v ∷ vs) =
    if v.active then some (latest_of v (active_version vs)) else active_version vs

-- `WHERE version_id = ? ORDER BY id ASC`.
unfoldable pub rules_of : ℤ → List PolicyRule → List PolicyRule
rules_of id [] = []
rules_of id (r ∷ rs) = if int_eq r.version_id id then r ∷ rules_of id rs else rules_of id rs

unfoldable get_active_policy : PolicyDb → Option PolicySnapshot
unfolding active_version rules_of
get_active_policy db = elim (active_version db.versions) [
  | none ↦ none
  | some v ↦ some (record { version = v; rules = rules_of v.id db.rules })
]

unfoldable pub normalise : PolicyRule → PolicyRule
normalise rule = record rule {
  effect = to_lower (trim_space rule.effect);
  action = to_lower rule.action;
  resource_type = to_lower rule.resource_type;
}

-- The loop of CreateVersion: the first rule with another effect ends it.
unfoldable pub normalise_all : List PolicyRule → Result (List PolicyRule)
unfolding normalise
normalise_all [] = ok []
normalise_all (rule ∷ rules) =
    let rest = normalise_all rules in
    if validate_effect (normalise rule).effect
    then elim rest [ ok normal ↦ ok (normalise rule ∷ normal) | err e ↦ err e ]
    else err internal

unfoldable pub create_version :
    (now created_by : Text) → List PolicyRule → PolicyDb → Result (PolicyDb × ℤ)
unfolding normalise_all create_policy_version
create_version now created_by rules db = elim (normalise_all rules) [
  | err e ↦ err e
  | ok normal ↦ ok (create_policy_version now created_by normal db)
]

unfoldable pub activate_version : ℤ → PolicyDb → Result PolicyDb
unfolding activate_policy_version
activate_version id db = elim (activate_policy_version id db) [
  | none ↦ err not_found
  | some db' ↦ ok db'
]

unfoldable pub get_active : PolicyDb → Result PolicySnapshot
unfolding get_active_policy
get_active db = elim (get_active_policy db) [ none ↦ err not_found | some snapshot ↦ ok snapshot ]

-- The calls that change the tables; one that fails leaves them as they are.
pub data Call : Type 0 where
  creates : (now created_by : Text) → List PolicyRule → Call
  activates : ℤ → Call

abbrev after_create : PolicyDb → Result (PolicyDb × ℤ) → PolicyDb
after_create db (err e) = db
after_create db (ok (db', id)) = db'

abbrev after_activate : PolicyDb → Result PolicyDb → PolicyDb
after_activate db (err e) = db
after_activate db (ok db') = db'

unfoldable pub step : Call → PolicyDb → PolicyDb
step (creates now created_by rules) db = after_create db (create_version now created_by rules db)
step (activates id) db = after_activate db (activate_version id db)

unfoldable pub run : List Call → PolicyDb → PolicyDb
unfolding step
run [] db = db
run (c ∷ cs) db = run cs (step c db)

-- The tables that the migrations create.
abbrev pub empty_db : PolicyDb
empty_db = record { versions = []; rules = []; next_version = 1; next_rule = 1 }
