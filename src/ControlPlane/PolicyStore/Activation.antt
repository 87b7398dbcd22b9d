-- ===== src/ControlPlane/PolicyStore/Activation.antt =====
-- Which policy is active after an activation, and over a history of calls.
use ztna_project.Base.{
  ◌≡◌, refl, ◌⊎◌, inl, inr, true, false, Option, none, some, List, [], ◌∷◌, arith, Bool-cases, ℤ,
  pos, int_eq, int_eq_iff, text_lt, All, All-append,
}
use ztna_project.ControlPlane.Model.{PolicyVersion, not_found, ok, err, Result-cases}
use ztna_project.ControlPlane.PolicyStore.{
  PolicyDb, set_only_active, has_version, latest_of, active_version, rules_of, normalise_all,
  create_version, activate_version, get_active, Call, creates, activates, step, run, empty_db,
}

-- All active versions have one identifier.
abbrev IsActive : ℤ → PolicyVersion → Type 0
IsActive id v = v.active ≡ true → v.id ≡ id

abbrev pub HasOneActive : List PolicyVersion → Type 0
HasOneActive vs = (id : ℤ) × All (IsActive id) vs

set_only_active-IsActive :
    (id : ℤ) (vs : List PolicyVersion) → All (IsActive id) (set_only_active id vs)
unfolding set_only_active
set_only_active-IsActive id [] = tt
set_only_active-IsActive id (v ∷ vs) =
    ((λ e. (int_eq_iff v.id id).0 e), set_only_active-IsActive id vs)

step-HasOneActive :
    (c : Call) (db : PolicyDb) → HasOneActive db.versions → HasOneActive (step c db).versions
unfolding step create_version activate_version
step-HasOneActive (creates now created_by rules) db (id, only) =
    elim (Result-cases (normalise_all rules)) [
      | inr (problem, failed) ↦ rw (failed, create_version, step) (id, only)
      | inl (normal, found) ↦
          rw (found, create_version, step)
            (id, All-append (IsActive id) db.versions _ only ((λ e. cc), tt))
    ]
step-HasOneActive (activates id) db h = elim (Bool-cases (has_version id db.versions)) [
  | inl known ↦ rw (known, activate_version, step) (id, set_only_active-IsActive id db.versions)
  | inr unknown ↦ rw (unknown, activate_version, step) h
]

run-HasOneActive_from :
    (cs : List Call) (db : PolicyDb) → HasOneActive db.versions → HasOneActive (run cs db).versions
unfolding run
run-HasOneActive_from [] db h = h
run-HasOneActive_from (c ∷ cs) db h =
    run-HasOneActive_from cs (step c db) (step-HasOneActive c db h)

-- Whatever versions are created and activated, all active versions have one identifier.
pub run-HasOneActive : (cs : List Call) → HasOneActive (run cs empty_db).versions
run-HasOneActive cs = run-HasOneActive_from cs empty_db (pos 0, tt)

abbrev ActiveIs : ℤ → Option PolicyVersion → Type 0
ActiveIs id o = (v : PolicyVersion) × (o ≡ some v) × (v.id ≡ id) × (v.active ≡ true)

latest_of-ActiveIs :
    (id : ℤ) (v : PolicyVersion) (o : Option PolicyVersion)
    → v.id ≡ id
    → v.active ≡ true
    → ((o ≡ none) ⊎ ActiveIs id o)
    → ActiveIs id (some (latest_of v o))
latest_of-ActiveIs id v o p q (inl e) = (v, ground (arith, e), p, q)
latest_of-ActiveIs id v o p q (inr (w, e, p', q')) =
    elim (Bool-cases (text_lt v.created_at w.created_at)) [
      | inl newer ↦ (w, rw (e, latest_of) (rw newer refl), p', q')
      | inr older ↦ (v, rw (e, latest_of) (rw older refl), p, q)
    ]

active_version-set_only_active :
    (id : ℤ) (vs : List PolicyVersion)
    → ((active_version (set_only_active id vs) ≡ none) × (has_version id vs ≡ false))
      ⊎ (ActiveIs id (active_version (set_only_active id vs)) × (has_version id vs ≡ true))
unfolding active_version set_only_active has_version
active_version-set_only_active id [] = inl (refl, refl)
active_version-set_only_active id (v ∷ vs) = elim (Bool-cases (int_eq v.id id)) [
  | inl same ↦
      let v' : PolicyVersion = record v { active = int_eq v.id id } in
      inr (
        rw same (
            latest_of-ActiveIs id (record v { active = true })
              (active_version (set_only_active id vs)) ((int_eq_iff v.id id).0 same) refl
              (rest-cases (active_version-set_only_active id vs))),
        rw same,
      )
  | inr other ↦ elim (active_version-set_only_active id vs) [
    | inl (nothing, unknown) ↦ inl (rw other nothing, rw other unknown)
    | inr (active, known) ↦ inr (rw other active, rw other known)
  ]
]
  where
    rest-cases :
        ((active_version (set_only_active id vs) ≡ none) × (has_version id vs ≡ false))
          ⊎ (ActiveIs id (active_version (set_only_active id vs)) × (has_version id vs ≡ true))
        → (active_version (set_only_active id vs) ≡ none)
          ⊎ ActiveIs id (active_version (set_only_active id vs))
    rest-cases (inl (nothing, unknown)) = inl nothing
    rest-cases (inr (active, known)) = inr active

-- An activation either meets an unknown version and answers "not found", or makes that version the
-- active one: the policy read next is that version with exactly its rules.
pub get_active-activate_version :
    (id : ℤ) (db : PolicyDb)
    → ((activate_version id db ≡ err not_found) × (has_version id db.versions ≡ false))
      ⊎ ((db' : PolicyDb) × (v : PolicyVersion) × (activate_version id db ≡ ok db')
          × (get_active db' ≡ ok (record { version = v; rules = rules_of id db.rules }))
          × (v.id ≡ id)
          × (v.active ≡ true)
          × (db'.rules ≡ db.rules))
unfolding activate_version get_active
get_active-activate_version id db = elim (active_version-set_only_active id db.versions) [
  | inl (nothing, unknown) ↦ inl (rw (unknown, activate_version), unknown)
  | inr ((v, found, same, active), known) ↦ inr (
    record db { versions = set_only_active id db.versions },
    v,
    rw (known, activate_version),
    rw (found, get_active) (rw same refl),
    same,
    active,
    refl,
  )
]
