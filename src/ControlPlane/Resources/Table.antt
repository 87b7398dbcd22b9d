-- ===== src/ControlPlane/Resources/Table.antt =====
-- The table of resources under any calls: names and identifiers stay unique.
use ztna_project.Base.{
  ◌≡◌, refl, ap, inl, inr, ◌||◌, Option, none, some, List, [], ◌∷◌, arith, Option-cases, Text,
  is_empty, lookup, HasDistinctKeys,
}
use ztna_project.ControlPlane.Model.{Result, ok, err, past_guard, ok-injective, Result-cases}
use ztna_project.ControlPlane.Resources.Keyed.{
  IsTable, create_resource-IsTable, update_resource-IsTable, delete_resource-IsTable,
}
use ztna_project.ControlPlane.Resources.{
  PublishedResource, ResourceDb, create_resource, identified, create_published, seed_all, SeedFile,
  no_path, missing, unreadable, seeds, seed_if_empty, CreateResourceRequest, requested,
  admin_create, or_internal, admin_update, admin_delete,
}

-- The calls of administrators, and the start of the program with its seed file.
pub data Call : Type 0 where
  creates : (now fresh : Text) → Option CreateResourceRequest → Call
  updates : (now name : Text) → Option CreateResourceRequest → Call
  deletes : (name : Text) → Call
  starts : (now : Text) → SeedFile → Call

-- A call that fails leaves the table.
abbrev or_same : ResourceDb → Result ResourceDb → ResourceDb
or_same db (ok db') = db'
or_same db (err e) = db

unfoldable pub call : Call → ResourceDb → ResourceDb
unfolding admin_create admin_update admin_delete seed_if_empty
call (creates now fresh body) db = or_same db (admin_create now fresh body db)
call (updates now name body) db = or_same db (admin_update now name body db)
call (deletes name) db = or_same db (admin_delete name db)
call (starts now file) db = (seed_if_empty now file db).0

unfoldable pub run : List Call → ResourceDb
unfolding call
run [] = []
run (c ∷ calls) = call c (run calls)

or_internal-ok : (o : Option ResourceDb) (db : ResourceDb) → or_internal o ≡ ok db → o ≡ some db
or_internal-ok none db e = ground (arith, e)
or_internal-ok (some d) db e = ap some (ok-injective e)

seed_all-IsTable :
    (now : Text) (file : List (Text × PublishedResource)) (db : ResourceDb)
    → IsTable db
    → IsTable (seed_all now file db).0
unfolding seed_all create_published
seed_all-IsTable now [] db t = t
seed_all-IsTable now ((fresh, res) ∷ rest) db t = elim (Option-cases (lookup res.name db)) [
  | inr (old, found) ↦ rw (found, seed_all) (seed_all-IsTable now rest db t)
  | inl unseen ↦ elim (Result-cases (create_resource now (identified fresh res) db)) [
    | inr (problem, failed) ↦ rw (unseen, failed, seed_all) t
    | inl (mid, made) ↦
        rw (unseen, made, seed_all)
          (seed_all-IsTable now rest mid
            (create_resource-IsTable now (identified fresh res) db mid made t))
  ]
]

seed_if_empty-IsTable :
    (now : Text) (file : SeedFile) (db : ResourceDb)
    → IsTable db
    → IsTable (seed_if_empty now file db).0
unfolding seed_if_empty
seed_if_empty-IsTable now no_path db t = t
seed_if_empty-IsTable now missing [] t = t
seed_if_empty-IsTable now missing (row ∷ db) t = t
seed_if_empty-IsTable now unreadable [] t = t
seed_if_empty-IsTable now unreadable (row ∷ db) t = t
seed_if_empty-IsTable now (seeds file) [] t = seed_all-IsTable now file [] t
seed_if_empty-IsTable now (seeds file) (row ∷ db) t = t

admin_create-IsTable :
    (now fresh : Text) (body : Option CreateResourceRequest) (db db' : ResourceDb)
    → admin_create now fresh body db ≡ ok db'
    → IsTable db
    → IsTable db'
unfolding admin_create create_published
admin_create-IsTable now fresh none db db' e t = ground (arith, e)
admin_create-IsTable now fresh (some req) db db' e t =
    let (_, made) =
      past_guard
        (is_empty req.name
          || (is_empty req.type || (is_empty req.backend || is_empty req.access_mode)))
        _ _ _ e in
    create_resource-IsTable now (identified fresh (requested req.name req)) db db' made t

admin_update-IsTable :
    (now name : Text) (body : Option CreateResourceRequest) (db db' : ResourceDb)
    → admin_update now name body db ≡ ok db'
    → IsTable db
    → IsTable db'
unfolding admin_update
admin_update-IsTable now name none db db' e t = ground (arith, e)
admin_update-IsTable now name (some req) db db' e t =
    let (_, wrote) = past_guard (is_empty name) _ _ _ e in
    update_resource-IsTable now (requested name req) db db' (or_internal-ok _ db' wrote) t

admin_delete-IsTable :
    (name : Text) (db db' : ResourceDb) → admin_delete name db ≡ ok db' → IsTable db → IsTable db'
unfolding admin_delete
admin_delete-IsTable name db db' e t =
    let (_, gone) = past_guard (is_empty name) _ _ _ e in
    delete_resource-IsTable name db db' (or_internal-ok _ db' gone) t

or_same-IsTable :
    (db : ResourceDb) (r : Result ResourceDb)
    → ((db' : ResourceDb) → r ≡ ok db' → IsTable db → IsTable db')
    → IsTable db
    → IsTable (or_same db r)
or_same-IsTable db (ok db') keeps t = keeps db' refl t
or_same-IsTable db (err e) keeps t = t

call-IsTable : (c : Call) (db : ResourceDb) → IsTable db → IsTable (call c db)
unfolding call
call-IsTable (creates now fresh body) db t =
    or_same-IsTable db _ (λ db' e. admin_create-IsTable now fresh body db db' e) t
call-IsTable (updates now name body) db t =
    or_same-IsTable db _ (λ db' e. admin_update-IsTable now name body db db' e) t
call-IsTable (deletes name) db t =
    or_same-IsTable db _ (λ db' e. admin_delete-IsTable name db db' e) t
call-IsTable (starts now file) db t = seed_if_empty-IsTable now file db t

-- Whatever administrators create, update and delete, and whatever seed files the starts of the
-- program bring, no two published resources have one name or one identifier, and each is found
-- under its own name.
run-IsTable : (calls : List Call) → IsTable (run calls)
unfolding run HasDistinctKeys
run-IsTable [] = record { names = tt; ids = tt; named = tt }
run-IsTable (c ∷ calls) = call-IsTable c (run calls) (run-IsTable calls)
