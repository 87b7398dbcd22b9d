-- ===== src/ControlPlane/Resources/Keyed.antt =====
-- Rows with one name and one identifier each, kept by the operations of the table.
use ztna_project.Base.{
  ◌≡◌, refl, sym, ap, ◌∙◌, inl, inr, false, Bool, true, false, not, ◌||◌, if◌then◌else◌, none, some,
  [], ◌∷◌, arith, Bool-cases, Option-cases, Text, text_eq, text_eq_iff, lookup, insert, delete,
  HasDistinctKeys, insert-HasDistinctKeys, delete-HasDistinctKeys,
}
use ztna_project.ControlPlane.Model.{ok, past_guard, ok-injective}
use ztna_project.ControlPlane.Resources.{
  PublishedResource, ResourceDb, has_id, is_found, meets_checks, create_resource, updated,
  update_resource, delete_resource,
}

abbrev pub HasDistinctIds : ResourceDb → Type 0
HasDistinctIds [] = Unit
HasDistinctIds ((name, row) ∷ rest) = (has_id row.id rest ≡ false) × HasDistinctIds rest

abbrev pub AreNamed : ResourceDb → Type 0
AreNamed [] = Unit
AreNamed ((name, row) ∷ rest) = (row.name ≡ name) × AreNamed rest

-- No name and no identifier stands twice, and a row is found under its own name.
pub record IsTable (db : ResourceDb) : Type 0 where
  pub names : HasDistinctKeys db
  pub ids : HasDistinctIds db
  pub named : AreNamed db

has_id-insert :
    (id key : Text) (row : PublishedResource) (db : ResourceDb)
    → lookup key db ≡ none
    → has_id id db ≡ false
    → text_eq row.id id ≡ false
    → has_id id (insert key row db) ≡ false
unfolding has_id insert lookup
has_id-insert id key row [] unseen absent other = ground (arith, other)
has_id-insert id key row ((name, old) ∷ rest) unseen absent other =
    ground (arith, has_id-insert id key row rest)

insert-HasDistinctIds :
    (key : Text) (row : PublishedResource) (db : ResourceDb)
    → lookup key db ≡ none
    → has_id row.id db ≡ false
    → HasDistinctIds db
    → HasDistinctIds (insert key row db)
unfolding has_id insert lookup
insert-HasDistinctIds key row [] unseen absent h = (refl, tt)
insert-HasDistinctIds key row ((name, old) ∷ rest) unseen absent h = ground (
  arith,
  has_id-insert old.id key row rest,
  insert-HasDistinctIds key row rest,
  text_eq_iff row.id old.id,
  text_eq_iff old.id row.id,
)

-- An update keeps the identifier.
has_id-insert_over :
    (id key : Text) (row old : PublishedResource) (db : ResourceDb)
    → lookup key db ≡ some old
    → row.id ≡ old.id
    → has_id id (insert key row db) ≡ has_id id db
unfolding has_id insert lookup
has_id-insert_over id key row old [] found same = ground (arith, found)
has_id-insert_over id key row old ((name, first) ∷ rest) found same =
    elim (Bool-cases (text_eq name key)) [
      | inl here ↦
          let e : some first ≡ some old = rw (here, lookup) at found in
          let e' : first ≡ old = ground (arith, e) in
          rw here (ap (λ i. text_eq i id || has_id id rest) (same ∙ ap (λ r. r.id) (sym e')))
      | inr there ↦ rw there (
          ap (λ b. text_eq first.id id || b)
            (has_id-insert_over id key row old rest (rw (there, lookup) at found) same))
    ]

insert_over-HasDistinctIds :
    (key : Text) (row old : PublishedResource) (db : ResourceDb)
    → lookup key db ≡ some old
    → row.id ≡ old.id
    → HasDistinctIds db
    → HasDistinctIds (insert key row db)
unfolding has_id insert lookup
insert_over-HasDistinctIds key row old [] found same h = ground (arith, found)
insert_over-HasDistinctIds key row old ((name, first) ∷ rest) found same h =
    elim (Bool-cases (text_eq name key)) [
      | inl here ↦
          let e : some first ≡ some old = rw (here, lookup) at found in
          let e' : first ≡ old = ground (arith, e) in
          rw here (ap (λ i. has_id i rest) (same ∙ ap (λ r. r.id) (sym e')) ∙ h.0, h.1)
      | inr there ↦
          let found' : lookup key rest ≡ some old = rw (there, lookup) at found in
          rw there (
            has_id-insert_over first.id key row old rest found' same ∙ h.0,
            insert_over-HasDistinctIds key row old rest found' same h.1,
          )
    ]

has_id-delete :
    (id key : Text) (db : ResourceDb) → has_id id db ≡ false → has_id id (delete key db) ≡ false
unfolding has_id delete
has_id-delete id key [] h = h
has_id-delete id key ((name, row) ∷ rest) h = ground (arith, has_id-delete id key rest)

delete-HasDistinctIds :
    (key : Text) (db : ResourceDb) → HasDistinctIds db → HasDistinctIds (delete key db)
unfolding has_id delete
delete-HasDistinctIds key [] h = tt
delete-HasDistinctIds key ((name, row) ∷ rest) h =
    ground (arith, has_id-delete row.id key rest, delete-HasDistinctIds key rest)

insert-AreNamed :
    (key : Text) (row : PublishedResource) (db : ResourceDb)
    → row.name ≡ key
    → AreNamed db
    → AreNamed (insert key row db)
unfolding insert
insert-AreNamed key row [] e h = (e, tt)
insert-AreNamed key row ((name, old) ∷ rest) e h = ground (arith, insert-AreNamed key row rest)

lookup-named :
    (key : Text) (row : PublishedResource) (db : ResourceDb)
    → lookup key db ≡ some row
    → AreNamed db
    → row.name ≡ key
unfolding lookup
lookup-named key row [] found h = ground (arith, found)
lookup-named key row ((name, old) ∷ rest) found h =
    ground (arith, text_eq_iff name key, lookup-named key row rest)

delete-AreNamed : (key : Text) (db : ResourceDb) → AreNamed db → AreNamed (delete key db)
unfolding delete
delete-AreNamed key [] h = tt
delete-AreNamed key ((name, old) ∷ rest) h = ground (arith, delete-AreNamed key rest)

insert-IsTable :
    (row : PublishedResource) (db : ResourceDb)
    → (is_found (lookup row.name db) || has_id row.id db) ≡ false
    → IsTable db
    → IsTable (insert row.name row db)
insert-IsTable row db free t =
    let unseen : lookup row.name db ≡ none = elim (Option-cases (lookup row.name db)) [
      | inl e ↦ e
      | inr (old, e) ↦ ground (arith, e, free)
    ] in
    record {
      names = insert-HasDistinctKeys row.name row db t.names;
      ids = insert-HasDistinctIds row.name row db unseen (ground (arith, free)) t.ids;
      named = insert-AreNamed row.name row db refl t.named;
    }

or-drop_last : (a b c : Bool) → (a || (b || c)) ≡ false → (a || b) ≡ false
or-drop_last true b c e = e
or-drop_last false true c e = e
or-drop_last false false c e = refl

if-some : (b : Bool) (db db' : ResourceDb) → (if b then some db else none) ≡ some db' → db ≡ db'
if-some true db db' e = ground (arith, e)
if-some false db db' e = ground (arith, e)

pub create_resource-IsTable :
    (now : Text) (row : PublishedResource) (db db' : ResourceDb)
    → create_resource now row db ≡ ok db'
    → IsTable db
    → IsTable db'
unfolding create_resource
create_resource-IsTable now row db db' e t =
    let (free, same) =
      past_guard (is_found (lookup row.name db) || (has_id row.id db || not (meets_checks row))) _ _
        _ e in
    let made =
      insert-IsTable (record row { created_at = now; updated_at = now }) db
        (or-drop_last (is_found (lookup row.name db)) (has_id row.id db) (not (meets_checks row))
          free)
        t in
    let eq = ok-injective same in rw (← eq) made

pub update_resource-IsTable :
    (now : Text) (row : PublishedResource) (db db' : ResourceDb)
    → update_resource now row db ≡ some db'
    → IsTable db
    → IsTable db'
unfolding update_resource
update_resource-IsTable now row db db' e t = elim (Option-cases (lookup row.name db)) [
  | inl unseen ↦
      let clash : none ≡ some db' = rw (unseen, update_resource) at e in ground (arith, clash)
  | inr (old, found) ↦
      let written : (if meets_checks row
            then some (insert row.name (updated now row old) db)
            else none)
          ≡ some db' =
        rw (found, update_resource) at e in
      let eq : insert row.name (updated now row old) db ≡ db' =
        if-some (meets_checks row) _ db' written in
      let made : IsTable (insert row.name (updated now row old) db) = record {
        names = insert-HasDistinctKeys row.name (updated now row old) db t.names;
        ids = insert_over-HasDistinctIds row.name (updated now row old) old db found refl t.ids;
        named =
            insert-AreNamed row.name (updated now row old) db
              (lookup-named row.name old db found t.named) t.named;
      } in
      rw (← eq) made
]

pub delete_resource-IsTable :
    (name : Text) (db db' : ResourceDb)
    → delete_resource name db ≡ some db'
    → IsTable db
    → IsTable db'
unfolding delete_resource
delete_resource-IsTable name db db' e t = elim (Option-cases (lookup name db)) [
  | inl unseen ↦
      let clash : none ≡ some db' = rw (unseen, delete_resource) at e in ground (arith, clash)
  | inr (old, found) ↦
      let same : some (delete name db) ≡ some db' = rw (found, delete_resource) at e in
      let eq : delete name db ≡ db' = ground (arith, same) in
      let made : IsTable (delete name db) = record {
        names = delete-HasDistinctKeys name db t.names;
        ids = delete-HasDistinctIds name db t.ids;
        named = delete-AreNamed name db t.named;
      } in
      rw (← eq) made
]
