-- ===== src/ControlPlane/Resources/Rows.antt =====
-- The table resources of control-plane/internal/store/sqlite/resources.go, with the constraints that
-- control-plane/internal/store/sqlite/migrations/007_resources.sql puts on it.
use ztna_project.Base.{
  Bool, true, false, not, ◌&&◌, ◌||◌, codes, Option, none, some, List, [], ◌∷◌, if◌then◌else◌, Text,
  text_eq, text_lt, is_empty, lookup, insert, delete, values, member,
}
use ztna_project.ControlPlane.Model.{internal, Result, ok, err}

pub record PublishedResource : Type 0 where
  pub id : Text
  pub name : Text
  pub display_name : Text
  pub type : Text
  pub backend : Text
  pub gateway_id : Text
  pub group_match : List Text
  pub access_mode : Text
  pub description : Text
  pub created_at : Text
  pub updated_at : Text

-- The table resources, by its unique column name; the identifier is its primary key.
abbrev pub ResourceDb : Type 0
ResourceDb = List (Text × PublishedResource)

unfoldable pub has_id : Text → ResourceDb → Bool
has_id id [] = false
has_id id ((name, row) ∷ rest) = text_eq row.id id || has_id id rest

abbrev pub is_found {ℓ} : {A : Type ℓ} → Option A → Bool
is_found none = false
is_found (some a) = true

-- The CHECK constraints on the columns type and access_mode.
unfoldable pub meets_checks : PublishedResource → Bool
unfolding member
meets_checks res =
    member res.type (codes "web" ∷ codes "ssh" ∷ codes "db" ∷ [])
    && member res.access_mode (codes "http-proxy" ∷ codes "ssh-cert" ∷ codes "tcp-tunnel" ∷ [])

-- An insertion that breaks a constraint of the table is an error of the database.
unfoldable pub create_resource : (now : Text) → PublishedResource → ResourceDb → Result ResourceDb
unfolding has_id meets_checks
create_resource now res db =
    if is_found (lookup res.name db) || (has_id res.id db || not (meets_checks res))
    then err internal
    else ok (insert res.name (record res { created_at = now; updated_at = now }) db)

-- The columns that an update writes.
abbrev pub updated : (now : Text) → (new old : PublishedResource) → PublishedResource
updated now new old = record new {
  id = old.id;
  name = old.name;
  created_at = old.created_at;
  updated_at = now;
}

-- `none` is an error: `sql.ErrNoRows`, or that of a CHECK on the row that is there.
unfoldable pub update_resource : (now : Text) → PublishedResource → ResourceDb → Option ResourceDb
unfolding meets_checks
update_resource now res db = elim (lookup res.name db) [
  | none ↦ none
  | some old ↦ if meets_checks res then some (insert res.name (updated now res old) db) else none
]

unfoldable pub get_resource_by_name : Text → ResourceDb → Option PublishedResource
get_resource_by_name name db = lookup name db

-- `ORDER BY name ASC`.
unfoldable pub insert_by_name : PublishedResource → List PublishedResource → List PublishedResource
unfolding text_lt
insert_by_name row [] = row ∷ []
insert_by_name row (other ∷ rest) =
    if text_lt row.name other.name then row ∷ other ∷ rest else other ∷ insert_by_name row rest

unfoldable pub order_by_name : List PublishedResource → List PublishedResource
unfolding insert_by_name
order_by_name [] = []
order_by_name (row ∷ rest) = insert_by_name row (order_by_name rest)

unfoldable pub list_resources : ResourceDb → List PublishedResource
unfolding order_by_name values
list_resources db = order_by_name (values db)

-- The inner loop: one group of the resource is among the user's.
unfoldable pub shares_group : (groups group_match : List Text) → Bool
shares_group groups [] = false
shares_group groups (g ∷ rest) = member g groups || shares_group groups rest

unfoldable pub is_visible : (groups : List Text) → PublishedResource → Bool
unfolding shares_group
is_visible groups res = is_empty res.group_match || shares_group groups res.group_match

unfoldable pub visible_to : (groups : List Text) → List PublishedResource → List PublishedResource
unfolding is_visible
visible_to groups [] = []
visible_to groups (res ∷ rest) =
    if is_visible groups res then res ∷ visible_to groups rest else visible_to groups rest

unfoldable pub list_resources_for_groups : List Text → ResourceDb → List PublishedResource
unfolding list_resources visible_to
list_resources_for_groups groups db = visible_to groups (list_resources db)

unfoldable pub delete_resource : Text → ResourceDb → Option ResourceDb
delete_resource name db = elim (lookup name db) [ none ↦ none | some old ↦ some (delete name db) ]
