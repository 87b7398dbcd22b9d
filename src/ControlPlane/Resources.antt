-- ===== src/ControlPlane/Resources.antt =====
-- The catalogue of published resources: control-plane/internal/service/resource/service.go and the
-- handlers resources.go and pep_resources.go of control-plane/internal/api/handlers; the table is in
-- Rows. Clocks and random identifiers are arguments; a group list is kept as it is, JSON being a
-- column's encoding of it.
pub mod Rows
pub mod Table
pub mod Keyed
pub mod Visible
pub mod Served
use ztna_project.Base.{
  Bool, true, false, not, ◌&&◌, ◌||◌, Option, none, some, List, [], ◌∷◌, map, if◌then◌else◌, Text,
  text_eq, text_lt, is_empty, lookup, insert, delete, values, member,
}
use ztna_project.ControlPlane.Model.{
  Error, invalid_input, internal, forbidden, not_found, Result, ok, err,
}
pub use ztna_project.ControlPlane.Resources.Rows.{PublishedResource, ResourceDb, is_found, updated}
unfoldable pub use ztna_project.ControlPlane.Resources.Rows.{
  has_id, meets_checks, create_resource, update_resource, get_resource_by_name, insert_by_name,
  order_by_name, list_resources, shares_group, is_visible, visible_to, list_resources_for_groups,
  delete_resource,
}

-- Service.Create: `fresh` is the identifier that generateID draws.
abbrev pub identified : (fresh : Text) → PublishedResource → PublishedResource
identified fresh res = record res { id = if is_empty res.id then fresh else res.id }

unfoldable pub create_published :
    (now fresh : Text) → PublishedResource → ResourceDb → Result ResourceDb
unfolding create_resource
create_published now fresh res db = create_resource now (identified fresh res) db

-- The loop of SeedIfEmpty over the resources of the file, each with an identifier to draw: the
-- table as it leaves it, and the error that ends it.
unfoldable pub seed_all :
    (now : Text) → List (Text × PublishedResource) → ResourceDb → ResourceDb × Option Error
unfolding create_published
seed_all now [] db = (db, none)
seed_all now ((fresh, res) ∷ rest) db = elim (lookup res.name db) [
  | some old ↦ seed_all now rest db
  | none ↦ elim (create_published now fresh res db) [
    | err e ↦ (db, some internal)
    | ok db' ↦ seed_all now rest db'
  ]
]

-- What reading the seed file gives.
pub data SeedFile : Type 0 where
  no_path missing unreadable : SeedFile
  seeds : List (Text × PublishedResource) → SeedFile

unfoldable pub seed_if_empty : (now : Text) → SeedFile → ResourceDb → ResourceDb × Option Error
unfolding seed_all
seed_if_empty now no_path db = (db, none)
seed_if_empty now file (row ∷ db) = (row ∷ db, none)
seed_if_empty now missing [] = ([], none)
seed_if_empty now unreadable [] = ([], some internal)
seed_if_empty now (seeds file) [] = seed_all now file []

pub record ResourceDto : Type 0 where
  pub name : Text
  pub display_name : Text
  pub type : Text
  pub access_mode : Text
  pub description : Text
  pub gateway_id : Text
  pub group_match : List Text
  pub backend : Text

unfoldable pub to_dto : (include_backend : Bool) → PublishedResource → ResourceDto
to_dto include_backend r = record {
  name = r.name;
  display_name = r.display_name;
  type = r.type;
  access_mode = r.access_mode;
  description = r.description;
  gateway_id = r.gateway_id;
  group_match = if include_backend then r.group_match else [];
  backend = if include_backend then r.backend else [];
}

-- ListForUser for the groups of the authenticated user, and AdminList.
unfoldable pub list_for_user : List Text → ResourceDb → List ResourceDto
unfolding list_resources_for_groups to_dto
list_for_user groups db = map (to_dto false) (list_resources_for_groups groups db)

unfoldable admin_list : ResourceDb → List ResourceDto
unfolding list_resources to_dto
admin_list db = map (to_dto true) (list_resources db)

pub record CreateResourceRequest : Type 0 where
  pub name : Text
  pub display_name : Text
  pub type : Text
  pub backend : Text
  pub gateway_id : Text
  pub group_match : List Text
  pub access_mode : Text
  pub description : Text

-- The resource that both handlers build; the identifier and the times are empty.
abbrev pub requested : (name : Text) → CreateResourceRequest → PublishedResource
requested name req = record {
  id = [];
  name = name;
  display_name = req.display_name;
  type = req.type;
  backend = req.backend;
  gateway_id = req.gateway_id;
  group_match = req.group_match;
  access_mode = req.access_mode;
  description = req.description;
  created_at = [];
  updated_at = [];
}

-- The handlers; the body is `none` where it is no JSON of that form.
unfoldable pub admin_create :
    (now fresh : Text) → Option CreateResourceRequest → ResourceDb → Result ResourceDb
unfolding create_published
admin_create now fresh none db = err invalid_input
admin_create now fresh (some req) db =
    if is_empty req.name
      || (is_empty req.type || (is_empty req.backend || is_empty req.access_mode))
    then err invalid_input
    else create_published now fresh (requested req.name req) db

-- Neither no rows nor a failed CHECK is an error of the domain, so the answer is an internal error.
abbrev pub or_internal : Option ResourceDb → Result ResourceDb
or_internal none = err internal
or_internal (some db) = ok db

unfoldable pub admin_update :
    (now name : Text) → Option CreateResourceRequest → ResourceDb → Result ResourceDb
unfolding update_resource
admin_update now name none db = err invalid_input
admin_update now name (some req) db =
    if is_empty name
    then err invalid_input
    else or_internal (update_resource now (requested name req) db)

unfoldable pub admin_delete : (name : Text) → ResourceDb → Result ResourceDb
unfolding delete_resource
admin_delete name db =
    if is_empty name then err invalid_input else or_internal (delete_resource name db)

pub record PepResourceResponse : Type 0 where
  pub name : Text
  pub type : Text
  pub backend : Text
  pub gateway_id : Text
  pub access_mode : Text

abbrev pub response_of : PublishedResource → PepResourceResponse
response_of res = record {
  name = res.name;
  type = res.type;
  backend = res.backend;
  gateway_id = res.gateway_id;
  access_mode = res.access_mode;
}

-- The resource belongs to another gateway.
unfoldable pub is_foreign : (pep_id : Text) → PublishedResource → Bool
is_foreign pep_id res =
    not (is_empty res.gateway_id) && (not (is_empty pep_id) && not (text_eq res.gateway_id pep_id))

-- Resolve, for a gateway of the given identifier.
unfoldable pub resolve : (pep_id name : Text) → ResourceDb → Result PepResourceResponse
unfolding get_resource_by_name is_foreign
resolve pep_id name db =
    if is_empty name then err invalid_input else elim (get_resource_by_name name db) [
      | none ↦ err not_found
      | some res ↦ if is_foreign pep_id res then err forbidden else ok (response_of res)
    ]
