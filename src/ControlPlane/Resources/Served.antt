-- ===== src/ControlPlane/Resources/Served.antt =====
-- What a gateway is told of a resource by its name.
use ztna_project.Base.{
  ◌≡◌, ◌≢◌, refl, sym, ap, ◌∙◌, ◌⊎◌, inl, inr, true, false, not, ◌||◌, none, some, [], arith,
  if◌then◌else◌, Bool-cases, Option-cases, Text, text_eq_iff, text_eq_refl, is_empty, lookup,
  insert, delete, lookup-insert, lookup-delete, Option, ◌∷◌,
}
use ztna_project.ControlPlane.Model.{
  invalid_input, forbidden, not_found, ok, err, past_guard, ok-injective,
}
use ztna_project.ControlPlane.Resources.{
  PublishedResource, ResourceDb, has_id, is_found, meets_checks, create_resource, identified,
  create_published, delete_resource, CreateResourceRequest, requested, admin_create, or_internal,
  admin_delete, PepResourceResponse, response_of, is_foreign, resolve, get_resource_by_name,
}

-- The gateway may serve it: the resource names no gateway, or this one, or the gateway has no
-- identifier.
abbrev pub MayServe : (pep_id gateway_id : Text) → Type 0
MayServe pep_id gateway_id = (gateway_id ≡ []) ⊎ ((pep_id ≡ []) ⊎ (gateway_id ≡ pep_id))

empty-eq : (t : Text) → is_empty t ≡ true → t ≡ []
empty-eq [] e = refl
empty-eq (c ∷ t) e = ground (arith, e)

is_foreign-false :
    (pep_id : Text) (res : PublishedResource)
    → is_foreign pep_id res ≡ false
    → MayServe pep_id res.gateway_id
unfolding is_foreign
is_foreign-false pep_id res e = elim (Bool-cases (is_empty res.gateway_id)) [
  | inl free ↦ inl (empty-eq res.gateway_id free)
  | inr owned ↦ elim (Bool-cases (is_empty pep_id)) [
    | inl unnamed ↦ inr (inl (empty-eq pep_id unnamed))
    | inr named ↦ inr (inr (ground (arith, e, text_eq_iff res.gateway_id pep_id)))
  ]
]

MayServe-is_foreign :
    (pep_id : Text) (res : PublishedResource)
    → MayServe pep_id res.gateway_id
    → is_foreign pep_id res ≡ false
unfolding is_foreign
MayServe-is_foreign pep_id res (inl free) = ground (arith, ap is_empty free)
MayServe-is_foreign pep_id res (inr (inl unnamed)) = ground (arith, ap is_empty unnamed)
MayServe-is_foreign pep_id res (inr (inr same)) = ground (arith, text_eq_iff res.gateway_id pep_id)

resolve-found :
    (pep_id name : Text) (res : PublishedResource) (db : ResourceDb)
    → is_empty name ≡ false
    → lookup name db ≡ some res
    → MayServe pep_id res.gateway_id
    → resolve pep_id name db ≡ ok (response_of res)
unfolding resolve get_resource_by_name
resolve-found pep_id name res db named found may =
    rw (named, found, MayServe-is_foreign pep_id res may) refl

-- A gateway is told of a resource only what is stored under that name, and only if the resource
-- names no gateway or this one, or the gateway has no identifier.
resolve-ok :
    (pep_id name : Text) (db : ResourceDb) (response : PepResourceResponse)
    → resolve pep_id name db ≡ ok response
    → (res : PublishedResource) × (lookup name db ≡ some res)
      × MayServe pep_id res.gateway_id
      × (response_of res ≡ response)
unfolding resolve get_resource_by_name
resolve-ok pep_id name db response e = elim (Bool-cases (is_empty name)) [
  | inl empty ↦
      let clash : err invalid_input ≡ ok response = rw (empty, resolve) at e in
      ground (arith, clash)
  | inr named ↦ elim (Option-cases (lookup name db)) [
    | inl unseen ↦
        let clash : err not_found ≡ ok response = rw (named, unseen, resolve) at e in
        ground (arith, clash)
    | inr (res, found) ↦
        let e1 : (if is_foreign pep_id res then err forbidden else ok (response_of res))
            ≡ ok response =
          rw (named, found, resolve) at e in
        let (own, same) = past_guard (is_foreign pep_id res) _ _ _ e1 in
        (res, found, is_foreign-false pep_id res own, ok-injective same)
  ]
]

create_resource-ok :
    (now : Text) (res : PublishedResource) (db db' : ResourceDb)
    → create_resource now res db ≡ ok db'
    → (lookup res.name db ≡ none)
      × (insert res.name (record res { created_at = now; updated_at = now }) db ≡ db')
unfolding create_resource
create_resource-ok now res db db' e =
    let (free, same) =
      past_guard (is_found (lookup res.name db) || (has_id res.id db || not (meets_checks res))) _ _
        _ e in
    let unseen : lookup res.name db ≡ none = elim (Option-cases (lookup res.name db)) [
      | inl none_there ↦ none_there
      | inr (old, found) ↦ ground (arith, found, free)
    ] in
    (unseen, ok-injective same)

-- The row that a creation stores.
abbrev pub stored : (now fresh : Text) → CreateResourceRequest → PublishedResource
stored now fresh req = record (requested req.name req) {
  id = fresh;
  created_at = now;
  updated_at = now;
}

pub admin_create-ok :
    (now fresh : Text) (req : CreateResourceRequest) (db db' : ResourceDb)
    → admin_create now fresh (some req) db ≡ ok db'
    → (is_empty req.name ≡ false)
      × (lookup req.name db ≡ none)
      × (insert req.name (stored now fresh req) db ≡ db')
unfolding admin_create create_published
admin_create-ok now fresh req db db' e =
    let (filled, made) =
      past_guard
        (is_empty req.name
          || (is_empty req.type || (is_empty req.backend || is_empty req.access_mode)))
        _ _ _ e in
    let (unseen, wrote) =
      create_resource-ok now (identified fresh (requested req.name req)) db db' made in
    (ground (arith, filled), unseen, wrote)

-- A resource that an administrator creates had no namesake, and from then on a gateway that asks
-- for its name is told its type, backend and access mode as they were given, if it names no gateway
-- or this one, or the gateway has no identifier; what is said of other names does not change.
pub admin_create-resolve :
    (now fresh : Text) (req : CreateResourceRequest) (db db' : ResourceDb) (pep_id : Text)
    → admin_create now fresh (some req) db ≡ ok db'
    → (lookup req.name db ≡ none)
      × (MayServe pep_id req.gateway_id
          → resolve pep_id req.name db'
            ≡ ok (record {
              name = req.name;
              type = req.type;
              backend = req.backend;
              gateway_id = req.gateway_id;
              access_mode = req.access_mode;
            }))
      × ((other : Text) → other ≢ req.name → resolve pep_id other db' ≡ resolve pep_id other db)
unfolding resolve get_resource_by_name
admin_create-resolve now fresh req db db' pep_id e =
    let (named, unseen, wrote) = admin_create-ok now fresh req db db' e in
    let found : lookup req.name db' ≡ some (stored now fresh req) =
      ap (lookup req.name) (sym wrote)
      ∙ ground (
        arith,
        lookup-insert req.name req.name (stored now fresh req) db,
        text_eq_refl req.name,
      ) in
    (
      unseen,
      (λ may. resolve-found pep_id req.name (stored now fresh req) db' named found may),
      (λ other apart.
          (let kept : lookup other db' ≡ lookup other db =
              ap (lookup other) (sym wrote)
              ∙ ground (
                arith,
                apart,
                lookup-insert req.name other (stored now fresh req) db,
                text_eq_iff req.name other,
              ) in
            rw kept refl)),
    )

delete_resource-ok :
    (name : Text) (db db' : ResourceDb) → delete_resource name db ≡ some db' → delete name db ≡ db'
unfolding delete_resource
delete_resource-ok name db db' e = elim (Option-cases (lookup name db)) [
  | inl unseen ↦
      let clash : none ≡ some db' = rw (unseen, delete_resource) at e in ground (arith, clash)
  | inr (old, found) ↦
      let same : some (delete name db) ≡ some db' = rw (found, delete_resource) at e in
      ground (arith, same)
]

or_internal-some : (o : Option ResourceDb) (db : ResourceDb) → or_internal o ≡ ok db → o ≡ some db
or_internal-some none db e = ground (arith, e)
or_internal-some (some d) db e = ap some (ok-injective e)

-- After a deletion every gateway that asks for the name is told that there is no such resource, and
-- what is said of other names does not change.
pub admin_delete-resolve :
    (name : Text) (db db' : ResourceDb) (pep_id : Text)
    → admin_delete name db ≡ ok db'
    → (resolve pep_id name db' ≡ err not_found)
      × ((other : Text) → other ≢ name → resolve pep_id other db' ≡ resolve pep_id other db)
unfolding admin_delete resolve get_resource_by_name
admin_delete-resolve name db db' pep_id e =
    let (named, gone) = past_guard (is_empty name) _ _ _ e in
    let wrote = delete_resource-ok name db db' (or_internal-some _ db' gone) in
    let unseen : lookup name db' ≡ none =
      ap (lookup name) (sym wrote)
      ∙ ground (arith, lookup-delete name name db, text_eq_refl name) in
    (
      rw (named, unseen) refl,
      (λ other apart.
          (let kept : lookup other db' ≡ lookup other db =
              ap (lookup other) (sym wrote)
              ∙ ground (arith, apart, lookup-delete name other db, text_eq_iff name other) in
            rw kept refl)),
    )
