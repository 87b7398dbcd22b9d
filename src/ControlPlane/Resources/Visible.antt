-- ===== src/ControlPlane/Resources/Visible.antt =====
-- Which resources a user is shown, and what of them.
use mathlib.Core.Path.{subst}
use ztna_project.Base.{
  ◌≡◌, refl, sym, ap, ◌∙◌, ◌↔◌, ◌⊎◌, inl, inr, true, false, List, [], ◌∷◌, arith, Bool-cases, Text,
  text_eq, text_eq_iff, text_lt, is_empty, member, IsIn, IsIn-map, IsIn-map_back, values,
}
use ztna_project.ControlPlane.Resources.{
  PublishedResource, ResourceDb, ResourceDto, insert_by_name, order_by_name, list_resources,
  shares_group, is_visible, visible_to, list_resources_for_groups, to_dto, list_for_user,
}

-- A resource without groups is for every user; any other for the users of one of its groups.
abbrev pub IsVisibleTo : List Text → PublishedResource → Type 0
IsVisibleTo groups res =
    (res.group_match ≡ []) ⊎ ((g : Text) × IsIn g res.group_match × IsIn g groups)

-- All that a user is shown of a resource: neither its backend nor its groups.
abbrev pub public_view : PublishedResource → ResourceDto
public_view res = record {
  name = res.name;
  display_name = res.display_name;
  type = res.type;
  access_mode = res.access_mode;
  description = res.description;
  gateway_id = res.gateway_id;
  group_match = [];
  backend = [];
}

member-IsIn : (t : Text) (xs : List Text) → member t xs ≡ true → IsIn t xs
unfolding member
member-IsIn t [] e = ground (arith, e)
member-IsIn t (x ∷ xs) e = elim (Bool-cases (text_eq x t)) [
  | inl same ↦ inl ((text_eq_iff x t).0 same)
  | inr other ↦ inr (member-IsIn t xs (rw other at e))
]

IsIn-member : (t : Text) (xs : List Text) → IsIn t xs → member t xs ≡ true
unfolding member
IsIn-member t [] h = elim h [ ]
IsIn-member t (x ∷ xs) (inl e) = ground (arith, text_eq_iff x t)
IsIn-member t (x ∷ xs) (inr h) = ground (arith, IsIn-member t xs h)

shares_group-common :
    (groups match : List Text)
    → shares_group groups match ≡ true
    → (g : Text) × IsIn g match × IsIn g groups
unfolding shares_group
shares_group-common groups [] e = ground (arith, e)
shares_group-common groups (g ∷ rest) e = elim (Bool-cases (member g groups)) [
  | inl common ↦ (g, inl refl, member-IsIn g groups common)
  | inr apart ↦
      let (h, among, common) = shares_group-common groups rest (rw apart at e) in
      (h, inr among, common)
]

common-shares_group :
    (groups match : List Text) (g : Text)
    → IsIn g match
    → IsIn g groups
    → shares_group groups match ≡ true
unfolding shares_group
common-shares_group groups [] g among common = elim among [ ]
common-shares_group groups (h ∷ rest) g (inl e) common =
    let found : member h groups ≡ true =
      ap (λ t. member t groups) e ∙ IsIn-member g groups common in
    ground (arith, found)
common-shares_group groups (h ∷ rest) g (inr among) common =
    ground (arith, common-shares_group groups rest g among common)

empty-eq : {A : Type 0} (xs : List A) → is_empty xs ≡ true → xs ≡ []
empty-eq [] e = refl
empty-eq (x ∷ xs) e = ground (arith, e)

is_visible_iff :
    (groups : List Text) (res : PublishedResource)
    → (is_visible groups res ≡ true) ↔ IsVisibleTo groups res
unfolding is_visible
is_visible_iff groups res = (
  (λ e. elim (Bool-cases (is_empty res.group_match)) [
    | inl open_to_all ↦ inl (empty-eq res.group_match open_to_all)
    | inr restricted ↦ inr (shares_group-common groups res.group_match (rw restricted at e))
  ]),
  (λ v. elim v [
    | inl none_given ↦ ground (arith, ap is_empty none_given)
    | inr (g, among, common) ↦
        ground (arith, common-shares_group groups res.group_match g among common)
  ]),
)

IsIn-insert_by_name :
    (x row : PublishedResource) (rows : List PublishedResource)
    → IsIn x (insert_by_name row rows) ↔ IsIn x (row ∷ rows)
unfolding insert_by_name
IsIn-insert_by_name x row [] = ((λ h. h), (λ h. h))
IsIn-insert_by_name x row (other ∷ rest) =
    let (to, from) = IsIn-insert_by_name x row rest in
    elim (Bool-cases (text_lt row.name other.name)) [
      | inl before ↦ rw before ((λ h. h), (λ h. h))
      | inr after ↦ rw after (
        (λ h. elim h [
          | inl e ↦ inr (inl e)
          | inr i ↦ elim (to i) [ inl e ↦ inl e | inr j ↦ inr (inr j) ]
        ]),
        (λ h. elim h [
          | inl e ↦ inr (from (inl e))
          | inr i ↦ elim i [ inl e ↦ inl e | inr j ↦ inr (from (inr j)) ]
        ]),
      )
    ]

IsIn-order_by_name :
    (x : PublishedResource) (rows : List PublishedResource)
    → IsIn x (order_by_name rows) ↔ IsIn x rows
unfolding order_by_name
IsIn-order_by_name x [] = ((λ h. h), (λ h. h))
IsIn-order_by_name x (row ∷ rest) =
    let (to, from) = IsIn-insert_by_name x row (order_by_name rest) in
    let (down, up) = IsIn-order_by_name x rest in
    (
      (λ h. elim (to h) [ inl e ↦ inl e | inr i ↦ inr (down i) ]),
      (λ h. elim h [ inl e ↦ from (inl e) | inr i ↦ from (inr (up i)) ]),
    )

IsIn-visible_to :
    (groups : List Text) (x : PublishedResource) (rows : List PublishedResource)
    → IsIn x (visible_to groups rows)
    → IsIn x rows × (is_visible groups x ≡ true)
unfolding visible_to
IsIn-visible_to groups x [] h = elim h [ ]
IsIn-visible_to groups x (row ∷ rest) h = elim (Bool-cases (is_visible groups row)) [
  | inl shown ↦
      elim (let h' : IsIn x (row ∷ visible_to groups rest) = rw (shown, visible_to) at h in h') [
        | inl e ↦ (inl e, ap (is_visible groups) (sym e) ∙ shown)
        | inr i ↦ let (among, ok_too) = IsIn-visible_to groups x rest i in (inr among, ok_too)
      ]
  | inr hidden ↦
      let h' : IsIn x (visible_to groups rest) = rw (hidden, visible_to) at h in
      let (among, ok_too) = IsIn-visible_to groups x rest h' in (inr among, ok_too)
]

visible_to-IsIn :
    (groups : List Text) (x : PublishedResource) (rows : List PublishedResource)
    → IsIn x rows
    → is_visible groups x ≡ true
    → IsIn x (visible_to groups rows)
unfolding visible_to
visible_to-IsIn groups x [] h v = elim h [ ]
visible_to-IsIn groups x (row ∷ rest) (inl e) v = rw (ap (is_visible groups) e ∙ v) (inl e)
visible_to-IsIn groups x (row ∷ rest) (inr i) v = elim (Bool-cases (is_visible groups row)) [
  | inl shown ↦ rw shown (inr (visible_to-IsIn groups x rest i v))
  | inr hidden ↦ rw hidden (visible_to-IsIn groups x rest i v)
]

-- A user is shown exactly the stored resources that have no groups or share one with the user, and
-- of each exactly the public view: its backend and its groups are never in the answer.
pub list_for_user_iff :
    (groups : List Text) (db : ResourceDb) (dto : ResourceDto)
    → IsIn dto (list_for_user groups db) ↔ (
        (res : PublishedResource) × IsIn res (values db)
        × IsVisibleTo groups res
        × (public_view res ≡ dto))
unfolding list_for_user list_resources_for_groups list_resources to_dto
list_for_user_iff groups db dto = (
  (λ h.
      (let (res, listed, same) = IsIn-map_back (to_dto false) dto _ h in
        let (among, shown) = IsIn-visible_to groups res _ listed in
        (
          res,
          (IsIn-order_by_name res (values db)).0 among,
          (is_visible_iff groups res).0 shown,
          same,
        ))),
  (λ (res, stored, visible, same).
      (let listed =
          visible_to-IsIn groups res _ ((IsIn-order_by_name res (values db)).1 stored)
            ((is_visible_iff groups res).1 visible) in
        let shown = IsIn-map (to_dto false) res _ listed in
        subst (λ d. IsIn d (list_for_user groups db)) same shown)),
)
