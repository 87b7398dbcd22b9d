-- ===== src/ControlPlane/Policy/Patterns.antt =====
-- What the patterns of a rule mean.
use mathlib.Core.List.{Memᴰ}
use mathlib.Core.Path.{subst}
use ztna_project.Base.{
  ◌≤◌, ◌≡◌, refl, sym, ◌∙◌, ◌↔◌, ◌⊎◌, inl, inr, true, false, Option, none, some, List, [], ◌∷◌,
  ◌++◌, arith, leb, if◌then◌else◌, Bool-cases, Option-cases, Text, codes, text_eq, text_eq_iff,
  text_eq_refl, to_lower, equal_fold, has_prefix, after_prefix, after_prefix_iff, before_last,
  before_last_iff, lookup, is_empty,
}
use ztna_project.ControlPlane.Model.{Subject, JsonValue, text}
use ztna_project.ControlPlane.Policy.{
  has_group, text_of, match_subject, match_resource, trust_level, match_device_trust,
}

has_group-Memᴰ : (group : Text) (gs : List Text) → has_group group gs ≡ true → Memᴰ group gs
unfolding has_group
has_group-Memᴰ group [] e = cc
has_group-Memᴰ group (g ∷ gs) e = elim (Bool-cases (text_eq g group)) [
  | inl same ↦ Memᴰ.head (sym ((text_eq_iff g group).0 same))
  | inr other ↦ Memᴰ.tail (has_group-Memᴰ group gs (rw other at e))
]

Memᴰ-has_group : (group : Text) (gs : List Text) → Memᴰ group gs → has_group group gs ≡ true
unfolding has_group
Memᴰ-has_group group [] m = elim m [ ]
Memᴰ-has_group group (g ∷ gs) (Memᴰ.head e) = rw (← e, text_eq_refl group)
Memᴰ-has_group group (g ∷ gs) (Memᴰ.tail m) = ground (arith, Memᴰ-has_group group gs m)

-- "*", "user:<name>", "group:<one of the groups>" or "sub:<identifier>".
abbrev pub NamesSubject : Text → Subject → Type 0
NamesSubject pattern subject =
    (pattern ≡ codes "*")
    ⊎ ((pattern ≡ codes "user:" ++ subject.username)
        ⊎ (((group : Text) × Memᴰ group subject.groups × (pattern ≡ codes "group:" ++ group))
            ⊎ (pattern ≡ codes "sub:" ++ subject.sub)))

match_subject-NamesSubject :
    (pattern : Text) (subject : Subject)
    → match_subject pattern subject ≡ true
    → NamesSubject pattern subject
unfolding match_subject
match_subject-NamesSubject pattern subject h = elim (Bool-cases (text_eq pattern (codes "*"))) [
  | inl star ↦ inl ((text_eq_iff pattern (codes "*")).0 star)
  | inr plain ↦ elim (Option-cases (after_prefix (codes "user:") pattern)) [
    | inr (name, user) ↦
        let same = (text_eq_iff subject.username name).0 (rw (plain, user, match_subject) at h) in
        inr (inl (rw same ((after_prefix_iff (codes "user:") pattern name).0 user)))
    | inl no_user ↦ elim (Option-cases (after_prefix (codes "group:") pattern)) [
      | inr (group, found) ↦
          let listed =
            has_group-Memᴰ group subject.groups (rw (plain, no_user, found, match_subject) at h) in
          inr (inr (inl (group, listed, (after_prefix_iff (codes "group:") pattern group).0 found)))
      | inl no_group ↦ elim (Option-cases (after_prefix (codes "sub:") pattern)) [
        | inr (sub, found) ↦
            let same =
              (text_eq_iff subject.sub sub).0
                (rw (plain, no_user, no_group, found, match_subject) at h) in
            inr (inr (inr (rw same ((after_prefix_iff (codes "sub:") pattern sub).0 found))))
        | inl no_sub ↦
            let refused : false ≡ true =
              rw (plain, no_user, no_group, no_sub, match_subject) at h in
            cc refused
      ]
    ]
  ]
]

match_subject-user :
    (name : Text) (subject : Subject)
    → match_subject (codes "user:" ++ name) subject ≡ text_eq subject.username name
unfolding match_subject text_eq after_prefix
match_subject-user name subject = refl

match_subject-group :
    (group : Text) (subject : Subject)
    → match_subject (codes "group:" ++ group) subject ≡ has_group group subject.groups
unfolding match_subject text_eq after_prefix
match_subject-group group subject = refl

match_subject-sub :
    (sub : Text) (subject : Subject)
    → match_subject (codes "sub:" ++ sub) subject ≡ text_eq subject.sub sub
unfolding match_subject text_eq after_prefix
match_subject-sub sub subject = refl

match_subject-star : (subject : Subject) → match_subject (codes "*") subject ≡ true
unfolding match_subject text_eq
match_subject-star subject = refl

NamesSubject-match_subject :
    (pattern : Text) (subject : Subject)
    → NamesSubject pattern subject
    → match_subject pattern subject ≡ true
NamesSubject-match_subject pattern subject (inl e) =
    subst (λ t. match_subject t subject ≡ true) (sym e) (match_subject-star subject)
NamesSubject-match_subject pattern subject (inr (inl e)) =
    subst (λ t. match_subject t subject ≡ true) (sym e)
      (match_subject-user subject.username subject ∙ text_eq_refl subject.username)
NamesSubject-match_subject pattern subject (inr (inr (inl (group, listed, e)))) =
    subst (λ t. match_subject t subject ≡ true) (sym e)
      (match_subject-group group subject ∙ Memᴰ-has_group group subject.groups listed)
NamesSubject-match_subject pattern subject (inr (inr (inr e))) =
    subst (λ t. match_subject t subject ≡ true) (sym e)
      (match_subject-sub subject.sub subject ∙ text_eq_refl subject.sub)

-- A pattern matches a subject exactly when it is the star, the user's name behind "user:", one of
-- the user's groups behind "group:", or the user's identifier behind "sub:".
pub match_subject_iff :
    (pattern : Text) (subject : Subject)
    → (match_subject pattern subject ≡ true) ↔ NamesSubject pattern subject
match_subject_iff pattern subject =
    (match_subject-NamesSubject pattern subject, NamesSubject-match_subject pattern subject)

-- The canonical form begins with what stands before the pattern's final star.
abbrev MatchesPrefix : Text → Text → Type 0
MatchesPrefix pattern canon =
    (prefix : Text) × (rest : Text) × (pattern ≡ prefix ++ b'*' ∷ []) × (canon ≡ prefix ++ rest)

-- No star stands at the end, and only the case of letters differs.
abbrev MatchesFold : Text → Text → Type 0
MatchesFold pattern canon = (before_last b'*' pattern ≡ none) × (to_lower pattern ≡ to_lower canon)

has_prefix-true :
    (canon prefix : Text)
    → has_prefix canon prefix ≡ true
    → (rest : Text) × (canon ≡ prefix ++ rest)
unfolding has_prefix
has_prefix-true canon prefix h = elim (Option-cases (after_prefix prefix canon)) [
  | inl missing ↦ let refused : false ≡ true = rw (missing) at h in cc refused
  | inr (rest, found) ↦ (rest, (after_prefix_iff prefix canon rest).0 found)
]

has_prefix-append : (prefix rest : Text) → has_prefix (prefix ++ rest) prefix ≡ true
unfolding has_prefix
has_prefix-append prefix rest = rw ((after_prefix_iff prefix (prefix ++ rest) rest).1 refl)

match_resource-cases :
    (pattern canon : Text)
    → match_resource pattern canon ≡ true
    → MatchesPrefix pattern canon ⊎ MatchesFold pattern canon
unfolding match_resource equal_fold
match_resource-cases pattern canon h = elim (Bool-cases (text_eq pattern (codes "*"))) [
  | inl star ↦ inl ([], canon, (text_eq_iff pattern (codes "*")).0 star, refl)
  | inr plain ↦ elim (Option-cases (before_last b'*' pattern)) [
    | inr (prefix, ends) ↦
        let (rest, e) = has_prefix-true canon prefix (rw (plain, ends, match_resource) at h) in
        inl (prefix, rest, (before_last_iff b'*' pattern prefix).0 ends, e)
    | inl no_star ↦
        let same : text_eq (to_lower pattern) (to_lower canon) ≡ true =
          rw (plain, no_star, match_resource) at h in
        inr (no_star, (text_eq_iff _ _).0 same)
  ]
]

MatchesPrefix-match_resource :
    (pattern canon : Text) → MatchesPrefix pattern canon → match_resource pattern canon ≡ true
unfolding match_resource
MatchesPrefix-match_resource pattern canon (prefix, rest, e, e') =
    elim (Bool-cases (text_eq pattern (codes "*"))) [
      | inl star ↦ rw (star, match_resource)
      | inr plain ↦
          rw (plain, (before_last_iff b'*' pattern prefix).1 e, match_resource)
            (rw e' (has_prefix-append prefix rest))
    ]

MatchesFold-match_resource :
    (pattern canon : Text) → MatchesFold pattern canon → match_resource pattern canon ≡ true
unfolding match_resource equal_fold
MatchesFold-match_resource pattern canon (no_star, e) =
    elim (Bool-cases (text_eq pattern (codes "*"))) [
      | inl star ↦ rw (star, match_resource)
      | inr plain ↦ rw (plain, no_star, match_resource) ((text_eq_iff _ _).1 e)
    ]

-- A pattern matches a canonical resource exactly when the resource begins with what stands before
-- the pattern's final star, or when the pattern ends in no star and differs from the resource in
-- the case of letters at most.
match_resource_iff :
    (pattern canon : Text)
    → (match_resource pattern canon ≡ true)
      ↔ (MatchesPrefix pattern canon ⊎ MatchesFold pattern canon)
match_resource_iff pattern canon = (
  match_resource-cases pattern canon,
  elim [
    | inl h ↦ MatchesPrefix-match_resource pattern canon h
    | inr h ↦ MatchesFold-match_resource pattern canon h
  ],
)

abbrev IsTrusted : Text → List (Text × JsonValue) → Type 0
IsTrusted required ctx =
    (actual : Text) × (lookup (codes "device_trust") ctx ≡ some (text actual))
    × (is_empty actual ≡ false)
    × (trust_level required ≤ trust_level actual)

text_of-some : (o : Option JsonValue) {t : Text} → text_of o ≡ some t → o ≡ some (text t)
text_of-some none e = cc
text_of-some (some (text s)) e = ground arith
text_of-some (some JsonValue.other) e = cc

match_device_trust-IsTrusted :
    (required : Text) (ctx : List (Text × JsonValue))
    → match_device_trust required ctx ≡ true
    → IsTrusted required ctx
unfolding match_device_trust
match_device_trust-IsTrusted required ctx h =
    elim (Option-cases (text_of (lookup (codes "device_trust") ctx))) [
      | inl missing ↦
          let refused : false ≡ true = rw (missing, match_device_trust) at h in cc refused
      | inr (actual, found) ↦
          let test : (if is_empty actual
                then false
                else leb (trust_level required) (trust_level actual))
              ≡ true =
            rw (found, match_device_trust) at h in
          (actual, text_of-some _ found, ground (arith, test), ground (arith, test))
    ]

IsTrusted-match_device_trust :
    (required : Text) (ctx : List (Text × JsonValue))
    → IsTrusted required ctx
    → match_device_trust required ctx ≡ true
unfolding match_device_trust
IsTrusted-match_device_trust required ctx (actual, found, full, le) =
    rw (found, match_device_trust) (ground arith)

-- A required trust is met exactly by a context whose `device_trust` is a text that is not empty and
-- whose level is at least the required one; without such a text the request is not admitted.
match_device_trust_iff :
    (required : Text) (ctx : List (Text × JsonValue))
    → (match_device_trust required ctx ≡ true) ↔ IsTrusted required ctx
match_device_trust_iff required ctx =
    (match_device_trust-IsTrusted required ctx, IsTrusted-match_device_trust required ctx)
