-- ===== src/ControlPlane/Tokens/Custom.antt =====
-- The custom claims of a token in control-plane/internal/security/oidc/validator.go.
use ztna_project.Base.{
  Option, none, some, List, [], ◌∷◌, if◌then◌else◌, Text, is_empty, lookup, trim_space, has_byte,
  fields, split,
}

-- A value of the custom claims; an item of a list that is no text is `none`.
pub data Claim : Type 0 where
  text : Text → Claim
  items : List (Option Text) → Claim
  other : Claim

unfoldable pub claim_string : List (Text × Claim) → (name : Text) → Text
claim_string claims name = elim (lookup name claims) [ some (text t) ↦ t | _ ↦ [] ]

abbrev texts_of : List (Option Text) → List Text
texts_of [] = []
texts_of (some t ∷ rest) = t ∷ texts_of rest
texts_of (none ∷ rest) = texts_of rest

-- The parts that are not blank, trimmed.
unfoldable pub trimmed_parts : List Text → List Text
unfolding trim_space
trimmed_parts [] = []
trimmed_parts (part ∷ rest) =
    if is_empty (trim_space part) then trimmed_parts rest else trim_space part ∷ trimmed_parts rest

-- The names that one text gives: separated by blanks, else by commas.
unfoldable pub names_in : Text → List Text
unfolding has_byte fields split trimmed_parts
names_in trimmed =
    if is_empty trimmed
    then []
    else if has_byte b' ' trimmed
    then fields trimmed
    else if has_byte b',' trimmed
    then trimmed_parts (split b',' trimmed)
    else trimmed ∷ []

unfoldable pub claim_strings : List (Text × Claim) → (name : Text) → List Text
unfolding names_in trim_space
claim_strings claims name = elim (lookup name claims) [
  | none ↦ []
  | some (items list) ↦ texts_of list
  | some (text t) ↦ names_in (trim_space t)
  | some other ↦ []
]
