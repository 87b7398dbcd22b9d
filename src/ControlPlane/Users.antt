-- ===== src/ControlPlane/Users.antt =====
-- The middleware for users and administrators: control-plane/internal/api/middleware/user_auth.go
-- and admin.go.
pub mod Admitted
use ztna_project.Base.{
  ℕ, Bool, true, false, not, ◌||◌, Option, none, some, List, [], ◌∷◌, if◌then◌else◌, Text, codes,
  text_eq, is_empty, equal_fold, split_two, trim_space, after_prefix,
}
use ztna_project.ControlPlane.Model.{Subject, unauthorized, forbidden, Result, ok, err}
use ztna_project.ControlPlane.Tokens.{Jwk, Jwt, Validator, Clock, validate}

-- `strings.SplitN(header, " ", 2)`: two parts where there is a blank.
abbrev pub bearer_of : Option (Text × Text) → Option Text
bearer_of none = none
bearer_of (some (scheme, token)) =
    if equal_fold scheme (codes "Bearer") then some (trim_space token) else none

unfoldable pub bearer_token : (header : Text) → Option Text
unfolding split_two equal_fold trim_space
bearer_token header = if is_empty header then none else bearer_of (split_two b' ' header)

abbrev pub or_unauthorized : Validator × Option Subject → Validator × Result Subject
or_unauthorized (v, none) = (v, err unauthorized)
or_unauthorized (v, some subject) = (v, ok subject)

abbrev pub after_bearer :
    Jwt
    → Clock
    → (fetched : Option (List Jwk)) → Option Text
    → Validator
    → Validator × Result Subject
after_bearer jwt t fetched none v = (v, err unauthorized)
after_bearer jwt t fetched (some token) v = or_unauthorized (validate jwt t fetched token v)

-- RequireUser, to the subject that it puts into the context of the request.
unfoldable pub require_user :
    Jwt
    → Clock
    → (fetched : Option (List Jwk)) (header : Text) → Validator
    → Validator × Result Subject
unfolding bearer_token validate
require_user jwt t fetched header v = after_bearer jwt t fetched (bearer_token header) v

abbrev pub without_slash : Text → Option Text → Text
without_slash group none = group
without_slash group (some rest) = rest

-- The loop over the groups: with a slash before the name, or without.
unfoldable pub has_admin_group : (admin_group : Text) → List Text → Bool
unfolding after_prefix text_eq
has_admin_group admin_group [] = false
has_admin_group admin_group (group ∷ rest) =
    (text_eq (without_slash group (after_prefix (codes "/") group)) admin_group
      || text_eq group admin_group)
    || has_admin_group admin_group rest

-- RequireAdmin, for the subject of the context.
unfoldable pub require_admin : (admin_group : Text) → Option Subject → Result Subject
unfolding has_admin_group
require_admin admin_group none = err unauthorized
require_admin admin_group (some subject) =
    if is_empty admin_group
    then err forbidden
    else if has_admin_group admin_group subject.groups
    then ok subject
    else err forbidden
