-- ===== src/Gateway/Identity.antt =====
-- gateway/internal/infra/mtls/identity.go: the subject that a client's certificate names. A
-- certificate is what the program reads of it.
pub mod Subjects
use ztna_project.Base.{
  Bool, true, false, not, ◌&&◌, Option, none, some, List, [], ◌∷◌, if◌then◌else◌, Text, codes,
  text_eq, is_empty, after_prefix,
}

-- `whole` is the text of the whole identifier.
pub record Uri : Type 0 where
  pub scheme : Text
  pub opaque : Text
  pub whole : Text

pub record Certificate : Type 0 where
  pub common_name : Text
  pub organization : List Text
  pub dns_names : List Text
  pub uris : List Uri
  pub serial : Text

pub record SubjectRef : Type 0 where
  pub sub : Text
  pub username : Text
  pub groups : List Text

abbrev or_whole : Text → Option Text → Text
or_whole whole none = whole
or_whole whole (some rest) = rest

-- strings.TrimPrefix.
abbrev trim_prefix : Text → Text → Text
trim_prefix whole prefix = or_whole whole (after_prefix prefix whole)

-- The first identifier with the scheme ends the loop.
unfoldable pub oidc_sub : List Uri → Text
oidc_sub [] = []
oidc_sub (u ∷ us) =
    let rest = oidc_sub us in
    if text_eq u.scheme (codes "oidc")
    then (if is_empty u.opaque then trim_prefix u.whole (codes "oidc:") else u.opaque)
    else rest

abbrev first_or_empty : List Text → Text
first_or_empty [] = []
first_or_empty (x ∷ xs) = x

abbrev pub or_text : Text → Text → Text
or_text t default = if is_empty t then default else t

unfoldable pub extract_subject_from_cert : Certificate → SubjectRef
unfolding oidc_sub
extract_subject_from_cert cert =
    let sub =
      or_text (or_text (oidc_sub cert.uris) (first_or_empty cert.dns_names)) cert.common_name in
    record {
      sub = sub;
      username =
          if not (is_empty cert.common_name) && not (text_eq cert.common_name sub)
          then cert.common_name
          else sub;
      groups = cert.organization;
    }
