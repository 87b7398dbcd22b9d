-- ===== src/Gateway/Identity/Subjects.antt =====
-- Who a certificate stands for.
use ztna_project.Base.{
  ◌≡◌, refl, sym, inl, inr, false, not, ◌&&◌, [], ◌∷◌, if◌then◌else◌, Bool-cases, Text, text_eq,
  text_eq_iff, is_empty,
}
use ztna_project.Gateway.Identity.{Certificate, or_text, extract_subject_from_cert}

or_text-filled :
    (t default : Text) → is_empty default ≡ false → is_empty (or_text t default) ≡ false
or_text-filled [] default h = h
or_text-filled (x ∷ t) default h = refl

username_of :
    (name sub : Text)
    → is_empty name ≡ false
    → (if not (is_empty name) && not (text_eq name sub) then name else sub) ≡ name
username_of name sub h = elim (Bool-cases (text_eq name sub)) [
  | inl same ↦ rw (h, same) (sym ((text_eq_iff name sub).0 same))
  | inr differs ↦ rw (h, differs)
]

-- A certificate with a common name always gives a subject with an identifier and a user name, and
-- its organisations are the subject's groups; the user name is the common name.
extract_subject_from_cert_lem :
    (cert : Certificate)
    → is_empty cert.common_name ≡ false
    → (is_empty (extract_subject_from_cert cert).sub ≡ false)
      × ((extract_subject_from_cert cert).username ≡ cert.common_name)
      × ((extract_subject_from_cert cert).groups ≡ cert.organization)
unfolding extract_subject_from_cert
extract_subject_from_cert_lem cert h =
    (or_text-filled _ cert.common_name h, username_of cert.common_name _ h, refl)
