-- ===== src/System/Identity.antt =====
-- The way of a user's identity: the certificate that the control plane signs, the subject that a
-- gateway reads from it, and the rules that speak of users. Encoding and parsing a certificate keep
-- its fields, which is what the X.509 libraries of both sides document; the control plane writes
-- no alternative names.
use mathlib.Core.Path.{subst}
use ztna_project.Base.{
  ◌≡◌, sym, ap, ◌∙◌, ◌↔◌, true, Option, none, List, [], ◌++◌, arith, ℤ, Text, codes, text_eq,
  text_eq_iff, text_eq_refl, format_ℕ, after_prefix,
}
use ztna_project.ControlPlane.Model.{Subject, ok}
use ztna_project.ControlPlane.Policy.{match_subject}
use ztna_project.ControlPlane.DeviceCerts.{CertDb}
use ztna_project.ControlPlane.DeviceIssue.{
  ClientCertificate, Draw, DeviceCaConfig, IssueDeviceCertRequest, issue_device_cert,
}
use ztna_project.ControlPlane.DeviceIssue.Issued.{issue_device_cert-IsProper}
use ztna_project.Gateway.Identity.{Certificate, SubjectRef, extract_subject_from_cert, oidc_sub}

-- What the gateway reads of a certificate of the control plane. The subject's serial number is not
-- among it.
abbrev presented : ClientCertificate → Certificate
presented cert = record {
  common_name = cert.common_name;
  organization = cert.organization;
  dns_names = [];
  uris = [];
  serial = format_ℕ cert.serial;
}

-- The gateway's subject as the control plane reads it from the request.
abbrev as_subject : SubjectRef → Subject
as_subject s = record { sub = s.sub; username = s.username; groups = s.groups }

named_twice :
    (cert : ClientCertificate)
    → extract_subject_from_cert (presented cert)
      ≡ record { sub = cert.common_name; username = cert.common_name; groups = cert.organization }
unfolding extract_subject_from_cert oidc_sub
named_twice cert = rw (text_eq_refl cert.common_name) (ground arith)

-- The subject behind a certificate that the control plane issued to a user.
extract-issued :
    (parse : Text → Option ℤ) (d : Draw) (cfg : DeviceCaConfig) (req : IssueDeviceCertRequest)
    (db : CertDb) (cert : ClientCertificate) (db' : CertDb)
    → issue_device_cert parse d cfg req db ≡ ok (cert, db')
    → extract_subject_from_cert (presented cert) ≡ record {
      sub = req.subject.username;
      username = req.subject.username;
      groups = req.subject.groups;
    }
extract-issued parse d cfg req db cert db' issued =
    let (_, (name, _, groups, _, _, _, _, _)) =
      issue_device_cert-IsProper parse d cfg req db cert db' issued in
    named_twice cert
    ∙ ap (λ n. record { sub = n; username = n; groups = cert.organization }) name
    ∙ ap (λ gs. record { sub = req.subject.username; username = req.subject.username; groups = gs })
        groups

-- The subject of a user as it comes back through a gateway.
abbrev pub through_gateway : ClientCertificate → Subject
through_gateway cert = as_subject (extract_subject_from_cert (presented cert))

match_subject-same :
    (pattern : Text) (s : Subject) (sub : Text)
    → after_prefix (codes "sub:") pattern ≡ none
    → match_subject pattern (record s { sub = sub }) ≡ match_subject pattern s
unfolding match_subject
match_subject-same pattern s sub other = ground (arith, other)

match_subject-sub :
    (id name : Text) (groups : List Text)
    → (match_subject (codes "sub:" ++ id) (record { sub = name; username = name; groups = groups })
        ≡ true)
      ↔ (name ≡ id)
unfolding match_subject after_prefix text_eq
match_subject-sub id name groups = text_eq_iff name id

-- For a user with a device certificate of the control plane, the rules that name users, groups or
-- everyone apply through a gateway exactly as they do to the user, but a rule that names a subject
-- identifier applies exactly if it is the username: the identifier does not come back.
pub match_subject-issued :
    (parse : Text → Option ℤ) (d : Draw) (cfg : DeviceCaConfig) (req : IssueDeviceCertRequest)
    (db : CertDb) (cert : ClientCertificate) (db' : CertDb)
    → issue_device_cert parse d cfg req db ≡ ok (cert, db')
    → ((pattern : Text)
        → after_prefix (codes "sub:") pattern ≡ none
        → match_subject pattern (through_gateway cert) ≡ match_subject pattern req.subject)
      × ((id : Text)
          → (match_subject (codes "sub:" ++ id) (through_gateway cert) ≡ true)
            ↔ (req.subject.username ≡ id))
match_subject-issued parse d cfg req db cert db' issued =
    let same = ap as_subject (extract-issued parse d cfg req db cert db' issued) in
    (
      (λ pattern other.
          (ap (match_subject pattern) same
            ∙ match_subject-same pattern req.subject req.subject.username other)),
      (λ id.
          subst (λ s. (match_subject (codes "sub:" ++ id) s ≡ true) ↔ (req.subject.username ≡ id))
            (sym same) (match_subject-sub id req.subject.username req.subject.groups)),
    )
