-- ===== src/ControlPlane/DeviceIssue.antt =====
-- How a device certificate is issued and revoked: checkKeyType and SignClientCSR of
-- control-plane/internal/crypto/deviceca/deviceca.go, IssueDeviceCert of
-- control-plane/internal/service/credentials/device_cert.go; the handlers are in Handlers. PEM, ASN.1
-- and signatures are outside: a signing request is the public key that it proves, or nothing.
pub mod Handlers
pub mod Issued
use ztna_project.Base.{
  ℕ, ◌+◌, ◌-◌, ◌*◌, ◌%◌, ◌^◌, Bool, true, false, not, ◌&&◌, ◌||◌, Option, none, some, List, [], ◌∷◌,
  ◌++◌, if◌then◌else◌, ltb, int_eq, ℤ, pos, negsuc, is_positive, Text, codes, is_empty, equal_fold,
  has_prefix, hex,
}
use ztna_project.ControlPlane.Model.{
  Subject, Error, unauthorized, invalid_input, internal, Result, ok, err,
}
use ztna_project.ControlPlane.Requests.{Peer, extract_remote_ip, format_subject_for_audit}
use ztna_project.ControlPlane.Authorize.{AuditEvent, append_event}
use ztna_project.ControlPlane.Credentials.{parse_duration_or_zero, clamp_ttl, chosen_ttl}
use ztna_project.ControlPlane.DeviceCerts.{DeviceCert, CertDb, store_device_cert, revoke_handler}

-- A key of another type has the name of its Go type, which does not contain "ed25519".
pub data PublicKey : Type 0 where
  ecdsa_p256 ecdsa_other rsa ed25519 : PublicKey
  other_key : (type_name : Text) → PublicKey

unfoldable pub key_type : PublicKey → Text
key_type ecdsa_p256 = codes "ecdsa-p256"
key_type ecdsa_other = codes "ecdsa-other"
key_type rsa = codes "rsa"
key_type ed25519 = codes "ed25519"
key_type (other_key type_name) = type_name

-- The loop: the type itself, or "ecdsa" for each of its curves.
unfoldable pub accepts_type : (got : Text) → List Text → Bool
unfolding equal_fold has_prefix
accepts_type got [] = false
accepts_type got (a ∷ allowed) =
    (equal_fold a got || (equal_fold a (codes "ecdsa") && has_prefix got (codes "ecdsa")))
    || accepts_type got allowed

unfoldable pub check_key_type : PublicKey → (allowed : List Text) → Bool
unfolding key_type accepts_type
check_key_type key allowed = is_empty allowed || accepts_type (key_type key) allowed

-- What SignClientCSR puts into a certificate; it is valid from thirty seconds before `signed_at`
-- until `ttl` after it.
pub record ClientCertificate : Type 0 where
  pub serial : ℕ
  pub common_name : Text
  pub serial_number : Text
  pub organization : List Text
  pub signed_at : ℕ
  pub ttl : ℤ
  pub public_key : PublicKey

pub data SignError : Type 0 where
  key_not_allowed bad_request : SignError

pub data Signed : Type 0 where
  signed : ClientCertificate → Signed
  refused : SignError → Signed

-- What a call draws and reads: the serial number, the clock, its texts, and the fingerprint.
pub record Draw : Type 0 where
  pub serial : ℕ
  pub signed_at : ℕ
  pub now : Text
  pub expires : Text
  pub fingerprint : Text

abbrev pub certificate_of : Draw → Subject → ℤ → PublicKey → ClientCertificate
certificate_of d subject ttl key = record {
  serial = d.serial;
  common_name = subject.username;
  serial_number = subject.sub;
  organization = subject.groups;
  signed_at = d.signed_at;
  ttl = ttl;
  public_key = key;
}

-- The request is `none` where it is no signing request with a valid signature.
unfoldable pub sign_client_csr :
    Draw → (csr : Option PublicKey) → Subject → (ttl : ℤ) (allowed : List Text) → Signed
unfolding check_key_type
sign_client_csr d none subject ttl allowed = refused bad_request
sign_client_csr d (some key) subject ttl allowed =
    if check_key_type key allowed
    then signed (certificate_of d subject ttl key)
    else refused key_not_allowed

pub record DeviceCaConfig : Type 0 where
  pub default_ttl : Text
  pub min_ttl : Text
  pub max_ttl : Text
  pub allowed_key_types : List Text

-- `csr` is what the text proves, `none` for a text that does not.
pub record IssueDeviceCertRequest : Type 0 where
  pub subject : Subject
  pub csr_pem : Text
  pub csr : Option PublicKey
  pub ttl : Option ℤ

abbrev seven_days : ℤ
seven_days = pos 604_800_000_000_000

abbrev pub or_seven_days : ℤ → ℤ
or_seven_days ttl = if int_eq ttl (pos 0) then seven_days else ttl

abbrev pub row_of : Draw → Subject → DeviceCert
row_of d subject = record {
  serial = hex d.serial;
  sub = subject.sub;
  username = subject.username;
  fingerprint = d.fingerprint;
  issued_at = d.now;
  expires_at = d.expires;
  revoked = false;
  revoked_at = [];
  revocation_reason = [];
}

abbrev pub after_store : ClientCertificate → Result CertDb → Result (ClientCertificate × CertDb)
after_store cert (err e) = err internal
after_store cert (ok db) = ok (cert, db)

abbrev pub after_sign : Draw → Subject → CertDb → Signed → Result (ClientCertificate × CertDb)
after_sign d subject db (refused key_not_allowed) = err invalid_input
after_sign d subject db (refused bad_request) = err internal
after_sign d subject db (signed cert) = after_store cert (store_device_cert (row_of d subject) db)

abbrev pub after_ttl :
    Draw
    → DeviceCaConfig
    → IssueDeviceCertRequest
    → CertDb
    → Result ℤ
    → Result (ClientCertificate × CertDb)
after_ttl d cfg req db (err e) = err e
after_ttl d cfg req db (ok ttl) =
    after_sign d req.subject db (sign_client_csr d req.csr req.subject ttl cfg.allowed_key_types)

-- The minimum is refused and the maximum cuts, as for the certificates of users.
unfoldable pub device_ttl :
    (parse : Text → Option ℤ) → DeviceCaConfig → (requested : Option ℤ) → Result ℤ
unfolding parse_duration_or_zero clamp_ttl
device_ttl parse cfg requested =
    clamp_ttl (parse_duration_or_zero parse cfg.min_ttl) (parse_duration_or_zero parse cfg.max_ttl)
      (chosen_ttl requested (or_seven_days (parse_duration_or_zero parse cfg.default_ttl)))

unfoldable pub issue_device_cert :
    (parse : Text → Option ℤ)
    → Draw
    → DeviceCaConfig
    → IssueDeviceCertRequest
    → CertDb
    → Result (ClientCertificate × CertDb)
unfolding device_ttl sign_client_csr store_device_cert
issue_device_cert parse d cfg req db =
    if is_empty req.csr_pem
    then err invalid_input
    else if is_empty req.subject.username
    then err invalid_input
    else after_ttl d cfg req db (device_ttl parse cfg req.ttl)
