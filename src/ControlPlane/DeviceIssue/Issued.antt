-- ===== src/ControlPlane/DeviceIssue/Issued.antt =====
-- What a device certificate that is issued says, and what is kept of it.
use mathlib.Core.Path.{subst}
use ztna_project.Base.{
  ◌≡◌, refl, ap, ◌⊎◌, inl, inr, true, false, ◌&&◌, Option, none, some, List, [], ◌∷◌, ◌++◌, arith,
  Bool-cases, Option-cases, ℤ, Text, codes, is_empty, equal_fold, has_prefix, hex, lookup, insert,
  IsIn,
}
use ztna_project.ControlPlane.Model.{
  Subject, Error, invalid_input, internal, unauthorized, Result, ok, err, past_guard, ok-injective,
}
use ztna_project.ControlPlane.Authorize.{AuditEvent, append_event}
use ztna_project.ControlPlane.Credentials.{parse_duration_or_zero, chosen_ttl}
use ztna_project.ControlPlane.Credentials.Lifetime.{IsGranted, clamp_ttl_lem}
use ztna_project.ControlPlane.DeviceCerts.{DeviceCert, CertDb, store_device_cert}
use ztna_project.ControlPlane.DeviceIssue.{
  PublicKey, key_type, accepts_type, check_key_type, ClientCertificate, Signed, signed, refused,
  key_not_allowed, bad_request, Draw, certificate_of, sign_client_csr, DeviceCaConfig,
  IssueDeviceCertRequest, or_seven_days, row_of, after_store, after_sign, after_ttl, device_ttl,
  issue_device_cert,
}
use ztna_project.ControlPlane.DeviceIssue.Handlers.{
  DeviceCertRequest, Answered, Around, event_of, after_issue, with_lifetime, asked, issue,
}

-- The configuration names no type, or one that the key has, or the family of its curve.
abbrev IsAllowedKey : List Text → PublicKey → Type 0
IsAllowedKey allowed key =
    (is_empty allowed ≡ true)
    ⊎ ((a : Text) × IsIn a allowed
        × ((equal_fold a (key_type key) ≡ true)
            ⊎ ((equal_fold a (codes "ecdsa") ≡ true)
                × (has_prefix (key_type key) (codes "ecdsa") ≡ true))))

accepts_type-some :
    (got : Text) (allowed : List Text)
    → accepts_type got allowed ≡ true
    → (a : Text) × IsIn a allowed
      × ((equal_fold a got ≡ true)
          ⊎ ((equal_fold a (codes "ecdsa") ≡ true) × (has_prefix got (codes "ecdsa") ≡ true)))
unfolding accepts_type
accepts_type-some got [] e = ground (arith, e)
accepts_type-some got (a ∷ allowed) e = elim (Bool-cases (equal_fold a got)) [
  | inl same ↦ (a, inl refl, inl same)
  | inr differs ↦
      elim (Bool-cases (equal_fold a (codes "ecdsa") && has_prefix got (codes "ecdsa"))) [
        | inl family ↦ (a, inl refl, inr (ground (arith, family), ground (arith, family)))
        | inr apart ↦
            let (b, among, fits) =
              accepts_type-some got allowed (ground (arith, e, differs, apart)) in
            (b, inr among, fits)
      ]
]

check_key_type-IsAllowedKey :
    (key : PublicKey) (allowed : List Text)
    → check_key_type key allowed ≡ true
    → IsAllowedKey allowed key
unfolding check_key_type
check_key_type-IsAllowedKey key allowed e = elim (Bool-cases (is_empty allowed)) [
  | inl any ↦ inl any
  | inr listed ↦ inr (accepts_type-some (key_type key) allowed (ground (arith, e, listed)))
]

-- A certificate in the name of the user, for an allowed key, with a lifetime within the bounds of
-- the configuration, and stored under a serial number that was new.
abbrev IsProper :
    (parse : Text → Option ℤ)
    → Draw
    → DeviceCaConfig
    → Subject
    → (ttl : Option ℤ) → CertDb
    → ClientCertificate
    → CertDb
    → Type 0
IsProper parse d cfg subject ttl db cert db' =
    (cert.common_name ≡ subject.username)
    × (cert.serial_number ≡ subject.sub)
    × (cert.organization ≡ subject.groups)
    × (cert.serial ≡ d.serial)
    × IsAllowedKey cfg.allowed_key_types cert.public_key
    × IsGranted (parse_duration_or_zero parse cfg.min_ttl)
        (parse_duration_or_zero parse cfg.max_ttl)
        (chosen_ttl ttl (or_seven_days (parse_duration_or_zero parse cfg.default_ttl))) cert.ttl
    × (lookup (hex d.serial) db ≡ none)
    × (insert (hex d.serial) (row_of d subject) db ≡ db')

store_device_cert-ok :
    (cert : DeviceCert) (db db' : CertDb)
    → store_device_cert cert db ≡ ok db'
    → (lookup cert.serial db ≡ none)
      × (insert cert.serial
            (record cert { revoked = false; revoked_at = []; revocation_reason = [] })
            db
          ≡ db')
unfolding store_device_cert
store_device_cert-ok cert db db' e = elim (Option-cases (lookup cert.serial db)) [
  | inl unseen ↦ (unseen, ok-injective (rw (unseen, store_device_cert) at e))
  | inr (old, found) ↦
      let clash : err internal ≡ ok db' = rw (found, store_device_cert) at e in
      ground (arith, clash)
]

after_store-ok :
    (cert cert' : ClientCertificate) (r : Result CertDb) (db' : CertDb)
    → after_store cert r ≡ ok (cert', db')
    → (cert ≡ cert') × (r ≡ ok db')
after_store-ok cert cert' (err e) db' h = ground (arith, h)
after_store-ok cert cert' (ok db) db' h =
    let same = ok-injective h in (ap (λ p. p.0) same, ap (λ p. ok p.1) same)

after_sign-ok :
    (d : Draw) (subject : Subject) (db : CertDb) (s : Signed) (cert : ClientCertificate)
    (db' : CertDb)
    → after_sign d subject db s ≡ ok (cert, db')
    → (s ≡ signed cert) × (store_device_cert (row_of d subject) db ≡ ok db')
after_sign-ok d subject db (refused key_not_allowed) cert db' h = ground (arith, h)
after_sign-ok d subject db (refused bad_request) cert db' h = ground (arith, h)
after_sign-ok d subject db (signed made) cert db' h =
    let (same, stored) = after_store-ok made cert (store_device_cert (row_of d subject) db) db' h in
    (ap signed same, stored)

sign_client_csr-signed :
    (d : Draw) (csr : Option PublicKey) (subject : Subject) (ttl : ℤ) (allowed : List Text)
    (cert : ClientCertificate)
    → sign_client_csr d csr subject ttl allowed ≡ signed cert
    → (key : PublicKey) × IsAllowedKey allowed key × (certificate_of d subject ttl key ≡ cert)
unfolding sign_client_csr
sign_client_csr-signed d none subject ttl allowed cert e = ground (arith, e)
sign_client_csr-signed d (some key) subject ttl allowed cert e =
    elim (Bool-cases (check_key_type key allowed)) [
      | inl fits ↦
          let same : signed (certificate_of d subject ttl key) ≡ signed cert =
            rw (fits, sign_client_csr) at e in
          (key, check_key_type-IsAllowedKey key allowed fits, ground (arith, same))
      | inr unfit ↦
          let clash : refused key_not_allowed ≡ signed cert = rw (unfit, sign_client_csr) at e in
          ground (arith, clash)
    ]

after_ttl-IsProper :
    (parse : Text → Option ℤ) (d : Draw) (cfg : DeviceCaConfig) (req : IssueDeviceCertRequest)
    (db : CertDb) (r : Result ℤ) (cert : ClientCertificate) (db' : CertDb)
    → device_ttl parse cfg req.ttl ≡ r
    → after_ttl d cfg req db r ≡ ok (cert, db')
    → IsProper parse d cfg req.subject req.ttl db cert db'
unfolding device_ttl
after_ttl-IsProper parse d cfg req db (err e) cert db' granted h = ground (arith, h)
after_ttl-IsProper parse d cfg req db (ok ttl) cert db' granted h =
    let (made, stored) = after_sign-ok d req.subject db _ cert db' h in
    let (key, allowed, same) =
      sign_client_csr-signed d req.csr req.subject ttl cfg.allowed_key_types cert made in
    let (unseen, wrote) = store_device_cert-ok (row_of d req.subject) db db' stored in
    let lifetime = clamp_ttl_lem _ _ _ ttl granted in
    subst (λ c. IsProper parse d cfg req.subject req.ttl db c db') same
      (refl, refl, refl, refl, allowed, lifetime, unseen, wrote)

-- A certificate that is issued is proper, and the request came with a signing request and a name.
pub issue_device_cert-IsProper :
    (parse : Text → Option ℤ) (d : Draw) (cfg : DeviceCaConfig) (req : IssueDeviceCertRequest)
    (db : CertDb) (cert : ClientCertificate) (db' : CertDb)
    → issue_device_cert parse d cfg req db ≡ ok (cert, db')
    → (is_empty req.subject.username ≡ false) × IsProper parse d cfg req.subject req.ttl db cert db'
unfolding issue_device_cert
issue_device_cert-IsProper parse d cfg req db cert db' e =
    let (_, e1) = past_guard (is_empty req.csr_pem) invalid_input _ _ e in
    let (named, e2) = past_guard (is_empty req.subject.username) invalid_input _ _ e1 in
    (named, after_ttl-IsProper parse d cfg req db _ cert db' refl e2)

-- Both ways in which a call ends.
abbrev pub Outcome :
    (parse : Text → Option ℤ)
    → Around
    → Draw
    → DeviceCaConfig
    → Option Subject
    → CertDb
    → List AuditEvent
    → Answered
    → Type 0
Outcome parse w d cfg user db events answer =
    ((e : Error) × (answer ≡ (err e, db, events)))
    ⊎ ((subject : Subject) × (ttl : Option ℤ) × (cert : ClientCertificate) × (db' : CertDb) × (user
          ≡ some subject)
        × (is_empty subject.username ≡ false)
        × IsProper parse d cfg subject ttl db cert db'
        × (answer ≡ (
          ok cert,
          db',
          append_event w.now w.audit_stores
              (event_of w subject (codes "issue_device_cert")
                (codes "device_cert:" ++ hex cert.serial) (codes "issued"))
              events,
        )))

after_issue-Outcome :
    (parse : Text → Option ℤ) (w : Around) (d : Draw) (cfg : DeviceCaConfig)
    (req : IssueDeviceCertRequest) (db : CertDb) (events : List AuditEvent)
    (r : Result (ClientCertificate × CertDb))
    → issue_device_cert parse d cfg req db ≡ r
    → Outcome parse w d cfg (some req.subject) db events (after_issue w req.subject db events r)
after_issue-Outcome parse w d cfg req db events (err e) made = inl (e, refl)
after_issue-Outcome parse w d cfg req db events (ok (cert, db')) made =
    let (named, proper) = issue_device_cert-IsProper parse d cfg req db cert db' made in
    inr (req.subject, req.ttl, cert, db', refl, named, proper, refl)

with_lifetime-Outcome :
    (parse : Text → Option ℤ) (w : Around) (d : Draw) (cfg : DeviceCaConfig) (subject : Subject)
    (req : DeviceCertRequest) (db : CertDb) (events : List AuditEvent) (o : Option (Option ℤ))
    → Outcome parse w d cfg
        (some subject)
        db
        events
        (with_lifetime parse w d cfg subject req db events o)
with_lifetime-Outcome parse w d cfg subject req db events none = inl (invalid_input, refl)
with_lifetime-Outcome parse w d cfg subject req db events (some ttl) =
    after_issue-Outcome parse w d cfg
      (record { subject = subject; csr_pem = req.csr_pem; csr = req.csr; ttl = ttl }) db events _
      refl

-- A request for a device certificate ends in one of two ways. Either it answers with an error, and
-- the table and the audit are as they were; or it answers an authenticated user who has a name, with
-- a certificate in this name, with this user's subject and groups, for a key of an allowed type and
-- with a lifetime within the configured bounds, and then a row under its serial number, which was
-- new, joins the table, and the issue joins the audit when the database takes it.
pub issue_cases :
    (parse : Text → Option ℤ) (w : Around) (d : Draw) (cfg : DeviceCaConfig) (user : Option Subject)
    (body : Option DeviceCertRequest) (db : CertDb) (events : List AuditEvent)
    → Outcome parse w d cfg user db events (issue parse w d cfg user body db events)
unfolding issue
issue_cases parse w d cfg none body db events = inl (unauthorized, refl)
issue_cases parse w d cfg (some subject) none db events = inl (invalid_input, refl)
issue_cases parse w d cfg (some subject) (some req) db events =
    elim (Bool-cases (is_empty req.csr_pem)) [
      | inl empty ↦ inl (invalid_input, rw (empty, issue) refl)
      | inr filled ↦
          rw (filled, issue)
            (with_lifetime-Outcome parse w d cfg subject req db events (asked req.ttl_seconds))
    ]
