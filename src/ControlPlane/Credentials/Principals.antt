-- ===== src/ControlPlane/Credentials/Principals.antt =====
-- The names that a certificate may carry.
use mathlib.Core.Path.{subst}
use ztna_project.Base.{
  ◌≡◌, refl, ap, sym, inl, inr, Bool, true, false, not, ◌&&◌, Option, none, some, List, [], ◌∷◌,
  arith, Bool-cases, Text, text_eq_refl, is_empty, trim_space, member, All, ℤ,
}
use ztna_project.ControlPlane.Model.{
  Subject, invalid_input, internal, Result, ok, err, past_guard, ok-injective,
}
use ztna_project.ControlPlane.Credentials.{
  filter_requested, is_skipped, first_of, clamp_ttl, parse_duration_or_zero, chosen_ttl,
  default_principals, resolve_requested_principals, resolve_principals, SshCaConfig, IssueRequest,
  SshCert, with_principals, with_ttl, with_default, issue_ssh_cert,
}

abbrev IsAllowed : List Text → Text → Type 0
IsAllowed allowed t = member t allowed ≡ true

is_skipped-false :
    (allowed seen : List Text) (t : Text)
    → is_skipped allowed seen t ≡ false
    → member t allowed ≡ true
is_skipped-false allowed seen t h = ground (arith, h)

filter_requested-All :
    (allowed seen values : List Text)
    → All (IsAllowed allowed) (filter_requested allowed seen values)
unfolding filter_requested
filter_requested-All allowed seen [] = tt
filter_requested-All allowed seen (value ∷ values) =
    elim (Bool-cases (is_skipped allowed seen (trim_space value))) [
      | inl skipped ↦ rw (skipped, filter_requested) (filter_requested-All allowed seen values)
      | inr kept ↦
          rw (kept, filter_requested)
            (
              is_skipped-false allowed seen (trim_space value) kept,
              filter_requested-All allowed (trim_space value ∷ seen) values,
            )
    ]

-- Names that may all be signed, and at least one.
abbrev pub AreAllowed : List Text → List Text → Type 0
AreAllowed allowed names = All (IsAllowed allowed) names × (is_empty names ≡ false)

first_of-AreAllowed :
    (allowed names : List Text) → first_of allowed ≡ ok names → AreAllowed allowed names
unfolding member
first_of-AreAllowed [] names e = ground (arith, e)
first_of-AreAllowed (a ∷ allowed) names e =
    subst (AreAllowed (a ∷ allowed)) (ok-injective e) ((ground (arith, text_eq_refl a), tt), refl)

default_principals-AreAllowed :
    (allowed : List Text) (username : Text) (names : List Text)
    → default_principals allowed username ≡ ok names
    → AreAllowed allowed names
default_principals-AreAllowed allowed username names e =
    elim (Bool-cases (not (is_empty username) && member username allowed)) [
      | inl own ↦
          let same : ok (username ∷ []) ≡ ok names = rw own at e in
          subst (AreAllowed allowed) (ok-injective same) ((ground (arith, own), tt), refl)
      | inr foreign ↦
          let rest : first_of allowed ≡ ok names = rw foreign at e in
          first_of-AreAllowed allowed names rest
    ]

resolve_requested_principals-AreAllowed :
    (requested allowed : List Text) (username : Text) (names : List Text)
    → resolve_requested_principals requested allowed username ≡ ok names
    → AreAllowed allowed names
unfolding resolve_requested_principals
resolve_requested_principals-AreAllowed [] allowed username names e =
    default_principals-AreAllowed allowed username names e
resolve_requested_principals-AreAllowed (r ∷ requested) allowed username names e =
    let (some_left, e1) =
      past_guard (is_empty (filter_requested allowed [] (r ∷ requested))) invalid_input _ _ e in
    let (_, e2) =
      past_guard
        (not (is_empty username)
          && member username allowed
          && not (member username (filter_requested allowed [] (r ∷ requested))))
        invalid_input _ _ e1 in
    subst (AreAllowed allowed) (ok-injective e2)
      (filter_requested-All allowed [] (r ∷ requested), some_left)

with_principals-ok :
    (subject : Subject) (ttl : ℤ) (r : Result (List Text)) (cert : SshCert)
    → with_principals subject ttl r ≡ ok cert
    → (r ≡ ok cert.principals) × (cert.ttl ≡ ttl)
with_principals-ok subject ttl (err x) cert e = ground (arith, e)
with_principals-ok subject ttl (ok names) cert e =
    let same = ok-injective e in (ap (λ c. ok c.principals) same, ap (λ c. c.ttl) (sym same))

with_ttl-ok :
    (cfg : SshCaConfig) (req : IssueRequest) (t : Result ℤ) (cert : SshCert)
    → with_ttl cfg req t ≡ ok cert
    → (t ≡ ok cert.ttl)
      × AreAllowed (resolve_principals cfg.allowed_principals req.subject) cert.principals
with_ttl-ok cfg req (err x) cert e = ground (arith, e)
with_ttl-ok cfg req (ok ttl) cert e =
    let (_, e1) =
      past_guard (is_empty (resolve_principals cfg.allowed_principals req.subject)) invalid_input _
        _ e in
    let (names, same) = with_principals-ok req.subject ttl _ cert e1 in
    (
      ap ok (sym same),
      resolve_requested_principals-AreAllowed req.principals
          (resolve_principals cfg.allowed_principals req.subject) req.subject.username
          cert.principals names,
    )

with_default-ok :
    (parse : Text → Option ℤ) (cfg : SshCaConfig) (req : IssueRequest) (o : Option ℤ)
    (cert : SshCert)
    → with_default parse cfg req o ≡ ok cert
    → (default : ℤ) × (o ≡ some default)
      × (clamp_ttl
            (parse_duration_or_zero parse cfg.min_ttl)
            (parse_duration_or_zero parse cfg.max_ttl)
            (chosen_ttl req.ttl default)
          ≡ ok cert.ttl)
      × AreAllowed (resolve_principals cfg.allowed_principals req.subject) cert.principals
with_default-ok parse cfg req none cert e = ground (arith, e)
with_default-ok parse cfg req (some default) cert e =
    let (ttl, names) = with_ttl-ok cfg req _ cert e in (default, refl, ttl, names)

-- A certificate is signed only for names that the configuration allows to its subject, for at least
-- one, and with the lifetime that the rule makes of the requested one, or of the default.
pub issue_ssh_cert-AreAllowed :
    (parse : Text → Option ℤ) (is_key : Bool) (cfg : SshCaConfig) (req : IssueRequest)
    (cert : SshCert)
    → issue_ssh_cert parse is_key cfg req ≡ ok cert
    → AreAllowed (resolve_principals cfg.allowed_principals req.subject) cert.principals
      × ((default : ℤ) × (parse cfg.default_ttl ≡ some default)
          × (clamp_ttl
                (parse_duration_or_zero parse cfg.min_ttl)
                (parse_duration_or_zero parse cfg.max_ttl)
                (chosen_ttl req.ttl default)
              ≡ ok cert.ttl))
unfolding issue_ssh_cert
issue_ssh_cert-AreAllowed parse is_key cfg req cert e =
    let (_, e1) = past_guard (not is_key) internal _ _ e in
    let (default, found, ttl, names) =
      with_default-ok parse cfg req (parse cfg.default_ttl) cert e1 in
    (names, (default, found, ttl))
