-- ===== src/ControlPlane/Credentials.antt =====
-- control-plane/internal/service/credentials/service.go: the issue of an SSH certificate, with the
-- TTL rule that device_cert.go shares. Arguments are the parser of durations (nanoseconds) and the
-- outcome of parsing the public key; the signature and the table of users are left out.
pub mod Principals
pub mod Lifetime
use ztna_project.Base.{
  ℕ, zero, suc, ◌-◌, Bool, true, false, not, ◌&&◌, ◌||◌, Option, none, some, List, [], ◌∷◌, ◌++◌,
  ltb, leb, if◌then◌else◌, ℤ, pos, negsuc, is_positive, Text, codes, is_empty, length, trim_space,
  has_prefix, member, map,
}
use ztna_project.ControlPlane.Model.{Subject, Error, invalid_input, internal, Result, ok, err}

-- strings.ReplaceAll for a text that is not empty; `skip` bytes belong to the last occurrence.
unfoldable replace_from : (skip : ℕ) → (old new : Text) → Text → Text
replace_from skip old new [] = []
replace_from zero old new (c ∷ s) =
    let found = has_prefix (c ∷ s) old in
    let rest = replace_from (if found then length old - 1 else zero) old new s in
    if found then new ++ rest else c ∷ rest
replace_from (suc skip) old new (c ∷ s) = replace_from skip old new s

abbrev expand : Subject → Text → Text
expand subject raw = trim_space (
    replace_from zero (codes "${sub}") subject.sub
      (replace_from zero (codes "${username}") subject.username raw))

abbrev cons_filled : Text → List Text → List Text
cons_filled t ts = if is_empty t then ts else t ∷ ts

unfoldable pub resolve_principals : (allowed : List Text) → Subject → List Text
unfolding replace_from
resolve_principals [] subject = []
resolve_principals (raw ∷ allowed) subject =
    cons_filled (expand subject raw) (resolve_principals allowed subject)

abbrev pub is_skipped : (allowed seen : List Text) → Text → Bool
is_skipped allowed seen t = is_empty t || not (member t allowed) || member t seen

-- The loop over the requested names: blank, forbidden and repeated ones are passed over.
unfoldable pub filter_requested : (allowed seen : List Text) → List Text → List Text
filter_requested allowed seen [] = []
filter_requested allowed seen (value ∷ values) =
    let t = trim_space value in
    let skipped = is_skipped allowed seen t in
    let rest = filter_requested allowed (if skipped then seen else t ∷ seen) values in
    if skipped then rest else t ∷ rest

abbrev pub first_of : List Text → Result (List Text)
first_of [] = err internal
first_of (a ∷ allowed) = ok (a ∷ [])

-- Without a request: the user's own name, if it is allowed, else the first of the allowed names.
-- The code would panic on an empty list, which the only caller excludes.
abbrev pub default_principals : (allowed : List Text) → (username : Text) → Result (List Text)
default_principals allowed username =
    if not (is_empty username) && member username allowed
    then ok (username ∷ [])
    else first_of allowed

unfoldable pub resolve_requested_principals :
    (requested allowed : List Text) → (username : Text) → Result (List Text)
unfolding filter_requested
resolve_requested_principals requested allowed username =
    let filtered = filter_requested allowed [] requested in
    if is_empty requested
    then default_principals allowed username
    else if is_empty filtered
    then err invalid_input
    else if not (is_empty username) && member username allowed && not (member username filtered)
    then err invalid_input
    else ok filtered

abbrev pub int_ltb : ℤ → ℤ → Bool
int_ltb (pos m) (pos n) = ltb m n
int_ltb (pos m) (negsuc n) = false
int_ltb (negsuc m) (pos n) = true
int_ltb (negsuc m) (negsuc n) = ltb n m

abbrev zero_unless : Option ℤ → ℤ
zero_unless none = pos 0
zero_unless (some d) = d

unfoldable pub parse_duration_or_zero : (parse : Text → Option ℤ) → Text → ℤ
parse_duration_or_zero parse raw = if is_empty raw then pos 0 else zero_unless (parse raw)

-- A lifetime below the minimum is refused, one above the maximum is cut; a bound that is not
-- positive is none.
unfoldable pub clamp_ttl : (min max ttl : ℤ) → Result ℤ
clamp_ttl min max ttl =
    if is_positive min && int_ltb ttl min
    then err invalid_input
    else ok (if is_positive max && int_ltb max ttl then max else ttl)

pub record SshCaConfig : Type 0 where
  pub default_ttl : Text
  pub min_ttl : Text
  pub max_ttl : Text
  pub allowed_principals : List Text

pub record IssueRequest : Type 0 where
  pub subject : Subject
  pub ttl : Option ℤ
  pub principals : List Text

-- What is signed: the names, the lifetime and the key's identifier.
pub record SshCert : Type 0 where
  pub principals : List Text
  pub ttl : ℤ
  pub key_id : Text

abbrev pub chosen_ttl : Option ℤ → ℤ → ℤ
chosen_ttl none default = default
chosen_ttl (some ttl) default = ttl

abbrev pub with_principals : Subject → ℤ → Result (List Text) → Result SshCert
with_principals subject ttl (err e) = err e
with_principals subject ttl (ok names) = ok (record {
  principals = names;
  ttl = ttl;
  key_id = if is_empty subject.sub then subject.username else subject.sub;
})

abbrev pub with_ttl : SshCaConfig → IssueRequest → Result ℤ → Result SshCert
with_ttl cfg req (err e) = err e
with_ttl cfg req (ok ttl) =
    let allowed = resolve_principals cfg.allowed_principals req.subject in
    if is_empty allowed
    then err invalid_input
    else with_principals req.subject ttl
        (resolve_requested_principals req.principals allowed req.subject.username)

abbrev pub with_default :
    (parse : Text → Option ℤ) → SshCaConfig → IssueRequest → Option ℤ → Result SshCert
with_default parse cfg req none = err internal
with_default parse cfg req (some default) = with_ttl cfg req (
    clamp_ttl (parse_duration_or_zero parse cfg.min_ttl) (parse_duration_or_zero parse cfg.max_ttl)
      (chosen_ttl req.ttl default))

-- `is_key` is true where ParseAuthorizedKey accepts the public key.
unfoldable pub issue_ssh_cert :
    (parse : Text → Option ℤ) → (is_key : Bool) → SshCaConfig → IssueRequest → Result SshCert
unfolding resolve_principals resolve_requested_principals clamp_ttl parse_duration_or_zero
issue_ssh_cert parse is_key cfg req =
    if not is_key then err internal else with_default parse cfg req (parse cfg.default_ttl)
