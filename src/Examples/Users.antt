-- ===== src/Examples/Users.antt =====
-- The theorems on users, tokens and device certificates at concrete inputs.
use ztna_project.Base.{
  ◌≡◌, refl, sym, ap, inl, inr, ◌↔◌, true, false, Option, none, some, [], ◌∷◌, ◌++◌, if◌then◌else◌,
  arith, ℤ, pos, Text, codes, text_eq, is_empty, member, lookup, insert, trim_space, to_lower,
  to_upper, equal_fold, after_prefix, has_prefix, hex,
}
use ztna_project.ControlPlane.Model.{Subject, ok}
use ztna_project.ControlPlane.Policy.{match_subject}
use ztna_project.ControlPlane.Credentials.{parse_duration_or_zero}
use ztna_project.ControlPlane.DeviceCerts.{store_device_cert}
use ztna_project.ControlPlane.Tokens.{
  text, Claims, Header, Token, Jwk, Jwt, Validator, Clock, is_usable, cached_key, key_for_kid,
  refresh_jwks, validate, usable_keys, audience_matches, claim_string, claim_strings, names_in,
  subject_of,
}
use ztna_project.ControlPlane.Tokens.Keys.{Offers}
use ztna_project.ControlPlane.Tokens.Keys
use ztna_project.ControlPlane.Tokens.Rotation.{IsOnly, key_for_kid-rotated}
use ztna_project.ControlPlane.Tokens.Trusted.{IsOffered, IsValidated}
use ztna_project.ControlPlane.Users.{bearer_token, require_user, require_admin}
use ztna_project.ControlPlane.Users.Admitted.{
  IsAdmin, IsBearer, require_user-IsTrusted, require_admin_iff,
}
use ztna_project.ControlPlane.DeviceIssue.{
  ecdsa_p256, ClientCertificate, Draw, DeviceCaConfig, IssueDeviceCertRequest, issue_device_cert,
  sign_client_csr, certificate_of, row_of, check_key_type, accepts_type, key_type, device_ttl,
}
use ztna_project.ControlPlane.DeviceIssue.Handlers.{Around, DeviceCertRequest, issue}
use ztna_project.ControlPlane.DeviceIssue.Issued.{Outcome, issue_cases}
use ztna_project.System.Identity.{through_gateway, match_subject-issued}

abbrev ann : Subject
ann = record { sub = codes "u-1"; username = codes "ann"; groups = codes "admins" ∷ [] }

-- The library knows one token, which one key verifies.
abbrev ann_claims : Claims
ann_claims = record {
  std = record {
    issuer = codes "idp";
    subject = codes "u-1";
    audience = codes "ztna" ∷ [];
    expires_at = some 90;
  };
  custom = (codes "name", text (codes "ann")) ∷ (codes "groups", text (codes "admins")) ∷ [];
}

abbrev ann_token : Token
ann_token = record {
  headers = record { algorithm = codes "RS256"; key_id = codes "k2" } ∷ [];
  claims = λ key. if text_eq key (codes "public") then some ann_claims else none;
}

abbrev lab_jwt : Jwt
lab_jwt = record {
  parse_signed = λ allowed raw. if text_eq raw (codes "abc") then some ann_token else none;
  validate_std = λ issuer now std. text_eq issuer std.issuer;
}

abbrev validator : Validator
validator = record {
  issuer = codes "idp";
  audience = codes "ztna";
  username_claim = codes "name";
  groups_claim = codes "groups";
  audience_mode = codes "aud";
  allowed_algs = codes "RS256" ∷ [];
  cache_ttl = 600;
  cache = record { keys = []; expires_at = 0 };
}

abbrev new_key : Jwk
new_key = record { key_id = codes "k2"; use_for = codes "sig"; key = some (codes "public") }

abbrev at_seven : Clock
at_seven = record { now = 7; fetched_at = 8; after = 9 }

IsOnly-new_key : IsOnly (new_key ∷ []) (codes "k2") (codes "public")
IsOnly-new_key k (inl same) named usable = inr (sym (ap (λ (j : Jwk). j.key) same))
IsOnly-new_key k (inr nowhere) named usable = elim nowhere [ ]

is_usable-new_key : is_usable new_key ≡ true
unfolding text_eq
is_usable-new_key = refl

no_cached : cached_key 7 (codes "k2") validator.cache ≡ none
unfolding cached_key
no_cached = refl

named_k2 : is_empty (trim_space (codes "k2")) ≡ false
unfolding trim_space
named_k2 = refl

key_for_kid-rotated_example :
    (key_for_kid at_seven (codes "k2") (some (new_key ∷ [])) validator).1 ≡ some (codes "public")
key_for_kid-rotated_example =
    key_for_kid-rotated at_seven (codes "k2") (codes "public") (new_key ∷ []) validator named_k2
      no_cached (new_key, inl refl, refl, refl, is_usable-new_key) IsOnly-new_key (omega arith)

ann_passes :
    (require_user lab_jwt at_seven
      (some (new_key ∷ []))
      (codes "Bearer abc")
      (Keys.run [] validator)).1
    ≡ ok ann
unfolding require_user bearer_token validate key_for_kid refresh_jwks cached_key usable_keys
    subject_of claim_string claim_strings names_in audience_matches lookup insert text_eq Keys.run
    member to_upper
ann_passes = refl

require_user-IsTrusted_example :
    (raw : Text) × IsBearer (codes "Bearer abc") raw
    × ((token : Token) × (h : Header) × (key : Text) × (c : Claims) × IsOffered [] validator
          at_seven
          (some (new_key ∷ []))
          h.key_id
          key
        × IsValidated lab_jwt at_seven raw ann token h key c validator)
require_user-IsTrusted_example =
    require_user-IsTrusted lab_jwt [] validator at_seven (some (new_key ∷ [])) (codes "Bearer abc")
      ann refl ann_passes

require_admin_example :
    (require_admin (codes "admins") (some ann) ≡ ok ann)
    ↔ ((some ann ≡ some ann) × (is_empty (codes "admins") ≡ false) × IsAdmin (codes "admins") ann)
require_admin_example = require_admin_iff (codes "admins") (some ann) ann

abbrev no_durations : Text → Option ℤ
no_durations t = none

abbrev draw : Draw
draw = record {
  serial = 75;
  signed_at = 10;
  now = codes "t1";
  expires = codes "t9";
  fingerprint = codes "f";
}

abbrev ca : DeviceCaConfig
ca = record { default_ttl = []; min_ttl = []; max_ttl = []; allowed_key_types = codes "ecdsa" ∷ [] }

abbrev ann_request : IssueDeviceCertRequest
ann_request = record {
  subject = ann;
  csr_pem = codes "pem";
  csr = some ecdsa_p256;
  ttl = some (pos 60);
}

abbrev around : Around
around = record {
  is_ip = λ t. true;
  peer = record { forwarded_for = []; real_ip = []; remote_addr = codes "10.0.0.7:5000" };
  now = codes "t1";
  audit_stores = true;
}

abbrev body : DeviceCertRequest
body = record { csr_pem = codes "pem"; csr = some ecdsa_p256; ttl_seconds = some (pos 60) }

issue_example :
    Outcome no_durations around draw ca
      (some ann)
      []
      []
      (issue no_durations around draw ca (some ann) (some body) [] [])
issue_example = issue_cases no_durations around draw ca (some ann) (some body) [] []

abbrev ann_certificate : ClientCertificate
ann_certificate = certificate_of draw ann (pos 60) ecdsa_p256

ann_issued :
    issue_device_cert no_durations draw ca ann_request []
    ≡ ok (ann_certificate, (hex 75, row_of draw ann) ∷ [])
unfolding issue_device_cert device_ttl parse_duration_or_zero sign_client_csr check_key_type
    key_type accepts_type equal_fold to_lower has_prefix after_prefix text_eq store_device_cert
    lookup insert
ann_issued = refl

match_subject-issued_example :
    ((pattern : Text)
      → after_prefix (codes "sub:") pattern ≡ none
      → match_subject pattern (through_gateway ann_certificate) ≡ match_subject pattern ann)
    × ((id : Text)
        → (match_subject (codes "sub:" ++ id) (through_gateway ann_certificate) ≡ true)
          ↔ (ann.username ≡ id))
match_subject-issued_example =
    match_subject-issued no_durations draw ca ann_request [] ann_certificate
      ((hex 75, row_of draw ann) ∷ []) ann_issued
