-- ===== src/ControlPlane/Model.antt =====
-- control-plane/internal/domain/model: policies, subjects and resources.
use ztna_project.Base.{
  ◌≡◌, refl, ◌⊎◌, inl, inr, Bool, true, false, arith, Option, none, some, List, ◌∷◌, ◌++◌,
  if◌then◌else◌, ℤ, Text, codes, text_eq, format_ℤ,
}

pub record PolicyVersion : Type 0 where
  pub id : ℤ
  pub active : Bool
  pub created_at : Text
  pub created_by : Text

pub record PolicyRule : Type 0 where
  pub id : ℤ
  pub version_id : ℤ
  pub effect : Text
  pub subject_match : Text
  pub action : Text
  pub resource_type : Text
  pub resource_match : Text
  pub created_at : Text
  pub allowed_hours : Text
  pub required_device_trust : Text

pub record PolicySnapshot : Type 0 where
  pub version : PolicyVersion
  pub rules : List PolicyRule

pub record Subject : Type 0 where
  pub sub : Text
  pub username : Text
  pub groups : List Text

-- SSHResource and HTTPResource have the same fields.
pub record HostPort : Type 0 where
  pub host : Text
  pub port : ℤ

-- ResourceType is a string; a nil pointer is `none`.
pub record Resource : Type 0 where
  pub type : Text
  pub ssh : Option HostPort
  pub http : Option HostPort

abbrev pub resource_ssh : Text
resource_ssh = codes "ssh"

abbrev pub resource_http : Text
resource_http = codes "http"

abbrev pub resource_web : Text
resource_web = codes "web"

abbrev pub resource_db : Text
resource_db = codes "db"

-- `<prefix>:<host>:<port>`.
abbrev with_host_port : Text → HostPort → Text
with_host_port prefix hp = prefix ++ (b':' ∷ hp.host) ++ b':' ∷ format_ℤ hp.port

canonical_of : Text → Option HostPort → Text
canonical_of prefix none = prefix ++ codes ":unknown"
canonical_of prefix (some hp) = with_host_port prefix hp

unfoldable pub canonical : Resource → Text
unfolding canonical_of
canonical r =
    if text_eq r.type resource_ssh
    then canonical_of (codes "ssh") r.ssh
    else if text_eq r.type resource_http
    then canonical_of (codes "http") r.http
    else codes "unknown"

pub data DecisionEffect : Type 0 where
  allow deny : DecisionEffect

pub record Decision : Type 0 where
  pub effect : DecisionEffect
  pub reason : Text
  pub ttl_seconds : ℤ
  pub policy_version : ℤ
  pub decision_id : Text

-- domain/errors, and every other error of a library or of the database.
pub data Error : Type 0 where
  unauthorized forbidden invalid_input not_found conflict internal : Error

pub data Result {ℓ} (A : Type ℓ) : Type ℓ where
  ok : A → Result A
  err : Error → Result A

pub Result-cases {ℓ} :
    {A : Type ℓ} (r : Result A) → ((a : A) × (r ≡ ok a)) ⊎ ((e : Error) × (r ≡ err e))
Result-cases (ok a) = inl (a, refl)
Result-cases (err e) = inr (e, refl)

-- A value of a decoded JSON object, so far as the program looks into it.
pub data JsonValue : Type 0 where
  text : Text → JsonValue
  other : JsonValue

-- What a result without an error says of the guard before it.
pub past_guard :
    {A : Type 0} (failing : Bool) (problem : Error) (rest : Result A) (value : A)
    → (if failing then err problem else rest) ≡ ok value
    → (failing ≡ false) × (rest ≡ ok value)
past_guard true problem rest value e = ground (arith, e)
past_guard false problem rest value e = (refl, e)

pub ok-injective : {A : Type 0} {x y : A} → ok x ≡ ok y → x ≡ y
ok-injective e = ground (arith, e)
