-- ===== src/ControlPlane/Requests.antt =====
-- Requests for a decision: in control-plane/internal/api/handlers, the messages and checks of
-- pep_authorize.go, and audit_helpers.go. net.ParseIP is an argument.
use ztna_project.Base.{
  Bool, not, ◌&&◌, ◌||◌, Option, none, some, List, [], ◌∷◌, ◌++◌, if◌then◌else◌, ℤ, is_positive,
  Text, codes, text_eq, to_lower, trim_space, is_empty, lookup, until, split_host_port,
}
use ztna_project.ControlPlane.Model.{
  Subject, HostPort, Resource, resource_ssh, resource_http, resource_web, resource_db,
  invalid_input, Result, ok, err, JsonValue,
}
use ztna_project.ControlPlane.Policy.{text_of}

pub record ResourceRequest : Type 0 where
  pub type : Text
  pub name : Text
  pub host : Text
  pub port : ℤ
  pub ssh : Option HostPort
  pub http : Option HostPort

pub record AuthorizeRequest : Type 0 where
  pub subject : Subject
  pub action : Text
  pub resource : ResourceRequest
  pub context : List (Text × JsonValue)

-- The part of the request that the type of the resource selects.
unfoldable pub typed_part : ResourceRequest → Option HostPort
typed_part r =
    if text_eq (to_lower r.type) resource_ssh
    then r.ssh
    else if text_eq (to_lower r.type) resource_http
    then r.http
    else none

abbrev pub host_or : Text → Option HostPort → Text
host_or host none = host
host_or host (some part) = if is_empty part.host then host else part.host

unfoldable pub resolved_host : ResourceRequest → Text
unfolding typed_part
resolved_host r = host_or r.host (typed_part r)

abbrev pub port_or : ℤ → Option HostPort → ℤ
port_or port none = port
port_or port (some part) = if is_positive part.port then part.port else port

unfoldable pub resolved_port : ResourceRequest → ℤ
unfolding typed_part
resolved_port r = port_or r.port (typed_part r)

unfoldable pub is_known_type : Text → Bool
is_known_type t =
    text_eq t resource_ssh
    || text_eq t resource_http
    || text_eq t resource_web
    || text_eq t resource_db

unfoldable pub subject_of : AuthorizeRequest → Subject
subject_of req =
    if is_empty req.subject.username
    then record req.subject { username = req.subject.sub }
    else req.subject

unfoldable pub resource_of : ResourceRequest → Resource
unfolding resolved_host resolved_port
resource_of r =
    let t = to_lower r.type in
    let part : HostPort = record { host = resolved_host r; port = resolved_port r } in
    if text_eq t resource_http || text_eq t resource_web
    then record { type = t; ssh = none; http = some part }
    else record { type = t; ssh = some part; http = none }

-- The checks of the request, and what it asks for.
unfoldable pub validate_request : AuthorizeRequest → Result (Subject × Resource)
unfolding resource_of subject_of resolved_host resolved_port is_known_type
validate_request req =
    if is_empty req.action || is_empty req.resource.type
    then err invalid_input
    else if is_empty req.subject.username && is_empty req.subject.sub
    then err invalid_input
    else if not (is_known_type (to_lower req.resource.type))
    then err invalid_input
    else if is_empty (trim_space (resolved_host req.resource))
        || not (is_positive (resolved_port req.resource))
    then err invalid_input
    else ok (subject_of req, resource_of req.resource)

-- Of the HTTP request: two headers, empty where they are absent, and the address of the peer.
pub record Peer : Type 0 where
  pub forwarded_for : Text
  pub real_ip : Text
  pub remote_addr : Text

abbrev pub checked_ip : (Text → Bool) → Option Text → Text
checked_ip is_ip none = []
checked_ip is_ip (some value) =
    let v = trim_space value in if is_empty v then [] else if is_ip v then v else []

unfoldable pub extract_context_ip : (is_ip : Text → Bool) → List (Text × JsonValue) → Text
extract_context_ip is_ip ctx = checked_ip is_ip (text_of (lookup (codes "src_ip") ctx))

abbrev pub remote_ip : (Text → Bool) → Text → Option (Text × Text) → Text
remote_ip is_ip addr none = if is_ip addr then addr else []
remote_ip is_ip addr (some (host, port)) =
    if is_ip host then host else if is_ip addr then addr else []

unfoldable pub extract_remote_ip : (is_ip : Text → Bool) → Peer → Text
extract_remote_ip is_ip p =
    let first = trim_space (until b',' p.forwarded_for) in
    let real = trim_space p.real_ip in
    if not (is_empty p.forwarded_for) && is_ip first
    then first
    else if not (is_empty real) && is_ip real
    then real
    else remote_ip is_ip p.remote_addr (split_host_port (trim_space p.remote_addr))

unfoldable pub format_subject_for_audit : Subject → Text
format_subject_for_audit s =
    if is_empty s.username && is_empty s.sub
    then []
    else if is_empty s.username
    then s.sub
    else if is_empty s.sub
    then s.username
    else s.username ++ b'|' ∷ s.sub
