-- ===== src/Client.antt =====
-- The client: client/internal/core/domain/model.go, client/internal/infra/storage/resource_catalog.go,
-- ParseResource of client/internal/infra/tunnel/protocol.go, Connect of
-- client/internal/infra/tunnel/tunnel.go and client/internal/usecase/connect/service.go. The file of
-- resources, net/url, the certificate's files, TLS and the gateway's answer are arguments.
pub mod Sent
pub mod Login
pub mod Config
use ztna_project.Base.{
  ℕ, Bool, true, false, not, ◌&&◌, ◌||◌, Option, none, some, List, [], ◌∷◌, ◌++◌, leb,
  if◌then◌else◌, ℤ, pos, negsuc, Text, codes, text_eq, is_empty, trim_space, to_lower, atoi,
  format_ℤ, lookup, after_prefix, split_host_port,
}

pub record ResourceRef : Type 0 where
  pub type : Text
  pub host : Text
  pub port : ℤ
  pub name : Text

abbrev is_valid_port : ℤ → Bool
is_valid_port (negsuc n) = false
is_valid_port (pos n) = leb 1 n && leb n 65535

-- Validate of a ResourceRef.
unfoldable pub is_valid : ResourceRef → Bool
is_valid r = not (is_empty r.host) && (is_valid_port r.port && not (is_empty r.type))

-- The errors of the client, one for each place.
pub data ClientError : Type 0 where
  invalid_config invalid_uri invalid_port no_catalog unknown_resource no_certificate : ClientError
  tls_error gateway_unreachable exchange_failed : ClientError
  connection_denied : (reason decision_id : Text) → ClientError

pub data Outcome {ℓ} (A : Type ℓ) : Type ℓ where
  done : A → Outcome A
  failed : ClientError → Outcome A

abbrev cons_to_first : ℕ → Option (Text × Text) → Option (Text × Text)
cons_to_first c none = none
cons_to_first c (some (s, t)) = some (c ∷ s, t)

-- `strings.SplitN(raw, "://", 2)`, `none` where the separator is not there.
unfoldable pub split_scheme : Text → Option (Text × Text)
unfolding after_prefix
split_scheme [] = none
split_scheme (c ∷ s) =
    let rest = cons_to_first c (split_scheme s) in
    elim (after_prefix (codes "://") (c ∷ s)) [ none ↦ rest | some after ↦ some ([], after) ]

abbrev ref_of : (type host name : Text) → Option ℤ → Outcome ResourceRef
ref_of type host name none = failed invalid_port
ref_of type host name (some port) =
    done (record { type = type; host = host; port = port; name = name })

abbrev pub validated : ClientError → Outcome ResourceRef → Outcome ResourceRef
validated problem (failed e) = failed e
validated problem (done r) = if is_valid r then done r else failed problem

abbrev endpoint_of : (type raw : Text) → Option (Text × Text) → Outcome ResourceRef
endpoint_of type raw none = failed invalid_uri
endpoint_of type raw (some (host, port)) =
    validated invalid_config (ref_of type host raw (atoi port))

-- parseURIResource, for the two parts of the text.
unfoldable pub parse_uri_resource : (raw scheme rest : Text) → Outcome ResourceRef
unfolding is_valid to_lower trim_space atoi split_host_port
parse_uri_resource raw scheme rest =
    let type = to_lower (trim_space scheme) in
    if is_empty type then failed invalid_uri else endpoint_of type raw (split_host_port rest)

abbrev pub Catalog : Type 0
Catalog = List (Text × ResourceRef)

abbrev pub named_of : (name : Text) → Option ResourceRef → Outcome ResourceRef
named_of name none = failed unknown_resource
named_of name (some r) =
    if is_valid r
    then done (record r { name = if is_empty r.name then name else r.name })
    else failed invalid_config

abbrev in_catalog : (name : Text) → Option Catalog → Outcome ResourceRef
in_catalog name none = failed no_catalog
in_catalog name (some catalog) = named_of name (lookup name catalog)

abbrev pub address_or_name :
    (name : Text) → Option Catalog → Option (Text × Text) → Outcome ResourceRef
address_or_name name catalog none = in_catalog name catalog
address_or_name name catalog (some (host, port)) = ref_of (codes "tcp") host name (atoi port)

abbrev pub uri_or_other :
    (name : Text) → Option Catalog → Option (Text × Text) → Outcome ResourceRef
uri_or_other name catalog (some (scheme, rest)) = parse_uri_resource name scheme rest
uri_or_other name catalog none = address_or_name name catalog (split_host_port name)

-- Resolve: a URI, an address, or a name of the file, which is `none` where it cannot be read.
unfoldable pub resolve : (name : Text) → Option Catalog → Outcome ResourceRef
unfolding split_scheme parse_uri_resource is_valid atoi split_host_port
resolve name catalog =
    if is_empty name then failed invalid_config else uri_or_other name catalog (split_scheme name)

unfoldable pub format_resource : ResourceRef → Text
format_resource r =
    if is_empty r.name then r.type ++ codes "://" ++ r.host ++ b':' ∷ format_ℤ r.port else r.name

-- Of net/url: the scheme, the host name and the port of a text that it parses.
pub record Url : Type 0 where
  pub scheme : Text
  pub hostname : Text
  pub port : Text

-- An error of Atoi leaves 0.
abbrev port_or_zero : Option ℤ → ℤ
port_or_zero none = pos 0
port_or_zero (some port) = port

abbrev pub by_address : (resource : Text) → Option (Text × Text) → ResourceRef
by_address resource none = record { type = []; host = []; port = pos 0; name = resource }
by_address resource (some (host, port)) = record {
  type = codes "tcp";
  host = host;
  port = port_or_zero (atoi port);
  name = [];
}

abbrev by_url : (resource : Text) → Option Url → ResourceRef
by_url resource none = by_address resource (split_host_port resource)
by_url resource (some u) =
    if is_empty u.hostname
    then by_address resource (split_host_port resource)
    else record { type = u.scheme; host = u.hostname; port = port_or_zero (atoi u.port); name = [] }

abbrev has_scheme : Option (Text × Text) → Bool
has_scheme none = false
has_scheme (some parts) = true

-- ParseResource of the tunnel.
unfoldable pub parse_resource : (parse_url : Text → Option Url) → (resource : Text) → ResourceRef
unfolding split_scheme split_host_port atoi
parse_resource parse_url resource =
    if has_scheme (split_scheme resource)
    then by_url resource (parse_url resource)
    else by_address resource (split_host_port resource)

pub record ConnectRequest : Type 0 where
  pub protocol_version : ℕ
  pub action : Text
  pub resource : ResourceRef
  pub timestamp : Text

pub record ConnectResponse : Type 0 where
  pub decision : Text
  pub reason : Text
  pub decision_id : Text
  pub ttl_seconds : ℤ

-- The world of one call: the certificate's files, the TLS configuration, the dialled connection,
-- the answer to a request (`none` where writing or reading a message fails), and the clock.
pub record Link : Type 0 where
  pub parse_url : Text → Option Url
  pub has_certificate : Bool
  pub has_tls : Bool
  pub dials : Bool
  pub exchange : ConnectRequest → Option ConnectResponse
  pub now : Text

unfoldable pub request_of : Link → (resource : Text) → ConnectRequest
unfolding parse_resource
request_of l resource = record {
  protocol_version = 1;
  action = codes "connect";
  resource = parse_resource l.parse_url resource;
  timestamp = l.now;
}

abbrev pub after_exchange : Option ConnectResponse → Outcome ConnectResponse
after_exchange none = failed exchange_failed
after_exchange (some r) =
    if text_eq r.decision (codes "allow")
    then done r
    else failed (connection_denied r.reason r.decision_id)

-- Connect, to the response with which the connection is handed on.
unfoldable pub connect : Link → (resource : Text) → Outcome ConnectResponse
unfolding request_of
connect l resource =
    if not l.has_tls
    then failed tls_error
    else if not l.dials
    then failed gateway_unreachable
    else after_exchange (l.exchange (request_of l resource))

abbrev pub after_resolve : Link → Outcome ResourceRef → Outcome ConnectResponse
after_resolve l (failed e) = failed e
after_resolve l (done r) =
    if not (is_valid r)
    then failed invalid_config
    else if not l.has_certificate
    then failed no_certificate
    else connect l (format_resource r)

-- Run of the connect service.
unfoldable pub run : Link → (name : Text) → Option Catalog → Outcome ConnectResponse
unfolding resolve is_valid connect format_resource
run l name catalog = after_resolve l (resolve name catalog)
