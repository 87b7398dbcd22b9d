-- ===== src/Gateway/Connect.antt =====
-- gateway/internal/usecase/connect/handler.go with the messages of connect.go: the life of one
-- connection. Arguments are the control plane (its decisions and its published resources), the
-- clock, the random identifier of the session, and what the relay of the traffic reports.
-- Telemetry and logging are left out.
pub mod Handling
pub mod Targets
pub mod Keys
pub mod Backed
pub mod Grounds
pub mod Opening
pub mod Life
use ztna_project.Base.{
  ℕ, Bool, true, false, not, ◌&&◌, ◌||◌, Option, none, some, List, [], ◌∷◌, ◌++◌, ltb, leb, ◌*◌,
  if◌then◌else◌, ℤ, pos, negsuc, is_positive, pos_part, exceeds, Text, codes, text_eq, is_empty,
  format_ℤ, split_host_port, scan_int,
}
use ztna_project.Gateway.Session.{
  Session, Manager, register, RegisterResult, registered, limit_reached, set_end_stats, unregister,
}
use ztna_project.Gateway.Cache.{Cache, DecisionEntry, get, put}
use ztna_project.Gateway.Revocation.{Store, is_revoked}
use ztna_project.Gateway.Config.{Route, resolve_route}
use ztna_project.Gateway.Identity.{Certificate, SubjectRef, extract_subject_from_cert}

pub record ResourceTarget : Type 0 where
  pub type : Text
  pub host : Text
  pub port : ℤ
  pub name : Text

pub record ConnectRequest : Type 0 where
  pub action : Text
  pub resource : ResourceTarget

-- What the control plane knows of a published resource, and what it decides.
pub record ResolvedResource : Type 0 where
  pub name : Text
  pub backend : Text
  pub type : Text
  pub access_mode : Text

pub record AuthzRequest : Type 0 where
  pub subject : SubjectRef
  pub action : Text
  pub resource : ResourceTarget
  pub source_ip : Text
  pub gateway_id : Text

pub record AuthzResponse : Type 0 where
  pub decision : Text
  pub ttl_seconds : ℤ
  pub reason : Text
  pub policy_version : ℤ
  pub decision_id : Text

-- The messages of a denial, each with its own text; `by_policy` carries that of the control plane,
-- empty for the handler's own words.
pub data Denial : Type 0 where
  certificate_revoked unreadable_request unsupported_action incomplete_request : Denial
  unknown_resource bad_backend bad_backend_port no_route bad_route bad_route_port : Denial
  direct_access name_required control_plane_down session_limit : Denial
  by_policy : (reason : Text) → Denial

-- A handler as it is configured: `crl`, `cache` and `resources` may be absent, and a missing
-- configuration has no routes. `authorize` is the control plane as it answers during the connection;
-- histories of connections have a handler for each.
pub record Handler : Type 0 where
  pub crl : Option Store
  pub cache_ttl : ℤ
  pub routes : List Route
  pub resources : Option (Text → Option ResolvedResource)
  pub authorize : AuthzRequest → Option AuthzResponse
  pub gateway_id : Text

pub record State : Type 0 where
  pub sessions : Manager
  pub cache : Option Cache

-- A connection: the client's certificate and address, the request (`none` where none is read), two
-- readings of the clock, the key that a full cache gives up, the session's identifier and context.
pub record Arrival : Type 0 where
  pub cert : Certificate
  pub remote_addr : Text
  pub request : Option ConnectRequest
  pub now : ℕ
  pub later : ℕ
  pub victim : Text
  pub session_id : Text
  pub ctx : ℕ

-- Where the traffic goes, and the resource that the control plane is asked about.
pub data Resolution : Type 0 where
  rejects : Denial → Resolution
  to_target : (host : Text) (port : ℕ) → ResourceTarget → Resolution

abbrev port_of : Option ℤ → Option ℕ
port_of none = none
port_of (some (negsuc n)) = none
port_of (some (pos n)) = if ltb 0 n && leb n 65535 then some n else none

unfoldable pub backend_port : Text → Option ℕ
unfolding scan_int
backend_port p = port_of (scan_int p)

abbrev pub by_port : (bad : Denial) → (Text → ℕ → ResourceTarget) → Text → Option ℕ → Resolution
by_port bad resource host none = rejects bad
by_port bad resource host (some port) = to_target host port (resource host port)

abbrev pub by_address :
    (bad bad_port : Denial) → (Text → ℕ → ResourceTarget) → Option (Text × Text) → Resolution
by_address bad bad_port resource none = rejects bad
by_address bad bad_port resource (some (host, port)) =
    by_port bad_port resource host (backend_port port)

-- The resolved host, port and type take the place of the client's.
abbrev pub resolved_target : ResourceTarget → ResolvedResource → Text → ℕ → ResourceTarget
resolved_target r resolved host port = record r {
  host = host;
  port = pos port;
  type = resolved.type;
}

abbrev pub by_name : ResourceTarget → Option ResolvedResource → Resolution
by_name r none = rejects unknown_resource
by_name r (some resolved) =
    by_address bad_backend bad_backend_port (resolved_target r resolved)
      (split_host_port resolved.backend)

abbrev pub by_route : ResourceTarget → Option Text → Resolution
by_route r none = rejects no_route
by_route r (some backend) =
    by_address bad_route bad_route_port (λ host port. r) (split_host_port backend)

abbrev pub canonical_target : ResourceTarget → Text
canonical_target r = r.type ++ b':' ∷ (r.host ++ b':' ∷ format_ℤ r.port)

abbrev pub legacy : List Route → ResourceTarget → Resolution
legacy routes r =
    if is_empty r.host || not (is_positive r.port)
    then rejects name_required
    else if is_empty routes
    then rejects direct_access
    else by_route r (resolve_route r.type (canonical_target r) routes)

abbrev pub by_client :
    List Route → ResourceTarget → Option (Text → Option ResolvedResource) → Resolution
by_client routes r none = legacy routes r
by_client routes r (some get_resource) = by_name r (get_resource r.name)

-- Step 5 of the handler: by name where the resource has one and there is a client for it, else by
-- the routes, never to the address that the client gives.
unfoldable pub resolve_target : Handler → ResourceTarget → Resolution
unfolding backend_port resolve_route
resolve_target h r = if is_empty r.name then legacy h.routes r else by_client h.routes r h.resources

unfoldable pub cache_key : SubjectRef → (action : Text) → ResourceTarget → Text
cache_key subject action r =
    subject.sub ++ b'|' ∷ (action ++ b'|' ∷ (r.type ++ b'|' ∷ (r.host ++ b'|' ∷ format_ℤ r.port)))

-- A decision from the cache has no lifetime of its own.
abbrev pub cached_response : DecisionEntry → AuthzResponse
cached_response entry = record {
  decision = entry.decision;
  ttl_seconds = pos 0;
  reason = entry.reason;
  policy_version = entry.policy_version;
  decision_id = codes "cached";
}

abbrev pub entry_of : AuthzResponse → DecisionEntry
entry_of d = record { decision = d.decision; reason = d.reason; policy_version = d.policy_version }

abbrev pub entry_ttl : Handler → AuthzResponse → ℤ
entry_ttl h d =
    if is_positive h.cache_ttl then h.cache_ttl else pos (pos_part d.ttl_seconds * 1_000_000_000)

abbrev pub remember : Handler → Arrival → Text → Option Cache → AuthzResponse → Option Cache
remember h a key none d = none
remember h a key (some c) d =
    if is_positive d.ttl_seconds
    then some (put a.victim key (entry_of d) (entry_ttl h d) a.later c)
    else some c

-- The answer of the control plane; an error is passed on, whatever the mode for a control plane
-- that is down.
abbrev pub after_authorize :
    Handler
    → Arrival
    → Text
    → Option Cache
    → Option AuthzResponse
    → Option Cache × Option AuthzResponse
after_authorize h a key cache none = (cache, none)
after_authorize h a key cache (some d) = (remember h a key cache d, some d)

abbrev pub authz_request : Handler → Arrival → SubjectRef → Text → ResourceTarget → AuthzRequest
authz_request h a subject action r = record {
  subject = subject;
  action = action;
  resource = r;
  source_ip = a.remote_addr;
  gateway_id = h.gateway_id;
}

abbrev pub after_get :
    Handler
    → Arrival
    → SubjectRef
    → Text
    → ResourceTarget
    → Cache × Option DecisionEntry
    → Option Cache × Option AuthzResponse
after_get h a subject action r (c, some entry) = (some c, some (cached_response entry))
after_get h a subject action r (c, none) =
    after_authorize h a (cache_key subject action r) (some c)
      (h.authorize (authz_request h a subject action r))

unfoldable pub resolve_decision :
    Handler
    → Arrival
    → SubjectRef
    → (action : Text) → ResourceTarget
    → Option Cache
    → Option Cache × Option AuthzResponse
unfolding cache_key get put
resolve_decision h a subject action r none =
    after_authorize h a (cache_key subject action r) none
      (h.authorize (authz_request h a subject action r))
resolve_decision h a subject action r (some c) =
    after_get h a subject action r (get (cache_key subject action r) a.now c)
