-- ===== src/ControlPlane/Gateways.antt =====
-- The registered gateways: control-plane/internal/store/sqlite/gateways.go,
-- control-plane/internal/service/gateway/service.go, the middleware
-- control-plane/internal/api/middleware/pep_auth.go and the handlers pep_register.go and
-- pep_heartbeat.go. A text that SQLite holds as NULL is empty, as the queries read it.
pub mod Liveness
pub mod Access
pub mod Beat
use ztna_project.Base.{
  ◌≡◌, Bool, true, false, not, ◌&&◌, ◌||◌, Option, none, some, List, [], ◌∷◌, if◌then◌else◌, Text,
  codes, text_eq, is_empty, lookup, insert,
}
use ztna_project.ControlPlane.Model.{
  Error, unauthorized, forbidden, invalid_input, not_found, internal, Result, ok, err,
}

pub record Gateway : Type 0 where
  pub id : Text
  pub name : Text
  pub registered_at : Text
  pub last_seen : Text
  pub active : Bool
  pub fingerprint : Text
  pub software_version : Text

-- The table gateways, by its primary key.
abbrev pub GatewayDb : Type 0
GatewayDb = List (Text × Gateway)

-- A conflict on the identifier updates the row and makes it active again.
unfoldable pub register_gateway : (now : Text) → Gateway → GatewayDb → GatewayDb
register_gateway now gw db = elim (lookup gw.id db) [
  | none ↦ insert gw.id (record gw { registered_at = now; last_seen = []; active = true }) db
  | some old ↦
      insert gw.id
        (record old {
          name = gw.name;
          active = true;
          fingerprint = gw.fingerprint;
          software_version = gw.software_version;
        })
        db
]

unfoldable pub seen : (now version : Text) → Gateway → Gateway
seen now version gw =
    if is_empty version
    then record gw { last_seen = now }
    else record gw { last_seen = now; software_version = version }

unfoldable pub update_gateway_heartbeat : (now id version : Text) → GatewayDb → Result GatewayDb
unfolding seen
update_gateway_heartbeat now id version db = elim (lookup id db) [
  | none ↦ err not_found
  | some gw ↦ ok (insert id (seen now version gw) db)
]

unfoldable get_gateway : Text → GatewayDb → Result Gateway
get_gateway id db = elim (lookup id db) [ none ↦ err not_found | some gw ↦ ok gw ]

unfoldable set_gateway_active : Text → Bool → GatewayDb → Result GatewayDb
set_gateway_active id active db = elim (lookup id db) [
  | none ↦ err not_found
  | some gw ↦ ok (insert id (record gw { active = active }) db)
]

-- Service.Register.
unfoldable pub register_service : (now : Text) → Gateway → GatewayDb → Result GatewayDb
register_service now gw db =
    if is_empty gw.id
    then err invalid_input
    else ok
        (register_gateway now (record gw { name = if is_empty gw.name then gw.id else gw.name }) db)

pub data HeartbeatStatus : Type 0 where
  registered unregistered revoked : HeartbeatStatus

unfoldable pub status_of : Text → GatewayDb → HeartbeatStatus × Option Error
unfolding get_gateway
status_of id db =
    if is_empty id then (unregistered, some unauthorized) else elim (get_gateway id db) [
      | err not_found ↦ (unregistered, some forbidden)
      | err other ↦ (unregistered, some internal)
      | ok gw ↦ if gw.active then (registered, none) else (revoked, some forbidden)
    ]

-- What Heartbeat answers, by the outcome of the update and by the status that it found first.
abbrev pub after_update : GatewayDb → Result GatewayDb → GatewayDb × HeartbeatStatus × Option Error
after_update db (ok db') = (db', registered, none)
after_update db (err not_found) = (db, unregistered, some forbidden)
after_update db (err _) = (db, unregistered, some internal)

abbrev pub after_status :
    (now id version : Text)
    → GatewayDb
    → HeartbeatStatus
    → Option Error
    → GatewayDb × HeartbeatStatus × Option Error
after_status now id version db status (some e) = (db, status, some e)
after_status now id version db registered none =
    after_update db (update_gateway_heartbeat now id version db)
after_status now id version db status none = (db, status, some forbidden)

-- Service.Heartbeat.
unfoldable pub heartbeat :
    (now id version : Text) → GatewayDb → GatewayDb × HeartbeatStatus × Option Error
unfolding status_of update_gateway_heartbeat
heartbeat now id version db = let s = status_of id db in after_status now id version db s.0 s.1

-- The middleware: its configuration, and what it reads of a request.
pub record PepConfig : Type 0 where
  pub auth_mode : Text
  pub tokens : List (Text × Text)
  pub revoked_pep_ids : List Text

-- `peer_common_name` is that of the first certificate of a TLS connection that has one; an absent
-- header is empty.
pub record PepRequest : Type 0 where
  pub peer_common_name : Option Text
  pub pep_id : Text
  pub pep_token : Text

unfoldable pub is_listed : Text → List Text → Bool
is_listed id [] = false
is_listed id (x ∷ xs) = text_eq x id || is_listed id xs

abbrev pub admit_pep : PepConfig → Text → Result Text
admit_pep cfg id = if is_listed id cfg.revoked_pep_ids then err forbidden else ok id

abbrev pub by_certificate : PepConfig → Option Text → Result Text
by_certificate cfg none = err unauthorized
by_certificate cfg (some id) = admit_pep cfg id

-- The last argument is the token that the configuration holds for the gateway.
abbrev pub by_token : PepConfig → PepRequest → Option Text → Result Text
by_token cfg r none = err unauthorized
by_token cfg r (some expected) =
    if is_empty expected || not (text_eq expected r.pep_token)
    then err unauthorized
    else admit_pep cfg r.pep_id

-- The gateway that the next handler sees, or the error that is written.
unfoldable pub require_pep : PepConfig → PepRequest → Result Text
unfolding is_listed
require_pep cfg r =
    if text_eq cfg.auth_mode (codes "mtls")
    then by_certificate cfg r.peer_common_name
    else if is_empty r.pep_id || is_empty r.pep_token
    then err unauthorized
    else by_token cfg r (lookup r.pep_id cfg.tokens)

-- The body of a request: not JSON, absent, or decoded.
pub data Body (A : Type 0) : Type 0 where
  malformed absent : Body A
  decoded : A → Body A

pub record RegisterRequest : Type 0 where
  pub gateway_id : Text
  pub name : Text
  pub version : Text
  pub fingerprint : Text

abbrev pub or_empty : Body RegisterRequest → RegisterRequest
or_empty (decoded r) = r
or_empty _ = record { gateway_id = []; name = []; version = []; fingerprint = [] }

abbrev pub is_malformed : Body RegisterRequest → Bool
is_malformed malformed = true
is_malformed _ = false

-- The handler of POST /api/v1/pep/register, for the gateway that the middleware found.
unfoldable pub register_handler :
    (now pep_id : Text) → Body RegisterRequest → GatewayDb → Result GatewayDb
unfolding register_service register_gateway
register_handler now pep_id body db =
    let req = or_empty body in
    if is_empty pep_id
    then err unauthorized
    else if is_malformed body
    then err invalid_input
    else if not (is_empty req.gateway_id) && not (text_eq req.gateway_id pep_id)
    then err invalid_input
    else register_service now
        (record {
          id = pep_id;
          name = if is_empty req.name then pep_id else req.name;
          registered_at = [];
          last_seen = [];
          active = true;
          fingerprint = req.fingerprint;
          software_version = req.version;
        })
        db
