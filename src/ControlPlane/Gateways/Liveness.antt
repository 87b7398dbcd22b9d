-- ===== src/ControlPlane/Gateways/Liveness.antt =====
-- Registration, status and heartbeat of a gateway.
use mathlib.Core.Path.{subst}
use ztna_project.Base.{
  ◌≡◌, refl, ap, sym, ◌∙◌, ◌≢◌, ◌⊎◌, inl, inr, Bool, true, false, Option, none, some, [], arith,
  not, ◌&&◌, if◌then◌else◌, Bool-cases, Option-cases, Text, text_eq, text_eq_iff, text_eq_refl,
  is_empty, lookup, insert, lookup-insert,
}
use ztna_project.ControlPlane.Model.{Error, unauthorized, forbidden, ok, past_guard, ok-injective}
use ztna_project.ControlPlane.Gateways.{
  Gateway, GatewayDb, register_gateway, seen, update_gateway_heartbeat, HeartbeatStatus, registered,
  unregistered, revoked, status_of, heartbeat, after_status, after_update, register_service,
  RegisterRequest, Body, register_handler, is_malformed, or_empty,
}

-- The status that the row of a gateway stands for.
abbrev pub status_of_row : Option Gateway → HeartbeatStatus × Option Error
status_of_row none = (unregistered, some forbidden)
status_of_row (some gw) = if gw.active then (registered, none) else (revoked, some forbidden)

pub status_of_lem :
    (id : Text) (db : GatewayDb)
    → is_empty id ≡ false
    → status_of id db ≡ status_of_row (lookup id db)
unfolding status_of
status_of_lem id db h = elim (Option-cases (lookup id db)) [
  | inl missing ↦ rw (h, missing, status_of)
  | inr (gw, found) ↦ rw (h, found, status_of)
]

update_gateway_heartbeat-found :
    (now id version : Text) (db : GatewayDb) (gw : Gateway)
    → lookup id db ≡ some gw
    → update_gateway_heartbeat now id version db ≡ ok (insert id (seen now version gw) db)
unfolding update_gateway_heartbeat
update_gateway_heartbeat-found now id version db gw found = rw (found, update_gateway_heartbeat)

status_of-found :
    (id : Text) (db : GatewayDb) (gw : Gateway)
    → is_empty id ≡ false
    → lookup id db ≡ some gw
    → gw.active ≡ true
    → status_of id db ≡ (registered, none)
status_of-found id db gw h found act = rw (status_of_lem id db h, found, act)

pub heartbeat-found :
    (now id version : Text) (db : GatewayDb) (gw : Gateway)
    → is_empty id ≡ false
    → lookup id db ≡ some gw
    → gw.active ≡ true
    → heartbeat now id version db ≡ (insert id (seen now version gw) db, registered, none)
unfolding heartbeat
heartbeat-found now id version db gw h found act =
    ap (λ s. after_status now id version db s.0 s.1) (status_of-found id db gw h found act)
    ∙ ap (after_update db) (update_gateway_heartbeat-found now id version db gw found)

-- The answer to a heartbeat that is not recorded.
abbrev IsRefused : GatewayDb → GatewayDb × HeartbeatStatus × Option Error → Type 0
IsRefused db r = (r.0 ≡ db) × (r.2 ≢ none) × (r.1 ≢ registered)

pub heartbeat-missing :
    (now id version : Text) (db : GatewayDb)
    → is_empty id ≡ false
    → lookup id db ≡ none
    → heartbeat now id version db ≡ (db, unregistered, some forbidden)
unfolding heartbeat
heartbeat-missing now id version db h missing = rw (heartbeat, status_of_lem id db h, missing)

pub heartbeat-revoked :
    (now id version : Text) (db : GatewayDb) (gw : Gateway)
    → is_empty id ≡ false
    → lookup id db ≡ some gw
    → gw.active ≡ false
    → heartbeat now id version db ≡ (db, revoked, some forbidden)
unfolding heartbeat
heartbeat-revoked now id version db gw h found act =
    rw (heartbeat, status_of_lem id db h, found, act)

heartbeat-nameless :
    (now id version : Text) (db : GatewayDb)
    → is_empty id ≡ true
    → heartbeat now id version db ≡ (db, unregistered, some unauthorized)
unfolding heartbeat status_of
heartbeat-nameless now id version db h = rw (heartbeat, status_of, h)

refused :
    (db : GatewayDb) (status : HeartbeatStatus) (e : Error)
    → status ≢ registered
    → IsRefused db (db, status, some e)
refused db status e h = (refl, (λ (x : some e ≡ none). cc), h)

unregistered≢registered : unregistered ≢ registered
unregistered≢registered = λ (x : unregistered ≡ registered). cc

revoked≢registered : revoked ≢ registered
revoked≢registered = λ (x : revoked ≡ registered). cc

-- A heartbeat is recorded exactly for a gateway that is registered and active; every other one is
-- answered with an error and leaves the table as it was.
pub heartbeat_lem :
    (now id version : Text) (db : GatewayDb)
    → ((gw : Gateway) × (lookup id db ≡ some gw)
        × (gw.active ≡ true)
        × (is_empty id ≡ false)
        × (heartbeat now id version db ≡ (insert id (seen now version gw) db, registered, none)))
      ⊎ IsRefused db (heartbeat now id version db)
heartbeat_lem now id version db = elim (Bool-cases (is_empty id)) [
  | inl e ↦ inr (
      subst (IsRefused db) (sym (heartbeat-nameless now id version db e))
        (refused db unregistered unauthorized unregistered≢registered))
  | inr f ↦ elim (Option-cases (lookup id db)) [
    | inl missing ↦ inr (
        subst (IsRefused db) (sym (heartbeat-missing now id version db f missing))
          (refused db unregistered forbidden unregistered≢registered))
    | inr (gw, found) ↦ elim (Bool-cases gw.active) [
      | inl act ↦ inl (gw, found, act, f, heartbeat-found now id version db gw f found act)
      | inr idle ↦ inr (
          subst (IsRefused db) (sym (heartbeat-revoked now id version db gw f found idle))
            (refused db revoked forbidden revoked≢registered))
    ]
  ]
]

-- The row that a registration writes.
abbrev written : Text → Gateway → Option Gateway → Gateway
written now gw none = record gw { registered_at = now; last_seen = []; active = true }
written now gw (some old) = record old {
  name = gw.name;
  active = true;
  fingerprint = gw.fingerprint;
  software_version = gw.software_version;
}

written-active : (now : Text) (gw : Gateway) (o : Option Gateway) → (written now gw o).active ≡ true
written-active now gw none = refl
written-active now gw (some old) = refl

register_gateway_lem :
    (now : Text) (gw : Gateway) (db : GatewayDb)
    → register_gateway now gw db ≡ insert gw.id (written now gw (lookup gw.id db)) db
unfolding register_gateway
register_gateway_lem now gw db = elim (Option-cases (lookup gw.id db)) [
  | inl missing ↦ rw (register_gateway, missing)
  | inr (old, found) ↦ rw (register_gateway, found)
]

abbrev row_of : Text → RegisterRequest → Gateway
row_of pep_id req =
    let name = if is_empty req.name then pep_id else req.name in
    record {
      id = pep_id;
      name = if is_empty name then pep_id else name;
      registered_at = [];
      last_seen = [];
      active = true;
      fingerprint = req.fingerprint;
      software_version = req.version;
    }

abbrev differs_from : Text → RegisterRequest → Bool
differs_from pep_id req = not (is_empty req.gateway_id) && not (text_eq req.gateway_id pep_id)

-- What the handler writes when it answers without an error.
register_handler_lem :
    (now pep_id : Text) (body : Body RegisterRequest) (db db' : GatewayDb)
    → register_handler now pep_id body db ≡ ok db'
    → (is_empty pep_id ≡ false)
      × ((gw : Gateway) × (gw.active ≡ true) × (db' ≡ insert pep_id gw db))
unfolding register_handler register_service
register_handler_lem now pep_id body db db' e =
    let (named, e1) = past_guard (is_empty pep_id) _ _ _ e in
    let (_, e2) = past_guard (is_malformed body) _ _ _ e1 in
    let (_, e3) = past_guard (differs_from pep_id (or_empty body)) _ _ _ e2 in
    let (_, e4) = past_guard (is_empty pep_id) _ _ _ e3 in
    (
      named,
      (
        _,
        written-active now (row_of pep_id (or_empty body)) (lookup pep_id db),
        sym (ok-injective e4) ∙ register_gateway_lem now (row_of pep_id (or_empty body)) db,
      ),
    )

-- Registration makes the gateway registered, whatever its row was before: also a gateway that an
-- administrator had revoked. The rows of the other gateways stay.
pub status_of-register_handler :
    (now pep_id : Text) (body : Body RegisterRequest) (db db' : GatewayDb)
    → register_handler now pep_id body db ≡ ok db'
    → (status_of pep_id db' ≡ (registered, none))
      × ((j : Text) → j ≢ pep_id → lookup j db' ≡ lookup j db)
status_of-register_handler now pep_id body db db' e =
    let (named, (gw, act, same)) = register_handler_lem now pep_id body db db' e in
    rw same (
      status_of-found pep_id (insert pep_id gw db) gw named
          (rw (lookup-insert pep_id pep_id gw db, text_eq_refl pep_id)) act,
      (λ (j : Text) (h : j ≢ pep_id).
          ground (arith, lookup-insert pep_id j gw db, text_eq_iff pep_id j)),
    )
