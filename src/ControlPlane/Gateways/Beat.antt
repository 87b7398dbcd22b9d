-- ===== src/ControlPlane/Gateways/Beat.antt =====
-- The handler of heartbeats: control-plane/internal/api/handlers/pep_heartbeat.go.
use ztna_project.Base.{
  ◌≡◌, ◌≢◌, refl, sym, ap, ◌∙◌, inl, inr, Bool, true, false, not, ◌&&◌, Option, none, some, [],
  arith, if◌then◌else◌, Bool-cases, Text, is_empty, lookup, insert,
}
use ztna_project.ControlPlane.Model.{Error, unauthorized, forbidden}
use ztna_project.ControlPlane.Gateways.{
  Gateway, GatewayDb, seen, HeartbeatStatus, registered, unregistered, revoked, heartbeat,
}
use ztna_project.ControlPlane.Gateways.Liveness.{
  heartbeat-found, heartbeat-revoked, heartbeat-missing,
}

-- 200 and 403 with the status, or an error of the domain.
pub data BeatAnswer : Type 0 where
  accepted refused : HeartbeatStatus → BeatAnswer
  failed : Error → BeatAnswer

abbrev is_forbidden : Error → Bool
is_forbidden forbidden = true
is_forbidden other = false

abbrev is_unregistered : HeartbeatStatus → Bool
is_unregistered unregistered = true
is_unregistered other = false

abbrev after_heartbeat : (require_registration : Bool) → HeartbeatStatus → Option Error → BeatAnswer
after_heartbeat require status none = accepted status
after_heartbeat require status (some e) =
    if is_forbidden e && require
    then refused status
    else if not require && is_unregistered status
    then accepted status
    else failed e

abbrev pub version_of : Option Text → Text
version_of none = []
version_of (some version) = version

-- Beat; the version is `none` where the body is no such JSON, which does not matter.
unfoldable pub beat :
    (require_registration : Bool) (now pep_id : Text)
    → Option Text
    → GatewayDb
    → GatewayDb × BeatAnswer
unfolding heartbeat
beat require now pep_id version db =
    if is_empty pep_id
    then (db, failed unauthorized)
    else let h = heartbeat now pep_id (version_of version) db in
      (h.0, after_heartbeat require h.1 h.2)

-- The table is as it was, and the answer is never that the gateway is registered.
abbrev pub IsTurnedAway : GatewayDb → GatewayDb × BeatAnswer → Type 0
IsTurnedAway db r = (r.0 ≡ db) × (r.1 ≢ accepted registered)

-- What a heartbeat with an identifier finds in the table, and what comes of it.
abbrev pub IsBeat :
    (require_registration : Bool) (now id : Text)
    → (version : Text) → GatewayDb
    → GatewayDb × BeatAnswer
    → Type 0
IsBeat require now id version db r =
    ((gw : Gateway)
      → lookup id db ≡ some gw
      → gw.active ≡ true
      → (r.1 ≡ accepted registered)
        × (r.0
            ≡ insert id
                (record gw {
                  last_seen = now;
                  software_version = if is_empty version then gw.software_version else version;
                })
                db))
    × ((gw : Gateway)
        → lookup id db ≡ some gw
        → gw.active ≡ false
        → IsTurnedAway db r × (r.1 ≡ (if require then refused revoked else failed forbidden)))
    × (lookup id db ≡ none
        → IsTurnedAway db r
          × (r.1 ≡ (if require then refused unregistered else accepted unregistered)))

beat-heartbeat :
    (require : Bool) (now id : Text) (version : Option Text) (db : GatewayDb)
    → is_empty id ≡ false
    → beat require now id version db ≡ (
      (heartbeat now id (version_of version) db).0,
      after_heartbeat require
          (heartbeat now id (version_of version) db).1
          (heartbeat now id (version_of version) db).2,
    )
unfolding beat
beat-heartbeat require now id version db named = rw named refl

beat-named :
    (require : Bool) (now id : Text) (version : Option Text) (db : GatewayDb)
    (h : GatewayDb × HeartbeatStatus × Option Error)
    → is_empty id ≡ false
    → heartbeat now id (version_of version) db ≡ h
    → beat require now id version db ≡ (h.0, after_heartbeat require h.1 h.2)
beat-named require now id version db h named e =
    beat-heartbeat require now id version db named
    ∙ ap (λ x. (x.0, after_heartbeat require x.1 x.2)) e

seen-eq :
    (now version : Text) (gw : Gateway)
    → seen now version gw ≡ record gw {
      last_seen = now;
      software_version = if is_empty version then gw.software_version else version;
    }
unfolding seen
seen-eq now version gw = elim (Bool-cases (is_empty version)) [
  | inl empty ↦ rw empty refl
  | inr given ↦ rw given refl
]

-- The answer to an error of the service, for a gateway that is revoked or unknown.
after_revoked :
    (require : Bool)
    → after_heartbeat require revoked (some forbidden)
      ≡ (if require then refused revoked else failed forbidden)
after_revoked true = refl
after_revoked false = refl

after_unregistered :
    (require : Bool)
    → after_heartbeat require unregistered (some forbidden)
      ≡ (if require then refused unregistered else accepted unregistered)
after_unregistered true = refl
after_unregistered false = refl

revoked-answer :
    (require : Bool) → (if require then refused revoked else failed forbidden) ≢ accepted registered
revoked-answer true = λ e. ground (arith, e)
revoked-answer false = λ e. ground (arith, e)

unregistered-answer :
    (require : Bool)
    → (if require then refused unregistered else accepted unregistered) ≢ accepted registered
unregistered-answer true = λ e. ground (arith, e)
unregistered-answer false = λ e. ground (arith, e)

-- An answer that is known turns the gateway away.
turned_away :
    (db : GatewayDb) (r : GatewayDb × BeatAnswer) (answer expected : BeatAnswer)
    → r ≡ (db, answer)
    → answer ≡ expected
    → expected ≢ accepted registered
    → IsTurnedAway db r × (r.1 ≡ expected)
turned_away db r answer expected e same other =
    let told = ap (λ x. x.1) e ∙ same in
    ((ap (λ x. x.0) e, (λ (is : r.1 ≡ accepted registered). other (sym told ∙ is))), told)

-- A heartbeat of a gateway that is registered and active is recorded, with the time and the version
-- that it gives, or the old version where it gives none, and answered as registered. One of a
-- gateway that is deactivated is refused with its status where registration is required, and
-- forbidden where not; one of an unknown gateway is refused with its status where registration is
-- required, and answered with success and its status where not; one without an identifier is
-- unauthorized. All these leave the table as it was and are never told that they are registered.
pub beat_lem :
    (require : Bool) (now id : Text) (version : Option Text) (db : GatewayDb)
    → (is_empty id ≡ true → beat require now id version db ≡ (db, failed unauthorized))
      × (is_empty id ≡ false
          → IsBeat require now id (version_of version) db (beat require now id version db))
beat_lem require now id version db = (
  (λ (empty : is_empty id ≡ true). unfold beat in rw empty refl),
  (λ (named : is_empty id ≡ false). (
    (λ gw found act.
        (let e =
            beat-named require now id version db _ named
              (heartbeat-found now id (version_of version) db gw named found act) in
          (
            ap (λ r. r.1) e,
            ap (λ r. r.0) e ∙ ap (λ x. insert id x db) (seen-eq now (version_of version) gw),
          ))),
    (λ gw found idle.
        turned_away db (beat require now id version db) _ _
          (beat-named require now id version db _ named
            (heartbeat-revoked now id (version_of version) db gw named found idle))
          (after_revoked require) (revoked-answer require)),
    (λ missing.
        turned_away db (beat require now id version db) _ _
          (beat-named require now id version db _ named
            (heartbeat-missing now id (version_of version) db named missing))
          (after_unregistered require) (unregistered-answer require)),
  )),
)
