-- ===== src/ControlPlane/PolicyAdmin.antt =====
-- The handlers of control-plane/internal/api/handlers/admin_policies.go: an administrator creates
-- and activates versions of the policy. strconv.ParseInt is an argument, as the number that the
-- path gives.
use mathlib.Core.Path.{subst}
use ztna_project.Base.{
  ◌≡◌, refl, ap, ◌∷◌, ◌++◌, Bool, true, false, Option, none, some, List, [], if◌then◌else◌, ℤ, pos,
  Text, codes, is_empty,
}
use ztna_project.ControlPlane.Model.{
  PolicyVersion, PolicyRule, ok-injective, Subject, Error, unauthorized, invalid_input, Result, ok,
  err,
}
use ztna_project.ControlPlane.PolicyStore.{
  PolicyDb, get_active, rule_rows, create_policy_version, create_version, activate_version, Call,
  run, empty_db, normalise_all,
}
use ztna_project.ControlPlane.PolicyStore.Effects.{AreRowsOf, rule_rows-AreRowsOf}
use ztna_project.ControlPlane.PolicyStore.Publication.{get_active-create_version}
use ztna_project.ControlPlane.Authorize.{AuditEvent, append_event}

-- What surrounds a call: the clock, the peer's address, and whether the audit's database takes rows.
pub record Desk : Type 0 where
  pub now : Text
  pub remote_addr : Text
  pub audit_stores : Bool

abbrev pub row : Desk → Subject → (action reason : Text) → AuditEvent
row w subject action reason = record {
  timestamp = [];
  subject = subject.username;
  action = action;
  resource = codes "policy";
  decision = codes "allow";
  reason = reason;
  pep_id = [];
  source_ip = w.remote_addr;
  policy_version = pos 0;
}

abbrev pub after_create :
    Desk
    → Subject
    → PolicyDb
    → List AuditEvent
    → Result (PolicyDb × ℤ)
    → Result ℤ × PolicyDb × List AuditEvent
after_create w subject db events (err e) = (err e, db, events)
after_create w subject db events (ok (db', id)) = (
  ok id,
  db',
  append_event w.now w.audit_stores (row w subject (codes "policy_create") (codes "created"))
      events,
)

-- CreateVersion: `none` for a request without an authenticated user, and for a body that is no JSON
-- of that form.
unfoldable pub create_handler :
    Desk
    → Option Subject
    → Option (List PolicyRule)
    → PolicyDb
    → List AuditEvent
    → Result ℤ × PolicyDb × List AuditEvent
unfolding create_version append_event
create_handler w none body db events = (err unauthorized, db, events)
create_handler w (some subject) none db events = (err invalid_input, db, events)
create_handler w (some subject) (some rules) db events =
    if is_empty rules
    then (err invalid_input, db, events)
    else after_create w subject db events (create_version w.now subject.username rules db)

abbrev pub after_activate :
    Desk
    → Subject
    → PolicyDb
    → List AuditEvent
    → Result PolicyDb
    → Option Error × PolicyDb × List AuditEvent
after_activate w subject db events (err e) = (some e, db, events)
after_activate w subject db events (ok db') = (
  none,
  db',
  append_event w.now w.audit_stores (row w subject (codes "policy_activate") (codes "activated"))
      events,
)

-- ActivateVersion, with the number of the path, `none` where it is none.
unfoldable pub activate_handler :
    Desk
    → Option Subject
    → Option ℤ
    → PolicyDb
    → List AuditEvent
    → Option Error × PolicyDb × List AuditEvent
unfolding activate_version append_event
activate_handler w none id db events = (some unauthorized, db, events)
activate_handler w (some subject) none db events = (some invalid_input, db, events)
activate_handler w (some subject) (some id) db events =
    after_activate w subject db events (activate_version id db)

-- The row of the audit tells of an action of this administrator on the policy.
abbrev pub Tells : Desk → Subject → (action : Text) → AuditEvent → Type 0
Tells w subject action event =
    (event.subject ≡ subject.username)
    × (event.action ≡ action)
    × (event.resource ≡ codes "policy")
    × (event.decision ≡ codes "allow")
    × (event.source_ip ≡ w.remote_addr)
    × (event.timestamp ≡ w.now)

-- Both calls are told of at the end of the audit, when the database takes the rows.
abbrev pub AreAudited : Desk → Subject → (before after : List AuditEvent) → Type 0
AreAudited w subject before after =
    w.audit_stores ≡ true
    → (created : AuditEvent) × (activated : AuditEvent) × Tells w subject (codes "policy_create")
        created
      × Tells w subject (codes "policy_activate") activated
      × (after ≡ (before ++ created ∷ []) ++ activated ∷ [])

-- What both calls leave in the audit.
abbrev both_rows : Desk → Subject → List AuditEvent → List AuditEvent
both_rows w subject events =
    append_event w.now w.audit_stores (row w subject (codes "policy_activate") (codes "activated"))
      (append_event w.now w.audit_stores (row w subject (codes "policy_create") (codes "created"))
        events)

both_rows-AreAudited :
    (w : Desk) (subject : Subject) (events : List AuditEvent)
    → AreAudited w subject events (both_rows w subject events)
unfolding append_event
both_rows-AreAudited w subject events stores = (
  record (row w subject (codes "policy_create") (codes "created")) { timestamp = w.now },
  record (row w subject (codes "policy_activate") (codes "activated")) { timestamp = w.now },
  (refl, refl, refl, refl, refl, refl),
  (refl, refl, refl, refl, refl, refl),
  rw stores refl,
)

created_number :
    (now created_by : Text) (rules normal : List PolicyRule) (db db' : PolicyDb) (id : ℤ)
    → normalise_all rules ≡ ok normal
    → create_version now created_by rules db ≡ ok (db', id)
    → pos db.next_version ≡ id
unfolding create_version create_policy_version
created_number now created_by rules normal db db' id e created =
    let made = rw (e, create_version) at created in ap (λ p. p.1) (ok-injective made)

-- After any history of calls, an administrator who creates a version of rules that all normalise,
-- of one at least, gets a number; activating this number on the tables that the creation leaves
-- succeeds, and the policy that is read from the tables after that has this number and the given
-- rules, one by one and in their order: with effect, action and type in lower case, the effect
-- without the white space around it, and all else as it was given. Both calls are in the audit in
-- this administrator's name, when the database takes the rows.
pub create_handler-activate_handler :
    (calls : List Call) (w : Desk) (subject : Subject) (rules normal : List PolicyRule)
    (events : List AuditEvent)
    → is_empty rules ≡ false
    → normalise_all rules ≡ ok normal
    → (id : ℤ) × (db' : PolicyDb) × (db'' : PolicyDb) × (events' : List AuditEvent)
      × (events'' : List AuditEvent) × (v : PolicyVersion) × (rows : List PolicyRule)
      × (create_handler w (some subject) (some rules) (run calls empty_db) events
          ≡ (ok id, db', events'))
      × (activate_handler w (some subject) (some id) db' events' ≡ (none, db'', events''))
      × (get_active db'' ≡ ok (record { version = v; rules = rows }))
      × (v.id ≡ id)
      × AreRowsOf id rules rows
      × AreAudited w subject events events''
unfolding create_handler activate_handler
create_handler-activate_handler calls w subject rules normal events filled e =
    let (db', id, db'', v, created, activated, same, read) =
      get_active-create_version calls w.now subject.username rules normal e in
    let db = run calls empty_db in
    let number : pos db.next_version ≡ id =
      created_number w.now subject.username rules normal db db' id e created in
    (
      id,
      db',
      db'',
      append_event w.now w.audit_stores (row w subject (codes "policy_create") (codes "created"))
          events,
      both_rows w subject events,
      v,
      rule_rows w.now db.next_version db.next_rule normal,
      rw (filled, created) refl,
      rw activated refl,
      read,
      same,
      subst (λ i. AreRowsOf i rules (rule_rows w.now db.next_version db.next_rule normal)) number
          (rule_rows-AreRowsOf w.now db.next_version db.next_rule rules normal e),
      both_rows-AreAudited w subject events,
    )
