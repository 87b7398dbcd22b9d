-- ===== src/ControlPlane/Authorize/Grants.antt =====
-- What an answer to a request for a decision rests on.
use ztna_project.Base.{
  ◌≡◌, refl, ap, [], ◌∷◌, ◌++◌, ◌≢◌, ◌⊎◌, inl, inr, Bool, true, false, Option, none, some, List,
  if◌then◌else◌, Text,
}
use ztna_project.ControlPlane.Model.{
  Subject, Resource, Decision, canonical, Error, Result, ok, err, invalid_input,
}
use ztna_project.ControlPlane.PolicyStore.{PolicyDb, get_active}
use ztna_project.ControlPlane.Gateways.{GatewayDb}
use ztna_project.ControlPlane.Requests.{
  AuthorizeRequest, validate_request, format_subject_for_audit,
}
use ztna_project.ControlPlane.Authorize.Reached.{IsReached, decide-IsReached, decide-err}
use ztna_project.ControlPlane.Authorize.Gate.{
  AsksRegistered, gate-none, gate-some, IsUnregistered, gate-IsUnregistered,
}
use ztna_project.ControlPlane.Authorize.{
  Surroundings, AuditEvent, Answer, decided, failed, gate, decide, decision_ttl, audit_event,
  append_event, effect_name, access_of, after_gate, after_validation, after_decision, authorize,
}

-- A row of the audit that tells of the decision.
abbrev pub Records :
    Surroundings → AuthorizeRequest → Subject → Resource → Decision → AuditEvent → Type 0
Records w req subject resource d event =
    (event.subject ≡ format_subject_for_audit subject)
    × (event.decision ≡ effect_name d.effect)
    × (event.reason ≡ d.reason)
    × (event.action ≡ req.action)
    × (event.resource ≡ canonical resource)
    × (event.pep_id ≡ w.pep_id)
    × (event.policy_version ≡ d.policy_version)
    × (event.timestamp ≡ w.now)

append_event-Records :
    (is_ip : Text → Bool) (w : Surroundings) (req : AuthorizeRequest) (subject : Subject)
    (resource : Resource) (d : Decision) (events : List AuditEvent)
    → w.stored ≡ true
    → (event : AuditEvent) × Records w req subject resource d event
      × (append_event w.now w.stored (audit_event is_ip w req subject resource d) events
          ≡ events ++ event ∷ [])
unfolding append_event audit_event
append_event-Records is_ip w req subject resource d events h = (
  record (audit_event is_ip w req subject resource d) { timestamp = w.now },
  (refl, refl, refl, refl, refl, refl, refl, refl),
  ap
      (λ b.
        if b
        then events
          ++ record (audit_event is_ip w req subject resource d) { timestamp = w.now } ∷ []
        else events)
      h,
)

-- The answer is the decision, and the audit has a row at its end that tells of it, when the
-- database takes the row, and is as it was when it does not.
abbrev pub IsRecorded :
    Surroundings
    → AuthorizeRequest
    → Subject
    → Resource
    → List AuditEvent
    → Decision
    → Answer × List AuditEvent
    → Type 0
IsRecorded w req subject resource events d r =
    (r.0 ≡ decided d)
    × (w.stored ≡ true
        → (event : AuditEvent) × Records w req subject resource d event
          × (r.1 ≡ events ++ event ∷ []))
    × (w.stored ≡ false → r.1 ≡ events)

append_event-refused :
    (now : Text) (stored : Bool) (event : AuditEvent) (events : List AuditEvent)
    → stored ≡ false
    → append_event now stored event events ≡ events
unfolding append_event
append_event-refused now stored event events h = rw h refl

-- How a call ends: with a decision, for what the request asks, and the row of the audit that
-- records it; or without, and the audit as it was.
abbrev pub IsDecided :
    Surroundings → PolicyDb → AuthorizeRequest → List AuditEvent → Answer × List AuditEvent → Type 0
IsDecided w policies req events r =
    (subject : Subject) × (resource : Resource) × (d : Decision) × (validate_request req
      ≡ ok (subject, resource))
    × IsReached w policies
        (record {
          subject = subject;
          action = req.action;
          resource = resource;
          ctx = req.context;
          now = w.minutes;
        })
        d
    × IsRecorded w req subject resource events d r

-- The call has a reason to end without a decision: the body is no request, the gateway is not
-- registered, the request is not valid, or no policy is active.
abbrev pub IsTurnedAway : Surroundings → PolicyDb → GatewayDb → Option AuthorizeRequest → Type 0
IsTurnedAway w policies gateways body =
    (body ≡ none)
    ⊎ ((req : AuthorizeRequest) × (body ≡ some req)
        × (IsUnregistered w gateways
            ⊎ (((e : Error) × (validate_request req ≡ err e))
                ⊎ ((e : Error) × (get_active policies ≡ err e)))))

abbrev pub IsUndecided : List AuditEvent → Answer × List AuditEvent → Type 0
IsUndecided events r = (r.1 ≡ events) × ((d : Decision) → r.0 ≢ decided d)

after_decision_cases :
    (is_ip : Text → Bool) (w : Surroundings) (req : AuthorizeRequest) (subject : Subject)
    (resource : Resource) (events : List AuditEvent) (r : Result Decision)
    → ((d : Decision) × (r ≡ ok d)
        × IsRecorded w req subject resource events d
            (after_decision is_ip w req subject resource events r))
      ⊎ ((e : Error) × (r ≡ err e)
          × IsUndecided events (after_decision is_ip w req subject resource events r))
after_decision_cases is_ip w req subject resource events (ok d) = inl (
  d,
  refl,
  (
    refl,
    append_event-Records is_ip w req subject resource d events,
    append_event-refused w.now w.stored (audit_event is_ip w req subject resource d) events,
  ),
)
after_decision_cases is_ip w req subject resource events (err e) =
    inr (e, refl, (refl, (λ (d : Decision) (same : failed e ≡ decided d). cc)))

after_validation_cases :
    (is_ip : Text → Bool) (w : Surroundings) (policies : PolicyDb) (req : AuthorizeRequest)
    (events : List AuditEvent) (v : Result (Subject × Resource))
    → validate_request req ≡ v
    → IsDecided w policies req events (after_validation is_ip w policies req events v)
      ⊎ ((((e : Error) × (validate_request req ≡ err e))
            ⊎ ((e : Error) × (get_active policies ≡ err e)))
          × IsUndecided events (after_validation is_ip w policies req events v))
after_validation_cases is_ip w policies req events (err e) valid =
    inr (inl (e, valid), (refl, (λ (d : Decision) (same : failed e ≡ decided d). cc)))
after_validation_cases is_ip w policies req events (ok (subject, resource)) valid =
    let access = access_of w req subject resource in
    elim (after_decision_cases is_ip w req subject resource events
      (decide (decision_ttl w.ttl) w.uuid policies access)) [
        | inl (d, found, result) ↦
            inl (subject, resource, d, valid, decide-IsReached w policies access d found, result)
        | inr (e, missing, undecided) ↦
            inr
              (inr (e, decide-err (decision_ttl w.ttl) w.uuid policies access e missing), undecided)
      ]

after_gate_cases :
    (is_ip : Text → Bool) (w : Surroundings) (policies : PolicyDb) (gateways : GatewayDb)
    (req : AuthorizeRequest) (events : List AuditEvent) (g : Option Answer)
    → gate w gateways ≡ g
    → (AsksRegistered w gateways
        × IsDecided w policies req events (after_gate is_ip w policies req events g))
      ⊎ (IsTurnedAway w policies gateways (some req)
          × IsUndecided events (after_gate is_ip w policies req events g))
after_gate_cases is_ip w policies gateways req events none passed =
    elim (after_validation_cases is_ip w policies req events (validate_request req) refl) [
      | inl result ↦ inl (gate-none w gateways passed, result)
      | inr (reason, undecided) ↦ inr (inr (req, refl, inr reason), undecided)
    ]
after_gate_cases is_ip w policies gateways req events (some answer) stopped = inr (
  inr (req, refl, inl (gate-IsUnregistered w gateways answer stopped)),
  (refl, λ d. gate-some w gateways answer d stopped),
)

pub authorize_cases :
    (is_ip : Text → Bool) (w : Surroundings) (policies : PolicyDb) (gateways : GatewayDb)
    (body : Option AuthorizeRequest) (events : List AuditEvent)
    → ((req : AuthorizeRequest) × (body ≡ some req)
        × AsksRegistered w gateways
        × IsDecided w policies req events (authorize is_ip w policies gateways body events))
      ⊎ (IsTurnedAway w policies gateways body
          × IsUndecided events (authorize is_ip w policies gateways body events))
unfolding authorize
authorize_cases is_ip w policies gateways none events =
    inr (inl refl, (refl, (λ (d : Decision) (same : failed invalid_input ≡ decided d). cc)))
authorize_cases is_ip w policies gateways (some req) events =
    elim (after_gate_cases is_ip w policies gateways req events (gate w gateways) refl) [
      | inl (asks, result) ↦ inl (req, refl, asks, result)
      | inr undecided ↦ inr undecided
    ]
