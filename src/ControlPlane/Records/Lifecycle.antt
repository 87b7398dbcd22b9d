-- ===== src/ControlPlane/Records/Lifecycle.antt =====
-- The record of a session, from its start to its end.
use ztna_project.Base.{
  ◌≡◌, ◌≢◌, ap, sym, ◌∙◌, inl, inr, false, ◌||◌, none, some, arith, Option-cases, Text, text_eq_iff,
  text_eq_refl, is_empty, lookup, insert, lookup-insert,
}
use ztna_project.ControlPlane.Model.{invalid_input, internal, ok, err, past_guard, ok-injective}
use ztna_project.ControlPlane.Records.{
  SessionRecord, RecordDb, create_session, EndRequest, completed, complete_session, StartRequest,
  started, start_session, end_session_record, start_handler, end_handler,
}

create_session-ok :
    (s : SessionRecord) (db db' : RecordDb)
    → create_session s db ≡ ok db'
    → (lookup s.session_id db ≡ none) × (insert s.session_id s db ≡ db')
unfolding create_session
create_session-ok s db db' e = elim (Option-cases (lookup s.session_id db)) [
  | inl missing ↦
      let same : ok (insert s.session_id s db) ≡ ok db' = rw (missing, create_session) at e in
      (missing, ok-injective same)
  | inr (old, found) ↦
      let clash : err internal ≡ ok db' = rw (found, create_session) at e in ground (arith, clash)
]

start_handler-ok :
    (now : Text) (r : StartRequest) (db db' : RecordDb)
    → start_handler now (some r) db ≡ ok db'
    → (lookup r.session_id db ≡ none)
      × (insert r.session_id (started now r) db ≡ db')
      × (is_empty r.session_id ≡ false)
unfolding start_handler start_session
start_handler-ok now r db db' e =
    let (named, e1) =
      past_guard (is_empty r.session_id || is_empty r.decision_id) invalid_input _ _ e in
    let (_, e2) = past_guard (is_empty r.session_id || is_empty r.decision_id) internal _ _ e1 in
    let (missing, same) = create_session-ok (started now r) db db' e2 in
    (missing, same, ground (arith, named))

lookup-inserted :
    (key : Text) (s : SessionRecord) (db : RecordDb)
    → (lookup key (insert key s db) ≡ some s)
      × ((j : Text) → j ≢ key → lookup j (insert key s db) ≡ lookup j db)
lookup-inserted key s db = (
  ground (arith, lookup-insert key key s db, text_eq_refl key),
  (λ (j : Text) (h : j ≢ key). ground (arith, lookup-insert key j s db, text_eq_iff key j)),
)

end_handler-found :
    (now : Text) (e : EndRequest) (db : RecordDb) (s : SessionRecord)
    → is_empty e.session_id ≡ false
    → lookup e.session_id db ≡ some s
    → end_handler now (some e) db ≡ ok (insert e.session_id (completed now e s) db)
unfolding end_handler end_session_record
end_handler-found now e db s named found = rw (named, found, complete_session, end_handler)

-- The record of a session that was started can be ended, and then it tells of both calls: the
-- decision, the subject, the device and the type and the match of the resource as the start gave
-- them, but not the name of the resource; the bytes in and out, the duration and the reason as the
-- end gave them; and the two times. A start needs a new identifier, and neither call touches another
-- record.
pub start_handler-end_handler :
    (now later : Text) (r : StartRequest) (e : EndRequest) (db db' : RecordDb)
    → start_handler now (some r) db ≡ ok db'
    → e.session_id ≡ r.session_id
    → (lookup r.session_id db ≡ none)
      × ((db'' : RecordDb) × (end_handler later (some e) db' ≡ ok db'')
          × (lookup r.session_id db''
              ≡ some (record {
                session_id = r.session_id;
                decision_id = r.decision_id;
                subject_sub = r.subject_sub;
                subject_username = r.subject_username;
                device_serial = r.device_serial;
                resource_type = r.resource_type;
                resource_match = r.resource_match;
                start_time = now;
                end_time = later;
                bytes_in = e.bytes_in;
                bytes_out = e.bytes_out;
                duration_ms = e.duration_ms;
                end_reason = e.end_reason;
              }))
          × ((j : Text) → j ≢ r.session_id → lookup j db'' ≡ lookup j db))
start_handler-end_handler now later r e db db' ran same =
    let (missing, wrote, named) = start_handler-ok now r db db' ran in
    let (here, others) = lookup-inserted r.session_id (started now r) db in
    let found : lookup e.session_id db' ≡ some (started now r) =
      ap (λ k. lookup k db') same ∙ ap (lookup r.session_id) (sym wrote) ∙ here in
    let (there, rest) = lookup-inserted e.session_id (completed later e (started now r)) db' in
    (
      missing,
      (
        insert e.session_id (completed later e (started now r)) db',
        end_handler-found later e db' (started now r) (ap is_empty same ∙ named) found,
        ap (λ k. lookup k (insert e.session_id (completed later e (started now r)) db')) (sym same)
            ∙ there,
        (λ (j : Text) (h : j ≢ r.session_id).
            (rest j (λ (x : j ≡ e.session_id). h (x ∙ same))
              ∙ ap (lookup j) (sym wrote)
              ∙ others j h)),
      ),
    )
