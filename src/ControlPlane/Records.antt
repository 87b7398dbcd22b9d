-- ===== src/ControlPlane/Records.antt =====
-- The records of the relayed sessions: control-plane/internal/store/sqlite/sessions.go,
-- control-plane/internal/service/session/session.go and the handlers of
-- control-plane/internal/api/handlers/pep_sessions.go. The clock is an argument.
pub mod Lifecycle
use ztna_project.Base.{
  Bool, true, false, not, ◌||◌, Option, none, some, List, [], if◌then◌else◌, ℤ, pos, Text, is_empty,
  lookup, insert,
}
use ztna_project.ControlPlane.Model.{Error, invalid_input, internal, Result, ok, err}

-- A row; a column that is NULL is empty or 0, as the query reads it.
pub record SessionRecord : Type 0 where
  pub session_id : Text
  pub decision_id : Text
  pub subject_sub : Text
  pub subject_username : Text
  pub device_serial : Text
  pub resource_type : Text
  pub resource_match : Text
  pub start_time : Text
  pub end_time : Text
  pub bytes_in : ℤ
  pub bytes_out : ℤ
  pub duration_ms : ℤ
  pub end_reason : Text

abbrev pub RecordDb : Type 0
RecordDb = List (Text × SessionRecord)

-- The identifier is the table's primary key.
unfoldable pub create_session : SessionRecord → RecordDb → Result RecordDb
create_session s db = elim (lookup s.session_id db) [
  | none ↦ ok (insert s.session_id s db)
  | some old ↦ err internal
]

pub record EndRequest : Type 0 where
  pub session_id : Text
  pub bytes_in : ℤ
  pub bytes_out : ℤ
  pub duration_ms : ℤ
  pub end_reason : Text

-- The columns that an end writes; it may come again, and then it writes them again.
abbrev pub completed : (now : Text) → EndRequest → SessionRecord → SessionRecord
completed now e s = record s {
  end_time = now;
  bytes_in = e.bytes_in;
  bytes_out = e.bytes_out;
  duration_ms = e.duration_ms;
  end_reason = e.end_reason;
}

unfoldable pub complete_session : (now : Text) → EndRequest → RecordDb → Result RecordDb
complete_session now e db = elim (lookup e.session_id db) [
  | none ↦ err internal
  | some s ↦ ok (insert e.session_id (completed now e s) db)
]

pub record StartRequest : Type 0 where
  pub session_id : Text
  pub decision_id : Text
  pub subject_sub : Text
  pub subject_username : Text
  pub device_serial : Text
  pub resource_type : Text
  pub resource_name : Text
  pub resource_match : Text

-- The insertion leaves the name of the resource out.
abbrev pub started : (now : Text) → StartRequest → SessionRecord
started now r = record {
  session_id = r.session_id;
  decision_id = r.decision_id;
  subject_sub = r.subject_sub;
  subject_username = r.subject_username;
  device_serial = r.device_serial;
  resource_type = r.resource_type;
  resource_match = r.resource_match;
  start_time = now;
  end_time = [];
  bytes_in = pos 0;
  bytes_out = pos 0;
  duration_ms = pos 0;
  end_reason = [];
}

-- The services repeat the handlers' checks of the identifiers.
unfoldable pub start_session : (now : Text) → StartRequest → RecordDb → Result RecordDb
unfolding create_session
start_session now r db =
    if is_empty r.session_id || is_empty r.decision_id
    then err internal
    else create_session (started now r) db

unfoldable pub end_session_record : (now : Text) → EndRequest → RecordDb → Result RecordDb
unfolding complete_session
end_session_record now e db =
    if is_empty e.session_id then err internal else complete_session now e db

-- The handlers; the body is `none` where it is no JSON of that form.
unfoldable pub start_handler : (now : Text) → Option StartRequest → RecordDb → Result RecordDb
unfolding start_session
start_handler now none db = err invalid_input
start_handler now (some r) db =
    if is_empty r.session_id || is_empty r.decision_id
    then err invalid_input
    else start_session now r db

unfoldable pub end_handler : (now : Text) → Option EndRequest → RecordDb → Result RecordDb
unfolding end_session_record
end_handler now none db = err invalid_input
end_handler now (some e) db =
    if is_empty e.session_id then err invalid_input else end_session_record now e db
