-- ===== src/Gateway/Session.antt =====
-- gateway/internal/infra/session/manager.go: the sessions that the gateway relays. The map of the
-- manager is an association list; the clock and the random identifiers are arguments; calling a
-- session's CancelFunc is reported in a list of the cancelled contexts.
pub mod Limits
pub mod Removal
pub mod Registration
use ztna_project.Base.{
  ℕ, ◌+◌, ◌*◌, ◌≡◌, Bool, not, ◌&&◌, true, false, Option, none, some, List, [], ◌∷◌, ◌++◌, arith,
  ltb, leb, if◌then◌else◌, ℤ, pos, is_positive, pos_part, Text, codes, text_eq, is_empty, length,
  lookup, insert, delete, keep, count_if, values,
}

-- Times are nanoseconds; a context is known by a number.
pub record Session : Type 0 where
  pub id : Text
  pub sub : Text
  pub username : Text
  pub resource_type : Text
  pub resource_name : Text
  pub resource_host : Text
  pub resource_port : ℤ
  pub started_at : ℕ
  pub source_ip : Text
  pub decision_id : Text
  pub ttl_seconds : ℤ
  pub expires_at : ℕ
  pub cancel_func : Option ℕ
  pub bytes_in : ℤ
  pub bytes_out : ℤ
  pub end_reason : Text
  pub cert_serial : Text

pub record Manager : Type 0 where
  pub sessions : List (Text × Session)
  pub max_per_subject : ℤ

abbrev pub second : ℕ
second = 1_000_000_000

unfoldable new_manager : Manager
new_manager = record { sessions = []; max_per_subject = pos 10 }

unfoldable pub new_manager_with_limits : ℤ → Manager
unfolding new_manager
new_manager_with_limits max =
    if is_positive max then record new_manager { max_per_subject = max } else new_manager

abbrev pub is_of : Text → Session → Bool
is_of sub s = text_eq s.sub sub

unfoldable pub active_count : Manager → ℕ
active_count m = length m.sessions

unfoldable pub active_count_for_subject : Text → Manager → ℕ
active_count_for_subject sub m = count_if (is_of sub) m.sessions

unfoldable list_active : Manager → List Session
unfolding values
list_active m = values m.sessions

unfoldable pub get_session : Text → Manager → Option Session
get_session id m = lookup id m.sessions

-- What Register writes into the session that it is given.
unfoldable pub admit : Text → ℕ → Session → Session
admit id now s = record s {
  id = id;
  started_at = now;
  expires_at =
      if is_positive s.ttl_seconds then now + pos_part s.ttl_seconds * second else s.expires_at;
}

pub data RegisterResult : Type 0 where
  registered : Text → RegisterResult
  limit_reached : (count : ℕ) (max : ℤ) → RegisterResult

-- `count >= m.maxPerSubject`, asked only where the limit is positive.
unfoldable pub is_full : Manager → Text → Bool
unfolding active_count_for_subject
is_full m sub =
    is_positive m.max_per_subject
    && leb (pos_part m.max_per_subject) (active_count_for_subject sub m)

-- `id` is the result of generateUUID.
unfoldable pub register : Text → ℕ → Session → Manager → Manager × RegisterResult
unfolding admit is_full
register id now s m =
    if is_full m s.sub
    then (m, limit_reached (active_count_for_subject s.sub m) m.max_per_subject)
    else (record m { sessions = insert id (admit id now s) m.sessions }, registered id)

unfoldable pub unregister : Text → Manager → Manager
unregister id m = elim (lookup id m.sessions) [
  | none ↦ m
  | some s ↦ record m { sessions = delete id m.sessions }
]

abbrev pub to_list {ℓ} : {A : Type ℓ} → Option A → List A
to_list none = []
to_list (some a) = a ∷ []

-- The new manager, the contexts that were cancelled, and whether the session was found.
unfoldable pub kill_session : Text → Manager → Manager × List ℕ × Bool
kill_session id m = elim (lookup id m.sessions) [
  | none ↦ (m, [], false)
  | some s ↦ (record m { sessions = delete id m.sessions }, to_list s.cancel_func, true)
]

abbrev pub has_serial : Text → Session → Bool
has_serial serial s = text_eq s.cert_serial serial

-- The sessions that the loop of KillBySerial collects.
unfoldable pub with_serial : Text → List (Text × Session) → List Session
with_serial serial [] = []
with_serial serial ((k, s) ∷ rest) =
    if has_serial serial s
    then record s { end_reason = codes "cert_revoked" } ∷ with_serial serial rest
    else with_serial serial rest

unfoldable pub cancel_all : List Session → List ℕ
cancel_all [] = []
cancel_all (s ∷ rest) = to_list s.cancel_func ++ cancel_all rest

-- The new manager, the contexts that were cancelled, and the number of sessions killed.
unfoldable pub kill_by_serial : Text → Manager → Manager × List ℕ × ℕ
unfolding with_serial cancel_all
kill_by_serial serial m = if is_empty serial then (m, [], 0) else (
  record m { sessions = keep (λ s. not (has_serial serial s)) m.sessions },
  cancel_all (with_serial serial m.sessions),
  length (with_serial serial m.sessions),
)

-- Set the final counters; an empty reason keeps the old one.
abbrev pub end_stats : ℤ → ℤ → Text → Session → Session
end_stats bytes_in bytes_out reason s = record s {
  bytes_in = bytes_in;
  bytes_out = bytes_out;
  end_reason = if is_empty reason then s.end_reason else reason;
}

unfoldable pub set_end_stats : Text → ℤ → ℤ → Text → Manager → Manager
set_end_stats id bytes_in bytes_out reason m = elim (lookup id m.sessions) [
  | none ↦ m
  | some s ↦ record m { sessions = insert id (end_stats bytes_in bytes_out reason s) m.sessions }
]

abbrev pub is_expired : ℕ → Session → Bool
is_expired now s = is_positive s.ttl_seconds && ltb s.expires_at now

-- The first loop of reapExpired, under the read lock.
unfoldable pub expired_ids : ℕ → List (Text × Session) → List Text
expired_ids now [] = []
expired_ids now ((k, s) ∷ rest) =
    if is_expired now s then k ∷ expired_ids now rest else expired_ids now rest

-- One round of its second loop, which takes the lock anew: the session may be gone by then.
unfoldable pub reap_one : Text → Manager → Manager × List ℕ
reap_one id m = elim (lookup id m.sessions) [
  | none ↦ (m, [])
  | some s ↦ (record m { sessions = delete id m.sessions }, to_list s.cancel_func)
]

unfoldable pub reap_all : List Text → Manager → Manager × List ℕ
unfolding reap_one
reap_all [] m = (m, [])
reap_all (id ∷ ids) m =
    let (m₁, cancelled) = reap_one id m in
    let (m₂, more) = reap_all ids m₁ in (m₂, cancelled ++ more)

unfoldable pub reap_expired : ℕ → Manager → Manager × List ℕ
unfolding expired_ids reap_all
reap_expired now m = reap_all (expired_ids now m.sessions) m

-- The calls that change the manager. A call of the collector is two: the expired identifiers are
-- collected, and each is reaped later, between other calls.
pub data Call : Type 0 where
  registers : (id : Text) (now : ℕ) → Session → Call
  unregisters kills reaps : Text → Call
  kills_serial : Text → Call
  ends : (id : Text) (bytes_in bytes_out : ℤ) (reason : Text) → Call

unfoldable pub step : Call → Manager → Manager
step (registers id now s) m = (register id now s m).0
step (unregisters id) m = unregister id m
step (kills id) m = (kill_session id m).0
step (reaps id) m = (reap_one id m).0
step (kills_serial serial) m = (kill_by_serial serial m).0
step (ends id bytes_in bytes_out reason) m = set_end_stats id bytes_in bytes_out reason m

unfoldable pub run : List Call → Manager → Manager
unfolding step
run [] m = m
run (c ∷ cs) m = run cs (step c m)
