-- ===== src/Gateway/Session/Limits.antt =====
-- The limit on the sessions of one subject, over any history of calls.
use native.Mathlib.Nat.{le_trans}
use ztna_project.Base.{
  ℕ, ◌≤◌, ◌≡◌, refl, Bool, true, false, not, List, [], ◌∷◌, arith, inl, inr, if◌then◌else◌,
  Bool-cases, Option-cases, ℤ, pos, is_positive, pos_part, Text, text_eq, lookup, insert, delete,
  keep, count_if, negsuc, HasDistinctKeys, insert-HasDistinctKeys, delete-HasDistinctKeys,
  keep-HasDistinctKeys, count_if-insert, count_if-delete, count_if-keep, count_if-insert_same,
  text_eq_iff, ◌<◌, ◌∙◌,
}
use ztna_project.Gateway.Session.{
  Session, Manager, new_manager_with_limits, is_of, active_count_for_subject, admit, is_full,
  register, unregister, kill_session, has_serial, kill_by_serial, end_stats, set_end_stats,
  reap_one, Call, registers, unregisters, kills, reaps, kills_serial, ends, step, run,
}

-- The keys of the map are distinct, and no subject has more sessions than the limit.
pub record IsValid (m : Manager) : Type 0 where
  pub distinct : HasDistinctKeys m.sessions
  pub limited :
      (sub : Text)
      → is_positive m.max_per_subject ≡ true
      → count_if (is_of sub) m.sessions ≤ pos_part m.max_per_subject

count_if-admit :
    (sub id : Text) (now : ℕ) (s : Session) (m : Manager)
    → is_full m s.sub ≡ false
    → is_positive m.max_per_subject ≡ true
    → count_if (is_of sub) m.sessions ≤ pos_part m.max_per_subject
    → count_if (is_of sub) (insert id (admit id now s) m.sessions) ≤ pos_part m.max_per_subject
unfolding is_full active_count_for_subject admit
count_if-admit sub id now s m free p h = elim (Bool-cases (text_eq s.sub sub)) [
  | inl same ↦
      let e : s.sub ≡ sub = (text_eq_iff s.sub sub).0 same in
      let below : count_if (is_of sub) m.sessions < pos_part m.max_per_subject =
        rw (← e) (ground (arith, free, p)) in
      ground (arith, count_if-insert (is_of sub) id (admit id now s) m.sessions, below)
  | inr other ↦ ground (arith, count_if-insert (is_of sub) id (admit id now s) m.sessions)
]

register-IsValid :
    (id : Text) (now : ℕ) (s : Session) (m : Manager) → IsValid m → IsValid (register id now s m).0
unfolding register
register-IsValid id now s m v = elim (Bool-cases (is_full m s.sub)) [
  | inl full ↦ rw (full, register) v
  | inr free ↦
      rw (free, register)
        (record {
          distinct = insert-HasDistinctKeys id (admit id now s) m.sessions v.distinct;
          limited = λ sub p. count_if-admit sub id now s m free p (v.limited sub p);
        })
]

delete-IsValid :
    (id : Text) (m : Manager) → IsValid m → IsValid (record m { sessions = delete id m.sessions })
delete-IsValid id m v = record {
  distinct = delete-HasDistinctKeys id m.sessions v.distinct;
  limited = λ sub p. le_trans (count_if-delete (is_of sub) id m.sessions) (v.limited sub p);
}

keep-IsValid :
    (p : Session → Bool) (m : Manager)
    → IsValid m
    → IsValid (record m { sessions = keep p m.sessions })
keep-IsValid p m v = record {
  distinct = keep-HasDistinctKeys p m.sessions v.distinct;
  limited = λ sub h. le_trans (count_if-keep (is_of sub) p m.sessions) (v.limited sub h);
}

unregister-IsValid : (id : Text) (m : Manager) → IsValid m → IsValid (unregister id m)
unfolding unregister
unregister-IsValid id m v = elim (Option-cases (lookup id m.sessions)) [
  | inl missing ↦ rw (missing, unregister) v
  | inr (s, found) ↦ rw (found, unregister) (delete-IsValid id m v)
]

kill_session-IsValid : (id : Text) (m : Manager) → IsValid m → IsValid (kill_session id m).0
unfolding kill_session
kill_session-IsValid id m v = elim (Option-cases (lookup id m.sessions)) [
  | inl missing ↦ rw (missing, kill_session) v
  | inr (s, found) ↦ rw (found, kill_session) (delete-IsValid id m v)
]

reap_one-IsValid : (id : Text) (m : Manager) → IsValid m → IsValid (reap_one id m).0
unfolding reap_one
reap_one-IsValid id m v = elim (Option-cases (lookup id m.sessions)) [
  | inl missing ↦ rw (missing, reap_one) v
  | inr (s, found) ↦ rw (found, reap_one) (delete-IsValid id m v)
]

pub kill_by_serial-IsValid :
    (serial : Text) (m : Manager) → IsValid m → IsValid (kill_by_serial serial m).0
unfolding kill_by_serial
kill_by_serial-IsValid [] m v = v
kill_by_serial-IsValid (c ∷ serial) m v = keep-IsValid (λ s. not (has_serial (c ∷ serial) s)) m v

set_end_stats-IsValid :
    (id : Text) (bytes_in bytes_out : ℤ) (reason : Text) (m : Manager)
    → IsValid m
    → IsValid (set_end_stats id bytes_in bytes_out reason m)
unfolding set_end_stats
set_end_stats-IsValid id bytes_in bytes_out reason m v =
    elim (Option-cases (lookup id m.sessions)) [
      | inl missing ↦ rw (missing, set_end_stats) v
      | inr (s, found) ↦
          rw (found, set_end_stats)
            (record {
              distinct = insert-HasDistinctKeys id _ m.sessions v.distinct;
              limited = λ sub p.
                  le_trans
                    (count_if-insert_same (is_of sub) id (end_stats bytes_in bytes_out reason s)
                      m.sessions found refl)
                    (v.limited sub p);
            })
    ]

step-IsValid : (c : Call) (m : Manager) → IsValid m → IsValid (step c m)
unfolding step
step-IsValid (registers id now s) m v = register-IsValid id now s m v
step-IsValid (unregisters id) m v = unregister-IsValid id m v
step-IsValid (kills id) m v = kill_session-IsValid id m v
step-IsValid (reaps id) m v = reap_one-IsValid id m v
step-IsValid (kills_serial serial) m v = kill_by_serial-IsValid serial m v
step-IsValid (ends id i o r) m v = set_end_stats-IsValid id i o r m v

pub run-IsValid : (cs : List Call) (m : Manager) → IsValid m → IsValid (run cs m)
unfolding run
run-IsValid [] m v = v
run-IsValid (c ∷ cs) m v = run-IsValid cs (step c m) (step-IsValid c m v)

step-max_per_subject : (c : Call) (m : Manager) → (step c m).max_per_subject ≡ m.max_per_subject
unfolding step register unregister kill_session reap_one kill_by_serial set_end_stats
step-max_per_subject (registers id now s) m = ground arith
step-max_per_subject (kills_serial serial) m = ground arith
step-max_per_subject _ m = ground arith

run-max_per_subject :
    (cs : List Call) (m : Manager) → (run cs m).max_per_subject ≡ m.max_per_subject
unfolding run
run-max_per_subject [] m = refl
run-max_per_subject (c ∷ cs) m = run-max_per_subject cs (step c m) ∙ step-max_per_subject c m

-- The configured limit, 10 where it is not positive.
abbrev limit_of : ℤ → ℕ
limit_of max = if is_positive max then pos_part max else 10

new_manager_with_limits_lem :
    (max : ℤ)
    → ((new_manager_with_limits max).sessions ≡ [])
      × ((new_manager_with_limits max).max_per_subject ≡ pos (limit_of max))
      × (0 < limit_of max)
unfolding new_manager_with_limits
new_manager_with_limits_lem (pos n) = (ground arith, ground arith, ground arith)
new_manager_with_limits_lem (negsuc n) = (refl, refl, omega arith)

pub new_manager_with_limits-IsValid : (max : ℤ) → IsValid (new_manager_with_limits max)
unfolding HasDistinctKeys count_if
new_manager_with_limits-IsValid max =
    let (empty, same, positive) = new_manager_with_limits_lem max in
    record { distinct = rw empty tt; limited = λ sub p. rw empty (omega arith) }

-- Whatever calls reach a manager made with a limit, in whatever order, a subject never has more
-- active sessions than the limit, or than 10 where the limit is not positive.
pub active_count_for_subject-run-le :
    (max : ℤ) (cs : List Call) (sub : Text)
    → active_count_for_subject sub (run cs (new_manager_with_limits max)) ≤ limit_of max
unfolding active_count_for_subject
active_count_for_subject-run-le max cs sub =
    let (empty, same, positive) = new_manager_with_limits_lem max in
    let kept = run-max_per_subject cs (new_manager_with_limits max) ∙ same in
    let valid = run-IsValid cs _ (new_manager_with_limits-IsValid max) in
    let bound = valid.limited sub (rw kept (ground arith)) in rw kept at bound
