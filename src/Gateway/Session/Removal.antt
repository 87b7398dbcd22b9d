-- ===== src/Gateway/Session/Removal.antt =====
-- How sessions leave the manager: kills, revoked certificates, expiry.
use mathlib.Core.List.{Mem, mem-append_right, mem-cons_self}
use ztna_project.Base.{
  ℕ, ◌+◌, ◌≡◌, refl, ◌≢◌, ◌∙◌, sym, ◌⊎◌, inl, inr, Bool, true, false, not, ◌||◌, Option, none, some,
  List, [], ◌∷◌, arith, if◌then◌else◌, Bool-cases, Option-cases, Text, text_eq, text_eq_iff,
  text_eq_refl, length, lookup, keep, count_if, HasDistinctKeys, lookup-delete, lookup-keep,
  lookup-keep-none, length-keep-not,
}
use ztna_project.Gateway.Session.{
  Session, Manager, get_session, active_count, kill_session, to_list, has_serial, with_serial,
  cancel_all, kill_by_serial, is_expired, expired_ids, reap_one, reap_all, reap_expired,
}
use ztna_project.Gateway.Session.Limits.{IsValid}

-- Killing an identifier removes it and nothing else, and cancels the context of the session that
-- stood there, if there was one and it had one; the answer says whether there was one.
kill_session_lem :
    (id : Text) (m : Manager)
    → (get_session id (kill_session id m).0 ≡ none)
      × ((j : Text) → j ≢ id → get_session j (kill_session id m).0 ≡ get_session j m)
      × (((get_session id m ≡ none)
            × ((kill_session id m).2 ≡ false)
            × ((kill_session id m).1 ≡ []))
          ⊎ ((s : Session) × (get_session id m ≡ some s)
              × ((kill_session id m).2 ≡ true)
              × ((kill_session id m).1 ≡ to_list s.cancel_func)))
unfolding kill_session get_session
kill_session_lem id m = elim (Option-cases (lookup id m.sessions)) [
  | inl missing ↦ rw (missing, kill_session) (missing, λ j _. refl, inl (refl, refl, refl))
  | inr (s, found) ↦
      rw (found, kill_session)
        (
          ground (arith, lookup-delete id id m.sessions, text_eq_refl id),
          λ j other. ground (arith, lookup-delete id j m.sessions, text_eq_iff id j),
          inr (s, refl, refl, refl),
        )
]

length-with_serial :
    (serial : Text) (xs : List (Text × Session))
    → length (with_serial serial xs) ≡ count_if (has_serial serial) xs
unfolding with_serial count_if
length-with_serial serial [] = refl
length-with_serial serial ((k, s) ∷ xs) = ground (arith, length-with_serial serial xs)

-- What a lookup finds, if it passes the test.
abbrev pub filter_found : (Session → Bool) → Option Session → Option Session
filter_found p none = none
filter_found p (some s) = if p s then some s else none

lookup-keep_found :
    (p : Session → Bool) (k : Text) (xs : List (Text × Session))
    → HasDistinctKeys xs
    → lookup k (keep p xs) ≡ filter_found p (lookup k xs)
lookup-keep_found p k xs h = elim (Option-cases (lookup k xs)) [
  | inl missing ↦ rw missing (lookup-keep-none p k xs missing)
  | inr (s, found) ↦ rw found (lookup-keep p k xs h found)
]

-- With a serial that is not empty, KillBySerial removes exactly the sessions opened with that
-- certificate, and answers how many it removed.
pub kill_by_serial_lem :
    (serial : Text) (m : Manager)
    → IsValid m
    → serial ≢ []
    → ((id : Text)
        → get_session id (kill_by_serial serial m).0
          ≡ filter_found (λ s. not (has_serial serial s)) (get_session id m))
      × (active_count (kill_by_serial serial m).0 + (kill_by_serial serial m).2 ≡ active_count m)
unfolding kill_by_serial get_session active_count
kill_by_serial_lem [] m v h = absurd (h refl)
kill_by_serial_lem (c ∷ serial) m v h = (
  λ id. lookup-keep_found _ id m.sessions v.distinct,
  rw (length-with_serial (c ∷ serial) m.sessions)
      (length-keep-not (has_serial (c ∷ serial)) m.sessions),
)

with_serial-cancels :
    (serial id : Text) (xs : List (Text × Session)) (s : Session) (ctx : ℕ)
    → lookup id xs ≡ some s
    → has_serial serial s ≡ true
    → s.cancel_func ≡ some ctx
    → Mem ctx (cancel_all (with_serial serial xs))
unfolding with_serial cancel_all lookup
with_serial-cancels serial id [] s ctx found same cancels = cc
with_serial-cancels serial id ((k, t) ∷ xs) s ctx found same cancels =
    elim (Bool-cases (text_eq k id)) [
      | inl here ↦
          let e : t ≡ s = ground arith in
          let has : has_serial serial t ≡ true = rw e same in
          let cancel : t.cancel_func ≡ some ctx = rw e cancels in rw (has, cancel) mem-cons_self
      | inr there ↦
          let rest = with_serial-cancels serial id xs s ctx (rw there at found) same cancels in
          elim (Bool-cases (has_serial serial t)) [
            | inl has ↦ rw has (mem-append_right (to_list t.cancel_func) rest)
            | inr lacks ↦ rw lacks rest
          ]
    ]

-- The context of every session that KillBySerial removes is cancelled.
kill_by_serial-cancels :
    (serial id : Text) (m : Manager) (s : Session) (ctx : ℕ)
    → get_session id m ≡ some s
    → has_serial serial s ≡ true
    → s.cancel_func ≡ some ctx
    → serial ≢ []
    → Mem ctx (kill_by_serial serial m).1
unfolding kill_by_serial get_session
kill_by_serial-cancels [] id m s ctx found same cancels h = absurd (h refl)
kill_by_serial-cancels (c ∷ serial) id m s ctx found same cancels h =
    with_serial-cancels (c ∷ serial) id m.sessions s ctx found same cancels

contains : Text → List Text → Bool
contains j [] = false
contains j (id ∷ ids) = text_eq id j || contains j ids

lookup-reap_one :
    (id : Text) (m : Manager) (j : Text)
    → lookup j (reap_one id m).0.sessions ≡ (if text_eq id j then none else lookup j m.sessions)
unfolding reap_one
lookup-reap_one id m j = elim (Option-cases (lookup id m.sessions)) [
  | inl missing ↦ rw (missing, reap_one) (ground (arith, text_eq_iff id j))
  | inr (s, found) ↦ rw (found, reap_one) (lookup-delete id j m.sessions)
]

lookup-reap_all :
    (ids : List Text) (m : Manager) (j : Text)
    → lookup j (reap_all ids m).0.sessions ≡ (if contains j ids then none else lookup j m.sessions)
unfolding reap_all contains
lookup-reap_all [] m j = refl
lookup-reap_all (id ∷ ids) m j =
    ground (arith, lookup-reap_one id m j, lookup-reap_all ids (reap_one id m).0 j)

abbrev expired_at : ℕ → Option Session → Bool
expired_at now none = false
expired_at now (some s) = is_expired now s

contains-expired_ids :
    (now : ℕ) (xs : List (Text × Session)) (j : Text)
    → HasDistinctKeys xs
    → contains j (expired_ids now xs) ≡ expired_at now (lookup j xs)
unfolding contains expired_ids HasDistinctKeys lookup
contains-expired_ids now [] j h = refl
contains-expired_ids now ((k, s) ∷ xs) j h = elim (Bool-cases (text_eq k j)) [
  | inl here ↦
      let gone : lookup j xs ≡ none = rw (← (text_eq_iff k j).0 here) h.0 in
      let later : contains j (expired_ids now xs) ≡ false =
        rw gone at (contains-expired_ids now xs j h.1) in
      elim (Bool-cases (is_expired now s)) [
        | inl over ↦ rw (over, here) (sym over)
        | inr live ↦ rw (live, here) (later ∙ sym live)
      ]
  | inr there ↦
      let later = contains-expired_ids now xs j h.1 in
      elim (Bool-cases (is_expired now s)) [
        | inl over ↦ rw (over, there) later
        | inr live ↦ rw (live, there) later
      ]
]

-- The collector removes exactly the sessions whose lifetime is limited and over.
pub reap_expired_lem :
    (now : ℕ) (m : Manager) (id : Text)
    → IsValid m
    → get_session id (reap_expired now m).0
      ≡ filter_found (λ s. not (is_expired now s)) (get_session id m)
unfolding reap_expired get_session
reap_expired_lem now m id v =
    rw
      (
        lookup-reap_all (expired_ids now m.sessions) m id,
        contains-expired_ids now m.sessions id v.distinct,
      )
      (found-cases (lookup id m.sessions))
  where
    found-cases :
        (o : Option Session)
        → (if expired_at now o then none else o) ≡ filter_found (λ s. not (is_expired now s)) o
    found-cases none = refl
    found-cases (some s) = elim (Bool-cases (is_expired now s)) [
      | inl over ↦ rw over
      | inr live ↦ rw live
    ]
