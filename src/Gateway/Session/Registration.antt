-- ===== src/Gateway/Session/Registration.antt =====
-- What Register answers and stores.
use ztna_project.Base.{
  ℕ, ◌≤◌, ◌≡◌, ◌≢◌, ◌⊎◌, inl, inr, true, false, some, arith, Bool-cases, is_positive, pos_part,
  Text, text_eq_iff, text_eq_refl, lookup-insert,
}
use ztna_project.Gateway.Session.{
  Session, Manager, active_count_for_subject, get_session, admit, is_full, register, registered,
  limit_reached,
}

-- Either the limit is positive and reached, the error carries the count and the limit and the
-- manager stays as it was; or it is not, the session stands under the new identifier, with its
-- start, its deadline and its identifier filled in, and every other identifier leads where it did.
pub register_lem :
    (id : Text) (now : ℕ) (s : Session) (m : Manager)
    → ((is_positive m.max_per_subject ≡ true)
        × (pos_part m.max_per_subject ≤ active_count_for_subject s.sub m)
        × (register id now s m
            ≡ (m, limit_reached (active_count_for_subject s.sub m) m.max_per_subject)))
      ⊎ ((is_full m s.sub ≡ false)
          × ((register id now s m).1 ≡ registered id)
          × (get_session id (register id now s m).0 ≡ some (admit id now s))
          × ((j : Text) → j ≢ id → get_session j (register id now s m).0 ≡ get_session j m))
unfolding register get_session is_full
register_lem id now s m = elim (Bool-cases (is_full m s.sub)) [
  | inl full ↦ inl (ground arith, ground arith, rw (full, register))
  | inr free ↦ inr (
    free,
    rw (free, register),
    rw (free, register, lookup-insert id id (admit id now s) m.sessions, text_eq_refl id),
    λ j other.
        rw (free, register)
          (ground (arith, lookup-insert id j (admit id now s) m.sessions, text_eq_iff id j)),
  )
]
