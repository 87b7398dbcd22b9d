-- ===== src/Gateway/Revocation/Refresh.antt =====
-- What a refresh of the list of the revoked certificates does to the sessions.
use ztna_project.Base.{
  ℕ, ◌≡◌, refl, ap, sym, ◌∙◌, ◌≢◌, ◌↔◌, inl, inr, Bool, true, false, not, ◌||◌, Option, none, some,
  List, [], ◌∷◌, arith, Bool-cases, Text, text_eq, text_eq_iff, member, All,
}
use ztna_project.Gateway.Session.{Session, Manager, get_session, has_serial, kill_by_serial}
use ztna_project.Gateway.Session.Limits.{IsValid, kill_by_serial-IsValid}
use ztna_project.Gateway.Session.Removal.{filter_found, kill_by_serial_lem}
use ztna_project.Gateway.Revocation.{
  Store, is_revoked, newly_revoked, on_update, fetch_and_update, replace,
}

-- No session that the manager holds uses a certificate of the list. A serial number is never an
-- empty text.
abbrev pub NoneRevoked : Store → Manager → Type 0
NoneRevoked store m =
    (id : Text) (s : Session) → get_session id m ≡ some s → is_revoked s.cert_serial store ≡ false

on_update-IsValid :
    (serials : List Text) (m : Manager) → IsValid m → IsValid (on_update serials m).0
unfolding on_update
on_update-IsValid [] m v = v
on_update-IsValid (serial ∷ serials) m v =
    on_update-IsValid serials (kill_by_serial serial m).0 (kill_by_serial-IsValid serial m v)

filter_found-some :
    (p : Session → Bool) (o : Option Session) (s : Session)
    → filter_found p o ≡ some s
    → (o ≡ some s) × (p s ≡ true)
filter_found-some p none s e = ground (arith, e)
filter_found-some p (some x) s e = elim (Bool-cases (p x)) [
  | inl good ↦ let same : some x ≡ some s = rw good at e in (same, ground (arith, good, same))
  | inr bad ↦ let impossible : none ≡ some s = rw bad at e in ground (arith, impossible)
]

-- After the callback a session is one of before, and its certificate is not in the list.
on_update-survivor :
    (serials : List Text) (m : Manager) (id : Text) (s : Session)
    → IsValid m
    → All (λ serial. serial ≢ []) serials
    → get_session id (on_update serials m).0 ≡ some s
    → (get_session id m ≡ some s) × (member s.cert_serial serials ≡ false)
unfolding on_update member
on_update-survivor [] m id s v h e = (e, refl)
on_update-survivor (serial ∷ serials) m id s v (h, hs) e =
    let (left, rest) =
      on_update-survivor serials (kill_by_serial serial m).0 id s
        (kill_by_serial-IsValid serial m v) hs e in
    let (found, kept) =
      filter_found-some (λ x. not (has_serial serial x)) (get_session id m) s
        (sym ((kill_by_serial_lem serial m v h).0 id) ∙ left) in
    (
      found,
      ground
          (arith, rest, kept, text_eq_iff serial s.cert_serial, text_eq_iff s.cert_serial serial),
    )

or-false : (a b : Bool) → (a || b) ≡ false → (a ≡ false) × (b ≡ false)
or-false true b h = ground (arith, h)
or-false false b h = (refl, h)

member-newly_revoked :
    (serials : List Text) (store : Store) (t : Text)
    → is_revoked t store ≡ false
    → member t (newly_revoked serials store) ≡ false
    → member t serials ≡ false
unfolding newly_revoked member
member-newly_revoked [] store t old h = refl
member-newly_revoked (serial ∷ serials) store t old h =
    elim (Bool-cases (is_revoked serial store)) [
      | inl known ↦
          let h' : member t (newly_revoked serials store) ≡ false =
            rw (known, newly_revoked) at h in
          elim (Bool-cases (text_eq serial t)) [
            | inl same ↦
                let clash =
                  sym known ∙ ap (λ x. is_revoked x store) ((text_eq_iff serial t).0 same) ∙ old in
                ground (arith, clash)
            | inr differs ↦ rw (differs, member) (member-newly_revoked serials store t old h')
          ]
      | inr new ↦
          let h' : (text_eq serial t || member t (newly_revoked serials store)) ≡ false =
            rw (new, newly_revoked, member) at h in
          let (differs, rest) = or-false (text_eq serial t) _ h' in
          rw (differs, member) (member-newly_revoked serials store t old rest)
    ]

newly_revoked-All :
    (P : Text → Type 0) (serials : List Text) (store : Store)
    → All P serials
    → All P (newly_revoked serials store)
unfolding newly_revoked
newly_revoked-All P [] store h = tt
newly_revoked-All P (serial ∷ serials) store (h, hs) = elim (Bool-cases (is_revoked serial store)) [
  | inl known ↦ rw (known, newly_revoked) (newly_revoked-All P serials store hs)
  | inr new ↦ rw (new, newly_revoked) (h, newly_revoked-All P serials store hs)
]

filter_found-kept :
    (p : Session → Bool) (o : Option Session) (s : Session)
    → o ≡ some s
    → p s ≡ true
    → filter_found p o ≡ some s
filter_found-kept p none s e good = ground (arith, e)
filter_found-kept p (some x) s e good =
    let same : x ≡ s = ground (arith, e) in rw (same, good, filter_found)

-- A session whose certificate is not in the list stays, through the whole callback.
survivor-on_update :
    (serials : List Text) (m : Manager) (id : Text) (s : Session)
    → IsValid m
    → All (λ serial. serial ≢ []) serials
    → get_session id m ≡ some s
    → member s.cert_serial serials ≡ false
    → get_session id (on_update serials m).0 ≡ some s
unfolding on_update member
survivor-on_update [] m id s v h e apart = e
survivor-on_update (serial ∷ serials) m id s v (h, hs) e apart =
    let (differs, rest) = or-false (text_eq serial s.cert_serial) _ apart in
    let kept : not (has_serial serial s) ≡ true =
      ground (arith, differs, text_eq_iff serial s.cert_serial, text_eq_iff s.cert_serial serial) in
    let left =
      (kill_by_serial_lem serial m v h).0 id
      ∙ filter_found-kept (λ x. not (has_serial serial x)) (get_session id m) s e kept in
    survivor-on_update serials (kill_by_serial serial m).0 id s (kill_by_serial-IsValid serial m v)
      hs left rest

newly_revoked-member :
    (serials : List Text) (store : Store) (t : Text)
    → member t serials ≡ false
    → member t (newly_revoked serials store) ≡ false
unfolding newly_revoked member
newly_revoked-member [] store t h = refl
newly_revoked-member (serial ∷ serials) store t h =
    let (differs, rest) = or-false (text_eq serial t) _ h in
    let later = newly_revoked-member serials store t rest in
    elim (Bool-cases (is_revoked serial store)) [
      | inl known ↦ rw (known, newly_revoked) later
      | inr new ↦ rw (new, newly_revoked, differs, member) later
    ]

-- A refresh that succeeds makes the list the downloaded one. So that, with serial numbers that are
-- not empty and a valid session manager none of whose sessions used a certificate of the old list,
-- exactly those sessions are left whose certificates the new list does not name, as they were; and
-- no session with a revoked certificate is among them.
pub fetch_and_update-NoneRevoked :
    (now : ℕ) (serials : List Text) (store : Store) (m : Manager)
    → IsValid m
    → All (λ serial. serial ≢ []) serials
    → NoneRevoked store m
    → ((serial : Text)
        → is_revoked serial (fetch_and_update now (some serials) store m).0 ≡ member serial serials)
      × ((id : Text) (s : Session)
          → (get_session id (fetch_and_update now (some serials) store m).1 ≡ some s)
            ↔ ((get_session id m ≡ some s) × (member s.cert_serial serials ≡ false)))
      × NoneRevoked
          (fetch_and_update now (some serials) store m).0
          (fetch_and_update now (some serials) store m).1
unfolding fetch_and_update is_revoked replace
fetch_and_update-NoneRevoked now serials store m v h before =
    let new = newly_revoked-All (λ serial. serial ≢ []) serials store h in
    let left : (id : Text) (s : Session)
        → get_session id (on_update (newly_revoked serials store) m).0 ≡ some s
        → (get_session id m ≡ some s) × (member s.cert_serial serials ≡ false) =
      λ id s e.
        (let (found, fresh) = on_update-survivor (newly_revoked serials store) m id s v new e in
          (found, member-newly_revoked serials store s.cert_serial (before id s found) fresh)) in
    (
      (λ serial. refl),
      (λ id s. (
        left id s,
        (λ k.
            survivor-on_update (newly_revoked serials store) m id s v new k.0
              (newly_revoked-member serials store s.cert_serial k.1)),
      )),
      (λ id s e. (left id s e).1),
    )
