-- ===== src/Gateway/Connect/Opening.antt =====
-- What stands behind a session that the gateway opens.
use ztna_project.Base.{
  ℕ, ◌≡◌, refl, ap, sym, ◌∙◌, ◌⊎◌, ◌≢◌, inl, inr, Bool, true, false, not, Option, none, some, [],
  arith, if◌then◌else◌, Text, codes, text_eq, text_eq_iff,
}
use ztna_project.Gateway.Session.{
  Session, Manager, RegisterResult, register, admit, get_session, registered, limit_reached,
}
use ztna_project.Gateway.Cache.{Cache}
use ztna_project.Gateway.Identity.{extract_subject_from_cert}
use ztna_project.Gateway.Session.Registration.{register_lem}
use ztna_project.Gateway.Connect.{
  ResourceTarget, ConnectRequest, AuthzResponse, Denial, Handler, State, Arrival, Resolution,
  rejects, to_target, resolve_target, resolve_decision, certificate_revoked, unreadable_request,
  unsupported_action, incomplete_request, by_policy, control_plane_down, session_limit,
}
use ztna_project.Gateway.Connect.Grounds.{
  IsEntitled, IsStoredFor, admit-IsStoredFor, IsWithheld, IsRefusable,
}
use ztna_project.Gateway.Connect.Handling.{
  Opening, refused, opened, is_on_list, new_session, after_register, after_decision, after_target,
  is_incomplete, after_request, open_session,
}

registered-injective : {i j : Text} → registered i ≡ registered j → i ≡ j
registered-injective e = ground (arith, e)

abbrev pub Outcome : Handler → Arrival → State → State × Opening → Type 0
Outcome h a st o =
    ((host : Text) × (port : ℕ) × (r : ResourceTarget) × (d : AuthzResponse) × (o.1
        ≡ opened a.session_id host port r d)
      × IsEntitled h a st host port r d
      × ((s : Session) × (get_session a.session_id o.0.sessions ≡ some s) × IsStoredFor a r d s))
    ⊎ ((reason : Denial) × (id : Text) × (o.1 ≡ refused reason id)
        × (o.0.sessions ≡ st.sessions)
        × IsRefusable h a st reason id)

-- Choosing between two outcomes.
Outcome-if :
    (h : Handler) (a : Arrival) (st : State) (b : Bool) (o p : State × Opening)
    → (b ≡ true → Outcome h a st o)
    → (b ≡ false → Outcome h a st p)
    → Outcome h a st (if b then o else p)
Outcome-if h a st true o p ho hp = ho refl
Outcome-if h a st false o p ho hp = hp refl

withheld :
    (h : Handler) (a : Arrival) (st : State) (req : ConnectRequest) (host : Text) (port : ℕ)
    (r : ResourceTarget) (reason : Denial) (id : Text)
    → a.request ≡ some req
    → resolve_target h req.resource ≡ to_target host port r
    → IsWithheld a st
        (resolve_decision h a (extract_subject_from_cert a.cert) req.action r st.cache).1
        reason
        id
    → IsRefusable h a st reason id
withheld h a st req host port r reason id read target why =
    inr (inr (req, read, inr (inr (inr (host, port, r, target, why)))))

not-text_eq : (t u : Text) → not (text_eq t u) ≡ true → t ≢ u
not-text_eq t u e = λ same. ground (arith, e, same, text_eq_iff t u)

after_register-Outcome :
    (h : Handler) (a : Arrival) (st : State) (cache : Option Cache) (host : Text) (port : ℕ)
    (r : ResourceTarget) (d : AuthzResponse) (rr : Manager × RegisterResult)
    → IsEntitled h a st host port r d
    → register a.session_id a.later (new_session a r d) st.sessions ≡ rr
    → Outcome h a st (after_register cache host port r d rr)
unfolding new_session
after_register-Outcome h a st cache host port r d (m, registered id) good e =
    elim (register_lem a.session_id a.later (new_session a r d) st.sessions) [
      | inl (_, _, full) ↦
          let clash = sym (ap (λ x. x.1) e) ∙ ap (λ x. x.1) full in ground (arith, clash)
      | inr (_, done, found, _) ↦
          let same : registered id ≡ registered a.session_id = sym (ap (λ x. x.1) e) ∙ done in
          inl (
            host,
            port,
            r,
            d,
            ap (λ i. opened i host port r d) (registered-injective same),
            good,
            (
              admit a.session_id a.later (new_session a r d),
              ap (λ x. get_session a.session_id x.0) (sym e) ∙ found,
              admit-IsStoredFor a r d,
            ),
          )
    ]
after_register-Outcome h a st cache host port r d (m, limit_reached count max) good e =
    let (_, (req, read, _, target, found, _)) = good in
    elim (register_lem a.session_id a.later (new_session a r d) st.sessions) [
      | inl (limited, reached, full) ↦ inr (
        session_limit,
        d.decision_id,
        refl,
        sym (ap (λ x. x.0) e) ∙ ap (λ x. x.0) full,
        withheld h a st req host port r session_limit d.decision_id read target
            (inr (d, found, refl, inr (refl, limited, reached))),
      )
      | inr (_, done, _, _) ↦ let clash = sym (ap (λ x. x.1) e) ∙ done in ground (arith, clash)
    ]

after_decision-Outcome :
    (h : Handler) (a : Arrival) (st : State) (req : ConnectRequest) (host : Text) (port : ℕ)
    (r : ResourceTarget) (dd : Option Cache × Option AuthzResponse)
    → is_on_list h.crl a.cert.serial ≡ false
    → a.request ≡ some req
    → req.action ≡ codes "connect"
    → resolve_target h req.resource ≡ to_target host port r
    → resolve_decision h a (extract_subject_from_cert a.cert) req.action r st.cache ≡ dd
    → Outcome h a st (after_decision a st.sessions host port r dd)
after_decision-Outcome h a st req host port r (cache, none) free read action target e = inr (
  control_plane_down,
  [],
  refl,
  refl,
  withheld h a st req host port r control_plane_down [] read target (inl (ap (λ x. x.1) e, refl)),
)
after_decision-Outcome h a st req host port r (cache, some d) free read action target e =
    Outcome-if h a st (not (text_eq d.decision (codes "allow"))) _ _
      (λ other. inr (
        by_policy d.reason,
        d.decision_id,
        refl,
        refl,
        withheld h a st req host port r (by_policy d.reason) d.decision_id read target (
            inr
              (d, ap (λ x. x.1) e, refl, inl (not-text_eq d.decision (codes "allow") other, refl))),
      ))
      (λ allowed.
        after_register-Outcome h a st cache host port r d _
          (
            free,
            (
              req,
              read,
              action,
              target,
              ap (λ x. x.1) e,
              ground (arith, allowed, text_eq_iff d.decision (codes "allow")),
            ),
          )
          refl)

after_target-Outcome :
    (h : Handler) (a : Arrival) (st : State) (req : ConnectRequest) (t : Resolution)
    → is_on_list h.crl a.cert.serial ≡ false
    → a.request ≡ some req
    → req.action ≡ codes "connect"
    → resolve_target h req.resource ≡ t
    → Outcome h a st (after_target h a st req.action t)
after_target-Outcome h a st req (rejects reason) free read action target =
    inr (reason, [], refl, refl, inr (inr (req, read, inr (inr (inl target)))))
after_target-Outcome h a st req (to_target host port r) free read action target =
    after_decision-Outcome h a st req host port r _ free read action target refl

after_request-Outcome :
    (h : Handler) (a : Arrival) (st : State)
    → is_on_list h.crl a.cert.serial ≡ false
    → (o : Option ConnectRequest) → a.request ≡ o
    → Outcome h a st (after_request h a st o)
after_request-Outcome h a st free none read =
    inr (unreadable_request, [], refl, refl, inr (inl (read, refl)))
after_request-Outcome h a st free (some req) read =
    Outcome-if h a st (not (text_eq req.action (codes "connect"))) _ _
      (λ other. inr (
        unsupported_action,
        [],
        refl,
        refl,
        inr (inr (req, read, inl (not-text_eq req.action (codes "connect") other, refl))),
      ))
      (λ action.
        Outcome-if h a st (is_incomplete req.resource) _ _
          (λ partial.
            inr (
              incomplete_request,
              [],
              refl,
              refl,
              inr (inr (req, read, inr (inl (partial, refl)))),
            ))
          (λ complete.
            after_target-Outcome h a st req _ free read
              (ground (arith, action, text_eq_iff req.action (codes "connect"))) refl))

-- Every connection ends in one of two ways: a session is opened, and then everything that entitles
-- to it holds and the session is stored, for the subject and the serial number of the certificate,
-- the resource and the decision, and where its lifetime is limited it ends that many seconds from
-- now; or it is refused, and the sessions are as they were. It is refused only for the reason that it
-- gives: a revoked certificate, a request that is not read, not to connect or not complete, a
-- resource that leads to no target, no decision or one that is not to allow, or the limit of
-- sessions of the subject.
pub open_session_cases :
    (h : Handler) (a : Arrival) (st : State) → Outcome h a st (open_session h a st)
unfolding open_session
open_session_cases h a st =
    Outcome-if h a st (is_on_list h.crl a.cert.serial) _ _
      (λ listed. inr (certificate_revoked, [], refl, refl, inl (listed, refl)))
      (λ free. after_request-Outcome h a st free a.request refl)
