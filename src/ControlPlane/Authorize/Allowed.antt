-- ===== src/ControlPlane/Authorize/Allowed.antt =====
-- What stands behind an access that the control plane allows.
use mathlib.Core.Path.{subst}
use ztna_project.Base.{
  ◌≡◌, ap, sym, ◌∙◌, inl, inr, Bool, true, some, List, [], ◌∷◌, ◌++◌, arith, Text,
}
use ztna_project.ControlPlane.Model.{Subject, Resource, Decision, allow, ok}
use ztna_project.ControlPlane.PolicyStore.{PolicyDb}
use ztna_project.ControlPlane.Gateways.{GatewayDb}
use ztna_project.ControlPlane.Requests.{AuthorizeRequest, validate_request}
use ztna_project.ControlPlane.Authorize.{Surroundings, AuditEvent, decided, access_of, authorize}
use ztna_project.ControlPlane.Authorize.Reached.{Allows, IsReached, reached-allow}
use ztna_project.ControlPlane.Authorize.Gate.{AsksRegistered}
use ztna_project.ControlPlane.Authorize.Grants.{Records, authorize_cases}

decided-injective : {x y : Decision} → decided x ≡ decided y → x ≡ y
decided-injective e = ground (arith, e)

-- An access is allowed only on a valid request, only for a gateway that is registered and active
-- where this is required, and only by a rule of the active policy with that effect, the first that
-- applies to the request; and the audit ends with a row that tells of it, when the database takes
-- the row.
pub authorize-allow :
    (is_ip : Text → Bool) (w : Surroundings) (policies : PolicyDb) (gateways : GatewayDb)
    (req : AuthorizeRequest) (events : List AuditEvent) (d : Decision)
    → (authorize is_ip w policies gateways (some req) events).0 ≡ decided d
    → d.effect ≡ allow
    → AsksRegistered w gateways
      × ((subject : Subject) × (resource : Resource) × (validate_request req
            ≡ ok (subject, resource))
          × Allows policies (access_of w req subject resource) d
          × (w.stored ≡ true
              → (event : AuditEvent) × Records w req subject resource d event
                × ((authorize is_ip w policies gateways (some req) events).1
                    ≡ events ++ event ∷ [])))
authorize-allow is_ip w policies gateways req events d e granted =
    elim (authorize_cases is_ip w policies gateways (some req) events) [
      | inl (req', body, asks, (subject, resource, d', valid, found, (answer, told, _))) ↦
          let same : d' ≡ d = decided-injective (sym answer ∙ e) in
          let asked : req' ≡ req = ground (arith, body) in
          let allowed =
            reached-allow w policies (access_of w req' subject resource) d
              (subst (IsReached w policies (access_of w req' subject resource)) same found)
              granted in
          (
            asks,
            (
              subject,
              resource,
              ap validate_request (sym asked) ∙ valid,
              subst (λ x. Allows policies (access_of w x subject resource) d) asked allowed,
              λ stored.
                  let (event, tells, added) = told stored in
                  (
                    event,
                    subst (λ x. Records w x subject resource d event) asked
                        (subst (λ x. Records w req' subject resource x event) same tells),
                    added,
                  ),
            ),
          )
      | inr (_, (_, undecided)) ↦ let absurd = undecided d e in ground (arith, absurd)
    ]
