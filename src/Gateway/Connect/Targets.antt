-- ===== src/Gateway/Connect/Targets.antt =====
-- Where the traffic of a session may go, and where a decision comes from.
use ztna_project.Base.{
  ℕ, ◌≤◌, ◌≡◌, refl, ap, sym, ◌∙◌, ◌⊎◌, inl, inr, Bool, true, false, not, ◌||◌, Option, none, some,
  arith, if◌then◌else◌, Bool-cases, ℤ, pos, negsuc, is_positive, Text, is_empty, split_host_port,
  scan_int,
}
use ztna_project.Gateway.Config.{Route, resolve_route}
use ztna_project.Gateway.Config.Routes.{IsFirst, resolve_route-some}
use ztna_project.Gateway.Connect.{
  ResourceTarget, ResolvedResource, Handler, Resolution, rejects, to_target, Denial, direct_access,
  name_required, port_of, backend_port, by_port, by_address, by_name, by_route, by_client, legacy,
  resolved_target, canonical_target, resolve_target,
}

-- The address is a host and a port from 1 to 65535, written in the text.
abbrev IsBackend : Text → (host : Text) (port : ℕ) → Type 0
IsBackend backend host port =
    (p : Text) × (split_host_port backend ≡ some (host, p))
    × (backend_port p ≡ some port)
    × (1 ≤ port)
    × (port ≤ 65535)

-- The target is the backend that the control plane publishes under the name of the resource, and
-- the resource takes its type and address from there; or it is the target of the first route that
-- fits the resource.
abbrev pub IsAuthorisedTarget :
    Handler → ResourceTarget → (host : Text) (port : ℕ) → ResourceTarget → Type 0
IsAuthorisedTarget h r host port r' =
    ((get_resource : Text → Option ResolvedResource) × (resolved : ResolvedResource) × (h.resources
        ≡ some get_resource)
      × (get_resource r.name ≡ some resolved)
      × IsBackend resolved.backend host port
      × (r' ≡ resolved_target r resolved host port))
    ⊎ ((route : Route) × IsFirst r.type (canonical_target r) route h.routes
        × IsBackend route.target host port
        × (r' ≡ r))

port_of-some : (z : Option ℤ) (port : ℕ) → port_of z ≡ some port → (1 ≤ port) × (port ≤ 65535)
port_of-some none port e = ground (arith, e)
port_of-some (some (negsuc n)) port e = ground (arith, e)
port_of-some (some (pos n)) port e = ground (arith, e)

backend_port-bounds :
    (p : Text) (port : ℕ) → backend_port p ≡ some port → (1 ≤ port) × (port ≤ 65535)
unfolding backend_port
backend_port-bounds p port e = port_of-some (scan_int p) port e

to_target-injective :
    {h h' : Text} {n n' : ℕ} {r r' : ResourceTarget}
    → to_target h n r ≡ to_target h' n' r'
    → (h ≡ h') × (n ≡ n') × (r ≡ r')
to_target-injective e = (ground (arith, e), ground (arith, e), ground (arith, e))

by_port-target :
    (bad : Denial) (resource : Text → ℕ → ResourceTarget) (host : Text) (o : Option ℕ)
    (host' : Text) (port : ℕ) (r : ResourceTarget)
    → by_port bad resource host o ≡ to_target host' port r
    → (o ≡ some port) × (host ≡ host') × (r ≡ resource host port)
by_port-target bad resource host none host' port r e = ground (arith, e)
by_port-target bad resource host (some n) host' port r e =
    let (same, number, res) = to_target-injective e in
    (ap some number, same, sym res ∙ ap (λ x. resource host x) number)

by_address-target :
    (bad bad_port : Denial) (resource : Text → ℕ → ResourceTarget) (backend : Text)
    (o : Option (Text × Text)) (host : Text) (port : ℕ) (r : ResourceTarget)
    → split_host_port backend ≡ o
    → by_address bad bad_port resource o ≡ to_target host port r
    → IsBackend backend host port × (r ≡ resource host port)
by_address-target bad bad_port resource backend none host port r split e = ground (arith, e)
by_address-target bad bad_port resource backend (some (h, p)) host port r split e =
    let (found, same, res) = by_port-target bad_port resource h (backend_port p) host port r e in
    let (low, high) = backend_port-bounds p port found in
    (
      (p, split ∙ ap (λ x. some (x, p)) same, found, low, high),
      res ∙ ap (λ x. resource x port) same,
    )

by_name-target :
    (r : ResourceTarget) (o : Option ResolvedResource) (host : Text) (port : ℕ)
    (r' : ResourceTarget)
    → by_name r o ≡ to_target host port r'
    → (resolved : ResolvedResource) × (o ≡ some resolved)
      × IsBackend resolved.backend host port
      × (r' ≡ resolved_target r resolved host port)
by_name-target r none host port r' e = ground (arith, e)
by_name-target r (some resolved) host port r' e =
    let (backend, same) =
      by_address-target _ _ (resolved_target r resolved) resolved.backend _ host port r' refl e in
    (resolved, refl, backend, same)

by_route-target :
    (r : ResourceTarget) (o : Option Text) (host : Text) (port : ℕ) (r' : ResourceTarget)
    → by_route r o ≡ to_target host port r'
    → (target : Text) × (o ≡ some target) × IsBackend target host port × (r' ≡ r)
by_route-target r none host port r' e = ground (arith, e)
by_route-target r (some target) host port r' e =
    let (backend, same) = by_address-target _ _ (λ host port. r) target _ host port r' refl e in
    (target, refl, backend, same)

past_rejection :
    (failing : Bool) (d : Denial) (rest : Resolution) (host : Text) (port : ℕ) (r : ResourceTarget)
    → (if failing then rejects d else rest) ≡ to_target host port r
    → rest ≡ to_target host port r
past_rejection true d rest host port r e = ground (arith, e)
past_rejection false d rest host port r e = e

legacy-target :
    (h : Handler) (r : ResourceTarget) (host : Text) (port : ℕ) (r' : ResourceTarget)
    → legacy h.routes r ≡ to_target host port r'
    → IsAuthorisedTarget h r host port r'
legacy-target h r host port r' e =
    let e1 =
      past_rejection (is_empty r.host || not (is_positive r.port)) name_required _ host port r' e in
    let e2 = past_rejection (is_empty h.routes) direct_access _ host port r' e1 in
    let (target, found, (p, split, number, low, high), same) =
      by_route-target r (resolve_route r.type (canonical_target r) h.routes) host port r' e2 in
    let (route, first, leads) =
      resolve_route-some r.type (canonical_target r) target h.routes found in
    inr (route, first, (p, ap split_host_port leads ∙ split, number, low, high), same)

by_client-target :
    (h : Handler) (r : ResourceTarget) (o : Option (Text → Option ResolvedResource)) (host : Text)
    (port : ℕ) (r' : ResourceTarget)
    → h.resources ≡ o
    → by_client h.routes r o ≡ to_target host port r'
    → IsAuthorisedTarget h r host port r'
by_client-target h r none host port r' client e = legacy-target h r host port r' e
by_client-target h r (some get_resource) host port r' client e =
    let (resolved, found, backend, same) = by_name-target r (get_resource r.name) host port r' e in
    inl (get_resource, resolved, client, found, backend, same)

-- The gateway relays traffic only to the backend that the control plane publishes under the name of
-- the resource, or to the target of the first route that fits it, and to a port from 1 to 65535: an
-- address that the client chooses is never a target by itself.
pub resolve_target-IsAuthorisedTarget :
    (h : Handler) (r : ResourceTarget) (host : Text) (port : ℕ) (r' : ResourceTarget)
    → resolve_target h r ≡ to_target host port r'
    → IsAuthorisedTarget h r host port r'
unfolding resolve_target
resolve_target-IsAuthorisedTarget h r host port r' e = elim (Bool-cases (is_empty r.name)) [
  | inl unnamed ↦
      let e' : legacy h.routes r ≡ to_target host port r' = rw (unnamed, resolve_target) at e in
      legacy-target h r host port r' e'
  | inr named ↦
      let e' : by_client h.routes r h.resources ≡ to_target host port r' =
        rw (named, resolve_target) at e in
      by_client-target h r h.resources host port r' refl e'
]
