-- ===== src/Gateway/Config/Routes.antt =====
-- Which route a resource takes.
use ztna_project.Base.{
  ◌≡◌, refl, ◌⊎◌, inl, inr, true, false, none, some, List, [], ◌∷◌, All, arith, Bool-cases, Text,
}
use ztna_project.Gateway.Config.{Route, fits, resolve_route}

-- `r` is the first route of the list that fits.
pub data IsFirst (resource_type canonical : Text) (r : Route) : List Route → Type 0 where
  here :
      {rs : List Route}
      → fits resource_type canonical r ≡ true
      → IsFirst resource_type canonical r (r ∷ rs)
  there :
      {q : Route}
      → {rs : List Route} → fits resource_type canonical q ≡ false
      → IsFirst resource_type canonical r rs
      → IsFirst resource_type canonical r (q ∷ rs)

-- A resource is sent to a target only by the first route that fits it.
pub resolve_route-some :
    (resource_type canonical target : Text) (routes : List Route)
    → resolve_route resource_type canonical routes ≡ some target
    → (r : Route) × IsFirst resource_type canonical r routes × (r.target ≡ target)
unfolding resolve_route
resolve_route-some resource_type canonical target [] e = ground (arith, e)
resolve_route-some resource_type canonical target (r ∷ rs) e =
    elim (Bool-cases (fits resource_type canonical r)) [
      | inl fit ↦
          let same : some r.target ≡ some target = rw (fit, resolve_route) at e in
          (r, here fit, ground (arith, same))
      | inr unfit ↦
          let e' : resolve_route resource_type canonical rs ≡ some target =
            rw (unfit, resolve_route) at e in
          let (q, first, same) = resolve_route-some resource_type canonical target rs e' in
          (q, there unfit first, same)
    ]

-- Either a route fits, and the first one that does gives the target; or none fits, and there is no
-- target.
resolve_route_cases :
    (resource_type canonical : Text) (routes : List Route)
    → ((r : Route) × IsFirst resource_type canonical r routes
        × (resolve_route resource_type canonical routes ≡ some r.target))
      ⊎ (All (λ r. fits resource_type canonical r ≡ false) routes
          × (resolve_route resource_type canonical routes ≡ none))
unfolding resolve_route
resolve_route_cases resource_type canonical [] = inr (tt, refl)
resolve_route_cases resource_type canonical (r ∷ rs) =
    elim (Bool-cases (fits resource_type canonical r)) [
      | inl fit ↦ inl (r, here fit, rw (fit, resolve_route))
      | inr unfit ↦ elim (resolve_route_cases resource_type canonical rs) [
        | inl (q, first, same) ↦ inl (q, there unfit first, rw (unfit, resolve_route) same)
        | inr (all, missing) ↦ inr ((unfit, all), rw (unfit, resolve_route) missing)
      ]
    ]
