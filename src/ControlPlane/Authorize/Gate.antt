-- ===== src/ControlPlane/Authorize/Gate.antt =====
-- The check of the gateway that asks for a decision.
use ztna_project.Base.{
  ◌≡◌, refl, ap, sym, ◌∙◌, ◌≢◌, inl, inr, Bool, true, false, not, Option, none, some, arith,
  if◌then◌else◌, Bool-cases, is_empty, lookup,
}
use ztna_project.ControlPlane.Model.{Decision, Error, unauthorized}
use ztna_project.ControlPlane.Gateways.{
  Gateway, GatewayDb, HeartbeatStatus, registered, unregistered, revoked, status_of,
}
use ztna_project.ControlPlane.Gateways.Liveness.{status_of_row, status_of_lem}
use ztna_project.ControlPlane.Authorize.{Surroundings, Answer, decided, failed, gate, gate_of}

gate_of-none : (s : HeartbeatStatus × Option Error) → gate_of s ≡ none → s ≡ (registered, none)
gate_of-none (registered, none) e = refl
gate_of-none (registered, some x) e = ground (arith, e)
gate_of-none (unregistered, none) e = ground (arith, e)
gate_of-none (unregistered, some x) e = ground (arith, e)
gate_of-none (revoked, none) e = ground (arith, e)
gate_of-none (revoked, some x) e = ground (arith, e)

row-registered :
    (o : Option Gateway)
    → status_of_row o ≡ (registered, none)
    → (gw : Gateway) × (o ≡ some gw) × (gw.active ≡ true)
row-registered none e = ground (arith, e)
row-registered (some gw) e = elim (Bool-cases gw.active) [
  | inl act ↦ (gw, refl, act)
  | inr idle ↦ ground (arith, e, idle)
]

-- The row of the gateway that asks, where registration is required.
abbrev pub AsksRegistered : Surroundings → GatewayDb → Type 0
AsksRegistered w gateways =
    w.require_registration ≡ true
    → (gw : Gateway) × (lookup w.pep_id gateways ≡ some gw) × (gw.active ≡ true)

past_stop :
    (stopping : Bool) (answer : Answer) (rest : Option Answer)
    → (if stopping then some answer else rest) ≡ none
    → (stopping ≡ false) × (rest ≡ none)
past_stop true answer rest e = ground (arith, e)
past_stop false answer rest e = (refl, e)

past_skip :
    (required : Bool) (rest : Option Answer)
    → (if not required then none else rest) ≡ none
    → required ≡ true
    → rest ≡ none
past_skip true rest e h = e
past_skip false rest e h = ground (arith, h)

pub gate-none :
    (w : Surroundings) (gateways : GatewayDb) → gate w gateways ≡ none → AsksRegistered w gateways
unfolding gate
gate-none w gateways e required =
    let (named, e1) =
      past_stop (is_empty w.pep_id) (failed unauthorized) _
        (past_skip w.require_registration _ e required) in
    row-registered (lookup w.pep_id gateways)
      (sym (status_of_lem w.pep_id gateways named) ∙ gate_of-none (status_of w.pep_id gateways) e1)

gate_of-some :
    (s : HeartbeatStatus × Option Error) (answer : Answer) (d : Decision)
    → gate_of s ≡ some answer
    → answer ≢ decided d
gate_of-some (registered, none) answer d e = λ same. ground (arith, e, same)
gate_of-some (registered, some x) answer d e = λ same. ground (arith, e, same)
gate_of-some (unregistered, x) answer d e = λ same. ground (arith, e, same)
gate_of-some (revoked, x) answer d e = λ same. ground (arith, e, same)

pub gate-some :
    (w : Surroundings) (gateways : GatewayDb) (answer : Answer) (d : Decision)
    → gate w gateways ≡ some answer
    → answer ≢ decided d
unfolding gate
gate-some w gateways answer d e = elim (Bool-cases w.require_registration) [
  | inl required ↦ elim (Bool-cases (is_empty w.pep_id)) [
    | inl unnamed ↦ λ same. ground (arith, e, required, unnamed, same)
    | inr named ↦
        gate_of-some (status_of w.pep_id gateways) answer d (ground (arith, e, required, named))
  ]
  | inr free ↦ λ same. ground (arith, e, free, same)
]

-- Registration is required and no row of an active gateway has the name of the one that asks.
abbrev pub IsUnregistered : Surroundings → GatewayDb → Type 0
IsUnregistered w gateways =
    (w.require_registration ≡ true)
    × ((gw : Gateway)
        → is_empty w.pep_id ≡ false
        → lookup w.pep_id gateways ≡ some gw
        → gw.active ≢ true)

gate-free :
    (w : Surroundings) (gateways : GatewayDb)
    → w.require_registration ≡ false
    → gate w gateways ≡ none
unfolding gate
gate-free w gateways free = rw (free, gate) refl

let_through :
    (required unnamed : Bool) (g : Option Answer)
    → unnamed ≡ false
    → g ≡ none
    → (if not required then none else if unnamed then some (failed unauthorized) else g) ≡ none
let_through false unnamed g named e = refl
let_through true false g named e = e
let_through true true g named e = ground (arith, named)

gate-active :
    (w : Surroundings) (gateways : GatewayDb) (gw : Gateway)
    → is_empty w.pep_id ≡ false
    → lookup w.pep_id gateways ≡ some gw
    → gw.active ≡ true
    → gate w gateways ≡ none
unfolding gate
gate-active w gateways gw named found active =
    let row : status_of_row (lookup w.pep_id gateways) ≡ (registered, none) =
      rw (found, active) refl in
    let passed : gate_of (status_of w.pep_id gateways) ≡ none =
      ap gate_of (status_of_lem w.pep_id gateways named ∙ row) in
    let_through w.require_registration (is_empty w.pep_id) (gate_of (status_of w.pep_id gateways))
      named passed

pub gate-IsUnregistered :
    (w : Surroundings) (gateways : GatewayDb) (answer : Answer)
    → gate w gateways ≡ some answer
    → IsUnregistered w gateways
gate-IsUnregistered w gateways answer e = elim (Bool-cases w.require_registration) [
  | inl required ↦ (
    required,
    (λ gw named found active.
        (let clash = sym e ∙ gate-active w gateways gw named found active in
          ground (arith, clash))),
  )
  | inr free ↦
      let clash : some answer ≡ none = sym e ∙ gate-free w gateways free in ground (arith, clash)
]
