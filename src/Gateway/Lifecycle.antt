-- ===== src/Gateway/Lifecycle.antt =====
-- gateway/internal/usecase/lifecycle/lifecycle.go: the shutdown of the gateway's components. What
-- closing a component yields is part of it; the deadline only bounds what a component may take.
use mathlib.Core.List.{reverse, append-nil, append_assoc}
use ztna_project.Base.{◌≡◌, refl, sym, ap, ◌∙◌, Option, none, some, List, [], ◌∷◌, ◌++◌, map, Text}

-- A component with its name, and the error of its Close.
pub record NamedComponent : Type 0 where
  pub name : Text
  pub close : Option Text

pub record ShutdownOrchestrator : Type 0 where
  pub components : List NamedComponent

unfoldable new_shutdown_orchestrator : ShutdownOrchestrator
new_shutdown_orchestrator = record { components = [] }

unfoldable pub register : NamedComponent → ShutdownOrchestrator → ShutdownOrchestrator
register c o = record { components = o.components ++ c ∷ [] }

abbrev or_first : Option Text → Option Text → Option Text
or_first (some e) later = some e
or_first none later = later

abbrev cons_closed : Text → List Text × Option Text → List Text × Option Text
cons_closed name (closed, e) = (name ∷ closed, e)

-- The loop, over the components in the order in which it visits them: the names that it closes,
-- one after the other, and its first error.
unfoldable close_all : List NamedComponent → (first : Option Text) → List Text × Option Text
close_all [] first = ([], first)
close_all (c ∷ rest) first = cons_closed c.name (close_all rest (or_first first c.close))

-- Shutdown.
unfoldable shutdown : ShutdownOrchestrator → List Text × Option Text
unfolding close_all
shutdown o = close_all (reverse o.components) none

unfoldable register_all : List NamedComponent → ShutdownOrchestrator → ShutdownOrchestrator
unfolding register
register_all [] o = o
register_all (c ∷ rest) o = register_all rest (register c o)

-- The first error of a list of components.
abbrev first_error : List NamedComponent → Option Text
first_error [] = none
first_error (c ∷ rest) = or_first c.close (first_error rest)

or_first_assoc : (a b c : Option Text) → or_first (or_first a b) c ≡ or_first a (or_first b c)
or_first_assoc none b c = refl
or_first_assoc (some e) b c = refl

or_first-none : (a : Option Text) → or_first a none ≡ a
or_first-none none = refl
or_first-none (some e) = refl

close_all-eq :
    (cs : List NamedComponent) (first : Option Text)
    → close_all cs first ≡ (map (λ c. c.name) cs, or_first first (first_error cs))
unfolding close_all
close_all-eq [] first = ap (λ e. ([], e)) (sym (or_first-none first))
close_all-eq (c ∷ rest) first =
    ap (cons_closed c.name) (close_all-eq rest (or_first first c.close))
    ∙ ap (λ e. (c.name ∷ map (λ c. c.name) rest, e))
        (or_first_assoc first c.close (first_error rest))

register_all-components :
    (cs : List NamedComponent) (o : ShutdownOrchestrator)
    → (register_all cs o).components ≡ o.components ++ cs
unfolding register_all register
register_all-components [] o = sym (append-nil o.components)
register_all-components (c ∷ rest) o =
    register_all-components rest (register c o) ∙ append_assoc o.components (c ∷ []) rest

-- A shutdown comes to every component that was registered, whatever errors the others give: each is
-- closed once, in the reverse order of the registration, and the answer is the error of the first
-- that fails in this order, none where none does.
shutdown-register_all :
    (cs : List NamedComponent)
    → shutdown (register_all cs new_shutdown_orchestrator)
      ≡ (map (λ c. c.name) (reverse cs), first_error (reverse cs))
unfolding shutdown new_shutdown_orchestrator
shutdown-register_all cs =
    ap (λ l. close_all (reverse l) none) (register_all-components cs new_shutdown_orchestrator)
    ∙ close_all-eq (reverse cs) none
