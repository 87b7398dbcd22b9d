-- ===== src/Base/Upper.antt =====
-- strings.ToUpper on ASCII, and a list of checks of which the first that fails counts.
use Prim.Native.Nat.{ℕ, ◌-◌}
use mathlib.Core.Path.{◌≡◌, refl}
use mathlib.Core.Bool.{Bool, true, false, ◌&&◌}
use mathlib.Core.Option.{Option, none, some}
use mathlib.Core.List.{List, [], ◌∷◌}
use native.Mathlib.Omega.{arith}
use ztna_project.Base.Tests.{leb, if◌then◌else◌}
use ztna_project.Base.Lists.{All}
use ztna_project.Base.Texts.{Text}

unfoldable upper_byte : ℕ → ℕ
upper_byte c = if leb b'a' c && leb c b'z' then c - 32 else c

unfoldable pub to_upper : Text → Text
unfolding upper_byte
to_upper [] = []
to_upper (c ∷ s) = upper_byte c ∷ to_upper s

module _ {E : Type 0} where
  -- The error of the first check whose test is true.
  unfoldable pub first_failing : List (Bool × E) → Option E
  first_failing [] = none
  first_failing ((failing, e) ∷ rest) =
      let later = first_failing rest in if failing then some e else later

  -- Without an error no test is true.
  pub first_failing-none :
      (checks : List (Bool × E)) → first_failing checks ≡ none → All (λ c. c.0 ≡ false) checks
  unfolding first_failing
  first_failing-none [] h = tt
  first_failing-none ((true, e) ∷ rest) h = ground (arith, h)
  first_failing-none ((false, e) ∷ rest) h = (refl, first_failing-none rest h)

  none-first_failing :
      (checks : List (Bool × E)) → All (λ c. c.0 ≡ false) checks → first_failing checks ≡ none
  unfolding first_failing
  none-first_failing [] h = refl
  none-first_failing ((failing, e) ∷ rest) h = ground (arith, none-first_failing rest h.1)
