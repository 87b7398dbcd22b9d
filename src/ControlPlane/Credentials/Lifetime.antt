-- ===== src/ControlPlane/Credentials/Lifetime.antt =====
-- The lifetime of a certificate.
use mathlib.Core.Path.{subst}
use ztna_project.Base.{
  ◌≡◌, inl, inr, Bool, true, false, ◌&&◌, arith, Bool-cases, ℤ, pos, negsuc, is_positive,
}
use ztna_project.ControlPlane.Model.{invalid_input, ok, past_guard, ok-injective}
use ztna_project.ControlPlane.Credentials.{int_ltb, clamp_ttl}

int_ltb_irrefl : (a : ℤ) → int_ltb a a ≡ false
int_ltb_irrefl (pos n) = ground arith
int_ltb_irrefl (negsuc n) = ground arith

int_ltb_asym : (a b : ℤ) → int_ltb a b ≡ true → int_ltb b a ≡ false
int_ltb_asym (pos m) (pos n) h = ground (arith, h)
int_ltb_asym (pos m) (negsuc n) h = ground (arith, h)
int_ltb_asym (negsuc m) (pos n) h = ground (arith, h)
int_ltb_asym (negsuc m) (negsuc n) h = ground (arith, h)

and-right : (a b : Bool) → (a && b) ≡ true → b ≡ true
and-right true b h = h
and-right false b h = ground (arith, h)

and-false : (a b : Bool) → (a && b) ≡ false → a ≡ true → b ≡ false
and-false true b h k = h
and-false false b h k = ground (arith, k)

-- What a granted lifetime satisfies.
abbrev pub IsGranted : (min max ttl t : ℤ) → Type 0
IsGranted min max ttl t =
    (is_positive max ≡ true → int_ltb max t ≡ false)
    × (int_ltb ttl t ≡ false)
    × (is_positive min ≡ true → int_ltb max min ≡ false → int_ltb t min ≡ false)

cut-IsGranted :
    (min max ttl : ℤ) → (is_positive max && int_ltb max ttl) ≡ true → IsGranted min max ttl max
cut-IsGranted min max ttl cut = (
  (λ bounded. int_ltb_irrefl max),
  int_ltb_asym max ttl (and-right (is_positive max) (int_ltb max ttl) cut),
  (λ bounded consistent. consistent),
)

kept-IsGranted :
    (min max ttl : ℤ)
    → (is_positive max && int_ltb max ttl) ≡ false
    → (is_positive min && int_ltb ttl min) ≡ false
    → IsGranted min max ttl ttl
kept-IsGranted min max ttl kept low = (
  (λ bounded. and-false (is_positive max) (int_ltb max ttl) kept bounded),
  int_ltb_irrefl ttl,
  (λ bounded consistent. and-false (is_positive min) (int_ltb ttl min) low bounded),
)

-- A lifetime that is granted is at most the maximum, where there is one, and never more than was
-- asked for; and it is at least the minimum, where there is one that the maximum does not undercut.
pub clamp_ttl_lem : (min max ttl t : ℤ) → clamp_ttl min max ttl ≡ ok t → IsGranted min max ttl t
unfolding clamp_ttl
clamp_ttl_lem min max ttl t e =
    let (low, e1) = past_guard (is_positive min && int_ltb ttl min) invalid_input _ _ e in
    elim (Bool-cases (is_positive max && int_ltb max ttl)) [
      | inl cut ↦
          let same : ok max ≡ ok t = rw cut at e1 in
          subst (IsGranted min max ttl) (ok-injective same) (cut-IsGranted min max ttl cut)
      | inr kept ↦
          let same : ok ttl ≡ ok t = rw kept at e1 in
          subst (IsGranted min max ttl) (ok-injective same) (kept-IsGranted min max ttl kept low)
    ]
