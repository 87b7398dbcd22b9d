-- ===== src/Base/Trim.antt =====
-- Laws of `to_lower` and `trim_space`.
use mathlib.Core.List.{reverse-append, reverse-reverse, reverse-cons}
use Prim.Native.Nat.{ℕ}
use mathlib.Core.Path.{◌≡◌, refl, ap, sym, ◌∙◌}
use mathlib.Core.Bool.{false}
use mathlib.Core.List.{[], ◌∷◌, ◌++◌, reverse}
use mathlib.Core.Logic.{inl, inr}
use native.Mathlib.Omega.{arith}
use ztna_project.Base.Tests.{Bool-cases}
use ztna_project.Base.Texts.{Text, lower_byte, to_lower, is_space, trim_left, trim_space}

lower_byte_idem : (c : ℕ) → lower_byte (lower_byte c) ≡ lower_byte c
unfolding lower_byte
lower_byte_idem c = ground arith

pub to_lower_idem : (s : Text) → to_lower (to_lower s) ≡ to_lower s
unfolding to_lower
to_lower_idem [] = refl
to_lower_idem (c ∷ s) = cc (lower_byte_idem c, to_lower_idem s)

is_space-lower_byte : (c : ℕ) → is_space (lower_byte c) ≡ is_space c
unfolding is_space lower_byte
is_space-lower_byte c = ground arith

trim_left-to_lower : (s : Text) → trim_left (to_lower s) ≡ to_lower (trim_left s)
unfolding trim_left to_lower
trim_left-to_lower [] = refl
trim_left-to_lower (c ∷ s) = elim (Bool-cases (is_space c)) [
  | inl blank ↦ rw (is_space-lower_byte c, blank) (trim_left-to_lower s)
  | inr solid ↦ rw (is_space-lower_byte c, solid)
]

to_lower-append : (s t : Text) → to_lower (s ++ t) ≡ to_lower s ++ to_lower t
unfolding to_lower
to_lower-append [] t = refl
to_lower-append (c ∷ s) t = ap (λ r. lower_byte c ∷ r) (to_lower-append s t)

reverse-to_lower : (s : Text) → reverse (to_lower s) ≡ to_lower (reverse s)
unfolding to_lower
reverse-to_lower [] = refl
reverse-to_lower (c ∷ s) =
    reverse-cons (lower_byte c) (to_lower s)
    ∙ ap (λ r. r ++ lower_byte c ∷ []) (reverse-to_lower s)
    ∙ sym (ap to_lower (reverse-cons c s) ∙ to_lower-append (reverse s) (c ∷ []))

pub trim_space-to_lower : (s : Text) → trim_space (to_lower s) ≡ to_lower (trim_space s)
unfolding trim_space
trim_space-to_lower s = rw (
  trim_left-to_lower s,
  reverse-to_lower (trim_left s),
  trim_left-to_lower (reverse (trim_left s)),
  reverse-to_lower (trim_left (reverse (trim_left s))),
)

-- No white space at the head.
abbrev StartsSolid : Text → Type 0
StartsSolid [] = Unit {0}
StartsSolid (c ∷ s) = is_space c ≡ false

trim_left-StartsSolid : (s : Text) → StartsSolid (trim_left s)
unfolding trim_left
trim_left-StartsSolid [] = tt
trim_left-StartsSolid (c ∷ s) = elim (Bool-cases (is_space c)) [
  | inl blank ↦ rw blank (trim_left-StartsSolid s)
  | inr solid ↦ rw solid solid
]

trim_left_of_StartsSolid : (s : Text) → StartsSolid s → trim_left s ≡ s
unfolding trim_left
trim_left_of_StartsSolid [] h = refl
trim_left_of_StartsSolid (c ∷ s) h = rw h

-- What `trim_left` takes away stood in front.
trim_left-suffix : (s : Text) → (front : Text) × (s ≡ front ++ trim_left s)
unfolding trim_left
trim_left-suffix [] = ([], refl)
trim_left-suffix (c ∷ s) = elim (Bool-cases (is_space c)) [
  | inl blank ↦ let (front, e) = trim_left-suffix s in (c ∷ front, rw blank (ap (λ r. c ∷ r) e))
  | inr solid ↦ ([], rw solid)
]

StartsSolid-of_append : (s t u : Text) → s ≡ t ++ u → StartsSolid s → StartsSolid t
StartsSolid-of_append s [] u e h = tt
StartsSolid-of_append s (c ∷ t) u e h = rw e at h

pub trim_space_idem : (s : Text) → trim_space (trim_space s) ≡ trim_space s
unfolding trim_space
trim_space_idem s =
    let u = trim_left s in
    let v = trim_left (reverse u) in
    let (front, e) = trim_left-suffix (reverse u) in
    let whole : u ≡ reverse v ++ reverse front =
      sym (reverse-reverse u) ∙ ap reverse e ∙ reverse-append front v in
    let solid =
      StartsSolid-of_append u (reverse v) (reverse front) whole (trim_left-StartsSolid s) in
    rw (
      trim_left_of_StartsSolid (reverse v) solid,
      reverse-reverse v,
      trim_left_of_StartsSolid v (trim_left-StartsSolid (reverse u)),
    )
