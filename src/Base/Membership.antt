-- ===== src/Base/Membership.antt =====
-- Membership in a list, as a predicate that computes.
use mathlib.Core.Path.{◌≡◌, refl, ap}
use mathlib.Core.Logic.{◌⊎◌, inl, inr}
use mathlib.Core.List.{List, [], ◌∷◌, map}

module _ {A : Type 0} where
  abbrev pub IsIn : A → List A → Type 0
  IsIn x [] = ⊥
  IsIn x (y ∷ ys) = (y ≡ x) ⊎ IsIn x ys

-- What a mapped list holds comes from the list.
pub IsIn-map_back :
    {A B : Type 0} (f : A → B) (y : B) (xs : List A)
    → IsIn y (map f xs)
    → (x : A) × IsIn x xs × (f x ≡ y)
IsIn-map_back f y [] h = elim h [ ]
IsIn-map_back f y (x ∷ xs) (inl e) = (x, inl refl, e)
IsIn-map_back f y (x ∷ xs) (inr h) = let (w, i, e) = IsIn-map_back f y xs h in (w, inr i, e)

pub IsIn-map : {A B : Type 0} (f : A → B) (x : A) (xs : List A) → IsIn x xs → IsIn (f x) (map f xs)
IsIn-map f x [] h = elim h [ ]
IsIn-map f x (y ∷ ys) (inl e) = inl (ap f e)
IsIn-map f x (y ∷ ys) (inr h) = inr (IsIn-map f x ys h)
