-- ===== src/Base/Maps.antt =====
-- Go maps with string keys, as association lists in which a key stands once.
use Prim.Native.Nat.{ℕ, suc, ◌+◌, ◌≤◌}
use mathlib.Core.Path.{◌≡◌, refl}
use mathlib.Core.Logic.{inl, inr}
use mathlib.Core.Bool.{Bool, not}
use mathlib.Core.Option.{Option, none, some}
use mathlib.Core.List.{List, [], ◌∷◌}
use native.Mathlib.Omega.{arith}
use ztna_project.Base.Tests.{if◌then◌else◌, Bool-cases}
use ztna_project.Base.Lists.{length}
use ztna_project.Base.Texts.{Text, text_eq, text_eq_iff}

module _ {ℓ} {V : Type ℓ} where
  unfoldable pub lookup : (key : Text) (entries : List (Text × V)) → Option V
  lookup key [] = none
  lookup key ((name, value) ∷ others) = if text_eq name key then some value else lookup key others

  unfoldable pub insert : (key : Text) (value : V) → List (Text × V) → List (Text × V)
  insert key value [] = (key, value) ∷ []
  insert key value ((name, old) ∷ others) =
      if text_eq name key then (key, value) ∷ others else (name, old) ∷ insert key value others

  unfoldable pub delete : Text → List (Text × V) → List (Text × V)
  delete k [] = []
  delete k ((j, w) ∷ m) = if text_eq j k then delete k m else (j, w) ∷ delete k m

  -- The entries whose value passes the test.
  unfoldable pub keep : (V → Bool) → List (Text × V) → List (Text × V)
  keep p [] = []
  keep p ((j, w) ∷ m) = if p w then (j, w) ∷ keep p m else keep p m

  unfoldable pub count_if : (V → Bool) → List (Text × V) → ℕ
  count_if p [] = 0
  count_if p ((j, w) ∷ m) = if p w then suc (count_if p m) else count_if p m

  unfoldable pub values : List (Text × V) → List V
  values [] = []
  values ((j, w) ∷ m) = w ∷ values m

  -- After a write, the written key leads to the value and every other key where it led before.
  pub lookup-insert :
      (key wanted : Text) (value : V) (entries : List (Text × V))
      → lookup wanted (insert key value entries)
        ≡ (if text_eq key wanted then some value else lookup wanted entries)
  unfolding insert lookup
  lookup-insert key wanted value [] = refl
  lookup-insert key wanted value ((name, old) ∷ others) = ground (
    arith,
    lookup-insert key wanted value others,
    text_eq_iff name wanted,
    text_eq_iff key wanted,
    text_eq_iff name key,
  )

  pub lookup-delete :
      (k j : Text) (m : List (Text × V))
      → lookup j (delete k m) ≡ (if text_eq k j then none else lookup j m)
  unfolding lookup delete
  lookup-delete k j [] = ground arith
  lookup-delete k j ((i, w) ∷ m) =
      ground (arith, text_eq_iff k j, text_eq_iff i k, text_eq_iff i j, lookup-delete k j m)

  pub lookup-keep-none :
      (p : V → Bool) (k : Text) (m : List (Text × V))
      → lookup k m ≡ none
      → lookup k (keep p m) ≡ none
  unfolding keep lookup
  lookup-keep-none p k [] e = refl
  lookup-keep-none p k ((j, w) ∷ m) e = ground (arith, lookup-keep-none p k m)

  -- A key stands once.
  unfoldable pub HasDistinctKeys : List (Text × V) → Type ℓ
  HasDistinctKeys [] = Unit
  HasDistinctKeys ((j, w) ∷ m) = (lookup j m ≡ none) × HasDistinctKeys m

  pub insert-HasDistinctKeys :
      (k : Text) (v : V) (m : List (Text × V)) → HasDistinctKeys m → HasDistinctKeys (insert k v m)
  unfolding HasDistinctKeys insert lookup
  insert-HasDistinctKeys k v [] h = (refl, tt)
  insert-HasDistinctKeys k v ((j, w) ∷ m) h = ground (
    arith,
    text_eq_iff j k,
    text_eq_iff k j,
    lookup-insert k j v m,
    insert-HasDistinctKeys k v m h.1,
  )

  pub delete-HasDistinctKeys :
      (k : Text) (m : List (Text × V)) → HasDistinctKeys m → HasDistinctKeys (delete k m)
  unfolding HasDistinctKeys delete
  delete-HasDistinctKeys k [] h = tt
  delete-HasDistinctKeys k ((j, w) ∷ m) h =
      ground (arith, lookup-delete k j m, delete-HasDistinctKeys k m h.1)

  pub lookup-keep :
      (p : V → Bool) (k : Text) (m : List (Text × V)) {v : V}
      → HasDistinctKeys m
      → lookup k m ≡ some v
      → lookup k (keep p m) ≡ (if p v then some v else none)
  unfolding HasDistinctKeys keep lookup
  lookup-keep p k [] h e = cc
  lookup-keep p k ((j, w) ∷ m) {v} h e = elim (Bool-cases (text_eq j k)) [
    | inl same ↦ ground (arith, text_eq_iff j k, lookup-keep-none p k m)
    | inr other ↦ ground (arith, lookup-keep p k m {v = v} h.1)
  ]

  pub keep-HasDistinctKeys :
      (p : V → Bool) (m : List (Text × V)) → HasDistinctKeys m → HasDistinctKeys (keep p m)
  unfolding HasDistinctKeys keep
  keep-HasDistinctKeys p [] h = tt
  keep-HasDistinctKeys p ((j, w) ∷ m) h =
      ground (arith, lookup-keep-none p j m h.0, keep-HasDistinctKeys p m h.1)

  pub count_if-insert :
      (p : V → Bool) (k : Text) (v : V) (m : List (Text × V))
      → count_if p (insert k v m) ≤ (if p v then suc (count_if p m) else count_if p m)
  unfolding count_if insert
  count_if-insert p k v [] = ground arith
  count_if-insert p k v ((j, w) ∷ m) = ground (arith, count_if-insert p k v m)

  pub count_if-delete :
      (p : V → Bool) (k : Text) (m : List (Text × V)) → count_if p (delete k m) ≤ count_if p m
  unfolding count_if delete
  count_if-delete p k [] = omega arith
  count_if-delete p k ((j, w) ∷ m) = ground (arith, count_if-delete p k m)

  pub count_if-keep : (p q : V → Bool) (m : List (Text × V)) → count_if p (keep q m) ≤ count_if p m
  unfolding count_if keep
  count_if-keep p q [] = omega arith
  count_if-keep p q ((j, w) ∷ m) = ground (arith, count_if-keep p q m)

  pub length-insert-le :
      (k : Text) (v : V) (m : List (Text × V)) → length (insert k v m) ≤ suc (length m)
  unfolding insert
  length-insert-le k v [] = omega arith
  length-insert-le k v ((j, w) ∷ m) = ground (arith, length-insert-le k v m)

  pub length-delete-le : (k : Text) (m : List (Text × V)) → length (delete k m) ≤ length m
  unfolding delete
  length-delete-le k [] = omega arith
  length-delete-le k ((j, w) ∷ m) = ground (arith, length-delete-le k m)

  -- A key that is present goes, so the map shrinks.
  pub length-delete-lt :
      (k : Text) (m : List (Text × V)) {v : V}
      → lookup k m ≡ some v
      → suc (length (delete k m)) ≤ length m
  unfolding delete lookup
  length-delete-lt k [] e = cc
  length-delete-lt k ((j, w) ∷ m) {v} e =
      ground (arith, length-delete-le k m, length-delete-lt k m {v = v})

  -- What is removed and what stays make up the map.
  pub length-keep-not :
      (p : V → Bool) (m : List (Text × V))
      → length (keep (λ v. not (p v)) m) + count_if p m ≡ length m
  unfolding keep count_if
  length-keep-not p [] = omega arith
  length-keep-not p ((j, w) ∷ m) = ground (arith, length-keep-not p m)

  -- Overwriting an entry by one that the test does not tell apart.
  pub count_if-insert_same :
      (p : V → Bool) (k : Text) (v : V) (m : List (Text × V)) {w : V}
      → lookup k m ≡ some w
      → p v ≡ p w
      → count_if p (insert k v m) ≤ count_if p m
  unfolding count_if insert lookup
  count_if-insert_same p k v [] e h = cc
  count_if-insert_same p k v ((j, u) ∷ m) {w} e h =
      ground (arith, count_if-insert_same p k v m {w = w})
