-- ===== src/Base/Texts.antt =====
-- Go strings as lists of bytes, with the functions of `strings` and `strconv` that the program
-- calls. Case folding and white space are those of ASCII.
use Prim.Native.Char.{code}
use Prim.Native.Nat.{ℕ, ◌+◌}
use Prim.Native.String.{String}
use mathlib.Core.Path.{◌≡◌, refl, ap}
use mathlib.Core.Logic.{◌↔◌, inl, inr}
use mathlib.Core.Bool.{Bool, true, false, ◌&&◌, ◌||◌}
use mathlib.Core.Option.{Option, none, some}
use mathlib.Core.List.{List, [], ◌∷◌, ◌++◌, reverse}
use native.Mathlib.Omega.{arith}
use ztna_project.Base.Tests.{ltb, leb, ◌==◌, if◌then◌else◌, Option-cases}

abbrev pub Text : Type 0
Text = List ℕ

-- The bytes of an ASCII literal.
abbrev pub codes : String → Text
codes String.[] = []
codes (String.◌∷◌ c s) = code c ∷ codes s

unfoldable pub text_eq : Text → Text → Bool
text_eq [] [] = true
text_eq (x ∷ xs) (y ∷ ys) = x == y && text_eq xs ys
text_eq _ _ = false

pub text_eq_iff : (s t : Text) → (text_eq s t ≡ true) ↔ (s ≡ t)
unfolding text_eq
text_eq_iff [] [] = ground arith
text_eq_iff [] (y ∷ ys) = ground arith
text_eq_iff (x ∷ xs) [] = ground arith
text_eq_iff (x ∷ xs) (y ∷ ys) = ground (arith, text_eq_iff xs ys)

pub text_eq_refl : (s : Text) → text_eq s s ≡ true
text_eq_refl s = (text_eq_iff s s).1 refl

-- `s < t` by bytes, the order of SQLite's BINARY collation.
unfoldable pub text_lt : Text → Text → Bool
text_lt s [] = false
text_lt [] (d ∷ t) = true
text_lt (c ∷ s) (d ∷ t) = ltb c d || (c == d && text_lt s t)

-- strings.ToLower and strings.EqualFold.
unfoldable pub lower_byte : ℕ → ℕ
lower_byte c = if leb b'A' c && leb c b'Z' then c + 32 else c

unfoldable pub to_lower : Text → Text
unfolding lower_byte
to_lower [] = []
to_lower (c ∷ s) = lower_byte c ∷ to_lower s

unfoldable pub equal_fold : Text → Text → Bool
unfolding to_lower text_eq
equal_fold s t = text_eq (to_lower s) (to_lower t)

-- strings.TrimSpace.
unfoldable pub is_space : ℕ → Bool
is_space c = (leb 9 c && leb c 13) || c == 32

unfoldable pub trim_left : Text → Text
trim_left [] = []
trim_left (c ∷ s) = let rest = trim_left s in if is_space c then rest else c ∷ s

unfoldable pub trim_space : Text → Text
unfolding trim_left is_space
trim_space s = reverse (trim_left (reverse (trim_left s)))

-- strings.HasPrefix and strings.TrimPrefix at once: what follows the prefix, if it is there.
unfoldable pub after_prefix : Text → Text → Option Text
after_prefix [] s = some s
after_prefix (p ∷ ps) [] = none
after_prefix (p ∷ ps) (c ∷ s) = let rest = after_prefix ps s in if p == c then rest else none

abbrev is_some {ℓ} : {A : Type ℓ} → Option A → Bool
is_some none = false
is_some (some a) = true

unfoldable pub has_prefix : Text → Text → Bool
unfolding after_prefix
has_prefix s p = is_some (after_prefix p s)

pub after_prefix_iff : (p s rest : Text) → (after_prefix p s ≡ some rest) ↔ (s ≡ p ++ rest)
unfolding after_prefix
after_prefix_iff [] s rest = ground arith
after_prefix_iff (p ∷ ps) [] rest = ground arith
after_prefix_iff (p ∷ ps) (c ∷ s) rest = ground (arith, after_prefix_iff ps s rest)

abbrev cons_to : ℕ → Option Text → Option Text
cons_to d none = none
cons_to d (some s) = some (d ∷ s)

abbrev cons_to_first : ℕ → Option (Text × Text) → Option (Text × Text)
cons_to_first d none = none
cons_to_first d (some (s, t)) = some (d ∷ s, t)

-- A text that ends in the byte `c`, without it: strings.HasSuffix and strings.TrimSuffix for a
-- suffix of one byte.
unfoldable pub before_last : ℕ → Text → Option Text
before_last c [] = none
before_last c (d ∷ []) = if d == c then some [] else none
before_last c (d ∷ e ∷ s) = cons_to d (before_last c (e ∷ s))

-- strings.SplitN(s, sep, 2) for a separator of one byte; `none` where the separator is absent, so
-- that the result has one part.
unfoldable pub split_two : ℕ → Text → Option (Text × Text)
split_two sep [] = none
split_two sep (c ∷ s) =
    let rest = cons_to_first c (split_two sep s) in if c == sep then some ([], s) else rest

-- No byte of the text is `c`.
abbrev pub Lacks : ℕ → Text → Type 0
Lacks c [] = Unit
Lacks c (d ∷ s) = ((d == c) ≡ false) × Lacks c s

pub split_two-append :
    (sep : ℕ) (s t : Text) → Lacks sep s → split_two sep (s ++ sep ∷ t) ≡ some (s, t)
unfolding split_two
split_two-append sep [] t h = ground arith
split_two-append sep (c ∷ s) t h = ground (arith, split_two-append sep s t h.1)

-- A text ends in the byte exactly when it can be split off.
before_last-some : (c : ℕ) (s init : Text) → before_last c s ≡ some init → s ≡ init ++ c ∷ []
unfolding before_last
before_last-some c [] init h = cc
before_last-some c (d ∷ []) init h = ground arith
before_last-some c (d ∷ e ∷ s) init h = elim (Option-cases (before_last c (e ∷ s))) [
  | inl missing ↦ ground (arith, missing)
  | inr (rest, found) ↦
      let same : init ≡ d ∷ rest = ground (arith, found) in
      rw same (ap (λ t. d ∷ t) (before_last-some c (e ∷ s) rest found))
]

before_last-append : (c : ℕ) (init : Text) → before_last c (init ++ c ∷ []) ≡ some init
unfolding before_last
before_last-append c [] = ground arith
before_last-append c (i ∷ []) = ground arith
before_last-append c (i ∷ j ∷ init) = ap (cons_to i) (before_last-append c (j ∷ init))

pub before_last_iff : (c : ℕ) (s init : Text) → (before_last c s ≡ some init) ↔ (s ≡ init ++ c ∷ [])
before_last_iff c s init = (before_last-some c s init, λ e. rw e (before_last-append c init))

unfoldable pub member : Text → List Text → Bool
unfolding text_eq
member t [] = false
member t (x ∷ xs) = text_eq x t || member t xs
