-- ===== src/Base/Fields.antt =====
-- strings.Fields, strings.Split at one byte, and strings.TrimRight of one byte.
use Prim.Native.Nat.{ℕ}
use mathlib.Core.Path.{◌≡◌, refl, ap, sym, ◌∙◌}
use mathlib.Core.Bool.{false}
use mathlib.Core.List.{List, [], ◌∷◌, ◌++◌, reverse, append_assoc, append-nil}
use native.Mathlib.Omega.{arith}
use ztna_project.Base.Tests.{◌==◌, if◌then◌else◌}
use ztna_project.Base.Texts.{Text, Lacks, is_space}

abbrev emit : Text → List Text → List Text
emit [] rest = rest
emit (c ∷ word) rest = (c ∷ word) ∷ rest

-- The words from here on, after the bytes of a word that has begun.
fields_from : (word : Text) → Text → List Text
fields_from word [] = emit word []
fields_from word (c ∷ s) =
    let cut = fields_from [] s in
    let more = fields_from (word ++ c ∷ []) s in if is_space c then emit word cut else more

unfoldable pub fields : Text → List Text
unfolding fields_from is_space
fields s = fields_from [] s

split_from : (sep : ℕ) (part : Text) → Text → List Text
split_from sep part [] = part ∷ []
split_from sep part (c ∷ s) =
    let cut = split_from sep [] s in
    let more = split_from sep (part ++ c ∷ []) s in if c == sep then part ∷ cut else more

unfoldable pub split : (sep : ℕ) → Text → List Text
unfolding split_from
split sep s = split_from sep [] s

drop_while : (c : ℕ) → Text → Text
drop_while c [] = []
drop_while c (d ∷ s) = let rest = drop_while c s in if d == c then rest else d ∷ s

unfoldable pub trim_right : (c : ℕ) → Text → Text
unfolding drop_while
trim_right c s = reverse (drop_while c (reverse s))

-- A text without white space is one word.
abbrev pub IsWord : Text → Type 0
IsWord [] = Unit
IsWord (c ∷ s) = (is_space c ≡ false) × IsWord s

fields_from-word :
    (word s t : Text) → IsWord s → fields_from word (s ++ t) ≡ fields_from (word ++ s) t
unfolding fields_from
fields_from-word word [] t h = ap (λ w. fields_from w t) (sym (append-nil word))
fields_from-word word (c ∷ s) t h = rw (h.0) (
    fields_from-word (word ++ c ∷ []) s t h.1
    ∙ ap (λ w. fields_from w t) (append_assoc word (c ∷ []) s))

-- Two words with a blank between them.
pub fields-two :
    (a : ℕ) (s : Text) (b : ℕ) (t : Text)
    → IsWord (a ∷ s)
    → IsWord (b ∷ t)
    → fields ((a ∷ s) ++ b' ' ∷ b ∷ t) ≡ (a ∷ s) ∷ (b ∷ t) ∷ []
unfolding fields
fields-two a s b t h k =
    fields_from-word [] (a ∷ s) (b' ' ∷ b ∷ t) h
    ∙ unfold fields_from is_space in
      ap (λ rest. (a ∷ s) ∷ rest)
        (ap (fields_from []) (sym (append-nil (b ∷ t))) ∙ fields_from-word [] (b ∷ t) [] k)

split_from-part :
    (sep : ℕ) (part s t : Text)
    → Lacks sep s
    → split_from sep part (s ++ t) ≡ split_from sep (part ++ s) t
unfolding split_from
split_from-part sep part [] t h = ap (λ w. split_from sep w t) (sym (append-nil part))
split_from-part sep part (c ∷ s) t h = rw (h.0) (
    split_from-part sep (part ++ c ∷ []) s t h.1
    ∙ ap (λ w. split_from sep w t) (append_assoc part (c ∷ []) s))

-- A part, the separator and the rest.
pub split-append : (sep : ℕ) (s t : Text) → Lacks sep s → split sep (s ++ sep ∷ t) ≡ s ∷ split sep t
unfolding split
split-append sep s t h = split_from-part sep [] s (sep ∷ t) h ∙ unfold split_from in ground arith

pub split-part : (sep : ℕ) (s : Text) → Lacks sep s → split sep s ≡ s ∷ []
unfolding split
split-part sep s h =
    ap (split_from sep []) (sym (append-nil s))
    ∙ split_from-part sep [] s [] h
    ∙ unfold split_from in refl
