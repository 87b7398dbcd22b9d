-- ===== src/Base/Hex.antt =====
-- Hexadecimal digits, as "%x" prints the bytes of a number and big.Int's SetString reads them.
use Prim.Native.Nat.{ℕ, zero, suc, ◌+◌, ◌-◌, ◌*◌, ◌/◌, ◌%◌, ◌<◌, ◌≤◌}
use mathlib.Core.Path.{◌≡◌, refl, ap, sym, ◌∙◌}
use mathlib.Core.Bool.{false, ◌&&◌}
use mathlib.Core.Option.{Option, none, some}
use mathlib.Core.List.{[], ◌∷◌}
use mathlib.Core.Logic.{inl, inr}
use native.Mathlib.Omega.{arith}
use ztna_project.Base.Tests.{ltb, leb, ◌==◌, if◌then◌else◌, Bool-cases}
use ztna_project.Base.Int.{ℤ, pos, negsuc}
use ztna_project.Base.Texts.{Text}

unfoldable hex_digit : ℕ → ℕ
hex_digit d = if ltb d 10 then b'0' + d else b'a' + (d - 10)

-- The two digits of every byte of `n`, before `acc`; the fuel bounds the number of bytes.
unfoldable hex_from : ℕ → ℕ → Text → Text
unfolding hex_digit
hex_from zero n acc = acc
hex_from (suc fuel) n acc =
    let more = hex_from fuel (n / 256) (hex_digit (n / 16 % 16) ∷ hex_digit (n % 16) ∷ acc) in
    if n == 0 then acc else more

-- fmt.Sprintf("%x", n.Bytes()): nothing for 0.
unfoldable pub hex : ℕ → Text
unfolding hex_from
hex n = hex_from n n []

unfoldable hex_value : ℕ → Option ℕ
hex_value c =
    if leb b'0' c && leb c b'9'
    then some (c - b'0')
    else if leb b'a' c && leb c b'f'
    then some (c - b'a' + 10)
    else if leb b'A' c && leb c b'F'
    then some (c - b'A' + 10)
    else none

unfoldable read_hex : Text → ℕ → Option ℕ
unfolding hex_value
read_hex [] n = some n
read_hex (c ∷ s) n = elim (hex_value c) [ none ↦ none | some v ↦ read_hex s (n * 16 + v) ]

abbrev some_pos : Option ℕ → Option ℤ
some_pos none = none
some_pos (some n) = some (pos n)

abbrev some_neg : Option ℕ → Option ℤ
some_neg none = none
some_neg (some zero) = some (pos zero)
some_neg (some (suc n)) = some (negsuc n)

abbrev digits_of : Text → Option ℕ
digits_of [] = none
digits_of (c ∷ s) = read_hex (c ∷ s) 0

-- SetString(s, 16): a sign, then one digit at least.
unfoldable pub parse_hex : Text → Option ℤ
unfolding read_hex
parse_hex [] = none
parse_hex (c ∷ s) =
    if c == b'-'
    then some_neg (digits_of s)
    else if c == b'+'
    then some_pos (digits_of s)
    else some_pos (digits_of (c ∷ s))

hex_value-hex_digit : (d : ℕ) → d < 16 → hex_value (hex_digit d) ≡ some d
unfolding hex_value hex_digit
hex_value-hex_digit d h = elim (Bool-cases (ltb d 10)) [
  | inl small ↦ rw small (ground (arith, small))
  | inr large ↦ rw large (ground (arith, large, h))
]

read_hex-cons :
    (d n : ℕ) (s : Text) → d < 16 → read_hex (hex_digit d ∷ s) n ≡ read_hex s (n * 16 + d)
unfolding read_hex
read_hex-cons d n s h = rw (hex_value-hex_digit d h, read_hex)

bytes_sum : (n : ℕ) → (n / 256 * 16 + n / 16 % 16) * 16 + n % 16 ≡ n
bytes_sum n = omega arith

read_hex-hex_from :
    (fuel n : ℕ) (acc : Text) → n ≤ fuel → read_hex (hex_from fuel n acc) 0 ≡ read_hex acc n
unfolding hex_from
read_hex-hex_from zero n acc h = ap (read_hex acc) (omega (arith, h))
read_hex-hex_from (suc fuel) n acc h = elim (Bool-cases (n == 0)) [
  | inl none_left ↦ rw none_left (ap (read_hex acc) (ground (arith, none_left)))
  | inr more ↦ rw more (
      read_hex-hex_from fuel (n / 256) _ (ground (arith, h, more))
      ∙ read_hex-cons (n / 16 % 16) (n / 256) (hex_digit (n % 16) ∷ acc) (omega arith)
      ∙ read_hex-cons (n % 16) (n / 256 * 16 + n / 16 % 16) acc (omega arith)
      ∙ ap (read_hex acc) (bytes_sum n))
]

-- A text that begins with a digit.
abbrev StartsWithDigit : Text → Type 0
StartsWithDigit t = (d : ℕ) × (s : Text) × (d < 16) × (t ≡ hex_digit d ∷ s)

hex_from-StartsWithDigit :
    (fuel n : ℕ) (acc : Text) → StartsWithDigit acc → StartsWithDigit (hex_from fuel n acc)
unfolding hex_from
hex_from-StartsWithDigit zero n acc h = h
hex_from-StartsWithDigit (suc fuel) n acc h = elim (Bool-cases (n == 0)) [
  | inl empty ↦ rw empty h
  | inr more ↦
      rw more (hex_from-StartsWithDigit fuel (n / 256) _ (n / 16 % 16, _, omega arith, refl))
]

hex-StartsWithDigit : (n : ℕ) → StartsWithDigit (hex (suc n))
unfolding hex hex_from
hex-StartsWithDigit n =
    let positive : (suc n == 0) ≡ false = ground arith in
    rw (positive, hex, hex_from)
      (hex_from-StartsWithDigit n (suc n / 256) _ (suc n / 16 % 16, _, omega arith, refl))

digit_no_sign : (d : ℕ) → d < 16 → ((hex_digit d == b'-') ≡ false) × ((hex_digit d == b'+') ≡ false)
unfolding hex_digit
digit_no_sign d h = elim (Bool-cases (ltb d 10)) [
  | inl small ↦ rw small (ground (arith, small), ground (arith, small))
  | inr large ↦ rw large (ground (arith, large, h), ground (arith, large, h))
]

parse_hex-digits :
    (t : Text) (n : ℕ) → StartsWithDigit t → read_hex t 0 ≡ some n → parse_hex t ≡ some (pos n)
unfolding parse_hex
parse_hex-digits t n (d, s, low, same) e =
    let (minus, plus) = digit_no_sign d low in
    ap parse_hex same
    ∙ rw (minus, plus, parse_hex) (ap some_pos (ap (λ x. read_hex x 0) (sym same) ∙ e))

-- A number that is printed in hexadecimal is read back, unless it is 0, which prints as nothing.
pub parse_hex-hex : (n : ℕ) → parse_hex (hex (suc n)) ≡ some (pos (suc n))
parse_hex-hex n =
    parse_hex-digits (hex (suc n)) (suc n) (hex-StartsWithDigit n)
      (unfold hex in (read_hex-hex_from (suc n) (suc n) [] (omega arith) ∙ unfold read_hex in refl))
