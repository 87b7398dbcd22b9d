-- ===== src/Base/Decimal.antt =====
-- The decimal digits of a number, as `%d` prints them and `strconv.Atoi` reads them.
use Prim.Native.Nat.{ℕ, zero, suc, ◌+◌, ◌-◌, ◌*◌, ◌/◌, ◌%◌, ◌^◌, ◌<◌}
use mathlib.Core.Path.{◌≡◌, refl, ap, sym, ◌∙◌}
use mathlib.Core.Bool.{Bool, false, true, ◌&&◌}
use mathlib.Core.Option.{Option, none, some}
use mathlib.Core.List.{[], ◌∷◌}
use mathlib.Core.Logic.{inl, inr}
use native.Mathlib.Omega.{arith}
use ztna_project.Base.Tests.{ltb, leb, ◌==◌, if◌then◌else◌, Bool-cases}
use ztna_project.Base.Int.{ℤ, pos, negsuc}
use ztna_project.Base.Texts.{Text, Lacks, is_space}

-- The digits of `n` before `acc`, least digit first; the fuel bounds the number of digits.
digits_from : ℕ → ℕ → Text → Text
digits_from zero n acc = acc
digits_from (suc fuel) n acc =
    let more = digits_from fuel (n / 10) ((b'0' + n % 10) ∷ acc) in
    if ltb n 10 then (b'0' + n % 10) ∷ acc else more

unfoldable pub format_ℕ : ℕ → Text
unfolding digits_from
format_ℕ n = digits_from (suc n) n []

unfoldable pub format_ℤ : ℤ → Text
unfolding format_ℕ
format_ℤ (pos n) = format_ℕ n
format_ℤ (negsuc n) = b'-' ∷ format_ℕ (suc n)

abbrev is_digit : ℕ → Bool
is_digit c = leb b'0' c && leb c b'9'

-- The number that a text of digits stands for, read on from `n`.
unfoldable read_digits : Text → ℕ → Option ℕ
read_digits [] n = some n
read_digits (c ∷ s) n =
    let rest = read_digits s (n * 10 + (c - b'0')) in if is_digit c then rest else none

-- At least one digit.
unfoldable read_number : Text → Option ℕ
unfolding read_digits
read_number [] = none
read_number (c ∷ s) = read_digits (c ∷ s) 0

-- Within the range of an int64.
in_range : ℤ → Option ℤ
in_range (pos n) = if ltb n (2 ^ 63) then some (pos n) else none
in_range (negsuc n) = if ltb n (2 ^ 63) then some (negsuc n) else none

negate : ℕ → ℤ
negate zero = pos zero
negate (suc n) = negsuc n

atoi_of : (ℕ → ℤ) → Option ℕ → Option ℤ
atoi_of sign none = none
atoi_of sign (some n) = in_range (sign n)

-- strconv.Atoi: an optional sign, then digits.
unfoldable pub atoi : Text → Option ℤ
unfolding read_number in_range negate atoi_of
atoi [] = none
atoi (c ∷ s) =
    if c == b'-'
    then atoi_of negate (read_number s)
    else if c == b'+'
    then atoi_of pos (read_number s)
    else atoi_of pos (read_number (c ∷ s))

read_digits-digits_from :
    (fuel n : ℕ) (acc : Text)
    → n < fuel
    → read_digits (digits_from fuel n acc) 0 ≡ read_digits acc n
unfolding digits_from read_digits
read_digits-digits_from zero n acc h = elim h [ ]
read_digits-digits_from (suc fuel) n acc h = elim (Bool-cases (ltb n 10)) [
  | inl one ↦ rw one (ground arith)
  | inr more ↦
      let ih = read_digits-digits_from fuel (n / 10) ((b'0' + n % 10) ∷ acc) (ground arith) in
      rw more (ground (arith, ih))
]

-- A byte that is no digit does not occur among the digits.
Lacks-digits_from :
    (c fuel n : ℕ) (acc : Text)
    → is_digit c ≡ false
    → Lacks c acc
    → Lacks c (digits_from fuel n acc)
unfolding digits_from
Lacks-digits_from c zero n acc d h = h
Lacks-digits_from c (suc fuel) n acc d h = elim (Bool-cases (ltb n 10)) [
  | inl one ↦ rw one (ground arith, h)
  | inr more ↦
      rw more (Lacks-digits_from c fuel (n / 10) ((b'0' + n % 10) ∷ acc) d (ground arith, h))
]

pub Lacks-format_ℕ : (c n : ℕ) → is_digit c ≡ false → Lacks c (format_ℕ n)
unfolding format_ℕ
Lacks-format_ℕ c n d = Lacks-digits_from c (suc n) n [] d tt

read_number-cons : (c : ℕ) (s : Text) → read_number (c ∷ s) ≡ read_digits (c ∷ s) 0
unfolding read_number
read_number-cons c s = refl

digits_from-cons :
    (fuel n c : ℕ) (acc : Text) → (d : ℕ) × (s : Text) × (digits_from fuel n (c ∷ acc) ≡ d ∷ s)
unfolding digits_from
digits_from-cons zero n c acc = (c, acc, refl)
digits_from-cons (suc fuel) n c acc = elim (Bool-cases (ltb n 10)) [
  | inl one ↦ rw one (_, _, refl)
  | inr more ↦ rw more (digits_from-cons fuel (n / 10) (b'0' + n % 10) (c ∷ acc))
]

pub format_ℕ-cons : (n : ℕ) → (d : ℕ) × (s : Text) × (format_ℕ n ≡ d ∷ s)
unfolding format_ℕ
format_ℕ-cons n = elim (Bool-cases (ltb n 10)) [
  | inl one ↦ rw one (_, _, refl)
  | inr more ↦ rw more (digits_from-cons n (n / 10) (b'0' + n % 10) [])
]

read_digits-format_ℕ : (n : ℕ) → read_digits (format_ℕ n) 0 ≡ some n
unfolding format_ℕ
read_digits-format_ℕ n =
    read_digits-digits_from (suc n) n [] (omega arith) ∙ unfold read_digits in refl

-- What `%d` prints for a natural number is read back.
read_number-format_ℕ : (n : ℕ) → read_number (format_ℕ n) ≡ some n
read_number-format_ℕ n =
    let (d, s, e) = format_ℕ-cons n in
    rw e (read_number-cons d s ∙ (rw e at (read_digits-format_ℕ n)))

pub format_ℕ-injective : (m n : ℕ) → format_ℕ m ≡ format_ℕ n → m ≡ n
format_ℕ-injective m n e =
    let found : some m ≡ some n =
      sym (read_number-format_ℕ m) ∙ ap read_number e ∙ read_number-format_ℕ n in
    cc found

-- fmt.Sscanf with "%d": blanks, a sign, and digits; what follows them is not read. The result is
-- `none` where there is no digit, or a line ends before one.
unfoldable leading_digits : Text → Text
leading_digits [] = []
leading_digits (c ∷ s) = let rest = leading_digits s in if is_digit c then c ∷ rest else []

scan_sign : Text → Option ℤ
unfolding leading_digits in_range negate atoi_of read_number
scan_sign [] = none
scan_sign (c ∷ s) =
    if c == b'-'
    then atoi_of negate (read_number (leading_digits s))
    else if c == b'+'
    then atoi_of pos (read_number (leading_digits s))
    else atoi_of pos (read_number (leading_digits (c ∷ s)))

unfoldable pub scan_int : Text → Option ℤ
unfolding scan_sign
scan_int [] = none
scan_int (c ∷ s) =
    let rest = scan_int s in
    if c == 10 then none else if is_space c then rest else scan_sign (c ∷ s)

leading_digits-of_digits : (s : Text) (n m : ℕ) → read_digits s n ≡ some m → leading_digits s ≡ s
unfolding read_digits leading_digits
leading_digits-of_digits [] n m e = refl
leading_digits-of_digits (c ∷ s) n m e = elim (Bool-cases (is_digit c)) [
  | inl digit ↦ rw digit (
      ap (λ t. c ∷ t)
        (leading_digits-of_digits s (n * 10 + (c - b'0')) m (rw (digit, read_digits) at e)))
  | inr none_there ↦ let clash : none ≡ some m = rw (none_there, read_digits) at e in cc clash
]

scan_int-cons :
    (c : ℕ) (s : Text)
    → is_digit c ≡ true
    → scan_int (c ∷ s) ≡ atoi_of pos (read_number (leading_digits (c ∷ s)))
unfolding scan_int scan_sign is_space
scan_int-cons c s h = ground (arith, h)

first_digit : (c : ℕ) (s : Text) (m : ℕ) → read_digits (c ∷ s) 0 ≡ some m → is_digit c ≡ true
unfolding read_digits
first_digit c s m e = ground (arith, e)

-- `%d` reads what `%d` prints.
pub scan_int-format_ℕ : (n : ℕ) → n < 2 ^ 63 → scan_int (format_ℕ n) ≡ some (pos n)
scan_int-format_ℕ n h =
    let (d, s, e) = format_ℕ-cons n in
    let digits : read_digits (d ∷ s) 0 ≡ some n = rw e at (read_digits-format_ℕ n) in
    let number : read_number (d ∷ s) ≡ some n = rw e at (read_number-format_ℕ n) in
    rw e (
      scan_int-cons d s (first_digit d s n digits)
      ∙ ap (λ t. atoi_of pos (read_number t)) (leading_digits-of_digits (d ∷ s) 0 n digits)
      ∙ ap (atoi_of pos) number
      ∙ unfold atoi_of in_range in (ground arith))
