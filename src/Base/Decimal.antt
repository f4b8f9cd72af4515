-- ===== src/Base/Decimal.antt =====
-- Decimal numbers: `to_string` and `parse` of the unsigned integer types.
use Prim.Native.Nat.{ℕ, zero, suc, ◌+◌, ◌-◌, ◌*◌, ◌/◌, ◌%◌, ◌≤◌, ◌<◌}
use mathlib.Core.Path.{◌≡◌, ap, ◌∙◌}
use mathlib.Core.Logic.{inl, inr}
use mathlib.Core.Bool.{Bool, true, ◌&&◌}
use mathlib.Core.List.{[], ◌∷◌, ◌++◌}
use mathlib.Core.Option.{Option, none, some}
use native.Mathlib.Omega.{arith}
use xlurm.Base.Predicates.{All, All-append}
use xlurm.Base.Tests.{ltb, leb, if◌then◌else◌, Bool-cases}
use xlurm.Base.Equality.{nat_eq, option_eq, Text, text_eq}

digits_from : ℕ → ℕ → Text
digits_from zero n = []
digits_from (suc fuel) n =
    let rest = digits_from fuel (n / 10) in
    if ltb n 10 then (b'0' + n) ∷ [] else rest ++ (b'0' + n % 10) ∷ []

-- Each round drops a digit, so `n + 1` rounds are enough.
unfoldable pub to_string : ℕ → Text
unfolding digits_from
to_string n = digits_from (suc n) n

is_digit : ℕ → Bool
is_digit c = leb b'0' c && leb c b'9'

digits_value : ℕ → Text → Option ℕ
unfolding is_digit
digits_value acc [] = some acc
digits_value acc (c ∷ cs) =
    let rest = digits_value (acc * 10 + (c - b'0')) cs in if is_digit c then rest else none

below : ℕ → Option ℕ → Option ℕ
below bound none = none
below bound (some n) = if ltb n bound then some n else none

-- The digits after an optional plus sign: at least one, of a value in range.
parse_digits : ℕ → Text → Option ℕ
unfolding digits_value below
parse_digits bound [] = none
parse_digits bound (c ∷ cs) = below bound (digits_value 0 (c ∷ cs))

-- `s.parse::<u64>().ok()` for `bound = 2 ^ 64`, and of `u32` for `2 ^ 32`.
unfoldable pub parse : ℕ → Text → Option ℕ
unfolding parse_digits
parse bound [] = none
parse bound (c ∷ cs) =
    if ltb c b'+'
    then parse_digits bound (c ∷ cs)
    else if ltb b'+' c
    then parse_digits bound (c ∷ cs)
    else parse_digits bound cs

-- Digits to the right of those that are read already.
digits_value-append :
    (acc : ℕ) (xs : Text) (c v : ℕ)
    → digits_value acc xs ≡ some v
    → is_digit c ≡ true
    → digits_value acc (xs ++ c ∷ []) ≡ some (v * 10 + (c - b'0'))
unfolding digits_value
digits_value-append acc [] c v e d = ground arith
digits_value-append acc (x ∷ xs) c v e d =
    ground (arith, digits_value-append (acc * 10 + (x - b'0')) xs c v)

is_digit_lem : (d : ℕ) → d < 10 → is_digit (b'0' + d) ≡ true
unfolding is_digit
is_digit_lem d h = ground arith

one_digit : (d : ℕ) → d < 10 → digits_value 0 ((b'0' + d) ∷ []) ≡ some d
unfolding digits_value
one_digit d h = ground arith

regroup : (n : ℕ) → n / 10 * 10 + (b'0' + n % 10 - b'0') ≡ n
regroup n = omega arith

digits_value-digits_from : (fuel n : ℕ) → n < fuel → digits_value 0 (digits_from fuel n) ≡ some n
unfolding digits_from
digits_value-digits_from zero n h = absurd (omega arith)
digits_value-digits_from (suc fuel) n h = elim (Bool-cases (ltb n 10)) [
  | inl small ↦ rw small (one_digit n (ground arith))
  | inr large ↦ rw large (
      digits_value-append 0 (digits_from fuel (n / 10)) (b'0' + n % 10) (n / 10)
        (digits_value-digits_from fuel (n / 10) (ground arith))
        (is_digit_lem (n % 10) (omega arith))
      ∙ ap some (regroup n))
]

-- A printed number starts with a digit.
abbrev StartsWithDigit : Text → Type 0
StartsWithDigit [] = ⊥
StartsWithDigit (c ∷ cs) = b'0' ≤ c

StartsWithDigit-append : (xs ys : Text) → StartsWithDigit xs → StartsWithDigit (xs ++ ys)
StartsWithDigit-append [] ys h = absurd h
StartsWithDigit-append (x ∷ xs) ys h = h

digits_from-StartsWithDigit : (fuel n : ℕ) → n < fuel → StartsWithDigit (digits_from fuel n)
unfolding digits_from
digits_from-StartsWithDigit zero n h = absurd (omega arith)
digits_from-StartsWithDigit (suc fuel) n h = elim (Bool-cases (ltb n 10)) [
  | inl small ↦ rw small (omega arith)
  | inr large ↦ rw large (
      StartsWithDigit-append (digits_from fuel (n / 10)) _
        (digits_from-StartsWithDigit fuel (n / 10) (ground arith)))
]

parse-of_digits :
    (bound n : ℕ) (cs : Text)
    → n < bound
    → StartsWithDigit cs
    → digits_value 0 cs ≡ some n
    → parse bound cs ≡ some n
unfolding parse
parse-of_digits bound n [] h s e = absurd s
parse-of_digits bound n (c ∷ cs) h s e = ground arith

-- Printing and parsing are inverse, for every number in range.
pub parse-to_string : (bound n : ℕ) → n < bound → parse bound (to_string n) ≡ some n
unfolding to_string
parse-to_string bound n h =
    parse-of_digits bound n (digits_from (suc n) n) h
      (digits_from-StartsWithDigit (suc n) n (omega arith))
      (digits_value-digits_from (suc n) n (omega arith))

digits_from-digits : (fuel n : ℕ) → All (λ c. b'0' ≤ c) (digits_from fuel n)
unfolding digits_from
digits_from-digits zero n = tt
digits_from-digits (suc fuel) n = elim (Bool-cases (ltb n 10)) [
  | inl small ↦ rw small (omega arith, tt)
  | inr large ↦ rw large (
      All-append (λ c. b'0' ≤ c) (digits_from fuel (n / 10)) _ (digits_from-digits fuel (n / 10))
        (omega arith, tt))
]

-- A printed number has no character below the digits.
pub to_string-digits : (n : ℕ) → All (λ c. b'0' ≤ c) (to_string n)
unfolding to_string
to_string-digits n = digits_from-digits (suc n) n
