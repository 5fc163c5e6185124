-- ===== src/Base/Decimal.antt =====
-- `strconv`: printing a number in base ten, and reading one back.
use Prim.Native.Nat.{ℕ, zero, suc, ◌+◌, ◌-◌, ◌*◌, ◌/◌, ◌%◌, ◌<◌}
use mathlib.Core.Path.{◌≡◌, refl, ◌∙◌}
use mathlib.Core.Bool.{Bool, true, ◌&&◌}
use mathlib.Core.Option.{Option, none, some}
use mathlib.Core.List.{[], ◌∷◌, ◌++◌}
use native.Mathlib.Omega.{arith}
use k.Base.Tests.{ltb, leb, ◌==◌, if◌then◌else◌, Bool-cases}
use k.Base.Lists.{All}
use k.Base.Text.{Str}
use k.Base.Int.{ℤ, pos, negsuc}
use mathlib.Core.Logic.{inl, inr}

-- The digits of a number below 10 ^ fuel, in front of what follows.
unfoldable pub format_fuel : ℕ → ℕ → Str → Str
format_fuel zero n rest = rest
format_fuel (suc f) n rest =
    let more = format_fuel f (n / 10) ((b'0' + n % 10) ∷ rest) in
    if ltb n 10 then (b'0' + n) ∷ rest else more

-- `strconv.FormatInt(n, 10)`: a number has no more digits than its value and one.
unfoldable pub format_int : ℕ → Str
unfolding format_fuel
format_int n = format_fuel (suc n) n []

abbrev pub is_digit : ℕ → Bool
is_digit c = leb b'0' c && leb c b'9'

-- The value of a run of digits after those already read.
unfoldable pub digits_value : ℕ → Str → Option ℕ
digits_value acc [] = some acc
digits_value acc (c ∷ cs) =
    let more = digits_value (acc * 10 + (c - b'0')) cs in if is_digit c then more else none

digits_value-append :
    (acc v : ℕ) (s t : Str)
    → digits_value acc s ≡ some v
    → digits_value acc (s ++ t) ≡ digits_value v t
unfolding digits_value
digits_value-append acc v [] t h = ground arith
digits_value-append acc v (c ∷ cs) t h =
    ground (arith, digits_value-append (acc * 10 + (c - b'0')) v cs t)

-- What is in front of `rest` is the same whatever `rest` is.
format_fuel-append :
    (f n : ℕ) (rest t : Str) → format_fuel f n (rest ++ t) ≡ format_fuel f n rest ++ t
unfolding format_fuel
format_fuel-append zero n rest t = refl
format_fuel-append (suc f) n rest t =
    ground (arith, format_fuel-append f (n / 10) ((b'0' + n % 10) ∷ rest) t)

format_fuel-value :
    (f n : ℕ) (rest : Str) → n < f → digits_value 0 (format_fuel f n rest) ≡ digits_value n rest
unfolding format_fuel digits_value
format_fuel-value zero n rest h = absurd (omega arith)
format_fuel-value (suc f) n rest h = elim (Bool-cases (ltb n 10)) [
  | inl e ↦ rw e (ground arith)
  | inr e ↦
      rw e (format_fuel-value f (n / 10) ((b'0' + n % 10) ∷ rest) (ground arith) ∙ ground arith)
]

-- Reading a printed number gives the number.
pub format_int-value : (n : ℕ) → digits_value 0 (format_int n) ≡ some n
unfolding format_int digits_value
format_int-value n = format_fuel-value (suc n) n [] (omega arith)

format_fuel-All :
    (f n : ℕ) (rest : Str)
    → All (λ c. is_digit c ≡ true) rest
    → All (λ c. is_digit c ≡ true) (format_fuel f n rest)
unfolding format_fuel
format_fuel-All zero n rest h = h
format_fuel-All (suc f) n rest h = elim (Bool-cases (ltb n 10)) [
  | inl e ↦ rw e (ground arith, h)
  | inr e ↦ rw e (format_fuel-All f (n / 10) ((b'0' + n % 10) ∷ rest) (ground arith, h))
]

-- A printed number is made of digits.
pub format_int-All : (n : ℕ) → All (λ c. is_digit c ≡ true) (format_int n)
unfolding format_int
format_int-All n = format_fuel-All (suc n) n [] tt

-- `strconv.Atoi` of a 64-bit `int`: a sign, at least one digit, and the range.
unsigned : Str → Option ℕ
unsigned [] = none
unsigned (c ∷ cs) = digits_value 0 (c ∷ cs)

in_range : ℕ → Option ℕ → Option ℕ
in_range limit none = none
in_range limit (some v) = if leb v limit then some v else none

negated : Option ℕ → Option ℤ
negated none = none
negated (some zero) = some (pos zero)
negated (some (suc n)) = some (negsuc n)

positive : Option ℕ → Option ℤ
positive none = none
positive (some n) = some (pos n)

unfoldable pub atoi : Str → Option ℤ
unfolding unsigned in_range negated positive digits_value
atoi [] = none
atoi (c ∷ cs) =
    if c == b'-'
    then negated (in_range 9223372036854775808 (unsigned cs))
    else if c == b'+'
    then positive (in_range 9223372036854775807 (unsigned cs))
    else positive (in_range 9223372036854775807 (unsigned (c ∷ cs)))
