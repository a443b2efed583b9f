-- ===== src/Json/Integer.antt =====
-- `boundedInteger` and `word64` of ext-pi/src/manager/json.ts, and the text of an integer,
-- `value.toString()`.
use agent_cat.Base.{
  ℕ, zero, suc, ◌+◌, ◌*◌, ◌/◌, ◌%◌, ◌^◌, max, Bool, true, false, ◌&&◌, [], ◌∷◌, Option, none, some,
  Text, big_int, length, ltb, leb, if◌then◌else◌,
}
use agent_cat.Base.Int.{ℤ, pos, negsuc}
use agent_cat.Json.Value.{JsonValue, number}
use agent_cat.Json.Number.{Decimal, decimal_of}

abbrev pub word64_max : ℕ
word64_max = 18446744073709551615

-- The decimal digits of a number, before the digits of `tail`. A digit is taken each round, so the
-- number itself is fuel enough.
unfoldable pub digits_before : ℕ → ℕ → Text → Text
digits_before zero n tail = (b'0' + n % 10) ∷ tail
digits_before (suc fuel) n tail =
    let rest = digits_before fuel (n / 10) ((b'0' + n % 10) ∷ tail) in
    if ltb n 10 then (b'0' + n) ∷ tail else rest

unfoldable pub decimal_text : ℕ → Text
decimal_text n = digits_before n n []

-- `value.toString().length`.
abbrev text_length : ℤ → ℕ
text_length (pos n) = length (decimal_text n)
text_length (negsuc n) = suc (length (decimal_text (suc n)))

abbrev pub negated : ℕ → ℤ
negated zero = pos 0
negated (suc n) = negsuc n

abbrev pub int_le : ℤ → ℤ → Bool
int_le (pos a) (pos b) = leb a b
int_le (pos a) (negsuc b) = false
int_le (negsuc a) (pos b) = true
int_le (negsuc a) (negsuc b) = leb b a

abbrev pub within : ℤ → ℤ → ℤ → Option ℤ
within minimum maximum value =
    if int_le minimum value && int_le value maximum then some value else none

abbrev integer_of : ℤ → ℤ → Bool → Text → ℤ → Option ℤ
integer_of minimum maximum negative digits (negsuc exponent) = none
integer_of minimum maximum negative digits (pos exponent) =
    let magnitude = big_int digits * 10 ^ exponent in
    let value = if negative then negated magnitude else pos magnitude in
    if ltb (max (text_length minimum) (text_length maximum)) (length digits + exponent)
    then none
    else within minimum maximum value

abbrev bounded_decimal : ℤ → ℤ → Option Decimal → Option ℤ
bounded_decimal minimum maximum none = none
bounded_decimal minimum maximum (some d) = integer_of minimum maximum d.negative d.digits d.exponent

unfoldable pub bounded_integer : Text → ℤ → ℤ → Option ℤ
bounded_integer source minimum maximum = bounded_decimal minimum maximum (decimal_of source)

abbrev natural_of : Option ℤ → Option ℕ
natural_of (some (pos n)) = some n
natural_of _ = none

unfoldable pub bounded_natural : Text → ℕ → ℕ → Option ℕ
bounded_natural source minimum maximum =
    natural_of (bounded_integer source (pos minimum) (pos maximum))

unfoldable pub word64 : Option JsonValue → Option ℕ
word64 (some (number source)) = bounded_natural source 0 word64_max
word64 _ = none
