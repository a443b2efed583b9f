-- ===== src/Json/Number.antt =====
-- `decimalOf` and `numberEqual`: the exact decimal value of a number's source text.
use agent_cat.Base.{
  ℕ, ◌+◌, ◌-◌, Bool, true, false, not, ◌&&◌, ◌||◌, [], ◌∷◌, ◌++◌, reverse, Option, none, some, Text,
  text_eq, codes, is_digit, is_decimal, big_int, is_empty, length, ltb, ◌==◌, if◌then◌else◌, all,
}
use agent_cat.Base.Int.{ℤ, pos, negsuc}

pub record Decimal : Type 0 where
  pub negative : Bool
  pub digits : Text
  pub exponent : ℤ

-- The digits at the start of a text, and what follows them.
unfoldable pub span_digits : Text → Text × Text
span_digits [] = ([], [])
span_digits (c ∷ cs) =
    let rest = span_digits cs in if is_digit c then (c ∷ rest.0, rest.1) else ([], c ∷ cs)

unfoldable pub drop_zeros : Text → Text
drop_zeros [] = []
drop_zeros (c ∷ cs) = let rest = drop_zeros cs in if c == b'0' then rest else c ∷ cs

-- An integer as what is counted up and what is counted down.
abbrev pub difference : ℕ → ℕ → ℤ
difference up down = if ltb up down then negsuc (down - up - 1) else pos (up - down)

-- The parts of `/^(-?)(0|[1-9][0-9]*)(?:\.([0-9]+))?(?:[eE]([+-]?[0-9]+))?$/`.
pub record Parts : Type 0 where
  pub negative : Bool
  pub whole : Text
  pub fraction : Text
  pub power_negative : Bool
  pub power : Text

-- The digits of an exponent, with its sign.
abbrev power_digits : Bool → Text → Option (Bool × Text)
power_digits negative text =
    if not (is_empty text) && all is_digit text then some (negative, text) else none

abbrev signed_power : Text → Option (Bool × Text)
signed_power [] = none
signed_power (c ∷ cs) =
    if c == b'-'
    then power_digits true cs
    else if c == b'+'
    then power_digits false cs
    else power_digits false (c ∷ cs)

abbrev power_of : Text → Option (Bool × Text)
power_of [] = some (false, codes "0")
power_of (c ∷ cs) = if c == b'e' || c == b'E' then signed_power cs else none

abbrev with_power : Bool → Text → Text → Option (Bool × Text) → Option Parts
with_power negative whole fraction none = none
with_power negative whole fraction (some (power_negative, power)) = some (record {
  negative = negative;
  whole = whole;
  fraction = fraction;
  power_negative = power_negative;
  power = power;
})

-- After the whole digits: a fraction, if a point stands there, and then the exponent.
abbrev after_whole : Bool → Text → Text → Option Parts
after_whole negative whole [] = with_power negative whole [] (power_of [])
after_whole negative whole (c ∷ cs) =
    if c == b'.'
    then (if is_empty (span_digits cs).0
        then none
        else with_power negative whole (span_digits cs).0 (power_of (span_digits cs).1))
    else with_power negative whole [] (power_of (c ∷ cs))

abbrev unsigned_parts : Bool → Text → Option Parts
unsigned_parts negative text =
    if is_decimal (span_digits text).0
    then after_whole negative (span_digits text).0 (span_digits text).1
    else none

unfoldable pub parts_of : Text → Option Parts
parts_of [] = none
parts_of (c ∷ cs) = if c == b'-' then unsigned_parts true cs else unsigned_parts false (c ∷ cs)

-- The value of the parts: no zeros at either end of the digits, which the exponent makes up for.
unfoldable pub value_of : Parts → Decimal
value_of p =
    let digits = drop_zeros (p.whole ++ p.fraction) in
    let bare = reverse (drop_zeros (reverse digits)) in
    let trailing = length digits - length bare in
    let up = if p.power_negative then 0 else big_int p.power in
    let down = if p.power_negative then big_int p.power else 0 in
    if is_empty digits
    then record { negative = false; digits = codes "0"; exponent = pos 0 }
    else record {
      negative = p.negative;
      digits = bare;
      exponent = difference (up + trailing) (down + length p.fraction);
    }

abbrev value_if : Option Parts → Option Decimal
value_if none = none
value_if (some p) = some (value_of p)

-- None is where the source throws, for a text that is no number; a JsonNumber has no such text.
unfoldable pub decimal_of : Text → Option Decimal
decimal_of source = value_if (parts_of source)

abbrev pub same_int : ℤ → ℤ → Bool
same_int (pos a) (pos b) = a == b
same_int (negsuc a) (negsuc b) = a == b
same_int _ _ = false

abbrev pub bool_eq : Bool → Bool → Bool
bool_eq true b = b
bool_eq false b = not b

abbrev same_decimal : Option Decimal → Option Decimal → Bool
same_decimal (some x) (some y) =
    bool_eq x.negative y.negative && text_eq x.digits y.digits && same_int x.exponent y.exponent
same_decimal _ _ = false

unfoldable pub number_equal : Text → Text → Bool
number_equal a b = same_decimal (decimal_of a) (decimal_of b)
