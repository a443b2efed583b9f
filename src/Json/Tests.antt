-- ===== src/Json/Tests.antt =====
-- Runs of the integer readings and of equality.
use agent_cat.Base.{◌≡◌, refl, some, none, codes, is_decimal, digits_value}
use agent_cat.Json.Number.{number_equal, decimal_of, parts_of, value_of, span_digits, drop_zeros}
use agent_cat.Json.Integer.{
  word64_max, digits_before, decimal_text, bounded_integer, bounded_natural, word64,
}
use agent_cat.Json.Value.{number}

largest : decimal_text 18446744073709551615 ≡ codes "18446744073709551615"
unfolding decimal_text digits_before
largest = refl

reads_largest : word64 (some (number (codes "18446744073709551615"))) ≡ some word64_max
unfolding word64 bounded_natural bounded_integer decimal_text digits_before number_equal decimal_of
    parts_of value_of span_digits drop_zeros is_decimal digits_value
reads_largest = refl

reads_scaled : word64 (some (number (codes "70e-1"))) ≡ some 7
unfolding word64 bounded_natural bounded_integer decimal_text digits_before number_equal decimal_of
    parts_of value_of span_digits drop_zeros is_decimal digits_value
reads_scaled = refl

refuses_large : word64 (some (number (codes "18446744073709551616"))) ≡ none
unfolding word64 bounded_natural bounded_integer decimal_text digits_before number_equal decimal_of
    parts_of value_of span_digits drop_zeros is_decimal digits_value
refuses_large = refl
