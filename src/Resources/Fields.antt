-- ===== src/Resources/Fields.antt =====
-- The field readers of ext-pi/src/manager/resources.ts.
use agent_cat.Base.{
  ℕ, Bool, false, not, ◌&&◌, ◌||◌, List, Option, none, some, Text, codes, includes, is_decimal,
  big_int, code_points, is_lower_hex, all, length, ltb, leb, ◌==◌, if◌then◌else◌,
}
use agent_cat.Base.Int.{ℤ, pos, negsuc}
use agent_cat.Json.Value.{
  JsonValue, is_null, string, JsonMembers, keys_of, has_own, json_member, object_of, number_of,
}
use agent_cat.Json.Integer.{bounded_integer}

-- What the language gives: JSON.stringify of a string, the length of a string in UTF-8 bytes, and
-- toUpperCase.
pub record Strings : Type 0 where
  pub quote : Text → Text
  pub byte_length : Text → ℕ
  pub upper_case : Text → Text

unfoldable pub text_length : Text → ℕ
text_length value = length (code_points value)

abbrev pub bounded : Text → ℕ → ℕ → Bool
bounded value lower upper = leb lower (text_length value) && leb (text_length value) upper

abbrev has_exactly : List Text → JsonMembers → Bool
has_exactly names ms = length (keys_of ms) == length names && all (has_own ms) names

abbrev pub exact_members : List Text → Option JsonMembers → Option JsonMembers
exact_members names none = none
exact_members names (some ms) = if has_exactly names ms then some ms else none

unfoldable pub exact : Option JsonValue → List Text → Option JsonMembers
exact value names = exact_members names (object_of value)

abbrev int64_of : Option Text → Option ℤ
int64_of none = none
int64_of (some source) =
    bounded_integer source (negsuc 9223372036854775807) (pos 9223372036854775807)

unfoldable pub int_of : Option JsonValue → Option ℤ
int_of value = int64_of (number_of value)

abbrev is_one : Option ℤ → Bool
is_one (some (pos n)) = n == 1
is_one _ = false

unfoldable pub version_one : JsonMembers → Bool
version_one fields = is_one (int_of (json_member fields (codes "version")))

abbrev pub parsed {ℓ} : {A : Type ℓ} → Option A → Option (Option A)
parsed none = none
parsed (some a) = some (some a)

-- `null`, the parsed value, or that it is missing or refused.
unfoldable pub nullable {ℓ} :
    {A : Type ℓ} → Option JsonValue → (JsonValue → Option A) → Option (Option A)
nullable none parse = none
nullable (some value) parse = if is_null value then some none else parsed (parse value)

unfoldable pub valid_digest : Text → Bool
valid_digest value = length value == 64 && all is_lower_hex value

-- A canonical unsigned decimal of at most the given digits, and at most the maximum.
unfoldable pub canonical_decimal : Text → ℕ → ℕ → Option ℕ
canonical_decimal value digits maximum =
    if ltb digits (length value) || not (is_decimal value)
    then none
    else if leb (big_int value) maximum
    then some (big_int value)
    else none

unfoldable pub one_of : Option JsonValue → List Text → Option Text
one_of (some (string t)) choices = if includes choices t then some t else none
one_of _ choices = none
