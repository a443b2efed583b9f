-- ===== src/Session/Fields.antt =====
-- The readers of a JSON object of ext-pi/src/manager/session.ts: `exactFields`, `texts`, `integers`
-- and `limitOf`.
use agent_cat.Base.{
  ℕ, ◌-◌, Bool, true, false, not, ◌&&◌, List, [], ◌∷◌, Option, none, some, Text, any, all, length,
  ◌==◌, if◌then◌else◌,
}
use agent_cat.Base.Int.{ℤ, pos, negsuc}
use agent_cat.Json.Value.{
  JsonValue, JsonMembers, keys_of, has_own, json_member, object_of, array_of, number_of, string_of,
}
use agent_cat.Json.Number.{same_int}
use agent_cat.Json.Integer.{bounded_integer}

abbrev pub two_31 : ℕ
two_31 = 2147483648

abbrev pub two_63 : ℕ
two_63 = 9223372036854775808

abbrev has_exactly : List Text → JsonMembers → Bool
has_exactly names ms = length (keys_of ms) == length names && all (has_own ms) names

abbrev pub exact_object : List Text → Option JsonMembers → Option JsonMembers
exact_object names none = none
exact_object names (some ms) = if has_exactly names ms then some ms else none

-- The object of a value when its own members are exactly the given names.
unfoldable pub exact_fields : Option JsonValue → List Text → Option JsonMembers
exact_fields value names = exact_object names (object_of value)

abbrev cons_if {ℓ} : {A : Type ℓ} → Option A → Option (List A) → Option (List A)
cons_if (some x) (some xs) = some (x ∷ xs)
cons_if _ _ = none

-- What a reader gives for all elements, if it reads each.
abbrev pub read_all {ℓ} : {A : Type ℓ} → (JsonValue → Option A) → List JsonValue → Option (List A)
read_all read [] = some []
read_all read (v ∷ vs) = cons_if (read v) (read_all read vs)

abbrev pub read_items {ℓ} :
    {A : Type ℓ} → (JsonValue → Option A) → Option (List JsonValue) → Option (List A)
read_items read none = none
read_items read (some vs) = read_all read vs

abbrev pub texts : Option JsonValue → Option (List Text)
texts value = read_items (λ v. string_of (some v)) (array_of value)

abbrev integer_in : ℤ → ℤ → Option Text → Option ℤ
integer_in minimum maximum none = none
integer_in minimum maximum (some source) = bounded_integer source minimum maximum

abbrev pub integers : Option JsonValue → Option (List ℤ)
integers value =
    read_items (λ v. integer_in (negsuc (two_31 - 1)) (pos (two_31 - 1)) (number_of (some v)))
      (array_of value)

unfoldable pub limit_of : JsonMembers → Text → Option ℤ
limit_of fields name =
    integer_in (negsuc (two_63 - 1)) (pos two_63) (number_of (json_member fields name))

-- `value instanceof JsonNumber && boundedInteger(value, 1n, 1n) !== undefined`.
abbrev is_some {ℓ} : {A : Type ℓ} → Option A → Bool
is_some none = false
is_some (some a) = true

unfoldable pub is_one : Option JsonValue → Bool
is_one value = is_some (integer_in (pos 1) (pos 1) (number_of value))

-- `new Set(values).size === values.length` on integers.
abbrev pub distinct_integers : List ℤ → Bool
distinct_integers [] = true
distinct_integers (x ∷ xs) = not (any (same_int x) xs) && distinct_integers xs
