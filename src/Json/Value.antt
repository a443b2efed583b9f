-- ===== src/Json/Value.antt =====
-- `JsonValue`, and the reading of an object's members. A number is its source text. An object is the
-- list of its own members, whose names differ.
use agent_cat.Base.{
  Bool, true, false, List, [], ◌∷◌, Option, none, some, Text, text_eq, if◌then◌else◌,
}

mutual
  pub data JsonValue : Type 0 where
    null : JsonValue
    boolean : Bool → JsonValue
    string : Text → JsonValue
    number : (source : Text) → JsonValue
    array : JsonItems → JsonValue
    object : JsonMembers → JsonValue

  pub data JsonItems : Type 0 where
    no_items : JsonItems
    item : JsonValue → JsonItems → JsonItems

  pub data JsonMembers : Type 0 where
    no_members : JsonMembers
    member : Text → JsonValue → JsonMembers → JsonMembers

abbrev pub items_of : JsonItems → List JsonValue
items_of no_items = []
items_of (item v rest) = v ∷ items_of rest

abbrev pub as_items : List JsonValue → JsonItems
as_items [] = no_items
as_items (v ∷ rest) = item v (as_items rest)

abbrev pub keys_of : JsonMembers → List Text
keys_of no_members = []
keys_of (member name v rest) = name ∷ keys_of rest

-- The own member with the name.
unfoldable pub json_member : JsonMembers → Text → Option JsonValue
json_member no_members name = none
json_member (member own v rest) name = if text_eq own name then some v else json_member rest name

abbrev is_there : Option JsonValue → Bool
is_there none = false
is_there (some v) = true

-- `Object.hasOwn(value, name)`.
abbrev pub has_own : JsonMembers → Text → Bool
has_own ms name = is_there (json_member ms name)

-- `typeof value === "string"`.
abbrev pub string_of : Option JsonValue → Option Text
string_of (some (string t)) = some t
string_of _ = none

-- `value instanceof JsonNumber`: its source text.
abbrev pub number_of : Option JsonValue → Option Text
number_of (some (number source)) = some source
number_of _ = none

-- `isJsonObject(value)` and `isJsonArray(value)`.
abbrev pub object_of : Option JsonValue → Option JsonMembers
object_of (some (object ms)) = some ms
object_of _ = none

abbrev pub array_of : Option JsonValue → Option (List JsonValue)
array_of (some (array vs)) = some (items_of vs)
array_of _ = none

-- `value === null`.
abbrev pub is_null : JsonValue → Bool
is_null null = true
is_null _ = false
