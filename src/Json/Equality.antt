-- ===== src/Json/Equality.antt =====
-- `jsonEqual` of ext-pi/src/manager/json.ts. An object's own members differ in name, so its members
-- are walked in place of its names.
use agent_cat.Base.{Bool, true, false, ◌&&◌, none, some, text_eq, length, ◌==◌}
use agent_cat.Json.Value.{
  JsonValue, null, boolean, string, number, array, object, JsonItems, no_items, item, JsonMembers,
  no_members, member, keys_of, json_member,
}
use agent_cat.Json.Number.{number_equal, bool_eq}

unfoldable mutual
  pub json_equal : JsonValue → JsonValue → Bool
  json_equal null null = true
  json_equal (boolean a) (boolean b) = bool_eq a b
  json_equal (string a) (string b) = text_eq a b
  json_equal (number a) (number b) = number_equal a b
  json_equal (array as_items) (array bs) = items_equal as_items bs
  json_equal (object ms) (object ns) =
      length (keys_of ms) == length (keys_of ns) && members_equal ms ns
  json_equal _ _ = false

  pub items_equal : JsonItems → JsonItems → Bool
  items_equal no_items no_items = true
  items_equal (item a xs) (item b ys) = json_equal a b && items_equal xs ys
  items_equal _ _ = false

  pub members_equal : JsonMembers → JsonMembers → Bool
  members_equal no_members ns = true
  members_equal (member name a rest) ns =
      (elim (json_member ns name) [ none ↦ false | some b ↦ json_equal a b ])
      && members_equal rest ns
