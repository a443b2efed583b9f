-- ===== src/Json/Encode.antt =====
-- `encodeJson` of ext-pi/src/manager/json.ts.
use agent_cat.Base.{
  Bool, true, false, ◌&&◌, ◌||◌, List, [], ◌∷◌, ◌++◌, map, Text, codes, ltb, ◌==◌, if◌then◌else◌,
}
use agent_cat.Json.Value.{
  JsonValue, null, boolean, string, number, array, object, JsonItems, no_items, item, JsonMembers,
  no_members, member,
}

-- `a < b` of two strings: by code units.
unfoldable pub text_less : Text → Text → Bool
text_less s [] = false
text_less [] (d ∷ t) = true
text_less (c ∷ s) (d ∷ t) = ltb c d || (c == d && text_less s t)

-- The encoded members in the order of their names.
unfoldable pub insert_member : Text × Text → List (Text × Text) → List (Text × Text)
insert_member m [] = m ∷ []
insert_member m (n ∷ ns) =
    let rest = insert_member m ns in if text_less n.0 m.0 then n ∷ rest else m ∷ n ∷ ns

-- `list.join(",")`.
unfoldable pub join : List Text → Text
join [] = []
join (t ∷ []) = t
join (t ∷ u ∷ ts) = t ++ b',' ∷ join (u ∷ ts)

abbrev member_text : Text × Text → Text
member_text m = m.1

-- `quote` is JSON.stringify of a string.
module _ (quote : Text → Text) where
  unfoldable mutual
    pub encode_json : JsonValue → Text
    encode_json null = codes "null"
    encode_json (boolean b) = if b then codes "true" else codes "false"
    encode_json (string t) = quote t
    encode_json (number source) = source
    encode_json (array vs) = b'[' ∷ join (encode_items vs) ++ codes "]"
    encode_json (object ms) = b'{' ∷ join (map member_text (encode_members ms)) ++ codes "}"

    pub encode_items : JsonItems → List Text
    encode_items no_items = []
    encode_items (item v vs) = encode_json v ∷ encode_items vs

    pub encode_members : JsonMembers → List (Text × Text)
    encode_members no_members = []
    encode_members (member name v rest) =
        insert_member (name, quote name ++ b':' ∷ encode_json v) (encode_members rest)
