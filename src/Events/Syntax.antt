-- ===== src/Events/Syntax.antt =====
-- The identifiers, cursors, resources and entity tags of ext-pi/src/manager/events.ts, and the
-- String methods that their readers use.
use agent_cat.Base.{
  ℕ, Bool, false, ◌&&◌, ◌||◌, [], ◌∷◌, Option, none, some, Text, codes, is, is_digit, is_decimal,
  big_int, starts_with, strip_suffix, strip_prefix, all, length, ltb, leb, ◌==◌, if◌then◌else◌,
}
use agent_cat.Json.Integer.{word64_max}

-- `/[A-Za-z0-9_-]/`.
abbrev pub is_id_character : ℕ → Bool
is_id_character c =
    leb b'A' c && leb c b'Z' || leb b'a' c && leb c b'z' || is_digit c || c == b'_' || c == b'-'

unfoldable pub valid_id : Text → Bool
valid_id value = all is_id_character value && leb 1 (length value) && leb (length value) 128

-- `/[A-Za-z0-9_\-/?=&.%]/`.
abbrev is_resource_character : ℕ → Bool
is_resource_character c =
    is_id_character c || c == b'/' || c == b'?' || c == b'=' || c == b'&' || c == b'.' || c == b'%'

unfoldable pub valid_resource : Text → Bool
valid_resource value =
    ltb 4 (length value)
    && leb (length value) 8192
    && starts_with value (codes "/v1/")
    && all is_resource_character value

-- The text up to the first separator, and after it.
unfoldable pub cut_at : ℕ → Text → Option (Text × Text)
cut_at separator [] = none
cut_at separator (c ∷ cs) =
    let rest = cut_at separator cs in
    if c == separator
    then some ([], cs)
    else elim rest [ none ↦ none | some (before, after) ↦ some (c ∷ before, after) ]

-- `/^(?:0|[1-9][0-9]{0,19})$/`, and the bound on its value.
abbrev pub is_word64 : Text → Bool
is_word64 number = is_decimal number && leb (length number) 20 && leb (big_int number) word64_max

-- `value.split(".")` has two parts when one dot is there, and no other.
abbrev is_cursor : Option (Text × Text) → Bool
is_cursor none = false
is_cursor (some (stream, number)) = valid_id stream && is_word64 number

unfoldable pub valid_cursor : Text → Bool
valid_cursor value = is_cursor (cut_at b'.' value)

-- `value.slice(1, -1)` of a value between two quotes.
abbrev is_quoted_id : Option Text → Bool
is_quoted_id none = false
is_quoted_id (some id) = valid_id id

unfoldable pub valid_etag : Text → Bool
valid_etag value =
    leb 3 (length value)
    && leb (length value) 130
    && is_quoted_id (elim (strip_prefix (codes "\"") value) [
      | none ↦ none
      | some rest ↦ strip_suffix (codes "\"") rest
    ])

pub data EventName : Type 0 where
  request_changed preparation_changed run_changed decision_changed : EventName
  command_changed artifact_changed service_changed : EventName

unfoldable pub parse_event_name : Text → Option EventName
parse_event_name t =
    if is t "request.changed"
    then some request_changed
    else if is t "preparation.changed"
    then some preparation_changed
    else if is t "run.changed"
    then some run_changed
    else if is t "decision.changed"
    then some decision_changed
    else if is t "command.changed"
    then some command_changed
    else if is t "artifact.changed"
    then some artifact_changed
    else if is t "service.changed"
    then some service_changed
    else none
