-- ===== src/Events/Records.antt =====
-- The JSON bodies of invalidations and of polling batches of ext-pi/src/manager/events.ts. The source
-- gives undefined where a value is refused, and `decided` makes that the one failure; the model gives
-- the failure at once.
use agent_cat.Base.{
  Bool, false, not, ◌&&◌, ◌||◌, List, [], ◌∷◌, map, Option, some, Text, codes, all, length, ltb,
  ◌==◌, if◌then◌else◌, ok, err, ◌>>=◌, ◌>>◌, refuse, required,
}
use agent_cat.Json.Value.{
  JsonValue, boolean, string, number, array, object, JsonMembers, no_members, member, items_of,
  as_items, keys_of, json_member, has_own,
}
use agent_cat.Json.Number.{number_equal}
use agent_cat.Events.Syntax.{
  valid_id, valid_resource, valid_cursor, EventName, request_changed, preparation_changed,
  run_changed, decision_changed, command_changed, artifact_changed, service_changed,
  parse_event_name,
}
use agent_cat.Events.Blocks.{SseEvent}
use agent_cat.Events.Failure.{Outcome, invalid_response}

pub record Invalidation : Type 0 where
  pub resource : Text
  pub revision : Text

pub record InvalidationEvent : Type 0 where
  pub id : Text
  pub name : EventName
  pub invalidation : Invalidation

pub record EventBatch : Type 0 where
  pub cursor : Text
  pub oldest_cursor : Text
  pub events : List InvalidationEvent
  pub has_more : Bool

abbrev pub one : JsonValue
one = number (codes "1")

-- The object of a value whose own members are exactly the given names.
abbrev pub closed : Option JsonValue → List Text → Outcome JsonMembers
closed (some (object ms)) names =
    if length (keys_of ms) == length names && all (has_own ms) names
    then ok ms
    else err invalid_response
closed _ names = err invalid_response

abbrev pub text : Option JsonValue → Outcome Text
text (some (string t)) = ok t
text _ = err invalid_response

abbrev is_one : Option JsonValue → Bool
is_one (some (number source)) = number_equal source (codes "1")
is_one _ = false

abbrev pub version_one : JsonMembers → Bool
version_one fields = is_one (json_member fields (codes "version"))

unfoldable pub cursor_field : JsonMembers → Text → Outcome Text
cursor_field fields name = do
  value ← text (json_member fields name)
  refuse (not (valid_cursor value)) invalid_response
  ok value

unfoldable pub parse_invalidation : Option JsonValue → Outcome Invalidation
parse_invalidation value = do
  fields ← closed value (codes "version" ∷ codes "resource" ∷ codes "revision" ∷ [])
  refuse (not (version_one fields)) invalid_response
  resource ← text (json_member fields (codes "resource"))
  revision ← text (json_member fields (codes "revision"))
  refuse (not (valid_resource resource) || not (valid_id revision)) invalid_response
  ok (record { resource = resource; revision = revision })

unfoldable pub parse_invalidation_event : Option JsonValue → Outcome InvalidationEvent
parse_invalidation_event value = do
  fields ← closed value (codes "id" ∷ codes "event" ∷ codes "data" ∷ [])
  id ← cursor_field fields (codes "id")
  name_text ← text (json_member fields (codes "event"))
  name ← required (parse_event_name name_text) invalid_response
  invalidation ← parse_invalidation (json_member fields (codes "data"))
  ok (record { id = id; name = name; invalidation = invalidation })

unfoldable pub parse_events : List JsonValue → Outcome (List InvalidationEvent)
parse_events [] = ok []
parse_events (item ∷ rest) = do
  event ← parse_invalidation_event (some item)
  events ← parse_events rest
  ok (event ∷ events)

abbrev pub listed : Option JsonValue → Outcome (List JsonValue)
listed (some (array items)) = ok (items_of items)
listed _ = err invalid_response

abbrev pub flag : Option JsonValue → Outcome Bool
flag (some (boolean b)) = ok b
flag _ = err invalid_response

abbrev pub batch_names : List Text
batch_names =
    codes "version" ∷ codes "cursor" ∷ codes "oldestCursor" ∷ codes "events" ∷ codes "hasMore" ∷ []

unfoldable pub decode_event_batch : JsonValue → Outcome EventBatch
decode_event_batch value = do
  fields ← closed (some value) batch_names
  refuse (not (version_one fields)) invalid_response
  cursor ← cursor_field fields (codes "cursor")
  oldest_cursor ← cursor_field fields (codes "oldestCursor")
  items ← listed (json_member fields (codes "events"))
  refuse (ltb 256 (length items)) invalid_response
  has_more ← flag (json_member fields (codes "hasMore"))
  events ← parse_events items
  ok (record {
    cursor = cursor;
    oldest_cursor = oldest_cursor;
    events = events;
    has_more = has_more;
  })

unfoldable pub encode_invalidation : Invalidation → JsonValue
encode_invalidation i = object (
    member (codes "version") one (
      member (codes "resource") (string i.resource)
        (member (codes "revision") (string i.revision) no_members)))

-- The text of a name is the name itself in the source.
unfoldable pub event_name_text : EventName → Text
event_name_text request_changed = codes "request.changed"
event_name_text preparation_changed = codes "preparation.changed"
event_name_text run_changed = codes "run.changed"
event_name_text decision_changed = codes "decision.changed"
event_name_text command_changed = codes "command.changed"
event_name_text artifact_changed = codes "artifact.changed"
event_name_text service_changed = codes "service.changed"

unfoldable pub encode_invalidation_event : InvalidationEvent → JsonValue
encode_invalidation_event e = object (
    member (codes "id") (string e.id) (
      member (codes "event") (string (event_name_text e.name))
        (member (codes "data") (encode_invalidation e.invalidation) no_members)))

unfoldable pub encode_event_batch : EventBatch → JsonValue
encode_event_batch b = object (
    member (codes "version") one (
      member (codes "cursor") (string b.cursor) (
        member (codes "oldestCursor") (string b.oldest_cursor) (
          member (codes "events") (array (as_items (map encode_invalidation_event b.events)))
            (member (codes "hasMore") (boolean b.has_more) no_members)))))

-- The invalidation of a dispatched block; the JSON parser of the runtime is a parameter.
unfoldable pub decode_event_block : (Text → Option JsonValue) → SseEvent → Outcome InvalidationEvent
decode_event_block try_parse_json event = do
  id ← required event.id invalid_response
  name ← required (parse_event_name event.name) invalid_response
  json ← required (try_parse_json event.data_text) invalid_response
  invalidation ← parse_invalidation (some json)
  ok (record { id = id; name = name; invalidation = invalidation })
