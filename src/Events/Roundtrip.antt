-- ===== src/Events/Roundtrip.antt =====
-- Encoding and decoding the bodies of ext-pi/src/manager/events.ts.
use agent_cat.Base.{
  ◌≤◌, ◌≡◌, refl, ap, true, List, [], ◌∷◌, map, length-map, some, text_eq, All, length, ltb_not, ok,
  is_decimal, digits_value,
}
use agent_cat.Json.Value.{JsonValue, items_of, as_items, json_member}
use agent_cat.Json.Number.{number_equal, decimal_of, parts_of, value_of, span_digits, drop_zeros}
use agent_cat.Events.Syntax.{
  valid_id, valid_resource, valid_cursor, EventName, request_changed, preparation_changed,
  run_changed, decision_changed, command_changed, artifact_changed, service_changed,
  parse_event_name,
}
use agent_cat.Events.Records.{
  Invalidation, InvalidationEvent, EventBatch, cursor_field, parse_invalidation,
  parse_invalidation_event, parse_events, decode_event_batch, encode_invalidation, event_name_text,
  encode_invalidation_event, encode_event_batch,
}

-- What the protocol allows in an invalidation, in an event and in a batch.
pub record IsInvalidation (i : Invalidation) : Type 0 where
  pub resource : valid_resource i.resource ≡ true
  pub revision : valid_id i.revision ≡ true

pub record IsEvent (e : InvalidationEvent) : Type 0 where
  pub id : valid_cursor e.id ≡ true
  pub invalidation : IsInvalidation e.invalidation

pub record IsBatch (b : EventBatch) : Type 0 where
  pub cursor : valid_cursor b.cursor ≡ true
  pub oldest : valid_cursor b.oldest_cursor ≡ true
  pub size : length b.events ≤ 256
  pub events : All IsEvent b.events

parse-event_name_text : (n : EventName) → parse_event_name (event_name_text n) ≡ some n
unfolding parse_event_name event_name_text text_eq
parse-event_name_text request_changed = refl
parse-event_name_text preparation_changed = refl
parse-event_name_text run_changed = refl
parse-event_name_text decision_changed = refl
parse-event_name_text command_changed = refl
parse-event_name_text artifact_changed = refl
parse-event_name_text service_changed = refl

parse-encode_invalidation :
    (i : Invalidation) → IsInvalidation i → parse_invalidation (some (encode_invalidation i)) ≡ ok i
unfolding parse_invalidation encode_invalidation json_member text_eq number_equal decimal_of
    parts_of value_of span_digits drop_zeros is_decimal digits_value
parse-encode_invalidation i v = rw (v.resource, v.revision) refl

parse-encode_event :
    (e : InvalidationEvent)
    → IsEvent e
    → parse_invalidation_event (some (encode_invalidation_event e)) ≡ ok e
unfolding parse_invalidation_event encode_invalidation_event json_member text_eq cursor_field
parse-encode_event e v =
    rw (v.id, parse-event_name_text e.name, parse-encode_invalidation e.invalidation v.invalidation)
      refl

items_of-as_items : (vs : List JsonValue) → items_of (as_items vs) ≡ vs
items_of-as_items [] = refl
items_of-as_items (v ∷ vs) = ap (λ r. v ∷ r) (items_of-as_items vs)

parse-encode_events :
    (es : List InvalidationEvent)
    → All IsEvent es
    → parse_events (map encode_invalidation_event es) ≡ ok es
unfolding parse_events
parse-encode_events [] v = refl
parse-encode_events (e ∷ es) (v, vs) = rw (parse-encode_event e v, parse-encode_events es vs) refl

-- Decoding the JSON value of a batch gives the batch, if the batch is one that the protocol allows.
pub decode-encode_event_batch :
    (b : EventBatch) → IsBatch b → decode_event_batch (encode_event_batch b) ≡ ok b
unfolding decode_event_batch encode_event_batch json_member text_eq cursor_field number_equal
    decimal_of parts_of value_of span_digits drop_zeros is_decimal digits_value
decode-encode_event_batch b v =
    rw
      (
        v.cursor,
        v.oldest,
        items_of-as_items (map encode_invalidation_event b.events),
        length-map encode_invalidation_event b.events,
        ltb_not 256 (length b.events) v.size,
        parse-encode_events b.events v.events,
      )
      refl
