-- ===== src/Events/Accepted.antt =====
-- What the decoders of ext-pi/src/manager/events.ts accept.
use agent_cat.Base.{
  suc, ◌≡◌, refl, ap, true, not, ◌||◌, List, [], ◌∷◌, Option, some, Text, codes, All, length, ltb,
  ok, refuse, required, arith, >>=-eq-ok, refuse-eq-ok, subst-ok,
}
use agent_cat.Json.Value.{JsonValue, JsonMembers, json_member}
use agent_cat.Events.Syntax.{valid_id, valid_resource, valid_cursor, parse_event_name}
use agent_cat.Events.Failure.{invalid_response}
use agent_cat.Events.Records.{
  Invalidation, InvalidationEvent, EventBatch, closed, text, listed, flag, version_one,
  cursor_field, batch_names, parse_invalidation, parse_invalidation_event, parse_events,
  decode_event_batch,
}
use agent_cat.Events.Roundtrip.{IsInvalidation, IsEvent, IsBatch}

cursor_field-eq-ok :
    (fields : JsonMembers) (name : Text) {t : Text}
    → cursor_field fields name ≡ ok t
    → valid_cursor t ≡ true
unfolding cursor_field
cursor_field-eq-ok fields name h =
    let (value, a, h₁) = >>=-eq-ok (text (json_member fields name)) _ h in
    let (_, b, h₂) = >>=-eq-ok (refuse (not (valid_cursor value)) invalid_response) _ h₁ in
    subst-ok (λ (t : Text). valid_cursor t ≡ true) h₂
      (ground (arith, refuse-eq-ok (not (valid_cursor value)) invalid_response b))

parse_invalidation-IsInvalidation :
    (v : Option JsonValue) {i : Invalidation} → parse_invalidation v ≡ ok i → IsInvalidation i
unfolding parse_invalidation
parse_invalidation-IsInvalidation v h =
    let names = codes "version" ∷ codes "resource" ∷ codes "revision" ∷ [] in
    let (fields, _, h₁) = >>=-eq-ok (closed v names) _ h in
    let (_, _, h₂) = >>=-eq-ok (refuse (not (version_one fields)) invalid_response) _ h₁ in
    let (resource, _, h₃) = >>=-eq-ok (text (json_member fields (codes "resource"))) _ h₂ in
    let (revision, _, h₄) = >>=-eq-ok (text (json_member fields (codes "revision"))) _ h₃ in
    let bad = not (valid_resource resource) || not (valid_id revision) in
    let (_, c, h₅) = >>=-eq-ok (refuse bad invalid_response) _ h₄ in
    let good = refuse-eq-ok bad invalid_response c in
    subst-ok IsInvalidation h₅
      (record { resource = ground (arith, good); revision = ground (arith, good) })

parse_invalidation_event-IsEvent :
    (v : Option JsonValue) {e : InvalidationEvent} → parse_invalidation_event v ≡ ok e → IsEvent e
unfolding parse_invalidation_event
parse_invalidation_event-IsEvent v h =
    let names = codes "id" ∷ codes "event" ∷ codes "data" ∷ [] in
    let (fields, _, h₁) = >>=-eq-ok (closed v names) _ h in
    let (id, cursor, h₂) = >>=-eq-ok (cursor_field fields (codes "id")) _ h₁ in
    let (name_text, _, h₃) = >>=-eq-ok (text (json_member fields (codes "event"))) _ h₂ in
    let (name, _, h₄) = >>=-eq-ok (required (parse_event_name name_text) invalid_response) _ h₃ in
    let (i, parsed, h₅) = >>=-eq-ok (parse_invalidation (json_member fields (codes "data"))) _ h₄ in
    subst-ok IsEvent h₅ (record {
      id = cursor_field-eq-ok fields (codes "id") cursor;
      invalidation = parse_invalidation-IsInvalidation (json_member fields (codes "data")) parsed;
    })

-- The events of a list, as many as its items.
Parsed : List JsonValue → List InvalidationEvent → Type 0
Parsed items events = (length events ≡ length items) × All IsEvent events

parse_events-Parsed :
    (items : List JsonValue) {events : List InvalidationEvent}
    → parse_events items ≡ ok events
    → Parsed items events
unfolding parse_events Parsed
parse_events-Parsed [] h = subst-ok (Parsed []) h (refl, tt)
parse_events-Parsed (item ∷ rest) h =
    let (event, first, h₁) = >>=-eq-ok (parse_invalidation_event (some item)) _ h in
    let (events, later, h₂) = >>=-eq-ok (parse_events rest) _ h₁ in
    let (count, all) = parse_events-Parsed rest later in
    subst-ok (Parsed (item ∷ rest)) h₂
      (ap suc count, (parse_invalidation_event-IsEvent (some item) first, all))

-- A decoded batch is one that the protocol allows: its cursors are cursors, it has at most 256 events,
-- and each has a cursor, a resource below /v1/ and a revision.
pub decode_event_batch-IsBatch :
    (v : JsonValue) {b : EventBatch} → decode_event_batch v ≡ ok b → IsBatch b
unfolding decode_event_batch Parsed
decode_event_batch-IsBatch v h =
    let (fields, _, h₁) = >>=-eq-ok (closed (some v) batch_names) _ h in
    let (_, _, h₂) = >>=-eq-ok (refuse (not (version_one fields)) invalid_response) _ h₁ in
    let (cursor, c, h₃) = >>=-eq-ok (cursor_field fields (codes "cursor")) _ h₂ in
    let (oldest, o, h₄) = >>=-eq-ok (cursor_field fields (codes "oldestCursor")) _ h₃ in
    let (items, _, h₅) = >>=-eq-ok (listed (json_member fields (codes "events"))) _ h₄ in
    let (_, few, h₆) = >>=-eq-ok (refuse (ltb 256 (length items)) invalid_response) _ h₅ in
    let (more, _, h₇) = >>=-eq-ok (flag (json_member fields (codes "hasMore"))) _ h₆ in
    let (events, parsed, h₈) = >>=-eq-ok (parse_events items) _ h₇ in
    let (count, all) = parse_events-Parsed items parsed in
    subst-ok IsBatch h₈ (record {
      cursor = cursor_field-eq-ok fields (codes "cursor") c;
      oldest = cursor_field-eq-ok fields (codes "oldestCursor") o;
      size = ground (arith, count, refuse-eq-ok (ltb 256 (length items)) invalid_response few);
      events = all;
    })
