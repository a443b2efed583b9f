-- ===== src/Events/Tests.antt =====
-- Runs of the event parser on ASCII streams, and the witnesses of its theorems.
use agent_cat.Base.{
  false, ◌≡◌, refl, true, List, [], ◌∷◌, ◌++◌, some, Text, codes, text_eq, is_decimal, digits_value,
  strip_prefix, ok, ◌>>=◌, arith,
}
use agent_cat.Events.Syntax.{
  valid_id, valid_resource, cut_at, valid_cursor, valid_etag, parse_event_name, run_changed,
}
use agent_cat.Events.Blocks.{
  Bytes, Decoder, SseBlock, dispatch, heartbeat, decode_lines, field_of, fields_of, values_of,
  join_lines, block_from, block_of,
}
use agent_cat.Events.Parser.{
  SseParser, new_sse_parser, join_bytes, strip_return, take_line, end_line, end_chunk, scan,
  feed_sse, feed_all, close_sse,
}
use agent_cat.Events.Bytewise.{reading, show, read_bytes}
use agent_cat.Events.Chunks.{feed_all-refines, feed_all-split}
use agent_cat.Events.Bounds.{IsSound, feed_all-IsSound}
use agent_cat.Events.Resume.{last_id_of, feed_all-Resumes}
use agent_cat.Json.Value.{json_member}
use agent_cat.Json.Number.{number_equal, decimal_of, parts_of, value_of, span_digits, drop_zeros}
use agent_cat.Events.Records.{
  EventBatch, cursor_field, parse_invalidation, parse_invalidation_event, parse_events,
  decode_event_batch, encode_invalidation, event_name_text, encode_invalidation_event,
  encode_event_batch, decode_event_block,
}
use agent_cat.Events.Roundtrip.{IsBatch, decode-encode_event_batch}
use agent_cat.Events.Accepted.{decode_event_batch-IsBatch}

parser_unfolds : Unit {0}
unfolding feed_all feed_sse scan end_chunk end_line take_line strip_return join_bytes block_of
    block_from join_lines values_of fields_of field_of decode_lines valid_cursor cut_at valid_id
    text_eq is_decimal digits_value strip_prefix
parser_unfolds = tt

abbrev ascii : Decoder
ascii raw = some raw

-- A stream of a heartbeat, an event and the start of a block, and two ways to split it.
abbrev stream : Text
stream =
    codes ": up"
    ++ 10 ∷ 10 ∷ codes "id: s.7"
    ++ 13 ∷ 10 ∷ codes "event: run.changed"
    ++ 10 ∷ codes "data: a"
    ++ 10 ∷ codes "data:b"
    ++ 10 ∷ 10 ∷ codes "id: s.8"

abbrev whole : List Bytes
whole = stream ∷ []

abbrev in_parts : List Bytes
in_parts =
    (codes ": u")
    ∷ []
    ∷ (codes "p" ++ 10 ∷ [])
    ∷ (10 ∷ codes "id: s.7" ++ 13 ∷ [])
    ∷ (10 ∷ codes "event: run.changed"
        ++ 10 ∷ codes "data: a"
        ++ 10 ∷ codes "data:b"
        ++ 10 ∷ 10 ∷ codes "id: s.8")
    ∷ []

abbrev start : SseParser
start = new_sse_parser (some (codes "s.6"))

abbrev ended : SseParser
ended = record {
  pieces = codes "id: s.8" ∷ [];
  lines = [];
  bytes = 7;
  last_id = some (codes "s.7");
}

abbrev given : List SseBlock
given =
    heartbeat
    ∷ dispatch (record {
      id = some (codes "s.7");
      name = codes "run.changed";
      data_text = codes "a" ++ 10 ∷ codes "b";
    })
    ∷ []

feed_whole : feed_all ascii start whole ≡ ok (ended, given)
unfolding parser_unfolds
feed_whole = refl

same_stream : join_bytes whole ≡ join_bytes in_parts
unfolding join_bytes
same_stream = refl

event_names : parse_event_name (codes "run.changed") ≡ some run_changed
unfolding parse_event_name text_eq
event_names = refl

etags : valid_etag (codes "\"r-1\"") ≡ true
unfolding valid_etag valid_id strip_prefix
etags = refl

resources : valid_resource (codes "/v1/runs/1?view=x") ≡ true
unfolding valid_resource strip_prefix
resources = refl

feed_all-refines_example :
    (feed_all ascii start in_parts >>= show)
    ≡ read_bytes ascii (reading start []) (join_bytes in_parts)
feed_all-refines_example = feed_all-refines ascii in_parts start (omega arith)

feed_all-split_example :
    (feed_all ascii start whole >>= show) ≡ (feed_all ascii start in_parts >>= show)
feed_all-split_example = feed_all-split ascii start whole in_parts (omega arith) same_stream

start-IsSound : IsSound start
unfolding valid_cursor cut_at valid_id is_decimal digits_value
start-IsSound = record { counted = omega arith; bounded = omega arith; cursor = refl }

feed_all-IsSound_example : IsSound ended
feed_all-IsSound_example = feed_all-IsSound ascii start whole start-IsSound feed_whole

feed_all-Resumes_example : close_sse ended ≡ last_id_of (some (codes "s.6")) given
feed_all-Resumes_example = feed_all-Resumes ascii start whole feed_whole

abbrev batch : EventBatch
batch = record {
  cursor = codes "s.8";
  oldest_cursor = codes "s.2";
  events =
      record {
        id = codes "s.7";
        name = run_changed;
        invalidation = record { resource = codes "/v1/runs/1"; revision = codes "r-9" };
      }
      ∷ [];
  has_more = false;
}

batch-IsBatch : IsBatch batch
unfolding valid_cursor cut_at valid_id valid_resource strip_prefix is_decimal digits_value
batch-IsBatch = record {
  cursor = refl;
  oldest = refl;
  size = omega arith;
  events = (record { id = refl; invalidation = record { resource = refl; revision = refl } }, tt);
}

decode-encode_event_batch_example : decode_event_batch (encode_event_batch batch) ≡ ok batch
decode-encode_event_batch_example = decode-encode_event_batch batch batch-IsBatch

decoded : decode_event_batch (encode_event_batch batch) ≡ ok batch
unfolding parser_unfolds decode_event_batch encode_event_batch encode_invalidation_event
    encode_invalidation event_name_text parse_events parse_invalidation_event parse_invalidation
    parse_event_name cursor_field json_member number_equal decimal_of parts_of value_of span_digits
    drop_zeros valid_resource
decoded = refl

decode_event_batch-IsBatch_example : IsBatch batch
decode_event_batch-IsBatch_example = decode_event_batch-IsBatch (encode_event_batch batch) decoded

block_decodes :
    decode_event_block
      (λ t. some (encode_invalidation (record { resource = codes "/v1/runs/1"; revision = t })))
      (record { id = some (codes "s.7"); name = codes "run.changed"; data_text = codes "r-9" })
    ≡ ok (record {
      id = codes "s.7";
      name = run_changed;
      invalidation = record { resource = codes "/v1/runs/1"; revision = codes "r-9" };
    })
unfolding parser_unfolds decode_event_block encode_invalidation parse_invalidation parse_event_name
    json_member number_equal decimal_of parts_of value_of span_digits drop_zeros valid_resource
block_decodes = refl

numbers_equal : number_equal (codes "70e-1") (codes "7.0") ≡ true
unfolding parser_unfolds number_equal decimal_of parts_of value_of span_digits drop_zeros
numbers_equal = refl

numbers_differ : number_equal (codes "-1") (codes "1") ≡ false
unfolding parser_unfolds number_equal decimal_of parts_of value_of span_digits drop_zeros
numbers_differ = refl

zeros_equal : number_equal (codes "-0.00E+5") (codes "0") ≡ true
unfolding parser_unfolds number_equal decimal_of parts_of value_of span_digits drop_zeros
zeros_equal = refl
