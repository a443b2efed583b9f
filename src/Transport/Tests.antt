-- ===== src/Transport/Tests.antt =====
-- Runs of the event stream and of the follow loop, and the witnesses of their theorems.
use agent_cat.Base.{
  ℕ, ◌+◌, ◌≡◌, refl, Bool, true, false, List, [], ◌∷◌, Option, some, Text, codes, is_decimal,
  digits_value, strip_prefix, text_eq, leb, ok, err,
}
use agent_cat.Events.Failure.{client_closed}
use agent_cat.Events.Blocks.{Bytes, Decoder}
use agent_cat.Events.Parser.{new_sse_parser}
use agent_cat.Events.Resume.{last_id_of}
use agent_cat.Json.Value.{JsonValue, object, string, number, member, no_members}
use agent_cat.Transport.Closing.{IsClosing, follow-closed}
use agent_cat.Transport.Follower.{sse, closed, Follower}
use agent_cat.Transport.Follow.{follow}
use agent_cat.Transport.Resume.{body_of, Streams, stream_signals-resumes}
use agent_cat.Transport.Stream.{Signal, chunk, ended, Receiver, Flow, stream_signals}

abbrev ascii : Decoder
ascii raw = some raw

-- Every text parses as one invalidation.
abbrev parse_any : Text → Option JsonValue
parse_any text = some (
    object (
      member (codes "version") (number (codes "1")) (
        member (codes "resource") (string (codes "/v1/runs/r1"))
          (member (codes "revision") (string (codes "7")) no_members))))

-- A receiver that counts, and closes the transport at the third item.
abbrev counting : Receiver ℕ
counting = record { deliver = λ item n. n + 1; closed = λ n. leb 3 n }

abbrev signals : List Signal
signals =
    chunk (codes ":\n\nid: s.1\nevent: run.changed\n")
    ∷ chunk (codes "data: x\n\nid: s.2\n\n")
    ∷ ended
    ∷ []

abbrev flow : Flow ℕ
flow = record {
  parser = new_sse_parser (some (codes "s.0"));
  seen = record { delivered = false; latest = codes "s.0" };
  world = 0;
}

stream_signals-resumes_example :
    (s : Streams parse_any ascii counting
      (body_of signals)
      flow
      (stream_signals parse_any ascii counting signals flow))
    × ((cursor : Text)
        → (stream_signals parse_any ascii counting signals flow).outcome ≡ ok cursor
        → last_id_of (some (codes "s.0")) s.blocks ≡ some cursor)
stream_signals-resumes_example = stream_signals-resumes parse_any ascii counting signals flow

reaches : (stream_signals parse_any ascii counting signals flow).outcome ≡ ok (codes "s.2")
unfolding stream_signals agent_cat.Transport.Stream.take_chunk agent_cat.Events.Parser.feed_sse
    agent_cat.Events.Parser.scan agent_cat.Events.Parser.end_line
    agent_cat.Events.Parser.strip_return agent_cat.Events.Parser.join_bytes
    agent_cat.Events.Parser.take_line agent_cat.Events.Blocks.block_of
    agent_cat.Events.Blocks.decode_lines agent_cat.Events.Blocks.values_of
    agent_cat.Events.Blocks.fields_of strip_prefix agent_cat.Events.Parser.end_chunk
    agent_cat.Transport.Stream.items_of agent_cat.Events.Blocks.block_from
    agent_cat.Transport.Stream.deliver_items text_eq digits_value is_decimal
    agent_cat.Events.Blocks.field_of agent_cat.Events.Blocks.join_lines
    agent_cat.Events.Records.decode_event_block agent_cat.Events.Records.parse_invalidation
    agent_cat.Events.Syntax.cut_at agent_cat.Events.Syntax.parse_event_name
    agent_cat.Events.Syntax.valid_cursor agent_cat.Events.Syntax.valid_id
    agent_cat.Events.Syntax.valid_resource agent_cat.Json.Number.decimal_of
    agent_cat.Json.Number.drop_zeros agent_cat.Json.Number.number_equal
    agent_cat.Json.Number.parts_of agent_cat.Json.Number.span_digits agent_cat.Json.Number.value_of
    agent_cat.Json.Value.json_member
reaches = refl

delivers_both : (stream_signals parse_any ascii counting signals flow).world ≡ 2
unfolding stream_signals agent_cat.Transport.Stream.take_chunk agent_cat.Events.Parser.feed_sse
    agent_cat.Events.Parser.scan agent_cat.Events.Parser.end_line
    agent_cat.Events.Parser.strip_return agent_cat.Events.Parser.join_bytes
    agent_cat.Events.Parser.take_line agent_cat.Events.Blocks.block_of
    agent_cat.Events.Blocks.decode_lines agent_cat.Events.Blocks.values_of
    agent_cat.Events.Blocks.fields_of strip_prefix agent_cat.Events.Parser.end_chunk
    agent_cat.Transport.Stream.items_of agent_cat.Events.Blocks.block_from
    agent_cat.Transport.Stream.deliver_items text_eq digits_value is_decimal
    agent_cat.Events.Blocks.field_of agent_cat.Events.Blocks.join_lines
    agent_cat.Events.Records.decode_event_block agent_cat.Events.Records.parse_invalidation
    agent_cat.Events.Syntax.cut_at agent_cat.Events.Syntax.parse_event_name
    agent_cat.Events.Syntax.valid_cursor agent_cat.Events.Syntax.valid_id
    agent_cat.Events.Syntax.valid_resource agent_cat.Json.Number.decimal_of
    agent_cat.Json.Number.drop_zeros agent_cat.Json.Number.number_equal
    agent_cat.Json.Number.parts_of agent_cat.Json.Number.span_digits agent_cat.Json.Number.value_of
    agent_cat.Json.Value.json_member
delivers_both = refl

-- A transport whose world tells whether it is closed.
abbrev network : Follower Bool
network = record {
  deliver = λ item via w. w;
  closed = λ w. w;
  prefer = λ w. sse;
  connected = λ via cursor w. w;
  state = λ s w. w;
  open_stream = λ cursor w. (err client_closed, w);
  get_events = λ cursor w. (err client_closed, w);
  wait = λ delay w. delay;
  now = λ w. 0;
  sleep = λ time w. w;
  sleep_interval = λ w. w;
}

network-IsClosing : IsClosing network
network-IsClosing = record {
  connected = λ via cursor w h. h;
  state = λ s w h. h;
  refuses = λ cursor w h. refl;
  opening = λ cursor w h. h;
  reading = λ cursor w h. h;
  sleeping = λ time w h. h;
}

follow-closed_example :
    (end : Bool) × (follow network ascii parse_any 2
        (record { cursor = codes "s.0"; backoff = 1; failures = 0 })
        true
      ≡ some (closed, end))
follow-closed_example =
    follow-closed network network-IsClosing ascii parse_any 0
      (record { cursor = codes "s.0"; backoff = 1; failures = 0 }) true refl
