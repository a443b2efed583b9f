-- ===== src/Transport/Stream.antt =====
-- One connection to the event stream: the body of `#streamEvents` of
-- ext-pi/src/manager/transport.ts, with the delivery of `followEvents`.
use agent_cat.Base.{
  Bool, true, List, [], ◌∷◌, Option, Text, if◌then◌else◌, Result, ok, err, ◌>>=◌, required,
}
use agent_cat.Events.Failure.{client_closed, transport_unavailable, invalid_response, Outcome}
use agent_cat.Events.Blocks.{Bytes, Decoder, SseBlock}
use agent_cat.Events.Parser.{SseParser, feed_sse, close_sse}
use agent_cat.Events.Records.{InvalidationEvent, decode_event_block}
use agent_cat.Json.Value.{JsonValue}

pub data StreamItem : Type 0 where
  invalidation : InvalidationEvent → StreamItem
  heartbeat : StreamItem

-- What the open response shows: a chunk of the body, its end (or the idle bound), or its loss.
pub data Signal : Type 0 where
  chunk : Bytes → Signal
  ended dropped : Signal

-- Whether an item was delivered, and the identifier of the last one that has one.
pub record Seen : Type 0 where
  pub delivered : Bool
  pub latest : Text

-- The receiver of the items, which may close the transport, and whether the transport is closed.
pub record Receiver (W : Type 0) : Type 0 where
  pub deliver : StreamItem → W → W
  pub closed : W → Bool

abbrev pub seen_after : StreamItem → Seen → Seen
seen_after (invalidation event) seen = record { delivered = true; latest = event.id }
seen_after heartbeat seen = record seen { delivered = true }

-- The state of one connection.
pub record Flow (W : Type 0) : Type 0 where
  pub parser : SseParser
  pub seen : Seen
  pub world : W

-- How a connection ends.
pub record Stopped (W : Type 0) : Type 0 where
  pub outcome : Outcome Text
  pub seen : Seen
  pub world : W

module _ (try_parse_json : Text → Option JsonValue) where
  unfoldable pub items_of : List SseBlock → Outcome (List StreamItem)
  items_of [] = ok []
  items_of (SseBlock.heartbeat ∷ blocks) = items_of blocks >>= λ items. ok (heartbeat ∷ items)
  items_of (SseBlock.advance id ∷ blocks) = items_of blocks
  items_of (SseBlock.dispatch event ∷ blocks) =
      decode_event_block try_parse_json event >>= λ decoded.
      items_of blocks >>= λ items. ok (invalidation decoded ∷ items)

  module _ (decode : Decoder) {W : Type 0} (receiver : Receiver W) where
    abbrev pub settle : Outcome Text → Seen → W → Stopped W
    settle outcome seen w = record {
      outcome = if receiver.closed w then err client_closed else outcome;
      seen = seen;
      world = w;
    }

    abbrev pub finish : Flow W → Stopped W
    finish flow = settle (required (close_sse flow.parser) invalid_response) flow.seen flow.world

    -- `err` is the end of the connection, when the transport was closed before an item.
    unfoldable pub deliver_items : List StreamItem → Flow W → Result (Stopped W) (Flow W)
    deliver_items [] flow = ok flow
    deliver_items (item ∷ items) flow =
        let rest = deliver_items items (record flow {
          seen = seen_after item flow.seen;
          world = receiver.deliver item flow.world;
        }) in
        if receiver.closed flow.world
        then err (settle (err client_closed) flow.seen flow.world)
        else rest

    abbrev pub stop_if : {A : Type 0} → Flow W → Outcome A → Result (Stopped W) A
    stop_if flow (err failure) = err (settle (err failure) flow.seen flow.world)
    stop_if flow (ok a) = ok a

    unfoldable pub take_chunk : Bytes → Flow W → Result (Stopped W) (Flow W)
    take_chunk bytes flow = stop_if flow (feed_sse decode flow.parser bytes) >>= λ fed.
        stop_if flow (items_of fed.1) >>= λ items.
        deliver_items items (record flow { parser = fed.0 })

    -- The signals run out when the idle bound passes.
    unfoldable pub stream_signals : List Signal → Flow W → Stopped W
    stream_signals [] flow = finish flow
    stream_signals (ended ∷ signals) flow = finish flow
    stream_signals (dropped ∷ signals) flow =
        settle (err transport_unavailable) flow.seen flow.world
    stream_signals (chunk bytes ∷ signals) flow = elim (take_chunk bytes flow) [
      | err stopped ↦ stopped
      | ok next ↦ stream_signals signals next
    ]
