-- ===== src/Transport/Resume.antt =====
-- What one connection to the event stream of ext-pi/src/manager/transport.ts delivers.
use agent_cat.Base.{
  ◌≡◌, refl, sym, ap, subst, ◌∙◌, inl, inr, Bool, true, false, List, [], ◌∷◌, ◌++◌, append_assoc,
  Option, some, Text, if◌then◌else◌, Bool-cases, Result-cases, Result, ok, err, required, >>=-eq-ok,
  required-eq-ok, subst-ok,
}
use agent_cat.Events.Failure.{client_closed, invalid_response, Outcome}
use agent_cat.Events.Blocks.{Bytes, Decoder, SseBlock, dispatch, advance, heartbeat}
use agent_cat.Events.Parser.{SseParser, feed_sse, feed_all, close_sse}
use agent_cat.Events.Resume.{last_id_of, feed_all-Resumes}
use agent_cat.Events.Records.{decode_event_block}
use agent_cat.Json.Value.{JsonValue}
use agent_cat.Transport.Stream.{
  StreamItem, Signal, chunk, ended, dropped, Seen, Receiver, seen_after, Flow, Stopped, items_of,
  settle, deliver_items, take_chunk, stream_signals,
}

-- The items that are delivered, one after the other, and what is seen of them.
abbrev pub seen_all : List StreamItem → Seen → Seen
seen_all [] seen = seen
seen_all (item ∷ items) seen = seen_all items (seen_after item seen)

seen_all-append :
    (a b : List StreamItem) (seen : Seen) → seen_all (a ++ b) seen ≡ seen_all b (seen_all a seen)
seen_all-append [] b seen = refl
seen_all-append (item ∷ a) b seen = seen_all-append a b (seen_after item seen)

-- The body of a response, as far as the signals show it: the chunks before its end or its loss.
abbrev pub body_of : List Signal → List Bytes
body_of [] = []
body_of (ended ∷ signals) = []
body_of (dropped ∷ signals) = []
body_of (chunk bytes ∷ signals) = bytes ∷ body_of signals

module _ (try_parse_json : Text → Option JsonValue) where
  items_of-append :
      (a b : List SseBlock) (xs ys : List StreamItem)
      → items_of try_parse_json a ≡ ok xs
      → items_of try_parse_json b ≡ ok ys
      → items_of try_parse_json (a ++ b) ≡ ok (xs ++ ys)
  unfolding items_of
  items_of-append [] b xs ys h k = subst-ok (λ zs. items_of try_parse_json b ≡ ok (zs ++ ys)) h k
  items_of-append (heartbeat ∷ a) b xs ys h k =
      let (items, e, h₁) = >>=-eq-ok (items_of try_parse_json a) _ h in
      subst-ok (λ zs. items_of try_parse_json (heartbeat ∷ a ++ b) ≡ ok (zs ++ ys)) h₁
        (rw (items_of-append a b items ys e k) refl)
  items_of-append (advance id ∷ a) b xs ys h k = items_of-append a b xs ys h k
  items_of-append (dispatch event ∷ a) b xs ys h k =
      let (decoded, e₀, h₀) = >>=-eq-ok (decode_event_block try_parse_json event) _ h in
      let (items, e, h₁) = >>=-eq-ok (items_of try_parse_json a) _ h₀ in
      subst-ok (λ zs. items_of try_parse_json (dispatch event ∷ a ++ b) ≡ ok (zs ++ ys)) h₁
        (rw (e₀, items_of-append a b items ys e k) refl)

  module _ (decode : Decoder) {W : Type 0} (receiver : Receiver W) where
    abbrev pub deliver_all : List StreamItem → W → W
    deliver_all [] w = w
    deliver_all (item ∷ items) w = deliver_all items (receiver.deliver item w)

    deliver_all-append :
        (a b : List StreamItem) (w : W) → deliver_all (a ++ b) w ≡ deliver_all b (deliver_all a w)
    deliver_all-append [] b w = refl
    deliver_all-append (item ∷ a) b w = deliver_all-append a b (receiver.deliver item w)

    -- What a connection does with the body of the response, from a state of it to its end: the first
    -- chunks are read whole, and of the items of their blocks the first ones are delivered. If the
    -- connection gives a cursor, then no chunk and no item is left.
    pub record Streams (body : List Bytes) (flow : Flow W) (stopped : Stopped W) : Type 0 where
      pub chunks : List Bytes
      pub unread : List Bytes
      pub whole : body ≡ chunks ++ unread
      pub parser : SseParser
      pub blocks : List SseBlock
      pub items : List StreamItem
      pub undelivered : List StreamItem
      pub fed : feed_all decode flow.parser chunks ≡ ok (parser, blocks)
      pub read : items_of try_parse_json blocks ≡ ok (items ++ undelivered)
      pub world : stopped.world ≡ deliver_all items flow.world
      pub seen : stopped.seen ≡ seen_all items flow.seen
      pub complete :
          (cursor : Text)
          → stopped.outcome ≡ ok cursor
          → (unread ≡ []) × (undelivered ≡ []) × (close_sse parser ≡ some cursor)

    unfenced :
        (is_closed : Bool) (outcome : Outcome Text) (cursor : Text)
        → (if is_closed then err client_closed else outcome) ≡ ok cursor
        → outcome ≡ ok cursor
    unfenced true outcome cursor h = cc
    unfenced false outcome cursor h = h

    nothing_read :
        (body : List Bytes) (flow : Flow W) (outcome : Outcome Text)
        → ((cursor : Text)
            → outcome ≡ ok cursor
            → (body ≡ []) × (close_sse flow.parser ≡ some cursor))
        → Streams body flow (settle try_parse_json decode receiver outcome flow.seen flow.world)
    unfolding feed_all items_of
    nothing_read body flow outcome closing = record {
      chunks = [];
      unread = body;
      whole = refl;
      parser = flow.parser;
      blocks = [];
      items = [];
      undelivered = [];
      fed = refl;
      read = refl;
      world = refl;
      seen = refl;
      complete = λ cursor h.
          let (empty, last) =
            closing cursor (unfenced (receiver.closed flow.world) outcome cursor h) in
          (empty, refl, last);
    }

    -- What a delivery does: all items, or the first of them before the transport was closed.
    record Cut (items : List StreamItem) (flow : Flow W) (stopped : Stopped W) : Type 0 where
      given : List StreamItem
      left : List StreamItem
      split : items ≡ given ++ left
      world : stopped.world ≡ deliver_all given flow.world
      seen : stopped.seen ≡ seen_all given flow.seen
      outcome : stopped.outcome ≡ err client_closed

    abbrev DeliversTo : List StreamItem → Flow W → Result (Stopped W) (Flow W) → Type 0
    DeliversTo items flow (err stopped) = Cut items flow stopped
    DeliversTo items flow (ok next) =
        (next.parser ≡ flow.parser)
        × (next.seen ≡ seen_all items flow.seen)
        × (next.world ≡ deliver_all items flow.world)

    cut_later :
        (item : StreamItem) (items : List StreamItem) (flow : Flow W)
        (result : Result (Stopped W) (Flow W))
        → DeliversTo items
            (record flow {
              seen = seen_after item flow.seen;
              world = receiver.deliver item flow.world;
            })
            result
        → DeliversTo (item ∷ items) flow result
    cut_later item items flow (err stopped) cut = record {
      given = item ∷ cut.given;
      left = cut.left;
      split = ap (λ xs. item ∷ xs) cut.split;
      world = cut.world;
      seen = cut.seen;
      outcome = cut.outcome;
    }
    cut_later item items flow (ok next) all_given = all_given

    deliver_items-DeliversTo :
        (items : List StreamItem) (flow : Flow W)
        → DeliversTo items flow (deliver_items try_parse_json decode receiver items flow)
    unfolding deliver_items
    deliver_items-DeliversTo [] flow = (refl, refl, refl)
    deliver_items-DeliversTo (item ∷ items) flow = elim (Bool-cases (receiver.closed flow.world)) [
      | inl e ↦
          rw (e, deliver_items)
            (record {
              given = [];
              left = item ∷ items;
              split = refl;
              world = refl;
              seen = refl;
              outcome = refl;
            })
      | inr e ↦
          rw (e, deliver_items) (cut_later item items flow _ (deliver_items-DeliversTo items _))
    ]

    abbrev TakesTo : Bytes → List Bytes → Flow W → Result (Stopped W) (Flow W) → Type 0
    TakesTo bytes rest flow (err stopped) = Streams (bytes ∷ rest) flow stopped
    TakesTo bytes rest flow (ok next) =
        (stopped : Stopped W) → Streams rest next stopped → Streams (bytes ∷ rest) flow stopped

    module _ (flow : Flow W) (bytes : Bytes) (parser : SseParser) (blocks : List SseBlock)
        (items : List StreamItem) (fed : feed_sse decode flow.parser bytes ≡ ok (parser, blocks))
        (read : items_of try_parse_json blocks ≡ ok items) where
      feed_then :
          (chunks : List Bytes) (last : SseParser) (later : List SseBlock)
          → feed_all decode parser chunks ≡ ok (last, later)
          → feed_all decode flow.parser (bytes ∷ chunks) ≡ ok (last, blocks ++ later)
      unfolding feed_all
      feed_then chunks last later h = rw (fed, h) refl

      delivered-TakesTo :
          (rest : List Bytes) (result : Result (Stopped W) (Flow W))
          → DeliversTo items (record flow { parser = parser }) result
          → TakesTo bytes rest flow result
      unfolding feed_all items_of
      delivered-TakesTo rest (err stopped) cut = record {
        chunks = bytes ∷ [];
        unread = rest;
        whole = refl;
        parser = parser;
        blocks = blocks ++ [];
        items = cut.given;
        undelivered = cut.left ++ [];
        fed = feed_then [] parser [] refl;
        read =
            items_of-append blocks [] items [] read refl
            ∙ ap (λ xs. ok (xs ++ [])) cut.split
            ∙ ap ok (append_assoc cut.given cut.left []);
        world = cut.world;
        seen = cut.seen;
        complete = λ cursor h. cc (h, cut.outcome);
      }
      delivered-TakesTo left (ok next) (same, seen, world) = λ stopped rest. record {
        chunks = bytes ∷ rest.chunks;
        unread = rest.unread;
        whole = ap (λ chunks. bytes ∷ chunks) rest.whole;
        parser = rest.parser;
        blocks = blocks ++ rest.blocks;
        items = items ++ rest.items;
        undelivered = rest.undelivered;
        fed = feed_then rest.chunks rest.parser rest.blocks (
            subst (λ s. feed_all decode s rest.chunks ≡ ok (rest.parser, rest.blocks)) same
              rest.fed);
        read =
            items_of-append blocks rest.blocks items _ read rest.read
            ∙ ap ok (sym (append_assoc items rest.items rest.undelivered));
        world =
            rest.world
            ∙ ap (deliver_all rest.items) world
            ∙ sym (deliver_all-append items rest.items flow.world);
        seen =
            rest.seen
            ∙ ap (seen_all rest.items) seen
            ∙ sym (seen_all-append items rest.items flow.seen);
        complete = rest.complete;
      }

    take_chunk-TakesTo :
        (bytes : Bytes) (rest : List Bytes) (flow : Flow W)
        → TakesTo bytes rest flow (take_chunk try_parse_json decode receiver bytes flow)
    unfolding take_chunk
    take_chunk-TakesTo bytes rest flow = elim (Result-cases (feed_sse decode flow.parser bytes)) [
      | inl (failure, e) ↦
          rw (e, take_chunk) (nothing_read (bytes ∷ rest) flow (err failure) (λ cursor h. cc h))
      | inr (fed, e) ↦
          rw (e, take_chunk)
            (elim (Result-cases (items_of try_parse_json fed.1)) [
              | inl (failure, e') ↦
                  rw e' (nothing_read (bytes ∷ rest) flow (err failure) (λ cursor h. cc h))
              | inr (items, e') ↦ rw e' (
                  delivered-TakesTo flow bytes fed.0 fed.1 items e e' rest _
                    (deliver_items-DeliversTo items (record flow { parser = fed.0 })))
            ])
    ]

    required-closing :
        (o : Option Text) (cursor : Text)
        → required o invalid_response ≡ ok cursor
        → ◌≡◌ {A = List Bytes} [] [] × (o ≡ some cursor)
    required-closing o cursor h = (refl, required-eq-ok o invalid_response h)

    stream_signals-Streams :
        (signals : List Signal) (flow : Flow W)
        → Streams
            (body_of signals)
            flow
            (stream_signals try_parse_json decode receiver signals flow)
    unfolding stream_signals
    stream_signals-Streams [] flow =
        nothing_read [] flow _ (required-closing (close_sse flow.parser))
    stream_signals-Streams (ended ∷ signals) flow =
        nothing_read [] flow _ (required-closing (close_sse flow.parser))
    stream_signals-Streams (dropped ∷ signals) flow = nothing_read [] flow _ (λ cursor h. cc h)
    stream_signals-Streams (chunk bytes ∷ signals) flow =
        elim (Result-cases (take_chunk try_parse_json decode receiver bytes flow)) [
          | inl (stopped, e) ↦
              rw (e, stream_signals)
                (subst (TakesTo bytes (body_of signals) flow) e
                  (take_chunk-TakesTo bytes (body_of signals) flow))
          | inr (next, e) ↦
              rw (e, stream_signals)
                (subst (TakesTo bytes (body_of signals) flow) e
                  (take_chunk-TakesTo bytes (body_of signals) flow) _
                  (stream_signals-Streams signals next))
        ]

    -- A connection to the event stream, however its signals go, reads the first chunks of the response's
    -- body whole, and delivers the items of their blocks in order, each once and none that comes after
    -- one that is not delivered. If it gives a cursor to resume from, then every chunk before the end of
    -- the body was read and all items were delivered, and the cursor is the identifier of the last block
    -- that carries one, or the one that the connection started with.
    pub stream_signals-resumes :
        (signals : List Signal) (flow : Flow W)
        → (s : Streams
            (body_of signals)
            flow
            (stream_signals try_parse_json decode receiver signals flow))
          × ((cursor : Text)
              → (stream_signals try_parse_json decode receiver signals flow).outcome ≡ ok cursor
              → last_id_of flow.parser.last_id s.blocks ≡ some cursor)
    stream_signals-resumes signals flow =
        let s = stream_signals-Streams signals flow in
        (
          s,
          λ cursor h.
              sym (feed_all-Resumes decode flow.parser s.chunks s.fed) ∙ (s.complete cursor h).2,
        )
