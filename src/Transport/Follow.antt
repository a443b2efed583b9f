-- ===== src/Transport/Follow.antt =====
-- The follow loop of ext-pi/src/manager/transport.ts: `followEvents`.
use agent_cat.Base.{
  ℕ, zero, suc, ◌+◌, Bool, true, false, ◌||◌, List, Option, none, some, Text, leb, if◌then◌else◌,
  Result, ok, err,
}
use agent_cat.Events.Failure.{ClientFailure, invalid_response, Outcome}
use agent_cat.Events.Blocks.{Decoder}
use agent_cat.Events.Parser.{new_sse_parser}
use agent_cat.Events.Syntax.{valid_cursor}
use agent_cat.Json.Value.{JsonValue}
use agent_cat.Refresh.Backoff.{initial_backoff, reconnect_delay}
use agent_cat.Transport.Stream.{Signal, Seen, Receiver, Stopped, stream_signals}
use agent_cat.Transport.Follower.{
  stream, live, unreachable, FollowEnd, closed, Follower, follow_end, is_poll,
}
use agent_cat.Transport.Poll.{prefers_stream, due, poll_until}

abbrev pub stream_failure_limit : ℕ
stream_failure_limit = 2

-- The variables of the loop.
pub record Position : Type 0 where
  pub cursor : Text
  pub backoff : ℕ
  pub failures : ℕ

-- `continue`, or the end of the loop.
pub data Turn : Type 0 where
  onward : Position → Turn
  over : FollowEnd → Turn

abbrev is_refused : ClientFailure → Bool
is_refused (ClientFailure.refused status code) = true
is_refused failure = false

-- The end that the outcome of a stream gives, or none.
abbrev pub ended_by : Text → Outcome Text → Option FollowEnd
ended_by cursor (ok last) = none
ended_by cursor (err failure) = follow_end failure cursor

abbrev pub is_refusal : Outcome Text → Bool
is_refusal (ok last) = false
is_refusal (err failure) = is_refused failure

-- Polling gives the cursor that it reached, or the end of the loop.
abbrev pub polled_turn :
    {W : Type 0} → Position → Option (Result FollowEnd Text × W) → Option (Turn × W)
polled_turn position none = none
polled_turn position (some (err end, w)) = some (over end, w)
polled_turn position (some (ok cursor, w)) = some (onward (record position { cursor = cursor }), w)

module _ {W : Type 0} (f : Follower W) where
  abbrev receiver : Receiver W
  receiver = record { deliver = λ item w. f.deliver item stream w; closed = f.closed }

  module _ (decode : Decoder) (try_parse_json : Text → Option JsonValue) where
    abbrev pub nothing_seen : Text → Seen
    nothing_seen cursor = record { delivered = false; latest = cursor }

    -- One stream connection, and whether it opened.
    abbrev pub opened_stream : Text → Outcome (List Signal) → W → Bool × Stopped W
    opened_stream cursor (err failure) w =
        (false, record { outcome = err failure; seen = nothing_seen cursor; world = w })
    opened_stream cursor (ok signals) w = (
      true,
      stream_signals try_parse_json decode receiver signals (record {
        parser = new_sse_parser (some cursor);
        seen = nothing_seen cursor;
        world = f.state live w;
      }),
    )

    unfoldable pub connect_stream : Text → W → Bool × Stopped W
    connect_stream cursor w =
        let w₁ = f.connected stream cursor w in
        if valid_cursor cursor
        then opened_stream cursor (f.open_stream cursor w₁).0 (f.open_stream cursor w₁).1
        else opened_stream cursor (err invalid_response) w₁

    abbrev pub cursor_after : Stopped W → Text
    cursor_after s = elim s.outcome [ ok cursor ↦ cursor | err failure ↦ s.seen.latest ]

    -- The failures in a row, and the backoff and the position for the next connection.
    abbrev pub failures_after : Position → Seen → ℕ
    failures_after position seen = (if seen.delivered then 0 else position.failures) + 1

    abbrev pub delay_after : Position → Seen → ℕ × ℕ
    delay_after position seen =
        reconnect_delay (if seen.delivered then initial_backoff else position.backoff)

    abbrev pub position_after : Position → Stopped W → Position
    position_after position s = record {
      cursor = cursor_after s;
      backoff = (delay_after position s.seen).1;
      failures = failures_after position s.seen;
    }

    abbrev pub world_after : Bool → Stopped W → W
    world_after opened s = if opened then s.world else f.state unreachable s.world

    -- The sleep before the next connection.
    abbrev pub sleep_turn : Position → W → Turn × W
    sleep_turn next w = if f.closed w then (over closed, w) else (onward next, w)

    -- How the loop goes on after a stream: by a sleep, or by polling until the backoff has passed.
    unfoldable pub after_stream : ℕ → Position → Bool × Stopped W → Option (Turn × W)
    after_stream fuel position (opened, s) =
        let w = world_after opened s in
        let next = position_after position s in
        let time = f.wait (delay_after position s.seen).0 w in
        let slept = sleep_turn next (f.sleep time w) in
        let fell_back = polled_turn next (poll_until f fuel next.cursor (due (f.now w + time)) w) in
        elim (ended_by next.cursor s.outcome) [
          | some end ↦ some (over end, s.world)
          | none ↦
              if is_refusal s.outcome || leb stream_failure_limit next.failures
              then fell_back
              else some slept
        ]

    -- One round of the loop of `followEvents`.
    unfoldable pub follow_round : ℕ → Position → W → Option (Turn × W)
    follow_round fuel position w =
        if is_poll (f.prefer w)
        then polled_turn
            (record { cursor = position.cursor; backoff = initial_backoff; failures = 0 })
            (poll_until f fuel position.cursor prefers_stream w)
        else after_stream fuel position (connect_stream position.cursor w)

    -- The loop of `followEvents`: none while it goes on after the fuel.
    unfoldable pub follow : ℕ → Position → W → Option (FollowEnd × W)
    follow zero position w = none
    follow (suc fuel) position w = elim (follow_round fuel position w) [
      | none ↦ none
      | some (over end, w') ↦ some (end, w')
      | some (onward next, w') ↦ follow fuel next w'
    ]
