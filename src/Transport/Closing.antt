-- ===== src/Transport/Closing.antt =====
-- The end of the follow loop of ext-pi/src/manager/transport.ts when the transport is closed.
use agent_cat.Base.{
  ℕ, suc, ◌+◌, ◌≡◌, refl, inl, inr, true, Option, some, Text, leb, Bool-cases, Result, err,
}
use agent_cat.Events.Failure.{client_closed, invalid_response}
use agent_cat.Events.Blocks.{Decoder}
use agent_cat.Events.Syntax.{valid_cursor}
use agent_cat.Json.Value.{JsonValue}
use agent_cat.Refresh.Backoff.{initial_backoff}
use agent_cat.Transport.Follower.{
  Delivery, stream, poll, FollowState, unreachable, FollowEnd, closed, Follower, follow_end,
  is_poll,
}
use agent_cat.Transport.Poll.{Until, prefers_stream, stopped, poll_events, poll_once, poll_until}
use agent_cat.Transport.Follow.{
  Position, Turn, over, opened_stream, position_after, sleep_turn, polled_turn, connect_stream,
  after_stream, follow_round, follow,
}

-- What a closed transport does: it stays closed, and it opens no stream.
pub record IsClosing {W : Type 0} (f : Follower W) : Type 0 where
  pub connected :
      (via : Delivery) (cursor : Text) (w : W)
      → f.closed w ≡ true
      → f.closed (f.connected via cursor w) ≡ true
  pub state : (s : FollowState) (w : W) → f.closed w ≡ true → f.closed (f.state s w) ≡ true
  pub refuses :
      (cursor : Text) (w : W) → f.closed w ≡ true → (f.open_stream cursor w).0 ≡ err client_closed
  pub opening :
      (cursor : Text) (w : W) → f.closed w ≡ true → f.closed (f.open_stream cursor w).1 ≡ true
  pub reading :
      (cursor : Text) (w : W) → f.closed w ≡ true → f.closed (f.get_events cursor w).1 ≡ true
  pub sleeping : (time : ℕ) (w : W) → f.closed w ≡ true → f.closed (f.sleep time w) ≡ true

module _ {W : Type 0} (f : Follower W) (closing : IsClosing f) where
  polled_world-closed :
      (cursor : Text) (w : W) → f.closed w ≡ true → f.closed (poll_events f cursor w).1 ≡ true
  unfolding poll_events
  polled_world-closed cursor w h = elim (Bool-cases (valid_cursor cursor)) [
    | inl e ↦ rw (e, poll_events) (closing.reading cursor w h)
    | inr e ↦ rw (e, poll_events) h
  ]

  poll_once-stopped :
      (cursor : Text) (w : W)
      → f.closed w ≡ true
      → (end : W) × (poll_once f cursor w ≡ stopped closed end)
  unfolding poll_once
  poll_once-stopped cursor w h = (
    (poll_events f cursor (f.connected poll cursor w)).1,
    rw (polled_world-closed cursor (f.connected poll cursor w) (closing.connected poll cursor w h))
        refl,
  )

  poll_until-closed :
      (fuel : ℕ) (cursor : Text) (until : Until) (w : W)
      → f.closed w ≡ true
      → (end : W) × (poll_until f (suc fuel) cursor until w ≡ some (err closed, end))
  unfolding poll_until
  poll_until-closed fuel cursor until w h =
      let (end, same) = poll_once-stopped cursor w h in (end, rw (same, poll_until) refl)

  module _ (decode : Decoder) (try_parse_json : Text → Option JsonValue) where
    abbrev EndsClosed : Option (Turn × W) → Type 0
    EndsClosed result = (end : W) × (result ≡ some (over closed, end))

    polled_turn-closed :
        (position : Position) (result : Option (Result FollowEnd Text × W))
        → (end : W) × (result ≡ some (err closed, end))
        → EndsClosed (polled_turn position result)
    polled_turn-closed position result (end, same) = (end, rw same refl)

    sleep_turn-closed :
        (next : Position) (time : ℕ) (w : W)
        → f.closed w ≡ true
        → EndsClosed (some (sleep_turn f decode try_parse_json next (f.sleep time w)))
    sleep_turn-closed next time w h = (f.sleep time w, rw (closing.sleeping time w h) refl)

    -- A connection that was refused with the transport closed.
    refused_stream-closed :
        (fuel : ℕ) (position : Position) (w : W)
        → f.closed w ≡ true
        → EndsClosed (
            after_stream f decode try_parse_json
              (suc fuel)
              position
              (opened_stream f decode try_parse_json position.cursor (err client_closed) w))
    unfolding after_stream follow_end
    refused_stream-closed fuel position w h = (w, refl)

    -- A cursor that is none sends no request, and the closed transport ends the wait for the next one.
    invalid_stream-closed :
        (fuel : ℕ) (position : Position) (w : W)
        → f.closed w ≡ true
        → EndsClosed (
            after_stream f decode try_parse_json
              (suc fuel)
              position
              (opened_stream f decode try_parse_json position.cursor (err invalid_response) w))
    unfolding after_stream follow_end
    invalid_stream-closed fuel position w h = elim (Bool-cases (leb 2 (position.failures + 1))) [
      | inl e ↦
          rw (e, after_stream)
            (polled_turn-closed
              (position_after f decode try_parse_json position
                (opened_stream f decode try_parse_json position.cursor (err invalid_response) w).1)
              _
              (poll_until-closed fuel position.cursor _ (f.state unreachable w)
                (closing.state unreachable w h)))
      | inr e ↦
          rw (e, after_stream)
            (sleep_turn-closed _ _ (f.state unreachable w) (closing.state unreachable w h))
    ]

    follow_round-closed :
        (fuel : ℕ) (position : Position) (w : W)
        → f.closed w ≡ true
        → EndsClosed (follow_round f decode try_parse_json (suc fuel) position w)
    unfolding follow_round connect_stream
    follow_round-closed fuel position w h =
        let w₁ = f.connected stream position.cursor w in
        let h₁ = closing.connected stream position.cursor w h in
        elim (Bool-cases (is_poll (f.prefer w))) [
          | inl e ↦
              rw (e, follow_round)
                (polled_turn-closed
                  (record { cursor = position.cursor; backoff = initial_backoff; failures = 0 }) _
                  (poll_until-closed fuel position.cursor prefers_stream w h))
          | inr e ↦
              rw (e, follow_round)
                (elim (Bool-cases (valid_cursor position.cursor)) [
                  | inl e' ↦
                      rw (e', connect_stream, closing.refuses position.cursor w₁ h₁)
                        (refused_stream-closed fuel position (f.open_stream position.cursor w₁).1
                          (closing.opening position.cursor w₁ h₁))
                  | inr e' ↦ rw (e', connect_stream) (invalid_stream-closed fuel position w₁ h₁)
                ])
        ]

    -- A closed transport ends the follow loop within a round, whatever the loop prefers and wherever it
    -- stands, and it ends it as closed.
    pub follow-closed :
        (fuel : ℕ) (position : Position) (w : W)
        → f.closed w ≡ true
        → (end : W) × (follow f decode try_parse_json (suc (suc fuel)) position w
            ≡ some (closed, end))
    unfolding follow
    follow-closed fuel position w h =
        let (end, same) = follow_round-closed fuel position w h in (end, rw (same, follow) refl)
