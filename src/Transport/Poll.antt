-- ===== src/Transport/Poll.antt =====
-- The polling of ext-pi/src/manager/transport.ts: `pollEvents` and `#pollUntil`.
use agent_cat.Base.{
  ℕ, zero, suc, Bool, not, ◌||◌, List, [], ◌∷◌, Option, none, some, Text, leb, ◌==◌, if◌then◌else◌,
  Result, ok, err, ◌>>=◌, refuse,
}
use agent_cat.Events.Failure.{invalid_response, Outcome}
use agent_cat.Events.Records.{InvalidationEvent, EventBatch, decode_event_batch}
use agent_cat.Events.Syntax.{valid_cursor}
use agent_cat.Transport.Response.{ClientResponse}
use agent_cat.Transport.Stream.{invalidation}
use agent_cat.Transport.Follower.{
  poll, FollowState, polling, unreachable, FollowEnd, closed, Follower, follow_end, is_poll,
}

-- When a fallback to polling is over.
pub data Until : Type 0 where
  prefers_stream : Until
  due : ℕ → Until

module _ {W : Type 0} (f : Follower W) where
  abbrev done : Until → W → Bool
  done prefers_stream w = not (is_poll (f.prefer w))
  done (due time) w = leb time (f.now w) || is_poll (f.prefer w)

  -- `#fence` and the check of the status, after `pollEvents` checked the cursor.
  abbrev batch_of : Outcome ClientResponse → Outcome EventBatch
  batch_of answer = answer >>= λ response.
      refuse (not (response.status == 200)) invalid_response >>= λ done.
      decode_event_batch response.value

  unfoldable pub poll_events : Text → W → Outcome EventBatch × W
  poll_events cursor w =
      if valid_cursor cursor
      then (batch_of (f.get_events cursor w).0, (f.get_events cursor w).1)
      else (err invalid_response, w)

  -- The events of a batch, as long as the transport is open.
  unfoldable pub deliver_batch : List InvalidationEvent → W → Result W W
  deliver_batch [] w = ok w
  deliver_batch (event ∷ events) w =
      let rest = deliver_batch events (f.deliver (invalidation event) poll w) in
      if f.closed w then err w else rest

  abbrev reported : Outcome EventBatch → FollowState
  reported (err failure) = unreachable
  reported (ok batch) = polling

  -- What a batch leads to: the end, the next batch at once, or the next one after the interval.
  pub data Polled : Type 0 where
    stopped : FollowEnd → W → Polled
    more waiting : Text → W → Polled

  abbrev pub after_batch : Text → Outcome EventBatch → W → Polled
  after_batch cursor (err failure) w = elim (follow_end failure cursor) [
    | some end ↦ stopped end w
    | none ↦ waiting cursor w
  ]
  after_batch cursor (ok batch) w = elim (deliver_batch batch.events w) [
    | err w' ↦ stopped closed w'
    | ok w' ↦ if batch.has_more then more batch.cursor w' else waiting batch.cursor w'
  ]

  unfoldable pub poll_once : Text → W → Polled
  poll_once cursor w =
      let (batch, w') = poll_events cursor (f.connected poll cursor w) in
      if f.closed w'
      then stopped closed w'
      else after_batch cursor batch (f.state (reported batch) w')

  -- The loop of `#pollUntil`: none while it goes on after the fuel. `err` is the end of the follow loop.
  unfoldable pub poll_until : ℕ → Text → Until → W → Option (Result FollowEnd Text × W)
  poll_until zero cursor until w = none
  poll_until (suc fuel) cursor until w = elim (poll_once cursor w) [
    | stopped end w' ↦ some (err end, w')
    | more next w' ↦ poll_until fuel next until w'
    | waiting next w' ↦
        let slept = f.sleep_interval w' in
        let rest = poll_until fuel next until slept in
        if f.closed slept
        then some (err closed, slept)
        else if done until slept
        then some (ok next, slept)
        else rest
  ]
