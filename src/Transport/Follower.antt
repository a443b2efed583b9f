-- ===== src/Transport/Follower.antt =====
-- The caller of the follow loop of ext-pi/src/manager/transport.ts, its network, and `followEnd`.
use agent_cat.Base.{ℕ, Bool, true, false, List, Option, none, some, Text, ◌==◌, if◌then◌else◌}
use agent_cat.Events.Failure.{ClientFailure, credential_unavailable, credential_changed, Outcome}
use agent_cat.Transport.Response.{ClientResponse}
use agent_cat.Transport.Stream.{StreamItem, Signal}

pub data Delivery : Type 0 where
  stream poll : Delivery

pub data DeliveryPreference : Type 0 where
  sse poll : DeliveryPreference

pub data FollowState : Type 0 where
  live polling unreachable : FollowState

pub data FollowEnd : Type 0 where
  closed : FollowEnd
  resnapshot refused : (cursor : Text) → ClientFailure → FollowEnd

-- The caller and the network of a follow loop. `open_stream` and `get_events` send the cursor in
-- Last-Event-ID. `wait` is the jittered delay, and `sleep` and `sleep_interval` return early when the
-- transport closes.
pub record Follower (W : Type 0) : Type 0 where
  pub deliver : StreamItem → Delivery → W → W
  pub closed : W → Bool
  pub prefer : W → DeliveryPreference
  pub connected : Delivery → Text → W → W
  pub state : FollowState → W → W
  pub open_stream : Text → W → Outcome (List Signal) × W
  pub get_events : Text → W → Outcome ClientResponse × W
  pub wait : ℕ → W → ℕ
  pub now : W → ℕ
  pub sleep : ℕ → W → W
  pub sleep_interval : W → W

unfoldable pub follow_end : ClientFailure → Text → Option FollowEnd
follow_end ClientFailure.client_closed cursor = some closed
follow_end (ClientFailure.refused status code) cursor =
    if status == 410
    then some (resnapshot cursor (ClientFailure.refused status code))
    else if status == 401
    then some (FollowEnd.refused cursor (ClientFailure.refused status code))
    else none
follow_end ClientFailure.credential_unavailable cursor =
    some (FollowEnd.refused cursor credential_unavailable)
follow_end ClientFailure.credential_changed cursor =
    some (FollowEnd.refused cursor credential_changed)
follow_end failure cursor = none

abbrev pub is_poll : DeliveryPreference → Bool
is_poll poll = true
is_poll sse = false
