-- ===== src/Session/Live.antt =====
-- The watched resources of a session of ext-pi/src/manager/session.ts: their invalidation, their reads
-- and what is installed of them, and the commit of an endpoint switch. The lane is the queue of fetches.
use agent_cat.Base.{
  ℕ, Bool, true, false, not, ◌&&◌, ◌||◌, List, [], ◌∷◌, ◌++◌, Option, none, some, Text, codes, is,
  includes, text_eq, any, keep, ◌==◌, if◌then◌else◌, ok, err,
}
use agent_cat.Base.Dict.{Dict, get, set}
use agent_cat.Base.Keys.{text_keys}
use agent_cat.Events.Failure.{ClientFailure, refused, wrong_endpoint, Outcome}
use agent_cat.Refresh.Coordinator.{
  Refresh, RefreshAction, fetch, install, discard, advance_generation, invalidate_resource,
  complete_fetch,
}
use agent_cat.Session.Capabilities.{Capabilities}
use agent_cat.Session.Commands.{Observed}
use agent_cat.Session.Resource.{is_member_resource, related}
use agent_cat.Session.Service.{Reference, check}

-- The refresh key of the overview.
abbrev pub overview_key : Text
overview_key = codes "/v1/snapshot"

unfoldable pub transient_read : ClientFailure → Bool
transient_read (refused status code) =
    (status == 429 && is code "storage-quota") || (status == 503 && is code "storage-unavailable")
transient_read failure = false

abbrev pub is_fetch : RefreshAction Text → Bool
is_fetch action = elim action.kind [ fetch ↦ true | install ↦ false | discard ↦ false ]

abbrev pub is_install : RefreshAction Text → Bool
is_install action = elim action.kind [ fetch ↦ false | install ↦ true | discard ↦ false ]

-- The binding that a switch commits.
pub record Binding : Type 0 where
  pub transport : ℕ
  pub endpoint : Text
  pub identity : Text
  pub capabilities : Capabilities

abbrev pub is_affected : Text → Text → Bool
is_affected event key =
    if is key "/v1/snapshot" then is_member_resource event else related key event

-- `Overview` is what is decoded of the overview.
module _ (Overview : Type 0) where
  -- A transport is told apart by its number.
  pub record Live : Type 0 where
    pub transport : ℕ
    pub endpoint : Text
    pub identity : Text
    pub capabilities : Capabilities
    pub refresh : Refresh Text
    pub watched : List Text
    pub installed : Dict (Outcome Observed)
    pub overview : Option (Outcome Overview)
    pub lane : List (RefreshAction Text)
    pub closed : Bool

  -- A read that completed: of the overview, or of another watched resource.
  pub data Answer : Type 0 where
    of_overview : Outcome Overview → Answer
    of_resource : Outcome Observed → Answer

module _ {Overview : Type 0} where
  -- `#perform`.
  abbrev pub perform : List (RefreshAction Text) → Live Overview → Live Overview
  perform actions s = record s { lane = s.lane ++ keep is_fetch actions }

  -- `#invalidate`.
  unfoldable pub invalidate : Text → Live Overview → Live Overview
  invalidate key s =
      let step = invalidate_resource key s.refresh in
      perform step.actions (record s { refresh = step.state })

  unfoldable pub invalidate_all : (Text → Bool) → List Text → Live Overview → Live Overview
  invalidate_all test [] s = s
  invalidate_all test (key ∷ keys) s =
      invalidate_all test keys (if test key then invalidate key s else s)

  -- `#invalidated`: the resource of an event.
  abbrev pub invalidated : Text → Live Overview → Live Overview
  invalidated event s = invalidate_all (is_affected event) s.watched s

  unfoldable pub watch : Reference → Live Overview → Outcome (Unit {0}) × Live Overview
  watch reference s = elim (check s.closed s.identity reference) [
    | err failure ↦ (err failure, s)
    | ok done ↦ (
      ok tt,
      if includes s.watched reference.uri
          then s
          else invalidate reference.uri (record s { watched = s.watched ++ reference.uri ∷ [] }),
    )
  ]

  unfoldable pub current : Reference → Live Overview → Option (Outcome Observed)
  current reference s =
      if text_eq reference.endpoint s.identity
      then get reference.uri s.installed
      else some (err wrong_endpoint)

  -- What a fetch of the lane reads, if it is of the current generation.
  unfoldable pub fetch_read : Text → ℕ → Live Overview → Option Reference
  fetch_read key generation s =
      if generation == s.refresh.generation
      then some (record { endpoint = s.identity; uri = key })
      else none

  abbrev pub installed_in : Text → Answer Overview → Live Overview → Live Overview
  installed_in key (of_overview outcome) s = record s { overview = some outcome }
  installed_in key (of_resource outcome) s = record s { installed = set key outcome s.installed }

  -- `#complete`.
  unfoldable pub complete : Text → ℕ → Answer Overview → Live Overview → Live Overview
  complete key generation answer s =
      let step = complete_fetch key generation s.refresh in
      let t = record s { refresh = step.state } in
      perform step.actions (if any is_install step.actions then installed_in key answer t else t)

  -- The timer that reads a resource again after a transient refusal of its read.
  unfoldable pub read_again : Text → ℕ → Live Overview → Live Overview
  read_again key generation s =
      if not s.closed && generation == s.refresh.generation && includes s.watched key
      then invalidate key s
      else s

  -- A 410 refusal of the follow loop, and its overview read: none when the generation has moved on.
  abbrev pub resnapshot : Live Overview → Live Overview
  resnapshot s = record s { refresh = advance_generation s.refresh }

  abbrev pub add_watched : Text → Live Overview → Live Overview
  add_watched key s =
      if includes s.watched key then s else record s { watched = s.watched ++ key ∷ [] }

  -- `#bootstrap`: the overview is watched before it is read.
  abbrev pub watch_overview : Live Overview → Live Overview
  watch_overview s = add_watched overview_key s

  unfoldable pub bootstrapped : ℕ → Outcome Overview → Live Overview → Live Overview
  bootstrapped generation outcome s =
      if generation == s.refresh.generation then record s { overview = some outcome } else s

  abbrev pub invalidate_watched : Live Overview → Live Overview
  invalidate_watched s = invalidate_all (λ key. not (is key "/v1/snapshot")) s.watched s

  -- The commit of `switchEndpoint`, after its reads: nothing changes when a read failed, the session was
  -- closed, or another switch came first.
  abbrev pub committed : Binding → Overview → Live Overview → Live Overview
  committed binding overview s = record {
    transport = binding.transport;
    endpoint = binding.endpoint;
    identity = binding.identity;
    capabilities = binding.capabilities;
    refresh = advance_generation s.refresh;
    watched = overview_key ∷ [];
    installed = [];
    overview = some (ok overview);
    lane = s.lane;
    closed = s.closed;
  }

  unfoldable pub commit_switch : ℕ → Binding → Outcome Overview → Live Overview → Live Overview
  commit_switch earlier binding (err failure) s = s
  commit_switch earlier binding (ok overview) s =
      if not s.closed && s.transport == earlier then committed binding overview s else s

  abbrev pub close : Live Overview → Live Overview
  close s = record s { closed = true }
