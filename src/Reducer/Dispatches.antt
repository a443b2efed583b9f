-- ===== src/Reducer/Dispatches.antt =====
-- The dispatch window and the redirects of `apply` in ext-pi/src/reducer.ts.
use agent_cat.Base.{
  Bool, true, false, not, ◌&&◌, ◌||◌, List, [], ◌∷◌, Option, none, some, Text, includes, distinct,
  length, ltb, if◌then◌else◌, ok, err, ◌>>=◌, ◌>>◌, refuse,
}
use agent_cat.Base.Dict.{Dict}
use agent_cat.Base.Value.{Members, field}
use agent_cat.Reducer.State.{Platform, Attempt, Dispatch, Occurrence}
use agent_cat.Reducer.State.{cannot_dispatch, bad_targets, too_many_targets, redirect_not_reserved}
use agent_cat.Reducer.Fields.{Checked, text, runtime_control_id}
use agent_cat.Reducer.Progress.{is_absent, array}
use agent_cat.Reducer.Attempts.{is_running, is_state_running}
use agent_cat.Reducer.Lists.{is_none_left, max_options, texts_of}

-- "occurrence.dispatch-pending".
unfoldable pub open_dispatch : Members → Occurrence → Checked Occurrence
open_dispatch e occurrence = do
  refuse (not (is_state_running occurrence.state) || not (is_absent occurrence.dispatch))
      cannot_dispatch
  listed ← array (field "targets" e) bad_targets
  targets ← texts_of listed bad_targets
  refuse (is_none_left targets || not (distinct targets)) bad_targets
  refuse (ltb max_options (length targets)) too_many_targets
  let dispatch : Dispatch = record { targets = targets; is_open = true; redirect = none }
  ok (record occurrence { dispatch = some dispatch })

-- `[...attempts.values()].find((attempt) => attempt.state === "running")`.
unfoldable pub find_running : Dict Attempt → Option Attempt
find_running [] = none
find_running ((k, a) ∷ m) = if is_running a.state then some a else find_running m

-- `occurrence.dispatch?.open && occurrence.dispatch.targets.includes(target)`.
abbrev is_reserved : Option Dispatch → Text → Bool
is_reserved none target = false
is_reserved (some d) target = d.is_open && includes d.targets target

-- `!occurrence.dispatch || occurrence.dispatch.targets.includes(target)`.
abbrev is_allowed : Option Dispatch → Text → Bool
is_allowed none target = true
is_allowed (some d) target = includes d.targets target

abbrev targets_or : Option Dispatch → List Text → List Text
targets_or none ts = ts
targets_or (some d) ts = d.targets

-- The live re-route of the attempt that runs.
reroute : Text → Text → Occurrence → Option Attempt → Checked Occurrence
reroute target control_id occurrence none = err redirect_not_reserved
reroute target control_id occurrence (some attempt) =
    if is_allowed occurrence.dispatch target
    then ok (record occurrence {
      dispatch = some (record {
        targets = targets_or occurrence.dispatch (target ∷ []);
        is_open = false;
        redirect = some (record {
          control_id = control_id;
          target = target;
          stopped_attempt = some attempt.id;
        });
      });
    })
    else err redirect_not_reserved

-- "occurrence.redirected".
unfoldable pub redirect : Platform → Members → Occurrence → Checked Occurrence
unfolding reroute
redirect p e occurrence = do
  target ← text (field "target" e)
  control_id ← runtime_control_id p e
  if is_reserved occurrence.dispatch target
      then ok (record occurrence {
        dispatch = some (record {
          targets = targets_or occurrence.dispatch [];
          is_open = false;
          redirect =
              some (record { control_id = control_id; target = target; stopped_attempt = none });
        });
      })
      else reroute target control_id occurrence (find_running occurrence.attempts)
