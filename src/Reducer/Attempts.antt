-- ===== src/Reducer/Attempts.antt =====
-- The attempt events of `apply` in ext-pi/src/reducer.ts. A case that changes an attempt is a
-- function on it; `on_attempt` finds the attempt and writes it back.
use agent_cat.Base.{
  ℕ, Bool, true, false, not, [], ◌∷◌, ◌++◌, Option, none, some, Text, is, leb, if◌then◌else◌, ok,
  ◌>>=◌, ◌>>◌, refuse, required,
}
use agent_cat.Base.Dict.{get, set}
use agent_cat.Base.Value.{Members, field}
use agent_cat.Reducer.State.{
  Platform, Timing, interrupt_now, next_boundary, Steer, AttemptState, Attempt, OccurrenceState,
  Dispatch, Occurrence,
}
use agent_cat.Reducer.State.{
  unknown_attempt, occurrence_not_running, duplicate_attempt, too_many_attempts,
  attempt_not_running, too_many_steers, unknown_timing,
}
use agent_cat.Reducer.Fields.{
  Checked, text, attempt_id, runtime_control_id, runtime_failure_class, tail,
}
use agent_cat.Reducer.Progress.{is_absent, apply_progress}

abbrev pub is_running : AttemptState → Bool
is_running AttemptState.running = true
is_running _ = false

abbrev pub require_attempt_running : Attempt → Checked (Unit {0})
require_attempt_running attempt = refuse (not (is_running attempt.state)) attempt_not_running

-- `attemptOf`, and the write of the attempt that the case then changes.
unfoldable pub on_attempt : Occurrence → Members → (Attempt → Checked Attempt) → Checked Occurrence
on_attempt occurrence e change = do
  id ← attempt_id e
  attempt ← required (get id occurrence.attempts) unknown_attempt
  changed ← change attempt
  ok (record occurrence { attempts = set id changed occurrence.attempts })

-- "attempt.output".
unfoldable pub append_output : Platform → Members → Attempt → Checked Attempt
append_output p e attempt = do
  require_attempt_running attempt
  chunk ← text (field "chunk" e)
  ok (record attempt { output = tail p (attempt.output ++ chunk) })

-- "attempt.progress".
unfoldable pub progress_attempt : Platform → Members → Attempt → Checked Attempt
progress_attempt p e attempt = do
  require_attempt_running attempt
  apply_progress p attempt (field "progress" e)

timing_of : Text → Option Timing
timing_of t =
    if is t "interrupt-now"
    then some interrupt_now
    else if is t "next-boundary"
    then some next_boundary
    else none

abbrev pub max_steers : ℕ
max_steers = 256

-- "attempt.steered", with the steer records of the whole snapshot.
unfoldable pub steer_attempt : Platform → ℕ → Members → Attempt → Checked Attempt
unfolding timing_of
steer_attempt p steers e attempt = do
  require_attempt_running attempt
  refuse (leb max_steers steers) too_many_steers
  timing_text ← text (field "timing" e)
  timing ← required (timing_of timing_text) unknown_timing
  control_id ← runtime_control_id p e
  content ← text (field "text" e)
  let steer : Steer = record { control_id = control_id; timing = timing; content = content }
  ok (record attempt { steers = attempt.steers ++ steer ∷ [] })

-- "attempt.completed".
unfoldable pub complete_attempt : Attempt → Checked Attempt
complete_attempt attempt = do
  require_attempt_running attempt
  ok (record attempt { state = AttemptState.completed })

-- "attempt.failed".
unfoldable pub fail_attempt : Members → Attempt → Checked Attempt
fail_attempt e attempt = do
  require_attempt_running attempt
  message ← text (field "message" e)
  failure_class ← runtime_failure_class (field "failure" e)
  ok (record attempt {
    state = AttemptState.failed;
    failure = some message;
    failure_class = some failure_class;
  })

-- `if (occurrence.dispatch) occurrence.dispatch.open = false`.
abbrev pub close_dispatch : Option Dispatch → Option Dispatch
close_dispatch none = none
close_dispatch (some d) = some (record d { is_open = false })

abbrev pub max_attempts : ℕ
max_attempts = 512

abbrev pub is_state_running : OccurrenceState → Bool
is_state_running OccurrenceState.running = true
is_state_running _ = false

-- The attempt that "attempt.started" adds.
abbrev pub new_attempt : Text → Text → Attempt
new_attempt id target = record {
  id = id;
  target = some target;
  state = AttemptState.running;
  output = [];
  steers = [];
  messages = [];
  tools = [];
  todos = [];
  usage = none;
  reasoning_summaries = [];
  failure = none;
  failure_class = none;
}

-- "attempt.started", with the attempts of the whole snapshot.
unfoldable pub start_attempt : ℕ → Members → Occurrence → Checked Occurrence
start_attempt attempts e occurrence = do
  id ← attempt_id e
  refuse (not (is_state_running occurrence.state)) occurrence_not_running
  refuse (not (is_absent (get id occurrence.attempts))) duplicate_attempt
  refuse (leb max_attempts attempts) too_many_attempts
  target ← text (field "target" e)
  ok (record occurrence {
    dispatch = close_dispatch occurrence.dispatch;
    attempts = set id (new_attempt id target) occurrence.attempts;
  })
