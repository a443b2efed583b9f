-- ===== src/Reducer/Runs.antt =====
-- The events of the whole run in `apply` of ext-pi/src/reducer.ts.
use agent_cat.Base.{
  ℕ, Bool, true, false, not, ◌||◌, Option, none, some, Text, is, distinct, any, all, length, sum_by,
  leb, ◌==◌, if◌then◌else◌, ok, ◌>>=◌, ◌>>◌, refuse, required,
}
use agent_cat.Base.Dict.{Dict, get, set, values}
use agent_cat.Base.Value.{Members, field}
use agent_cat.Reducer.State.{
  FailureClass, ResultRef, OccurrenceState, Occurrence, RunStatus, PersonAnswering, engine,
  local_control, RunSnapshot,
}
use agent_cat.Reducer.State.{
  run_not_first, unknown_person_answering, occurrence_before_run, duplicate_occurrence,
  too_many_occurrences, trace_twice, bad_trace, trace_too_early, run_completed_early,
  run_failed_late, run_cancelled_late,
}
use agent_cat.Reducer.Fields.{
  Checked, text, natural_text, occurrence_id, runtime_failure_class, result_ref,
}
use agent_cat.Reducer.Progress.{is_absent, array}
use agent_cat.Reducer.Occurrences.{new_occurrence}
use agent_cat.Reducer.Lists.{texts_of}
use agent_cat.Reducer.Controls.{is_active}

abbrev pub max_occurrences : ℕ
max_occurrences = 2048

abbrev pub steers_of : Occurrence → ℕ
steers_of o = sum_by (λ a. length a.steers) (values o.attempts)

-- `attemptCount` and `steerCount`.
abbrev pub attempt_count : RunSnapshot → ℕ
attempt_count s = sum_by (λ o. length o.attempts) (values s.occurrences)

abbrev pub steer_count : RunSnapshot → ℕ
steer_count s = sum_by steers_of (values s.occurrences)

abbrev may_start : RunStatus → Bool
may_start RunStatus.starting = true
may_start RunStatus.cancelling = true
may_start _ = false

abbrev started_status : RunStatus → RunStatus
started_status RunStatus.cancelling = RunStatus.cancelling
started_status _ = RunStatus.running

person_answering_of : Text → Option PersonAnswering
person_answering_of t =
    if is t "engine" then some engine else if is t "local-control" then some local_control else none

read_person_answering : ℕ → Members → Option PersonAnswering → Checked (Option PersonAnswering)
unfolding person_answering_of
read_person_answering version e current =
    if version == 2
    then (do
      answering ← text (field "personAnswering" e)
      mode ← required (person_answering_of answering) unknown_person_answering
      ok (some mode))
    else ok current

-- "run.started".
unfoldable pub start_run : ℕ → Members → RunSnapshot → Checked RunSnapshot
unfolding read_person_answering
start_run version e s = do
  refuse (not (may_start s.status)) run_not_first
  workflow ← text (field "workflow" e)
  target ← text (field "target" e)
  answering ← read_person_answering version e s.person_answering
  ok (record s {
    status = started_status s.status;
    workflow = some workflow;
    target = some target;
    person_answering = answering;
  })

abbrev pub is_run_running : RunStatus → Bool
is_run_running RunStatus.running = true
is_run_running _ = false

-- "occurrence.started".
unfoldable pub start_occurrence : Members → RunSnapshot → Checked RunSnapshot
start_occurrence e s = do
  id ← occurrence_id e
  refuse (not (is_run_running s.status)) occurrence_before_run
  refuse (not (is_absent (get id s.occurrences))) duplicate_occurrence
  refuse (leb max_occurrences (length s.occurrences)) too_many_occurrences
  occurrence ← new_occurrence id e
  ok (record s { occurrences = set id occurrence s.occurrences })

-- `[...occurrences.values()].every(state is completed or reused)`.
abbrev pub is_done : OccurrenceState → Bool
is_done OccurrenceState.completed = true
is_done OccurrenceState.reused = true
is_done _ = false

abbrev pub all_done : Dict Occurrence → Bool
all_done occurrences = all (λ o. is_done o.state) (values occurrences)

-- "trace.ordered".
unfoldable pub order_trace : Members → RunSnapshot → Checked RunSnapshot
order_trace e s = do
  refuse s.trace_recorded trace_twice
  listed ← array (field "occurrenceIds" e) bad_trace
  ids ← texts_of listed bad_trace
  refuse (not (distinct ids) || any (λ id. is_absent (get id s.occurrences)) ids) bad_trace
  refuse (not (length ids == length s.occurrences) || not (all_done s.occurrences)) trace_too_early
  ok (record s { authored_order = ids; trace_recorded = true })

read_result : ℕ → Members → Option ResultRef → Checked (Option ResultRef)
read_result version e current =
    if version == 2
    then (do reference ← result_ref (field "result" e); ok (some reference))
    else ok current

-- "run.completed".
unfoldable pub complete_run : ℕ → Members → RunSnapshot → Checked RunSnapshot
unfolding read_result
complete_run version e s = do
  refuse
      (not (is_run_running s.status)
        || not s.trace_recorded
        || not (length s.authored_order == length s.occurrences)
        || not (all_done s.occurrences))
      run_completed_early
  fresh ← natural_text (field "billFresh" e)
  memo ← natural_text (field "billMemo" e)
  result ← read_result version e s.result
  ok (record s {
    status = RunStatus.succeeded;
    bill_fresh = some fresh;
    bill_memo = some memo;
    result = result;
  })

-- "run.failed".
unfoldable pub fail_run : Members → RunSnapshot → Checked RunSnapshot
fail_run e s = do
  refuse (not (is_active s.status)) run_failed_late
  message ← text (field "message" e)
  failure_class ← runtime_failure_class (field "failure" e)
  ok (record s {
    status = RunStatus.failed;
    failure = some message;
    failure_class = some failure_class;
  })

-- "run.cancelled".
unfoldable pub cancel_run : Members → RunSnapshot → Checked RunSnapshot
cancel_run e s = do
  refuse (not (is_active s.status)) run_cancelled_late
  message ← text (field "message" e)
  ok (record s {
    status = RunStatus.cancelled;
    failure_class = some FailureClass.cancelled;
    failure = some message;
  })
