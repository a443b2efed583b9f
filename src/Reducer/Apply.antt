-- ===== src/Reducer/Apply.antt =====
-- `apply` and `reduceEvent` of ext-pi/src/reducer.ts: the switch on the event's type, and the
-- run of a journal. The source applies an event to a deep copy of the current
-- snapshot; the model returns a new one.
use agent_cat.Base.{
  ℕ, Bool, true, false, not, List, [], ◌∷◌, Text, is, ◌==◌, if◌then◌else◌, ok, err, ◌>>=◌, ◌>>◌,
  refuse, required,
}
use agent_cat.Base.Dict.{get, set}
use agent_cat.Base.Value.{Members}
use agent_cat.Reducer.State.{Platform, Occurrence, RunSnapshot, RuntimeEvent}
use agent_cat.Reducer.State.{
  unknown_event, unknown_occurrence, progress_unavailable, person_unavailable,
}
use agent_cat.Reducer.Fields.{Checked, occurrence_id}
use agent_cat.Reducer.Runs.{
  attempt_count, steer_count, start_run, start_occurrence, order_trace, complete_run, fail_run,
  cancel_run,
}
use agent_cat.Reducer.Attempts.{
  on_attempt, append_output, progress_attempt, steer_attempt, complete_attempt, fail_attempt,
  start_attempt,
}
use agent_cat.Reducer.Occurrences.{reuse, await_person, complete, fail}
use agent_cat.Reducer.Recovery.{await_recovery, choose_recovery, retry_occurrence}
use agent_cat.Reducer.Dispatches.{open_dispatch, redirect}
use agent_cat.Reducer.Envelope.{admit, stamped}
use agent_cat.Reducer.Controls.{acknowledge}

-- The event types that `apply` switches on.
pub data EventKind : Type 0 where
  run_started occurrence_started attempt_started attempt_output attempt_progress : EventKind
  attempt_steered attempt_completed attempt_failed recovery_chosen occurrence_reused : EventKind
  recovery_pending occurrence_retried dispatch_pending occurrence_redirected : EventKind
  person_answer_pending occurrence_completed occurrence_failed trace_ordered : EventKind
  control_ack run_completed run_failed run_cancelled unknown_kind : EventKind

unfoldable pub event_kind : Text → EventKind
event_kind t =
    if is t "run.started"
    then run_started
    else if is t "occurrence.started"
    then occurrence_started
    else if is t "attempt.started"
    then attempt_started
    else if is t "attempt.output"
    then attempt_output
    else if is t "attempt.progress"
    then attempt_progress
    else if is t "attempt.steered"
    then attempt_steered
    else if is t "attempt.completed"
    then attempt_completed
    else if is t "attempt.failed"
    then attempt_failed
    else if is t "occurrence.recovery-chosen"
    then recovery_chosen
    else if is t "occurrence.reused"
    then occurrence_reused
    else if is t "occurrence.recovery-pending"
    then recovery_pending
    else if is t "occurrence.retried"
    then occurrence_retried
    else if is t "occurrence.dispatch-pending"
    then dispatch_pending
    else if is t "occurrence.redirected"
    then occurrence_redirected
    else if is t "occurrence.person-answer-pending"
    then person_answer_pending
    else if is t "occurrence.completed"
    then occurrence_completed
    else if is t "occurrence.failed"
    then occurrence_failed
    else if is t "trace.ordered"
    then trace_ordered
    else if is t "control.ack"
    then control_ack
    else if is t "run.completed"
    then run_completed
    else if is t "run.failed"
    then run_failed
    else if is t "run.cancelled"
    then run_cancelled
    else unknown_kind

-- `occurrenceOf`, and the write of the occurrence that the case then changes.
unfoldable pub on_occurrence :
    RunSnapshot → Members → (Occurrence → Checked Occurrence) → Checked RunSnapshot
on_occurrence s e change = do
  id ← occurrence_id e
  occurrence ← required (get id s.occurrences) unknown_occurrence
  changed ← change occurrence
  ok (record s { occurrences = set id changed s.occurrences })

-- "attempt.steered": the steer record, and the mark that the occurrence cannot be replayed.
unfoldable pub steer_occurrence : Platform → ℕ → Members → Occurrence → Checked Occurrence
steer_occurrence p steers e occurrence = do
  steered ← on_attempt occurrence e (steer_attempt p steers e)
  ok (record steered { replayable = false })

-- What the event does to the occurrence that it names.
unfoldable pub occurrence_change :
    Platform → ℕ → Members → RunSnapshot → EventKind → Occurrence → Checked Occurrence
occurrence_change p version e s attempt_started o = start_attempt (attempt_count s) e o
occurrence_change p version e s attempt_output o = on_attempt o e (append_output p e)
occurrence_change p version e s attempt_progress o = on_attempt o e (progress_attempt p e)
occurrence_change p version e s attempt_steered o = steer_occurrence p (steer_count s) e o
occurrence_change p version e s attempt_completed o = on_attempt o e complete_attempt
occurrence_change p version e s attempt_failed o = on_attempt o e (fail_attempt e)
occurrence_change p version e s recovery_chosen o = choose_recovery p e o
occurrence_change p version e s occurrence_reused o = reuse e o
occurrence_change p version e s recovery_pending o = await_recovery e o
occurrence_change p version e s occurrence_retried o = retry_occurrence p e o
occurrence_change p version e s dispatch_pending o = open_dispatch e o
occurrence_change p version e s occurrence_redirected o = redirect p e o
occurrence_change p version e s person_answer_pending o = await_person e o
occurrence_change p version e s occurrence_completed o = complete e o
occurrence_change p version e s occurrence_failed o = fail e o
occurrence_change p version e s _ o = err unknown_event

-- The events that name no occurrence of theirs to change.
abbrev pub is_run_event : EventKind → Bool
is_run_event run_started = true
is_run_event occurrence_started = true
is_run_event trace_ordered = true
is_run_event control_ack = true
is_run_event run_completed = true
is_run_event run_failed = true
is_run_event run_cancelled = true
is_run_event unknown_kind = true
is_run_event _ = false

-- The events that protocol version 1 does not have.
unfoldable pub available : ℕ → EventKind → Checked (Unit {0})
available version attempt_progress = refuse (not (version == 2)) progress_unavailable
available version person_answer_pending = refuse (not (version == 2)) person_unavailable
available version _ = ok tt

-- What the event does to the run.
unfoldable pub run_change : Platform → ℕ → Members → RunSnapshot → EventKind → Checked RunSnapshot
run_change p version e s run_started = start_run version e s
run_change p version e s occurrence_started = start_occurrence e s
run_change p version e s trace_ordered = order_trace e s
run_change p version e s control_ack = acknowledge p version e s
run_change p version e s run_completed = complete_run version e s
run_change p version e s run_failed = fail_run e s
run_change p version e s run_cancelled = cancel_run e s
run_change p version e s _ = err unknown_event

unfoldable pub apply : Platform → ℕ → EventKind → Members → RunSnapshot → Checked RunSnapshot
apply p version kind e s = do
  available version kind
  if is_run_event kind
      then run_change p version e s kind
      else on_occurrence s e (occurrence_change p version e s kind)

unfoldable pub reduce_event : Platform → RunSnapshot → RuntimeEvent → Checked RunSnapshot
reduce_event p current envelope = do
  (version, sequence) ← admit p current envelope
  apply p version (event_kind envelope.event_type) envelope.event
      (stamped p current envelope version sequence)

-- The events of a journal, in order; the first refusal ends it.
unfoldable pub reduce_all : Platform → RunSnapshot → List RuntimeEvent → Checked RunSnapshot
reduce_all p s [] = ok s
reduce_all p s (envelope ∷ rest) = do s' ← reduce_event p s envelope; reduce_all p s' rest
