-- ===== src/Reducer/Lifecycle.antt =====
-- The life cycle of an occurrence, and what each occurrence event of ext-pi/src/reducer.ts does to
-- the occurrence that it names.
-- the occurrence that it names.
pub mod Occurrences
pub mod Attempts
pub mod Recoveries
use agent_cat.Base.{
  ℕ, zero, suc, ◌+◌, ◌-◌, ◌*◌, ◌≤◌, ◌<◌, ◌≡◌, refl, sym, ap, subst, ◌∙◌, ◌≢◌, ◌⊎◌, inl, inr, Bool,
  true, false, not, ◌&&◌, ◌||◌, List, [], ◌∷◌, ◌++◌, map, Option, none, some, String, Text, codes,
  is, includes, distinct, is_decimal, big_int, code_points, strip_prefix, starts_with, strip_suffix,
  is_empty, is_lower_hex, text_eq, text_eq_refl, text_eq_sound, text_eq_iff, any, all, keep, length,
  length-append, length-drop, drop, sum_by, All, All-append, ltb, leb, ◌==◌, arith, if◌then◌else◌,
  Bool-cases, Option-cases, Result, ok, err, ◌>>=◌, ◌>>◌, refuse, required, >>=-eq-ok, refuse-eq-ok,
  required-eq-ok,
}
use agent_cat.Base.Dict.{Dict, get, set, keys, values, Each}
use agent_cat.Base.Value.{
  Value, Members, Items, undefined, null, bool, int, other_number, str, arr, obj, items, field,
  has_own,
}
use agent_cat.Reducer.State.{
  Refusal, Platform, FailureClass, setup, transport, decode, protocol, runtime, QuestionRef,
  ResultRef, ToolStatus, PublicToolProgress, Priority, high, medium, low, TodoStatus,
  PublicTodoItem, PublicUsage, Timing, interrupt_now, next_boundary, Steer, AttemptState, Attempt,
  OccurrenceState, Redirect, Dispatch, RecoveryChoice, retry, failover, abandon, Offer, Chosen,
  Recovery, Occurrence, RunStatus, AckState, ControlCommand, answer_person, ControlAck,
  PersonAnswering, engine, local_control, RunSnapshot, RuntimeEvent, initial_snapshot,
}
use agent_cat.Reducer.State.{
  unsupported_protocol, protocol_changed, run_id_changed, bad_timestamp, bad_sequence,
  duplicate_sequence, conflicting_sequence, sequence_too_large, sequence_gap, post_terminal,
  not_text, not_decimal, out_of_range, bad_control_id, unknown_failure_class, not_safe_integer,
  not_record, bad_question_reference, result_code_missing, bad_result_reference, bad_sha256,
  bad_byte_count, unknown_control_command, unknown_event, unknown_occurrence, unknown_attempt,
  run_not_first, unknown_person_answering, occurrence_before_run, duplicate_occurrence,
  too_many_occurrences, occurrence_not_running, duplicate_attempt, too_many_attempts,
  attempt_not_running, progress_unavailable, too_many_steers, unknown_timing,
  not_waiting_for_choice, choice_already_made, choice_not_offered, cannot_reuse, cannot_recover,
  choices_missing, too_many_choices, bad_choice, unknown_choice, target_without_failover,
  duplicate_choices, not_waiting_for_retry, too_many_retries, cannot_dispatch, bad_targets,
  too_many_targets, redirect_not_reserved, person_unavailable, cannot_wait_for_person,
  cannot_complete, completed_while_waiting, completed_while_active, failed_after_terminal,
  failed_while_active, trace_twice, bad_trace, trace_too_early, ack_while_not_running,
  unknown_ack_state, too_many_controls, ack_mismatch, bad_ack_transition, answer_not_accepted,
  answer_without_occurrence, answer_with_attempt, not_waiting_for_person, run_completed_early,
  run_failed_late, run_cancelled_late, bad_progress, unknown_progress, too_long, bad_identifier,
  bad_tool, too_many_tools, unknown_tool_status, bad_todos, unknown_priority, unknown_todo_status,
  bad_usage, usage_out_of_window,
}
use agent_cat.Reducer.Fields.{
  Checked, text, members, natural_text, decimal_text, occurrence_id, attempt_id, attempt_reference,
  runtime_control_id, runtime_failure_class, integer_number, question_ref, result_ref,
  control_command, output_tail, tail, max_word64, max_word32,
}
use agent_cat.Reducer.Attempts.{is_running}
use agent_cat.Reducer.Occurrences.{has_running, is_closed}

-- The states that an occurrence moves through. `stay` is an event that leaves the state alone.
pub data OccurrenceStep : OccurrenceState → OccurrenceState → Type 0 where
  stay : (s : OccurrenceState) → OccurrenceStep s s
  recover : OccurrenceStep OccurrenceState.running OccurrenceState.recovering
  resume : OccurrenceStep OccurrenceState.recovering OccurrenceState.running
  reuse : OccurrenceStep OccurrenceState.running OccurrenceState.reused
  complete : OccurrenceStep OccurrenceState.running OccurrenceState.completed
  fail : OccurrenceStep OccurrenceState.running OccurrenceState.failed
  give_up : OccurrenceStep OccurrenceState.recovering OccurrenceState.failed

-- The same relation as a test.
abbrev pub can_step : OccurrenceState → OccurrenceState → Bool
can_step OccurrenceState.running OccurrenceState.running = true
can_step OccurrenceState.running OccurrenceState.recovering = true
can_step OccurrenceState.running OccurrenceState.reused = true
can_step OccurrenceState.running OccurrenceState.completed = true
can_step OccurrenceState.running OccurrenceState.failed = true
can_step OccurrenceState.recovering OccurrenceState.running = true
can_step OccurrenceState.recovering OccurrenceState.recovering = true
can_step OccurrenceState.recovering OccurrenceState.failed = true
can_step OccurrenceState.reused OccurrenceState.reused = true
can_step OccurrenceState.completed OccurrenceState.completed = true
can_step OccurrenceState.failed OccurrenceState.failed = true
can_step OccurrenceState.cancelled OccurrenceState.cancelled = true
can_step _ _ = false

pub can_step_sound : (a b : OccurrenceState) → can_step a b ≡ true → OccurrenceStep a b
can_step_sound OccurrenceState.running OccurrenceState.running h = stay _
can_step_sound OccurrenceState.running OccurrenceState.recovering h = recover
can_step_sound OccurrenceState.running OccurrenceState.reused h = reuse
can_step_sound OccurrenceState.running OccurrenceState.completed h = complete
can_step_sound OccurrenceState.running OccurrenceState.failed h = fail
can_step_sound OccurrenceState.recovering OccurrenceState.running h = resume
can_step_sound OccurrenceState.recovering OccurrenceState.recovering h = stay _
can_step_sound OccurrenceState.recovering OccurrenceState.failed h = give_up
can_step_sound OccurrenceState.reused OccurrenceState.reused h = stay _
can_step_sound OccurrenceState.completed OccurrenceState.completed h = stay _
can_step_sound OccurrenceState.failed OccurrenceState.failed h = stay _
can_step_sound OccurrenceState.cancelled OccurrenceState.cancelled h = stay _
can_step_sound _ _ h = absurd (cc h)

-- The answer stands: the occurrence completed or failed.
abbrev pub is_settled : OccurrenceState → Bool
is_settled OccurrenceState.completed = true
is_settled OccurrenceState.failed = true
is_settled OccurrenceState.cancelled = true
is_settled _ = false

-- Once an occurrence is closed, none of its attempts runs.
abbrev pub IsQuiet : Occurrence → Type 0
IsQuiet o = is_closed o.state ≡ true → has_running o.attempts ≡ false

-- What an event does to the occurrence that it names.
pub record Change (o o' : Occurrence) : Type 0 where
  pub same_id : o'.id ≡ o.id
  pub step : can_step o.state o'.state ≡ true
  pub answer_kept : is_settled o.state ≡ true → o'.answer ≡ o.answer
  pub quiet : IsQuiet o → IsQuiet o'
