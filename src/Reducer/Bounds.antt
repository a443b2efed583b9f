-- ===== src/Reducer/Bounds.antt =====
-- The limits that ext-pi/src/reducer.ts declares for a snapshot, and how an event may grow it.
pub mod Progress
pub mod Attempts
pub mod Occurrences
use agent_cat.Base.{
  ℕ, zero, suc, ◌+◌, ◌-◌, ◌*◌, ◌≤◌, ◌<◌, ◌≡◌, refl, sym, ap, subst, ◌∙◌, ◌≢◌, ◌⊎◌, inl, inr, Bool,
  true, false, not, ◌&&◌, ◌||◌, List, [], ◌∷◌, ◌++◌, map, Option, none, some, String, Text, codes,
  is, includes, distinct, is_decimal, big_int, code_points, strip_prefix, starts_with, strip_suffix,
  is_empty, is_lower_hex, text_eq, text_eq_refl, text_eq_sound, text_eq_iff, any, all, keep, length,
  length-append, length-drop, drop, sum_by, All, All-append, ltb, leb, ◌==◌, arith, if◌then◌else◌,
  Bool-cases, Option-cases, Result, ok, err, ◌>>=◌, ◌>>◌, refuse, required, >>=-eq-ok, refuse-eq-ok,
  required-eq-ok,
}
use agent_cat.Base.Dict.{Dict, get, set, keys, values, Each}
use agent_cat.Base.Value.{
  Value, Members, Items, undefined, null, bool, int, other_number, str, arr, obj, items, field,
  has_own,
}
use agent_cat.Reducer.State.{
  Refusal, Platform, FailureClass, setup, transport, decode, protocol, runtime, QuestionRef,
  ResultRef, ToolStatus, PublicToolProgress, Priority, high, medium, low, TodoStatus,
  PublicTodoItem, PublicUsage, Timing, interrupt_now, next_boundary, Steer, AttemptState, Attempt,
  OccurrenceState, Redirect, Dispatch, RecoveryChoice, retry, failover, abandon, Offer, Chosen,
  Recovery, Occurrence, RunStatus, AckState, ControlCommand, answer_person, ControlAck,
  PersonAnswering, engine, local_control, RunSnapshot, RuntimeEvent, initial_snapshot,
}
use agent_cat.Reducer.State.{
  unsupported_protocol, protocol_changed, run_id_changed, bad_timestamp, bad_sequence,
  duplicate_sequence, conflicting_sequence, sequence_too_large, sequence_gap, post_terminal,
  not_text, not_decimal, out_of_range, bad_control_id, unknown_failure_class, not_safe_integer,
  not_record, bad_question_reference, result_code_missing, bad_result_reference, bad_sha256,
  bad_byte_count, unknown_control_command, unknown_event, unknown_occurrence, unknown_attempt,
  run_not_first, unknown_person_answering, occurrence_before_run, duplicate_occurrence,
  too_many_occurrences, occurrence_not_running, duplicate_attempt, too_many_attempts,
  attempt_not_running, progress_unavailable, too_many_steers, unknown_timing,
  not_waiting_for_choice, choice_already_made, choice_not_offered, cannot_reuse, cannot_recover,
  choices_missing, too_many_choices, bad_choice, unknown_choice, target_without_failover,
  duplicate_choices, not_waiting_for_retry, too_many_retries, cannot_dispatch, bad_targets,
  too_many_targets, redirect_not_reserved, person_unavailable, cannot_wait_for_person,
  cannot_complete, completed_while_waiting, completed_while_active, failed_after_terminal,
  failed_while_active, trace_twice, bad_trace, trace_too_early, ack_while_not_running,
  unknown_ack_state, too_many_controls, ack_mismatch, bad_ack_transition, answer_not_accepted,
  answer_without_occurrence, answer_with_attempt, not_waiting_for_person, run_completed_early,
  run_failed_late, run_cancelled_late, bad_progress, unknown_progress, too_long, bad_identifier,
  bad_tool, too_many_tools, unknown_tool_status, bad_todos, unknown_priority, unknown_todo_status,
  bad_usage, usage_out_of_window,
}
use agent_cat.Reducer.Fields.{
  Checked, text, members, natural_text, decimal_text, occurrence_id, attempt_id, attempt_reference,
  runtime_control_id, runtime_failure_class, integer_number, question_ref, result_ref,
  control_command, output_tail, tail, max_word64, max_word32,
}
use agent_cat.Reducer.Attempts.{max_attempts, max_steers}
use agent_cat.Reducer.Lists.{max_options}
use agent_cat.Reducer.Recovery.{max_history}
use agent_cat.Reducer.Runs.{max_occurrences, steers_of, attempt_count, steer_count}
use agent_cat.Reducer.Controls.{max_controls}

pub record AttemptBounds (a : Attempt) : Type 0 where
  pub messages : length a.messages ≤ 64
  pub reasoning : length a.reasoning_summaries ≤ 32
  pub tools : length a.tools ≤ 128
  pub todos : length a.todos ≤ 128

abbrev pub RecoveryBounds : Option Recovery → Type 0
RecoveryBounds none = Unit
RecoveryBounds (some r) = (length r.retries ≤ max_history) × (length r.choices ≤ max_options)

abbrev pub DispatchBounds : Option Dispatch → Type 0
DispatchBounds none = Unit
DispatchBounds (some d) = length d.targets ≤ max_options

-- The lists of one occurrence, and its attempts, each under its own identifier.
pub record OccurrenceBounds (o : Occurrence) : Type 0 where
  pub recovery : RecoveryBounds o.recovery
  pub dispatch : DispatchBounds o.dispatch
  pub attempts : Each (λ k a. AttemptBounds a) o.attempts
  pub ids : Each (λ k a. a.id ≡ k) o.attempts

-- The declared limits of a snapshot.
pub record SnapshotBounds (s : RunSnapshot) : Type 0 where
  pub occurrences : length s.occurrences ≤ max_occurrences
  pub attempts : attempt_count s ≤ max_attempts
  pub steers : steer_count s ≤ max_steers
  pub controls : length s.control_acks ≤ max_controls
  pub each : Each (λ k o. OccurrenceBounds o) s.occurrences

-- The counter stays, or grows by one below its limit of the whole snapshot.
abbrev pub Grows : (limit total before after : ℕ) → Type 0
Grows limit total before after = (after ≡ before) ⊎ ((after ≡ suc before) × (total < limit))

-- What an event does to the sizes of the occurrence that it names, where the snapshot has `attempts`
-- attempts and `steers` steer records.
pub record Growth (attempts steers : ℕ) (o o' : Occurrence) : Type 0 where
  pub bounded : OccurrenceBounds o → OccurrenceBounds o'
  pub attempts_grow : Grows max_attempts attempts (length o.attempts) (length o'.attempts)
  pub steers_grow : Grows max_steers steers (steers_of o) (steers_of o')
