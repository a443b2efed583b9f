-- ===== src/Reducer/Invariant.antt =====
-- The well-formed snapshots of ext-pi/src/reducer.ts.
pub mod Occurrences
pub mod Runs
pub mod Controls
pub mod Journal
use agent_cat.Base.{
  ℕ, zero, suc, ◌+◌, ◌-◌, ◌*◌, ◌≤◌, ◌<◌, ◌≡◌, refl, sym, ap, subst, ◌∙◌, ◌≢◌, ◌⊎◌, inl, inr, Bool,
  true, false, not, ◌&&◌, ◌||◌, List, [], ◌∷◌, ◌++◌, map, Option, none, some, String, Text, codes,
  is, includes, distinct, is_decimal, big_int, code_points, strip_prefix, starts_with, strip_suffix,
  is_empty, is_lower_hex, text_eq, text_eq_refl, text_eq_sound, text_eq_iff, any, all, keep, length,
  length-append, length-drop, drop, sum_by, All, All-append, ltb, leb, ◌==◌, arith, if◌then◌else◌,
  Bool-cases, Option-cases, Result, ok, err, ◌>>=◌, ◌>>◌, refuse, required, >>=-eq-ok, refuse-eq-ok,
  required-eq-ok,
}
use agent_cat.Base.Dict.{
  Dict, get, set, keys, values, Each, get-set, sum-set_present, sum-set_absent, length-set_present,
  length-set_absent, keys-set_present, keys-set_absent, length-keys, Each-get, Each-set,
}
use agent_cat.Base.Value.{
  Value, Members, Items, undefined, null, bool, int, other_number, str, arr, obj, items, field,
  has_own,
}
use agent_cat.Reducer.State.{
  Refusal, Platform, FailureClass, setup, transport, decode, protocol, runtime, QuestionRef,
  ResultRef, ToolStatus, PublicToolProgress, Priority, high, medium, low, TodoStatus,
  PublicTodoItem, PublicUsage, Timing, interrupt_now, next_boundary, Steer, AttemptState, Attempt,
  OccurrenceState, Redirect, Dispatch, RecoveryChoice, retry, failover, abandon, Offer, Chosen,
  Recovery, Occurrence, RunStatus, AckState, ControlCommand, answer_person, ControlAck,
  PersonAnswering, engine, local_control, RunSnapshot, RuntimeEvent, initial_snapshot,
}
use agent_cat.Reducer.State.{
  unsupported_protocol, protocol_changed, run_id_changed, bad_timestamp, bad_sequence,
  duplicate_sequence, conflicting_sequence, sequence_too_large, sequence_gap, post_terminal,
  not_text, not_decimal, out_of_range, bad_control_id, unknown_failure_class, not_safe_integer,
  not_record, bad_question_reference, result_code_missing, bad_result_reference, bad_sha256,
  bad_byte_count, unknown_control_command, unknown_event, unknown_occurrence, unknown_attempt,
  run_not_first, unknown_person_answering, occurrence_before_run, duplicate_occurrence,
  too_many_occurrences, occurrence_not_running, duplicate_attempt, too_many_attempts,
  attempt_not_running, progress_unavailable, too_many_steers, unknown_timing,
  not_waiting_for_choice, choice_already_made, choice_not_offered, cannot_reuse, cannot_recover,
  choices_missing, too_many_choices, bad_choice, unknown_choice, target_without_failover,
  duplicate_choices, not_waiting_for_retry, too_many_retries, cannot_dispatch, bad_targets,
  too_many_targets, redirect_not_reserved, person_unavailable, cannot_wait_for_person,
  cannot_complete, completed_while_waiting, completed_while_active, failed_after_terminal,
  failed_while_active, trace_twice, bad_trace, trace_too_early, ack_while_not_running,
  unknown_ack_state, too_many_controls, ack_mismatch, bad_ack_transition, answer_not_accepted,
  answer_without_occurrence, answer_with_attempt, not_waiting_for_person, run_completed_early,
  run_failed_late, run_cancelled_late, bad_progress, unknown_progress, too_long, bad_identifier,
  bad_tool, too_many_tools, unknown_tool_status, bad_todos, unknown_priority, unknown_todo_status,
  bad_usage, usage_out_of_window,
}
use agent_cat.Reducer.Fields.{
  Checked, text, members, natural_text, decimal_text, occurrence_id, attempt_id, attempt_reference,
  runtime_control_id, runtime_failure_class, integer_number, question_ref, result_ref,
  control_command, output_tail, tail, max_word64, max_word32,
}
use agent_cat.Reducer.Progress.{is_absent}
use agent_cat.Reducer.Runs.{all_done}
use agent_cat.Reducer.Lifecycle.{IsQuiet}
use agent_cat.Reducer.Bounds.{SnapshotBounds}

abbrev pub IsKnown : Dict Occurrence → Text → Type 0
IsKnown occurrences id = is_absent (get id occurrences) ≡ false

-- The authored order lists occurrences of the snapshot, each once.
pub record IsOrdered (s : RunSnapshot) : Type 0 where
  pub once : distinct s.authored_order ≡ true
  pub known : All (IsKnown s.occurrences) s.authored_order

-- What a run that succeeded has recorded.
pub record IsSuccess (s : RunSnapshot) : Type 0 where
  pub recorded : s.trace_recorded ≡ true
  pub complete : length s.authored_order ≡ length s.occurrences
  pub done : all_done s.occurrences ≡ true

-- The well-formed snapshots.
pub record IsValid (s : RunSnapshot) : Type 0 where
  pub bounds : SnapshotBounds s
  pub ids : Each (λ k o. o.id ≡ k) s.occurrences
  pub quiet : Each (λ k o. IsQuiet o) s.occurrences
  pub ordered : s.trace_recorded ≡ true → IsOrdered s
  pub success : s.status ≡ RunStatus.succeeded → IsSuccess s

pub initial_snapshot-IsValid : (run_id : Text) → IsValid (initial_snapshot run_id)
unfolding initial_snapshot
initial_snapshot-IsValid run_id = record {
  bounds = omega arith;
  ids = tt;
  quiet = tt;
  ordered = λ h. absurd (cc h);
  success = λ h. absurd (cc h);
}

IsKnown-set :
    (m : Dict Occurrence) (k : Text) (o : Occurrence) (ids : List Text)
    → All (IsKnown m) ids
    → All (IsKnown (set k o m)) ids
IsKnown-set m k o [] h = tt
IsKnown-set m k o (id ∷ ids) (known, h) =
    (ground (arith, get-set k id o m), IsKnown-set m k o ids h)

-- A write of an occurrence keeps the order, whether or not it was there.
pub set-IsOrdered :
    (s : RunSnapshot) (k : Text) (o : Occurrence)
    → IsOrdered s
    → IsOrdered (record s { occurrences = set k o s.occurrences })
set-IsOrdered s k o i = record {
  once = i.once;
  known = IsKnown-set s.occurrences k o s.authored_order i.known;
}
