-- ===== src/Reducer/State.antt =====
-- The run snapshot that the reducer keeps, and what it throws: the types of ext-pi/src/types.ts.
-- A `Map` is a `Dict`, an optional field an `Option`, and a text of a closed set of spellings an
-- enumeration.
use agent_cat.Base.{ℕ, Bool, false, List, [], Option, none, Text}
use agent_cat.Base.Dict.{Dict}
use agent_cat.Base.Int.{ℤ}
use agent_cat.Base.Value.{Value, Members}

pub record QuestionRef : Type 0 where
  pub artifact_version : ℤ
  pub path : Text
  pub sha256 : Text
  pub bytes : Text

pub record ResultRef : Type 0 where
  pub reference : QuestionRef
  pub code : Value
  pub preview : Text

pub data ToolStatus : Type 0 where
  pending in_progress completed failed cancelled : ToolStatus

pub record PublicToolProgress : Type 0 where
  pub id : Text
  pub title : Option Text
  pub tool_kind : Option Text
  pub status : Option ToolStatus
  pub summary : Option Text

pub data Priority : Type 0 where
  high medium low : Priority

pub data TodoStatus : Type 0 where
  pending in_progress completed : TodoStatus

pub record PublicTodoItem : Type 0 where
  pub content : Text
  pub priority : Priority
  pub status : TodoStatus

pub record PublicUsage : Type 0 where
  pub used : Text
  pub size : Text

pub data Timing : Type 0 where
  interrupt_now next_boundary : Timing

pub record Steer : Type 0 where
  pub control_id : Text
  pub timing : Timing
  pub content : Text

pub data FailureClass : Type 0 where
  setup transport decode protocol cancelled runtime : FailureClass

pub data AttemptState : Type 0 where
  running completed failed : AttemptState

pub record Attempt : Type 0 where
  pub id : Text
  pub target : Option Text
  pub state : AttemptState
  pub output : Text
  pub steers : List Steer
  pub messages : List Text
  pub tools : Dict PublicToolProgress
  pub todos : List PublicTodoItem
  pub usage : Option PublicUsage
  pub reasoning_summaries : List Text
  pub failure : Option Text
  pub failure_class : Option FailureClass

pub data OccurrenceState : Type 0 where
  running recovering reused completed failed cancelled : OccurrenceState

pub record Redirect : Type 0 where
  pub control_id : Text
  pub target : Text
  pub stopped_attempt : Option Text

pub record Dispatch : Type 0 where
  pub targets : List Text
  pub is_open : Bool
  pub redirect : Option Redirect

pub data RecoveryChoice : Type 0 where
  retry failover abandon : RecoveryChoice

pub record Offer : Type 0 where
  pub choice : RecoveryChoice
  pub target : Option Text

pub record Chosen : Type 0 where
  pub control_id : Text
  pub choice : RecoveryChoice
  pub target : Option Text

pub record Recovery : Type 0 where
  pub gap : Text
  pub message : Text
  pub retries : List Text
  pub choices : List Offer
  pub chosen : Option Chosen

pub record Occurrence : Type 0 where
  pub id : Text
  pub state : OccurrenceState
  pub code : Option Text
  pub intent : Option Text
  pub addressee : Option Text
  pub prompt : Option Text
  pub answer : Option Text
  pub dispatch : Option Dispatch
  pub recovery : Option Recovery
  pub reuse_kind : Option Text
  pub source : Option Text
  pub failure_class : Option FailureClass
  pub replayable : Bool
  pub person_question : Option QuestionRef
  pub person_pending : Bool
  pub attempts : Dict Attempt

pub data RunStatus : Type 0 where
  starting running cancelling succeeded failed cancelled orphaned : RunStatus

pub data AckState : Type 0 where
  accepted queued delivered rejected_stale unsupported failed : AckState

pub data ControlCommand : Type 0 where
  cancel_run steer_occurrence retry_occurrence failover_occurrence : ControlCommand
  abandon_occurrence redirect_occurrence answer_person invalid : ControlCommand

pub record ControlAck : Type 0 where
  pub control_id : Text
  pub state : AckState
  pub message : Text
  pub command : Option ControlCommand
  pub occurrence_id : Option Text
  pub attempt_id : Option Text

pub data PersonAnswering : Type 0 where
  engine local_control : PersonAnswering

pub record RunSnapshot : Type 0 where
  pub run_id : Text
  pub status : RunStatus
  pub protocol_version : Option ℕ
  pub last_sequence : Option ℕ
  pub workflow : Option Text
  pub target : Option Text
  pub person_answering : Option PersonAnswering
  pub occurrences : Dict Occurrence
  pub authored_order : List Text
  pub trace_recorded : Bool
  pub event_digests : Dict Text
  pub control_acks : Dict ControlAck
  pub bill_fresh : Option Text
  pub bill_memo : Option Text
  pub result : Option ResultRef
  pub failure : Option Text
  pub failure_class : Option FailureClass

-- `RuntimeEvent`. The event's `type` is a text of its own, and its other members are unknown.
pub record RuntimeEvent : Type 0 where
  pub protocol_version : Value
  pub run_id : Text
  pub sequence : Text
  pub timestamp : Value
  pub event_type : Text
  pub event : Members

-- What the reducer takes from the JavaScript runtime and from Node: the SHA-256 hex digest of the
-- JSON text of an envelope, whether `Date.parse` of a text is finite, the code points of the
-- Unicode classes `\p{L}` and `\p{N}`, and the two directions of UTF-8.
pub record Platform : Type 0 where
  pub digest : RuntimeEvent → Text
  pub date_finite : Text → Bool
  pub is_letter : ℕ → Bool
  pub is_number : ℕ → Bool
  pub to_utf8 : Text → List ℕ
  pub of_utf8 : List ℕ → Text

-- The errors that `reduceEvent` throws, one for each message.
pub data Refusal : Type 0 where
  unsupported_protocol protocol_changed run_id_changed bad_timestamp bad_sequence : Refusal
  duplicate_sequence conflicting_sequence sequence_too_large sequence_gap post_terminal : Refusal
  not_text not_decimal out_of_range bad_control_id unknown_failure_class not_safe_integer : Refusal
  not_record bad_question_reference result_code_missing bad_result_reference bad_sha256 : Refusal
  bad_byte_count unknown_control_command unknown_event unknown_occurrence unknown_attempt : Refusal
  run_not_first unknown_person_answering occurrence_before_run duplicate_occurrence : Refusal
  too_many_occurrences occurrence_not_running duplicate_attempt too_many_attempts : Refusal
  attempt_not_running progress_unavailable too_many_steers unknown_timing : Refusal
  not_waiting_for_choice choice_already_made choice_not_offered cannot_reuse : Refusal
  cannot_recover choices_missing too_many_choices bad_choice unknown_choice : Refusal
  target_without_failover duplicate_choices not_waiting_for_retry too_many_retries : Refusal
  cannot_dispatch bad_targets too_many_targets redirect_not_reserved person_unavailable : Refusal
  cannot_wait_for_person cannot_complete completed_while_waiting completed_while_active : Refusal
  failed_after_terminal failed_while_active trace_twice bad_trace trace_too_early : Refusal
  ack_while_not_running unknown_ack_state too_many_controls ack_mismatch bad_ack_transition :
      Refusal
  answer_not_accepted answer_without_occurrence answer_with_attempt not_waiting_for_person : Refusal
  run_completed_early run_failed_late run_cancelled_late : Refusal
  bad_progress unknown_progress too_long bad_identifier bad_tool too_many_tools : Refusal
  unknown_tool_status bad_todos unknown_priority unknown_todo_status bad_usage : Refusal
  usage_out_of_window : Refusal

unfoldable pub initial_snapshot : Text → RunSnapshot
initial_snapshot run_id = record {
  run_id = run_id;
  status = starting;
  protocol_version = none;
  last_sequence = none;
  workflow = none;
  target = none;
  person_answering = none;
  occurrences = [];
  authored_order = [];
  trace_recorded = false;
  event_digests = [];
  control_acks = [];
  bill_fresh = none;
  bill_memo = none;
  result = none;
  failure = none;
  failure_class = none;
}
