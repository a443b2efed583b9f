-- ===== src/Reducer/Controls.antt =====
-- The `control.ack` event of `apply` in ext-pi/src/reducer.ts.
use agent_cat.Base.{
  ℕ, Bool, true, false, not, ◌&&◌, ◌||◌, Option, none, some, Text, is, text_eq, length, leb, ◌==◌,
  if◌then◌else◌, ok, ◌>>=◌, ◌>>◌, refuse, required,
}
use agent_cat.Base.Dict.{Dict, get, set}
use agent_cat.Base.Value.{Value, Members, undefined, null, field}
use agent_cat.Reducer.State.{
  Platform, Occurrence, RunStatus, AckState, ControlCommand, answer_person, ControlAck, RunSnapshot,
}
use agent_cat.Reducer.State.{
  ack_while_not_running, unknown_ack_state, too_many_controls, ack_mismatch, bad_ack_transition,
  answer_not_accepted, answer_without_occurrence, answer_with_attempt, not_waiting_for_person,
}
use agent_cat.Reducer.Fields.{
  Checked, text, decimal_text, attempt_reference, runtime_control_id, control_command, max_word64,
}
use agent_cat.Reducer.Progress.{is_absent}
use agent_cat.Reducer.Recovery.{option_text_eq}
use agent_cat.Reducer.State.{
  cancel_run, steer_occurrence, retry_occurrence, failover_occurrence, abandon_occurrence,
  redirect_occurrence, invalid,
}

ack_state_of : Text → Option AckState
ack_state_of t =
    if is t "accepted"
    then some AckState.accepted
    else if is t "queued"
    then some AckState.queued
    else if is t "delivered"
    then some AckState.delivered
    else if is t "rejected-stale"
    then some AckState.rejected_stale
    else if is t "unsupported"
    then some AckState.unsupported
    else if is t "failed"
    then some AckState.failed
    else none

-- An enumeration's place in its declaration: `===` of two spellings is `==` of their places.
abbrev ack_state_index : AckState → ℕ
ack_state_index AckState.accepted = 0
ack_state_index AckState.queued = 1
ack_state_index AckState.delivered = 2
ack_state_index AckState.rejected_stale = 3
ack_state_index AckState.unsupported = 4
ack_state_index AckState.failed = 5

abbrev command_index : ControlCommand → ℕ
command_index cancel_run = 0
command_index steer_occurrence = 1
command_index retry_occurrence = 2
command_index failover_occurrence = 3
command_index abandon_occurrence = 4
command_index redirect_occurrence = 5
command_index answer_person = 6
command_index invalid = 7

abbrev pub option_command_eq : Option ControlCommand → Option ControlCommand → Bool
option_command_eq none none = true
option_command_eq (some c) (some d) = command_index c == command_index d
option_command_eq _ _ = false

-- `JSON.stringify(prior) === JSON.stringify(nextAck)`: both records list their members in one order.
abbrev pub ack_eq : ControlAck → ControlAck → Bool
ack_eq a b =
    text_eq a.control_id b.control_id
    && ack_state_index a.state == ack_state_index b.state
    && text_eq a.message b.message
    && option_command_eq a.command b.command
    && option_text_eq a.occurrence_id b.occurrence_id
    && option_text_eq a.attempt_id b.attempt_id

-- The state is `accepted` or `queued`: a later acknowledgement follows.
abbrev pub is_provisional : AckState → Bool
is_provisional AckState.accepted = true
is_provisional AckState.queued = true
is_provisional _ = false

abbrev pub same_target : ControlAck → ControlAck → Bool
same_target prior next =
    option_command_eq prior.command next.command
    && option_text_eq prior.occurrence_id next.occurrence_id
    && option_text_eq prior.attempt_id next.attempt_id

abbrev pub is_accepted : Option ControlAck → Bool
is_accepted none = false
is_accepted (some prior) = ack_state_index prior.state == 0

abbrev pub is_answer : Option ControlCommand → Bool
is_answer none = false
is_answer (some c) = command_index c == 6

-- `delivered` or `failed`, the ends of an answer that was accepted.
abbrev pub ends_answer : AckState → Bool
ends_answer AckState.delivered = true
ends_answer AckState.failed = true
ends_answer _ = false

abbrev pub is_delivered : AckState → Bool
is_delivered AckState.delivered = true
is_delivered _ = false

abbrev pub max_controls : ℕ
max_controls = 256

-- The checks against the acknowledgement recorded before.
unfoldable pub check_prior : ℕ → Option ControlAck → ControlAck → Checked (Unit {0})
check_prior recorded none next = refuse (leb max_controls recorded) too_many_controls
check_prior recorded (some prior) next = do
  refuse (not (same_target prior next)) ack_mismatch
  refuse (not (is_provisional prior.state) || is_provisional next.state) bad_ack_transition

-- The occurrences after a person's answer is acknowledged: its wait ends when it is delivered.
unfoldable pub answer_wait : Dict Occurrence → Text → AckState → Checked (Dict Occurrence)
answer_wait occurrences id state = do
  occurrence ← required (get id occurrences) not_waiting_for_person
  refuse (not occurrence.person_pending) not_waiting_for_person
  ok (
      if is_delivered state
      then set id (record occurrence { person_pending = false }) occurrences
      else occurrences)

unfoldable pub acknowledge_answer : Dict Occurrence → ControlAck → Checked (Dict Occurrence)
acknowledge_answer occurrences next = do
  id ← required next.occurrence_id answer_without_occurrence
  refuse (not (is_absent next.attempt_id)) answer_with_attempt
  answer_wait occurrences id next.state

-- An acknowledgement that differs from the one recorded before.
unfoldable pub record_ack : RunSnapshot → Option ControlAck → ControlAck → Checked RunSnapshot
record_ack s prior next = do
  check_prior (length s.control_acks) prior next
  refuse (is_answer next.command && ends_answer next.state && not (is_accepted prior))
      answer_not_accepted
  occurrences ←
      (if is_answer next.command then acknowledge_answer s.occurrences next else ok s.occurrences)
  ok (record s {
    occurrences = occurrences;
    control_acks = set next.control_id next s.control_acks;
  })

unfoldable pub repeats : Option ControlAck → ControlAck → Bool
repeats none next = false
repeats (some prior) next = ack_eq prior next

-- `value !== null && value !== undefined ? read(value) : undefined`.
when_given : {A : Type 0} → (Value → Checked A) → Value → Checked (Option A)
when_given read undefined = ok none
when_given read null = ok none
when_given read v = do a ← read v; ok (some a)

-- The members that only protocol version 2 has.
from_version_2 : {A : Type 0} → ℕ → Checked (Option A) → Checked (Option A)
from_version_2 version read = if version == 2 then read else ok none

unfoldable pub read_ack : Platform → ℕ → Members → Checked ControlAck
unfolding ack_state_of when_given from_version_2
read_ack p version e = do
  control_id ← runtime_control_id p e
  state_text ← text (field "state" e)
  state ← required (ack_state_of state_text) unknown_ack_state
  command ← from_version_2 version (do c ← control_command (field "command" e); ok (some c))
  occurrence ←
      from_version_2 version (when_given (λ v. decimal_text v max_word64) (field "occurrenceId" e))
  attempt ← from_version_2 version (when_given attempt_reference (field "attemptId" e))
  message ← text (field "message" e)
  ok (record {
    control_id = control_id;
    state = state;
    message = message;
    command = command;
    occurrence_id = occurrence;
    attempt_id = attempt;
  })

abbrev pub is_active : RunStatus → Bool
is_active RunStatus.running = true
is_active RunStatus.cancelling = true
is_active _ = false

-- "control.ack".
unfoldable pub acknowledge : Platform → ℕ → Members → RunSnapshot → Checked RunSnapshot
acknowledge p version e s = do
  refuse (not (is_active s.status)) ack_while_not_running
  next ← read_ack p version e
  let prior = get next.control_id s.control_acks
  if repeats prior next then ok s else record_ack s prior next
