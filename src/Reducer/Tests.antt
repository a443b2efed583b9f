-- ===== src/Reducer/Tests.antt =====
-- Runs of the reducer on concrete journals, and the witnesses of its theorems.
use agent_cat.Base.{
  ◌+◌, ◌≡◌, refl, ◌≢◌, true, false, ◌++◌, some, Text, codes, ok, text_eq, is_decimal, digits_value,
  code_points, strip_prefix,
}
use agent_cat.Base.Dict.{get, set}
use agent_cat.Base.Value.{field}
use agent_cat.Reducer.State.{RunSnapshot, RunStatus, Occurrence, ControlAck, initial_snapshot}
use agent_cat.Reducer.Fields.{
  text, members, natural_text, decimal_text, occurrence_id, attempt_id, tail, runtime_control_id,
  runtime_failure_class,
}
use agent_cat.Reducer.Controls.{
  acknowledge, record_ack, read_ack, check_prior, acknowledge_answer, answer_wait, repeats,
  is_provisional,
}
use agent_cat.Reducer.Attempts.{on_attempt, append_output, complete_attempt, start_attempt}
use agent_cat.Reducer.Occurrences.{new_occurrence, complete}
use agent_cat.Reducer.Lists.{texts_of}
use agent_cat.Reducer.Runs.{start_run, start_occurrence, order_trace, complete_run, fail_run}
use agent_cat.Reducer.Envelope.{admit, version_of, is_timestamp, check_duplicate}
use agent_cat.Reducer.Apply.{
  event_kind, available, on_occurrence, run_change, occurrence_change, apply, reduce_event,
  reduce_all,
}
use agent_cat.Reducer.Scenarios.{
  ascii, fresh, first_envelope, after_first, started, finished, begun, midway, ended, closing,
  answering, answered, final_acks, acknowledged, later_acks, ack_later, being_cancelled, failing,
  failed_run, occurrence_of, ack_of,
}
use agent_cat.Reducer.Envelope.{expected_sequence}
use agent_cat.Reducer.Lifecycle.{OccurrenceStep, is_settled}
use agent_cat.Reducer.Scenarios.{or_fresh, ack, ordered, completing}
use agent_cat.Reducer.Invariant.{IsValid, initial_snapshot-IsValid}
use agent_cat.Reducer.Invariant.Journal.{reduce_all-IsValid}
use agent_cat.Reducer.Journal.Sequence.{
  Numbered, reduce_all-Numbered, reduce_event-last, reduce_event_once, reduce_all-cancelling,
}
use agent_cat.Reducer.Journal.Occurrences.{reduce_event-OccurrenceStep, reduce_all-settled}
use agent_cat.Reducer.Journal.Acks.{AcksEvolve, reduce_event-AcksEvolve, reduce_all-final_ack}
use agent_cat.Reducer.Journal.Success.{Complete, reduce_all-Complete}

reducer : Unit {0}
unfolding reduce_all reduce_event admit version_of is_timestamp check_duplicate apply event_kind
    available run_change occurrence_change on_occurrence on_attempt append_output complete_attempt
    start_attempt new_occurrence complete texts_of start_run start_occurrence order_trace
    complete_run acknowledge record_ack read_ack check_prior acknowledge_answer answer_wait repeats
    runtime_control_id runtime_failure_class fail_run text members natural_text decimal_text
    occurrence_id attempt_id tail get set field text_eq is_decimal digits_value code_points
    strip_prefix initial_snapshot
reducer = tt

reduce_started : reduce_all ascii fresh started ≡ ok midway
unfolding reducer
reduce_started = refl

reduce_finished : reduce_all ascii midway finished ≡ ok ended
unfolding reducer
reduce_finished = refl

ended_succeeded : ended.status ≡ RunStatus.succeeded
unfolding reducer
ended_succeeded = refl

initial-IsValid : IsValid fresh
initial-IsValid = initial_snapshot-IsValid (codes "r")

midway-IsValid : IsValid midway
midway-IsValid = reduce_all-IsValid ascii fresh midway started initial-IsValid reduce_started

reduce_all-IsValid_example : IsValid midway
reduce_all-IsValid_example =
    reduce_all-IsValid ascii fresh midway started (initial_snapshot-IsValid (codes "r"))
      reduce_started

reduce_all-Numbered_example :
    Numbered 0 started
    × (expected_sequence midway.last_sequence ≡ 0 + 4)
    × (midway.run_id ≡ codes "r")
unfolding reducer
reduce_all-Numbered_example = reduce_all-Numbered ascii fresh midway started reduce_started

whole : reduce_all ascii fresh (started ++ finished) ≡ ok ended
unfolding reducer
whole = refl

reduce_all-Complete_example : Complete ended
reduce_all-Complete_example =
    reduce_all-Complete ascii (codes "r") ended (started ++ finished) whole ended_succeeded

-- The first envelope, read again after the whole journal.
first_event : reduce_event ascii fresh first_envelope ≡ ok begun
unfolding reducer
first_event = refl

rest_of_started : reduce_all ascii begun after_first ≡ ok midway
unfolding reducer
rest_of_started = refl

reduce_event_once_example : reduce_event ascii midway first_envelope ≢ ok fresh
reduce_event_once_example =
    reduce_event_once ascii fresh begun midway fresh first_envelope after_first first_event
      rest_of_started

completed_run : reduce_event ascii ordered completing ≡ ok ended
unfolding reducer
completed_run = refl

reduce_event-last_example : reduce_event ascii ended first_envelope ≢ ok fresh
unfolding event_kind text_eq
reduce_event-last_example =
    reduce_event-last ascii ordered ended fresh completing first_envelope tt completed_run

reduce_answering : reduce_all ascii midway answering ≡ ok answered
unfolding reducer
reduce_answering = refl

reduce_closing : reduce_all ascii answered closing ≡ ok ended
unfolding reducer
reduce_closing = refl

abbrev zero_id : Text
zero_id = codes "0"

abbrev completed_zero : Occurrence
completed_zero = occurrence_of (get zero_id answered.occurrences)

zero_present : get zero_id answered.occurrences ≡ some completed_zero
unfolding reducer
zero_present = refl

zero_settled : is_settled completed_zero.state ≡ true
unfolding reducer
zero_settled = refl

reduce_all-settled_example :
    (o' : Occurrence) × (get zero_id ended.occurrences ≡ some o')
    × (o'.state ≡ completed_zero.state)
    × (o'.answer ≡ completed_zero.answer)
reduce_all-settled_example =
    reduce_all-settled ascii answered ended closing zero_id completed_zero reduce_closing
      zero_present zero_settled

abbrev running_zero : Occurrence
running_zero = occurrence_of (get zero_id midway.occurrences)

midway_zero : get zero_id midway.occurrences ≡ some running_zero
unfolding reducer
midway_zero = refl

abbrev acked_once : RunSnapshot
acked_once = or_fresh (reduce_event ascii midway (ack "4" "c" "accepted"))

ack_event : reduce_event ascii midway (ack "4" "c" "accepted") ≡ ok acked_once
unfolding reducer
ack_event = refl

reduce_event-OccurrenceStep_example :
    (o' : Occurrence) × (get zero_id acked_once.occurrences ≡ some o')
    × OccurrenceStep running_zero.state o'.state
reduce_event-OccurrenceStep_example =
    reduce_event-OccurrenceStep ascii midway acked_once (ack "4" "c" "accepted") zero_id
      running_zero ack_event midway_zero

reduce_event-AcksEvolve_example : AcksEvolve midway.control_acks acked_once.control_acks
reduce_event-AcksEvolve_example =
    reduce_event-AcksEvolve ascii midway acked_once (ack "4" "c" "accepted") ack_event

reduce_acks : reduce_all ascii midway final_acks ≡ ok acknowledged
unfolding reducer
reduce_acks = refl

reduce_later : reduce_all ascii acknowledged later_acks ≡ ok ack_later
unfolding reducer
reduce_later = refl

abbrev final_c : ControlAck
final_c = ack_of (get (codes "c") acknowledged.control_acks)

final_c_present : get (codes "c") acknowledged.control_acks ≡ some final_c
unfolding reducer
final_c_present = refl

final_c_final : is_provisional final_c.state ≡ false
unfolding reducer
final_c_final = refl

reduce_all-final_ack_example : get (codes "c") ack_later.control_acks ≡ some final_c
reduce_all-final_ack_example =
    reduce_all-final_ack ascii acknowledged ack_later later_acks (codes "c") final_c reduce_later
      final_c_present final_c_final

reduce_failing : reduce_all ascii being_cancelled failing ≡ ok failed_run
unfolding reducer
reduce_failing = refl

reduce_all-cancelling_example : failed_run.status ≢ RunStatus.succeeded
reduce_all-cancelling_example =
    reduce_all-cancelling ascii being_cancelled failed_run failing reduce_failing refl
