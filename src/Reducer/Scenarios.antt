-- ===== src/Reducer/Scenarios.antt =====
-- Journals on which the reducer runs, for the tests and the witnesses.
use agent_cat.Base.{◌&&◌, true, List, [], ◌∷◌, ◌++◌, String, codes, leb, ok, err}
use agent_cat.Base.Int.{pos}
use agent_cat.Base.Value.{Value, Members, int, str, arr, end, item, stop, member}
use agent_cat.Reducer.State.{
  Platform, RunSnapshot, RuntimeEvent, initial_snapshot, RunStatus, Occurrence, OccurrenceState,
  ControlAck, AckState,
}
use agent_cat.Base.{Option, none, some, false}
use agent_cat.Reducer.Apply.{reduce_all, reduce_event}
use agent_cat.Reducer.Fields.{Checked}

-- ASCII text, whose UTF-8 bytes are its code units, and a digest that is the sequence number.
abbrev pub ascii : Platform
ascii = record {
  digest = λ e. e.sequence;
  date_finite = λ t. true;
  is_letter = λ c. leb b'a' c && leb c b'z';
  is_number = λ c. leb b'0' c && leb c b'9';
  to_utf8 = λ t. t;
  of_utf8 = λ bytes. bytes;
}

abbrev pub literal : String → Value
literal s = str (codes s)

abbrev pub event : String → String → Members → RuntimeEvent
event sequence kind ms = record {
  protocol_version = int (pos 1);
  run_id = codes "r";
  sequence = codes sequence;
  timestamp = literal "2026-01-02T03:04:05.6Z";
  event_type = codes kind;
  event = ms;
}

abbrev pub occurrence_zero : Members → Members
occurrence_zero = member "occurrenceId" (literal "0")

abbrev pub attempt_zero : Members → Members
attempt_zero ms = occurrence_zero (member "attempt" (literal "0") ms)

abbrev pub first_envelope : RuntimeEvent
first_envelope =
    event "0" "run.started" (member "workflow" (literal "w") (member "target" (literal "t") stop))

abbrev pub after_first : List RuntimeEvent
after_first =
    event "1" "occurrence.started" (
      occurrence_zero (
        member "code" (literal "text") (
          member "intent" (literal "consult")
            (member "addressee" (literal "model a") (member "prompt" (literal "p") stop)))))
    ∷ event "2" "attempt.started" (attempt_zero (member "target" (literal "t") stop))
    ∷ event "3" "attempt.output" (attempt_zero (member "chunk" (literal "hi") stop))
    ∷ []

abbrev pub started : List RuntimeEvent
started = first_envelope ∷ after_first

abbrev pub ordering : RuntimeEvent
ordering = event "6" "trace.ordered" (member "occurrenceIds" (arr (item (literal "0") end)) stop)

abbrev pub completing : RuntimeEvent
completing =
    event "7" "run.completed"
      (member "billFresh" (literal "1") (member "billMemo" (literal "0") stop))

-- The journal after the occurrence has completed.
abbrev pub closing : List RuntimeEvent
closing = ordering ∷ completing ∷ []

abbrev pub answering : List RuntimeEvent
answering =
    event "4" "attempt.completed" (attempt_zero stop)
    ∷ event "5" "occurrence.completed"
        (occurrence_zero (member "source" (literal "fresh") (member "answer" (literal "hi") stop)))
    ∷ []

abbrev pub finished : List RuntimeEvent
finished = answering ++ closing

abbrev pub fresh : RunSnapshot
fresh = initial_snapshot (codes "r")

abbrev pub or_fresh : Checked RunSnapshot → RunSnapshot
or_fresh (ok s) = s
or_fresh (err e) = fresh

abbrev pub begun : RunSnapshot
begun = or_fresh (reduce_event ascii fresh first_envelope)

abbrev pub midway : RunSnapshot
midway = or_fresh (reduce_all ascii fresh started)

abbrev pub ended : RunSnapshot
ended = or_fresh (reduce_all ascii midway finished)

abbrev pub answered : RunSnapshot
answered = or_fresh (reduce_all ascii midway answering)

abbrev pub ordered : RunSnapshot
ordered = or_fresh (reduce_event ascii answered ordering)

abbrev pub ack : String → String → String → RuntimeEvent
ack sequence id state = event sequence "control.ack" (
    member "controlId" (literal id)
      (member "state" (literal state) (member "message" (literal "m") stop)))

abbrev pub final_acks : List RuntimeEvent
final_acks = ack "4" "c" "accepted" ∷ ack "5" "c" "failed" ∷ []

abbrev pub acknowledged : RunSnapshot
acknowledged = or_fresh (reduce_all ascii midway final_acks)

abbrev pub later_acks : List RuntimeEvent
later_acks = ack "6" "d" "queued" ∷ []

abbrev pub ack_later : RunSnapshot
ack_later = or_fresh (reduce_all ascii acknowledged later_acks)

abbrev pub being_cancelled : RunSnapshot
being_cancelled = record fresh { status = RunStatus.cancelling }

abbrev pub failing : List RuntimeEvent
failing =
    first_envelope
    ∷ event "1" "run.failed"
        (member "message" (literal "m") (member "failure" (literal "setup") stop))
    ∷ []

abbrev pub failed_run : RunSnapshot
failed_run = or_fresh (reduce_all ascii being_cancelled failing)

abbrev blank_occurrence : Occurrence
blank_occurrence = record {
  id = [];
  state = OccurrenceState.running;
  code = none;
  intent = none;
  addressee = none;
  prompt = none;
  answer = none;
  dispatch = none;
  recovery = none;
  reuse_kind = none;
  source = none;
  failure_class = none;
  replayable = true;
  person_question = none;
  person_pending = false;
  attempts = [];
}

-- An entry of a map, where there is one.
abbrev pub occurrence_of : Option Occurrence → Occurrence
occurrence_of none = blank_occurrence
occurrence_of (some o) = o

abbrev blank_ack : ControlAck
blank_ack = record {
  control_id = [];
  state = AckState.queued;
  message = [];
  command = none;
  occurrence_id = none;
  attempt_id = none;
}

abbrev pub ack_of : Option ControlAck → ControlAck
ack_of none = blank_ack
ack_of (some a) = a
