-- ===== src/Reducer/Occurrences.antt =====
-- The events of `apply` in ext-pi/src/reducer.ts that start, reuse, complete and fail an occurrence,
-- or let it wait for a person, each a function on the occurrence that the event names.
use agent_cat.Base.{
  Bool, true, false, not, ◌||◌, [], Option, none, some, Text, codes, starts_with, any, ok, ◌>>=◌,
  ◌>>◌, refuse,
}
use agent_cat.Base.Dict.{Dict, values}
use agent_cat.Base.Value.{Members, field}
use agent_cat.Reducer.State.{Attempt, OccurrenceState, Occurrence}
use agent_cat.Reducer.State.{
  cannot_reuse, cannot_wait_for_person, cannot_complete, completed_while_waiting,
  completed_while_active, failed_after_terminal, failed_while_active,
}
use agent_cat.Reducer.Fields.{Checked, text, runtime_failure_class, question_ref}
use agent_cat.Reducer.Progress.{is_absent}
use agent_cat.Reducer.Attempts.{is_running, is_state_running, close_dispatch}
use agent_cat.Reducer.Lists.{is_none_left}

abbrev pub has_running : Dict Attempt → Bool
has_running attempts = any (λ a. is_running a.state) (values attempts)

-- "occurrence.started": the occurrence that it adds.
unfoldable pub new_occurrence : Text → Members → Checked Occurrence
new_occurrence id e = do
  code ← text (field "code" e)
  intent ← text (field "intent" e)
  addressee ← text (field "addressee" e)
  prompt ← text (field "prompt" e)
  ok (record {
    id = id;
    state = OccurrenceState.running;
    code = some code;
    intent = some intent;
    addressee = some addressee;
    prompt = some prompt;
    answer = none;
    dispatch = none;
    recovery = none;
    reuse_kind = none;
    source = none;
    failure_class = none;
    replayable = true;
    person_question = none;
    person_pending = false;
    attempts = [];
  })

-- "occurrence.reused".
unfoldable pub reuse : Members → Occurrence → Checked Occurrence
reuse e occurrence = do
  refuse
      (not (is_state_running occurrence.state)
        || not (is_none_left occurrence.attempts)
        || occurrence.person_pending)
      cannot_reuse
  group ← text (field "answerGroup" e)
  ok (record occurrence {
    state = OccurrenceState.reused;
    reuse_kind = some group;
    dispatch = close_dispatch occurrence.dispatch;
  })

-- `occurrence.addressee?.startsWith("person ")`.
abbrev is_person : Option Text → Bool
is_person none = false
is_person (some addressee) = starts_with addressee (codes "person ")

-- "occurrence.person-answer-pending".
unfoldable pub await_person : Members → Occurrence → Checked Occurrence
await_person e occurrence = do
  refuse
      (not (is_state_running occurrence.state)
        || not (is_person occurrence.addressee)
        || not (is_none_left occurrence.attempts)
        || occurrence.person_pending
        || not (is_absent occurrence.person_question))
      cannot_wait_for_person
  question ← question_ref (field "question" e)
  ok (record occurrence { person_question = some question; person_pending = true })

abbrev pub is_answerable : OccurrenceState → Bool
is_answerable OccurrenceState.running = true
is_answerable OccurrenceState.reused = true
is_answerable _ = false

abbrev completed_state : OccurrenceState → OccurrenceState
completed_state OccurrenceState.reused = OccurrenceState.reused
completed_state _ = OccurrenceState.completed

-- "occurrence.completed".
unfoldable pub complete : Members → Occurrence → Checked Occurrence
complete e occurrence = do
  refuse (not (is_answerable occurrence.state)) cannot_complete
  refuse occurrence.person_pending completed_while_waiting
  refuse (has_running occurrence.attempts) completed_while_active
  source ← text (field "source" e)
  answer ← text (field "answer" e)
  ok (record occurrence {
    state = completed_state occurrence.state;
    source = some source;
    answer = some answer;
  })

abbrev pub is_closed : OccurrenceState → Bool
is_closed OccurrenceState.running = false
is_closed OccurrenceState.recovering = false
is_closed _ = true

-- "occurrence.failed".
unfoldable pub fail : Members → Occurrence → Checked Occurrence
fail e occurrence = do
  refuse (is_closed occurrence.state) failed_after_terminal
  refuse (has_running occurrence.attempts) failed_while_active
  message ← text (field "message" e)
  failure_class ← runtime_failure_class (field "failure" e)
  ok (record occurrence {
    state = OccurrenceState.failed;
    answer = some message;
    failure_class = some failure_class;
  })
