-- ===== src/Reducer/Recovery.antt =====
-- The recovery events of `apply` in ext-pi/src/reducer.ts: the offered choices, the choice and the
-- retry.
use agent_cat.Base.{
  ℕ, Bool, true, false, not, ◌&&◌, List, [], ◌∷◌, ◌++◌, Option, none, some, Text, is, text_eq, any,
  length, ltb, leb, if◌then◌else◌, ok, err, ◌>>=◌, ◌>>◌, refuse, required,
}
use agent_cat.Base.Value.{Value, Members, str, field}
use agent_cat.Reducer.State.{
  Refusal, Platform, OccurrenceState, RecoveryChoice, retry, failover, abandon, Offer, Chosen,
  Recovery, Occurrence,
}
use agent_cat.Reducer.State.{
  not_waiting_for_choice, choice_already_made, choice_not_offered, cannot_recover, choices_missing,
  too_many_choices, bad_choice, unknown_choice, target_without_failover, duplicate_choices,
  not_waiting_for_retry, too_many_retries,
}
use agent_cat.Reducer.Fields.{Checked, text, members, runtime_control_id}
use agent_cat.Reducer.Progress.{is_absent, array}
use agent_cat.Reducer.Attempts.{is_state_running}
use agent_cat.Reducer.Lists.{is_none_left, max_options}

pub choice_of : Text → Option RecoveryChoice
choice_of t =
    if is t "retry"
    then some retry
    else if is t "failover"
    then some failover
    else if is t "abandon"
    then some abandon
    else none

-- `typeof value === "string" ? value : undefined`.
abbrev optional_text : Value → Option Text
optional_text (str t) = some t
optional_text _ = none

abbrev is_failover : RecoveryChoice → Bool
is_failover failover = true
is_failover _ = false

abbrev pub choice_eq : RecoveryChoice → RecoveryChoice → Bool
choice_eq retry retry = true
choice_eq failover failover = true
choice_eq abandon abandon = true
choice_eq _ _ = false

abbrev pub option_text_eq : Option Text → Option Text → Bool
option_text_eq none none = true
option_text_eq (some s) (some t) = text_eq s t
option_text_eq _ _ = false

unfoldable pub offer_of : Value → Checked Offer
unfolding choice_of
offer_of candidate = do
  ms ← members candidate bad_choice
  choice_text ← text (field "choice" ms)
  choice ← required (choice_of choice_text) unknown_choice
  refuse (not (is_failover choice) && not (is_absent (optional_text (field "target" ms))))
      target_without_failover
  ok (record { choice = choice; target = optional_text (field "target" ms) })

unfoldable pub offers_of : List Value → Checked (List Offer)
offers_of [] = ok []
offers_of (v ∷ vs) = do o ← offer_of v; rest ← offers_of vs; ok (o ∷ rest)

-- `new Set(choices.map((choice) => choice.choice)).size === choices.length`.
abbrev pub distinct_choices : List Offer → Bool
distinct_choices [] = true
distinct_choices (o ∷ os) =
    not (any (λ (r : Offer). choice_eq r.choice o.choice) os) && distinct_choices os

-- "occurrence.recovery-pending".
unfoldable pub await_recovery : Members → Occurrence → Checked Occurrence
await_recovery e occurrence = do
  refuse (not (is_state_running occurrence.state)) cannot_recover
  candidates ← array (field "choices" e) choices_missing
  refuse (is_none_left candidates) choices_missing
  refuse (ltb max_options (length candidates)) too_many_choices
  choices ← offers_of candidates
  refuse (not (distinct_choices choices)) duplicate_choices
  gap ← text (field "gap" e)
  message ← text (field "message" e)
  let recovery : Recovery = record {
    gap = gap;
    message = message;
    retries = [];
    choices = choices;
    chosen = none;
  }
  ok (record occurrence { state = OccurrenceState.recovering; recovery = some recovery })

abbrev is_recovering : OccurrenceState → Bool
is_recovering OccurrenceState.recovering = true
is_recovering _ = false

-- The recovery of an occurrence that waits in it, or the refusal.
abbrev pub open_recovery : Occurrence → Refusal → Checked Recovery
open_recovery occurrence e =
    if is_recovering occurrence.state then required occurrence.recovery e else err e

is_offered : Option RecoveryChoice → Option Text → Offer → Bool
is_offered none target offer = false
is_offered (some choice) target offer =
    choice_eq offer.choice choice && option_text_eq offer.target target

-- "occurrence.recovery-chosen".
unfoldable pub choose_recovery : Platform → Members → Occurrence → Checked Occurrence
unfolding choice_of is_offered
choose_recovery p e occurrence = do
  recovery ← open_recovery occurrence not_waiting_for_choice
  refuse (not (is_absent recovery.chosen)) choice_already_made
  choice_text ← text (field "choice" e)
  let target = optional_text (field "target" e)
  refuse (not (any (is_offered (choice_of choice_text) target) recovery.choices)) choice_not_offered
  choice ← required (choice_of choice_text) choice_not_offered
  control_id ← runtime_control_id p e
  let chosen : Chosen = record { control_id = control_id; choice = choice; target = target }
  ok (record occurrence { recovery = some (record recovery { chosen = some chosen }) })

abbrev is_abandon : RecoveryChoice → Bool
is_abandon abandon = true
is_abandon _ = false

-- `!chosen || chosen.choice === "abandon"`.
abbrev cannot_retry : Option Chosen → Bool
cannot_retry none = true
cannot_retry (some chosen) = is_abandon chosen.choice

abbrev pub max_history : ℕ
max_history = 64

-- "occurrence.retried".
unfoldable pub retry_occurrence : Platform → Members → Occurrence → Checked Occurrence
retry_occurrence p e occurrence = do
  recovery ← open_recovery occurrence not_waiting_for_retry
  refuse (cannot_retry recovery.chosen) not_waiting_for_retry
  refuse (leb max_history (length recovery.retries)) too_many_retries
  control_id ← runtime_control_id p e
  ok (record occurrence {
    state = OccurrenceState.running;
    recovery = some (record recovery { retries = recovery.retries ++ control_id ∷ [] });
  })
