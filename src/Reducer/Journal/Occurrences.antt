-- ===== src/Reducer/Journal/Occurrences.antt =====
-- The occurrences of a run along a journal.
use agent_cat.Base.{
  ℕ, ◌≡◌, refl, ap, ◌∙◌, inl, inr, true, false, List, [], ◌∷◌, none, some, Text, text_eq,
  text_eq_iff, arith, Bool-cases, ok, >>=-eq-ok,
}
use agent_cat.Base.Dict.{Dict, get, set, get-set}
use agent_cat.Base.Value.{Members}
use agent_cat.Reducer.State.{Platform, OccurrenceState, Occurrence, RunSnapshot, RuntimeEvent}
use agent_cat.Reducer.Runs.{start_run, order_trace, complete_run, fail_run, cancel_run}
use agent_cat.Reducer.Inversions.{on_occurrence-eq-ok}
use agent_cat.Reducer.Acks.{acknowledge-eq-ok, Waited}
use agent_cat.Reducer.Apply.{
  EventKind, run_started, occurrence_started, trace_ordered, control_ack, run_completed, run_failed,
  run_cancelled, run_change, apply, reduce_event, reduce_all,
}
use agent_cat.Reducer.Accepted.{apply-eq-ok, reduce_event-Accepted}
use agent_cat.Reducer.Events.{occurrence_change-Change}
use agent_cat.Reducer.Lifecycle.{Change, can_step, is_settled, OccurrenceStep, can_step_sound}
use agent_cat.Reducer.Invariant.Runs.{start_occurrence-eq-ok}
use agent_cat.Reducer.Invariant.Controls.{end_wait-Change, can_step_refl}

-- An occurrence is still there, a permitted step on, and a settled answer stands.
pub record Stays (m : Dict Occurrence) (o : Occurrence) (id : Text) : Type 0 where
  pub now : Occurrence
  pub present : get id m ≡ some now
  pub step : can_step o.state now.state ≡ true
  pub answer_kept : is_settled o.state ≡ true → now.answer ≡ o.answer

-- So is every occurrence of the first map in the second.
abbrev pub Evolves : Dict Occurrence → Dict Occurrence → Type 0
Evolves m m' = (id : Text) (o : Occurrence) → get id m ≡ some o → Stays m' o id

Evolves-refl : (m : Dict Occurrence) → Evolves m m
Evolves-refl m id o present = record {
  now = o;
  present = present;
  step = can_step_refl o.state;
  answer_kept = λ _. refl;
}

write-Evolves :
    (m : Dict Occurrence) (k : Text) (o o' : Occurrence)
    → get k m ≡ some o
    → Change o o'
    → Evolves m (set k o' m)
write-Evolves m k o o' present c id x here = elim (Bool-cases (text_eq k id)) [
  | inl hit ↦
      let same : x ≡ o = ground (arith, text_eq_iff k id) in
      record {
        now = o';
        present = rw (get-set, hit);
        step = rw same c.step;
        answer_kept = rw same c.answer_kept;
      }
  | inr miss ↦ record {
    now = x;
    present = rw (get-set, miss) here;
    step = can_step_refl x.state;
    answer_kept = λ _. refl;
  }
]

add-Evolves :
    (m : Dict Occurrence) (k : Text) (o' : Occurrence) → get k m ≡ none → Evolves m (set k o' m)
add-Evolves m k o' missing id x here = elim (Bool-cases (text_eq k id)) [
  | inl hit ↦ absurd (ground (arith, text_eq_iff k id))
  | inr miss ↦ record {
    now = x;
    present = rw (get-set, miss) here;
    step = can_step_refl x.state;
    answer_kept = λ _. refl;
  }
]

Waited-Evolves : (m m' : Dict Occurrence) → Waited m m' → Evolves m m'
Waited-Evolves m m' (inl same) = rw same (Evolves-refl m)
Waited-Evolves m m' (inr (id, o, present, _, same)) =
    rw same (write-Evolves m id o (record o { person_pending = false }) present (end_wait-Change o))

-- The run events other than "occurrence.started" and "control.ack" leave the occurrences alone.
start_run-occurrences :
    (v : ℕ) (e : Members) (s s' : RunSnapshot)
    → start_run v e s ≡ ok s'
    → s'.occurrences ≡ s.occurrences
unfolding start_run
start_run-occurrences v e s s' h = ground arith

order_trace-occurrences :
    (e : Members) (s s' : RunSnapshot) → order_trace e s ≡ ok s' → s'.occurrences ≡ s.occurrences
unfolding order_trace
order_trace-occurrences e s s' h = ground arith

complete_run-occurrences :
    (v : ℕ) (e : Members) (s s' : RunSnapshot)
    → complete_run v e s ≡ ok s'
    → s'.occurrences ≡ s.occurrences
unfolding complete_run
complete_run-occurrences v e s s' h = ground arith

fail_run-occurrences :
    (e : Members) (s s' : RunSnapshot) → fail_run e s ≡ ok s' → s'.occurrences ≡ s.occurrences
unfolding fail_run
fail_run-occurrences e s s' h = ground arith

cancel_run-occurrences :
    (e : Members) (s s' : RunSnapshot) → cancel_run e s ≡ ok s' → s'.occurrences ≡ s.occurrences
unfolding cancel_run
cancel_run-occurrences e s s' h = ground arith

kept-Evolves : (m m' : Dict Occurrence) → m' ≡ m → Evolves m m'
kept-Evolves m m' same = rw same (Evolves-refl m)

run_change-Evolves :
    (p : Platform) (v : ℕ) (e : Members) (s s' : RunSnapshot) (k : EventKind)
    → run_change p v e s k ≡ ok s'
    → Evolves s.occurrences s'.occurrences
unfolding run_change
run_change-Evolves p v e s s' run_started h = kept-Evolves _ _ (start_run-occurrences v e s s' h)
run_change-Evolves p v e s s' occurrence_started h =
    let (id, o, missing, _, _, same) = start_occurrence-eq-ok e s s' h in
    rw same (add-Evolves s.occurrences id o missing)
run_change-Evolves p v e s s' trace_ordered h = kept-Evolves _ _ (order_trace-occurrences e s s' h)
run_change-Evolves p v e s s' control_ack h = elim (acknowledge-eq-ok p v e s s' h) [
  | inl same ↦ kept-Evolves _ _ (ap (λ (t : RunSnapshot). t.occurrences) same)
  | inr (next, r) ↦ Waited-Evolves s.occurrences s'.occurrences r.waited
]
run_change-Evolves p v e s s' run_completed h =
    kept-Evolves _ _ (complete_run-occurrences v e s s' h)
run_change-Evolves p v e s s' run_failed h = kept-Evolves _ _ (fail_run-occurrences e s s' h)
run_change-Evolves p v e s s' run_cancelled h = kept-Evolves _ _ (cancel_run-occurrences e s s' h)
run_change-Evolves p v e s s' _ h = absurd (cc h)

apply-Evolves :
    (p : Platform) (v : ℕ) (k : EventKind) (e : Members) (s s' : RunSnapshot)
    → apply p v k e s ≡ ok s'
    → Evolves s.occurrences s'.occurrences
apply-Evolves p v k e s s' h = elim (apply-eq-ok p v k e s s' h) [
  | inl run ↦ run_change-Evolves p v e s s' k run
  | inr named ↦
      let (id, o, o', present, changed, same) = on_occurrence-eq-ok s s' e _ named in
      rw same (
        write-Evolves s.occurrences id o o' present
          (occurrence_change-Change p v e s o o' k changed))
]

pub reduce_event-Evolves :
    (p : Platform) (s s' : RunSnapshot) (envelope : RuntimeEvent)
    → reduce_event p s envelope ≡ ok s'
    → Evolves s.occurrences s'.occurrences
reduce_event-Evolves p s s' envelope h =
    let a = reduce_event-Accepted p s s' envelope h in
    apply-Evolves p a.version _ envelope.event _ s' a.applied

-- An accepted envelope removes no occurrence, and moves the state of each along the life cycle of an
-- occurrence.
pub reduce_event-OccurrenceStep :
    (p : Platform) (s s' : RunSnapshot) (envelope : RuntimeEvent) (id : Text) (o : Occurrence)
    → reduce_event p s envelope ≡ ok s'
    → get id s.occurrences ≡ some o
    → (o' : Occurrence) × (get id s'.occurrences ≡ some o') × OccurrenceStep o.state o'.state
reduce_event-OccurrenceStep p s s' envelope id o h present =
    let t = reduce_event-Evolves p s s' envelope h id o present in
    (t.now, t.present, can_step_sound o.state t.now.state t.step)

settled_step : (a b : OccurrenceState) → can_step a b ≡ true → is_settled a ≡ true → b ≡ a
settled_step OccurrenceState.running b c h = cc
settled_step OccurrenceState.recovering b c h = cc
settled_step OccurrenceState.reused b c h = cc
settled_step OccurrenceState.completed b c h = ground arith
settled_step OccurrenceState.failed b c h = ground arith
settled_step OccurrenceState.cancelled b c h = ground arith

-- Once an occurrence has completed or failed, no later part of the journal changes its state or its
-- answer.
pub reduce_all-settled :
    (p : Platform) (s s' : RunSnapshot) (journal : List RuntimeEvent) (id : Text) (o : Occurrence)
    → reduce_all p s journal ≡ ok s'
    → get id s.occurrences ≡ some o
    → is_settled o.state ≡ true
    → (o' : Occurrence) × (get id s'.occurrences ≡ some o')
      × (o'.state ≡ o.state)
      × (o'.answer ≡ o.answer)
unfolding reduce_all
reduce_all-settled p s s' [] id o h present settled = (o, ground arith, refl, refl)
reduce_all-settled p s s' (envelope ∷ rest) id o h present settled =
    let (t, first, h₁) = >>=-eq-ok (reduce_event p s envelope) _ h in
    let x = reduce_event-Evolves p s t envelope first id o present in
    let same = settled_step o.state x.now.state x.step settled in
    let (o', found, state, answer) =
      reduce_all-settled p t s' rest id x.now h₁ x.present (rw same settled) in
    (o', found, state ∙ same, answer ∙ x.answer_kept settled)
