-- ===== src/Reducer/Invariant/Runs.antt =====
-- Well-formedness under the run events.
use agent_cat.Base.{
  ℕ, ◌<◌, ◌≡◌, ap, true, false, not, List, [], ◌∷◌, none, Text, distinct, any, length, sum_by, All,
  leb, arith, ok, refuse, >>=-eq-ok,
}
use agent_cat.Base.Dict.{Dict, get, set, values, sum-set_absent, length-set_absent, Each-set}
use agent_cat.Base.Value.{Members, field}
use agent_cat.Reducer.State.{Attempt, Occurrence, RunSnapshot}
use agent_cat.Reducer.State.{
  occurrence_before_run, duplicate_occurrence, too_many_occurrences, trace_twice, bad_trace,
}
use agent_cat.Reducer.Fields.{occurrence_id}
use agent_cat.Reducer.Progress.{is_absent, array}
use agent_cat.Reducer.Lists.{texts_of}
use agent_cat.Reducer.Occurrences.{new_occurrence, has_running}
use agent_cat.Reducer.Runs.{
  steers_of, start_run, start_occurrence, order_trace, complete_run, fail_run, cancel_run,
  is_run_running, max_occurrences,
}
use agent_cat.Reducer.Envelope.{is_terminal}
use agent_cat.Reducer.Lifecycle.{IsQuiet}
use agent_cat.Reducer.Bounds.{SnapshotBounds, OccurrenceBounds}
use agent_cat.Reducer.Bounds.Occurrences.{new_occurrence-OccurrenceBounds}
use agent_cat.Reducer.Invariant.Occurrences.{not_succeeded}
use agent_cat.Reducer.Invariant.{IsValid, IsKnown, set-IsOrdered}

pub start_run-IsValid :
    (version : ℕ) (e : Members) (s s' : RunSnapshot)
    → is_terminal s.status ≡ false
    → IsValid s
    → start_run version e s ≡ ok s'
    → IsValid s'
unfolding start_run
start_run-IsValid version e s s' live v h = ground arith

pub fail_run-IsValid :
    (e : Members) (s s' : RunSnapshot) → IsValid s → fail_run e s ≡ ok s' → IsValid s'
unfolding fail_run
fail_run-IsValid e s s' v h = ground arith

pub cancel_run-IsValid :
    (e : Members) (s s' : RunSnapshot) → IsValid s → cancel_run e s ≡ ok s' → IsValid s'
unfolding cancel_run
cancel_run-IsValid e s s' v h = ground arith

pub complete_run-IsValid :
    (version : ℕ) (e : Members) (s s' : RunSnapshot)
    → IsValid s
    → complete_run version e s ≡ ok s'
    → IsValid s'
unfolding complete_run
complete_run-IsValid version e s s' v h = ground arith

IsKnown-of_none_absent :
    (m : Dict Occurrence) (ids : List Text)
    → any (λ id. is_absent (get id m)) ids ≡ false
    → All (IsKnown m) ids
IsKnown-of_none_absent m [] h = tt
IsKnown-of_none_absent m (id ∷ ids) h = (ground arith, IsKnown-of_none_absent m ids (ground arith))

-- The facts behind an accepted "trace.ordered".
pub order_trace-eq-ok :
    (e : Members) (s s' : RunSnapshot)
    → order_trace e s ≡ ok s'
    → (ids : List Text) × (distinct ids ≡ true)
      × (any (λ id. is_absent (get id s.occurrences)) ids ≡ false)
      × (s' ≡ record s { authored_order = ids; trace_recorded = true })
unfolding order_trace
order_trace-eq-ok e s s' h =
    let (u, _, h₁) = >>=-eq-ok (refuse s.trace_recorded trace_twice) _ h in
    let (listed, _, h₂) = >>=-eq-ok (array (field "occurrenceIds" e) bad_trace) _ h₁ in
    let (ids, _, h₃) = >>=-eq-ok (texts_of listed bad_trace) _ h₂ in
    (ids, ground arith, ground arith, ground arith)

pub order_trace-IsValid :
    (e : Members) (s s' : RunSnapshot)
    → is_terminal s.status ≡ false
    → IsValid s
    → order_trace e s ≡ ok s'
    → IsValid s'
order_trace-IsValid e s s' live v h =
    let (ids, once, none_absent, same) = order_trace-eq-ok e s s' h in
    rw same (record {
      bounds = ground arith;
      ids = v.ids;
      quiet = v.quiet;
      ordered =
          λ _. record { once = once; known = IsKnown-of_none_absent s.occurrences ids none_absent };
      success = λ h. absurd (not_succeeded s live h);
    })

-- The facts behind an accepted "occurrence.started".
pub start_occurrence-eq-ok :
    (e : Members) (s s' : RunSnapshot)
    → start_occurrence e s ≡ ok s'
    → (id : Text) × (o : Occurrence) × (get id s.occurrences ≡ none)
      × (length s.occurrences < max_occurrences)
      × (new_occurrence id e ≡ ok o)
      × (s' ≡ record s { occurrences = set id o s.occurrences })
unfolding start_occurrence
start_occurrence-eq-ok e s s' h =
    let (id, _, h₁) = >>=-eq-ok (occurrence_id e) _ h in
    let (u, _, h₂) =
      >>=-eq-ok (refuse (not (is_run_running s.status)) occurrence_before_run) _ h₁ in
    let (v, fresh, h₃) =
      >>=-eq-ok (refuse (not (is_absent (get id s.occurrences))) duplicate_occurrence) _ h₂ in
    let (w, below, h₄) =
      >>=-eq-ok (refuse (leb max_occurrences (length s.occurrences)) too_many_occurrences) _ h₃ in
    let (o, made, h₅) = >>=-eq-ok (new_occurrence id e) _ h₄ in
    (id, o, ground arith, ground arith, made, cc)

-- A new occurrence has no attempt and the identifier that it is stored under.
new_occurrence-eq-ok :
    (id : Text) (e : Members) (o : Occurrence)
    → new_occurrence id e ≡ ok o
    → (o.id ≡ id) × (o.attempts ≡ [])
unfolding new_occurrence
new_occurrence-eq-ok id e o h = ground arith

add-SnapshotBounds :
    (s : RunSnapshot) (id : Text) (o : Occurrence)
    → get id s.occurrences ≡ none
    → length s.occurrences < max_occurrences
    → o.attempts ≡ []
    → OccurrenceBounds o
    → SnapshotBounds s
    → SnapshotBounds (record s { occurrences = set id o s.occurrences })
add-SnapshotBounds s id o missing below empty within b =
    let attempts =
      sum-set_absent (λ (x : Occurrence). length x.attempts) id o s.occurrences missing in
    let steers = sum-set_absent steers_of id o s.occurrences missing in
    let size = length-set_absent id o s.occurrences missing in
    record {
      occurrences = omega arith;
      attempts = omega (arith, ap length empty);
      steers =
          omega (arith, ap (λ (m : Dict Attempt). sum_by (λ a. length a.steers) (values m)) empty);
      controls = b.controls;
      each = Each-set (λ k x. OccurrenceBounds x) id o s.occurrences b.each within;
    }

pub start_occurrence-IsValid :
    (e : Members) (s s' : RunSnapshot)
    → is_terminal s.status ≡ false
    → IsValid s
    → start_occurrence e s ≡ ok s'
    → IsValid s'
start_occurrence-IsValid e s s' live v h =
    let (id, o, missing, below, made, same) = start_occurrence-eq-ok e s s' h in
    let (named, empty) = new_occurrence-eq-ok id e o made in
    rw same (record {
      bounds =
          add-SnapshotBounds s id o missing below empty
            (new_occurrence-OccurrenceBounds id e o made) v.bounds;
      ids = Each-set (λ k x. x.id ≡ k) id o s.occurrences v.ids named;
      quiet =
          Each-set (λ k x. IsQuiet x) id o s.occurrences v.quiet
            (λ _. ap (λ (m : Dict Attempt). has_running m) empty);
      ordered = λ h. set-IsOrdered s id o (v.ordered h);
      success = λ h. absurd (not_succeeded s live h);
    })
