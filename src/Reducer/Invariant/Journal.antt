-- ===== src/Reducer/Invariant/Journal.antt =====
-- Well-formedness under a whole journal.
use agent_cat.Base.{ℕ, ◌≡◌, inl, inr, false, List, [], ◌∷◌, big_int, arith, ok, >>=-eq-ok}
use agent_cat.Base.Value.{Members}
use agent_cat.Reducer.State.{Platform, RunSnapshot, RuntimeEvent}
use agent_cat.Reducer.Apply.{
  EventKind, run_started, occurrence_started, trace_ordered, control_ack, run_completed, run_failed,
  run_cancelled, event_kind, run_change, apply, reduce_event, reduce_all,
}
use agent_cat.Reducer.Envelope.{is_terminal, stamped}
use agent_cat.Reducer.Accepted.{apply-eq-ok, reduce_event-Accepted}
use agent_cat.Reducer.Invariant.{IsValid}
use agent_cat.Reducer.Invariant.Occurrences.{on_occurrence-IsValid}
use agent_cat.Reducer.Invariant.Runs.{
  start_run-IsValid, start_occurrence-IsValid, order_trace-IsValid, complete_run-IsValid,
  fail_run-IsValid, cancel_run-IsValid,
}
use agent_cat.Reducer.Invariant.Controls.{acknowledge-IsValid}

run_change-IsValid :
    (p : Platform) (version : ℕ) (e : Members) (s s' : RunSnapshot) (k : EventKind)
    → is_terminal s.status ≡ false
    → IsValid s
    → run_change p version e s k ≡ ok s'
    → IsValid s'
unfolding run_change
run_change-IsValid p version e s s' run_started live v h = start_run-IsValid version e s s' live v h
run_change-IsValid p version e s s' occurrence_started live v h =
    start_occurrence-IsValid e s s' live v h
run_change-IsValid p version e s s' trace_ordered live v h = order_trace-IsValid e s s' live v h
run_change-IsValid p version e s s' control_ack live v h =
    acknowledge-IsValid p version e s s' live v h
run_change-IsValid p version e s s' run_completed live v h = complete_run-IsValid version e s s' v h
run_change-IsValid p version e s s' run_failed live v h = fail_run-IsValid e s s' v h
run_change-IsValid p version e s s' run_cancelled live v h = cancel_run-IsValid e s s' v h
run_change-IsValid p version e s s' _ live v h = absurd (cc h)

apply-IsValid :
    (p : Platform) (version : ℕ) (k : EventKind) (e : Members) (s s' : RunSnapshot)
    → is_terminal s.status ≡ false
    → IsValid s
    → apply p version k e s ≡ ok s'
    → IsValid s'
apply-IsValid p version k e s s' live v h = elim (apply-eq-ok p version k e s s' h) [
  | inl run ↦ run_change-IsValid p version e s s' k live v run
  | inr named ↦ on_occurrence-IsValid p version e s s' k live v named
]

-- A stamped copy differs from the current snapshot in the envelope's own fields.
stamped-IsValid :
    (p : Platform) (s : RunSnapshot) (envelope : RuntimeEvent) (version sequence : ℕ)
    → IsValid s
    → IsValid (stamped p s envelope version sequence)
stamped-IsValid p s envelope version sequence v = ground arith

-- Every accepted envelope takes a well-formed snapshot to a well-formed one.
pub reduce_event-IsValid :
    (p : Platform) (s s' : RunSnapshot) (envelope : RuntimeEvent)
    → IsValid s
    → reduce_event p s envelope ≡ ok s'
    → IsValid s'
reduce_event-IsValid p s s' envelope v h =
    let a = reduce_event-Accepted p s s' envelope h in
    apply-IsValid p a.version (event_kind envelope.event_type) envelope.event _ s' a.live
      (stamped-IsValid p s envelope a.version (big_int envelope.sequence) v) a.applied

-- Every journal that the reducer accepts from a well-formed snapshot leaves a well-formed snapshot.
pub reduce_all-IsValid :
    (p : Platform) (s s' : RunSnapshot) (journal : List RuntimeEvent)
    → IsValid s
    → reduce_all p s journal ≡ ok s'
    → IsValid s'
unfolding reduce_all
reduce_all-IsValid p s s' [] v h = ground arith
reduce_all-IsValid p s s' (envelope ∷ rest) v h =
    let (t, first, h₁) = >>=-eq-ok (reduce_event p s envelope) _ h in
    reduce_all-IsValid p t s' rest (reduce_event-IsValid p s t envelope v first) h₁
