-- ===== src/Reducer/Journal/Acks.antt =====
-- The control acknowledgements of a run along a journal.
use agent_cat.Base.{
  ℕ, ◌≡◌, refl, sym, ap, subst, ◌∙◌, ◌⊎◌, inl, inr, true, false, List, [], ◌∷◌, some, Text, text_eq,
  text_eq_sound, length, arith, Bool-cases, ok, >>=-eq-ok,
}
use agent_cat.Base.Dict.{Dict, get, set, get-set}
use agent_cat.Base.Value.{Members}
use agent_cat.Reducer.State.{Platform, ControlAck, RunSnapshot, RuntimeEvent}
use agent_cat.Reducer.Runs.{
  start_run, start_occurrence, order_trace, complete_run, fail_run, cancel_run,
}
use agent_cat.Reducer.Controls.{is_provisional, same_target}
use agent_cat.Reducer.Inversions.{on_occurrence-eq-ok}
use agent_cat.Reducer.Acks.{acknowledge-eq-ok, Follows}
use agent_cat.Reducer.Apply.{
  EventKind, run_started, occurrence_started, trace_ordered, control_ack, run_completed, run_failed,
  run_cancelled, run_change, apply, reduce_event, reduce_all,
}
use agent_cat.Reducer.Accepted.{apply-eq-ok, reduce_event-Accepted}

-- An acknowledgement stands, or a final one for the same command and target took the place of a
-- provisional one.
abbrev pub Replaces : ControlAck → ControlAck → Type 0
Replaces a a' =
    (a' ≡ a)
    ⊎ ((is_provisional a.state ≡ true)
        × (is_provisional a'.state ≡ false)
        × (same_target a a' ≡ true))

abbrev pub AcksEvolve : Dict ControlAck → Dict ControlAck → Type 0
AcksEvolve m m' =
    (id : Text) (a : ControlAck)
    → get id m ≡ some a
    → (a' : ControlAck) × (get id m' ≡ some a') × Replaces a a'

kept-AcksEvolve : (m m' : Dict ControlAck) → m' ≡ m → AcksEvolve m m'
kept-AcksEvolve m m' same id a present = (a, ap (get id) same ∙ present, inl refl)

record-AcksEvolve :
    (m : Dict ControlAck) (next : ControlAck)
    → Follows (length m) (get next.control_id m) next
    → AcksEvolve m (set next.control_id next m)
record-AcksEvolve m next follows id a present = elim (Bool-cases (text_eq next.control_id id)) [
  | inl hit ↦
      let same = text_eq_sound next.control_id id hit in
      let prior : get next.control_id m ≡ some a = rw same present in
      let f : Follows (length m) (some a) next =
        subst (λ o. Follows (length m) o next) prior follows in
      (next, rw (get-set, hit), inr (f.1, f.2, f.0))
  | inr miss ↦ (a, rw (get-set, miss) present, inl refl)
]

start_run-control_acks :
    (v : ℕ) (e : Members) (s s' : RunSnapshot)
    → start_run v e s ≡ ok s'
    → s'.control_acks ≡ s.control_acks
unfolding start_run
start_run-control_acks v e s s' h = ground arith

start_occurrence-control_acks :
    (e : Members) (s s' : RunSnapshot)
    → start_occurrence e s ≡ ok s'
    → s'.control_acks ≡ s.control_acks
unfolding start_occurrence
start_occurrence-control_acks e s s' h = ground arith

order_trace-control_acks :
    (e : Members) (s s' : RunSnapshot) → order_trace e s ≡ ok s' → s'.control_acks ≡ s.control_acks
unfolding order_trace
order_trace-control_acks e s s' h = ground arith

complete_run-control_acks :
    (v : ℕ) (e : Members) (s s' : RunSnapshot)
    → complete_run v e s ≡ ok s'
    → s'.control_acks ≡ s.control_acks
unfolding complete_run
complete_run-control_acks v e s s' h = ground arith

fail_run-control_acks :
    (e : Members) (s s' : RunSnapshot) → fail_run e s ≡ ok s' → s'.control_acks ≡ s.control_acks
unfolding fail_run
fail_run-control_acks e s s' h = ground arith

cancel_run-control_acks :
    (e : Members) (s s' : RunSnapshot) → cancel_run e s ≡ ok s' → s'.control_acks ≡ s.control_acks
unfolding cancel_run
cancel_run-control_acks e s s' h = ground arith

run_change-AcksEvolve :
    (p : Platform) (v : ℕ) (e : Members) (s s' : RunSnapshot) (k : EventKind)
    → run_change p v e s k ≡ ok s'
    → AcksEvolve s.control_acks s'.control_acks
unfolding run_change
run_change-AcksEvolve p v e s s' run_started h =
    kept-AcksEvolve _ _ (start_run-control_acks v e s s' h)
run_change-AcksEvolve p v e s s' occurrence_started h =
    kept-AcksEvolve _ _ (start_occurrence-control_acks e s s' h)
run_change-AcksEvolve p v e s s' trace_ordered h =
    kept-AcksEvolve _ _ (order_trace-control_acks e s s' h)
run_change-AcksEvolve p v e s s' control_ack h = elim (acknowledge-eq-ok p v e s s' h) [
  | inl same ↦ kept-AcksEvolve _ _ (ap (λ (t : RunSnapshot). t.control_acks) same)
  | inr (next, r) ↦
      subst (λ (t : RunSnapshot). AcksEvolve s.control_acks t.control_acks) (sym r.written)
        (record-AcksEvolve s.control_acks next r.follows)
]
run_change-AcksEvolve p v e s s' run_completed h =
    kept-AcksEvolve _ _ (complete_run-control_acks v e s s' h)
run_change-AcksEvolve p v e s s' run_failed h = kept-AcksEvolve _ _ (fail_run-control_acks e s s' h)
run_change-AcksEvolve p v e s s' run_cancelled h =
    kept-AcksEvolve _ _ (cancel_run-control_acks e s s' h)
run_change-AcksEvolve p v e s s' _ h = absurd (cc h)

apply-AcksEvolve :
    (p : Platform) (v : ℕ) (k : EventKind) (e : Members) (s s' : RunSnapshot)
    → apply p v k e s ≡ ok s'
    → AcksEvolve s.control_acks s'.control_acks
apply-AcksEvolve p v k e s s' h = elim (apply-eq-ok p v k e s s' h) [
  | inl run ↦ run_change-AcksEvolve p v e s s' k run
  | inr named ↦
      let (_, _, _, _, _, same) = on_occurrence-eq-ok s s' e _ named in
      kept-AcksEvolve _ _ (ap (λ (t : RunSnapshot). t.control_acks) same)
]

-- An accepted envelope loses no control acknowledgement: each stands as it was, or it was provisional
-- (accepted or queued) and a final one of the same command and target stands in its place.
pub reduce_event-AcksEvolve :
    (p : Platform) (s s' : RunSnapshot) (envelope : RuntimeEvent)
    → reduce_event p s envelope ≡ ok s'
    → AcksEvolve s.control_acks s'.control_acks
reduce_event-AcksEvolve p s s' envelope h =
    let a = reduce_event-Accepted p s s' envelope h in
    apply-AcksEvolve p a.version _ envelope.event _ s' a.applied

-- A final acknowledgement stands, the same record, through every later part of the journal.
pub reduce_all-final_ack :
    (p : Platform) (s s' : RunSnapshot) (journal : List RuntimeEvent) (id : Text) (a : ControlAck)
    → reduce_all p s journal ≡ ok s'
    → get id s.control_acks ≡ some a
    → is_provisional a.state ≡ false
    → get id s'.control_acks ≡ some a
unfolding reduce_all
reduce_all-final_ack p s s' [] id a h present final = ground arith
reduce_all-final_ack p s s' (envelope ∷ rest) id a h present final =
    let (t, first, h₁) = >>=-eq-ok (reduce_event p s envelope) _ h in
    let (a', found, replaces) = reduce_event-AcksEvolve p s t envelope first id a present in
    let stands : get id t.control_acks ≡ some a = ground arith in
    reduce_all-final_ack p t s' rest id a h₁ stands final
