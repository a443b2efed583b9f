-- ===== src/Reducer/Journal/Frame.antt =====
-- What an event leaves alone in a snapshot, and the moves of a run's status.
use agent_cat.Base.{ℕ, ◌≡◌, refl, sym, subst, inl, inr, Bool, true, false, arith, ok}
use agent_cat.Base.Dict.{Dict, set}
use agent_cat.Base.Value.{Members}
use agent_cat.Reducer.State.{Platform, Occurrence, RunStatus, ControlAck, RunSnapshot}
use agent_cat.Reducer.Runs.{
  start_run, start_occurrence, order_trace, complete_run, fail_run, cancel_run,
}
use agent_cat.Reducer.Controls.{acknowledge}
use agent_cat.Reducer.Inversions.{on_occurrence-eq-ok}
use agent_cat.Reducer.Acks.{acknowledge-eq-ok}
use agent_cat.Reducer.Apply.{
  EventKind, run_started, occurrence_started, trace_ordered, control_ack, run_completed, run_failed,
  run_cancelled, run_change, apply,
}
use agent_cat.Reducer.Envelope.{is_terminal}
use agent_cat.Reducer.Accepted.{apply-eq-ok}

-- The moves of a run's status that an event makes.
abbrev pub can_move : RunStatus → RunStatus → Bool
can_move RunStatus.starting RunStatus.starting = true
can_move RunStatus.starting RunStatus.running = true
can_move RunStatus.running RunStatus.running = true
can_move RunStatus.running RunStatus.succeeded = true
can_move RunStatus.running RunStatus.failed = true
can_move RunStatus.running RunStatus.cancelled = true
can_move RunStatus.cancelling RunStatus.cancelling = true
can_move RunStatus.cancelling RunStatus.failed = true
can_move RunStatus.cancelling RunStatus.cancelled = true
can_move _ _ = false

-- What the event of an envelope leaves alone, and the status that it may reach.
pub record Frame (s s' : RunSnapshot) : Type 0 where
  pub run_id : s'.run_id ≡ s.run_id
  pub protocol_version : s'.protocol_version ≡ s.protocol_version
  pub last_sequence : s'.last_sequence ≡ s.last_sequence
  pub event_digests : s'.event_digests ≡ s.event_digests
  pub status : is_terminal s.status ≡ false → can_move s.status s'.status ≡ true

pub can_move_refl : (a : RunStatus) → is_terminal a ≡ false → can_move a a ≡ true
can_move_refl RunStatus.starting h = refl
can_move_refl RunStatus.running h = refl
can_move_refl RunStatus.cancelling h = refl
can_move_refl _ h = absurd (cc h)

start_run-Frame : (v : ℕ) (e : Members) (s s' : RunSnapshot) → start_run v e s ≡ ok s' → Frame s s'
unfolding start_run
start_run-Frame v e s s' h = ground arith

start_occurrence-Frame :
    (e : Members) (s s' : RunSnapshot) → start_occurrence e s ≡ ok s' → Frame s s'
unfolding start_occurrence
start_occurrence-Frame e s s' h = ground (arith, can_move_refl s.status)

order_trace-Frame : (e : Members) (s s' : RunSnapshot) → order_trace e s ≡ ok s' → Frame s s'
unfolding order_trace
order_trace-Frame e s s' h = ground (arith, can_move_refl s.status)

complete_run-Frame :
    (v : ℕ) (e : Members) (s s' : RunSnapshot) → complete_run v e s ≡ ok s' → Frame s s'
unfolding complete_run
complete_run-Frame v e s s' h = ground arith

fail_run-Frame : (e : Members) (s s' : RunSnapshot) → fail_run e s ≡ ok s' → Frame s s'
unfolding fail_run
fail_run-Frame e s s' h = ground arith

cancel_run-Frame : (e : Members) (s s' : RunSnapshot) → cancel_run e s ≡ ok s' → Frame s s'
unfolding cancel_run
cancel_run-Frame e s s' h = ground arith

Frame-refl : (s : RunSnapshot) → Frame s s
Frame-refl s = record {
  run_id = refl;
  protocol_version = refl;
  last_sequence = refl;
  event_digests = refl;
  status = can_move_refl s.status;
}

written-Frame :
    (s : RunSnapshot) (occurrences : Dict Occurrence) (acks : Dict ControlAck)
    → Frame s (record s { occurrences = occurrences; control_acks = acks })
written-Frame s occurrences acks = record {
  run_id = refl;
  protocol_version = refl;
  last_sequence = refl;
  event_digests = refl;
  status = can_move_refl s.status;
}

acknowledge-Frame :
    (p : Platform) (v : ℕ) (e : Members) (s s' : RunSnapshot)
    → acknowledge p v e s ≡ ok s'
    → Frame s s'
acknowledge-Frame p v e s s' h = elim (acknowledge-eq-ok p v e s s' h) [
  | inl same ↦ rw same (Frame-refl s)
  | inr (next, r) ↦ subst (Frame s) (sym r.written) (written-Frame s s'.occurrences _)
]

run_change-Frame :
    (p : Platform) (v : ℕ) (e : Members) (s s' : RunSnapshot) (k : EventKind)
    → run_change p v e s k ≡ ok s'
    → Frame s s'
unfolding run_change
run_change-Frame p v e s s' run_started h = start_run-Frame v e s s' h
run_change-Frame p v e s s' occurrence_started h = start_occurrence-Frame e s s' h
run_change-Frame p v e s s' trace_ordered h = order_trace-Frame e s s' h
run_change-Frame p v e s s' control_ack h = acknowledge-Frame p v e s s' h
run_change-Frame p v e s s' run_completed h = complete_run-Frame v e s s' h
run_change-Frame p v e s s' run_failed h = fail_run-Frame e s s' h
run_change-Frame p v e s s' run_cancelled h = cancel_run-Frame e s s' h
run_change-Frame p v e s s' _ h = absurd (cc h)

pub apply-Frame :
    (p : Platform) (v : ℕ) (k : EventKind) (e : Members) (s s' : RunSnapshot)
    → apply p v k e s ≡ ok s'
    → Frame s s'
apply-Frame p v k e s s' h = elim (apply-eq-ok p v k e s s' h) [
  | inl run ↦ run_change-Frame p v e s s' k run
  | inr named ↦
      let (id, _, o', _, _, same) = on_occurrence-eq-ok s s' e _ named in
      rw same (written-Frame s (set id o' s.occurrences) s.control_acks)
]
