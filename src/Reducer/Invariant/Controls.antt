-- ===== src/Reducer/Invariant/Controls.antt =====
-- Well-formedness under a control acknowledgement.
use agent_cat.Base.{
  ℕ, ◌≤◌, ◌≡◌, refl, sym, subst, inl, inr, true, false, length, arith, Option-cases, ok,
}
use agent_cat.Base.Dict.{Dict, get, set, length-set_present, length-set_absent}
use agent_cat.Base.Value.{Members}
use agent_cat.Reducer.State.{Platform, OccurrenceState, Occurrence, ControlAck, RunSnapshot}
use agent_cat.Reducer.Acks.{Waited, Follows, acknowledge-eq-ok}
use agent_cat.Reducer.Controls.{acknowledge, max_controls}
use agent_cat.Reducer.Envelope.{is_terminal}
use agent_cat.Reducer.Lifecycle.{Change, can_step}
use agent_cat.Reducer.Bounds.{Growth}
use agent_cat.Reducer.Invariant.{IsValid}
use agent_cat.Reducer.Invariant.Occurrences.{write-IsValid}

-- The end of a person's wait changes one flag of the occurrence.
pub can_step_refl : (a : OccurrenceState) → can_step a a ≡ true
can_step_refl OccurrenceState.running = refl
can_step_refl _ = refl

pub end_wait-Change : (o : Occurrence) → Change o (record o { person_pending = false })
end_wait-Change o = record {
  same_id = refl;
  step = can_step_refl o.state;
  answer_kept = λ _. refl;
  quiet = λ q. q;
}

end_wait-Growth : (n m : ℕ) (o : Occurrence) → Growth n m o (record o { person_pending = false })
end_wait-Growth n m o = ground arith

Waited-IsValid :
    (s : RunSnapshot) (m : Dict Occurrence)
    → is_terminal s.status ≡ false
    → IsValid s
    → Waited s.occurrences m
    → IsValid (record s { occurrences = m })
Waited-IsValid s m live v (inl same) = rw same v
Waited-IsValid s m live v (inr (id, o, present, _, same)) = rw same (
    write-IsValid s id o (record o { person_pending = false }) present (end_wait-Change o)
      (end_wait-Growth _ _ o) live v)

length-Follows :
    (acks : Dict ControlAck) (next : ControlAck)
    → Follows (length acks) (get next.control_id acks) next
    → length acks ≤ max_controls
    → length (set next.control_id next acks) ≤ max_controls
length-Follows acks next f le = elim (Option-cases (get next.control_id acks)) [
  | inl missing ↦ ground (arith, length-set_absent next.control_id next acks missing)
  | inr (a, present) ↦ ground (arith, length-set_present next.control_id next a acks present)
]

with_acks-IsValid :
    (s : RunSnapshot) (acks : Dict ControlAck)
    → length acks ≤ max_controls
    → IsValid s
    → IsValid (record s { control_acks = acks })
with_acks-IsValid s acks le v = ground arith

pub acknowledge-IsValid :
    (p : Platform) (version : ℕ) (e : Members) (s s' : RunSnapshot)
    → is_terminal s.status ≡ false
    → IsValid s
    → acknowledge p version e s ≡ ok s'
    → IsValid s'
acknowledge-IsValid p version e s s' live v h = elim (acknowledge-eq-ok p version e s s' h) [
  | inl same ↦ rw same v
  | inr (next, r) ↦ subst IsValid (sym r.written) (
      with_acks-IsValid (record s { occurrences = s'.occurrences }) _
        (length-Follows s.control_acks next r.follows v.bounds.controls)
        (Waited-IsValid s s'.occurrences live v r.waited))
]
