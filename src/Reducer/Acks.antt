-- ===== src/Reducer/Acks.antt =====
-- What an accepted control acknowledgement went through in `apply` of ext-pi/src/reducer.ts.
use agent_cat.Base.{
  ℕ, ◌<◌, ◌≡◌, refl, subst, ◌⊎◌, inl, inr, Bool, true, false, not, ◌&&◌, Option, none, some, Text,
  length, arith, if◌then◌else◌, Bool-cases, ok, refuse, required, >>=-eq-ok, required-eq-ok,
}
use agent_cat.Base.Dict.{Dict, get, set}
use agent_cat.Base.Value.{Members}
use agent_cat.Reducer.State.{Platform, Occurrence, AckState, ControlAck, RunSnapshot}
use agent_cat.Reducer.State.{
  ack_while_not_running, answer_not_accepted, answer_without_occurrence, answer_with_attempt,
  not_waiting_for_person,
}
use agent_cat.Reducer.Progress.{is_absent}
use agent_cat.Reducer.Controls.{
  acknowledge, record_ack, read_ack, check_prior, acknowledge_answer, repeats, answer_wait,
  is_delivered, max_controls, is_provisional, same_target, is_answer, ends_answer, is_accepted,
  is_active,
}

-- The occurrences after an acknowledgement: the same, or one person's wait ended.
abbrev pub Waited : Dict Occurrence → Dict Occurrence → Type 0
Waited m m' =
    (m' ≡ m)
    ⊎ ((id : Text) × (o : Occurrence) × (get id m ≡ some o)
        × (o.person_pending ≡ true)
        × (m' ≡ set id (record o { person_pending = false }) m))

-- What the acknowledgement recorded before allows: a first one below the limit, or a final one for
-- the same command and target after a provisional one.
abbrev pub Follows : ℕ → Option ControlAck → ControlAck → Type 0
Follows recorded none next = recorded < max_controls
Follows recorded (some prior) next =
    (same_target prior next ≡ true)
    × (is_provisional prior.state ≡ true)
    × (is_provisional next.state ≡ false)

check_prior-Follows :
    (recorded : ℕ) (prior : Option ControlAck) (next : ControlAck) {u : Unit {0}}
    → check_prior recorded prior next ≡ ok u
    → Follows recorded prior next
unfolding check_prior
check_prior-Follows recorded none next h = ground arith
check_prior-Follows recorded (some prior) next h = ground arith

answer_wait-Waited :
    (m m' : Dict Occurrence) (id : Text) (state : AckState)
    → answer_wait m id state ≡ ok m'
    → Waited m m'
unfolding answer_wait
answer_wait-Waited m m' id state h =
    let (o, found, h₁) = >>=-eq-ok (required (get id m) not_waiting_for_person) _ h in
    let (u, waits, h₂) = >>=-eq-ok (refuse (not o.person_pending) not_waiting_for_person) _ h₁ in
    let present = required-eq-ok _ _ found in
    elim (Bool-cases (is_delivered state)) [
      | inl ended ↦ inr (id, o, present, ground arith, ground arith)
      | inr waiting ↦ inl (ground arith)
    ]

acknowledge_answer-Waited :
    (m m' : Dict Occurrence) (next : ControlAck) → acknowledge_answer m next ≡ ok m' → Waited m m'
unfolding acknowledge_answer
acknowledge_answer-Waited m m' next h =
    let (id, _, h₁) = >>=-eq-ok (required next.occurrence_id answer_without_occurrence) _ h in
    let (u, _, h₂) =
      >>=-eq-ok (refuse (not (is_absent next.attempt_id)) answer_with_attempt) _ h₁ in
    answer_wait-Waited m m' id next.state h₂

answered-Waited :
    (answer : Bool) (m m' : Dict Occurrence) (next : ControlAck)
    → (if answer then acknowledge_answer m next else ok m) ≡ ok m'
    → Waited m m'
answered-Waited true m m' next h = acknowledge_answer-Waited m m' next h
answered-Waited false m m' next h = inl (cc)

-- The facts behind an accepted acknowledgement that is recorded.
pub record Recorded (s s' : RunSnapshot) (next : ControlAck) : Type 0 where
  pub follows : Follows (length s.control_acks) (get next.control_id s.control_acks) next
  pub waited : Waited s.occurrences s'.occurrences
  pub written : s' ≡ record s {
    occurrences = s'.occurrences;
    control_acks = set next.control_id next s.control_acks;
  }

record_ack-Recorded :
    (s s' : RunSnapshot) (next : ControlAck)
    → record_ack s (get next.control_id s.control_acks) next ≡ ok s'
    → Recorded s s' next
unfolding record_ack
record_ack-Recorded s s' next h =
    let prior = get next.control_id s.control_acks in
    let (u, checked, h₁) = >>=-eq-ok (check_prior (length s.control_acks) prior next) _ h in
    let (v, _, h₂) =
      >>=-eq-ok
        (refuse (is_answer next.command && ends_answer next.state && not (is_accepted prior))
          answer_not_accepted)
        _ h₁ in
    let (m, waited, h₃) =
      >>=-eq-ok
        (if is_answer next.command then acknowledge_answer s.occurrences next else ok s.occurrences)
        _ h₂ in
    let same : record s { occurrences = m; control_acks = set next.control_id next s.control_acks }
        ≡ s' =
      ground arith in
    subst (λ t. Recorded s t next) same
      (record {
        follows = check_prior-Follows (length s.control_acks) prior next checked;
        waited = answered-Waited (is_answer next.command) s.occurrences m next waited;
        written = refl;
      })

-- A control acknowledgement repeats the one recorded before, or it is recorded.
pub acknowledge-eq-ok :
    (p : Platform) (version : ℕ) (e : Members) (s s' : RunSnapshot)
    → acknowledge p version e s ≡ ok s'
    → (s' ≡ s) ⊎ ((next : ControlAck) × Recorded s s' next)
unfolding acknowledge
acknowledge-eq-ok p version e s s' h =
    let (u, _, h₁) = >>=-eq-ok (refuse (not (is_active s.status)) ack_while_not_running) _ h in
    let (next, _, h₂) = >>=-eq-ok (read_ack p version e) _ h₁ in
    elim (Bool-cases (repeats (get next.control_id s.control_acks) next)) [
      | inl same ↦ inl (ground arith)
      | inr fresh ↦ inr (next, record_ack-Recorded s s' next (rw fresh at h₂))
    ]
