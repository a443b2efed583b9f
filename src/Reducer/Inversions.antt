-- ===== src/Reducer/Inversions.antt =====
-- What a successful change of one attempt or one occurrence comes from: the entry that it found,
-- the changed entry, and the write.
use agent_cat.Base.{
  ℕ, ◌<◌, ◌≡◌, inl, inr, not, none, some, Text, leb, arith, Option-cases, ok, refuse, required,
  >>=-eq-ok, required-eq-ok,
}
use agent_cat.Base.Dict.{get, set}
use agent_cat.Base.Value.{Members, field}
use agent_cat.Reducer.State.{Attempt, Occurrence, RunSnapshot}
use agent_cat.Reducer.State.{
  unknown_occurrence, unknown_attempt, occurrence_not_running, duplicate_attempt, too_many_attempts,
}
use agent_cat.Reducer.Fields.{Checked, text, occurrence_id, attempt_id}
use agent_cat.Reducer.Attempts.{
  on_attempt, start_attempt, max_attempts, close_dispatch, new_attempt, is_state_running,
}
use agent_cat.Reducer.Progress.{is_absent}
use agent_cat.Reducer.Apply.{on_occurrence}

pub on_attempt-eq-ok :
    (o o' : Occurrence) (e : Members) (change : Attempt → Checked Attempt)
    → on_attempt o e change ≡ ok o'
    → (id : Text) × (a : Attempt) × (a' : Attempt) × (get id o.attempts ≡ some a)
      × (change a ≡ ok a')
      × (o' ≡ record o { attempts = set id a' o.attempts })
unfolding on_attempt
on_attempt-eq-ok o o' e change h =
    let (id, _, h₁) = >>=-eq-ok (attempt_id e) _ h in
    let (a, found, h₂) = >>=-eq-ok (required (get id o.attempts) unknown_attempt) _ h₁ in
    let (a', changed, h₃) = >>=-eq-ok (change a) _ h₂ in
    (id, a, a', required-eq-ok _ _ found, changed, cc)

pub on_occurrence-eq-ok :
    (s s' : RunSnapshot) (e : Members) (change : Occurrence → Checked Occurrence)
    → on_occurrence s e change ≡ ok s'
    → (id : Text) × (o : Occurrence) × (o' : Occurrence) × (get id s.occurrences ≡ some o)
      × (change o ≡ ok o')
      × (s' ≡ record s { occurrences = set id o' s.occurrences })
unfolding on_occurrence
on_occurrence-eq-ok s s' e change h =
    let (id, _, h₁) = >>=-eq-ok (occurrence_id e) _ h in
    let (o, found, h₂) = >>=-eq-ok (required (get id s.occurrences) unknown_occurrence) _ h₁ in
    let (o', changed, h₃) = >>=-eq-ok (change o) _ h₂ in
    (id, o, o', required-eq-ok _ _ found, changed, cc)

pub start_attempt-eq-ok :
    (n : ℕ) (e : Members) (o o' : Occurrence)
    → start_attempt n e o ≡ ok o'
    → (id : Text) × (target : Text) × (get id o.attempts ≡ none)
      × (n < max_attempts)
      × (o' ≡ record o {
        dispatch = close_dispatch o.dispatch;
        attempts = set id (new_attempt id target) o.attempts;
      })
unfolding start_attempt
start_attempt-eq-ok n e o o' h =
    let (id, _, h₁) = >>=-eq-ok (attempt_id e) _ h in
    elim (Option-cases (get id o.attempts)) [
      | inl missing ↦
          let (u, _, h₂) =
            >>=-eq-ok (refuse (not (is_state_running o.state)) occurrence_not_running) _ h₁ in
          let (v, _, h₃) =
            >>=-eq-ok (refuse (not (is_absent (get id o.attempts))) duplicate_attempt) _ h₂ in
          let (w, below, h₄) = >>=-eq-ok (refuse (leb max_attempts n) too_many_attempts) _ h₃ in
          let (target, _, h₅) = >>=-eq-ok (text (field "target" e)) _ h₄ in
          (id, target, missing, ground arith, cc)
      | inr (a, present) ↦ absurd (ground arith)
    ]
