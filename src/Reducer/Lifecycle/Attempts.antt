-- ===== src/Reducer/Lifecycle/Attempts.antt =====
-- The life cycle under the attempt events, which change an attempt that runs.
use agent_cat.Base.{
  ℕ, ◌≡◌, true, [], ◌∷◌, some, Text, arith, ok, required, >>=-eq-ok, required-eq-ok,
}
use agent_cat.Base.Dict.{Dict, get}
use agent_cat.Base.Value.{Members}
use agent_cat.Reducer.State.{Platform, Attempt, Occurrence}
use agent_cat.Reducer.State.{unknown_attempt}
use agent_cat.Reducer.Fields.{Checked, attempt_id}
use agent_cat.Reducer.Attempts.{
  is_running, on_attempt, append_output, progress_attempt, steer_attempt, complete_attempt,
  fail_attempt, start_attempt,
}
use agent_cat.Reducer.Apply.{steer_occurrence}
use agent_cat.Reducer.Occurrences.{has_running}
use agent_cat.Reducer.Lifecycle.{Change}

get-is_running :
    (k : Text) (a : Attempt) (m : Dict Attempt)
    → get k m ≡ some a
    → is_running a.state ≡ true
    → has_running m ≡ true
unfolding get
get-is_running k a [] h r = cc
get-is_running k a ((j, b) ∷ m) h r = ground (arith, get-is_running k a m)

-- A change of an attempt that is refused unless the attempt runs.
abbrev pub NeedsRunning : (Attempt → Checked Attempt) → Type 0
NeedsRunning change = (a a' : Attempt) → change a ≡ ok a' → is_running a.state ≡ true

pub on_attempt-Change :
    (e : Members) (change : Attempt → Checked Attempt) (o o' : Occurrence)
    → NeedsRunning change
    → on_attempt o e change ≡ ok o'
    → Change o o'
unfolding on_attempt
on_attempt-Change e change o o' needs h =
    let (id, _, h₁) = >>=-eq-ok (attempt_id e) _ h in
    let (a, found, h₂) = >>=-eq-ok (required (get id o.attempts) unknown_attempt) _ h₁ in
    let (a', changed, h₃) = >>=-eq-ok (change a) _ h₂ in
    let runs = get-is_running id a o.attempts (required-eq-ok _ _ found) (needs a a' changed) in
    ground arith

pub append_output-NeedsRunning : (p : Platform) (e : Members) → NeedsRunning (append_output p e)
unfolding append_output
append_output-NeedsRunning p e a a' h = ground arith

pub progress_attempt-NeedsRunning :
    (p : Platform) (e : Members) → NeedsRunning (progress_attempt p e)
unfolding progress_attempt
progress_attempt-NeedsRunning p e a a' h = ground arith

pub steer_attempt-NeedsRunning :
    (p : Platform) (n : ℕ) (e : Members) → NeedsRunning (steer_attempt p n e)
unfolding steer_attempt
steer_attempt-NeedsRunning p n e a a' h = ground arith

pub complete_attempt-NeedsRunning : NeedsRunning complete_attempt
unfolding complete_attempt
complete_attempt-NeedsRunning a a' h = ground arith

pub fail_attempt-NeedsRunning : (e : Members) → NeedsRunning (fail_attempt e)
unfolding fail_attempt
fail_attempt-NeedsRunning e a a' h = ground arith

pub steer_occurrence-Change :
    (p : Platform) (n : ℕ) (e : Members) (o o' : Occurrence)
    → steer_occurrence p n e o ≡ ok o'
    → Change o o'
unfolding steer_occurrence
steer_occurrence-Change p n e o o' h =
    let (q, steered, last) = >>=-eq-ok (on_attempt o e (steer_attempt p n e)) _ h in
    let c = on_attempt-Change e _ o q (steer_attempt-NeedsRunning p n e) steered in ground arith

pub start_attempt-Change :
    (n : ℕ) (e : Members) (o o' : Occurrence) → start_attempt n e o ≡ ok o' → Change o o'
unfolding start_attempt
start_attempt-Change n e o o' h = ground arith
