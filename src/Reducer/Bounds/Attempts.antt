-- ===== src/Reducer/Bounds/Attempts.antt =====
-- The limits under the attempt events.
use agent_cat.Base.{
  ℕ, ◌<◌, ◌≡◌, refl, ap, ◌∙◌, inl, inr, Option, none, some, Text, length, length-append, arith, ok,
  >>=-eq-ok,
}
use agent_cat.Base.Dict.{
  get, set, sum-set_present, sum-set_absent, length-set_present, length-set_absent, Each-get,
  Each-set,
}
use agent_cat.Base.Value.{Members, field}
use agent_cat.Reducer.State.{Platform, Attempt, Dispatch, Occurrence}
use agent_cat.Reducer.Fields.{Checked}
use agent_cat.Reducer.Attempts.{
  on_attempt, append_output, progress_attempt, steer_attempt, complete_attempt, fail_attempt,
  start_attempt, require_attempt_running, close_dispatch, new_attempt, max_steers, max_attempts,
}
use agent_cat.Reducer.Apply.{steer_occurrence}
use agent_cat.Reducer.Bounds.{DispatchBounds, AttemptBounds, Growth, Grows}
use agent_cat.Reducer.Inversions.{on_attempt-eq-ok, start_attempt-eq-ok}
use agent_cat.Reducer.Bounds.Progress.{apply_progress-Keeps}

-- What an event does to the sizes of one attempt.
pub record AttemptGrowth (steers : ℕ) (a a' : Attempt) : Type 0 where
  pub bounded : AttemptBounds a → AttemptBounds a'
  pub steers_grow : Grows max_steers steers (length a.steers) (length a'.steers)
  pub same_id : a'.id ≡ a.id

abbrev AllGrow : ℕ → (Attempt → Checked Attempt) → Type 0
AllGrow steers change = (a a' : Attempt) → change a ≡ ok a' → AttemptGrowth steers a a'

append_output-AllGrow : (n : ℕ) (p : Platform) (e : Members) → AllGrow n (append_output p e)
unfolding append_output
append_output-AllGrow n p e a a' h = ground arith

progress_attempt-AllGrow : (n : ℕ) (p : Platform) (e : Members) → AllGrow n (progress_attempt p e)
unfolding progress_attempt
progress_attempt-AllGrow n p e a a' h =
    let (_, _, h₁) = >>=-eq-ok (require_attempt_running a) _ h in
    let (kept, same, same_id) = apply_progress-Keeps p a a' (field "progress" e) h₁ in
    record { bounded = kept; steers_grow = inl (ap length same); same_id = same_id }

steer_attempt-AllGrow : (n : ℕ) (p : Platform) (e : Members) → AllGrow n (steer_attempt p n e)
unfolding steer_attempt
steer_attempt-AllGrow n p e a a' h = grind (arith, length-append)

complete_attempt-AllGrow : (n : ℕ) → AllGrow n complete_attempt
unfolding complete_attempt
complete_attempt-AllGrow n a a' h = ground arith

fail_attempt-AllGrow : (n : ℕ) (e : Members) → AllGrow n (fail_attempt e)
unfolding fail_attempt
fail_attempt-AllGrow n e a a' h = ground arith

pub write_attempt-Growth :
    (n m : ℕ) (id : Text) (a a' : Attempt) (o : Occurrence)
    → get id o.attempts ≡ some a
    → AttemptGrowth m a a'
    → Growth n m o (record o { attempts = set id a' o.attempts })
write_attempt-Growth n m id a a' o present g = record {
  bounded = λ b. record {
    recovery = b.recovery;
    dispatch = b.dispatch;
    attempts =
        Each-set (λ k c. AttemptBounds c) id a' o.attempts b.attempts
          (g.bounded (Each-get (λ k c. AttemptBounds c) id a o.attempts b.attempts present));
    ids =
        Each-set (λ k c. c.id ≡ k) id a' o.attempts b.ids
          (g.same_id ∙ Each-get (λ k c. c.id ≡ k) id a o.attempts b.ids present);
  };
  attempts_grow = inl (length-set_present id a' a o.attempts present);
  steers_grow =
      let sum = sum-set_present (λ (b : Attempt). length b.steers) id a' a o.attempts present in
      ground arith;
}

pub on_attempt-Growth :
    (n m : ℕ) (e : Members) (change : Attempt → Checked Attempt) (o o' : Occurrence)
    → AllGrow m change
    → on_attempt o e change ≡ ok o'
    → Growth n m o o'
on_attempt-Growth n m e change o o' grow h =
    let (id, a, a', present, changed, same) = on_attempt-eq-ok o o' e change h in
    rw same (write_attempt-Growth n m id a a' o present (grow a a' changed))

pub append_output-Growth :
    (n m : ℕ) (p : Platform) (e : Members) (o o' : Occurrence)
    → on_attempt o e (append_output p e) ≡ ok o'
    → Growth n m o o'
append_output-Growth n m p e o o' = on_attempt-Growth n m e _ o o' (append_output-AllGrow m p e)

pub progress_attempt-Growth :
    (n m : ℕ) (p : Platform) (e : Members) (o o' : Occurrence)
    → on_attempt o e (progress_attempt p e) ≡ ok o'
    → Growth n m o o'
progress_attempt-Growth n m p e o o' =
    on_attempt-Growth n m e _ o o' (progress_attempt-AllGrow m p e)

pub complete_attempt-Growth :
    (n m : ℕ) (e : Members) (o o' : Occurrence)
    → on_attempt o e complete_attempt ≡ ok o'
    → Growth n m o o'
complete_attempt-Growth n m e o o' = on_attempt-Growth n m e _ o o' (complete_attempt-AllGrow m)

pub fail_attempt-Growth :
    (n m : ℕ) (e : Members) (o o' : Occurrence)
    → on_attempt o e (fail_attempt e) ≡ ok o'
    → Growth n m o o'
fail_attempt-Growth n m e o o' = on_attempt-Growth n m e _ o o' (fail_attempt-AllGrow m e)

pub steer_occurrence-Growth :
    (n m : ℕ) (p : Platform) (e : Members) (o o' : Occurrence)
    → steer_occurrence p m e o ≡ ok o'
    → Growth n m o o'
unfolding steer_occurrence
steer_occurrence-Growth n m p e o o' h =
    let (q, steered, last) = >>=-eq-ok (on_attempt o e (steer_attempt p m e)) _ h in
    let g = on_attempt-Growth n m e _ o q (steer_attempt-AllGrow m p e) steered in ground arith

close_dispatch-DispatchBounds :
    (d : Option Dispatch) → DispatchBounds d → DispatchBounds (close_dispatch d)
close_dispatch-DispatchBounds none b = tt
close_dispatch-DispatchBounds (some d) b = b

pub add_attempt-Growth :
    (n m : ℕ) (id target : Text) (o : Occurrence)
    → get id o.attempts ≡ none
    → n < max_attempts
    → Growth n m o (record o {
      dispatch = close_dispatch o.dispatch;
      attempts = set id (new_attempt id target) o.attempts;
    })
add_attempt-Growth n m id target o missing below = record {
  bounded = λ b. record {
    recovery = b.recovery;
    dispatch = close_dispatch-DispatchBounds o.dispatch b.dispatch;
    attempts =
        Each-set (λ k c. AttemptBounds c) id (new_attempt id target) o.attempts b.attempts
          (omega arith);
    ids = Each-set (λ k c. c.id ≡ k) id (new_attempt id target) o.attempts b.ids refl;
  };
  attempts_grow = inr (length-set_absent id (new_attempt id target) o.attempts missing, below);
  steers_grow = inl (
      sum-set_absent (λ (b : Attempt). length b.steers) id (new_attempt id target) o.attempts
        missing
      ∙ omega arith);
}

pub start_attempt-Growth :
    (n m : ℕ) (e : Members) (o o' : Occurrence) → start_attempt n e o ≡ ok o' → Growth n m o o'
start_attempt-Growth n m e o o' h =
    let (id, target, missing, below, same) = start_attempt-eq-ok n e o o' h in
    rw same (add_attempt-Growth n m id target o missing below)
