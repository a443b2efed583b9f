-- ===== src/Reducer/Events.antt =====
-- What every occurrence event keeps, from the lemma for each.
use agent_cat.Base.{ℕ, ◌≡◌, ok}
use agent_cat.Base.Value.{Members}
use agent_cat.Reducer.State.{Platform, Occurrence, RunSnapshot}
use agent_cat.Reducer.Apply.{
  EventKind, attempt_started, attempt_output, attempt_progress, attempt_steered, attempt_completed,
  attempt_failed, recovery_chosen, occurrence_reused, recovery_pending, occurrence_retried,
  dispatch_pending, occurrence_redirected, person_answer_pending, occurrence_completed,
  occurrence_failed, occurrence_change,
}
use agent_cat.Reducer.Runs.{attempt_count, steer_count}
use agent_cat.Reducer.Lifecycle.{Change}
use agent_cat.Reducer.Lifecycle.Attempts.{
  append_output-NeedsRunning, progress_attempt-NeedsRunning, complete_attempt-NeedsRunning,
  fail_attempt-NeedsRunning, on_attempt-Change, steer_occurrence-Change, start_attempt-Change,
}
use agent_cat.Reducer.Lifecycle.Recoveries.{
  await_recovery-Change, choose_recovery-Change, retry_occurrence-Change, open_dispatch-Change,
  redirect-Change,
}
use agent_cat.Reducer.Lifecycle.Occurrences.{
  reuse-Change, await_person-Change, complete-Change, fail-Change,
}
use agent_cat.Reducer.Bounds.{Growth}
use agent_cat.Reducer.Bounds.Attempts.{
  append_output-Growth, progress_attempt-Growth, complete_attempt-Growth, fail_attempt-Growth,
  steer_occurrence-Growth, start_attempt-Growth,
}
use agent_cat.Reducer.Bounds.Occurrences.{
  reuse-Growth, await_person-Growth, complete-Growth, fail-Growth, await_recovery-Growth,
  choose_recovery-Growth, retry_occurrence-Growth, open_dispatch-Growth, redirect-Growth,
}

module _ (p : Platform) (v : ℕ) (e : Members) (s : RunSnapshot) (o o' : Occurrence) where
  pub occurrence_change-Change :
      (k : EventKind) → occurrence_change p v e s k o ≡ ok o' → Change o o'
  unfolding occurrence_change
  occurrence_change-Change attempt_started h = start_attempt-Change (attempt_count s) e o o' h
  occurrence_change-Change attempt_output h =
      on_attempt-Change e _ o o' (append_output-NeedsRunning p e) h
  occurrence_change-Change attempt_progress h =
      on_attempt-Change e _ o o' (progress_attempt-NeedsRunning p e) h
  occurrence_change-Change attempt_steered h = steer_occurrence-Change p (steer_count s) e o o' h
  occurrence_change-Change attempt_completed h =
      on_attempt-Change e _ o o' complete_attempt-NeedsRunning h
  occurrence_change-Change attempt_failed h =
      on_attempt-Change e _ o o' (fail_attempt-NeedsRunning e) h
  occurrence_change-Change recovery_chosen h = choose_recovery-Change p e o o' h
  occurrence_change-Change occurrence_reused h = reuse-Change e o o' h
  occurrence_change-Change recovery_pending h = await_recovery-Change e o o' h
  occurrence_change-Change occurrence_retried h = retry_occurrence-Change p e o o' h
  occurrence_change-Change dispatch_pending h = open_dispatch-Change e o o' h
  occurrence_change-Change occurrence_redirected h = redirect-Change p e o o' h
  occurrence_change-Change person_answer_pending h = await_person-Change e o o' h
  occurrence_change-Change occurrence_completed h = complete-Change e o o' h
  occurrence_change-Change occurrence_failed h = fail-Change e o o' h
  occurrence_change-Change _ h = absurd (cc h)

  pub occurrence_change-Growth :
      (k : EventKind)
      → occurrence_change p v e s k o ≡ ok o'
      → Growth (attempt_count s) (steer_count s) o o'
  unfolding occurrence_change
  occurrence_change-Growth attempt_started h = start_attempt-Growth _ _ e o o' h
  occurrence_change-Growth attempt_output h = append_output-Growth _ _ p e o o' h
  occurrence_change-Growth attempt_progress h = progress_attempt-Growth _ _ p e o o' h
  occurrence_change-Growth attempt_steered h = steer_occurrence-Growth _ _ p e o o' h
  occurrence_change-Growth attempt_completed h = complete_attempt-Growth _ _ e o o' h
  occurrence_change-Growth attempt_failed h = fail_attempt-Growth _ _ e o o' h
  occurrence_change-Growth recovery_chosen h = choose_recovery-Growth _ _ p e o o' h
  occurrence_change-Growth occurrence_reused h = reuse-Growth _ _ e o o' h
  occurrence_change-Growth recovery_pending h = await_recovery-Growth _ _ e o o' h
  occurrence_change-Growth occurrence_retried h = retry_occurrence-Growth _ _ p e o o' h
  occurrence_change-Growth dispatch_pending h = open_dispatch-Growth _ _ e o o' h
  occurrence_change-Growth occurrence_redirected h = redirect-Growth _ _ p e o o' h
  occurrence_change-Growth person_answer_pending h = await_person-Growth _ _ e o o' h
  occurrence_change-Growth occurrence_completed h = complete-Growth _ _ e o o' h
  occurrence_change-Growth occurrence_failed h = fail-Growth _ _ e o o' h
  occurrence_change-Growth _ h = absurd (cc h)
