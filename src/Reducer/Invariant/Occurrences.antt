-- ===== src/Reducer/Invariant/Occurrences.antt =====
-- Well-formedness under the occurrence events.
use agent_cat.Base.{ℕ, ◌≡◌, ◌∙◌, ◌≢◌, false, some, Text, length, arith, ok}
use agent_cat.Base.Dict.{get, set, sum-set_present, length-set_present, Each-get, Each-set}
use agent_cat.Base.Value.{Members}
use agent_cat.Reducer.State.{Platform, Occurrence, RunStatus, RunSnapshot}
use agent_cat.Reducer.Runs.{attempt_count, steer_count, steers_of}
use agent_cat.Reducer.Envelope.{is_terminal}
use agent_cat.Reducer.Lifecycle.{Change, IsQuiet}
use agent_cat.Reducer.Bounds.{SnapshotBounds, OccurrenceBounds, Growth}
use agent_cat.Reducer.Inversions.{on_occurrence-eq-ok}
use agent_cat.Reducer.Apply.{EventKind, on_occurrence, occurrence_change}
use agent_cat.Reducer.Events.{occurrence_change-Change, occurrence_change-Growth}
use agent_cat.Reducer.Invariant.{IsValid, set-IsOrdered}

pub not_succeeded :
    (s : RunSnapshot) → is_terminal s.status ≡ false → s.status ≢ RunStatus.succeeded
not_succeeded s h e = absurd (ground arith)

write-SnapshotBounds :
    (s : RunSnapshot) (id : Text) (o o' : Occurrence)
    → get id s.occurrences ≡ some o
    → Growth (attempt_count s) (steer_count s) o o'
    → SnapshotBounds s
    → SnapshotBounds (record s { occurrences = set id o' s.occurrences })
write-SnapshotBounds s id o o' present g b =
    let attempts =
      sum-set_present (λ (x : Occurrence). length x.attempts) id o' o s.occurrences present in
    let steers = sum-set_present steers_of id o' o s.occurrences present in
    let size = length-set_present id o' o s.occurrences present in
    record {
      occurrences = omega arith;
      attempts = ground arith;
      steers = ground arith;
      controls = b.controls;
      each =
          Each-set (λ k x. OccurrenceBounds x) id o' s.occurrences b.each
            (g.bounded (Each-get (λ k x. OccurrenceBounds x) id o s.occurrences b.each present));
    }

pub write-IsValid :
    (s : RunSnapshot) (id : Text) (o o' : Occurrence)
    → get id s.occurrences ≡ some o
    → Change o o'
    → Growth (attempt_count s) (steer_count s) o o'
    → is_terminal s.status ≡ false
    → IsValid s
    → IsValid (record s { occurrences = set id o' s.occurrences })
write-IsValid s id o o' present c g live v = record {
  bounds = write-SnapshotBounds s id o o' present g v.bounds;
  ids =
      Each-set (λ k x. x.id ≡ k) id o' s.occurrences v.ids
        (c.same_id ∙ Each-get (λ k x. x.id ≡ k) id o s.occurrences v.ids present);
  quiet =
      Each-set (λ k x. IsQuiet x) id o' s.occurrences v.quiet
        (c.quiet (Each-get (λ k x. IsQuiet x) id o s.occurrences v.quiet present));
  ordered = λ h. set-IsOrdered s id o' (v.ordered h);
  success = λ h. absurd (not_succeeded s live h);
}

pub on_occurrence-IsValid :
    (p : Platform) (version : ℕ) (e : Members) (s s' : RunSnapshot) (k : EventKind)
    → is_terminal s.status ≡ false
    → IsValid s
    → on_occurrence s e (occurrence_change p version e s k) ≡ ok s'
    → IsValid s'
on_occurrence-IsValid p version e s s' k live v h =
    let (id, o, o', present, changed, same) = on_occurrence-eq-ok s s' e _ h in
    rw same (
      write-IsValid s id o o' present (occurrence_change-Change p version e s o o' k changed)
        (occurrence_change-Growth p version e s o o' k changed) live v)
