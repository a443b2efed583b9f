-- ===== src/Reducer/Journal/Success.antt =====
-- What a succeeded run has recorded.
use agent_cat.Base.{
  ◌≡◌, ap, ◌↔◌, true, List, [], ◌∷◌, some, Text, includes, distinct, All, arith, ok,
}
use agent_cat.Base.Dict.{Dict, get, keys, length-keys}
use agent_cat.Reducer.State.{
  Platform, Occurrence, RunStatus, RunSnapshot, RuntimeEvent, initial_snapshot,
}
use agent_cat.Base.Pigeonhole.{AllIn, includes_of_length}
use agent_cat.Reducer.Progress.{is_absent}
use agent_cat.Reducer.Runs.{is_done, all_done}
use agent_cat.Reducer.Apply.{reduce_all}
use agent_cat.Reducer.Invariant.{IsValid, IsKnown, initial_snapshot-IsValid}
use agent_cat.Reducer.Invariant.Journal.{reduce_all-IsValid}

IsKnown-iff : (id : Text) (m : Dict Occurrence) → IsKnown m id ↔ (includes (keys m) id ≡ true)
unfolding get
IsKnown-iff id [] = ground arith
IsKnown-iff id ((k, o) ∷ m) = ground (arith, IsKnown-iff id m)

known-AllIn : (m : Dict Occurrence) (ids : List Text) → All (IsKnown m) ids → AllIn (keys m) ids
known-AllIn m [] h = tt
known-AllIn m (id ∷ ids) (here, h) = ((IsKnown-iff id m).0 here, known-AllIn m ids h)

get-is_done :
    (id : Text) (o : Occurrence) (m : Dict Occurrence)
    → get id m ≡ some o
    → all_done m ≡ true
    → is_done o.state ≡ true
unfolding get
get-is_done id o [] h d = cc
get-is_done id o ((k, x) ∷ m) h d = ground (arith, get-is_done id o m)

-- What the snapshot of a run that succeeded shows: its authored order lists each occurrence exactly
-- once and nothing else, and each occurrence is completed or reused.
pub record Complete (s : RunSnapshot) : Type 0 where
  pub recorded : s.trace_recorded ≡ true
  pub once : distinct s.authored_order ≡ true
  pub known : All (IsKnown s.occurrences) s.authored_order
  pub listed :
      (id : Text) (o : Occurrence)
      → get id s.occurrences ≡ some o
      → includes s.authored_order id ≡ true
  pub done : (id : Text) (o : Occurrence) → get id s.occurrences ≡ some o → is_done o.state ≡ true

success-Complete : (s : RunSnapshot) → IsValid s → s.status ≡ RunStatus.succeeded → Complete s
success-Complete s v succeeded =
    let good = v.success succeeded in
    let order = v.ordered good.recorded in
    record {
      recorded = good.recorded;
      once = order.once;
      known = order.known;
      listed = λ id o present.
          includes_of_length s.authored_order (keys s.occurrences) id order.once
            (known-AllIn s.occurrences s.authored_order order.known)
            (omega (arith, length-keys s.occurrences, good.complete))
            ((IsKnown-iff id s.occurrences).0 (ap is_absent present));
      done = λ id o present. get-is_done id o s.occurrences present good.done;
    }

-- If the reducer accepts a journal from a new run and the run has succeeded, then the authored order
-- lists each occurrence exactly once and nothing else, and each occurrence is completed or reused.
pub reduce_all-Complete :
    (p : Platform) (run_id : Text) (s : RunSnapshot) (journal : List RuntimeEvent)
    → reduce_all p (initial_snapshot run_id) journal ≡ ok s
    → s.status ≡ RunStatus.succeeded
    → Complete s
reduce_all-Complete p run_id s journal h succeeded =
    success-Complete s
      (reduce_all-IsValid p (initial_snapshot run_id) s journal (initial_snapshot-IsValid run_id) h)
      succeeded
