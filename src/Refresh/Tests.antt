-- ===== src/Refresh/Tests.antt =====
-- Runs of the coordination on texts for keys, and the witnesses of its theorems.
use agent_cat.Base.{
  ◌≡◌, refl, ◌⊎◌, true, false, List, [], ◌∷◌, none, some, Text, codes, text_eq, arith,
}
use agent_cat.Base.Keys.{text_keys}
use agent_cat.Refresh.Coordinator.{invalidate_resource, invalidate_flight, complete_fetch}
use agent_cat.Refresh.Freshness.{
  Watch, start, Happening, invalidated, completed, advanced, happen, history, rest_shows_last,
  late_completion,
}
use agent_cat.Refresh.Reconcile.{
  Uncertain, ReconcileObservation, Reconciled, reconcile, Proves, reconcile_sound,
}

abbrev runs : Text
runs = codes "runs"

abbrev people : Text
people = codes "people"

-- Two invalidations during one fetch, a resnapshot with a fetch in flight, and its late completion.
abbrev busy : List (Happening Text)
busy =
    invalidated runs
    ∷ invalidated runs
    ∷ invalidated people
    ∷ invalidated runs
    ∷ completed runs 0
    ∷ advanced
    ∷ invalidated runs
    ∷ completed runs 0
    ∷ invalidated runs
    ∷ completed runs 1
    ∷ completed runs 1
    ∷ []

busy_rests : (history Text (start Text) busy).state.flights runs ≡ none
unfolding history happen invalidate_resource invalidate_flight complete_fetch text_eq
busy_rests = refl

busy_kept : (history Text (start Text) busy).dropped runs ≡ false
unfolding history happen invalidate_resource invalidate_flight complete_fetch text_eq
busy_kept = refl

rest_shows_last_example :
    (history Text (start Text) busy).shown runs ≡ (history Text (start Text) busy).clock runs
rest_shows_last_example = rest_shows_last Text busy runs busy_rests busy_kept

abbrev in_flight : Watch Text
in_flight = history Text (start Text) (invalidated runs ∷ [])

late_completion_example :
    happen Text (history Text (happen Text in_flight advanced) busy) (completed runs 0)
    ≡ history Text (happen Text in_flight advanced) busy
late_completion_example = late_completion Text in_flight busy runs 0 (omega arith)

abbrev sent : Uncertain Text Text
sent = record {
  command = codes "cancel";
  target = codes "/runs/1";
  precondition = some (codes "\"3\"");
  receipt = none;
}

reconcile_sound_example :
    Proves sent
      (ReconcileObservation.target (codes "\"4\"") true)
      (reconcile sent (ReconcileObservation.target (codes "\"4\"") true))
    ⊎ (reconcile sent (ReconcileObservation.target (codes "\"4\"") true)
        ≡ Reconciled.uncertain sent)
reconcile_sound_example = reconcile_sound sent (ReconcileObservation.target (codes "\"4\"") true)
