-- ===== src/Monitor/Tests.antt =====
-- Runs of the monitor, and the witness of its theorem.
use agent_cat.Base.{◌≡◌, refl, List, [], ◌∷◌, some, codes, text_eq}
use agent_cat.Base.Int.{pos, negsuc}
use agent_cat.Reducer.State.{RunSnapshot, initial_snapshot}
use agent_cat.Monitor.Model.{
  occurrence_ids, get_elem?, new_monitor, index_of, update, move_in, move, toggle,
}
use agent_cat.Monitor.Selection.{
  Command, show_run, step_by, fold, perform_all, IsSelected, monitor-IsSelected,
}

abbrev empty_run : RunSnapshot
empty_run = initial_snapshot (codes "r")

abbrev two_ordered : RunSnapshot
two_ordered = record empty_run { authored_order = codes "0" ∷ codes "1" ∷ [] }

abbrev one_ordered : RunSnapshot
one_ordered = record empty_run { authored_order = codes "1" ∷ [] }

abbrev session : List Command
session =
    fold
    ∷ show_run two_ordered
    ∷ step_by (pos 5)
    ∷ fold
    ∷ step_by (negsuc 0)
    ∷ show_run one_ordered
    ∷ []

monitor-IsSelected_example : IsSelected (perform_all session (new_monitor empty_run))
monitor-IsSelected_example = monitor-IsSelected empty_run session

selects_first : (perform_all session (new_monitor empty_run)).selected_id ≡ some (codes "1")
unfolding perform_all update move move_in toggle get_elem? occurrence_ids index_of text_eq
    initial_snapshot
selects_first = refl

folds : (perform_all session (new_monitor empty_run)).collapsed ≡ codes "1" ∷ []
unfolding perform_all update move move_in toggle get_elem? occurrence_ids index_of text_eq
    initial_snapshot
folds = refl
