-- ===== src/Monitor/Selection.antt =====
-- What the monitor of ext-pi/src/monitor.ts has selected.
use agent_cat.Base.{
  ℕ, zero, suc, ◌+◌, ◌≤◌, ◌≡◌, refl, ap, true, false, List, [], ◌∷◌, Option, none, some, Text,
  text_eq_refl, includes, is_empty, length, Bool-cases, inl, inr, arith,
}
use agent_cat.Base.Int.{ℤ, pos, negsuc}
use agent_cat.Reducer.State.{RunSnapshot}
use agent_cat.Monitor.Model.{
  MonitorModel, occurrence_ids, get_elem?, new_monitor, is_lost, update, current_index, moved,
  move_in, move, toggled, toggle,
}

-- What the user and the run do to a monitor.
pub data Command : Type 0 where
  show_run : RunSnapshot → Command
  step_by : ℤ → Command
  fold : Command

abbrev pub perform : Command → MonitorModel → MonitorModel
perform (show_run s) m = update s m
perform (step_by delta) m = move delta m
perform fold m = toggle m

unfoldable pub perform_all : List Command → MonitorModel → MonitorModel
perform_all [] m = m
perform_all (c ∷ cs) m = perform_all cs (perform c m)

-- The selection is one of the ids, and there is none only if there are no ids.
abbrev pub Selected : List Text → Option Text → Type 0
Selected ids none = ids ≡ []
Selected ids (some id) = includes ids id ≡ true

abbrev pub IsSelected : MonitorModel → Type 0
IsSelected m = Selected (occurrence_ids m.snapshot) m.selected_id

Selected-cons :
    (id : Text) (ids : List Text) (o : Option Text)
    → 1 ≤ length ids
    → Selected ids o
    → Selected (id ∷ ids) o
Selected-cons id ids none le h =
    let none_left : length ids ≡ 0 = ap length h in absurd (omega arith)
Selected-cons id ids (some t) le h = ground arith

get_elem?-Selected : (ids : List Text) (n : ℕ) → n + 1 ≤ length ids → Selected ids (get_elem? ids n)
unfolding get_elem?
get_elem?-Selected [] n h = absurd (omega arith)
get_elem?-Selected (id ∷ ids) zero h = ground (arith, text_eq_refl id)
get_elem?-Selected (id ∷ ids) (suc n) h =
    Selected-cons id ids (get_elem? ids n) (omega arith) (get_elem?-Selected ids n (omega arith))

head-Selected : (ids : List Text) → Selected ids (get_elem? ids 0)
unfolding get_elem?
head-Selected [] = refl
head-Selected (id ∷ ids) = ground (arith, text_eq_refl id)

lost-Selected : (ids : List Text) (o : Option Text) → is_lost ids o ≡ false → Selected ids o
lost-Selected ids none h = ground arith
lost-Selected ids (some id) h = ground arith

update-IsSelected : (s : RunSnapshot) (m : MonitorModel) → IsSelected (update s m)
unfolding update
update-IsSelected s m = elim (Bool-cases (is_lost (occurrence_ids s) m.selected_id)) [
  | inl lost ↦ rw lost (head-Selected (occurrence_ids s))
  | inr kept ↦ rw kept (lost-Selected (occurrence_ids s) m.selected_id kept)
]

moved-less : (last current : ℕ) (delta : ℤ) → moved last current delta + 1 ≤ suc last
moved-less last current (pos n) = omega arith
moved-less last current (negsuc n) = omega arith

move_in-IsSelected :
    (ids : List Text) (delta : ℤ) (m : MonitorModel)
    → occurrence_ids m.snapshot ≡ ids
    → IsSelected m
    → IsSelected (move_in ids delta m)
unfolding move_in
move_in-IsSelected [] delta m e h = h
move_in-IsSelected (id ∷ ids) delta m e h = rw e (
    get_elem?-Selected (id ∷ ids)
      (moved (length ids) (current_index (id ∷ ids) m.selected_id) delta)
      (moved-less (length ids) (current_index (id ∷ ids) m.selected_id) delta))

toggled-IsSelected : (o : Option Text) (m : MonitorModel) → IsSelected m → IsSelected (toggled o m)
toggled-IsSelected none m h = h
toggled-IsSelected (some id) m h = elim (Bool-cases (is_empty id)) [
  | inl empty ↦ rw empty h
  | inr named ↦ rw named h
]

perform-IsSelected : (c : Command) (m : MonitorModel) → IsSelected m → IsSelected (perform c m)
unfolding move toggle
perform-IsSelected (show_run s) m h = update-IsSelected s m
perform-IsSelected (step_by delta) m h =
    move_in-IsSelected (occurrence_ids m.snapshot) delta m refl h
perform-IsSelected fold m h = toggled-IsSelected m.selected_id m h

perform_all-IsSelected :
    (cs : List Command) (m : MonitorModel) → IsSelected m → IsSelected (perform_all cs m)
unfolding perform_all
perform_all-IsSelected [] m h = h
perform_all-IsSelected (c ∷ cs) m h =
    perform_all-IsSelected cs (perform c m) (perform-IsSelected c m h)

-- Whatever snapshots the run shows and whatever the user does, a monitor has one of the identifiers
-- that its snapshot lists selected, those of the authored order and those of the other occurrences, and
-- it has none selected only while the snapshot lists none.
pub monitor-IsSelected :
    (s : RunSnapshot) (cs : List Command) → IsSelected (perform_all cs (new_monitor s))
monitor-IsSelected s cs =
    perform_all-IsSelected cs (new_monitor s) (head-Selected (occurrence_ids s))
