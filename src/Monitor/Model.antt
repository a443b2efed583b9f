-- ===== src/Monitor/Model.antt =====
-- `MonitorModel` of ext-pi/src/monitor.ts, without `render`. A Set of texts is a list.
use agent_cat.Base.{
  ℕ, zero, suc, ◌+◌, ◌-◌, min, Bool, true, not, ◌||◌, List, [], ◌∷◌, ◌++◌, Option, none, some, Text,
  text_eq, includes, is_empty, keep, length, if◌then◌else◌,
}
use agent_cat.Base.Int.{ℤ, pos, negsuc}
use agent_cat.Base.Dict.{keys}
use agent_cat.Reducer.State.{RunSnapshot}

pub record MonitorModel : Type 0 where
  pub snapshot : RunSnapshot
  pub selected_id : Option Text
  pub collapsed : List Text

unfoldable pub occurrence_ids : RunSnapshot → List Text
occurrence_ids s =
    s.authored_order ++ keep (λ id. not (includes s.authored_order id)) (keys s.occurrences)

-- `ids[index]`.
unfoldable pub get_elem? : List Text → ℕ → Option Text
get_elem? [] index = none
get_elem? (id ∷ ids) zero = some id
get_elem? (id ∷ ids) (suc n) = get_elem? ids n

abbrev pub new_monitor : RunSnapshot → MonitorModel
new_monitor s = record {
  snapshot = s;
  selected_id = get_elem? (occurrence_ids s) 0;
  collapsed = [];
}

-- `!selected || !ids.includes(selected)`; an empty text is false as well.
abbrev pub is_lost : List Text → Option Text → Bool
is_lost ids none = true
is_lost ids (some id) = is_empty id || not (includes ids id)

unfoldable pub update : RunSnapshot → MonitorModel → MonitorModel
update s m = record m {
  snapshot = s;
  selected_id =
      if is_lost (occurrence_ids s) m.selected_id
      then get_elem? (occurrence_ids s) 0
      else m.selected_id;
}

-- `Math.max(0, ids.indexOf(selected ?? ids[0]))`.
unfoldable pub index_of : List Text → Text → ℕ
index_of [] t = 0
index_of (id ∷ ids) t =
    let later = index_of ids t in
    if text_eq id t then 0 else if includes ids t then suc later else 0

abbrev pub current_index : List Text → Option Text → ℕ
current_index ids none = 0
current_index ids (some id) = index_of ids id

-- `Math.max(0, Math.min(last, current + delta))`.
abbrev pub moved : ℕ → ℕ → ℤ → ℕ
moved last current (pos n) = min last (current + n)
moved last current (negsuc n) = min last (current - suc n)

unfoldable pub move_in : List Text → ℤ → MonitorModel → MonitorModel
move_in [] delta m = m
move_in (id ∷ ids) delta m = record m {
  selected_id =
      get_elem? (id ∷ ids) (moved (length ids) (current_index (id ∷ ids) m.selected_id) delta);
}

unfoldable pub move : ℤ → MonitorModel → MonitorModel
unfolding move_in
move delta m = move_in (occurrence_ids m.snapshot) delta m

abbrev pub fold_at : Text → List Text → List Text
fold_at id collapsed =
    if includes collapsed id
    then keep (λ other. not (text_eq other id)) collapsed
    else collapsed ++ id ∷ []

abbrev pub toggled : Option Text → MonitorModel → MonitorModel
toggled none m = m
toggled (some id) m = if is_empty id then m else record m { collapsed = fold_at id m.collapsed }

unfoldable pub toggle : MonitorModel → MonitorModel
toggle m = toggled m.selected_id m
