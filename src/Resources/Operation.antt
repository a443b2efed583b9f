-- ===== src/Resources/Operation.antt =====
-- `OPERATIONS` and `requiredScopes` of ext-pi/src/manager/resources.ts.
use agent_cat.Base.{
  ◌≡◌, refl, List, [], ◌∷◌, map, Option, none, some, String, Text, codes, text_eq, if◌then◌else◌,
}
use agent_cat.Json.Value.{JsonValue, string}

pub data Operation : Type 0 where
  create capture set_input remove_input enqueue withdraw approve discard cancel : Operation
  steer retry choose_recovery redirect answer export restart resume fork : Operation

abbrev pub operations : List Operation
operations =
    create ∷ capture ∷ set_input ∷ remove_input ∷ enqueue ∷ withdraw ∷ approve ∷ discard ∷ cancel
    ∷ steer ∷ retry ∷ choose_recovery ∷ redirect ∷ answer ∷ export ∷ restart ∷ resume ∷ fork ∷ []

unfoldable pub operation_text : Operation → Text
operation_text create = codes "create"
operation_text capture = codes "capture"
operation_text set_input = codes "set-input"
operation_text remove_input = codes "remove-input"
operation_text enqueue = codes "enqueue"
operation_text withdraw = codes "withdraw"
operation_text approve = codes "approve"
operation_text discard = codes "discard"
operation_text cancel = codes "cancel"
operation_text steer = codes "steer"
operation_text retry = codes "retry"
operation_text choose_recovery = codes "choose-recovery"
operation_text redirect = codes "redirect"
operation_text answer = codes "answer"
operation_text export = codes "export"
operation_text restart = codes "restart"
operation_text resume = codes "resume"
operation_text fork = codes "fork"

unfoldable pub find_operation : List Operation → Text → Option Operation
find_operation [] t = none
find_operation (o ∷ os) t =
    let rest = find_operation os t in if text_eq (operation_text o) t then some o else rest

abbrev pub parse_operation : Option JsonValue → Option Operation
parse_operation (some (string t)) = find_operation operations t
parse_operation _ = none

abbrev scopes : List String → List Text
scopes names = map codes names

unfoldable pub required_scopes : Operation → List Text
required_scopes create = scopes ("submit" ∷ [])
required_scopes capture = scopes ("submit" ∷ [])
required_scopes set_input = scopes ("submit" ∷ [])
required_scopes remove_input = scopes ("submit" ∷ [])
required_scopes enqueue = scopes ("submit" ∷ [])
required_scopes withdraw = scopes ("submit" ∷ [])
required_scopes approve = scopes ("submit" ∷ "control" ∷ [])
required_scopes discard = scopes ("submit" ∷ "control" ∷ [])
required_scopes cancel = scopes ("control" ∷ [])
required_scopes steer = scopes ("control" ∷ [])
required_scopes retry = scopes ("control" ∷ [])
required_scopes choose_recovery = scopes ("control" ∷ [])
required_scopes redirect = scopes ("control" ∷ [])
required_scopes answer = scopes ("control" ∷ [])
required_scopes export = scopes ("observe" ∷ "export" ∷ [])
required_scopes restart = scopes ("observe" ∷ "submit" ∷ [])
required_scopes resume = scopes ("observe" ∷ "submit" ∷ [])
required_scopes fork = scopes ("observe" ∷ "submit" ∷ [])

-- An operation is read back from its text.
pub find-operation_text : (o : Operation) → find_operation operations (operation_text o) ≡ some o
unfolding find_operation operation_text text_eq
find-operation_text create = refl
find-operation_text capture = refl
find-operation_text set_input = refl
find-operation_text remove_input = refl
find-operation_text enqueue = refl
find-operation_text withdraw = refl
find-operation_text approve = refl
find-operation_text discard = refl
find-operation_text cancel = refl
find-operation_text steer = refl
find-operation_text retry = refl
find-operation_text choose_recovery = refl
find-operation_text redirect = refl
find-operation_text answer = refl
find-operation_text export = refl
find-operation_text restart = refl
find-operation_text resume = refl
find-operation_text fork = refl
