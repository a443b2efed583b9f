-- ===== src/Reducer/Progress.antt =====
-- `applyProgress` of ext-pi/src/reducer.ts: the public progress of one attempt.
use agent_cat.Base.{
  ℕ, ◌-◌, Bool, true, false, not, ◌&&◌, ◌||◌, List, [], ◌∷◌, ◌++◌, Option, none, some, Text, is,
  big_int, code_points, is_empty, all, length, drop, ltb, leb, ◌==◌, if◌then◌else◌, ok, err, ◌>>=◌,
  ◌>>◌, refuse, required,
}
use agent_cat.Base.Dict.{get, set}
use agent_cat.Base.Value.{Value, Members, undefined, arr, items, field}
use agent_cat.Reducer.State.{
  Refusal, Platform, ToolStatus, PublicToolProgress, Priority, high, medium, low, TodoStatus,
  PublicTodoItem, Attempt,
}
use agent_cat.Reducer.State.{
  bad_progress, unknown_progress, too_long, bad_identifier, bad_tool, too_many_tools,
  unknown_tool_status, bad_todos, unknown_priority, unknown_todo_status, bad_usage,
  usage_out_of_window,
}
use agent_cat.Reducer.Fields.{Checked, text, members, natural_text}

-- What follows `text_eq` chains: a closed set of spellings, in the source's order.
tool_status_of : Text → Option ToolStatus
tool_status_of t =
    if is t "pending"
    then some ToolStatus.pending
    else if is t "in_progress"
    then some ToolStatus.in_progress
    else if is t "completed"
    then some ToolStatus.completed
    else if is t "failed"
    then some ToolStatus.failed
    else if is t "cancelled"
    then some ToolStatus.cancelled
    else none

priority_of : Text → Option Priority
priority_of t =
    if is t "high"
    then some high
    else if is t "medium"
    then some medium
    else if is t "low"
    then some low
    else none

todo_status_of : Text → Option TodoStatus
todo_status_of t =
    if is t "pending"
    then some TodoStatus.pending
    else if is t "in_progress"
    then some TodoStatus.in_progress
    else if is t "completed"
    then some TodoStatus.completed
    else none

unfoldable pub bounded_progress_text : Value → ℕ → Checked Text
bounded_progress_text v maximum = do
  t ← text v
  refuse (is_empty t || ltb maximum (length (code_points t))) too_long
  ok t

-- `/^[\p{L}\p{N}._:-]+$/u`.
abbrev is_identifier_character : Platform → ℕ → Bool
is_identifier_character p c =
    p.is_letter c || p.is_number c || c == b'.' || c == b'_' || c == b':' || c == b'-'

unfoldable pub progress_identifier : Platform → Value → Checked Text
progress_identifier p v = do
  t ← text v
  refuse
      (is_empty t
        || ltb 128 (length (code_points t))
        || not (all (is_identifier_character p) (code_points t)))
      bad_identifier
  ok t

abbrev when_present : {A : Type 0} → (Value → Checked A) → Value → Checked (Option A)
when_present read undefined = ok none
when_present read v = do a ← read v; ok (some a)

unfoldable pub optional_progress_text : Value → ℕ → Checked (Option Text)
optional_progress_text v maximum = when_present (λ w. bounded_progress_text w maximum) v

tool_status : Value → Checked ToolStatus
unfolding tool_status_of
tool_status v = do t ← text v; required (tool_status_of t) unknown_tool_status

unfoldable pub optional_tool_status : Value → Checked (Option ToolStatus)
unfolding tool_status
optional_tool_status v = when_present tool_status v

-- `{ ...previous, ...update }`, one member of it.
abbrev overlay : {A : Type 0} → Option A → Option A → Option A
overlay previous none = previous
overlay previous (some update) = some update

-- The record after the update; an unknown tool has no member but those of the update.
merge_tool : Option PublicToolProgress → PublicToolProgress → PublicToolProgress
merge_tool none update = update
merge_tool (some previous) update = record {
  id = update.id;
  title = overlay previous.title update.title;
  tool_kind = overlay previous.tool_kind update.tool_kind;
  status = overlay previous.status update.status;
  summary = overlay previous.summary update.summary;
}

-- `previous` is undefined.
abbrev pub is_absent {ℓ} : {A : Type ℓ} → Option A → Bool
is_absent none = true
is_absent (some a) = false

-- `list.push(item)`, and then `splice` of the oldest items above the maximum.
unfoldable pub push_bounded {ℓ} : {A : Type ℓ} → ℕ → List A → A → List A
push_bounded maximum list new =
    let longer = list ++ new ∷ [] in drop (length longer - maximum) longer

unfoldable pub progress_message : Attempt → Members → Checked Attempt
progress_message attempt ms = do
  content ← bounded_progress_text (field "text" ms) 4096
  ok (record attempt { messages = push_bounded 64 attempt.messages content })

unfoldable pub progress_reasoning : Attempt → Members → Checked Attempt
progress_reasoning attempt ms = do
  content ← bounded_progress_text (field "text" ms) 4096
  ok (record attempt { reasoning_summaries = push_bounded 32 attempt.reasoning_summaries content })

unfoldable pub progress_tool : Platform → Attempt → Members → Checked Attempt
unfolding merge_tool
progress_tool p attempt ms = do
  tool ← members (field "tool" ms) bad_tool
  identifier ← progress_identifier p (field "id" tool)
  let previous = get identifier attempt.tools
  refuse (is_absent previous && leb 128 (length attempt.tools)) too_many_tools
  title ← optional_progress_text (field "title" tool) 1024
  tool_kind ← optional_progress_text (field "toolKind" tool) 128
  status ← optional_tool_status (field "status" tool)
  summary ← optional_progress_text (field "summary" tool) 4096
  let update : PublicToolProgress = record {
    id = identifier;
    title = title;
    tool_kind = tool_kind;
    status = status;
    summary = summary;
  }
  ok (record attempt { tools = set identifier (merge_tool previous update) attempt.tools })

unfoldable pub todo_item : Value → Checked PublicTodoItem
unfolding priority_of todo_status_of
todo_item v = do
  ms ← members v bad_todos
  priority_text ← text (field "priority" ms)
  status_text ← text (field "status" ms)
  priority ← required (priority_of priority_text) unknown_priority
  status ← required (todo_status_of status_text) unknown_todo_status
  content ← bounded_progress_text (field "content" ms) 1024
  ok (record { content = content; priority = priority; status = status })

unfoldable pub todo_items : List Value → Checked (List PublicTodoItem)
todo_items [] = ok []
todo_items (v ∷ vs) = do i ← todo_item v; rest ← todo_items vs; ok (i ∷ rest)

abbrev pub array : Value → Refusal → Checked (List Value)
array (arr vs) e = ok (items vs)
array _ e = err e

unfoldable pub progress_todos : Attempt → Members → Checked Attempt
progress_todos attempt ms = do
  listed ← array (field "items" ms) bad_todos
  refuse (ltb 128 (length listed)) bad_todos
  todos ← todo_items listed
  ok (record attempt { todos = todos })

unfoldable pub progress_usage : Attempt → Members → Checked Attempt
progress_usage attempt ms = do
  usage ← members (field "usage" ms) bad_usage
  used ← natural_text (field "used" usage)
  size ← natural_text (field "size" usage)
  refuse (big_int size == 0 || ltb (big_int size) (big_int used)) usage_out_of_window
  ok (record attempt { usage = some (record { used = used; size = size }) })

unfoldable pub apply_progress : Platform → Attempt → Value → Checked Attempt
apply_progress p attempt v = do
  ms ← members v bad_progress
  kind ← text (field "kind" ms)
  if is kind "message"
      then progress_message attempt ms
      else if is kind "reasoning-summary"
      then progress_reasoning attempt ms
      else if is kind "tool"
      then progress_tool p attempt ms
      else if is kind "todos"
      then progress_todos attempt ms
      else if is kind "usage"
      then progress_usage attempt ms
      else err unknown_progress
