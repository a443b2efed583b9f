-- ===== src/Reducer/Bounds/Progress.antt =====
-- The limits of an attempt under public progress.
use agent_cat.Base.{
  ℕ, ◌-◌, ◌≤◌, ◌≡◌, inl, inr, false, ◌&&◌, List, [], ◌∷◌, ◌++◌, Text, length, length-drop, leb,
  arith, Option-cases, ok, >>=-eq-ok,
}
use agent_cat.Base.Dict.{Dict, get, set, length-set_present, length-set_absent}
use agent_cat.Base.Value.{Value, Members, field}
use agent_cat.Reducer.State.{Platform, PublicTodoItem, Attempt}
use agent_cat.Reducer.State.{bad_progress}
use agent_cat.Reducer.Fields.{text, members}
use agent_cat.Reducer.Progress.{
  push_bounded, todo_item, todo_items, apply_progress, is_absent, progress_message,
  progress_reasoning, progress_tool, progress_todos, progress_usage,
}
use agent_cat.Reducer.Bounds.{AttemptBounds}

length-push_bounded {ℓ} :
    {A : Type ℓ} (maximum : ℕ) (xs : List A) (x : A) → length (push_bounded maximum xs x) ≤ maximum
unfolding push_bounded
length-push_bounded maximum xs x =
    omega (arith, length-drop (length (xs ++ x ∷ []) - maximum) (xs ++ x ∷ []))

length-todo_items :
    (vs : List Value) (ts : List PublicTodoItem) → todo_items vs ≡ ok ts → length ts ≡ length vs
unfolding todo_items
length-todo_items [] ts h = ground arith
length-todo_items (v ∷ vs) ts h =
    let (i, _, h₁) = >>=-eq-ok (todo_item v) _ h in
    let (rest, e, h₂) = >>=-eq-ok (todo_items vs) _ h₁ in
    ground (arith, length-todo_items vs rest e)

-- The bounds of the attempt hold again, and its steer records and its identifier are the same.
abbrev pub Keeps : Attempt → Attempt → Type 0
Keeps a a' = (AttemptBounds a → AttemptBounds a') × (a'.steers ≡ a.steers) × (a'.id ≡ a.id)

progress_message-Keeps :
    (a a' : Attempt) (ms : Members) → progress_message a ms ≡ ok a' → Keeps a a'
unfolding progress_message
progress_message-Keeps a a' ms h = grind (arith, length-push_bounded)

progress_reasoning-Keeps :
    (a a' : Attempt) (ms : Members) → progress_reasoning a ms ≡ ok a' → Keeps a a'
unfolding progress_reasoning
progress_reasoning-Keeps a a' ms h = grind (arith, length-push_bounded)

length-set-le :
    {V : Type 0} (limit : ℕ) (k : Text) (v : V) (m : Dict V)
    → (is_absent (get k m) && leb limit (length m)) ≡ false
    → length m ≤ limit
    → length (set k v m) ≤ limit
length-set-le limit k v m h le = elim (Option-cases (get k m)) [
  | inl missing ↦ ground (arith, length-set_absent k v m)
  | inr (w, present) ↦ ground (arith, length-set_present k v w m present)
]

progress_tool-Keeps :
    (p : Platform) (a a' : Attempt) (ms : Members) → progress_tool p a ms ≡ ok a' → Keeps a a'
unfolding progress_tool
progress_tool-Keeps p a a' ms h = grind (arith, length-set-le)

progress_todos-Keeps : (a a' : Attempt) (ms : Members) → progress_todos a ms ≡ ok a' → Keeps a a'
unfolding progress_todos
progress_todos-Keeps a a' ms h = grind (arith, length-todo_items)

progress_usage-Keeps : (a a' : Attempt) (ms : Members) → progress_usage a ms ≡ ok a' → Keeps a a'
unfolding progress_usage
progress_usage-Keeps a a' ms h = ground arith

pub apply_progress-Keeps :
    (p : Platform) (a a' : Attempt) (v : Value) → apply_progress p a v ≡ ok a' → Keeps a a'
unfolding apply_progress
apply_progress-Keeps p a a' v h =
    let (ms, _, h₁) = >>=-eq-ok (members v bad_progress) _ h in
    let (kind, _, h₂) = >>=-eq-ok (text (field "kind" ms)) _ h₁ in
    ground (
      arith,
      progress_message-Keeps a a' ms,
      progress_reasoning-Keeps a a' ms,
      progress_tool-Keeps p a a' ms,
      progress_todos-Keeps a a' ms,
      progress_usage-Keeps a a' ms,
    )
