-- ===== src/Reducer/Lists.antt =====
-- The checks of an array member of an event: its emptiness, its bound, and that it holds texts.
use agent_cat.Base.{ℕ, Bool, true, false, List, [], ◌∷◌, Text, ok, err, ◌>>=◌}
use agent_cat.Base.Value.{Value, str}
use agent_cat.Reducer.State.{Refusal}
use agent_cat.Reducer.Fields.{Checked}

abbrev pub is_none_left {ℓ} : {A : Type ℓ} → List A → Bool
is_none_left [] = true
is_none_left (x ∷ xs) = false

abbrev pub max_options : ℕ
max_options = 64

-- The texts of an array that holds nothing but texts.
unfoldable pub texts_of : List Value → Refusal → Checked (List Text)
texts_of [] r = ok []
texts_of (str t ∷ vs) r = do rest ← texts_of vs r; ok (t ∷ rest)
texts_of (v ∷ vs) r = err r
