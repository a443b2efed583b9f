-- ===== src/Base/Dict.antt =====
-- `Map<string, V>`: the entries in insertion order. `set` on a present key keeps its place, and
-- `delete` takes the entry out.
use Prim.Native.Nat.{ℕ, suc, ◌+◌}
use mathlib.Core.Path.{◌≡◌, refl, ap, subst}
use mathlib.Core.Logic.{inl, inr}
use mathlib.Core.Option.{Option, none, some}
use mathlib.Core.List.{List, [], ◌∷◌, ◌++◌}
use native.Mathlib.Omega.{arith}
use agent_cat.Base.Tests.{if◌then◌else◌, Bool-cases}
use agent_cat.Base.Lists.{length, sum_by}
use agent_cat.Base.Texts.{Text, text_eq, text_eq_iff, text_eq_sound}

abbrev pub Dict : Type 0 → Type 0
Dict V = List (Text × V)

module _ {V : Type 0} where
  unfoldable pub get : Text → Dict V → Option V
  get k [] = none
  get k ((j, v) ∷ m) = if text_eq j k then some v else get k m

  unfoldable pub set : Text → V → Dict V → Dict V
  set k v [] = (k, v) ∷ []
  set k v ((j, w) ∷ m) = if text_eq j k then (k, v) ∷ m else (j, w) ∷ set k v m

  unfoldable pub delete : Text → Dict V → Dict V
  delete k [] = []
  delete k ((j, w) ∷ m) = if text_eq j k then m else (j, w) ∷ delete k m

  abbrev pub keys : Dict V → List Text
  keys [] = []
  keys ((k, v) ∷ m) = k ∷ keys m

  abbrev pub values : Dict V → List V
  values [] = []
  values ((k, v) ∷ m) = v ∷ values m

  pub get-set :
      (k j : Text) (v : V) (m : Dict V)
      → get j (set k v m) ≡ (if text_eq k j then some v else get j m)
  unfolding get set
  get-set k j v [] = refl
  get-set k j v ((i, w) ∷ m) =
      ground (arith, text_eq_iff k j, text_eq_iff i k, text_eq_iff i j, get-set k j v m)

  -- Measures of the values: the sum, and so the size.
  pub sum-set_present :
      (f : V → ℕ) (k : Text) (v w : V) (m : Dict V)
      → get k m ≡ some w
      → sum_by f (values (set k v m)) + f w ≡ sum_by f (values m) + f v
  unfolding get set
  sum-set_present f k v w [] h = cc
  sum-set_present f k v w ((j, u) ∷ m) h = ground (arith, sum-set_present f k v w m)

  pub sum-set_absent :
      (f : V → ℕ) (k : Text) (v : V) (m : Dict V)
      → get k m ≡ none
      → sum_by f (values (set k v m)) ≡ sum_by f (values m) + f v
  unfolding get set
  sum-set_absent f k v [] h = omega arith
  sum-set_absent f k v ((j, u) ∷ m) h = ground (arith, sum-set_absent f k v m)

  pub length-set_present :
      (k : Text) (v w : V) (m : Dict V) → get k m ≡ some w → length (set k v m) ≡ length m
  unfolding get set
  length-set_present k v w [] h = cc
  length-set_present k v w ((j, u) ∷ m) h = ground (arith, length-set_present k v w m)

  pub length-set_absent :
      (k : Text) (v : V) (m : Dict V) → get k m ≡ none → length (set k v m) ≡ suc (length m)
  unfolding get set
  length-set_absent k v [] h = refl
  length-set_absent k v ((j, u) ∷ m) h = ground (arith, length-set_absent k v m)

  pub keys-set_present :
      (k : Text) (v w : V) (m : Dict V) → get k m ≡ some w → keys (set k v m) ≡ keys m
  unfolding get set
  keys-set_present k v w [] h = cc
  keys-set_present k v w ((j, u) ∷ m) h = ground (arith, text_eq_iff j k, keys-set_present k v w m)

  pub keys-set_absent :
      (k : Text) (v : V) (m : Dict V) → get k m ≡ none → keys (set k v m) ≡ keys m ++ k ∷ []
  unfolding get set
  keys-set_absent k v [] h = refl
  keys-set_absent k v ((j, u) ∷ m) h = ground (arith, keys-set_absent k v m)

  pub length-keys : (m : Dict V) → length (keys m) ≡ length m
  length-keys [] = refl
  length-keys ((k, v) ∷ m) = ap suc (length-keys m)

  -- What holds of each entry.
  abbrev pub Each {κ} : (Text → V → Type κ) → Dict V → Type κ
  Each P [] = Unit
  Each P ((k, v) ∷ m) = P k v × Each P m

  pub Each-get {κ} :
      (P : Text → V → Type κ) (k : Text) (v : V) (m : Dict V) → Each P m → get k m ≡ some v → P k v
  unfolding get
  Each-get P k v [] e h = cc
  Each-get P k v ((j, w) ∷ m) (p, e) h = elim (Bool-cases (text_eq j k)) [
    | inl hit ↦
        let same : w ≡ v = ground arith in
        subst (λ t. P t v) (text_eq_sound j k hit) (subst (P j) same p)
    | inr miss ↦ Each-get P k v m e (rw (miss, get) at h)
  ]

  pub Each-set {κ} :
      (P : Text → V → Type κ) (k : Text) (v : V) (m : Dict V)
      → Each P m
      → P k v
      → Each P (set k v m)
  unfolding set
  Each-set P k v [] e p = (p, tt)
  Each-set P k v ((j, w) ∷ m) (q, e) p = elim (Bool-cases (text_eq j k)) [
    | inl hit ↦ rw hit (p, e)
    | inr miss ↦ rw miss (q, Each-set P k v m e p)
  ]
