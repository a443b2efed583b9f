-- ===== src/Refresh/Coordinator.antt =====
-- `invalidateResource`, `completeFetch` and `advanceGeneration` of ext-pi/src/manager/refresh.ts. The
-- map of flights is a function of the key: nothing in the source reads its order or its size.
use agent_cat.Base.{
  ℕ, ◌+◌, Bool, true, false, not, ◌||◌, List, [], ◌∷◌, Option, none, some, ◌==◌, if◌then◌else◌,
}
use agent_cat.Base.Keys.{Eq}

pub record Flight : Type 0 where
  pub generation : ℕ
  pub dirty : Bool

pub record Refresh (K : Type 0) : Type 0 where
  pub generation : ℕ
  pub flights : K → Option Flight

pub data ActionKind : Type 0 where
  fetch install discard : ActionKind

pub record RefreshAction (K : Type 0) : Type 0 where
  pub kind : ActionKind
  pub key : K
  pub generation : ℕ

pub record RefreshStep (K : Type 0) : Type 0 where
  pub state : Refresh K
  pub actions : List (RefreshAction K)

abbrev pub new_refresh : (K : Type 0) → Refresh K
new_refresh K = record { generation = 0; flights = λ k. none }

abbrev pub advance_generation : {K : Type 0} → Refresh K → Refresh K
advance_generation s = record { generation = s.generation + 1; flights = λ k. none }

abbrev pub action : {K : Type 0} → ActionKind → K → ℕ → RefreshAction K
action kind key generation = record { kind = kind; key = key; generation = generation }

-- `flight.generation !== current` or no flight.
abbrev pub is_stale : Option Flight → ℕ → Bool
is_stale none current = true
is_stale (some f) current = not (f.generation == current)

abbrev pub is_dirty : Option Flight → Bool
is_dirty none = false
is_dirty (some f) = f.dirty

module _ {K : Type 0} ⦃e : Eq K⦄ where
  -- `withFlight`: the flight of one key is set, or deleted.
  abbrev pub with_flight : Refresh K → K → Option Flight → Refresh K
  with_flight s key flight = record s {
    flights = λ k. if e.same key k then flight else s.flights k;
  }

  unfoldable pub invalidate_flight : K → Refresh K → Option Flight → RefreshStep K
  invalidate_flight key s (some flight) = record {
    state = with_flight s key (some (record { generation = flight.generation; dirty = true }));
    actions = [];
  }
  invalidate_flight key s none = record {
    state = with_flight s key (some (record { generation = s.generation; dirty = false }));
    actions = action fetch key s.generation ∷ [];
  }

  unfoldable pub invalidate_resource : K → Refresh K → RefreshStep K
  unfolding invalidate_flight
  invalidate_resource key s = invalidate_flight key s (s.flights key)

  unfoldable pub complete_fetch : K → ℕ → Refresh K → RefreshStep K
  complete_fetch key generation s =
      if not (generation == s.generation) || is_stale (s.flights key) s.generation
      then record { state = s; actions = action discard key generation ∷ [] }
      else if is_dirty (s.flights key)
      then record {
        state = with_flight s key (some (record { generation = s.generation; dirty = false }));
        actions = action install key generation ∷ action fetch key s.generation ∷ [];
      }
      else record { state = with_flight s key none; actions = action install key generation ∷ [] }
