-- ===== src/Refresh/Freshness.antt =====
-- What the refresh coordination promises to a reader: no invalidation is lost, and no fetch of an
-- earlier generation installs. The client is watched by clocks that the code does not have: each
-- invalidation of a key advances the key's clock, and each fetch, told apart by its key and its
-- generation, reads the resource at its own clock.
use agent_cat.Base.{
  ℕ, ◌+◌, ◌≤◌, ◌≡◌, refl, ◌⊎◌, inl, inr, Bool, true, false, List, [], ◌∷◌, Option, none, some, ◌==◌,
  ==_iff, ==_less, if◌then◌else◌, Bool-cases, Option-cases, arith, subst, not, ◌||◌, ◌&&◌, ap, ◌∙◌,
}
use agent_cat.Base.Keys.{Eq}
use agent_cat.Refresh.Coordinator.{
  Flight, Refresh, ActionKind, fetch, install, discard, RefreshAction, new_refresh,
  advance_generation, is_stale, is_dirty, invalidate_resource, complete_fetch, invalidate_flight,
}

module _ (K : Type 0) ⦃e : Eq K⦄ where
  -- The coordinator with the clocks: how often each key was invalidated, the clock at which the last
  -- fetch of each generation started, the clock of the value installed last, and whether a new generation dropped
  -- what the client knew of the key.
  pub record Watch : Type 0 where
    pub state : Refresh K
    pub clock : K → ℕ
    pub reading : K → ℕ → ℕ
    pub shown : K → ℕ
    pub dropped : K → Bool

  abbrev pub start : Watch
  start = record {
    state = new_refresh K;
    clock = λ k. 0;
    reading = λ k g. 0;
    shown = λ k. 0;
    dropped = λ k. false;
  }

  -- The client performs the actions of a step, in order.
  abbrev perform_one : RefreshAction K → ActionKind → Watch → Watch
  perform_one a fetch w = record w {
    reading = λ k g. if e.same a.key k && g == a.generation then w.clock k else w.reading k g;
  }
  perform_one a install w = record w {
    shown = λ k. if e.same a.key k then w.reading k a.generation else w.shown k;
  }
  perform_one a discard w = w

  abbrev pub perform : List (RefreshAction K) → Watch → Watch
  perform [] w = w
  perform (a ∷ rest) w = perform rest (perform_one a a.kind w)

  abbrev pub tick : K → Watch → Watch
  tick key w = record w {
    clock = λ k. if e.same key k then w.clock k + 1 else w.clock k;
    dropped = λ k. if e.same key k then false else w.dropped k;
  }

  -- What happens to the client: an invalidation, the completion of a fetch, a new generation.
  pub data Happening : Type 0 where
    invalidated : K → Happening
    completed : K → ℕ → Happening
    advanced : Happening

  unfoldable pub happen : Watch → Happening → Watch
  happen w (invalidated key) =
      let step = invalidate_resource key w.state in
      perform step.actions (record (tick key w) { state = step.state })
  happen w (completed key generation) =
      let step = complete_fetch key generation w.state in
      perform step.actions (record w { state = step.state })
  happen w advanced = record w { state = advance_generation w.state; dropped = λ k. true }

  unfoldable pub history : Watch → List Happening → Watch
  history w [] = w
  history w (h ∷ hs) = history (happen w h) hs

  -- A key at rest shows the value of its last invalidation, unless a new generation dropped it. A
  -- fetch in flight is of the current generation, and a clean one reads that value.
  abbrev pub Fresh : (current clock reading shown : ℕ) → Bool → Option Flight → Type 0
  Fresh current clock reading shown dropped none = (dropped ≡ true) ⊎ (shown ≡ clock)
  Fresh current clock reading shown dropped (some f) =
      (f.generation ≡ current)
      × (reading ≤ clock)
      × (dropped ≡ false)
      × (f.dirty ≡ false → reading ≡ clock)

  abbrev pub IsFresh : Watch → K → Type 0
  IsFresh w k =
      Fresh w.state.generation (w.clock k) (w.reading k w.state.generation) (w.shown k)
        (w.dropped k) (w.state.flights k)

  abbrev FreshWith : Watch → K → Option Flight → Type 0
  FreshWith w k flight =
      Fresh w.state.generation (w.clock k) (w.reading k w.state.generation) (w.shown k)
        (w.dropped k) flight

  hits : (key : K) → e.same key key ≡ true
  hits key = (e.same_iff key key).1 refl

  same_number : (n : ℕ) → (n == n) ≡ true
  same_number n = (==_iff n n).1 refl

  -- The steps for the key itself, whatever its flight is.
  invalidated_here :
      (w : Watch) (key : K) (f : Option Flight)
      → w.state.flights key ≡ f
      → FreshWith w key f
      → IsFresh (happen w (invalidated key)) key
  unfolding happen invalidate_resource invalidate_flight
  invalidated_here w key none h fresh =
      rw (h, hits key, same_number w.state.generation) (refl, omega arith, refl, λ clean. refl)
  invalidated_here w key (some f) h (current, le, kept, clean) =
      rw (h, hits key) (current, omega arith, refl, λ d. ground arith)

  completed_here :
      (w : Watch) (key : K) (g : ℕ) (f : Option Flight)
      → w.state.flights key ≡ f
      → FreshWith w key f
      → IsFresh (happen w (completed key g)) key
  unfolding happen complete_fetch
  completed_here w key g none h fresh = elim (Bool-cases (g == w.state.generation)) [
    | inl same ↦ rw (h, same) (rw h fresh)
    | inr other ↦ rw (h, other) (rw h fresh)
  ]
  completed_here w key g (some f) h (current, le, kept, clean) =
      elim (Bool-cases (g == w.state.generation)) [
        | inr other ↦ rw (h, other) (rw h (current, le, kept, clean))
        | inl same ↦ elim (Bool-cases f.dirty) [
          | inl dirty ↦
              rw (h, same, current, same_number w.state.generation, dirty, hits key)
                (
                  refl,
                  rw (same_number w.state.generation) (omega arith),
                  kept,
                  λ d. rw (same_number w.state.generation) refl,
                )
          | inr still ↦
              rw (h, same, current, same_number w.state.generation, still, hits key)
                (inr (ap (w.reading key) ((==_iff g w.state.generation).0 same) ∙ clean still))
        ]
      ]

  -- The steps for another key.
  invalidated_elsewhere :
      (w : Watch) (key k : K) (f : Option Flight)
      → w.state.flights key ≡ f
      → e.same key k ≡ false
      → IsFresh w k
      → IsFresh (happen w (invalidated key)) k
  unfolding happen invalidate_resource invalidate_flight
  invalidated_elsewhere w key k none h miss fresh = rw (h, miss) fresh
  invalidated_elsewhere w key k (some f) h miss fresh = rw (h, miss) fresh

  completed_elsewhere :
      (w : Watch) (key k : K) (g : ℕ)
      → e.same key k ≡ false
      → IsFresh w k
      → IsFresh (happen w (completed key g)) k
  unfolding happen complete_fetch
  completed_elsewhere w key k g miss fresh =
      elim (Bool-cases
        (not (g == w.state.generation) || is_stale (w.state.flights key) w.state.generation)) [
          | inl stale ↦ rw stale fresh
          | inr current ↦ elim (Bool-cases (is_dirty (w.state.flights key))) [
            | inl dirty ↦ rw (current, dirty, miss) fresh
            | inr clean ↦ rw (current, clean, miss) fresh
          ]
        ]

  happen-IsFresh :
      (w : Watch) (h : Happening) → ((k : K) → IsFresh w k) → (k : K) → IsFresh (happen w h) k
  unfolding happen
  happen-IsFresh w (invalidated key) fresh k = elim (Bool-cases (e.same key k)) [
    | inl hit ↦
        subst (λ j. IsFresh (happen w (invalidated key)) j) ((e.same_iff key k).0 hit)
          (invalidated_here w key (w.state.flights key) refl (fresh key))
    | inr miss ↦ invalidated_elsewhere w key k (w.state.flights key) refl miss (fresh k)
  ]
  happen-IsFresh w (completed key g) fresh k = elim (Bool-cases (e.same key k)) [
    | inl hit ↦
        subst (λ j. IsFresh (happen w (completed key g)) j) ((e.same_iff key k).0 hit)
          (completed_here w key g (w.state.flights key) refl (fresh key))
    | inr miss ↦ completed_elsewhere w key k g miss (fresh k)
  ]
  happen-IsFresh w advanced fresh k = inl refl

  history-IsFresh :
      (hs : List Happening) (w : Watch)
      → ((k : K) → IsFresh w k)
      → (k : K) → IsFresh (history w hs) k
  unfolding history
  history-IsFresh [] w fresh k = fresh k
  history-IsFresh (h ∷ hs) w fresh k = history-IsFresh hs (happen w h) (happen-IsFresh w h fresh) k

  at_rest :
      (w : Watch) (k : K) (f : Option Flight)
      → f ≡ none
      → w.dropped k ≡ false
      → FreshWith w k f
      → w.shown k ≡ w.clock k
  at_rest w k none rest kept (inl dropped) = ground arith
  at_rest w k none rest kept (inr shown) = shown
  at_rest w k (some f) rest kept fresh = ground arith

  -- In every history of invalidations, completions of any generation, late ones too, and resnapshots,
  -- a key without a fetch in flight that was invalidated since the last resnapshot shows the resource
  -- as it was read at or after its last invalidation: coalescing loses no invalidation.
  pub rest_shows_last :
      (hs : List Happening) (k : K)
      → (history start hs).state.flights k ≡ none
      → (history start hs).dropped k ≡ false
      → (history start hs).shown k ≡ (history start hs).clock k
  rest_shows_last hs k rest kept =
      let w = history start hs in
      at_rest w k (w.state.flights k) rest kept (history-IsFresh hs start (λ j. inr refl) k)

  generation_step : (w : Watch) (h : Happening) → w.state.generation ≤ (happen w h).state.generation
  unfolding happen invalidate_resource invalidate_flight complete_fetch
  generation_step w (invalidated key) = elim (Option-cases (w.state.flights key)) [
    | inl idle ↦ rw idle (omega arith)
    | inr (f, busy) ↦ rw busy (omega arith)
  ]
  generation_step w (completed key g) =
      elim (Bool-cases
        (not (g == w.state.generation) || is_stale (w.state.flights key) w.state.generation)) [
          | inl stale ↦ rw stale (omega arith)
          | inr current ↦ elim (Bool-cases (is_dirty (w.state.flights key))) [
            | inl dirty ↦ rw (current, dirty) (omega arith)
            | inr clean ↦ rw (current, clean) (omega arith)
          ]
        ]
  generation_step w advanced = omega arith

  generation_le :
      (hs : List Happening) (w : Watch) → w.state.generation ≤ (history w hs).state.generation
  unfolding history
  generation_le [] w = omega arith
  generation_le (h ∷ hs) w =
      let first = generation_step w h in let rest = generation_le hs (happen w h) in omega arith

  -- A fetch that started before a resnapshot changes nothing when it completes, however much happened
  -- since: neither the coordination nor what any key shows.
  pub late_completion :
      (w : Watch) (hs : List Happening) (key : K) (g : ℕ)
      → g ≤ w.state.generation
      → happen (history (happen w advanced) hs) (completed key g) ≡ history (happen w advanced) hs
  unfolding happen complete_fetch
  late_completion w hs key g le =
      let later = generation_le hs (happen w advanced) in
      rw (==_less g (history (happen w advanced) hs).state.generation (omega arith))
