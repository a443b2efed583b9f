-- ===== src/Session/Watched.antt =====
-- The steps of a session of ext-pi/src/manager/session.ts, and its generations.
use agent_cat.Base.{
  ℕ, ◌≤◌, ◌≡◌, refl, ap, ◌∙◌, inl, inr, Bool, true, false, not, ◌&&◌, ◌||◌, List, [], ◌∷◌, Text, is,
  includes, ◌==◌, arith, if◌then◌else◌, Bool-cases, Option-cases, Result-cases, ok, err,
}
use agent_cat.Base.Keys.{text_keys}
use agent_cat.Events.Failure.{Outcome}
use agent_cat.Refresh.Coordinator.{
  Refresh, is_stale, is_dirty, invalidate_flight, invalidate_resource, complete_fetch,
}
use agent_cat.Session.Live.{
  Live, Answer, of_overview, of_resource, installed_in, is_affected, overview_key, Binding,
  invalidate, invalidate_all, invalidated, watch, complete, read_again, resnapshot, watch_overview,
  bootstrapped, invalidate_watched, commit_switch, close,
}
use agent_cat.Session.Service.{Reference, check}

module _ {Overview : Type 0} where
  -- What may happen to a session.
  pub data Step (s : Live Overview) : Live Overview → Type 0 where
    event : (resource : Text) → Step s (invalidated resource s)
    watching : (reference : Reference) → Step s (watch reference s).1
    completed :
        (key : Text) (generation : ℕ) (answer : Answer Overview)
        → Step s (complete key generation answer s)
    timer : (key : Text) (generation : ℕ) → Step s (read_again key generation s)
    expired : Step s (resnapshot s)
    starting : Step s (watch_overview s)
    started :
        (generation : ℕ) (outcome : Outcome Overview) → Step s (bootstrapped generation outcome s)
    refreshing : Step s (invalidate_watched s)
    switching :
        (earlier : ℕ) (binding : Binding) (outcome : Outcome Overview)
        → Step s (commit_switch earlier binding outcome s)
    closing : Step s (close s)

  pub data Steps (s : Live Overview) : Live Overview → Type 0 where
    here : Steps s s
    after : (t u : Live Overview) → Steps s t → Step t u → Steps s u

invalidate_resource-generation :
    (key : Text) (r : Refresh Text) → (invalidate_resource key r).state.generation ≡ r.generation
unfolding invalidate_resource invalidate_flight
invalidate_resource-generation key r = elim (Option-cases (r.flights key)) [
  | inl e ↦ rw (e, invalidate_resource) refl
  | inr (flight, e) ↦ rw (e, invalidate_resource) refl
]

complete_fetch-generation :
    (key : Text) (generation : ℕ) (r : Refresh Text)
    → (complete_fetch key generation r).state.generation ≡ r.generation
unfolding complete_fetch
complete_fetch-generation key generation r =
    elim (Bool-cases (not (generation == r.generation) || is_stale (r.flights key) r.generation)) [
      | inl e ↦ rw (e, complete_fetch) refl
      | inr e ↦
          rw (e, complete_fetch)
            (elim (Bool-cases (is_dirty (r.flights key))) [
              | inl e' ↦ rw e' refl
              | inr e' ↦ rw e' refl
            ])
    ]

module _ {Overview : Type 0} where
  installed_in-refresh :
      (b : Bool) (key : Text) (answer : Answer Overview) (s : Live Overview)
      → (if b then installed_in key answer s else s).refresh ≡ s.refresh
  installed_in-refresh true key (of_overview outcome) s = refl
  installed_in-refresh true key (of_resource outcome) s = refl
  installed_in-refresh false key answer s = refl

  invalidate_all-generation :
      (test : Text → Bool) (keys : List Text) (s : Live Overview)
      → (invalidate_all test keys s).refresh.generation ≡ s.refresh.generation
  unfolding invalidate_all invalidate
  invalidate_all-generation test [] s = refl
  invalidate_all-generation test (key ∷ keys) s = elim (Bool-cases (test key)) [
    | inl e ↦
        rw (e, invalidate_all)
          (invalidate_all-generation test keys (invalidate key s)
            ∙ invalidate_resource-generation key s.refresh)
    | inr e ↦ rw (e, invalidate_all) (invalidate_all-generation test keys s)
  ]

  complete-generation :
      (key : Text) (generation : ℕ) (answer : Answer Overview) (s : Live Overview)
      → (complete key generation answer s).refresh.generation ≡ s.refresh.generation
  unfolding complete
  complete-generation key generation answer s =
      ap (λ (r : Refresh Text). r.generation) (installed_in-refresh _ key answer _)
      ∙ complete_fetch-generation key generation s.refresh

  watch-generation :
      (reference : Reference) (s : Live Overview)
      → (watch reference s).1.refresh.generation ≡ s.refresh.generation
  unfolding watch invalidate
  watch-generation reference s = elim (Result-cases (check s.closed s.identity reference)) [
    | inl (failure, e) ↦ rw (e, watch) refl
    | inr (done, e) ↦
        rw (e, watch)
          (elim (Bool-cases (includes s.watched reference.uri)) [
            | inl e' ↦ rw e' refl
            | inr e' ↦ rw e' (invalidate_resource-generation reference.uri s.refresh)
          ])
  ]

  read_again-generation :
      (key : Text) (generation : ℕ) (s : Live Overview)
      → (read_again key generation s).refresh.generation ≡ s.refresh.generation
  unfolding read_again invalidate
  read_again-generation key generation s =
      elim (Bool-cases
        (not s.closed && generation == s.refresh.generation && includes s.watched key)) [
          | inl e ↦ rw (e, read_again) (invalidate_resource-generation key s.refresh)
          | inr e ↦ rw (e, read_again) refl
        ]

  commit_switch-generation :
      (earlier : ℕ) (binding : Binding) (outcome : Outcome Overview) (s : Live Overview)
      → s.refresh.generation ≤ (commit_switch earlier binding outcome s).refresh.generation
  unfolding commit_switch
  commit_switch-generation earlier binding (err failure) s = omega arith
  commit_switch-generation earlier binding (ok overview) s =
      elim (Bool-cases (not s.closed && s.transport == earlier)) [
        | inl e ↦ rw (e, commit_switch) (omega arith)
        | inr e ↦ rw (e, commit_switch) (omega arith)
      ]

  watch_overview-generation :
      (s : Live Overview) → (watch_overview s).refresh.generation ≡ s.refresh.generation
  watch_overview-generation s = elim (Bool-cases (includes s.watched overview_key)) [
    | inl e ↦ rw e refl
    | inr e ↦ rw e refl
  ]

  bootstrapped-generation :
      (generation : ℕ) (outcome : Outcome Overview) (s : Live Overview)
      → (bootstrapped generation outcome s).refresh.generation ≡ s.refresh.generation
  unfolding bootstrapped
  bootstrapped-generation generation outcome s =
      elim (Bool-cases (generation == s.refresh.generation)) [
        | inl e ↦ rw (e, bootstrapped) refl
        | inr e ↦ rw (e, bootstrapped) refl
      ]

  step-generation : (s t : Live Overview) → Step s t → s.refresh.generation ≤ t.refresh.generation
  step-generation s _ (event resource) =
      omega (arith, invalidate_all-generation (is_affected resource) s.watched s)
  step-generation s _ (watching reference) = omega (arith, watch-generation reference s)
  step-generation s _ (completed key generation answer) =
      omega (arith, complete-generation key generation answer s)
  step-generation s _ (timer key generation) = omega (arith, read_again-generation key generation s)
  step-generation s _ expired = omega arith
  step-generation s _ starting = omega (arith, watch_overview-generation s)
  step-generation s _ (started generation outcome) =
      omega (arith, bootstrapped-generation generation outcome s)
  step-generation s _ refreshing =
      omega (arith, invalidate_all-generation (λ key. not (is key "/v1/snapshot")) s.watched s)
  step-generation s _ (switching earlier binding outcome) =
      commit_switch-generation earlier binding outcome s
  step-generation s _ closing = omega arith

  -- The generation of a session never goes down.
  pub Steps-generation :
      (s t : Live Overview) → Steps s t → s.refresh.generation ≤ t.refresh.generation
  Steps-generation s _ here = omega arith
  Steps-generation s u (after t _ steps step) =
      omega (arith, Steps-generation s t steps, step-generation t u step)
