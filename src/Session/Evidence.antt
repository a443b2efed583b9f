-- ===== src/Session/Evidence.antt =====
-- What a reconciliation of ext-pi/src/manager/session.ts reports of a command.
use agent_cat.Base.{
  ◌≡◌, refl, sym, ap, subst, ◌∙◌, ◌≢◌, ◌⊎◌, inl, inr, Bool, true, Option, none, some, Text, ok, err,
}
use agent_cat.Events.Failure.{Outcome}
use agent_cat.Json.Value.{JsonValue}
use agent_cat.Refresh.Reconcile.{
  CommandState, Uncertain, ReconcileRead, Reconciled, ReconcileObservation, Proves, Proves-cases,
  reconcile_read, reconcile_sound,
}
use agent_cat.Resources.Fields.{Strings}
use agent_cat.Resources.Receipt.{CommandReceipt, decode_command_receipt}
use agent_cat.Session.Service.{Reference, Service}
use agent_cat.Session.Commands.{Observed, get, PendingCommand}
use agent_cat.Session.Reconciling.{
  ReconcileTarget, basis_of, kept, location_of, observation_of, receipt_observation,
  target_observation, reconcile_command,
}

-- The resource that shows the effect of a command, and the entity tag that it had before the command.
abbrev pub target_of : Uncertain PendingCommand Reference → Option ReconcileTarget → Reference
target_of u none = u.target
target_of u (some read) = read.reference

abbrev pub tag_before : Uncertain PendingCommand Reference → Option ReconcileTarget → Option Text
tag_before u none = u.precondition
tag_before u (some read) = read.precondition

module _ (strings : Strings) (effect_visible : JsonValue → Bool) where
  -- Evidence for a report in what the resources read as: a receipt of the state, at the location of the
  -- receipt if it is known, and otherwise the visible effect under another entity tag.
  pub data Evidence (reads : Reference → Outcome Observed) (u : Uncertain PendingCommand Reference)
      (read : Option ReconcileTarget) : Reconciled PendingCommand Reference → Type 0 where
    by_receipt :
        (location : Reference) (observed : Observed) (receipt : CommandReceipt)
        → u.receipt ≡ some location
        → reads location ≡ ok observed
        → decode_command_receipt strings observed.value ≡ ok receipt
        → receipt.state ≡ CommandState.effect_observed
        → Evidence reads u read Reconciled.effect_observed
    by_refusal :
        (location : Reference) (observed : Observed) (receipt : CommandReceipt)
        → u.receipt ≡ some location
        → reads location ≡ ok observed
        → decode_command_receipt strings observed.value ≡ ok receipt
        → receipt.state ≡ CommandState.refused
        → Evidence reads u read Reconciled.refused
    by_effect :
        (observed : Observed) (etag : Text)
        → u.receipt ≡ none
        → reads (target_of u read) ≡ ok observed
        → observed.etag ≡ some etag
        → tag_before u read ≢ some etag
        → effect_visible observed.value ≡ true
        → Evidence reads u read Reconciled.effect_observed

  receipt_shown :
      (decoded : Outcome CommandReceipt) {state : CommandState}
      → receipt_observation strings effect_visible decoded ≡ ReconcileObservation.receipt state
      → (receipt : CommandReceipt) × (decoded ≡ ok receipt) × (receipt.state ≡ state)
  receipt_shown (err failure) h = cc
  receipt_shown (ok receipt) h = (receipt, refl, cc)

  target_shown :
      (value : JsonValue) (found : Option Text) {etag : Text}
      → target_observation strings effect_visible value found
        ≡ ReconcileObservation.target etag true
      → (found ≡ some etag) × (effect_visible value ≡ true)
  target_shown value none h = cc
  target_shown value (some tag) h = (cc, cc)

  receipt_read :
      (location : Reference) (answer : Outcome Observed) {state : CommandState}
      → observation_of strings effect_visible (ReconcileRead.receipt location) answer
        ≡ ReconcileObservation.receipt state
      → (observed : Observed) × (receipt : CommandReceipt) × (answer ≡ ok observed)
        × (decode_command_receipt strings observed.value ≡ ok receipt)
        × (receipt.state ≡ state)
  unfolding observation_of
  receipt_read location (err failure) h = cc
  receipt_read location (ok observed) h =
      let (receipt, decoded, state) =
        receipt_shown (decode_command_receipt strings observed.value) h in
      (observed, receipt, refl, decoded, state)

  target_read :
      (location : Reference) (answer : Outcome Observed) {etag : Text}
      → observation_of strings effect_visible (ReconcileRead.target location) answer
        ≡ ReconcileObservation.target etag true
      → (observed : Observed) × (answer ≡ ok observed)
        × (observed.etag ≡ some etag)
        × (effect_visible observed.value ≡ true)
  unfolding observation_of
  target_read location (err failure) h = cc
  target_read location (ok observed) h =
      let (tag, visible) = target_shown observed.value observed.etag h in
      (observed, refl, tag, visible)

basis_receipt :
    (u : Uncertain PendingCommand Reference) (read : Option ReconcileTarget)
    (known : Option Reference)
    → (basis_of u read known).receipt ≡ u.receipt
basis_receipt u none known = refl
basis_receipt u (some read) none = refl
basis_receipt u (some read) (some location) = refl

basis_target :
    (u : Uncertain PendingCommand Reference) (read : Option ReconcileTarget)
    → ((basis_of u read none).target ≡ target_of u read)
      × ((basis_of u read none).precondition ≡ tag_before u read)
basis_target u none = (refl, refl)
basis_target u (some read) = (refl, refl)

due_receipt :
    (b : Uncertain PendingCommand Reference) {location : Reference}
    → b.receipt ≡ some location
    → reconcile_read b ≡ ReconcileRead.receipt location
unfolding reconcile_read
due_receipt b h = rw (h, reconcile_read) refl

due_target :
    (b : Uncertain PendingCommand Reference)
    → b.receipt ≡ none
    → reconcile_read b ≡ ReconcileRead.target b.target
unfolding reconcile_read
due_target b h = rw (h, reconcile_read) refl

module _ {W : Type 0} (strings : Strings) (effect_visible : JsonValue → Bool)
    (service : Service W) where
  -- What the reads of a reconciliation give, each of them from the world before it.
  abbrev pub reads : Text → W → Reference → Outcome Observed
  reads identity w reference = (get service identity reference w).0

  -- The observation of the one read of a reconciliation.
  abbrev observation : Text → Uncertain PendingCommand Reference → W → ReconcileObservation
  observation identity basis w =
      let next = reconcile_read basis in
      observation_of strings effect_visible next (reads identity w (location_of next))

  receipt_Evidence :
      (identity : Text) (basis : Uncertain PendingCommand Reference) (w : W) (location : Reference)
      {state : CommandState}
      → basis.receipt ≡ some location
      → observation identity basis w ≡ ReconcileObservation.receipt state
      → (observed : Observed) × (receipt : CommandReceipt) × (reads identity w location
          ≡ ok observed)
        × (decode_command_receipt strings observed.value ≡ ok receipt)
        × (receipt.state ≡ state)
  receipt_Evidence identity basis w location {state = state} at shown =
      receipt_read strings effect_visible location (reads identity w location) (
        subst
          (λ next.
            observation_of strings effect_visible next (reads identity w (location_of next))
            ≡ ReconcileObservation.receipt state)
          (due_receipt basis at) shown)

  target_Evidence :
      (identity : Text) (u : Uncertain PendingCommand Reference) (read : Option ReconcileTarget)
      (w : W) (etag : Text)
      → u.receipt ≡ none
      → (basis_of u read none).precondition ≢ some etag
      → observation identity (basis_of u read none) w ≡ ReconcileObservation.target etag true
      → Evidence strings effect_visible (reads identity w) u read Reconciled.effect_observed
  target_Evidence identity u read w etag at changed shown =
      let b = basis_of u read none in
      let (place, before) = basis_target u read in
      let (observed, answer, tag, visible) =
        target_read strings effect_visible b.target (reads identity w b.target) (
          subst
            (λ next.
              observation_of strings effect_visible next (reads identity w (location_of next))
              ≡ ReconcileObservation.target etag true)
            (due_target b (basis_receipt u read none ∙ at)) shown) in
      Evidence.by_effect observed etag at (ap (reads identity w) (sym place) ∙ answer) tag
        (λ same. changed (before ∙ same)) visible

  Proves-Evidence :
      (identity : Text) (u : Uncertain PendingCommand Reference) (read : Option ReconcileTarget)
      (w : W) (known : Option Reference) (r : Reconciled PendingCommand Reference)
      → u.receipt ≡ known
      → Proves (basis_of u read known) (observation identity (basis_of u read known) w) r
      → Evidence strings effect_visible (reads identity w) u read r
  Proves-Evidence identity u read w known r same proof =
      let b = basis_of u read known in
      let its_own = sym (basis_receipt u read known) in
      elim (Proves-cases b _ r proof) [
        | inl (location, at, shown, report) ↦
            let (observed, receipt, answer, decoded, state) =
              receipt_Evidence identity b w location at shown in
            subst (Evidence strings effect_visible (reads identity w) u read) (sym report)
              (Evidence.by_receipt location observed receipt (its_own ∙ at) answer decoded state)
        | inr (inl (location, at, shown, report)) ↦
            let (observed, receipt, answer, decoded, state) =
              receipt_Evidence identity b w location at shown in
            subst (Evidence strings effect_visible (reads identity w) u read) (sym report)
              (Evidence.by_refusal location observed receipt (its_own ∙ at) answer decoded state)
        | inr (inr (etag, at, changed, shown, report)) ↦
            let unknown = sym same ∙ its_own ∙ at in
            subst (Evidence strings effect_visible (reads identity w) u read) (sym report) (
              target_Evidence identity u read w etag (its_own ∙ at)
                (subst (λ k. (basis_of u read k).precondition ≢ some etag) unknown changed)
                (subst
                  (λ k.
                    observation identity (basis_of u read k) w
                    ≡ ReconcileObservation.target etag true)
                  unknown shown))
      ]

  kept-Evidence :
      (identity : Text) (u : Uncertain PendingCommand Reference) (read : Option ReconcileTarget)
      (w : W) (r : Reconciled PendingCommand Reference)
      → Evidence strings effect_visible (reads identity w) u read r
      → Evidence strings effect_visible (reads identity w) u read (kept u r)
  kept-Evidence identity u read w _ (Evidence.by_receipt l o c a b d e) =
      Evidence.by_receipt l o c a b d e
  kept-Evidence identity u read w _ (Evidence.by_refusal l o c a b d e) =
      Evidence.by_refusal l o c a b d e
  kept-Evidence identity u read w _ (Evidence.by_effect o t a b c d e) =
      Evidence.by_effect o t a b c d e

  -- The reconciliation of a command reports its effect or its refusal only on evidence in what was read:
  -- a decoded receipt that says so, at the location of the receipt if it is known, and otherwise the
  -- visible effect at the target, or at the resource that is read in its place, under an entity tag
  -- other than the one before the command. Otherwise the command comes back unchanged, with its own
  -- target and precondition.
  pub reconcile_command-Evidence :
      (identity : Text) (u : Uncertain PendingCommand Reference) (read : Option ReconcileTarget)
      (w : W)
      → Evidence strings effect_visible
          (reads identity w)
          u
          read
          (reconcile_command strings effect_visible service identity u read w).0
        ⊎ ((reconcile_command strings effect_visible service identity u read w).0
            ≡ Reconciled.uncertain u)
  unfolding reconcile_command
  reconcile_command-Evidence identity u read w =
      let b = basis_of u read u.receipt in
      elim (reconcile_sound b (observation identity b w)) [
        | inl proof ↦ inl (
            kept-Evidence identity u read w _
              (Proves-Evidence identity u read w u.receipt _ refl proof))
        | inr same ↦ inr (ap (kept u) same)
      ]
