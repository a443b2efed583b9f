-- ===== src/Refresh/Reconcile.antt =====
-- The reconciliation of an uncertain command, and the states of a receipt, of
-- ext-pi/src/manager/refresh.ts. A failed read carries no more than that it failed.
use agent_cat.Base.{
  ◌≡◌, refl, ◌⊎◌, ◌≢◌, inl, inr, Bool, true, not, ◌&&◌, Option, none, some, Text, is, text_eq,
  text_eq_refl, text_eq_sound, if◌then◌else◌, Bool-cases, arith,
}

pub data CommandState : Type 0 where
  accepted dispatch_attempted acknowledged effect_observed refused unresolved : CommandState

unfoldable pub parse_command_state : Text → Option CommandState
parse_command_state t =
    if is t "accepted"
    then some accepted
    else if is t "dispatch-attempted"
    then some dispatch_attempted
    else if is t "acknowledged"
    then some acknowledged
    else if is t "effect-observed"
    then some effect_observed
    else if is t "refused"
    then some refused
    else if is t "unresolved"
    then some unresolved
    else none

module _ (Command Location : Type 0) where
  pub record Uncertain : Type 0 where
    pub command : Command
    pub target : Location
    pub precondition : Option Text
    pub receipt : Option Location

  pub data ReconcileRead : Type 0 where
    receipt target : Location → ReconcileRead

  pub data Reconciled : Type 0 where
    effect_observed refused : Reconciled
    uncertain : Uncertain → Reconciled

pub data ReconcileObservation : Type 0 where
  receipt : CommandState → ReconcileObservation
  target : (etag : Text) → (effect_visible : Bool) → ReconcileObservation
  failure : ReconcileObservation

-- `observation.etag !== uncertain.precondition`.
abbrev pub etag_differs : Text → Option Text → Bool
etag_differs etag none = true
etag_differs etag (some precondition) = not (text_eq etag precondition)

differs_of : (etag : Text) (p : Option Text) → p ≢ some etag → etag_differs etag p ≡ true
differs_of etag none changed = refl
differs_of etag (some p) changed = ground (arith, text_eq_sound etag p)

module _ {C L : Type 0} where
  abbrev read_of : L → Option L → ReconcileRead C L
  read_of place none = ReconcileRead.target place
  read_of place (some location) = ReconcileRead.receipt location

  unfoldable pub reconcile_read : Uncertain C L → ReconcileRead C L
  reconcile_read u = read_of u.target u.receipt

  abbrev by_receipt : Uncertain C L → CommandState → Reconciled C L
  by_receipt u CommandState.effect_observed = Reconciled.effect_observed
  by_receipt u CommandState.refused = Reconciled.refused
  by_receipt u _ = Reconciled.uncertain u

  reconcile_with : Uncertain C L → Option L → ReconcileObservation → Reconciled C L
  reconcile_with u (some location) (ReconcileObservation.receipt state) = by_receipt u state
  reconcile_with u none (ReconcileObservation.target etag visible) =
      if visible && etag_differs etag u.precondition
      then Reconciled.effect_observed
      else Reconciled.uncertain u
  reconcile_with u _ _ = Reconciled.uncertain u

  unfoldable pub reconcile : Uncertain C L → ReconcileObservation → Reconciled C L
  unfolding reconcile_with
  reconcile u observation = reconcile_with u u.receipt observation

  -- What an observation proves of the command, for the read that is due.
  pub data Proves (u : Uncertain C L) : ReconcileObservation → Reconciled C L → Type 0 where
    by_receipt_effect :
        (location : L)
        → u.receipt ≡ some location
        → Proves u
            (ReconcileObservation.receipt CommandState.effect_observed)
            Reconciled.effect_observed
    by_receipt_refusal :
        (location : L)
        → u.receipt ≡ some location
        → Proves u (ReconcileObservation.receipt CommandState.refused) Reconciled.refused
    by_target :
        (etag : Text)
        → u.receipt ≡ none
        → u.precondition ≢ some etag
        → Proves u (ReconcileObservation.target etag true) Reconciled.effect_observed

  reconcile-Proves_of :
      (u : Uncertain C L) (known : Option L) (o : ReconcileObservation)
      → u.receipt ≡ known
      → Proves u o (reconcile_with u known o) ⊎ (reconcile_with u known o ≡ Reconciled.uncertain u)
  unfolding reconcile_with
  reconcile-Proves_of u (some location) (ReconcileObservation.receipt CommandState.effect_observed)
        r =
      inl (by_receipt_effect location r)
  reconcile-Proves_of u (some location) (ReconcileObservation.receipt CommandState.refused) r =
      inl (by_receipt_refusal location r)
  reconcile-Proves_of u none (ReconcileObservation.target etag true) r =
      elim (Bool-cases (etag_differs etag u.precondition)) [
        | inl differs ↦
            rw differs (inl (by_target etag r (λ same. ground (arith, text_eq_refl etag))))
        | inr same ↦ inr (rw same)
      ]
  reconcile-Proves_of u known o r = inr refl

  -- A reconciliation reports the effect or the refusal of a command only on the evidence for it: the
  -- receipt at the known location, or the target with its effect visible under a changed entity tag.
  -- Otherwise the command comes back unchanged.
  pub reconcile_sound :
      (u : Uncertain C L) (o : ReconcileObservation)
      → Proves u o (reconcile u o) ⊎ (reconcile u o ≡ Reconciled.uncertain u)
  unfolding reconcile
  reconcile_sound u o = reconcile-Proves_of u u.receipt o refl

  -- What has been proved, by the observation and the report.
  pub Proves-cases :
      (u : Uncertain C L) (o : ReconcileObservation) (r : Reconciled C L)
      → Proves u o r
      → ((location : L) × (u.receipt ≡ some location)
          × (o ≡ ReconcileObservation.receipt CommandState.effect_observed)
          × (r ≡ Reconciled.effect_observed))
        ⊎ ((location : L) × (u.receipt ≡ some location)
            × (o ≡ ReconcileObservation.receipt CommandState.refused)
            × (r ≡ Reconciled.refused))
        ⊎ ((etag : Text) × (u.receipt ≡ none)
            × (u.precondition ≢ some etag)
            × (o ≡ ReconcileObservation.target etag true)
            × (r ≡ Reconciled.effect_observed))
  Proves-cases u _ _ (by_receipt_effect location h) = inl (location, h, refl, refl)
  Proves-cases u _ _ (by_receipt_refusal location h) = inr (inl (location, h, refl, refl))
  Proves-cases u _ _ (by_target etag h changed) = inr (inr (etag, h, changed, refl, refl))
