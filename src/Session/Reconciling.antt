-- ===== src/Session/Reconciling.antt =====
-- `reconcileCommand` of ext-pi/src/manager/session.ts.
use agent_cat.Base.{Bool, Option, none, some, Text, ok, err}
use agent_cat.Events.Failure.{Outcome}
use agent_cat.Json.Value.{JsonValue}
use agent_cat.Refresh.Reconcile.{
  Uncertain, ReconcileRead, Reconciled, ReconcileObservation, reconcile_read, reconcile,
}
use agent_cat.Resources.Fields.{Strings}
use agent_cat.Resources.Receipt.{CommandReceipt, decode_command_receipt}
use agent_cat.Session.Service.{Reference, Service}
use agent_cat.Session.Commands.{Observed, get, PendingCommand}

pub record ReconcileTarget : Type 0 where
  pub reference : Reference
  pub precondition : Option Text

-- The read of another resource in place of the target, when no receipt is known.
abbrev pub basis_of :
    Uncertain PendingCommand Reference
    → Option ReconcileTarget
    → Option Reference
    → Uncertain PendingCommand Reference
basis_of u (some read) none = record u { target = read.reference; precondition = read.precondition }
basis_of u read receipt = u

abbrev pub location_of : ReconcileRead PendingCommand Reference → Reference
location_of (ReconcileRead.receipt location) = location
location_of (ReconcileRead.target location) = location

abbrev pub kept :
    Uncertain PendingCommand Reference
    → Reconciled PendingCommand Reference
    → Reconciled PendingCommand Reference
kept u (Reconciled.uncertain v) = Reconciled.uncertain u
kept u r = r

module _ (strings : Strings) (effect_visible : JsonValue → Bool) where
  abbrev pub receipt_observation : Outcome CommandReceipt → ReconcileObservation
  receipt_observation (err failure) = ReconcileObservation.failure
  receipt_observation (ok receipt) = ReconcileObservation.receipt receipt.state

  abbrev pub target_observation : JsonValue → Option Text → ReconcileObservation
  target_observation value none = ReconcileObservation.failure
  target_observation value (some etag) = ReconcileObservation.target etag (effect_visible value)

  -- What the read of the receipt or of the target shows.
  unfoldable pub observation_of :
      ReconcileRead PendingCommand Reference → Outcome Observed → ReconcileObservation
  observation_of next (err failure) = ReconcileObservation.failure
  observation_of (ReconcileRead.receipt location) (ok observed) =
      receipt_observation (decode_command_receipt strings observed.value)
  observation_of (ReconcileRead.target location) (ok observed) =
      target_observation observed.value observed.etag

  module _ {W : Type 0} (service : Service W) where
    unfoldable pub reconcile_command :
        Text
        → Uncertain PendingCommand Reference
        → Option ReconcileTarget
        → W
        → Reconciled PendingCommand Reference × W
    reconcile_command identity u read w =
        let basis = basis_of u read u.receipt in
        let next = reconcile_read basis in
        let (observed, w') = get service identity (location_of next) w in
        (kept u (reconcile basis (observation_of next observed)), w')
