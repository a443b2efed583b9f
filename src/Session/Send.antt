-- ===== src/Session/Send.antt =====
-- `send` of ext-pi/src/manager/session.ts.
use agent_cat.Base.{
  Bool, false, ◌&&◌, ◌++◌, Option, none, some, Text, codes, is, strip_prefix, text_eq, ◌==◌,
  if◌then◌else◌, ok, err,
}
use agent_cat.Events.Failure.{ClientFailure, Outcome}
use agent_cat.Events.Syntax.{valid_id}
use agent_cat.Refresh.Reconcile.{Uncertain}
use agent_cat.Resources.Fields.{Strings}
use agent_cat.Resources.Receipt.{CommandReceipt, decode_command_receipt}
use agent_cat.Resources.Capture.{CaptureReceipt, decode_capture_receipt}
use agent_cat.Session.Service.{Reference, check}
use agent_cat.Transport.Response.{ClientResponse}
use agent_cat.Session.Commands.{Body, json, raw, PendingCommand, Bound}

pub data SendOutcome : Type 0 where
  delivered :
      ClientResponse → Reference → Option CommandReceipt → Option CaptureReceipt → SendOutcome
  refused : ClientFailure → SendOutcome
  uncertain : Option ClientFailure → Uncertain PendingCommand Reference → SendOutcome

abbrev pub uncertain_of : PendingCommand → Uncertain PendingCommand Reference
uncertain_of p = record {
  command = p;
  target = p.reference;
  precondition = p.if_match;
  receipt = none;
}

abbrev unsure : PendingCommand → Option ClientFailure → SendOutcome
unsure p failure = SendOutcome.uncertain failure (uncertain_of p)

-- The 412 refusal that proves that the manager holds no command under the key.
abbrev pub is_stale_revision : ClientFailure → Bool
is_stale_revision (ClientFailure.refused status code) = status == 412 && is code "stale-revision"
is_stale_revision failure = false

abbrev pub names_command : Text → Bool
names_command location = elim (strip_prefix (codes "/v1/commands/") location) [
  | none ↦ false
  | some id ↦ valid_id id
]

module _ (strings : Strings) where
  abbrev pub capture_answer :
      PendingCommand → ClientResponse → Reference → Outcome CaptureReceipt → SendOutcome
  capture_answer p response location (err failure) = unsure p none
  capture_answer p response location (ok receipt) =
      if response.status == 202 && names_command location.uri
      then delivered response location none (some receipt)
      else unsure p none

  abbrev pub command_answer :
      PendingCommand → ClientResponse → Reference → Outcome CommandReceipt → SendOutcome
  command_answer p response location (err failure) = unsure p none
  command_answer p response location (ok receipt) =
      if text_eq location.uri (codes "/v1/commands/" ++ receipt.id)
      then delivered response location (some receipt) none
      else unsure p none

  abbrev pub located_answer : Body → PendingCommand → ClientResponse → Reference → SendOutcome
  located_answer (raw bytes) p response location =
      capture_answer p response location (decode_capture_receipt response.value)
  located_answer (json body) p response location =
      if response.status == 202
      then command_answer p response location (decode_command_receipt strings response.value)
      else delivered response location none none

  abbrev pub with_location : PendingCommand → ClientResponse → Option Text → SendOutcome
  with_location p response none = unsure p none
  with_location p response (some location) =
      located_answer p.body p response (record { endpoint = p.reference.endpoint; uri = location })

  -- What the answer to a send says of the command.
  unfoldable pub send_outcome : PendingCommand → Outcome ClientResponse → SendOutcome
  send_outcome p (err failure) =
      if is_stale_revision failure then SendOutcome.refused failure else unsure p (some failure)
  send_outcome p (ok response) = with_location p response response.location

  -- `post` is `post` or `postBytes` of the transport, after the kind of the body.
  unfoldable pub send :
      {W : Type 0}
      → (post : PendingCommand → W → Outcome ClientResponse × W) → Bound
      → PendingCommand
      → W
      → SendOutcome × W
  send post session p w = elim (check session.closed session.identity p.reference) [
    | err failure ↦ (SendOutcome.refused failure, w)
    | ok done ↦ let (answer, w') = post p w in (send_outcome p answer, w')
  ]
