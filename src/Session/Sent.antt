-- ===== src/Session/Sent.antt =====
-- What a session of ext-pi/src/manager/session.ts says of a command that it sent.
use agent_cat.Base.{
  ℕ, ◌≡◌, refl, ap, ap₂, ◌∙◌, ◌≢◌, inl, inr, Bool, true, false, not, ◌&&◌, List, ◌++◌, Option, none,
  some, Text, codes, text_eq, text_eq_sound, ◌==◌, ==_iff, arith, Bool-cases, not_eq_false,
  and_left, and_right, Result-cases, ok, err, refuse-eq-ok, refuse-then,
}
use agent_cat.Events.Failure.{ClientFailure, Outcome}
use agent_cat.Json.Value.{JsonValue}
use agent_cat.Resources.Fields.{Strings}
use agent_cat.Resources.Receipt.{CommandReceipt, decode_command_receipt}
use agent_cat.Resources.Capture.{CaptureReceipt, decode_capture_receipt}
use agent_cat.Session.Service.{Reference, check}
use agent_cat.Session.Commands.{Body, json, raw, PendingCommand, Bound}
use agent_cat.Session.Send.{
  SendOutcome, delivered, uncertain_of, is_stale_revision, names_command, capture_answer,
  command_answer, located_answer, with_location, send_outcome, send,
}
use agent_cat.Transport.Response.{ClientResponse}

-- What the answer to a command shows of it.
pub data Shows (strings : Strings) (p : PendingCommand) (answer : Outcome ClientResponse)
    : SendOutcome → Type 0 where
  stale :
      answer ≡ err (ClientFailure.refused 412 (codes "stale-revision"))
      → Shows strings p answer
          (SendOutcome.refused (ClientFailure.refused 412 (codes "stale-revision")))
  accepted :
      (response : ClientResponse) (location : Text) (value : JsonValue) (receipt : CommandReceipt)
      → answer ≡ ok response
      → response.location ≡ some location
      → p.body ≡ json value
      → response.status ≡ 202
      → decode_command_receipt strings response.value ≡ ok receipt
      → location ≡ codes "/v1/commands/" ++ receipt.id
      → Shows strings p answer (
          delivered response
            (record { endpoint = p.reference.endpoint; uri = location })
            (some receipt)
            none)
  completed :
      (response : ClientResponse) (location : Text) (value : JsonValue)
      → answer ≡ ok response
      → response.location ≡ some location
      → p.body ≡ json value
      → response.status ≢ 202
      → Shows strings p answer (
          delivered response (record { endpoint = p.reference.endpoint; uri = location }) none none)
  captured :
      (response : ClientResponse) (location : Text) (bytes : List ℕ) (receipt : CaptureReceipt)
      → answer ≡ ok response
      → response.location ≡ some location
      → p.body ≡ raw bytes
      → response.status ≡ 202
      → decode_capture_receipt response.value ≡ ok receipt
      → names_command location ≡ true
      → Shows strings p answer (
          delivered response
            (record { endpoint = p.reference.endpoint; uri = location })
            none
            (some receipt))
  unsure :
      (failure : Option ClientFailure)
      → Shows strings p answer (SendOutcome.uncertain failure (uncertain_of p))

is_stale_revision-eq :
    (failure : ClientFailure)
    → is_stale_revision failure ≡ true
    → failure ≡ ClientFailure.refused 412 (codes "stale-revision")
is_stale_revision-eq (ClientFailure.refused status code) h =
    ap₂ ClientFailure.refused ((==_iff status 412).0 (and_left (status == 412) _ h))
      (text_eq_sound code (codes "stale-revision") (and_right (status == 412) _ h))
is_stale_revision-eq ClientFailure.client_closed h = cc
is_stale_revision-eq ClientFailure.invalid_endpoint h = cc
is_stale_revision-eq ClientFailure.wrong_endpoint h = cc
is_stale_revision-eq ClientFailure.credential_unavailable h = cc
is_stale_revision-eq ClientFailure.credential_changed h = cc
is_stale_revision-eq ClientFailure.transport_unavailable h = cc
is_stale_revision-eq ClientFailure.redirect_refused h = cc
is_stale_revision-eq ClientFailure.invalid_response h = cc
is_stale_revision-eq ClientFailure.response_too_large h = cc
is_stale_revision-eq ClientFailure.unsupported_version h = cc
is_stale_revision-eq ClientFailure.client_file_unavailable h = cc
is_stale_revision-eq ClientFailure.invalid_client_profile h = cc

module _ (strings : Strings) (p : PendingCommand) (answer : Outcome ClientResponse) where
  module _ (response : ClientResponse) (location : Text) (answered : answer ≡ ok response)
      (located : response.location ≡ some location) where
    abbrev place : Reference
    place = record { endpoint = p.reference.endpoint; uri = location }

    capture_answer-Shows :
        (bytes : List ℕ) (decoded : Outcome CaptureReceipt)
        → p.body ≡ raw bytes
        → decode_capture_receipt response.value ≡ decoded
        → Shows strings p answer (capture_answer strings p response place decoded)
    capture_answer-Shows bytes (err failure) b d = unsure none
    capture_answer-Shows bytes (ok receipt) b d =
        elim (Bool-cases (response.status == 202 && names_command location)) [
          | inl e ↦ rw e (
              captured response location bytes receipt answered located b (ground (arith, e)) d
                (and_right (response.status == 202) _ e))
          | inr e ↦ rw e (unsure none)
        ]

    command_answer-Shows :
        (value : JsonValue) (decoded : Outcome CommandReceipt)
        → p.body ≡ json value
        → response.status ≡ 202
        → decode_command_receipt strings response.value ≡ decoded
        → Shows strings p answer (command_answer strings p response place decoded)
    command_answer-Shows value (err failure) b status d = unsure none
    command_answer-Shows value (ok receipt) b status d =
        elim (Bool-cases (text_eq location (codes "/v1/commands/" ++ receipt.id))) [
          | inl e ↦ rw e (
              accepted response location value receipt answered located b status d
                (text_eq_sound _ _ e))
          | inr e ↦ rw e (unsure none)
        ]

    located_answer-Shows :
        (body : Body)
        → p.body ≡ body
        → Shows strings p answer (located_answer strings body p response place)
    located_answer-Shows (raw bytes) b = capture_answer-Shows bytes _ b refl
    located_answer-Shows (json value) b = elim (Bool-cases (response.status == 202)) [
      | inl e ↦ rw e (command_answer-Shows value _ b (ground (arith, e)) refl)
      | inr e ↦
          rw e
            (completed response location value answered located b (λ same. ground (arith, e, same)))
    ]

  with_location-Shows :
      (response : ClientResponse) (location : Option Text)
      → answer ≡ ok response
      → response.location ≡ location
      → Shows strings p answer (with_location strings p response location)
  with_location-Shows response none answered located = unsure none
  with_location-Shows response (some location) answered located =
      located_answer-Shows response location answered located p.body refl

  send_outcome-Shows :
      (given : Outcome ClientResponse)
      → answer ≡ given
      → Shows strings p answer (send_outcome strings p given)
  unfolding send_outcome
  send_outcome-Shows (err failure) answered = elim (Bool-cases (is_stale_revision failure)) [
    | inl e ↦
        rw (e, is_stale_revision-eq failure e)
          (stale (answered ∙ ap err (is_stale_revision-eq failure e)))
    | inr e ↦ rw e (unsure (some failure))
  ]
  send_outcome-Shows (ok response) answered =
      with_location-Shows response response.location answered refl

check-passed :
    (closed : Bool) (identity : Text) (reference : Reference) {u : Unit {0}}
    → check closed identity reference ≡ ok u
    → (closed ≡ false) × (reference.endpoint ≡ identity)
unfolding check
check-passed closed identity reference h =
    let (was_open, h₁) = refuse-then closed _ _ h in
    (
      was_open,
      text_eq_sound _ _
          (not_eq_false _ (refuse-eq-ok (not (text_eq reference.endpoint identity)) _ h₁)),
    )

module _ {W : Type 0} (strings : Strings)
    (post : PendingCommand → W → Outcome ClientResponse × W) where
  -- What a send does and reports: nothing is sent, or the command is posted once and the answer shows
  -- what is reported.
  pub data Sends (session : Bound) (p : PendingCommand) (w : W) : SendOutcome × W → Type 0 where
    unsent :
        (failure : ClientFailure)
        → check session.closed session.identity p.reference ≡ err failure
        → Sends session p w (SendOutcome.refused failure, w)
    sent :
        (outcome : SendOutcome)
        → session.closed ≡ false
        → p.reference.endpoint ≡ session.identity
        → Shows strings p (post p w).0 outcome
        → Sends session p w (outcome, (post p w).1)

  -- A session that is closed or bound to another endpoint sends nothing and refuses. Otherwise the command
  -- is posted once, and the report has evidence in the answer. A command that is delivered with status 202
  -- has a decoded receipt and the location of that receipt's command; one that is delivered with another
  -- status has a location; and a delivered capture has status 202, a decoded capture receipt, and a location
  -- that names a command. A refusal has the 412 answer of a stale revision. All else is uncertain, and the
  -- command comes back unchanged with its target and its precondition.
  pub send-Sends :
      (session : Bound) (p : PendingCommand) (w : W)
      → Sends session p w (send strings post session p w)
  unfolding send
  send-Sends session p w = elim (Result-cases (check session.closed session.identity p.reference)) [
    | inl (failure, e) ↦ rw (e, send) (unsent failure e)
    | inr (done, e) ↦
        let (was_open, same) = check-passed session.closed session.identity p.reference e in
        rw (e, send)
          (sent _ was_open same (send_outcome-Shows strings p (post p w).0 (post p w).0 refl))
  ]
