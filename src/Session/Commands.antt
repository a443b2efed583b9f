-- ===== src/Session/Commands.antt =====
-- The reads of a session of ext-pi/src/manager/session.ts and the preparation of its commands: `get`,
-- `#pending` and `prepareCapture`.
use agent_cat.Base.{
  ℕ, Bool, not, List, ◌++◌, Option, none, some, Text, codes, length, ◌==◌, if◌then◌else◌, ok, err,
  ◌>>=◌, refuse, required,
}
use agent_cat.Base.Int.{ℤ, pos}
use agent_cat.Events.Failure.{
  invalid_response, invalid_endpoint, wrong_endpoint, response_too_large, Outcome,
}
use agent_cat.Events.Syntax.{valid_id}
use agent_cat.Json.Value.{JsonValue, JsonMembers, json_member, object_of}
use agent_cat.Json.Integer.{int_le}
use agent_cat.Session.Capabilities.{Capabilities}
use agent_cat.Session.Fields.{limit_of}
use agent_cat.Session.Service.{Reference, reference_of, Service, check}
use agent_cat.Transport.Keys.{command_key}
use agent_cat.Transport.Response.{ClientResponse}

pub record Observed : Type 0 where
  pub reference : Reference
  pub status : ℕ
  pub etag : Option Text
  pub value : JsonValue

abbrev observed_of : Reference → ClientResponse → Outcome Observed
observed_of reference response =
    if response.status == 200
    then ok (record {
      reference = reference;
      status = 200;
      etag = response.etag;
      value = response.value;
    })
    else err invalid_response

module _ {W : Type 0} (service : Service W) where
  abbrev get_answer : Reference → W → Outcome ClientResponse → Outcome Observed
  get_answer reference w answer =
      refuse (not (service.live w)) wrong_endpoint >>= λ done. answer >>= observed_of reference

  unfoldable pub get : Text → Reference → W → Outcome Observed × W
  get identity reference w = elim (check (service.closed w) identity reference) [
    | err failure ↦ (err failure, w)
    | ok done ↦
        let (answer, w') = service.get reference.uri w in (get_answer reference w' answer, w')
  ]

-- The JSON body of a command, or the raw bytes of a capture.
pub data Body : Type 0 where
  json : JsonValue → Body
  raw : List ℕ → Body

pub record PendingCommand : Type 0 where
  pub reference : Reference
  pub body : Body
  pub idempotency_key : Text
  pub if_match : Option Text

-- What a session knows of itself when a command is prepared or sent.
pub record Bound : Type 0 where
  pub closed : Bool
  pub identity : Text
  pub capabilities : Capabilities

abbrev pub capture_limit : Option JsonMembers → Option ℤ
capture_limit none = none
capture_limit (some limits) = limit_of limits (codes "captureBytes")

module _ (token : Text) where
  unfoldable pub pending : Bound → Reference → Body → Option Text → Outcome PendingCommand
  pending session reference body if_match =
      check session.closed session.identity reference >>= λ done.
      command_key token session.capabilities.epoch >>= λ key.
      ok (record { reference = reference; body = body; idempotency_key = key; if_match = if_match })

  -- `is_utf8` tells whether TextDecoder, in its fatal mode, decodes the bytes.
  unfoldable pub prepare_capture :
      (is_utf8 : List ℕ → Bool) → Bound → Text → List ℕ → Outcome PendingCommand
  prepare_capture is_utf8 session request_id bytes =
      refuse (not (valid_id request_id)) invalid_endpoint >>= λ done.
      reference_of session.identity (codes "/v1/captures?requestId=" ++ request_id) >>= λ reference.
      required
        (capture_limit (object_of (json_member session.capabilities.fields (codes "limits"))))
        invalid_response
      >>= λ limit. refuse (not (int_le (pos (length bytes)) limit)) response_too_large >>= λ done.
          refuse (not (is_utf8 bytes)) invalid_response >>= λ done.
          pending session reference (raw bytes) none
