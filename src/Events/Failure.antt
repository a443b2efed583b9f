-- ===== src/Events/Failure.antt =====
-- `ClientFailure` and `Outcome` of ext-pi/src/manager/events.ts.
use agent_cat.Base.{ℕ, Text, Result}

-- The fixed local failures, and the refusal of a problem response with its status and code.
pub data ClientFailure : Type 0 where
  client_closed invalid_endpoint wrong_endpoint credential_unavailable : ClientFailure
  credential_changed transport_unavailable redirect_refused invalid_response : ClientFailure
  response_too_large unsupported_version client_file_unavailable : ClientFailure
  invalid_client_profile : ClientFailure
  refused : (status : ℕ) → (code : Text) → ClientFailure

abbrev pub Outcome : Type 0 → Type 0
Outcome A = Result ClientFailure A
