-- ===== src/Session/Service.antt =====
-- What a session of ext-pi/src/manager/session.ts works with: its references, the transport's answer
-- to a read, and what it sees of itself when an awaited read returns.
use agent_cat.Base.{
  ℕ, Bool, not, List, Option, Text, text_eq, ok, err, refuse, ◌>>=◌, if◌then◌else◌,
}
use agent_cat.Base.Int.{ℤ}
use agent_cat.Events.Failure.{client_closed, invalid_endpoint, wrong_endpoint, Outcome}
use agent_cat.Events.Syntax.{valid_resource}
use agent_cat.Transport.Response.{ClientResponse}

pub record Reference : Type 0 where
  pub endpoint : Text
  pub uri : Text

-- `referenceOf`.
unfoldable pub reference_of : Text → Text → Outcome Reference
reference_of identity uri =
    if valid_resource uri
    then ok (record { endpoint = identity; uri = uri })
    else err invalid_endpoint

-- A world holds the manager, the clock and the session. A read answers in a later world, in which the
-- session may be closed or bound to another transport.
pub record Service (W : Type 0) : Type 0 where
  pub get : Text → W → Outcome ClientResponse × W
  pub now : W → ℕ
  pub closed : W → Bool
  pub live : W → Bool

-- `new URLSearchParams(text)` as a list of pairs, and `Date.parse(text.toUpperCase())`, none for NaN.
pub record Host : Type 0 where
  pub query_pairs : Text → List (Text × Text)
  pub expiry_of : Text → Option ℤ

-- `#check`.
unfoldable pub check : Bool → Text → Reference → Outcome (Unit {0})
check closed identity reference = refuse closed client_closed >>= λ done.
    refuse (not (text_eq reference.endpoint identity)) wrong_endpoint
