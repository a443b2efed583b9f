-- ===== src/Transport/Response.antt =====
-- `ClientResponse` of ext-pi/src/manager/transport.ts.
use agent_cat.Base.{ℕ, Option, Text}
use agent_cat.Json.Value.{JsonValue}

pub record ClientResponse : Type 0 where
  pub status : ℕ
  pub value : JsonValue
  pub etag : Option Text
  pub location : Option Text
  pub bytes : ℕ
