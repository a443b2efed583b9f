-- ===== src/Transport/Post.antt =====
-- The checks of `post` and `postBytes` of ext-pi/src/manager/transport.ts, before a request is opened.
use agent_cat.Base.{
  ℕ, Bool, true, not, ◌&&◌, List, Option, none, some, Text, length, ltb, ◌>>=◌, refuse,
}
use agent_cat.Events.Failure.{invalid_response, response_too_large, Outcome}
use agent_cat.Events.Syntax.{valid_etag}
use agent_cat.Json.Value.{JsonValue}
use agent_cat.Json.Encode.{encode_json}
use agent_cat.Resources.Fields.{Strings}
use agent_cat.Transport.Keys.{valid_key}

abbrev pub command_bytes : ℕ
command_bytes = 2097152

abbrev pub capture_bytes : ℕ
capture_bytes = 67108864

pub record CommandHeaders : Type 0 where
  pub idempotency_key : Text
  pub if_match : Option Text

abbrev is_etag : Option Text → Bool
is_etag none = true
is_etag (some etag) = valid_etag etag

abbrev valid_headers : CommandHeaders → Bool
valid_headers h = valid_key h.idempotency_key && is_etag h.if_match

unfoldable pub may_post : Strings → JsonValue → CommandHeaders → Outcome (Unit {0})
may_post strings body headers =
    refuse (ltb command_bytes (strings.byte_length (encode_json strings.quote body)))
      response_too_large
    >>= λ done. refuse (not (valid_headers headers)) invalid_response

unfoldable pub may_post_bytes : List ℕ → CommandHeaders → Outcome (Unit {0})
may_post_bytes bytes headers =
    refuse (ltb capture_bytes (length bytes)) response_too_large >>= λ done.
    refuse (not (valid_headers headers)) invalid_response
