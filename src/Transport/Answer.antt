-- ===== src/Transport/Answer.antt =====
-- The JSON answers of ext-pi/src/manager/transport.ts: `mediaType`, `#problem` and the checks of
-- `#exchangeJson`, and `problemFailure` of ext-pi/src/manager/events.ts.
use agent_cat.Base.{
  ℕ, Bool, true, false, not, ◌&&◌, ◌||◌, List, Option, none, some, String, Text, codes, is, length,
  ltb, leb, if◌then◌else◌, ok, ◌>>=◌, refuse, required,
}
use agent_cat.Base.Dict.{Dict, get}
use agent_cat.Events.Failure.{
  ClientFailure, refused, invalid_response, unsupported_version, Outcome,
}
use agent_cat.Events.Syntax.{valid_id, valid_etag, valid_resource, cut_at}
use agent_cat.Json.Value.{JsonValue, JsonMembers, json_member, object_of, number_of, string_of}
use agent_cat.Json.Integer.{decimal_text}
use agent_cat.Json.Number.{number_equal}
use agent_cat.Transport.Response.{ClientResponse}

-- A response after its body was read: its headers, by their names in small letters.
pub record Received : Type 0 where
  pub status : ℕ
  pub headers : Dict Text
  pub bytes : List ℕ

abbrev before_semicolon : Option Text → Option Text
before_semicolon none = none
before_semicolon (some value) = elim (cut_at b';' value) [
  | none ↦ some value
  | some (before, after) ↦ some before
]

unfoldable pub media_type : Dict Text → Option Text
media_type headers = before_semicolon (get (codes "content-type") headers)

abbrev has_value : String → Option Text → Bool
has_value expected none = false
has_value expected (some value) = is value expected

-- The content type is the one given, and nothing is stored.
abbrev pub has_type : String → Dict Text → Bool
has_type expected headers =
    has_value expected (media_type headers)
    && has_value "no-store" (get (codes "cache-control") headers)

abbrev states : ℕ → Option Text → Bool
states status none = false
states status (some source) = number_equal source (decimal_text status)

abbrev problem_code : ℕ → JsonMembers → Option Text → ClientFailure
problem_code status body none = invalid_response
problem_code status body (some code) =
    if states status (number_of (json_member body (codes "status"))) && valid_id code
    then refused status code
    else invalid_response

-- A status is a safe integer, as every HTTP status is.
unfoldable pub problem_failure : ℕ → JsonValue → ClientFailure
problem_failure status body = elim (object_of (some body)) [
  | none ↦ invalid_response
  | some members ↦ problem_code status members (string_of (json_member members (codes "code")))
]

abbrev is_one : Option Text → Bool
is_one none = false
is_one (some source) = number_equal source (codes "1")

abbrev is_valid : (Text → Bool) → Option Text → Bool
is_valid valid none = true
is_valid valid (some t) = valid t

abbrev version_of : Option JsonMembers → Option Text
version_of none = none
version_of (some members) = number_of (json_member members (codes "version"))

-- `utf8` is the fatal decoder of the runtime, and `try_parse_json` the parser of manager/json.ts.
module _ (utf8 : List ℕ → Option Text) (try_parse_json : Text → Option JsonValue) where
  abbrev parsed : List ℕ → Option JsonValue
  parsed bytes = elim (utf8 bytes) [ none ↦ none | some text ↦ try_parse_json text ]

  unfoldable pub problem : Received → ClientFailure
  problem r =
      if has_type "application/problem+json" r.headers
      then (elim (parsed r.bytes) [
        | none ↦ invalid_response
        | some value ↦ problem_failure r.status value
      ])
      else invalid_response

  -- The answer that a received response gives.
  unfoldable pub answer_of : Received → Outcome ClientResponse
  answer_of r = refuse (ltb r.status 200 || leb 300 r.status) (problem r) >>= λ done.
      refuse (not (has_type "application/json" r.headers)) invalid_response >>= λ done.
      required (parsed r.bytes) invalid_response >>= λ value.
      refuse (not (is_one (version_of (object_of (some value))))) unsupported_version >>= λ done.
      refuse
        (not (is_valid valid_etag (get (codes "etag") r.headers))
          || not (is_valid valid_resource (get (codes "location") r.headers)))
        invalid_response
      >>= λ done. ok (record {
        status = r.status;
        value = value;
        etag = get (codes "etag") r.headers;
        location = get (codes "location") r.headers;
        bytes = length r.bytes;
      })
