-- ===== src/Resources/Capture.antt =====
-- `CaptureReceipt` and its decoder, of ext-pi/src/manager/resources.ts.
use agent_cat.Base.{
  ℕ, not, List, [], ◌∷◌, map, Option, none, some, Text, codes, ok, ◌>>=◌, refuse, required,
}
use agent_cat.Events.Failure.{invalid_response, Outcome}
use agent_cat.Events.Syntax.{valid_id}
use agent_cat.Json.Value.{JsonValue, JsonMembers, json_member, string_of}
use agent_cat.Resources.Fields.{exact, version_one, canonical_decimal, valid_digest}
use agent_cat.Resources.Receipt.{text_field}

pub record CaptureReceipt : Type 0 where
  pub id : Text
  pub request_id : Text
  pub profile_id : Text
  pub bytes : ℕ
  pub sha256 : Text

abbrev pub capture_bytes : ℕ
capture_bytes = 67108864

abbrev capture_names : List Text
capture_names = map codes ("version" ∷ "id" ∷ "requestId" ∷ "profileId" ∷ "bytes" ∷ "sha256" ∷ [])

abbrev size_of : Option Text → Option ℕ
size_of none = none
size_of (some size) = canonical_decimal size 8 capture_bytes

unfoldable pub parse_capture_receipt : JsonMembers → Outcome CaptureReceipt
parse_capture_receipt fields = refuse (not (version_one fields)) invalid_response >>= λ done.
    required (text_field valid_id "id" fields) invalid_response >>= λ id.
    required (text_field valid_id "requestId" fields) invalid_response >>= λ request_id.
    required (text_field valid_id "profileId" fields) invalid_response >>= λ profile_id.
    required (size_of (string_of (json_member fields (codes "bytes")))) invalid_response
    >>= λ bytes. required (text_field valid_digest "sha256" fields) invalid_response >>= λ sha256.
        ok (record {
          id = id;
          request_id = request_id;
          profile_id = profile_id;
          bytes = bytes;
          sha256 = sha256;
        })

unfoldable pub decode_capture_receipt : JsonValue → Outcome CaptureReceipt
decode_capture_receipt value =
    required (exact (some value) capture_names) invalid_response >>= parse_capture_receipt
