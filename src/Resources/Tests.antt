-- ===== src/Resources/Tests.antt =====
-- Tests of the receipts, and the witnesses of their theorems.
use agent_cat.Base.{
  ◌≡◌, refl, true, false, ◌∷◌, ◌++◌, none, some, codes, is_decimal, digits_value, code_points,
  strip_prefix, text_eq, length, ok,
}
use agent_cat.Events.Syntax.{valid_id, valid_resource}
use agent_cat.Resources.Evidence.{valid_effect}
use agent_cat.Json.Value.{JsonValue, null, string, object, no_members, member}
use agent_cat.Refresh.Reconcile.{effect_observed}
use agent_cat.Resources.Fields.{Strings}
use agent_cat.Resources.Timestamp.{valid_timestamp}
use agent_cat.Resources.Operation.{approve}
use agent_cat.Resources.Receipt.{
  CommandReceipt, consistent, consistent_receipt, decode_command_receipt, encode_command_receipt,
}
use agent_cat.Resources.Accepted.{IsReceipt, decode_command_receipt-IsReceipt}
use agent_cat.Resources.Roundtrip.{decode-encode_command_receipt}

-- The strings of the tests are ASCII and in capitals, without what JSON escapes.
abbrev ascii : Strings
ascii = record {
  quote = λ t. b'"' ∷ t ++ codes "\"";
  byte_length = λ t. length t;
  upper_case = λ t. t;
}

abbrev effect : JsonValue
effect = object (
    member (codes "kind") (string (codes "started")) (
      member (codes "runtimeSequence") (string (codes "7")) (
        member (codes "address") null
          (member (codes "resource") (string (codes "/v1/runs/r1")) no_members))))

abbrev receipt : CommandReceipt
receipt = record {
  id = codes "c1";
  profile_id = codes "p";
  operation = approve;
  resource = codes "/v1/requests/q1";
  state = effect_observed;
  accepted_at = codes "2024-02-29T12:00:00.5Z";
  dispatch_attempted_at = some (codes "2024-02-29T12:00:01+01:00");
  acknowledgement = none;
  effect = some effect;
  refusal = none;
}

valid_c1 : valid_id receipt.id ≡ true
unfolding valid_id
valid_c1 = refl

valid_p : valid_id receipt.profile_id ≡ true
unfolding valid_id
valid_p = refl

valid_q1 : valid_resource receipt.resource ≡ true
unfolding valid_resource strip_prefix
valid_q1 = refl

leap_day : valid_timestamp (λ t. t) receipt.accepted_at ≡ true
unfolding valid_timestamp agent_cat.Resources.Fields.text_length code_points
    agent_cat.Resources.Timestamp.moment_of agent_cat.Resources.Timestamp.digits strip_prefix
    agent_cat.Resources.Timestamp.skip_fraction agent_cat.Json.Number.span_digits
    agent_cat.Resources.Timestamp.zone agent_cat.Resources.Timestamp.valid_moment
leap_day = refl

with_offset : valid_timestamp (λ t. t) (codes "2024-02-29T12:00:01+01:00") ≡ true
unfolding valid_timestamp agent_cat.Resources.Fields.text_length code_points
    agent_cat.Resources.Timestamp.moment_of agent_cat.Resources.Timestamp.digits strip_prefix
    agent_cat.Resources.Timestamp.skip_fraction agent_cat.Resources.Timestamp.zone
    agent_cat.Resources.Timestamp.valid_moment
with_offset = refl

started : valid_effect ascii effect ≡ true
unfolding valid_effect agent_cat.Resources.Fields.exact agent_cat.Json.Value.json_member text_eq
    agent_cat.Resources.Fields.one_of agent_cat.Resources.Evidence.optional_decimal
    agent_cat.Resources.Evidence.required_decimal agent_cat.Resources.Fields.canonical_decimal
    is_decimal digits_value valid_resource strip_prefix agent_cat.Resources.Evidence.valid_address
    agent_cat.Json.Encode.encode_json agent_cat.Json.Encode.join agent_cat.Json.Encode.insert_member
    agent_cat.Json.Encode.text_less
started = refl

agrees : consistent_receipt receipt ≡ true
unfolding consistent
agrees = refl

receipt-IsReceipt : IsReceipt ascii receipt
receipt-IsReceipt = record {
  id = valid_c1;
  profile_id = valid_p;
  resource = valid_q1;
  accepted_at = leap_day;
  dispatch_attempted_at = with_offset;
  acknowledgement = tt;
  effect = started;
  refusal = tt;
  consistent = agrees;
}

decode-encode_command_receipt_example :
    decode_command_receipt ascii (encode_command_receipt receipt) ≡ ok receipt
decode-encode_command_receipt_example =
    decode-encode_command_receipt ascii receipt receipt-IsReceipt

decode_command_receipt-IsReceipt_example : IsReceipt ascii receipt
decode_command_receipt-IsReceipt_example =
    decode_command_receipt-IsReceipt ascii (encode_command_receipt receipt) receipt
      decode-encode_command_receipt_example

no_leap_day : valid_timestamp (λ t. t) (codes "2023-02-29T12:00:00Z") ≡ false
unfolding valid_timestamp agent_cat.Resources.Fields.text_length code_points
    agent_cat.Resources.Timestamp.moment_of agent_cat.Resources.Timestamp.digits strip_prefix
    agent_cat.Resources.Timestamp.skip_fraction agent_cat.Resources.Timestamp.zone
    agent_cat.Resources.Timestamp.valid_moment
no_leap_day = refl
