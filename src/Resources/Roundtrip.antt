-- ===== src/Resources/Roundtrip.antt =====
-- The round trip of a command receipt of ext-pi/src/manager/resources.ts.
use agent_cat.Base.{
  ◌≡◌, refl, subst, Bool, true, false, Option, none, some, Text, includes, is_decimal, digits_value,
  text_eq, text_eq_refl, ok,
}
use agent_cat.Json.Value.{JsonValue, null, string, object, JsonMembers, no_members, json_member}
use agent_cat.Json.Equality.{json_equal}
use agent_cat.Refresh.Reconcile.{
  CommandState, accepted, dispatch_attempted, acknowledged, effect_observed, refused, unresolved,
  parse_command_state,
}
use agent_cat.Resources.Fields.{Strings, exact, version_one, nullable, one_of}
use agent_cat.Resources.Operation.{Operation, required_scopes}
use agent_cat.Resources.Evidence.{valid_acknowledgement, valid_effect}
use agent_cat.Resources.Receipt.{
  CommandReceipt, receipt_head, receipt_progress, receipt_refusals, receipt_names, string_items,
  valid_text, time_of, refusal_of, other_scopes, other_links, passing, valid_time,
  parse_command_receipt, decode_command_receipt, encode_command_receipt, or_null, text_or_null,
  state_text,
}
use agent_cat.Json.Value.{is_null}
use agent_cat.Resources.Fields.{parsed}
use agent_cat.Resources.Operation.{find-operation_text}
use agent_cat.Resources.Accepted.{IsReceipt, Held}

valid_text-eq :
    (valid : Text → Bool) (t : Text) → valid t ≡ true → valid_text valid (some t) ≡ some t
valid_text-eq valid t h = rw h refl

nullable-value :
    {A : Type 0} (read : JsonValue → Option A) (v : JsonValue) (a : A)
    → is_null v ≡ false
    → read v ≡ some a
    → nullable (some v) read ≡ some (some a)
unfolding nullable
nullable-value read v a there h = rw (there, h) refl

valued :
    (valid : JsonValue → Bool) (v : JsonValue)
    → valid null ≡ false
    → valid v ≡ true
    → is_null v ≡ false
valued valid null none_valid h = cc
valued valid v none_valid h = refl

nullable-or_null :
    (valid : JsonValue → Bool) (o : Option JsonValue)
    → valid null ≡ false
    → Held valid o
    → nullable (some (or_null o)) (passing valid) ≡ some o
unfolding nullable
nullable-or_null valid none none_valid h = refl
nullable-or_null valid (some v) none_valid h =
    nullable-value (passing valid) v v (valued valid v none_valid h) (rw h refl)

nullable-text_or_null :
    (read : JsonValue → Option Text) (o : Option Text)
    → ((t : Text) → o ≡ some t → read (string t) ≡ some t)
    → nullable (some (text_or_null o)) read ≡ some o
unfolding nullable
nullable-text_or_null read none each = refl
nullable-text_or_null read (some t) each = rw (each t refl) refl

refusal-eq : (t : Text) → includes receipt_refusals t ≡ true → refusal_of (string t) ≡ some t
unfolding one_of
refusal-eq t h = rw h refl

parse-state_text : (state : CommandState) → parse_command_state (state_text state) ≡ some state
unfolding parse_command_state text_eq
parse-state_text accepted = refl
parse-state_text dispatch_attempted = refl
parse-state_text acknowledged = refl
parse-state_text effect_observed = refl
parse-state_text refused = refl
parse-state_text unresolved = refl

json_equal-scopes :
    (o : Operation)
    → json_equal (string_items (required_scopes o)) (string_items (required_scopes o)) ≡ true
unfolding json_equal required_scopes text_eq
json_equal-scopes Operation.create = refl
json_equal-scopes Operation.capture = refl
json_equal-scopes Operation.set_input = refl
json_equal-scopes Operation.remove_input = refl
json_equal-scopes Operation.enqueue = refl
json_equal-scopes Operation.withdraw = refl
json_equal-scopes Operation.approve = refl
json_equal-scopes Operation.discard = refl
json_equal-scopes Operation.cancel = refl
json_equal-scopes Operation.steer = refl
json_equal-scopes Operation.retry = refl
json_equal-scopes Operation.choose_recovery = refl
json_equal-scopes Operation.redirect = refl
json_equal-scopes Operation.answer = refl
json_equal-scopes Operation.export = refl
json_equal-scopes Operation.restart = refl
json_equal-scopes Operation.resume = refl
json_equal-scopes Operation.fork = refl

abbrev fields_of : JsonValue → JsonMembers
fields_of (object ms) = ms
fields_of v = no_members

module _ (strings : Strings) where
  receipt_head-encode :
      (r : CommandReceipt)
      → IsReceipt strings r
      → receipt_head strings (fields_of (encode_command_receipt r))
        ≡ ok (record {
          id = r.id;
          profile_id = r.profile_id;
          operation = r.operation;
          resource = r.resource;
          state = r.state;
          accepted_at = r.accepted_at;
        })
  unfolding receipt_head encode_command_receipt json_member text_eq
  receipt_head-encode r h =
      rw
        (
          h.id,
          h.profile_id,
          h.resource,
          h.accepted_at,
          find-operation_text r.operation,
          parse-state_text r.state,
        )
        refl

  no_acknowledgement : valid_acknowledgement strings null ≡ false
  unfolding valid_acknowledgement exact
  no_acknowledgement = refl

  no_effect : valid_effect strings null ≡ false
  unfolding valid_effect exact
  no_effect = refl

  held_text :
      (test : Text → Bool) (o : Option Text) (t : Text) → Held test o → o ≡ some t → test t ≡ true
  held_text test o t h same = subst (Held test) same h

  receipt_progress-encode :
      (r : CommandReceipt)
      → IsReceipt strings r
      → receipt_progress strings (fields_of (encode_command_receipt r))
        ≡ ok (record {
          dispatch_attempted_at = r.dispatch_attempted_at;
          acknowledgement = r.acknowledgement;
          effect = r.effect;
          refusal = r.refusal;
        })
  unfolding receipt_progress encode_command_receipt json_member text_eq
  receipt_progress-encode r h =
      rw
        (
          nullable-text_or_null (time_of strings) r.dispatch_attempted_at (λ t e.
              valid_text-eq (valid_time strings) t
                (held_text (valid_time strings) _ t h.dispatch_attempted_at e)),
          nullable-or_null (valid_acknowledgement strings) r.acknowledgement no_acknowledgement
              h.acknowledgement,
          nullable-or_null (valid_effect strings) r.effect no_effect h.effect,
          nullable-text_or_null refusal_of r.refusal
              (λ t e. refusal-eq t (held_text (includes receipt_refusals) _ t h.refusal e)),
        )
        refl

  is_version_one : (r : CommandReceipt) → version_one (fields_of (encode_command_receipt r)) ≡ true
  unfolding version_one encode_command_receipt json_member text_eq agent_cat.Resources.Fields.int_of
      agent_cat.Json.Integer.bounded_integer agent_cat.Json.Number.decimal_of
      agent_cat.Json.Number.parts_of is_decimal agent_cat.Json.Number.span_digits
      agent_cat.Json.Number.value_of agent_cat.Json.Number.drop_zeros digits_value
      agent_cat.Json.Integer.decimal_text agent_cat.Json.Integer.digits_before
  is_version_one r = refl

  same_scopes :
      (r : CommandReceipt) → other_scopes (fields_of (encode_command_receipt r)) r.operation ≡ false
  unfolding encode_command_receipt json_member text_eq
  same_scopes r = rw (json_equal-scopes r.operation) refl

  same_links :
      (r : CommandReceipt)
      → other_links (fields_of (encode_command_receipt r)) r.id r.resource ≡ false
  unfolding encode_command_receipt json_member exact text_eq
  same_links r = rw (text_eq_refl r.id, text_eq_refl r.resource) refl

  has_names :
      (r : CommandReceipt)
      → exact (some (encode_command_receipt r)) receipt_names
        ≡ some (fields_of (encode_command_receipt r))
  unfolding encode_command_receipt json_member exact text_eq
  has_names r = refl

  -- Decoding the JSON value of a receipt gives the receipt, if the receipt is one that the protocol allows.
  pub decode-encode_command_receipt :
      (r : CommandReceipt)
      → IsReceipt strings r
      → decode_command_receipt strings (encode_command_receipt r) ≡ ok r
  unfolding decode_command_receipt parse_command_receipt
  decode-encode_command_receipt r h =
      rw
        (
          has_names r,
          is_version_one r,
          receipt_head-encode r h,
          receipt_progress-encode r h,
          same_scopes r,
          same_links r,
          h.consistent,
        )
        refl
