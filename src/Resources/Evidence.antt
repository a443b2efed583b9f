-- ===== src/Resources/Evidence.antt =====
-- `validAcknowledgement` and `validEffect` of ext-pi/src/manager/resources.ts.
use agent_cat.Base.{
  ℕ, Bool, true, false, not, ◌&&◌, ◌||◌, List, [], ◌∷◌, map, Option, none, some, Text, codes, is,
  leb, if◌then◌else◌,
}
use agent_cat.Events.Syntax.{valid_id, valid_resource}
use agent_cat.Json.Value.{
  JsonValue, null, string, object, JsonMembers, has_own, json_member, string_of,
}
use agent_cat.Json.Integer.{word64_max}
use agent_cat.Json.Encode.{encode_json}
use agent_cat.Resources.Fields.{Strings, text_length, exact, nullable, canonical_decimal, one_of}

abbrev pub word32_max : ℕ
word32_max = 4294967295

abbrev is_canonical : Option ℕ → Bool
is_canonical none = false
is_canonical (some n) = true

unfoldable pub required_decimal : Option JsonValue → ℕ → ℕ → Bool
required_decimal (some (string t)) digits maximum =
    is_canonical (canonical_decimal t digits maximum)
required_decimal _ digits maximum = false

unfoldable pub optional_decimal : Option JsonValue → ℕ → ℕ → Bool
optional_decimal (some null) digits maximum = true
optional_decimal value digits maximum = required_decimal value digits maximum

abbrev is_null : Option JsonValue → Bool
is_null (some null) = true
is_null _ = false

abbrev acknowledgement_states : List Text
acknowledgement_states =
    map codes
      ("accepted" ∷ "queued" ∷ "delivered" ∷ "rejected-stale" ∷ "unsupported" ∷ "failed" ∷ [])

abbrev acknowledged_commands : List Text
acknowledged_commands =
    map codes ("cancel" ∷ "steer" ∷ "retry" ∷ "choose-recovery" ∷ "redirect" ∷ "answer" ∷ [])

abbrev acknowledgement_names : List Text
acknowledgement_names =
    map codes ("commandId" ∷ "state" ∷ "message" ∷ "command" ∷ "occurrenceId" ∷ "attemptId" ∷ [])

abbrev is_there {ℓ} : {A : Type ℓ} → Option A → Bool
is_there none = false
is_there (some a) = true

abbrev is_valid : (Text → Bool) → Option Text → Bool
is_valid valid none = false
is_valid valid (some t) = valid t

abbrev is_answer : Option (Option Text) → Bool
is_answer (some (some command)) = is command "answer"
is_answer _ = false

abbrev effect_kinds : List Text
effect_kinds = map codes (
    "started" ∷ "cancelled" ∷ "steered" ∷ "retried" ∷ "recovery-chosen" ∷ "redirected"
    ∷ "answer-accepted" ∷ "input-changed" ∷ "enqueued" ∷ "withdrawn" ∷ "discarded" ∷ "exported"
    ∷ "lineage-created" ∷ [])

module _ (strings : Strings) where
  abbrev encoded_bytes : JsonValue → ℕ
  encoded_bytes value = strings.byte_length (encode_json strings.quote value)

  abbrev acknowledgement_fields : JsonValue → Option JsonMembers → Bool
  acknowledgement_fields value none = false
  acknowledgement_fields value (some fields) =
      let command =
        nullable (json_member fields (codes "command"))
          (λ name. one_of (some name) acknowledged_commands) in
      let occurrence = json_member fields (codes "occurrenceId") in
      let attempt = json_member fields (codes "attemptId") in
      is_valid valid_id (string_of (json_member fields (codes "commandId")))
      && is_there (one_of (json_member fields (codes "state")) acknowledgement_states)
      && is_valid (λ message. leb (text_length message) 4096)
          (string_of (json_member fields (codes "message")))
      && is_there command
      && optional_decimal occurrence 20 word64_max
      && optional_decimal attempt 10 word32_max
      && (is_null attempt || not (is_null occurrence))
      && (not (is_answer command) || (not (is_null occurrence) && is_null attempt))
      && leb (encoded_bytes value) 32768

  unfoldable pub valid_acknowledgement : JsonValue → Bool
  valid_acknowledgement value =
      acknowledgement_fields value (exact (some value) acknowledgement_names)

  abbrev address_fields : Bool → Option JsonMembers → Bool
  address_fields with_attempt none = false
  address_fields with_attempt (some shaped) =
      required_decimal (json_member shaped (codes "occurrenceId")) 20 word64_max
      && (not with_attempt
          || required_decimal (json_member shaped (codes "attemptId")) 10 word32_max)

  abbrev address_names : Bool → List Text
  address_names with_attempt =
      if with_attempt
      then map codes ("occurrenceId" ∷ "attemptId" ∷ [])
      else map codes ("occurrenceId" ∷ [])

  unfoldable pub valid_address : Option JsonValue → Bool
  valid_address (some null) = true
  valid_address (some (object address)) =
      let with_attempt = has_own address (codes "attemptId") in
      address_fields with_attempt (exact (some (object address)) (address_names with_attempt))
  valid_address _ = false

  abbrev effect_fields : JsonValue → Option JsonMembers → Bool
  effect_fields value none = false
  effect_fields value (some fields) =
      is_there (one_of (json_member fields (codes "kind")) effect_kinds)
      && optional_decimal (json_member fields (codes "runtimeSequence")) 20 word64_max
      && is_valid valid_resource (string_of (json_member fields (codes "resource")))
      && valid_address (json_member fields (codes "address"))
      && leb (encoded_bytes value) 16384

  unfoldable pub valid_effect : JsonValue → Bool
  valid_effect value =
      effect_fields value
        (exact (some value) (map codes ("kind" ∷ "runtimeSequence" ∷ "address" ∷ "resource" ∷ [])))
