-- ===== src/Resources/Receipt.antt =====
-- `CommandReceipt`, its decoder and its encoder, of ext-pi/src/manager/resources.ts.
use agent_cat.Base.{
  Bool, true, false, not, ◌&&◌, ◌||◌, List, [], ◌∷◌, ◌++◌, map, Option, none, some, String, Text,
  codes, text_eq, if◌then◌else◌, ok, ◌>>=◌, refuse, required,
}
use agent_cat.Events.Failure.{invalid_response, Outcome}
use agent_cat.Events.Syntax.{valid_id, valid_resource}
use agent_cat.Json.Value.{
  JsonValue, null, string, number, array, object, JsonMembers, no_members, member, as_items,
  json_member, string_of,
}
use agent_cat.Json.Equality.{json_equal}
use agent_cat.Refresh.Reconcile.{
  CommandState, accepted, dispatch_attempted, acknowledged, effect_observed, refused, unresolved,
  parse_command_state,
}
use agent_cat.Resources.Fields.{Strings, exact, version_one, nullable, one_of}
use agent_cat.Resources.Timestamp.{valid_timestamp}
use agent_cat.Resources.Operation.{Operation, parse_operation, operation_text, required_scopes}
use agent_cat.Resources.Evidence.{valid_acknowledgement, valid_effect}

pub record CommandReceipt : Type 0 where
  pub id : Text
  pub profile_id : Text
  pub operation : Operation
  pub resource : Text
  pub state : CommandState
  pub accepted_at : Text
  pub dispatch_attempted_at : Option Text
  pub acknowledgement : Option JsonValue
  pub effect : Option JsonValue
  pub refusal : Option Text

-- The members of a receipt that its state does not speak of, and those that it does.
pub record Head : Type 0 where
  pub id : Text
  pub profile_id : Text
  pub operation : Operation
  pub resource : Text
  pub state : CommandState
  pub accepted_at : Text

pub record Progress : Type 0 where
  pub dispatch_attempted_at : Option Text
  pub acknowledgement : Option JsonValue
  pub effect : Option JsonValue
  pub refusal : Option Text

abbrev pub receipt_of : Head → Progress → CommandReceipt
receipt_of head progress = record {
  id = head.id;
  profile_id = head.profile_id;
  operation = head.operation;
  resource = head.resource;
  state = head.state;
  accepted_at = head.accepted_at;
  dispatch_attempted_at = progress.dispatch_attempted_at;
  acknowledgement = progress.acknowledgement;
  effect = progress.effect;
  refusal = progress.refusal;
}

abbrev pub receipt_refusals : List Text
receipt_refusals = map codes (
    "state-conflict" ∷ "stale-revision" ∷ "unsupported-operation" ∷ "ownership-unavailable"
    ∷ "supervision-unavailable" ∷ "invalid-answer" ∷ "invalid-lineage-edit" ∷ "export-conflict"
    ∷ "storage-unavailable" ∷ [])

abbrev pub receipt_names : List Text
receipt_names = map codes (
    "version" ∷ "id" ∷ "profileId" ∷ "operation" ∷ "requiredScopes" ∷ "resource" ∷ "state"
    ∷ "acceptedAt" ∷ "dispatchAttemptedAt" ∷ "acknowledgement" ∷ "effect" ∷ "refusal" ∷ "links"
    ∷ [])

abbrev is_there {ℓ} : {A : Type ℓ} → Option A → Bool
is_there none = false
is_there (some a) = true

-- What each state says of the time of the attempt, the acknowledgement, the effect and the refusal.
unfoldable pub consistent : CommandState → Bool → Bool → Bool → Bool → Bool
consistent accepted attempted acked observed denied =
    not attempted && not acked && not observed && not denied
consistent dispatch_attempted attempted acked observed denied =
    attempted && not acked && not observed && not denied
consistent acknowledged attempted acked observed denied =
    attempted && acked && not observed && not denied
consistent effect_observed attempted acked observed denied = observed && not denied
consistent refused attempted acked observed denied = denied && not observed
consistent unresolved attempted acked observed denied = not observed && not denied

abbrev pub consistent_receipt : CommandReceipt → Bool
consistent_receipt r =
    consistent r.state (is_there r.dispatch_attempted_at) (is_there r.acknowledgement)
      (is_there r.effect) (is_there r.refusal)

abbrev pub string_items : List Text → JsonValue
string_items names = array (as_items (map (λ t. string t) names))

abbrev pub equals_value : Option JsonValue → JsonValue → Bool
equals_value none value = false
equals_value (some found) value = json_equal found value

abbrev pub is_text : Option JsonValue → Text → Bool
is_text (some (string t)) text = text_eq t text
is_text _ text = false

abbrev pub links_agree : Text → Text → Option JsonMembers → Bool
links_agree id resource none = false
links_agree id resource (some links) =
    is_text (json_member links (codes "self")) (codes "/v1/commands/" ++ id)
    && is_text (json_member links (codes "resource")) resource

abbrev pub valid_text : (Text → Bool) → Option Text → Option Text
valid_text valid none = none
valid_text valid (some t) = if valid t then some t else none

abbrev pub text_field : (Text → Bool) → String → JsonMembers → Option Text
text_field valid name fields = valid_text valid (string_of (json_member fields (codes name)))

abbrev pub state_of : Option Text → Option CommandState
state_of none = none
state_of (some t) = parse_command_state t

abbrev pub passing : (JsonValue → Bool) → JsonValue → Option JsonValue
passing valid value = if valid value then some value else none

abbrev pub nullable_field {ℓ} :
    {A : Type ℓ} → (JsonValue → Option A) → String → JsonMembers → Option (Option A)
nullable_field read name fields = nullable (json_member fields (codes name)) read

abbrev pub refusal_of : JsonValue → Option Text
refusal_of v = one_of (some v) receipt_refusals

abbrev pub operation_of : JsonMembers → Option Operation
operation_of fields = parse_operation (json_member fields (codes "operation"))

abbrev pub state_field : JsonMembers → Option CommandState
state_field fields = state_of (string_of (json_member fields (codes "state")))

abbrev pub other_scopes : JsonMembers → Operation → Bool
other_scopes fields operation = not (
    equals_value (json_member fields (codes "requiredScopes"))
      (string_items (required_scopes operation)))

abbrev pub other_links : JsonMembers → Text → Text → Bool
other_links fields id resource = not (
    links_agree id resource
      (exact (json_member fields (codes "links")) (map codes ("self" ∷ "resource" ∷ []))))

abbrev pub checked_receipt : CommandReceipt → Outcome CommandReceipt
checked_receipt r = refuse (not (consistent_receipt r)) invalid_response >>= λ done. ok r

module _ (strings : Strings) where
  abbrev pub valid_time : Text → Bool
  valid_time t = valid_timestamp strings.upper_case t

  abbrev pub time_of : JsonValue → Option Text
  time_of v = valid_text valid_time (string_of (some v))

  unfoldable pub receipt_head : JsonMembers → Outcome Head
  receipt_head fields = required (text_field valid_id "id" fields) invalid_response >>= λ id.
      required (text_field valid_id "profileId" fields) invalid_response >>= λ profile_id.
      required (operation_of fields) invalid_response >>= λ operation.
      required (text_field valid_resource "resource" fields) invalid_response >>= λ resource.
      required (state_field fields) invalid_response >>= λ state.
      required (text_field valid_time "acceptedAt" fields) invalid_response >>= λ accepted_at.
      ok (record {
        id = id;
        profile_id = profile_id;
        operation = operation;
        resource = resource;
        state = state;
        accepted_at = accepted_at;
      })

  unfoldable pub receipt_progress : JsonMembers → Outcome Progress
  receipt_progress fields =
      required (nullable_field time_of "dispatchAttemptedAt" fields) invalid_response
      >>= λ attempted.
          required
            (nullable_field (passing (valid_acknowledgement strings)) "acknowledgement" fields)
            invalid_response
          >>= λ acknowledgement.
              required (nullable_field (passing (valid_effect strings)) "effect" fields)
                invalid_response
              >>= λ effect.
                  required (nullable_field refusal_of "refusal" fields) invalid_response
                  >>= λ refusal. ok (record {
                    dispatch_attempted_at = attempted;
                    acknowledgement = acknowledgement;
                    effect = effect;
                    refusal = refusal;
                  })

  unfoldable pub parse_command_receipt : JsonMembers → Outcome CommandReceipt
  parse_command_receipt fields = refuse (not (version_one fields)) invalid_response >>= λ done.
      receipt_head fields >>= λ head. receipt_progress fields >>= λ progress.
      refuse (other_scopes fields head.operation || other_links fields head.id head.resource)
        invalid_response
      >>= λ done. checked_receipt (receipt_of head progress)

  unfoldable pub decode_command_receipt : JsonValue → Outcome CommandReceipt
  decode_command_receipt value =
      required (exact (some value) receipt_names) invalid_response >>= parse_command_receipt

abbrev pub or_null : Option JsonValue → JsonValue
or_null none = null
or_null (some v) = v

abbrev pub text_or_null : Option Text → JsonValue
text_or_null none = null
text_or_null (some t) = string t

abbrev pub state_text : CommandState → Text
state_text accepted = codes "accepted"
state_text dispatch_attempted = codes "dispatch-attempted"
state_text acknowledged = codes "acknowledged"
state_text effect_observed = codes "effect-observed"
state_text refused = codes "refused"
state_text unresolved = codes "unresolved"

abbrev field : String → JsonValue → JsonMembers → JsonMembers
field name value rest = member (codes name) value rest

unfoldable pub encode_command_receipt : CommandReceipt → JsonValue
encode_command_receipt r = object (
    field "version" (number (codes "1")) (
      field "id" (string r.id) (
        field "profileId" (string r.profile_id) (
          field "operation" (string (operation_text r.operation)) (
            field "requiredScopes" (string_items (required_scopes r.operation)) (
              field "resource" (string r.resource) (
                field "state" (string (state_text r.state)) (
                  field "acceptedAt" (string r.accepted_at) (
                    field "dispatchAttemptedAt" (text_or_null r.dispatch_attempted_at) (
                      field "acknowledgement" (or_null r.acknowledgement) (
                        field "effect" (or_null r.effect) (
                          field "refusal" (text_or_null r.refusal) (
                            field "links"
                              (object (
                                field "self" (string (codes "/v1/commands/" ++ r.id))
                                  (field "resource" (string r.resource) no_members)))
                              no_members)))))))))))))
