-- ===== src/Resources/Accepted.antt =====
-- What the receipts that ext-pi/src/manager/resources.ts accepts have.
use agent_cat.Base.{
  ◌≡◌, refl, subst, Bool, true, false, not, ◌||◌, List, Option, none, some, String, Text, codes,
  includes, if◌then◌else◌, not_eq_false, ok, required, >>=-eq-ok, refuse-then, guard-some,
  subst-some, required-eq-ok, subst-ok,
}
use agent_cat.Events.Failure.{invalid_response}
use agent_cat.Events.Syntax.{valid_id, valid_resource}
use agent_cat.Json.Value.{JsonValue, is_null, string, JsonMembers, json_member, string_of}
use agent_cat.Resources.Fields.{Strings, exact, version_one, parsed, nullable, one_of}
use agent_cat.Resources.Evidence.{valid_acknowledgement, valid_effect}
use agent_cat.Resources.Receipt.{
  CommandReceipt, Head, Progress, receipt_of, receipt_head, receipt_progress, receipt_refusals,
  receipt_names, consistent_receipt, checked_receipt, valid_text, text_field, nullable_field,
  time_of, refusal_of, operation_of, state_field, other_scopes, other_links, passing, valid_time,
  parse_command_receipt, decode_command_receipt,
}

-- What holds of a text or a value that may be null.
abbrev pub Held {ℓ} : {A : Type ℓ} → (A → Bool) → Option A → Type 0
Held test none = Unit
Held test (some a) = test a ≡ true

-- A receipt that the protocol allows.
pub record IsReceipt (strings : Strings) (r : CommandReceipt) : Type 0 where
  pub id : valid_id r.id ≡ true
  pub profile_id : valid_id r.profile_id ≡ true
  pub resource : valid_resource r.resource ≡ true
  pub accepted_at : valid_time strings r.accepted_at ≡ true
  pub dispatch_attempted_at : Held (valid_time strings) r.dispatch_attempted_at
  pub acknowledgement : Held (valid_acknowledgement strings) r.acknowledgement
  pub effect : Held (valid_effect strings) r.effect
  pub refusal : Held (includes receipt_refusals) r.refusal
  pub consistent : consistent_receipt r ≡ true

pub valid_text-valid :
    (valid : Text → Bool) (o : Option Text) {t : Text}
    → valid_text valid o ≡ some t
    → valid t ≡ true
valid_text-valid valid none h = cc
valid_text-valid valid (some u) h =
    let (e, same) = guard-some (valid u) u h in subst (λ t. valid t ≡ true) same e

parsed-Held :
    {A : Type 0} (test : A → Bool) (o : Option A) {found : Option A}
    → ((a : A) → o ≡ some a → test a ≡ true)
    → parsed o ≡ some found
    → Held test found
parsed-Held test none each h = cc
parsed-Held test (some a) each h = subst-some (Held test) h (each a refl)

or_parsed-Held :
    {A : Type 0} (test : A → Bool) (b : Bool) (o : Option A) {found : Option A}
    → ((a : A) → o ≡ some a → test a ≡ true)
    → (if b then some none else parsed o) ≡ some found
    → Held test found
or_parsed-Held test true o each h = subst-some (Held test) h tt
or_parsed-Held test false o each h = parsed-Held test o each h

nullable-Held :
    {A : Type 0} (test : A → Bool) (parse : JsonValue → Option A)
    → ((v : JsonValue) (a : A) → parse v ≡ some a → test a ≡ true)
    → (value : Option JsonValue) {found : Option A} → nullable value parse ≡ some found
    → Held test found
unfolding nullable
nullable-Held test parse each none h = cc
nullable-Held test parse each (some value) h =
    or_parsed-Held test (is_null value) (parse value) (each value) h

text_field-valid :
    (valid : Text → Bool) (name : String) (fields : JsonMembers) {t : Text}
    → text_field valid name fields ≡ some t
    → valid t ≡ true
text_field-valid valid name fields h =
    valid_text-valid valid (string_of (json_member fields (codes name))) h

nullable_field-Held :
    {A : Type 0} (test : A → Bool) (read : JsonValue → Option A) (name : String)
    (fields : JsonMembers) {found : Option A}
    → ((v : JsonValue) (a : A) → read v ≡ some a → test a ≡ true)
    → nullable_field read name fields ≡ some found
    → Held test found
nullable_field-Held test read name fields each h =
    nullable-Held test read each (json_member fields (codes name)) h

passing-valid :
    (valid : JsonValue → Bool) (v a : JsonValue) → passing valid v ≡ some a → valid a ≡ true
passing-valid valid v a h =
    let (e, same) = guard-some (valid v) v h in subst (λ x. valid x ≡ true) same e

one_of-included :
    (choices : List Text) (v : Option JsonValue) (t : Text)
    → one_of v choices ≡ some t
    → includes choices t ≡ true
unfolding one_of
one_of-included choices (some (string u)) t h =
    let (e, same) = guard-some (includes choices u) u h in
    subst (λ x. includes choices x ≡ true) same e
one_of-included choices v t h = cc

module _ (strings : Strings) where
  record IsHead (head : Head) : Type 0 where
    id : valid_id head.id ≡ true
    profile_id : valid_id head.profile_id ≡ true
    resource : valid_resource head.resource ≡ true
    accepted_at : valid_time strings head.accepted_at ≡ true

  receipt_head-IsHead :
      (fields : JsonMembers) {head : Head} → receipt_head strings fields ≡ ok head → IsHead head
  unfolding receipt_head
  receipt_head-IsHead fields h =
      let (id, e₁, h₁) =
        >>=-eq-ok (required (text_field valid_id "id" fields) invalid_response) _ h in
      let (profile_id, e₂, h₂) =
        >>=-eq-ok (required (text_field valid_id "profileId" fields) invalid_response) _ h₁ in
      let (operation, e₃, h₃) = >>=-eq-ok (required (operation_of fields) invalid_response) _ h₂ in
      let (resource, e₄, h₄) =
        >>=-eq-ok (required (text_field valid_resource "resource" fields) invalid_response) _ h₃ in
      let (state, e₅, h₅) = >>=-eq-ok (required (state_field fields) invalid_response) _ h₄ in
      let (accepted_at, e₆, h₆) =
        >>=-eq-ok (required (text_field (valid_time strings) "acceptedAt" fields) invalid_response)
          _ h₅ in
      subst-ok IsHead h₆ (record {
        id = text_field-valid valid_id "id" fields (required-eq-ok _ _ e₁);
        profile_id = text_field-valid valid_id "profileId" fields (required-eq-ok _ _ e₂);
        resource = text_field-valid valid_resource "resource" fields (required-eq-ok _ _ e₄);
        accepted_at =
            text_field-valid (valid_time strings) "acceptedAt" fields (required-eq-ok _ _ e₆);
      })

  record IsProgress (progress : Progress) : Type 0 where
    dispatch_attempted_at : Held (valid_time strings) progress.dispatch_attempted_at
    acknowledgement : Held (valid_acknowledgement strings) progress.acknowledgement
    effect : Held (valid_effect strings) progress.effect
    refusal : Held (includes receipt_refusals) progress.refusal

  receipt_progress-IsProgress :
      (fields : JsonMembers) {progress : Progress}
      → receipt_progress strings fields ≡ ok progress
      → IsProgress progress
  unfolding receipt_progress
  receipt_progress-IsProgress fields h =
      let (attempted, e₁, h₁) =
        >>=-eq-ok
          (required (nullable_field (time_of strings) "dispatchAttemptedAt" fields)
            invalid_response)
          _ h in
      let (acked, e₂, h₂) =
        >>=-eq-ok
          (required
            (nullable_field (passing (valid_acknowledgement strings)) "acknowledgement" fields)
            invalid_response)
          _ h₁ in
      let (effect, e₃, h₃) =
        >>=-eq-ok
          (required (nullable_field (passing (valid_effect strings)) "effect" fields)
            invalid_response)
          _ h₂ in
      let (refusal, e₄, h₄) =
        >>=-eq-ok (required (nullable_field refusal_of "refusal" fields) invalid_response) _ h₃ in
      subst-ok IsProgress h₄ (record {
        dispatch_attempted_at =
            nullable_field-Held (valid_time strings) (time_of strings) "dispatchAttemptedAt" fields
              (λ x a. valid_text-valid (valid_time strings) (string_of (some x)))
              (required-eq-ok _ _ e₁);
        acknowledgement =
            nullable_field-Held (valid_acknowledgement strings) _ "acknowledgement" fields
              (passing-valid (valid_acknowledgement strings)) (required-eq-ok _ _ e₂);
        effect =
            nullable_field-Held (valid_effect strings) _ "effect" fields
              (passing-valid (valid_effect strings)) (required-eq-ok _ _ e₃);
        refusal =
            nullable_field-Held (includes receipt_refusals) refusal_of "refusal" fields
              (λ x. one_of-included receipt_refusals (some x)) (required-eq-ok _ _ e₄);
      })

  receipt_of-IsReceipt :
      (head : Head) (progress : Progress) {r : CommandReceipt}
      → IsHead head
      → IsProgress progress
      → checked_receipt (receipt_of head progress) ≡ ok r
      → IsReceipt strings r
  receipt_of-IsReceipt head progress p q h =
      let (e, same) = refuse-then (not (consistent_receipt (receipt_of head progress))) _ _ h in
      subst-ok (IsReceipt strings) same (record {
        id = p.id;
        profile_id = p.profile_id;
        resource = p.resource;
        accepted_at = p.accepted_at;
        dispatch_attempted_at = q.dispatch_attempted_at;
        acknowledgement = q.acknowledgement;
        effect = q.effect;
        refusal = q.refusal;
        consistent = not_eq_false _ e;
      })

  -- A decoded receipt is one that the protocol allows.
  pub decode_command_receipt-IsReceipt :
      (value : JsonValue) (r : CommandReceipt)
      → decode_command_receipt strings value ≡ ok r
      → IsReceipt strings r
  unfolding decode_command_receipt parse_command_receipt
  decode_command_receipt-IsReceipt value r h =
      let (fields, e₀, h₀) =
        >>=-eq-ok (required (exact (some value) receipt_names) invalid_response) _ h in
      let (e₁, h₁) = refuse-then (not (version_one fields)) _ _ h₀ in
      let (head, e₂, h₂) = >>=-eq-ok (receipt_head strings fields) _ h₁ in
      let (progress, e₃, h₃) = >>=-eq-ok (receipt_progress strings fields) _ h₂ in
      let (e₄, h₄) =
        refuse-then (other_scopes fields head.operation || other_links fields head.id head.resource)
          _ _ h₃ in
      receipt_of-IsReceipt head progress (receipt_head-IsHead fields e₂)
        (receipt_progress-IsProgress fields e₃) h₄
