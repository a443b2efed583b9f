-- ===== src/Session/Prepared.antt =====
-- The captures that a session of ext-pi/src/manager/session.ts prepares.
use agent_cat.Base.{
  ℕ, ◌≤◌, ◌≡◌, refl, sym, subst, ◌∙◌, Bool, true, false, not, List, ◌++◌, none, some, Text, codes,
  length, leb, leb→le, ltb_not, not_eq_false, ok, required, >>=-eq-ok, refuse-then, subst-some,
  required-eq-ok, subst-ok,
}
use agent_cat.Base.Int.{ℤ, pos}
use agent_cat.Events.Failure.{invalid_response}
use agent_cat.Events.Syntax.{valid_id}
use agent_cat.Json.Value.{JsonValue, json_member, object_of}
use agent_cat.Json.Integer.{int_le}
use agent_cat.Session.Capabilities.{Capabilities, check_capabilities}
use agent_cat.Session.Commands.{raw, PendingCommand, Bound, capture_limit, pending, prepare_capture}
use agent_cat.Session.Service.{Reference, reference_of, check}
use agent_cat.Session.Supported.{IsSupported, check_capabilities-IsSupported}
use agent_cat.Transport.Keys.{IsToken, command_key, command_key-valid, valid_key}
use agent_cat.Transport.Post.{may_post_bytes}

-- A prepared capture.
pub record IsCapture (is_utf8 : List ℕ → Bool) (bytes : List ℕ) (p : PendingCommand) : Type 0 where
  pub same_bytes : p.body ≡ raw bytes
  pub utf8 : is_utf8 bytes ≡ true
  pub sendable :
      may_post_bytes bytes (record { idempotency_key = p.idempotency_key; if_match = p.if_match })
      ≡ ok tt

supported_limit :
    (c : Capabilities)
    → IsSupported c
    → capture_limit (object_of (json_member c.fields (codes "limits"))) ≡ some (pos 67108864)
supported_limit c supported = rw supported.found supported.fixed.1.1.1.1.1.1.0

fits :
    (n : ℕ) (limit : ℤ) → limit ≡ pos 67108864 → not (int_le (pos n) limit) ≡ false → n ≤ 67108864
fits n limit same h =
    subst (λ l. not (int_le (pos n) l) ≡ false → n ≤ 67108864) (sym same)
      (λ k. leb→le n 67108864 (not_eq_false (leb n 67108864) k)) h

sendable_of :
    (bytes : List ℕ) (key : Text)
    → length bytes ≤ 67108864
    → valid_key key ≡ true
    → may_post_bytes bytes (record { idempotency_key = key; if_match = none }) ≡ ok tt
unfolding may_post_bytes
sendable_of bytes key fit valid = rw (ltb_not 67108864 (length bytes) fit, valid) refl

module _ (token : Text) (random : IsToken token) (is_utf8 : List ℕ → Bool) where
  pending-IsCapture :
      (session : Bound) (reference : Reference) (bytes : List ℕ) {p : PendingCommand}
      → length bytes ≤ 67108864
      → is_utf8 bytes ≡ true
      → pending token session reference (raw bytes) none ≡ ok p
      → IsCapture is_utf8 bytes p
  unfolding pending
  pending-IsCapture session reference bytes fit utf8 h =
      let (u, e₁, h₁) = >>=-eq-ok (check session.closed session.identity reference) _ h in
      let (key, e₂, h₂) = >>=-eq-ok (command_key token session.capabilities.epoch) _ h₁ in
      subst-ok (IsCapture is_utf8 bytes) h₂ (record {
        same_bytes = refl;
        utf8 = utf8;
        sendable = sendable_of bytes key fit (command_key-valid token _ key random e₂);
      })

  -- A capture that a session with accepted capabilities prepares carries the bytes that were given, which
  -- are UTF-8, and it passes the checks that the post of bytes makes of the size, the idempotency key and
  -- the precondition.
  pub prepare_capture-IsCapture :
      (session : Bound) (value : JsonValue) (request_id : Text) (bytes : List ℕ)
      (p : PendingCommand)
      → check_capabilities value ≡ ok session.capabilities
      → prepare_capture token is_utf8 session request_id bytes ≡ ok p
      → IsCapture is_utf8 bytes p
  unfolding prepare_capture
  prepare_capture-IsCapture session value request_id bytes p accepted h =
      let (e₁, h₁) = refuse-then (not (valid_id request_id)) _ _ h in
      let (reference, e₂, h₂) =
        >>=-eq-ok (reference_of session.identity (codes "/v1/captures?requestId=" ++ request_id)) _
          h₁ in
      let (limit, e₃, h₃) =
        >>=-eq-ok
          (required
            (capture_limit (object_of (json_member session.capabilities.fields (codes "limits"))))
            invalid_response)
          _ h₂ in
      let (e₄, h₄) = refuse-then (not (int_le (pos (length bytes)) limit)) _ _ h₃ in
      let (e₅, h₅) = refuse-then (not (is_utf8 bytes)) _ _ h₄ in
      let supported = check_capabilities-IsSupported value session.capabilities accepted in
      let same = sym (supported_limit session.capabilities supported) ∙ required-eq-ok _ _ e₃ in
      pending-IsCapture session reference bytes
        (fits (length bytes) limit (subst-some (λ l. l ≡ pos 67108864) same refl) e₄)
        (not_eq_false _ e₅) h₅
