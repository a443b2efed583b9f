-- ===== src/Session/Supported.antt =====
-- What capabilities a session of ext-pi/src/manager/session.ts accepts.
use agent_cat.Base.{
  ltb, leb, ◌==◌, ==_iff, ℕ, ◌≤◌, ◌≡◌, refl, ap, Bool, true, not, ◌&&◌, List, [], ◌∷◌, Option, none,
  some, Text, codes, all, length, All, arith, leb→le, not_eq_false, and_left, and_right, ok,
  required, >>=-eq-ok, refuse-then, subst-ok,
}
use agent_cat.Base.Int.{ℤ, pos, negsuc}
use agent_cat.Events.Failure.{invalid_response}
use agent_cat.Events.Syntax.{valid_id}
use agent_cat.Json.Value.{
  JsonValue, JsonMembers, json_member, string_of, null, boolean, string, number, array, object,
  object_of,
}
use agent_cat.Session.Fields.{texts, integers, is_one, exact_object, exact_fields, limit_of}
use agent_cat.Session.Capabilities.{
  numeric_versions, is_manifest, is_scope, is_transport, is_identifier, supports, within_list,
  Entry, fixed_limits, configured_limits, limit_names, is_limit, is_configured, version_names,
  capability_names, supports_versions, supports_members, supports_limits, is_epoch, Capabilities,
  check_capabilities,
}
use agent_cat.Session.Listed.{
  IsListed, IsAmong, IsVersions, positive, all-All, supports-IsVersions, within_list-IsListed,
  is_manifest-IsAmong, is_scope-IsAmong, is_transport-IsAmong,
}

abbrev pub IsConfigured : ℕ → Option ℤ → Type 0
IsConfigured maximum none = ⊥
IsConfigured maximum (some (pos n)) = (1 ≤ n) × (n ≤ maximum)
IsConfigured maximum (some (negsuc n)) = ⊥

-- The versions of the manager: of each format some, and only ones that the client knows.
pub record KnowsVersions (fields : JsonMembers) : Type 0 where
  pub versions : JsonMembers
  pub found : json_member fields (codes "versions") ≡ some (object versions)
  pub manifest :
      IsListed
        (λ n. 1 ≤ n)
        (λ t. IsAmong t ("legacy" ∷ "2" ∷ "3" ∷ []))
        (texts (json_member versions (codes "frontendManifest")))
  pub numeric :
      All (λ e. IsVersions e.value (integers (json_member versions e.name))) numeric_versions

-- Version 1 of the capabilities, a stream, and the scopes, profiles and transports.
pub record HasMembers (fields : JsonMembers) : Type 0 where
  pub version : is_one (json_member fields (codes "version")) ≡ true
  pub stream : Text
  pub found : string_of (json_member fields (codes "streamId")) ≡ some stream
  pub stream_id : valid_id stream ≡ true
  pub scopes :
      IsListed
        (λ n. n ≤ 4)
        (λ t. IsAmong t ("observe" ∷ "submit" ∷ "control" ∷ "export" ∷ []))
        (texts (json_member fields (codes "scopes")))
  pub profiles :
      IsListed
        (λ n. n ≤ 256)
        (λ t. valid_id t ≡ true)
        (texts (json_member fields (codes "profileIds")))
  pub transports :
      IsListed
        (λ n. n ≡ 2)
        (λ t. IsAmong t ("sse" ∷ "polling" ∷ []))
        (texts (json_member fields (codes "transports")))

-- What a client of this version works with. The fixed limits are exact, and the configured ones
-- positive and within their bound.
pub record IsSupported (c : Capabilities) : Type 0 where
  pub known : KnowsVersions c.fields
  pub members : HasMembers c.fields
  pub epoch : valid_id c.epoch ≡ true
  pub short : length c.epoch ≤ 105
  pub limits : JsonMembers
  pub found : json_member c.fields (codes "limits") ≡ some (object limits)
  pub fixed : All (λ e. limit_of limits e.name ≡ some (pos e.value)) fixed_limits
  pub configured : All (λ e. IsConfigured e.value (limit_of limits e.name)) configured_limits

abbrev has_fixed : JsonMembers → Entry ℕ → Bool
has_fixed limits e = is_limit e.value (limit_of limits e.name)

abbrev has_configured : JsonMembers → Entry ℕ → Bool
has_configured limits e = is_configured e.value (limit_of limits e.name)

is_limit-eq : (n : ℕ) (o : Option ℤ) → is_limit n o ≡ true → o ≡ some (pos n)
is_limit-eq n none h = cc
is_limit-eq n (some (negsuc m)) h = cc
is_limit-eq n (some (pos m)) h = ap (λ k. some (pos k)) (ground arith)

is_configured-IsConfigured : (n : ℕ) (o : Option ℤ) → is_configured n o ≡ true → IsConfigured n o
is_configured-IsConfigured n none h = cc
is_configured-IsConfigured n (some (negsuc m)) h = cc
is_configured-IsConfigured n (some (pos m)) h = (ground arith, ground arith)

object_of-object :
    (value : Option JsonValue) {ms : JsonMembers}
    → object_of value ≡ some ms
    → value ≡ some (object ms)
object_of-object none h = cc
object_of-object (some (object ns)) h = cc
object_of-object (some null) h = cc
object_of-object (some (boolean b)) h = cc
object_of-object (some (string t)) h = cc
object_of-object (some (number t)) h = cc
object_of-object (some (array vs)) h = cc

exact_object-eq :
    (names : List Text) (found : Option JsonMembers) {ms : JsonMembers}
    → exact_object names found ≡ some ms
    → found ≡ some ms
exact_object-eq names none h = h
exact_object-eq names (some ns) h = ground arith

pub exact_fields-object :
    (value : Option JsonValue) (names : List Text) {ms : JsonMembers}
    → exact_fields value names ≡ some ms
    → value ≡ some (object ms)
unfolding exact_fields
exact_fields-object value names h =
    object_of-object value (exact_object-eq names (object_of value) h)

supports_versions-KnowsVersions :
    (fields : JsonMembers) (versions : Option JsonMembers)
    → exact_fields (json_member fields (codes "versions")) version_names ≡ versions
    → supports_versions versions ≡ true
    → KnowsVersions fields
unfolding supports_versions
supports_versions-KnowsVersions fields none e h = cc
supports_versions-KnowsVersions fields (some versions) e h = record {
  versions = versions;
  found = exact_fields-object _ version_names e;
  manifest =
      within_list-IsListed (ltb 0) (λ n. 1 ≤ n) is_manifest _ _ positive is_manifest-IsAmong
        (and_left _ _ h);
  numeric =
      all-All (λ e. supports e.value (integers (json_member versions e.name)))
        (λ e. IsVersions e.value (integers (json_member versions e.name))) numeric_versions
        (λ e. supports-IsVersions e.value (integers (json_member versions e.name)))
        (and_right
          (within_list (ltb 0) (texts (json_member versions (codes "frontendManifest")))
            is_manifest)
          _ h);
}

is_identifier-valid :
    (found : Option Text)
    → is_identifier found ≡ true
    → (id : Text) × (found ≡ some id) × (valid_id id ≡ true)
is_identifier-valid none h = cc
is_identifier-valid (some id) h = (id, refl, h)

supports_members-HasMembers :
    (fields : JsonMembers) → supports_members fields ≡ true → HasMembers fields
unfolding supports_members
supports_members-HasMembers fields h =
    let one = is_one (json_member fields (codes "version")) in
    let streams = is_identifier (string_of (json_member fields (codes "streamId"))) in
    let scopes =
      within_list (λ n. leb n 4) (texts (json_member fields (codes "scopes"))) is_scope in
    let profiles =
      within_list (λ n. leb n 256) (texts (json_member fields (codes "profileIds"))) valid_id in
    let h₃ = and_left (one && streams && scopes && profiles) _ h in
    let h₂ = and_left (one && streams && scopes) _ h₃ in
    let h₁ = and_left (one && streams) _ h₂ in
    let (stream, found, valid) = is_identifier-valid _ (and_right one streams h₁) in
    record {
      version = and_left one streams h₁;
      stream = stream;
      found = found;
      stream_id = valid;
      scopes =
          within_list-IsListed (λ n. leb n 4) (λ n. n ≤ 4) is_scope _ _ (λ n. leb→le n 4)
            is_scope-IsAmong (and_right (one && streams) scopes h₂);
      profiles =
          within_list-IsListed (λ n. leb n 256) (λ n. n ≤ 256) valid_id _ _ (λ n. leb→le n 256)
            (λ t valid. valid) (and_right (one && streams && scopes) profiles h₃);
      transports =
          within_list-IsListed (λ n. n == 2) (λ n. n ≡ 2) is_transport _ _ (λ n. (==_iff n 2).0)
            is_transport-IsAmong (and_right (one && streams && scopes && profiles) _ h);
    }

with_limits :
    (fields : JsonMembers) (epoch : Text)
    → is_epoch epoch ≡ true
    → KnowsVersions fields
    → HasMembers fields
    → (limits : Option JsonMembers)
    → exact_fields (json_member fields (codes "limits")) limit_names ≡ limits
    → supports_limits limits ≡ true
    → IsSupported (record { fields = fields; epoch = epoch })
unfolding supports_limits
with_limits fields epoch valid known members none e h = cc
with_limits fields epoch valid known members (some limits) e h = record {
  known = known;
  members = members;
  epoch = and_left _ _ valid;
  short = leb→le _ _ (and_right (valid_id epoch) _ valid);
  limits = limits;
  found = exact_fields-object _ limit_names e;
  fixed =
      all-All (has_fixed limits) (λ e. limit_of limits e.name ≡ some (pos e.value)) fixed_limits
        (λ x. is_limit-eq x.value (limit_of limits x.name))
        (and_left (all (has_fixed limits) fixed_limits) _ h);
  configured =
      all-All (has_configured limits) (λ e. IsConfigured e.value (limit_of limits e.name))
        configured_limits (λ x. is_configured-IsConfigured x.value (limit_of limits x.name))
        (and_right (all (has_fixed limits) fixed_limits)
          (all (has_configured limits) configured_limits) h);
}

-- Accepted capabilities have what a client of this version works with: a valid epoch of at most 105
-- code units and a valid stream, versions of each format, all of them known, distinct known scopes, at
-- most 256 distinct profiles, both transports, the fixed limits, and the other limits within bounds.
pub check_capabilities-IsSupported :
    (value : JsonValue) (c : Capabilities) → check_capabilities value ≡ ok c → IsSupported c
unfolding check_capabilities
check_capabilities-IsSupported value c h =
    let (fields, e₀, h₀) =
      >>=-eq-ok (required (exact_fields (some value) capability_names) invalid_response) _ h in
    let (e₁, h₁) =
      refuse-then
        (not
          (supports_versions (exact_fields (json_member fields (codes "versions")) version_names)))
        _ _ h₀ in
    let (epoch, e₂, h₂) =
      >>=-eq-ok
        (required (string_of (json_member fields (codes "authorityEpoch"))) invalid_response) _
        h₁ in
    let (e₃, h₃) = refuse-then (not (is_epoch epoch && supports_members fields)) _ _ h₂ in
    let (e₄, h₄) =
      refuse-then
        (not (supports_limits (exact_fields (json_member fields (codes "limits")) limit_names))) _ _
        h₃ in
    subst-ok IsSupported h₄ (
      with_limits fields epoch (and_left _ _ (not_eq_false _ e₃))
        (supports_versions-KnowsVersions fields _ refl (not_eq_false _ e₁))
        (supports_members-HasMembers fields (and_right (is_epoch epoch) _ (not_eq_false _ e₃)))
        (exact_fields (json_member fields (codes "limits")) limit_names) refl (not_eq_false _ e₄))
