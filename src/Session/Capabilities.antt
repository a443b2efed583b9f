-- ===== src/Session/Capabilities.antt =====
-- `checkCapabilities` of ext-pi/src/manager/session.ts, and its tables.
use agent_cat.Base.{
  ℕ, ◌-◌, Bool, false, not, ◌&&◌, ◌||◌, List, [], ◌∷◌, ◌++◌, map, Option, none, some, String, Text,
  codes, is, distinct, any, all, length, ltb, leb, ◌==◌, ok, ◌>>=◌, refuse, required,
}
use agent_cat.Base.Int.{ℤ, pos}
use agent_cat.Events.Failure.{invalid_response, unsupported_version, Outcome}
use agent_cat.Events.Syntax.{valid_id}
use agent_cat.Json.Value.{JsonValue, JsonMembers, json_member, string_of}
use agent_cat.Json.Number.{same_int}
use agent_cat.Json.Integer.{int_le}
use agent_cat.Session.Fields.{
  exact_fields, texts, integers, limit_of, is_one, distinct_integers, two_31,
}

-- A name of a table with what the table says of it.
pub record Entry (A : Type 0) : Type 0 where
  pub name : Text
  pub value : A

abbrev entry : {A : Type 0} → String → A → Entry A
entry name value = record { name = codes name; value = value }

abbrev pub numeric_versions : List (Entry (List ℕ))
numeric_versions =
    entry "api" (1 ∷ [])
    ∷ entry "snapshot" (1 ∷ [])
    ∷ entry "event" (1 ∷ [])
    ∷ entry "descriptor" (2 ∷ 3 ∷ [])
    ∷ entry "frontendSession" (1 ∷ 2 ∷ [])
    ∷ entry "control" (1 ∷ 2 ∷ [])
    ∷ entry "runtimeProtocol" (1 ∷ 2 ∷ 3 ∷ [])
    ∷ entry "runtimeStore" (1 ∷ 2 ∷ [])
    ∷ entry "managerStore" (1 ∷ 2 ∷ 3 ∷ 4 ∷ 5 ∷ 6 ∷ 7 ∷ 8 ∷ 9 ∷ 10 ∷ 11 ∷ 12 ∷ [])
    ∷ entry "invocation" (1 ∷ [])
    ∷ []

abbrev pub capture_bytes : ℕ
capture_bytes = 67108864

abbrev pub fixed_limits : List (Entry ℕ)
fixed_limits =
    entry "requestTargetBytes" 8192
    ∷ entry "headerBytes" 16384
    ∷ entry "headerFields" 100
    ∷ entry "jsonBodyBytes" 2097152
    ∷ entry "jsonDepth" 64
    ∷ entry "nativeControlBytes" 1048576
    ∷ entry "captureBytes" capture_bytes
    ∷ entry "aggregateInputBytes" 67108864
    ∷ entry "artifactBytes" 67108864
    ∷ entry "sseBlockBytes" 16384
    ∷ entry "pageBytes" 1048576
    ∷ entry "pageSetBytes" 67108864
    ∷ entry "pageSetsPerClient" 2
    ∷ entry "pageSetLifetimeSeconds" 60
    ∷ entry "queuedRequests" 100
    ∷ entry "maxReservations" 16
    ∷ entry "reviewLifetimeSeconds" 600
    ∷ entry "sseReadersPerClient" 2
    ∷ entry "ssePendingBytesPerReader" 1048576
    ∷ entry "replaySeconds" 604800
    ∷ entry "replayBytes" 268435456
    ∷ entry "heartbeatSeconds" 15
    ∷ entry "reconnectIdleSeconds" 45
    ∷ entry "reconnectBackoffMaxSeconds" 30
    ∷ entry "ordinaryMutationsPerMinute" 30
    ∷ []

abbrev pub configured_limits : List (Entry ℕ)
configured_limits =
    entry "drafts" (two_31 - 1)
    ∷ entry "globalDrafts" (two_31 - 1)
    ∷ entry "globalCaptureBytes" (two_31 - 1)
    ∷ entry "globalPageSets" (two_31 - 1)
    ∷ entry "globalConnections" (two_31 - 1)
    ∷ entry "globalDatabaseReaders" (two_31 - 1)
    ∷ entry "globalMutationLedgerBytes" (two_31 - 1)
    ∷ entry "safetyControlsPerMinute" (two_31 - 1)
    ∷ entry "executionReservations" 16
    ∷ []

abbrev name_of : {A : Type 0} → Entry A → Text
name_of e = e.name

abbrev pub capability_names : List Text
capability_names =
    codes "version"
    ∷ codes "authorityEpoch"
    ∷ codes "streamId"
    ∷ codes "versions"
    ∷ codes "scopes"
    ∷ codes "profileIds"
    ∷ codes "transports"
    ∷ codes "limits"
    ∷ []

abbrev pub version_names : List Text
version_names = codes "frontendManifest" ∷ map name_of numeric_versions

abbrev pub limit_names : List Text
limit_names = map name_of (fixed_limits ++ configured_limits)

abbrev pub within_list : (ℕ → Bool) → Option (List Text) → (Text → Bool) → Bool
within_list count none test = false
within_list count (some ts) test = count (length ts) && distinct ts && all test ts

abbrev pub is_manifest : Text → Bool
is_manifest name = is name "legacy" || is name "2" || is name "3"

abbrev pub is_supported : List ℕ → ℤ → Bool
is_supported supported value = any (λ n. same_int (pos n) value) supported

abbrev pub supports : List ℕ → Option (List ℤ) → Bool
supports supported none = false
supports supported (some values) =
    ltb 0 (length values) && distinct_integers values && all (is_supported supported) values

unfoldable pub supports_versions : Option JsonMembers → Bool
supports_versions none = false
supports_versions (some versions) =
    within_list (ltb 0) (texts (json_member versions (codes "frontendManifest"))) is_manifest
    && all (λ e. supports e.value (integers (json_member versions e.name))) numeric_versions

abbrev pub is_scope : Text → Bool
is_scope name = is name "observe" || is name "submit" || is name "control" || is name "export"

abbrev pub is_transport : Text → Bool
is_transport name = is name "sse" || is name "polling"

abbrev pub is_identifier : Option Text → Bool
is_identifier none = false
is_identifier (some id) = valid_id id

-- The scopes, profiles and transports, the version and the stream of the capabilities.
unfoldable pub supports_members : JsonMembers → Bool
supports_members fields =
    is_one (json_member fields (codes "version"))
    && is_identifier (string_of (json_member fields (codes "streamId")))
    && within_list (λ n. leb n 4) (texts (json_member fields (codes "scopes"))) is_scope
    && within_list (λ n. leb n 256) (texts (json_member fields (codes "profileIds"))) valid_id
    && within_list (λ n. n == 2) (texts (json_member fields (codes "transports"))) is_transport

abbrev pub is_limit : ℕ → Option ℤ → Bool
is_limit expected none = false
is_limit expected (some value) = same_int value (pos expected)

abbrev pub is_configured : ℕ → Option ℤ → Bool
is_configured maximum none = false
is_configured maximum (some value) = int_le (pos 1) value && int_le value (pos maximum)

unfoldable pub supports_limits : Option JsonMembers → Bool
supports_limits none = false
supports_limits (some limits) =
    all (λ e. is_limit e.value (limit_of limits e.name)) fixed_limits
    && all (λ e. is_configured e.value (limit_of limits e.name)) configured_limits

pub record Capabilities : Type 0 where
  pub fields : JsonMembers
  pub epoch : Text

abbrev pub is_epoch : Text → Bool
is_epoch epoch = valid_id epoch && leb (length epoch) 105

unfoldable pub check_capabilities : JsonValue → Outcome Capabilities
check_capabilities value =
    required (exact_fields (some value) capability_names) invalid_response >>= λ fields.
    refuse
      (not (supports_versions (exact_fields (json_member fields (codes "versions")) version_names)))
      unsupported_version
    >>= λ done.
        required (string_of (json_member fields (codes "authorityEpoch"))) invalid_response
        >>= λ epoch.
            refuse (not (is_epoch epoch && supports_members fields)) invalid_response >>= λ done.
            refuse
              (not
                (supports_limits (exact_fields (json_member fields (codes "limits")) limit_names)))
              invalid_response
            >>= λ done. ok (record { fields = fields; epoch = epoch })
