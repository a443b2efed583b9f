-- ===== src/Config.antt =====
-- The variables of the extension: ext-pi/src/config.ts.
pub mod Runners
pub mod Sound
pub mod Tests
use agent_cat.Base.{
  ℕ, zero, suc, ◌+◌, ◌-◌, ◌*◌, ◌/◌, ◌%◌, ◌^◌, ◌≤◌, ◌<◌, min, max, ◌≡◌, refl, sym, ap, ap₂, subst,
  ◌∙◌, fun_ext, ◌≢◌, ◌↔◌, ◌⊎◌, inl, inr, Bool, true, false, not, ◌&&◌, ◌||◌, List, [], ◌∷◌, ◌++◌,
  map, reverse, reverse-cons, append-nil, append_assoc, Option, none, some, String, Text, codes, is,
  includes, distinct, is_digit, is_decimal, digits_value, big_int, code_points, strip_prefix,
  starts_with, strip_suffix, is_empty, is_lower_hex, text_eq, text_eq_refl, text_eq_sound,
  text_eq_iff, any, all, keep, length, get_last?, length-append, length-map, length-drop, drop,
  take, sum_by, All, All-append, ltb, leb, ◌==◌, ==_iff, ==_less, lt→ltb, le→leb, leb→le, ltb_lem,
  ltb_not, arith, if◌then◌else◌, Bool-cases, not_eq_false, and_left, and_right, and_both,
  Option-cases, Result-cases, Result, ok, err, ◌>>=◌, ◌>>◌, refuse, required, >>=-eq-ok,
  refuse-eq-ok, refuse-then, guard-some, subst-some, required-eq-ok, subst-ok, bind_assoc,
}
use agent_cat.Json.Value.{
  JsonValue, JsonMembers, json_member, keys_of, object_of, array_of, string_of,
}

-- What config.ts throws, by its messages; the index of an entry stands with it.
pub data ConfigError : Type 0 where
  both_configured not_absolute not_json not_an_array no_home socket_required : ConfigError
  not_unsigned not_safe : ConfigError
  not_an_object unknown_field bad_id bad_executable bad_strings bad_cwds : (index : ℕ) → ConfigError
  bad_profile duplicated : (index : ℕ) → ConfigError

pub record RunnerConfig : Type 0 where
  pub id : Text
  pub executable : Text
  pub prefix_args : Option (List Text)
  pub allowed_cwds : List Text

pub data ClientMode : Type 0 where
  local : ClientMode
  service : (profiles : List Text) → ClientMode

-- `isAbsolute` of node:path, and JSON.parse, none where it throws.
pub record Node : Type 0 where
  pub is_absolute : Text → Bool
  pub json_parse : Text → Option JsonValue

abbrev pub Env : Type 0
Env = String → Option Text

-- A variable that is set to a text that is not empty.
abbrev pub filled : Option Text → Option Text
filled none = none
filled (some []) = none
filled (some (c ∷ cs)) = some (c ∷ cs)

-- Each element that is a string, if each is.
abbrev pub strings_of : List JsonValue → Option (List Text)
strings_of [] = some []
strings_of (v ∷ vs) = elim (string_of (some v)) [
  | none ↦ none
  | some t ↦ elim (strings_of vs) [ none ↦ none | some ts ↦ some (t ∷ ts) ]
]

abbrev or_else {ℓ} : {A : Type ℓ} → A → Option A → A
or_else a none = a
or_else a (some b) = b

abbrev pub known_fields : List Text
known_fields = map codes ("id" ∷ "executable" ∷ "prefixArgs" ∷ "allowedCwds" ∷ [])

abbrev pub max_manager_profiles : ℕ
max_manager_profiles = 8

-- `optionalStrings` of a member that is there.
abbrev pub strings_at : ℕ → JsonValue → Result ConfigError (List Text)
strings_at index value =
    required (elim (array_of (some value)) [ none ↦ none | some vs ↦ strings_of vs ])
      (bad_strings index)

abbrev pub strings_or : ℕ → List Text → Option JsonValue → Result ConfigError (List Text)
strings_or index fallback none = ok fallback
strings_or index fallback (some value) = strings_at index value

abbrev pub fresh_id : List Text → Option Text → Option Text
fresh_id ids none = none
fresh_id ids (some id) = if is_empty id || includes ids id then none else some id

module _ (node : Node) where
  abbrev pub read_array : Text → Result ConfigError (List JsonValue)
  read_array configured = required (node.json_parse configured) not_json >>= λ value.
      required (array_of (some value)) not_an_array

  abbrev pub absolute : Option Text → Option Text
  absolute none = none
  absolute (some path) = if node.is_absolute path then some path else none

  abbrev pub bad_directories : List Text → Bool
  bad_directories paths = length paths == 0 || not (all node.is_absolute paths)

  -- One entry of AGENT_CAT_RUNNERS, after the identifiers of those before it.
  unfoldable pub runner_of : Text → ℕ → List Text → JsonValue → Result ConfigError RunnerConfig
  runner_of cwd index ids value =
      required (object_of (some value)) (not_an_object index) >>= λ entry.
      refuse (not (all (includes known_fields) (keys_of entry))) (unknown_field index) >>= λ done.
      required (fresh_id ids (string_of (json_member entry (codes "id")))) (bad_id index) >>= λ id.
      required (absolute (string_of (json_member entry (codes "executable"))))
        (bad_executable index)
      >>= λ executable.
          strings_or index [] (json_member entry (codes "prefixArgs")) >>= λ prefix_args.
          strings_or index (cwd ∷ []) (json_member entry (codes "allowedCwds")) >>= λ allowed_cwds.
          refuse (bad_directories allowed_cwds) (bad_cwds index) >>= λ done. ok (record {
            id = id;
            executable = executable;
            prefix_args = some prefix_args;
            allowed_cwds = allowed_cwds;
          })

  unfoldable pub runners_of :
      Text → ℕ → List Text → List JsonValue → Result ConfigError (List RunnerConfig)
  runners_of cwd index ids [] = ok []
  runners_of cwd index ids (value ∷ values) = runner_of cwd index ids value >>= λ runner.
      runners_of cwd (index + 1) (runner.id ∷ ids) values >>= λ runners. ok (runner ∷ runners)

  abbrev pub single_runner : Text → Env → Text → Result ConfigError (List RunnerConfig)
  single_runner cwd env single = refuse (not (node.is_absolute single)) not_absolute >>= λ done.
      ok (
        record {
          id = or_else (codes "agent-cat") (env "AGENT_CAT_RUNNER_ID");
          executable = single;
          prefix_args = none;
          allowed_cwds = cwd ∷ [];
        }
        ∷ [])

  abbrev pub runners_from :
      Text → Env → Option Text → Option Text → Result ConfigError (List RunnerConfig)
  runners_from cwd env (some configured) (some single) = err both_configured
  runners_from cwd env none none = ok []
  runners_from cwd env none (some single) = single_runner cwd env single
  runners_from cwd env (some configured) none = read_array configured >>= λ values.
      refuse (length values == 0) not_an_array >>= λ done. runners_of cwd 0 [] values

  unfoldable pub configured_runners : Text → Env → Result ConfigError (List RunnerConfig)
  configured_runners cwd env =
      runners_from cwd env (filled (env "AGENT_CAT_RUNNERS")) (filled (env "AGENT_CAT_RUNNER"))

  -- The paths of AGENT_CAT_MANAGER_PROFILES from an index on, after those before it.
  unfoldable pub profiles_of : ℕ → List Text → List JsonValue → Result ConfigError (List Text)
  profiles_of index seen [] = ok []
  profiles_of index seen (value ∷ values) =
      required (absolute (string_of (some value))) (bad_profile index) >>= λ path.
      refuse (includes seen path) (duplicated index) >>= λ done.
      profiles_of (index + 1) (path ∷ seen) values >>= λ paths. ok (path ∷ paths)

  abbrev pub profiles_from : Option Text → Option Text → Result ConfigError ClientMode
  profiles_from (some configured) (some single) = err both_configured
  profiles_from none (some single) =
      refuse (not (node.is_absolute single)) not_absolute >>= λ done. ok (service (single ∷ []))
  profiles_from none none = ok local
  profiles_from (some configured) none = read_array configured >>= λ values.
      refuse (length values == 0 || ltb max_manager_profiles (length values)) not_an_array
      >>= λ done. profiles_of 0 [] values >>= λ paths. ok (service paths)

  unfoldable pub configured_manager_profiles : Env → Result ConfigError ClientMode
  configured_manager_profiles env =
      profiles_from (filled (env "AGENT_CAT_MANAGER_PROFILES"))
        (filled (env "AGENT_CAT_MANAGER_PROFILE"))

  abbrev pub home_directory : Option Text → Result ConfigError Text
  home_directory none = err no_home
  home_directory (some home) = ok (home ++ codes "/.pi/agent/agent-cat")

  unfoldable pub state_directory : Env → Result ConfigError Text
  state_directory env = elim (filled (env "AGENT_CAT_STATE_DIR")) [
    | none ↦ home_directory (filled (env "HOME"))
    | some configured ↦
        refuse (not (node.is_absolute configured)) not_absolute >>= λ done. ok configured
  ]

  abbrev pub remote_from :
      Option Text → Option Text → Option Text → Result ConfigError (Option (Text × Option Text))
  remote_from none none id = ok none
  remote_from none (some session) id = err socket_required
  remote_from (some socket) session id =
      refuse (not (node.is_absolute socket)) not_absolute >>= λ done. ok (some (socket, id))

  -- The socket and the session, if a remote is configured.
  unfoldable pub configured_remote : Env → Result ConfigError (Option (Text × Option Text))
  configured_remote env =
      let session = env "AGENT_CAT_PI_REMOTE_SESSION" in
      remote_from (filled (env "AGENT_CAT_PI_REMOTE_SOCKET")) (filled session) session

abbrev pub max_safe_integer : ℕ
max_safe_integer = 9007199254740991

-- A decimal that exceeds the safe range rounds to a number that exceeds it too.
unfoldable pub natural : Option Text → ℕ → Result ConfigError ℕ
natural none fallback = ok fallback
natural (some value) fallback = refuse (not (is_decimal value)) not_unsigned >>= λ done.
    refuse (ltb max_safe_integer (big_int value)) not_safe >>= λ done. ok (big_int value)

unfoldable pub retention_policy : Env → Result ConfigError (ℕ × ℕ)
retention_policy env = natural (env "AGENT_CAT_RETENTION_DAYS") 30 >>= λ days.
    natural (env "AGENT_CAT_MAX_RUNS") 100 >>= λ max_runs. ok (days, max_runs)

abbrev pub test_hooks_enabled : Env → Bool
test_hooks_enabled env = elim (env "AGENT_CAT_PI_TEST_HOOKS") [
  | none ↦ false
  | some value ↦ is value "1"
]
