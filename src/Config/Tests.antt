-- ===== src/Config/Tests.antt =====
-- Runs of the readers of ext-pi/src/config.ts, with a path that is absolute if it starts with a slash.
use agent_cat.Base.{
  ◌≡◌, refl, [], ◌∷◌, Option, none, some, String, Text, codes, is, starts_with, strip_prefix,
  is_decimal, text_eq, if◌then◌else◌, ok, err,
}
use agent_cat.Json.Value.{JsonValue, array, object, string, item, no_items, member, no_members}
use agent_cat.Json.Value.{json_member}
use agent_cat.Config.{
  Node, Env, RunnerConfig, local, service, not_absolute, duplicated, socket_required, not_unsigned,
  configured_runners, configured_manager_profiles, state_directory, configured_remote,
  retention_policy, profiles_of, runners_of, runner_of, natural,
}
use agent_cat.Config.Sound.{IsMode, configured_manager_profiles-IsMode}
use agent_cat.Config.Runners.{IsAccepted, configured_runners-IsAccepted}

abbrev text : String → JsonValue
text s = string (codes s)

-- A parser that reads three documents.
abbrev parse : Text → Option JsonValue
parse document =
    if is document "two"
    then some (array (item (text "/a") (item (text "/b") no_items)))
    else if is document "twice"
    then some (array (item (text "/a") (item (text "/a") no_items)))
    else if is document "runner"
    then some (
        array (
          item
            (object (
              member (codes "id") (text "one")
                (member (codes "executable") (text "/bin/one") no_members)))
            no_items))
    else none

abbrev node : Node
node = record { is_absolute = λ path. starts_with path (codes "/"); json_parse = parse }

-- One variable that is set.
abbrev only : String → String → Env
only name value asked = if text_eq (codes asked) (codes name) then some (codes value) else none

two_profiles :
    configured_manager_profiles node (only "AGENT_CAT_MANAGER_PROFILES" "two")
    ≡ ok (service (codes "/a" ∷ codes "/b" ∷ []))
unfolding text_eq configured_manager_profiles profiles_of strip_prefix
two_profiles = refl

same_profile_twice :
    configured_manager_profiles node (only "AGENT_CAT_MANAGER_PROFILES" "twice")
    ≡ err (duplicated 1)
unfolding text_eq configured_manager_profiles profiles_of strip_prefix
same_profile_twice = refl

relative_profile :
    configured_manager_profiles node (only "AGENT_CAT_MANAGER_PROFILE" "a") ≡ err not_absolute
unfolding text_eq configured_manager_profiles strip_prefix
relative_profile = refl

empty_variable : configured_manager_profiles node (only "AGENT_CAT_MANAGER_PROFILE" "") ≡ ok local
unfolding text_eq configured_manager_profiles
empty_variable = refl

abbrev one : RunnerConfig
one = record {
  id = codes "one";
  executable = codes "/bin/one";
  prefix_args = some [];
  allowed_cwds = codes "/w" ∷ [];
}

one_runner :
    configured_runners node (codes "/w") (only "AGENT_CAT_RUNNERS" "runner") ≡ ok (one ∷ [])
unfolding text_eq configured_runners runners_of runner_of json_member strip_prefix
one_runner = refl

session_alone :
    configured_remote node (only "AGENT_CAT_PI_REMOTE_SESSION" "s") ≡ err socket_required
unfolding text_eq configured_remote
session_alone = refl

home : state_directory node (only "HOME" "/h") ≡ ok (codes "/h/.pi/agent/agent-cat")
unfolding text_eq state_directory
home = refl

leading_zero : retention_policy (only "AGENT_CAT_MAX_RUNS" "07") ≡ err not_unsigned
unfolding text_eq retention_policy natural is_decimal
leading_zero = refl

defaults : retention_policy (only "HOME" "/h") ≡ ok (30, 100)
unfolding text_eq retention_policy natural
defaults = refl

configured_manager_profiles-IsMode_example : IsMode node (service (codes "/a" ∷ codes "/b" ∷ []))
configured_manager_profiles-IsMode_example =
    configured_manager_profiles-IsMode node (only "AGENT_CAT_MANAGER_PROFILES" "two") two_profiles

configured_runners-IsAccepted_example : IsAccepted node (one ∷ [])
unfolding strip_prefix
configured_runners-IsAccepted_example =
    configured_runners-IsAccepted node (codes "/w") (only "AGENT_CAT_RUNNERS" "runner") refl
      one_runner
