-- ===== src/Config/Runners.antt =====
-- Which runners ext-pi/src/config.ts accepts.
use agent_cat.Base.{
  ℕ, ◌+◌, ◌≤◌, ◌≡◌, refl, sym, ap, ◌∙◌, Bool, true, false, not, ◌||◌, List, [], ◌∷◌, map, Option,
  none, some, Text, codes, includes, distinct, is_empty, all, length, All, ◌==◌, arith,
  if◌then◌else◌, not_eq_false, ok, required, >>=-eq-ok, refuse-then, required-eq-ok, subst-ok,
}
use agent_cat.Json.Value.{JsonValue, json_member, keys_of, string_of, object_of}
use agent_cat.Config.Sound.{Fresh, Fresh-distinct, absolute-path}
use agent_cat.Config.{
  not_absolute, not_an_array, not_an_object, unknown_field, bad_id, bad_executable, bad_cwds,
  RunnerConfig, Node, Env, filled, read_array, strings_or, fresh_id, absolute, bad_directories,
  known_fields, runner_of, runners_of, runners_from, configured_runners,
}

guard-else :
    {A : Type 0} (b : Bool) (a : A) {found : A}
    → (if b then none else some a) ≡ some found
    → (b ≡ false) × (a ≡ found)
guard-else true a h = cc
guard-else false a h = (refl, cc)

either-false : (a b : Bool) → (a || b) ≡ false → (a ≡ false) × (b ≡ false)
either-false true b h = cc
either-false false b h = (refl, h)

fresh_id-unseen :
    (ids : List Text) (given : Option Text) {id : Text}
    → fresh_id ids given ≡ some id
    → includes ids id ≡ false
fresh_id-unseen ids none h = cc
fresh_id-unseen ids (some given) h =
    let taken = guard-else (is_empty given || includes ids given) given h in
    ap (includes ids) (sym taken.1) ∙ (either-false (is_empty given) (includes ids given) taken.0).1

module _ (node : Node) where
  bad_directories-some : (paths : List Text) → bad_directories node paths ≡ false → 1 ≤ length paths
  bad_directories-some [] h = cc
  bad_directories-some (path ∷ paths) h = omega arith

  bad_directories-all :
      (paths : List Text) → bad_directories node paths ≡ false → all node.is_absolute paths ≡ true
  bad_directories-all paths h =
      not_eq_false _ (either-false (length paths == 0) (not (all node.is_absolute paths)) h).1

  -- A runner that a run may start: its executable is absolute, and it has a directory, each of
  -- them absolute.
  pub record IsRunner (r : RunnerConfig) : Type 0 where
    pub executable : node.is_absolute r.executable ≡ true
    pub some_cwd : 1 ≤ length r.allowed_cwds
    pub cwds : all node.is_absolute r.allowed_cwds ≡ true

  runner_of-IsRunner :
      (cwd : Text) (index : ℕ) (ids : List Text) (value : JsonValue) {r : RunnerConfig}
      → runner_of node cwd index ids value ≡ ok r
      → (includes ids r.id ≡ false) × IsRunner r
  unfolding runner_of
  runner_of-IsRunner cwd index ids value h =
      let at_entry = >>=-eq-ok (required (object_of (some value)) (not_an_object index)) _ h in
      let entry = at_entry.0 in
      let known =
        refuse-then (not (all (includes known_fields) (keys_of entry))) (unknown_field index) _
          at_entry.2 in
      let at_id =
        >>=-eq-ok
          (required (fresh_id ids (string_of (json_member entry (codes "id")))) (bad_id index)) _
          known.1 in
      let at_path =
        >>=-eq-ok
          (required (absolute node (string_of (json_member entry (codes "executable"))))
            (bad_executable index))
          _ at_id.2 in
      let at_args =
        >>=-eq-ok (strings_or index [] (json_member entry (codes "prefixArgs"))) _ at_path.2 in
      let at_cwds =
        >>=-eq-ok (strings_or index (cwd ∷ []) (json_member entry (codes "allowedCwds"))) _
          at_args.2 in
      let good = refuse-then (bad_directories node at_cwds.0) (bad_cwds index) _ at_cwds.2 in
      subst-ok (λ r. (includes ids r.id ≡ false) × IsRunner r) good.1
        (
          fresh_id-unseen ids _ (required-eq-ok _ (bad_id index) at_id.1),
          record {
            executable = absolute-path node _ (required-eq-ok _ (bad_executable index) at_path.1);
            some_cwd = bad_directories-some at_cwds.0 good.0;
            cwds = bad_directories-all at_cwds.0 good.0;
          },
        )

  runners_of-IsRunner :
      (cwd : Text) (index : ℕ) (ids : List Text) (values : List JsonValue) {rs : List RunnerConfig}
      → runners_of node cwd index ids values ≡ ok rs
      → Fresh ids (map (λ (r : RunnerConfig). r.id) rs) × All IsRunner rs
  unfolding runners_of
  runners_of-IsRunner cwd index ids [] h =
      subst-ok (λ rs. Fresh ids (map (λ (r : RunnerConfig). r.id) rs) × All IsRunner rs) h (tt, tt)
  runners_of-IsRunner cwd index ids (value ∷ values) h =
      let at_runner = >>=-eq-ok (runner_of node cwd index ids value) _ h in
      let runner = at_runner.0 in
      let first = runner_of-IsRunner cwd index ids value at_runner.1 in
      let rest =
        >>=-eq-ok (runners_of node cwd (index + 1) (runner.id ∷ ids) values) _ at_runner.2 in
      let later = runners_of-IsRunner cwd (index + 1) (runner.id ∷ ids) values rest.1 in
      subst-ok (λ rs. Fresh ids (map (λ (r : RunnerConfig). r.id) rs) × All IsRunner rs) rest.2
        ((first.0, later.0), (first.1, later.1))

  -- Distinct identifiers, and what a run needs of each runner.
  pub record IsAccepted (rs : List RunnerConfig) : Type 0 where
    pub distinct_ids : distinct (map (λ (r : RunnerConfig). r.id) rs) ≡ true
    pub runners : All IsRunner rs

  runners_from-IsAccepted :
      (cwd : Text) (env : Env) (configured single : Option Text) {rs : List RunnerConfig}
      → node.is_absolute cwd ≡ true
      → runners_from node cwd env configured single ≡ ok rs
      → IsAccepted rs
  runners_from-IsAccepted cwd env (some configured) (some single) at_root h = cc
  runners_from-IsAccepted cwd env none none at_root h =
      subst-ok IsAccepted h (record { distinct_ids = refl; runners = tt })
  runners_from-IsAccepted cwd env none (some single) at_root h =
      let passed = refuse-then (not (node.is_absolute single)) not_absolute _ h in
      subst-ok IsAccepted passed.1 (record {
        distinct_ids = refl;
        runners = (
          record {
            executable = not_eq_false _ passed.0;
            some_cwd = omega arith;
            cwds = rw (at_root) refl;
          },
          tt,
        );
      })
  runners_from-IsAccepted cwd env (some configured) none at_root h =
      let at_values = >>=-eq-ok (read_array node configured) _ h in
      let some_value = refuse-then (length at_values.0 == 0) not_an_array _ at_values.2 in
      let read = runners_of-IsRunner cwd 0 [] at_values.0 some_value.1 in
      record { distinct_ids = Fresh-distinct [] _ read.0; runners = read.1 }

  -- With an absolute working directory, the runners that are accepted have distinct identifiers, and
  -- each has an absolute executable and at least one directory to work in, all of them absolute.
  pub configured_runners-IsAccepted :
      (cwd : Text) (env : Env) {rs : List RunnerConfig}
      → node.is_absolute cwd ≡ true
      → configured_runners node cwd env ≡ ok rs
      → IsAccepted rs
  unfolding configured_runners
  configured_runners-IsAccepted cwd env at_root h =
      runners_from-IsAccepted cwd env (filled (env "AGENT_CAT_RUNNERS"))
        (filled (env "AGENT_CAT_RUNNER")) at_root h
