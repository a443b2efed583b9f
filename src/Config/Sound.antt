-- ===== src/Config/Sound.antt =====
-- What the readers of ext-pi/src/config.ts accept.
use agent_cat.Base.{
  ℕ, suc, ◌+◌, ◌≤◌, ◌≡◌, refl, sym, ap, ◌∙◌, inl, inr, true, false, not, ◌||◌, List, [], ◌∷◌,
  Option, none, some, Text, includes, distinct, text_eq, text_eq_sound, text_eq_refl, all, length,
  ltb, ◌==◌, arith, Bool-cases, not_eq_false, ok, required, >>=-eq-ok, refuse-then, guard-some,
  required-eq-ok, subst-ok,
}
use agent_cat.Json.Value.{JsonValue, string_of}
use agent_cat.Config.{
  not_absolute, not_an_array, bad_profile, duplicated, ClientMode, local, service, Node, Env,
  filled, read_array, absolute, max_manager_profiles, profiles_of, profiles_from,
  configured_manager_profiles,
}

-- Texts none of which is seen, each seen by those after it.
abbrev pub Fresh : List Text → List Text → Type 0
Fresh seen [] = Unit
Fresh seen (t ∷ ts) = (includes seen t ≡ false) × Fresh (t ∷ seen) ts

Fresh-unseen :
    (seen ts : List Text)
    → Fresh seen ts
    → (u : Text) → includes seen u ≡ true
    → includes ts u ≡ false
Fresh-unseen seen [] fresh u here = refl
Fresh-unseen seen (t ∷ ts) (new, fresh) u here = elim (Bool-cases (text_eq t u)) [
  | inl same ↦ absurd (cc (sym new ∙ ap (includes seen) (text_eq_sound t u same) ∙ here))
  | inr other ↦ rw (other) (Fresh-unseen (t ∷ seen) ts fresh u (rw (other) here))
]

pub Fresh-distinct : (seen ts : List Text) → Fresh seen ts → distinct ts ≡ true
Fresh-distinct seen [] fresh = refl
Fresh-distinct seen (t ∷ ts) (new, fresh) =
    let later = Fresh-unseen (t ∷ seen) ts fresh t (rw (text_eq_refl t) refl) in
    rw (later) (Fresh-distinct (t ∷ seen) ts fresh)

module _ (node : Node) where
  pub absolute-path :
      (given : Option Text) {path : Text}
      → absolute node given ≡ some path
      → node.is_absolute path ≡ true
  absolute-path none h = cc
  absolute-path (some given) h =
      let passed = guard-some (node.is_absolute given) given h in
      ap node.is_absolute (sym passed.1) ∙ passed.0

  profiles_of-paths :
      (index : ℕ) (seen : List Text) (values : List JsonValue) {paths : List Text}
      → profiles_of node index seen values ≡ ok paths
      → Fresh seen paths × (all node.is_absolute paths ≡ true) × (length paths ≡ length values)
  unfolding profiles_of
  profiles_of-paths index seen [] h =
      subst-ok (λ ps. Fresh seen ps × (all node.is_absolute ps ≡ true) × (length ps ≡ 0)) h
        (tt, refl, refl)
  profiles_of-paths index seen (value ∷ values) h =
      let at_path =
        >>=-eq-ok (required (absolute node (string_of (some value))) (bad_profile index)) _ h in
      let path = at_path.0 in
      let is_abs =
        absolute-path (string_of (some value)) (required-eq-ok _ (bad_profile index) at_path.1) in
      let new = refuse-then (includes seen path) (duplicated index) _ at_path.2 in
      let rest = >>=-eq-ok (profiles_of node (index + 1) (path ∷ seen) values) _ new.1 in
      let later = profiles_of-paths (index + 1) (path ∷ seen) values rest.1 in
      subst-ok
        (λ ps.
          Fresh seen ps × (all node.is_absolute ps ≡ true) × (length ps ≡ length (value ∷ values)))
        rest.2 ((new.0, later.0), rw (is_abs) later.1, ap suc later.2)

  abbrev pub IsMode : ClientMode → Type 0
  IsMode local = Unit
  IsMode (service paths) =
      (1 ≤ length paths)
      × (length paths ≤ 8)
      × (distinct paths ≡ true)
      × (all node.is_absolute paths ≡ true)

  read_profiles-IsMode :
      (configured : Text) {mode : ClientMode}
      → profiles_from node (some configured) none ≡ ok mode
      → IsMode mode
  read_profiles-IsMode configured h =
      let at_values = >>=-eq-ok (read_array node configured) _ h in
      let values = at_values.0 in
      let bounds =
        refuse-then (length values == 0 || ltb max_manager_profiles (length values)) not_an_array _
          at_values.2 in
      let at_paths = >>=-eq-ok (profiles_of node 0 [] values) _ bounds.1 in
      let sound = profiles_of-paths 0 [] values at_paths.1 in
      subst-ok IsMode at_paths.2 (
        ground (arith, bounds.0, sound.2),
        ground (arith, bounds.0, sound.2),
        Fresh-distinct [] at_paths.0 sound.0,
        sound.1,
      )

  profiles_from-IsMode :
      (configured single : Option Text) {mode : ClientMode}
      → profiles_from node configured single ≡ ok mode
      → IsMode mode
  profiles_from-IsMode (some configured) (some single) h = cc
  profiles_from-IsMode none none h = subst-ok IsMode h tt
  profiles_from-IsMode (some configured) none h = read_profiles-IsMode configured h
  profiles_from-IsMode none (some single) h =
      let passed = refuse-then (not (node.is_absolute single)) not_absolute _ h in
      subst-ok IsMode passed.1 (omega arith, omega arith, refl, rw (not_eq_false _ passed.0) refl)

  -- The profiles of service mode are 1 to 8 paths, each absolute and no two equal.
  pub configured_manager_profiles-IsMode :
      (env : Env) {mode : ClientMode} → configured_manager_profiles node env ≡ ok mode → IsMode mode
  unfolding configured_manager_profiles
  configured_manager_profiles-IsMode env h =
      profiles_from-IsMode (filled (env "AGENT_CAT_MANAGER_PROFILES"))
        (filled (env "AGENT_CAT_MANAGER_PROFILE")) h
