-- ===== src/RootRole/Unmarked.antt =====
-- What the check of ext-pi/src/root-role.ts shows of a state directory that it accepts.
use agent_cat.Base.{
  ℕ, zero, suc, ◌<◌, ◌≡◌, refl, sym, ap, subst, ◌∙◌, inl, inr, Bool, true, false, Option, none,
  some, Text, text_eq, text_eq_sound, text_eq_refl, starts_with, codes, subst-some, ◌⊎◌, length,
  arith, if◌then◌else◌, Result, ok, err, ◌>>=◌, >>=-eq-ok,
}
use agent_cat.RootRole.{
  RoleError, Role, unmarked, manager, manager_root, beneath, after_role, canonical_of, Real, real,
  absent, broken, Files, read_state_root_role, walk, canonical_path, assert_local_state_root,
  root_role_walk_limit,
}

some-eq : {A : Type 0} {a b : A} → ◌≡◌ {A = Option A} (some a) (some b) → a ≡ b
some-eq {a = a} same = subst-some (λ x. a ≡ x) same refl

after_role-ok :
    (role : Role) (refusal : RoleError) (top : Bool) (rest : Result RoleError (Unit {0}))
    → after_role role refusal top rest ≡ ok tt
    → (role ≡ unmarked) × ((top ≡ true) ⊎ (rest ≡ ok tt))
after_role-ok manager refusal top rest h = cc
after_role-ok unmarked refusal true rest h = (refl, inl refl)
after_role-ok unmarked refusal false rest h = (refl, inr h)

-- A path that starts at the root of the file system.
abbrev pub IsAbsolute : Text → Type 0
IsAbsolute path = starts_with path (codes "/") ≡ true

abbrev pub IsAbove : Text → Text → Type 0
IsAbove path directory =
    IsAbsolute directory × ((directory ≡ path) ⊎ (length directory < length path))

module _ (files : Files) where
  -- The directory a number of levels up.
  abbrev pub ancestor : ℕ → Text → Text
  ancestor zero directory = directory
  ancestor (suc levels) directory = ancestor levels (files.dirname directory)

  abbrev pub IsUnmarked : Text → Type 0
  IsUnmarked directory =
      (levels : ℕ) → read_state_root_role files (ancestor levels directory) ≡ ok unmarked

  at_top :
      (directory : Text)
      → files.dirname directory ≡ directory
      → read_state_root_role files directory ≡ ok unmarked
      → IsUnmarked directory
  at_top directory top here zero = here
  at_top directory top here (suc levels) =
      subst (λ d. read_state_root_role files (ancestor levels d) ≡ ok unmarked) (sym top)
        (at_top directory top here levels)

  onward :
      (directory : Text)
      → read_state_root_role files directory ≡ ok unmarked
      → IsUnmarked (files.dirname directory)
      → IsUnmarked directory
  onward directory here above zero = here
  onward directory here above (suc levels) = above levels

  walk-IsUnmarked :
      (rounds : ℕ) (root directory : Text)
      → walk files rounds root directory ≡ ok tt
      → IsUnmarked directory
  unfolding walk
  walk-IsUnmarked zero root directory h = cc
  walk-IsUnmarked (suc rounds) root directory h =
      let at_role = >>=-eq-ok (read_state_root_role files directory) _ h in
      let passed =
        after_role-ok at_role.0 (if text_eq directory root then manager_root else beneath directory)
          (text_eq (files.dirname directory) directory)
          (walk files rounds root (files.dirname directory)) at_role.2 in
      let here = at_role.1 ∙ ap ok passed.0 in
      elim passed.1 [
        | inl top ↦ at_top directory (text_eq_sound (files.dirname directory) directory top) here
        | inr rest ↦
            onward directory here (walk-IsUnmarked rounds root (files.dirname directory) rest)
      ]

  checked-IsUnmarked :
      (canonical : Option (Result RoleError Text))
      → (elim canonical [
        | none ↦ none
        | some c ↦ some (c >>= λ root. walk files root_role_walk_limit root root)
      ])
        ≡ some (ok tt)
      → (root : Text) × (canonical ≡ some (ok root)) × IsUnmarked root
  checked-IsUnmarked none h = cc
  checked-IsUnmarked (some (err refusal)) h = cc
  checked-IsUnmarked (some (ok root)) h =
      (root, refl, walk-IsUnmarked root_role_walk_limit root root (some-eq h))

  -- A state directory that is accepted has a canonical path, and neither this directory nor any
  -- directory above it, however far up, has a role marker.
  pub assert_local_state_root-IsUnmarked :
      (state_dir : Text)
      → assert_local_state_root files state_dir ≡ some (ok tt)
      → (root : Text) × (canonical_path files
            (suc (length (files.resolve state_dir)))
            (files.resolve state_dir)
          ≡ some (ok root))
        × IsUnmarked root
  unfolding assert_local_state_root
  assert_local_state_root-IsUnmarked state_dir h =
      let path = files.resolve state_dir in
      checked-IsUnmarked (canonical_path files (suc (length path)) path) h

  canonical_of-some :
      (path : Text) (found : Real) (top : Bool) (above : Option (Result RoleError Text))
      → (top ≡ true) ⊎ ((r : Result RoleError Text) × (above ≡ some r))
      → (r : Result RoleError Text) × (canonical_of files path found top above ≡ some r)
  canonical_of-some path (real p) top above h = (_, refl)
  canonical_of-some path broken top above h = (_, refl)
  canonical_of-some path absent true above h = (_, refl)
  canonical_of-some path absent false above (inl top) = cc
  canonical_of-some path absent false above (inr (r, there)) = rw (there) (_, refl)

  -- What node:path documents of the paths of the check: `resolve` gives an absolute path, and the
  -- directory of an absolute path is absolute, and is the path itself or shorter.
  module _ (resolved : (path : Text) → IsAbsolute (files.resolve path))
      (upward : (path : Text) → IsAbsolute path → IsAbove path (files.dirname path)) where
    canonical_path-some :
        (fuel : ℕ) (path : Text)
        → IsAbsolute path
        → length path < fuel
        → (r : Result RoleError Text) × (canonical_path files fuel path ≡ some r)
    unfolding canonical_path
    canonical_path-some zero path full enough = absurd (omega (arith, enough))
    canonical_path-some (suc fuel) path full enough =
        let (above, nearer) = upward path full in
        canonical_of-some path (files.realpath path) (text_eq (files.dirname path) path)
          (canonical_path files fuel (files.dirname path))
          (elim nearer [
            | inl top ↦ inl (ap (λ d. text_eq d path) top ∙ text_eq_refl path)
            | inr less ↦
                inr (
                  canonical_path-some fuel (files.dirname path) above (omega (arith, enough, less)))
          ])

    -- If resolving gives an absolute path, and the directory of each absolute path is absolute and is the
    -- path itself or shorter, then the check ends: it accepts the state directory or refuses it.
    pub assert_local_state_root-Ends :
        (state_dir : Text)
        → (r : Result RoleError (Unit {0})) × (assert_local_state_root files state_dir ≡ some r)
    unfolding assert_local_state_root
    assert_local_state_root-Ends state_dir =
        let path = files.resolve state_dir in
        let found =
          canonical_path-some (suc (length path)) path (resolved state_dir) (omega arith) in
        rw (found.1, assert_local_state_root) (_, refl)
