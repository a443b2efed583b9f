-- ===== src/RootRole.antt =====
-- The role of a state root, and the check that a local run does not use a manager's:
-- ext-pi/src/root-role.ts.
pub mod Reads
pub mod Unmarked
pub mod Tests
use agent_cat.Base.{
  ℕ, zero, suc, ◌+◌, ◌-◌, ◌≤◌, ◌≡◌, refl, sym, ap, subst, ◌∙◌, inl, inr, Bool, true, false, not,
  List, [], ◌∷◌, ◌++◌, Option, none, some, Text, codes, text_eq, text_eq_sound, length,
  length-append, ltb, leb, arith, if◌then◌else◌, Bool-cases, Result, ok, err, ◌>>=◌, refuse,
  required, >>=-eq-ok, refuse-then,
}

pub data RoleError : Type 0 where
  cannot_inspect symbolic_link not_regular cannot_read oversized not_the_marker no_real_path :
      RoleError
  too_many_ancestors manager_root : RoleError
  beneath : (directory : Text) → RoleError

pub data Role : Type 0 where
  unmarked manager : Role

-- What `lstat` tells of a path.
pub data Status : Type 0 where
  missing failing link regular other : Status

-- What `realpath` gives.
pub data Real : Type 0 where
  real : (path : Text) → Real
  absent broken : Real

-- An open file: `read` gives the bytes at a position, none where it throws.
pub record Handle : Type 0 where
  pub is_file : Bool
  pub read : (position count : ℕ) → Option (List ℕ)

-- The file system, and node:path. `open_file` gives none where it throws.
pub record Files : Type 0 where
  pub lstat : Text → Status
  pub open_file : Text → Option Handle
  pub realpath : Text → Real
  pub resolve : Text → Text
  pub dirname : Text → Text
  pub basename : Text → Text
  pub join : Text → Text → Text

abbrev pub root_role_file : Text
root_role_file = codes ".agentic-root-role.json"

abbrev pub manager_role_marker : Text
manager_role_marker = codes "{\"version\":1,\"role\":\"manager\"}\n"

abbrev pub root_role_walk_limit : ℕ
root_role_walk_limit = 256

abbrev pub marker_read_limit : ℕ
marker_read_limit = 256

-- The reads of a marker after some of its bytes. Each but the last adds a byte at least, so as many
-- rounds as the buffer has room for fill it.
unfoldable pub read_bytes : ℕ → Handle → List ℕ → Result RoleError (List ℕ)
read_bytes zero handle bytes = ok bytes
read_bytes (suc rounds) handle bytes =
    if leb 257 (length bytes)
    then ok bytes
    else required (handle.read (length bytes) (257 - length bytes)) cannot_read >>= λ chunk.
        elim chunk [ [] ↦ ok bytes | c ∷ cs ↦ read_bytes rounds handle (bytes ++ c ∷ cs) ]

unfoldable pub role_of : Handle → Result RoleError Role
role_of handle = refuse (not handle.is_file) not_regular >>= λ done.
    read_bytes 257 handle [] >>= λ bytes.
    refuse (ltb marker_read_limit (length bytes)) oversized >>= λ done.
    refuse (not (text_eq bytes manager_role_marker)) not_the_marker >>= λ done. ok manager

-- A marked directory is refused; past one that is not marked, the walk ends at the top.
abbrev pub after_role :
    Role → RoleError → Bool → Result RoleError (Unit {0}) → Result RoleError (Unit {0})
after_role manager refusal top rest = err refusal
after_role unmarked refusal top rest = if top then ok tt else rest

module _ (files : Files) where
  abbrev pub role_at : Text → Status → Result RoleError Role
  role_at marker missing = ok unmarked
  role_at marker failing = err cannot_inspect
  role_at marker link = err symbolic_link
  role_at marker other = err not_regular
  role_at marker regular = required (files.open_file marker) cannot_read >>= role_of

  unfoldable pub read_state_root_role : Text → Result RoleError Role
  read_state_root_role directory =
      let marker = files.join directory root_role_file in role_at marker (files.lstat marker)

  -- The walk from a directory to the root of the file system, in at most so many directories.
  unfoldable pub walk : ℕ → Text → Text → Result RoleError (Unit {0})
  walk zero root directory = err too_many_ancestors
  walk (suc rounds) root directory =
      let rest = walk rounds root (files.dirname directory) in
      read_state_root_role directory >>= λ role.
      after_role role (if text_eq directory root then manager_root else beneath directory)
        (text_eq (files.dirname directory) directory) rest

  abbrev pub below : Text → Option (Result RoleError Text) → Option (Result RoleError Text)
  below path none = none
  below path (some parent) = some (parent >>= λ p. ok (files.join p (files.basename path)))

  abbrev pub canonical_of :
      Text → Real → Bool → Option (Result RoleError Text) → Option (Result RoleError Text)
  canonical_of path (real found) top above = some (ok found)
  canonical_of path broken top above = some (err no_real_path)
  canonical_of path absent top above = if top then some (err no_real_path) else below path above

  -- `realpath` of the nearest parent that exists, and the names below it: none without enough fuel.
  unfoldable pub canonical_path : ℕ → Text → Option (Result RoleError Text)
  canonical_path zero path = none
  canonical_path (suc fuel) path =
      let above = canonical_path fuel (files.dirname path) in
      canonical_of path (files.realpath path) (text_eq (files.dirname path) path) above

  unfoldable pub assert_local_state_root : Text → Option (Result RoleError (Unit {0}))
  assert_local_state_root state_dir =
      let path = files.resolve state_dir in
      elim (canonical_path (suc (length path)) path) [
        | none ↦ none
        | some canonical ↦ some (canonical >>= λ root. walk root_role_walk_limit root root)
      ]
