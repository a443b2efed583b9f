-- ===== src/RootRole/Tests.antt =====
-- Runs of the check of ext-pi/src/root-role.ts, in a file system without links and with the root as
-- the working directory.
use agent_cat.Base.{
  ℕ, ◌<◌, ◌≡◌, refl, inl, inr, true, List, [], ◌∷◌, ◌++◌, some, Text, codes, text_eq, length, arith,
  if◌then◌else◌, Result, ok, err, drop, take, starts_with, ◌==◌, Bool-cases, Option, none,
  strip_prefix, guard-some, subst-some, subst, sym, Option-cases, ap, ◌∙◌,
}
use agent_cat.RootRole.{
  RoleError, Handle, Files, missing, regular, real, beneath, manager_root, not_the_marker,
  manager_role_marker, assert_local_state_root, read_state_root_role, canonical_path, walk, role_of,
  read_bytes, root_role_file,
}
use agent_cat.RootRole.Unmarked.{
  IsUnmarked, IsAbsolute, IsAbove, assert_local_state_root-IsUnmarked, assert_local_state_root-Ends,
}

abbrev with_slash : ℕ → Option Text → Option Text
with_slash c none = if c == b'/' then some [] else none
with_slash c (some rest) = some (c ∷ rest)

-- The text before the last slash.
before_slash : Text → Option Text
before_slash [] = none
before_slash (c ∷ cs) = with_slash c (before_slash cs)

abbrev or_root : Option Text → Text
or_root none = codes "."
or_root (some []) = codes "/"
or_root (some (c ∷ cs)) = c ∷ cs

-- `dirname` of a path in normal form.
abbrev directory_of : Text → Text
directory_of path = or_root (before_slash path)

abbrev from_root : Text → Text
from_root path = if starts_with path (codes "/") then path else codes "/" ++ path

-- A file that is read ten bytes at a time.
abbrev file_of : List ℕ → Handle
file_of bytes = record {
  is_file = true;
  read = λ position count. some (take 10 (drop position bytes));
}

-- One directory has a marker with the given bytes.
abbrev marked : Text → List ℕ → Files
marked directory bytes = record {
  lstat =
      λ path. if text_eq path (directory ++ codes "/" ++ root_role_file) then regular else missing;
  open_file = λ path. some (file_of bytes);
  realpath = λ path. real path;
  resolve = from_root;
  dirname = directory_of;
  basename = λ path. path;
  join = λ path name. path ++ codes "/" ++ name;
}

beneath_manager :
    assert_local_state_root (marked (codes "/m") manager_role_marker) (codes "/m/s")
    ≡ some (err (beneath (codes "/m")))
unfolding assert_local_state_root canonical_path walk read_state_root_role text_eq role_of
    read_bytes strip_prefix before_slash
beneath_manager = refl

at_manager :
    assert_local_state_root (marked (codes "/m") manager_role_marker) (codes "/m")
    ≡ some (err manager_root)
unfolding assert_local_state_root canonical_path walk read_state_root_role text_eq role_of
    read_bytes strip_prefix before_slash
at_manager = refl

other_marker :
    assert_local_state_root (marked (codes "/m") (codes "{}")) (codes "/m/s")
    ≡ some (err not_the_marker)
unfolding assert_local_state_root canonical_path walk read_state_root_role text_eq role_of
    read_bytes strip_prefix before_slash
other_marker = refl

not_beneath :
    assert_local_state_root (marked (codes "/m") manager_role_marker) (codes "/l/s") ≡ some (ok tt)
unfolding assert_local_state_root canonical_path walk read_state_root_role text_eq strip_prefix
    before_slash
not_beneath = refl

last_slash :
    (c : ℕ) (cs : Text) {rest : Text}
    → with_slash c none ≡ some rest
    → length rest < length (c ∷ cs)
last_slash c cs h =
    subst (λ r. length r < length (c ∷ cs)) (guard-some (c == b'/') [] h).1 (omega arith)

before_slash-less :
    (path : Text) {rest : Text} → before_slash path ≡ some rest → length rest < length path
unfolding before_slash
before_slash-less [] h = cc
before_slash-less (c ∷ cs) h = elim (Option-cases (before_slash cs)) [
  | inl last ↦ last_slash c cs (ap (with_slash c) (sym last) ∙ h)
  | inr (rest, later) ↦
      subst-some (λ r. length r < length (c ∷ cs)) (ap (with_slash c) (sym later) ∙ h)
        (omega (arith, before_slash-less cs later))
]

slash_IsAbove :
    (cs : Text) (found : Option Text)
    → ((rest : Text) → found ≡ some rest → length rest < length cs)
    → IsAbove (b'/' ∷ cs) (or_root (with_slash b'/' found))
unfolding strip_prefix
slash_IsAbove [] none shorter = (refl, inl refl)
slash_IsAbove (c ∷ cs) none shorter = (refl, inr (omega arith))
slash_IsAbove cs (some rest) shorter = (refl, inr (omega (arith, shorter rest refl)))

first_slash : (c : ℕ) (cs : Text) → IsAbsolute (c ∷ cs) → c ≡ b'/'
unfolding strip_prefix
first_slash c cs full = ground arith

directory_of-IsAbove : (path : Text) → IsAbsolute path → IsAbove path (directory_of path)
unfolding strip_prefix before_slash
directory_of-IsAbove [] full = cc
directory_of-IsAbove (c ∷ cs) full =
    subst (λ d. IsAbove (d ∷ cs) (or_root (with_slash d (before_slash cs))))
      (sym (first_slash c cs full))
      (slash_IsAbove cs (before_slash cs) (λ rest later. before_slash-less cs later))

from_root-IsAbsolute : (path : Text) → IsAbsolute (from_root path)
unfolding strip_prefix
from_root-IsAbsolute path = elim (Bool-cases (starts_with path (codes "/"))) [
  | inl full ↦ rw (full) full
  | inr relative ↦ rw (relative) refl
]

assert_local_state_root-IsUnmarked_example :
    (root : Text) × (canonical_path (marked (codes "/m") manager_role_marker) 5 (codes "/l/s")
      ≡ some (ok root))
    × IsUnmarked (marked (codes "/m") manager_role_marker) root
unfolding strip_prefix
assert_local_state_root-IsUnmarked_example =
    assert_local_state_root-IsUnmarked (marked (codes "/m") manager_role_marker) (codes "/l/s")
      not_beneath

assert_local_state_root-Ends_example :
    (r : Result RoleError (Unit {0})) × (assert_local_state_root
        (marked (codes "/m") manager_role_marker)
        (codes "/m/s")
      ≡ some r)
unfolding strip_prefix
assert_local_state_root-Ends_example =
    assert_local_state_root-Ends (marked (codes "/m") manager_role_marker) from_root-IsAbsolute
      directory_of-IsAbove (codes "/m/s")
