-- ===== src/Session/Listed.antt =====
-- The lists of names and of versions that the capabilities of ext-pi/src/manager/session.ts have.
use agent_cat.Base.{
  ◌||◌, String, distinct, ltb, false, text_eq_sound, is, ◌⊎◌, inl, inr, ℕ, ◌≤◌, ◌≡◌, refl, ap, Bool,
  true, ◌&&◌, List, [], ◌∷◌, Option, none, some, Text, codes, all, length, All, arith, and_left,
  and_right,
}
use agent_cat.Base.Int.{ℤ, pos, negsuc}
use agent_cat.Json.Number.{same_int}
use agent_cat.Session.Fields.{distinct_integers}
use agent_cat.Session.Capabilities.{
  is_manifest, is_scope, is_transport, is_supported, supports, within_list,
}

-- A list of distinct texts of a kind, and of a length.
pub record IsListed (Size : ℕ → Type 0) (Kind : Text → Type 0) (found : Option (List Text))
    : Type 0 where
  pub listed : List Text
  pub there : found ≡ some listed
  pub size : Size (length listed)
  pub once : distinct listed ≡ true
  pub each : All Kind listed

abbrev pub IsAmong : Text → List String → Type 0
IsAmong t [] = ⊥
IsAmong t (name ∷ names) = (t ≡ codes name) ⊎ IsAmong t names

abbrev pub IsIn : ℤ → List ℕ → Type 0
IsIn z [] = ⊥
IsIn z (n ∷ ns) = (z ≡ pos n) ⊎ IsIn z ns

-- Versions of one format: distinct, at least one, and each known to the client.
pub record IsVersions (known : List ℕ) (found : Option (List ℤ)) : Type 0 where
  pub numbers : List ℤ
  pub there : found ≡ some numbers
  pub some_version : 1 ≤ length numbers
  pub once : distinct_integers numbers ≡ true
  pub each : All (λ z. IsIn z known) numbers

pub positive : (n : ℕ) → ltb 0 n ≡ true → 1 ≤ n
positive n h = ground arith

pub all-All :
    {A : Type 0} (test : A → Bool) (P : A → Type 0) (xs : List A)
    → ((x : A) → test x ≡ true → P x)
    → all test xs ≡ true
    → All P xs
all-All test P [] each h = tt
all-All test P (x ∷ xs) each h = (each x (and_left _ _ h), all-All test P xs each (and_right _ _ h))

either : (a b : Bool) → (a || b) ≡ true → (a ≡ true) ⊎ (b ≡ true)
either true b h = inl refl
either false b h = inr h

is_supported-IsIn : (ns : List ℕ) (z : ℤ) → is_supported ns z ≡ true → IsIn z ns
is_supported-IsIn [] z h = cc
is_supported-IsIn (n ∷ ns) z h = elim (either (same_int (pos n) z) (is_supported ns z) h) [
  | inl same ↦ inl (same_pos n z same)
  | inr later ↦ inr (is_supported-IsIn ns z later)
]
  where
    same_pos : (n : ℕ) (z : ℤ) → same_int (pos n) z ≡ true → z ≡ pos n
    same_pos n (negsuc m) h = cc
    same_pos n (pos m) h = ap pos (ground arith)

pub supports-IsVersions :
    (ns : List ℕ) (found : Option (List ℤ)) → supports ns found ≡ true → IsVersions ns found
supports-IsVersions ns none h = cc
supports-IsVersions ns (some zs) h =
    let shape = and_left (ltb 0 (length zs) && distinct_integers zs) _ h in
    record {
      numbers = zs;
      there = refl;
      some_version = positive (length zs) (and_left _ _ shape);
      once = and_right (ltb 0 (length zs)) _ shape;
      each =
          all-All (is_supported ns) (λ z. IsIn z ns) zs (is_supported-IsIn ns)
            (and_right (ltb 0 (length zs) && distinct_integers zs) _ h);
    }

pub within_list-IsListed :
    (count : ℕ → Bool) (Size : ℕ → Type 0) (test : Text → Bool) (Kind : Text → Type 0)
    (found : Option (List Text))
    → ((n : ℕ) → count n ≡ true → Size n)
    → ((t : Text) → test t ≡ true → Kind t)
    → within_list count found test ≡ true
    → IsListed Size Kind found
within_list-IsListed count Size test Kind none sized kinds h = cc
within_list-IsListed count Size test Kind (some ts) sized kinds h =
    let shape = and_left (count (length ts) && distinct ts) _ h in
    record {
      listed = ts;
      there = refl;
      size = sized (length ts) (and_left _ _ shape);
      once = and_right (count (length ts)) _ shape;
      each = all-All test Kind ts kinds (and_right (count (length ts) && distinct ts) _ h);
    }

-- A chain of tests that a text is one of some names, after an earlier test.
abbrev is_one_from : Bool → Text → List String → Bool
is_one_from before t [] = before
is_one_from before t (name ∷ names) = is_one_from (before || is t name) t names

among_from :
    (before : Bool) (t : Text) (names : List String)
    → is_one_from before t names ≡ true
    → (before ≡ true) ⊎ IsAmong t names
among_from before t [] h = inl h
among_from before t (name ∷ names) h = elim (among_from (before || is t name) t names h) [
  | inr later ↦ inr (inr later)
  | inl here ↦ elim (either before (is t name) here) [
    | inl earlier ↦ inl earlier
    | inr same ↦ inr (inl (text_eq_sound t (codes name) same))
  ]
]

among :
    (t : Text) (name : String) (names : List String)
    → is_one_from (is t name) t names ≡ true
    → IsAmong t (name ∷ names)
among t name names h = elim (among_from (is t name) t names h) [
  | inl same ↦ inl (text_eq_sound t (codes name) same)
  | inr later ↦ inr later
]

pub is_manifest-IsAmong : (t : Text) → is_manifest t ≡ true → IsAmong t ("legacy" ∷ "2" ∷ "3" ∷ [])
is_manifest-IsAmong t h = among t "legacy" ("2" ∷ "3" ∷ []) h

pub is_scope-IsAmong :
    (t : Text) → is_scope t ≡ true → IsAmong t ("observe" ∷ "submit" ∷ "control" ∷ "export" ∷ [])
is_scope-IsAmong t h = among t "observe" ("submit" ∷ "control" ∷ "export" ∷ []) h

pub is_transport-IsAmong : (t : Text) → is_transport t ≡ true → IsAmong t ("sse" ∷ "polling" ∷ [])
is_transport-IsAmong t h = among t "sse" ("polling" ∷ []) h
