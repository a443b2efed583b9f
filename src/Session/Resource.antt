-- ===== src/Session/Resource.antt =====
-- `isMemberResource` and `related` of ext-pi/src/manager/session.ts.
use agent_cat.Base.{
  ℕ, Bool, false, not, ◌&&◌, ◌||◌, List, [], ◌∷◌, ◌++◌, map, none, some, Text, codes, is, includes,
  starts_with, is_empty, text_eq, ◌==◌, if◌then◌else◌,
}
use agent_cat.Events.Syntax.{cut_at}

abbrev onto_first : ℕ → List Text → List Text
onto_first c [] = (c ∷ []) ∷ []
onto_first c (part ∷ parts) = (c ∷ part) ∷ parts

-- `text.split("/")`.
unfoldable pub split_slash : Text → List Text
split_slash [] = [] ∷ []
split_slash (c ∷ cs) =
    let rest = split_slash cs in if c == b'/' then [] ∷ rest else onto_first c rest

abbrev member_collections : List Text
member_collections = map codes ("requests" ∷ "preparations" ∷ "runs" ∷ "decisions" ∷ [])

abbrev is_member_path : List Text → Bool
is_member_path (root ∷ version ∷ collection ∷ id ∷ rest) =
    is_empty root && is version "v1" && includes member_collections collection && not (is_empty id)
is_member_path parts = false

-- Whether a resource is a request, preparation, run or decision, or lies below one.
unfoldable pub is_member_resource : Text → Bool
is_member_resource resource = is_member_path (split_slash resource)

abbrev without_query : Text → Text
without_query resource = elim (cut_at b'?' resource) [ none ↦ resource | some (path, query) ↦ path ]

abbrev is_below : Text → Text → Bool
is_below a b = starts_with a (b ++ codes "/")

-- Whether two resources are equal or one lies below the other.
unfoldable pub related : Text → Text → Bool
related one other =
    let a = without_query one in
    let b = without_query other in text_eq a b || is_below a b || is_below b a
