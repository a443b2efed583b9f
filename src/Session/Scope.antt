-- ===== src/Session/Scope.antt =====
-- `pageScope` of ext-pi/src/manager/session.ts.
use agent_cat.Base.{
  Bool, true, false, not, ◌&&◌, ◌||◌, List, [], ◌∷◌, map, Option, none, some, Text, is, distinct,
  text_eq, keep, if◌then◌else◌,
}
use agent_cat.Events.Syntax.{cut_at}
use agent_cat.Json.Encode.{text_less}
use agent_cat.Session.Service.{Host}

abbrev pair_less : Text × Text → Text × Text → Bool
pair_less p q = text_less p.0 q.0 || (not (text_less q.0 p.0) && text_less p.1 q.1)

unfoldable pub insert_pair : Text × Text → List (Text × Text) → List (Text × Text)
insert_pair p [] = p ∷ []
insert_pair p (q ∷ qs) =
    let rest = insert_pair p qs in if pair_less q p then q ∷ rest else p ∷ q ∷ qs

unfoldable pub sort_pairs : List (Text × Text) → List (Text × Text)
sort_pairs [] = []
sort_pairs (p ∷ ps) = insert_pair p (sort_pairs ps)

abbrev pair_name : Text × Text → Text
pair_name p = p.0

-- The path and the sorted pairs, whose JSON text the source compares.
abbrev pub Scope : Type 0
Scope = Text × List (Text × Text)

abbrev scope_of : Text → List (Text × Text) → Option Scope
scope_of path pairs =
    if distinct (map pair_name pairs)
    then some (path, sort_pairs (keep (λ p. not (is p.0 "pageToken")) pairs))
    else none

module _ (host : Host) where
  unfoldable pub page_scope : Text → Option Scope
  page_scope uri = elim (cut_at b'?' uri) [
    | none ↦ scope_of uri []
    | some (path, query) ↦ scope_of path (host.query_pairs query)
  ]

unfoldable pub same_pairs : List (Text × Text) → List (Text × Text) → Bool
same_pairs [] [] = true
same_pairs (p ∷ ps) (q ∷ qs) = text_eq p.0 q.0 && text_eq p.1 q.1 && same_pairs ps qs
same_pairs _ _ = false

abbrev pub in_scope : Scope → Option Scope → Bool
in_scope scope none = false
in_scope scope (some other) = text_eq other.0 scope.0 && same_pairs other.1 scope.1
