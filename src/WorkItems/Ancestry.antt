-- ===== src/WorkItems/Ancestry.antt =====
-- childIsAncestorOf of internal/workitems/service.go: the recursive query over
-- work_item_relations, as its rounds.
pub mod Decides
pub mod Acyclic
use meristem.Base.{
  ℕ, zero, suc, Bool, true, false, ◌&&◌, ◌||◌, List, [], ◌∷◌, ◌++◌, ◌≡◌, ◌==◌, if◌then◌else◌, map,
  select, contains_id, length,
}
use meristem.Domain.{Uuid}
use meristem.WorkItems.Projectors.{has_relation}

abbrev pub Relations : Type 0
Relations = List (Uuid × Uuid)

-- SELECT r.parent_id FROM work_item_relations r JOIN … ON r.child_id = id
abbrev pub parents_of : Relations → List Uuid → List Uuid
parents_of [] ids = []
parents_of (r ∷ rs) ids =
    let rest = parents_of rs ids in if contains_id ids r.1 then r.0 ∷ rest else rest

-- UNION: the rows that are not there yet, each once.
abbrev pub fresh : List Uuid → List Uuid → List Uuid
fresh seen [] = []
fresh seen (x ∷ xs) =
    let rest = fresh seen xs in if contains_id seen x || contains_id rest x then rest else x ∷ rest

-- The rounds of the recursion: the rows of the last round, and all rows so far. The query ends at
-- the first round with no new row; a round after that one adds nothing.
unfoldable pub close : ℕ → Relations → List Uuid → List Uuid → List Uuid
close zero rel working seen = seen
close (suc n) rel working seen =
    let new = fresh seen (parents_of rel working) in close n rel new (new ++ seen)

-- A round that goes on adds a parent, so there are at most as many as relations.
unfoldable pub ancestry : Relations → Uuid → List Uuid
unfolding close
ancestry rel id =
    let first = fresh [] (parents_of rel (id ∷ [])) in close (length rel) rel first first

unfoldable pub child_is_ancestor_of : Relations → Uuid → Uuid → Bool
child_is_ancestor_of rel child parent = contains_id (ancestry rel parent) child

-- The first is a parent of the second, or a parent of such, and so on.
pub data Ancestor (rel : Relations) : Uuid → Uuid → Type 0 where
  parent : {a x : Uuid} → has_relation rel a x ≡ true → Ancestor rel a x
  above : {a b x : Uuid} → has_relation rel a b ≡ true → Ancestor rel b x → Ancestor rel a x
