-- ===== src/Catalog.antt =====
-- The prerequisites of courses as a graph (apps/api/src/modules/catalog/domain/prerequisites.ts).
pub mod Graph
pub mod Cycles
mod Tests
use mathlib.Core.List.{reverse}
use emis.Base.{
  ℕ, zero, suc, ◌+◌, Bool, true, false, Option, none, some, List, [], ◌∷◌, ◌++◌, map, any, select,
  length, ◌==◌, if◌then◌else◌,
}

-- A row of course_prerequisites.
pub record Edge : Type 0 where
  pub course_id : ℕ
  pub prerequisite_id : ℕ

-- `graph.get(id) ?? []`
abbrev pub required_by : List Edge → ℕ → List ℕ
required_by edges id =
    map (λ (e : Edge). e.prerequisite_id) (select (λ (e : Edge). e.course_id == id) edges)

abbrev pub includes : List ℕ → ℕ → Bool
includes ids id = any (λ i. i == id) ids

-- The loop of `wouldCreateCycle`: the ids seen, and the stack with its top first. A round that finds
-- the stack empty, or an undefined top, ends the loop.
unfoldable pub search : ℕ → List Edge → ℕ → List ℕ → List ℕ → Option Bool
search zero existing course_id seen stack = none
search (suc fuel) existing course_id seen [] = some false
search (suc fuel) existing course_id seen (current ∷ stack) =
    let skip = search fuel existing course_id seen stack in
    let visit =
      search fuel existing course_id (current ∷ seen)
        (reverse (required_by existing current) ++ stack) in
    if current == course_id then some true else if includes seen current then skip else visit

-- The most rounds that the loop can take: it pops each new prerequisite, and each edge once.
abbrev pub rounds : List Edge → List ℕ → ℕ
rounds existing new_prerequisites = suc (length new_prerequisites + length existing)

-- `wouldCreateCycle`. The stack starts with the last of the new prerequisites on top.
unfoldable pub would_create_cycle : List Edge → ℕ → List ℕ → Option Bool
unfolding search
would_create_cycle existing course_id new_prerequisites =
    search (rounds existing new_prerequisites) existing course_id [] (reverse new_prerequisites)
