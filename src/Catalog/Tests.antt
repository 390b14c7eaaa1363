-- ===== src/Catalog/Tests.antt =====
-- Three courses in a row, and the theorem applied to them.
use emis.Base.{◌≡◌, ◌↔◌, refl, Bool, true, false, some, List, [], ◌∷◌}
use emis.Catalog.{Edge, would_create_cycle}
use emis.Catalog.Cycles.{SomeRequires, would_create_cycle_lem}

-- 3 requires 2, and 2 requires 1.
abbrev row : List Edge
row =
    record { course_id = 2; prerequisite_id = 1 }
    ∷ record { course_id = 3; prerequisite_id = 2 }
    ∷ []

loops : would_create_cycle row 1 (3 ∷ []) ≡ some true
unfolding would_create_cycle
loops = refl

no_loop : would_create_cycle row 4 (3 ∷ 1 ∷ []) ≡ some false
unfolding would_create_cycle
no_loop = refl

would_create_cycle_lem_example :
    (answer : Bool) × (would_create_cycle row 1 (3 ∷ []) ≡ some answer)
    × ((answer ≡ true) ↔ SomeRequires row 1 (3 ∷ []))
would_create_cycle_lem_example = would_create_cycle_lem row 1 (3 ∷ [])
