-- ===== src/Access/Tests.antt =====
-- A department's coordinator and a branch's secretary, and the theorems applied to their grants.
use emis.Base.{ℕ, ◌≡◌, ◌↔◌, refl, true, some, List, [], ◌∷◌, ok}
use emis.Access.{Grant, Target, branch, department, has_permission, assert_branch_access}
use emis.Access.Laws.{Holds, Covers, ReadsAt, has_permission_iff, assert_branch_access_iff}

abbrev coordinator : List Grant
coordinator = record { permission = "placement.record"; scope = department 2 } ∷ []

abbrev secretary : List Grant
secretary = record { permission = "placement.record"; scope = branch 7 } ∷ []

abbrev at_both : Target
at_both = record { branch_id = some 7; department_id = some 2 }

-- Each passes on their own scope.
coordinator_may : has_permission coordinator "placement.record" (some at_both) ≡ true
unfolding has_permission
coordinator_may = refl

secretary_may : has_permission secretary "placement.record" (some at_both) ≡ true
unfolding has_permission
secretary_may = refl

has_permission_iff_example :
    (has_permission coordinator "placement.record" (some at_both) ≡ true)
    ↔ Holds (λ g. (g.permission ≡ "placement.record") × Covers g.scope at_both) coordinator
has_permission_iff_example = has_permission_iff coordinator "placement.record" at_both

assert_branch_access_iff_example :
    (assert_branch_access {S = ℕ} secretary "placement.record" 7 0 ≡ ok (tt, 0))
    ↔ Holds (λ g. (g.permission ≡ "placement.record") × ReadsAt 7 g.scope) secretary
assert_branch_access_iff_example = assert_branch_access_iff secretary "placement.record" 7 0
