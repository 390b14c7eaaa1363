-- ===== src/Courses/Tests.antt =====
-- Three courses of a program: prerequisites are set one by one, and a loop is refused.
use emis.Base.{ℕ, ◌≡◌, refl, List, [], ◌∷◌, Result, ok, err, prerequisite_cycle}
use emis.Access.{Grant, global, assert_scope, has_permission}
use emis.Billing.Invoices.{Actor}
use emis.Courses.{Course, Catalogue, set_prerequisites}
use emis.Courses.Acyclic.{Acyclic}
use emis.Courses.Kept.{IsOrdered, set_prerequisites-IsOrdered}

abbrev course : ℕ → Course
course id = record { id = id; program_id = 8; updated_by = 3; version = 1 }

abbrev catalogue : Catalogue
catalogue = record {
  programs = record { id = 8; department_id = 2 } ∷ [];
  courses = course 1 ∷ course 2 ∷ course 3 ∷ [];
  prerequisites = [];
  audit = [];
}

Acyclic-nil : Acyclic []
Acyclic-nil a b h way = cc

abbrev catalogue_is_ordered : IsOrdered catalogue
catalogue_is_ordered = record { acyclic = Acyclic-nil; within = tt }

abbrev editor : Actor
editor = record { user_id = 3 }

abbrev all_grants : List Grant
all_grants = record { permission = "catalog.manage"; scope = global } ∷ []

abbrev after : Catalogue → Result (Unit {0} × Catalogue) → Catalogue
after s (ok (_, s')) = s'
after s (err e) = s

abbrev second_needs_first : Catalogue
second_needs_first =
    after catalogue (set_prerequisites 2 (1 ∷ 1 ∷ []) 1 all_grants editor catalogue)

first_change :
    set_prerequisites 2 (1 ∷ 1 ∷ []) 1 all_grants editor catalogue ≡ ok (tt, second_needs_first)
unfolding set_prerequisites assert_scope has_permission
first_change = refl

abbrev third_needs_second : Catalogue
third_needs_second =
    after second_needs_first (set_prerequisites 3 (2 ∷ []) 1 all_grants editor second_needs_first)

second_change :
    set_prerequisites 3 (2 ∷ []) 1 all_grants editor second_needs_first
    ≡ ok (tt, third_needs_second)
unfolding set_prerequisites assert_scope has_permission
second_change = refl

set_prerequisites-IsOrdered_example : IsOrdered third_needs_second
set_prerequisites-IsOrdered_example =
    set_prerequisites-IsOrdered 3 (2 ∷ []) 1 all_grants editor second_needs_first third_needs_second
      (set_prerequisites-IsOrdered 2 (1 ∷ 1 ∷ []) 1 all_grants editor catalogue second_needs_first
        catalogue_is_ordered first_change)
      second_change

loop_is_refused :
    set_prerequisites 1 (3 ∷ []) 1 all_grants editor third_needs_second ≡ err prerequisite_cycle
unfolding set_prerequisites assert_scope has_permission
loop_is_refused = refl
