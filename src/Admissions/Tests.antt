-- ===== src/Admissions/Tests.antt =====
-- An application that moves, and the theorems applied to it.
use emis.Base.{
  ℕ, ◌≡◌, refl, true, none, List, [], ◌∷◌, Result, ok, err, Tx, arith, All, invalid_transition,
}
use emis.Access.{Grant, global, assert_scope, has_permission}
use emis.Registry.{contacted, offered, ApplicationRow, Registry}
use emis.Billing.Invoices.{Actor}
use emis.Admissions.{transition}
use emis.Admissions.Pipeline.{
  Operation, converting, run, LeavesApplications, HasMoved, HasStudent, run-HasMoved,
  run-HasStudent,
}

abbrev applicant : ApplicationRow
applicant = record {
  id = 1;
  status = offered;
  branch_id = 7;
  placement_score = none;
  placement_course_id = none;
  placed_at = none;
  student_id = none;
  updated_by = none;
  version = 1;
}

abbrev desk : Registry
desk = record {
  applications = applicant ∷ [];
  students = [];
  rooms = [];
  courses = [];
  cohorts = [];
  enrollments = [];
  sessions = [];
  audit = [];
}

-- Registers a student with the id 51.
abbrev register : ApplicationRow → Tx Registry ℕ
register before s = ok (
  51,
  record s { students = record { id = 51; category_code = none; is_active = true } ∷ s.students },
)

register-LeavesApplications : LeavesApplications register
register-LeavesApplications before s s' id h = ground arith

abbrev office : Actor
office = record { user_id = 3 }

abbrev all_grants : List Grant
all_grants = record { permission = "admissions.manage"; scope = global } ∷ []

abbrev conversion : Operation
conversion = converting 1 none 1 all_grants office

abbrev after : Registry → Result (Unit {0} × Registry) → Registry
after s (ok (_, s')) = s'
after s (err e) = s

abbrev converted : Registry
converted = after desk (run register conversion desk)

is_converted : run register conversion desk ≡ ok (tt, converted)
unfolding run assert_scope has_permission
is_converted = refl

run-HasMoved_example : HasMoved desk.applications converted.applications
run-HasMoved_example =
    run-HasMoved register register-LeavesApplications conversion desk converted (tt, tt)
      is_converted

run-HasStudent_example : All HasStudent converted.applications
run-HasStudent_example =
    run-HasStudent register register-LeavesApplications conversion desk converted refl
      ((λ h. absurd (ground arith)), tt) is_converted

-- An offer can not go back to the first contact.
no_way_back : transition true 1 contacted 1 all_grants office desk ≡ err invalid_transition
unfolding transition assert_scope has_permission
no_way_back = refl
