-- ===== src/Cohorts/Tests.antt =====
-- A class with one seat, a student in it and two on the waitlist, and the theorems applied to it.
use emis.Base.{
  ◌≡◌, ◌↔◌, refl, Bool, true, false, String, none, some, List, [], ◌∷◌, Result, ok, err, arith, any,
  find_row, select, not, ◌==◌, ◌+◌,
}
use emis.Access.{Grant, global, assert_scope, has_permission}
use emis.Registry.{
  opened, cancelled, cohort_is, SessionRow, waitlisted, active, EnrollmentRow, CohortRow, CourseRow,
  Registry,
}
use emis.Billing.Invoices.{Actor}
use emis.Cohorts.{waits_in, next_waiting, active_count, enroll, withdraw, record_result}
use emis.Completion.{CompletionRules, EnrollmentResult, passed, evaluate_completion}
use emis.Classes.{may_become, blocks, set_status}
use emis.Completion.Passing.{IsMet, evaluate_completion-passed_iff}
use emis.Cohorts.Waiting.{IsNext, next_waiting-IsNext}
use emis.Cohorts.Counts.{IsSeated}
use emis.Cohorts.Seated.{stay, followed, enrolls, withdraws, SeatSteps-IsSeated}
use emis.Classes.Closing.{set_status_lem}

abbrev blank : EnrollmentRow
blank = record {
  id = 1;
  student_id = 51;
  cohort_id = 9;
  status = active;
  waitlisted_at = none;
  enrolled_at = some 10;
  withdrawn_at = none;
  withdrawal_reason = none;
  score = none;
  attendance_percent = none;
  completed_at = none;
  updated_by = 3;
  version = 1;
}

abbrev second : EnrollmentRow
second = record blank {
  id = 2;
  student_id = 52;
  status = waitlisted;
  waitlisted_at = some 30;
  enrolled_at = none;
}

abbrev third : EnrollmentRow
third = record blank {
  id = 3;
  student_id = 53;
  status = waitlisted;
  waitlisted_at = some 20;
  enrolled_at = none;
}

abbrev class : CohortRow
class = record {
  id = 9;
  course_id = 6;
  room_id = 4;
  branch_id = 7;
  max_size = 12;
  start_date = 90;
  status = opened;
  updated_by = 3;
  version = 1;
}

abbrev course : CourseRow
course = record {
  id = 6;
  department_id = 2;
  is_active = true;
  min_attendance_percent = some 80;
  min_score = some 60;
  prerequisite_ids = [];
}

abbrev school : Registry
school = record {
  applications = [];
  students =
      record { id = 51; category_code = none; is_active = true }
      ∷ record { id = 52; category_code = none; is_active = true }
      ∷ record { id = 53; category_code = none; is_active = true }
      ∷ record { id = 54; category_code = none; is_active = true }
      ∷ [];
  rooms = record { id = 4; capacity = 1 } ∷ [];
  courses = course ∷ [];
  cohorts = class ∷ [];
  enrollments = blank ∷ second ∷ third ∷ [];
  sessions = [];
  audit = [];
}

abbrev school_is_seated : IsSeated school
school_is_seated = record {
  classes = (tt, tt);
  places = (((λ e. omega arith), ((λ e. omega arith), tt)), (((λ e. omega arith), tt), (tt, tt)));
  fits = (omega arith, tt);
}

abbrev office : Actor
office = record { user_id = 3 }

abbrev all_grants : List Grant
all_grants =
    record { permission = "enrollments.manage"; scope = global }
    ∷ record { permission = "results.record"; scope = global }
    ∷ []

abbrev manage : List Grant
manage = record { permission = "cohorts.manage"; scope = global } ∷ []

abbrev after : Registry → Result (Unit {0} × Registry) → Registry
after s (ok (_, s')) = s'
after s (err e) = s

abbrev any_reason : String → Bool
any_reason _ = true

abbrev left : Registry
left = after school (withdraw any_reason 40 1 "moved" 1 all_grants office school)

is_left : withdraw any_reason 40 1 "moved" 1 all_grants office school ≡ ok (tt, left)
unfolding withdraw assert_scope has_permission
is_left = refl

next_is_third : next_waiting 9 school.enrollments ≡ some third
unfolding next_waiting
next_is_third = refl

next_waiting-IsNext_example : IsNext 9 school.enrollments (next_waiting 9 school.enrollments)
next_waiting-IsNext_example = next_waiting-IsNext 9 school.enrollments

abbrev joined : Registry
joined = after school (enroll 4 40 54 9 all_grants office school)

is_joined : enroll 4 40 54 9 all_grants office school ≡ ok (tt, joined)
unfolding enroll assert_scope has_permission
is_joined = refl

abbrev good : EnrollmentResult
good = record { score = some 75; attendance_percent = some 80 }

abbrev marked : Registry
marked = after school (record_result 90 1 good 1 all_grants office school)

is_marked : record_result 90 1 good 1 all_grants office school ≡ ok (tt, marked)
unfolding record_result assert_scope has_permission
is_marked = refl

-- One leaves, so that the next who waits has the seat; its result comes later, and a newcomer waits.
abbrev moved : Registry
moved = after left (enroll 4 41 54 9 all_grants office left)

is_moved : enroll 4 41 54 9 all_grants office left ≡ ok (tt, moved)
unfolding enroll assert_scope has_permission withdraw
is_moved = refl

SeatSteps-IsSeated_example : IsSeated moved
unfolding withdraw assert_scope has_permission
SeatSteps-IsSeated_example = SeatSteps-IsSeated school moved school_is_seated (
    followed (withdraws any_reason 40 1 "moved" 1 all_grants office is_left) (
      followed
        (enrolls 4 41 54 9 all_grants office
          ((λ e. omega arith), ((λ e. omega arith), ((λ e. omega arith), tt))) is_moved)
        stay))

abbrev rules : CompletionRules
rules = record { min_attendance_percent = some 80; min_score = some 60 }

evaluate_completion-passed_iff_example :
    (evaluate_completion rules good ≡ passed)
    ↔ (IsMet (some 60) (some 75) × IsMet (some 80) (some 80))
evaluate_completion-passed_iff_example = evaluate_completion-passed_iff rules good

-- A result frees the seat without passing it on: a newcomer then takes it before those who wait.
abbrev jumped : Registry
jumped = after marked (enroll 4 95 54 9 all_grants office marked)

newcomer_seated : active_count 9 jumped.enrollments ≡ 1
unfolding record_result enroll assert_scope has_permission
newcomer_seated = refl

third_waits : any (waits_in 9) jumped.enrollments ≡ true
unfolding record_result enroll assert_scope has_permission
third_waits = refl

-- The class with nobody in it any more, and one session.
abbrev empty_class : Registry
empty_class = record school {
  enrollments = [];
  sessions = record { cohort_id = 9; session_date = 50 } ∷ [];
}

abbrev closed : Registry
closed = after empty_class (set_status 9 cancelled 1 manage office empty_class)

closing_runs : set_status 9 cancelled 1 manage office empty_class ≡ ok (tt, closed)
unfolding set_status assert_scope has_permission
closing_runs = refl

set_status_lem_example :
    (before : CohortRow) × (find_row (cohort_is 9) empty_class.cohorts ≡ some before)
    × (before.version ≡ 1)
    × (may_become before.status cancelled ≡ true)
    × (find_row (cohort_is 9) closed.cohorts
        ≡ some (record before {
          status = cancelled;
          updated_by = office.user_id;
          version = before.version + 1;
        }))
    × (select (λ (c : CohortRow). not (cohort_is 9 c)) closed.cohorts
        ≡ select (λ (c : CohortRow). not (cohort_is 9 c)) empty_class.cohorts)
    × (closed.enrollments ≡ empty_class.enrollments)
    × (any (blocks 9 cancelled) closed.enrollments ≡ false)
    × (any (λ (d : SessionRow). d.cohort_id == 9) closed.sessions ≡ false)
set_status_lem_example =
    set_status_lem 9 cancelled 1 manage office empty_class closed (tt, tt) closing_runs
