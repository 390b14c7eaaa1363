-- ===== src/Cohorts.antt =====
-- Enrollments: seats, the waitlist, withdrawals and results
-- (cohorts/application/enrollments.service.ts). A change of a class's seats locks the class first, so
-- the operations on one class follow each other.
pub mod Counts
pub mod Seats
pub mod Seated
pub mod Waiting
pub mod Changes
pub mod Leaving
pub mod Filled
mod Tests
use text.Mathlib.Text.{◌==◌ as str_eq}
use emis.Base.{
  ℕ, ◌+◌, String, Bool, true, false, not, ◌&&◌, ◌||◌, Option, none, some, List, [], ◌∷◌, ◌++◌,
  Result, ok, err, length, all, Tx, ◌>>=◌, ◌>>◌, pure, throw_if, throw_unless, or_throw, gets,
  modify, ◌==◌, ltb, leb, min, if◌then◌else◌, any, select, find_row, update_where, sort_by,
  cohort_not_found, enrollment_not_found, not_enrolling, already_enrolled, prerequisites_not_met,
  invalid_enrollment_state, result_incomplete, student_not_active, inactive_code, course_not_found,
  has_enrollments, invalid_cohort_transition, check_violation,
}
use emis.Access.{Grant, Target, at_branch, at_branch_and_department, assert_scope}
use emis.Versioning.{Versioned, update_versioned}
use emis.Registry.{
  CohortStatus, planned, opened, running, cancelled, EnrollmentStatus, waitlisted, active, failed,
  EnrollmentRow, CohortRow, RoomRow, CourseRow, SessionRow, Registry, record_entry, enrollment_row,
  cohort_row, student_row, room_is, course_is, cohort_is, enrollments_table, cohorts_table,
}
use emis.Billing.Invoices.{Actor}
use emis.Completion.{
  CompletionRules, EnrollmentResult, CompletionOutcome, incomplete, passed, failing,
  evaluate_completion,
}
use emis.Admissions.{mark_enrolled}

-- The place of a status in ENROLLMENT_STATUSES, to compare by.
abbrev pub rank : EnrollmentStatus → ℕ
rank waitlisted = 0
rank active = 1
rank EnrollmentStatus.completed = 2
rank failed = 3
rank EnrollmentStatus.withdrawn = 4

abbrev pub is_status : EnrollmentStatus → EnrollmentStatus → Bool
is_status a b = rank a == rank b

-- `activeCount`
abbrev pub holds_seat : ℕ → EnrollmentRow → Bool
holds_seat cohort_id e = e.cohort_id == cohort_id && is_status e.status active

abbrev pub active_count : ℕ → List EnrollmentRow → ℕ
active_count cohort_id enrollments = length (select (holds_seat cohort_id) enrollments)

-- `seatsOf`
abbrev pub seats_of : CohortRow → List RoomRow → ℕ
seats_of cohort rooms = elim (find_row (room_is cohort.room_id) rooms) [
  | some room ↦ min cohort.max_size room.capacity
  | none ↦ min cohort.max_size cohort.max_size
]

abbrev pub is_enrolling : CohortStatus → Bool
is_enrolling opened = true
is_enrolling running = true
is_enrolling _ = false

abbrev pub holds_place : EnrollmentStatus → Bool
holds_place waitlisted = true
holds_place active = true
holds_place EnrollmentStatus.completed = true
holds_place _ = false

-- The student has completed the course in some class of it.
abbrev pub has_done : ℕ → List EnrollmentRow → List CohortRow → ℕ → Bool
has_done student_id enrollments cohorts course_id =
    any
      (λ (e : EnrollmentRow).
        e.student_id == student_id
        && is_status e.status EnrollmentStatus.completed
        && any (λ (c : CohortRow). c.id == e.cohort_id && c.course_id == course_id) cohorts)
      enrollments

-- `assertPrerequisites`: every one of the course's (distinct) prerequisites has been completed.
unfoldable pub assert_prerequisites : ℕ → ℕ → Tx Registry (Unit {0})
assert_prerequisites student_id course_id s =
    (or_throw (find_row (course_is course_id) s.courses) course_not_found
        >>= λ (course : CourseRow).
            throw_unless (all (has_done student_id s.enrollments s.cohorts) course.prerequisite_ids)
              prerequisites_not_met)
      s

abbrev pub live_in : ℕ → ℕ → EnrollmentRow → Bool
live_in student_id cohort_id e =
    e.student_id == student_id && e.cohort_id == cohort_id && holds_place e.status

-- The enrollment that `enroll` inserts.
abbrev pub new_enrollment : ℕ → ℕ → ℕ → CohortRow → Bool → Actor → EnrollmentRow
new_enrollment new_id now student_id cohort has_seat actor = record {
  id = new_id;
  student_id = student_id;
  cohort_id = cohort.id;
  status = if has_seat then active else waitlisted;
  waitlisted_at = if has_seat then none else some now;
  enrolled_at = if has_seat then some now else none;
  withdrawn_at = none;
  withdrawal_reason = none;
  score = none;
  attendance_percent = none;
  completed_at = none;
  updated_by = actor.user_id;
  version = 1;
}

-- The insert of `enroll`, with what follows a seat.
unfoldable pub take_place : ℕ → ℕ → ℕ → CohortRow → Bool → Actor → Tx Registry (Unit {0})
unfolding mark_enrolled
take_place new_id now student_id cohort has_seat actor = do
  modify (λ (s : Registry). record s {
    enrollments = s.enrollments ++ new_enrollment new_id now student_id cohort has_seat actor ∷ [];
  })
  if has_seat then mark_enrolled student_id else pure tt
  record_entry (if has_seat then "enrollment.created" else "enrollment.waitlisted") "enrollment"
      new_id

-- `enroll`
unfoldable pub enroll : ℕ → ℕ → ℕ → ℕ → List Grant → Actor → Tx Registry (Unit {0})
unfolding cohort_row student_row assert_prerequisites take_place
enroll new_id now student_id cohort_id grants actor = do
  cohort ← cohort_row cohort_id
  assert_scope grants "enrollments.manage" (at_branch cohort.branch_id)
  throw_unless (is_enrolling cohort.status) not_enrolling
  student ← student_row student_id
  throw_unless student.is_active student_not_active
  existing ← gets (λ (s : Registry). any (live_in student_id cohort_id) s.enrollments)
  throw_if existing already_enrolled
  assert_prerequisites student_id cohort.course_id
  has_seat ←
      gets (λ (s : Registry). ltb (active_count cohort.id s.enrollments) (seats_of cohort s.rooms))
  take_place new_id now student_id cohort has_seat actor

abbrev pub waits_in : ℕ → EnrollmentRow → Bool
waits_in cohort_id e = e.cohort_id == cohort_id && is_status e.status waitlisted

-- `ORDER BY waitlisted_at, id`, where SQL sorts a missing time last
abbrev pub waited_before : EnrollmentRow → EnrollmentRow → Bool
waited_before a b = elim a.waitlisted_at [
  | none ↦ elim b.waitlisted_at [ none ↦ leb a.id b.id | some y ↦ false ]
  | some x ↦ elim b.waitlisted_at [ none ↦ true | some y ↦ ltb x y || (x == y && leb a.id b.id) ]
]

abbrev pub first : List EnrollmentRow → Option EnrollmentRow
first [] = none
first (e ∷ es) = some e

-- The enrollment that has waited longest.
unfoldable pub next_waiting : ℕ → List EnrollmentRow → Option EnrollmentRow
unfolding sort_by
next_waiting cohort_id enrollments =
    first (sort_by waited_before (select (waits_in cohort_id) enrollments))

abbrev pub promoted : ℕ → Actor → ℕ → EnrollmentRow → EnrollmentRow
promoted now actor version e = record e {
  status = active;
  enrolled_at = some now;
  updated_by = actor.user_id;
  version = version;
}

-- The promotion of one enrollment.
unfoldable pub promote : ℕ → EnrollmentRow → Actor → Tx Registry (Unit {0})
unfolding mark_enrolled
promote now next actor = do
  modify (λ (s : Registry). record s {
    enrollments =
        update_where (λ (e : EnrollmentRow). e.id == next.id)
          (promoted now actor (next.version + 1)) s.enrollments;
  })
  mark_enrolled next.student_id
  record_entry "enrollment.promoted" "enrollment" next.id

-- `promoteWaiting`
unfoldable pub promote_waiting : ℕ → CohortRow → Actor → Tx Registry (Unit {0})
unfolding next_waiting promote
promote_waiting now cohort actor s =
    if leb (seats_of cohort s.rooms) (active_count cohort.id s.enrollments)
    then ok (tt, s)
    else elim (next_waiting cohort.id s.enrollments) [
      | none ↦ ok (tt, s)
      | some next ↦ promote now next actor s
    ]

-- enrollments_score_check and enrollments_attendance_check
abbrev up_to_100 : Option ℕ → Bool
up_to_100 none = true
up_to_100 (some n) = leb n 100

abbrev pub enrollment_checks : EnrollmentRow → Bool
enrollment_checks e = up_to_100 e.score && up_to_100 e.attendance_percent

-- A versioned update of one enrollment, with the checks of its table.
unfoldable pub update_enrollment : ℕ → ℕ → (EnrollmentRow → EnrollmentRow) → Tx Registry (Unit {0})
unfolding update_versioned
update_enrollment id expected values s =
    elim (update_versioned enrollments_table id expected values enrollment_not_found
      s.enrollments) [
        | ok (row, rows) ↦
            if enrollment_checks row
            then ok (tt, record s { enrollments = rows })
            else err check_violation
        | err e ↦ err e
      ]

abbrev pub left_for : ℕ → String → Actor → EnrollmentRow → EnrollmentRow
left_for now reason_code actor e = record e {
  status = EnrollmentStatus.withdrawn;
  withdrawn_at = some now;
  withdrawal_reason = some reason_code;
  updated_by = actor.user_id;
}

abbrev pub is_cancelled : CohortStatus → Bool
is_cancelled cancelled = true
is_cancelled _ = false

-- The end of `withdraw`: a freed seat goes on, unless the class is cancelled.
abbrev pub frees_seat : EnrollmentRow → CohortRow → Bool
frees_seat found cohort = is_status found.status active && not (is_cancelled cohort.status)

-- `withdraw`; `is_reason` says which withdrawal reasons are in use.
unfoldable pub withdraw :
    (String → Bool) → ℕ → ℕ → String → ℕ → List Grant → Actor → Tx Registry (Unit {0})
unfolding enrollment_row cohort_row update_enrollment promote_waiting
withdraw is_reason now id reason_code expected grants actor = do
  found ← enrollment_row id
  cohort ← cohort_row found.cohort_id
  assert_scope grants "enrollments.manage" (at_branch cohort.branch_id)
  throw_unless (is_status found.status active || is_status found.status waitlisted)
      invalid_enrollment_state
  throw_unless (is_reason reason_code) inactive_code
  update_enrollment id expected (left_for now reason_code actor)
  record_entry "enrollment.withdrawn" "enrollment" id
  if frees_seat found cohort then promote_waiting now cohort actor else pure tt

abbrev pub rules_of : CourseRow → CompletionRules
rules_of c = record { min_attendance_percent = c.min_attendance_percent; min_score = c.min_score }

abbrev pub outcome_status : CompletionOutcome → Option EnrollmentStatus
outcome_status (incomplete missing) = none
outcome_status passed = some EnrollmentStatus.completed
outcome_status (failing reasons) = some failed

abbrev pub with_result :
    ℕ → EnrollmentResult → EnrollmentStatus → Actor → EnrollmentRow → EnrollmentRow
with_result now result status actor e = record e {
  status = status;
  score = result.score;
  attendance_percent = result.attendance_percent;
  completed_at = some now;
  updated_by = actor.user_id;
}

-- `recordResult`
unfoldable pub record_result :
    ℕ → ℕ → EnrollmentResult → ℕ → List Grant → Actor → Tx Registry (Unit {0})
unfolding enrollment_row cohort_row evaluate_completion update_enrollment
record_result now id result expected grants actor = do
  found ← enrollment_row id
  cohort ← cohort_row found.cohort_id
  courses ← gets (λ (s : Registry). s.courses)
  course ← or_throw (find_row (course_is cohort.course_id) courses) cohort_not_found
  assert_scope grants "results.record"
      (at_branch_and_department cohort.branch_id course.department_id)
  throw_unless (is_status found.status active) invalid_enrollment_state
  status ←
      or_throw (outcome_status (evaluate_completion (rules_of course) result)) result_incomplete
  update_enrollment id expected (with_result now result status actor)
  record_entry "enrollment.result_recorded" "enrollment" id
