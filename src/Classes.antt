-- ===== src/Classes.antt =====
-- The statuses of a class: `CohortsService.setStatus` (cohorts/application/cohorts.service.ts).
pub mod Closing
use text.Mathlib.Text.{◌==◌ as str_eq}
use emis.Base.{
  ℕ, ◌+◌, String, Bool, true, false, not, ◌&&◌, ◌||◌, Option, none, some, List, [], ◌∷◌, ◌++◌,
  Result, ok, err, length, all, Tx, ◌>>=◌, ◌>>◌, pure, throw_if, throw_unless, or_throw, gets,
  modify, ◌==◌, ltb, leb, min, if◌then◌else◌, any, select, find_row, update_where, sort_by,
  cohort_not_found, enrollment_not_found, not_enrolling, already_enrolled, prerequisites_not_met,
  invalid_enrollment_state, result_incomplete, student_not_active, inactive_code, course_not_found,
  has_enrollments, invalid_cohort_transition, check_violation,
}
use emis.Access.{Grant, Target, at_branch, at_branch_and_department, assert_scope}
use emis.Versioning.{Versioned, update_versioned}
use emis.Registry.{
  CohortStatus, planned, opened, running, cancelled, EnrollmentStatus, waitlisted, active, failed,
  EnrollmentRow, CohortRow, RoomRow, CourseRow, SessionRow, Registry, record_entry, enrollment_row,
  cohort_row, student_row, room_is, course_is, cohort_is, enrollments_table, cohorts_table,
}
use emis.Billing.Invoices.{Actor}
use emis.Admissions.{mark_enrolled}
use emis.Cohorts.{is_status, holds_seat, is_cancelled}

-- COHORT_TRANSITIONS
abbrev pub may_become : CohortStatus → CohortStatus → Bool
may_become planned opened = true
may_become planned cancelled = true
may_become opened planned = true
may_become opened running = true
may_become opened cancelled = true
may_become running CohortStatus.completed = true
may_become _ _ = false

-- Which enrollments stand in the way of a status.
abbrev pub blocks : ℕ → CohortStatus → EnrollmentRow → Bool
blocks cohort_id cancelled e =
    e.cohort_id == cohort_id && (is_status e.status active || is_status e.status waitlisted)
blocks cohort_id CohortStatus.completed e = holds_seat cohort_id e
blocks cohort_id _ e = false

abbrev pub at_course : ℕ → Option CourseRow → Option Target
at_course branch_id (some c) = at_branch_and_department branch_id c.department_id
at_course branch_id none = at_branch branch_id

-- A versioned update of one class.
unfoldable pub update_cohort : ℕ → ℕ → (CohortRow → CohortRow) → Tx Registry (Unit {0})
unfolding update_versioned
update_cohort id expected values s =
    elim (update_versioned cohorts_table id expected values cohort_not_found s.cohorts) [
      | ok (row, rows) ↦ ok (tt, record s { cohorts = rows })
      | err e ↦ err e
    ]

-- A cancelled class gives up its sessions.
abbrev pub drop_sessions : ℕ → CohortStatus → Registry → Registry
drop_sessions id to s =
    if is_cancelled to
    then record s { sessions = select (λ (d : SessionRow). not (d.cohort_id == id)) s.sessions }
    else s

-- `setStatus`
unfoldable pub set_status : ℕ → CohortStatus → ℕ → List Grant → Actor → Tx Registry (Unit {0})
unfolding cohort_row update_cohort
set_status id to expected grants actor = do
  before ← cohort_row id
  courses ← gets (λ (s : Registry). s.courses)
  assert_scope grants "cohorts.manage"
      (at_course before.branch_id (find_row (course_is before.course_id) courses))
  throw_unless (may_become before.status to) invalid_cohort_transition
  live ← gets (λ (s : Registry). any (blocks id to) s.enrollments)
  throw_if live has_enrollments
  update_cohort id expected
      (λ (r : CohortRow). record r { status = to; updated_by = actor.user_id })
  modify (drop_sessions id to)
  record_entry "cohort.status_changed" "cohort" id
