-- ===== src/Completion.antt =====
-- The completion rules of a course (cohorts/domain/completion.ts). Scores and percentages are whole
-- numbers.
pub mod Passing
use text.Mathlib.Text.{◌==◌ as str_eq}
use emis.Base.{
  ℕ, ◌+◌, String, Bool, true, false, not, ◌&&◌, ◌||◌, Option, none, some, List, [], ◌∷◌, ◌++◌,
  Result, ok, err, length, all, Tx, ◌>>=◌, ◌>>◌, pure, throw_if, throw_unless, or_throw, gets,
  modify, ◌==◌, ltb, leb, min, if◌then◌else◌, any, select, find_row, update_where, sort_by,
  cohort_not_found, enrollment_not_found, not_enrolling, already_enrolled, prerequisites_not_met,
  invalid_enrollment_state, result_incomplete, student_not_active, inactive_code, course_not_found,
  has_enrollments, invalid_cohort_transition, check_violation,
}
use emis.Access.{Grant, Target, at_branch, at_branch_and_department, assert_scope}
use emis.Versioning.{Versioned, update_versioned}
use emis.Registry.{
  CohortStatus, planned, opened, running, cancelled, EnrollmentStatus, waitlisted, active, failed,
  EnrollmentRow, CohortRow, RoomRow, CourseRow, SessionRow, Registry, record_entry, enrollment_row,
  cohort_row, student_row, room_is, course_is, cohort_is, enrollments_table, cohorts_table,
}
use emis.Billing.Invoices.{Actor}
use emis.Admissions.{mark_enrolled}

pub record CompletionRules : Type 0 where
  pub min_attendance_percent : Option ℕ
  pub min_score : Option ℕ

pub record EnrollmentResult : Type 0 where
  pub score : Option ℕ
  pub attendance_percent : Option ℕ

pub data Measure : Type 0 where
  score attendance_percent : Measure

pub data CompletionOutcome : Type 0 where
  incomplete : List Measure → CompletionOutcome
  passed : CompletionOutcome
  failing : List Measure → CompletionOutcome

-- A rule without its number, and a rule whose number is below it.
abbrev lacks : Option ℕ → Option ℕ → Bool
lacks (some minimum) none = true
lacks _ _ = false

abbrev or_zero : Option ℕ → ℕ
or_zero none = 0
or_zero (some n) = n

abbrev misses : Option ℕ → Option ℕ → Bool
misses none given = false
misses (some minimum) given = ltb (or_zero given) minimum

abbrev push_if : Bool → Measure → List Measure → List Measure
push_if b m ms = if b then ms ++ m ∷ [] else ms

abbrev settle_reasons : List Measure → CompletionOutcome
settle_reasons [] = passed
settle_reasons (r ∷ rs) = failing (r ∷ rs)

abbrev settle_missing : List Measure → CompletionOutcome → CompletionOutcome
settle_missing [] outcome = outcome
settle_missing (m ∷ ms) outcome = incomplete (m ∷ ms)

-- `evaluateCompletion`
unfoldable pub evaluate_completion : CompletionRules → EnrollmentResult → CompletionOutcome
evaluate_completion rules result =
    settle_missing
      (push_if (lacks rules.min_attendance_percent result.attendance_percent) attendance_percent
        (push_if (lacks rules.min_score result.score) score []))
      (settle_reasons (
        push_if (misses rules.min_attendance_percent result.attendance_percent) attendance_percent
          (push_if (misses rules.min_score result.score) score [])))
