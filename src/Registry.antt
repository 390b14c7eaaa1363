-- ===== src/Registry.antt =====
-- The tables of admissions and classes (packages/db/src/schema/students.ts, cohorts.ts, catalog.ts):
-- the columns that the services read or write to decide something. An id is a number, a timestamp is
-- a number, and ids that the database generates are arguments of the operations.
use emis.Base.{
  ℕ, ◌+◌, String, Bool, Option, List, [], ◌∷◌, ◌++◌, Tx, modify, ◌==◌, or_throw, find_row,
  application_not_found, cohort_not_found, enrollment_not_found, student_not_found,
}
use emis.Versioning.{Versioned}

pub data ApplicationStatus : Type 0 where
  submitted contacted placement_scheduled placed offered : ApplicationStatus
  confirmed enrolled rejected withdrawn expired : ApplicationStatus

pub record ApplicationRow : Type 0 where
  pub id : ℕ
  pub status : ApplicationStatus
  pub branch_id : ℕ
  pub placement_score : Option ℕ
  pub placement_course_id : Option ℕ
  pub placed_at : Option ℕ
  pub student_id : Option ℕ
  pub updated_by : Option ℕ
  pub version : ℕ

pub record StudentRow : Type 0 where
  pub id : ℕ
  pub category_code : Option String
  pub is_active : Bool

pub data CohortStatus : Type 0 where
  planned opened running completed cancelled : CohortStatus

pub record CohortRow : Type 0 where
  pub id : ℕ
  pub course_id : ℕ
  pub room_id : ℕ
  pub branch_id : ℕ
  pub max_size : ℕ
  pub start_date : ℕ
  pub status : CohortStatus
  pub updated_by : ℕ
  pub version : ℕ

pub data EnrollmentStatus : Type 0 where
  waitlisted active completed failed withdrawn : EnrollmentStatus

pub record EnrollmentRow : Type 0 where
  pub id : ℕ
  pub student_id : ℕ
  pub cohort_id : ℕ
  pub status : EnrollmentStatus
  pub waitlisted_at : Option ℕ
  pub enrolled_at : Option ℕ
  pub withdrawn_at : Option ℕ
  pub withdrawal_reason : Option String
  pub score : Option ℕ
  pub attendance_percent : Option ℕ
  pub completed_at : Option ℕ
  pub updated_by : ℕ
  pub version : ℕ

pub record RoomRow : Type 0 where
  pub id : ℕ
  pub capacity : ℕ

-- A course with its department, its completion rules and the courses that it requires.
pub record CourseRow : Type 0 where
  pub id : ℕ
  pub department_id : ℕ
  pub is_active : Bool
  pub min_attendance_percent : Option ℕ
  pub min_score : Option ℕ
  pub prerequisite_ids : List ℕ

-- A class session: the class and the day.
pub record SessionRow : Type 0 where
  pub cohort_id : ℕ
  pub session_date : ℕ

-- An audit entry: the action, the entity's type and its id.
pub record RegistryEntry : Type 0 where
  pub action : String
  pub entity_type : String
  pub entity_id : ℕ

pub record Registry : Type 0 where
  pub applications : List ApplicationRow
  pub students : List StudentRow
  pub rooms : List RoomRow
  pub courses : List CourseRow
  pub cohorts : List CohortRow
  pub enrollments : List EnrollmentRow
  pub sessions : List SessionRow
  pub audit : List RegistryEntry

-- `audit.record`
abbrev pub record_entry : String → String → ℕ → Tx Registry (Unit {0})
record_entry action entity_type id = modify (λ s. record s {
  audit = s.audit ++ record { action = action; entity_type = entity_type; entity_id = id } ∷ [];
})

abbrev pub application_is : ℕ → ApplicationRow → Bool
application_is id r = r.id == id

abbrev pub student_is : ℕ → StudentRow → Bool
student_is id r = r.id == id

abbrev pub cohort_is : ℕ → CohortRow → Bool
cohort_is id r = r.id == id

abbrev pub enrollment_is : ℕ → EnrollmentRow → Bool
enrollment_is id r = r.id == id

abbrev pub room_is : ℕ → RoomRow → Bool
room_is id r = r.id == id

abbrev pub course_is : ℕ → CourseRow → Bool
course_is id r = r.id == id

-- The `row` methods of the services; with `forUpdate` they read the same and lock the row.
unfoldable pub application_row : ℕ → Tx Registry ApplicationRow
application_row id s =
    or_throw (find_row (application_is id) s.applications) application_not_found s

unfoldable pub student_row : ℕ → Tx Registry StudentRow
student_row id s = or_throw (find_row (student_is id) s.students) student_not_found s

unfoldable pub cohort_row : ℕ → Tx Registry CohortRow
cohort_row id s = or_throw (find_row (cohort_is id) s.cohorts) cohort_not_found s

unfoldable pub enrollment_row : ℕ → Tx Registry EnrollmentRow
enrollment_row id s = or_throw (find_row (enrollment_is id) s.enrollments) enrollment_not_found s

abbrev pub applications_table : Versioned ApplicationRow
applications_table = record {
  id = λ r. r.id;
  version = λ r. r.version;
  bump = λ r. record r { version = r.version + 1 };
}

abbrev pub cohorts_table : Versioned CohortRow
cohorts_table = record {
  id = λ r. r.id;
  version = λ r. r.version;
  bump = λ r. record r { version = r.version + 1 };
}

abbrev pub enrollments_table : Versioned EnrollmentRow
enrollments_table = record {
  id = λ r. r.id;
  version = λ r. r.version;
  bump = λ r. record r { version = r.version + 1 };
}
