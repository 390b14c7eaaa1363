-- ===== src/Admissions.antt =====
-- Applications from the first contact to a class (admissions/application/applications.service.ts,
-- admissions/domain/pipeline.ts, packages/contracts/src/admissions.ts). The scores are whole numbers.
pub mod Pipeline
pub mod Steps
mod Tests
use emis.Base.{
  ℕ, ◌+◌, String, Bool, true, false, not, ◌&&◌, ◌||◌, Option, none, some, List, [], ◌∷◌, ◌++◌, map,
  Result, ok, err, Tx, ◌>>=◌, ◌>>◌, pure, throw_if, throw_unless, or_throw, gets, modify, ◌==◌,
  if◌then◌else◌, any, select, find_row, update_where, is_id, is_some, application_not_found,
  invalid_transition, placement_not_allowed, placement_disabled, reference_not_found,
  already_converted, not_ready_to_convert,
}
use emis.Access.{Grant, at_branch, at_branch_and_department, assert_scope}
use emis.Versioning.{update_versioned}
use emis.Registry.{
  ApplicationStatus, submitted, contacted, placement_scheduled, placed, offered, confirmed,
  enrolled, rejected, expired, ApplicationRow, CourseRow, Registry, RegistryEntry, record_entry,
  application_row, student_row, course_is, applications_table,
}
use emis.Billing.Invoices.{Actor}

-- The place of a status in APPLICATION_STATUSES, to compare by.
abbrev pub place : ApplicationStatus → ℕ
place submitted = 0
place contacted = 1
place placement_scheduled = 2
place placed = 3
place offered = 4
place confirmed = 5
place enrolled = 6
place rejected = 7
place ApplicationStatus.withdrawn = 8
place expired = 9

abbrev pub same_status : ApplicationStatus → ApplicationStatus → Bool
same_status a b = place a == place b

-- APPLICATION_TRANSITIONS
abbrev pub transitions : ApplicationStatus → List ApplicationStatus
transitions submitted =
    contacted ∷ placement_scheduled ∷ placed ∷ offered ∷ rejected ∷ ApplicationStatus.withdrawn ∷ []
transitions contacted =
    placement_scheduled ∷ placed ∷ offered ∷ rejected ∷ ApplicationStatus.withdrawn ∷ []
transitions placement_scheduled =
    placed ∷ contacted ∷ offered ∷ rejected ∷ ApplicationStatus.withdrawn ∷ []
transitions placed = offered ∷ rejected ∷ ApplicationStatus.withdrawn ∷ []
transitions offered = confirmed ∷ rejected ∷ ApplicationStatus.withdrawn ∷ expired ∷ []
transitions confirmed = enrolled ∷ ApplicationStatus.withdrawn ∷ []
transitions _ = []

unfoldable pub can_transition : ApplicationStatus → ApplicationStatus → Bool
can_transition from to = any (same_status to) (transitions from)

-- MANUAL_TARGETS, which the endpoint's schema accepts.
abbrev pub manual_targets : List ApplicationStatus
manual_targets =
    contacted ∷ placement_scheduled ∷ offered ∷ rejected ∷ ApplicationStatus.withdrawn ∷ expired
    ∷ []

-- CLOSED_STATUSES and `isClosed`
abbrev closed_statuses : List ApplicationStatus
closed_statuses = rejected ∷ ApplicationStatus.withdrawn ∷ expired ∷ enrolled ∷ []

unfoldable pub is_finished : ApplicationStatus → Bool
is_finished status = any (same_status status) closed_statuses

-- PLACEMENT_FROM and `canPlace`
unfoldable pub can_place : ApplicationStatus → Bool
can_place from = any (same_status from) (submitted ∷ contacted ∷ placement_scheduled ∷ placed ∷ [])

-- A versioned update of one application.
unfoldable pub update_application :
    ℕ → ℕ → (ApplicationRow → ApplicationRow) → Tx Registry (Unit {0})
unfolding update_versioned
update_application id expected values s =
    elim (update_versioned applications_table id expected values application_not_found
      s.applications) [ ok (row, rows) ↦ ok (tt, record s { applications = rows }) | err e ↦ err e ]

-- `transition`; `placement_enabled` is the module switch.
unfoldable pub transition :
    Bool → ℕ → ApplicationStatus → ℕ → List Grant → Actor → Tx Registry (Unit {0})
unfolding application_row update_application can_transition
transition placement_enabled id to expected grants actor = do
  before ← application_row id
  assert_scope grants "admissions.manage" (at_branch before.branch_id)
  throw_unless (can_transition before.status to) invalid_transition
  throw_if (same_status to placement_scheduled && not placement_enabled) placement_disabled
  update_application id expected
      (λ (r : ApplicationRow). record r { status = to; updated_by = some actor.user_id })
  record_entry "application.status_changed" "application" id

pub record PlacementValues : Type 0 where
  pub score : ℕ
  pub recommended_course_id : ℕ

abbrev pub active_course : ℕ → List CourseRow → Option CourseRow
active_course id courses = elim (find_row (course_is id) courses) [
  | some c ↦ if c.is_active then some c else none
  | none ↦ none
]

-- `recordPlacement`
unfoldable pub record_placement :
    Bool → ℕ → ℕ → PlacementValues → ℕ → List Grant → Actor → Tx Registry (Unit {0})
unfolding application_row update_application can_place
record_placement placement_enabled now id input expected grants actor = do
  before ← application_row id
  throw_unless placement_enabled placement_disabled
  throw_unless (can_place before.status) placement_not_allowed
  courses ← gets (λ (s : Registry). s.courses)
  target ← or_throw (active_course input.recommended_course_id courses) reference_not_found
  assert_scope grants "placement.record"
      (at_branch_and_department before.branch_id target.department_id)
  update_application id expected (λ (r : ApplicationRow). record r {
    status = placed;
    placement_score = some input.score;
    placement_course_id = some input.recommended_course_id;
    placed_at = some now;
    updated_by = some actor.user_id;
  })
  record_entry "application.placed" "application" id

abbrev pub awaits_class : ℕ → ApplicationRow → Bool
awaits_class student_id r = is_id r.student_id student_id && same_status r.status confirmed

abbrev enrolled_entry : ApplicationRow → RegistryEntry
enrolled_entry r = record {
  action = "application.status_changed";
  entity_type = "application";
  entity_id = r.id;
}

-- `markEnrolled`
unfoldable pub mark_enrolled : ℕ → Tx Registry (Unit {0})
mark_enrolled student_id = modify (λ s. record s {
  applications =
      update_where (awaits_class student_id)
        (λ (r : ApplicationRow). record r { status = enrolled; version = r.version + 1 })
        s.applications;
  audit = s.audit ++ map enrolled_entry (select (awaits_class student_id) s.applications);
})

-- The student of a conversion: one that exists, or one that `students.create` registers.
unfoldable pub student_for :
    (ApplicationRow → Tx Registry ℕ) → Option ℕ → ApplicationRow → Tx Registry ℕ
unfolding student_row
student_for create none before = create before
student_for create (some id) before = do student ← student_row id; pure student.id

-- `convert`; `create` is what `students.create` does with the applicant's data.
unfoldable pub convert :
    (ApplicationRow → Tx Registry ℕ)
    → ℕ
    → Option ℕ
    → ℕ
    → List Grant
    → Actor
    → Tx Registry (Unit {0})
unfolding application_row update_application student_for
convert create id existing_student_id expected grants actor = do
  before ← application_row id
  assert_scope grants "admissions.manage" (at_branch before.branch_id)
  throw_if (is_some before.student_id) already_converted
  throw_unless (same_status before.status offered) not_ready_to_convert
  student_id ← student_for create existing_student_id before
  update_application id expected (λ (r : ApplicationRow). record r {
    status = confirmed;
    student_id = some student_id;
    updated_by = some actor.user_id;
  })
  record_entry "application.converted" "application" id
