-- ===== src/Courses.antt =====
-- `CoursesService.setPrerequisites` (apps/api/src/modules/catalog/application/courses.service.ts). The
-- advisory lock of the program makes the changes of its prerequisites follow each other.
pub mod Acyclic
pub mod Replacing
pub mod Kept
mod Tests
use emis.Base.{
  ℕ, ◌+◌, String, Bool, true, false, not, Option, none, some, List, [], ◌∷◌, ◌++◌, map, Result, ok,
  err, Tx, ◌>>=◌, ◌>>◌, throw_if, throw_unless, or_throw, modify, ◌==◌, if◌then◌else◌, all, select,
  find_row, is_id, course_not_found, program_not_found, cross_program_prerequisite,
  prerequisite_cycle,
}
use emis.Access.{Grant, at_department, assert_scope}
use emis.Versioning.{Versioned, update_versioned}
use emis.Billing.Invoices.{Actor}
use emis.Catalog.{Edge, includes, would_create_cycle}

pub record Program : Type 0 where
  pub id : ℕ
  pub department_id : ℕ

pub record Course : Type 0 where
  pub id : ℕ
  pub program_id : ℕ
  pub updated_by : ℕ
  pub version : ℕ

pub record Catalogue : Type 0 where
  pub programs : List Program
  pub courses : List Course
  pub prerequisites : List Edge
  -- the courses whose prerequisites were set, as the audit log has them
  pub audit : List ℕ

abbrev pub is_course : ℕ → Course → Bool
is_course id c = c.id == id

abbrev pub is_program : ℕ → Program → Bool
is_program id p = p.id == id

-- The program of a course.
abbrev pub program_of : List Course → ℕ → Option ℕ
program_of [] id = none
program_of (c ∷ courses) id = if is_course id c then some c.program_id else program_of courses id

-- `[...new Set(ids)]`
pub distinct_ids : List ℕ → List ℕ
distinct_ids [] = []
distinct_ids (id ∷ ids) = id ∷ select (λ k. not (k == id)) (distinct_ids ids)

-- The edges of the program's courses, as the loop check reads them.
abbrev pub program_edges : List Course → ℕ → List Edge → List Edge
program_edges courses program_id =
    select (λ (e : Edge). is_id (program_of courses e.course_id) program_id)

-- The edges after the course's own are replaced.
abbrev pub replace_edges : ℕ → List ℕ → List Edge → List Edge
replace_edges id ids edges =
    select (λ (e : Edge). not (e.course_id == id)) edges
    ++ map (λ k. record { course_id = id; prerequisite_id = k }) ids

abbrev pub says_no : Option Bool → Bool
says_no (some false) = true
says_no _ = false

abbrev pub courses_table : Versioned Course
courses_table = record {
  id = λ r. r.id;
  version = λ r. r.version;
  bump = λ r. record r { version = r.version + 1 };
}

-- The versioned update that bumps the course.
unfoldable pub bump_course : ℕ → ℕ → Actor → Tx Catalogue (Unit {0})
unfolding update_versioned
bump_course id expected actor s =
    elim (update_versioned courses_table id expected
      (λ (r : Course). record r { updated_by = actor.user_id }) course_not_found s.courses) [
        | ok (row, rows) ↦ ok (tt, record s { courses = rows })
        | err e ↦ err e
      ]

-- The part of `setPrerequisites` that knows the course: with no ids, the checks of the program and of
-- the loop pass by themselves.
unfoldable pub replace_prerequisites : Course → List ℕ → ℕ → Actor → Tx Catalogue (Unit {0})
unfolding bump_course would_create_cycle
replace_prerequisites before ids expected actor s =
    let known = all (λ k. is_id (program_of s.courses k) before.program_id) ids in
    let answer =
      would_create_cycle (program_edges s.courses before.program_id s.prerequisites) before.id
        ids in
    (throw_if (includes ids before.id) cross_program_prerequisite
        >> (throw_unless known cross_program_prerequisite
            >> (throw_unless (says_no answer) prerequisite_cycle
                >> (bump_course before.id expected actor
                    >> modify (λ t. record t {
                      prerequisites = replace_edges before.id ids t.prerequisites;
                      audit = t.audit ++ before.id ∷ [];
                    })))))
      s

-- `setPrerequisites`
unfoldable pub set_prerequisites : ℕ → List ℕ → ℕ → List Grant → Actor → Tx Catalogue (Unit {0})
unfolding replace_prerequisites distinct_ids
set_prerequisites id requested_ids expected grants actor = do
  before ← λ (s : Catalogue). or_throw (find_row (is_course id) s.courses) course_not_found s
  program ← λ (s : Catalogue).
      or_throw (find_row (is_program before.program_id) s.programs) program_not_found s
  assert_scope grants "catalog.manage" (at_department program.department_id)
  replace_prerequisites before (distinct_ids requested_ids) expected actor
