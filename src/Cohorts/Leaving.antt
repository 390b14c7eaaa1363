-- ===== src/Cohorts/Leaving.antt =====
-- What withdrawals, promotions and results did, once they went through.
use emis.Base.{
  ℕ, String, ◌+◌, ◌≡◌, refl, ◌∙◌, ◌⊎◌, Bool, true, false, ◌||◌, Option, none, some, List, Result,
  ok, Tx, ◌>>=◌, ◌>>◌, pure, >>=-eq-ok, >>-ok, throw_unless, or_throw, throw_unless-ok, or_throw-ok,
  arith, find_row, update_where, inl, inr, leb, if◌then◌else◌, ◌==◌, cohort_not_found,
  enrollment_not_found, invalid_enrollment_state, result_incomplete, inactive_code,
  permission_denied,
}
use emis.Access.{Grant, at_branch, at_branch_and_department, has_permission, assert_scope}
use emis.Registry.{
  EnrollmentStatus, waitlisted, active, EnrollmentRow, CohortRow, CourseRow, Registry, record_entry,
  enrollment_row, cohort_row, cohort_is, enrollment_is, course_is,
}
use emis.Billing.Invoices.{Actor}
use emis.Admissions.{mark_enrolled}
use emis.Cohorts.{
  is_status, active_count, seats_of, next_waiting, promoted, promote, promote_waiting,
  update_enrollment, left_for, frees_seat, withdraw, rules_of, outcome_status, with_result,
  record_result,
}
use emis.Completion.{EnrollmentResult, evaluate_completion}
use emis.Cohorts.Changes.{Keeps, IsUpdated, update_enrollment-IsUpdated}

abbrev pub promoted_rows : ℕ → Actor → EnrollmentRow → List EnrollmentRow → List EnrollmentRow
promoted_rows now actor next =
    update_where (λ (e : EnrollmentRow). e.id == next.id) (promoted now actor (next.version + 1))

-- A promotion that had nobody to promote or no seat, and one that gave the seat to the next.
pub data IsPromotion (now : ℕ) (cohort : CohortRow) (actor : Actor) (s s' : Registry) : Type 0 where
  full :
      leb (seats_of cohort s.rooms) (active_count cohort.id s.enrollments) ≡ true
      → s' ≡ s
      → IsPromotion now cohort actor s s'
  nobody : next_waiting cohort.id s.enrollments ≡ none → s' ≡ s → IsPromotion now cohort actor s s'
  seated :
      (next : EnrollmentRow)
      → leb (seats_of cohort s.rooms) (active_count cohort.id s.enrollments) ≡ false
      → next_waiting cohort.id s.enrollments ≡ some next
      → Keeps (promoted_rows now actor next s.enrollments) s s'
      → IsPromotion now cohort actor s s'

promote-Keeps :
    (now : ℕ) (next : EnrollmentRow) (actor : Actor) (s s' : Registry)
    → promote now next actor s ≡ ok (tt, s')
    → Keeps (promoted_rows now actor next s.enrollments) s s'
unfolding promote mark_enrolled
promote-Keeps now next actor s s' h = record {
  enrollments = ground arith;
  cohorts = ground arith;
  rooms = ground arith;
}

pub promote_waiting-IsPromotion :
    (now : ℕ) (cohort : CohortRow) (actor : Actor) (s s' : Registry)
    → promote_waiting now cohort actor s ≡ ok (tt, s')
    → IsPromotion now cohort actor s s'
unfolding promote_waiting
promote_waiting-IsPromotion now cohort actor s s' h =
    go (leb (seats_of cohort s.rooms) (active_count cohort.id s.enrollments)) refl
      (next_waiting cohort.id s.enrollments) refl h
  where
    given : Option EnrollmentRow → Result (Unit {0} × Registry)
    given o = elim o [ none ↦ ok (tt, s) | some next ↦ promote now next actor s ]

    answer : Bool → Option EnrollmentRow → Result (Unit {0} × Registry)
    answer b o = if b then ok (tt, s) else given o

    go :
        (b : Bool)
        → leb (seats_of cohort s.rooms) (active_count cohort.id s.enrollments) ≡ b
        → (o : Option EnrollmentRow) → next_waiting cohort.id s.enrollments ≡ o
        → answer b o ≡ ok (tt, s')
        → IsPromotion now cohort actor s s'
    go true e o f h' = full e (ground arith)
    go false e none f h' = nobody f (ground arith)
    go false e (some next) f h' = seated next e f (promote-Keeps now next actor s s' h')

-- What a successful `withdraw` did.
pub record IsWithdrawn (now id : ℕ) (reason_code : String) (expected : ℕ) (actor : Actor)
    (s s' : Registry) : Type 0 where
  pub found : EnrollmentRow
  pub is_found : find_row (enrollment_is id) s.enrollments ≡ some found
  pub cohort : CohortRow
  pub in_cohort : find_row (cohort_is found.cohort_id) s.cohorts ≡ some cohort
  pub left : Registry
  pub leaving : IsUpdated id expected (left_for now reason_code actor) s left
  pub passing_on :
      ((frees_seat found cohort ≡ true) × IsPromotion now cohort actor left s')
      ⊎ ((frees_seat found cohort ≡ false) × (s' ≡ left))

pub withdraw-IsWithdrawn :
    (is_reason : String → Bool) (now id : ℕ) (reason_code : String) (expected : ℕ)
    (grants : List Grant) (actor : Actor) (s s' : Registry)
    → withdraw is_reason now id reason_code expected grants actor s ≡ ok (tt, s')
    → IsWithdrawn now id reason_code expected actor s s'
unfolding withdraw enrollment_row cohort_row assert_scope
withdraw-IsWithdrawn is_reason now id reason_code expected grants actor s s' h =
    let write = update_enrollment id expected (left_for now reason_code actor) in
    let log = record_entry "enrollment.withdrawn" "enrollment" id in
    let pass = λ (found : EnrollmentRow) (cohort : CohortRow).
      let step : Tx Registry (Unit {0}) =
        if frees_seat found cohort then promote_waiting now cohort actor else pure tt in
      step in
    let leave =
      λ (found : EnrollmentRow) (cohort : CohortRow). write >> (log >> pass found cohort) in
    let reasoned = λ (found : EnrollmentRow) (cohort : CohortRow).
      throw_unless (is_reason reason_code) inactive_code >> leave found cohort in
    let state = λ (found : EnrollmentRow) (cohort : CohortRow).
      throw_unless (is_status found.status active || is_status found.status waitlisted)
        invalid_enrollment_state
      >> reasoned found cohort in
    let scoped = λ (found : EnrollmentRow) (cohort : CohortRow).
      assert_scope grants "enrollments.manage" (at_branch cohort.branch_id) >> state found cohort in
    let of_class = λ (found : EnrollmentRow) (t : Registry).
      (or_throw (find_row (cohort_is found.cohort_id) t.cohorts) cohort_not_found >>= scoped found)
        t in
    let (found, is_found, h1) =
      or_throw-ok (find_row (enrollment_is id) s.enrollments) enrollment_not_found of_class s h in
    let (cohort, in_cohort, h2) =
      or_throw-ok (find_row (cohort_is found.cohort_id) s.cohorts) cohort_not_found (scoped found) s
        h1 in
    let (allowed, h3) =
      throw_unless-ok (has_permission grants "enrollments.manage" (at_branch cohort.branch_id))
        permission_denied (state found cohort) s h2 in
    let (may_leave, h4) =
      throw_unless-ok (is_status found.status active || is_status found.status waitlisted)
        invalid_enrollment_state (reasoned found cohort) s h3 in
    let (known, h5) =
      throw_unless-ok (is_reason reason_code) inactive_code (leave found cohort) s h4 in
    let (u, s1, h6, h7) = >>=-eq-ok write (λ _. log >> pass found cohort) s h5 in
    let (u2, s2, h8, h9) = >>=-eq-ok log (λ _. pass found cohort) s1 h7 in
    let both : (write >> log) s ≡ ok (tt, s2) = logged s1 s2 h6 h8 in
    record {
      found = found;
      is_found = is_found;
      cohort = cohort;
      in_cohort = in_cohort;
      left = s2;
      leaving =
          update_enrollment-IsUpdated id expected (left_for now reason_code actor)
            "enrollment.withdrawn" s s2 both;
      passing_on = passed_on found cohort s2 h9;
    }
  where
    logged :
        (s1 s2 : Registry)
        → update_enrollment id expected (left_for now reason_code actor) s ≡ ok (tt, s1)
        → record_entry "enrollment.withdrawn" "enrollment" id s1 ≡ ok (tt, s2)
        → (update_enrollment id expected (left_for now reason_code actor)
              >> record_entry "enrollment.withdrawn" "enrollment" id)
            s
          ≡ ok (tt, s2)
    logged s1 s2 e f =
        >>-ok (update_enrollment id expected (left_for now reason_code actor))
          (record_entry "enrollment.withdrawn" "enrollment" id) s s1 e
        ∙ f

    passing : Bool → CohortRow → Tx Registry (Unit {0})
    passing b cohort = if b then promote_waiting now cohort actor else pure tt

    choose :
        (b : Bool) (cohort : CohortRow) (s2 : Registry)
        → passing b cohort s2 ≡ ok (tt, s')
        → ((b ≡ true) × IsPromotion now cohort actor s2 s') ⊎ ((b ≡ false) × (s' ≡ s2))
    choose true cohort s2 e = inl (refl, promote_waiting-IsPromotion now cohort actor s2 s' e)
    choose false cohort s2 e = inr (refl, ground arith)

    passed_on :
        (found : EnrollmentRow) (cohort : CohortRow) (s2 : Registry)
        → passing (frees_seat found cohort) cohort s2 ≡ ok (tt, s')
        → ((frees_seat found cohort ≡ true) × IsPromotion now cohort actor s2 s')
          ⊎ ((frees_seat found cohort ≡ false) × (s' ≡ s2))
    passed_on found cohort s2 e = choose (frees_seat found cohort) cohort s2 e

-- What a successful `recordResult` did.
pub record IsResult (now id : ℕ) (result : EnrollmentResult) (expected : ℕ) (actor : Actor)
    (s s' : Registry) : Type 0 where
  pub found : EnrollmentRow
  pub is_found : find_row (enrollment_is id) s.enrollments ≡ some found
  pub was_active : is_status found.status active ≡ true
  pub cohort : CohortRow
  pub in_cohort : find_row (cohort_is found.cohort_id) s.cohorts ≡ some cohort
  pub course : CourseRow
  pub of_course : find_row (course_is cohort.course_id) s.courses ≡ some course
  pub status : EnrollmentStatus
  pub decided : outcome_status (evaluate_completion (rules_of course) result) ≡ some status
  pub updating : IsUpdated id expected (with_result now result status actor) s s'

pub record_result-IsResult :
    (now id : ℕ) (result : EnrollmentResult) (expected : ℕ) (grants : List Grant) (actor : Actor)
    (s s' : Registry)
    → record_result now id result expected grants actor s ≡ ok (tt, s')
    → IsResult now id result expected actor s s'
unfolding record_result enrollment_row cohort_row assert_scope
record_result-IsResult now id result expected grants actor s s' h =
    let write = λ (status : EnrollmentStatus).
      update_enrollment id expected (with_result now result status actor)
      >> record_entry "enrollment.result_recorded" "enrollment" id in
    let rule = λ (course : CourseRow).
      or_throw (outcome_status (evaluate_completion (rules_of course) result)) result_incomplete
      >>= write in
    let state = λ (found : EnrollmentRow) (course : CourseRow).
      throw_unless (is_status found.status active) invalid_enrollment_state >> rule course in
    let scoped = λ (found : EnrollmentRow) (cohort : CohortRow) (course : CourseRow).
      assert_scope grants "results.record"
        (at_branch_and_department cohort.branch_id course.department_id)
      >> state found course in
    let of_course = λ (found : EnrollmentRow) (cohort : CohortRow) (t : Registry).
      (or_throw (find_row (course_is cohort.course_id) t.courses) cohort_not_found
          >>= scoped found cohort)
        t in
    let of_class = λ (found : EnrollmentRow) (t : Registry).
      (or_throw (find_row (cohort_is found.cohort_id) t.cohorts) cohort_not_found
          >>= of_course found)
        t in
    let (found, is_found, h1) =
      or_throw-ok (find_row (enrollment_is id) s.enrollments) enrollment_not_found of_class s h in
    let (cohort, in_cohort, h2) =
      or_throw-ok (find_row (cohort_is found.cohort_id) s.cohorts) cohort_not_found
        (of_course found) s h1 in
    let (course, is_course, h3) =
      or_throw-ok (find_row (course_is cohort.course_id) s.courses) cohort_not_found
        (scoped found cohort) s h2 in
    let (allowed, h4) =
      throw_unless-ok
        (has_permission grants "results.record"
          (at_branch_and_department cohort.branch_id course.department_id))
        permission_denied (state found course) s h3 in
    let (was_active, h5) =
      throw_unless-ok (is_status found.status active) invalid_enrollment_state (rule course) s h4 in
    let (status, decided, h6) =
      or_throw-ok (outcome_status (evaluate_completion (rules_of course) result)) result_incomplete
        write s h5 in
    record {
      found = found;
      is_found = is_found;
      was_active = was_active;
      cohort = cohort;
      in_cohort = in_cohort;
      course = course;
      of_course = is_course;
      status = status;
      decided = decided;
      updating =
          update_enrollment-IsUpdated id expected (with_result now result status actor)
            "enrollment.result_recorded" s s' h6;
    }
