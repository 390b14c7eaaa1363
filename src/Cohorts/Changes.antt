-- ===== src/Cohorts/Changes.antt =====
-- What each operation on a class's enrollments did, once it went through.
use emis.Base.{
  ℕ, String, ◌+◌, ◌≡◌, subst, ap, ◌∙◌, Bool, true, false, some, List, [], ◌∷◌, ◌++◌, Result, ok,
  err, ◌>>=◌, ◌>>◌, >>=-eq-ok, throw_if, throw_unless, or_throw, throw_if-ok, throw_unless-ok,
  or_throw-ok, arith, any, find_row, update_where, inl, inr, ltb, if◌then◌else◌, cohort_not_found,
  enrollment_not_found, not_enrolling, already_enrolled, student_not_active, permission_denied,
  check_violation, student_not_found,
}
use emis.Access.{Grant, at_branch, has_permission, assert_scope}
use emis.Versioning.{matches, update_versioned, update_versioned_cases}
use emis.Registry.{
  EnrollmentRow, CohortRow, StudentRow, Registry, record_entry, cohort_row, student_row, cohort_is,
  student_is, course_is, enrollments_table,
}
use emis.Billing.Invoices.{Actor}
use emis.Admissions.{mark_enrolled}
use emis.Cohorts.{
  active_count, seats_of, is_enrolling, live_in, assert_prerequisites, new_enrollment, take_place,
  enroll, enrollment_checks, update_enrollment,
}

-- The classes, the rooms and the enrollments are what seats depend on.
pub record Keeps (rows : List EnrollmentRow) (s s' : Registry) : Type 0 where
  pub enrollments : s'.enrollments ≡ rows
  pub cohorts : s'.cohorts ≡ s.cohorts
  pub rooms : s'.rooms ≡ s.rooms

take_place-Keeps :
    (new_id now student_id : ℕ) (cohort : CohortRow) (has_seat : Bool) (actor : Actor)
    (s s' : Registry)
    → take_place new_id now student_id cohort has_seat actor s ≡ ok (tt, s')
    → Keeps (s.enrollments ++ new_enrollment new_id now student_id cohort has_seat actor ∷ []) s s'
unfolding take_place mark_enrolled
take_place-Keeps new_id now student_id cohort true actor s s' h = record {
  enrollments = ground arith;
  cohorts = ground arith;
  rooms = ground arith;
}
take_place-Keeps new_id now student_id cohort false actor s s' h = record {
  enrollments = ground arith;
  cohorts = ground arith;
  rooms = ground arith;
}

-- What a successful `enroll` did.
pub record IsEnrolled (new_id now student_id cohort_id : ℕ) (actor : Actor) (s s' : Registry)
    : Type 0 where
  pub cohort : CohortRow
  pub found : find_row (cohort_is cohort_id) s.cohorts ≡ some cohort
  pub enrolling : is_enrolling cohort.status ≡ true
  pub fresh : any (live_in student_id cohort_id) s.enrollments ≡ false
  pub result :
      Keeps
        (s.enrollments
          ++ new_enrollment new_id now student_id cohort
              (ltb (active_count cohort.id s.enrollments) (seats_of cohort s.rooms))
              actor
            ∷ [])
        s
        s'

assert_prerequisites-same :
    (student_id course_id : ℕ) (s s1 : Registry)
    → assert_prerequisites student_id course_id s ≡ ok (tt, s1)
    → s1 ≡ s
unfolding assert_prerequisites
assert_prerequisites-same student_id course_id s s1 h =
    let (course, found, h1) = or_throw-ok (find_row (course_is course_id) s.courses) _ _ s h in
    ground arith

pub enroll-IsEnrolled :
    (new_id now student_id cohort_id : ℕ) (grants : List Grant) (actor : Actor) (s s' : Registry)
    → enroll new_id now student_id cohort_id grants actor s ≡ ok (tt, s')
    → IsEnrolled new_id now student_id cohort_id actor s s'
unfolding enroll cohort_row student_row assert_scope
enroll-IsEnrolled new_id now student_id cohort_id grants actor s s' h =
    let seat = λ (cohort : CohortRow) (t : Registry).
      take_place new_id now student_id cohort
        (ltb (active_count cohort.id t.enrollments) (seats_of cohort t.rooms)) actor t in
    let ready =
      λ (cohort : CohortRow). assert_prerequisites student_id cohort.course_id >> seat cohort in
    let once = λ (cohort : CohortRow) (t : Registry).
      (throw_if (any (live_in student_id cohort_id) t.enrollments) already_enrolled >> ready cohort)
        t in
    let here = λ (cohort : CohortRow) (student : StudentRow).
      throw_unless student.is_active student_not_active >> once cohort in
    let known = λ (cohort : CohortRow) (t : Registry).
      (or_throw (find_row (student_is student_id) t.students) student_not_found >>= here cohort)
        t in
    let takes = λ (cohort : CohortRow).
      throw_unless (is_enrolling cohort.status) not_enrolling >> known cohort in
    let scoped = λ (cohort : CohortRow).
      assert_scope grants "enrollments.manage" (at_branch cohort.branch_id) >> takes cohort in
    let (cohort, found, h1) =
      or_throw-ok (find_row (cohort_is cohort_id) s.cohorts) cohort_not_found scoped s h in
    let (allowed, h2) =
      throw_unless-ok (has_permission grants "enrollments.manage" (at_branch cohort.branch_id))
        permission_denied (takes cohort) s h1 in
    let (enrolling, h3) =
      throw_unless-ok (is_enrolling cohort.status) not_enrolling (known cohort) s h2 in
    let (student, is_student, h4) =
      or_throw-ok (find_row (student_is student_id) s.students) student_not_found (here cohort) s
        h3 in
    let (is_active, h5) = throw_unless-ok student.is_active student_not_active (once cohort) s h4 in
    let (fresh, h6) =
      throw_if-ok (any (live_in student_id cohort_id) s.enrollments) already_enrolled (ready cohort)
        s h5 in
    let (u, s1, h7, h8) =
      >>=-eq-ok (assert_prerequisites student_id cohort.course_id) (λ _. seat cohort) s h6 in
    let same = assert_prerequisites-same student_id cohort.course_id s s1 h7 in
    record {
      cohort = cohort;
      found = found;
      enrolling = enrolling;
      fresh = fresh;
      result =
          take_place-Keeps new_id now student_id cohort _ actor s s'
            (subst (λ t. seat cohort t ≡ ok (tt, s')) same h8);
    }

abbrev pub later : EnrollmentRow → EnrollmentRow
later e = record e { version = e.version + 1 }

-- The enrollments after a versioned update of one.
abbrev pub written_rows :
    ℕ → ℕ → (EnrollmentRow → EnrollmentRow) → List EnrollmentRow → List EnrollmentRow
written_rows id expected values =
    update_where (matches enrollments_table id expected) (λ e. later (values e))

pub record IsUpdated (id expected : ℕ) (values : EnrollmentRow → EnrollmentRow) (s s' : Registry)
    : Type 0 where
  pub before : EnrollmentRow
  pub found : find_row (matches enrollments_table id expected) s.enrollments ≡ some before
  pub result : Keeps (written_rows id expected values s.enrollments) s s'

pub update_enrollment-IsUpdated :
    (id expected : ℕ) (values : EnrollmentRow → EnrollmentRow) (action : String) (s s' : Registry)
    → (update_enrollment id expected values >> record_entry action "enrollment" id) s ≡ ok (tt, s')
    → IsUpdated id expected values s s'
unfolding update_enrollment
update_enrollment-IsUpdated id expected values action s s' h =
    let (u, s1, h1, h2) =
      >>=-eq-ok (update_enrollment id expected values) (λ _. record_entry action "enrollment" id) s
        h in
    elim (update_versioned_cases enrollments_table id expected values enrollment_not_found
      s.enrollments) [
        | inl (before, found, done) ↦
            let kept =
              go
                (update_versioned enrollments_table id expected values enrollment_not_found
                  s.enrollments)
                _ _ done s1 h1 in
            record {
              before = before;
              found = found;
              result = record {
                enrollments = ground arith;
                cohorts = ground arith;
                rooms = ground arith;
              };
            }
        | inr (inl (other, found, differs, failed)) ↦ absurd (ground arith)
        | inr (inr (gap, failed)) ↦ absurd (ground arith)
      ]
  where
    after : List EnrollmentRow → Registry
    after rows = record s { enrollments = rows }

    stored : Bool → List EnrollmentRow → Result (Unit {0} × Registry)
    stored b rows = if b then ok (tt, after rows) else err check_violation

    answer : Result (EnrollmentRow × List EnrollmentRow) → Result (Unit {0} × Registry)
    answer x = elim x [ ok (row, rows) ↦ stored (enrollment_checks row) rows | err e ↦ err e ]

    checked :
        (b : Bool) (rows : List EnrollmentRow) (s1 : Registry)
        → stored b rows ≡ ok (tt, s1)
        → s1 ≡ after rows
    checked true rows s1 h' = ground arith
    checked false rows s1 h' = absurd (ground arith)

    go :
        (x : Result (EnrollmentRow × List EnrollmentRow)) (row : EnrollmentRow)
        (rows : List EnrollmentRow)
        → x ≡ ok (row, rows)
        → (s1 : Registry) → answer x ≡ ok (tt, s1)
        → s1 ≡ after rows
    go (ok (row', rows')) row rows e s1 h' =
        let same : rows' ≡ rows = ground arith in
        checked (enrollment_checks row') rows' s1 h' ∙ ap after same
    go (err x) row rows e s1 h' = absurd (ground arith)
