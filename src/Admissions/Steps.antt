-- ===== src/Admissions/Steps.antt =====
-- What each operation on an application did, once it went through.
use emis.Base.{
  ℕ, String, ◌+◌, ◌≡◌, ap, ◌∙◌, Bool, true, false, not, ◌&&◌, Option, some, List, Result, ok, err,
  Tx, ◌>>=◌, ◌>>◌, >>=-eq-ok, throw_if, throw_unless, or_throw, throw_if-ok, throw_unless-ok,
  or_throw-ok, arith, find_row, update_where, inl, inr, is_some, application_not_found,
  invalid_transition, placement_not_allowed, placement_disabled, reference_not_found,
  already_converted, not_ready_to_convert, permission_denied,
}
use emis.Access.{Grant, at_branch, at_branch_and_department, has_permission, assert_scope}
use emis.Versioning.{matches, update_versioned, update_versioned_cases}
use emis.Registry.{
  ApplicationStatus, placed, confirmed, placement_scheduled, offered, ApplicationRow, CourseRow,
  Registry, record_entry, application_row, application_is, applications_table,
}
use emis.Billing.Invoices.{Actor}
use emis.Admissions.{
  same_status, can_transition, can_place, update_application, transition, PlacementValues,
  active_course, record_placement, student_for, convert,
}

abbrev pub next_version : ApplicationRow → ApplicationRow
next_version r = record r { version = r.version + 1 }

-- The applications after a versioned update of one.
abbrev pub written_rows :
    ℕ → ℕ → (ApplicationRow → ApplicationRow) → List ApplicationRow → List ApplicationRow
written_rows id expected values =
    update_where (matches applications_table id expected) (λ r. next_version (values r))

pub update_application-ok :
    (id expected : ℕ) (values : ApplicationRow → ApplicationRow) (s s' : Registry)
    → update_application id expected values s ≡ ok (tt, s')
    → s' ≡ record s { applications = written_rows id expected values s.applications }
unfolding update_application
update_application-ok id expected values s s' h =
    elim (update_versioned_cases applications_table id expected values application_not_found
      s.applications) [
        | inl (before, found, done) ↦
            go
              (update_versioned applications_table id expected values application_not_found
                s.applications)
              _ _ done h
        | inr (inl (other, found, differs, failed)) ↦ absurd (ground arith)
        | inr (inr (gap, failed)) ↦ absurd (ground arith)
      ]
  where
    after : List ApplicationRow → Registry
    after rows = record s { applications = rows }

    answer : Result (ApplicationRow × List ApplicationRow) → Result (Unit {0} × Registry)
    answer x = elim x [ ok (row, rows) ↦ ok (tt, after rows) | err e ↦ err e ]

    go :
        (x : Result (ApplicationRow × List ApplicationRow)) (row : ApplicationRow)
        (rows : List ApplicationRow)
        → x ≡ ok (row, rows)
        → answer x ≡ ok (tt, s')
        → s' ≡ after rows
    go (ok (row', rows')) row rows e h' =
        let same : rows' ≡ rows = ground arith in
        let stored : s' ≡ after rows' = ground arith in stored ∙ ap after same
    go (err x) row rows e h' = absurd (ground arith)

-- An update and its audit entry.
pub update_and_log-ok :
    (id expected : ℕ) (values : ApplicationRow → ApplicationRow) (action : String) (s s' : Registry)
    → (update_application id expected values >> record_entry action "application" id) s
      ≡ ok (tt, s')
    → s'.applications ≡ written_rows id expected values s.applications
update_and_log-ok id expected values action s s' h =
    let (u, s1, h1, h2) =
      >>=-eq-ok (update_application id expected values) (λ _. record_entry action "application" id)
        s h in
    let e = update_application-ok id expected values s s1 h1 in
    let logged : s'.applications ≡ s1.applications = ground arith in
    logged ∙ ap (λ (t : Registry). t.applications) e

abbrev pub with_status : ApplicationStatus → Actor → ApplicationRow → ApplicationRow
with_status to actor r = record r { status = to; updated_by = some actor.user_id }

pub record IsTransition (id : ℕ) (to : ApplicationStatus) (expected : ℕ) (actor : Actor)
    (s s' : Registry) : Type 0 where
  pub before : ApplicationRow
  pub found : find_row (application_is id) s.applications ≡ some before
  pub listed : can_transition before.status to ≡ true
  pub result : s'.applications ≡ written_rows id expected (with_status to actor) s.applications

pub transition-IsTransition :
    (on : Bool) (id : ℕ) (to : ApplicationStatus) (expected : ℕ) (grants : List Grant)
    (actor : Actor) (s s' : Registry)
    → transition on id to expected grants actor s ≡ ok (tt, s')
    → IsTransition id to expected actor s s'
unfolding transition application_row assert_scope
transition-IsTransition on id to expected grants actor s s' h =
    let last =
      update_application id expected (with_status to actor)
      >> record_entry "application.status_changed" "application" id in
    let switch =
      throw_if (same_status to placement_scheduled && not on) placement_disabled >> last in
    let check = λ (before : ApplicationRow).
      throw_unless (can_transition before.status to) invalid_transition >> switch in
    let scoped = λ (before : ApplicationRow).
      assert_scope grants "admissions.manage" (at_branch before.branch_id) >> check before in
    let (before, found, h1) =
      or_throw-ok (find_row (application_is id) s.applications) application_not_found scoped s h in
    let (allowed, h2) =
      throw_unless-ok (has_permission grants "admissions.manage" (at_branch before.branch_id))
        permission_denied (check before) s h1 in
    let (listed, h3) =
      throw_unless-ok (can_transition before.status to) invalid_transition switch s h2 in
    let (enabled, h4) =
      throw_if-ok (same_status to placement_scheduled && not on) placement_disabled last s h3 in
    record {
      before = before;
      found = found;
      listed = listed;
      result =
          update_and_log-ok id expected (with_status to actor) "application.status_changed" s s' h4;
    }

abbrev pub with_placement : ℕ → PlacementValues → Actor → ApplicationRow → ApplicationRow
with_placement now input actor r = record r {
  status = placed;
  placement_score = some input.score;
  placement_course_id = some input.recommended_course_id;
  placed_at = some now;
  updated_by = some actor.user_id;
}

pub record IsPlacement (now id : ℕ) (input : PlacementValues) (expected : ℕ) (actor : Actor)
    (s s' : Registry) : Type 0 where
  pub before : ApplicationRow
  pub found : find_row (application_is id) s.applications ≡ some before
  pub placeable : can_place before.status ≡ true
  pub result :
      s'.applications ≡ written_rows id expected (with_placement now input actor) s.applications

pub record_placement-IsPlacement :
    (on : Bool) (now id : ℕ) (input : PlacementValues) (expected : ℕ) (grants : List Grant)
    (actor : Actor) (s s' : Registry)
    → record_placement on now id input expected grants actor s ≡ ok (tt, s')
    → IsPlacement now id input expected actor s s'
unfolding record_placement application_row assert_scope
record_placement-IsPlacement on now id input expected grants actor s s' h =
    let last =
      update_application id expected (with_placement now input actor)
      >> record_entry "application.placed" "application" id in
    let scoped = λ (before : ApplicationRow) (target : CourseRow).
      assert_scope grants "placement.record"
        (at_branch_and_department before.branch_id target.department_id)
      >> last in
    let course = λ (before : ApplicationRow) (t : Registry).
      (or_throw (active_course input.recommended_course_id t.courses) reference_not_found
          >>= scoped before)
        t in
    let check = λ (before : ApplicationRow).
      throw_unless (can_place before.status) placement_not_allowed >> course before in
    let enabled = λ (before : ApplicationRow). throw_unless on placement_disabled >> check before in
    let (before, found, h1) =
      or_throw-ok (find_row (application_is id) s.applications) application_not_found enabled s h in
    let (is_on, h2) = throw_unless-ok on placement_disabled (check before) s h1 in
    let (placeable, h3) =
      throw_unless-ok (can_place before.status) placement_not_allowed (course before) s h2 in
    let (target, is_target, h4) =
      or_throw-ok (active_course input.recommended_course_id s.courses) reference_not_found
        (scoped before) s h3 in
    let (allowed, h5) =
      throw_unless-ok
        (has_permission grants "placement.record"
          (at_branch_and_department before.branch_id target.department_id))
        permission_denied last s h4 in
    record {
      before = before;
      found = found;
      placeable = placeable;
      result =
          update_and_log-ok id expected (with_placement now input actor) "application.placed" s s'
            h5;
    }

abbrev pub with_student : ℕ → Actor → ApplicationRow → ApplicationRow
with_student student_id actor r = record r {
  status = confirmed;
  student_id = some student_id;
  updated_by = some actor.user_id;
}

pub record IsConversion (create : ApplicationRow → Tx Registry ℕ) (id : ℕ) (existing : Option ℕ)
    (expected : ℕ) (actor : Actor) (s s' : Registry) : Type 0 where
  pub before : ApplicationRow
  pub found : find_row (application_is id) s.applications ≡ some before
  pub unconverted : is_some before.student_id ≡ false
  pub ready : same_status before.status offered ≡ true
  pub student_id : ℕ
  pub registered : Registry
  pub registering : student_for create existing before s ≡ ok (student_id, registered)
  pub result :
      s'.applications
      ≡ written_rows id expected (with_student student_id actor) registered.applications

pub convert-IsConversion :
    (create : ApplicationRow → Tx Registry ℕ) (id : ℕ) (existing : Option ℕ) (expected : ℕ)
    (grants : List Grant) (actor : Actor) (s s' : Registry)
    → convert create id existing expected grants actor s ≡ ok (tt, s')
    → IsConversion create id existing expected actor s s'
unfolding convert application_row assert_scope
convert-IsConversion create id existing expected grants actor s s' h =
    let last = λ (student_id : ℕ).
      update_application id expected (with_student student_id actor)
      >> record_entry "application.converted" "application" id in
    let register = λ (before : ApplicationRow). student_for create existing before >>= last in
    let check = λ (before : ApplicationRow).
      throw_unless (same_status before.status offered) not_ready_to_convert >> register before in
    let fresh = λ (before : ApplicationRow).
      throw_if (is_some before.student_id) already_converted >> check before in
    let scoped = λ (before : ApplicationRow).
      assert_scope grants "admissions.manage" (at_branch before.branch_id) >> fresh before in
    let (before, found, h1) =
      or_throw-ok (find_row (application_is id) s.applications) application_not_found scoped s h in
    let (allowed, h2) =
      throw_unless-ok (has_permission grants "admissions.manage" (at_branch before.branch_id))
        permission_denied (fresh before) s h1 in
    let (unconverted, h3) =
      throw_if-ok (is_some before.student_id) already_converted (check before) s h2 in
    let (ready, h4) =
      throw_unless-ok (same_status before.status offered) not_ready_to_convert (register before) s
        h3 in
    let (student_id, registered, h5, h6) =
      >>=-eq-ok (student_for create existing before) last s h4 in
    record {
      before = before;
      found = found;
      unconverted = unconverted;
      ready = ready;
      student_id = student_id;
      registered = registered;
      registering = h5;
      result =
          update_and_log-ok id expected (with_student student_id actor) "application.converted"
            registered s' h6;
    }
