-- ===== src/Classes/Closing.antt =====
-- Which status a class may take, and what must be dealt with first.
use emis.Base.{
  ℕ, ◌+◌, ◌≡◌, refl, sym, subst, ap, ◌∙◌, Bool, true, false, not, some, List, [], ◌∷◌, Result, ok,
  err, ◌>>◌, >>=-eq-ok, throw_if, throw_unless, throw_if-ok, throw_unless-ok, or_throw-ok, modify,
  arith, any, select, Distinct, find_row, if◌then◌else◌, ◌==◌, cohort_not_found, has_enrollments,
  invalid_cohort_transition, permission_denied,
}
use emis.Access.{Grant, has_permission, assert_scope}
use emis.Versioning.{update_versioned}
use emis.Versioning.Updating.{IsVersioned, IsEdit, update_versioned-stored}
use emis.Registry.{
  CohortStatus, CohortRow, SessionRow, Registry, record_entry, cohort_row, cohort_is, course_is,
  cohorts_table,
}
use emis.Billing.Invoices.{Actor}
use emis.Cohorts.{is_cancelled}
use emis.Classes.{may_become, blocks, at_course, update_cohort, drop_sessions, set_status}

cohorts_table-IsVersioned : IsVersioned cohorts_table
cohorts_table-IsVersioned = record { keeps_id = λ r. refl; raises = λ r. refl }

-- What an update of one class stores, and what it leaves alone.
update_cohort-stored :
    (id expected : ℕ) (values : CohortRow → CohortRow) (s s1 : Registry)
    → IsEdit cohorts_table values
    → Distinct cohorts_table.id s.cohorts
    → update_cohort id expected values s ≡ ok (tt, s1)
    → (before : CohortRow) × (find_row (cohort_is id) s.cohorts ≡ some before)
      × (before.version ≡ expected)
      × (find_row (cohort_is id) s1.cohorts ≡ some (cohorts_table.bump (values before)))
      × (select (λ (c : CohortRow). not (cohort_is id c)) s1.cohorts
          ≡ select (λ (c : CohortRow). not (cohort_is id c)) s.cohorts)
      × (s1.enrollments ≡ s.enrollments)
unfolding update_cohort
update_cohort-stored id expected values s s1 edit distinct h =
    let (row, rows, done, e) =
      go (update_versioned cohorts_table id expected values cohort_not_found s.cohorts) refl h in
    let (before, by_id, at, is_row, is_rows, stored, others) =
      update_versioned-stored cohorts_table cohorts_table-IsVersioned id expected values edit
        cohort_not_found s.cohorts rows row distinct done in
    let is : s1.cohorts ≡ rows = ap (λ (t : Registry). t.cohorts) e in
    (
      before,
      by_id,
      at,
      subst (λ l. find_row (cohort_is id) l ≡ some (cohorts_table.bump (values before))) (sym is)
          (stored ∙ ap some is_row),
      subst
          (λ l.
            select (λ (c : CohortRow). not (cohort_is id c)) l
            ≡ select (λ (c : CohortRow). not (cohort_is id c)) s.cohorts)
          (sym is) others,
      ap (λ (t : Registry). t.enrollments) e,
    )
  where
    after : List CohortRow → Registry
    after rows = record s { cohorts = rows }

    answer : Result (CohortRow × List CohortRow) → Result (Unit {0} × Registry)
    answer x = elim x [ ok (row, rows) ↦ ok (tt, after rows) | err e ↦ err e ]

    go :
        (x : Result (CohortRow × List CohortRow))
        → update_versioned cohorts_table id expected values cohort_not_found s.cohorts ≡ x
        → answer x ≡ ok (tt, s1)
        → (row : CohortRow) × (rows : List CohortRow) × (update_versioned cohorts_table id expected
              values cohort_not_found s.cohorts
            ≡ ok (row, rows))
          × (s1 ≡ after rows)
    go (ok (row, rows)) e h' = (row, rows, e, ground arith)
    go (err x) e h' = absurd (ground arith)

none_left :
    (id : ℕ) (l : List SessionRow)
    → any
        (λ (d : SessionRow). d.cohort_id == id)
        (select (λ (d : SessionRow). not (d.cohort_id == id)) l)
      ≡ false
none_left id [] = refl
none_left id (d ∷ l) = ground (arith, none_left id l)

-- A change of a class's status that goes through, where ids of classes are distinct: the class was there
-- at the expected version, and COHORT_TRANSITIONS lists the change; afterwards the class is stored with
-- the new status, who changed it and the next version, and is else what it was. No other class and no
-- enrollment has changed. No student is in the way of the new status (nobody enrolled in a finished
-- class, nobody enrolled or waiting in a cancelled one), and a cancelled class has no sessions.
pub set_status_lem :
    (id : ℕ) (to : CohortStatus) (expected : ℕ) (grants : List Grant) (actor : Actor)
    (s s' : Registry)
    → Distinct cohorts_table.id s.cohorts
    → set_status id to expected grants actor s ≡ ok (tt, s')
    → (before : CohortRow) × (find_row (cohort_is id) s.cohorts ≡ some before)
      × (before.version ≡ expected)
      × (may_become before.status to ≡ true)
      × (find_row (cohort_is id) s'.cohorts
          ≡ some (record before {
            status = to;
            updated_by = actor.user_id;
            version = before.version + 1;
          }))
      × (select (λ (c : CohortRow). not (cohort_is id c)) s'.cohorts
          ≡ select (λ (c : CohortRow). not (cohort_is id c)) s.cohorts)
      × (s'.enrollments ≡ s.enrollments)
      × (any (blocks id to) s'.enrollments ≡ false)
      × ((if is_cancelled to
            then any (λ (d : SessionRow). d.cohort_id == id) s'.sessions
            else false)
          ≡ false)
unfolding set_status cohort_row assert_scope
set_status_lem id to expected grants actor s s' distinct h =
    let values = λ (r : CohortRow).
      let q : CohortRow = record r { status = to; updated_by = actor.user_id } in q in
    let write = update_cohort id expected values in
    let log = record_entry "cohort.status_changed" "cohort" id in
    let finish = modify (drop_sessions id to) >> log in
    let last = λ (t : Registry).
      (throw_if (any (blocks id to) t.enrollments) has_enrollments >> (write >> finish)) t in
    let check = λ (before : CohortRow).
      throw_unless (may_become before.status to) invalid_cohort_transition >> last in
    let scoped = λ (before : CohortRow) (t : Registry).
      (assert_scope grants "cohorts.manage"
            (at_course before.branch_id (find_row (course_is before.course_id) t.courses))
          >> check before)
        t in
    let (before, found, h1) =
      or_throw-ok (find_row (cohort_is id) s.cohorts) cohort_not_found scoped s h in
    let (allowed, h2) =
      throw_unless-ok
        (has_permission grants "cohorts.manage"
          (at_course before.branch_id (find_row (course_is before.course_id) s.courses)))
        permission_denied (check before) s h1 in
    let (listed, h3) =
      throw_unless-ok (may_become before.status to) invalid_cohort_transition last s h2 in
    let (free, h4) =
      throw_if-ok (any (blocks id to) s.enrollments) has_enrollments (write >> finish) s h3 in
    let (u, s1, h5, h6) = >>=-eq-ok write (λ _. finish) s h4 in
    let (before', found', at, stored, others, same) =
      update_cohort-stored id expected values s s1
        (record { keeps_id = λ r. refl; keeps_version = λ r. refl }) distinct h5 in
    let (enrollments, cohorts, none_held) = dropped (is_cancelled to) s1 h6 in
    (
      before',
      found',
      at,
      listed_as before before' found found' listed,
      subst (λ cs. find_row (cohort_is id) cs ≡ some (cohorts_table.bump (values before')))
          (sym cohorts) stored,
      subst
          (λ cs.
            select (λ (c : CohortRow). not (cohort_is id c)) cs
            ≡ select (λ (c : CohortRow). not (cohort_is id c)) s.cohorts)
          (sym cohorts) others,
      enrollments ∙ same,
      subst (λ es. any (blocks id to) es ≡ false) (sym (enrollments ∙ same)) free,
      none_held,
    )
  where
    left : Bool → Registry → Registry
    left b t =
        if b
        then record t { sessions = select (λ (d : SessionRow). not (d.cohort_id == id)) t.sessions }
        else t

    listed_as :
        (b b' : CohortRow)
        → find_row (cohort_is id) s.cohorts ≡ some b
        → find_row (cohort_is id) s.cohorts ≡ some b'
        → may_become b.status to ≡ true
        → may_become b'.status to ≡ true
    listed_as b b' f f' l =
        let one : b ≡ b' = ground arith in subst (λ c. may_become c.status to ≡ true) one l

    dropped :
        (b : Bool) (t : Registry)
        → record_entry "cohort.status_changed" "cohort" id (left b t) ≡ ok (tt, s')
        → (s'.enrollments ≡ t.enrollments)
          × (s'.cohorts ≡ t.cohorts)
          × ((if b then any (λ (d : SessionRow). d.cohort_id == id) s'.sessions else false) ≡ false)
    dropped true t e =
        let kept : s'.sessions ≡ select (λ (d : SessionRow). not (d.cohort_id == id)) t.sessions =
          ground arith in
        (
          ground arith,
          ground arith,
          ap (any (λ (d : SessionRow). d.cohort_id == id)) kept ∙ none_left id t.sessions,
        )
    dropped false t e = (ground arith, ground arith, refl)
