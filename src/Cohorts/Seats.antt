-- ===== src/Cohorts/Seats.antt =====
-- A class never has more students than seats.
use emis.Base.{
  ℕ, String, ◌+◌, ◌≤◌, ◌<◌, ◌≡◌, refl, sym, subst, ap, ◌∙◌, Bool, true, false, ◌&&◌, some, List, [],
  ◌∷◌, ◌++◌, ok, arith, find_row, find_row-holds, inl, inr, ltb, ◌==◌, Bool-cases, All-imp, All-zip,
  Distinct-find_row, Distinct-snoc, Distinct-update_where, Lacks, ==_iff,
}
use emis.Access.{Grant}
use emis.Versioning.{matches}
use emis.Registry.{
  EnrollmentStatus, active, EnrollmentRow, CohortRow, Registry, cohort_is, enrollments_table,
}
use emis.Billing.Invoices.{Actor}
use emis.Cohorts.{
  is_status, holds_seat, active_count, seats_of, new_enrollment, enroll, withdraw, record_result,
  left_for, with_result, promoted, outcome_status, rules_of,
}
use emis.Completion.{
  EnrollmentResult, evaluate_completion, CompletionOutcome, incomplete, passed, failing,
}
use emis.Cohorts.Changes.{enroll-IsEnrolled, IsUpdated, written_rows, later}
use emis.Cohorts.Leaving.{
  IsPromotion, full, nobody, seated, promoted_rows, withdraw-IsWithdrawn, record_result-IsResult,
}
use emis.Cohorts.Counts.{
  enrollment_id, IsSeated, one_if, active_count-append, active_count-written, active_count-promoted,
  IsSeated-Keeps,
}

-- Enrolling with a new id never takes more than the class's seats: where no class had more students
-- than seats, none has after it.
pub enroll-IsSeated :
    (new_id now student_id cohort_id : ℕ) (grants : List Grant) (actor : Actor) (s s' : Registry)
    → IsSeated s
    → Lacks enrollment_id new_id s.enrollments
    → enroll new_id now student_id cohort_id grants actor s ≡ ok (tt, s')
    → IsSeated s'
enroll-IsSeated new_id now student_id cohort_id grants actor s s' sound fresh h =
    let w = enroll-IsEnrolled new_id now student_id cohort_id grants actor s s' h in
    let has_seat = ltb (active_count w.cohort.id s.enrollments) (seats_of w.cohort s.rooms) in
    let new = new_enrollment new_id now student_id w.cohort has_seat actor in
    let same_id : w.cohort.id ≡ cohort_id =
      (==_iff w.cohort.id cohort_id).0 (find_row-holds (cohort_is cohort_id) s.cohorts w.found) in
    let room =
      Distinct-find_row (λ (c : CohortRow). c.id)
        (λ c. has_seat ≡ true → active_count w.cohort.id s.enrollments < seats_of c s.rooms)
        cohort_id s.cohorts sound.classes w.found (λ t. ground arith) in
    IsSeated-Keeps (s.enrollments ++ new ∷ []) s s' w.result sound.classes
      (Distinct-snoc enrollment_id s.enrollments new sound.places fresh)
      (All-zip
        (λ c f r.
          step has_seat w.cohort.id c.id (active_count c.id s.enrollments)
            (active_count c.id (s.enrollments ++ new ∷ [])) (seats_of c s.rooms) f
            (λ t e.
              subst (λ (k : ℕ). active_count k s.enrollments < seats_of c s.rooms) e
                (r (ground arith) t))
            (active_count-append c.id s.enrollments new
              ∙ ap (λ b. active_count c.id s.enrollments + one_if b) (held has_seat w.cohort c.id)))
        s.cohorts sound.fits room)
  where
    held :
        (b : Bool) (cohort : CohortRow) (k : ℕ)
        → holds_seat k (new_enrollment new_id now student_id cohort b actor) ≡ (cohort.id == k && b)
    held true cohort k = ground arith
    held false cohort k = ground arith

    step :
        (b : Bool) (i k n m seats : ℕ)
        → n ≤ seats
        → (b ≡ true → i ≡ k → n < seats)
        → m ≡ n + one_if (i == k && b)
        → m ≤ seats
    step true i k n m seats f r e = elim (Bool-cases (i == k)) [
      | inl t ↦ let more = r refl (ground arith) in ground arith
      | inr t ↦ ground arith
    ]
    step false i k n m seats f r e = ground arith

outcome_status-closed :
    (o : CompletionOutcome) (status : EnrollmentStatus)
    → outcome_status o ≡ some status
    → is_status status active ≡ false
outcome_status-closed (incomplete missing) status h = cc
outcome_status-closed passed status h = ground arith
outcome_status-closed (failing reasons) status h = ground arith

fewer :
    (b c : Bool) (n m seats : ℕ) → n ≤ seats → c ≡ false → m + one_if b ≡ n + one_if c → m ≤ seats
fewer true c n m seats f e h = ground arith
fewer false c n m seats f e h = ground arith

-- A result leaves the seats sound.
pub record_result-IsSeated :
    (now id : ℕ) (result : EnrollmentResult) (expected : ℕ) (grants : List Grant) (actor : Actor)
    (s s' : Registry)
    → IsSeated s
    → record_result now id result expected grants actor s ≡ ok (tt, s')
    → IsSeated s'
record_result-IsSeated now id result expected grants actor s s' sound h =
    let w = record_result-IsResult now id result expected grants actor s s' h in
    let values = with_result now result w.status actor in
    let rows = written_rows id expected values s.enrollments in
    IsSeated-Keeps rows s s' w.updating.result sound.classes
      (Distinct-update_where enrollment_id (matches enrollments_table id expected)
        (λ e. later (values e)) (λ e. refl) s.enrollments sound.places)
      (All-imp
        (λ c f.
          fewer (holds_seat c.id w.updating.before)
            (holds_seat c.id (later (values w.updating.before))) _ _ _ f
            (let closed =
                outcome_status-closed (evaluate_completion (rules_of w.course) result) w.status
                  w.decided in
              ground arith)
            (active_count-written c.id id expected values s.enrollments sound.places
              w.updating.found))
        s.cohorts sound.fits)

-- Where the seats were sound they still are after a withdrawal with its promotion.
pub left-IsSeated :
    (now id : ℕ) (reason_code : String) (expected : ℕ) (actor : Actor) (s left : Registry)
    → IsSeated s
    → IsUpdated id expected (left_for now reason_code actor) s left
    → IsSeated left
left-IsSeated now id reason_code expected actor s left sound w =
    let values = left_for now reason_code actor in
    IsSeated-Keeps (written_rows id expected values s.enrollments) s left w.result sound.classes
      (Distinct-update_where enrollment_id (matches enrollments_table id expected)
        (λ e. later (values e)) (λ e. refl) s.enrollments sound.places)
      (All-imp
        (λ c f.
          fewer (holds_seat c.id w.before) (holds_seat c.id (later (values w.before))) _ _ _ f
            (ground arith)
            (active_count-written c.id id expected values s.enrollments sound.places w.found))
        s.cohorts sound.fits)

-- A promotion takes one seat, where there was one.
promoted-IsSeated :
    (now cohort_id : ℕ) (cohort : CohortRow) (actor : Actor) (s s' : Registry)
    → IsSeated s
    → find_row (cohort_is cohort_id) s.cohorts ≡ some cohort
    → IsPromotion now cohort actor s s'
    → IsSeated s'
promoted-IsSeated now cohort_id cohort actor s s' sound found (full e same) =
    subst IsSeated (sym same) sound
promoted-IsSeated now cohort_id cohort actor s s' sound found (nobody e same) =
    subst IsSeated (sym same) sound
promoted-IsSeated now cohort_id cohort actor s s' sound found (seated next free is_next kept) =
    let same_id : cohort.id ≡ cohort_id =
      (==_iff cohort.id cohort_id).0 (find_row-holds (cohort_is cohort_id) s.cohorts found) in
    let room =
      Distinct-find_row (λ (c : CohortRow). c.id)
        (λ c. active_count cohort.id s.enrollments < seats_of c s.rooms) cohort_id s.cohorts
        sound.classes found (ground arith) in
    IsSeated-Keeps (promoted_rows now actor next s.enrollments) s s' kept sound.classes
      (Distinct-update_where enrollment_id (λ (e : EnrollmentRow). e.id == next.id)
        (promoted now actor (next.version + 1)) (λ e. refl) s.enrollments sound.places)
      (All-zip
        (λ c f r.
          step cohort.id c.id _ _ _ f
            (λ e.
              subst (λ (k : ℕ). active_count k s.enrollments < seats_of c s.rooms) e
                (r (ground arith)))
            (active_count-promoted c.id cohort.id now actor s.enrollments sound.places is_next))
        s.cohorts sound.fits room)
  where
    step :
        (i k n m seats : ℕ) → n ≤ seats → (i ≡ k → n < seats) → m ≡ n + one_if (i == k) → m ≤ seats
    step i k n m seats f r e = elim (Bool-cases (i == k)) [
      | inl t ↦ let more = r (ground arith) in ground arith
      | inr t ↦ ground arith
    ]

-- A withdrawal, with the promotion that may follow it, never leaves a class with more students than
-- seats.
pub withdraw-IsSeated :
    (is_reason : String → Bool) (now id : ℕ) (reason_code : String) (expected : ℕ)
    (grants : List Grant) (actor : Actor) (s s' : Registry)
    → IsSeated s
    → withdraw is_reason now id reason_code expected grants actor s ≡ ok (tt, s')
    → IsSeated s'
withdraw-IsSeated is_reason now id reason_code expected grants actor s s' sound h =
    let w = withdraw-IsWithdrawn is_reason now id reason_code expected grants actor s s' h in
    let left = left-IsSeated now id reason_code expected actor s w.left sound w.leaving in
    elim w.passing_on [
      | inl (frees, promotion) ↦
          promoted-IsSeated now w.found.cohort_id w.cohort actor w.left s' left
            (ap (find_row (cohort_is w.found.cohort_id)) w.leaving.result.cohorts ∙ w.in_cohort)
            promotion
      | inr (keeps, same) ↦ subst IsSeated (sym same) left
    ]
