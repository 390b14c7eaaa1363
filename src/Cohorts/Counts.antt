-- ===== src/Cohorts/Counts.antt =====
-- Students and seats, and what each change of the enrollments does to their number.
use emis.Base.{
  ℕ, ◌+◌, ◌≤◌, ◌≡◌, refl, sym, subst, ap, ◌∙◌, Bool, true, false, some, List, [], ◌∷◌, ◌++◌, arith,
  find_row, length, length-append, select, select-append, if◌then◌else◌, ◌==◌, All, Distinct,
  Distinct-found, count-update_where,
}
use emis.Versioning.{matches}
use emis.Registry.{EnrollmentRow, CohortRow, RoomRow, Registry, enrollments_table}
use emis.Billing.Invoices.{Actor}
use emis.Cohorts.{holds_seat, active_count, seats_of, next_waiting, promoted}
use emis.Cohorts.Waiting.{next_waiting-All, next_waiting-waits}
use emis.Cohorts.Changes.{Keeps, written_rows, later}
use emis.Cohorts.Leaving.{promoted_rows}

abbrev pub enrollment_id : EnrollmentRow → ℕ
enrollment_id e = e.id

-- The class has no more students than seats.
abbrev pub Fits : List EnrollmentRow → List RoomRow → CohortRow → Type 0
Fits enrollments rooms c = active_count c.id enrollments ≤ seats_of c rooms

-- Ids are not repeated, and no class has more students than seats.
pub record IsSeated (s : Registry) : Type 0 where
  pub classes : Distinct (λ (c : CohortRow). c.id) s.cohorts
  pub places : Distinct enrollment_id s.enrollments
  pub fits : All (Fits s.enrollments s.rooms) s.cohorts

abbrev pub one_if : Bool → ℕ
one_if b = if b then 1 else 0

-- One more enrollment counts where it holds a seat.
pub active_count-append :
    (k : ℕ) (es : List EnrollmentRow) (e : EnrollmentRow)
    → active_count k (es ++ e ∷ []) ≡ active_count k es + one_if (holds_seat k e)
active_count-append k es e =
    ap length (select-append (holds_seat k) es (e ∷ []))
    ∙ (length-append (select (holds_seat k) es) (select (holds_seat k) (e ∷ []))
        ∙ single (holds_seat k e))
  where
    single :
        (b : Bool)
        → length (select (holds_seat k) es) + length (if b then e ∷ [] else [])
          ≡ length (select (holds_seat k) es) + one_if b
    single true = refl
    single false = refl

-- A versioned update changes the count by the enrollment that it writes.
pub active_count-written :
    (k id expected : ℕ) (values : EnrollmentRow → EnrollmentRow) (es : List EnrollmentRow)
    {e : EnrollmentRow}
    → Distinct enrollment_id es
    → find_row (matches enrollments_table id expected) es ≡ some e
    → active_count k (written_rows id expected values es) + one_if (holds_seat k e)
      ≡ active_count k es + one_if (holds_seat k (later (values e)))
active_count-written k id expected values es d found =
    count-update_where enrollment_id (holds_seat k) (matches enrollments_table id expected)
      (λ e. later (values e)) id (λ y m. ground arith) es d found

-- A promotion changes it by the one that is promoted.
pub active_count-promoted :
    (k cohort_id now : ℕ) (actor : Actor) (es : List EnrollmentRow) {next : EnrollmentRow}
    → Distinct enrollment_id es
    → next_waiting cohort_id es ≡ some next
    → active_count k (promoted_rows now actor next es) ≡ active_count k es + one_if (cohort_id == k)
active_count-promoted k cohort_id now actor es {next} d h =
    let found : find_row (λ (e : EnrollmentRow). e.id == next.id) es ≡ some next =
      next_waiting-All (λ e. find_row (λ y. enrollment_id y == enrollment_id e) es ≡ some e)
        cohort_id es (Distinct-found enrollment_id es d) h in
    let waits = next_waiting-waits cohort_id es h in
    let count =
      count-update_where enrollment_id (holds_seat k) (λ (e : EnrollmentRow). e.id == next.id)
        (promoted now actor (next.version + 1)) next.id (λ y m. ground arith) es d found in
    let before : holds_seat k next ≡ false = ground arith in
    let after : holds_seat k (promoted now actor (next.version + 1) next) ≡ (cohort_id == k) =
      ground arith in
    shift (holds_seat k next) (cohort_id == k) before (
      subst
        (λ b.
          active_count k (promoted_rows now actor next es) + one_if (holds_seat k next)
          ≡ active_count k es + one_if b)
        after count)
  where
    shift :
        (b c : Bool)
        → b ≡ false
        → active_count k (promoted_rows now actor next es) + one_if b ≡ active_count k es + one_if c
        → active_count k (promoted_rows now actor next es) ≡ active_count k es + one_if c
    shift true c e h' = cc
    shift false c e h' = omega (arith, h')

-- Soundness of the seats is about the classes, the rooms and the enrollments alone.
pub IsSeated-Keeps :
    (rows : List EnrollmentRow) (s s' : Registry)
    → Keeps rows s s'
    → Distinct (λ (c : CohortRow). c.id) s.cohorts
    → Distinct enrollment_id rows
    → All (Fits rows s.rooms) s.cohorts
    → IsSeated s'
IsSeated-Keeps rows s s' w c d f = record {
  classes = subst (Distinct (λ (c : CohortRow). c.id)) (sym w.cohorts) c;
  places = subst (Distinct enrollment_id) (sym w.enrollments) d;
  fits =
      subst (λ cs. All (Fits s'.enrollments s'.rooms) cs) (sym w.cohorts)
        (subst (λ es. All (Fits es s'.rooms) s.cohorts) (sym w.enrollments)
          (subst (λ rs. All (Fits rows rs) s.cohorts) (sym w.rooms) f));
}
