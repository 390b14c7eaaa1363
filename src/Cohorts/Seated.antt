-- ===== src/Cohorts/Seated.antt =====
-- The operations on a class's seats, in any order.
use emis.Base.{ℕ, ◌≡◌, String, Bool, List, ok, Lacks}
use emis.Access.{Grant}
use emis.Registry.{EnrollmentRow, Registry}
use emis.Billing.Invoices.{Actor}
use emis.Completion.{EnrollmentResult}
use emis.Cohorts.{enroll, withdraw, record_result}
use emis.Cohorts.Seats.{enroll-IsSeated, withdraw-IsSeated, record_result-IsSeated}
use emis.Cohorts.Counts.{IsSeated}

-- An operation that went through, between the tables before and after it.
pub data SeatStep : Registry → Registry → Type 0 where
  enrolls :
      {s s' : Registry} (new_id now student_id cohort_id : ℕ) (grants : List Grant) (actor : Actor)
      → Lacks (λ (e : EnrollmentRow). e.id) new_id s.enrollments
      → enroll new_id now student_id cohort_id grants actor s ≡ ok (tt, s')
      → SeatStep s s'
  withdraws :
      {s s' : Registry} (is_reason : String → Bool) (now id : ℕ) (reason_code : String)
      (expected : ℕ) (grants : List Grant) (actor : Actor)
      → withdraw is_reason now id reason_code expected grants actor s ≡ ok (tt, s')
      → SeatStep s s'
  records :
      {s s' : Registry} (now id : ℕ) (result : EnrollmentResult) (expected : ℕ)
      (grants : List Grant) (actor : Actor)
      → record_result now id result expected grants actor s ≡ ok (tt, s')
      → SeatStep s s'

pub data SeatSteps : Registry → Registry → Type 0 where
  stay : {s : Registry} → SeatSteps s s
  followed : {s t u : Registry} → SeatStep s t → SeatSteps t u → SeatSteps s u

-- However students enroll (with ids that are new), withdraw and get results, in whatever order, no
-- class ever has more students than seats.
pub SeatSteps-IsSeated : (s s' : Registry) → IsSeated s → SeatSteps s s' → IsSeated s'
SeatSteps-IsSeated s s' sound stay = sound
SeatSteps-IsSeated s s' sound (followed {t = t} first later) =
    SeatSteps-IsSeated t s' (one first) later
  where
    one : SeatStep s t → IsSeated t
    one (enrolls new_id now student_id cohort_id grants actor fresh h) =
        enroll-IsSeated new_id now student_id cohort_id grants actor s t sound fresh h
    one (withdraws is_reason now id reason_code expected grants actor h) =
        withdraw-IsSeated is_reason now id reason_code expected grants actor s t sound h
    one (records now id result expected grants actor h) =
        record_result-IsSeated now id result expected grants actor s t sound h
