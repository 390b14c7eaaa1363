-- ===== src/Billing/Flow/Allocating.antt =====
-- Where a payment goes: oldest due first, each instalment up to what it owes.
use emis.Base.{
  ℕ, ◌+◌, ◌-◌, ◌≤◌, ◌<◌, ◌≡◌, ◌⊎◌, refl, List, [], ◌∷◌, arith, sum_of, sort_by, sum_of-sort_by, ltb,
  min, if◌then◌else◌,
}
use emis.Billing.Flow.{
  InstallmentState, owed, by_due_date, Allocation, allocate_from, allocate_payment,
}

abbrev pub allocated : List Allocation → ℕ
allocated = sum_of (λ (a : Allocation). a.amount)

abbrev pub total_owed : List InstallmentState → ℕ
total_owed = sum_of owed

pub allocate_from-sum :
    (left : ℕ) (l : List InstallmentState)
    → let (allocations, remainder) = allocate_from left l in
      (allocated allocations + remainder ≡ left) × (remainder ≡ left - total_owed l)
unfolding allocate_from
allocate_from-sum left [] = omega arith
allocate_from-sum left (i ∷ rest) =
    ground (arith, allocate_from-sum (left - min left (owed i)) rest)

-- A payment splits into what is allocated and the remainder, and the remainder is what the payment
-- exceeds the debt by: nothing is left over exactly up to the whole debt.
pub allocate_payment_sum :
    (installments : List InstallmentState) (amount : ℕ)
    → let (allocations, remainder) = allocate_payment installments amount in
      (allocated allocations + remainder ≡ amount) × (remainder ≡ amount - total_owed installments)
unfolding allocate_payment
allocate_payment_sum installments amount = omega (
  arith,
  allocate_from-sum amount (sort_by by_due_date installments),
  sum_of-sort_by by_due_date owed installments,
)

-- The waterfall: behind `before` of debt that is due earlier, an instalment gets what is left of
-- the payment, up to what it owes.
pub waterfall : ℕ → ℕ → List InstallmentState → List Allocation
waterfall amount before [] = []
waterfall amount before (i ∷ rest) =
    let later = waterfall amount (before + owed i) rest in
    let share = min (amount - before) (owed i) in
    if ltb 0 share then record { installment_id = i.id; amount = share } ∷ later else later

waterfall-spent :
    (amount before : ℕ) (l : List InstallmentState)
    → amount ≤ before
    → waterfall amount before l ≡ []
unfolding waterfall
waterfall-spent amount before [] h = refl
waterfall-spent amount before (i ∷ rest) h =
    ground (arith, waterfall-spent amount (before + owed i) rest)

allocate_from-waterfall :
    (amount before left : ℕ) (l : List InstallmentState)
    → left ≡ amount - before
    → (allocate_from left l).0 ≡ waterfall amount before l
unfolding allocate_from waterfall
allocate_from-waterfall amount before left [] h = refl
allocate_from-waterfall amount before left (i ∷ rest) h = ground (
  arith,
  allocate_from-waterfall amount (before + owed i) (left - min left (owed i)) rest,
  waterfall-spent amount (before + owed i) rest,
)

-- The loop is the waterfall over the instalments in the order of their due dates.
pub allocate_payment-waterfall :
    (installments : List InstallmentState) (amount : ℕ)
    → (allocate_payment installments amount).0
      ≡ waterfall amount 0 (sort_by by_due_date installments)
unfolding allocate_payment
allocate_payment-waterfall installments amount =
    allocate_from-waterfall amount 0 amount (sort_by by_due_date installments) (omega arith)

-- Every allocation is for an instalment of the list with the property, is more than nothing and
-- no more than that instalment owes.
pub FitsSome : List InstallmentState → Allocation → Type 0
FitsSome [] a = ⊥
FitsSome (i ∷ l) a =
    ((i.id ≡ a.installment_id) × (0 < a.amount) × (a.amount ≤ owed i)) ⊎ FitsSome l a
