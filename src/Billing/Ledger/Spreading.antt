-- ===== src/Billing/Ledger/Spreading.antt =====
-- The allocations of a payment stay on the invoice that they were made for, and add up on it.
use emis.Base.{
  ℕ, ◌+◌, ◌-◌, ◌≡◌, ◌≢◌, refl, sym, ◌∙◌, true, List, [], ◌∷◌, map, arith, select, sum_of,
  sum_of-sort_by, All, All-imp, Lacks, Lacks-select, Lacks-sort_by, Distinct, Distinct-select,
  Distinct-sort_by, Bool-cases, inl, inr, ◌==◌, min, sort_by,
}
use emis.Billing.Flow.{
  InstallmentState, owed, by_due_date, Allocation, allocate_from, allocate_payment,
}
use emis.Billing.Flow.Allocating.{allocated, total_owed}
use emis.Billing.Tables.{InstallmentRow, installment_of, state_of}
use emis.Billing.Invoices.{parts_of, by_sequence}
use emis.Billing.Invoices.Rows.{paid_of, amounts_of}
use emis.Billing.Payments.Paying.{given, raise}
use emis.Billing.Ledger.Recording.{GoesTo}

abbrev state_id : InstallmentState → ℕ
state_id i = i.id

abbrev row_id : InstallmentRow → ℕ
row_id r = r.id

given-allocate_from :
    (k left : ℕ) (l : List InstallmentState)
    → Lacks state_id k l
    → given k (allocate_from left l).0 ≡ 0
unfolding allocate_from
given-allocate_from k left [] h = refl
given-allocate_from k left (i ∷ rest) h =
    ground (arith, given-allocate_from k (left - min left (owed i)) rest h.1)

allocated-nothing :
    (left : ℕ) (l : List InstallmentState) → left ≡ 0 → allocated (allocate_from left l).0 ≡ 0
unfolding allocate_from
allocated-nothing left [] h = refl
allocated-nothing left (i ∷ rest) h = ground arith

given-nothing :
    (k left : ℕ) (l : List InstallmentState) → left ≡ 0 → given k (allocate_from left l).0 ≡ 0
unfolding allocate_from
given-nothing k left [] h = refl
given-nothing k left (i ∷ rest) h = ground arith

allocated-nil : (left : ℕ) → 0 ≡ allocated (allocate_from left []).0
unfolding allocate_from
allocated-nil left = refl

given-head :
    (left : ℕ) (i : InstallmentState) (rest : List InstallmentState)
    → Lacks state_id i.id rest
    → given i.id (allocate_from left (i ∷ rest)).0
        + allocated (allocate_from (left - min left (owed i)) rest).0
      ≡ allocated (allocate_from left (i ∷ rest)).0
unfolding allocate_from
given-head left i rest h = elim (Bool-cases (left == 0)) [
  | inl z ↦ ground (arith, allocated-nothing left rest)
  | inr n ↦ ground (arith, given-allocate_from i.id (left - min left (owed i)) rest h)
]

given-tail :
    (k left : ℕ) (i : InstallmentState) (rest : List InstallmentState)
    → k ≢ i.id
    → given k (allocate_from left (i ∷ rest)).0
      ≡ given k (allocate_from (left - min left (owed i)) rest).0
unfolding allocate_from
given-tail k left i rest n = ground (arith, given-nothing k (left - min left (owed i)) rest)

sum-given-tail :
    (left : ℕ) (i : InstallmentState) (rest l : List InstallmentState)
    → Lacks state_id i.id l
    → sum_of (λ (j : InstallmentState). given j.id (allocate_from left (i ∷ rest)).0) l
      ≡ sum_of
          (λ (j : InstallmentState). given j.id (allocate_from (left - min left (owed i)) rest).0)
          l
sum-given-tail left i rest [] h = refl
sum-given-tail left i rest (j ∷ l) h =
    omega (arith, given-tail j.id left i rest h.0, sum-given-tail left i rest l h.1)

-- On instalments with distinct ids, what each is given adds up to what is allocated.
sum-given :
    (left : ℕ) (l : List InstallmentState)
    → Distinct state_id l
    → sum_of (λ (j : InstallmentState). given j.id (allocate_from left l).0) l
      ≡ allocated (allocate_from left l).0
sum-given left [] d = allocated-nil left
sum-given left (i ∷ rest) d = omega (
  arith,
  given-head left i rest d.0,
  sum-given-tail left i rest rest d.0,
  sum-given (left - min left (owed i)) rest d.1,
)

-- The instalments of an invoice, as the states that the payment is spread over.
abbrev pub states : ℕ → List InstallmentRow → List InstallmentState
states k rows = map state_of (parts_of k rows)

pub Lacks-states :
    (j k : ℕ) (rows : List InstallmentRow)
    → Lacks row_id j (select (installment_of k) rows)
    → Lacks state_id j (states k rows)
unfolding parts_of
Lacks-states j k rows h =
    go (parts_of k rows) (Lacks-sort_by row_id by_sequence j (select (installment_of k) rows) h)
  where
    go : (l : List InstallmentRow) → Lacks row_id j l → Lacks state_id j (map state_of l)
    go [] x = tt
    go (r ∷ l) x = (x.0, go l x.1)

pub Distinct-states :
    (k : ℕ) (rows : List InstallmentRow) → Distinct row_id rows → Distinct state_id (states k rows)
unfolding parts_of
Distinct-states k rows d = go (parts_of k rows) (
    Distinct-sort_by row_id by_sequence (select (installment_of k) rows)
      (Distinct-select row_id (installment_of k) rows d))
  where
    lacks : (j : ℕ) (l : List InstallmentRow) → Lacks row_id j l → Lacks state_id j (map state_of l)
    lacks j [] x = tt
    lacks j (r ∷ l) x = (x.0, lacks j l x.1)

    go : (l : List InstallmentRow) → Distinct row_id l → Distinct state_id (map state_of l)
    go [] x = tt
    go (r ∷ l) x = (lacks r.id l x.0, go l x.1)

-- A row of another invoice shares its id with no row of the invoice k.
pub elsewhere :
    (k : ℕ) (rows : List InstallmentRow)
    → Distinct row_id rows
    → All
        (λ (r : InstallmentRow).
          r.invoice_id ≢ k → Lacks row_id r.id (select (installment_of k) rows))
        rows
elsewhere k [] d = tt
elsewhere k (r ∷ rows) d = elim (Bool-cases (installment_of k r)) [
  | inl t ↦ ((λ n. absurd (ground arith)), tail t rows d.0 (elsewhere k rows d.1))
  | inr t ↦ (
    (λ n. rw t (Lacks-select row_id (installment_of k) r.id rows d.0)),
    All-imp (λ q h n. rw t (h n)) rows (elsewhere k rows d.1),
  )
]
  where
    tail :
        installment_of k r ≡ true
        → (l : List InstallmentRow) → Lacks row_id r.id l
        → All
            (λ (q : InstallmentRow).
              q.invoice_id ≢ k → Lacks row_id q.id (select (installment_of k) rows))
            l
        → All
            (λ (q : InstallmentRow).
              q.invoice_id ≢ k → Lacks row_id q.id (select (installment_of k) (r ∷ rows)))
            l
    tail t [] x a = tt
    tail t (q ∷ l) x a = ((λ n. rw t ((λ e. x.0 (sym e)), a.0 n)), tail t l x.1 a.1)

-- A payment for the invoice k gives nothing to instalments of other invoices.
pub allocate_payment-GoesTo :
    (k amount : ℕ) (rows : List InstallmentRow)
    → Distinct row_id rows
    → GoesTo k (allocate_payment (states k rows) amount).0 rows
unfolding allocate_payment
allocate_payment-GoesTo k amount rows d =
    All-imp
      (λ r h n.
        given-allocate_from r.id amount (sort_by by_due_date (states k rows)) (
          Lacks-sort_by state_id by_due_date r.id (states k rows) (Lacks-states r.id k rows (h n))))
      rows (elsewhere k rows d)

pub sum_of-states :
    (f : InstallmentState → ℕ) (k : ℕ) (rows : List InstallmentRow)
    → sum_of f (states k rows)
      ≡ sum_of (λ (r : InstallmentRow). f (state_of r)) (select (installment_of k) rows)
unfolding parts_of
sum_of-states f k rows =
    go (parts_of k rows)
    ∙ sum_of-sort_by by_sequence (λ (r : InstallmentRow). f (state_of r))
        (select (installment_of k) rows)
  where
    go :
        (l : List InstallmentRow)
        → sum_of f (map state_of l) ≡ sum_of (λ (r : InstallmentRow). f (state_of r)) l
    go [] = refl
    go (r ∷ l) = omega (arith, go l)

paid_of-raise :
    (k : ℕ) (allocations : List Allocation) (rows : List InstallmentRow)
    → paid_of k (map (raise allocations) rows)
      ≡ paid_of k rows
        + sum_of (λ (r : InstallmentRow). given r.id allocations) (select (installment_of k) rows)
paid_of-raise k allocations [] = refl
paid_of-raise k allocations (r ∷ rows) = ground (arith, paid_of-raise k allocations rows)

pub amounts_of-raise :
    (k : ℕ) (allocations : List Allocation) (rows : List InstallmentRow)
    → amounts_of k (map (raise allocations) rows) ≡ amounts_of k rows
amounts_of-raise k allocations [] = refl
amounts_of-raise k allocations (r ∷ rows) = ground (arith, amounts_of-raise k allocations rows)

-- On the invoice's instalments, what each is given adds up to what is allocated.
pub sum-given-allocate_payment :
    (k amount : ℕ) (rows : List InstallmentRow)
    → Distinct row_id rows
    → sum_of
        (λ (r : InstallmentRow). given r.id (allocate_payment (states k rows) amount).0)
        (select (installment_of k) rows)
      ≡ allocated (allocate_payment (states k rows) amount).0
unfolding allocate_payment
sum-given-allocate_payment k amount rows d =
    let sorted = sort_by by_due_date (states k rows) in
    let f = λ (i : InstallmentState). given i.id (allocate_from amount sorted).0 in
    omega (
      arith,
      sum-given amount sorted
          (Distinct-sort_by state_id by_due_date (states k rows) (Distinct-states k rows d)),
      sum_of-sort_by by_due_date f (states k rows),
      sum_of-states f k rows,
    )

-- What is paid on the invoice rises by exactly what the payment allocates.
pub paid_of-allocate_payment :
    (k amount : ℕ) (rows : List InstallmentRow)
    → Distinct row_id rows
    → paid_of k (map (raise (allocate_payment (states k rows) amount).0) rows)
      ≡ paid_of k rows + allocated (allocate_payment (states k rows) amount).0
paid_of-allocate_payment k amount rows d = omega (
  arith,
  paid_of-raise k (allocate_payment (states k rows) amount).0 rows,
  sum-given-allocate_payment k amount rows d,
)

-- What an invoice's instalments owe, over the states.
pub total_owed-states :
    (k : ℕ) (rows : List InstallmentRow)
    → total_owed (states k rows)
      ≡ sum_of (λ (r : InstallmentRow). r.amount - r.paid_amount) (select (installment_of k) rows)
total_owed-states k rows = sum_of-states owed k rows
