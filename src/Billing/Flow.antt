-- ===== src/Billing/Flow.antt =====
-- How money moves over the instalments of an invoice (modules/billing/domain/money-flow.ts).
-- A date is the number of its day, so `addDays` is addition and the order of ISO texts is `<`.
-- An amount is in whole minor units; what an instalment owes is `amount - paidAmount`, which is
-- never negative where the database's checks hold, and where it would be the code takes nothing.
pub mod Allocating
pub mod Discounting
pub mod Changes
pub mod Planning
mod Tests
use emis.Base.{
  ℕ, ◌+◌, ◌-◌, ◌*◌, ◌/◌, Bool, true, false, ◌&&◌, ◌||◌, Option, none, some, List, [], ◌∷◌, map,
  Result, ok, err, ltb, leb, ◌==◌, min, if◌then◌else◌, sort_by, discount_error,
}
use mathlib.Core.List.{reverse}
use emis.Billing.Shares.{whole, split_by_basis_points}

pub record InstallmentState : Type 0 where
  pub id : ℕ
  pub sequence : ℕ
  pub due_date : ℕ
  pub amount : ℕ
  pub paid_amount : ℕ

abbrev pub owed : InstallmentState → ℕ
owed i = i.amount - i.paid_amount

-- `byDueDate(a, b) <= 0`
abbrev pub by_due_date : InstallmentState → InstallmentState → Bool
by_due_date a b =
    ltb a.due_date b.due_date || (a.due_date == b.due_date && leb a.sequence b.sequence)

pub record PlanInstallment : Type 0 where
  pub share_bp : ℕ
  pub due_offset_days : ℕ

pub record NewInstallment : Type 0 where
  pub sequence : ℕ
  pub due_date : ℕ
  pub amount : ℕ

-- `plan.map((p, i) => …)`, with `amounts[i] ?? 0`
pub number_installments : ℕ → List PlanInstallment → List ℕ → ℕ → List NewInstallment
number_installments i [] amounts issue_date = []
number_installments i (p ∷ plan) [] issue_date =
    record { sequence = i + 1; due_date = issue_date + p.due_offset_days; amount = 0 }
    ∷ number_installments (i + 1) plan [] issue_date
number_installments i (p ∷ plan) (a ∷ amounts) issue_date =
    record { sequence = i + 1; due_date = issue_date + p.due_offset_days; amount = a }
    ∷ number_installments (i + 1) plan amounts issue_date

unfoldable pub build_installments : ℕ → List PlanInstallment → ℕ → Result (List NewInstallment)
unfolding number_installments
build_installments total plan issue_date =
    elim (split_by_basis_points total (map (λ (p : PlanInstallment). p.share_bp) plan)) [
      | err e ↦ err e
      | ok amounts ↦ ok (number_installments 0 plan amounts issue_date)
    ]

pub record Allocation : Type 0 where
  pub installment_id : ℕ
  pub amount : ℕ

-- The loop of `allocatePayment`, over the sorted instalments: what is allocated and what is left.
-- Once nothing is left, the `break` and a round that takes nothing are the same.
unfoldable pub allocate_from : ℕ → List InstallmentState → List Allocation × ℕ
allocate_from left [] = ([], left)
allocate_from left (i ∷ rest) =
    let take = min left (owed i) in
    let (allocations, remainder) = allocate_from (left - take) rest in
    if left == 0
    then ([], left)
    else if ltb 0 take
    then (record { installment_id = i.id; amount = take } ∷ allocations, remainder)
    else (allocations, remainder)

unfoldable pub allocate_payment : List InstallmentState → ℕ → List Allocation × ℕ
unfolding allocate_from sort_by
allocate_payment installments amount = allocate_from amount (sort_by by_due_date installments)

pub record Change : Type 0 where
  pub installment_id : ℕ
  pub new_amount : ℕ

-- The loop of `applyDiscount`: the changes and what is left.
unfoldable pub discount_from : ℕ → List InstallmentState → List Change × ℕ
discount_from left [] = ([], left)
discount_from left (i ∷ rest) =
    let cut = min left (owed i) in
    let (changes, remainder) = discount_from (left - cut) rest in
    if left == 0
    then ([], left)
    else if ltb 0 cut
    then (record { installment_id = i.id; new_amount = i.amount - cut } ∷ changes, remainder)
    else (changes, remainder)

unfoldable pub apply_discount : List InstallmentState → ℕ → Result (List Change)
unfolding discount_from sort_by
apply_discount installments amount =
    let (changes, left) = discount_from amount (reverse (sort_by by_due_date installments)) in
    if ltb 0 left then err discount_error else ok changes

pub data DiscountKind : Type 0 where
  percent fixed : DiscountKind

unfoldable pub discount_amount : DiscountKind → ℕ → ℕ → ℕ
discount_amount fixed value current_total = value
discount_amount percent value current_total = current_total * value / whole

pub data InvoiceStatus : Type 0 where
  issued partially_paid paid void : InvoiceStatus

unfoldable pub invoice_status_for : ℕ → ℕ → InvoiceStatus
invoice_status_for total paid_total =
    if leb total paid_total then paid else if ltb 0 paid_total then partially_paid else issued

pub data InstallmentStatus : Type 0 where
  settled overdue partial due : InstallmentStatus

unfoldable pub installment_status_for : InstallmentState → ℕ → InstallmentStatus
installment_status_for i today =
    if leb i.amount i.paid_amount
    then settled
    else if ltb i.due_date today
    then overdue
    else if ltb 0 i.paid_amount
    then partial
    else due
