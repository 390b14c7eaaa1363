-- ===== src/Billing/Ledger.antt =====
-- What makes the books of the billing module sound, across its tables.
pub mod Posting
pub mod Others
pub mod Recording
pub mod Posted
pub mod Spreading
pub mod Payment
pub mod Money
pub mod Voiding
pub mod Voided
pub mod Undoing
pub mod Discounts
pub mod Discounted
use emis.Base.{
  ℕ, ◌+◌, ◌≡◌, ◌≢◌, ◌⊎◌, Bool, true, ◌&&◌, List, [], ◌∷◌, if◌then◌else◌, ◌==◌, any, select, sum_of,
  All, Distinct,
}
use emis.Billing.Flow.{void, invoice_status_for}
use emis.Billing.Tables.{
  InvoiceRow, InstallmentRow, PaymentRow, AllocationRow, Books, installment_of,
}
use emis.Billing.Invoices.Rows.{IsWithin, amounts_of, paid_of}
use emis.Billing.Payments.{is_payment, is_posted, allocation_of}
use emis.Billing.Payments.Paying.{given_rows}

-- The invoice's totals and status are those that its instalments make.
pub record IsSettled (rows : List InstallmentRow) (i : InvoiceRow) : Type 0 where
  pub total : i.total ≡ amounts_of i.id rows
  pub paid_total : i.paid_total ≡ paid_of i.id rows
  pub status : (i.status ≡ void) ⊎ (i.status ≡ invoice_status_for i.total i.paid_total)

-- The payment with this id stands (is posted, not voided).
abbrev pub stands : List PaymentRow → ℕ → Bool
stands payments id = any (λ (p : PaymentRow). is_payment id p && is_posted p.status) payments

-- The money that standing payments have put on the instalment k.
abbrev pub posted_to : List PaymentRow → List AllocationRow → ℕ → ℕ
posted_to payments [] k = 0
posted_to payments (a ∷ allocations) k =
    (if (a.installment_id == k) && stands payments a.payment_id then a.amount else 0)
    + posted_to payments allocations k

-- The payment's money went to instalments of its own invoice only.
abbrev pub IsOwned : List InstallmentRow → List AllocationRow → PaymentRow → Type 0
IsOwned rows allocations p =
    All
      (λ (r : InstallmentRow).
        r.invoice_id ≢ p.invoice_id → given_rows r.id (select (allocation_of p.id) allocations) ≡ 0)
      rows

-- What the payment has put on instalments of its own invoice is its amount.
abbrev pub IsSpread : List InstallmentRow → List AllocationRow → PaymentRow → Type 0
IsSpread rows allocations p =
    sum_of (λ (r : InstallmentRow). given_rows r.id (select (allocation_of p.id) allocations))
      (select (installment_of p.invoice_id) rows)
    ≡ p.amount

-- What `settle` relies on: all of soundness, but that the invoice k itself need not be settled.
pub record IsSoundBut (k : ℕ) (s : Books) : Type 0 where
  -- ids of instalments are not repeated (the primary key)
  pub distinct : Distinct (λ (r : InstallmentRow). r.id) s.installments
  pub within : All IsWithin s.installments
  pub settled : All (λ (i : InvoiceRow). i.id ≢ k → IsSettled s.installments i) s.invoices
  -- what is paid on an instalment is the money of the standing payments
  pub ledger :
      All
        (λ (r : InstallmentRow). r.paid_amount ≡ posted_to s.payments s.allocations r.id)
        s.installments
  -- an allocation belongs to a payment (the foreign key)
  pub linked :
      All (λ (a : AllocationRow). any (is_payment a.payment_id) s.payments ≡ true) s.allocations
  pub owned : All (IsOwned s.installments s.allocations) s.payments
  pub spread : All (IsSpread s.installments s.allocations) s.payments

pub record IsSound (s : Books) : Type 0 where
  pub distinct : Distinct (λ (r : InstallmentRow). r.id) s.installments
  pub within : All IsWithin s.installments
  pub settled : All (IsSettled s.installments) s.invoices
  pub ledger :
      All
        (λ (r : InstallmentRow). r.paid_amount ≡ posted_to s.payments s.allocations r.id)
        s.installments
  pub linked :
      All (λ (a : AllocationRow). any (is_payment a.payment_id) s.payments ≡ true) s.allocations
  pub owned : All (IsOwned s.installments s.allocations) s.payments
  pub spread : All (IsSpread s.installments s.allocations) s.payments
