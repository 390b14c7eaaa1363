-- ===== src/Billing/Tables.antt =====
-- The tables of the billing module (packages/db/src/schema/billing.ts), with the CHECK and UNIQUE
-- constraints that a write can meet. The columns that the database fills by itself (created_at,
-- updated_at, received_at, issued_at) are left out, and so are the foreign keys. An id is a number,
-- since ids are only compared; the ids that the database generates are arguments of the operations.
use emis.Base.{
  ℕ, ◌-◌, String, Bool, ◌&&◌, Option, List, [], ◌∷◌, ◌++◌, ok, err, Tx, modify, ltb, leb, ◌==◌,
}
use emis.Settings.Numbering.{Text, Counter}
use emis.Billing.Flow.{InvoiceStatus, DiscountKind, InstallmentState}

pub record InvoiceLine : Type 0 where
  pub description : String
  pub amount : ℕ

pub record InvoiceRow : Type 0 where
  pub id : ℕ
  pub number : Text
  pub student_id : ℕ
  pub enrollment_id : Option ℕ
  pub cohort_id : Option ℕ
  pub branch_id : ℕ
  pub currency : String
  pub status : InvoiceStatus
  pub lines : List InvoiceLine
  pub subtotal : ℕ
  pub discount_total : ℕ
  pub total : ℕ
  pub paid_total : ℕ
  pub updated_by : ℕ
  pub version : ℕ

pub record InstallmentRow : Type 0 where
  pub id : ℕ
  pub invoice_id : ℕ
  pub sequence : ℕ
  pub due_date : ℕ
  pub amount : ℕ
  pub paid_amount : ℕ

pub data PaymentStatus : Type 0 where
  posted voided : PaymentStatus

pub record PaymentRow : Type 0 where
  pub id : ℕ
  pub invoice_id : ℕ
  pub student_id : ℕ
  pub branch_id : ℕ
  pub provider_key : String
  pub method : String
  pub reference : Option String
  pub amount : ℕ
  pub currency : String
  pub status : PaymentStatus
  pub received_by : ℕ
  pub voided_at : Option ℕ
  pub updated_by : ℕ
  pub version : ℕ

pub record AllocationRow : Type 0 where
  pub payment_id : ℕ
  pub installment_id : ℕ
  pub amount : ℕ

pub data ReceiptStatus : Type 0 where
  issued voided : ReceiptStatus

pub record ReceiptRow : Type 0 where
  pub payment_id : ℕ
  pub number : Text
  pub branch_id : ℕ
  pub status : ReceiptStatus
  pub voided_at : Option ℕ

pub record DiscountRow : Type 0 where
  pub invoice_id : ℕ
  pub kind : DiscountKind
  pub value : ℕ
  pub amount : ℕ
  pub reason_code : String
  pub approval_id : ℕ

pub data ApprovalStatus : Type 0 where
  pending approved rejected : ApprovalStatus

-- The type of a request with what its payload holds.
pub data ApprovalPayload : Type 0 where
  discount : DiscountKind → ℕ → String → ApprovalPayload
  payment_void : ApprovalPayload

pub record ApprovalRow : Type 0 where
  pub id : ℕ
  pub payload : ApprovalPayload
  pub status : ApprovalStatus
  pub subject_id : ℕ
  pub reason : String
  pub requested_by : ℕ
  pub decided_by : Option ℕ
  pub decision_note : Option String
  pub decided_at : Option ℕ
  pub updated_by : ℕ
  pub version : ℕ

-- An audit entry: the action and the entity that it is about.
pub record AuditEntry : Type 0 where
  pub action : String
  pub entity_type : String
  pub entity_id : ℕ

pub record Books : Type 0 where
  pub invoices : List InvoiceRow
  pub installments : List InstallmentRow
  pub payments : List PaymentRow
  pub allocations : List AllocationRow
  pub receipts : List ReceiptRow
  pub discounts : List DiscountRow
  pub approvals : List ApprovalRow
  pub counters : List Counter
  pub audit : List AuditEntry

-- `audit.record`
unfoldable pub record_audit : String → String → ℕ → Tx Books (Unit {0})
record_audit action entity_type id = modify (λ s. record s {
  audit = s.audit ++ record { action = action; entity_type = entity_type; entity_id = id } ∷ [];
})

-- A step on the counters, as a step on the books.
abbrev pub on_counters : {A : Type 0} → Tx (List Counter) A → Tx Books A
on_counters m s = elim (m s.counters) [
  | ok (a, counters) ↦ ok (a, record s { counters = counters })
  | err e ↦ err e
]

-- invoices_amounts_check, invoices_total_check and invoices_paid_check
unfoldable pub invoice_checks : InvoiceRow → Bool
invoice_checks i =
    ltb 0 i.subtotal
    && leb i.discount_total i.subtotal
    && (i.total == i.subtotal - i.discount_total)
    && leb i.paid_total i.total

-- installments_paid_check
abbrev pub installment_checks : InstallmentRow → Bool
installment_checks i = leb i.paid_amount i.amount

abbrev pub installment_of : ℕ → InstallmentRow → Bool
installment_of invoice_id i = i.invoice_id == invoice_id

abbrev pub with_id : ℕ → InstallmentRow → Bool
with_id id i = i.id == id

abbrev pub state_of : InstallmentRow → InstallmentState
state_of i = record {
  id = i.id;
  sequence = i.sequence;
  due_date = i.due_date;
  amount = i.amount;
  paid_amount = i.paid_amount;
}
