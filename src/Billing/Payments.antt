-- ===== src/Billing/Payments.antt =====
-- `PaymentsService` (billing/application/payments.service.ts): recording and voiding a payment.
pub mod Paying
use text.Mathlib.Text.{◌==◌ as str_eq}
use emis.Base.{
  ℕ, ◌+◌, ◌-◌, String, Bool, true, false, not, ◌&&◌, ◌||◌, Option, none, some, List, [], ◌∷◌, ◌++◌,
  map, Result, ok, err, Tx, ◌>>=◌, ◌>>◌, pure, throw_if, throw_unless, or_throw, gets, modify,
  on_part, ltb, leb, ◌==◌, if◌then◌else◌, any, all, select, find_row, update_where, check_violation,
  unique_violation, unknown_provider, unsupported_method, invoice_closed, overpayment,
  payment_not_found, payment_not_posted,
}
use emis.Access.{Grant, at_branch, assert_scope}
use emis.Settings.Numbering.{
  Text, text_eq, NumberSettings, DateParts, IssuedNumber, next, from_result,
}
use emis.Billing.Flow.{Allocation, allocate_payment}
use emis.Billing.Tables.{
  InvoiceRow, InstallmentRow, PaymentRow, PaymentStatus, AllocationRow, ReceiptRow, ReceiptStatus,
  Books, record_audit, on_counters, state_of,
}
use emis.Billing.Invoices.{
  Actor, lock, installments_of, parts_of, is_closed, settle, update_rows, then_rows,
  on_installments,
}

-- A way of taking money (billing/domain/providers.ts).
pub record PaymentProvider : Type 0 where
  pub key : String
  pub name : String
  pub methods : List String

abbrev pub manual_provider : PaymentProvider
manual_provider = record {
  key = "manual";
  name = "Manual";
  methods = "cash" ∷ "bank_transfer" ∷ "cheque" ∷ [];
}

-- `PaymentProviders.find`. The map is built in order, so of two providers with one key the later counts.
pub find_provider : List PaymentProvider → String → Option PaymentProvider
find_provider [] key = none
find_provider (p ∷ providers) key = elim (find_provider providers key) [
  | some later ↦ some later
  | none ↦ if str_eq p.key key then some p else none
]

pub record RecordPayment : Type 0 where
  pub invoice_id : ℕ
  pub amount : ℕ
  pub method : String
  pub reference : Option String

-- What the service reads besides the tables: the providers, the numbering's settings, the date, the
-- time, and the id that the database gives to the new payment.
pub record Setting : Type 0 where
  pub providers : List PaymentProvider
  pub numbers : NumberSettings
  pub today : DateParts
  pub now : ℕ
  pub payment_id : ℕ

-- Inserting the allocations: the primary key and payment_allocations_amount_check.
unfoldable pub insert_allocations :
    ℕ → List Allocation → List AllocationRow → Result (List AllocationRow)
insert_allocations payment_id [] rows = ok rows
insert_allocations payment_id (a ∷ allocations) rows =
    let later = insert_allocations payment_id allocations (
      rows
      ++ record { payment_id = payment_id; installment_id = a.installment_id; amount = a.amount }
        ∷ []) in
    if any
      (λ (r : AllocationRow).
        (r.payment_id == payment_id) && (r.installment_id == a.installment_id))
      rows
    then err unique_violation
    else if ltb 0 a.amount
    then later
    else err check_violation

-- The loop that raises what is paid on the instalments.
unfoldable pub pay_rows : List Allocation → List InstallmentRow → Result (List InstallmentRow)
unfolding update_rows
pay_rows [] rows = ok rows
pay_rows (a ∷ allocations) rows =
    then_rows
      (update_rows a.installment_id
        (λ (r : InstallmentRow). leb (r.paid_amount + a.amount) r.amount)
        (λ (r : InstallmentRow). record r { paid_amount = r.paid_amount + a.amount }) rows)
      (pay_rows allocations)

-- The loop that takes it back; a row can not go below nothing.
unfoldable pub refund_rows : List AllocationRow → List InstallmentRow → Result (List InstallmentRow)
unfolding update_rows
refund_rows [] rows = ok rows
refund_rows (a ∷ allocations) rows =
    then_rows
      (update_rows a.installment_id
        (λ (r : InstallmentRow).
          leb a.amount r.paid_amount && leb (r.paid_amount - a.amount) r.amount)
        (λ (r : InstallmentRow). record r { paid_amount = r.paid_amount - a.amount }) rows)
      (refund_rows allocations)

abbrev pub is_payment : ℕ → PaymentRow → Bool
is_payment id p = p.id == id

abbrev pub is_receipt : ℕ → ReceiptRow → Bool
is_receipt payment_id r = r.payment_id == payment_id

unfoldable pub payment_row : ℕ → Tx Books PaymentRow
payment_row id s = or_throw (find_row (is_payment id) s.payments) payment_not_found s

-- The payment that `record` inserts.
abbrev pub new_payment : Setting → PaymentProvider → RecordPayment → InvoiceRow → Actor → PaymentRow
new_payment env provider input invoice actor = record {
  id = env.payment_id;
  invoice_id = invoice.id;
  student_id = invoice.student_id;
  branch_id = invoice.branch_id;
  provider_key = provider.key;
  method = input.method;
  reference = input.reference;
  amount = input.amount;
  currency = invoice.currency;
  status = PaymentStatus.posted;
  received_by = actor.user_id;
  voided_at = none;
  updated_by = actor.user_id;
  version = 1;
}

-- payments_amount_check and payments_method_check
abbrev pub payment_checks : PaymentRow → Bool
payment_checks p =
    ltb 0 p.amount && any (λ m. str_eq m p.method) ("cash" ∷ "bank_transfer" ∷ "cheque" ∷ [])

unfoldable pub insert_payment : PaymentRow → Tx Books (Unit {0})
insert_payment p s =
    if any (is_payment p.id) s.payments
    then err unique_violation
    else if payment_checks p
    then ok (tt, record s { payments = s.payments ++ p ∷ [] })
    else err check_violation

abbrev pub on_allocations : (List AllocationRow → Result (List AllocationRow)) → Tx Books (Unit {0})
on_allocations = on_part (λ s. s.allocations) (λ rows s. record s { allocations = rows })

-- receipts_payment_id_key and receipts_number_key
unfoldable pub insert_receipt : ReceiptRow → Tx Books (Unit {0})
insert_receipt r s =
    if any (λ (q : ReceiptRow). (q.payment_id == r.payment_id) || text_eq q.number r.number)
      s.receipts
    then err unique_violation
    else ok (tt, record s { receipts = s.receipts ++ r ∷ [] })

-- The money of a payment: the payment and its allocations are stored, the instalments raised and
-- the invoice settled.
unfoldable pub post_payment : PaymentRow → List Allocation → Actor → Tx Books (Unit {0})
unfolding insert_payment insert_allocations pay_rows settle
post_payment payment allocations actor = do
  insert_payment payment
  on_allocations (insert_allocations payment.id allocations)
  on_installments (pay_rows allocations)
  settle payment.invoice_id actor

-- The receipt takes the next number of its series, in the same transaction.
unfoldable pub issue_receipt : Setting → ℕ → ℕ → Tx Books (Unit {0})
unfolding insert_receipt
issue_receipt env payment_id branch_id = do
  issued ← on_counters (next env.numbers env.today "receipt" (some branch_id))
  insert_receipt (record {
    payment_id = payment_id;
    number = issued.number;
    branch_id = branch_id;
    status = ReceiptStatus.issued;
    voided_at = none;
  })

-- `record`
unfoldable pub record_payment :
    Setting → RecordPayment → List Grant → Actor → String → Tx Books (Unit {0})
unfolding lock parts_of post_payment issue_receipt record_audit find_provider
record_payment env input grants actor provider_key = do
  provider ← or_throw (find_provider env.providers provider_key) unknown_provider
  throw_unless (any (λ m. str_eq m input.method) provider.methods) unsupported_method
  invoice ← lock input.invoice_id
  assert_scope grants "billing.receive" (at_branch invoice.branch_id)
  throw_if (is_closed invoice.status) invoice_closed
  parts ← installments_of invoice.id
  let (allocations, remainder) = allocate_payment (map state_of parts) input.amount
  throw_if (ltb 0 remainder) (overpayment (invoice.total - invoice.paid_total))
  post_payment (new_payment env provider input invoice actor) allocations actor
  issue_receipt env env.payment_id invoice.branch_id
  record_audit "payment.recorded" "payment" env.payment_id

abbrev pub is_posted : PaymentStatus → Bool
is_posted PaymentStatus.posted = true
is_posted PaymentStatus.voided = false

abbrev pub allocation_of : ℕ → AllocationRow → Bool
allocation_of payment_id a = a.payment_id == payment_id

-- `voidPayment`
unfoldable pub void_payment : ℕ → ℕ → ℕ → Actor → Tx Books (Unit {0})
unfolding payment_row lock refund_rows settle record_audit
void_payment now payment_id approval_id actor = do
  found ← payment_row payment_id
  invoice ← lock found.invoice_id
  payment ← payment_row payment_id
  throw_unless (is_posted payment.status) payment_not_posted
  allocations ← gets (λ s. select (allocation_of payment_id) s.allocations)
  on_installments (refund_rows allocations)
  modify (λ s. record s {
    payments =
        update_where (is_payment payment_id)
          (λ (p : PaymentRow). record p {
            status = PaymentStatus.voided;
            voided_at = some now;
            updated_by = actor.user_id;
            version = payment.version + 1;
          })
          s.payments;
    receipts =
        update_where (is_receipt payment_id)
          (λ (r : ReceiptRow). record r { status = ReceiptStatus.voided; voided_at = some now })
          s.receipts;
  })
  settle invoice.id actor
  record_audit "payment.voided" "payment" payment_id
