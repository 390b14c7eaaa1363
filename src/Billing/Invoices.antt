-- ===== src/Billing/Invoices.antt =====
-- `InvoicesService` (billing/application/invoices.service.ts): reading, settling and discounting an
-- invoice. The row lock of `lock` makes the transactions on one invoice follow each other.
pub mod Rows
use emis.Base.{
  ℕ, ◌+◌, ◌-◌, Bool, true, false, ◌&&◌, ◌||◌, Option, none, some, List, [], ◌∷◌, ◌++◌, map, Result,
  ok, err, Tx, ◌>>=◌, ◌>>◌, pure, throw_if, throw_unless, or_throw, gets, modify, on_part, ltb, leb,
  ◌==◌, if◌then◌else◌, all, select, find_row, update_where, sum_of, sort_by, check_violation,
  invoice_not_found, invoice_closed, discount_too_small, discount_too_large, String,
}
use emis.Billing.Flow.{
  InvoiceStatus, paid, void, Change, Allocation, DiscountKind, apply_discount, discount_amount,
  invoice_status_for,
}
use emis.Billing.Tables.{
  InvoiceRow, InstallmentRow, Books, record_audit, invoice_checks, installment_of, with_id,
  state_of,
}
use emis.Settings.Numbering.{from_result}

-- The user who acts.
pub record Actor : Type 0 where
  pub user_id : ℕ

abbrev pub is_invoice : ℕ → InvoiceRow → Bool
is_invoice id i = i.id == id

-- `row`, and `lock`, which reads the same with the row locked.
unfoldable pub lock : ℕ → Tx Books InvoiceRow
lock id s = or_throw (find_row (is_invoice id) s.invoices) invoice_not_found s

abbrev pub by_sequence : InstallmentRow → InstallmentRow → Bool
by_sequence a b = leb a.sequence b.sequence

unfoldable pub parts_of : ℕ → List InstallmentRow → List InstallmentRow
unfolding sort_by
parts_of invoice_id rows = sort_by by_sequence (select (installment_of invoice_id) rows)

abbrev pub installments_of : ℕ → Tx Books (List InstallmentRow)
installments_of invoice_id = gets (λ s. parts_of invoice_id s.installments)

abbrev pub amounts : List InstallmentRow → ℕ
amounts = sum_of (λ (p : InstallmentRow). p.amount)

abbrev pub paid_amounts : List InstallmentRow → ℕ
paid_amounts = sum_of (λ (p : InstallmentRow). p.paid_amount)

abbrev pub keep_void : InvoiceStatus → InvoiceStatus → InvoiceStatus
keep_void void computed = void
keep_void _ computed = computed

-- The row that `settle` writes, from the row before and the instalments.
unfoldable pub settled_row : InvoiceRow → List InstallmentRow → Actor → InvoiceRow
settled_row before parts actor = record before {
  total = amounts parts;
  paid_total = paid_amounts parts;
  discount_total = before.subtotal - amounts parts;
  status = keep_void before.status (invoice_status_for (amounts parts) (paid_amounts parts));
  updated_by = actor.user_id;
  version = before.version + 1;
}

-- `settle`. The checks of the table refuse a total above the subtotal, or less than what is paid.
unfoldable pub settle : ℕ → Actor → Tx Books (Unit {0})
unfolding lock settled_row parts_of
settle invoice_id actor = do
  before ← lock invoice_id
  parts ← installments_of invoice_id
  let row = settled_row before parts actor
  throw_unless (invoice_checks row) check_violation
  modify (λ s. record s { invoices = update_where (is_invoice invoice_id) (λ _. row) s.invoices })

abbrev pub is_closed : InvoiceStatus → Bool
is_closed void = true
is_closed paid = true
is_closed _ = false

-- `UPDATE installments SET … WHERE id = …`: refused when a row does not fit the table's checks.
unfoldable pub update_rows :
    ℕ
    → (InstallmentRow → Bool)
    → (InstallmentRow → InstallmentRow)
    → List InstallmentRow
    → Result (List InstallmentRow)
update_rows id fits f rows =
    if all fits (select (with_id id) rows)
    then ok (update_where (with_id id) f rows)
    else err check_violation

abbrev pub then_rows :
    Result (List InstallmentRow)
    → (List InstallmentRow → Result (List InstallmentRow))
    → Result (List InstallmentRow)
then_rows (ok rows) f = f rows
then_rows (err e) f = err e

abbrev pub on_installments :
    (List InstallmentRow → Result (List InstallmentRow)) → Tx Books (Unit {0})
on_installments = on_part (λ s. s.installments) (λ rows s. record s { installments = rows })

-- The loop that writes the new amounts of a discount.
unfoldable pub cut_rows : List Change → List InstallmentRow → Result (List InstallmentRow)
unfolding update_rows
cut_rows [] rows = ok rows
cut_rows (c ∷ changes) rows =
    then_rows
      (update_rows c.installment_id (λ (r : InstallmentRow). leb r.paid_amount c.new_amount)
        (λ (r : InstallmentRow). record r { amount = c.new_amount }) rows)
      (cut_rows changes)

-- An approved discount: its kind, value and reason, and the request that it answers.
pub record Discount : Type 0 where
  pub kind : DiscountKind
  pub value : ℕ
  pub reason_code : String
  pub approval_id : ℕ

-- `applyDiscount` of the service. `amount` is worked out on the invoice as it is now.
unfoldable pub apply_discount_to : ℕ → Discount → Actor → Tx Books (Unit {0})
unfolding lock cut_rows settle record_audit parts_of
apply_discount_to invoice_id discount actor = do
  invoice ← lock invoice_id
  throw_if (is_closed invoice.status) invoice_closed
  parts ← installments_of invoice_id
  let amount = discount_amount discount.kind discount.value invoice.total
  throw_if (ltb amount 1) discount_too_small
  throw_if (ltb (invoice.total - invoice.paid_total) amount) discount_too_large
  changes ← from_result (apply_discount (map state_of parts) amount)
  on_installments (cut_rows changes)
  modify (λ s. record s {
    discounts =
        s.discounts
        ++ record {
          invoice_id = invoice_id;
          kind = discount.kind;
          value = discount.value;
          amount = amount;
          reason_code = discount.reason_code;
          approval_id = discount.approval_id;
        }
          ∷ [];
  })
  settle invoice_id actor
  record_audit "invoice.discount_applied" "invoice" invoice_id
