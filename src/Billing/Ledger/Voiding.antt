-- ===== src/Billing/Ledger/Voiding.antt =====
-- What voiding a payment did, once it went through.
use emis.Base.{
  ℕ, ◌+◌, ◌≡◌, subst, ap, ◌∙◌, true, some, map, ok, ◌>>=◌, ◌>>◌, >>=-eq-ok, throw_unless,
  throw_unless-ok, or_throw-ok, arith, select, find_row, find_row-holds, update_where, All, ==_iff,
  payment_not_found, payment_not_posted, invoice_not_found,
}
use emis.Billing.Tables.{
  InvoiceRow, PaymentRow, ReceiptRow, ReceiptStatus, PaymentStatus, Books, record_audit,
}
use emis.Billing.Invoices.{Actor, lock, is_invoice, on_installments, settle}
use emis.Billing.Invoices.Rows.{IsWithin}
use emis.Billing.Payments.{
  is_payment, is_receipt, is_posted, allocation_of, payment_row, refund_rows, void_payment,
}
use emis.Billing.Payments.Paying.{lower, refund_rows_lem}
use emis.Billing.Ledger.Others.{IsSettling, settle-IsSettling}
use emis.Billing.Ledger.Recording.{installed-ok}

abbrev pub void_row : ℕ → Actor → ℕ → PaymentRow → PaymentRow
void_row now actor version p = record p {
  status = PaymentStatus.voided;
  voided_at = some now;
  updated_by = actor.user_id;
  version = version;
}

-- The books before `settle`: the payment and its receipt voided, the instalments lowered.
abbrev pub voided_books : ℕ → Actor → PaymentRow → ℕ → Books → Books
voided_books now actor payment payment_id s = record s {
  installments = map (lower (select (allocation_of payment_id) s.allocations)) s.installments;
  payments =
      update_where (is_payment payment_id) (void_row now actor (payment.version + 1)) s.payments;
  receipts =
      update_where (is_receipt payment_id)
        (λ (r : ReceiptRow). record r { status = ReceiptStatus.voided; voided_at = some now })
        s.receipts;
}

-- What a successful void did, step by step.
pub record IsVoided (now payment_id : ℕ) (actor : Actor) (s s' : Books) : Type 0 where
  pub payment : PaymentRow
  pub found : find_row (is_payment payment_id) s.payments ≡ some payment
  pub standing : is_posted payment.status ≡ true
  pub within :
      All IsWithin s.installments
      → All IsWithin (map (lower (select (allocation_of payment_id) s.allocations)) s.installments)
  pub settled : Books
  pub settling :
      IsSettling payment.invoice_id actor (voided_books now actor payment payment_id s) settled
  pub result : record_audit "payment.voided" "payment" payment_id settled ≡ ok (tt, s')

pub void_payment-IsVoided :
    (now payment_id approval_id : ℕ) (actor : Actor) (s s' : Books)
    → void_payment now payment_id approval_id actor s ≡ ok (tt, s')
    → IsVoided now payment_id actor s s'
unfolding void_payment payment_row lock
void_payment-IsVoided now payment_id approval_id actor s s' h =
    let log = record_audit "payment.voided" "payment" payment_id in
    let close = λ (invoice : InvoiceRow). settle invoice.id actor >> log in
    let mark = λ (invoice : InvoiceRow) (payment : PaymentRow) (t : Books).
      close invoice (record t {
        payments =
            update_where (is_payment payment_id) (void_row now actor (payment.version + 1))
              t.payments;
        receipts =
            update_where (is_receipt payment_id)
              (λ (r : ReceiptRow). record r { status = ReceiptStatus.voided; voided_at = some now })
              t.receipts;
      }) in
    let refund = λ (invoice : InvoiceRow) (payment : PaymentRow) (t : Books).
      (on_installments (refund_rows (select (allocation_of payment_id) t.allocations))
          >> mark invoice payment)
        t in
    let again = λ (invoice : InvoiceRow) (payment : PaymentRow).
      throw_unless (is_posted payment.status) payment_not_posted >> refund invoice payment in
    let locked = λ (invoice : InvoiceRow). payment_row payment_id >>= again invoice in
    let first = λ (found : PaymentRow). lock found.invoice_id >>= locked in
    let (p0, found0, h1) =
      or_throw-ok (find_row (is_payment payment_id) s.payments) payment_not_found first s h in
    let (invoice, locked_row, h2) =
      or_throw-ok (find_row (is_invoice p0.invoice_id) s.invoices) invoice_not_found locked s h1 in
    let (payment, found, h3) =
      or_throw-ok (find_row (is_payment payment_id) s.payments) payment_not_found (again invoice) s
        h2 in
    let (standing, h4) =
      throw_unless-ok (is_posted payment.status) payment_not_posted (refund invoice payment) s h3 in
    let (rows, got_rows, h5) =
      installed-ok (refund_rows (select (allocation_of payment_id) s.allocations))
        (mark invoice payment) s h4 in
    let (is_rows, keeps) =
      refund_rows_lem (select (allocation_of payment_id) s.allocations) s.installments rows
        got_rows in
    let voided = voided_books now actor payment payment_id s in
    let (u, settled, h6, h7) =
      >>=-eq-ok (settle invoice.id actor) (λ _. log) (record voided { installments = rows }) h5 in
    let same : invoice.id ≡ payment.invoice_id =
      let p0_is : p0 ≡ payment = ground arith in
      (==_iff invoice.id p0.invoice_id).0
        (find_row-holds (is_invoice p0.invoice_id) s.invoices locked_row)
      ∙ ap (λ (p : PaymentRow). p.invoice_id) p0_is in
    record {
      payment = payment;
      found = found;
      standing = standing;
      within = λ w. subst (All IsWithin) is_rows (keeps w);
      settled = settled;
      settling = settle-IsSettling payment.invoice_id actor voided settled (
          subst (λ (k : ℕ). settle k actor voided ≡ ok (tt, settled)) same
            (subst
              (λ rows.
                settle invoice.id actor (record voided { installments = rows }) ≡ ok (tt, settled))
              is_rows h6));
      result = h7;
    }
