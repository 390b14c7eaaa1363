-- ===== src/Billing/Approvals/Carrying.antt =====
-- What a decision does to the money.
use emis.Base.{ℕ, ◌+◌, ◌≡◌, subst, ap, ◌∙◌, some, ok, Tx, find_row, arith}
use emis.Billing.Flow.{discount_amount}
use emis.Billing.Tables.{
  ApprovalRow, ApprovalPayload, discount, payment_void, Books, InvoiceRow, PaymentRow,
}
use emis.Billing.Invoices.{Actor, Discount, is_invoice, apply_discount_to}
use emis.Billing.Payments.{is_payment, void_payment}
use emis.Billing.Approvals.{Decision, approve, reject, carry_out}
use emis.Billing.Ledger.{IsSound}
use emis.Billing.Ledger.Money.{record_audit-books}
use emis.Billing.Ledger.Voiding.{void_payment-IsVoided}
use emis.Billing.Ledger.Voided.{voided-IsSound, voided-invoice}
use emis.Billing.Ledger.Discounts.{apply_discount_to-IsDiscounted}
use emis.Billing.Ledger.Discounted.{discounted-IsSound, discounted-invoice}

-- What was asked for has happened: the invoice's total is lower by the discount, or the invoice is paid
-- by the amount of the payment less.
abbrev pub IsChanged : ApprovalPayload → ℕ → Books → Books → Type 0
IsChanged (ApprovalPayload.discount kind value reason_code) subject_id s s' =
    (before : InvoiceRow) × (find_row (is_invoice subject_id) s.invoices ≡ some before)
    × (after : InvoiceRow) × (find_row (is_invoice subject_id) s'.invoices ≡ some after)
    × (after.total + discount_amount kind value before.total ≡ before.total)
    × (after.paid_total ≡ before.paid_total)
IsChanged ApprovalPayload.payment_void subject_id s s' =
    (payment : PaymentRow) × (find_row (is_payment subject_id) s.payments ≡ some payment)
    × (before : InvoiceRow) × (find_row (is_invoice payment.invoice_id) s.invoices ≡ some before)
    × (after : InvoiceRow) × (find_row (is_invoice payment.invoice_id) s'.invoices ≡ some after)
    × (after.paid_total + payment.amount ≡ before.paid_total)

-- An approval changes what was asked for, and a rejection nothing.
abbrev pub IsCarried : Decision → ApprovalRow → Books → Books → Type 0
IsCarried approve request s s' = IsChanged request.payload request.subject_id s s'
IsCarried reject request s s' =
    (s'.invoices ≡ s.invoices) × (s'.installments ≡ s.installments) × (s'.payments ≡ s.payments)

pub IsCarried-rest :
    (decision : Decision) (request : ApprovalRow) (s t s' : Books)
    → IsCarried decision request s t
    → s'.invoices ≡ t.invoices
    → s'.installments ≡ t.installments
    → s'.payments ≡ t.payments
    → IsCarried decision request s s'
IsCarried-rest reject request s t s' w i j k = (i ∙ w.0, j ∙ w.1, k ∙ w.2)
IsCarried-rest approve request s t s' w i j k = go request.payload w
  where
    go :
        (payload : ApprovalPayload)
        → IsChanged payload request.subject_id s t
        → IsChanged payload request.subject_id s s'
    go (ApprovalPayload.discount kind value reason_code)
          (before, found, after, found_after, total, paid) =
        (
          before,
          found,
          after,
          ap (find_row (is_invoice request.subject_id)) i ∙ found_after,
          total,
          paid,
        )
    go ApprovalPayload.payment_void (payment, paid, before, found, after, found_after, rest) = (
      payment,
      paid,
      before,
      found,
      after,
      ap (find_row (is_invoice payment.invoice_id)) i ∙ found_after,
      rest,
    )

-- The change of money is as it should be, and keeps the books sound and the requests as they are.
pub carry_out-IsSound :
    (now : ℕ) (request : ApprovalRow) (decision : Decision) (actor : Actor) (s s' : Books)
    → IsSound s
    → carry_out now request decision actor s ≡ ok (tt, s')
    → IsSound s' × (s'.approvals ≡ s.approvals) × IsCarried decision request s s'
unfolding carry_out
carry_out-IsSound now request reject actor s s' sound h =
    let same : s ≡ s' = ground arith in (subst IsSound same sound, cc, (cc, cc, cc))
carry_out-IsSound now request approve actor s s' sound h = go request.payload h
  where
    step : ApprovalPayload → Tx Books (Unit {0})
    step payload = elim payload [
      | discount kind value reason_code ↦
          apply_discount_to request.subject_id
            (record {
              kind = kind;
              value = value;
              reason_code = reason_code;
              approval_id = request.id;
            })
            actor
      | payment_void ↦ void_payment now request.subject_id request.id actor
    ]

    go :
        (payload : ApprovalPayload)
        → step payload s ≡ ok (tt, s')
        → IsSound s' × (s'.approvals ≡ s.approvals) × IsChanged payload request.subject_id s s'
    go (ApprovalPayload.discount kind value reason_code) h' =
        let d : Discount = record {
          kind = kind;
          value = value;
          reason_code = reason_code;
          approval_id = request.id;
        } in
        let w = apply_discount_to-IsDiscounted request.subject_id d actor s s' h' in
        let e =
          record_audit-books "invoice.discount_applied" "invoice" request.subject_id w.settled s'
            w.result in
        let r = w.settling.result in
        let (after, found_after, total, paid) =
          discounted-invoice request.subject_id d actor s s' sound w in
        (
          discounted-IsSound request.subject_id d actor s s' sound w,
          cc,
          (w.invoice, w.found, after, found_after, total, paid),
        )
    go ApprovalPayload.payment_void h' =
        let w = void_payment-IsVoided now request.subject_id request.id actor s s' h' in
        let e =
          record_audit-books "payment.voided" "payment" request.subject_id w.settled s' w.result in
        let r = w.settling.result in
        let (after, found_after, paid) =
          voided-invoice now request.subject_id actor s s' sound w w.settling.before
            w.settling.found in
        (
          voided-IsSound now request.subject_id actor s s' sound w,
          cc,
          (w.payment, w.found, w.settling.before, w.settling.found, after, found_after, paid),
        )
