-- ===== src/Billing/Ledger/Money.antt =====
-- What recording a payment comes to: sound books, and the amount on the invoice.
use emis.Base.{
  ℕ, ◌+◌, ◌≡◌, refl, subst, ap, ◌∙◌, String, some, List, ok, arith, find_row, find_row-holds,
  find_row-All, find_row-update_where, ==_iff, ==-self, map,
}
use emis.Access.{Grant}
use emis.Billing.Flow.{allocate_payment}
use emis.Billing.Flow.Allocating.{allocate_payment_sum}
use emis.Billing.Tables.{InvoiceRow, Books, record_audit}
use emis.Billing.Invoices.{Actor, is_invoice, parts_of, settled_row}
use emis.Billing.Invoices.Rows.{amounts-parts_of, paid_amounts-parts_of}
use emis.Billing.Payments.{Setting, RecordPayment, new_payment, record_payment}
use emis.Billing.Payments.Paying.{raise}
use emis.Billing.Ledger.{IsSound, IsSettled}
use emis.Billing.Ledger.Others.{IsSettling}
use emis.Billing.Ledger.Recording.{posted_books}
use emis.Billing.Ledger.Posted.{posting-IsSound}
use emis.Billing.Ledger.Spreading.{
  states, allocate_payment-GoesTo, sum-given-allocate_payment, paid_of-allocate_payment,
  amounts_of-raise,
}
use emis.Billing.Ledger.Payment.{IsRecorded, IsSound-rest, record_payment-IsRecorded}

pub record_audit-books :
    (action entity : String) (id : ℕ) (s s' : Books)
    → record_audit action entity id s ≡ ok (tt, s')
    → s' ≡ record s { audit = s'.audit }
unfolding record_audit
record_audit-books action entity id s s' h = ground arith

-- The invoice that `settle` wrote is the one that is found afterwards.
pub IsSettling-found :
    (k : ℕ) (actor : Actor) (s s' : Books) (w : IsSettling k actor s s')
    → find_row (is_invoice k) s'.invoices
      ≡ some (settled_row w.before (parts_of k s.installments) actor)
unfolding settled_row
IsSettling-found k actor s s' w =
    let row = settled_row w.before (parts_of k s.installments) actor in
    ap (λ (b : Books). find_row (is_invoice k) b.invoices) w.result
    ∙ find_row-update_where (is_invoice k) (λ _. row) (λ x e. rw w.same_id (==-self k)) s.invoices
        w.found

module _ (env : Setting) (input : RecordPayment) (grants : List Grant) (actor : Actor)
    (provider_key : String) (s s' : Books) (sound : IsSound s)
    (w : IsRecorded env input grants actor provider_key s s') where
  invoice_id : w.invoice.id ≡ input.invoice_id
  invoice_id =
      (==_iff w.invoice.id input.invoice_id).0
        (find_row-holds (is_invoice input.invoice_id) s.invoices w.found)

  IsSettled-before : IsSettled s.installments w.invoice
  IsSettled-before =
      find_row-All (IsSettled s.installments) (is_invoice input.invoice_id) s.invoices sound.settled
        w.found

  pub after_posting :
      s' ≡ record w.posted { receipts = s'.receipts; counters = s'.counters; audit = s'.audit }
  after_posting =
      let e =
        record_audit-books "payment.recorded" "payment" env.payment_id w.receipted s' w.result in
      let r = w.receipting.result in cc

  pub recorded-IsSound : IsSound s'
  recorded-IsSound =
      let money = (allocate_payment (states w.invoice.id s.installments) input.amount).0 in
      let p = new_payment env w.provider input w.invoice actor in
      let posted : IsSound w.posted =
        posting-IsSound p money s sound w.posting.fresh actor w.posted w.posting refl
          (allocate_payment-GoesTo w.invoice.id input.amount s.installments sound.distinct)
          (omega (
            arith,
            sum-given-allocate_payment w.invoice.id input.amount s.installments sound.distinct,
            (allocate_payment_sum (states w.invoice.id s.installments) input.amount).0,
            w.covered,
          )) in
      let e = after_posting in IsSound-rest w.posted s' posted cc

  pub recorded-invoice :
      (after : InvoiceRow) × (find_row (is_invoice input.invoice_id) s'.invoices ≡ some after)
      × (after.paid_total ≡ w.invoice.paid_total + input.amount)
      × (after.total ≡ w.invoice.total)
  unfolding settled_row
  recorded-invoice =
      let k = w.invoice.id in
      let money = (allocate_payment (states k s.installments) input.amount).0 in
      let p = new_payment env w.provider input w.invoice actor in
      let after =
        settled_row w.posting.settling.before (parts_of k (map (raise money) s.installments))
          actor in
      let found : find_row (is_invoice k) w.posted.invoices ≡ some after =
        IsSettling-found k actor (posted_books p money s) w.posted w.posting.settling in
      let still : s'.invoices ≡ w.posted.invoices = let e = after_posting in cc in
      (
        after,
        subst (λ j. find_row (is_invoice j) s'.invoices ≡ some after) invoice_id
            (ap (find_row (is_invoice k)) still ∙ found),
        omega (
          arith,
          paid_amounts-parts_of k (map (raise money) s.installments),
          paid_of-allocate_payment k input.amount s.installments sound.distinct,
          IsSettled-before.paid_total,
          (allocate_payment_sum (states k s.installments) input.amount).0,
          w.covered,
        ),
        omega (
          arith,
          amounts-parts_of k (map (raise money) s.installments),
          amounts_of-raise k money s.installments,
          IsSettled-before.total,
        ),
      )

-- Recording a payment on sound books leaves them sound, and the invoice paid by exactly the amount
-- of the payment more, its total unchanged.
pub record_payment_lem :
    (env : Setting) (input : RecordPayment) (grants : List Grant) (actor : Actor)
    (provider_key : String) (s s' : Books) (invoice : InvoiceRow)
    → IsSound s
    → find_row (is_invoice input.invoice_id) s.invoices ≡ some invoice
    → record_payment env input grants actor provider_key s ≡ ok (tt, s')
    → IsSound s'
      × (after : InvoiceRow) × (find_row (is_invoice input.invoice_id) s'.invoices ≡ some after)
      × (after.paid_total ≡ invoice.paid_total + input.amount)
      × (after.total ≡ invoice.total)
record_payment_lem env input grants actor provider_key s s' invoice sound found h =
    let w = record_payment-IsRecorded env input grants actor provider_key s s' h in
    let same : w.invoice ≡ invoice = let e = w.found in cc in
    let (after, found', paid, total) =
      recorded-invoice env input grants actor provider_key s s' sound w in
    (recorded-IsSound env input grants actor provider_key s s' sound w, after, found', cc, cc)
