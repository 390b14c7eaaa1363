-- ===== src/Billing/Ledger/Payment.antt =====
-- What `record` comes to: every check passed, the invoice paid by exactly the amount, a receipt with
-- the next number, and sound books.
use text.Mathlib.Text.{◌==◌ as str_eq}
use emis.Base.{
  ℕ, ◌-◌, ◌≡◌, refl, sym, subst, true, false, String, none, some, List, [], ◌∷◌, ◌++◌, map, Result,
  ok, err, ◌>>=◌, ◌>>◌, >>=-eq-ok, throw_if, throw_unless, throw_if-ok, throw_unless-ok,
  or_throw-ok, arith, any, find_row, ltb, unknown_provider, unsupported_method, invoice_not_found,
  invoice_closed, overpayment, permission_denied,
}
use emis.Access.{Grant, at_branch, has_permission, assert_scope}
use emis.Settings.Numbering.{next, IssuedNumber, Counter}
use emis.Billing.Flow.{allocate_payment}
use emis.Billing.Tables.{InvoiceRow, ReceiptRow, ReceiptStatus, Books, record_audit, state_of}
use emis.Billing.Invoices.{Actor, lock, parts_of, is_closed, is_invoice}
use emis.Billing.Payments.{
  Setting, PaymentProvider, RecordPayment, find_provider, new_payment, post_payment, issue_receipt,
  insert_receipt, record_payment,
}
use emis.Billing.Ledger.{IsSound}
use emis.Billing.Ledger.Recording.{IsPosting, post_payment-IsPosting}
use emis.Billing.Ledger.Spreading.{states}

-- The receipt that a payment gets.
abbrev pub new_receipt : ℕ → ℕ → IssuedNumber → ReceiptRow
new_receipt payment_id branch_id issued = record {
  payment_id = payment_id;
  number = issued.number;
  branch_id = branch_id;
  status = ReceiptStatus.issued;
  voided_at = none;
}

-- What issuing a receipt did.
pub record IsReceipted (env : Setting) (payment_id branch_id : ℕ) (s s' : Books) : Type 0 where
  pub issued : IssuedNumber
  pub counters : List Counter
  pub numbered :
      next env.numbers env.today "receipt" (some branch_id) s.counters ≡ ok (issued, counters)
  pub result : s' ≡ record s {
    counters = counters;
    receipts = s.receipts ++ new_receipt payment_id branch_id issued ∷ [];
  }

issue_receipt-IsReceipted :
    (env : Setting) (payment_id branch_id : ℕ) (s s' : Books)
    → issue_receipt env payment_id branch_id s ≡ ok (tt, s')
    → IsReceipted env payment_id branch_id s s'
unfolding issue_receipt
issue_receipt-IsReceipted env payment_id branch_id s s' h =
    go (next env.numbers env.today "receipt" (some branch_id) s.counters) refl h
  where
    counted : Result (IssuedNumber × List Counter) → Result (IssuedNumber × Books)
    counted r = elim r [
      | ok (a, counters) ↦ ok (a, record s { counters = counters })
      | err e ↦ err e
    ]

    go :
        (r : Result (IssuedNumber × List Counter))
        → next env.numbers env.today "receipt" (some branch_id) s.counters ≡ r
        → (elim (counted r) [
          | ok (issued, t) ↦ insert_receipt (new_receipt payment_id branch_id issued) t
          | err e ↦ err e
        ])
          ≡ ok (tt, s')
        → IsReceipted env payment_id branch_id s s'
    go (ok (issued, counters)) e h' = record {
      issued = issued;
      counters = counters;
      numbered = e;
      result = ground arith;
    }
    go (err x) e h' = cc

-- Receipts, discounts, requests, counters and the audit log do not matter to soundness.
pub IsSound-rest :
    (s s' : Books)
    → IsSound s
    → s' ≡ record s {
      receipts = s'.receipts;
      discounts = s'.discounts;
      approvals = s'.approvals;
      counters = s'.counters;
      audit = s'.audit;
    }
    → IsSound s'
IsSound-rest s s' sound e = subst IsSound (sym e) (record {
  distinct = sound.distinct;
  within = sound.within;
  settled = sound.settled;
  ledger = sound.ledger;
  linked = sound.linked;
  owned = sound.owned;
  spread = sound.spread;
})

ltb_zero : (n : ℕ) → ltb 0 n ≡ false → n ≡ 0
ltb_zero n h = ground arith

-- What a successful `record` did, step by step.
pub record IsRecorded (env : Setting) (input : RecordPayment) (grants : List Grant) (actor : Actor)
    (provider_key : String) (s s' : Books) : Type 0 where
  pub provider : PaymentProvider
  pub known : find_provider env.providers provider_key ≡ some provider
  pub taken : any (λ m. str_eq m input.method) provider.methods ≡ true
  pub invoice : InvoiceRow
  pub found : find_row (is_invoice input.invoice_id) s.invoices ≡ some invoice
  pub allowed : has_permission grants "billing.receive" (at_branch invoice.branch_id) ≡ true
  pub open_for : is_closed invoice.status ≡ false
  pub covered : (allocate_payment (states invoice.id s.installments) input.amount).1 ≡ 0
  pub posted : Books
  pub posting :
      IsPosting
        (new_payment env provider input invoice actor)
        (allocate_payment (states invoice.id s.installments) input.amount).0
        actor
        s
        posted
  pub receipted : Books
  pub receipting : IsReceipted env env.payment_id invoice.branch_id posted receipted
  pub result : record_audit "payment.recorded" "payment" env.payment_id receipted ≡ ok (tt, s')

pub record_payment-IsRecorded :
    (env : Setting) (input : RecordPayment) (grants : List Grant) (actor : Actor)
    (provider_key : String) (s s' : Books)
    → record_payment env input grants actor provider_key s ≡ ok (tt, s')
    → IsRecorded env input grants actor provider_key s s'
unfolding record_payment lock assert_scope
record_payment-IsRecorded env input grants actor provider_key s s' h =
    let log = record_audit "payment.recorded" "payment" env.payment_id in
    let money =
      λ (invoice : InvoiceRow). allocate_payment (states invoice.id s.installments) input.amount in
    let post = λ (provider : PaymentProvider) (invoice : InvoiceRow).
      post_payment (new_payment env provider input invoice actor) (money invoice).0 actor in
    let finish =
      λ (invoice : InvoiceRow). issue_receipt env env.payment_id invoice.branch_id >> log in
    let pay = λ (provider : PaymentProvider) (invoice : InvoiceRow).
      throw_if (ltb 0 (money invoice).1) (overpayment (invoice.total - invoice.paid_total))
      >> (post provider invoice >> finish invoice) in
    let check = λ (provider : PaymentProvider) (invoice : InvoiceRow).
      throw_if (is_closed invoice.status) invoice_closed >> (λ (t : Books).
        let parts = parts_of invoice.id t.installments in
        let (allocations, remainder) = allocate_payment (map state_of parts) input.amount in
        (throw_if (ltb 0 remainder) (overpayment (invoice.total - invoice.paid_total))
            >> (post_payment (new_payment env provider input invoice actor) allocations actor
                >> finish invoice))
          t) in
    let scoped = λ (provider : PaymentProvider) (invoice : InvoiceRow).
      assert_scope grants "billing.receive" (at_branch invoice.branch_id)
      >> check provider invoice in
    let locked = λ (provider : PaymentProvider). lock input.invoice_id >>= scoped provider in
    let methods = λ (provider : PaymentProvider).
      throw_unless (any (λ m. str_eq m input.method) provider.methods) unsupported_method
      >> locked provider in
    let (provider, known, h1) =
      or_throw-ok (find_provider env.providers provider_key) unknown_provider methods s h in
    let (taken, h2) =
      throw_unless-ok (any (λ m. str_eq m input.method) provider.methods) unsupported_method
        (locked provider) s h1 in
    let (invoice, found, h3) =
      or_throw-ok (find_row (is_invoice input.invoice_id) s.invoices) invoice_not_found
        (scoped provider) s h2 in
    let (allowed, h4) =
      throw_unless-ok (has_permission grants "billing.receive" (at_branch invoice.branch_id))
        permission_denied (check provider invoice) s h3 in
    let (open_for, h5) = throw_if-ok (is_closed invoice.status) invoice_closed _ s h4 in
    let (covered, h6) =
      throw_if-ok (ltb 0 (money invoice).1) (overpayment (invoice.total - invoice.paid_total))
        (post provider invoice >> finish invoice) s h5 in
    let (u1, posted, h7, h8) = >>=-eq-ok (post provider invoice) (λ _. finish invoice) s h6 in
    let (u2, receipted, h9, h10) =
      >>=-eq-ok (issue_receipt env env.payment_id invoice.branch_id) (λ _. log) posted h8 in
    record {
      provider = provider;
      known = known;
      taken = taken;
      invoice = invoice;
      found = found;
      allowed = allowed;
      open_for = open_for;
      covered = ltb_zero (money invoice).1 covered;
      posted = posted;
      posting =
          post_payment-IsPosting (new_payment env provider input invoice actor) (money invoice).0
            actor s posted h7;
      receipted = receipted;
      receipting =
          issue_receipt-IsReceipted env env.payment_id invoice.branch_id posted receipted h9;
      result = h10;
    }
