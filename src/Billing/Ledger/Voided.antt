-- ===== src/Billing/Ledger/Voided.antt =====
-- Voiding a payment takes its amount off the invoice and keeps the books sound.
use emis.Base.{
  ℕ, ◌+◌, ◌≡◌, ◌≢◌, refl, subst, ap, ◌∙◌, true, some, List, [], ◌∷◌, sum_of, ◌≤◌, map, ok, arith,
  select, find_row, find_row-holds, find_row-All, update_where, any-find_row, any-update_where, All,
  All-imp, All-map, All-update_where, Distinct-map, ==_iff,
}
use emis.Billing.Tables.{
  InvoiceRow, InstallmentRow, PaymentRow, AllocationRow, Books, installment_of,
}
use emis.Billing.Invoices.{Actor, is_invoice, settled_row, parts_of}
use emis.Billing.Invoices.Rows.{paid_of, paid_amounts-parts_of}
use emis.Billing.Payments.{is_payment, is_posted, allocation_of, void_payment}
use emis.Billing.Payments.Paying.{given_rows, lower}
use emis.Billing.Ledger.{IsSettled, IsSound, IsSoundBut, IsOwned, IsSpread, stands}
use emis.Billing.Ledger.Posting.{posted_to-void}
use emis.Billing.Ledger.Others.{settle-IsSound, IsSettled-elsewhere}
use emis.Billing.Ledger.Posted.{sum_by_id}
use emis.Billing.Ledger.Payment.{IsSound-rest}
use emis.Billing.Ledger.Money.{record_audit-books, IsSettling-found}
use emis.Billing.Ledger.Voiding.{void_row, voided_books, IsVoided, void_payment-IsVoided}

paid_of-lower :
    (k : ℕ) (money : List AllocationRow) (rows : List InstallmentRow)
    → All (λ (r : InstallmentRow). given_rows r.id money ≤ r.paid_amount) rows
    → paid_of k (map (lower money) rows)
        + sum_of (λ (r : InstallmentRow). given_rows r.id money) (select (installment_of k) rows)
      ≡ paid_of k rows
paid_of-lower k money [] h = refl
paid_of-lower k money (r ∷ rows) h = ground (arith, paid_of-lower k money rows h.1)

module _ (now payment_id : ℕ) (actor : Actor) (s s' : Books) (sound : IsSound s)
    (w : IsVoided now payment_id actor s s') where
  same_id : w.payment.id ≡ payment_id
  same_id =
      (==_iff w.payment.id payment_id).0 (find_row-holds (is_payment payment_id) s.payments w.found)

  counts : stands s.payments payment_id ≡ true
  counts =
      any-find_row (is_payment payment_id) (λ (p : PaymentRow). is_posted p.status) s.payments
        w.found w.standing

  -- The payment's money is on instalments of its own invoice.
  own : IsOwned s.installments s.allocations w.payment
  own =
      find_row-All (IsOwned s.installments s.allocations) (is_payment payment_id) s.payments
        sound.owned w.found

  voided-IsSoundBut :
      IsSoundBut w.payment.invoice_id (voided_books now actor w.payment payment_id s)
  voided-IsSoundBut =
      let money = select (allocation_of payment_id) s.allocations in
      let void = void_row now actor (w.payment.version + 1) in
      let owned_by_id : All
          (λ (r : InstallmentRow). r.invoice_id ≢ w.payment.invoice_id → given_rows r.id money ≡ 0)
          s.installments =
        subst
          (λ (j : ℕ).
            All
              (λ (r : InstallmentRow).
                r.invoice_id ≢ w.payment.invoice_id
                → given_rows r.id (select (allocation_of j) s.allocations) ≡ 0)
              s.installments)
          same_id own in
      record {
        distinct =
            Distinct-map (λ (r : InstallmentRow). r.id) (lower money) (λ r. refl) s.installments
              sound.distinct;
        within = w.within sound.within;
        settled =
            All-imp
              (λ i e n.
                IsSettled-elsewhere w.payment.invoice_id (lower money) (λ r. refl) i s.installments
                  (All-imp (λ r z e. (refl, omega (arith, z e))) s.installments owned_by_id) n e)
              s.invoices sound.settled;
        ledger = All-map _ (lower money) s.installments (
            All-imp
              (λ r e. omega (
                arith,
                posted_to-void payment_id void (λ p. refl) (λ p. refl) s.payments s.allocations r.id
                    counts,
              ))
              s.installments sound.ledger);
        linked =
            All-imp
              (λ (a : AllocationRow) e.
                any-update_where (is_payment a.payment_id) (is_payment payment_id) void (λ p. refl)
                  s.payments
                ∙ e)
              s.allocations sound.linked;
        owned =
            All-imp
              (λ p o. All-map _ (lower money) s.installments (All-imp (λ r z. z) s.installments o))
              (update_where (is_payment payment_id) void s.payments)
              (All-update_where (is_payment payment_id) void (λ p o. o) s.payments sound.owned);
        spread =
            All-imp
              (λ (p : PaymentRow) e.
                sum_by_id p.invoice_id (lower money)
                  (λ (k : ℕ). given_rows k (select (allocation_of p.id) s.allocations))
                  (λ (k : ℕ). given_rows k (select (allocation_of p.id) s.allocations)) (λ r. refl)
                  (λ r. refl) (λ k. refl) s.installments
                ∙ e)
              (update_where (is_payment payment_id) void s.payments)
              (All-update_where (is_payment payment_id) void (λ p o. o) s.payments sound.spread);
      }

  pub voided-IsSound : IsSound s'
  voided-IsSound =
      let settled =
        settle-IsSound w.payment.invoice_id actor _ w.settled w.settling voided-IsSoundBut in
      let e = record_audit-books "payment.voided" "payment" payment_id w.settled s' w.result in
      IsSound-rest w.settled s' settled cc

  -- What is given to an instalment has been paid on it, so taking it off is exact.
  given-≤-paid :
      All
        (λ (r : InstallmentRow).
          given_rows r.id (select (allocation_of payment_id) s.allocations) ≤ r.paid_amount)
        s.installments
  given-≤-paid =
      All-imp
        (λ r e. omega (
          arith,
          posted_to-void payment_id (void_row now actor (w.payment.version + 1)) (λ p. refl)
              (λ p. refl) s.payments s.allocations r.id counts,
        ))
        s.installments sound.ledger

  pub voided-invoice :
      (before : InvoiceRow)
      → find_row (is_invoice w.payment.invoice_id) s.invoices ≡ some before
      → (after : InvoiceRow) × (find_row (is_invoice w.payment.invoice_id) s'.invoices ≡ some after)
        × (after.paid_total + w.payment.amount ≡ before.paid_total)
  unfolding settled_row
  voided-invoice before found =
      let k = w.payment.invoice_id in
      let money = select (allocation_of payment_id) s.allocations in
      let rows = map (lower money) s.installments in
      let after = settled_row w.settling.before (parts_of k rows) actor in
      let found_after : find_row (is_invoice k) w.settled.invoices ≡ some after =
        IsSettling-found k actor (voided_books now actor w.payment payment_id s) w.settled
          w.settling in
      let e = record_audit-books "payment.voided" "payment" payment_id w.settled s' w.result in
      let still : s'.invoices ≡ w.settled.invoices = cc in
      let settled =
        find_row-All (IsSettled s.installments) (is_invoice k) s.invoices sound.settled found in
      let same : before.id ≡ k =
        (==_iff before.id k).0 (find_row-holds (is_invoice k) s.invoices found) in
      let paid : before.paid_total ≡ paid_of k s.installments =
        settled.paid_total ∙ ap (λ (j : ℕ). paid_of j s.installments) same in
      let spread =
        find_row-All (IsSpread s.installments s.allocations) (is_payment payment_id) s.payments
          sound.spread w.found in
      let whole : sum_of (λ (r : InstallmentRow). given_rows r.id money)
            (select (installment_of k) s.installments)
          ≡ w.payment.amount =
        subst
          (λ (j : ℕ).
            sum_of
              (λ (r : InstallmentRow). given_rows r.id (select (allocation_of j) s.allocations))
              (select (installment_of k) s.installments)
            ≡ w.payment.amount)
          same_id spread in
      (
        after,
        ap (find_row (is_invoice k)) still ∙ found_after,
        omega (
          arith,
          paid_amounts-parts_of k rows,
          paid_of-lower k money s.installments given-≤-paid,
          paid,
          whole,
        ),
      )

-- Voiding a payment of sound books leaves them sound, with the invoice paid by exactly the amount
-- of the payment less.
pub void_payment_lem :
    (now payment_id approval_id : ℕ) (actor : Actor) (s s' : Books) (payment : PaymentRow)
    (invoice : InvoiceRow)
    → IsSound s
    → find_row (is_payment payment_id) s.payments ≡ some payment
    → find_row (is_invoice payment.invoice_id) s.invoices ≡ some invoice
    → void_payment now payment_id approval_id actor s ≡ ok (tt, s')
    → IsSound s'
      × (after : InvoiceRow) × (find_row (is_invoice payment.invoice_id) s'.invoices ≡ some after)
      × (after.paid_total + payment.amount ≡ invoice.paid_total)
void_payment_lem now payment_id approval_id actor s s' payment invoice sound found of_invoice h =
    let w = void_payment-IsVoided now payment_id approval_id actor s s' h in
    let same : w.payment ≡ payment = let e = w.found in cc in
    let (after, found_after, paid) = voided-invoice now payment_id actor s s' sound w invoice cc in
    (voided-IsSound now payment_id actor s s' sound w, after, cc, cc)
