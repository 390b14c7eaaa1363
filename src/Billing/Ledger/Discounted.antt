-- ===== src/Billing/Ledger/Discounted.antt =====
-- An approved discount lowers the invoice's total by its amount and keeps the books sound.
use emis.Base.{
  ℕ, ◌+◌, ◌≡◌, ◌≢◌, refl, subst, ap, ◌∙◌, some, List, [], ◌∷◌, map, ok, arith, ltb, select, sum_of,
  find_row, find_row-holds, find_row-All, All, All-imp, All-map, Distinct, Distinct-map, ==_iff,
  Bool-cases, inl, inr,
}
use emis.Billing.Flow.{Change, InstallmentState, apply_discount}
use emis.Billing.Flow.Allocating.{total_owed}
use emis.Billing.Flow.Discounting.{
  amount_after, apply_discount_lem, apply_discount-error_iff, Spares,
}
use emis.Billing.Flow.Changes.{
  change_id, written-Spares, written-amount_after, apply_discount-Distinct, apply_discount-Spares,
}
use emis.Billing.Tables.{InvoiceRow, InstallmentRow, Books, installment_of, state_of}
use emis.Billing.Invoices.{Actor, Discount, is_invoice, parts_of, settled_row, apply_discount_to}
use emis.Billing.Invoices.Rows.{amounts_of, paid_of, amounts-parts_of, paid_amounts-parts_of}
use emis.Billing.Ledger.{IsSettled, IsSound, IsSoundBut}
use emis.Billing.Ledger.Others.{settle-IsSound, IsSettled-elsewhere}
use emis.Billing.Ledger.Posted.{sum_by_id}
use emis.Billing.Ledger.Spreading.{states, elsewhere, Lacks-states, Distinct-states, sum_of-states}
use emis.Billing.Ledger.Payment.{IsSound-rest}
use emis.Billing.Ledger.Money.{record_audit-books, IsSettling-found}
use emis.Billing.Ledger.Discounts.{
  recut, cut_books, amount_on, IsDiscounted, apply_discount_to-IsDiscounted,
}

paid_of-recut :
    (k : ℕ) (changes : List Change) (rows : List InstallmentRow)
    → paid_of k (map (recut changes) rows) ≡ paid_of k rows
paid_of-recut k changes [] = refl
paid_of-recut k changes (r ∷ rows) = ground (arith, paid_of-recut k changes rows)

amounts_of-recut :
    (k : ℕ) (changes : List Change) (rows : List InstallmentRow)
    → Distinct change_id changes
    → amounts_of k (map (recut changes) rows)
      ≡ sum_of
          (λ (r : InstallmentRow). amount_after changes (state_of r))
          (select (installment_of k) rows)
amounts_of-recut k changes [] d = refl
amounts_of-recut k changes (r ∷ rows) d =
    ground (arith, amounts_of-recut k changes rows d, written-amount_after changes (state_of r) d)

-- A discount that is not refused takes exactly its amount off the instalments.
applied-total :
    (installments : List InstallmentState) (amount : ℕ) (changes : List Change)
    → Distinct (λ (i : InstallmentState). i.id) installments
    → apply_discount installments amount ≡ ok changes
    → sum_of (amount_after changes) installments + amount
      ≡ sum_of (λ (i : InstallmentState). i.amount) installments
applied-total installments amount changes d h =
    elim (Bool-cases (ltb (total_owed installments) amount)) [
      | inl t ↦
          let refused = (apply_discount-error_iff installments amount).1 (ground arith) in
          absurd (ground arith)
      | inr t ↦
          let (found, applied, total, within) =
            apply_discount_lem installments amount d (ground arith) in
          let same : found ≡ changes = ground arith in
          subst
            (λ (cs : List Change).
              sum_of (amount_after cs) installments + amount
              ≡ sum_of (λ (i : InstallmentState). i.amount) installments)
            same total
    ]

module _ (k : ℕ) (discount : Discount) (actor : Actor) (s s' : Books) (sound : IsSound s)
    (w : IsDiscounted k discount actor s s') where
  distinct : Distinct change_id w.changes
  distinct =
      apply_discount-Distinct (states k s.installments) (amount_on discount w.invoice) w.changes
        (Distinct-states k s.installments sound.distinct) w.cut

  -- The changes are for instalments of this invoice only.
  spared : All (λ (r : InstallmentRow). r.invoice_id ≢ k → Spares r.id w.changes) s.installments
  spared =
      All-imp
        (λ r h n.
          apply_discount-Spares r.id (states k s.installments) (amount_on discount w.invoice)
            w.changes (Lacks-states r.id k s.installments (h n)) w.cut)
        s.installments (elsewhere k s.installments sound.distinct)

  discounted-IsSoundBut : IsSoundBut k (cut_books w.changes w.row s)
  discounted-IsSoundBut = record {
    distinct =
        Distinct-map (λ (r : InstallmentRow). r.id) (recut w.changes) (λ r. refl) s.installments
          sound.distinct;
    within = w.within sound.within;
    settled =
        All-imp
          (λ i e n.
            IsSettled-elsewhere k (recut w.changes) (λ r. refl) i s.installments
              (All-imp (λ r h e. (written-Spares w.changes r.id r.amount (h e), refl))
                s.installments spared)
              n e)
          s.invoices sound.settled;
    ledger =
        All-map _ (recut w.changes) s.installments (All-imp (λ r e. e) s.installments sound.ledger);
    linked = sound.linked;
    owned =
        All-imp
          (λ p o. All-map _ (recut w.changes) s.installments (All-imp (λ r z. z) s.installments o))
          s.payments sound.owned;
    spread =
        All-imp
          (λ p e.
            sum_by_id p.invoice_id (recut w.changes) _ _ (λ r. refl) (λ r. refl) (λ j. refl)
              s.installments
            ∙ e)
          s.payments sound.spread;
  }

  pub discounted-IsSound : IsSound s'
  discounted-IsSound =
      let settled = settle-IsSound k actor _ w.settled w.settling discounted-IsSoundBut in
      let e = record_audit-books "invoice.discount_applied" "invoice" k w.settled s' w.result in
      IsSound-rest w.settled s' settled cc

  pub discounted-invoice :
      (after : InvoiceRow) × (find_row (is_invoice k) s'.invoices ≡ some after)
      × (after.total + amount_on discount w.invoice ≡ w.invoice.total)
      × (after.paid_total ≡ w.invoice.paid_total)
  unfolding settled_row
  discounted-invoice =
      let rows = map (recut w.changes) s.installments in
      let after = settled_row w.settling.before (parts_of k rows) actor in
      let found_after : find_row (is_invoice k) w.settled.invoices ≡ some after =
        IsSettling-found k actor (cut_books w.changes w.row s) w.settled w.settling in
      let e = record_audit-books "invoice.discount_applied" "invoice" k w.settled s' w.result in
      let still : s'.invoices ≡ w.settled.invoices = cc in
      let settled =
        find_row-All (IsSettled s.installments) (is_invoice k) s.invoices sound.settled w.found in
      let same : w.invoice.id ≡ k =
        (==_iff w.invoice.id k).0 (find_row-holds (is_invoice k) s.invoices w.found) in
      let total : w.invoice.total ≡ amounts_of k s.installments =
        settled.total ∙ ap (λ (j : ℕ). amounts_of j s.installments) same in
      let paid : w.invoice.paid_total ≡ paid_of k s.installments =
        settled.paid_total ∙ ap (λ (j : ℕ). paid_of j s.installments) same in
      (
        after,
        ap (find_row (is_invoice k)) still ∙ found_after,
        omega (
          arith,
          amounts-parts_of k rows,
          amounts_of-recut k w.changes s.installments distinct,
          applied-total (states k s.installments) (amount_on discount w.invoice) w.changes
              (Distinct-states k s.installments sound.distinct) w.cut,
          sum_of-states (amount_after w.changes) k s.installments,
          sum_of-states (λ (i : InstallmentState). i.amount) k s.installments,
          total,
        ),
        omega (arith, paid_amounts-parts_of k rows, paid_of-recut k w.changes s.installments, paid),
      )

-- Applying a discount to an invoice of sound books leaves them sound, with the invoice's total lower
-- by exactly the discount's amount, which the service works out on the total as it was, and what is
-- paid unchanged.
pub apply_discount_to_lem :
    (k : ℕ) (discount : Discount) (actor : Actor) (s s' : Books) (invoice : InvoiceRow)
    → IsSound s
    → find_row (is_invoice k) s.invoices ≡ some invoice
    → apply_discount_to k discount actor s ≡ ok (tt, s')
    → IsSound s'
      × (after : InvoiceRow) × (find_row (is_invoice k) s'.invoices ≡ some after)
      × (after.total + amount_on discount invoice ≡ invoice.total)
      × (after.paid_total ≡ invoice.paid_total)
apply_discount_to_lem k discount actor s s' invoice sound found h =
    let w = apply_discount_to-IsDiscounted k discount actor s s' h in
    let same : w.invoice ≡ invoice = let e = w.found in cc in
    let (after, found_after, total, paid) = discounted-invoice k discount actor s s' sound w in
    (discounted-IsSound k discount actor s s' sound w, after, found_after, cc, cc)
