-- ===== src/Billing/Ledger/Posted.antt =====
-- Posting a payment keeps the books sound.
use emis.Base.{
  ℕ, ◌+◌, ◌≡◌, ◌≢◌, refl, subst, ap, ◌∙◌, true, false, List, [], ◌∷◌, ◌++◌, map, arith, any, select,
  sum_of, All, All-append, All-imp, All-zip, All-map, any-append, select-append, Distinct-map,
  Lacks, ◌==◌, if◌then◌else◌,
}
use emis.Billing.Flow.{Allocation}
use emis.Billing.Tables.{
  InvoiceRow, InstallmentRow, PaymentRow, AllocationRow, Books, installment_of,
}
use emis.Billing.Invoices.{Actor}
use emis.Billing.Payments.{is_payment, is_posted, allocation_of}
use emis.Billing.Payments.Paying.{given, given_rows, raise}
use emis.Billing.Ledger.{IsSettled, IsSound, IsOwned, IsSpread, posted_to}
use emis.Billing.Ledger.Posting.{row_for, posted_to-post}
use emis.Billing.Ledger.Others.{settle-IsSound, IsSettled-elsewhere}
use emis.Billing.Ledger.Recording.{posted_books, IsPosting, GoesTo}

pub Lacks-payment :
    (id : ℕ) (payments : List PaymentRow) (allocations : List AllocationRow)
    → any (is_payment id) payments ≡ false
    → All (λ (a : AllocationRow). any (is_payment a.payment_id) payments ≡ true) allocations
    → Lacks (λ (a : AllocationRow). a.payment_id) id allocations
Lacks-payment id payments [] fresh h = tt
Lacks-payment id payments (a ∷ allocations) fresh h = (
  (λ e.
      let known : any (is_payment id) payments ≡ true =
        subst (λ (j : ℕ). any (is_payment j) payments ≡ true) e h.0 in
      cc),
  Lacks-payment id payments allocations fresh h.1,
)

other_ids :
    (id : ℕ) (payments : List PaymentRow)
    → any (is_payment id) payments ≡ false
    → All (λ (q : PaymentRow). q.id ≢ id) payments
other_ids id [] h = tt
other_ids id (q ∷ payments) h = ((λ e. ground arith), other_ids id payments (ground arith))

pub select-none :
    (id : ℕ) (allocations : List AllocationRow)
    → Lacks (λ (a : AllocationRow). a.payment_id) id allocations
    → select (allocation_of id) allocations ≡ []
select-none id [] h = refl
select-none id (a ∷ allocations) h = ground (arith, select-none id allocations h.1)

pub select-row_for :
    (id j : ℕ) (allocations : List Allocation) (k : ℕ)
    → given_rows k (select (allocation_of j) (map (row_for id) allocations))
      ≡ (if j == id then given k allocations else 0)
select-row_for id j [] k = ground arith
select-row_for id j (a ∷ allocations) k = ground (arith, select-row_for id j allocations k)

given_rows-append :
    (k : ℕ) (xs ys : List AllocationRow)
    → given_rows k (xs ++ ys) ≡ given_rows k xs + given_rows k ys
given_rows-append k [] ys = omega arith
given_rows-append k (a ∷ xs) ys = omega (arith, given_rows-append k xs ys)

-- A sum over an invoice's instalments by their ids, after a change that keeps ids and invoices.
pub sum_by_id :
    (k : ℕ) (g : InstallmentRow → InstallmentRow) (f f' : ℕ → ℕ)
    → ((r : InstallmentRow) → (g r).id ≡ r.id)
    → ((r : InstallmentRow) → (g r).invoice_id ≡ r.invoice_id)
    → ((j : ℕ) → f j ≡ f' j)
    → (rows : List InstallmentRow)
    → sum_of (λ (r : InstallmentRow). f r.id) (select (installment_of k) (map g rows))
      ≡ sum_of (λ (r : InstallmentRow). f' r.id) (select (installment_of k) rows)
sum_by_id k g f f' same_id same_invoice same [] = refl
sum_by_id k g f f' same_id same_invoice same (r ∷ rows) =
    ground (
      arith,
      sum_by_id k g f f' same_id same_invoice same rows,
      same_id r,
      same_invoice r,
      same r.id,
    )

module _ (p : PaymentRow) (allocations : List Allocation) (s : Books) (sound : IsSound s)
    (fresh : any (is_payment p.id) s.payments ≡ false) where
  unused : Lacks (λ (a : AllocationRow). a.payment_id) p.id s.allocations
  unused = Lacks-payment p.id s.payments s.allocations fresh sound.linked

  -- What an instalment has from the payment j, after the new payment's rows are stored.
  given_rows-posted :
      (j k : ℕ)
      → given_rows k (select (allocation_of j) (s.allocations ++ map (row_for p.id) allocations))
        ≡ given_rows k (select (allocation_of j) s.allocations)
          + (if j == p.id then given k allocations else 0)
  given_rows-posted j k =
      ap (given_rows k)
        (select-append (allocation_of j) s.allocations (map (row_for p.id) allocations))
      ∙ (given_rows-append k (select (allocation_of j) s.allocations)
            (select (allocation_of j) (map (row_for p.id) allocations))
          ∙ ap (λ (n : ℕ). given_rows k (select (allocation_of j) s.allocations) + n)
              (select-row_for p.id j allocations k))

  posted-ledger :
      is_posted p.status ≡ true
      → All
          (λ (r : InstallmentRow).
            r.paid_amount
            ≡ posted_to
                (s.payments ++ p ∷ [])
                (s.allocations ++ map (row_for p.id) allocations)
                r.id)
          (map (raise allocations) s.installments)
  posted-ledger h = All-map _ (raise allocations) s.installments (
      All-imp
        (λ r e. omega (arith, posted_to-post p s.payments s.allocations allocations r.id h unused))
        s.installments sound.ledger)

  posted-linked :
      All
        (λ (a : AllocationRow). any (is_payment a.payment_id) (s.payments ++ p ∷ []) ≡ true)
        (s.allocations ++ map (row_for p.id) allocations)
  posted-linked =
      All-append _ s.allocations (map (row_for p.id) allocations)
        (All-imp (λ a e. ground (arith, any-append (is_payment a.payment_id) s.payments (p ∷ [])))
          s.allocations sound.linked)
        (new allocations)
    where
      new :
          (l : List Allocation)
          → All
              (λ (a : AllocationRow). any (is_payment a.payment_id) (s.payments ++ p ∷ []) ≡ true)
              (map (row_for p.id) l)
      new [] = tt
      new (a ∷ l) = (ground (arith, any-append (is_payment p.id) s.payments (p ∷ [])), new l)

  posted-IsOwned :
      GoesTo p.invoice_id allocations s.installments
      → All
          (IsOwned
            (map (raise allocations) s.installments)
            (s.allocations ++ map (row_for p.id) allocations))
          (s.payments ++ p ∷ [])
  posted-IsOwned goes =
      All-append _ s.payments (p ∷ [])
        (All-zip
          (λ q o n.
            All-map _ (raise allocations) s.installments
              (All-imp (λ r z e. older q r n (z e)) s.installments o))
          s.payments sound.owned (other_ids p.id s.payments fresh))
        (
          All-map _ (raise allocations) s.installments
              (All-imp (λ r z e. own r (z e)) s.installments goes),
          tt,
        )
    where
      older :
          (q : PaymentRow) (r : InstallmentRow)
          → q.id ≢ p.id
          → given_rows r.id (select (allocation_of q.id) s.allocations) ≡ 0
          → given_rows r.id
              (select (allocation_of q.id) (s.allocations ++ map (row_for p.id) allocations))
            ≡ 0
      older q r n z = ground (arith, given_rows-posted q.id r.id)

      own :
          (r : InstallmentRow)
          → given r.id allocations ≡ 0
          → given_rows r.id
              (select (allocation_of p.id) (s.allocations ++ map (row_for p.id) allocations))
            ≡ 0
      own r z =
          let old : given_rows r.id (select (allocation_of p.id) s.allocations) ≡ 0 =
            ap (given_rows r.id) (select-none p.id s.allocations unused) in
          ground (arith, given_rows-posted p.id r.id)

  posted-IsSpread :
      sum_of
          (λ (r : InstallmentRow). given r.id allocations)
          (select (installment_of p.invoice_id) s.installments)
        ≡ p.amount
      → All
          (IsSpread
            (map (raise allocations) s.installments)
            (s.allocations ++ map (row_for p.id) allocations))
          (s.payments ++ p ∷ [])
  posted-IsSpread whole =
      All-append _ s.payments (p ∷ [])
        (All-zip
          (λ q e n.
            sum_by_id q.invoice_id (raise allocations) _ _ (λ r. refl) (λ r. refl)
              (λ (k : ℕ). older q k n) s.installments
            ∙ e)
          s.payments sound.spread (other_ids p.id s.payments fresh))
        (
          sum_by_id p.invoice_id (raise allocations) _ (λ (k : ℕ). given k allocations) (λ r. refl)
                (λ r. refl) own s.installments
              ∙ whole,
          tt,
        )
    where
      older :
          (q : PaymentRow) (k : ℕ)
          → q.id ≢ p.id
          → given_rows k
              (select (allocation_of q.id) (s.allocations ++ map (row_for p.id) allocations))
            ≡ given_rows k (select (allocation_of q.id) s.allocations)
      older q k n = ground (arith, given_rows-posted q.id k)

      own :
          (k : ℕ)
          → given_rows k
              (select (allocation_of p.id) (s.allocations ++ map (row_for p.id) allocations))
            ≡ given k allocations
      own k =
          let old : given_rows k (select (allocation_of p.id) s.allocations) ≡ 0 =
            ap (given_rows k) (select-none p.id s.allocations unused) in
          ground (arith, given_rows-posted p.id k)

  -- Posting a payment for the instalments of its own invoice keeps the books sound.
  pub posting-IsSound :
      (actor : Actor) (s' : Books)
      → IsPosting p allocations actor s s'
      → is_posted p.status ≡ true
      → GoesTo p.invoice_id allocations s.installments
      → sum_of
          (λ (r : InstallmentRow). given r.id allocations)
          (select (installment_of p.invoice_id) s.installments)
        ≡ p.amount
      → IsSound s'
  posting-IsSound actor s' w h goes whole =
      let before = posted_books p allocations s in
      let others : All (λ (i : InvoiceRow). i.id ≢ p.invoice_id → IsSettled before.installments i)
          s.invoices =
        All-imp
          (λ i e n.
            IsSettled-elsewhere p.invoice_id (raise allocations) (λ r. refl) i s.installments
              (All-imp (λ r z e. (refl, omega (arith, z e))) s.installments goes) n e)
          s.invoices sound.settled in
      settle-IsSound p.invoice_id actor before s' w.settling (record {
        distinct =
            Distinct-map (λ (r : InstallmentRow). r.id) (raise allocations) (λ r. refl)
              s.installments sound.distinct;
        within = w.within sound.within;
        settled = others;
        ledger = posted-ledger h;
        linked = posted-linked;
        owned = posted-IsOwned goes;
        spread = posted-IsSpread whole;
      })
