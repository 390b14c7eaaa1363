-- ===== src/Billing/Invoicing/Inserting.antt =====
-- A new invoice with its instalments, stored beside sound books, makes sound books.
use emis.Base.{
  ℕ, ◌<◌, ◌≡◌, ◌≢◌, refl, sym, subst, ap, ◌∙◌, true, false, List, [], ◌∷◌, ◌++◌, arith, inr, any,
  select, sum_of, All, All-append, All-imp, All-zip, Lacks, Lacks-select, Distinct, select-append,
  sum_of-append, select-All, ◌==◌,
}
use mathlib.Core.List.{append-nil}
use emis.Billing.Flow.{issued, invoice_status_for}
use emis.Billing.Tables.{
  InvoiceRow, InstallmentRow, PaymentRow, AllocationRow, Books, installment_of, with_id,
}
use emis.Billing.Invoices.{is_invoice}
use emis.Billing.Invoices.Rows.{IsWithin}
use emis.Billing.Payments.{allocation_of}
use emis.Billing.Payments.Paying.{given_rows}
use emis.Billing.Ledger.{IsSettled, IsSound, IsSpread, posted_to}

-- The foreign keys: an allocation names an instalment, and an instalment names an invoice.
pub record IsReferenced (s : Books) : Type 0 where
  pub to_installments :
      All
        (λ (a : AllocationRow). any (with_id a.installment_id) s.installments ≡ true)
        s.allocations
  pub to_invoices :
      All (λ (r : InstallmentRow). any (is_invoice r.invoice_id) s.invoices ≡ true) s.installments

select_elsewhere :
    (j k : ℕ) (rows : List InstallmentRow)
    → j ≢ k
    → All (λ (r : InstallmentRow). r.invoice_id ≡ k) rows
    → select (installment_of j) rows ≡ []
select_elsewhere j k [] n h = refl
select_elsewhere j k (r ∷ rows) n h =
    let e = h.0 in
    let other : (r.invoice_id == j) ≡ false = ground arith in
    rw other (select_elsewhere j k rows n h.1)

select_here :
    (k : ℕ) (rows : List InstallmentRow)
    → All (λ (r : InstallmentRow). r.invoice_id ≡ k) rows
    → select (installment_of k) rows ≡ rows
select_here k [] h = refl
select_here k (r ∷ rows) h =
    let e = h.0 in
    let same : (r.invoice_id == k) ≡ true = ground arith in
    rw same (ap (λ l. r ∷ l) (select_here k rows h.1))

select_unknown :
    (k : ℕ) (invoices : List InvoiceRow) (rows : List InstallmentRow)
    → any (is_invoice k) invoices ≡ false
    → All (λ (r : InstallmentRow). any (is_invoice r.invoice_id) invoices ≡ true) rows
    → select (installment_of k) rows ≡ []
select_unknown k invoices [] n h = refl
select_unknown k invoices (r ∷ rows) n h =
    let known = h.0 in
    let differs : r.invoice_id ≢ k = λ e.
      let is_known : any (is_invoice k) invoices ≡ true =
        subst (λ (j : ℕ). any (is_invoice j) invoices ≡ true) e known in
      cc in
    let other : (r.invoice_id == k) ≡ false = ground arith in
    rw other (select_unknown k invoices rows n h.1)

other_ids :
    (k : ℕ) (invoices : List InvoiceRow)
    → any (is_invoice k) invoices ≡ false
    → All (λ (i : InvoiceRow). i.id ≢ k) invoices
other_ids k [] h = tt
other_ids k (i ∷ invoices) h = ((λ e. ground arith), other_ids k invoices (ground arith))

any-Lacks :
    (k : ℕ) (rows : List InstallmentRow)
    → Lacks (λ (r : InstallmentRow). r.id) k rows
    → any (with_id k) rows ≡ false
any-Lacks k [] h = refl
any-Lacks k (r ∷ rows) h = let n = h.0 in ground (arith, any-Lacks k rows h.1)

-- No allocation names an instalment that is not there yet.
unallocated :
    (k : ℕ) (rows : List InstallmentRow) (allocations : List AllocationRow)
    → Lacks (λ (r : InstallmentRow). r.id) k rows
    → All (λ (a : AllocationRow). any (with_id a.installment_id) rows ≡ true) allocations
    → Lacks (λ (a : AllocationRow). a.installment_id) k allocations
unallocated k rows [] l h = tt
unallocated k rows (a ∷ allocations) l h = (
  (λ e.
      let known : any (with_id k) rows ≡ true =
        subst (λ (j : ℕ). any (with_id j) rows ≡ true) e h.0 in
      let missing = any-Lacks k rows l in cc),
  unallocated k rows allocations l h.1,
)

posted_to-none :
    (payments : List PaymentRow) (allocations : List AllocationRow) (k : ℕ)
    → Lacks (λ (a : AllocationRow). a.installment_id) k allocations
    → posted_to payments allocations k ≡ 0
posted_to-none payments [] k h = refl
posted_to-none payments (a ∷ allocations) k h =
    let n = h.0 in ground (arith, posted_to-none payments allocations k h.1)

given_rows-none :
    (k : ℕ) (allocations : List AllocationRow)
    → Lacks (λ (a : AllocationRow). a.installment_id) k allocations
    → given_rows k allocations ≡ 0
given_rows-none k [] h = refl
given_rows-none k (a ∷ allocations) h =
    let n = h.0 in ground (arith, given_rows-none k allocations h.1)

sum_of-none {ℓ} : {A : Type ℓ} (f : A → ℕ) (xs : List A) → All (λ x. f x ≡ 0) xs → sum_of f xs ≡ 0
sum_of-none f [] h = refl
sum_of-none f (x ∷ xs) h = let e = h.0 in omega (arith, sum_of-none f xs h.1)

module _ (s : Books) (i : InvoiceRow) (new : List InstallmentRow) (sound : IsSound s)
    (refs : IsReferenced s) (fresh : any (is_invoice i.id) s.invoices ≡ false)
    (fresh_ids : All
      (λ (n : InstallmentRow). Lacks (λ (r : InstallmentRow). r.id) n.id s.installments)
      new)
    (theirs : All (λ (n : InstallmentRow). n.invoice_id ≡ i.id) new)
    (unpaid : All (λ (n : InstallmentRow). n.paid_amount ≡ 0) new) where
  rows_elsewhere :
      (j : ℕ)
      → j ≢ i.id
      → select (installment_of j) (s.installments ++ new) ≡ select (installment_of j) s.installments
  rows_elsewhere j n =
      select-append (installment_of j) s.installments new
      ∙ ap (λ l. select (installment_of j) s.installments ++ l)
          (select_elsewhere j i.id new n theirs)
      ∙ append-nil (select (installment_of j) s.installments)

  rows_here : select (installment_of i.id) (s.installments ++ new) ≡ new
  rows_here =
      select-append (installment_of i.id) s.installments new
      ∙ ap (λ l. l ++ select (installment_of i.id) new)
          (select_unknown i.id s.invoices s.installments fresh refs.to_invoices)
      ∙ select_here i.id new theirs

  IsSettled-elsewhere :
      (j : InvoiceRow)
      → IsSettled s.installments j
      → j.id ≢ i.id
      → IsSettled (s.installments ++ new) j
  IsSettled-elsewhere j w n =
      let same = rows_elsewhere j.id n in
      record {
        total = w.total ∙ sym (ap (λ l. sum_of (λ (p : InstallmentRow). p.amount) l) same);
        paid_total =
            w.paid_total ∙ sym (ap (λ l. sum_of (λ (p : InstallmentRow). p.paid_amount) l) same);
        status = w.status;
      }

  IsSettled-here :
      sum_of (λ (p : InstallmentRow). p.amount) new ≡ i.total
      → i.paid_total ≡ 0
      → 0 < i.total
      → i.status ≡ issued
      → IsSettled (s.installments ++ new) i
  unfolding invoice_status_for
  IsSettled-here adds none_paid some_total is_issued = record {
    total = sym adds ∙ sym (ap (λ l. sum_of (λ (p : InstallmentRow). p.amount) l) rows_here);
    paid_total =
        none_paid
        ∙ sym (sum_of-none (λ (p : InstallmentRow). p.paid_amount) new unpaid)
        ∙ sym (ap (λ l. sum_of (λ (p : InstallmentRow). p.paid_amount) l) rows_here);
    status = inr (is_issued ∙ ground arith);
  }

  free_of :
      All
        (λ (n : InstallmentRow). Lacks (λ (a : AllocationRow). a.installment_id) n.id s.allocations)
        new
  free_of =
      All-imp (λ n l. unallocated n.id s.installments s.allocations l refs.to_installments) new
        fresh_ids

  -- What an older payment has put on a new instalment.
  nothing_given :
      (j : ℕ)
      → All
          (λ (n : InstallmentRow). given_rows n.id (select (allocation_of j) s.allocations) ≡ 0)
          new
  nothing_given j =
      All-imp
        (λ n l. given_rows-none n.id (select (allocation_of j) s.allocations) (
          Lacks-select (λ (a : AllocationRow). a.installment_id) (allocation_of j) n.id
            s.allocations l))
        new free_of

  still-IsSpread :
      (p : PaymentRow)
      → IsSpread s.installments s.allocations p
      → IsSpread (s.installments ++ new) s.allocations p
  still-IsSpread p w =
      let f = λ (r : InstallmentRow). given_rows r.id (select (allocation_of p.id) s.allocations) in
      let mine = installment_of p.invoice_id in
      let zero_sum =
        sum_of-none f (select mine new) (select-All (λ r. f r ≡ 0) mine new (nothing_given p.id)) in
      ap (sum_of f) (select-append mine s.installments new)
      ∙ sum_of-append f (select mine s.installments) (select mine new)
      ∙ omega (arith, zero_sum, w)

  pub inserted-IsSound :
      Distinct (λ (r : InstallmentRow). r.id) (s.installments ++ new)
      → sum_of (λ (p : InstallmentRow). p.amount) new ≡ i.total
      → i.paid_total ≡ 0
      → 0 < i.total
      → i.status ≡ issued
      → IsSound (record s { invoices = s.invoices ++ i ∷ []; installments = s.installments ++ new })
  inserted-IsSound distinct adds none_paid some_total is_issued = record {
    distinct = distinct;
    within =
        All-append IsWithin s.installments new sound.within
          (All-imp (λ n e. omega arith) new unpaid);
    settled =
        All-append (IsSettled (s.installments ++ new)) s.invoices (i ∷ [])
          (All-zip IsSettled-elsewhere s.invoices sound.settled (other_ids i.id s.invoices fresh))
          (IsSettled-here adds none_paid some_total is_issued, tt);
    ledger =
        All-append (λ (r : InstallmentRow). r.paid_amount ≡ posted_to s.payments s.allocations r.id)
          s.installments new sound.ledger
          (All-zip (λ n e l. e ∙ sym (posted_to-none s.payments s.allocations n.id l)) new unpaid
            free_of);
    linked = sound.linked;
    owned =
        All-imp
          (λ p w.
            All-append
              (λ (r : InstallmentRow).
                r.invoice_id ≢ p.invoice_id
                → given_rows r.id (select (allocation_of p.id) s.allocations) ≡ 0)
              s.installments new w (All-imp (λ n e _. e) new (nothing_given p.id)))
          s.payments sound.owned;
    spread = All-imp still-IsSpread s.payments sound.spread;
  }
