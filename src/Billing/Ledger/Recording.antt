-- ===== src/Billing/Ledger/Recording.antt =====
-- What posting a payment did, once it went through.
use emis.Base.{
  ℕ, ◌≡◌, ◌≢◌, refl, subst, Bool, true, false, List, [], ◌∷◌, ◌++◌, map, Tx, Result, ok, err, ◌>>◌,
  on_part-ok, any, All, unique_violation, check_violation, if◌then◌else◌,
}
use emis.Billing.Flow.{Allocation}
use emis.Billing.Tables.{InstallmentRow, PaymentRow, AllocationRow, Books}
use emis.Billing.Invoices.{Actor, on_installments, settle}
use emis.Billing.Invoices.Rows.{IsWithin}
use emis.Billing.Payments.{
  is_payment, payment_checks, insert_payment, insert_allocations, on_allocations, pay_rows,
  post_payment,
}
use emis.Billing.Payments.Paying.{given, raise, pay_rows_lem}
use emis.Billing.Ledger.Posting.{row_for, insert_allocations_lem}
use emis.Billing.Ledger.Others.{IsSettling, settle-IsSettling}

insert_payment-ok :
    (p : PaymentRow) (k : Tx Books (Unit {0})) (s s' : Books)
    → (insert_payment p >> k) s ≡ ok (tt, s')
    → (any (is_payment p.id) s.payments ≡ false)
      × (k (record s { payments = s.payments ++ p ∷ [] }) ≡ ok (tt, s'))
unfolding insert_payment
insert_payment-ok p k s s' h = go (any (is_payment p.id) s.payments) (payment_checks p) h
  where
    s1 : Books
    s1 = record s { payments = s.payments ++ p ∷ [] }

    answer : Bool → Bool → Result (Unit {0} × Books)
    answer b c = if b then err unique_violation else if c then ok (tt, s1) else err check_violation

    go :
        (b c : Bool)
        → (elim (answer b c) [ ok (_, s2) ↦ k s2 | err e ↦ err e ]) ≡ ok (tt, s')
        → (b ≡ false) × (k s1 ≡ ok (tt, s'))
    go true c h' = cc
    go false true h' = (refl, h')
    go false false h' = cc

allotted-ok :
    (f : List AllocationRow → Result (List AllocationRow)) (k : Tx Books (Unit {0})) (s : Books)
    {r : Unit {0} × Books}
    → (on_allocations f >> k) s ≡ ok r
    → (rows : List AllocationRow) × (f s.allocations ≡ ok rows)
      × (k (record s { allocations = rows }) ≡ ok r)
allotted-ok f k s h =
    on_part-ok (λ (s : Books). s.allocations) (λ rows s. record s { allocations = rows }) f k s h

pub installed-ok :
    (f : List InstallmentRow → Result (List InstallmentRow)) (k : Tx Books (Unit {0})) (s : Books)
    {r : Unit {0} × Books}
    → (on_installments f >> k) s ≡ ok r
    → (rows : List InstallmentRow) × (f s.installments ≡ ok rows)
      × (k (record s { installments = rows }) ≡ ok r)
installed-ok f k s h =
    on_part-ok (λ (s : Books). s.installments) (λ rows s. record s { installments = rows }) f k s h

-- The books before `settle`: the payment and its allocations stored, the instalments raised.
abbrev pub posted_books : PaymentRow → List Allocation → Books → Books
posted_books p allocations s = record s {
  payments = s.payments ++ p ∷ [];
  allocations = s.allocations ++ map (row_for p.id) allocations;
  installments = map (raise allocations) s.installments;
}

-- What a successful post did.
pub record IsPosting (p : PaymentRow) (allocations : List Allocation) (actor : Actor) (s s' : Books)
    : Type 0 where
  pub fresh : any (is_payment p.id) s.payments ≡ false
  pub within : All IsWithin s.installments → All IsWithin (map (raise allocations) s.installments)
  pub settling : IsSettling p.invoice_id actor (posted_books p allocations s) s'

pub post_payment-IsPosting :
    (p : PaymentRow) (allocations : List Allocation) (actor : Actor) (s s' : Books)
    → post_payment p allocations actor s ≡ ok (tt, s')
    → IsPosting p allocations actor s s'
unfolding post_payment
post_payment-IsPosting p allocations actor s s' h =
    let last = settle p.invoice_id actor in
    let pay = on_installments (pay_rows allocations) >> last in
    let allot = on_allocations (insert_allocations p.id allocations) >> pay in
    let s1 = record s { payments = s.payments ++ p ∷ [] } in
    let (fresh, h1) = insert_payment-ok p allot s s' h in
    let (rows, got_rows, h2) = allotted-ok (insert_allocations p.id allocations) pay s1 h1 in
    let (parts, got_parts, h3) =
      installed-ok (pay_rows allocations) last (record s1 { allocations = rows }) h2 in
    let is_rows = insert_allocations_lem p.id allocations s.allocations rows got_rows in
    let (is_parts, keeps) = pay_rows_lem allocations s.installments parts got_parts in
    let s3 = record s {
      payments = s.payments ++ p ∷ [];
      allocations = rows;
      installments = parts;
    } in
    let is_posted_books : s3 ≡ posted_books p allocations s = cc in
    record {
      fresh = fresh;
      within = λ w. subst (All IsWithin) is_parts (keeps w);
      settling =
          settle-IsSettling p.invoice_id actor (posted_books p allocations s) s'
            (subst (λ (b : Books). settle p.invoice_id actor b ≡ ok (tt, s')) is_posted_books h3);
    }

-- The allocations give nothing to the instalments of other invoices than k.
abbrev pub GoesTo : ℕ → List Allocation → List InstallmentRow → Type 0
GoesTo k allocations = All (λ (r : InstallmentRow). r.invoice_id ≢ k → given r.id allocations ≡ 0)
