-- ===== src/Billing/Ledger/Posting.antt =====
-- How the money of the standing payments changes when a payment is posted or voided.
use mathlib.Core.List.{append-nil, append_assoc}
use emis.Base.{
  ℕ, ◌+◌, ◌≡◌, ◌≢◌, refl, sym, ◌∙◌, true, false, ◌&&◌, List, [], ◌∷◌, ◌++◌, map, ok, arith,
  any-append, select, update_where, Lacks, ◌==◌, if◌then◌else◌, ==_iff,
}
use emis.Billing.Flow.{Allocation}
use emis.Billing.Tables.{PaymentRow, AllocationRow}
use emis.Billing.Payments.{is_payment, is_posted, allocation_of, insert_allocations}
use emis.Billing.Payments.Paying.{given, given_rows}
use emis.Billing.Ledger.{stands, posted_to}

abbrev pub row_for : ℕ → Allocation → AllocationRow
row_for payment_id a = record {
  payment_id = payment_id;
  installment_id = a.installment_id;
  amount = a.amount;
}

pub insert_allocations_lem :
    (payment_id : ℕ) (allocations : List Allocation) (rows rows' : List AllocationRow)
    → insert_allocations payment_id allocations rows ≡ ok rows'
    → rows' ≡ rows ++ map (row_for payment_id) allocations
unfolding insert_allocations
insert_allocations_lem payment_id [] rows rows' h =
    let same : rows ≡ rows' = ground arith in sym same ∙ sym (append-nil rows)
insert_allocations_lem payment_id (a ∷ allocations) rows rows' h =
    let rest : insert_allocations payment_id allocations (rows ++ row_for payment_id a ∷ [])
        ≡ ok rows' =
      ground arith in
    insert_allocations_lem payment_id allocations (rows ++ row_for payment_id a ∷ []) rows' rest
    ∙ append_assoc rows (row_for payment_id a ∷ []) (map (row_for payment_id) allocations)

module _ (p : PaymentRow) where
  stands-append :
      (payments : List PaymentRow) (id : ℕ)
      → id ≢ p.id
      → stands (payments ++ p ∷ []) id ≡ stands payments id
  stands-append payments id n = ground (
    arith,
    any-append (λ (q : PaymentRow). is_payment id q && is_posted q.status) payments (p ∷ []),
  )

  stands-append_self :
      (payments : List PaymentRow)
      → is_posted p.status ≡ true
      → stands (payments ++ p ∷ []) p.id ≡ true
  stands-append_self payments h = ground (
    arith,
    any-append (λ (q : PaymentRow). is_payment p.id q && is_posted q.status) payments (p ∷ []),
  )

  posted_to-old :
      (payments : List PaymentRow) (allocations : List AllocationRow) (k : ℕ)
      → Lacks (λ (a : AllocationRow). a.payment_id) p.id allocations
      → posted_to (payments ++ p ∷ []) allocations k ≡ posted_to payments allocations k
  posted_to-old payments [] k h = refl
  posted_to-old payments (a ∷ allocations) k h =
      ground
        (arith, posted_to-old payments allocations k h.1, stands-append payments a.payment_id h.0)

  posted_to-new :
      (payments : List PaymentRow) (allocations : List Allocation) (k : ℕ)
      → is_posted p.status ≡ true
      → posted_to (payments ++ p ∷ []) (map (row_for p.id) allocations) k ≡ given k allocations
  posted_to-new payments [] k h = refl
  posted_to-new payments (a ∷ allocations) k h =
      ground (arith, posted_to-new payments allocations k h, stands-append_self payments h)

posted_to-append :
    (payments : List PaymentRow) (xs ys : List AllocationRow) (k : ℕ)
    → posted_to payments (xs ++ ys) k ≡ posted_to payments xs k + posted_to payments ys k
posted_to-append payments [] ys k = omega arith
posted_to-append payments (a ∷ xs) ys k = omega (arith, posted_to-append payments xs ys k)

-- A posted payment adds to each instalment what its allocations give.
pub posted_to-post :
    (p : PaymentRow) (payments : List PaymentRow) (old : List AllocationRow)
    (allocations : List Allocation) (k : ℕ)
    → is_posted p.status ≡ true
    → Lacks (λ (a : AllocationRow). a.payment_id) p.id old
    → posted_to (payments ++ p ∷ []) (old ++ map (row_for p.id) allocations) k
      ≡ posted_to payments old k + given k allocations
posted_to-post p payments old allocations k h fresh = omega (
  arith,
  posted_to-append (payments ++ p ∷ []) old (map (row_for p.id) allocations) k,
  posted_to-old p payments old k fresh,
  posted_to-new p payments allocations k h,
)

-- Voiding the payment `id` by an update that keeps ids and leaves that payment not posted.
module _ (id : ℕ) (f : PaymentRow → PaymentRow) (same_id : (p : PaymentRow) → (f p).id ≡ p.id)
    (unposted : (p : PaymentRow) → is_posted (f p).status ≡ false) where
  stands-void :
      (payments : List PaymentRow) (j : ℕ)
      → stands (update_where (is_payment id) f payments) j
        ≡ (if j == id then false else stands payments j)
  stands-void [] j = ground arith
  stands-void (p ∷ payments) j = ground (arith, stands-void payments j, same_id p, unposted p)

  pub posted_to-void :
      (payments : List PaymentRow) (allocations : List AllocationRow) (k : ℕ)
      → stands payments id ≡ true
      → posted_to (update_where (is_payment id) f payments) allocations k
          + given_rows k (select (allocation_of id) allocations)
        ≡ posted_to payments allocations k
  posted_to-void payments [] k h = refl
  posted_to-void payments (a ∷ allocations) k h = ground (
    arith,
    posted_to-void payments allocations k h,
    stands-void payments a.payment_id,
    ==_iff a.payment_id id,
  )
