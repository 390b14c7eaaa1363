-- ===== src/Billing/Ledger/Undoing.antt =====
-- Voiding a payment undoes what recording it did to the instalments.
use emis.Base.{
  ℕ, ◌+◌, ◌-◌, ◌≡◌, refl, ap, ◌∙◌, String, List, [], ◌∷◌, ◌++◌, map, ok, arith, select,
  select-append, if◌then◌else◌, ==-self,
}
use emis.Access.{Grant}
use emis.Billing.Flow.{Allocation, allocate_payment}
use emis.Billing.Tables.{InstallmentRow, AllocationRow, Books}
use emis.Billing.Invoices.{Actor}
use emis.Billing.Payments.{Setting, RecordPayment, record_payment, void_payment, allocation_of}
use emis.Billing.Payments.Paying.{given, given_rows, raise, lower}
use emis.Billing.Ledger.{IsSound}
use emis.Billing.Ledger.Posting.{row_for}
use emis.Billing.Ledger.Posted.{select-none, select-row_for, Lacks-payment}
use emis.Billing.Ledger.Spreading.{states}
use emis.Billing.Ledger.Payment.{record_payment-IsRecorded}
use emis.Billing.Ledger.Money.{after_posting, record_audit-books}
use emis.Billing.Ledger.Voiding.{IsVoided, void_payment-IsVoided}

lower-raise :
    (money : List Allocation) (taken : List AllocationRow)
    → ((k : ℕ) → given_rows k taken ≡ given k money)
    → (rows : List InstallmentRow) → map (lower taken) (map (raise money) rows) ≡ rows
lower-raise money taken same [] = refl
lower-raise money taken same (r ∷ rows) =
    let back : (r.paid_amount + given r.id money) - given_rows r.id taken ≡ r.paid_amount =
      omega (arith, same r.id) in
    rw back (ap (λ l. r ∷ l) (lower-raise money taken same rows))

voided-installments :
    (now payment_id : ℕ) (actor : Actor) (s s' : Books)
    → IsVoided now payment_id actor s s'
    → s'.installments ≡ map (lower (select (allocation_of payment_id) s.allocations)) s.installments
voided-installments now payment_id actor s s' w =
    let e = record_audit-books "payment.voided" "payment" payment_id w.settled s' w.result in
    let r = w.settling.result in cc

-- Recording a payment on sound books and then voiding it leaves every instalment as it was.
pub void_payment-record_payment :
    (env : Setting) (input : RecordPayment) (grants : List Grant) (actor other : Actor)
    (provider_key : String) (now approval_id : ℕ) (s s' s'' : Books)
    → IsSound s
    → record_payment env input grants actor provider_key s ≡ ok (tt, s')
    → void_payment now env.payment_id approval_id other s' ≡ ok (tt, s'')
    → s''.installments ≡ s.installments
void_payment-record_payment env input grants actor other provider_key now approval_id s s' s'' sound
      h h' =
    let w = record_payment-IsRecorded env input grants actor provider_key s s' h in
    let v = void_payment-IsVoided now env.payment_id approval_id other s' s'' h' in
    let money = (allocate_payment (states w.invoice.id s.installments) input.amount).0 in
    let rows = map (row_for env.payment_id) money in
    let e = after_posting env input grants actor provider_key s s' sound w in
    let r = w.posting.settling.result in
    let paid : s'.installments ≡ map (raise money) s.installments = cc in
    let kept : s'.allocations ≡ s.allocations ++ rows = cc in
    let id = env.payment_id in
    let unused =
      select-none id s.allocations
        (Lacks-payment id s.payments s.allocations w.posting.fresh sound.linked) in
    let own : (k : ℕ)
        → given_rows k (select (allocation_of id) (s.allocations ++ rows)) ≡ given k money =
      λ k.
        ap (given_rows k) (select-append (allocation_of id) s.allocations rows)
        ∙ (ap (λ l. given_rows k (l ++ select (allocation_of id) rows)) unused
            ∙ (select-row_for id id money k
                ∙ ap (λ b. if b then given k money else 0) (==-self id))) in
    voided-installments now id other s' s'' v
    ∙ (ap (λ l. map (lower (select (allocation_of id) l)) s'.installments) kept
        ∙ (ap (map (lower (select (allocation_of id) (s.allocations ++ rows)))) paid
            ∙ lower-raise money (select (allocation_of id) (s.allocations ++ rows)) own
                s.installments))
