-- ===== src/Billing/Invoicing/Created.antt =====
-- What `create` comes to: sound books with one more invoice.
use emis.Base.{
  ℕ, ◌+◌, ◌<◌, ◌≡◌, refl, sym, subst, ap, ◌∙◌, true, false, Option, some, List, [], ◌∷◌, ◌++◌, map,
  ok, ◌>>=◌, ◌>>◌, throw_if, throw_unless, throw_if-ok, throw_unless-ok, or_throw, or_throw-ok,
  arith, any, any-append, find_row, All, All-append, All-imp, sum_of, Distinct, ==-self,
  already_invoiced, enrollment_not_billable, no_fee_structure, student_not_found, permission_denied,
}
use emis.Access.{Grant, at_branch, has_permission, assert_scope}
use emis.Settings.Numbering.{from_result}
use emis.Registry.{StudentRow, student_is}
use emis.Billing.Flow.{NewInstallment}
use emis.Billing.Tables.{InvoiceRow, InstallmentRow, Books, invoice_checks, with_id}
use emis.Billing.Invoices.{Actor, is_invoice}
use emis.Billing.Fees.{FeeRow, PlanRow}
use emis.Billing.Ledger.{IsSound}
use emis.Billing.Ledger.Payment.{IsSound-rest}
use emis.Billing.Ledger.Discounts.{from_result-ok}
use emis.Billing.Invoicing.{
  BillingContext, billing_context, is_billable, Desk, price_for, plan_for, new_invoice, row_of,
  issue_invoice, is_for, create_invoice,
}
use emis.Billing.Invoicing.Building.{insert_installments_lem}
use emis.Billing.Invoicing.Inserting.{IsReferenced, inserted-IsSound}
use emis.Billing.Invoicing.Issuing.{IsIssued, issue_invoice-IsIssued}

found_last :
    (i : InvoiceRow) (invoices : List InvoiceRow)
    → any (is_invoice i.id) invoices ≡ false
    → find_row (is_invoice i.id) (invoices ++ i ∷ []) ≡ some i
found_last i [] h = rw (==-self i.id)
found_last i (j ∷ invoices) h = ground (arith, found_last i invoices)

module _ (desk : Desk) (ctx : BillingContext) (price : FeeRow) (actor : Actor) (s s' : Books)
    (sound : IsSound s) (refs : IsReferenced s) (w : IsIssued desk ctx price actor s s') where
  abbrev new : List InstallmentRow
  new = map (row_of desk) w.parts

  abbrev bill : InvoiceRow
  bill = new_invoice desk ctx price w.number actor

  theirs :
      (l : List NewInstallment)
      → All (λ (n : InstallmentRow). n.invoice_id ≡ desk.invoice_id) (map (row_of desk) l)
  theirs [] = tt
  theirs (n ∷ l) = (refl, theirs l)

  unpaid :
      (l : List NewInstallment)
      → All (λ (n : InstallmentRow). n.paid_amount ≡ 0) (map (row_of desk) l)
  unpaid [] = tt
  unpaid (n ∷ l) = (refl, unpaid l)

  same_sum :
      (l : List NewInstallment)
      → sum_of (λ (p : InstallmentRow). p.amount) (map (row_of desk) l)
        ≡ sum_of (λ (n : NewInstallment). n.amount) l
  same_sum [] = refl
  same_sum (n ∷ l) = ap (λ k. n.amount + k) (same_sum l)

  some_total : 0 < price.total
  unfolding invoice_checks
  some_total = let c = w.checked in ground arith

  pub issued-IsSound : IsSound s'
  issued-IsSound =
      let (is_rows, keeps, fresh_ids) =
        insert_installments_lem new s.installments w.rows w.stored in
      let stored =
        inserted-IsSound s bill new sound refs w.fresh fresh_ids (theirs w.parts) (unpaid w.parts)
          (subst (Distinct (λ (r : InstallmentRow). r.id)) is_rows (keeps sound.distinct))
          (same_sum w.parts ∙ w.adds_up) refl some_total refl in
      IsSound-rest
        (record s { invoices = s.invoices ++ bill ∷ []; installments = s.installments ++ new }) s'
        stored (let e = w.result in cc)

  any_more :
      (k : ℕ)
      → any (is_invoice k) s.invoices ≡ true
      → any (is_invoice k) (s.invoices ++ bill ∷ []) ≡ true
  any_more k h = ground (arith, any-append (is_invoice k) s.invoices (bill ∷ []))

  pub issued-IsReferenced : IsReferenced s'
  issued-IsReferenced =
      let (is_rows, keeps, fresh_ids) =
        insert_installments_lem new s.installments w.rows w.stored in
      let after : Books = record s {
        invoices = s.invoices ++ bill ∷ [];
        installments = s.installments ++ new;
        counters = s'.counters;
        audit = s'.audit;
      } in
      let good : IsReferenced after = record {
        to_installments =
            All-imp
              (λ a h. ground (arith, any-append (with_id a.installment_id) s.installments new))
              s.allocations refs.to_installments;
        to_invoices =
            All-append _ s.installments new
              (All-imp (λ r h. any_more r.invoice_id h) s.installments refs.to_invoices)
              (All-imp
                (λ n e.
                  subst (λ (k : ℕ). any (is_invoice k) (s.invoices ++ bill ∷ []) ≡ true) (sym e)
                    (ground
                      (arith, any-append (is_invoice desk.invoice_id) s.invoices (bill ∷ []))))
                new (theirs w.parts));
      } in
      let same : after ≡ s' = let e = w.result in cc in subst IsReferenced same good

  pub issued_bill :
      (bill : InvoiceRow) × (s'.invoices ≡ s.invoices ++ bill ∷ [])
      × (find_row (is_invoice desk.invoice_id) s'.invoices ≡ some bill)
      × (bill.enrollment_id ≡ some ctx.enrollment_id)
      × (bill.total ≡ price.total)
      × (bill.paid_total ≡ 0)
  issued_bill =
      let added : s'.invoices ≡ s.invoices ++ bill ∷ [] = let e = w.result in cc in
      (
        bill,
        added,
        ap (find_row (is_invoice desk.invoice_id)) added ∙ found_last bill s.invoices w.fresh,
        refl,
        refl,
        refl,
      )

-- What a successful `create` did.
record IsCreated (desk : Desk) (enrollment_id : ℕ) (actor : Actor) (s s' : Books) : Type 0 where
  ctx : BillingContext
  student : StudentRow
  price : FeeRow
  known : billing_context enrollment_id desk.registry ≡ some ctx
  billable : is_billable ctx.status ≡ true
  enrolled : find_row (student_is ctx.student_id) desk.registry.students ≡ some student
  priced : price_for desk ctx student ≡ some price
  unbilled : any (is_for ctx.enrollment_id) s.invoices ≡ false
  bill : IsIssued desk ctx price actor s s'

create_invoice-IsCreated :
    (desk : Desk) (enrollment_id : ℕ) (plan_id : Option ℕ) (grants : List Grant) (actor : Actor)
    (s s' : Books)
    → create_invoice desk enrollment_id plan_id grants actor s ≡ ok (tt, s')
    → IsCreated desk enrollment_id actor s s'
unfolding create_invoice assert_scope
create_invoice-IsCreated desk enrollment_id plan_id grants actor s s' h =
    let issue = λ (ctx : BillingContext) (price : FeeRow) (plan : PlanRow).
      issue_invoice desk ctx price plan actor in
    let plans = λ (ctx : BillingContext) (price : FeeRow).
      from_result (plan_for desk plan_id) >>= issue ctx price in
    let prices = λ (ctx : BillingContext) (student : StudentRow).
      or_throw (price_for desk ctx student) no_fee_structure >>= plans ctx in
    let students = λ (ctx : BillingContext).
      or_throw (find_row (student_is ctx.student_id) desk.registry.students) student_not_found
      >>= prices ctx in
    let unbilled = λ (ctx : BillingContext) (t : Books).
      (throw_if (any (is_for ctx.enrollment_id) t.invoices) already_invoiced >> students ctx) t in
    let billable = λ (ctx : BillingContext).
      throw_unless (is_billable ctx.status) enrollment_not_billable >> unbilled ctx in
    let scoped = λ (ctx : BillingContext).
      assert_scope grants "billing.invoice" (at_branch ctx.branch_id) >> billable ctx in
    let (ctx, known, h1) =
      or_throw-ok (billing_context enrollment_id desk.registry) enrollment_not_billable scoped s
        h in
    let (allowed, h2) =
      throw_unless-ok (has_permission grants "billing.invoice" (at_branch ctx.branch_id))
        permission_denied (billable ctx) s h1 in
    let (good, h3) =
      throw_unless-ok (is_billable ctx.status) enrollment_not_billable (unbilled ctx) s h2 in
    let (none_yet, h4) =
      throw_if-ok (any (is_for ctx.enrollment_id) s.invoices) already_invoiced (students ctx) s
        h3 in
    let (student, enrolled, h5) =
      or_throw-ok (find_row (student_is ctx.student_id) desk.registry.students) student_not_found
        (prices ctx) s h4 in
    let (price, priced, h6) =
      or_throw-ok (price_for desk ctx student) no_fee_structure (plans ctx) s h5 in
    let (plan, planned, h7) = from_result-ok (plan_for desk plan_id) (issue ctx price) s h6 in
    record {
      ctx = ctx;
      student = student;
      price = price;
      known = known;
      billable = good;
      enrolled = enrolled;
      priced = priced;
      unbilled = none_yet;
      bill = issue_invoice-IsIssued desk ctx price plan actor s s' h7;
    }

-- Billing an enrollment on sound books whose references hold leaves them so, and adds one invoice for
-- the enrollment: its total is the price that applies to the class and the student, its instalments
-- (with sound books) add up to it, and nothing is paid yet. The enrollment was billable and had no
-- invoice.
pub create_invoice_lem :
    (desk : Desk) (enrollment_id : ℕ) (plan_id : Option ℕ) (grants : List Grant) (actor : Actor)
    (s s' : Books)
    → IsSound s
    → IsReferenced s
    → create_invoice desk enrollment_id plan_id grants actor s ≡ ok (tt, s')
    → IsSound s'
      × IsReferenced s'
      × (ctx : BillingContext) × (student : StudentRow) × (price : FeeRow) × (bill : InvoiceRow)
      × (billing_context enrollment_id desk.registry ≡ some ctx)
      × (is_billable ctx.status ≡ true)
      × (find_row (student_is ctx.student_id) desk.registry.students ≡ some student)
      × (price_for desk ctx student ≡ some price)
      × (any (is_for ctx.enrollment_id) s.invoices ≡ false)
      × (s'.invoices ≡ s.invoices ++ bill ∷ [])
      × (find_row (is_invoice desk.invoice_id) s'.invoices ≡ some bill)
      × (bill.enrollment_id ≡ some ctx.enrollment_id)
      × (bill.total ≡ price.total)
      × (bill.paid_total ≡ 0)
create_invoice_lem desk enrollment_id plan_id grants actor s s' sound refs h =
    let c = create_invoice-IsCreated desk enrollment_id plan_id grants actor s s' h in
    let (bill, added, found, theirs, total, paid) =
      issued_bill desk c.ctx c.price actor s s' sound refs c.bill in
    (
      issued-IsSound desk c.ctx c.price actor s s' sound refs c.bill,
      issued-IsReferenced desk c.ctx c.price actor s s' sound refs c.bill,
      c.ctx,
      c.student,
      c.price,
      bill,
      c.known,
      c.billable,
      c.enrolled,
      c.priced,
      c.unbilled,
      added,
      found,
      theirs,
      total,
      paid,
    )
