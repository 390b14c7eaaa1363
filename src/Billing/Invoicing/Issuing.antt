-- ===== src/Billing/Invoicing/Issuing.antt =====
-- What the writes of `create` come to, step by step.
use emis.Base.{
  ◌≡◌, refl, ◌∙◌, Bool, true, false, some, List, [], ◌∷◌, ◌++◌, map, Result, ok, err, Tx, ◌>>=◌,
  ◌>>◌, arith, any, sum_of, if◌then◌else◌, already_invoiced, check_violation,
}
use emis.Settings.Numbering.{Text, IssuedNumber, Counter, next, from_result}
use emis.Billing.Flow.{NewInstallment, build_installments}
use emis.Billing.Tables.{
  InvoiceRow, InstallmentRow, Books, record_audit, on_counters, invoice_checks,
}
use emis.Billing.Invoices.{Actor, is_invoice, on_installments}
use emis.Billing.Fees.{FeeRow, PlanRow}
use emis.Billing.Ledger.Recording.{installed-ok}
use emis.Billing.Ledger.Money.{record_audit-books}
use emis.Billing.Ledger.Discounts.{from_result-ok}
use emis.Billing.Invoicing.{
  BillingContext, Desk, new_invoice, clashes, insert_invoice, row_of, insert_installments,
  issue_invoice,
}
use emis.Billing.Invoicing.Building.{build_installments-sum}

on_counters-ok :
    {A B : Type 0} (m : Tx (List Counter) A) (k : A → Tx Books B) (s : Books) {r : B × Books}
    → (on_counters m >>= k) s ≡ ok r
    → (a : A) × (counters : List Counter) × (k a (record s { counters = counters }) ≡ ok r)
on_counters-ok {A} {B} m k s {r} h = go (m s.counters) h
  where
    counted : Result (A × List Counter) → Result (A × Books)
    counted x = elim x [
      | ok (a, counters) ↦ ok (a, record s { counters = counters })
      | err e ↦ err e
    ]

    go :
        (x : Result (A × List Counter))
        → (elim (counted x) [ ok (a, t) ↦ k a t | err e ↦ err e ]) ≡ ok r
        → (a : A) × (counters : List Counter) × (k a (record s { counters = counters }) ≡ ok r)
    go (ok (a, counters)) h' = (a, counters, h')
    go (err e) h' = cc

-- The invoice was stored: its id is new, and it meets the checks.
insert_invoice-ok :
    (i : InvoiceRow) (k : Tx Books (Unit {0})) (s s' : Books)
    → (insert_invoice i >> k) s ≡ ok (tt, s')
    → (any (clashes i) s.invoices ≡ false)
      × (invoice_checks i ≡ true)
      × (k (record s { invoices = s.invoices ++ i ∷ [] }) ≡ ok (tt, s'))
unfolding insert_invoice
insert_invoice-ok i k s s' h = go (any (clashes i) s.invoices) (invoice_checks i) h
  where
    s1 : Books
    s1 = record s { invoices = s.invoices ++ i ∷ [] }

    answer : Bool → Bool → Result (Unit {0} × Books)
    answer b c = if b then err already_invoiced else if c then ok (tt, s1) else err check_violation

    go :
        (b c : Bool)
        → (elim (answer b c) [ ok (_, s2) ↦ k s2 | err e ↦ err e ]) ≡ ok (tt, s')
        → (b ≡ false) × (c ≡ true) × (k s1 ≡ ok (tt, s'))
    go true c h' = cc
    go false true h' = (refl, refl, h')
    go false false h' = cc

no_such_id :
    (i : InvoiceRow) (invoices : List InvoiceRow)
    → any (clashes i) invoices ≡ false
    → any (is_invoice i.id) invoices ≡ false
no_such_id i [] h = refl
no_such_id i (j ∷ invoices) h = ground (arith, no_such_id i invoices)

-- What `issue_invoice` did.
pub record IsIssued (desk : Desk) (ctx : BillingContext) (price : FeeRow) (actor : Actor)
    (s s' : Books) : Type 0 where
  pub number : Text
  pub parts : List NewInstallment
  pub fresh : any (is_invoice desk.invoice_id) s.invoices ≡ false
  pub checked : invoice_checks (new_invoice desk ctx price number actor) ≡ true
  pub adds_up : sum_of (λ (n : NewInstallment). n.amount) parts ≡ price.total
  pub rows : List InstallmentRow
  pub stored : insert_installments (map (row_of desk) parts) s.installments ≡ ok rows
  pub result : s' ≡ record s {
    invoices = s.invoices ++ new_invoice desk ctx price number actor ∷ [];
    installments = rows;
    counters = s'.counters;
    audit = s'.audit;
  }

pub issue_invoice-IsIssued :
    (desk : Desk) (ctx : BillingContext) (price : FeeRow) (plan : PlanRow) (actor : Actor)
    (s s' : Books)
    → issue_invoice desk ctx price plan actor s ≡ ok (tt, s')
    → IsIssued desk ctx price actor s s'
unfolding issue_invoice
issue_invoice-IsIssued desk ctx price plan actor s s' h =
    let log = record_audit "invoice.created" "invoice" desk.invoice_id in
    let store = λ (parts : List NewInstallment).
      on_installments (insert_installments (map (row_of desk) parts)) >> log in
    let built = build_installments price.total plan.installments desk.today in
    let build = from_result built >>= store in
    let insert = λ (numbered : IssuedNumber).
      insert_invoice (new_invoice desk ctx price numbered.number actor) >> build in
    let (numbered, counters, h1) =
      on_counters-ok (next desk.numbers desk.parts "invoice" (some ctx.branch_id)) insert s h in
    let i = new_invoice desk ctx price numbered.number actor in
    let s1 = record s { counters = counters } in
    let (clash, checked, h2) = insert_invoice-ok i build s1 s' h1 in
    let s2 = record s1 { invoices = s.invoices ++ i ∷ [] } in
    let (parts, is_built, h3) = from_result-ok built store s2 h2 in
    let (rows, stored, h4) =
      installed-ok (insert_installments (map (row_of desk) parts)) log s2 h3 in
    let e =
      record_audit-books "invoice.created" "invoice" desk.invoice_id
        (record s2 { installments = rows }) s' h4 in
    record {
      number = numbered.number;
      parts = parts;
      fresh = no_such_id i s.invoices clash;
      checked = checked;
      adds_up = build_installments-sum price.total plan.installments desk.today parts is_built;
      rows = rows;
      stored = stored;
      result = e ∙ cc;
    }
