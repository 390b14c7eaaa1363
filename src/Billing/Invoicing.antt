-- ===== src/Billing/Invoicing.antt =====
-- Billing an enrollment: `InvoicesService.create` (billing/application/invoices.service.ts), with
-- `billingContext` of apps/api/src/modules/cohorts/application/enrollments.service.ts and the prices and
-- plans of Fees.
pub mod Building
pub mod Inserting
pub mod Issuing
pub mod Created
mod Tests
use emis.Base.{
  ℕ, ◌+◌, String, Bool, true, false, not, ◌&&◌, ◌||◌, Option, none, some, List, [], ◌∷◌, ◌++◌, map,
  Result, ok, err, Tx, ◌>>=◌, ◌>>◌, throw_if, throw_unless, or_throw, gets, modify, on_part, ltb,
  leb, ◌==◌, if◌then◌else◌, any, is_id, find_row, check_violation, unique_violation,
  already_invoiced, enrollment_not_billable, no_fee_structure, no_payment_plan,
  payment_plan_not_found, student_not_found,
}
use emis.Access.{Grant, at_branch, assert_scope}
use emis.Settings.Numbering.{Text, text_eq, NumberSettings, DateParts, next, from_result}
use emis.Registry.{
  Registry, EnrollmentStatus, active, completed, enrollment_is, cohort_is, StudentRow, student_is,
}
use emis.Billing.Flow.{NewInstallment, build_installments, issued}
use emis.Billing.Tables.{
  InvoiceRow, InvoiceLine, InstallmentRow, Books, record_audit, on_counters, invoice_checks,
  installment_checks,
}
use emis.Billing.Invoices.{Actor, on_installments, then_rows}
use emis.Billing.Fees.{FeeComponent, FeeRow, PlanRow, Tariff, resolve}
use emis.Billing.Fees.Plans.{find_plan, default_plan}

-- What `billingContext` answers.
pub record BillingContext : Type 0 where
  pub enrollment_id : ℕ
  pub status : EnrollmentStatus
  pub student_id : ℕ
  pub cohort_id : ℕ
  pub course_id : ℕ
  pub branch_id : ℕ
  pub start_date : ℕ

-- The enrollment joined with its class.
unfoldable pub billing_context : ℕ → Registry → Option BillingContext
billing_context id s = elim (find_row (enrollment_is id) s.enrollments) [
  | none ↦ none
  | some e ↦ elim (find_row (cohort_is e.cohort_id) s.cohorts) [
    | none ↦ none
    | some c ↦ some (record {
      enrollment_id = e.id;
      status = e.status;
      student_id = e.student_id;
      cohort_id = e.cohort_id;
      course_id = c.course_id;
      branch_id = c.branch_id;
      start_date = c.start_date;
    })
  ]
]

abbrev pub is_billable : EnrollmentStatus → Bool
is_billable active = true
is_billable completed = true
is_billable _ = false

-- What `create` reads and does not write: the tables of classes and students, the prices and plans,
-- the numbering's settings and the day; and the ids that the database gives, an instalment's by its
-- sequence number.
pub record Desk : Type 0 where
  pub registry : Registry
  pub tariff : Tariff
  pub numbers : NumberSettings
  pub parts : DateParts
  pub today : ℕ
  pub invoice_id : ℕ
  pub installment_id : ℕ → ℕ

abbrev or_else {ℓ} : {A : Type ℓ} → Option A → Option A → Option A
or_else none b = b
or_else (some a) b = some a

-- The price on the day that the class starts, or else today's.
unfoldable pub price_for : Desk → BillingContext → StudentRow → Option FeeRow
price_for desk ctx student =
    or_else (resolve ctx.course_id student.category_code ctx.start_date desk.tariff.fees)
      (resolve ctx.course_id student.category_code desk.today desk.tariff.fees)

abbrev pub active_plan : Option PlanRow → Result PlanRow
active_plan none = err payment_plan_not_found
active_plan (some plan) = if plan.is_active then ok plan else err payment_plan_not_found

abbrev pub plan_or_none : Option PlanRow → Result PlanRow
plan_or_none none = err no_payment_plan
plan_or_none (some plan) = ok plan

-- The plan that is asked for, or the default one.
unfoldable pub plan_for : Desk → Option ℕ → Result PlanRow
unfolding find_plan default_plan
plan_for desk none = plan_or_none (default_plan desk.tariff.plans)
plan_for desk (some id) = active_plan (find_plan id desk.tariff.plans)

abbrev pub new_invoice : Desk → BillingContext → FeeRow → Text → Actor → InvoiceRow
new_invoice desk ctx price number actor = record {
  id = desk.invoice_id;
  number = number;
  student_id = ctx.student_id;
  enrollment_id = some ctx.enrollment_id;
  cohort_id = some ctx.cohort_id;
  branch_id = ctx.branch_id;
  currency = price.currency;
  status = issued;
  lines =
      map (λ (c : FeeComponent). record { description = c.name; amount = c.amount })
        price.components;
  subtotal = price.total;
  discount_total = 0;
  total = price.total;
  paid_total = 0;
  updated_by = actor.user_id;
  version = 1;
}

abbrev pub same_enrollment : Option ℕ → Option ℕ → Bool
same_enrollment none b = false
same_enrollment (some a) b = is_id b a

-- The primary key, invoices_number_key and invoices_enrollment_id_key
abbrev pub clashes : InvoiceRow → InvoiceRow → Bool
clashes i j =
    (j.id == i.id) || text_eq j.number i.number || same_enrollment i.enrollment_id j.enrollment_id

unfoldable pub insert_invoice : InvoiceRow → Tx Books (Unit {0})
unfolding invoice_checks
insert_invoice i s =
    if any (clashes i) s.invoices
    then err already_invoiced
    else if invoice_checks i
    then ok (tt, record s { invoices = s.invoices ++ i ∷ [] })
    else err check_violation

abbrev pub row_of : Desk → NewInstallment → InstallmentRow
row_of desk part = record {
  id = desk.installment_id part.sequence;
  invoice_id = desk.invoice_id;
  sequence = part.sequence;
  due_date = part.due_date;
  amount = part.amount;
  paid_amount = 0;
}

-- The primary key and installments_invoice_sequence_key
abbrev pub same_place : InstallmentRow → InstallmentRow → Bool
same_place a b = (b.id == a.id) || ((b.invoice_id == a.invoice_id) && (b.sequence == a.sequence))

unfoldable pub insert_installments :
    List InstallmentRow → List InstallmentRow → Result (List InstallmentRow)
insert_installments [] rows = ok rows
insert_installments (new ∷ more) rows =
    let later = insert_installments more (rows ++ new ∷ []) in
    if any (same_place new) rows
    then err unique_violation
    else if installment_checks new
    then later
    else err check_violation

-- The writes of `create`.
unfoldable pub issue_invoice :
    Desk → BillingContext → FeeRow → PlanRow → Actor → Tx Books (Unit {0})
unfolding insert_invoice insert_installments record_audit
issue_invoice desk ctx price plan actor = do
  numbered ← on_counters (next desk.numbers desk.parts "invoice" (some ctx.branch_id))
  insert_invoice (new_invoice desk ctx price numbered.number actor)
  parts ← from_result (build_installments price.total plan.installments desk.today)
  on_installments (insert_installments (map (row_of desk) parts))
  record_audit "invoice.created" "invoice" desk.invoice_id

abbrev pub is_for : ℕ → InvoiceRow → Bool
is_for enrollment_id i = is_id i.enrollment_id enrollment_id

-- `create`
unfoldable pub create_invoice : Desk → ℕ → Option ℕ → List Grant → Actor → Tx Books (Unit {0})
unfolding issue_invoice billing_context price_for plan_for
create_invoice desk enrollment_id plan_id grants actor = do
  ctx ← or_throw (billing_context enrollment_id desk.registry) enrollment_not_billable
  assert_scope grants "billing.invoice" (at_branch ctx.branch_id)
  throw_unless (is_billable ctx.status) enrollment_not_billable
  existing ← gets (λ (s : Books). any (is_for ctx.enrollment_id) s.invoices)
  throw_if existing already_invoiced
  student ← or_throw (find_row (student_is ctx.student_id) desk.registry.students) student_not_found
  price ← or_throw (price_for desk ctx student) no_fee_structure
  plan ← from_result (plan_for desk plan_id)
  issue_invoice desk ctx price plan actor
