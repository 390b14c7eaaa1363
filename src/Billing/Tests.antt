-- ===== src/Billing/Tests.antt =====
-- Runs of the billing services on small books, and the theorems applied to them.
use emis.Base.{
  ◌+◌, ◌≡◌, ◌≢◌, refl, true, none, some, List, [], ◌∷◌, Result, ok, err, arith, inr, find_row,
  overpayment,
}
use emis.Access.{Grant, global, assert_scope, has_permission}
use emis.Settings.Numbering.{sequence, next, number_scope, format_number}
use emis.Billing.Flow.{
  issued, partially_paid, percent, invoice_status_for, allocate_payment, apply_discount,
  discount_amount,
}
use emis.Billing.Tables.{
  InvoiceRow, InstallmentRow, PaymentRow, PaymentStatus, ApprovalRow, pending, ApprovalPayload,
  Books, invoice_checks,
}
use emis.Billing.Invoices.{Actor, Discount, is_invoice, apply_discount_to}
use emis.Billing.Payments.{Setting, RecordPayment, manual_provider, record_payment, void_payment}
use emis.Billing.Approvals.{approve, is_pending, is_approval, create_request, decide, decide_row}
use emis.Billing.Ledger.{IsSound}
use emis.Billing.Ledger.Money.{record_payment_lem}
use emis.Billing.Ledger.Voided.{void_payment_lem}
use emis.Billing.Ledger.Undoing.{void_payment-record_payment}
use emis.Billing.Ledger.Discounts.{amount_on}
use emis.Billing.Ledger.Discounted.{apply_discount_to_lem}
use emis.Billing.Approvals.Carrying.{IsCarried}
use emis.Billing.Approvals.Deciding.{bumped, decide_lem}
use emis.Billing.Approvals.Requests.{
  HasOnePending, stay, followed, asks, ApprovalSteps-HasOnePending,
}

-- An invoice of 1000 in two instalments.
abbrev invoice : InvoiceRow
invoice = record {
  id = 1;
  number = [];
  student_id = 5;
  enrollment_id = none;
  cohort_id = none;
  branch_id = 7;
  currency = "ETB";
  status = issued;
  lines = [];
  subtotal = 1000;
  discount_total = 0;
  total = 1000;
  paid_total = 0;
  updated_by = 3;
  version = 1;
}

abbrev first_part : InstallmentRow
first_part = record {
  id = 11;
  invoice_id = 1;
  sequence = 1;
  due_date = 100;
  amount = 600;
  paid_amount = 0;
}

abbrev second_part : InstallmentRow
second_part = record {
  id = 12;
  invoice_id = 1;
  sequence = 2;
  due_date = 130;
  amount = 400;
  paid_amount = 0;
}

abbrev books : Books
books = record {
  invoices = invoice ∷ [];
  installments = first_part ∷ second_part ∷ [];
  payments = [];
  allocations = [];
  receipts = [];
  discounts = [];
  approvals = [];
  counters = [];
  audit = [];
}

abbrev books_are_sound : IsSound books
unfolding invoice_status_for
books_are_sound = record {
  distinct = (((λ e. omega arith), tt), (tt, tt));
  within = (omega arith, (omega arith, tt));
  settled = (record { total = refl; paid_total = refl; status = inr refl }, tt);
  ledger = (refl, (refl, tt));
  linked = tt;
  owned = tt;
  spread = tt;
}

abbrev cashier : Actor
cashier = record { user_id = 3 }

abbrev all_grants : List Grant
all_grants =
    record { permission = "billing.receive"; scope = global }
    ∷ record { permission = "billing.request"; scope = global }
    ∷ []

abbrev env : Setting
env = record {
  providers = manual_provider ∷ [];
  numbers = record {
    pattern_of = λ _. sequence 4 ∷ [];
    branch_code_of = λ _. none;
    fiscal_month = 7;
    fiscal_day = 8;
  };
  today = record { year = 2026; month = 9; day = 14 };
  now = 500;
  payment_id = 21;
}

abbrev cash_700 : RecordPayment
cash_700 = record { invoice_id = 1; amount = 700; method = "cash"; reference = none }

-- The books that a step leaves, or the books before it where it throws.
abbrev after : Books → Result (Unit {0} × Books) → Books
after s (ok (_, s')) = s'
after s (err e) = s

abbrev paid_books : Books
paid_books = after books (record_payment env cash_700 all_grants cashier "manual" books)

paid : record_payment env cash_700 all_grants cashier "manual" books ≡ ok (tt, paid_books)
unfolding record_payment assert_scope has_permission allocate_payment invoice_checks next
    number_scope format_number
paid = refl

record_payment_lem_example :
    IsSound paid_books
    × (after : InvoiceRow) × (find_row (is_invoice 1) paid_books.invoices ≡ some after)
    × (after.paid_total ≡ 700)
    × (after.total ≡ 1000)
record_payment_lem_example =
    record_payment_lem env cash_700 all_grants cashier "manual" books paid_books invoice
      books_are_sound refl paid

-- More than the invoice owes is refused, with what it owes.
too_much :
    record_payment env
      (record { invoice_id = 1; amount = 1001; method = "cash"; reference = none })
      all_grants
      cashier
      "manual"
      books
    ≡ err (overpayment 1000)
unfolding record_payment assert_scope has_permission allocate_payment invoice_checks next
    number_scope format_number
too_much = refl

-- The same invoice with 700 paid by the payment 21.
abbrev payment : PaymentRow
payment = record {
  id = 21;
  invoice_id = 1;
  student_id = 5;
  branch_id = 7;
  provider_key = "manual";
  method = "cash";
  reference = none;
  amount = 700;
  currency = "ETB";
  status = PaymentStatus.posted;
  received_by = 3;
  voided_at = none;
  updated_by = 3;
  version = 1;
}

abbrev part_paid : InvoiceRow
part_paid = record invoice { status = partially_paid; paid_total = 700 }

abbrev posted : Books
posted = record books {
  invoices = part_paid ∷ [];
  installments =
      record first_part { paid_amount = 600 } ∷ record second_part { paid_amount = 100 } ∷ [];
  payments = payment ∷ [];
  allocations =
      record { payment_id = 21; installment_id = 11; amount = 600 }
      ∷ record { payment_id = 21; installment_id = 12; amount = 100 }
      ∷ [];
}

abbrev posted_is_sound : IsSound posted
unfolding invoice_status_for
posted_is_sound = record {
  distinct = (((λ e. omega arith), tt), (tt, tt));
  within = (omega arith, (omega arith, tt));
  settled = (record { total = refl; paid_total = refl; status = inr refl }, tt);
  ledger = (refl, (refl, tt));
  linked = (refl, (refl, tt));
  owned = (((λ n. absurd (n refl)), ((λ n. absurd (n refl)), tt)), tt);
  spread = (refl, tt);
}

abbrev voided : Books
voided = after posted (void_payment 600 21 31 cashier posted)

is_voided : void_payment 600 21 31 cashier posted ≡ ok (tt, voided)
unfolding void_payment invoice_checks
is_voided = refl

void_payment_lem_example :
    IsSound voided
    × (after : InvoiceRow) × (find_row (is_invoice 1) voided.invoices ≡ some after)
    × (after.paid_total + 700 ≡ 700)
void_payment_lem_example =
    void_payment_lem 600 21 31 cashier posted voided payment part_paid posted_is_sound refl refl
      is_voided

abbrev undone : Books
undone = after paid_books (void_payment 600 21 31 cashier paid_books)

is_undone : void_payment 600 21 31 cashier paid_books ≡ ok (tt, undone)
unfolding record_payment assert_scope has_permission allocate_payment invoice_checks next
    number_scope format_number void_payment
is_undone = refl

void_payment-record_payment_example : undone.installments ≡ books.installments
void_payment-record_payment_example =
    void_payment-record_payment env cash_700 all_grants cashier cashier "manual" 600 31 books
      paid_books undone books_are_sound paid is_undone

abbrev tenth : Discount
tenth = record { kind = percent; value = 1000; reason_code = "sibling"; approval_id = 31 }

abbrev discounted : Books
discounted = after posted (apply_discount_to 1 tenth cashier posted)

is_discounted : apply_discount_to 1 tenth cashier posted ≡ ok (tt, discounted)
unfolding apply_discount_to apply_discount discount_amount invoice_checks
is_discounted = refl

apply_discount_to_lem_example :
    IsSound discounted
    × (after : InvoiceRow) × (find_row (is_invoice 1) discounted.invoices ≡ some after)
    × (after.total + amount_on tenth part_paid ≡ 1000)
    × (after.paid_total ≡ 700)
apply_discount_to_lem_example =
    apply_discount_to_lem 1 tenth cashier posted discounted part_paid posted_is_sound refl
      is_discounted

-- A request of the cashier for that discount, and a manager.
abbrev request : ApprovalRow
request = record {
  id = 31;
  payload = ApprovalPayload.discount percent 1000 "sibling";
  status = pending;
  subject_id = 1;
  reason = "two siblings";
  requested_by = 3;
  decided_by = none;
  decision_note = none;
  decided_at = none;
  updated_by = 3;
  version = 1;
}

abbrev manager : Actor
manager = record { user_id = 4 }

abbrev asked : Books
asked = record posted { approvals = request ∷ [] }

abbrev asked_is_sound : IsSound asked
asked_is_sound = record {
  distinct = posted_is_sound.distinct;
  within = posted_is_sound.within;
  settled = posted_is_sound.settled;
  ledger = posted_is_sound.ledger;
  linked = posted_is_sound.linked;
  owned = posted_is_sound.owned;
  spread = posted_is_sound.spread;
}

abbrev answered : Books
answered = after asked (decide 600 31 approve none manager asked)

is_answered : decide 600 31 approve none manager asked ≡ ok (tt, answered)
unfolding decide apply_discount discount_amount invoice_checks
is_answered = refl

decide_lem_example :
    IsSound answered
    × (request : ApprovalRow) × (find_row (is_approval 31) asked.approvals ≡ some request)
    × (is_pending request.status ≡ true)
    × (request.requested_by ≢ 4)
    × (find_row (is_approval 31) answered.approvals
        ≡ some (bumped (decide_row 600 approve none manager request)))
    × IsCarried approve request asked answered
decide_lem_example =
    decide_lem 600 31 approve none manager asked answered asked_is_sound is_answered

abbrev asked_again : Books
asked_again =
    after asked (create_request 32 ApprovalPayload.payment_void 21 "wrong student" cashier asked)

is_asked_again :
    create_request 32 ApprovalPayload.payment_void 21 "wrong student" cashier asked
    ≡ ok (tt, asked_again)
unfolding create_request
is_asked_again = refl

ApprovalSteps-HasOnePending_example : HasOnePending asked_again.approvals
ApprovalSteps-HasOnePending_example =
    ApprovalSteps-HasOnePending asked asked_again ((λ p. refl), tt)
      (followed (asks 32 ApprovalPayload.payment_void 21 "wrong student" cashier is_asked_again)
        stay)
