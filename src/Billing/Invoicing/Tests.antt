-- ===== src/Billing/Invoicing/Tests.antt =====
-- Billing an enrollment on empty books, and the theorems there.
use emis.Base.{
  String, ℕ, ◌+◌, ◌≡◌, refl, true, false, none, some, Option, List, [], ◌∷◌, ◌++◌, Result, ok, err,
  any, find_row, already_invoiced,
}
use emis.Access.{Grant, global, assert_scope, has_permission}
use emis.Settings.Numbering.{sequence, next, number_scope, format_number}
use emis.Registry.{Registry, EnrollmentStatus, opened, StudentRow, student_is}
use emis.Billing.Shares.{split_by_basis_points}
use emis.Billing.Flow.{build_installments}
use emis.Billing.Tables.{InvoiceRow, Books}
use emis.Billing.Invoices.{Actor, is_invoice}
use emis.Billing.Fees.{FeeRow, PlanRow, resolve}
use emis.Billing.Fees.Resolving.{IsPrice, resolve-IsPrice}
use emis.Billing.Ledger.{IsSound}
use emis.Billing.Invoicing.{
  BillingContext, billing_context, is_billable, Desk, price_for, is_for, create_invoice,
}
use emis.Billing.Invoicing.Inserting.{IsReferenced}
use emis.Billing.Invoicing.Created.{create_invoice_lem}

abbrev price : ℕ → Option String → ℕ → ℕ → FeeRow
price id category_code effective_from total = record {
  id = id;
  name = "Course fee";
  course_id = 71;
  category_code = category_code;
  effective_from = effective_from;
  currency = "ETB";
  components = record { name = "Tuition"; amount = total } ∷ [];
  total = total;
  is_active = true;
  updated_by = 3;
  version = 1;
}

abbrev prices : List FeeRow
prices = price 1 none 10 900 ∷ price 2 (some "staff") 20 500 ∷ price 3 none 50 1000 ∷ []

-- A later price beats an earlier one, and one for the student's category beats both.
later_price : resolve 71 none 60 prices ≡ some (price 3 none 50 1000)
unfolding resolve
later_price = refl

earlier_price : resolve 71 none 49 prices ≡ some (price 1 none 10 900)
unfolding resolve
earlier_price = refl

staff_price : resolve 71 (some "staff") 60 prices ≡ some (price 2 (some "staff") 20 500)
unfolding resolve
staff_price = refl

resolve-IsPrice_example : IsPrice 71 (some "staff") 60 prices (resolve 71 (some "staff") 60 prices)
resolve-IsPrice_example = resolve-IsPrice 71 (some "staff") 60 prices

abbrev halves : PlanRow
halves = record {
  id = 81;
  name = "Halves";
  installments =
      record { share_bp = 5000; due_offset_days = 0 }
      ∷ record { share_bp = 5000; due_offset_days = 30 }
      ∷ [];
  is_default = true;
  is_active = true;
  updated_by = 3;
  version = 1;
}

abbrev registry : Registry
registry = record {
  applications = [];
  students = record { id = 51; category_code = none; is_active = true } ∷ [];
  rooms = [];
  courses = [];
  cohorts =
      record {
        id = 61;
        course_id = 71;
        room_id = 41;
        branch_id = 7;
        max_size = 12;
        start_date = 60;
        status = opened;
        updated_by = 3;
        version = 1;
      }
      ∷ [];
  enrollments =
      record {
        id = 31;
        student_id = 51;
        cohort_id = 61;
        status = EnrollmentStatus.active;
        waitlisted_at = none;
        enrolled_at = some 40;
        withdrawn_at = none;
        withdrawal_reason = none;
        score = none;
        attendance_percent = none;
        completed_at = none;
        updated_by = 3;
        version = 1;
      }
      ∷ [];
  sessions = [];
  audit = [];
}

abbrev desk : Desk
desk = record {
  registry = registry;
  tariff = record { fees = prices; plans = halves ∷ []; audit = [] };
  numbers = record {
    pattern_of = λ _. sequence 4 ∷ [];
    branch_code_of = λ _. none;
    fiscal_month = 7;
    fiscal_day = 8;
  };
  parts = record { year = 2026; month = 9; day = 14 };
  today = 70;
  invoice_id = 1;
  installment_id = λ n. 10 + n;
}

abbrev no_books : Books
no_books = record {
  invoices = [];
  installments = [];
  payments = [];
  allocations = [];
  receipts = [];
  discounts = [];
  approvals = [];
  counters = [];
  audit = [];
}

abbrev no_books_are_sound : IsSound no_books
no_books_are_sound = record {
  distinct = tt;
  within = tt;
  settled = tt;
  ledger = tt;
  linked = tt;
  owned = tt;
  spread = tt;
}

abbrev no_books_are_referenced : IsReferenced no_books
no_books_are_referenced = record { to_installments = tt; to_invoices = tt }

abbrev cashier : Actor
cashier = record { user_id = 3 }

abbrev grants : List Grant
grants = record { permission = "billing.invoice"; scope = global } ∷ []

abbrev after : Result (Unit {0} × Books) → Books
after (ok (_, s)) = s
after (err e) = no_books

abbrev billed_books : Books
billed_books = after (create_invoice desk 31 none grants cashier no_books)

billed : create_invoice desk 31 none grants cashier no_books ≡ ok (tt, billed_books)
unfolding create_invoice assert_scope has_permission resolve next number_scope format_number
    build_installments split_by_basis_points
billed = refl

billed_twice : create_invoice desk 31 none grants cashier billed_books ≡ err already_invoiced
unfolding create_invoice assert_scope has_permission resolve next number_scope format_number
    build_installments split_by_basis_points
billed_twice = refl

create_invoice_lem_example :
    IsSound billed_books
    × IsReferenced billed_books
    × (ctx : BillingContext) × (student : StudentRow) × (fee : FeeRow) × (bill : InvoiceRow)
    × (billing_context 31 registry ≡ some ctx)
    × (is_billable ctx.status ≡ true)
    × (find_row (student_is ctx.student_id) registry.students ≡ some student)
    × (price_for desk ctx student ≡ some fee)
    × (any (is_for ctx.enrollment_id) no_books.invoices ≡ false)
    × (billed_books.invoices ≡ [] ++ bill ∷ [])
    × (find_row (is_invoice 1) billed_books.invoices ≡ some bill)
    × (bill.enrollment_id ≡ some ctx.enrollment_id)
    × (bill.total ≡ fee.total)
    × (bill.paid_total ≡ 0)
create_invoice_lem_example =
    create_invoice_lem desk 31 none grants cashier no_books billed_books no_books_are_sound
      no_books_are_referenced billed
