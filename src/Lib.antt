-- ===== src/Lib.antt =====
-- The core of emis, an education management system: money, numbers, permissions, applications and
-- classes. The services are classes of methods over one database; a method that is marked
-- @Transactional runs as one transaction, and locks the row that it is about, so that the operations on
-- one invoice, one class or one request follow each other. Accordingly an operation is a function from
-- the tables to a result: a value with the new tables, or the error that is thrown. What throws has no
-- new tables, since the transaction is rolled back (Base/Transaction).
--
-- The parts, and where they come from:
-- Base: shared names, lists as rows of tables (select, find_row, update_where for SQL's SELECT and
--   UPDATE), sorting, distinct keys, the errors (Failure, from the domain/errors.ts of each module),
--   transactions, and what a transaction makes of a condition step by step (Triples).
-- Versioning: packages/db/src/versioning.ts and versionedRow of apps/api/src/common/http. Its child
--   Updating is about values that omit the id and the version, as the type of values says (IsEdit), and
--   about `bump` as the version + 1 of that statement (IsVersioned).
-- Access: packages/permissions/src and apps/api/src/common/authz/scope.ts.
-- Settings/Numbering: packages/contracts/src/numbering.ts, NumberingService.next and calendar.ts of
--   apps/api/src/modules/settings. A pattern is the list of pieces that TOKEN_RE cuts it into.
-- Billing: apps/api/src/modules/billing. Shares and Flow are domain/money-flow.ts and splitByBasisPoints;
--   Tables is packages/db/src/schema/billing.ts with the constraints that a write can meet; Invoices,
--   Payments and Approvals are the services of those names (lock, settle, applyDiscount; record,
--   voidPayment; create, requestDiscount, requestVoid, decide). Approvals call the other two, and
--   payments take a receipt's number from Settings. Billing/Ledger says what sound books are, over all
--   the tables, and its children prove what each operation does to them.
-- Registry: the tables of admissions and classes (packages/db/src/schema/students.ts, cohorts.ts,
--   catalog.ts).
-- Admissions: ApplicationsService.transition, recordPlacement, markEnrolled and convert with
--   domain/pipeline.ts and packages/contracts/src/admissions.ts. What students.create does is a parameter
--   of convert. Pipeline's Operation names the four operations, to speak of any of them.
-- Catalog: wouldCreateCycle of apps/api/src/modules/catalog/domain/prerequisites.ts.
-- Courses: CoursesService.setPrerequisites of the same module, which calls it, on the tables of
--   programs, courses and prerequisites.
-- Completion: apps/api/src/modules/cohorts/domain/completion.ts, the rules that a result must meet.
-- Cohorts: EnrollmentsService.enroll, withdraw (with promoteWaiting) and recordResult of
--   apps/api/src/modules/cohorts. They call markEnrolled of Admissions and evaluateCompletion.
-- Classes: CohortsService.setStatus of the same module.
-- Schedule: apps/api/src/modules/cohorts/domain/schedule.ts and generateSessions of CohortsService, with the
--   constraints of class_sessions (a migration of packages/db). The loop over the days is recursion on
--   the number of days that are left.
-- Billing/Fees: FeesService, prices and payment plans. Billing/Invoicing: InvoicesService.create, which
--   takes its class from billingContext of EnrollmentsService, its price and its plan from Billing/Fees,
--   its number from Settings, and its instalments from Billing/Flow.
-- Csv: parseCsv of apps/api/src/modules/imports/domain/csv-parse.ts and toCsv of
--   apps/api/src/modules/reports/domain/csv.ts. A text is the list of its UTF-16 code units.
-- Audit: the hash chain of apps/api/src/modules/audit (record, verify, chainHash). The hash is a parameter.
-- Idempotency: apps/api/src/common/idempotency/idempotency.interceptor.ts, around a request's work, which is
--   a parameter, and the purge of old keys by apps/api/src/messaging/maintenance.service.ts.
-- Messaging: OutboxService.publish, OutboxRelay.relayBatch and EventDispatcher.dispatch of
--   apps/api/src/messaging. What the handlers do is a parameter; deliver stands for the queue, which
--   dispatches an event again until an attempt goes through (EventConsumer). The queue (BullMQ) takes an
--   id only while it holds no job of that id; removeOnComplete and removeOnFail let it remove a job
--   (remove_job), at a time of its own choice, and then it takes the id again.
-- Identity: AccountsService and SessionsService of apps/api/src/modules/identity, on the tables of
--   packages/db/src/schema/identity.ts and access.ts. Identity/Login is AuthService.login with its lockout;
--   it is no transaction, and gives the tables also where it throws.
-- Staff: UsersService and InvitationsService.accept of apps/api/src/modules/access. They call both services
--   of Identity. Staff/Admins speaks of any sequence of their operations.
-- The Tests modules run the definitions on small tables and apply the theorems there.
--
-- Representation. Ids are numbers, since the code only compares them; ids and times that the database or
-- the clock gives are arguments. Money is in whole minor units, scores are whole numbers, a date is the
-- number of its day. A subtraction is written as the code has it; where the numbers are the natural ones,
-- the constraints of the tables are what keeps it from going below nothing. An audit entry is its action
-- and its entity, and the values that it lists are left out, but for Audit, which is about whole rows.
-- Reads that only join and present rows are left out, and so are the input schemas, the HTTP layer and
-- the user interfaces.
--
-- Fuel: decimal writes a number with one more step of fuel than its value, which is at least its number
-- of digits (Settings/Numbering/Decimal reads every number back). The search for
-- a loop of prerequisites has a round for each new prerequisite and each edge and one more, and is
-- proved to answer. verify has a round for each row and one more, since a batch that is not empty takes
-- one row at least; it is proved to answer too. All other recursion is structural.
--
-- Sound books (Billing/Ledger): ids of instalments are distinct; no instalment is paid beyond its amount;
-- every invoice has the totals and the status that its instalments make (or is void); what is paid on an
-- instalment is what the standing payments put there; an allocation belongs to a payment, and the
-- allocations of a payment are on instalments of its own invoice and add up to its amount.
pub mod Base
pub mod Versioning
pub mod Access
pub mod Settings
pub mod Billing
pub mod Registry
pub mod Admissions
pub mod Catalog
pub mod Courses
pub mod Completion
pub mod Cohorts
pub mod Classes
pub mod Schedule
pub mod Csv
pub mod Audit
pub mod Idempotency
pub mod Messaging
pub mod Identity
pub mod Staff
