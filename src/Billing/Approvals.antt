-- ===== src/Billing/Approvals.antt =====
-- `ApprovalsService` (billing/application/approvals.service.ts): one person asks for a change of
-- money, and another decides it.
pub mod Carrying
pub mod Deciding
pub mod Requests
use text.Mathlib.Text.{◌==◌ as str_eq}
use emis.Base.{
  ℕ, ◌+◌, ◌-◌, String, Bool, true, false, not, ◌&&◌, ◌||◌, Option, none, some, List, [], ◌∷◌, ◌++◌,
  Result, ok, err, Tx, ◌>>=◌, ◌>>◌, pure, throw_if, throw_unless, or_throw, gets, modify, ltb, leb,
  ◌==◌, if◌then◌else◌, any, all, find_row, is_id, is_some, check_violation, request_pending,
  approval_not_found, approval_decided, self_approval, invoice_closed, discount_too_small,
  discount_too_large, payment_not_posted, inactive_code,
}
use emis.Access.{Grant, at_branch, assert_scope}
use emis.Versioning.{Versioned, update_versioned}
use emis.Billing.Flow.{DiscountKind, discount_amount}
use emis.Billing.Tables.{
  ApprovalRow, ApprovalStatus, pending, approved, rejected, ApprovalPayload, discount, payment_void,
  Books, record_audit,
}
use emis.Billing.Invoices.{Actor, lock, is_closed, apply_discount_to, Discount}
use emis.Billing.Payments.{payment_row, is_posted, void_payment}

abbrev pub is_pending : ApprovalStatus → Bool
is_pending pending = true
is_pending _ = false

abbrev pub same_type : ApprovalPayload → ApprovalPayload → Bool
same_type (ApprovalPayload.discount _ _ _) (ApprovalPayload.discount _ _ _) = true
same_type ApprovalPayload.payment_void ApprovalPayload.payment_void = true
same_type _ _ = false

abbrev pub is_approval : ℕ → ApprovalRow → Bool
is_approval id r = r.id == id

-- approval_requests_separation_check and approval_requests_decided_check
abbrev pub approval_checks : ApprovalRow → Bool
approval_checks r =
    not (is_id r.decided_by r.requested_by)
    && (if is_pending r.status then not (is_some r.decided_by) else is_some r.decided_by)

-- approval_requests_one_pending_key: an open request of that type for that subject.
abbrev pub is_open_for : ApprovalPayload → ℕ → ApprovalRow → Bool
is_open_for payload subject_id r =
    is_pending r.status && same_type r.payload payload && (r.subject_id == subject_id)

-- `create`: a violation of the one-pending index is answered as a pending request.
unfoldable pub create_request : ℕ → ApprovalPayload → ℕ → String → Actor → Tx Books (Unit {0})
unfolding record_audit
create_request new_id payload subject_id reason actor = do
  taken ← gets (λ s. any (is_open_for payload subject_id) s.approvals)
  throw_if taken request_pending
  modify (λ s. record s {
    approvals =
        s.approvals
        ++ record {
          id = new_id;
          payload = payload;
          status = pending;
          subject_id = subject_id;
          reason = reason;
          requested_by = actor.user_id;
          decided_by = none;
          decision_note = none;
          decided_at = none;
          updated_by = actor.user_id;
          version = 1;
        }
          ∷ [];
  })
  record_audit "approval.requested" "approval" new_id

pub record RequestDiscount : Type 0 where
  pub kind : DiscountKind
  pub value : ℕ
  pub reason_code : String
  pub note : String

-- `requestDiscount`; `is_active` says which discount reasons are in use.
unfoldable pub request_discount :
    (String → Bool) → ℕ → ℕ → RequestDiscount → List Grant → Actor → Tx Books (Unit {0})
unfolding lock create_request
request_discount is_active new_id invoice_id input grants actor = do
  invoice ← lock invoice_id
  assert_scope grants "billing.request" (at_branch invoice.branch_id)
  throw_if (is_closed invoice.status) invoice_closed
  throw_unless (is_active input.reason_code) inactive_code
  let amount = discount_amount input.kind input.value invoice.total
  throw_if (ltb amount 1) discount_too_small
  throw_if (ltb (invoice.total - invoice.paid_total) amount) discount_too_large
  create_request new_id (ApprovalPayload.discount input.kind input.value input.reason_code)
      invoice_id (if str_eq input.note "" then input.reason_code else input.note) actor

-- `requestVoid`
unfoldable pub request_void : ℕ → ℕ → String → List Grant → Actor → Tx Books (Unit {0})
unfolding payment_row create_request
request_void new_id payment_id reason grants actor = do
  payment ← payment_row payment_id
  assert_scope grants "billing.request" (at_branch payment.branch_id)
  throw_unless (is_posted payment.status) payment_not_posted
  create_request new_id ApprovalPayload.payment_void payment_id reason actor

pub data Decision : Type 0 where
  approve reject : Decision

abbrev is_approve : Decision → Bool
is_approve approve = true
is_approve reject = false

abbrev pub decided_status : Decision → ApprovalStatus
decided_status approve = approved
decided_status reject = rejected

abbrev pub approvals_table : Versioned ApprovalRow
approvals_table = record {
  id = λ r. r.id;
  version = λ r. r.version;
  bump = λ r. record r { version = r.version + 1 };
}

-- What the decision writes on the request.
abbrev pub decide_row : ℕ → Decision → Option String → Actor → ApprovalRow → ApprovalRow
decide_row now decision remark actor r = record r {
  status = decided_status decision;
  decided_by = some actor.user_id;
  decision_note = remark;
  decided_at = some now;
  updated_by = actor.user_id;
}

-- The change that an approval makes, in the same transaction.
unfoldable pub carry_out : ℕ → ApprovalRow → Decision → Actor → Tx Books (Unit {0})
unfolding apply_discount_to void_payment
carry_out now request reject actor = pure tt
carry_out now request approve actor = elim request.payload [
  | discount kind value reason_code ↦
      apply_discount_to request.subject_id
        (record { kind = kind; value = value; reason_code = reason_code; approval_id = request.id })
        actor
  | payment_void ↦ void_payment now request.subject_id request.id actor
]

-- The versioned update of the request, with the checks of its table.
unfoldable pub close_request :
    ℕ → ApprovalRow → Decision → Option String → Actor → Tx Books (Unit {0})
unfolding update_versioned
close_request now request decision remark actor s =
    elim (update_versioned approvals_table request.id request.version
      (decide_row now decision remark actor) approval_not_found s.approvals) [
        | ok (row, rows) ↦
            if approval_checks row
            then ok (tt, record s { approvals = rows })
            else err check_violation
        | err e ↦ err e
      ]

-- `decide`
unfoldable pub decide : ℕ → ℕ → Decision → Option String → Actor → Tx Books (Unit {0})
unfolding carry_out close_request record_audit
decide now id decision remark actor = do
  request ← λ s. or_throw (find_row (is_approval id) s.approvals) approval_not_found s
  throw_unless (is_pending request.status) approval_decided
  throw_if (request.requested_by == actor.user_id) self_approval
  carry_out now request decision actor
  close_request now request decision remark actor
  record_audit (if is_approve decision then "approval.approved" else "approval.rejected") "approval"
      id
