-- ===== src/Base/Errors.antt =====
-- The errors that the services throw. A constructor stands for the exception of that code.
use Prim.Native.Nat.{ℕ}

pub data Failure : Type 0 where
  -- common
  permission_denied version_conflict : Failure
  -- a constraint of the database that no handler catches
  check_violation unique_violation : Failure
  -- billing
  fee_structure_not_found payment_plan_not_found fee_structure_exists : Failure
  no_fee_structure no_payment_plan : Failure
  invoice_not_found already_invoiced enrollment_not_billable : Failure
  payment_not_found invoice_closed unknown_provider unsupported_method : Failure
  overpayment : ℕ → Failure
  payment_not_posted approval_not_found approval_decided self_approval : Failure
  request_pending discount_too_small discount_too_large discount_error : Failure
  bad_shares code_taken : Failure
  -- settings
  branch_not_found inactive_code missing_branch invalid_list_value : Failure
  -- cohorts
  cohort_not_found enrollment_not_found not_enrolling already_enrolled : Failure
  prerequisites_not_met invalid_enrollment_state result_incomplete student_not_active : Failure
  has_enrollments invalid_cohort_transition : Failure
  no_sessions too_many_sessions room_conflict instructor_conflict : Failure
  -- students
  student_not_found : Failure
  -- admissions
  application_not_found invalid_transition placement_not_allowed already_converted : Failure
  not_ready_to_convert application_closed placement_disabled reference_not_found : Failure
  -- catalog
  program_not_found course_not_found cross_program_prerequisite prerequisite_cycle : Failure
  -- imports
  unclosed_quote : ℕ → Failure
  -- requests with an Idempotency-Key
  idempotency_key_required invalid_idempotency_key idempotency_key_reused : Failure
  -- identity and access
  weak_password email_taken account_missing invalid_credentials integer_out_of_range : Failure
  user_not_found role_not_found scope_not_allowed scope_not_available role_already_assigned :
      Failure
  last_admin cannot_change_self assignment_not_found invalid_invitation already_activated : Failure
