-- ===== src/Staff.antt =====
-- `UsersService` and `InvitationsService` (apps/api/src/modules/access/application): giving and taking
-- roles and disabling accounts here, inviting staff in Inviting. The email with the invitation's link is
-- left out; the token is given by its hash. What a role can be scoped to in other modules is a parameter
-- (`exists`).
pub mod Inviting
pub mod Admins
mod Tests
use text.Mathlib.Text.{◌==◌ as str_eq}
use emis.Base.{
  ℕ, ◌+◌, ◌*◌, String, Bool, true, false, not, ◌&&◌, ◌||◌, Option, none, some, List, [], ◌∷◌, ◌++◌,
  Result, ok, err, Tx, ◌>>=◌, ◌>>◌, pure, throw_if, throw_unless, or_throw, gets, modify, ltb, ◌==◌,
  if◌then◌else◌, any, is_some, select, find_row, update_where, user_not_found, role_not_found,
  scope_not_allowed, scope_not_available, role_already_assigned, last_admin, cannot_change_self,
  assignment_not_found, invalid_invitation, already_activated,
}
use emis.Access.{Scope, global, branch, department}
use emis.Billing.Invoices.{Actor}
use emis.Identity.{
  AccountRow, AccountStatus, disabled, RoleRow, ScopeType, global_scope, branch_scope,
  department_scope, AssignmentRow, InvitationRow, Identity, log_user, is_account, is_active,
  Passwords, create_account, set_password, set_account_status, enforce_mfa,
}
use emis.Identity.Sessions.{revoke_all_for_user}

-- ADMIN_ROLE
abbrev pub admin_role : String
admin_role = "admin"

abbrev pub is_admin_role : List RoleRow → ℕ → Bool
is_admin_role roles role_id =
    any (λ (r : RoleRow). (r.id == role_id) && str_eq r.key admin_role) roles

-- An account that is active and has a password.
abbrev pub is_usable : AccountRow → Bool
is_usable a = is_active a.status && is_some a.password_hash

abbrev pub can_log_in : List AccountRow → ℕ → Bool
can_log_in accounts id = any (λ (a : AccountRow). is_account id a && is_usable a) accounts

-- An assignment that makes somebody an active admin.
abbrev pub makes_admin : List RoleRow → List AccountRow → AssignmentRow → Bool
makes_admin roles accounts a = is_admin_role roles a.role_id && can_log_in accounts a.user_id

abbrev pub makes_other_admin : Identity → ℕ → AssignmentRow → Bool
makes_other_admin s user_id a =
    if a.user_id == user_id then false else makes_admin s.roles s.accounts a

-- `assertAnotherAdmin`. The advisory lock makes the transactions that ask this follow each other.
unfoldable pub assert_another_admin : ℕ → Tx Identity (Unit {0})
assert_another_admin user_id s =
    throw_unless (any (makes_other_admin s user_id) s.assignments) last_admin s

-- `get`, as far as the operations use it: the account
unfoldable pub get_user : ℕ → Tx Identity AccountRow
get_user id s = or_throw (find_row (is_account id) s.accounts) user_not_found s

abbrev pub has_admin_role : Identity → ℕ → Bool
has_admin_role s user_id =
    any (λ (a : AssignmentRow). (a.user_id == user_id) && is_admin_role s.roles a.role_id)
      s.assignments

abbrev pub is_disabled : AccountStatus → Bool
is_disabled disabled = true
is_disabled _ = false

-- The guard of `setStatus`.
abbrev pub may_disable : ℕ → AccountStatus → Tx Identity (Unit {0})
may_disable user_id status s =
    if is_disabled status && has_admin_role s user_id
    then assert_another_admin user_id s
    else ok (tt, s)

abbrev pub end_sessions : ℕ → ℕ → AccountStatus → Tx Identity (Unit {0})
end_sessions now user_id status s =
    if is_disabled status
    then (revoke_all_for_user now user_id "account_disabled" none >>= λ n. pure tt) s
    else ok (tt, s)

-- `setStatus`
unfoldable pub set_status : ℕ → ℕ → AccountStatus → Actor → Tx Identity AccountRow
unfolding get_user set_account_status revoke_all_for_user assert_another_admin
set_status now user_id status actor = do
  throw_if (user_id == actor.user_id) cannot_change_self
  before ← get_user user_id
  may_disable user_id status
  set_account_status user_id status
  end_sessions now user_id status
  log_user (if is_disabled status then "user.disabled" else "user.enabled") user_id
  get_user user_id

abbrev pub scope_type : Scope → ScopeType
scope_type global = global_scope
scope_type (branch id) = branch_scope
scope_type (department id) = department_scope

abbrev pub same_type : ScopeType → ScopeType → Bool
same_type global_scope global_scope = true
same_type branch_scope branch_scope = true
same_type department_scope department_scope = true
same_type _ _ = false

abbrev pub same_scope : Scope → Scope → Bool
same_scope global global = true
same_scope (branch a) (branch b) = a == b
same_scope (department a) (department b) = a == b
same_scope _ _ = false

abbrev pub has_key : String → RoleRow → Bool
has_key key r = str_eq r.key key

-- `requireGrantableRole`
unfoldable pub require_grantable_role : (Scope → Bool) → String → Scope → Tx Identity RoleRow
require_grantable_role exists role_key scope = do
  role ← λ s. or_throw (find_row (has_key role_key) s.roles) role_not_found s
  throw_unless (any (same_type (scope_type scope)) role.allowed_scopes) scope_not_allowed
  throw_unless (exists scope) scope_not_available
  pure role

-- user_role_assignments_unique and the primary key
abbrev pub clashes : AssignmentRow → AssignmentRow → Bool
clashes a b =
    (b.id == a.id)
    || ((b.user_id == a.user_id) && (b.role_id == a.role_id) && same_scope b.scope a.scope)

unfoldable pub insert_assignment : AssignmentRow → Tx Identity (Unit {0})
insert_assignment a = do
  taken ← gets (λ (s : Identity). any (clashes a) s.assignments)
  throw_if taken role_already_assigned
  modify (λ s. record s { assignments = s.assignments ++ a ∷ [] })

abbrev pub enforce_if : Bool → ℕ → Tx Identity (Unit {0})
enforce_if required user_id s = if required then enforce_mfa user_id s else ok (tt, s)

-- `assignRole`
unfoldable pub assign_role :
    (Scope → Bool) → ℕ → ℕ → String → Scope → Actor → Tx Identity AccountRow
unfolding get_user require_grantable_role insert_assignment enforce_mfa
assign_role exists id user_id role_key scope actor = do
  before ← get_user user_id
  role ← require_grantable_role exists role_key scope
  insert_assignment (record {
    id = id;
    user_id = user_id;
    role_id = role.id;
    scope = scope;
    granted_by = some actor.user_id;
  })
  enforce_if role.mfa_required user_id
  log_user "role.assigned" user_id
  get_user user_id

abbrev pub is_assignment : ℕ → AssignmentRow → Bool
is_assignment id a = a.id == id

abbrev pub users_assignment : ℕ → ℕ → AssignmentRow → Bool
users_assignment id user_id a = is_assignment id a && (a.user_id == user_id)

abbrev pub may_remove : ℕ → AssignmentRow → Tx Identity (Unit {0})
may_remove user_id a s =
    if is_admin_role s.roles a.role_id then assert_another_admin user_id s else ok (tt, s)

-- `removeAssignment`
unfoldable pub remove_assignment : ℕ → ℕ → Tx Identity AccountRow
unfolding get_user assert_another_admin
remove_assignment user_id assignment_id = do
  found ← λ s.
      or_throw (find_row (users_assignment assignment_id user_id) s.assignments)
        assignment_not_found s
  may_remove user_id found
  modify (λ (s : Identity). record s {
    assignments = select (λ (a : AssignmentRow). not (is_assignment assignment_id a)) s.assignments;
  })
  log_user "role.removed" user_id
  get_user user_id
