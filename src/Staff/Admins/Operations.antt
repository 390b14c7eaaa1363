-- ===== src/Staff/Admins/Operations.antt =====
-- Every operation of `UsersService` and the acceptance of an invitation, and any sequence of them.
use emis.Base.{
  ℕ, ◌≡◌, String, Bool, none, some, Tx, ◌>>=◌, ◌>>◌, modify, any, find_row, update_where, ◌==◌,
  if◌then◌else◌, cannot_change_self, already_activated, role_not_found, scope_not_allowed,
  scope_not_available, assignment_not_found, invalid_invitation, Triple, Triple-bind, Triple-then,
  Triple-or_throw, Triple-modify, Triple-pure,
}
use emis.Access.{Scope}
use emis.Billing.Invoices.{Actor}
use emis.Identity.{AccountStatus, InvitationRow, Identity, Passwords}
use emis.Staff.{
  set_status, assign_role, remove_assignment, is_disabled, require_grantable_role, users_assignment,
  has_key, scope_type, same_type,
}
use emis.Staff.Inviting.{
  NewIds, Invite, invite, resend_invitation, accept, issue_invitation, is_open, is_invited,
  open_invitation,
}
use emis.Staff.Admins.{IsGoverned}
use emis.Staff.Admins.Kept.{
  IsSafe, or_throw-IsGoverned, throw_if-IsGoverned, throw_unless-IsGoverned, get_user-IsGoverned,
  may_disable-IsSafe, set_account_status-IsGoverned, end_sessions-IsGoverned, enforce_if-IsGoverned,
  set_password-IsGoverned, log_user-IsGoverned,
}
use emis.Staff.Admins.Rows.{
  insert_assignment-IsGoverned, create_account-IsGoverned, may_remove-IsGoverned, without,
}

-- what keeps the admins, after any answer
abbrev pub Keeps : {A : Type 0} → Tx Identity A → Type 0
Keeps m = Triple IsGoverned m (λ _. IsGoverned)

afterwards :
    {B : Type 0} (m : Tx Identity (Unit {0})) (k : Tx Identity B)
    → Keeps m
    → Keeps k
    → Keeps (m >> k)
afterwards m k = Triple-then IsGoverned (λ _. IsGoverned) m k

with_answer :
    {A B : Type 0} (m : Tx Identity A) (k : A → Tx Identity B)
    → Keeps m
    → ((a : A) → Keeps (k a))
    → Keeps (m >>= k)
with_answer m k = Triple-bind IsGoverned (λ _. IsGoverned) (λ _. IsGoverned) m k

pub set_status-Keeps :
    (now user_id : ℕ) (status : AccountStatus) (actor : Actor)
    → Keeps (set_status now user_id status actor)
unfolding set_status
set_status-Keeps now user_id status actor =
    afterwards _ _ (throw_if-IsGoverned (user_id == actor.user_id) cannot_change_self) (
      with_answer _ _ (get_user-IsGoverned user_id) (λ before.
        Triple-bind IsGoverned (λ _. IsSafe user_id status) (λ _. IsGoverned) _ _
          (may_disable-IsSafe user_id status)
          (λ _.
            Triple-bind (IsSafe user_id status) (λ _. IsGoverned) (λ _. IsGoverned) _ _
              (set_account_status-IsGoverned user_id status)
              (λ _. afterwards _ _ (end_sessions-IsGoverned now user_id status) (
                afterwards _ _
                  (log_user-IsGoverned
                    (if is_disabled status then "user.disabled" else "user.enabled") user_id)
                  (get_user-IsGoverned user_id))))))

require_grantable_role-Keeps :
    (exists : Scope → Bool) (role_key : String) (scope : Scope)
    → Keeps (require_grantable_role exists role_key scope)
unfolding require_grantable_role
require_grantable_role-Keeps exists role_key scope =
    with_answer _ _ (or_throw-IsGoverned (λ s. find_row (has_key role_key) s.roles) role_not_found)
      (λ role.
        afterwards _ _
          (throw_unless-IsGoverned (any (same_type (scope_type scope)) role.allowed_scopes)
            scope_not_allowed)
          (afterwards _ _ (throw_unless-IsGoverned (exists scope) scope_not_available)
            (Triple-pure IsGoverned role)))

pub assign_role-Keeps :
    (exists : Scope → Bool) (id user_id : ℕ) (role_key : String) (scope : Scope) (actor : Actor)
    → Keeps (assign_role exists id user_id role_key scope actor)
unfolding assign_role
assign_role-Keeps exists id user_id role_key scope actor =
    with_answer _ _ (get_user-IsGoverned user_id) (λ before.
      with_answer _ _ (require_grantable_role-Keeps exists role_key scope) (λ role.
        afterwards _ _ (insert_assignment-IsGoverned _) (
          afterwards _ _ (enforce_if-IsGoverned role.mfa_required user_id) (
            afterwards _ _ (log_user-IsGoverned "role.assigned" user_id)
              (get_user-IsGoverned user_id)))))

pub remove_assignment-Keeps : (user_id id : ℕ) → Keeps (remove_assignment user_id id)
unfolding remove_assignment
remove_assignment-Keeps user_id id =
    Triple-bind IsGoverned
      (λ a s. IsGoverned s × (find_row (users_assignment id user_id) s.assignments ≡ some a))
      (λ _. IsGoverned) _ _
      (Triple-or_throw IsGoverned (λ s. find_row (users_assignment id user_id) s.assignments)
        assignment_not_found)
      (λ found.
        Triple-bind _ (λ _ s. IsGoverned (without id s)) (λ _. IsGoverned) _ _
          (may_remove-IsGoverned id user_id found)
          (λ _.
            Triple-bind _ (λ _. IsGoverned) (λ _. IsGoverned) _ _
              (Triple-modify (λ s. IsGoverned (without id s)) IsGoverned (without id) (λ s h. h))
              (λ _.
                afterwards _ _ (log_user-IsGoverned "role.removed" user_id)
                  (get_user-IsGoverned user_id))))

issue_invitation-Keeps :
    (now id user_id token_hash invited_by : ℕ)
    → Keeps (issue_invitation now id user_id token_hash invited_by)
unfolding issue_invitation
issue_invitation-Keeps now id user_id token_hash invited_by =
    Triple-modify IsGoverned IsGoverned _ (λ s h. h)

pub invite-Keeps :
    (ps : Passwords) (exists : Scope → Bool) (now : ℕ) (ids : NewIds) (input : Invite)
    (actor : Actor)
    → Keeps (invite ps exists now ids input actor)
unfolding invite
invite-Keeps ps exists now ids input actor =
    with_answer _ _ (require_grantable_role-Keeps exists input.role_key input.scope) (λ role.
      afterwards _ _ (create_account-IsGoverned ps ids.user_id input.email none role.mfa_required) (
        afterwards _ _ (insert_assignment-IsGoverned _) (
          afterwards _ _
            (issue_invitation-Keeps now ids.invitation_id ids.user_id ids.token_hash actor.user_id)
            (afterwards _ _ (log_user-IsGoverned "user.invited" ids.user_id)
              (get_user-IsGoverned ids.user_id)))))

pub resend_invitation-Keeps :
    (now id token_hash user_id : ℕ) (actor : Actor)
    → Keeps (resend_invitation now id token_hash user_id actor)
unfolding resend_invitation
resend_invitation-Keeps now id token_hash user_id actor =
    with_answer _ _ (get_user-IsGoverned user_id) (λ user.
      afterwards _ _ (throw_unless-IsGoverned (is_invited user) already_activated) (
        afterwards
          (modify (λ (s : Identity). record s {
            invitations =
                update_where (open_invitation user_id)
                  (λ (i : InvitationRow). record i { revoked_at = some now }) s.invitations;
          }))
          _ (Triple-modify IsGoverned IsGoverned _ (λ s h. h))
          (afterwards _ _ (issue_invitation-Keeps now id user_id token_hash actor.user_id)
            (log_user-IsGoverned "user.invitation_resent" user_id))))

pub accept-Keeps :
    (ps : Passwords) (now token_hash password : ℕ) → Keeps (accept ps now token_hash password)
unfolding accept
accept-Keeps ps now token_hash password =
    with_answer _ _
      (or_throw-IsGoverned (λ s. find_row (is_open now token_hash s.accounts) s.invitations)
        invalid_invitation)
      (λ invitation.
        afterwards
          (modify (λ (s : Identity). record s {
            invitations =
                update_where (λ (i : InvitationRow). i.id == invitation.id)
                  (λ (i : InvitationRow). record i { accepted_at = some now }) s.invitations;
          }))
          _ (Triple-modify IsGoverned IsGoverned _ (λ s h. h))
          (afterwards _ _ (set_password-IsGoverned ps invitation.user_id password)
            (log_user-IsGoverned "user.invitation_accepted" invitation.user_id)))
