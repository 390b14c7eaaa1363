-- ===== src/Staff/Inviting.antt =====
-- Inviting people, and accepting an invitation: `invite` and `resendInvitation` of `UsersService`, and
-- `InvitationsService.accept`.
use emis.Base.{
  ℕ, ◌+◌, ◌*◌, String, Bool, not, ◌&&◌, none, some, List, [], ◌∷◌, ◌++◌, Tx, ◌>>=◌, ◌>>◌,
  throw_unless, or_throw, modify, ltb, ◌==◌, any, is_some, find_row, update_where,
  invalid_invitation, already_activated,
}
use emis.Access.{Scope}
use emis.Billing.Invoices.{Actor}
use emis.Identity.{
  AccountRow, InvitationRow, Identity, log_user, is_account, is_active, Passwords, create_account,
  set_password,
}
use emis.Staff.{get_user, require_grantable_role, insert_assignment, modify}

-- INVITATION_TTL_HOURS, in milliseconds
abbrev pub invitation_ttl : ℕ
invitation_ttl = 72 * 3600000

-- `issueInvitationToken`
unfoldable pub issue_invitation : ℕ → ℕ → ℕ → ℕ → ℕ → Tx Identity (Unit {0})
issue_invitation now id user_id token_hash invited_by = modify (λ s. record s {
  invitations =
      s.invitations
      ++ record {
        id = id;
        user_id = user_id;
        token_hash = token_hash;
        expires_at = now + invitation_ttl;
        accepted_at = none;
        revoked_at = none;
        invited_by = some invited_by;
      }
        ∷ [];
})

-- The ids that the database generates for an invited person, and the hash of the link's token.
pub record NewIds : Type 0 where
  pub user_id : ℕ
  pub assignment_id : ℕ
  pub invitation_id : ℕ
  pub token_hash : ℕ

pub record Invite : Type 0 where
  pub email : String
  pub role_key : String
  pub scope : Scope

-- `invite`, with `createInvited`
unfoldable pub invite :
    Passwords → (Scope → Bool) → ℕ → NewIds → Invite → Actor → Tx Identity AccountRow
unfolding get_user require_grantable_role create_account insert_assignment issue_invitation
invite ps exists now ids input inviter = do
  role ← require_grantable_role exists input.role_key input.scope
  create_account ps ids.user_id input.email none role.mfa_required
  insert_assignment (record {
    id = ids.assignment_id;
    user_id = ids.user_id;
    role_id = role.id;
    scope = input.scope;
    granted_by = some inviter.user_id;
  })
  issue_invitation now ids.invitation_id ids.user_id ids.token_hash inviter.user_id
  log_user "user.invited" ids.user_id
  get_user ids.user_id

-- The status that `load` shows is 'invited'.
abbrev pub is_invited : AccountRow → Bool
is_invited a = is_active a.status && not (is_some a.password_hash)

abbrev pub open_invitation : ℕ → InvitationRow → Bool
open_invitation user_id i =
    (i.user_id == user_id) && not (is_some i.accepted_at) && not (is_some i.revoked_at)

-- `resendInvitation`, with `reissueInvitation`
unfoldable pub resend_invitation : ℕ → ℕ → ℕ → ℕ → Actor → Tx Identity (Unit {0})
unfolding get_user issue_invitation
resend_invitation now id token_hash user_id inviter = do
  user ← get_user user_id
  throw_unless (is_invited user) already_activated
  modify (λ (s : Identity). record s {
    invitations =
        update_where (open_invitation user_id)
          (λ (i : InvitationRow). record i { revoked_at = some now }) s.invitations;
  })
  issue_invitation now id user_id token_hash inviter.user_id
  log_user "user.invitation_resent" user_id

-- An account that waits for its first password.
abbrev pub awaits_password : List AccountRow → ℕ → Bool
awaits_password accounts id = any (λ (a : AccountRow). is_account id a && is_invited a) accounts

-- `findOpen`
abbrev pub is_open : ℕ → ℕ → List AccountRow → InvitationRow → Bool
is_open now token_hash accounts i =
    (i.token_hash == token_hash)
    && not (is_some i.accepted_at)
    && not (is_some i.revoked_at)
    && ltb now i.expires_at
    && awaits_password accounts i.user_id

-- `accept`. The row is claimed in the same transaction, so that it is still open then.
unfoldable pub accept : Passwords → ℕ → ℕ → ℕ → Tx Identity (Unit {0})
unfolding set_password
accept ps now token_hash password = do
  invitation ← λ s.
      or_throw (find_row (is_open now token_hash s.accounts) s.invitations) invalid_invitation s
  modify (λ (s : Identity). record s {
    invitations =
        update_where (λ (i : InvitationRow). i.id == invitation.id)
          (λ (i : InvitationRow). record i { accepted_at = some now }) s.invitations;
  })
  set_password ps invitation.user_id password
  log_user "user.invitation_accepted" invitation.user_id
