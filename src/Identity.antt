-- ===== src/Identity.antt =====
-- Accounts and sessions: `AccountsService` (apps/api/src/modules/identity/application/accounts.service.ts)
-- on the tables of packages/db/src/schema/identity.ts and access.ts. Passwords and tokens stand for
-- themselves as numbers; hashing them and the password policy are parameters. The id of a new row is the
-- one that the database generates.
pub mod Sessions
pub mod Login
use text.Mathlib.Text.{◌==◌ as str_eq}
use emis.Base.{
  ℕ, ◌+◌, String, Bool, true, false, not, ◌&&◌, ◌||◌, Option, none, some, List, [], ◌∷◌, ◌++◌,
  Result, ok, err, Tx, ◌>>=◌, ◌>>◌, pure, throw_if, throw_unless, or_throw, gets, modify, ltb, leb,
  ◌==◌, if◌then◌else◌, any, is_some, find_row, update_where, weak_password, email_taken,
  account_missing,
}
use emis.Access.{Scope}

pub data AccountStatus : Type 0 where
  active disabled : AccountStatus

pub record AccountRow : Type 0 where
  pub id : ℕ
  pub email : String
  pub password_hash : Option ℕ
  pub status : AccountStatus
  pub mfa_enforced : Bool
  pub failed_login_count : ℕ
  pub locked_until : Option ℕ
  pub last_login_at : Option ℕ

pub record UserSession : Type 0 where
  pub id : ℕ
  pub user_id : ℕ
  pub token_hash : ℕ
  pub last_seen_at : ℕ
  pub idle_expires_at : ℕ
  pub absolute_expires_at : ℕ
  pub mfa_verified_at : Option ℕ
  pub mfa_failed_attempts : ℕ
  pub revoked_at : Option ℕ
  pub revoked_reason : Option String

-- One factor for a user, confirmed or not.
pub record FactorRow : Type 0 where
  pub user_id : ℕ
  pub confirmed_at : Option ℕ

pub data ScopeType : Type 0 where
  global_scope branch_scope department_scope : ScopeType

pub record RoleRow : Type 0 where
  pub id : ℕ
  pub key : String
  pub mfa_required : Bool
  pub allowed_scopes : List ScopeType

pub record AssignmentRow : Type 0 where
  pub id : ℕ
  pub user_id : ℕ
  pub role_id : ℕ
  pub scope : Scope
  pub granted_by : Option ℕ

pub record InvitationRow : Type 0 where
  pub id : ℕ
  pub user_id : ℕ
  pub token_hash : ℕ
  pub expires_at : ℕ
  pub accepted_at : Option ℕ
  pub revoked_at : Option ℕ
  pub invited_by : Option ℕ

pub record StaffEntry : Type 0 where
  pub action : String
  pub entity_id : ℕ

pub record Identity : Type 0 where
  pub accounts : List AccountRow
  pub sessions : List UserSession
  pub factors : List FactorRow
  pub roles : List RoleRow
  pub assignments : List AssignmentRow
  pub invitations : List InvitationRow
  pub audit : List StaffEntry

-- `audit.record`, about a user
abbrev pub log_user : String → ℕ → Tx Identity (Unit {0})
log_user action id =
    modify (λ s. record s { audit = s.audit ++ record { action = action; entity_id = id } ∷ [] })

abbrev pub is_account : ℕ → AccountRow → Bool
is_account id a = a.id == id

abbrev pub is_active : AccountStatus → Bool
is_active active = true
is_active disabled = false

abbrev pub on_accounts : (List AccountRow → List AccountRow) → Tx Identity (Unit {0})
on_accounts f = modify (λ s. record s { accounts = f s.accounts })

-- What the hasher and the policy answer.
pub record Passwords : Type 0 where
  pub hash : ℕ → ℕ
  pub verify : Option ℕ → ℕ → Bool
  pub is_strong : ℕ → Bool

abbrev pub new_account : ℕ → String → Option ℕ → Bool → AccountRow
new_account id email password_hash mfa_enforced = record {
  id = id;
  email = email;
  password_hash = password_hash;
  status = active;
  mfa_enforced = mfa_enforced;
  failed_login_count = 0;
  locked_until = none;
  last_login_at = none;
}

abbrev pub is_strong_if_given : Passwords → Option ℕ → Bool
is_strong_if_given ps none = true
is_strong_if_given ps (some password) = ps.is_strong password

abbrev pub hash_if_given : Passwords → Option ℕ → Option ℕ
hash_if_given ps none = none
hash_if_given ps (some password) = some (ps.hash password)

-- `create`; user_accounts_email_key
unfoldable pub create_account : Passwords → ℕ → String → Option ℕ → Bool → Tx Identity (Unit {0})
create_account ps id email password mfa_enforced = do
  throw_unless (is_strong_if_given ps password) weak_password
  taken ←
      gets (λ (s : Identity).
        any (λ (a : AccountRow). (a.id == id) || str_eq a.email email) s.accounts)
  throw_if taken email_taken
  on_accounts (λ rows. rows ++ new_account id email (hash_if_given ps password) mfa_enforced ∷ [])

-- `setPassword`
unfoldable pub set_password : Passwords → ℕ → ℕ → Tx Identity (Unit {0})
set_password ps id password = do
  found ← gets (λ (s : Identity). any (is_account id) s.accounts)
  throw_unless found account_missing
  throw_unless (ps.is_strong password) weak_password
  on_accounts (
      update_where (is_account id) (λ (a : AccountRow). record a {
        password_hash = some (ps.hash password);
        failed_login_count = 0;
        locked_until = none;
      }))

-- `setStatus`
unfoldable pub set_account_status : ℕ → AccountStatus → Tx Identity (Unit {0})
set_account_status id status =
    on_accounts (update_where (is_account id) (λ (a : AccountRow). record a { status = status }))

-- `enforceMfa`
unfoldable pub enforce_mfa : ℕ → Tx Identity (Unit {0})
enforce_mfa id =
    on_accounts
      (update_where (is_account id) (λ (a : AccountRow). record a { mfa_enforced = true }))
