-- ===== src/Identity/Login.antt =====
-- `AuthService.login` (apps/api/src/modules/identity/application/auth.service.ts). It is no transaction:
-- what a failed login writes stays, so that a step gives the tables also where it throws. The email to
-- a locked account is left out.
pub mod Lockout
mod Tests
use text.Mathlib.Text.{◌==◌ as str_eq}
use emis.Base.{
  ℕ, zero, suc, ◌+◌, ◌-◌, ◌*◌, ◌%◌, String, Bool, true, false, not, ◌&&◌, Option, none, some, List,
  [], ◌∷◌, ◌++◌, Result, ok, err, ltb, leb, ◌==◌, if◌then◌else◌, min, is_some, find_row,
  update_where, invalid_credentials, integer_out_of_range,
}
use emis.Identity.{AccountRow, Identity, is_account, is_active, Passwords}
use emis.Identity.Sessions.{SessionEnv, create_session, AuthNextStep, next_step_for, has_factor}

pub record SecurityEvent : Type 0 where
  pub type_name : String
  pub user_id : Option ℕ

-- The tables of accounts and sessions, with security_events.
pub record AuthTables : Type 0 where
  pub identity : Identity
  pub events : List SecurityEvent

-- What the hasher and the configuration answer.
pub record LoginEnv : Type 0 where
  pub sessions : SessionEnv
  pub passwords : Passwords
  pub needs_rehash : ℕ → Bool

-- LOCKOUT_THRESHOLD and MAX_LOCKOUT_MINUTES
abbrev pub lockout_threshold : ℕ
lockout_threshold = 5

abbrev pub max_lockout_minutes : ℕ
max_lockout_minutes = 60

abbrev pub two_to : ℕ → ℕ
two_to zero = 1
two_to (suc n) = 2 * two_to n

-- `power(2, next - threshold)::int` is out of the range of a 32-bit integer.
abbrev pub is_out_of_range : ℕ → Bool
is_out_of_range next =
    leb lockout_threshold next && leb 2147483648 (two_to (next - lockout_threshold))

-- The CASE of `registerFailure`, in milliseconds
abbrev pub locked_after : ℕ → ℕ → Option ℕ → Option ℕ
locked_after now next before =
    if leb lockout_threshold next
    then some (now + min max_lockout_minutes (two_to (next - lockout_threshold)) * 60000)
    else before

abbrev pub counted : ℕ → AccountRow → AccountRow
counted now a = record a {
  failed_login_count = a.failed_login_count + 1;
  locked_until = locked_after now (a.failed_login_count + 1) a.locked_until;
}

pub record Failed : Type 0 where
  pub count : ℕ
  pub locked_until : Option ℕ

-- `registerFailure`; where the cast is out of range, the statement fails and writes nothing.
unfoldable pub register_failure : ℕ → ℕ → Identity → Result (Failed × Identity)
register_failure now id s = elim (find_row (is_account id) s.accounts) [
  | none ↦ ok (record { count = 0; locked_until = none }, s)
  | some a ↦
      if is_out_of_range (a.failed_login_count + 1)
      then err integer_out_of_range
      else ok (
        record {
          count = (counted now a).failed_login_count;
          locked_until = (counted now a).locked_until;
        },
        record s { accounts = update_where (is_account id) (counted now) s.accounts },
      )
]

-- `events.record`
abbrev pub log_event : String → Option ℕ → AuthTables → AuthTables
log_event type_name user_id t = record t {
  events = t.events ++ record { type_name = type_name; user_id = user_id } ∷ [];
}

abbrev pub has_email : String → AccountRow → Bool
has_email email a = str_eq a.email email

abbrev pub is_locked : ℕ → Option ℕ → Bool
is_locked now none = false
is_locked now (some until) = ltb now until

pub record LoginResponse : Type 0 where
  pub user_id : ℕ
  pub next_step : AuthNextStep

-- The branch of a wrong password.
unfoldable pub wrong_password : ℕ → AccountRow → AuthTables → Result LoginResponse × AuthTables
unfolding register_failure
wrong_password now a t = elim (register_failure now a.id t.identity) [
  | err e ↦ (err e, t)
  | ok (failure, identity) ↦
      let failed = log_event "login.failed" (some a.id) (record t { identity = identity }) in
      (
        err invalid_credentials,
        if is_some failure.locked_until && (failure.count % lockout_threshold == 0)
            then log_event "account.locked" (some a.id) failed
            else failed,
      )
]

abbrev pub rehashed : LoginEnv → ℕ → Option ℕ → Option ℕ
rehashed env password none = none
rehashed env password (some hash) =
    if env.needs_rehash hash then some (env.passwords.hash password) else some hash

abbrev pub logged_in : LoginEnv → ℕ → ℕ → AccountRow → AccountRow
logged_in env now password a = record a {
  failed_login_count = 0;
  locked_until = none;
  last_login_at = some now;
  password_hash = rehashed env password a.password_hash;
}

-- The branch of a right password: the id and the token's hash are those of the new session.
unfoldable pub right_password :
    LoginEnv → ℕ → ℕ → ℕ → ℕ → AccountRow → AuthTables → Result LoginResponse × AuthTables
unfolding create_session next_step_for
right_password env now password session_id token_hash a t =
    let identity : Identity = record t.identity {
      accounts = update_where (is_account a.id) (logged_in env now password) t.identity.accounts;
    } in
    elim (create_session env.sessions now session_id a.id token_hash false identity) [
      | err e ↦ (err e, record t { identity = identity })
      | ok (_, after) ↦ (
        ok (record {
          user_id = a.id;
          next_step = next_step_for (has_factor a.id identity.factors) a.mfa_enforced false;
        }),
        log_event "login.succeeded" (some a.id) (record t { identity = after }),
      )
    ]

-- `login`
unfoldable pub login :
    LoginEnv → ℕ → String → ℕ → ℕ → ℕ → AuthTables → Result LoginResponse × AuthTables
unfolding wrong_password right_password
login env now email password session_id token_hash t =
    elim (find_row (has_email email) t.identity.accounts) [
      | none ↦ (err invalid_credentials, log_event "login.failed" none t)
      | some a ↦
          let wrong = wrong_password now a t in
          let right = right_password env now password session_id token_hash a t in
          if is_locked now a.locked_until
          then (err invalid_credentials, log_event "login.blocked" (some a.id) t)
          else if not (is_active a.status && is_some a.password_hash)
          then (err invalid_credentials, log_event "login.failed" (some a.id) t)
          else if not (env.passwords.verify a.password_hash password)
          then wrong
          else right
    ]
