-- ===== src/Identity/Sessions.antt =====
-- `SessionsService` (apps/api/src/modules/identity/application/sessions.service.ts). A token is given by
-- its hash, which is what is stored; times are in milliseconds.
use emis.Base.{
  ℕ, ◌+◌, ◌-◌, ◌*◌, String, Bool, not, ◌&&◌, Option, none, some, List, [], ◌∷◌, ◌++◌, ok, Tx, ◌>>=◌,
  ◌>>◌, pure, gets, modify, ltb, ◌==◌, if◌then◌else◌, min, any, is_some, is_id, length, select,
  find_row, update_where,
}
use emis.Identity.{AccountRow, UserSession, FactorRow, Identity, is_account, is_active}

-- SESSION_ABSOLUTE_HOURS and SESSION_IDLE_MINUTES
pub record SessionEnv : Type 0 where
  pub absolute_hours : ℕ
  pub idle_minutes : ℕ

-- `expiries`: the absolute one is given, or counted from now; the idle one is never behind it.
abbrev pub absolute_expiry : SessionEnv → ℕ → ℕ
absolute_expiry env now = now + env.absolute_hours * 3600000

abbrev pub idle_expiry : SessionEnv → ℕ → ℕ → ℕ
idle_expiry env now absolute = min (now + env.idle_minutes * 60000) absolute

abbrev pub on_sessions : (List UserSession → List UserSession) → Tx Identity (Unit {0})
on_sessions f = modify (λ s. record s { sessions = f s.sessions })

-- `create`
unfoldable pub create_session : SessionEnv → ℕ → ℕ → ℕ → ℕ → Bool → Tx Identity (Unit {0})
create_session env now id user_id token_hash mfa_verified = on_sessions (λ rows.
    rows
    ++ record {
      id = id;
      user_id = user_id;
      token_hash = token_hash;
      last_seen_at = now;
      idle_expires_at = idle_expiry env now (absolute_expiry env now);
      absolute_expires_at = absolute_expiry env now;
      mfa_verified_at = if mfa_verified then some now else none;
      mfa_failed_attempts = 0;
      revoked_at = none;
      revoked_reason = none;
    }
      ∷ [])

-- A session that still runs.
abbrev pub is_live : ℕ → UserSession → Bool
is_live now r =
    not (is_some r.revoked_at) && ltb now r.idle_expires_at && ltb now r.absolute_expires_at

abbrev pub active_account : ℕ → List AccountRow → Bool
active_account id accounts =
    any (λ (a : AccountRow). is_account id a && is_active a.status) accounts

abbrev pub authenticates : ℕ → ℕ → List AccountRow → UserSession → Bool
authenticates now token_hash accounts r =
    (r.token_hash == token_hash) && is_live now r && active_account r.user_id accounts

pub data AuthNextStep : Type 0 where
  nothing mfa mfa_enrollment : AuthNextStep

-- `nextStepFor`
unfoldable pub next_step_for : Bool → Bool → Bool → AuthNextStep
next_step_for mfa_enabled mfa_enforced mfa_verified =
    if mfa_verified
    then nothing
    else if mfa_enabled
    then mfa
    else if mfa_enforced
    then mfa_enrollment
    else nothing

pub record AuthContext : Type 0 where
  pub session_id : ℕ
  pub user_id : ℕ
  pub absolute_expires_at : ℕ
  pub next_step : AuthNextStep

-- TOUCH_INTERVAL_MS
abbrev pub touch_interval : ℕ
touch_interval = 60000

abbrev pub is_session : ℕ → UserSession → Bool
is_session id r = r.id == id

abbrev pub enforces_mfa : ℕ → List AccountRow → Bool
enforces_mfa id accounts = any (λ (a : AccountRow). is_account id a && a.mfa_enforced) accounts

abbrev pub has_factor : ℕ → List FactorRow → Bool
has_factor user_id factors =
    any (λ (f : FactorRow). (f.user_id == user_id) && is_some f.confirmed_at) factors

abbrev pub context_of : Identity → UserSession → AuthContext
context_of s r = record {
  session_id = r.id;
  user_id = r.user_id;
  absolute_expires_at = r.absolute_expires_at;
  next_step =
      next_step_for (has_factor r.user_id s.factors) (enforces_mfa r.user_id s.accounts)
        (is_some r.mfa_verified_at);
}

-- The session as it is after it was seen: its idle time starts again, if the last time is long past.
abbrev pub touched : SessionEnv → ℕ → UserSession → UserSession
touched env now r = record r {
  last_seen_at = now;
  idle_expires_at = idle_expiry env now r.absolute_expires_at;
}

-- `authenticate`
unfoldable pub authenticate : SessionEnv → ℕ → ℕ → Tx Identity (Option AuthContext)
unfolding next_step_for
authenticate env now token_hash s =
    elim (find_row (authenticates now token_hash s.accounts) s.sessions) [
      | none ↦ ok (none, s)
      | some r ↦ ok (
        some (context_of s r),
        if ltb touch_interval (now - r.last_seen_at)
            then record s { sessions = update_where (is_session r.id) (touched env now) s.sessions }
            else s,
      )
    ]

-- `rotate`
unfoldable pub rotate : ℕ → ℕ → ℕ → Bool → Tx Identity (Unit {0})
rotate now session_id token_hash mark_mfa_verified = on_sessions (
    update_where (is_session session_id) (λ (r : UserSession). record r {
      token_hash = token_hash;
      last_seen_at = now;
      mfa_failed_attempts = 0;
      mfa_verified_at = if mark_mfa_verified then some now else r.mfa_verified_at;
    }))

abbrev pub revoked : ℕ → String → UserSession → UserSession
revoked now reason r = record r { revoked_at = some now; revoked_reason = some reason }

-- `revoke`
unfoldable pub revoke : ℕ → ℕ → String → Tx Identity (Unit {0})
revoke now session_id reason = on_sessions (
    update_where (λ (r : UserSession). is_session session_id r && not (is_some r.revoked_at))
      (revoked now reason))

abbrev pub own_session : ℕ → ℕ → UserSession → Bool
own_session user_id session_id r =
    is_session session_id r && (r.user_id == user_id) && not (is_some r.revoked_at)

-- `revokeOwn`
unfoldable pub revoke_own : ℕ → ℕ → ℕ → String → Tx Identity Bool
revoke_own now user_id session_id reason = do
  found ← gets (λ (s : Identity). any (own_session user_id session_id) s.sessions)
  on_sessions (update_where (own_session user_id session_id) (revoked now reason))
  pure found

abbrev pub is_excepted : Option ℕ → UserSession → Bool
is_excepted except r = is_id except r.id

abbrev pub revocable : ℕ → Option ℕ → UserSession → Bool
revocable user_id except r =
    (r.user_id == user_id) && not (is_some r.revoked_at) && not (is_excepted except r)

-- `revokeAllForUser`
unfoldable pub revoke_all_for_user : ℕ → ℕ → String → Option ℕ → Tx Identity ℕ
revoke_all_for_user now user_id reason except = do
  rows ← gets (λ (s : Identity). length (select (revocable user_id except) s.sessions))
  on_sessions (update_where (revocable user_id except) (revoked now reason))
  pure rows

-- MAX_MFA_ATTEMPTS
abbrev pub max_mfa_attempts : ℕ
max_mfa_attempts = 5

abbrev pub attempts_or_max : Option UserSession → ℕ
attempts_or_max none = max_mfa_attempts
attempts_or_max (some r) = r.mfa_failed_attempts

-- `recordMfaFailure`
unfoldable pub record_mfa_failure : ℕ → Tx Identity ℕ
record_mfa_failure session_id = do
  on_sessions (
      update_where (is_session session_id)
        (λ (r : UserSession). record r { mfa_failed_attempts = r.mfa_failed_attempts + 1 }))
  gets (λ (s : Identity). attempts_or_max (find_row (is_session session_id) s.sessions))
