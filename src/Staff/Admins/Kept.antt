-- ===== src/Staff/Admins/Kept.antt =====
-- The steps of the operations, and what each does to the admins.
use emis.Base.{
  any-imp, any-none, any-update_kept, All-every, ℕ, ◌≡◌, refl, subst, Bool, true, false, ◌&&◌,
  Option, none, some, ok, arith, gets, pure, length, any, All-imp, find_row, select, update_where,
  ◌==◌, if◌then◌else◌, Bool-cases, inl, inr, last_admin, Failure, or_throw, throw_if, throw_unless,
  account_missing, weak_password, String, user_not_found, Triple, Triple-bind, Triple-then,
  Triple-throw_if, Triple-throw_unless, Triple-or_throw, Triple-gets, Triple-modify, Triple-pure,
  Triple-weaken,
}
use emis.Identity.{
  AccountRow, AccountStatus, active, disabled, AssignmentRow, Identity, is_account, log_user,
  set_account_status, enforce_mfa, on_accounts, set_password, Passwords,
}
use emis.Identity.Sessions.{revoke_all_for_user, revocable, revoked, on_sessions}
use emis.Staff.{
  is_admin_role, is_usable, makes_admin, makes_other_admin, assert_another_admin, get_user,
  has_admin_role, is_disabled, may_disable, end_sessions, enforce_if,
}
use emis.Staff.Admins.{IsGoverned}

pub gets-IsGoverned : {A : Type 0} (f : Identity → A) → Triple IsGoverned (gets f) (λ _. IsGoverned)
gets-IsGoverned f =
    Triple-weaken IsGoverned (λ a s. IsGoverned s × (f s ≡ a)) (λ _. IsGoverned) _ (λ a s h. h.0)
      (Triple-gets IsGoverned f)

pub or_throw-IsGoverned :
    {A : Type 0} (f : Identity → Option A) (e : Failure)
    → Triple IsGoverned (λ s. or_throw (f s) e s) (λ _. IsGoverned)
or_throw-IsGoverned f e =
    Triple-weaken IsGoverned (λ a s. IsGoverned s × (f s ≡ some a)) (λ _. IsGoverned) _
      (λ a s h. h.0) (Triple-or_throw IsGoverned f e)

pub throw_if-IsGoverned :
    (b : Bool) (e : Failure) → Triple IsGoverned (throw_if b e) (λ _. IsGoverned)
throw_if-IsGoverned b e =
    Triple-weaken IsGoverned (λ _ s. IsGoverned s × (b ≡ false)) (λ _. IsGoverned) _ (λ a s h. h.0)
      (Triple-throw_if IsGoverned b e)

pub throw_unless-IsGoverned :
    (b : Bool) (e : Failure) → Triple IsGoverned (throw_unless b e) (λ _. IsGoverned)
throw_unless-IsGoverned b e =
    Triple-weaken IsGoverned (λ _ s. IsGoverned s × (b ≡ true)) (λ _. IsGoverned) _ (λ a s h. h.0)
      (Triple-throw_unless IsGoverned b e)

-- there is an admin beside this user, when it is to be disabled
abbrev pub IsSafe : ℕ → AccountStatus → Identity → Type 0
IsSafe user_id status s =
    IsGoverned s
    × (is_disabled status ≡ true → any (makes_other_admin s user_id) s.assignments ≡ true)

pub get_user-IsGoverned : (id : ℕ) → Triple IsGoverned (get_user id) (λ _. IsGoverned)
unfolding get_user
get_user-IsGoverned id =
    or_throw-IsGoverned (λ s. find_row (is_account id) s.accounts) user_not_found

-- Whoever is no admin is another than any admin.
other_admin :
    (s : Identity) (user_id : ℕ)
    → has_admin_role s user_id ≡ false
    → any (makes_admin s.roles s.accounts) s.assignments ≡ true
    → any (makes_other_admin s user_id) s.assignments ≡ true
other_admin s user_id n h =
    any-imp (makes_admin s.roles s.accounts) (makes_other_admin s user_id) s.assignments h (
      All-imp (λ a e t. ground arith) s.assignments
        (any-none (λ (a : AssignmentRow). (a.user_id == user_id) && is_admin_role s.roles a.role_id)
          s.assignments n))

pub assert_another_admin-ok :
    (user_id : ℕ) (a : Unit {0}) (s s' : Identity)
    → assert_another_admin user_id s ≡ ok (a, s')
    → (s ≡ s') × (any (makes_other_admin s user_id) s.assignments ≡ true)
unfolding assert_another_admin
assert_another_admin-ok user_id a s s' h =
    Triple-throw_unless (λ t. s ≡ t) (any (makes_other_admin s user_id) s.assignments) last_admin a
      s s' refl h

pub may_disable-IsSafe :
    (user_id : ℕ) (status : AccountStatus)
    → Triple IsGoverned (may_disable user_id status) (λ _. IsSafe user_id status)
may_disable-IsSafe user_id active a s s' g h =
    let same : s ≡ s' = cc in subst (IsSafe user_id active) same (g, λ t. cc)
may_disable-IsSafe user_id disabled a s s' g h = elim (Bool-cases (has_admin_role s user_id)) [
  | inl t ↦
      let (same, other) = assert_another_admin-ok user_id a s s' (taken true t) in
      subst (IsSafe user_id disabled) same (g, λ _. other)
  | inr t ↦
      let same : s ≡ s' = Triple-pure (λ r. s ≡ r) tt a s s' refl (taken false t) in
      subst (IsSafe user_id disabled) same (g, λ _. other_admin s user_id t g.1)
]
  where
    taken :
        (b : Bool)
        → has_admin_role s user_id ≡ b
        → (if b then assert_another_admin user_id s else ok (tt, s)) ≡ ok (a, s')
    taken b t =
        subst (λ b. (if b then assert_another_admin user_id s else ok (tt, s)) ≡ ok (a, s')) t h

-- A change of accounts that keeps who can log in among those with an assignment that makes admins.
on_accounts-IsGoverned :
    (p : AccountRow → Bool) (f : AccountRow → AccountRow)
    → ((x : AccountRow) → (f x).id ≡ x.id)
    → ((x : AccountRow) → p x ≡ true → is_usable x ≡ true → is_usable (f x) ≡ true)
    → Triple IsGoverned (on_accounts (update_where p f)) (λ _. IsGoverned)
on_accounts-IsGoverned p f same keep =
    Triple-modify IsGoverned IsGoverned (λ s. record s { accounts = update_where p f s.accounts })
      (λ s g. (
        g.0,
        any-imp (makes_admin s.roles s.accounts) (makes_admin s.roles (update_where p f s.accounts))
            s.assignments g.1
            (All-every _ s.assignments (λ a t.
              let logs_in =
                any-update_kept (λ (x : AccountRow). is_account a.user_id x && is_usable x) p f
                  (λ x u v. let k = keep x u (ground arith) in let e = same x in ground arith)
                  s.accounts (ground arith) in
              ground arith)),
      ))

pub set_account_status-IsGoverned :
    (user_id : ℕ) (status : AccountStatus)
    → Triple (IsSafe user_id status) (set_account_status user_id status) (λ _. IsGoverned)
unfolding set_account_status
set_account_status-IsGoverned user_id active = λ a s s' h.
    on_accounts-IsGoverned (is_account user_id) (λ (x : AccountRow). record x { status = active })
      (λ x. refl) (λ x u v. ground arith) a s s' h.0
set_account_status-IsGoverned user_id disabled =
    Triple-modify (IsSafe user_id disabled) IsGoverned _ (λ s h. (
      h.0.0,
      any-imp (makes_other_admin s user_id)
          (makes_admin s.roles (
            update_where (is_account user_id) (λ (x : AccountRow). record x { status = disabled })
              s.accounts))
          s.assignments (h.1 refl)
          (All-every _ s.assignments (λ a t.
            let logs_in =
              any-update_kept (λ (x : AccountRow). is_account a.user_id x && is_usable x)
                (is_account user_id) (λ (x : AccountRow). record x { status = disabled })
                (λ x u v. absurd (ground arith)) s.accounts (ground arith) in
            ground arith)),
    ))

pub enforce_if-IsGoverned :
    (required : Bool) (user_id : ℕ)
    → Triple IsGoverned (enforce_if required user_id) (λ _. IsGoverned)
unfolding enforce_mfa
enforce_if-IsGoverned true user_id =
    on_accounts-IsGoverned (is_account user_id)
      (λ (x : AccountRow). record x { mfa_enforced = true }) (λ x. refl) (λ x u v. v)
enforce_if-IsGoverned false user_id = Triple-pure IsGoverned tt

pub set_password-IsGoverned :
    (ps : Passwords) (id password : ℕ)
    → Triple IsGoverned (set_password ps id password) (λ _. IsGoverned)
unfolding set_password
set_password-IsGoverned ps id password =
    Triple-bind IsGoverned (λ _. IsGoverned) (λ _. IsGoverned) _ _
      (gets-IsGoverned (λ s. any (is_account id) s.accounts))
      (λ found.
        Triple-then IsGoverned (λ _. IsGoverned) _ _ (throw_unless-IsGoverned found account_missing)
          (Triple-then IsGoverned (λ _. IsGoverned) _ _
            (throw_unless-IsGoverned (ps.is_strong password) weak_password)
            (on_accounts-IsGoverned (is_account id)
              (λ (x : AccountRow). record x {
                password_hash = some (ps.hash password);
                failed_login_count = 0;
                locked_until = none;
              })
              (λ x. refl) (λ x u v. ground arith))))

pub end_sessions-IsGoverned :
    (now user_id : ℕ) (status : AccountStatus)
    → Triple IsGoverned (end_sessions now user_id status) (λ _. IsGoverned)
unfolding revoke_all_for_user
end_sessions-IsGoverned now user_id active = Triple-pure IsGoverned tt
end_sessions-IsGoverned now user_id disabled =
    Triple-bind IsGoverned (λ _. IsGoverned) (λ _. IsGoverned) _ (λ n. pure tt)
      (Triple-bind IsGoverned (λ _. IsGoverned) (λ _. IsGoverned)
        (gets (λ s. length (select (revocable user_id none) s.sessions))) _
        (gets-IsGoverned (λ s. length (select (revocable user_id none) s.sessions)))
        (λ n.
          Triple-then IsGoverned (λ _. IsGoverned)
            (on_sessions (update_where (revocable user_id none) (revoked now "account_disabled")))
            (pure n) (Triple-modify IsGoverned IsGoverned _ (λ s h. h)) (Triple-pure IsGoverned n)))
      (λ n. Triple-pure IsGoverned tt)

pub log_user-IsGoverned :
    (action : String) (id : ℕ) → Triple IsGoverned (log_user action id) (λ _. IsGoverned)
log_user-IsGoverned action id = Triple-modify IsGoverned IsGoverned _ (λ s h. h)
