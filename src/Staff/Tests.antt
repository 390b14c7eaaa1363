-- ===== src/Staff/Tests.antt =====
-- Two admins, of whom one is disabled; the other stays.
use emis.Base.{
  ℕ, ◌+◌, ◌≡◌, refl, String, Bool, true, Option, none, some, List, [], ◌∷◌, err, arith, is_some,
  leb, last_admin,
}
use emis.Access.{Scope, global}
use emis.Billing.Invoices.{Actor}
use emis.Identity.{
  AccountRow, active, disabled, RoleRow, global_scope, branch_scope, AssignmentRow, Identity,
  Passwords,
}
use emis.Staff.{set_status, get_user, assert_another_admin}
use emis.Staff.Admins.{IsGoverned}
use emis.Staff.Admins.Moves.{
  StaffMove, setting, removing, inviting, accepting, performed, performed-IsGoverned,
}

abbrev passwords : Passwords
passwords = record { hash = λ p. p + 1000; verify = λ h p. is_some h; is_strong = λ p. leb 8 p }

abbrev exists : Scope → Bool
exists s = true

abbrev account : ℕ → String → Option ℕ → AccountRow
account id email password_hash = record {
  id = id;
  email = email;
  password_hash = password_hash;
  status = active;
  mfa_enforced = true;
  failed_login_count = 0;
  locked_until = none;
  last_login_at = none;
}

abbrev role : ℕ → String → RoleRow
role id key = record {
  id = id;
  key = key;
  mfa_required = true;
  allowed_scopes = global_scope ∷ branch_scope ∷ [];
}

abbrev assignment : ℕ → ℕ → ℕ → AssignmentRow
assignment id user_id role_id = record {
  id = id;
  user_id = user_id;
  role_id = role_id;
  scope = global;
  granted_by = none;
}

abbrev actor : ℕ → Actor
actor id = record { user_id = id }

abbrev office : Identity
office = record {
  accounts = account 1 "a@x" (some 5) ∷ account 2 "b@x" (some 6) ∷ account 3 "c@x" none ∷ [];
  sessions = [];
  factors = [];
  roles = role 10 "admin" ∷ role 11 "cashier" ∷ [];
  assignments = assignment 20 1 10 ∷ assignment 21 2 10 ∷ assignment 22 3 11 ∷ [];
  invitations = [];
  audit = [];
}

abbrev requests : List StaffMove
requests =
    setting 100 1 disabled (actor 2)
    ∷ removing 2 21
    ∷ inviting 200 (record { user_id = 4; assignment_id = 23; invitation_id = 30; token_hash = 77 })
        (record { email = "d@x"; role_key = "admin"; scope = global }) (actor 2)
    ∷ accepting 300 77 123456
    ∷ removing 2 21
    ∷ []

office-IsGoverned : IsGoverned office
office-IsGoverned =
    ((((λ e. omega arith), ((λ e. omega arith), tt)), (((λ e. omega arith), tt), (tt, tt))), refl)

performed-IsGoverned_example : IsGoverned (performed passwords exists requests office)
performed-IsGoverned_example =
    performed-IsGoverned passwords exists requests office office-IsGoverned

-- The last admin cannot be disabled.
last_admin_stays :
    set_status 100 2 disabled
      (actor 3)
      (record office { assignments = assignment 21 2 10 ∷ assignment 22 3 11 ∷ [] })
    ≡ err last_admin
unfolding set_status get_user assert_another_admin
last_admin_stays = refl
