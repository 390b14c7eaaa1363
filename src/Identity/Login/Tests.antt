-- ===== src/Identity/Login/Tests.antt =====
-- Wrong passwords for one account.
use emis.Base.{
  ℕ, ◌+◌, ◌≡◌, refl, Bool, true, false, Option, none, some, [], ◌∷◌, err, ◌==◌,
  integer_out_of_range,
}
use emis.Identity.{AccountRow, active}
use emis.Identity.Login.{AuthTables, LoginEnv, login, wrong_password, register_failure}

abbrev opens : Option ℕ → ℕ → Bool
opens none p = false
opens (some h) p = h == p + 1000

abbrev env : LoginEnv
env = record {
  sessions = record { absolute_hours = 12; idle_minutes = 30 };
  passwords = record { hash = λ p. p + 1000; verify = opens; is_strong = λ p. true };
  needs_rehash = λ h. false;
}

abbrev account : ℕ → AccountRow
account failures = record {
  id = 1;
  email = "a@x";
  password_hash = some 1005;
  status = active;
  mfa_enforced = false;
  failed_login_count = failures;
  locked_until = none;
  last_login_at = none;
}

abbrev tables : ℕ → AuthTables
tables failures = record {
  identity = record {
    accounts = account failures ∷ [];
    sessions = [];
    factors = [];
    roles = [];
    assignments = [];
    invitations = [];
    audit = [];
  };
  events = [];
}

-- From the thirty-sixth on, the statement that counts a failure fails: it is not counted, the account is
-- not locked, and the answer is that of the database.
uncounted : login env 1000 "a@x" 6 30 40 (tables 35) ≡ (err integer_out_of_range, tables 35)
unfolding login wrong_password register_failure
uncounted = refl

guessed_again :
    (login env 1001 "a@x" 7 30 40 (login env 1000 "a@x" 6 30 40 (tables 35)).1).0
    ≡ err integer_out_of_range
unfolding login wrong_password register_failure
guessed_again = refl
