-- ===== src/Identity/Login/Lockout.antt =====
-- After too many wrong passwords, no password logs in for a while.
use emis.Base.{ℕ, update_where}
use emis.Identity.{AccountRow, Identity, is_account}
use emis.Identity.Login.{AuthTables, counted}

module _ (now : ℕ) (a : AccountRow) (t : AuthTables) where
  after_failure : Identity
  after_failure = record t.identity {
    accounts = update_where (is_account a.id) (counted now) t.identity.accounts;
  }
