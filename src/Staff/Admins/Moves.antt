-- ===== src/Staff/Admins/Moves.antt =====
-- Any sequence of requests about staff, by anybody: an admin who can log in always remains.
use emis.Base.{ℕ, ◌≡◌, refl, String, Bool, List, [], ◌∷◌, Result, ok, err, Tx}
use emis.Access.{Scope}
use emis.Billing.Invoices.{Actor}
use emis.Identity.{AccountStatus, Identity, Passwords}
use emis.Staff.{set_status, assign_role, remove_assignment}
use emis.Staff.Inviting.{NewIds, Invite, invite, resend_invitation, accept}
use emis.Staff.Admins.{IsGoverned}
use emis.Staff.Admins.Operations.{
  Keeps, set_status-Keeps, assign_role-Keeps, remove_assignment-Keeps, invite-Keeps,
  resend_invitation-Keeps, accept-Keeps,
}

-- A request about staff.
pub data StaffMove : Type 0 where
  setting : ℕ → ℕ → AccountStatus → Actor → StaffMove
  assigning : ℕ → ℕ → String → Scope → Actor → StaffMove
  removing : ℕ → ℕ → StaffMove
  inviting : ℕ → NewIds → Invite → Actor → StaffMove
  resending : ℕ → ℕ → ℕ → ℕ → Actor → StaffMove
  accepting : ℕ → ℕ → ℕ → StaffMove

-- The tables after a request: those from before, if it throws.
abbrev pub after : {A : Type 0} → Tx Identity A → Identity → Identity
after m s = elim (m s) [ ok (a, s') ↦ s' | err e ↦ s ]

module _ (ps : Passwords) (exists : Scope → Bool) where
  abbrev pub perform : StaffMove → Identity → Identity
  perform (setting now user_id status actor) = after (set_status now user_id status actor)
  perform (assigning id user_id role_key scope actor) =
      after (assign_role exists id user_id role_key scope actor)
  perform (removing user_id id) = after (remove_assignment user_id id)
  perform (inviting now ids input actor) = after (invite ps exists now ids input actor)
  perform (resending now id token_hash user_id actor) =
      after (resend_invitation now id token_hash user_id actor)
  perform (accepting now token_hash password) = after (accept ps now token_hash password)

  abbrev pub performed : List StaffMove → Identity → Identity
  performed [] s = s
  performed (m ∷ moves) s = performed moves (perform m s)

after-IsGoverned :
    {A : Type 0} (m : Tx Identity A)
    → Keeps m
    → (s : Identity) → IsGoverned s
    → IsGoverned (after m s)
after-IsGoverned {A} m keeps s g = go (m s) refl
  where
    state : Result (A × Identity) → Identity
    state r = elim r [ ok (a, s') ↦ s' | err e ↦ s ]

    go : (r : Result (A × Identity)) → m s ≡ r → IsGoverned (state r)
    go (ok (a, s')) e = keeps a s s' g e
    go (err f) e = g

module _ (ps : Passwords) (exists : Scope → Bool) where
  perform-IsGoverned :
      (m : StaffMove) (s : Identity) → IsGoverned s → IsGoverned (perform ps exists m s)
  perform-IsGoverned (setting now user_id status actor) =
      after-IsGoverned _ (set_status-Keeps now user_id status actor)
  perform-IsGoverned (assigning id user_id role_key scope actor) =
      after-IsGoverned _ (assign_role-Keeps exists id user_id role_key scope actor)
  perform-IsGoverned (removing user_id id) = after-IsGoverned _ (remove_assignment-Keeps user_id id)
  perform-IsGoverned (inviting now ids input actor) =
      after-IsGoverned _ (invite-Keeps ps exists now ids input actor)
  perform-IsGoverned (resending now id token_hash user_id actor) =
      after-IsGoverned _ (resend_invitation-Keeps now id token_hash user_id actor)
  perform-IsGoverned (accepting now token_hash password) =
      after-IsGoverned _ (accept-Keeps ps now token_hash password)

-- Where some account with a password is active and an admin, and the ids of the assignments are
-- distinct, both are so after any sequence of requests that disable and enable accounts, give and
-- take roles, invite, and accept invitations, whichever of them are refused.
pub performed-IsGoverned :
    (ps : Passwords) (exists : Scope → Bool) (moves : List StaffMove) (s : Identity)
    → IsGoverned s
    → IsGoverned (performed ps exists moves s)
performed-IsGoverned ps exists [] s g = g
performed-IsGoverned ps exists (m ∷ moves) s g =
    performed-IsGoverned ps exists moves (perform ps exists m s)
      (perform-IsGoverned ps exists m s g)
