-- ===== src/Staff/Admins.antt =====
-- Somebody can always manage access: no operation on accounts and roles takes the last active admin.
mod Kept
mod Rows
mod Operations
pub mod Moves
use emis.Base.{
  ℕ, ◌≡◌, refl, Bool, true, false, ◌&&◌, ◌||◌, List, [], ◌∷◌, arith, any, All, Distinct,
  update_where, Bool-cases, inl, inr,
}
use emis.Identity.{AccountRow, AssignmentRow, Identity}
use emis.Staff.{makes_admin}

-- The ids are those of a primary key, and an assignment makes an account that can log in an admin.
abbrev pub IsGoverned : Identity → Type 0
IsGoverned s =
    Distinct (λ (a : AssignmentRow). a.id) s.assignments
    × (any (makes_admin s.roles s.accounts) s.assignments ≡ true)
