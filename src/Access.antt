-- ===== src/Access.antt =====
-- Permissions and scopes (packages/permissions/src/check.ts, scope.ts) and the checks that the
-- services make with them (apps/api/src/common/authz/scope.ts). A permission is its key, a text.
pub mod Laws
mod Tests
use text.Mathlib.Text.{◌==◌ as str_eq}
use emis.Base.{
  ℕ, String, Bool, true, false, ◌&&◌, ◌||◌, Option, none, some, List, [], ◌∷◌, ◌++◌, Tx,
  throw_unless, ◌==◌, if◌then◌else◌, any, select, is_id, permission_denied,
}

pub data Scope : Type 0 where
  global : Scope
  branch department : ℕ → Scope

pub record Grant : Type 0 where
  pub permission : String
  pub scope : Scope

pub record Target : Type 0 where
  pub branch_id : Option ℕ
  pub department_id : Option ℕ

-- The record at a branch, and the record at a branch and a department.
abbrev pub at_branch : ℕ → Option Target
at_branch b = some (record { branch_id = some b; department_id = none })

abbrev pub at_branch_and_department : ℕ → ℕ → Option Target
at_branch_and_department b d = some (record { branch_id = some b; department_id = some d })

abbrev pub at_department : ℕ → Option Target
at_department d = some (record { branch_id = none; department_id = some d })

pub scope_covers : Scope → Option Target → Bool
scope_covers global target = true
scope_covers (branch id) none = true
scope_covers (branch id) (some t) = is_id t.branch_id id
scope_covers (department id) none = true
scope_covers (department id) (some t) = is_id t.department_id id

unfoldable pub has_permission : List Grant → String → Option Target → Bool
unfolding scope_covers
has_permission grants permission target =
    any (λ (g : Grant). str_eq g.permission permission && scope_covers g.scope target) grants

pub record Reach : Type 0 where
  pub everything : Bool
  pub branch_ids : List ℕ
  pub department_ids : List ℕ

abbrev is_global : Scope → Bool
is_global global = true
is_global _ = false

abbrev branch_of : Scope → List ℕ
branch_of (branch id) = id ∷ []
branch_of _ = []

abbrev department_of : Scope → List ℕ
department_of (department id) = id ∷ []
department_of _ = []

-- `flatMap` over the matching grants
abbrev ids_of : (Scope → List ℕ) → List Grant → List ℕ
ids_of f [] = []
ids_of f (g ∷ gs) = f g.scope ++ ids_of f gs

unfoldable pub scopes_for : List Grant → String → Reach
scopes_for grants permission =
    let matching = select (λ (g : Grant). str_eq g.permission permission) grants in
    record {
      everything = any (λ (g : Grant). is_global g.scope) matching;
      branch_ids = ids_of branch_of matching;
      department_ids = ids_of department_of matching;
    }

-- `assertScope`
unfoldable pub assert_scope : {S : Type 0} → List Grant → String → Option Target → Tx S (Unit {0})
assert_scope grants permission target =
    throw_unless (has_permission grants permission target) permission_denied

-- 'all', or the branches that the caller is limited to
pub data BranchReach : Type 0 where
  all_branches : BranchReach
  only : List ℕ → BranchReach

abbrev is_empty : List ℕ → Bool
is_empty [] = true
is_empty (_ ∷ _) = false

unfoldable pub branch_reach : List Grant → String → BranchReach
unfolding scopes_for
branch_reach grants permission =
    let reach = scopes_for grants permission in
    if reach.everything || (if is_empty reach.department_ids then false else true)
    then all_branches
    else only reach.branch_ids

abbrev includes : List ℕ → ℕ → Bool
includes ids id = any (λ (x : ℕ). x == id) ids

abbrev reaches : BranchReach → ℕ → Bool
reaches all_branches branch_id = true
reaches (only ids) branch_id = includes ids branch_id

-- Outside the reach the code asks `assertScope([], permission)`, which nothing passes.
unfoldable pub assert_branch_access : {S : Type 0} → List Grant → String → ℕ → Tx S (Unit {0})
unfolding branch_reach assert_scope
assert_branch_access grants permission branch_id s =
    if reaches (branch_reach grants permission) branch_id
    then throw_unless true permission_denied s
    else assert_scope [] permission none s
