-- ===== src/Access/Laws.antt =====
-- What the permission checks let through.
use Prim.Native.String.{String}
use mathlib.Core.List.{Memᴰ}
use text.Mathlib.Text.{◌==◌ as str_eq}
use text.Mathlib.TextEquality.{eq_iff}
use emis.Base.{
  ℕ, ◌≡◌, ◌↔◌, inl, inr, refl, Bool, true, false, ◌&&◌, ◌||◌, Option, none, some, List, [], ◌∷◌,
  arith, ok, err, ◌==◌, if◌then◌else◌, any, select, is_id, ==_iff, Bool-cases, permission_denied,
}
use emis.Access.{
  Scope, global, branch, department, Grant, Target, scope_covers, has_permission, is_global,
  branch_of, department_of, ids_of, branch_reach, assert_scope, assert_branch_access, reaches,
  is_empty, includes,
}

-- When a scope covers a record: it is global, or it names the record's own branch or department.
abbrev pub Covers : Scope → Target → Type 0
Covers global t = Unit
Covers (branch id) t = t.branch_id ≡ some id
Covers (department id) t = t.department_id ≡ some id

-- A held grant with the property.
abbrev pub Holds : (Grant → Type 0) → List Grant → Type 0
Holds P grants = (g : Grant) × Memᴰ g grants × P g

Holds-cons : {P : Grant → Type 0} {g : Grant} {gs : List Grant} → Holds P gs → Holds P (g ∷ gs)
Holds-cons (h, m, p) = (h, Memᴰ.tail m, p)

is_id_iff : (o : Option ℕ) (id : ℕ) → (is_id o id ≡ true) ↔ (o ≡ some id)
is_id_iff none id = (λ h. cc, λ h. cc)
is_id_iff (some a) id = ground arith

scope_covers_iff : (s : Scope) (t : Target) → (scope_covers s (some t) ≡ true) ↔ Covers s t
unfolding scope_covers
scope_covers_iff global t = (λ h. tt, λ h. refl)
scope_covers_iff (branch id) t = is_id_iff t.branch_id id
scope_covers_iff (department id) t = is_id_iff t.department_id id

-- A test that holds of some grant, against the grant that passes it.
module _ (test : Grant → Bool) (P : Grant → Type 0)
    (meaning : (g : Grant) → (test g ≡ true) ↔ P g) where
  any-Holds : (gs : List Grant) → any test gs ≡ true → Holds P gs
  any-Holds [] h = cc
  any-Holds (g ∷ gs) h = elim (Bool-cases (test g)) [
    | inl t ↦ (g, Memᴰ.head refl, (meaning g).0 t)
    | inr t ↦ Holds-cons {P = P} (any-Holds gs (ground arith))
  ]

  Holds-any : (gs : List Grant) (g : Grant) → Memᴰ g gs → P g → any test gs ≡ true
  Holds-any [] g m p = elim m [ ]
  Holds-any (x ∷ gs) g (Memᴰ.head e) p = let t : test x ≡ true = (meaning x).1 (rw (← e) p) in rw t
  Holds-any (x ∷ gs) g (Memᴰ.tail m) p = ground (arith, Holds-any gs g m p)

module _ (permission : String) where
  -- The permission's own test with one on the scope.
  abbrev held : (Scope → Bool) → Grant → Bool
  held covers g = str_eq g.permission permission && covers g.scope

  held_iff :
      (covers : Scope → Bool) (Q : Scope → Type 0)
      → ((s : Scope) → (covers s ≡ true) ↔ Q s)
      → (g : Grant) → (held covers g ≡ true) ↔ ((g.permission ≡ permission) × Q g.scope)
  held_iff covers Q meaning g =
      let (to, from) = eq_iff g.permission permission in
      let (there, back) = meaning g.scope in
      let same : held covers g ≡ true
          → (str_eq g.permission permission ≡ true) × (covers g.scope ≡ true) =
        ground arith in
      (λ h. (to (same h).0, there (same h).1), λ (e, q). rw (from e, back q))

-- `has_permission` at a record answers yes exactly when some grant of that permission is global or
-- names the record's branch or department.
pub has_permission_iff :
    (grants : List Grant) (permission : String) (t : Target)
    → (has_permission grants permission (some t) ≡ true)
      ↔ Holds (λ g. (g.permission ≡ permission) × Covers g.scope t) grants
unfolding has_permission
has_permission_iff grants permission t =
    let meaning =
      held_iff permission (λ (s : Scope). scope_covers s (some t)) (λ (s : Scope). Covers s t)
        (λ (s : Scope). scope_covers_iff s t) in
    (
      any-Holds (held permission (λ (s : Scope). scope_covers s (some t))) _ meaning grants,
      λ (g, m, p).
          Holds-any (held permission (λ (s : Scope). scope_covers s (some t))) _ meaning grants g m
            p,
    )

-- When a grant lets its holder read at a branch: a department's grant is tied to no branch.
abbrev pub ReadsAt : ℕ → Scope → Type 0
ReadsAt b global = Unit
ReadsAt b (branch id) = id ≡ b
ReadsAt b (department id) = Unit

abbrev reads_at : ℕ → Scope → Bool
reads_at b (branch id) = id == b
reads_at b _ = true

reads_at_iff : (b : ℕ) (s : Scope) → (reads_at b s ≡ true) ↔ ReadsAt b s
reads_at_iff b (branch id) = ==_iff id b
reads_at_iff b global = (λ h. tt, λ h. refl)
reads_at_iff b (department id) = (λ h. tt, λ h. refl)

-- The three parts of the reach, taken over the matching grants.
reach_parts :
    (permission : String) (b : ℕ) (gs : List Grant)
    → let matching = select (λ (g : Grant). str_eq g.permission permission) gs in
      (any (λ (g : Grant). is_global g.scope) matching
        || (if is_empty (ids_of department_of matching) then false else true)
        || includes (ids_of branch_of matching) b)
      ≡ any (held permission (reads_at b)) gs
reach_parts permission b [] = refl
reach_parts permission b (g ∷ gs) = ground (arith, reach_parts permission b gs)

reaches-branch_reach :
    (grants : List Grant) (permission : String) (b : ℕ)
    → reaches (branch_reach grants permission) b ≡ any (held permission (reads_at b)) grants
unfolding branch_reach
reaches-branch_reach grants permission b = ground (arith, reach_parts permission b grants)

assert_branch_access_lem :
    {S : Type 0} (grants : List Grant) (permission : String) (b : ℕ) (s : S)
    → assert_branch_access grants permission b s
      ≡ (if any (held permission (reads_at b)) grants then ok (tt, s) else err permission_denied)
unfolding assert_branch_access has_permission
assert_branch_access_lem grants permission b s = rw (reaches-branch_reach grants permission b) refl

-- Reading a record at a branch is let through, with the tables as they were, exactly when some
-- grant of the permission is global, is a department's, or names that branch.
pub assert_branch_access_iff :
    {S : Type 0} (grants : List Grant) (permission : String) (b : ℕ) (s : S)
    → (assert_branch_access grants permission b s ≡ ok (tt, s))
      ↔ Holds (λ g. (g.permission ≡ permission) × ReadsAt b g.scope) grants
assert_branch_access_iff grants permission b s =
    let meaning = held_iff permission (reads_at b) (ReadsAt b) (reads_at_iff b) in
    let by = assert_branch_access_lem grants permission b s in
    (
      λ h. any-Holds (held permission (reads_at b)) _ meaning grants (ground arith),
      λ (g, m, p).
          let found = Holds-any (held permission (reads_at b)) _ meaning grants g m p in
          ground arith,
    )

-- A successful scope check changes nothing and shows the permission.
pub assert_scope-ok :
    {S : Type 0} (grants : List Grant) (permission : String) (t : Option Target) (s s' : S)
    → assert_scope grants permission t s ≡ ok (tt, s')
    → (has_permission grants permission t ≡ true) × (s' ≡ s)
unfolding assert_scope
assert_scope-ok grants permission t s s' h =
    elim (Bool-cases (has_permission grants permission t)) [
      | inl e ↦ (e, ground arith)
      | inr e ↦ absurd (ground arith)
    ]
