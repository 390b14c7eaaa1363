-- ===== src/Staff/Admins/Rows.antt =====
-- Rows that come and go: accounts and assignments.
use text.Mathlib.Text.{◌==◌ as str_eq}
use emis.Base.{
  any-imp, All-every, ℕ, ◌≡◌, refl, ◌∙◌, String, Bool, true, false, not, ◌&&◌, ◌||◌, Option, none,
  some, List, [], ◌∷◌, ◌++◌, ok, arith, any, any-append, All, Distinct, Lacks, Distinct-snoc,
  Distinct-select, Distinct-find_row, find_row, find_row-holds, subst, weak_password, email_taken,
  select, ◌==◌, if◌then◌else◌, Bool-cases, inl, inr, throw_if, role_already_assigned, Triple,
  Triple-bind, Triple-then, Triple-throw_if, Triple-gets, Triple-modify, Triple-pure,
}
use emis.Identity.{
  AccountRow, AssignmentRow, Identity, is_account, create_account, is_strong_if_given,
  hash_if_given, Passwords, new_account,
}
use emis.Staff.{
  is_admin_role, is_usable, makes_admin, makes_other_admin, assert_another_admin, clashes,
  insert_assignment, is_assignment, users_assignment, may_remove,
}
use emis.Staff.Admins.{IsGoverned}
use emis.Staff.Admins.Kept.{
  assert_another_admin-ok, gets-IsGoverned, throw_if-IsGoverned, throw_unless-IsGoverned,
}

unclashed-Lacks :
    (a : AssignmentRow) (rows : List AssignmentRow)
    → any (clashes a) rows ≡ false
    → Lacks (λ (r : AssignmentRow). r.id) a.id rows
unclashed-Lacks a [] h = tt
unclashed-Lacks a (r ∷ rows) h = ((λ e. ground arith), unclashed-Lacks a rows (ground arith))

pub insert_assignment-IsGoverned :
    (a : AssignmentRow) → Triple IsGoverned (insert_assignment a) (λ _. IsGoverned)
unfolding insert_assignment
insert_assignment-IsGoverned a =
    Triple-bind IsGoverned (λ taken s. IsGoverned s × (any (clashes a) s.assignments ≡ taken))
      (λ _. IsGoverned) _ _ (Triple-gets IsGoverned (λ s. any (clashes a) s.assignments))
      (λ taken.
        Triple-bind (λ s. IsGoverned s × (any (clashes a) s.assignments ≡ taken))
          (λ _ s. (IsGoverned s × (any (clashes a) s.assignments ≡ taken)) × (taken ≡ false))
          (λ _. IsGoverned) (throw_if taken role_already_assigned) _
          (Triple-throw_if _ taken role_already_assigned)
          (λ _.
            Triple-modify _ IsGoverned (λ s. record s { assignments = s.assignments ++ a ∷ [] })
              (λ s h. (
                Distinct-snoc (λ (r : AssignmentRow). r.id) s.assignments a h.0.0.0
                    (unclashed-Lacks a s.assignments (h.0.1 ∙ h.1)),
                ground (arith, any-append (makes_admin s.roles s.accounts) s.assignments (a ∷ [])),
              ))))

pub create_account-IsGoverned :
    (ps : Passwords) (id : ℕ) (email : String) (password : Option ℕ) (enforced : Bool)
    → Triple IsGoverned (create_account ps id email password enforced) (λ _. IsGoverned)
unfolding create_account
create_account-IsGoverned ps id email password enforced =
    Triple-then IsGoverned (λ _. IsGoverned) _ _
      (throw_unless-IsGoverned (is_strong_if_given ps password) weak_password)
      (Triple-bind IsGoverned (λ _. IsGoverned) (λ _. IsGoverned) _ _
        (gets-IsGoverned
          (λ s. any (λ (a : AccountRow). (a.id == id) || str_eq a.email email) s.accounts))
        (λ taken.
          Triple-then IsGoverned (λ _. IsGoverned) _ _ (throw_if-IsGoverned taken email_taken)
            (Triple-modify IsGoverned IsGoverned
              (λ s. record s {
                accounts =
                    s.accounts ++ new_account id email (hash_if_given ps password) enforced ∷ [];
              })
              (λ s g.
                (g.0, more (new_account id email (hash_if_given ps password) enforced) s g.1)))))
  where
    more :
        (account : AccountRow) (s : Identity)
        → any (makes_admin s.roles s.accounts) s.assignments ≡ true
        → any (makes_admin s.roles (s.accounts ++ account ∷ [])) s.assignments ≡ true
    more account s h =
        any-imp (makes_admin s.roles s.accounts) (makes_admin s.roles (s.accounts ++ account ∷ []))
          s.assignments h
          (All-every _ s.assignments (λ a t.
            let still =
              any-append (λ (x : AccountRow). is_account a.user_id x && is_usable x) s.accounts
                (account ∷ []) in
            ground arith))

-- No other row has the id of the one that is found.
none_found :
    (id user_id : ℕ) (rows : List AssignmentRow)
    → Lacks (λ (r : AssignmentRow). r.id) id rows
    → find_row (users_assignment id user_id) rows ≡ none
none_found id user_id [] l = refl
none_found id user_id (r ∷ rows) l = elim (Bool-cases (r.id == id)) [
  | inl t ↦ absurd (l.0 (ground arith))
  | inr t ↦ rw t (none_found id user_id rows l.1)
]

found_by_id :
    (id user_id : ℕ) (rows : List AssignmentRow) {a : AssignmentRow}
    → Distinct (λ (r : AssignmentRow). r.id) rows
    → find_row (users_assignment id user_id) rows ≡ some a
    → find_row (is_assignment id) rows ≡ some a
found_by_id id user_id [] d h = h
found_by_id id user_id (r ∷ rows) {a} d h = elim (Bool-cases (r.id == id)) [
  | inl t ↦ elim (Bool-cases (r.user_id == user_id)) [
    | inl u ↦ ground arith
    | inr u ↦
        let same : r.id ≡ id = ground arith in
        let none_left =
          none_found id user_id rows
            (subst (λ k. Lacks (λ (q : AssignmentRow). q.id) k rows) same d.0) in
        ground arith
  ]
  | inr t ↦ rw t (found_by_id id user_id rows d.1 (ground arith))
]

any-select :
    (q p : AssignmentRow → Bool) (rows : List AssignmentRow)
    → any q rows ≡ true
    → All (λ r. p r ≡ true → q r ≡ false) rows
    → any q (select (λ r. not (p r)) rows) ≡ true
any-select q p [] h j = h
any-select q p (r ∷ rows) h j = elim (Bool-cases (p r)) [
  | inl t ↦ let no = j.0 t in rw t (any-select q p rows (ground arith) j.1)
  | inr t ↦ rw t (elim (Bool-cases (q r)) [
    | inl u ↦ rw u refl
    | inr u ↦ rw u (any-select q p rows (ground arith) j.1)
  ])
]

abbrev pub without : ℕ → Identity → Identity
without id s = record s {
  assignments = select (λ (r : AssignmentRow). not (is_assignment id r)) s.assignments;
}

-- Without a row, by another that makes an admin.
without-IsGoverned :
    (q : AssignmentRow → Bool) (id user_id : ℕ) (a : AssignmentRow) (s : Identity)
    → IsGoverned s
    → find_row (users_assignment id user_id) s.assignments ≡ some a
    → q a ≡ false
    → any q s.assignments ≡ true
    → ((r : AssignmentRow) → q r ≡ true → makes_admin s.roles s.accounts r ≡ true)
    → IsGoverned (without id s)
without-IsGoverned q id user_id a s g found none_of held imp = (
  Distinct-select (λ (r : AssignmentRow). r.id) (λ (r : AssignmentRow). not (is_assignment id r))
      s.assignments g.0,
  any-imp q (makes_admin s.roles s.accounts) (without id s).assignments
      (any-select q (is_assignment id) s.assignments held (
        Distinct-find_row (λ (r : AssignmentRow). r.id) (λ r. q r ≡ false) id s.assignments g.0
          (found_by_id id user_id s.assignments g.0 found) none_of))
      (All-every _ (without id s).assignments imp),
)

its_user :
    (id user_id : ℕ) (rows : List AssignmentRow) {a : AssignmentRow}
    → find_row (users_assignment id user_id) rows ≡ some a
    → a.user_id ≡ user_id
its_user id user_id rows h =
    let is = find_row-holds (users_assignment id user_id) rows h in ground arith

-- Without the assignment of a user who is no admin by it, or beside another admin.
pub may_remove-IsGoverned :
    (id user_id : ℕ) (a : AssignmentRow)
    → Triple
        (λ s. IsGoverned s × (find_row (users_assignment id user_id) s.assignments ≡ some a))
        (may_remove user_id a)
        (λ _ s. IsGoverned (without id s))
may_remove-IsGoverned id user_id a b s s' h e =
    elim (Bool-cases (is_admin_role s.roles a.role_id)) [
      | inl t ↦
          let (same, other) = assert_another_admin-ok user_id b s s' (taken true t) in
          let theirs = its_user id user_id s.assignments h.1 in
          subst (λ r. IsGoverned (without id r)) same
            (without-IsGoverned (makes_other_admin s user_id) id user_id a s h.0 h.1 (ground arith)
              other (λ r u. ground arith))
      | inr t ↦
          let same : s ≡ s' = Triple-pure (λ r. s ≡ r) tt b s s' refl (taken false t) in
          subst (λ r. IsGoverned (without id r)) same
            (without-IsGoverned (makes_admin s.roles s.accounts) id user_id a s h.0 h.1
              (ground arith) h.0.1 (λ r u. u))
    ]
  where
    taken :
        (c : Bool)
        → is_admin_role s.roles a.role_id ≡ c
        → (if c then assert_another_admin user_id s else ok (tt, s)) ≡ ok (b, s')
    taken c t =
        subst (λ c. (if c then assert_another_admin user_id s else ok (tt, s)) ≡ ok (b, s')) t e
