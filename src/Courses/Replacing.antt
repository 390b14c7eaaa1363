-- ===== src/Courses/Replacing.antt =====
-- What `setPrerequisites` does to the tables.
use emis.Base.{
  ℕ, ◌+◌, ◌≡◌, refl, sym, subst, ap, ◌∙◌, Bool, true, Option, none, some, List, [], ◌∷◌, ◌++◌,
  Result, ok, err, ◌>>=◌, ◌>>◌, >>=-eq-ok, throw_unless, or_throw, throw_if-ok, throw_unless-ok,
  or_throw-ok, arith, all, find_row, update_where, is_id, All, ◌==◌, ==_iff, Bool-cases, inl, inr,
  course_not_found, program_not_found, cross_program_prerequisite, prerequisite_cycle,
  permission_denied,
}
use emis.Access.{Grant, at_department, has_permission, assert_scope}
use emis.Versioning.{matches, update_versioned, update_versioned_cases}
use emis.Billing.Invoices.{Actor}
use emis.Catalog.{Edge, required_by, includes, would_create_cycle}
use emis.Catalog.Cycles.{Requires, itself, through}
use emis.Courses.{
  Program, Course, Catalogue, is_course, is_program, program_of, distinct_ids, program_edges,
  replace_edges, says_no, courses_table, bump_course, replace_prerequisites, set_prerequisites,
}
use emis.Courses.Acyclic.{IsLocal}

pub is_id-some : (o : Option ℕ) (p : ℕ) → is_id o p ≡ true → o ≡ some p
is_id-some none p h = cc
is_id-some (some k) p h = ap some ((==_iff k p).0 h)

pub all-holds :
    (p : ℕ → Bool) (ids : List ℕ) (k : ℕ) → all p ids ≡ true → includes ids k ≡ true → p k ≡ true
all-holds p [] k h m = cc
all-holds p (i ∷ ids) k h m = elim (Bool-cases (i == k)) [
  | inl t ↦ subst (λ j. p j ≡ true) ((==_iff i k).0 t) (ground arith)
  | inr t ↦ all-holds p ids k (ground arith) (ground arith)
]

same_program :
    (courses : List Course) (edges : List Edge) (a b : ℕ)
    → All (IsLocal courses) edges
    → includes (required_by edges a) b ≡ true
    → program_of courses a ≡ program_of courses b
same_program courses [] a b l h = cc
same_program courses (e ∷ edges) a b l h = elim (Bool-cases (e.course_id == a)) [
  | inl t ↦ elim (Bool-cases (e.prerequisite_id == b)) [
    | inl u ↦
        ap (program_of courses) (sym ((==_iff e.course_id a).0 t))
        ∙ (l.0 ∙ ap (program_of courses) ((==_iff e.prerequisite_id b).0 u))
    | inr u ↦ same_program courses edges a b l.1 (ground arith)
  ]
  | inr t ↦ same_program courses edges a b l.1 (ground arith)
]

read_edge :
    (courses : List Course) (p : ℕ) (edges : List Edge) (a b : ℕ)
    → is_id (program_of courses a) p ≡ true
    → includes (required_by edges a) b ≡ true
    → includes (required_by (program_edges courses p edges) a) b ≡ true
read_edge courses p [] a b i h = cc
read_edge courses p (e ∷ edges) a b i h = elim (Bool-cases (e.course_id == a)) [
  | inl t ↦
      let same : a ≡ e.course_id = sym ((==_iff e.course_id a).0 t) in
      let own : is_id (program_of courses e.course_id) p ≡ true =
        subst (λ k. is_id (program_of courses k) p ≡ true) same i in
      rw own (ground (arith, read_edge courses p edges a b i))
  | inr t ↦ elim (Bool-cases (is_id (program_of courses e.course_id) p)) [
    | inl u ↦ rw u (ground (arith, read_edge courses p edges a b i))
    | inr u ↦ rw u (read_edge courses p edges a b i (ground arith))
  ]
]

-- Within a program, the edges that the loop check reads are enough.
pub read_way :
    (courses : List Course) (p : ℕ) (edges : List Edge) (t c : ℕ)
    → All (IsLocal courses) edges
    → is_id (program_of courses c) p ≡ true
    → Requires edges t c
    → Requires (program_edges courses p edges) t c
read_way courses p edges t c l i itself = itself
read_way courses p edges t c l i (through a b r rest) =
    through a b (read_edge courses p edges a b i r) (
      read_way courses p edges t b l
        (subst (λ o. is_id o p ≡ true) (same_program courses edges a b l r) i) rest)

pub program_of-bump :
    (q : Course → Bool) (user : ℕ) (courses : List Course) (k : ℕ)
    → program_of
        (update_where q
          (λ (r : Course). record r { updated_by = user; version = r.version + 1 })
          courses)
        k
      ≡ program_of courses k
program_of-bump q user [] k = refl
program_of-bump q user (c ∷ courses) k = elim (Bool-cases (q c)) [
  | inl t ↦ rw t (ground (arith, program_of-bump q user courses k))
  | inr t ↦ rw t (ground (arith, program_of-bump q user courses k))
]

-- What a successful change of prerequisites did.
pub record IsReplaced (id : ℕ) (ids : List ℕ) (actor : Actor) (s s' : Catalogue) : Type 0 where
  pub before : Course
  pub found : find_row (is_course id) s.courses ≡ some before
  pub known : all (λ k. is_id (program_of s.courses k) before.program_id) ids ≡ true
  pub loopless :
      says_no (
        would_create_cycle
          (program_edges s.courses before.program_id s.prerequisites)
          before.id
          ids)
      ≡ true
  pub q : Course → Bool
  pub courses :
      s'.courses
      ≡ update_where q
          (λ (r : Course). record r { updated_by = actor.user_id; version = r.version + 1 })
          s.courses
  pub prerequisites : s'.prerequisites ≡ replace_edges before.id ids s.prerequisites

bump_course-ok :
    (id expected : ℕ) (actor : Actor) (s s1 : Catalogue)
    → bump_course id expected actor s ≡ ok (tt, s1)
    → s1 ≡ record s {
      courses =
          update_where
            (matches courses_table id expected)
            (λ (r : Course). record r { updated_by = actor.user_id; version = r.version + 1 })
            s.courses;
    }
unfolding bump_course
bump_course-ok id expected actor s s1 h =
    let values = λ (r : Course). let c : Course = record r { updated_by = actor.user_id } in c in
    elim (update_versioned_cases courses_table id expected values course_not_found s.courses) [
      | inl (before, found, done) ↦
          go (update_versioned courses_table id expected values course_not_found s.courses) _ _ done
            h
      | inr (inl (other, found, differs, failed)) ↦ absurd (ground arith)
      | inr (inr (gap, failed)) ↦ absurd (ground arith)
    ]
  where
    after : List Course → Catalogue
    after rows = record s { courses = rows }

    answer : Result (Course × List Course) → Result (Unit {0} × Catalogue)
    answer x = elim x [ ok (row, rows) ↦ ok (tt, after rows) | err e ↦ err e ]

    go :
        (x : Result (Course × List Course)) (row : Course) (rows : List Course)
        → x ≡ ok (row, rows)
        → answer x ≡ ok (tt, s1)
        → s1 ≡ after rows
    go (ok (row', rows')) row rows e h' =
        let same : rows' ≡ rows = ground arith in
        let stored : s1 ≡ after rows' = ground arith in stored ∙ ap after same
    go (err x) row rows e h' = absurd (ground arith)

pub set_prerequisites-IsReplaced :
    (id : ℕ) (requested_ids : List ℕ) (expected : ℕ) (grants : List Grant) (actor : Actor)
    (s s' : Catalogue)
    → set_prerequisites id requested_ids expected grants actor s ≡ ok (tt, s')
    → IsReplaced id (distinct_ids requested_ids) actor s s'
unfolding set_prerequisites replace_prerequisites assert_scope
set_prerequisites-IsReplaced id requested_ids expected grants actor s s' h =
    let ids = distinct_ids requested_ids in
    let put = λ (before : Course) (t : Catalogue).
      let r : Result (Unit {0} × Catalogue) = ok (
        tt,
        record t {
          prerequisites = replace_edges before.id ids t.prerequisites;
          audit = t.audit ++ before.id ∷ [];
        },
      ) in
      r in
    let known =
      λ (before : Course). all (λ k. is_id (program_of s.courses k) before.program_id) ids in
    let answer = λ (before : Course).
      would_create_cycle (program_edges s.courses before.program_id s.prerequisites) before.id
        ids in
    let bump = λ (before : Course). bump_course before.id expected actor >> put before in
    let cycle = λ (before : Course).
      throw_unless (says_no (answer before)) prerequisite_cycle >> bump before in
    let all_known =
      λ (before : Course). throw_unless (known before) cross_program_prerequisite >> cycle before in
    let replace = λ (before : Course). replace_prerequisites before ids expected actor in
    let scoped = λ (before : Course) (program : Program).
      assert_scope grants "catalog.manage" (at_department program.department_id)
      >> replace before in
    let of_program = λ (before : Course) (t : Catalogue).
      (or_throw (find_row (is_program before.program_id) t.programs) program_not_found
          >>= scoped before)
        t in
    let (before, found, h1) =
      or_throw-ok (find_row (is_course id) s.courses) course_not_found of_program s h in
    let (program, in_program, h2) =
      or_throw-ok (find_row (is_program before.program_id) s.programs) program_not_found
        (scoped before) s h1 in
    let (allowed, h3) =
      throw_unless-ok (has_permission grants "catalog.manage" (at_department program.department_id))
        permission_denied (replace before) s h2 in
    let (other, h4) =
      throw_if-ok (includes ids before.id) cross_program_prerequisite (all_known before) s h3 in
    let (is_known, h5) =
      throw_unless-ok (known before) cross_program_prerequisite (cycle before) s h4 in
    let (loopless, h6) =
      throw_unless-ok (says_no (answer before)) prerequisite_cycle (bump before) s h5 in
    let (u, s1, h7, h8) = >>=-eq-ok (bump_course before.id expected actor) (λ _. put before) s h6 in
    let e = bump_course-ok before.id expected actor s s1 h7 in
    record {
      before = before;
      found = found;
      known = is_known;
      loopless = loopless;
      q = matches courses_table before.id expected;
      courses =
          let kept : s'.courses ≡ s1.courses = ground arith in
          kept ∙ ap (λ (t : Catalogue). t.courses) e;
      prerequisites =
          let put_in : s'.prerequisites ≡ replace_edges before.id ids s1.prerequisites =
            ground arith in
          put_in ∙ ap (λ (t : Catalogue). replace_edges before.id ids t.prerequisites) e;
    }
