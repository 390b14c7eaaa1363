-- ===== src/Courses/Kept.antt =====
-- Setting the prerequisites of a course keeps the courses free of loops.
use emis.Base.{
  ℕ, ◌≡◌, sym, subst, ap, ◌∙◌, Bool, true, false, some, List, [], ◌∷◌, map, ok, arith, find_row,
  find_row-holds, is_id, All, All-imp, All-append, select-All, ==_iff, ==-self, Bool-cases, inl,
  inr,
}
use emis.Access.{Grant}
use emis.Billing.Invoices.{Actor}
use emis.Catalog.{includes}
use emis.Catalog.Cycles.{Requires, would_create_cycle_lem}
use emis.Courses.{
  Course, Catalogue, is_course, program_of, distinct_ids, program_edges, replace_edges, says_no,
  set_prerequisites,
}
use emis.Courses.Acyclic.{Acyclic, IsLocal, replaced-Acyclic}
use emis.Courses.Replacing.{
  is_id-some, all-holds, read_way, program_of-bump, set_prerequisites-IsReplaced, IsReplaced,
}

-- The prerequisites do not loop, and stay within a program.
pub record IsOrdered (s : Catalogue) : Type 0 where
  pub acyclic : Acyclic s.prerequisites
  pub within : All (IsLocal s.courses) s.prerequisites

program_of-found :
    (courses : List Course) (id : ℕ) {c : Course}
    → find_row (is_course id) courses ≡ some c
    → program_of courses id ≡ some c.program_id
program_of-found [] id h = cc
program_of-found (d ∷ courses) id {c} h = elim (Bool-cases (is_course id d)) [
  | inl t ↦ let same : d ≡ c = ground arith in rw t (ap (λ (x : Course). some x.program_id) same)
  | inr t ↦ rw t (program_of-found courses id {c = c} (ground arith))
]

module _ (id : ℕ) (ids : List ℕ) (actor : Actor) (s s' : Catalogue) (sound : IsOrdered s)
    (w : IsReplaced id ids actor s s') where
  in_program : (k : ℕ) → includes ids k ≡ true → program_of s.courses k ≡ some w.before.program_id
  in_program k m =
      is_id-some _ _
        (all-holds (λ k. is_id (program_of s.courses k) w.before.program_id) ids k w.known m)

  unlooped : (k : ℕ) → includes ids k ≡ true → Requires s.prerequisites w.before.id k → ⊥
  unlooped k m way =
      let p = w.before.program_id in
      let edges = program_edges s.courses p s.prerequisites in
      let i = all-holds (λ k. is_id (program_of s.courses k) p) ids k w.known m in
      let (answer, e, exact) = would_create_cycle_lem edges w.before.id ids in
      let yes =
        exact.1 (k, m, read_way s.courses p s.prerequisites w.before.id k sound.within i way) in
      let no = w.loopless in refused answer yes (subst (λ o. says_no o ≡ true) e no)
    where
      refused : (b : Bool) → b ≡ true → says_no (some b) ≡ true → ⊥
      refused true e h = cc
      refused false e h = cc

  new_edges :
      (l : List ℕ)
      → ((k : ℕ) → includes l k ≡ true → includes ids k ≡ true)
      → All
          (IsLocal s.courses)
          (map (λ k. record { course_id = w.before.id; prerequisite_id = k }) l)
  new_edges [] sub = tt
  new_edges (k ∷ l) sub = (
    own ∙ sym (in_program k (sub k (ground (arith, ==-self k)))),
    new_edges l (λ j m. sub j (ground arith)),
  )
    where
      same : w.before.id ≡ id
      same = (==_iff w.before.id id).0 (find_row-holds (is_course id) s.courses w.found)

      own : program_of s.courses w.before.id ≡ some w.before.program_id
      own = ap (program_of s.courses) same ∙ program_of-found s.courses id w.found

  replaced-IsOrdered : IsOrdered s'
  replaced-IsOrdered = record {
    acyclic =
        subst Acyclic (sym w.prerequisites)
          (replaced-Acyclic w.before.id ids s.prerequisites sound.acyclic unlooped);
    within = subst (All (IsLocal s'.courses)) (sym w.prerequisites) (
        All-imp (λ e l. moved e.course_id ∙ (l ∙ sym (moved e.prerequisite_id)))
          (replace_edges w.before.id ids s.prerequisites)
          (All-append (IsLocal s.courses) _ _
            (select-All (IsLocal s.courses) _ s.prerequisites sound.within)
            (new_edges ids (λ k m. m))));
  }
    where
      moved : (k : ℕ) → program_of s'.courses k ≡ program_of s.courses k
      moved k = ap (λ cs. program_of cs k) w.courses ∙ program_of-bump w.q actor.user_id s.courses k

-- Setting the prerequisites of a course, when it goes through, keeps every course from requiring
-- itself, directly or through others, and every prerequisite in the program of its course.
pub set_prerequisites-IsOrdered :
    (id : ℕ) (requested_ids : List ℕ) (expected : ℕ) (grants : List Grant) (actor : Actor)
    (s s' : Catalogue)
    → IsOrdered s
    → set_prerequisites id requested_ids expected grants actor s ≡ ok (tt, s')
    → IsOrdered s'
set_prerequisites-IsOrdered id requested_ids expected grants actor s s' sound h =
    replaced-IsOrdered id (distinct_ids requested_ids) actor s s' sound
      (set_prerequisites-IsReplaced id requested_ids expected grants actor s s' h)
