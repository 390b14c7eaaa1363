-- ===== src/Courses/Acyclic.antt =====
-- The prerequisites never loop.
use emis.Base.{
  ℕ, ◌≡◌, ◌≢◌, ◌⊎◌, refl, sym, subst, ◌∙◌, Bool, true, false, not, ◌||◌, List, [], ◌∷◌, ◌++◌, map,
  arith, select, ◌==◌, ==_iff, ==-self, Bool-cases, inl, inr,
}
use emis.Catalog.{Edge, required_by, includes}
use emis.Catalog.Cycles.{Requires, itself, through}
use emis.Courses.{Course, program_of, replace_edges}

-- No course requires itself through its prerequisites.
abbrev pub Acyclic : List Edge → Type 0
Acyclic edges = (a b : ℕ) → includes (required_by edges a) b ≡ true → Requires edges a b → ⊥

-- A course and its prerequisite are in one program.
abbrev pub IsLocal : List Course → Edge → Type 0
IsLocal courses e = program_of courses e.course_id ≡ program_of courses e.prerequisite_id

Requires-trans :
    (edges : List Edge) (t u a : ℕ) → Requires edges t a → Requires edges u t → Requires edges u a
Requires-trans edges t u c itself q = q
Requires-trans edges t u c (through a b r rest) q =
    through a b r (Requires-trans edges t u b rest q)

required_by-append :
    (xs ys : List Edge) (a b : ℕ)
    → includes (required_by (xs ++ ys) a) b
      ≡ (includes (required_by xs a) b || includes (required_by ys a) b)
required_by-append [] ys a b = refl
required_by-append (e ∷ xs) ys a b = ground (arith, required_by-append xs ys a b)

kept-other :
    (id : ℕ) (edges : List Edge) (a b : ℕ)
    → a ≢ id
    → includes (required_by (select (λ (e : Edge). not (e.course_id == id)) edges) a) b
      ≡ includes (required_by edges a) b
kept-other id [] a b n = refl
kept-other id (e ∷ edges) a b n = ground (arith, kept-other id edges a b n)

kept-own :
    (id : ℕ) (edges : List Edge) (b : ℕ)
    → includes (required_by (select (λ (e : Edge). not (e.course_id == id)) edges) id) b ≡ false
kept-own id [] b = refl
kept-own id (e ∷ edges) b = ground (arith, kept-own id edges b)

new-other :
    (id : ℕ) (ids : List ℕ) (a b : ℕ)
    → a ≢ id
    → includes (required_by (map (λ k. record { course_id = id; prerequisite_id = k }) ids) a) b
      ≡ false
new-other id [] a b n = refl
new-other id (k ∷ ids) a b n = ground (arith, new-other id ids a b n)

new-own :
    (id : ℕ) (ids : List ℕ) (b : ℕ)
    → includes (required_by (map (λ k. record { course_id = id; prerequisite_id = k }) ids) id) b
      ≡ includes ids b
new-own id [] b = refl
new-own id (k ∷ ids) b = ground (arith, ==-self id, new-own id ids b)

module _ (id : ℕ) (ids : List ℕ) (edges : List Edge) where
  -- Another course has the prerequisites that it had, and this one has the new ones.
  replaced-other :
      (a b : ℕ)
      → a ≢ id
      → includes (required_by (replace_edges id ids edges) a) b ≡ includes (required_by edges a) b
  replaced-other a b n =
      required_by-append _ _ a b ∙ join _ _ _ (kept-other id edges a b n) (new-other id ids a b n)
    where
      join : (x y z : Bool) → x ≡ z → y ≡ false → (x || y) ≡ z
      join true y z e f = e
      join false y z e f = f ∙ e

  replaced-own : (b : ℕ) → includes (required_by (replace_edges id ids edges) id) b ≡ includes ids b
  replaced-own b = required_by-append _ _ id b ∙ join _ _ _ (kept-own id edges b) (new-own id ids b)
    where
      join : (x y z : Bool) → x ≡ false → y ≡ z → (x || y) ≡ z
      join true y z e f = cc
      join false y z e f = f

  -- Up to the course itself, a way along the new edges is one along the old.
  old_way : (a : ℕ) → Requires (replace_edges id ids edges) id a → Requires edges id a
  old_way c itself = itself
  old_way c (through a b r rest) = elim (Bool-cases (a == id)) [
    | inl t ↦ subst (λ x. Requires edges id x) (sym ((==_iff a id).0 t)) itself
    | inr t ↦ through a b (sym (replaced-other a b (λ e. ground arith)) ∙ r) (old_way b rest)
  ]

  -- A way along the new edges is one along the old, or goes through the course.
  by_way :
      (t a : ℕ)
      → Requires (replace_edges id ids edges) t a
      → Requires edges t a
        ⊎ (Requires (replace_edges id ids edges) id a
            × (k : ℕ) × (includes ids k ≡ true)
            × Requires (replace_edges id ids edges) t k)
  by_way t c itself = inl itself
  by_way t c (through a b r rest) = elim (Bool-cases (a == id)) [
    | inl u ↦
        let same : a ≡ id = (==_iff a id).0 u in
        let r' =
          subst (λ x. includes (required_by (replace_edges id ids edges) x) b ≡ true) same r in
        let here = subst (λ x. Requires (replace_edges id ids edges) id x) (sym same) itself in
        inr (here, b, sym (replaced-own b) ∙ r', rest)
    | inr u ↦
        let r' = sym (replaced-other a b (λ e. ground arith)) ∙ r in
        elim (by_way t b rest) [
          | inl q ↦ inl (through a b r' q)
          | inr (p, k, m, q) ↦ inr (through a b r p, k, m, q)
        ]
  ]

  -- Where no new prerequisite requires the course, replacing its edges makes no loop.
  pub replaced-Acyclic :
      Acyclic edges
      → ((k : ℕ) → includes ids k ≡ true → Requires edges id k → ⊥)
      → Acyclic (replace_edges id ids edges)
  replaced-Acyclic acyclic free a b r way = elim (Bool-cases (a == id)) [
    | inl t ↦
        let same : a ≡ id = (==_iff a id).0 t in
        let r' =
          subst (λ x. includes (required_by (replace_edges id ids edges) x) b ≡ true) same r in
        let way' = subst (λ x. Requires (replace_edges id ids edges) x b) same way in
        free b (sym (replaced-own b) ∙ r') (old_way b way')
    | inr t ↦ elim (by_way a b way) [
      | inl q ↦ acyclic a b (sym (replaced-other a b (λ e. ground arith)) ∙ r) q
      | inr (p, k, m, q) ↦
          free k m
            (old_way k (Requires-trans (replace_edges id ids edges) a id k q (through a b r p)))
    ]
  ]
