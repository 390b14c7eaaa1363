-- ===== src/Catalog/Cycles.antt =====
-- `wouldCreateCycle` says yes exactly when a new prerequisite already requires the course.
use mathlib.Core.List.{reverse}
use emis.Base.{
  ℕ, zero, suc, ◌≡◌, ◌↔◌, ◌⊎◌, refl, sym, subst, ◌∙◌, Bool, true, false, ◌||◌, some, List, [], ◌∷◌,
  ◌++◌, arith, ◌==◌, ==-self, Bool-cases, inl, inr,
}
use emis.Catalog.{Edge, required_by, includes, search, rounds, would_create_cycle}
use emis.Catalog.Graph.{
  includes-reverse, visited-includes, search-answers, length-reverse, pending-all,
}

-- The course requires the target: it is the target, or one of its prerequisites requires it.
pub data Requires (edges : List Edge) (target : ℕ) : ℕ → Type 0 where
  itself : Requires edges target target
  through :
      (a b : ℕ)
      → includes (required_by edges a) b ≡ true
      → Requires edges target b
      → Requires edges target a

-- One of the courses requires the target.
abbrev pub SomeRequires : List Edge → ℕ → List ℕ → Type 0
SomeRequires edges target ids = (x : ℕ) × (includes ids x ≡ true) × Requires edges target x

module _ (edges : List Edge) (target : ℕ) where
  or_true : (a b : Bool) → (a || b) ≡ true → (a ≡ true) ⊎ (b ≡ true)
  or_true true b h = inl refl
  or_true false b h = inr h

  -- What the search finds is required.
  found-SomeRequires :
      (fuel : ℕ) (seen stack : List ℕ)
      → search fuel edges target seen stack ≡ some true
      → SomeRequires edges target stack
  unfolding search
  found-SomeRequires zero seen stack h = cc
  found-SomeRequires (suc fuel) seen [] h = absurd (ground arith)
  found-SomeRequires (suc fuel) seen (current ∷ stack) h = elim (Bool-cases (current == target)) [
    | inl t ↦
        let same : current ≡ target = ground arith in
        (
          current,
          ground (arith, ==-self current),
          subst (λ x. Requires edges target x) (sym same) itself,
        )
    | inr t ↦ elim (Bool-cases (includes seen current)) [
      | inl u ↦
          let (x, m, r) = found-SomeRequires fuel seen stack (ground arith) in (x, ground arith, r)
      | inr u ↦
          let (x, m, r) =
            found-SomeRequires fuel (current ∷ seen) (reverse (required_by edges current) ++ stack)
              (ground arith) in
          elim (or_true (includes (required_by edges current) x) (includes stack x)
            (sym (visited-includes edges current stack x) ∙ m)) [
              | inl n ↦ (current, ground (arith, ==-self current), through current x n r)
              | inr n ↦ (x, ground arith, r)
            ]
    ]
  ]

  -- The courses that were seen or are still on the stack lie in a set that is closed under
  -- prerequisites and lacks the target.
  abbrev Closes : List ℕ → List ℕ → Type 0
  Closes seen stack =
      (set : List ℕ) × ((y : ℕ)
        → (includes seen y || includes stack y) ≡ true
        → includes set y ≡ true)
      × (includes set target ≡ false)
      × ((a b : ℕ)
          → includes set a ≡ true
          → includes (required_by edges a) b ≡ true
          → includes set b ≡ true)

  unfound-Closes :
      (fuel : ℕ) (seen stack : List ℕ)
      → search fuel edges target seen stack ≡ some false
      → includes seen target ≡ false
      → ((a b : ℕ)
          → includes seen a ≡ true
          → includes (required_by edges a) b ≡ true
          → (includes seen b || includes stack b) ≡ true)
      → Closes seen stack
  unfolding search
  unfound-Closes zero seen stack h free next = cc
  unfound-Closes (suc fuel) seen [] h free next =
      (seen, (λ y m. ground arith), free, (λ a b m r. let n = next a b m r in ground arith))
  unfound-Closes (suc fuel) seen (current ∷ stack) h free next =
      elim (Bool-cases (current == target)) [
        | inl t ↦ absurd (ground arith)
        | inr t ↦ elim (Bool-cases (includes seen current)) [
          | inl u ↦
              let (set, covers, lacks, closed) =
                unfound-Closes fuel seen stack (ground arith) free
                  (λ a b m r. merge current seen stack b u (next a b m r)) in
              (set, (λ y m. covers y (merge current seen stack y u m)), lacks, closed)
          | inr u ↦
              let pushed = reverse (required_by edges current) ++ stack in
              let (set, covers, lacks, closed) =
                unfound-Closes fuel (current ∷ seen) pushed (ground arith) (ground arith)
                  (λ a b m r. spread a b m r) in
              (set, (λ y m. covers y (moved y m)), lacks, closed)
        ]
      ]
    where
      merge :
          (current : ℕ) (seen stack : List ℕ) (y : ℕ)
          → includes seen current ≡ true
          → (includes seen y || (current == y || includes stack y)) ≡ true
          → (includes seen y || includes stack y) ≡ true
      merge current seen stack y u m = elim (Bool-cases (current == y)) [
        | inl t ↦
            let same : current ≡ y = ground arith in
            let w = subst (λ k. includes seen k ≡ true) same u in ground arith
        | inr t ↦ ground arith
      ]

      moved :
          (y : ℕ)
          → (includes seen y || (current == y || includes stack y)) ≡ true
          → ((current == y || includes seen y)
              || includes (reverse (required_by edges current) ++ stack) y)
            ≡ true
      moved y m = ground (arith, visited-includes edges current stack y)

      spread :
          (a b : ℕ)
          → (current == a || includes seen a) ≡ true
          → includes (required_by edges a) b ≡ true
          → ((current == b || includes seen b)
              || includes (reverse (required_by edges current) ++ stack) b)
            ≡ true
      spread a b m r = elim (Bool-cases (current == a)) [
        | inl t ↦
            let same : a ≡ current = ground arith in
            let w = subst (λ k. includes (required_by edges k) b ≡ true) same r in
            ground (arith, visited-includes edges current stack b)
        | inr t ↦
            let n = next a b (ground arith) r in
            ground (arith, visited-includes edges current stack b)
      ]

  -- A closed set without the target holds nothing that requires it.
  closed-unrequired :
      (set : List ℕ)
      → includes set target ≡ false
      → ((a b : ℕ)
          → includes set a ≡ true
          → includes (required_by edges a) b ≡ true
          → includes set b ≡ true)
      → (x : ℕ) → includes set x ≡ true
      → Requires edges target x
      → ⊥
  closed-unrequired set lacks closed x m itself = ground arith
  closed-unrequired set lacks closed x m (through a b r rest) =
      closed-unrequired set lacks closed b (closed a b m r) rest

-- The search always answers, and answers yes exactly when one of the new prerequisites is the course
-- or requires it, directly or through others.
pub would_create_cycle_lem :
    (existing : List Edge) (course_id : ℕ) (new_prerequisites : List ℕ)
    → (answer : Bool) × (would_create_cycle existing course_id new_prerequisites ≡ some answer)
      × ((answer ≡ true) ↔ SomeRequires existing course_id new_prerequisites)
unfolding would_create_cycle
would_create_cycle_lem existing course_id new_prerequisites =
    let (answer, e) =
      search-answers (rounds existing new_prerequisites) existing course_id []
        (reverse new_prerequisites)
        (omega (arith, length-reverse new_prerequisites, pending-all existing)) in
    (answer, e, decide answer e)
  where
    decide :
        (answer : Bool)
        → search
            (rounds existing new_prerequisites)
            existing
            course_id
            []
            (reverse new_prerequisites)
          ≡ some answer
        → (answer ≡ true) ↔ SomeRequires existing course_id new_prerequisites
    decide true e = (
      (λ _.
          let (x, m, r) =
            found-SomeRequires existing course_id (rounds existing new_prerequisites) []
              (reverse new_prerequisites) e in
          (x, sym (includes-reverse new_prerequisites x) ∙ m, r)),
      (λ _. refl),
    )
    decide false e = (
      (λ z. cc),
      (λ some_one.
          let (set, covers, lacks, closed) =
            unfound-Closes existing course_id (rounds existing new_prerequisites) []
              (reverse new_prerequisites) e refl (λ a b m r. cc) in
          absurd (
            closed-unrequired existing course_id set lacks closed some_one.0
              (covers some_one.0 (includes-reverse new_prerequisites some_one.0 ∙ some_one.1))
              some_one.2)),
    )
