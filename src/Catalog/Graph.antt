-- ===== src/Catalog/Graph.antt =====
-- The search for a loop always ends, and finds one exactly where there is one.
use mathlib.Core.List.{reverse, reverse-cons}
use emis.Base.{
  ℕ, zero, suc, ◌+◌, ◌<◌, ◌≡◌, refl, sym, subst, ap, ◌∙◌, Bool, true, false, not, ◌||◌, some, List,
  [], ◌∷◌, ◌++◌, arith, any-append, select, length, length-append, ◌==◌, Bool-cases, inl, inr,
}
use emis.Catalog.{Edge, required_by, includes, search}

includes-append :
    (xs ys : List ℕ) (k : ℕ) → includes (xs ++ ys) k ≡ (includes xs k || includes ys k)
includes-append xs ys k = any-append (λ i. i == k) xs ys

pub includes-reverse : (xs : List ℕ) (k : ℕ) → includes (reverse xs) k ≡ includes xs k
includes-reverse [] k = refl
includes-reverse (x ∷ xs) k =
    ap (λ l. includes l k) (reverse-cons x xs)
    ∙ (includes-append (reverse xs) (x ∷ []) k
        ∙ swap (includes (reverse xs) k) (includes xs k) (x == k) (includes-reverse xs k))
  where
    swap : (a b c : Bool) → a ≡ b → (a || (c || false)) ≡ (c || b)
    swap true true true e = refl
    swap true true false e = refl
    swap false false true e = refl
    swap false false false e = refl
    swap true false c e = cc
    swap false true c e = cc

pub length-reverse : (xs : List ℕ) → length (reverse xs) ≡ length xs
length-reverse [] = refl
length-reverse (x ∷ xs) =
    rw (reverse-cons x xs) (omega (arith, length-append (reverse xs) (x ∷ []), length-reverse xs))

-- What the round that visits `current` puts on the stack.
pub visited-includes :
    (edges : List Edge) (current : ℕ) (stack : List ℕ) (k : ℕ)
    → includes (reverse (required_by edges current) ++ stack) k
      ≡ (includes (required_by edges current) k || includes stack k)
visited-includes edges current stack k =
    includes-append (reverse (required_by edges current)) stack k
    ∙ ap (λ b. b || includes stack k) (includes-reverse (required_by edges current) k)

-- The edges of courses that have not been seen.
abbrev pub pending : List Edge → List ℕ → ℕ
pending edges seen = length (select (λ (e : Edge). not (includes seen e.course_id)) edges)

pub pending-all : (edges : List Edge) → pending edges [] ≡ length edges
pending-all [] = refl
pending-all (e ∷ edges) = omega (arith, pending-all edges)

pending-visit :
    (edges : List Edge) (current : ℕ) (seen : List ℕ)
    → includes seen current ≡ false
    → pending edges (current ∷ seen) + length (required_by edges current) ≡ pending edges seen
pending-visit [] current seen h = refl
pending-visit (e ∷ edges) current seen h = elim (Bool-cases (e.course_id == current)) [
  | inl t ↦
      let same : e.course_id ≡ current = ground arith in
      let unseen : includes seen e.course_id ≡ false =
        subst (λ k. includes seen k ≡ false) (sym same) h in
      let back : (current == e.course_id) ≡ true = ground arith in
      ground (arith, pending-visit edges current seen h)
  | inr t ↦
      let back : (current == e.course_id) ≡ false = ground arith in
      ground (arith, pending-visit edges current seen h)
]

-- With more fuel than what is on the stack and what is pending, the search answers.
pub search-answers :
    (fuel : ℕ) (edges : List Edge) (course_id : ℕ) (seen stack : List ℕ)
    → length stack + pending edges seen < fuel
    → (b : Bool) × (search fuel edges course_id seen stack ≡ some b)
unfolding search
search-answers zero edges course_id seen stack h = absurd (omega arith)
search-answers (suc fuel) edges course_id seen [] h = (false, refl)
search-answers (suc fuel) edges course_id seen (current ∷ stack) h =
    elim (Bool-cases (current == course_id)) [
      | inl t ↦ (true, rw t refl)
      | inr t ↦ elim (Bool-cases (includes seen current)) [
        | inl u ↦
            let (b, e) = search-answers fuel edges course_id seen stack (omega arith) in
            (b, rw t (rw u e))
        | inr u ↦
            let (b, e) =
              search-answers fuel edges course_id (current ∷ seen)
                (reverse (required_by edges current) ++ stack)
                (omega (
                  arith,
                  length-append (reverse (required_by edges current)) stack,
                  length-reverse (required_by edges current),
                  pending-visit edges current seen u,
                )) in
            (b, rw t (rw u e))
      ]
    ]
