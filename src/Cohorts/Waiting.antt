-- ===== src/Cohorts/Waiting.antt =====
-- Who is next on the waitlist.
use emis.Base.{
  ◌≤◌, ◌<◌, ◌⊎◌, inl, inr, ap, Bool-cases, All-imp, any-none, select-any, Mem, All-Mem, ℕ, ◌≡◌,
  refl, sym, subst, Bool, true, false, ◌&&◌, ◌||◌, Option, none, some, List, [], ◌∷◌, arith, ltb,
  leb, ◌==◌, any, select, All, select-holds, select-All, unselect, sort_by, sort_by-All,
  sort_by-All_back, sort_by-first,
}
use emis.Registry.{
  EnrollmentRow, EnrollmentStatus, waitlisted, active, completed, failed, withdrawn,
}
use emis.Cohorts.{is_status, waits_in, waited_before, first, next_waiting}

waited_before_total : (a b : EnrollmentRow) → waited_before a b ≡ false → waited_before b a ≡ true
waited_before_total a b h = go a.waitlisted_at b.waitlisted_at a.id b.id h
  where
    order : Option ℕ → Option ℕ → ℕ → ℕ → Bool
    order p q i j = elim p [
      | none ↦ elim q [ none ↦ leb i j | some y ↦ false ]
      | some x ↦ elim q [ none ↦ true | some y ↦ ltb x y || (x == y && leb i j) ]
    ]

    go : (p q : Option ℕ) (i j : ℕ) → order p q i j ≡ false → order q p j i ≡ true
    go none none i j h' = ground arith
    go none (some y) i j h' = refl
    go (some x) none i j h' = cc
    go (some x) (some y) i j h' = ground arith

waited_before_trans :
    (a b c : EnrollmentRow)
    → waited_before a b ≡ true
    → waited_before b c ≡ true
    → waited_before a c ≡ true
waited_before_trans a b c h k =
    go a.waitlisted_at b.waitlisted_at c.waitlisted_at a.id b.id c.id h k
  where
    order : Option ℕ → Option ℕ → ℕ → ℕ → Bool
    order p q i j = elim p [
      | none ↦ elim q [ none ↦ leb i j | some y ↦ false ]
      | some x ↦ elim q [ none ↦ true | some y ↦ ltb x y || (x == y && leb i j) ]
    ]

    go :
        (p q r : Option ℕ) (i j l : ℕ)
        → order p q i j ≡ true
        → order q r j l ≡ true
        → order p r i l ≡ true
    go none none none i j l h' k' = ground arith
    go none none (some z) i j l h' k' = cc
    go none (some y) r i j l h' k' = cc
    go (some x) q none i j l h' k' = refl
    go (some x) none (some z) i j l h' k' = cc
    go (some x) (some y) (some z) i j l h' k' = ground arith

first-≡ :
    (l : List EnrollmentRow) {e : EnrollmentRow}
    → first l ≡ some e
    → (rest : List EnrollmentRow) × (l ≡ e ∷ rest)
first-≡ [] h = cc
first-≡ (x ∷ l) h = (l, ground arith)

-- What holds of every enrollment holds of the next one.
pub next_waiting-All {κ} :
    (P : EnrollmentRow → Type κ) (k : ℕ) (es : List EnrollmentRow) {e : EnrollmentRow}
    → All P es
    → next_waiting k es ≡ some e
    → P e
unfolding next_waiting
next_waiting-All P k es a h =
    let (rest, sorted) = first-≡ (sort_by waited_before (select (waits_in k) es)) h in
    (subst (All P) sorted
      (sort_by-All waited_before P (select (waits_in k) es) (select-All P (waits_in k) es a))).0

pub next_waiting-waits :
    (k : ℕ) (es : List EnrollmentRow) {e : EnrollmentRow}
    → next_waiting k es ≡ some e
    → waits_in k e ≡ true
unfolding next_waiting
next_waiting-waits k es h =
    let (rest, sorted) = first-≡ (sort_by waited_before (select (waits_in k) es)) h in
    (subst (All (λ e. waits_in k e ≡ true)) sorted (
      sort_by-All waited_before (λ e. waits_in k e ≡ true) (select (waits_in k) es)
        (select-holds (waits_in k) es))).0

-- Where nobody is next, nobody waits.
pub next_waiting-none :
    (k : ℕ) (es : List EnrollmentRow) → next_waiting k es ≡ none → any (waits_in k) es ≡ false
unfolding next_waiting
next_waiting-none k es h =
    select-any (waits_in k) es (back (sort_by waited_before (select (waits_in k) es)) h refl)
  where
    back :
        (l : List EnrollmentRow)
        → first l ≡ none
        → sort_by waited_before (select (waits_in k) es) ≡ l
        → All (λ (e : EnrollmentRow). ⊥) (select (waits_in k) es)
    back [] f e =
        sort_by-All_back waited_before (λ (e : EnrollmentRow). ⊥) (select (waits_in k) es)
          (subst (All (λ (e : EnrollmentRow). ⊥)) (sym e) tt)
    back (x ∷ l) f e = absurd (ground arith)

next_waiting-before :
    (k : ℕ) (es : List EnrollmentRow) (next : EnrollmentRow)
    → next_waiting k es ≡ some next
    → All (λ (e : EnrollmentRow). waits_in k e ≡ true → waited_before next e ≡ true) es
unfolding next_waiting
next_waiting-before k es next h =
    let (rest, sorted) = first-≡ (sort_by waited_before (select (waits_in k) es)) h in
    unselect (λ e. waited_before next e ≡ true) (waits_in k) es
      (sort_by-first waited_before waited_before_total waited_before_trans (select (waits_in k) es)
        rest sorted)

-- Who waits for a class.
pub record Waits (cohort_id : ℕ) (e : EnrollmentRow) : Type 0 where
  pub in_class : e.cohort_id ≡ cohort_id
  pub waiting : e.status ≡ waitlisted

-- The earlier time is the longer wait, then the lower id; who has no time comes last.
abbrev pub WaitsLonger : Option ℕ → ℕ → Option ℕ → ℕ → Type 0
WaitsLonger (some t) i (some u) j = (t ≤ u) × ((t < u) ⊎ (i ≤ j))
WaitsLonger (some t) i none j = Unit
WaitsLonger none i (some u) j = ⊥
WaitsLonger none i none j = i ≤ j

-- What the next on the waitlist is to be.
abbrev pub IsNext : ℕ → List EnrollmentRow → Option EnrollmentRow → Type 0
IsNext cohort_id enrollments none = All (λ (e : EnrollmentRow). ¬ Waits cohort_id e) enrollments
IsNext cohort_id enrollments (some next) =
    Mem next enrollments
    × Waits cohort_id next
    × All
        (λ (e : EnrollmentRow).
          Waits cohort_id e → WaitsLonger next.waitlisted_at next.id e.waitlisted_at e.id)
        enrollments

waitlisted-≡ : (s : EnrollmentStatus) → is_status s waitlisted ≡ true → s ≡ waitlisted
waitlisted-≡ waitlisted h = refl
waitlisted-≡ active h = cc
waitlisted-≡ completed h = cc
waitlisted-≡ failed h = cc
waitlisted-≡ withdrawn h = cc

waits_in-Waits : (k : ℕ) (e : EnrollmentRow) → waits_in k e ≡ true → Waits k e
waits_in-Waits k e h = record {
  in_class = ground arith;
  waiting = waitlisted-≡ e.status (ground arith);
}

Waits-waits_in : (k : ℕ) (e : EnrollmentRow) → Waits k e → waits_in k e ≡ true
Waits-waits_in k e w =
    let i = w.in_class in
    let s : is_status e.status waitlisted ≡ true = ap (λ s. is_status s waitlisted) w.waiting in
    ground arith

waited_before-WaitsLonger :
    (a b : EnrollmentRow)
    → waited_before a b ≡ true
    → WaitsLonger a.waitlisted_at a.id b.waitlisted_at b.id
waited_before-WaitsLonger a b h = go a.waitlisted_at b.waitlisted_at a.id b.id h
  where
    order : Option ℕ → Option ℕ → ℕ → ℕ → Bool
    order p q i j = elim p [
      | none ↦ elim q [ none ↦ leb i j | some y ↦ false ]
      | some x ↦ elim q [ none ↦ true | some y ↦ ltb x y || (x == y && leb i j) ]
    ]

    go : (p q : Option ℕ) (i j : ℕ) → order p q i j ≡ true → WaitsLonger p i q j
    go none none i j h' = ground arith
    go none (some y) i j h' = cc
    go (some x) none i j h' = tt
    go (some x) (some y) i j h' = elim (Bool-cases (ltb x y)) [
      | inl t ↦ (ground arith, inl (ground arith))
      | inr t ↦ (ground arith, inr (ground arith))
    ]

-- The next on the waitlist is an enrollment that waits for the class, and has waited at least as long as
-- everyone who does: it joined the waitlist no later, and of those who joined at one time it has the
-- lowest id. Nobody is next only where nobody waits.
pub next_waiting-IsNext :
    (cohort_id : ℕ) (enrollments : List EnrollmentRow)
    → IsNext cohort_id enrollments (next_waiting cohort_id enrollments)
next_waiting-IsNext k es = go (next_waiting k es) refl
  where
    go : (o : Option EnrollmentRow) → next_waiting k es ≡ o → IsNext k es o
    go none h =
        All-imp (λ e no w. let t = Waits-waits_in k e w in ground arith) es
          (any-none (waits_in k) es (next_waiting-none k es h))
    go (some next) h = (
      next_waiting-All (λ e. Mem e es) k es (All-Mem es) h,
      waits_in-Waits k next (next_waiting-waits k es h),
      All-imp (λ e longer w. waited_before-WaitsLonger next e (longer (Waits-waits_in k e w))) es
          (next_waiting-before k es next h),
    )
