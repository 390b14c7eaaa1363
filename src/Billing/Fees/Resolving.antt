-- ===== src/Billing/Fees/Resolving.antt =====
-- What `resolve` answers.
use text.Mathlib.Text.{◌==◌ as str_eq}
use text.Mathlib.TextEquality.{eq_iff}
use emis.Base.{
  ℕ, ◌≤◌, ◌≡◌, ◌≢◌, refl, sym, subst, Bool, true, false, ◌&&◌, ◌||◌, inl, inr, Bool-cases, Option,
  none, some, String, List, [], ◌∷◌, Mem, All-Mem, All-imp, any, any-none, arith, ltb, leb, ◌==◌,
  select, select-All, select-any, All, select-holds, sort_by, sort_by-All, sort_by-All_back,
  sort_by-first, unselect,
}
use emis.Billing.Fees.{FeeRow, is_special_price, preferred, fits_category, applies, head, resolve}

preferred_total : (a b : FeeRow) → preferred a b ≡ false → preferred b a ≡ true
preferred_total a b h = go (is_special_price a.category_code) (is_special_price b.category_code) h
  where
    order : ℕ → ℕ → FeeRow → FeeRow → Bool
    order i j x y = ltb j i || ((i == j) && leb y.effective_from x.effective_from)

    go : (i j : ℕ) → order i j a b ≡ false → order j i b a ≡ true
    go i j h' = ground arith

preferred_trans :
    (a b c : FeeRow) → preferred a b ≡ true → preferred b c ≡ true → preferred a c ≡ true
preferred_trans a b c h k =
    go (is_special_price a.category_code) (is_special_price b.category_code)
      (is_special_price c.category_code) h k
  where
    order : ℕ → ℕ → FeeRow → FeeRow → Bool
    order i j x y = ltb j i || ((i == j) && leb y.effective_from x.effective_from)

    go : (i j l : ℕ) → order i j a b ≡ true → order j l b c ≡ true → order i l a c ≡ true
    go i j l h' k' = ground arith

head-≡ {ℓ} : {A : Type ℓ} (l : List A) {x : A} → head l ≡ some x → (rest : List A) × (l ≡ x ∷ rest)
head-≡ [] h = cc
head-≡ (y ∷ l) h = (l, ground arith)

resolve-preferred :
    (course_id : ℕ) (category_code : Option String) (as_of : ℕ) (fees : List FeeRow) (best : FeeRow)
    → resolve course_id category_code as_of fees ≡ some best
    → All
        (λ (f : FeeRow). applies course_id category_code as_of f ≡ true → preferred best f ≡ true)
        fees
unfolding resolve
resolve-preferred course_id category_code as_of fees best h =
    let p = applies course_id category_code as_of in
    let (rest, sorted) = head-≡ (sort_by preferred (select p fees)) h in
    unselect (λ f. preferred best f ≡ true) p fees
      (sort_by-first preferred preferred_total preferred_trans (select p fees) rest sorted)

-- What holds of every price holds of the one that is found, and it applies.
resolve-All {κ} :
    (P : FeeRow → Type κ) (course_id : ℕ) (category_code : Option String) (as_of : ℕ)
    (fees : List FeeRow) {best : FeeRow}
    → All P fees
    → resolve course_id category_code as_of fees ≡ some best
    → P best × (applies course_id category_code as_of best ≡ true)
unfolding resolve
resolve-All P course_id category_code as_of fees a h =
    let p = applies course_id category_code as_of in
    let (rest, sorted) = head-≡ (sort_by preferred (select p fees)) h in
    (
      (subst (All P) sorted (sort_by-All preferred P (select p fees) (select-All P p fees a))).0,
      (subst (All (λ f. p f ≡ true)) sorted
          (sort_by-All preferred (λ f. p f ≡ true) (select p fees) (select-holds p fees))).0,
    )

-- Where no price is found, none applies.
resolve-none :
    (course_id : ℕ) (category_code : Option String) (as_of : ℕ) (fees : List FeeRow)
    → resolve course_id category_code as_of fees ≡ none
    → any (applies course_id category_code as_of) fees ≡ false
unfolding resolve
resolve-none course_id category_code as_of fees h =
    select-any p fees (back (sort_by preferred (select p fees)) h refl)
  where
    p : FeeRow → Bool
    p = applies course_id category_code as_of

    back :
        (l : List FeeRow)
        → head l ≡ none
        → sort_by preferred (select p fees) ≡ l
        → All (λ (f : FeeRow). ⊥) (select p fees)
    back [] g e =
        sort_by-All_back preferred (λ (f : FeeRow). ⊥) (select p fees)
          (subst (All (λ (f : FeeRow). ⊥)) (sym e) tt)
    back (x ∷ l) g e = absurd (ground arith)

-- A price for all students, or for the category that the student has.
abbrev pub IsFor : Option String → Option String → Type 0
IsFor student none = Unit
IsFor none (some code) = ⊥
IsFor (some category) (some code) = (category ≢ "") × (code ≡ category)

-- The price is one of the course, is in use, has taken effect, and is for the student.
pub record Offers (course_id : ℕ) (category_code : Option String) (as_of : ℕ) (f : FeeRow)
    : Type 0 where
  pub of_course : f.course_id ≡ course_id
  pub in_use : f.is_active ≡ true
  pub in_effect : f.effective_from ≤ as_of
  pub for_student : IsFor category_code f.category_code

-- A price for the student's category wins over one for all, whatever the dates; of two of a kind, the
-- one with the later date of effect wins.
abbrev pub Wins : Option String → ℕ → Option String → ℕ → Type 0
Wins (some c) from none later = Unit
Wins none from (some d) other = ⊥
Wins none from none other = other ≤ from
Wins (some c) from (some d) other = other ≤ from

-- What the price of a course is to be.
abbrev pub IsPrice : ℕ → Option String → ℕ → List FeeRow → Option FeeRow → Type 0
IsPrice course_id category_code as_of fees none =
    All (λ (f : FeeRow). ¬ Offers course_id category_code as_of f) fees
IsPrice course_id category_code as_of fees (some best) =
    Mem best fees
    × Offers course_id category_code as_of best
    × All
        (λ (f : FeeRow).
          Offers course_id category_code as_of f
          → Wins best.category_code best.effective_from f.category_code f.effective_from)
        fees

fits_category-IsFor : (c d : Option String) → fits_category c d ≡ true → IsFor c d
fits_category-IsFor c none h = tt
fits_category-IsFor none (some d) h = cc
fits_category-IsFor (some c) (some d) h =
    let same : str_eq d c ≡ true = ground arith in
    let filled : str_eq c "" ≡ false = ground arith in
    let (to, from) = eq_iff c "" in ((λ e. let t = from e in ground arith), (eq_iff d c).0 same)

IsFor-fits_category : (c d : Option String) → IsFor c d → fits_category c d ≡ true
IsFor-fits_category c none i = refl
IsFor-fits_category none (some d) i = absurd i
IsFor-fits_category (some c) (some d) i =
    let same = (eq_iff d c).1 i.1 in
    elim (Bool-cases (str_eq c "")) [
      | inl t ↦ absurd (i.0 ((eq_iff c "").0 t))
      | inr t ↦ ground arith
    ]

applies-Offers :
    (course_id : ℕ) (category_code : Option String) (as_of : ℕ) (f : FeeRow)
    → applies course_id category_code as_of f ≡ true
    → Offers course_id category_code as_of f
applies-Offers course_id category_code as_of f h = record {
  of_course = ground arith;
  in_use = ground arith;
  in_effect = ground arith;
  for_student = fits_category-IsFor category_code f.category_code (ground arith);
}

Offers-applies :
    (course_id : ℕ) (category_code : Option String) (as_of : ℕ) (f : FeeRow)
    → Offers course_id category_code as_of f
    → applies course_id category_code as_of f ≡ true
Offers-applies course_id category_code as_of f o =
    let course = o.of_course in
    let used = o.in_use in
    let effect = o.in_effect in
    let fits = IsFor-fits_category category_code f.category_code o.for_student in ground arith

preferred-Wins :
    (a b : FeeRow)
    → preferred a b ≡ true
    → Wins a.category_code a.effective_from b.category_code b.effective_from
preferred-Wins a b h = go a.category_code b.category_code h
  where
    order : Option String → Option String → Bool
    order c d =
        ltb (is_special_price d) (is_special_price c)
        || ((is_special_price c == is_special_price d) && leb b.effective_from a.effective_from)

    go : (c d : Option String) → order c d ≡ true → Wins c a.effective_from d b.effective_from
    go none none h' = ground arith
    go none (some d) h' = cc
    go (some c) none h' = tt
    go (some c) (some d) h' = ground arith

-- The price that is found is one that the course offers the student on that day, and it wins over every
-- one that it does: a price for the student's category over one for all, and else the later date of
-- effect over an earlier one. No price is found only where the course offers none.
pub resolve-IsPrice :
    (course_id : ℕ) (category_code : Option String) (as_of : ℕ) (fees : List FeeRow)
    → IsPrice course_id category_code as_of fees (resolve course_id category_code as_of fees)
resolve-IsPrice k c as_of fees = go (resolve k c as_of fees) refl
  where
    go : (o : Option FeeRow) → resolve k c as_of fees ≡ o → IsPrice k c as_of fees o
    go none h =
        All-imp (λ f no o. let t = Offers-applies k c as_of f o in ground arith) fees
          (any-none (applies k c as_of) fees (resolve-none k c as_of fees h))
    go (some best) h =
        let (is_in, fits) = resolve-All (λ f. Mem f fees) k c as_of fees (All-Mem fees) h in
        (
          is_in,
          applies-Offers k c as_of best fits,
          All-imp (λ f wins o. preferred-Wins best f (wins (Offers-applies k c as_of f o))) fees
              (resolve-preferred k c as_of fees best h),
        )
