-- ===== src/Base/Lists.antt =====
-- Lists as table rows: selection, update and sums, over the native numbers.
use Prim.Native.Nat.{ℕ, zero, suc, ◌+◌}
use mathlib.Core.Path.{◌≡◌, refl, ap, subst}
use mathlib.Core.Logic.{inl, inr}
use mathlib.Core.Bool.{Bool, true, false, ◌&&◌, ◌||◌}
use mathlib.Core.Option.{Option, none, some}
use mathlib.Core.List.{List, [], ◌∷◌, ◌++◌, map}
use native.Mathlib.Omega.{arith}
use emis.Base.Tests.{if◌then◌else◌, Bool-cases}

module _ {ℓ} {A : Type ℓ} where
  abbrev pub length : List A → ℕ
  length [] = 0
  length (x ∷ xs) = suc (length xs)

  abbrev pub take : ℕ → List A → List A
  take n [] = []
  take zero (x ∷ xs) = []
  take (suc n) (x ∷ xs) = x ∷ take n xs

  -- `xs.some(p)`
  abbrev pub any : (A → Bool) → List A → Bool
  any p [] = false
  any p (x ∷ xs) = p x || any p xs

  abbrev pub all : (A → Bool) → List A → Bool
  all p [] = true
  all p (x ∷ xs) = p x && all p xs

  -- The rows that a condition selects.
  abbrev pub select : (A → Bool) → List A → List A
  select p [] = []
  select p (x ∷ xs) = if p x then x ∷ select p xs else select p xs

  -- The first row that a condition selects, if there is one.
  abbrev pub find_row : (A → Bool) → List A → Option A
  find_row p [] = none
  find_row p (x ∷ xs) = if p x then some x else find_row p xs

  -- `UPDATE … SET … WHERE`
  abbrev pub update_where : (A → Bool) → (A → A) → List A → List A
  update_where p f [] = []
  update_where p f (x ∷ xs) = (if p x then f x else x) ∷ update_where p f xs

  abbrev pub sum_of : (A → ℕ) → List A → ℕ
  sum_of f [] = 0
  sum_of f (x ∷ xs) = f x + sum_of f xs

  abbrev pub All {κ} : (A → Type κ) → List A → Type κ
  All P [] = Unit
  All P (x ∷ xs) = P x × All P xs

  pub sum_of-append : (f : A → ℕ) (xs ys : List A) → sum_of f (xs ++ ys) ≡ sum_of f xs + sum_of f ys
  sum_of-append f [] ys = omega arith
  sum_of-append f (x ∷ xs) ys = omega (arith, sum_of-append f xs ys)

  pub length-append : (xs ys : List A) → length (xs ++ ys) ≡ length xs + length ys
  length-append [] ys = omega arith
  length-append (x ∷ xs) ys = omega (arith, length-append xs ys)

  pub select-append :
      (p : A → Bool) (xs ys : List A) → select p (xs ++ ys) ≡ select p xs ++ select p ys
  select-append p [] ys = refl
  select-append p (x ∷ xs) ys = elim (Bool-cases (p x)) [
    | inl e ↦ rw e (ap (λ l. x ∷ l) (select-append p xs ys))
    | inr e ↦ rw e (select-append p xs ys)
  ]

  pub find_row-holds : (p : A → Bool) (xs : List A) {x : A} → find_row p xs ≡ some x → p x ≡ true
  find_row-holds p [] h = cc
  find_row-holds p (y ∷ xs) {x} h = ground (arith, find_row-holds p xs {x = x})

  pub All-append {κ} : (P : A → Type κ) (xs ys : List A) → All P xs → All P ys → All P (xs ++ ys)
  All-append P [] ys h k = k
  All-append P (x ∷ xs) ys h k = (h.0, All-append P xs ys h.1 k)

  pub All-append_back {κ} :
      (P : A → Type κ) (xs ys : List A) → All P (xs ++ ys) → All P xs × All P ys
  All-append_back P [] ys h = (tt, h)
  All-append_back P (x ∷ xs) ys h = let (a, b) = All-append_back P xs ys h.1 in ((h.0, a), b)

  pub find_row-All {κ} :
      (P : A → Type κ) (p : A → Bool) (xs : List A) {x : A}
      → All P xs
      → find_row p xs ≡ some x
      → P x
  find_row-All P p [] h e = cc
  find_row-All P p (y ∷ xs) {x} h e = elim (Bool-cases (p y)) [
    | inl t ↦ let same : y ≡ x = ground arith in rw (← same) h.0
    | inr t ↦ find_row-All P p xs h.1 (ground arith)
  ]

  pub select-All {κ} :
      (P : A → Type κ) (p : A → Bool) (xs : List A) → All P xs → All P (select p xs)
  select-All P p [] h = tt
  select-All P p (x ∷ xs) h = elim (Bool-cases (p x)) [
    | inl t ↦ rw t (h.0, select-All P p xs h.1)
    | inr t ↦ rw t (select-All P p xs h.1)
  ]

  pub select-holds : (p : A → Bool) (xs : List A) → All (λ x. p x ≡ true) (select p xs)
  select-holds p [] = tt
  select-holds p (x ∷ xs) = elim (Bool-cases (p x)) [
    | inl t ↦ rw t (t, select-holds p xs)
    | inr t ↦ rw t (select-holds p xs)
  ]

  -- What holds of the selected rows holds of every row that the condition selects.
  pub unselect {κ} :
      (P : A → Type κ) (q : A → Bool) (xs : List A)
      → All P (select q xs)
      → All (λ x. q x ≡ true → P x) xs
  unselect P q [] a = tt
  unselect P q (x ∷ xs) a = elim (Bool-cases (q x)) [
    | inl t ↦
        let same : select q (x ∷ xs) ≡ x ∷ select q xs = rw t refl in
        let both = subst (All P) same a in ((λ _. both.0), unselect P q xs both.1)
    | inr t ↦
        let same : select q (x ∷ xs) ≡ select q xs = rw t refl in
        ((λ u. absurd (ground arith)), unselect P q xs (subst (All P) same a))
  ]

  -- A row that one condition finds fails every condition that finds nothing.
  pub find_row-fails :
      (p q : A → Bool) (xs : List A) {x : A}
      → find_row p xs ≡ none
      → find_row q xs ≡ some x
      → p x ≡ false
  find_row-fails p q [] h k = cc
  find_row-fails p q (y ∷ xs) {x} h k = elim (Bool-cases (p y)) [
    | inl t ↦ absurd (ground arith)
    | inr t ↦ elim (Bool-cases (q y)) [
      | inl u ↦ let same : y ≡ x = ground arith in rw (← same) t
      | inr u ↦ find_row-fails p q xs (ground arith) (ground arith)
    ]
  ]

  pub All-imp {κ ι} :
      {P : A → Type κ} {Q : A → Type ι}
      → ((x : A) → P x → Q x)
      → (xs : List A) → All P xs
      → All Q xs
  All-imp f [] h = tt
  All-imp f (x ∷ xs) h = (f x h.0, All-imp f xs h.1)

  pub All-zip {κ ι μ} :
      {P : A → Type κ} {Q : A → Type ι} {R : A → Type μ}
      → ((x : A) → P x → Q x → R x)
      → (xs : List A) → All P xs
      → All Q xs
      → All R xs
  All-zip f [] h k = tt
  All-zip f (x ∷ xs) h k = (f x h.0 k.0, All-zip f xs h.1 k.1)

  -- The row that an update has written is found again.
  pub find_row-update_where :
      (p : A → Bool) (f : A → A)
      → ((x : A) → p x ≡ true → p (f x) ≡ true)
      → (xs : List A) {x : A} → find_row p xs ≡ some x
      → find_row p (update_where p f xs) ≡ some (f x)
  find_row-update_where p f keep [] h = cc
  find_row-update_where p f keep (y ∷ xs) {x} h = elim (Bool-cases (p y)) [
    | inl t ↦ let same : y ≡ x = ground arith in rw t (rw (keep y t) (ap (λ z. some (f z)) same))
    | inr t ↦ rw t (rw t (find_row-update_where p f keep xs (ground arith)))
  ]

  -- An update that keeps a property of each row keeps it of all.
  pub All-update_where {κ} :
      {P : A → Type κ} (p : A → Bool) (f : A → A)
      → ((x : A) → P x → P (f x))
      → (xs : List A) → All P xs
      → All P (update_where p f xs)
  All-update_where p f keep [] h = tt
  All-update_where p f keep (x ∷ xs) h = elim (Bool-cases (p x)) [
    | inl t ↦ rw t (keep x h.0, All-update_where p f keep xs h.1)
    | inr t ↦ rw t (h.0, All-update_where p f keep xs h.1)
  ]

  -- The same, where the update may use its condition.
  pub All-update_met {κ} :
      {P : A → Type κ} (p : A → Bool) (f : A → A)
      → ((x : A) → P x → p x ≡ true → P (f x))
      → (xs : List A) → All P xs
      → All P (update_where p f xs)
  All-update_met p f keep [] h = tt
  All-update_met p f keep (x ∷ xs) h = elim (Bool-cases (p x)) [
    | inl t ↦ rw t (keep x h.0 t, All-update_met p f keep xs h.1)
    | inr t ↦ rw t (h.0, All-update_met p f keep xs h.1)
  ]

  -- A test that an update does not change finds the same.
  pub any-update_where :
      (q p : A → Bool) (f : A → A)
      → ((x : A) → q (f x) ≡ q x)
      → (xs : List A) → any q (update_where p f xs) ≡ any q xs
  any-update_where q p f same [] = refl
  any-update_where q p f same (x ∷ xs) = ground (arith, any-update_where q p f same xs, same x)

  -- What is found and passes a second test is one that passes both.
  pub any-find_row :
      (p q : A → Bool) (xs : List A) {x : A}
      → find_row p xs ≡ some x
      → q x ≡ true
      → any (λ y. p y && q y) xs ≡ true
  any-find_row p q [] h e = cc
  any-find_row p q (y ∷ xs) {x} h e = elim (Bool-cases (p y)) [
    | inl t ↦ let same : y ≡ x = ground arith in let good : q y ≡ true = cc in rw t (rw good refl)
    | inr t ↦ rw t (any-find_row p q xs (ground arith) e)
  ]

  -- A narrower condition that the found row meets finds the same row.
  pub find_row-narrow :
      (p q : A → Bool)
      → ((x : A) → q x ≡ true → p x ≡ true)
      → (xs : List A) {x : A} → find_row p xs ≡ some x
      → q x ≡ true
      → find_row q xs ≡ some x
  find_row-narrow p q imp [] h e = cc
  find_row-narrow p q imp (y ∷ xs) {x} h e = elim (Bool-cases (p y)) [
    | inl t ↦
        let same : y ≡ x = ground arith in let good : q y ≡ true = cc in rw good (ap some same)
    | inr t ↦ elim (Bool-cases (q y)) [
      | inl u ↦ let also = imp y u in absurd (ground arith)
      | inr u ↦ rw u (find_row-narrow p q imp xs (ground arith) e)
    ]
  ]

  -- An update of that row alone is found.
  pub find_row-update_narrow :
      (p q : A → Bool) (f : A → A)
      → ((x : A) → q x ≡ true → p x ≡ true)
      → (xs : List A) {x : A} → find_row p xs ≡ some x
      → q x ≡ true
      → p (f x) ≡ true
      → find_row p (update_where q f xs) ≡ some (f x)
  find_row-update_narrow p q f imp [] h e k = cc
  find_row-update_narrow p q f imp (y ∷ xs) {x} h e k = elim (Bool-cases (p y)) [
    | inl t ↦
        let same : y ≡ x = ground arith in
        let good : q y ≡ true = cc in
        let kept : p (f y) ≡ true = cc in rw good (rw kept (ap (λ z. some (f z)) same))
    | inr t ↦ elim (Bool-cases (q y)) [
      | inl u ↦ let also = imp y u in absurd (ground arith)
      | inr u ↦ rw u (rw t (find_row-update_narrow p q f imp xs (ground arith) e k))
    ]
  ]

pub All-map {ℓ κ ι} :
    {A : Type ℓ} {B : Type κ} (P : B → Type ι) (g : A → B) (xs : List A)
    → All (λ x. P (g x)) xs
    → All P (map g xs)
All-map P g [] h = tt
All-map P g (x ∷ xs) h = (h.0, All-map P g xs h.1)

pub any-append {ℓ} :
    {A : Type ℓ} (p : A → Bool) (xs ys : List A) → any p (xs ++ ys) ≡ (any p xs || any p ys)
any-append p [] ys = refl
any-append p (x ∷ xs) ys = ground (arith, any-append p xs ys)
