-- ===== src/Base/Sort.antt =====
-- `[...xs].sort(compare)`: a stable insertion sort, where `before x y` says that the comparison of
-- x and y is not positive.
use Prim.Native.Nat.{ℕ, ◌+◌}
use mathlib.Core.Path.{◌≡◌, refl, sym, subst}
use mathlib.Core.Bool.{Bool, true, false}
use mathlib.Core.List.{List, [], ◌∷◌}
use mathlib.Core.List.{Perm}
use mathlib.Core.List.Perm
use native.Mathlib.Omega.{arith}
use mathlib.Core.Logic.{inl, inr}
use emis.Base.Tests.{if◌then◌else◌, Bool-cases}
use emis.Base.Lists.{sum_of, All, All-imp}

module _ {ℓ} {A : Type ℓ} (before : A → A → Bool) where
  unfoldable pub insert_by : A → List A → List A
  insert_by x [] = x ∷ []
  insert_by x (y ∷ ys) = if before x y then x ∷ y ∷ ys else y ∷ insert_by x ys

  unfoldable pub sort_by : List A → List A
  unfolding insert_by
  sort_by [] = []
  sort_by (x ∷ xs) = insert_by x (sort_by xs)

  sum_of-insert_by :
      (f : A → ℕ) (x : A) (xs : List A) → sum_of f (insert_by x xs) ≡ f x + sum_of f xs
  unfolding insert_by
  sum_of-insert_by f x [] = refl
  sum_of-insert_by f x (y ∷ ys) = ground (arith, sum_of-insert_by f x ys)

  -- Sorting changes no sum over the rows.
  pub sum_of-sort_by : (f : A → ℕ) (xs : List A) → sum_of f (sort_by xs) ≡ sum_of f xs
  unfolding sort_by
  sum_of-sort_by f [] = refl
  sum_of-sort_by f (x ∷ xs) = omega (arith, sum_of-insert_by f x (sort_by xs), sum_of-sort_by f xs)

  insert_by-All {κ} :
      (P : A → Type κ) (x : A) (xs : List A) → P x → All P xs → All P (insert_by x xs)
  unfolding insert_by
  insert_by-All P x [] p h = (p, tt)
  insert_by-All P x (y ∷ ys) p h = elim (Bool-cases (before x y)) [
    | inl t ↦ rw t (p, h)
    | inr t ↦ rw t (h.0, insert_by-All P x ys p h.1)
  ]

  -- What holds of every row holds of every sorted row.
  pub sort_by-All {κ} : (P : A → Type κ) (xs : List A) → All P xs → All P (sort_by xs)
  unfolding sort_by
  sort_by-All P [] h = tt
  sort_by-All P (x ∷ xs) h = insert_by-All P x (sort_by xs) h.0 (sort_by-All P xs h.1)

  insert_by-All_back {κ} :
      (P : A → Type κ) (x : A) (xs : List A) → All P (insert_by x xs) → P x × All P xs
  unfolding insert_by
  insert_by-All_back P x [] h = (h.0, tt)
  insert_by-All_back P x (y ∷ ys) h = elim (Bool-cases (before x y)) [
    | inl t ↦
        let same : insert_by x (y ∷ ys) ≡ x ∷ y ∷ ys = rw t refl in
        let k = subst (All P) same h in (k.0, k.1)
    | inr t ↦
        let same : insert_by x (y ∷ ys) ≡ y ∷ insert_by x ys = rw t refl in
        let k = subst (All P) same h in
        let (p, rest) = insert_by-All_back P x ys k.1 in (p, (k.0, rest))
  ]

  -- What holds of every sorted row holds of every row.
  pub sort_by-All_back {κ} : (P : A → Type κ) (xs : List A) → All P (sort_by xs) → All P xs
  unfolding sort_by
  sort_by-All_back P [] h = tt
  sort_by-All_back P (x ∷ xs) h =
      let (p, rest) = insert_by-All_back P x (sort_by xs) h in (p, sort_by-All_back P xs rest)

  insert_by-perm : (x : A) (xs : List A) → Perm (insert_by x xs) (x ∷ xs)
  unfolding insert_by
  insert_by-perm x [] = Perm.refl (x ∷ [])
  insert_by-perm x (y ∷ ys) = elim (Bool-cases (before x y)) [
    | inl t ↦ rw t (Perm.refl (x ∷ y ∷ ys))
    | inr t ↦ rw t (Perm.trans (Perm.cons y (insert_by-perm x ys)) (Perm.swap x y ys))
  ]

  -- A sorted list holds the same rows.
  pub sort_by-perm : (xs : List A) → Perm (sort_by xs) xs
  unfolding sort_by
  sort_by-perm [] = Perm.refl []
  sort_by-perm (x ∷ xs) = Perm.trans (insert_by-perm x (sort_by xs)) (Perm.cons x (sort_by-perm xs))

  -- The first of the sorted rows comes before every row.
  pub sort_by-first :
      ((x y : A) → before x y ≡ false → before y x ≡ true)
      → ((x y z : A) → before x y ≡ true → before y z ≡ true → before x z ≡ true)
      → (xs : List A) {m : A} (rest : List A) → sort_by xs ≡ m ∷ rest
      → All (λ x. before m x ≡ true) xs
  unfolding sort_by insert_by
  sort_by-first total trans [] {m} rest h = tt
  sort_by-first total trans (x ∷ xs) {m} rest h =
      go (λ y ys e. sort_by-first total trans xs {m = y} ys e) (sort_by xs) refl h
    where
      self : before x x ≡ true
      self = elim (Bool-cases (before x x)) [ inl t ↦ t | inr f ↦ total x x f ]

      go :
          ((y : A) (ys : List A) → sort_by xs ≡ y ∷ ys → All (λ z. before y z ≡ true) xs)
          → (ys : List A) → sort_by xs ≡ ys
          → insert_by x ys ≡ m ∷ rest
          → All (λ z. before m z ≡ true) (x ∷ xs)
      go ih [] e h' =
          let same : x ≡ m = ground arith in
          let none_left : All (λ z. before x z ≡ true) xs =
            sort_by-All_back (λ z. before x z ≡ true) xs
              (subst (All (λ z. before x z ≡ true)) (sym e) tt) in
          subst (λ w. All (λ z. before w z ≡ true) (x ∷ xs)) same (self, none_left)
      go ih (y ∷ ys) e h' = elim (Bool-cases (before x y)) [
        | inl t ↦
            let same : x ≡ m = ground arith in
            let all_y = ih y ys e in
            subst (λ w. All (λ z. before w z ≡ true) (x ∷ xs)) same
              (self, All-imp (λ z b. trans x y z t b) xs all_y)
        | inr t ↦
            let same : y ≡ m = ground arith in
            subst (λ w. All (λ z. before w z ≡ true) (x ∷ xs)) same (total x y t, ih y ys e)
      ]
