-- ===== src/Base/Keys.antt =====
-- Rows with distinct keys, as a primary key makes them.
use Prim.Native.Nat.{ℕ, ◌+◌}
use mathlib.Core.Path.{◌≡◌, refl, sym, ap, ◌∙◌, subst}
use mathlib.Core.Logic.{◌≢◌, inl, inr}
use mathlib.Core.Bool.{Bool, true, false}
use mathlib.Core.Option.{some}
use mathlib.Core.List.{List, [], ◌∷◌, ◌++◌, map, reverse, reverse-cons}
use native.Mathlib.Omega.{arith}
use emis.Base.Tests.{◌==◌, if◌then◌else◌, Bool-cases}
use emis.Base.Lists.{All, length, find_row, update_where, select}
use emis.Base.Sort.{insert_by, sort_by}

Bool-false : {b : Bool} → (b ≡ true → ⊥) → b ≡ false
Bool-false {b} h = elim (Bool-cases b) [ inl t ↦ absurd (h t) | inr f ↦ f ]

==_to : (a b : ℕ) → (a == b) ≡ true → a ≡ b
==_to a b h = ground arith

module _ {ℓ} {A : Type ℓ} (key : A → ℕ) where
  abbrev pub Lacks : ℕ → List A → Type 0
  Lacks k [] = Unit
  Lacks k (y ∷ ys) = (key y ≢ k) × Lacks k ys

  abbrev pub Distinct : List A → Type 0
  Distinct [] = Unit
  Distinct (x ∷ xs) = Lacks (key x) xs × Distinct xs

  pub Lacks-append : (k : ℕ) (xs ys : List A) → Lacks k xs → Lacks k ys → Lacks k (xs ++ ys)
  Lacks-append k [] ys h j = j
  Lacks-append k (x ∷ xs) ys h j = (h.0, Lacks-append k xs ys h.1 j)

  pub Lacks-reverse : (k : ℕ) (xs : List A) → Lacks k xs → Lacks k (reverse xs)
  Lacks-reverse k [] h = tt
  Lacks-reverse k (x ∷ xs) h =
      rw reverse-cons (Lacks-append k (reverse xs) (x ∷ []) (Lacks-reverse k xs h.1) (h.0, tt))

  pub Distinct-snoc :
      (xs : List A) (y : A) → Distinct xs → Lacks (key y) xs → Distinct (xs ++ y ∷ [])
  Distinct-snoc [] y d h = (tt, tt)
  Distinct-snoc (x ∷ xs) y d h =
      (Lacks-append (key x) xs (y ∷ []) d.0 ((λ e. h.0 (rw e)), tt), Distinct-snoc xs y d.1 h.1)

  pub Distinct-reverse : (xs : List A) → Distinct xs → Distinct (reverse xs)
  Distinct-reverse [] d = tt
  Distinct-reverse (x ∷ xs) d =
      rw reverse-cons
        (Distinct-snoc (reverse xs) x (Distinct-reverse xs d.1) (Lacks-reverse (key x) xs d.0))

  module _ (before : A → A → Bool) where
    Lacks-insert_by :
        (k : ℕ) (x : A) (xs : List A) → key x ≢ k → Lacks k xs → Lacks k (insert_by before x xs)
    unfolding insert_by
    Lacks-insert_by k x [] n h = (n, tt)
    Lacks-insert_by k x (y ∷ ys) n h = elim (Bool-cases (before x y)) [
      | inl t ↦ rw t (n, h)
      | inr t ↦ rw t (h.0, Lacks-insert_by k x ys n h.1)
    ]

    Distinct-insert_by :
        (x : A) (xs : List A) → Lacks (key x) xs → Distinct xs → Distinct (insert_by before x xs)
    unfolding insert_by
    Distinct-insert_by x [] h d = (tt, tt)
    Distinct-insert_by x (y ∷ ys) h d = elim (Bool-cases (before x y)) [
      | inl t ↦ rw t (h, d)
      | inr t ↦
          rw t (Lacks-insert_by (key y) x ys (λ e. h.0 (rw e)) d.0, Distinct-insert_by x ys h.1 d.1)
    ]

    pub Lacks-sort_by : (k : ℕ) (xs : List A) → Lacks k xs → Lacks k (sort_by before xs)
    unfolding sort_by
    Lacks-sort_by k [] h = tt
    Lacks-sort_by k (x ∷ xs) h =
        Lacks-insert_by k x (sort_by before xs) h.0 (Lacks-sort_by k xs h.1)

    pub Distinct-sort_by : (xs : List A) → Distinct xs → Distinct (sort_by before xs)
    unfolding sort_by
    Distinct-sort_by [] d = tt
    Distinct-sort_by (x ∷ xs) d =
        Distinct-insert_by x (sort_by before xs) (Lacks-sort_by (key x) xs d.0)
          (Distinct-sort_by xs d.1)

  pub Lacks-select : (p : A → Bool) (k : ℕ) (xs : List A) → Lacks k xs → Lacks k (select p xs)
  Lacks-select p k [] h = tt
  Lacks-select p k (x ∷ xs) h = elim (Bool-cases (p x)) [
    | inl t ↦ rw t (h.0, Lacks-select p k xs h.1)
    | inr t ↦ rw t (Lacks-select p k xs h.1)
  ]

  pub Distinct-select : (p : A → Bool) (xs : List A) → Distinct xs → Distinct (select p xs)
  Distinct-select p [] d = tt
  Distinct-select p (x ∷ xs) d = elim (Bool-cases (p x)) [
    | inl t ↦ rw t (Lacks-select p (key x) xs d.0, Distinct-select p xs d.1)
    | inr t ↦ rw t (Distinct-select p xs d.1)
  ]

  -- With distinct keys, a row with the key of the found one is the found one.
  pub Distinct-find_row {κ} :
      (P : A → Type κ) (k : ℕ) (xs : List A) {x : A}
      → Distinct xs
      → find_row (λ y. key y == k) xs ≡ some x
      → P x
      → All (λ y. (key y == k) ≡ true → P y) xs
  Distinct-find_row P k [] d h p = tt
  Distinct-find_row P k (y ∷ xs) {x} d h p = elim (Bool-cases (key y == k)) [
    | inl t ↦
        let same : y ≡ x = ground arith in
        let is_k : key y ≡ k = ground arith in
        ((λ _. subst P (sym same) p), none_left xs (subst (λ j. Lacks j xs) is_k d.0))
    | inr t ↦ ((λ u. absurd (ground arith)), Distinct-find_row P k xs d.1 (ground arith) p)
  ]
    where
      none_left : (ys : List A) → Lacks k ys → All (λ y. (key y == k) ≡ true → P y) ys
      none_left [] l = tt
      none_left (z ∷ ys) l = ((λ u. absurd (l.0 (ground arith))), none_left ys l.1)

  -- With distinct keys, every row is found by its key.
  pub Distinct-found :
      (xs : List A) → Distinct xs → All (λ x. find_row (λ y. key y == key x) xs ≡ some x) xs
  Distinct-found [] d = tt
  Distinct-found (x ∷ xs) d = (ground arith, later xs d.0 (Distinct-found xs d.1))
    where
      later :
          (ys : List A)
          → Lacks (key x) ys
          → All (λ z. find_row (λ y. key y == key z) xs ≡ some z) ys
          → All (λ z. find_row (λ y. key y == key z) (x ∷ xs) ≡ some z) ys
      later [] l h = tt
      later (y ∷ ys) l h =
          let other : (key x == key y) ≡ false =
            Bool-false (λ t. l.0 (sym (==_to (key x) (key y) t))) in
          (rw other h.0, later ys l.1 h.1)

  update_where-Lacks :
      (q : A → Bool) (f : A → A) (j : ℕ)
      → ((y : A) → q y ≡ true → key y ≡ j)
      → (xs : List A) → Lacks j xs
      → update_where q f xs ≡ xs
  update_where-Lacks q f j only [] l = refl
  update_where-Lacks q f j only (x ∷ xs) l = elim (Bool-cases (q x)) [
    | inl t ↦ absurd (l.0 (only x t))
    | inr t ↦ rw t (ap (λ ys. x ∷ ys) (update_where-Lacks q f j only xs l.1))
  ]

  -- An update of one row changes a count by that row alone.
  pub count-update_where :
      (p q : A → Bool) (f : A → A) (j : ℕ)
      → ((y : A) → q y ≡ true → key y ≡ j)
      → (xs : List A) {x : A} → Distinct xs
      → find_row q xs ≡ some x
      → length (select p (update_where q f xs)) + (if p x then 1 else 0)
        ≡ length (select p xs) + (if p (f x) then 1 else 0)
  count-update_where p q f j only [] d h = cc
  count-update_where p q f j only (y ∷ xs) {x} d h = elim (Bool-cases (q y)) [
    | inl t ↦
        let same : y ≡ x = ground arith in
        let rest : update_where q f xs ≡ xs =
          update_where-Lacks q f j only xs (subst (λ k. Lacks k xs) (only y t) d.0) in
        subst
          (λ z.
            length (select p (update_where q f (y ∷ xs))) + (if p z then 1 else 0)
            ≡ length (select p (y ∷ xs)) + (if p (f z) then 1 else 0))
          same (rw t (rw rest (both (p y) (p (f y)))))
    | inr t ↦ rw t (more (p y) (count-update_where p q f j only xs {x = x} d.1 (ground arith)))
  ]
    where
      both :
          (b c : Bool)
          → length (if c then f y ∷ select p xs else select p xs) + (if b then 1 else 0)
            ≡ length (if b then y ∷ select p xs else select p xs) + (if c then 1 else 0)
      both true true = omega arith
      both true false = omega arith
      both false true = omega arith
      both false false = omega arith

      more :
          (b : Bool)
          → length (select p (update_where q f xs)) + (if p x then 1 else 0)
            ≡ length (select p xs) + (if p (f x) then 1 else 0)
          → length
                (if b then y ∷ select p (update_where q f xs) else select p (update_where q f xs))
              + (if p x then 1 else 0)
            ≡ length (if b then y ∷ select p xs else select p xs) + (if p (f x) then 1 else 0)
      more true e = omega arith
      more false e = e

  Lacks-update_where :
      (q : A → Bool) (f : A → A)
      → ((x : A) → key (f x) ≡ key x)
      → (k : ℕ) (xs : List A) → Lacks k xs
      → Lacks k (update_where q f xs)
  Lacks-update_where q f same k [] l = tt
  Lacks-update_where q f same k (x ∷ xs) l = elim (Bool-cases (q x)) [
    | inl t ↦ rw t ((λ e. l.0 (sym (same x) ∙ e)), Lacks-update_where q f same k xs l.1)
    | inr t ↦ rw t (l.0, Lacks-update_where q f same k xs l.1)
  ]

  -- An update that keeps the keys keeps them distinct.
  pub Distinct-update_where :
      (q : A → Bool) (f : A → A)
      → ((x : A) → key (f x) ≡ key x)
      → (xs : List A) → Distinct xs
      → Distinct (update_where q f xs)
  Distinct-update_where q f same [] d = tt
  Distinct-update_where q f same (x ∷ xs) d = elim (Bool-cases (q x)) [
    | inl t ↦ rw t (
      subst (λ k. Lacks k (update_where q f xs)) (sym (same x))
          (Lacks-update_where q f same (key x) xs d.0),
      Distinct-update_where q f same xs d.1,
    )
    | inr t ↦
        rw t (Lacks-update_where q f same (key x) xs d.0, Distinct-update_where q f same xs d.1)
  ]

  -- A change that keeps the keys keeps them distinct.
  module _ (g : A → A) (same : (x : A) → key (g x) ≡ key x) where
    Lacks-map : (k : ℕ) (xs : List A) → Lacks k xs → Lacks k (map g xs)
    Lacks-map k [] h = tt
    Lacks-map k (x ∷ xs) h = ((λ e. h.0 (sym (same x) ∙ e)), Lacks-map k xs h.1)

    pub Distinct-map : (xs : List A) → Distinct xs → Distinct (map g xs)
    Distinct-map [] d = tt
    Distinct-map (x ∷ xs) d = (
      subst (λ (k : ℕ). Lacks k (map g xs)) (sym (same x)) (Lacks-map (key x) xs d.0),
      Distinct-map xs d.1,
    )
