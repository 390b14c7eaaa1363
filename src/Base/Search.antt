-- ===== src/Base/Search.antt =====
-- What tests and searches of rows find after a change.
use mathlib.Core.Path.{◌≡◌, refl, ap, subst, ◌∙◌}
use mathlib.Core.Logic.{inl, inr}
use mathlib.Core.Bool.{Bool, true, false}
use mathlib.Core.Option.{some}
use mathlib.Core.List.{List, [], ◌∷◌, Mem, mem-cons_self, mem-cons_of_mem}
use native.Mathlib.Omega.{arith}
use emis.Base.Tests.{Bool-cases, if◌then◌else◌}
use emis.Base.Lists.{All, All-imp, any, find_row, update_where, select}

-- What a row that passes one test passes of another.
pub any-imp {ℓ} :
    {A : Type ℓ} (p q : A → Bool) (xs : List A)
    → any p xs ≡ true
    → All (λ x. p x ≡ true → q x ≡ true) xs
    → any q xs ≡ true
any-imp p q [] h j = h
any-imp p q (x ∷ xs) h j = elim (Bool-cases (p x)) [
  | inl t ↦ rw (j.0 t) refl
  | inr t ↦ elim (Bool-cases (q x)) [
    | inl u ↦ rw u refl
    | inr u ↦ rw u (any-imp p q xs (ground arith) j.1)
  ]
]

pub any-none {ℓ} :
    {A : Type ℓ} (p : A → Bool) (xs : List A) → any p xs ≡ false → All (λ x. p x ≡ false) xs
any-none p [] h = tt
any-none p (x ∷ xs) h = (ground arith, any-none p xs (ground arith))

pub any-update_kept {ℓ} :
    {A : Type ℓ} (q p : A → Bool) (f : A → A)
    → ((x : A) → p x ≡ true → q x ≡ true → q (f x) ≡ true)
    → (xs : List A) → any q xs ≡ true
    → any q (update_where p f xs) ≡ true
any-update_kept q p f keep [] h = h
any-update_kept q p f keep (x ∷ xs) h = elim (Bool-cases (q x)) [
  | inl t ↦ elim (Bool-cases (p x)) [
    | inl u ↦ rw u (rw (keep x u t) refl)
    | inr u ↦ rw u (rw t refl)
  ]
  | inr t ↦ let rest = any-update_kept q p f keep xs (ground arith) in ground arith
]

pub All-every {ℓ κ} : {A : Type ℓ} (P : A → Type κ) (xs : List A) → ((x : A) → P x) → All P xs
All-every P [] f = tt
All-every P (x ∷ xs) f = (f x, All-every P xs f)

-- An update by one test, and a search by another that it keeps.
pub find_row-update_other {ℓ} :
    {A : Type ℓ} (p q : A → Bool) (f : A → A)
    → ((y : A) → p (f y) ≡ p y)
    → (xs : List A) {x : A} → find_row p xs ≡ some x
    → q x ≡ true
    → find_row p (update_where q f xs) ≡ some (f x)
find_row-update_other p q f same [] h t = cc
find_row-update_other p q f same (y ∷ xs) {x} h t = elim (Bool-cases (p y)) [
  | inl u ↦
      let is : y ≡ x = ground arith in
      let hit : q y ≡ true = cc in
      let still : p (f y) ≡ true = same y ∙ u in rw hit (rw still (ap (λ z. some (f z)) is))
  | inr u ↦
      let later = find_row-update_other p q f same xs (ground arith) t in
      let still : p (f y) ≡ false = same y ∙ u in
      elim (Bool-cases (q y)) [ inl v ↦ rw v (rw still later) | inr v ↦ rw v (rw u later) ]
]

-- Every row of a list is in it.
pub All-Mem {ℓ} : {A : Type ℓ} (xs : List A) → All (λ x. Mem x xs) xs
All-Mem [] = tt
All-Mem (x ∷ xs) = (mem-cons_self, All-imp (λ y h. mem-cons_of_mem x h) xs (All-Mem xs))

-- Where no row is chosen, none passes the test.
pub select-any {ℓ} :
    {A : Type ℓ} (p : A → Bool) (xs : List A) → All (λ (x : A). ⊥) (select p xs) → any p xs ≡ false
select-any p [] a = refl
select-any p (x ∷ xs) a = elim (Bool-cases (p x)) [
  | inl t ↦
      absurd ((subst (All (λ y. ⊥)) (ap (λ b. if b then x ∷ select p xs else select p xs) t) a).0)
  | inr t ↦ rw t (select-any p xs (ground arith))
]
