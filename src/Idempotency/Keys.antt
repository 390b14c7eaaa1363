-- ===== src/Idempotency/Keys.antt =====
-- Finding a stored key, and storing one.
use emis.Base.{
  ℕ, ◌≡◌, refl, ap, ◌∙◌, Bool, true, false, ◌&&◌, Option, none, some, List, [], ◌∷◌, arith,
  if◌then◌else◌, select, find_row, Bool-cases, inl, inr, ==-self,
}
use emis.Settings.Numbering.{Text, text_eq}
use emis.Settings.Numbering.Counting.{text_eq_iff}
use emis.Idempotency.{KeyRow, same_principal, has_key, upsert_key}

same_principal-≡ : (p q : Option ℕ) → same_principal p q ≡ true → p ≡ q
same_principal-≡ none none h = refl
same_principal-≡ none (some b) h = cc
same_principal-≡ (some a) none h = cc
same_principal-≡ (some a) (some b) h = ap some (ground arith)

same_principal_self : (p : Option ℕ) → same_principal p p ≡ true
same_principal_self none = refl
same_principal_self (some a) = ==-self a

pub text_eq_self : (t : Text) → text_eq t t ≡ true
text_eq_self t = (text_eq_iff t t).1 refl

pub find_row-select {ℓ} :
    {A : Type ℓ} (p q : A → Bool) (xs : List A) {x : A}
    → find_row p xs ≡ some x
    → q x ≡ true
    → find_row p (select q xs) ≡ some x
find_row-select p q [] h k = cc
find_row-select p q (y ∷ xs) {x} h k = elim (Bool-cases (p y)) [
  | inl t ↦
      let same : y ≡ x = ground arith in let kept : q y ≡ true = cc in rw kept (rw t (ap some same))
  | inr t ↦ elim (Bool-cases (q y)) [
    | inl u ↦ rw u (rw t (find_row-select p q xs (ground arith) k))
    | inr u ↦ rw u (find_row-select p q xs (ground arith) k)
  ]
]

module _ {B : Type 0} where
  pub has_key-≡ :
      (p : Option ℕ) (k : Text) (r : KeyRow B)
      → has_key p k r ≡ true
      → (r.principal ≡ p) × (r.key ≡ k)
  has_key-≡ p k r h = elim (Bool-cases (same_principal r.principal p)) [
    | inl t ↦ (same_principal-≡ r.principal p t, (text_eq_iff r.key k).0 (ground arith))
    | inr t ↦ absurd (ground arith)
  ]

  has_key_self : (r : KeyRow B) → has_key r.principal r.key r ≡ true
  has_key_self r = rw (same_principal_self r.principal) (text_eq_self r.key)

  pub find-upsert_key_self :
      (row : KeyRow B) (rows : List (KeyRow B))
      → find_row (has_key row.principal row.key) (upsert_key row rows) ≡ some row
  find-upsert_key_self row [] = rw (has_key_self row) refl
  find-upsert_key_self row (r ∷ rows) = elim (Bool-cases (has_key row.principal row.key r)) [
    | inl t ↦ rw t (rw (has_key_self row) refl)
    | inr t ↦ rw t (rw t (find-upsert_key_self row rows))
  ]

  pub find-upsert_key_other :
      (p : Option ℕ) (k : Text) (row : KeyRow B) (rows : List (KeyRow B))
      → has_key p k row ≡ false
      → find_row (has_key p k) (upsert_key row rows) ≡ find_row (has_key p k) rows
  find-upsert_key_other p k row [] h = rw h refl
  find-upsert_key_other p k row (r ∷ rows) h = elim (Bool-cases (has_key row.principal row.key r)) [
    | inl t ↦
        let (same_p, same_k) = has_key-≡ row.principal row.key r t in
        let other : has_key p k r ≡ false =
          ap (λ (x : Option ℕ × Text). same_principal x.0 p && text_eq x.1 k) (cc) ∙ h in
        rw t (rw h (rw other refl))
    | inr t ↦
        rw t (ap (λ x. if has_key p k r then some r else x) (find-upsert_key_other p k row rows h))
  ]
