-- ===== src/Audit/Passes.antt =====
-- The batches of `verify` check every row once, in order, and come to an end.
use emis.Base.{
  ℕ, zero, suc, ◌+◌, ◌<◌, ◌≤◌, ◌≡◌, refl, sym, subst, ap, ◌∙◌, Bool, true, false, Option, none,
  some, List, [], ◌∷◌, ◌++◌, arith, ltb, select, take, length, Bool-cases, inl, inr,
}
use emis.Audit.{
  Hashing, AuditRow, VerifyResponse, found_intact, Pass, broken, going, is_broken, pass,
  verify_from, verify,
}

abbrev drop {ℓ} : {A : Type ℓ} → ℕ → List A → List A
drop n [] = []
drop zero (x ∷ xs) = x ∷ xs
drop (suc n) (x ∷ xs) = drop n xs

take-drop {ℓ} : {A : Type ℓ} (n : ℕ) (xs : List A) → take n xs ++ drop n xs ≡ xs
take-drop n [] = refl
take-drop zero (x ∷ xs) = refl
take-drop (suc n) (x ∷ xs) = ap (λ l. x ∷ l) (take-drop n xs)

length-drop {ℓ} : {A : Type ℓ} (n : ℕ) (xs : List A) → length (drop n xs) ≤ length xs
length-drop n [] = omega arith
length-drop zero (x ∷ xs) = omega arith
length-drop (suc n) (x ∷ xs) = omega (arith, length-drop n xs)

module _ (h : Hashing) where
  -- Sequence numbers go up, all above the number a.
  abbrev pub IsOrdered : ℕ → List (AuditRow h) → Type 0
  IsOrdered a [] = Unit
  IsOrdered a (r ∷ rows) = (a < r.seq) × IsOrdered r.seq rows

  abbrev last_seq : ℕ → List (AuditRow h) → ℕ
  last_seq a [] = a
  last_seq a (r ∷ rows) = last_seq r.seq rows

  abbrev after_seq : ℕ → AuditRow h → Bool
  after_seq a r = ltb a r.seq

  last_seq-ge : (a : ℕ) (xs ys : List (AuditRow h)) → IsOrdered a (xs ++ ys) → a ≤ last_seq a xs
  last_seq-ge a [] ys o = omega arith
  last_seq-ge a (r ∷ xs) ys o = omega (arith, last_seq-ge r.seq xs ys o.1, o.0)

  select_all :
      (b a : ℕ) (ys : List (AuditRow h)) → b ≤ a → IsOrdered a ys → select (after_seq b) ys ≡ ys
  select_all b a [] l o = refl
  select_all b a (r ∷ ys) l o =
      let above = o.0 in
      let yes_after : ltb b r.seq ≡ true = ground arith in
      rw yes_after (ap (λ l. r ∷ l) (select_all b r.seq ys (omega arith) o.1))

  -- Behind the last number of a beginning are the rows that follow it.
  select_behind :
      (a : ℕ) (xs ys : List (AuditRow h))
      → IsOrdered a (xs ++ ys)
      → select (after_seq (last_seq a xs)) (xs ++ ys) ≡ ys
  select_behind a [] ys o = select_all a a ys (omega arith) o
  select_behind a (r ∷ xs) ys o =
      let low = last_seq-ge r.seq xs ys o.1 in
      let not_after : ltb (last_seq r.seq xs) r.seq ≡ false = ground arith in
      rw not_after (select_behind r.seq xs ys o.1)

  select_twice :
      (a b : ℕ) (rows : List (AuditRow h))
      → a ≤ b
      → select (after_seq b) (select (after_seq a) rows) ≡ select (after_seq b) rows
  select_twice a b [] l = refl
  select_twice a b (r ∷ rows) l = ground (arith, select_twice a b rows l)

  IsOrdered-behind :
      (a : ℕ) (xs ys : List (AuditRow h)) → IsOrdered a (xs ++ ys) → IsOrdered (last_seq a xs) ys
  IsOrdered-behind a [] ys o = o
  IsOrdered-behind a (r ∷ xs) ys o = IsOrdered-behind r.seq xs ys o.1

  abbrev then_pass : Pass h → List (AuditRow h) → Pass h
  then_pass (broken answer) rows = broken answer
  then_pass (going prev checked after) rows = pass h rows prev checked after

  pass-append :
      (xs ys : List (AuditRow h)) (prev : Option h.Hash) (checked after : ℕ)
      → pass h (xs ++ ys) prev checked after ≡ then_pass (pass h xs prev checked after) ys
  unfolding pass
  pass-append [] ys prev checked after = refl
  pass-append (r ∷ xs) ys prev checked after = elim (Bool-cases (is_broken h r prev)) [
    | inl t ↦ rw t refl
    | inr t ↦ rw t (pass-append xs ys (some r.hash) (checked + 1) r.seq)
  ]

  pass-after :
      (xs : List (AuditRow h)) (prev : Option h.Hash) (checked after : ℕ) {p : Option h.Hash}
      {c a : ℕ}
      → pass h xs prev checked after ≡ going p c a
      → a ≡ last_seq after xs
  unfolding pass
  pass-after [] prev checked after {p} {c} {a} e = ground arith
  pass-after (r ∷ xs) prev checked after {p} {c} {a} e = elim (Bool-cases (is_broken h r prev)) [
    | inl t ↦ absurd (ground arith)
    | inr t ↦ pass-after xs (some r.hash) (checked + 1) r.seq {p = p} {c = c} {a = a} (ground arith)
  ]

  -- The answer of one pass over all the rows.
  abbrev pub answer : Pass h → VerifyResponse
  answer (broken a) = a
  answer (going prev checked after) = found_intact checked

  verify_from-answer :
      (fuel n : ℕ) (rows suf : List (AuditRow h)) (prev : Option h.Hash) (checked after : ℕ)
      → select (after_seq after) rows ≡ suf
      → IsOrdered after suf
      → length suf < fuel
      → verify_from h fuel (suc n) rows prev checked after
        ≡ some (answer (pass h suf prev checked after))
  unfolding verify_from
  verify_from-answer zero n rows suf prev checked after e o l = absurd (omega arith)
  verify_from-answer (suc fuel) n rows [] prev checked after e o l =
      rw (e, verify_from) (unfold pass in refl)
  verify_from-answer (suc fuel) n rows (r ∷ suf) prev checked after e o l =
      rw (e, verify_from)
        (go
          (λ prev' checked' after' e' o' l'.
            verify_from-answer fuel n rows (drop n suf) prev' checked' after' e' o' l')
          (pass h (r ∷ take n suf) prev checked after) refl)
    where
      size : length (drop n suf) < fuel
      size = omega (arith, length-drop n suf)

      split : (r ∷ take n suf) ++ drop n suf ≡ r ∷ suf
      split = ap (λ l. r ∷ l) (take-drop n suf)

      ordered : IsOrdered after ((r ∷ take n suf) ++ drop n suf)
      ordered = subst (IsOrdered after) (sym split) o

      whole_pass :
          pass h (r ∷ suf) prev checked after
          ≡ then_pass (pass h (r ∷ take n suf) prev checked after) (drop n suf)
      whole_pass =
          ap (λ l. pass h l prev checked after) (sym split)
          ∙ pass-append (r ∷ take n suf) (drop n suf) prev checked after

      go :
          ((prev' : Option h.Hash) (checked' after' : ℕ)
            → select (after_seq after') rows ≡ drop n suf
            → IsOrdered after' (drop n suf)
            → length (drop n suf) < fuel
            → verify_from h fuel (suc n) rows prev' checked' after'
              ≡ some (answer (pass h (drop n suf) prev' checked' after')))
          → (p : Pass h) → pass h (r ∷ take n suf) prev checked after ≡ p
          → (elim p [
            | broken a ↦ some a
            | going prev' checked' after' ↦ verify_from h fuel (suc n) rows prev' checked' after'
          ])
            ≡ some (answer (pass h (r ∷ suf) prev checked after))
      go ih (broken a) q =
          ap (λ x. some (answer x)) (sym (whole_pass ∙ ap (λ x. then_pass x (drop n suf)) q))
      go ih (going prev' checked' after') q =
          let last : after' ≡ last_seq after (r ∷ take n suf) =
            pass-after (r ∷ take n suf) prev checked after {p = prev'} {c = checked'} {a = after'}
              q in
          let up = last_seq-ge after (r ∷ take n suf) (drop n suf) ordered in
          let behind : select (after_seq after') rows ≡ drop n suf =
            sym (select_twice after after' rows (omega arith))
            ∙ ap (select (after_seq after')) (e ∙ sym split)
            ∙ ap (λ k. select (after_seq k) ((r ∷ take n suf) ++ drop n suf)) last
            ∙ select_behind after (r ∷ take n suf) (drop n suf) ordered in
          let rest =
            subst (λ k. IsOrdered k (drop n suf)) (sym last)
              (IsOrdered-behind after (r ∷ take n suf) (drop n suf) ordered) in
          ih prev' checked' after' behind rest size
          ∙ ap (λ x. some (answer x)) (sym (whole_pass ∙ ap (λ x. then_pass x (drop n suf)) q))

  -- Over a table with rising sequence numbers from 1 on, the batches come to an end, and answer what one
  -- pass over all the rows does.
  pub verify-pass :
      (rows : List (AuditRow h))
      → IsOrdered 0 rows
      → verify h rows ≡ some (answer (pass h rows none 0 0))
  unfolding verify
  verify-pass rows o =
      verify_from-answer (length rows + 1) 999 rows rows none 0 0
        (select_all 0 0 rows (omega arith) o) o (omega arith)
