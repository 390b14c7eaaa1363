-- ===== src/Billing/Flow/Discounting.antt =====
-- What a discount takes: latest due first, never below what has been paid.
use mathlib.Core.List.{reverse}
use mathlib.Core.List.{reverse-cons}
use emis.Base.{
  ℕ, ◌+◌, ◌-◌, ◌≤◌, ◌<◌, ◌≡◌, ◌↔◌, refl, sym, subst, ◌∙◌, List, [], ◌∷◌, arith, sum_of, All, ok,
  sort_by, sum_of-sort_by, sum_of-append, ==_iff, Bool-cases, inl, inr, ltb, ◌==◌, min,
  if◌then◌else◌, err, discount_error, Distinct, Lacks, Distinct-sort_by, Distinct-reverse,
  sort_by-All_back, All-append_back,
}
use emis.Billing.Flow.{InstallmentState, owed, by_due_date, Change, discount_from, apply_discount}
use emis.Billing.Flow.Allocating.{total_owed}

-- The amount of an instalment after the changes: the first change with its id, if there is one.
unfoldable pub amount_after : List Change → InstallmentState → ℕ
amount_after [] i = i.amount
amount_after (c ∷ cs) i = if c.installment_id == i.id then c.new_amount else amount_after cs i

discount_from-left :
    (left : ℕ) (l : List InstallmentState) → (discount_from left l).1 ≡ left - total_owed l
unfolding discount_from
discount_from-left left [] = omega arith
discount_from-left left (i ∷ rest) =
    ground (arith, discount_from-left (left - min left (owed i)) rest)

sum_of-reverse {ℓ} : {A : Type ℓ} (f : A → ℕ) (xs : List A) → sum_of f (reverse xs) ≡ sum_of f xs
sum_of-reverse f [] = refl
sum_of-reverse f (x ∷ xs) =
    rw (reverse-cons) (omega (arith, sum_of-append f (reverse xs) (x ∷ []), sum_of-reverse f xs))

-- A discount is refused exactly when it is more than what the instalments still owe.
pub apply_discount-error_iff :
    (installments : List InstallmentState) (amount : ℕ)
    → (apply_discount installments amount ≡ err discount_error) ↔ (total_owed installments < amount)
unfolding apply_discount
apply_discount-error_iff installments amount =
    let sorted = sort_by by_due_date installments in
    let left = discount_from-left amount (reverse sorted) in
    let same = sum_of-reverse owed sorted ∙ sum_of-sort_by by_due_date owed installments in
    (λ h. ground arith, λ h. ground arith)

abbrev pub state_id : InstallmentState → ℕ
state_id i = i.id

abbrev pub new_total : List Change → List InstallmentState → ℕ
new_total cs = sum_of (amount_after cs)

amount_after-other :
    (c : Change) (cs : List Change) (l : List InstallmentState)
    → Lacks state_id c.installment_id l
    → new_total (c ∷ cs) l ≡ new_total cs l
unfolding amount_after
amount_after-other c cs [] h = refl
amount_after-other c cs (i ∷ l) h = ground (arith, amount_after-other c cs l h.1)

-- No change in the list is for the instalment k.
abbrev pub Spares : ℕ → List Change → Type 0
Spares k cs = Lacks (λ (c : Change). c.installment_id) k cs

pub discount_from-Spares :
    (k left : ℕ) (l : List InstallmentState)
    → Lacks state_id k l
    → Spares k (discount_from left l).0
unfolding discount_from
discount_from-Spares k left [] h = tt
discount_from-Spares k left (i ∷ rest) h =
    ground (arith, discount_from-Spares k (left - min left (owed i)) rest h.1)

pub amount_after-Spares :
    (cs : List Change) (i : InstallmentState) → Spares i.id cs → amount_after cs i ≡ i.amount
unfolding amount_after
amount_after-Spares [] i h = refl
amount_after-Spares (c ∷ cs) i h = ground (arith, amount_after-Spares cs i h.1)

amount_after_head :
    (c : Change) (cs : List Change) (i : InstallmentState)
    → c.installment_id ≡ i.id
    → amount_after (c ∷ cs) i ≡ c.new_amount
unfolding amount_after
amount_after_head c cs i h = ground arith

new_total-nil :
    (l : List InstallmentState) → new_total [] l ≡ sum_of (λ (i : InstallmentState). i.amount) l
unfolding amount_after
new_total-nil [] = refl
new_total-nil (i ∷ l) = omega (arith, new_total-nil l)

-- One round of the loop.
discount_from-round :
    (left : ℕ) (i : InstallmentState) (rest : List InstallmentState)
    → let cut = min left (owed i) in
      let changes = (discount_from (left - cut) rest).0 in
      (discount_from left (i ∷ rest)).0 ≡ (
        if left == 0
        then []
        else if ltb 0 cut
        then record { installment_id = i.id; new_amount = i.amount - cut } ∷ changes
        else changes)
unfolding discount_from
discount_from-round left i rest = ground arith

discount_from-total :
    (left : ℕ) (l : List InstallmentState)
    → Distinct state_id l
    → left ≤ total_owed l
    → new_total (discount_from left l).0 l + left ≡ sum_of (λ (i : InstallmentState). i.amount) l
discount_from-total left [] d h = omega arith
discount_from-total left (i ∷ rest) d h =
    let cut = min left (owed i) in
    let changes = (discount_from (left - cut) rest).0 in
    let c : Change = record { installment_id = i.id; new_amount = i.amount - cut } in
    let ih = discount_from-total (left - cut) rest d.1 in
    let other = amount_after-other c changes rest d.0 in
    let spared = amount_after-Spares changes i (discount_from-Spares i.id (left - cut) rest d.0) in
    let round = discount_from-round left i rest in
    let result =
      λ (cs : List Change) (e : (discount_from left (i ∷ rest)).0 ≡ cs)
          (p : new_total cs (i ∷ rest) + left
            ≡ sum_of (λ (i : InstallmentState). i.amount) (i ∷ rest)).
        subst
          (λ cs.
            new_total cs (i ∷ rest) + left ≡ sum_of (λ (i : InstallmentState). i.amount) (i ∷ rest))
          (sym e) p in
    elim (Bool-cases (left == 0)) [
      | inl none_left ↦
          result [] (ground (arith, round))
            (omega (arith, new_total-nil (i ∷ rest), (==_iff left 0).0 none_left))
      | inr some_left ↦ elim (Bool-cases (ltb 0 cut)) [
        | inl cuts ↦
            result (c ∷ changes) (ground (arith, round))
              (ground (arith, ih, other, amount_after_head c changes i))
        | inr keeps ↦ result changes (ground (arith, round)) (ground (arith, ih, spared))
      ]
    ]

-- What an instalment comes to stays between what was paid on it and what it was.
abbrev pub Within : List Change → InstallmentState → Type 0
Within cs i =
    i.paid_amount ≤ i.amount → (i.paid_amount ≤ amount_after cs i) × (amount_after cs i ≤ i.amount)

Within-other :
    (c : Change) (cs : List Change) (l : List InstallmentState)
    → Lacks state_id c.installment_id l
    → All (Within cs) l
    → All (Within (c ∷ cs)) l
unfolding amount_after
Within-other c cs [] h w = tt
Within-other c cs (i ∷ l) h w = ((λ p. ground (arith, w.0 p)), Within-other c cs l h.1 w.1)

Within-nil : (l : List InstallmentState) → All (Within []) l
unfolding amount_after
Within-nil [] = tt
Within-nil (i ∷ l) = ((λ p. omega arith), Within-nil l)

discount_from-Within :
    (left : ℕ) (l : List InstallmentState)
    → Distinct state_id l
    → All (Within (discount_from left l).0) l
discount_from-Within left [] d = tt
discount_from-Within left (i ∷ rest) d =
    let cut = min left (owed i) in
    let changes = (discount_from (left - cut) rest).0 in
    let c : Change = record { installment_id = i.id; new_amount = i.amount - cut } in
    let ih = discount_from-Within (left - cut) rest d.1 in
    let spared = amount_after-Spares changes i (discount_from-Spares i.id (left - cut) rest d.0) in
    let round = discount_from-round left i rest in
    let result =
      λ (cs : List Change) (e : (discount_from left (i ∷ rest)).0 ≡ cs)
          (p : All (Within cs) (i ∷ rest)).
        subst (λ cs. All (Within cs) (i ∷ rest)) (sym e) p in
    elim (Bool-cases (left == 0)) [
      | inl none_left ↦ result [] (ground (arith, round)) (Within-nil (i ∷ rest))
      | inr some_left ↦ elim (Bool-cases (ltb 0 cut)) [
        | inl cuts ↦ result (c ∷ changes) (ground (arith, round)) (
          (λ p. ground (arith, amount_after_head c changes i)),
          Within-other c changes rest d.0 ih,
        )
        | inr keeps ↦ result changes (ground (arith, round)) ((λ p. ground (arith, spared)), ih)
      ]
    ]

All-reverse_back {κ} :
    (P : InstallmentState → Type κ) (xs : List InstallmentState) → All P (reverse xs) → All P xs
All-reverse_back P [] h = tt
All-reverse_back P (x ∷ xs) h =
    let (front, last) =
      All-append_back P (reverse xs) (x ∷ []) (subst (All P) (reverse-cons x xs) h) in
    (last.0, All-reverse_back P xs front)

-- On instalments with distinct ids, a discount of no more than what is unpaid is applied: together
-- the instalments come to exactly that much less, and none is raised or cut below what was paid.
pub apply_discount_lem :
    (installments : List InstallmentState) (amount : ℕ)
    → Distinct (λ (i : InstallmentState). i.id) installments
    → amount ≤ total_owed installments
    → (changes : List Change) × (apply_discount installments amount ≡ ok changes)
      × (sum_of (amount_after changes) installments + amount
          ≡ sum_of (λ (i : InstallmentState). i.amount) installments)
      × All (Within changes) installments
unfolding apply_discount
apply_discount_lem installments amount d h =
    let sorted = sort_by by_due_date installments in
    let latest = reverse sorted in
    let distinct =
      Distinct-reverse state_id sorted (Distinct-sort_by state_id by_due_date installments d) in
    let regroup = λ (f : InstallmentState → ℕ).
      sum_of-reverse f sorted ∙ sum_of-sort_by by_due_date f installments in
    let changes = (discount_from amount latest).0 in
    let left = discount_from-left amount latest in
    let enough : amount ≤ total_owed latest = omega (arith, regroup owed) in
    (
      changes,
      ground arith,
      omega (
        arith,
        discount_from-total amount latest distinct enough,
        regroup (amount_after changes),
        regroup (λ (i : InstallmentState). i.amount),
      ),
      sort_by-All_back by_due_date (Within changes) installments
          (All-reverse_back (Within changes) sorted (discount_from-Within amount latest distinct)),
    )
