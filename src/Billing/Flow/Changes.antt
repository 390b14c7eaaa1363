-- ===== src/Billing/Flow/Changes.antt =====
-- Which instalments the changes of a discount are for, and what one after the other they write.
use mathlib.Core.List.{reverse}
use emis.Base.{
  ℕ, ◌-◌, ◌≡◌, refl, sym, subst, List, [], ◌∷◌, ok, arith, sort_by, min, ◌==◌, if◌then◌else◌,
  Bool-cases, inl, inr, Distinct, Lacks, Lacks-reverse, Lacks-sort_by, Distinct-sort_by,
  Distinct-reverse,
}
use emis.Billing.Flow.{InstallmentState, owed, by_due_date, Change, discount_from, apply_discount}
use emis.Billing.Flow.Discounting.{state_id, Spares, discount_from-Spares, amount_after}

abbrev pub change_id : Change → ℕ
change_id c = c.installment_id

-- What the instalment with this id comes to when the changes are written in order.
abbrev pub written : List Change → ℕ → ℕ → ℕ
written [] id amount = amount
written (c ∷ changes) id amount =
    written changes id (if id == c.installment_id then c.new_amount else amount)

pub written-Spares :
    (changes : List Change) (id amount : ℕ) → Spares id changes → written changes id amount ≡ amount
written-Spares [] id amount h = refl
written-Spares (c ∷ changes) id amount h = ground (arith, written-Spares changes id amount h.1)

-- With one change for an instalment at most, the order of writing does not matter.
pub written-amount_after :
    (changes : List Change) (i : InstallmentState)
    → Distinct change_id changes
    → written changes i.id i.amount ≡ amount_after changes i
unfolding amount_after
written-amount_after [] i d = refl
written-amount_after (c ∷ changes) i d = elim (Bool-cases (i.id == c.installment_id)) [
  | inl t ↦
      let e : c.installment_id ≡ i.id = ground arith in
      let spared : Spares i.id changes = subst (λ (k : ℕ). Spares k changes) e d.0 in
      ground (arith, written-Spares changes i.id c.new_amount spared)
  | inr t ↦ ground (arith, written-amount_after changes i d.1)
]

discount_from-Distinct :
    (left : ℕ) (l : List InstallmentState)
    → Distinct state_id l
    → Distinct change_id (discount_from left l).0
unfolding discount_from
discount_from-Distinct left [] d = tt
discount_from-Distinct left (i ∷ rest) d =
    let spared = discount_from-Spares i.id (left - min left (owed i)) rest d.0 in
    let later = discount_from-Distinct (left - min left (owed i)) rest d.1 in
    ground (arith, spared, later)

-- The changes of a discount that is not refused.
pub apply_discount-changes :
    (installments : List InstallmentState) (amount : ℕ) (changes : List Change)
    → apply_discount installments amount ≡ ok changes
    → changes ≡ (discount_from amount (reverse (sort_by by_due_date installments))).0
unfolding apply_discount
apply_discount-changes installments amount changes h = ground arith

pub apply_discount-Distinct :
    (installments : List InstallmentState) (amount : ℕ) (changes : List Change)
    → Distinct state_id installments
    → apply_discount installments amount ≡ ok changes
    → Distinct change_id changes
apply_discount-Distinct installments amount changes d h =
    subst (Distinct change_id) (sym (apply_discount-changes installments amount changes h)) (
      discount_from-Distinct amount (reverse (sort_by by_due_date installments))
        (Distinct-reverse state_id _ (Distinct-sort_by state_id by_due_date installments d)))

pub apply_discount-Spares :
    (k : ℕ) (installments : List InstallmentState) (amount : ℕ) (changes : List Change)
    → Lacks state_id k installments
    → apply_discount installments amount ≡ ok changes
    → Spares k changes
apply_discount-Spares k installments amount changes n h =
    subst (Spares k) (sym (apply_discount-changes installments amount changes h)) (
      discount_from-Spares k amount (reverse (sort_by by_due_date installments))
        (Lacks-reverse state_id k _ (Lacks-sort_by state_id by_due_date k installments n)))
