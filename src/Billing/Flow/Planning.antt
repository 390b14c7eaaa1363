-- ===== src/Billing/Flow/Planning.antt =====
-- The instalments of a new invoice.
use emis.Base.{ℕ, ◌+◌, ◌≡◌, refl, List, [], ◌∷◌, map, arith, sum_of, length, ok}
use emis.Billing.Shares.{whole, sum}
use emis.Billing.Shares.Laws.{split_by_basis_points_lem, length-map}
use emis.Billing.Flow.{PlanInstallment, NewInstallment, number_installments, build_installments}

-- The instalments follow the plan from number i on: each is numbered one more than its place and
-- is due the plan's offset after the date of issue.
abbrev pub Follows : ℕ → ℕ → List NewInstallment → List PlanInstallment → Type 0
Follows issue_date i [] [] = Unit
Follows issue_date i (n ∷ ns) (p ∷ plan) =
    (n.sequence ≡ i + 1)
    × (n.due_date ≡ issue_date + p.due_offset_days)
    × Follows issue_date (i + 1) ns plan
Follows issue_date i _ _ = ⊥

number_installments_lem :
    (i : ℕ) (plan : List PlanInstallment) (amounts : List ℕ) (issue_date : ℕ)
    → length amounts ≡ length plan
    → (sum_of (λ (n : NewInstallment). n.amount) (number_installments i plan amounts issue_date)
        ≡ sum amounts)
      × Follows issue_date i (number_installments i plan amounts issue_date) plan
unfolding number_installments
number_installments_lem i [] [] d h = (refl, tt)
number_installments_lem i [] (a ∷ more) d h = absurd (omega arith)
number_installments_lem i (p ∷ plan) [] d h = absurd (omega arith)
number_installments_lem i (p ∷ plan) (a ∷ amounts) d h =
    let (s, f) = number_installments_lem (i + 1) plan amounts d (omega arith) in
    (omega arith, (refl, refl, f))

-- A plan whose shares make up a whole gives instalments: one for each line of the plan, numbered
-- from 1, due as the plan says, whose amounts add up to exactly the total.
pub build_installments_lem :
    (total : ℕ) (plan : List PlanInstallment) (issue_date : ℕ)
    → sum (map (λ (p : PlanInstallment). p.share_bp) plan) ≡ whole
    → (parts : List NewInstallment) × (build_installments total plan issue_date ≡ ok parts)
      × (sum_of (λ (n : NewInstallment). n.amount) parts ≡ total)
      × Follows issue_date 0 parts plan
unfolding build_installments
build_installments_lem total plan issue_date h =
    let (amounts, split, adds, len, _) =
      split_by_basis_points_lem total (map (λ (p : PlanInstallment). p.share_bp) plan) h in
    let (s, f) =
      number_installments_lem 0 plan amounts issue_date
        (omega (arith, length-map (λ (p : PlanInstallment). p.share_bp) plan)) in
    (number_installments 0 plan amounts issue_date, rw (split, build_installments), omega arith, f)
