-- ===== src/Billing/Flow/Tests.antt =====
-- The flow of money on two instalments, and the theorems applied to it.
use emis.Base.{
  ℕ, ◌+◌, ◌-◌, ◌<◌, ◌≡◌, ◌↔◌, refl, List, [], ◌∷◌, ok, err, arith, map, sum_of, length, sort_by,
  All, discount_error,
}
use emis.Billing.Shares.{part_of, sum, split_by_basis_points}
use emis.Billing.Shares.Laws.{AtLeast, split_by_basis_points_lem}
use emis.Billing.Flow.{
  InstallmentState, by_due_date, PlanInstallment, NewInstallment, build_installments,
  allocate_payment, Change, apply_discount,
}
use emis.Billing.Flow.Allocating.{
  allocated, total_owed, waterfall, allocate_payment_sum, allocate_payment-waterfall,
}
use emis.Billing.Flow.Discounting.{
  amount_after, Within, apply_discount-error_iff, apply_discount_lem,
}
use emis.Billing.Flow.Planning.{Follows, build_installments_lem}

abbrev late : InstallmentState
late = record { id = 12; sequence = 2; due_date = 130; amount = 400; paid_amount = 0 }

abbrev early : InstallmentState
early = record { id = 11; sequence = 1; due_date = 100; amount = 600; paid_amount = 150 }

abbrev both : List InstallmentState
both = late ∷ early ∷ []

-- The one that is due first is paid first, whatever the order of the list.
earliest_first : allocate_payment both 500 ≡ (
  record { installment_id = 11; amount = 450 } ∷ record { installment_id = 12; amount = 50 } ∷ [],
  0,
)
unfolding allocate_payment
earliest_first = refl

-- A discount is taken off the one that is due last, then off what is unpaid of the other.
latest_first :
    apply_discount both 500
    ≡ ok (
        record { installment_id = 12; new_amount = 0 }
        ∷ record { installment_id = 11; new_amount = 500 }
        ∷ [])
unfolding apply_discount
latest_first = refl

allocate_payment_sum_example :
    let (allocations, remainder) = allocate_payment both 1000 in
    (allocated allocations + remainder ≡ 1000) × (remainder ≡ 1000 - total_owed both)
allocate_payment_sum_example = allocate_payment_sum both 1000

allocate_payment-waterfall_example :
    (allocate_payment both 500).0 ≡ waterfall 500 0 (sort_by by_due_date both)
allocate_payment-waterfall_example = allocate_payment-waterfall both 500

apply_discount-error_iff_example :
    (apply_discount both 900 ≡ err discount_error) ↔ (total_owed both < 900)
apply_discount-error_iff_example = apply_discount-error_iff both 900

apply_discount_lem_example :
    (changes : List Change) × (apply_discount both 500 ≡ ok changes)
    × (sum_of (amount_after changes) both + 500 ≡ 1000)
    × All (Within changes) both
apply_discount_lem_example =
    apply_discount_lem both 500 (((λ e. omega arith), tt), (tt, tt)) (omega arith)

abbrev thirds : List ℕ
thirds = 3333 ∷ 3333 ∷ 3334 ∷ []

split_by_basis_points_lem_example :
    (parts : List ℕ) × (split_by_basis_points 100 thirds ≡ ok parts)
    × (sum parts ≡ 100)
    × (length parts ≡ 3)
    × AtLeast parts (map (part_of 100) thirds)
split_by_basis_points_lem_example = split_by_basis_points_lem 100 thirds refl

abbrev halves : List PlanInstallment
halves =
    record { share_bp = 5000; due_offset_days = 0 }
    ∷ record { share_bp = 5000; due_offset_days = 30 }
    ∷ []

build_installments_lem_example :
    (parts : List NewInstallment) × (build_installments 1001 halves 100 ≡ ok parts)
    × (sum_of (λ (n : NewInstallment). n.amount) parts ≡ 1001)
    × Follows 100 0 parts halves
build_installments_lem_example = build_installments_lem 1001 halves 100 refl
