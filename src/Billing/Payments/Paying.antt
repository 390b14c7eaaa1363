-- ===== src/Billing/Payments/Paying.antt =====
-- What the loops of a payment and of a refund do to each instalment.
use emis.Base.{
  ℕ, ◌+◌, ◌-◌, ◌≡◌, refl, sym, subst, ap, ◌∙◌, ◌&&◌, List, [], ◌∷◌, map, ok, arith, update_where,
  All, ◌==◌, if◌then◌else◌, leb,
}
use emis.Billing.Flow.{Allocation}
use emis.Billing.Tables.{InstallmentRow, AllocationRow, with_id}
use emis.Billing.Invoices.{update_rows}
use emis.Billing.Invoices.Rows.{IsWithin, then_rows-ok, update_rows-ok, update_where-All}
use emis.Billing.Payments.{pay_rows, refund_rows}

-- What a payment's allocations give to the instalment k.
abbrev pub given : ℕ → List Allocation → ℕ
given k [] = 0
given k (a ∷ allocations) = (if a.installment_id == k then a.amount else 0) + given k allocations

abbrev pub given_rows : ℕ → List AllocationRow → ℕ
given_rows k [] = 0
given_rows k (a ∷ allocations) =
    (if a.installment_id == k then a.amount else 0) + given_rows k allocations

abbrev pub raise : List Allocation → InstallmentRow → InstallmentRow
raise allocations r = record r { paid_amount = r.paid_amount + given r.id allocations }

abbrev pub lower : List AllocationRow → InstallmentRow → InstallmentRow
lower allocations r = record r { paid_amount = r.paid_amount - given_rows r.id allocations }

map-raise :
    (a : Allocation) (allocations : List Allocation) (rows : List InstallmentRow)
    → map (raise allocations) (
        update_where
          (with_id a.installment_id)
          (λ (r : InstallmentRow). record r { paid_amount = r.paid_amount + a.amount })
          rows)
      ≡ map (raise (a ∷ allocations)) rows
map-raise a allocations [] = refl
map-raise a allocations (r ∷ rows) = ground (arith, map-raise a allocations rows)

map-raise_nil : (rows : List InstallmentRow) → map (raise []) rows ≡ rows
map-raise_nil [] = refl
map-raise_nil (r ∷ rows) = ground (arith, map-raise_nil rows)

-- When the loop goes through, every instalment is raised by what the allocations give it, and none
-- is paid beyond its amount.
pub pay_rows_lem :
    (allocations : List Allocation) (rows rows' : List InstallmentRow)
    → pay_rows allocations rows ≡ ok rows'
    → (rows' ≡ map (raise allocations) rows) × (All IsWithin rows → All IsWithin rows')
unfolding pay_rows
pay_rows_lem [] rows rows' h =
    let same : rows ≡ rows' = ground arith in
    (sym same ∙ sym (map-raise_nil rows), λ w. subst (All IsWithin) same w)
pay_rows_lem (a ∷ allocations) rows rows' h =
    let fits = λ (r : InstallmentRow). leb (r.paid_amount + a.amount) r.amount in
    let f = λ (r : InstallmentRow). record r { paid_amount = r.paid_amount + a.amount } in
    let (mid, updated, rest) =
      then_rows-ok (update_rows a.installment_id fits f rows) (pay_rows allocations) h in
    let (fit, is_mid) = update_rows-ok a.installment_id fits f rows mid updated in
    let (is_end, keeps) = pay_rows_lem allocations mid rows' rest in
    (
      is_end ∙ (ap (map (raise allocations)) is_mid ∙ map-raise a allocations rows),
      λ w. keeps (
          subst (All IsWithin) (sym is_mid)
            (update_where-All a.installment_id fits f IsWithin (λ r p t. ground arith) rows fit w)),
    )

map-lower :
    (a : AllocationRow) (allocations : List AllocationRow) (rows : List InstallmentRow)
    → map (lower allocations) (
        update_where
          (with_id a.installment_id)
          (λ (r : InstallmentRow). record r { paid_amount = r.paid_amount - a.amount })
          rows)
      ≡ map (lower (a ∷ allocations)) rows
map-lower a allocations [] = refl
map-lower a allocations (r ∷ rows) = ground (arith, map-lower a allocations rows)

map-lower_nil : (rows : List InstallmentRow) → map (lower []) rows ≡ rows
map-lower_nil [] = refl
map-lower_nil (r ∷ rows) = ground (arith, map-lower_nil rows)

-- The refund loop lowers every instalment by what the allocations had given it.
pub refund_rows_lem :
    (allocations : List AllocationRow) (rows rows' : List InstallmentRow)
    → refund_rows allocations rows ≡ ok rows'
    → (rows' ≡ map (lower allocations) rows) × (All IsWithin rows → All IsWithin rows')
unfolding refund_rows
refund_rows_lem [] rows rows' h =
    let same : rows ≡ rows' = ground arith in
    (sym same ∙ sym (map-lower_nil rows), λ w. subst (All IsWithin) same w)
refund_rows_lem (a ∷ allocations) rows rows' h =
    let fits = λ (r : InstallmentRow).
      leb a.amount r.paid_amount && leb (r.paid_amount - a.amount) r.amount in
    let f = λ (r : InstallmentRow). record r { paid_amount = r.paid_amount - a.amount } in
    let (mid, updated, rest) =
      then_rows-ok (update_rows a.installment_id fits f rows) (refund_rows allocations) h in
    let (fit, is_mid) = update_rows-ok a.installment_id fits f rows mid updated in
    let (is_end, keeps) = refund_rows_lem allocations mid rows' rest in
    (
      is_end ∙ (ap (map (lower allocations)) is_mid ∙ map-lower a allocations rows),
      λ w. keeps (
          subst (All IsWithin) (sym is_mid)
            (update_where-All a.installment_id fits f IsWithin (λ r p t. ground arith) rows fit w)),
    )
