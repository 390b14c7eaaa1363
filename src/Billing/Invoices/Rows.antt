-- ===== src/Billing/Invoices/Rows.antt =====
-- What a loop of single-row updates does to the instalments as a whole.
use emis.Base.{
  ℕ, ◌≤◌, ◌≡◌, refl, sym, subst, Bool, true, List, [], ◌∷◌, Result, ok, err, arith, all, select,
  update_where, All, Bool-cases, inl, inr, leb, sum_of-sort_by,
}
use emis.Billing.Flow.{Change}
use emis.Billing.Tables.{InstallmentRow, with_id, installment_of}
use emis.Billing.Invoices.{update_rows, then_rows, cut_rows, parts_of, amounts, paid_amounts}

-- No instalment is paid beyond its amount.
abbrev pub IsWithin : InstallmentRow → Type 0
IsWithin r = r.paid_amount ≤ r.amount

pub then_rows-ok :
    (r : Result (List InstallmentRow)) (f : List InstallmentRow → Result (List InstallmentRow))
    {rows : List InstallmentRow}
    → then_rows r f ≡ ok rows
    → (mid : List InstallmentRow) × (r ≡ ok mid) × (f mid ≡ ok rows)
then_rows-ok (ok mid) f h = (mid, refl, h)
then_rows-ok (err e) f h = cc

module _ (id : ℕ) (fits : InstallmentRow → Bool) (f : InstallmentRow → InstallmentRow) where
  pub update_rows-ok :
      (rows rows' : List InstallmentRow)
      → update_rows id fits f rows ≡ ok rows'
      → (all fits (select (with_id id) rows) ≡ true) × (rows' ≡ update_where (with_id id) f rows)
  unfolding update_rows
  update_rows-ok rows rows' h = elim (Bool-cases (all fits (select (with_id id) rows))) [
    | inl t ↦ (t, ground arith)
    | inr t ↦ absurd (ground arith)
  ]

  pub update_where-All {κ} :
      (P : InstallmentRow → Type κ)
      → ((r : InstallmentRow) → P r → fits r ≡ true → P (f r))
      → (rows : List InstallmentRow) → all fits (select (with_id id) rows) ≡ true
      → All P rows
      → All P (update_where (with_id id) f rows)
  update_where-All P keep [] h p = tt
  update_where-All P keep (r ∷ rows) h p = elim (Bool-cases (with_id id r)) [
    | inl t ↦ rw t (keep r p.0 (ground arith), update_where-All P keep rows (ground arith) p.1)
    | inr t ↦ rw t (p.0, update_where-All P keep rows (ground arith) p.1)
  ]

-- The sums over the instalments of an invoice.
abbrev pub amounts_of : ℕ → List InstallmentRow → ℕ
amounts_of invoice_id rows = amounts (select (installment_of invoice_id) rows)

abbrev pub paid_of : ℕ → List InstallmentRow → ℕ
paid_of invoice_id rows = paid_amounts (select (installment_of invoice_id) rows)

pub amounts-parts_of :
    (k : ℕ) (rows : List InstallmentRow) → amounts (parts_of k rows) ≡ amounts_of k rows
unfolding parts_of
amounts-parts_of k rows =
    sum_of-sort_by _ (λ (p : InstallmentRow). p.amount) (select (installment_of k) rows)

pub paid_amounts-parts_of :
    (k : ℕ) (rows : List InstallmentRow) → paid_amounts (parts_of k rows) ≡ paid_of k rows
unfolding parts_of
paid_amounts-parts_of k rows =
    sum_of-sort_by _ (λ (p : InstallmentRow). p.paid_amount) (select (installment_of k) rows)

pub cut_rows-IsWithin :
    (changes : List Change) (rows rows' : List InstallmentRow)
    → cut_rows changes rows ≡ ok rows'
    → All IsWithin rows
    → All IsWithin rows'
unfolding cut_rows
cut_rows-IsWithin [] rows rows' h w =
    let same : rows ≡ rows' = ground arith in subst (All IsWithin) same w
cut_rows-IsWithin (c ∷ changes) rows rows' h w =
    let fits = λ (r : InstallmentRow). leb r.paid_amount c.new_amount in
    let f = λ (r : InstallmentRow). record r { amount = c.new_amount } in
    let (mid, updated, rest) =
      then_rows-ok (update_rows c.installment_id fits f rows) (cut_rows changes) h in
    let (fit, is_mid) = update_rows-ok c.installment_id fits f rows mid updated in
    cut_rows-IsWithin changes mid rows' rest (
      subst (All IsWithin) (sym is_mid)
        (update_where-All c.installment_id fits f IsWithin (λ r p t. ground arith) rows fit w))
