-- ===== src/Billing/Ledger/Others.antt =====
-- What touches the instalments of one invoice leaves the other invoices settled.
use emis.Base.{
  ℕ, ◌≡◌, ◌≢◌, ◌⊎◌, refl, sym, subst, ◌∙◌, true, List, [], ◌∷◌, map, ok, arith, update_where, All,
  Bool-cases, inl, inr, ==_iff, find_row, find_row-holds, Option-cases, some,
}
use emis.Billing.Flow.{void, InvoiceStatus, issued, partially_paid, paid, invoice_status_for}
use emis.Billing.Tables.{InvoiceRow, InstallmentRow, Books, installment_of, invoice_checks}
use emis.Billing.Invoices.{
  Actor, is_invoice, lock, keep_void, parts_of, settled_row, settle, amounts, paid_amounts,
}
use emis.Billing.Invoices.Rows.{amounts_of, paid_of, amounts-parts_of, paid_amounts-parts_of}
use emis.Billing.Ledger.{IsSettled, IsSound, IsSoundBut}

-- A change of the rows that keeps them on their invoices, and touches only the invoice k.
module _ (k : ℕ) (g : InstallmentRow → InstallmentRow)
    (same_invoice : (r : InstallmentRow) → (g r).invoice_id ≡ r.invoice_id) where
  abbrev pub Keeps : InstallmentRow → Type 0
  Keeps r = r.invoice_id ≢ k → ((g r).amount ≡ r.amount) × ((g r).paid_amount ≡ r.paid_amount)

  sums_elsewhere :
      (j : ℕ) (rows : List InstallmentRow)
      → j ≢ k
      → All Keeps rows
      → (amounts_of j (map g rows) ≡ amounts_of j rows) × (paid_of j (map g rows) ≡ paid_of j rows)
  sums_elsewhere j [] n h = (refl, refl)
  sums_elsewhere j (r ∷ rows) n h = elim (Bool-cases (installment_of j r)) [
    | inl t ↦
        let keep = h.0 (ground arith) in ground (arith, sums_elsewhere j rows n h.1, same_invoice r)
    | inr t ↦ ground (arith, sums_elsewhere j rows n h.1, same_invoice r)
  ]

  pub IsSettled-elsewhere :
      (i : InvoiceRow) (rows : List InstallmentRow)
      → All Keeps rows
      → i.id ≢ k
      → IsSettled rows i
      → IsSettled (map g rows) i
  IsSettled-elsewhere i rows h n s =
      let (a, p) = sums_elsewhere i.id rows n h in
      record { total = s.total ∙ sym a; paid_total = s.paid_total ∙ sym p; status = s.status }

keep_void-cases :
    (before computed : InvoiceStatus)
    → (keep_void before computed ≡ void) ⊎ (keep_void before computed ≡ computed)
keep_void-cases void c = inl refl
keep_void-cases issued c = inr refl
keep_void-cases partially_paid c = inr refl
keep_void-cases paid c = inr refl

invoice_status_for-ap :
    (a b c d : ℕ) → a ≡ b → c ≡ d → invoice_status_for a c ≡ invoice_status_for b d
invoice_status_for-ap a b c d p q = cc

-- The row that `settle` writes is settled.
settled_row-IsSettled :
    (before : InvoiceRow) (rows : List InstallmentRow) (actor : Actor)
    → IsSettled rows (settled_row before (parts_of before.id rows) actor)
unfolding settled_row
settled_row-IsSettled before rows actor =
    let parts = parts_of before.id rows in
    record {
      total = amounts-parts_of before.id rows;
      paid_total = paid_amounts-parts_of before.id rows;
      status =
          keep_void-cases before.status (invoice_status_for (amounts parts) (paid_amounts parts));
    }

-- What a successful `settle` did: it wrote the row that it computed, which meets the checks.
pub record IsSettling (k : ℕ) (actor : Actor) (s s' : Books) : Type 0 where
  pub before : InvoiceRow
  pub found : find_row (is_invoice k) s.invoices ≡ some before
  pub same_id : before.id ≡ k
  pub checked : invoice_checks (settled_row before (parts_of k s.installments) actor) ≡ true
  pub result : s' ≡ record s {
    invoices =
        update_where
          (is_invoice k)
          (λ _. settled_row before (parts_of k s.installments) actor)
          s.invoices;
  }

pub settle-IsSettling :
    (k : ℕ) (actor : Actor) (s s' : Books)
    → settle k actor s ≡ ok (tt, s')
    → IsSettling k actor s s'
unfolding settle lock
settle-IsSettling k actor s s' h = elim (Option-cases (find_row (is_invoice k) s.invoices)) [
  | inl gone ↦ absurd (ground arith)
  | inr (before, found) ↦
      elim (Bool-cases (invoice_checks (settled_row before (parts_of k s.installments) actor))) [
        | inr bad ↦ absurd (ground arith)
        | inl checked ↦ record {
          before = before;
          found = found;
          same_id = (==_iff before.id k).0 (find_row-holds (is_invoice k) s.invoices found);
          checked = checked;
          result = ground arith;
        }
      ]
]

update_where-IsSettled :
    (rows : List InstallmentRow) (k : ℕ) (row : InvoiceRow) (invoices : List InvoiceRow)
    → IsSettled rows row
    → All (λ (i : InvoiceRow). i.id ≢ k → IsSettled rows i) invoices
    → All (IsSettled rows) (update_where (is_invoice k) (λ _. row) invoices)
update_where-IsSettled rows k row [] h o = tt
update_where-IsSettled rows k row (i ∷ invoices) h o = elim (Bool-cases (is_invoice k i)) [
  | inl t ↦ rw t (h, update_where-IsSettled rows k row invoices h o.1)
  | inr t ↦ rw t (o.0 (λ e. ground arith), update_where-IsSettled rows k row invoices h o.1)
]

-- After `settle` on the invoice k the books are sound, if they were but for that invoice.
pub settle-IsSound :
    (k : ℕ) (actor : Actor) (s s' : Books) → IsSettling k actor s s' → IsSoundBut k s → IsSound s'
settle-IsSound k actor s s' w sound =
    let row = settled_row w.before (parts_of k s.installments) actor in
    let settled : IsSettled s.installments row =
      subst
        (λ (j : ℕ).
          IsSettled s.installments (settled_row w.before (parts_of j s.installments) actor))
        w.same_id (settled_row-IsSettled w.before s.installments actor) in
    let after : Books = record s { invoices = update_where (is_invoice k) (λ _. row) s.invoices } in
    let good : IsSound after = record {
      distinct = sound.distinct;
      within = sound.within;
      settled = update_where-IsSettled s.installments k row s.invoices settled sound.settled;
      ledger = sound.ledger;
      linked = sound.linked;
      owned = sound.owned;
      spread = sound.spread;
    } in
    subst IsSound (sym w.result) good
