-- ===== src/Billing/Ledger/Discounts.antt =====
-- What an approved discount comes to: the invoice's total lowered by its amount, and sound books.
use emis.Base.{
  ℕ, ◌-◌, ◌≡◌, refl, sym, subst, ap, ◌∙◌, false, some, List, [], ◌∷◌, ◌++◌, map, Result, ok, err,
  Tx, ◌>>=◌, ◌>>◌, >>=-eq-ok, throw_if, throw_if-ok, or_throw-ok, arith, ltb, leb, find_row,
  update_where, All, invoice_not_found, invoice_closed, discount_too_small, discount_too_large,
}
use emis.Settings.Numbering.{from_result}
use emis.Billing.Flow.{Change, apply_discount, discount_amount}
use emis.Billing.Flow.Changes.{written}
use emis.Billing.Tables.{InvoiceRow, InstallmentRow, DiscountRow, Books, record_audit, with_id}
use emis.Billing.Invoices.{
  Actor, Discount, lock, is_closed, is_invoice, on_installments, settle, cut_rows, update_rows,
  apply_discount_to,
}
use emis.Billing.Invoices.Rows.{IsWithin, then_rows-ok, update_rows-ok, cut_rows-IsWithin}
use emis.Billing.Ledger.Others.{IsSettling, settle-IsSettling}
use emis.Billing.Ledger.Recording.{installed-ok}
use emis.Billing.Ledger.Spreading.{states}

abbrev pub recut : List Change → InstallmentRow → InstallmentRow
recut changes r = record r { amount = written changes r.id r.amount }

map-recut :
    (c : Change) (changes : List Change) (rows : List InstallmentRow)
    → map (recut changes) (
        update_where
          (with_id c.installment_id)
          (λ (r : InstallmentRow). record r { amount = c.new_amount })
          rows)
      ≡ map (recut (c ∷ changes)) rows
map-recut c changes [] = refl
map-recut c changes (r ∷ rows) = ground (arith, map-recut c changes rows)

map-recut_nil : (rows : List InstallmentRow) → map (recut []) rows ≡ rows
map-recut_nil [] = refl
map-recut_nil (r ∷ rows) = ap (λ l. r ∷ l) (map-recut_nil rows)

-- The loop that writes the changes gives every instalment its new amount.
cut_rows-recut :
    (changes : List Change) (rows rows' : List InstallmentRow)
    → cut_rows changes rows ≡ ok rows'
    → rows' ≡ map (recut changes) rows
unfolding cut_rows
cut_rows-recut [] rows rows' h =
    let same : rows ≡ rows' = ground arith in sym same ∙ sym (map-recut_nil rows)
cut_rows-recut (c ∷ changes) rows rows' h =
    let fits = λ (r : InstallmentRow). leb r.paid_amount c.new_amount in
    let f = λ (r : InstallmentRow). record r { amount = c.new_amount } in
    let (mid, updated, rest) =
      then_rows-ok (update_rows c.installment_id fits f rows) (cut_rows changes) h in
    let (fit, is_mid) = update_rows-ok c.installment_id fits f rows mid updated in
    cut_rows-recut changes mid rows' rest
    ∙ (ap (map (recut changes)) is_mid ∙ map-recut c changes rows)

-- The books before `settle`.
abbrev pub cut_books : List Change → DiscountRow → Books → Books
cut_books changes row s = record s {
  installments = map (recut changes) s.installments;
  discounts = s.discounts ++ row ∷ [];
}

-- The amount that the discount takes off the invoice.
abbrev pub amount_on : Discount → InvoiceRow → ℕ
amount_on discount invoice = discount_amount discount.kind discount.value invoice.total

-- What a successful discount did, step by step.
pub record IsDiscounted (k : ℕ) (discount : Discount) (actor : Actor) (s s' : Books) : Type 0 where
  pub invoice : InvoiceRow
  pub found : find_row (is_invoice k) s.invoices ≡ some invoice
  pub open_for : is_closed invoice.status ≡ false
  pub large_enough : ltb (amount_on discount invoice) 1 ≡ false
  pub small_enough : ltb (invoice.total - invoice.paid_total) (amount_on discount invoice) ≡ false
  pub changes : List Change
  pub cut : apply_discount (states k s.installments) (amount_on discount invoice) ≡ ok changes
  pub within : All IsWithin s.installments → All IsWithin (map (recut changes) s.installments)
  pub row : DiscountRow
  pub settled : Books
  pub settling : IsSettling k actor (cut_books changes row s) settled
  pub result : record_audit "invoice.discount_applied" "invoice" k settled ≡ ok (tt, s')

pub from_result-ok :
    {S A B : Type 0} (x : Result A) (k : A → Tx S B) (s : S) {r : B × S}
    → (from_result x >>= k) s ≡ ok r
    → (a : A) × (x ≡ ok a) × (k a s ≡ ok r)
from_result-ok (ok a) k s h = (a, refl, h)
from_result-ok (err e) k s h = cc

pub apply_discount_to-IsDiscounted :
    (k : ℕ) (discount : Discount) (actor : Actor) (s s' : Books)
    → apply_discount_to k discount actor s ≡ ok (tt, s')
    → IsDiscounted k discount actor s s'
unfolding apply_discount_to lock
apply_discount_to-IsDiscounted k discount actor s s' h =
    let log = record_audit "invoice.discount_applied" "invoice" k in
    let close = settle k actor >> log in
    let row = λ (amount : ℕ).
      let r : DiscountRow = record {
        invoice_id = k;
        kind = discount.kind;
        value = discount.value;
        amount = amount;
        reason_code = discount.reason_code;
        approval_id = discount.approval_id;
      } in
      r in
    let store =
      λ (amount : ℕ) (t : Books). close (record t { discounts = t.discounts ++ row amount ∷ [] }) in
    let write =
      λ (amount : ℕ) (changes : List Change). on_installments (cut_rows changes) >> store amount in
    let cut = λ (amount : ℕ).
      from_result (apply_discount (states k s.installments) amount) >>= write amount in
    let not_large = λ (invoice : InvoiceRow).
      throw_if (ltb (invoice.total - invoice.paid_total) (amount_on discount invoice))
        discount_too_large
      >> cut (amount_on discount invoice) in
    let not_small = λ (invoice : InvoiceRow).
      throw_if (ltb (amount_on discount invoice) 1) discount_too_small >> not_large invoice in
    let go = λ (invoice : InvoiceRow) (t : Books).
      (throw_if (is_closed invoice.status) invoice_closed >> (λ (t : Books).
          (throw_if (ltb (amount_on discount invoice) 1) discount_too_small
              >> (throw_if (ltb (invoice.total - invoice.paid_total) (amount_on discount invoice))
                    discount_too_large
                  >> (from_result
                        (apply_discount (states k t.installments) (amount_on discount invoice))
                      >>= write (amount_on discount invoice))))
            t))
        t in
    let (invoice, found, h1) =
      or_throw-ok (find_row (is_invoice k) s.invoices) invoice_not_found go s h in
    let amount = amount_on discount invoice in
    let (open_for, h2) = throw_if-ok (is_closed invoice.status) invoice_closed _ s h1 in
    let (large_enough, h3) =
      throw_if-ok (ltb amount 1) discount_too_small (not_large invoice) s h2 in
    let (small_enough, h4) =
      throw_if-ok (ltb (invoice.total - invoice.paid_total) amount) discount_too_large (cut amount)
        s h3 in
    let (changes, is_cut, h5) =
      from_result-ok (apply_discount (states k s.installments) amount) (write amount) s h4 in
    let (rows, got_rows, h6) = installed-ok (cut_rows changes) (store amount) s h5 in
    let is_rows = cut_rows-recut changes s.installments rows got_rows in
    let cut_off = cut_books changes (row amount) s in
    let (u, settled, h7, h8) =
      >>=-eq-ok (settle k actor) (λ _. log) (record cut_off { installments = rows }) h6 in
    record {
      invoice = invoice;
      found = found;
      open_for = open_for;
      large_enough = large_enough;
      small_enough = small_enough;
      changes = changes;
      cut = is_cut;
      within = λ w.
          subst (All IsWithin) is_rows (cut_rows-IsWithin changes s.installments rows got_rows w);
      row = row amount;
      settled = settled;
      settling = settle-IsSettling k actor cut_off settled (
          subst (λ rows. settle k actor (record cut_off { installments = rows }) ≡ ok (tt, settled))
            is_rows h7);
      result = h8;
    }
