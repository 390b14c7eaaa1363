-- ===== src/Billing/Invoicing/Building.antt =====
-- What the writes of a new invoice did, once they went through.
use emis.Base.{
  ℕ, ◌≡◌, refl, sym, subst, ◌∙◌, false, List, [], ◌∷◌, ◌++◌, map, Result, ok, err, arith, any, All,
  Lacks, Distinct, Distinct-snoc, Bool-cases, inl, inr, ==_iff, ◌==◌, sum_of,
}
use mathlib.Core.List.{append-nil, append_assoc}
use emis.Billing.Shares.{whole, sum, split_by_basis_points}
use emis.Billing.Flow.{PlanInstallment, NewInstallment, build_installments}
use emis.Billing.Flow.Planning.{build_installments_lem}
use emis.Billing.Tables.{InstallmentRow}
use emis.Billing.Invoicing.{same_place, insert_installments}

shares-whole :
    (total : ℕ) (bps : List ℕ) (parts : List ℕ)
    → split_by_basis_points total bps ≡ ok parts
    → sum bps ≡ whole
unfolding split_by_basis_points
shares-whole total [] parts h = cc
shares-whole total (bp ∷ bps) parts h = elim (Bool-cases (sum (bp ∷ bps) == whole)) [
  | inl t ↦ (==_iff (sum (bp ∷ bps)) whole).0 t
  | inr t ↦ absurd (ground arith)
]

-- Instalments that are built add up to the total.
pub build_installments-sum :
    (total : ℕ) (plan : List PlanInstallment) (day : ℕ) (parts : List NewInstallment)
    → build_installments total plan day ≡ ok parts
    → sum_of (λ (n : NewInstallment). n.amount) parts ≡ total
build_installments-sum total plan day parts h =
    let shares = map (λ (p : PlanInstallment). p.share_bp) plan in
    let is_whole : sum shares ≡ whole = go (split_by_basis_points total shares) refl in
    let (parts', built, adds, _) = build_installments_lem total plan day is_whole in
    let same : parts' ≡ parts = cc in
    subst (λ (l : List NewInstallment). sum_of (λ (n : NewInstallment). n.amount) l ≡ total) same
      adds
  where
    go :
        (r : Result (List ℕ))
        → split_by_basis_points total (map (λ (p : PlanInstallment). p.share_bp) plan) ≡ r
        → sum (map (λ (p : PlanInstallment). p.share_bp) plan) ≡ whole
    go (ok amounts) e =
        shares-whole total (map (λ (p : PlanInstallment). p.share_bp) plan) amounts e
    go (err x) e = absurd (unfold build_installments in ground arith)

same_place-Lacks :
    (new : InstallmentRow) (rows : List InstallmentRow)
    → any (same_place new) rows ≡ false
    → Lacks (λ (r : InstallmentRow). r.id) new.id rows
same_place-Lacks new [] h = tt
same_place-Lacks new (r ∷ rows) h = ((λ e. ground arith), same_place-Lacks new rows (ground arith))

Lacks-front :
    (k : ℕ) (xs ys : List InstallmentRow)
    → Lacks (λ (r : InstallmentRow). r.id) k (xs ++ ys)
    → Lacks (λ (r : InstallmentRow). r.id) k xs
Lacks-front k [] ys h = tt
Lacks-front k (x ∷ xs) ys h = (h.0, Lacks-front k xs ys h.1)

-- New rows go behind the old ones, with ids of their own.
pub insert_installments_lem :
    (new rows rows' : List InstallmentRow)
    → insert_installments new rows ≡ ok rows'
    → (rows' ≡ rows ++ new)
      × (Distinct (λ (r : InstallmentRow). r.id) rows
          → Distinct (λ (r : InstallmentRow). r.id) rows')
      × All (λ (n : InstallmentRow). Lacks (λ (r : InstallmentRow). r.id) n.id rows) new
unfolding insert_installments
insert_installments_lem [] rows rows' h =
    let same : rows ≡ rows' = ground arith in
    (sym same ∙ sym (append-nil rows), subst (Distinct (λ (r : InstallmentRow). r.id)) same, tt)
insert_installments_lem (n ∷ new) rows rows' h = elim (Bool-cases (any (same_place n) rows)) [
  | inl t ↦ absurd (ground arith)
  | inr t ↦
      let lacks = same_place-Lacks n rows t in
      let (is_end, keeps, fresh) =
        insert_installments_lem new (rows ++ n ∷ []) rows' (ground arith) in
      (
        is_end ∙ append_assoc rows (n ∷ []) new,
        (λ d. keeps (Distinct-snoc (λ (r : InstallmentRow). r.id) rows n d lacks)),
        (lacks, fronts rows n new fresh),
      )
]
  where
    fronts :
        (rows : List InstallmentRow) (n : InstallmentRow) (l : List InstallmentRow)
        → All (λ (m : InstallmentRow). Lacks (λ (r : InstallmentRow). r.id) m.id (rows ++ n ∷ [])) l
        → All (λ (m : InstallmentRow). Lacks (λ (r : InstallmentRow). r.id) m.id rows) l
    fronts rows n [] h' = tt
    fronts rows n (m ∷ l) h' = (Lacks-front m.id rows (n ∷ []) h'.0, fronts rows n l h'.1)
