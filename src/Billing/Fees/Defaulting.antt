-- ===== src/Billing/Fees/Defaulting.antt =====
-- Which plan is the default one after a plan is created.
use emis.Base.{
  ℕ, ◌≡◌, refl, ap, ◌∙◌, Bool, true, false, ◌&&◌, none, some, List, [], ◌∷◌, ◌++◌, ok, Tx, ◌>>◌,
  pure, throw_if-ok, modify, arith, if◌then◌else◌, any, Bool-cases, inl, inr, code_taken,
}
use emis.Billing.Invoices.{Actor}
use emis.Billing.Fees.{PlanRow, Tariff, log}
use emis.Billing.Fees.Plans.{
  default_plan, clear_default, clashes, CreatePlan, new_plan, clear_if, create_plan,
}

abbrev counts : PlanRow → Bool
counts p = p.is_default && p.is_active

-- No plan is the default after the default is cleared.
cleared-none : (plans : List PlanRow) → default_plan (clear_default plans) ≡ none
unfolding default_plan clear_default
cleared-none [] = refl
cleared-none (p ∷ plans) = ground (arith, cleared-none plans)

default_plan-snoc :
    (plans : List PlanRow) (p : PlanRow)
    → default_plan plans ≡ none
    → counts p ≡ true
    → default_plan (plans ++ p ∷ []) ≡ some p
unfolding default_plan
default_plan-snoc [] p h c = ground arith
default_plan-snoc (q ∷ plans) p h c = ground (arith, default_plan-snoc plans p)

default_plan-keep :
    (plans : List PlanRow) (p : PlanRow)
    → counts p ≡ false
    → default_plan (plans ++ p ∷ []) ≡ default_plan plans
unfolding default_plan
default_plan-keep [] p c = ground arith
default_plan-keep (q ∷ plans) p c = ground (arith, default_plan-keep plans p c)

-- Once a plan is created, it is the default one if it was asked to be; if not, the default plan is
-- the one that it was before.
pub create_plan-default :
    (id : ℕ) (input : CreatePlan) (actor : Actor) (s s' : Tariff) (row : PlanRow)
    → create_plan id input actor s ≡ ok (row, s')
    → default_plan s'.plans ≡ (if input.is_default then some row else default_plan s.plans)
unfolding create_plan
create_plan-default id input actor s s' row h =
    let new = new_plan id input actor in
    let plans = clear_if input.is_default s.plans in
    let store : Tx Tariff PlanRow =
      modify (λ (t : Tariff). record t { plans = t.plans ++ new ∷ [] })
      >> (log "payment_plan.created" "payment_plan" id >> pure new) in
    let (free, stored) =
      throw_if-ok (any (clashes new) plans) code_taken store (record s { plans = plans }) h in
    let is_row : new ≡ row = ground arith in
    let is_plans : s'.plans ≡ plans ++ new ∷ [] = ground arith in
    elim (Bool-cases input.is_default) [
      | inl t ↦
          let e : plans ≡ clear_default s.plans = rw t refl in
          rw t (
            ap default_plan (is_plans ∙ ap (λ l. l ++ new ∷ []) e)
            ∙ default_plan-snoc (clear_default s.plans) new (cleared-none s.plans) (rw t refl)
            ∙ ap some is_row)
      | inr t ↦
          let e : plans ≡ s.plans = rw t refl in
          rw t (
            ap default_plan (is_plans ∙ ap (λ l. l ++ new ∷ []) e)
            ∙ default_plan-keep s.plans new (rw t refl))
    ]
