-- ===== src/Billing/Fees/Plans.antt =====
-- Payment plans: `findPlan`, `defaultPlan`, `createPlan` and `updatePlan` of `FeesService`.
use text.Mathlib.Text.{◌==◌ as str_eq}
use emis.Base.{
  ℕ, ◌+◌, String, Bool, true, false, ◌&&◌, ◌||◌, Option, none, some, List, [], ◌∷◌, ◌++◌, ok, err,
  Tx, ◌>>=◌, ◌>>◌, pure, throw_if, gets, modify, ◌==◌, if◌then◌else◌, any, find_row, update_where,
  code_taken, payment_plan_not_found,
}
use emis.Versioning.{Versioned, update_versioned}
use emis.Billing.Flow.{PlanInstallment}
use emis.Billing.Invoices.{Actor}
use emis.Billing.Fees.{PlanRow, Tariff, log, or_keep}

abbrev pub is_plan : ℕ → PlanRow → Bool
is_plan id p = p.id == id

unfoldable pub find_plan : ℕ → List PlanRow → Option PlanRow
find_plan id plans = find_row (is_plan id) plans

unfoldable pub default_plan : List PlanRow → Option PlanRow
default_plan plans = find_row (λ (p : PlanRow). p.is_default && p.is_active) plans

abbrev pub cleared : PlanRow → PlanRow
cleared p = record p { is_default = false }

unfoldable pub clear_default : List PlanRow → List PlanRow
clear_default plans = update_where (λ (p : PlanRow). p.is_default) cleared plans

-- payment_plans_name_key and payment_plans_one_default_key
abbrev pub clashes : PlanRow → PlanRow → Bool
clashes p q = (p.id == q.id) || str_eq p.name q.name || (p.is_default && q.is_default)

pub record CreatePlan : Type 0 where
  pub name : String
  pub installments : List PlanInstallment
  pub is_default : Bool

abbrev pub new_plan : ℕ → CreatePlan → Actor → PlanRow
new_plan id input actor = record {
  id = id;
  name = input.name;
  installments = input.installments;
  is_default = input.is_default;
  is_active = true;
  updated_by = actor.user_id;
  version = 1;
}

abbrev pub clear_if : Bool → List PlanRow → List PlanRow
clear_if flag plans = if flag then clear_default plans else plans

-- `createPlan`
unfoldable pub create_plan : ℕ → CreatePlan → Actor → Tx Tariff PlanRow
unfolding clear_default
create_plan id input actor = do
  modify (λ (s : Tariff). record s { plans = clear_if input.is_default s.plans })
  let row = new_plan id input actor
  taken ← gets (λ (s : Tariff). any (clashes row) s.plans)
  throw_if taken code_taken
  modify (λ s. record s { plans = s.plans ++ row ∷ [] })
  log "payment_plan.created" "payment_plan" id
  pure row

pub record UpdatePlan : Type 0 where
  pub name : Option String
  pub is_default : Option Bool
  pub is_active : Option Bool

abbrev pub is_yes : Option Bool → Bool
is_yes none = false
is_yes (some b) = b

-- `input.isActive === false ? { isDefault: false } : {}`
abbrev pub default_after : UpdatePlan → Bool → Bool
default_after input before = elim input.is_active [
  | none ↦ or_keep input.is_default before
  | some active ↦ if active then or_keep input.is_default before else false
]

abbrev pub plans_table : Versioned PlanRow
plans_table = record {
  id = λ r. r.id;
  version = λ r. r.version;
  bump = λ r. record r { version = r.version + 1 };
}

abbrev pub changed_plan : UpdatePlan → Actor → PlanRow → PlanRow
changed_plan input actor r = record r {
  name = or_keep input.name r.name;
  is_default = default_after input r.is_default;
  is_active = or_keep input.is_active r.is_active;
  updated_by = actor.user_id;
}

-- The unique indexes, on the row that was written and the others.
abbrev pub clashes_elsewhere : PlanRow → List PlanRow → Bool
clashes_elsewhere row plans =
    any
      (λ (q : PlanRow).
        if is_plan row.id q
        then false
        else str_eq row.name q.name || (row.is_default && q.is_default))
      plans

abbrev pub on_plans : {A : Type 0} → Tx (List PlanRow) A → Tx Tariff A
on_plans m s = elim (m s.plans) [
  | ok (a, plans) ↦ ok (a, record s { plans = plans })
  | err e ↦ err e
]

-- `updatePlan`
unfoldable pub update_plan : ℕ → UpdatePlan → ℕ → Actor → Tx Tariff PlanRow
unfolding clear_default
update_plan id input expected_version actor = do
  modify (λ (s : Tariff). record s { plans = clear_if (is_yes input.is_default) s.plans })
  row ← on_plans (
      update_versioned plans_table id expected_version (changed_plan input actor)
        payment_plan_not_found)
  taken ← gets (λ (s : Tariff). clashes_elsewhere row s.plans)
  throw_if taken code_taken
  log "payment_plan.updated" "payment_plan" id
  pure row
