-- ===== src/Billing/Fees/Tests.antt =====
-- Creating and retiring payment plans.
use emis.Base.{◌≡◌, refl, true, false, none, some, [], ◌∷◌, Result, ok, err, code_taken}
use emis.Versioning.{update_versioned}
use emis.Billing.Shares.{whole}
use emis.Billing.Invoices.{Actor}
use emis.Billing.Fees.{PlanRow, Tariff}
use emis.Billing.Fees.Plans.{
  default_plan, CreatePlan, new_plan, create_plan, UpdatePlan, update_plan,
}
use emis.Billing.Fees.Defaulting.{create_plan-default}

abbrev owner : Actor
owner = record { user_id = 3 }

abbrev all_at_once : CreatePlan
all_at_once = record {
  name = "At once";
  installments = record { share_bp = whole; due_offset_days = 0 } ∷ [];
  is_default = true;
}

abbrev later : CreatePlan
later = record {
  name = "Later";
  installments = record { share_bp = whole; due_offset_days = 30 } ∷ [];
  is_default = true;
}

abbrev nothing : Tariff
nothing = record { fees = []; plans = []; audit = [] }

abbrev after : Result (PlanRow × Tariff) → Tariff
after (ok (_, s)) = s
after (err e) = nothing

abbrev one : Tariff
one = after (create_plan 1 all_at_once owner nothing)

abbrev two : Tariff
two = after (create_plan 2 later owner one)

second : create_plan 2 later owner one ≡ ok (new_plan 2 later owner, two)
unfolding create_plan
second = refl

same_name : create_plan 3 later owner two ≡ err code_taken
unfolding create_plan
same_name = refl

-- A retired plan that is made the default is no default plan for an invoice.
abbrev retire : UpdatePlan
retire = record { name = none; is_default = none; is_active = some false }

abbrev make_default : UpdatePlan
make_default = record { name = none; is_default = some true; is_active = none }

abbrev retired : Tariff
retired = after (update_plan 2 retire 1 owner two)

abbrev revived : Tariff
revived = after (update_plan 2 make_default 2 owner retired)

revive :
    update_plan 2 make_default 2 owner retired
    ≡ ok (record (new_plan 2 later owner) { is_active = false; version = 3 }, revived)
unfolding create_plan update_plan update_versioned
revive = refl

retired_default : default_plan revived.plans ≡ none
unfolding default_plan create_plan update_plan update_versioned
retired_default = refl

create_plan-default_example : default_plan two.plans ≡ some (new_plan 2 later owner)
create_plan-default_example =
    create_plan-default 2 later owner one two (new_plan 2 later owner) second
