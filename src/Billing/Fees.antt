-- ===== src/Billing/Fees.antt =====
-- `FeesService` (billing/application/fees.service.ts): what courses cost, and how an invoice is split
-- into instalments. The tables are fee_structures and payment_plans of packages/db/src/schema/billing.ts.
pub mod Resolving
pub mod Plans
pub mod Defaulting
mod Tests
use text.Mathlib.Text.{◌==◌ as str_eq}
use emis.Base.{
  ℕ, ◌+◌, String, Bool, true, false, not, ◌&&◌, ◌||◌, Option, none, some, List, [], ◌∷◌, ◌++◌, Tx,
  ◌>>=◌, ◌>>◌, pure, throw_if, throw_unless, gets, modify, on_part, ok, err, ltb, leb, ◌==◌,
  if◌then◌else◌, any, select, sum_of, sort_by, check_violation, fee_structure_not_found,
  fee_structure_exists, invalid_list_value,
}
use emis.Versioning.{Versioned, update_versioned}
use emis.Billing.Flow.{PlanInstallment}
use emis.Billing.Tables.{AuditEntry}
use emis.Billing.Invoices.{Actor}

pub record FeeComponent : Type 0 where
  pub name : String
  pub amount : ℕ

pub record FeeRow : Type 0 where
  pub id : ℕ
  pub name : String
  pub course_id : ℕ
  pub category_code : Option String
  pub effective_from : ℕ
  pub currency : String
  pub components : List FeeComponent
  pub total : ℕ
  pub is_active : Bool
  pub updated_by : ℕ
  pub version : ℕ

pub record PlanRow : Type 0 where
  pub id : ℕ
  pub name : String
  pub installments : List PlanInstallment
  pub is_default : Bool
  pub is_active : Bool
  pub updated_by : ℕ
  pub version : ℕ

pub record Tariff : Type 0 where
  pub fees : List FeeRow
  pub plans : List PlanRow
  pub audit : List AuditEntry

abbrev pub log : String → String → ℕ → Tx Tariff (Unit {0})
log action entity_type id = modify (λ s. record s {
  audit = s.audit ++ record { action = action; entity_type = entity_type; entity_id = id } ∷ [];
})

abbrev pub code_eq : Option String → Option String → Bool
code_eq none none = true
code_eq none (some d) = false
code_eq (some c) none = false
code_eq (some c) (some d) = str_eq c d

-- fee_structures_course_category_from_key, where null is a value like others
abbrev pub same_offer : FeeRow → FeeRow → Bool
same_offer a b =
    (a.course_id == b.course_id)
    && code_eq a.category_code b.category_code
    && (a.effective_from == b.effective_from)

pub record CreateFeeStructure : Type 0 where
  pub name : String
  pub course_id : ℕ
  pub category_code : Option String
  pub effective_from : ℕ
  pub components : List FeeComponent

-- What other services answer: whether the course is there, whether the list of student categories
-- holds a code that is in use, and the institution's currency.
pub record Offices : Type 0 where
  pub has_course : ℕ → Bool
  pub is_active_category : String → Bool
  pub currency : String

-- `assertActiveCode`
abbrev pub accepts : (String → Bool) → Option String → Bool
accepts is_active none = true
accepts is_active (some code) = is_active code

abbrev pub new_structure : Offices → ℕ → CreateFeeStructure → Actor → FeeRow
new_structure offices id input actor = record {
  id = id;
  name = input.name;
  course_id = input.course_id;
  category_code = input.category_code;
  effective_from = input.effective_from;
  currency = offices.currency;
  components = input.components;
  total = sum_of (λ (c : FeeComponent). c.amount) input.components;
  is_active = true;
  updated_by = actor.user_id;
  version = 1;
}

-- `createStructure`; the id is the one that the database generates.
unfoldable pub create_structure : Offices → ℕ → CreateFeeStructure → Actor → Tx Tariff FeeRow
create_structure offices id input actor = do
  throw_unless (offices.has_course input.course_id) fee_structure_not_found
  throw_unless (accepts offices.is_active_category input.category_code) invalid_list_value
  let row = new_structure offices id input actor
  throw_unless (ltb 0 row.total) check_violation
  taken ← gets (λ (s : Tariff). any (λ (f : FeeRow). (f.id == id) || same_offer f row) s.fees)
  throw_if taken fee_structure_exists
  modify (λ s. record s { fees = s.fees ++ row ∷ [] })
  log "fee_structure.created" "fee_structure" id
  pure row

abbrev pub fees_table : Versioned FeeRow
fees_table = record {
  id = λ r. r.id;
  version = λ r. r.version;
  bump = λ r. record r { version = r.version + 1 };
}

abbrev pub or_keep {ℓ} : {A : Type ℓ} → Option A → A → A
or_keep none before = before
or_keep (some a) before = a

pub record UpdateFeeStructure : Type 0 where
  pub name : Option String
  pub is_active : Option Bool

abbrev pub on_fees : {A : Type 0} → Tx (List FeeRow) A → Tx Tariff A
on_fees m s = elim (m s.fees) [ ok (a, fees) ↦ ok (a, record s { fees = fees }) | err e ↦ err e ]

-- `updateStructure`
unfoldable pub update_structure : ℕ → UpdateFeeStructure → ℕ → Actor → Tx Tariff FeeRow
update_structure id input expected_version actor = do
  row ← on_fees (
      update_versioned fees_table id expected_version
        (λ (r : FeeRow). record r {
          name = or_keep input.name r.name;
          is_active = or_keep input.is_active r.is_active;
          updated_by = actor.user_id;
        })
        fee_structure_not_found)
  log "fee_structure.updated" "fee_structure" id
  pure row

-- The condition on the category: a code that is empty counts as none.
abbrev pub fits_category : Option String → Option String → Bool
fits_category code none = true
fits_category none (some c) = false
fits_category (some code) (some c) = not (str_eq code "") && str_eq c code

abbrev pub applies : ℕ → Option String → ℕ → FeeRow → Bool
applies course_id category_code as_of f =
    (f.course_id == course_id)
    && f.is_active
    && leb f.effective_from as_of
    && fits_category category_code f.category_code

-- `Number(categoryCode !== null)`
abbrev pub is_special_price : Option String → ℕ
is_special_price none = 0
is_special_price (some code) = 1

-- The comparison of `resolve` puts a before b, or holds them equal.
abbrev pub preferred : FeeRow → FeeRow → Bool
preferred a b =
    ltb (is_special_price b.category_code) (is_special_price a.category_code)
    || ((is_special_price a.category_code == is_special_price b.category_code)
        && leb b.effective_from a.effective_from)

abbrev pub head {ℓ} : {A : Type ℓ} → List A → Option A
head [] = none
head (x ∷ xs) = some x

unfoldable pub resolve : ℕ → Option String → ℕ → List FeeRow → Option FeeRow
unfolding sort_by
resolve course_id category_code as_of fees =
    head (sort_by preferred (select (applies course_id category_code as_of) fees))
