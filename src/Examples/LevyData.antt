-- ===== src/Examples/LevyData.antt =====
-- The data of the tests of src/modules/financials/levies.service.ts: a property with two lots, whose levy is
-- drafted from a budget, approved, issued and adjusted.
use waslproperty_backend.Prelude.{ℕ, ◌*◌, true, none, some, List, [], ◌∷◌}
use waslproperty_backend.Prelude.Int.{pos, negsuc}
use waslproperty_backend.Prelude.Result.{Result, ok, err}
use waslproperty_backend.Store.{
  Db, Space, Budget, budget_active, created, revenue, expenditure, lot_levy_receivable, levy_income,
}
use waslproperty_backend.Store.Money.{per_cent}
use waslproperty_backend.Store.Tx.{after}
use waslproperty_backend.Levies.Schedules.{InstallmentInput, approve, create_regular}
use waslproperty_backend.Levies.Issue.{issue}
use waslproperty_backend.Levies.Corrections.{create_adjustment}
use waslproperty_backend.Examples.Data.{rounding, db}
use waslproperty_backend.Examples.Levy.{milli}
use waslproperty_backend.Examples.Receipting.{uuid, rule}

abbrev pub space : ℕ → ℕ → Space
space id units = record {
  id = id;
  organisation_id = 1;
  property_id = 1;
  is_lot = true;
  entitlement_value = some (pos units);
}

abbrev pub budget : Budget
budget = record {
  id = 80;
  organisation_id = 1;
  property_id = 1;
  configuration_id = 1;
  start_date = 0;
  end_date = 365;
  version = 1;
  status = budget_active;
  source = created;
  currency_code = 0;
  external_approval_date = none;
  created_by_user_id = 5;
  approved_by_user_id = some 5;
  revision_of_budget_id = none;
  lines =
      record {
        id = 81;
        financial_fund_id = 20;
        line_type = revenue;
        planned_amount = 10_001;
        sort_order = 0;
        account_id = some 11;
      }
      ∷ record {
        id = 82;
        financial_fund_id = 20;
        line_type = expenditure;
        planned_amount = 9_000;
        sort_order = 1;
        account_id = none;
      }
      ∷ [];
}

abbrev pub db_planned : Db
db_planned = record db {
  spaces = space 40 100 ∷ space 41 200 ∷ [];
  rules = rule 62 lot_levy_receivable none 12 ∷ rule 63 levy_income none 11 ∷ [];
  budgets = budget ∷ [];
}

abbrev pub installments : List InstallmentInput
installments =
    record { due_date = 200; amount = 5_000 * per_cent }
    ∷ record { due_date = 300; amount = 5_001 * per_cent }
    ∷ []

-- What a successful request returned.
abbrev pub returned : {A : Type 0} → A → Result (A × Db) → A
returned d (ok (a, s)) = a
returned d (err e) = d

abbrev pub db_drafted : Db
db_drafted = after db_planned (create_regular rounding 1 5 1 20 80 installments db_planned)

abbrev pub db_approved : Db
db_approved = after db_drafted (approve 1 5 1 100 db_drafted)

abbrev pub db_issued : Db
db_issued = after db_approved (issue milli rounding 210 1 5 1 100 (some 101) db_approved)

abbrev pub db_adjusted : Db
db_adjusted =
    after db_issued
      (create_adjustment rounding 211 uuid 1 5 1 103 (negsuc 99_999_999) (some 7) db_issued)
