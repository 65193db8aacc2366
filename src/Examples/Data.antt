-- ===== src/Examples/Data.antt =====
-- The data of the tests: a property with two funds, three accounts and two accounting periods.
use waslproperty_backend.Prelude.{ℕ, ◌+◌, ◌/◌, true, none, some, [], ◌∷◌, arith}
use waslproperty_backend.Store.{Db, Account, asset, Fund, Period, opened, closed}
use waslproperty_backend.Store.Money.{per_cent, Numeric}

-- Half a cent is rounded up.
abbrev pub rounding : Numeric
rounding = record {
  to_cents = λ x. (x + 500_000) / per_cent;
  exact = λ c. omega arith;
  mono = λ a b h. omega arith;
}

abbrev pub account : ℕ → Account
account id = record {
  id = id;
  organisation_id = 1;
  property_id = 1;
  code = id;
  classification = asset;
  is_active = true;
}

abbrev pub fund : ℕ → Fund
fund id = record {
  id = id;
  organisation_id = 1;
  property_id = 1;
  configuration_id = 1;
  currency_code = 0;
}

abbrev pub first_half : Period
first_half = record {
  id = 30;
  organisation_id = 1;
  property_id = 1;
  configuration_id = 1;
  start_date = 0;
  end_date = 180;
  status = closed;
  closed_by_user_id = some 1;
  reopened_by_user_id = none;
}

abbrev pub second_half : Period
second_half = record first_half {
  id = 31;
  start_date = 181;
  end_date = 365;
  status = opened;
  closed_by_user_id = none;
}

abbrev pub db : Db
db = record {
  properties = record { id = 1; organisation_id = 1 } ∷ [];
  configurations =
      record {
        id = 1;
        property_id = 1;
        currency_code = 0;
        is_active = true;
        financial_year_start_date = some 0;
        financial_year_end_date = some 365;
      }
      ∷ [];
  accounts = account 12 ∷ account 11 ∷ account 10 ∷ [];
  funds = fund 21 ∷ fund 20 ∷ [];
  spaces = [];
  periods = second_half ∷ first_half ∷ [];
  rules = [];
  journals = [];
  charges = [];
  adjustments = [];
  receipts = [];
  allocations = [];
  schedules = [];
  budgets = [];
  activities = [];
  next_id = 100;
}
