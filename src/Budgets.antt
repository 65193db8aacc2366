-- ===== src/Budgets.antt =====
-- src/modules/financials/budgets.service.ts: the budgets of a property, one per financial year with its
-- revisions.
pub mod Lines
pub mod Lifecycle
pub mod Chain
pub mod Tables
pub mod Evolve
pub mod Plan
pub mod Activation
pub mod Activated
pub mod Kept
pub mod Superseding
pub mod Drafts
pub mod Revisions
pub mod Activates
pub mod Requests
pub mod Approving
pub mod Reachable
use waslproperty_backend.Prelude.{
  ℕ, zero, suc, ◌+◌, ◌-◌, Bool, true, false, ◌&&◌, ◌||◌, not, Option, none, some, List, [], ◌∷◌,
  ltb, leb, ◌==◌, is_key, if◌then◌else◌, find, filter, length,
}
use waslproperty_backend.Prelude.Result.{
  not_found, validation, conflict, budget, account, setup_not_started, setup_not_active,
  end_not_after_start, year_length, year_overlap, budget_exists, not_draft, account_inactive,
}
use waslproperty_backend.Store.{
  Db, Configuration, Account, Budget, BudgetStatus, budget_draft, budget_approved, budget_active,
  budget_superseded, BudgetSource, financial_budget_created,
}
use waslproperty_backend.Store.Tx.{Tx, pure, throw, gets, or_throw, throw_if, modify, ◌>>=◌, ◌>>◌}
use waslproperty_backend.Store.Rows.{get_owned_property, fresh_id, record_activity}

abbrev pub is_draft : BudgetStatus → Bool
is_draft budget_draft = true
is_draft _ = false

abbrev pub is_approved : BudgetStatus → Bool
is_approved budget_approved = true
is_approved _ = false

abbrev pub is_active : BudgetStatus → Bool
is_active budget_active = true
is_active _ = false

-- `getActiveConfiguration`
unfoldable pub get_active_configuration : ℕ → Tx Configuration
get_active_configuration prop = do
  row ← gets (λ s. find (λ (c : Configuration). c.property_id == prop) s.configurations)
  cf ← or_throw row (conflict setup_not_started)
  throw_if (not cf.is_active) (conflict setup_not_active)
  pure cf

unfoldable pub find_owned_budget : ℕ → ℕ → ℕ → List Budget → Option Budget
find_owned_budget org prop id =
    find (λ b. b.id == id && b.organisation_id == org && b.property_id == prop)

-- `getOwnedBudget`
unfoldable pub get_owned_budget : ℕ → ℕ → ℕ → Tx Budget
get_owned_budget org prop id = do
  row ← gets (λ s. find_owned_budget org prop id s.budgets)
  or_throw row (not_found budget)

-- `assertAccountAssignable`, if an account is given
unfoldable pub check_account : ℕ → ℕ → Option ℕ → Tx (Unit {0})
check_account org prop none = pure tt
check_account org prop (some id) = do
  row ← gets (λ s.
      find (λ (a : Account). a.id == id && a.organisation_id == org && a.property_id == prop)
        s.accounts)
  a ← or_throw row (not_found account)
  throw_if (not a.is_active) (conflict account_inactive)

-- `assertDraft`
abbrev pub assert_draft : Budget → Tx (Unit {0})
assert_draft b = throw_if (not (is_draft b.status)) (conflict not_draft)

-- `FINANCIAL_YEAR_SPAN_TOLERANCE_DAYS`
abbrev pub tolerance_days : ℕ
tolerance_days = 2

-- `Math.abs(a - b)`
abbrev pub distance : ℕ → ℕ → ℕ
distance a b = if leb a b then b - a else a - b

-- The lengths of a year and of the established one, `from` to `to`, are too far apart.
abbrev pub other_length : ℕ → ℕ → Option ℕ → Option ℕ → Bool
other_length start end (some from) (some to) =
    ltb tolerance_days (distance (end + from) (start + to))
other_length start end _ _ = false

-- The loop over the existing periods.
abbrev pub collides : ℕ → ℕ → ℕ → Budget → Bool
collides prop start end b =
    b.property_id == prop
    && not (b.start_date == start && b.end_date == end)
    && ltb start b.end_date
    && ltb b.start_date end

-- `validatePeriod`
unfoldable pub validate_period : ℕ → Configuration → ℕ → ℕ → Tx (Unit {0})
validate_period prop cf start end = do
  throw_if (leb end start) (validation end_not_after_start)
  throw_if (other_length start end cf.financial_year_start_date cf.financial_year_end_date)
      (validation year_length)
  clash ← gets (λ s. find (collides prop start end) s.budgets)
  elim clash [ none ↦ pure tt | some _ ↦ throw (conflict year_overlap) ]

abbrev pub is_year : ℕ → ℕ → ℕ → Budget → Bool
is_year prop start end b = b.property_id == prop && b.start_date == start && b.end_date == end

-- The row of a new budget.
abbrev pub new_budget : ℕ → ℕ → ℕ → ℕ → ℕ → ℕ → ℕ → ℕ → BudgetSource → ℕ → Option ℕ → Budget
new_budget id org actor prop cf start end version source currency revision_of = record {
  id = id;
  organisation_id = org;
  property_id = prop;
  configuration_id = cf;
  start_date = start;
  end_date = end;
  version = version;
  status = budget_draft;
  source = source;
  currency_code = currency;
  external_approval_date = none;
  created_by_user_id = actor;
  approved_by_user_id = none;
  revision_of_budget_id = revision_of;
  lines = [];
}

unfoldable pub create : ℕ → ℕ → ℕ → ℕ → ℕ → BudgetSource → Tx Budget
create org actor prop start end source = do
  get_owned_property org prop
  cf ← get_active_configuration prop
  validate_period prop cf start end
  existing ← gets (λ s. find (is_year prop start end) s.budgets)
  elim existing [ none ↦ pure tt | some _ ↦ throw (conflict budget_exists) ]
  id ← fresh_id
  let row = new_budget id org actor prop cf.id start end 1 source cf.currency_code none
  modify (λ s. record s { budgets = row ∷ s.budgets })
  record_activity org prop actor financial_budget_created id
  pure row

-- `financialBudget.update({ where: { id } })`
unfoldable pub update_budget : ℕ → (Budget → Budget) → List Budget → List Budget
update_budget id f [] = []
update_budget id f (b ∷ bs) =
    let rest = update_budget id f bs in if b.id == id then f b ∷ rest else b ∷ rest

unfoldable pub write_budget : ℕ → (Budget → Budget) → Tx (Unit {0})
write_budget id f = modify (λ s. record s { budgets = update_budget id f s.budgets })
