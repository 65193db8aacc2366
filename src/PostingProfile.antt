-- ===== src/PostingProfile.antt =====
-- src/modules/financials/posting-profile.service.ts: which account a role of the posting engine stands
-- for, on the whole property or for one fund.
pub mod Resolve
use waslproperty_backend.Prelude.{
  ℕ, Bool, true, false, ◌&&◌, not, Option, none, some, List, [], ◌∷◌, ◌==◌, if◌then◌else◌, find,
}
use waslproperty_backend.Prelude.Result.{
  not_found, conflict, account, fund, account_inactive, no_posting_account,
}
use waslproperty_backend.Store.{
  Db, Account, Fund, Rule, PostingRole, fund_cash, lot_levy_receivable, levy_income, unapplied_cash,
  accounts_payable, gst_payable, gst_receivable, suspense, opening_balance_equity,
  inter_fund_transfer, profile_updated,
}
use waslproperty_backend.Store.Tx.{Tx, pure, throw, gets, or_throw, throw_if, modify, ◌>>=◌, ◌>>◌}
use waslproperty_backend.Store.Rows.{
  get_owned_property, get_configuration, fresh_id, record_activity,
}

-- The strings of the roles are compared; their numbers here are.
abbrev pub role_code : PostingRole → ℕ
role_code fund_cash = 0
role_code lot_levy_receivable = 1
role_code levy_income = 2
role_code unapplied_cash = 3
role_code accounts_payable = 4
role_code gst_payable = 5
role_code gst_receivable = 6
role_code suspense = 7
role_code opening_balance_equity = 8
role_code inter_fund_transfer = 9

-- `financialFundId: input.financialFundId ?? null`
abbrev pub same_fund : Option ℕ → Option ℕ → Bool
same_fund none none = true
same_fund (some a) (some b) = a == b
same_fund _ _ = false

abbrev pub is_rule_for : ℕ → PostingRole → Option ℕ → Rule → Bool
is_rule_for prop role for_fund r =
    r.property_id == prop
    && role_code r.role == role_code role
    && same_fund r.financial_fund_id for_fund

unfoldable pub find_rule : ℕ → PostingRole → Option ℕ → List Rule → Option Rule
find_rule prop role for_fund = find (is_rule_for prop role for_fund)

-- `postingProfileRule.update({ where: { id }, data: { accountId } })`
unfoldable pub update_rule : ℕ → ℕ → List Rule → List Rule
update_rule id account_id [] = []
update_rule id account_id (r ∷ rs) =
    let rest = update_rule id account_id rs in
    if r.id == id then record r { account_id = account_id } ∷ rest else r ∷ rest

-- The rule for the fund, if a fund is asked for.
unfoldable pub find_specific : ℕ → PostingRole → Option ℕ → List Rule → Option Rule
find_specific prop role none rules = none
find_specific prop role (some for_fund) rules = find_rule prop role (some for_fund) rules

unfoldable pub resolve : ℕ → PostingRole → Option ℕ → Tx ℕ
resolve prop role for_fund = do
  specific ← gets (λ s. find_specific prop role for_fund s.rules)
  general ← gets (λ s. find_rule prop role none s.rules)
  elim specific [
    | some r ↦ pure r.account_id
    | none ↦ elim general [
      | some r ↦ pure r.account_id
      | none ↦ throw (conflict no_posting_account)
    ]
  ]

-- The check of the fund, if the rule is for one.
unfoldable pub check_fund : ℕ → ℕ → Option ℕ → Tx (Unit {0})
check_fund org prop none = pure tt
check_fund org prop (some fund_id) = do
  row ← gets (λ s.
      find (λ f. f.id == fund_id && f.organisation_id == org && f.property_id == prop) s.funds)
  elim row [ some _ ↦ pure tt | none ↦ throw (not_found fund) ]

-- `postingProfileRule.create`
unfoldable pub create_rule : ℕ → ℕ → PostingRole → Option ℕ → ℕ → Tx Rule
create_rule org prop role for_fund account_id = do
  id ← fresh_id
  let row : Rule = record {
    id = id;
    organisation_id = org;
    property_id = prop;
    role = role;
    financial_fund_id = for_fund;
    account_id = account_id;
  }
  modify (λ s. record s { rules = row ∷ s.rules })
  pure row

unfoldable pub upsert : ℕ → ℕ → ℕ → PostingRole → Option ℕ → ℕ → Tx Rule
upsert org actor prop role for_fund account_id = do
  get_owned_property org prop
  get_configuration prop
  row ← gets (λ s.
      find (λ a. a.id == account_id && a.organisation_id == org && a.property_id == prop)
        s.accounts)
  a ← or_throw row (not_found account)
  throw_if (not a.is_active) (conflict account_inactive)
  check_fund org prop for_fund
  existing ← gets (λ s. find_rule prop role for_fund s.rules)
  rule ← elim existing [
    | some r ↦ do
      modify (λ s. record s { rules = update_rule r.id account_id s.rules })
      pure (record r { account_id = account_id })
    | none ↦ create_rule org prop role for_fund account_id
  ]
  record_activity org prop actor profile_updated rule.id
  pure rule
