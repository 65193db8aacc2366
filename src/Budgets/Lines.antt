-- ===== src/Budgets/Lines.antt =====
-- The edits of a draft in src/modules/financials/budgets.service.ts. A budget holds its lines; what each
-- request returns is the budget as it is then.
use waslproperty_backend.Prelude.{
  ℕ, ◌+◌, ◌&&◌, not, Option, none, some, List, [], ◌∷◌, ◌++◌, ltb, ◌==◌, if◌then◌else◌, find,
  filter,
}
use waslproperty_backend.Prelude.Result.{not_found, fund as fund_row, budget_line}
use waslproperty_backend.Store.{Fund, Budget, BudgetLine, LineType}
use waslproperty_backend.Store.Money.{Numeric}
use waslproperty_backend.Store.Tx.{Tx, pure, gets, or_throw, ◌>>=◌, ◌>>◌}
use waslproperty_backend.Store.Rows.{get_owned_property, fresh_id}
use waslproperty_backend.Posting.{or_default}
use waslproperty_backend.Budgets.{get_owned_budget, check_account, assert_draft, write_budget}

-- `addBudgetLineSchema`, the planned amount in units of 1/`per_cent` of a cent
pub record NewLine : Type 0 where
  pub financial_fund_id : ℕ
  pub line_type : LineType
  pub planned_amount : ℕ
  pub account_id : Option ℕ

-- `updateBudgetLineSchema`: `some none` clears the account
pub record LineEdit : Type 0 where
  pub line_type : Option LineType
  pub planned_amount : Option ℕ
  pub sort_order : Option ℕ
  pub account_id : Option (Option ℕ)

-- `maxSortOrder + 1`
unfoldable pub next_sort_order : List BudgetLine → ℕ
next_sort_order [] = 0
next_sort_order (l ∷ ls) =
    let rest = next_sort_order ls in if ltb l.sort_order rest then rest else l.sort_order + 1

abbrev pub set_lines : (List BudgetLine → List BudgetLine) → Budget → Budget
set_lines g b = record b { lines = g b.lines }

unfoldable pub update_line : ℕ → (BudgetLine → BudgetLine) → List BudgetLine → List BudgetLine
update_line id f [] = []
update_line id f (l ∷ ls) =
    let rest = update_line id f ls in if l.id == id then f l ∷ rest else l ∷ rest

unfoldable pub delete_from : ℕ → List BudgetLine → List BudgetLine
delete_from id = filter (λ (l : BudgetLine). not (l.id == id))

-- `updateMetadata`: the notes are text.
unfoldable pub update_metadata : ℕ → ℕ → ℕ → Tx Budget
update_metadata org prop budget_id = do
  get_owned_property org prop
  b ← get_owned_budget org prop budget_id
  assert_draft b
  pure b

unfoldable pub delete_line : ℕ → ℕ → ℕ → ℕ → Tx Budget
delete_line org prop budget_id line_id = do
  get_owned_property org prop
  b ← get_owned_budget org prop budget_id
  assert_draft b
  or_throw (find (λ (l : BudgetLine). l.id == line_id) b.lines) (not_found budget_line)
  write_budget b.id (set_lines (delete_from line_id))
  get_owned_budget org prop budget_id

module _ (num : Numeric) where
  unfoldable pub add_line : ℕ → ℕ → ℕ → NewLine → Tx Budget
  add_line org prop budget_id input = do
    get_owned_property org prop
    b ← get_owned_budget org prop budget_id
    assert_draft b
    row ← gets (λ s.
        find
          (λ (f : Fund).
            f.id == input.financial_fund_id
            && f.organisation_id == org
            && f.property_id == prop
            && f.configuration_id == b.configuration_id)
          s.funds)
    or_throw row (not_found fund_row)
    check_account org prop input.account_id
    id ← fresh_id
    let line : BudgetLine = record {
      id = id;
      financial_fund_id = input.financial_fund_id;
      line_type = input.line_type;
      planned_amount = num.to_cents input.planned_amount;
      sort_order = next_sort_order b.lines;
      account_id = input.account_id;
    }
    write_budget b.id (set_lines (λ ls. ls ++ line ∷ []))
    get_owned_budget org prop budget_id

  -- The columns of an edit; `undefined` leaves one as it is.
  abbrev pub edit_line : LineEdit → BudgetLine → BudgetLine
  edit_line e l = record l {
    line_type = elim e.line_type [ none ↦ l.line_type | some t ↦ t ];
    planned_amount = elim e.planned_amount [ none ↦ l.planned_amount | some a ↦ num.to_cents a ];
    sort_order = or_default e.sort_order l.sort_order;
    account_id = elim e.account_id [ none ↦ l.account_id | some a ↦ a ];
  }

  abbrev pub assigned : LineEdit → Option ℕ
  assigned e = elim e.account_id [ none ↦ none | some a ↦ a ]

  unfoldable pub edit : ℕ → ℕ → ℕ → ℕ → LineEdit → Tx Budget
  edit org prop budget_id line_id e = do
    get_owned_property org prop
    b ← get_owned_budget org prop budget_id
    assert_draft b
    or_throw (find (λ (l : BudgetLine). l.id == line_id) b.lines) (not_found budget_line)
    check_account org prop (assigned e)
    write_budget b.id (set_lines (update_line line_id (edit_line e)))
    get_owned_budget org prop budget_id
