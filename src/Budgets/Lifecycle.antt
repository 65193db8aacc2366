-- ===== src/Budgets/Lifecycle.antt =====
-- `approve`, `activate` and `createRevision` in src/modules/financials/budgets.service.ts.
use waslproperty_backend.Prelude.{
  ℕ, zero, suc, ◌+◌, Bool, true, false, ◌&&◌, ◌||◌, not, Option, none, some, List, [], ◌∷◌, ltb,
  ◌==◌, if◌then◌else◌, find, length,
}
use waslproperty_backend.Prelude.Result.{
  not_found, validation, conflict, budget, loop_limit, empty_budget, approval_required,
  approval_not_allowed, approval_in_future, not_draft, not_approved, not_revisable,
}
use waslproperty_backend.Store.{
  Configuration, Budget, budget_draft, budget_approved, budget_active, budget_superseded,
  BudgetLine, BudgetSource, created, imported, financial_budget_approved,
  financial_budget_import_recorded, financial_budget_activated, financial_budget_revised,
}
use waslproperty_backend.Store.Tx.{Tx, pure, throw, gets, or_throw, throw_if, modify, ◌>>=◌, ◌>>◌}
use waslproperty_backend.Store.Rows.{get_owned_property, record_activity}
use waslproperty_backend.Budgets.{
  is_draft, is_approved, is_active, get_owned_budget, is_year, new_budget, update_budget,
  write_budget,
}

abbrev pub is_some : Option ℕ → Bool
is_some none = false
is_some (some _) = true

abbrev pub is_imported : BudgetSource → Bool
is_imported created = false
is_imported imported = true

-- The checks of the approval of the scheme itself, in `approve`. A reference is text; here it is a number.
unfoldable pub check_external : ℕ → BudgetSource → Option ℕ → Option ℕ → Tx (Unit {0})
check_external today source date reference = do
  throw_if (is_imported source && not (is_some date)) (validation approval_required)
  throw_if (not (is_imported source) && (is_some date || is_some reference))
      (validation approval_not_allowed)
  elim date [ none ↦ pure tt | some d ↦ throw_if (ltb today d) (validation approval_in_future) ]

abbrev pub mark_approved : ℕ → Option ℕ → Budget → Budget
mark_approved actor date b = record b {
  status = budget_approved;
  approved_by_user_id = some actor;
  external_approval_date = date;
}

unfoldable pub approve : ℕ → ℕ → ℕ → ℕ → ℕ → Option ℕ → Option ℕ → Tx Budget
approve today org actor prop budget_id date reference = do
  get_owned_property org prop
  b ← get_owned_budget org prop budget_id
  throw_if (not (is_draft b.status)) (conflict not_draft)
  throw_if (length b.lines == 0) (validation empty_budget)
  check_external today b.source date reference
  write_budget b.id (mark_approved actor date)
  record_activity org prop actor
      (if is_imported b.source then financial_budget_import_recorded else financial_budget_approved)
      b.id
  pure (mark_approved actor date b)

abbrev pub supersede : Budget → Budget
supersede b = record b { status = budget_superseded }

abbrev pub activated : Budget → Budget
activated b = record b { status = budget_active }

-- The condition of `currentlyActive`.
abbrev pub is_current_beside : Budget → Budget → Bool
is_current_beside b c =
    is_year b.property_id b.start_date b.end_date c && is_active c.status && not (c.id == b.id)

-- `currentlyActive`, which is superseded if there is one
unfoldable pub supersede_current : Budget → Tx (Unit {0})
supersede_current b = do
  current ← gets (λ s. find (is_current_beside b) s.budgets)
  elim current [ none ↦ pure tt | some c ↦ write_budget c.id supersede ]

-- The loop over the ancestors, with fuel; `none` means that the fuel ran out.
unfoldable pub supersede_chain : ℕ → Option ℕ → List Budget → Option (List Budget)
supersede_chain zero ancestor bs = none
supersede_chain (suc n) none bs = some bs
supersede_chain (suc n) (some id) bs = elim (find (λ (b : Budget). b.id == id) bs) [
  | none ↦ some bs
  | some a ↦
      let rest = supersede_chain n a.revision_of_budget_id (update_budget a.id supersede bs) in
      if is_approved a.status then rest else some bs
]

unfoldable pub supersede_ancestors : Budget → Tx (Unit {0})
supersede_ancestors b = do
  rest ← gets (λ s. supersede_chain (length s.budgets + 1) b.revision_of_budget_id s.budgets)
  bs ← or_throw rest loop_limit
  modify (λ s. record s { budgets = bs })

-- The part of `activate` for an approved budget.
unfoldable pub activate_approved : ℕ → ℕ → ℕ → Budget → Tx Budget
activate_approved org actor prop b = do
  supersede_current b
  supersede_ancestors b
  write_budget b.id activated
  record_activity org prop actor financial_budget_activated b.id
  pure (activated b)

unfoldable pub activate_by_status : ℕ → ℕ → ℕ → Budget → Tx Budget
activate_by_status org actor prop b = elim b.status [
  | budget_active ↦ pure b
  | budget_approved ↦ activate_approved org actor prop b
  | budget_draft ↦ throw (conflict not_approved)
  | budget_superseded ↦ throw (conflict not_approved)
]

unfoldable pub activate : ℕ → ℕ → ℕ → ℕ → Tx Budget
activate org actor prop budget_id = do
  get_owned_property org prop
  row ← gets (λ s. find (λ (c : Configuration). c.property_id == prop) s.configurations)
  or_throw row (not_found budget)
  b ← get_owned_budget org prop budget_id
  activate_by_status org actor prop b

-- `_max.version` of the budgets of a year, at least `least`
unfoldable pub max_version : ℕ → ℕ → ℕ → ℕ → List Budget → ℕ
max_version prop start end least [] = least
max_version prop start end least (b ∷ bs) =
    let rest = max_version prop start end least bs in
    if is_year prop start end b && ltb rest b.version then b.version else rest

-- `financialBudgetLine.createMany` from the lines of the source
unfoldable pub copy_lines : ℕ → List BudgetLine → List BudgetLine
copy_lines id [] = []
copy_lines id (l ∷ ls) = record l { id = id } ∷ copy_lines (id + 1) ls

-- The body of `createRevision`, after its checks.
unfoldable pub revise : ℕ → ℕ → ℕ → Budget → Tx Budget
revise org actor prop b = do
  latest ← gets (λ s. max_version prop b.start_date b.end_date b.version s.budgets)
  id ← gets (λ s. s.next_id)
  let row : Budget =
      record (new_budget id org actor prop b.configuration_id b.start_date b.end_date (latest + 1)
        created b.currency_code (some b.id)) { lines = copy_lines (id + 1) b.lines }
  modify (λ s. record s { budgets = row ∷ s.budgets; next_id = s.next_id + 1 + length b.lines })
  record_activity org prop actor financial_budget_revised id
  get_owned_budget org prop id

-- `createRevision`, of which one attempt is enough where the requests run one after the other.
unfoldable pub create_revision : ℕ → ℕ → ℕ → ℕ → Tx Budget
create_revision org actor prop budget_id = do
  get_owned_property org prop
  b ← get_owned_budget org prop budget_id
  throw_if (not (is_approved b.status || is_active b.status)) (conflict not_revisable)
  revise org actor prop b
