-- ===== src/Levies/Schedules.antt =====
-- The life of a schedule before it is issued, in src/modules/financials/levies.service.ts: it is drafted,
-- previewed, and approved or cancelled.
use waslproperty_backend.Prelude.{
  ℕ, ◌+◌, ◌*◌, Bool, true, false, ◌&&◌, not, Option, none, some, List, [], ◌∷◌, ltb, ◌==◌, is_key,
  find, filter, length, sum_by,
}
use waslproperty_backend.Prelude.Result.{
  not_found, validation, conflict, budget, fund as fund_row, budget_not_active, no_levy_revenue,
  installments_total, approval_in_future, not_draft, not_cancellable, has_history,
  nothing_to_preview,
}
use waslproperty_backend.LevyAllocation.{Decimal}
use waslproperty_backend.Store.{
  Configuration, Fund, BudgetLine, LineType, revenue, Installment, installment_pending, LevyKind,
  regular, special, LevySchedule, ScheduleStatus, levy_draft, levy_approved, levy_cancelled,
  levy_income, levy_schedule_created, levy_schedule_approved, levy_schedule_cancelled,
}
use waslproperty_backend.Store.Money.{per_cent, Numeric}
use waslproperty_backend.Store.Tx.{Tx, pure, throw, gets, or_throw, throw_if, modify, ◌>>=◌, ◌>>◌}
use waslproperty_backend.Store.Rows.{get_owned_property, get_configuration, record_activity}
use waslproperty_backend.Budgets.{is_active, find_owned_budget}
use waslproperty_backend.PostingProfile.{resolve}
use waslproperty_backend.Levies.{
  is_pending, was_issued, some_of, get_owned_schedule, update_schedule, get_eligible_lots, lift,
}
use waslproperty_backend.Levies.Split.{LotRow, allocate_installments}

-- An instalment of a request, its amount in units of 1/`per_cent` of a cent.
pub record InstallmentInput : Type 0 where
  pub due_date : ℕ
  pub amount : ℕ

abbrev pub is_revenue : LineType → Bool
is_revenue revenue = true
is_revenue _ = false

-- A revenue line of the fund that is linked to the levy income account.
abbrev pub is_levy_revenue : ℕ → ℕ → BudgetLine → Bool
is_levy_revenue fund_id account_id l =
    is_revenue l.line_type && l.financial_fund_id == fund_id && is_key l.account_id account_id

-- `deriveRegularTotal`, in cents
unfoldable pub derive_regular_total : ℕ → ℕ → ℕ → ℕ → Tx ℕ
derive_regular_total org prop budget_id fund_id = do
  row ← gets (λ s. find_owned_budget org prop budget_id s.budgets)
  b ← or_throw row (not_found budget)
  throw_if (not (is_active b.status)) (conflict budget_not_active)
  income ← resolve prop levy_income (some fund_id)
  let lines = filter (is_levy_revenue fund_id income) b.lines
  throw_if (length lines == 0) (validation no_levy_revenue)
  pure (sum_by (λ (l : BudgetLine). l.planned_amount) lines)

-- `tx.financialFund.findFirst`, with the error if there is none
unfoldable pub get_fund : ℕ → ℕ → ℕ → Tx Fund
get_fund org prop id = do
  row ←
      gets
        (λ s. find (λ f. f.id == id && f.organisation_id == org && f.property_id == prop) s.funds)
  or_throw row (not_found fund_row)

abbrev pub requested : List InstallmentInput → ℕ
requested = sum_by (λ (i : InstallmentInput). i.amount)

-- The body of `approve`, after the look-up.
unfoldable pub approve_found : ℕ → ℕ → ℕ → LevySchedule → Tx LevySchedule
approve_found org actor prop l = elim l.status [
  | levy_draft ↦ do
    let f : LevySchedule → LevySchedule =
        λ r. record r { status = levy_approved; approved_by_user_id = some actor }
    modify (λ s. record s { schedules = update_schedule l.id f s.schedules })
    record_activity org prop actor levy_schedule_approved l.id
    pure (f l)
  | _ ↦ throw (conflict not_draft)
]

unfoldable pub approve : ℕ → ℕ → ℕ → ℕ → Tx LevySchedule
approve org actor prop schedule_id = do
  get_owned_property org prop
  l ← get_owned_schedule org prop schedule_id
  approve_found org actor prop l

abbrev pub is_cancellable : ScheduleStatus → Bool
is_cancellable levy_draft = true
is_cancellable levy_approved = true
is_cancellable _ = false

unfoldable pub cancel : ℕ → ℕ → ℕ → ℕ → Tx LevySchedule
cancel org actor prop schedule_id = do
  get_owned_property org prop
  l ← get_owned_schedule org prop schedule_id
  throw_if (not (is_cancellable l.status)) (conflict not_cancellable)
  throw_if (some_of was_issued l.installments) (conflict has_history)
  let f : LevySchedule → LevySchedule =
      λ r. record r { status = levy_cancelled; cancelled_by_user_id = some actor }
  modify (λ s. record s { schedules = update_schedule l.id f s.schedules })
  record_activity org prop actor levy_schedule_cancelled l.id
  pure (f l)

abbrev pub is_cancelled_schedule : ScheduleStatus → Bool
is_cancelled_schedule levy_cancelled = true
is_cancelled_schedule _ = false

unfoldable pub preview : Decimal → ℕ → ℕ → ℕ → Tx (List LotRow)
preview dec org prop schedule_id = do
  get_owned_property org prop
  l ← get_owned_schedule org prop schedule_id
  throw_if (is_cancelled_schedule l.status) (conflict nothing_to_preview)
  lots ← get_eligible_lots prop
  lift (allocate_installments dec (filter is_pending l.installments) lots)

module _ (num : Numeric) where
  -- The rows of the instalments, numbered from `index`; the columns round to cents.
  unfoldable pub installment_rows : ℕ → ℕ → List InstallmentInput → List Installment
  installment_rows id index [] = []
  installment_rows id index (i ∷ is') =
      record {
        id = id;
        due_date = i.due_date;
        amount = num.to_cents i.amount;
        sort_order = index;
        status = installment_pending;
        issued_by_user_id = none;
        journal_entry_id = none;
        reversed_by_user_id = none;
      }
      ∷ installment_rows (id + 1) (index + 1) is'

  -- `levySchedule.create` with its instalments
  unfoldable pub create_schedule :
      ℕ
      → ℕ
      → ℕ
      → Configuration
      → ℕ
      → Option ℕ
      → LevyKind
      → ℕ
      → Option ℕ
      → List InstallmentInput
      → Tx LevySchedule
  create_schedule org actor prop cf fund_id budget_id kind total approval_date inputs = do
    id ← gets (λ s. s.next_id)
    let row : LevySchedule = record {
      id = id;
      organisation_id = org;
      property_id = prop;
      configuration_id = cf.id;
      financial_fund_id = fund_id;
      financial_budget_id = budget_id;
      kind = kind;
      total_amount = num.to_cents total;
      status = levy_draft;
      external_approval_date = approval_date;
      created_by_user_id = actor;
      approved_by_user_id = none;
      cancelled_by_user_id = none;
      installments = installment_rows (id + 1) 0 inputs;
    }
    modify
        (λ s. record s { schedules = row ∷ s.schedules; next_id = s.next_id + 1 + length inputs })
    pure row

  unfoldable pub create_regular : ℕ → ℕ → ℕ → ℕ → ℕ → List InstallmentInput → Tx LevySchedule
  create_regular org actor prop fund_id budget_id inputs = do
    get_owned_property org prop
    cf ← get_configuration prop
    get_fund org prop fund_id
    total ← derive_regular_total org prop budget_id fund_id
    throw_if (not (requested inputs == total * per_cent)) (validation installments_total)
    row ←
        create_schedule org actor prop cf fund_id (some budget_id) regular (total * per_cent) none
          inputs
    record_activity org prop actor levy_schedule_created row.id
    pure row

  unfoldable pub create_special : ℕ → ℕ → ℕ → ℕ → ℕ → ℕ → List InstallmentInput → Tx LevySchedule
  create_special today org actor prop fund_id approval_date inputs = do
    get_owned_property org prop
    throw_if (ltb today approval_date) (validation approval_in_future)
    cf ← get_configuration prop
    get_fund org prop fund_id
    row ←
        create_schedule org actor prop cf fund_id none special (requested inputs)
          (some approval_date) inputs
    record_activity org prop actor levy_schedule_created row.id
    pure row
