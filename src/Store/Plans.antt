-- ===== src/Store/Plans.antt =====
-- The rows of budgets and levy schedules, after prisma/schema.prisma: `FinancialBudget` with its lines, and
-- `LevySchedule` with its instalments. A row holds the rows that point to it.
use waslproperty_backend.Prelude.{ℕ, Option, List}

pub data BudgetStatus : Type 0 where
  budget_draft budget_approved budget_active budget_superseded : BudgetStatus

pub data BudgetSource : Type 0 where
  created imported : BudgetSource

pub data LineType : Type 0 where
  revenue expenditure transfer reserve_contribution other : LineType

pub record BudgetLine : Type 0 where
  pub id : ℕ
  pub financial_fund_id : ℕ
  pub line_type : LineType
  pub planned_amount : ℕ
  pub sort_order : ℕ
  pub account_id : Option ℕ

pub record Budget : Type 0 where
  pub id : ℕ
  pub organisation_id : ℕ
  pub property_id : ℕ
  pub configuration_id : ℕ
  pub start_date : ℕ
  pub end_date : ℕ
  pub version : ℕ
  pub status : BudgetStatus
  pub source : BudgetSource
  pub currency_code : ℕ
  pub external_approval_date : Option ℕ
  pub created_by_user_id : ℕ
  pub approved_by_user_id : Option ℕ
  pub revision_of_budget_id : Option ℕ
  pub lines : List BudgetLine

pub data InstallmentStatus : Type 0 where
  installment_pending installment_issued installment_reversed : InstallmentStatus

pub record Installment : Type 0 where
  pub id : ℕ
  pub due_date : ℕ
  pub amount : ℕ
  pub sort_order : ℕ
  pub status : InstallmentStatus
  -- `issuedAt` and `issuedByUserId`, which are set together
  pub issued_by_user_id : Option ℕ
  pub journal_entry_id : Option ℕ
  pub reversed_by_user_id : Option ℕ

pub data LevyKind : Type 0 where
  regular special : LevyKind

pub data ScheduleStatus : Type 0 where
  levy_draft levy_approved levy_partially_issued levy_issued levy_cancelled : ScheduleStatus
  levy_reversed : ScheduleStatus

pub record LevySchedule : Type 0 where
  pub id : ℕ
  pub organisation_id : ℕ
  pub property_id : ℕ
  pub configuration_id : ℕ
  pub financial_fund_id : ℕ
  pub financial_budget_id : Option ℕ
  pub kind : LevyKind
  pub total_amount : ℕ
  pub status : ScheduleStatus
  pub external_approval_date : Option ℕ
  pub created_by_user_id : ℕ
  pub approved_by_user_id : Option ℕ
  pub cancelled_by_user_id : Option ℕ
  -- in the order of `sortOrder`
  pub installments : List Installment
