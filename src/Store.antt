-- ===== src/Store.antt =====
-- The rows of the database that the financial services of src/modules/financials read and write, after
-- prisma/schema.prisma, and the actions on it inside a transaction. Ids are opaque and only compared.
-- Free text (names, narrations, reasons), public references and timestamps that no test reads are left
-- out. Dates of `@db.Date` columns are numbers of days, and `Decimal(14, 2)` columns numbers of cents.
pub mod Money
pub mod Tx
pub mod Rows
mod Plans
pub use Plans.*
use waslproperty_backend.Prelude.{ℕ, Bool, Option, List}
use waslproperty_backend.Prelude.Int.{ℤ}

pub record Property : Type 0 where
  pub id : ℕ
  pub organisation_id : ℕ

pub record Configuration : Type 0 where
  pub id : ℕ
  pub property_id : ℕ
  pub currency_code : ℕ
  -- `status === 'ACTIVE'`
  pub is_active : Bool
  pub financial_year_start_date : Option ℕ
  pub financial_year_end_date : Option ℕ

pub data Classification : Type 0 where
  asset liability equity income expense : Classification

pub record Account : Type 0 where
  pub id : ℕ
  pub organisation_id : ℕ
  pub property_id : ℕ
  pub code : ℕ
  pub classification : Classification
  pub is_active : Bool

pub record Fund : Type 0 where
  pub id : ℕ
  pub organisation_id : ℕ
  pub property_id : ℕ
  pub configuration_id : ℕ
  pub currency_code : ℕ

pub record Space : Type 0 where
  pub id : ℕ
  pub organisation_id : ℕ
  pub property_id : ℕ
  -- `strataClassification === 'LOT'`
  pub is_lot : Bool
  pub entitlement_value : Option ℤ

pub data PeriodStatus : Type 0 where
  opened closed : PeriodStatus

pub record Period : Type 0 where
  pub id : ℕ
  pub organisation_id : ℕ
  pub property_id : ℕ
  pub configuration_id : ℕ
  pub start_date : ℕ
  pub end_date : ℕ
  pub status : PeriodStatus
  pub closed_by_user_id : Option ℕ
  pub reopened_by_user_id : Option ℕ

pub data PostingRole : Type 0 where
  fund_cash lot_levy_receivable levy_income unapplied_cash accounts_payable : PostingRole
  gst_payable gst_receivable suspense opening_balance_equity inter_fund_transfer : PostingRole

pub record Rule : Type 0 where
  pub id : ℕ
  pub organisation_id : ℕ
  pub property_id : ℕ
  pub role : PostingRole
  pub financial_fund_id : Option ℕ
  pub account_id : ℕ

pub data SourceType : Type 0 where
  manual opening_balance reversal : SourceType
  levy_regular levy_special levy_adjustment receipt payment_allocation : SourceType

pub record JournalLine : Type 0 where
  pub account_id : ℕ
  pub financial_fund_id : ℕ
  pub debit : ℕ
  pub credit : ℕ
  pub sort_order : ℕ

pub record Journal : Type 0 where
  pub id : ℕ
  pub organisation_id : ℕ
  pub property_id : ℕ
  pub configuration_id : ℕ
  pub period_id : ℕ
  pub effective_date : ℕ
  pub currency_code : ℕ
  pub source_type : SourceType
  pub source_id : ℕ
  pub source_event_version : ℕ
  pub posted_by_user_id : ℕ
  pub reversal_of : Option ℕ
  pub lines : List JournalLine

pub data ChargeStatus : Type 0 where
  issued part_paid paid cancelled : ChargeStatus

pub record Charge : Type 0 where
  pub id : ℕ
  pub organisation_id : ℕ
  pub property_id : ℕ
  pub levy_schedule_id : ℕ
  pub levy_installment_id : ℕ
  pub space_id : ℕ
  pub financial_fund_id : ℕ
  pub amount : ℕ
  pub status : ChargeStatus
  -- of the charge's instalment
  pub due_date : ℕ
  pub sort_order : ℕ

pub record Adjustment : Type 0 where
  pub id : ℕ
  pub charge_id : ℕ
  pub amount : ℤ
  pub journal_entry_id : ℕ
  pub created_by_user_id : ℕ

pub data ReceiptStatus : Type 0 where
  recorded reversed : ReceiptStatus

pub record Receipt : Type 0 where
  pub id : ℕ
  pub organisation_id : ℕ
  pub property_id : ℕ
  pub space_id : ℕ
  pub financial_fund_id : ℕ
  pub destination_account_id : ℕ
  pub amount : ℕ
  pub currency_code : ℕ
  pub receipt_date : ℕ
  pub posting_date : ℕ
  pub status : ReceiptStatus
  pub journal_entry_id : ℕ
  pub reversed_by_user_id : Option ℕ
  pub created_by_user_id : ℕ

pub data AllocationStatus : Type 0 where
  applied undone : AllocationStatus

pub record Allocation : Type 0 where
  pub id : ℕ
  pub organisation_id : ℕ
  pub property_id : ℕ
  pub receipt_id : ℕ
  pub charge_id : ℕ
  pub amount : ℕ
  pub status : AllocationStatus
  pub journal_entry_id : ℕ
  pub reversed_by_user_id : Option ℕ
  pub created_by_user_id : ℕ

pub data EventType : Type 0 where
  period_opened period_closed period_reopened : EventType
  journal_posted journal_reversed profile_updated : EventType
  receipt_recorded receipt_reversed allocation_created allocation_reversed : EventType
  levy_schedule_created levy_schedule_approved levy_schedule_cancelled : EventType
  levy_installment_issued levy_installment_reversed levy_charge_adjusted : EventType
  financial_budget_created financial_budget_approved financial_budget_import_recorded : EventType
  financial_budget_activated financial_budget_revised : EventType

-- A row of the activity log.
pub record Activity : Type 0 where
  pub organisation_id : ℕ
  pub property_id : ℕ
  pub actor_user_id : ℕ
  pub event_type : EventType
  pub entity_id : ℕ

-- The tables, the newest row first, and the next id that is given out. A query for a first row with no
-- `orderBy` takes the first that fits here; the source leaves the choice to the database.
pub record Db : Type 0 where
  pub properties : List Property
  pub configurations : List Configuration
  pub accounts : List Account
  pub funds : List Fund
  pub spaces : List Space
  pub periods : List Period
  pub rules : List Rule
  pub journals : List Journal
  pub charges : List Charge
  pub adjustments : List Adjustment
  pub receipts : List Receipt
  pub allocations : List Allocation
  pub schedules : List LevySchedule
  pub budgets : List Budget
  pub activities : List Activity
  pub next_id : ℕ
