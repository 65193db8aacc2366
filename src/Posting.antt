-- ===== src/Posting.antt =====
-- src/modules/financials/ledger-posting.service.ts: the one place that writes journals. The
-- transactions of a property that post run one after the other under the lock of its configuration, so that the
-- unique key of a source event cannot be taken between the check and the write.
pub mod Reverse
pub mod TrialBalance
pub mod Checks
pub mod Posted
pub mod Ledger
pub mod Idempotence
pub mod Balance
pub mod Locking
pub mod Isolation
pub mod Reversal
pub mod Undo
pub mod TrialTotals
use waslproperty_backend.Prelude.{
  ℕ, ◌+◌, ◌*◌, ◌≡◌, Bool, true, false, ◌&&◌, ◌||◌, not, Option, none, some, List, [], ◌∷◌, map, ltb,
  leb, ◌==◌, is_key, if◌then◌else◌, find, filter, length, sum_by,
}
use waslproperty_backend.Prelude.Buckets.{group, find_unbalanced}
use waslproperty_backend.Prelude.Unique.{contains, unique}
use waslproperty_backend.Prelude.Result.{
  not_found, validation, conflict, account, fund, journal, too_few_lines, unbalanced, cross_fund,
  account_inactive, no_covering_period, period_closed, subledger_journal, already_reversed,
}
use waslproperty_backend.Store.{
  Db, Configuration, Account, Fund, Period, opened, closed, SourceType, manual, opening_balance,
  reversal, levy_regular, levy_special, levy_adjustment, receipt, payment_allocation, JournalLine,
  Journal, journal_posted, journal_reversed,
}
use waslproperty_backend.Store.Money.{per_cent, Numeric}
use waslproperty_backend.Store.Tx.{Tx, pure, throw, gets, or_throw, throw_if, modify, ◌>>=◌, ◌>>◌}
use waslproperty_backend.Store.Rows.{
  get_owned_property, get_configuration, fresh_id, record_activity,
}
use waslproperty_backend.Periods.{find_covering_period}

-- `JournalLineInput`: the amounts are those of the request, in units of 1/`per_cent` of a cent.
pub record LineInput : Type 0 where
  pub account_id : ℕ
  pub financial_fund_id : ℕ
  pub debit : ℕ
  pub credit : ℕ

pub record PostCommand : Type 0 where
  pub effective_date : ℕ
  pub currency_code : Option ℕ
  pub source_type : SourceType
  pub source_id : ℕ
  pub source_event_version : Option ℕ
  pub lines : List LineInput
  pub allow_cross_fund : Bool

-- `a ?? b`
abbrev pub or_default : Option ℕ → ℕ → ℕ
or_default none d = d
or_default (some a) d = a

-- The strings of the source types are compared; their numbers here are.
abbrev pub source_code : SourceType → ℕ
source_code manual = 0
source_code opening_balance = 1
source_code reversal = 2
source_code levy_regular = 3
source_code levy_special = 4
source_code levy_adjustment = 5
source_code receipt = 6
source_code payment_allocation = 7

-- The unique key (propertyId, sourceType, sourceId, sourceEventVersion).
abbrev pub has_key : ℕ → SourceType → ℕ → ℕ → Journal → Bool
has_key property_id type id version j =
    j.property_id == property_id
    && source_code j.source_type == source_code type
    && j.source_id == id
    && j.source_event_version == version

unfoldable pub find_by_key : ℕ → SourceType → ℕ → ℕ → List Journal → Option Journal
find_by_key property_id type id version = find (has_key property_id type id version)

-- The balance checks, on the amounts of the request.
unfoldable pub check_lines : PostCommand → Tx (Unit {0})
check_lines c = do
  throw_if (ltb (length c.lines) 2) (validation too_few_lines)
  throw_if (not (sum_by (λ l. l.debit) c.lines == sum_by (λ l. l.credit) c.lines))
      (validation unbalanced)
  if c.allow_cross_fund
      then pure tt
      else elim (find_unbalanced (
          group (λ (l : LineInput). l.financial_fund_id) (λ l. l.debit) (λ l. l.credit) []
            c.lines)) [ none ↦ pure tt | some fund_id ↦ throw (validation (cross_fund fund_id)) ]

abbrev pub owned_account : ℕ → ℕ → Account → Bool
owned_account org prop a = a.organisation_id == org && a.property_id == prop

abbrev pub owned_fund : ℕ → ℕ → Fund → Bool
owned_fund org prop f = f.organisation_id == org && f.property_id == prop

-- The accounts and funds of the lines are rows of this property, and the accounts are active.
unfoldable pub check_references : ℕ → ℕ → List LineInput → Tx (Unit {0})
check_references org prop lines = do
  let account_ids = unique (map (λ (l : LineInput). l.account_id) lines)
  let fund_ids = unique (map (λ (l : LineInput). l.financial_fund_id) lines)
  accounts ←
      gets (λ s. filter (λ a. contains account_ids a.id && owned_account org prop a) s.accounts)
  funds ← gets (λ s. filter (λ f. contains fund_ids f.id && owned_fund org prop f) s.funds)
  throw_if (not (length accounts == length account_ids)) (not_found account)
  elim (find (λ a. not a.is_active) accounts) [
    | none ↦ pure tt
    | some _ ↦ throw (conflict account_inactive)
  ]
  throw_if (not (length funds == length fund_ids)) (not_found fund)

-- The open period that covers the date.
unfoldable pub require_open_period : ℕ → ℕ → Tx Period
require_open_period prop date = do
  found ← gets (λ s. find_covering_period prop date s.periods)
  period ← or_throw found (conflict no_covering_period)
  elim period.status [ opened ↦ pure period | closed ↦ throw (conflict period_closed) ]

-- `generic reversal is refused`: the types in `SUBLEDGER_SOURCE_TYPES`.
abbrev pub is_subledger : SourceType → Bool
is_subledger manual = false
is_subledger opening_balance = false
is_subledger reversal = false
is_subledger _ = true

module _ (num : Numeric) where
  -- The rows of the lines, numbered from `index`; the columns round to cents.
  unfoldable pub stored_lines : ℕ → List LineInput → List JournalLine
  stored_lines index [] = []
  stored_lines index (l ∷ ls) =
      record {
        account_id = l.account_id;
        financial_fund_id = l.financial_fund_id;
        debit = num.to_cents l.debit;
        credit = num.to_cents l.credit;
        sort_order = index;
      }
      ∷ stored_lines (index + 1) ls

  -- `journalEntry.create` with its lines
  unfoldable pub create_journal : ℕ → ℕ → ℕ → Configuration → Period → PostCommand → Tx Journal
  unfolding stored_lines
  create_journal org actor prop configuration period c = do
    id ← fresh_id
    let row : Journal = record {
      id = id;
      organisation_id = org;
      property_id = prop;
      configuration_id = configuration.id;
      period_id = period.id;
      effective_date = c.effective_date;
      currency_code = or_default c.currency_code configuration.currency_code;
      source_type = c.source_type;
      source_id = c.source_id;
      source_event_version = or_default c.source_event_version 1;
      posted_by_user_id = actor;
      reversal_of = none;
      lines = stored_lines 0 c.lines;
    }
    modify (λ s. record s { journals = row ∷ s.journals })
    pure row

  -- The rest of `postInTransaction`, where no journal has the key yet.
  unfoldable pub post_new : ℕ → ℕ → ℕ → Configuration → PostCommand → Tx Journal
  post_new org actor prop configuration c = do
    check_lines c
    check_references org prop c.lines
    period ← require_open_period prop c.effective_date
    row ← create_journal org actor prop configuration period c
    record_activity org prop actor journal_posted row.id
    pure row

  -- `postInTransaction`, which is also `postWithinTransaction`
  unfoldable pub post_in_transaction : ℕ → ℕ → ℕ → PostCommand → Tx Journal
  post_in_transaction org actor prop c = do
    configuration ← get_configuration prop
    existing ← gets (λ s.
        find_by_key prop c.source_type c.source_id (or_default c.source_event_version 1) s.journals)
    elim existing [ some j ↦ pure j | none ↦ post_new org actor prop configuration c ]

  unfoldable pub post : ℕ → ℕ → ℕ → PostCommand → Tx Journal
  post org actor prop c = do get_owned_property org prop; post_in_transaction org actor prop c
