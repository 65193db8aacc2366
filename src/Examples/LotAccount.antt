-- ===== src/Examples/LotAccount.antt =====
-- The account of src/modules/financials/lot-ledger.service.ts on a concrete lot: 5.00 owing at the
-- start, charges of 10.00 and 20.00, of which 2.00 are taken off the first, and a receipt of 7.00.
use waslproperty_backend.Prelude.{ℕ, ◌*◌, ◌≡◌, refl, true, false, none, some, [], ◌∷◌}
use waslproperty_backend.Prelude.Int.{ℤ, pos, negsuc, ◌+ℤ◌, ◌-ℤ◌}
use waslproperty_backend.Prelude.Result.{ok}
use waslproperty_backend.Prelude.Sort.{insert, sort}
use waslproperty_backend.Store.{Db}
use waslproperty_backend.Store.Rows.{get_owned_property, get_configuration}
use waslproperty_backend.Receipts.Record.{get_owned_lot}
use waslproperty_backend.LotLedger.{
  RowType, regular_levy_charge, levy_adjustment, receipt, History, LedgerRow, opening_rows,
  reversal_rows, charge_rows, receipt_rows, gather, raw_rows, with_balance, build_full_ledger,
  last_balance,
}
use waslproperty_backend.LotLedger.Views.{
  Statement, FinancialAccount, FundBreakdown, amount_owing, receipts_of, fund_breakdown,
  get_financial_account, get_statement,
}
use waslproperty_backend.LotLedger.Reconciled.{get_statement_reconciles}
use waslproperty_backend.LotLedger.Totals.{get_financial_account_balance}
use waslproperty_backend.Examples.Data.{db}

abbrev at_day : ℕ → ℕ
at_day n = n * 86_400_000

abbrev history : History
history = record {
  opening = some (record { id = 1; as_of = at_day 0; amount_owing = 500; credit_balance = 0 });
  charges =
      record {
        id = 2;
        financial_fund_id = 20;
        amount = 1000;
        created_at = at_day 10;
        is_special = false;
        is_cancelled = false;
        reversed_at = none;
        adjustments = record { id = 3; amount = negsuc 199; created_at = at_day 11 } ∷ [];
      }
      ∷ record {
        id = 4;
        financial_fund_id = 21;
        amount = 2000;
        created_at = at_day 25;
        is_special = true;
        is_cancelled = true;
        reversed_at = some (at_day 26);
        adjustments = [];
      }
      ∷ [];
  receipts =
      record {
        id = 5;
        financial_fund_id = 20;
        amount = 700;
        posting_date = at_day 15;
        is_reversed = false;
        reversed_at = none;
        allocations = [];
      }
      ∷ [];
}

abbrev db_space : Db
db_space = record db {
  spaces =
      record {
        id = 40;
        organisation_id = 1;
        property_id = 1;
        is_lot = true;
        entitlement_value = some (pos 100);
      }
      ∷ [];
}

abbrev movement : ℕ → ℕ → RowType → ℕ → ℕ → ℤ → LedgerRow
movement entity day type debit credit balance = record {
  entity = entity;
  day = day;
  type = type;
  financial_fund_id = some 20;
  debit = debit;
  credit = credit;
  running_balance = balance;
}

abbrev statement : Statement
statement = record {
  opening_balance = pos 500;
  movements =
      movement 2 10 regular_levy_charge 1000 0 (pos 1500)
      ∷ movement 3 11 levy_adjustment 0 200 (pos 1300)
      ∷ movement 5 15 receipt 0 700 (pos 600)
      ∷ [];
  total_debits = 1000;
  total_credits = 900;
  closing_balance = pos 600;
}

statement_found : get_statement 1 1 40 10 20 history db_space ≡ ok (statement, db_space)
unfolding get_owned_property get_configuration get_owned_lot get_statement build_full_ledger insert
    sort raw_rows gather charge_rows receipt_rows opening_rows reversal_rows with_balance
    last_balance ◌+ℤ◌ ◌-ℤ◌
statement_found = refl

get_statement_reconciles_example : pos 600 ≡ pos 500 +ℤ pos 1000 -ℤ pos 900
get_statement_reconciles_example =
    get_statement_reconciles 1 1 40 10 20 history db_space db_space {st = statement} statement_found

abbrev breakdown : ℕ → ℕ → ℕ → ℤ → ℤ → ℤ → FundBreakdown
breakdown fund issued reversed adjustments receipts net = record {
  financial_fund_id = fund;
  issued = issued;
  reversed = reversed;
  adjustments = adjustments;
  receipts = receipts;
  net_balance = net;
}

abbrev account_view : FinancialAccount
account_view = record {
  opening = pos 500;
  issued = 3000;
  reversed = 2000;
  adjustments = negsuc 199;
  receipts = 700;
  unapplied = pos 700;
  current_balance = pos 600;
  classification = amount_owing;
  breakdown =
      breakdown 21 2000 2000 (pos 0) (pos 0) (pos 0)
      ∷ breakdown 20 1000 0 (negsuc 199) (pos 700) (pos 100)
      ∷ [];
}

account_found : get_financial_account 1 1 40 history db_space ≡ ok (account_view, db_space)
unfolding get_owned_property get_configuration get_owned_lot get_financial_account fund_breakdown
    build_full_ledger insert sort raw_rows gather charge_rows receipt_rows opening_rows
    reversal_rows with_balance last_balance ◌+ℤ◌ ◌-ℤ◌
account_found = refl

get_financial_account_balance_example :
    pos 600
    ≡ pos 500 +ℤ pos 3000 -ℤ pos 2000 +ℤ negsuc 199 -ℤ receipts_of (build_full_ledger history)
get_financial_account_balance_example =
    get_financial_account_balance 1 1 40 history db_space db_space {account = account_view}
      account_found
