-- ===== src/Examples/Reversals.antt =====
-- Reversals and trial balances of src/modules/financials/ledger-posting.service.ts on a concrete property.
use waslproperty_backend.Prelude.{ℕ, ◌≡◌, refl, false, none, some, List, [], ◌∷◌, sum_by, All}
use waslproperty_backend.Prelude.Result.{ok, err, conflict, already_reversed}
use waslproperty_backend.Prelude.Buckets.{add, group, find_unbalanced}
use waslproperty_backend.Prelude.Int.{pos, negsuc}
use waslproperty_backend.Prelude.Sort.{sort}
use waslproperty_backend.Prelude.Unique.{contains, unique}
use waslproperty_backend.Store.{Db, asset, reversal, Journal, journal_posted, journal_reversed}
use waslproperty_backend.Store.Tx.{after}
use waslproperty_backend.Store.Rows.{
  get_owned_property, get_configuration, fresh_id, record_activity,
}
use waslproperty_backend.Periods.{find_covering_period}
use waslproperty_backend.Posting.{
  find_by_key, check_lines, check_references, require_open_period, stored_lines, create_journal,
  post_new, post_in_transaction,
}
use waslproperty_backend.Posting.Reverse.{
  update_journal, find_owned_journal, find_reversal, reverse_in_transaction,
}
use waslproperty_backend.Posting.Ledger.{Ledger}
use waslproperty_backend.Posting.Reversal.{Linked}
use waslproperty_backend.Posting.Undo.{
  account_debit, account_credit, reverse_undoes, reverse_once, reverse-Ledger,
}
use waslproperty_backend.Posting.TrialBalance.{
  TrialRow, debit_side, credit_side, lines_until, account_of, trial_row, trial_balance,
}
use waslproperty_backend.Posting.Balance.{total_debit, total_credit}
use waslproperty_backend.Posting.TrialTotals.{
  IsPresented, trial_balance_totals, trial_balance-IsPresented,
}
use waslproperty_backend.Examples.Data.{rounding}
use waslproperty_backend.Examples.Ledger.{journal, db_posted, db_posted-Ledger}

abbrev reversing : Journal
reversing = record journal {
  id = 101;
  effective_date = 210;
  source_type = reversal;
  source_id = 100;
  reversal_of = some 100;
  lines =
      record { account_id = 10; financial_fund_id = 20; debit = 0; credit = 1500; sort_order = 0 }
      ∷ record { account_id = 11; financial_fund_id = 20; debit = 1500; credit = 0; sort_order = 1 }
      ∷ [];
}

abbrev db_reversed : Db
db_reversed = record db_posted {
  journals = reversing ∷ journal ∷ [];
  activities =
      record {
        organisation_id = 1;
        property_id = 1;
        actor_user_id = 5;
        event_type = journal_reversed;
        entity_id = 100;
      }
      ∷ record {
        organisation_id = 1;
        property_id = 1;
        actor_user_id = 5;
        event_type = journal_posted;
        entity_id = 101;
      }
      ∷ db_posted.activities;
  next_id = 102;
}

reverse_journal :
    reverse_in_transaction rounding 1 5 1 100 none 210 false db_posted ≡ ok (reversing, db_reversed)
unfolding get_configuration reverse_in_transaction find_owned_journal find_reversal update_journal
    post_in_transaction find_by_key post_new check_lines add group find_unbalanced check_references
    require_open_period create_journal stored_lines fresh_id record_activity contains unique
    find_covering_period
reverse_journal = refl

db_posted-Linked : Linked db_posted
db_posted-Linked = (record { link = λ h. cc h; source = λ id h. cc h }, tt)

reverse_undoes_example :
    (original : Journal) × (find_owned_journal 1 1 100 db_posted.journals ≡ some original)
    × (reversing.reversal_of ≡ some original.id)
    × (db_reversed.journals ≡ reversing ∷ db_posted.journals)
    × ((account : ℕ)
        → (account_debit account reversing.lines ≡ account_credit account original.lines)
          × (account_credit account reversing.lines ≡ account_debit account original.lines))
reverse_undoes_example =
    reverse_undoes rounding 1 5 1 100 none 210 false db_posted db_reversed {j = reversing}
      db_posted-Ledger db_posted-Linked reverse_journal

reverse_once_example :
    reverse_in_transaction rounding 1 6 1 100 (some 220) 230 false db_reversed
    ≡ err (conflict already_reversed)
reverse_once_example =
    reverse_once rounding 1 5 6 1 100 none (some 220) 210 230 false db_posted db_reversed
      {j = reversing} db_posted-Ledger db_posted-Linked reverse_journal

reverse-Ledger_example :
    let t = after db_posted (reverse_in_transaction rounding 1 5 1 100 none 210 false db_posted) in
    Ledger t × Linked t
reverse-Ledger_example =
    reverse-Ledger rounding 1 5 1 100 none 210 false db_posted db_posted-Ledger db_posted-Linked

abbrev row : ℕ → TrialRow
row id = record {
  account_id = id;
  account_code = id;
  classification = asset;
  total_debit = 1500;
  total_credit = 0;
  net_balance = pos 1500;
  presented_side = debit_side;
  presented_balance = 1500;
}

abbrev rows : List TrialRow
rows =
    row 10
    ∷ record (row 11) {
      total_debit = 0;
      total_credit = 1500;
      net_balance = negsuc 1499;
      presented_side = credit_side;
    }
    ∷ []

-- The reversal is after the cutoff.
trial_rows : trial_balance 1 1 (some 205) none 300 db_reversed ≡ ok (rows, db_reversed)
unfolding trial_balance get_owned_property lines_until group add sort trial_row account_of
trial_rows = refl

trial_balance_totals_example :
    let lines = lines_until 1 1 205 none db_reversed.journals in
    (sum_by (λ (r : TrialRow). r.total_debit) rows ≡ total_debit lines)
    × (sum_by (λ (r : TrialRow). r.total_credit) rows ≡ total_credit lines)
    × (total_debit lines ≡ total_credit lines)
    × (db_reversed ≡ db_reversed)
trial_balance_totals_example =
    trial_balance_totals 1 1 (some 205) none 300 db_reversed db_reversed {rows = rows}
      (refl, (refl, tt)) trial_rows

trial_balance-IsPresented_example : All IsPresented rows
trial_balance-IsPresented_example =
    trial_balance-IsPresented 1 1 (some 205) none 300 db_reversed db_reversed {rows = rows}
      trial_rows
