-- ===== src/Examples/Ledger.antt =====
-- The journals of src/modules/financials/ledger-posting.service.ts on a concrete property.
use waslproperty_backend.Prelude.{
  In, ◌≤◌, ℕ, All, ◌*◌, ◌≡◌, refl, false, none, some, [], ◌∷◌, arith,
}
use waslproperty_backend.Prelude.Result.{
  ok, err, conflict, validation, period_closed, unbalanced, cross_fund,
}
use waslproperty_backend.Prelude.Buckets.{add, group, find_unbalanced}
use waslproperty_backend.Prelude.Unique.{contains, unique}
use waslproperty_backend.Store.{opened, Db, Period, manual, Journal, journal_posted, closed}
use waslproperty_backend.Store.Money.{per_cent}
use waslproperty_backend.Store.Tx.{after}
use waslproperty_backend.Store.Rows.{
  get_owned_property, get_configuration, fresh_id, record_activity,
}
use waslproperty_backend.Periods.{find_covering_period}
use waslproperty_backend.Posting.{
  LineInput, PostCommand, find_by_key, check_lines, check_references, require_open_period,
  stored_lines, create_journal, post_new, post_in_transaction, post,
}
use waslproperty_backend.Posting.Ledger.{Ledger, post_in_transaction-Ledger}
use waslproperty_backend.Posting.Idempotence.{post_idempotent, post_closed_period}
use waslproperty_backend.Posting.Balance.{
  total_debit, total_credit, fund_debit, fund_credit, post_balanced,
}
use waslproperty_backend.Posting.Isolation.{OwnedLine, post-OwnedLine}
use waslproperty_backend.Examples.Data.{rounding, db, second_half}

abbrev pub debit_line : ℕ → ℕ → ℕ → LineInput
debit_line account fund cents = record {
  account_id = account;
  financial_fund_id = fund;
  debit = cents * per_cent;
  credit = 0;
}

abbrev pub credit_line : ℕ → ℕ → ℕ → LineInput
credit_line account fund cents = record {
  account_id = account;
  financial_fund_id = fund;
  debit = 0;
  credit = cents * per_cent;
}

-- 15.00 from account 11 to account 10, in fund 20.
abbrev pub command : PostCommand
command = record {
  effective_date = 200;
  currency_code = none;
  source_type = manual;
  source_id = 7;
  source_event_version = none;
  lines = debit_line 10 20 1500 ∷ credit_line 11 20 1500 ∷ [];
  allow_cross_fund = false;
}

db-Ledger : Ledger db
db-Ledger = record {
  keyed = record {
    accounts = ((omega arith, (omega arith, tt)), ((omega arith, tt), (tt, tt)));
    funds = ((omega arith, tt), (tt, tt));
  };
  one_per_event = tt;
  fresh = tt;
}

abbrev pub journal : Journal
journal = record {
  id = 100;
  organisation_id = 1;
  property_id = 1;
  configuration_id = 1;
  period_id = 31;
  effective_date = 200;
  currency_code = 0;
  source_type = manual;
  source_id = 7;
  source_event_version = 1;
  posted_by_user_id = 5;
  reversal_of = none;
  lines =
      record { account_id = 10; financial_fund_id = 20; debit = 1500; credit = 0; sort_order = 0 }
      ∷ record { account_id = 11; financial_fund_id = 20; debit = 0; credit = 1500; sort_order = 1 }
      ∷ [];
}

abbrev pub db_posted : Db
db_posted = record db {
  journals = journal ∷ [];
  activities =
      record {
        organisation_id = 1;
        property_id = 1;
        actor_user_id = 5;
        event_type = journal_posted;
        entity_id = 100;
      }
      ∷ [];
  next_id = 101;
}

post-command : post rounding 1 5 1 command db ≡ ok (journal, db_posted)
unfolding post get_owned_property post_in_transaction get_configuration find_by_key post_new
    check_lines add group find_unbalanced check_references require_open_period create_journal
    stored_lines fresh_id record_activity contains unique find_covering_period
post-command = refl

post_one_sided :
    post rounding 1 5 1 (record command { lines = debit_line 10 20 1 ∷ debit_line 11 20 1 ∷ [] }) db
    ≡ err (validation unbalanced)
unfolding post get_owned_property post_in_transaction get_configuration find_by_key post_new
    check_lines add group find_unbalanced
post_one_sided = refl

post_two_funds :
    post rounding 1 5 1
      (record command { lines = debit_line 10 20 1 ∷ credit_line 11 21 1 ∷ [] })
      db
    ≡ err (validation (cross_fund 20))
unfolding post get_owned_property post_in_transaction get_configuration find_by_key post_new
    check_lines add group find_unbalanced
post_two_funds = refl

post_in_closed_period :
    post rounding 1 5 1 (record command { effective_date = 100 }) db ≡ err (conflict period_closed)
unfolding post get_owned_property post_in_transaction get_configuration find_by_key post_new
    check_lines add group find_unbalanced check_references require_open_period contains unique
    find_covering_period
post_in_closed_period = refl

post_in_transaction-Ledger_example :
    Ledger (after db (post_in_transaction rounding 1 5 1 command db))
post_in_transaction-Ledger_example = post_in_transaction-Ledger rounding 1 5 1 command db db-Ledger

post_balanced_example :
    (total_debit journal.lines ≡ total_credit journal.lines)
    × (false ≡ false → (fund : ℕ) → fund_debit fund journal.lines ≡ fund_credit fund journal.lines)
unfolding find_by_key
post_balanced_example =
    post_balanced rounding 1 5 1 command db db_posted {row = journal} db-Ledger
      ((omega arith, omega arith), ((omega arith, omega arith), tt)) refl post-command

-- Another user repeats the request with another amount.
post_idempotent_example :
    post rounding 1 6 1
      (record command { lines = debit_line 10 20 9 ∷ credit_line 11 20 9 ∷ [] })
      db_posted
    ≡ ok (journal, db_posted)
post_idempotent_example =
    post_idempotent rounding 1 5 6 1 command
      (record command { lines = debit_line 10 20 9 ∷ credit_line 11 20 9 ∷ [] }) db db_posted
      {row = journal} db-Ledger (record { type = refl; id = refl; version = refl }) post-command

-- The period is closed after the posting.
abbrev shut_half : Period
shut_half = record second_half { status = closed; closed_by_user_id = some 1 }

abbrev db_shut : Db
db_shut = record db_posted { periods = shut_half ∷ [] }

pub db_posted-Ledger : Ledger db_posted
db_posted-Ledger = record {
  keyed = record { accounts = db-Ledger.keyed.accounts; funds = db-Ledger.keyed.funds };
  one_per_event = (tt, tt);
  fresh = (omega arith, tt);
}

db_shut-Ledger : Ledger db_shut
db_shut-Ledger = record {
  keyed = record { accounts = db-Ledger.keyed.accounts; funds = db-Ledger.keyed.funds };
  one_per_event = (tt, tt);
  fresh = (omega arith, tt);
}

shut_covers : find_covering_period 1 200 db_shut.periods ≡ some shut_half
unfolding find_covering_period
shut_covers = refl

post_shut : post rounding 1 5 1 command db_shut ≡ ok (journal, db_shut)
unfolding post get_owned_property post_in_transaction get_configuration find_by_key
post_shut = refl

post_closed_period_example :
    (find_by_key 1 manual 7 1 db_shut.journals ≡ some journal) × (db_shut ≡ db_shut)
post_closed_period_example =
    post_closed_period rounding 1 5 1 command db_shut db_shut {p = shut_half} {row = journal}
      db_shut-Ledger shut_covers refl post_shut

post-OwnedLine_example :
    (journal.organisation_id ≡ 1)
    × (journal.property_id ≡ 1)
    × ((p : Period) × In p db.periods
        × (p.id ≡ journal.period_id)
        × (p.property_id ≡ 1)
        × (p.start_date ≤ command.effective_date)
        × (command.effective_date ≤ p.end_date)
        × (p.status ≡ opened))
    × All (OwnedLine 1 1 db) journal.lines
unfolding find_by_key
post-OwnedLine_example =
    post-OwnedLine rounding 1 5 1 command db db_posted {row = journal} db-Ledger refl post-command
