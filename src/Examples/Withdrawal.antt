-- ===== src/Examples/Withdrawal.antt =====
-- The issued instalment of the tests of src/modules/financials/levies.service.ts, reversed, and a charge of
-- it, adjusted.
use waslproperty_backend.Prelude.{find, ◌==◌, ℕ, ◌≡◌, refl, false, none, some, ◌∷◌, ◌<◌, All}
use waslproperty_backend.Prelude.Buckets.{add, group, find_unbalanced}
use waslproperty_backend.Prelude.Int.{negsuc, ◌+ℤ◌}
use waslproperty_backend.Prelude.Result.{ok}
use waslproperty_backend.Prelude.Unique.{contains, unique}
use waslproperty_backend.LevyAllocation.{
  sum_entitlement, find_negative, before, insert_floor, order_floors, set, distribute, floor_of,
  apportion, allocate_by_entitlement,
}
use waslproperty_backend.Store.{
  Db, lot_levy_receivable, levy_income, installment_issued, Charge, cancelled, Installment,
  LevySchedule, levy_adjustment, Adjustment, Journal,
}
use waslproperty_backend.Store.Tx.{after}
use waslproperty_backend.Store.Rows.{
  get_owned_property, get_configuration, fresh_id, record_activity,
}
use waslproperty_backend.Periods.{find_covering_period}
use waslproperty_backend.Posting.{
  or_default, find_by_key, check_lines, check_references, require_open_period, stored_lines,
  create_journal, post_new, post_in_transaction,
}
use waslproperty_backend.Posting.Reverse.{
  update_journal, find_owned_journal, find_reversal, reverse_in_transaction,
  reverse_within_transaction,
}
use waslproperty_backend.PostingProfile.{find_rule, find_specific, resolve}
use waslproperty_backend.Receipts.{is_cancelled, adjusted}
use waslproperty_backend.Receipts.Books.{Books}
use waslproperty_backend.Levies.{
  some_of, compute_schedule_status, find_owned_schedule, get_owned_schedule, update_schedule,
  update_installment, lots_of, get_eligible_lots,
}
use waslproperty_backend.Levies.Split.{
  push_share, push_shares, allocate_onto, allocate_installments,
}
use waslproperty_backend.Budgets.{find_owned_budget}
use waslproperty_backend.Levies.Schedules.{
  derive_regular_total, get_fund, approve_found, approve, installment_rows, create_schedule,
  create_regular,
}
use waslproperty_backend.Levies.Issue.{
  find_target, create_charge, charge_row, create_charges, refresh_schedule, post_installment,
  issue_pending, issue_target, issue,
}
use waslproperty_backend.Levies.Corrections.{
  find_levy_charge, cancel_charges, count_siblings, reverse_target, reverse_installment,
  create_adjustment_row, adjust_once, create_adjustment,
}
use waslproperty_backend.Posting.Undo.{account_debit, account_credit}
use waslproperty_backend.Levies.Books.{ChargesFresh}
use waslproperty_backend.Levies.Kept.{issue-Books}
use waslproperty_backend.Levies.Undone.{Unshared, reverse_installment_undoes}
use waslproperty_backend.Levies.Effective.{moving, signed_cents, create_adjustment-effective}
use waslproperty_backend.Examples.Data.{rounding}
use waslproperty_backend.Examples.Levy.{milli}
use waslproperty_backend.Examples.Receipting.{uuid}
use waslproperty_backend.Examples.LevyData.{returned, db_approved, db_issued, db_adjusted}
use waslproperty_backend.Examples.Levies.{
  schedule, result_issued, issued_now, adjustment_row, adjusted_now, db_approved-Standing,
}

db_approved-Books : Books db_approved
unfolding get_owned_property get_configuration record_activity find_rule find_specific resolve
    find_owned_schedule get_owned_schedule update_schedule find_owned_budget derive_regular_total
    get_fund approve_found approve installment_rows create_schedule create_regular
db_approved-Books = record {
  ledger = db_approved-Standing.ledger;
  linked = db_approved-Standing.linked;
  receipt_ids = tt;
  charge_ids = tt;
  receipts_fresh = tt;
  allocations_fresh = tt;
  allocation_ids = tt;
  receipts = tt;
  charges = tt;
  settled = tt;
}

db_approved-ChargesFresh : ChargesFresh db_approved
unfolding get_owned_property get_configuration record_activity find_rule find_specific resolve
    find_owned_schedule get_owned_schedule update_schedule find_owned_budget derive_regular_total
    get_fund approve_found approve installment_rows create_schedule create_regular
db_approved-ChargesFresh = record { charges = tt; adjustments = tt; allocations = tt }

issue-Books_example : Books db_issued × ChargesFresh db_issued
issue-Books_example =
    issue-Books milli rounding 210 1 5 1 100 (some 101) db_approved db_issued result_issued
      db_approved-Books db_approved-ChargesFresh issued_now

db_issued-Books : Books db_issued × ChargesFresh db_issued
db_issued-Books =
    issue-Books milli rounding 210 1 5 1 100 (some 101) db_approved db_issued result_issued
      db_approved-Books db_approved-ChargesFresh issued_now

abbrev db_withdrawn : Db
db_withdrawn = after db_issued (reverse_installment rounding 212 1 5 1 100 101 db_issued)

abbrev schedule_withdrawn : LevySchedule
schedule_withdrawn = returned schedule (reverse_installment rounding 212 1 5 1 100 101 db_issued)

withdrawn_now :
    reverse_installment rounding 212 1 5 1 100 101 db_issued ≡ ok (schedule_withdrawn, db_withdrawn)
unfolding get_owned_property get_configuration fresh_id record_activity find_covering_period
    find_by_key check_lines check_references require_open_period stored_lines create_journal
    post_new post_in_transaction add group find_unbalanced contains unique find_rule find_specific
    resolve sum_entitlement find_negative before insert_floor order_floors set distribute floor_of
    apportion allocate_by_entitlement some_of compute_schedule_status find_owned_schedule
    get_owned_schedule update_schedule update_installment lots_of get_eligible_lots push_share
    push_shares allocate_onto allocate_installments find_owned_budget derive_regular_total get_fund
    approve_found approve installment_rows create_schedule create_regular find_target create_charge
    charge_row create_charges refresh_schedule post_installment issue_pending issue_target issue
    ◌+ℤ◌ create_adjustment_row adjust_once create_adjustment cancel_charges count_siblings
    reverse_target reverse_installment reverse_within_transaction reverse_in_transaction
    update_journal find_owned_journal find_reversal
withdrawn_now = refl

reverse_installment_undoes_example :
    (l : LevySchedule) × (find_owned_schedule 1 1 100 db_issued.schedules ≡ some l)
    × (i : Installment) × (find (λ (x : Installment). x.id == 101) l.installments ≡ some i)
    × (i.status ≡ installment_issued)
    × All (λ c. c.levy_installment_id ≡ 101 → c.status ≡ cancelled) db_withdrawn.charges
    × (journal_id : ℕ) × (i.journal_entry_id ≡ some journal_id)
    × Unshared journal_id 101 db_issued.schedules
    × (j : Journal) × (original : Journal) × (find_owned_journal 1 1 journal_id db_issued.journals
        ≡ some original)
    × (j.reversal_of ≡ some original.id)
    × (db_withdrawn.journals ≡ j ∷ db_issued.journals)
    × ((account : ℕ)
        → (account_debit account j.lines ≡ account_credit account original.lines)
          × (account_credit account j.lines ≡ account_debit account original.lines))
reverse_installment_undoes_example =
    reverse_installment_undoes rounding 212 1 5 1 100 101 db_issued db_withdrawn schedule_withdrawn
      db_issued-Books.0.ledger db_issued-Books.0.linked withdrawn_now

adjustments_fresh :
    All (λ (a : Adjustment). a.journal_entry_id < db_issued.next_id) db_issued.adjustments
unfolding get_owned_property get_configuration fresh_id record_activity find_covering_period
    find_by_key check_lines check_references require_open_period stored_lines create_journal
    post_new post_in_transaction add group find_unbalanced contains unique find_rule find_specific
    resolve sum_entitlement find_negative before insert_floor order_floors set distribute floor_of
    apportion allocate_by_entitlement some_of compute_schedule_status find_owned_schedule
    get_owned_schedule update_schedule update_installment lots_of get_eligible_lots push_share
    push_shares allocate_onto allocate_installments find_owned_budget derive_regular_total get_fund
    approve_found approve installment_rows create_schedule create_regular find_target create_charge
    charge_row create_charges refresh_schedule post_installment issue_pending issue_target issue
    ◌+ℤ◌ create_adjustment_row adjust_once create_adjustment cancel_charges count_siblings
    reverse_target reverse_installment reverse_within_transaction reverse_in_transaction
    update_journal find_owned_journal find_reversal
adjustments_fresh = tt

adjustment_unposted :
    find_by_key 1 levy_adjustment
      (or_default (some 7) (uuid db_issued.next_id))
      1
      db_issued.journals
    ≡ none
unfolding get_owned_property get_configuration fresh_id record_activity find_covering_period
    find_by_key check_lines check_references require_open_period stored_lines create_journal
    post_new post_in_transaction add group find_unbalanced contains unique find_rule find_specific
    resolve sum_entitlement find_negative before insert_floor order_floors set distribute floor_of
    apportion allocate_by_entitlement some_of compute_schedule_status find_owned_schedule
    get_owned_schedule update_schedule update_installment lots_of get_eligible_lots push_share
    push_shares allocate_onto allocate_installments find_owned_budget derive_regular_total get_fund
    approve_found approve installment_rows create_schedule create_regular find_target create_charge
    charge_row create_charges refresh_schedule post_installment issue_pending issue_target issue
    ◌+ℤ◌ create_adjustment_row adjust_once create_adjustment cancel_charges count_siblings
    reverse_target reverse_installment reverse_within_transaction reverse_in_transaction
    update_journal find_owned_journal find_reversal
adjustment_unposted = refl

create_adjustment-effective_example :
    (c : Charge) × (find_levy_charge 1 1 103 db_issued.charges ≡ some c)
    × (is_cancelled c.status ≡ false)
    × (adjusted 103 db_adjusted.adjustments
        ≡ signed_cents rounding (negsuc 99_999_999) +ℤ adjusted 103 db_issued.adjustments)
    × (receivable : ℕ) × (resolve 1 lot_levy_receivable (some c.financial_fund_id) db_issued
        ≡ ok (receivable, db_issued))
    × (income : ℕ) × (resolve 1 levy_income (some c.financial_fund_id) db_issued
        ≡ ok (income, db_issued))
    × (j : Journal) × (db_adjusted.journals ≡ j ∷ db_issued.journals)
    × (j.lines ≡ moving rounding receivable income c.financial_fund_id (negsuc 99_999_999))
create_adjustment-effective_example =
    create_adjustment-effective rounding 211 uuid 1 5 1 103 (negsuc 99_999_999) (some 7) db_issued
      db_adjusted adjustment_row db_issued-Books.0.ledger adjustments_fresh adjustment_unposted
      adjusted_now
