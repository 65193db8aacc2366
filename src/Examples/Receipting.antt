-- ===== src/Examples/Receipting.antt =====
-- Receipts and allocations of src/modules/financials/receipts.service.ts on a concrete lot: a receipt of
-- 15.00 and two charges of 10.00 and 20.00.
use waslproperty_backend.Prelude.{
  ℕ, In, ◌+◌, ◌*◌, ◌≡◌, refl, inr, true, Option, none, some, [], ◌∷◌, arith, map,
}
use waslproperty_backend.Prelude.Buckets.{add, group, find_unbalanced}
use waslproperty_backend.Prelude.Int.{pos, ◌+ℤ◌, ◌-ℤ◌}
use waslproperty_backend.Prelude.Result.{ok, err, conflict, no_posting_account}
use waslproperty_backend.Prelude.Sort.{sort}
use waslproperty_backend.Prelude.Unique.{contains, unique}
use waslproperty_backend.Posting.Reverse.{
  update_journal, find_owned_journal, find_reversal, reverse_in_transaction,
  reverse_within_transaction,
}
use waslproperty_backend.Store.{
  Allocation, Db, Rule, PostingRole, fund_cash, lot_levy_receivable, unapplied_cash, suspense,
  Charge, ChargeStatus, issued, part_paid, paid,
}
use waslproperty_backend.Store.Money.{per_cent}
use waslproperty_backend.Store.Tx.{after}
use waslproperty_backend.Store.Rows.{
  get_owned_property, get_configuration, fresh_id, record_activity,
}
use waslproperty_backend.Periods.{find_covering_period}
use waslproperty_backend.Posting.{
  find_by_key, check_lines, check_references, require_open_period, stored_lines, create_journal,
  post_new, post_in_transaction,
}
use waslproperty_backend.PostingProfile.{
  find_rule, find_specific, resolve, update_rule, check_fund, create_rule, upsert,
}
use waslproperty_backend.PostingProfile.Resolve.{Profile, resolve-upsert, upsert-Profile}
use waslproperty_backend.Receipts.{
  applied_to, applied_from, adjusted, effective, find_charge, charge_outstanding, set_status,
  update_charge_status, receipt_unapplied, find_owned_receipt, find_by_journal,
}
use waslproperty_backend.Receipts.Allocate.{
  check_allocation, source_id_of, create_row, post_allocation, apply_new, apply_allocation,
  allocate_each, auto_allocate,
}
use waslproperty_backend.Receipts.Record.{
  reverse_allocation_row, ReceiptInput, get_owned_lot, get_owned_fund, find_receipt_by_journal,
  create_receipt, apply_each, allocate_now, record_new, record_receipt, create_allocation,
  reverse_receipt, reverse_allocation,
}
use waslproperty_backend.Receipts.Books.{Books}
use waslproperty_backend.Receipts.Requests.{record_receipt-Books, create_allocation-Books}
use waslproperty_backend.Receipts.Restored.{reverse_allocation_restores}
use waslproperty_backend.Receipts.Restoring.{reverse_receipt-Books, reverse_allocation-Books}
use waslproperty_backend.Examples.Data.{rounding, db}

abbrev pub uuid : ℕ → ℕ
uuid n = n + 1000

abbrev pub rule : ℕ → PostingRole → Option ℕ → ℕ → Rule
rule id role fund account = record {
  id = id;
  organisation_id = 1;
  property_id = 1;
  role = role;
  financial_fund_id = fund;
  account_id = account;
}

abbrev charge : ℕ → ℕ → ℕ → Charge
charge id amount due = record {
  id = id;
  organisation_id = 1;
  property_id = 1;
  levy_schedule_id = 70;
  levy_installment_id = id + 20;
  space_id = 40;
  financial_fund_id = 20;
  amount = amount;
  status = issued;
  due_date = due;
  sort_order = 0;
}

abbrev db_lot : Db
db_lot = record db {
  spaces =
      record {
        id = 40;
        organisation_id = 1;
        property_id = 1;
        is_lot = true;
        entitlement_value = some (pos 100);
      }
      ∷ [];
  rules =
      rule 60 fund_cash (some 20) 10
      ∷ rule 61 unapplied_cash none 11
      ∷ rule 62 lot_levy_receivable none 12
      ∷ [];
  charges = charge 51 2000 300 ∷ charge 50 1000 200 ∷ [];
}

abbrev input : ReceiptInput
input = record {
  space_id = 40;
  financial_fund_id = 20;
  amount = 1500 * per_cent;
  receipt_date = 200;
  posting_date = none;
  idempotency_key = some 9;
  allocations = [];
  auto_allocate = true;
}

db_lot-Books : Books db_lot
unfolding applied_to effective adjusted ◌+ℤ◌
db_lot-Books = record {
  ledger = record {
    keyed = record {
      accounts = ((omega arith, (omega arith, tt)), ((omega arith, tt), (tt, tt)));
      funds = ((omega arith, tt), (tt, tt));
    };
    one_per_event = tt;
    fresh = tt;
  };
  linked = tt;
  receipt_ids = tt;
  charge_ids = ((omega arith, tt), (tt, tt));
  receipts_fresh = tt;
  allocations_fresh = tt;
  allocation_ids = tt;
  receipts = tt;
  charges = (omega arith, (omega arith, tt));
  settled = (inr refl, (inr refl, tt));
}

abbrev db_paid : Db
db_paid = after db_lot (record_receipt rounding uuid 210 1 5 1 input db_lot)

-- The older charge is paid, and what is left goes to the other one.
statuses_paid :
    map {B = ℕ × ChargeStatus} (λ (c : Charge). (c.id, c.status)) db_paid.charges
    ≡ (51, part_paid) ∷ (50, paid) ∷ []
unfolding get_owned_property get_configuration fresh_id record_activity find_covering_period
    find_by_key check_lines check_references require_open_period stored_lines create_journal
    post_new post_in_transaction add group find_unbalanced contains unique sort find_rule
    find_specific resolve applied_to applied_from adjusted effective ◌+ℤ◌ ◌-ℤ◌ find_charge
    charge_outstanding set_status update_charge_status receipt_unapplied find_owned_receipt
    find_by_journal check_allocation source_id_of create_row post_allocation apply_new
    apply_allocation allocate_each auto_allocate get_owned_lot get_owned_fund
    find_receipt_by_journal create_receipt apply_each allocate_now record_new record_receipt
statuses_paid = refl

db_paid-Books : Books db_paid
db_paid-Books = record_receipt-Books rounding uuid 210 1 5 1 input db_lot db_lot-Books

record_receipt-Books_example :
    Books (after db_lot (record_receipt rounding uuid 210 1 5 1 input db_lot))
record_receipt-Books_example =
    record_receipt-Books rounding uuid 210 1 5 1 input db_lot db_lot-Books

create_allocation-Books_example :
    Books (after db_paid (create_allocation rounding uuid 210 1 5 1 101 51 per_cent none db_paid))
create_allocation-Books_example =
    create_allocation-Books rounding uuid 210 1 5 1 101 51 per_cent none db_paid db_paid-Books

reverse_allocation-Books_example :
    Books (after db_paid (reverse_allocation rounding 220 1 5 1 103 db_paid))
reverse_allocation-Books_example =
    reverse_allocation-Books rounding 220 1 5 1 103 db_paid db_paid-Books

reverse_receipt-Books_example :
    Books (after db_paid (reverse_receipt rounding 220 1 5 1 101 db_paid))
reverse_receipt-Books_example = reverse_receipt-Books rounding 220 1 5 1 101 db_paid db_paid-Books

-- The posting profile.
no_account : resolve 1 suspense (some 20) db_lot ≡ err (conflict no_posting_account)
unfolding resolve find_specific find_rule
no_account = refl

db_lot-Profile : Profile db_lot
db_lot-Profile = record {
  distinct =
      (((refl, omega arith), ((refl, omega arith), tt)), (((refl, omega arith), tt), (tt, tt)));
  fresh = (omega arith, (omega arith, (omega arith, tt)));
}

abbrev db_changed : Db
db_changed = after db_lot (upsert 1 5 1 fund_cash (some 20) 12 db_lot)

upsert_found :
    upsert 1 5 1 fund_cash (some 20) 12 db_lot ≡ ok (rule 60 fund_cash (some 20) 12, db_changed)
unfolding get_owned_property get_configuration record_activity find_rule update_rule check_fund
    create_rule upsert fresh_id
upsert_found = refl

resolve-upsert_example : resolve 1 fund_cash (some 20) db_changed ≡ ok (12, db_changed)
resolve-upsert_example =
    resolve-upsert 1 5 1 fund_cash (some 20) 12 db_lot db_changed
      {r = rule 60 fund_cash (some 20) 12} db_lot-Profile upsert_found

upsert-Profile_example : Profile (after db_lot (upsert 1 5 1 fund_cash none 12 db_lot))
upsert-Profile_example = upsert-Profile 1 5 1 fund_cash none 12 db_lot db_lot-Profile

abbrev db_undone : Db
db_undone = after db_paid (reverse_allocation rounding 220 1 5 1 103 db_paid)

undo_found : reverse_allocation rounding 220 1 5 1 103 db_paid ≡ ok (tt, db_undone)
unfolding get_owned_property get_configuration fresh_id record_activity find_covering_period
    find_by_key check_lines check_references require_open_period stored_lines create_journal
    post_new post_in_transaction add group find_unbalanced contains unique sort find_rule
    find_specific resolve applied_to applied_from adjusted effective ◌+ℤ◌ ◌-ℤ◌ find_charge
    charge_outstanding set_status update_charge_status receipt_unapplied find_owned_receipt
    find_by_journal check_allocation source_id_of create_row post_allocation apply_new
    apply_allocation allocate_each auto_allocate get_owned_lot get_owned_fund
    find_receipt_by_journal create_receipt apply_each allocate_now record_new record_receipt
    reverse_allocation reverse_allocation_row reverse_within_transaction reverse_in_transaction
    update_journal find_owned_journal find_reversal
undo_found = refl

reverse_allocation_restores_example :
    (a : Allocation) × In a db_paid.allocations
    × (a.id ≡ 103)
    × (applied_from a.receipt_id db_undone.allocations + a.amount
        ≡ applied_from a.receipt_id db_paid.allocations)
    × (applied_to a.charge_id db_undone.allocations + a.amount
        ≡ applied_to a.charge_id db_paid.allocations)
reverse_allocation_restores_example =
    reverse_allocation_restores rounding 220 1 5 1 103 db_paid db_undone db_paid-Books undo_found
