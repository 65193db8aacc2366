-- ===== src/Examples/Levies.antt =====
-- A levy of src/modules/financials/levies.service.ts on a concrete property with two lots: it is drafted from a
-- budget, approved, issued, adjusted and reversed.
use waslproperty_backend.Prelude.{
  ℕ, ◌≡◌, refl, true, Option, none, some, List, [], ◌∷◌, arith, map, filter, sum_by,
}
use waslproperty_backend.Prelude.Buckets.{add, group, find_unbalanced}
use waslproperty_backend.Prelude.Int.{negsuc, ◌+ℤ◌}
use waslproperty_backend.Prelude.Result.{ok}
use waslproperty_backend.Prelude.Unique.{DistinctIds, contains, unique}
use waslproperty_backend.LevyAllocation.{
  sum_entitlement, find_negative, before, insert_floor, order_floors, set, distribute, floor_of,
  apportion, allocate_by_entitlement,
}
use waslproperty_backend.Store.{
  Space, Budget, BudgetLine, Charge, regular, ChargeStatus, issued, Installment,
  installment_pending, LevySchedule, ScheduleStatus, levy_draft, levy_partially_issued,
  levy_approved, levy_income, levy_regular, Adjustment,
}
use waslproperty_backend.Store.Rows.{
  get_owned_property, get_configuration, fresh_id, record_activity,
}
use waslproperty_backend.Periods.{find_covering_period}
use waslproperty_backend.Posting.{
  find_by_key, check_lines, check_references, require_open_period, stored_lines, create_journal,
  post_new, post_in_transaction,
}
use waslproperty_backend.PostingProfile.{find_rule, find_specific, resolve}
use waslproperty_backend.Levies.{
  some_of, compute_schedule_status, find_owned_schedule, get_owned_schedule, update_schedule,
  update_installment, lots_of, get_eligible_lots,
}
use waslproperty_backend.Levies.Split.{
  LotRow, push_share, push_shares, allocate_onto, allocate_installments,
}
use waslproperty_backend.Budgets.{is_active, find_owned_budget}
use waslproperty_backend.Levies.Schedules.{
  is_levy_revenue, derive_regular_total, get_fund, approve_found, approve, installment_rows,
  create_schedule, create_regular,
}
use waslproperty_backend.Levies.Issue.{
  find_target, create_charge, charge_row, create_charges, refresh_schedule, post_installment,
  issue_pending, issue_target, issue,
}
use waslproperty_backend.Levies.Corrections.{create_adjustment_row, adjust_once, create_adjustment}
use waslproperty_backend.Levies.Drafted.{planned, create_regular-planned}
use waslproperty_backend.Levies.Reconciled.{Billed, issue_reconciles}
use waslproperty_backend.Levies.Repeated.{issue_idempotent}
use waslproperty_backend.Levies.Reachable.{
  drafted_regular, approved, Reach, here, next, Standing, Reach-Standing,
}
use waslproperty_backend.Examples.Data.{rounding}
use waslproperty_backend.Examples.Levy.{milli}
use waslproperty_backend.Examples.Receipting.{uuid}
use waslproperty_backend.Examples.LevyData.{
  db_planned, installments, returned, db_drafted, db_approved, db_issued, db_adjusted,
}

charges_issued :
    map {B = ℕ × ℕ × ChargeStatus}
      (λ (c : Charge). (c.space_id, c.amount, c.status))
      db_issued.charges
    ≡ (41, 3_333, issued) ∷ (40, 1_667, issued) ∷ []
unfolding get_owned_property get_configuration fresh_id record_activity find_covering_period
    find_by_key check_lines check_references require_open_period stored_lines create_journal
    post_new post_in_transaction add group find_unbalanced contains unique find_rule find_specific
    resolve sum_entitlement find_negative before insert_floor order_floors set distribute floor_of
    apportion allocate_by_entitlement some_of compute_schedule_status find_owned_schedule
    get_owned_schedule update_schedule update_installment lots_of get_eligible_lots push_share
    push_shares allocate_onto allocate_installments find_owned_budget derive_regular_total get_fund
    approve_found approve installment_rows create_schedule create_regular find_target create_charge
    charge_row create_charges refresh_schedule post_installment issue_pending issue_target issue
    ◌+ℤ◌
charges_issued = refl

statuses_issued :
    map {B = ScheduleStatus} (λ (l : LevySchedule). l.status) db_issued.schedules
    ≡ levy_partially_issued ∷ []
unfolding get_owned_property get_configuration fresh_id record_activity find_covering_period
    find_by_key check_lines check_references require_open_period stored_lines create_journal
    post_new post_in_transaction add group find_unbalanced contains unique find_rule find_specific
    resolve sum_entitlement find_negative before insert_floor order_floors set distribute floor_of
    apportion allocate_by_entitlement some_of compute_schedule_status find_owned_schedule
    get_owned_schedule update_schedule update_installment lots_of get_eligible_lots push_share
    push_shares allocate_onto allocate_installments find_owned_budget derive_regular_total get_fund
    approve_found approve installment_rows create_schedule create_regular find_target create_charge
    charge_row create_charges refresh_schedule post_installment issue_pending issue_target issue
    ◌+ℤ◌
statuses_issued = refl

abbrev pub schedule : LevySchedule
schedule = record {
  id = 100;
  organisation_id = 1;
  property_id = 1;
  configuration_id = 1;
  financial_fund_id = 20;
  financial_budget_id = some 80;
  kind = regular;
  total_amount = 10_001;
  status = levy_draft;
  external_approval_date = none;
  created_by_user_id = 5;
  approved_by_user_id = none;
  cancelled_by_user_id = none;
  installments = installment_rows rounding 101 0 installments;
}

abbrev schedule_approved : LevySchedule
schedule_approved = record schedule { status = levy_approved; approved_by_user_id = some 5 }

abbrev first : Installment
first = record {
  id = 101;
  due_date = 200;
  amount = 5_000;
  sort_order = 0;
  status = installment_pending;
  issued_by_user_id = none;
  journal_entry_id = none;
  reversed_by_user_id = none;
}

drafted : create_regular rounding 1 5 1 20 80 installments db_planned ≡ ok (schedule, db_drafted)
unfolding get_owned_property get_configuration record_activity find_rule find_specific resolve
    find_owned_schedule get_owned_schedule update_schedule find_owned_budget derive_regular_total
    get_fund approve_found approve installment_rows create_schedule create_regular
drafted = refl

approved_now : approve 1 5 1 100 db_drafted ≡ ok (schedule_approved, db_approved)
unfolding get_owned_property get_configuration record_activity find_rule find_specific resolve
    find_owned_schedule get_owned_schedule update_schedule find_owned_budget derive_regular_total
    get_fund approve_found approve installment_rows create_schedule create_regular
approved_now = refl

abbrev pub result_issued : LevySchedule × Option (List LotRow)
result_issued =
    returned (schedule, none) (issue milli rounding 210 1 5 1 100 (some 101) db_approved)

pub issued_now :
    issue milli rounding 210 1 5 1 100 (some 101) db_approved ≡ ok (result_issued, db_issued)
unfolding get_owned_property get_configuration fresh_id record_activity find_covering_period
    find_by_key check_lines check_references require_open_period stored_lines create_journal
    post_new post_in_transaction add group find_unbalanced contains unique find_rule find_specific
    resolve sum_entitlement find_negative before insert_floor order_floors set distribute floor_of
    apportion allocate_by_entitlement some_of compute_schedule_status find_owned_schedule
    get_owned_schedule update_schedule update_installment lots_of get_eligible_lots push_share
    push_shares allocate_onto allocate_installments find_owned_budget derive_regular_total get_fund
    approve_found approve installment_rows create_schedule create_regular find_target create_charge
    charge_row create_charges refresh_schedule post_installment issue_pending issue_target issue
    ◌+ℤ◌
issued_now = refl

abbrev pub adjustment_row : Adjustment
adjustment_row = record {
  id = 107;
  charge_id = 103;
  amount = negsuc 99;
  journal_entry_id = 106;
  created_by_user_id = 5;
}

pub adjusted_now :
    create_adjustment rounding 211 uuid 1 5 1 103 (negsuc 99_999_999) (some 7) db_issued
    ≡ ok (adjustment_row, db_adjusted)
unfolding get_owned_property get_configuration fresh_id record_activity find_covering_period
    find_by_key check_lines check_references require_open_period stored_lines create_journal
    post_new post_in_transaction add group find_unbalanced contains unique find_rule find_specific
    resolve sum_entitlement find_negative before insert_floor order_floors set distribute floor_of
    apportion allocate_by_entitlement some_of compute_schedule_status find_owned_schedule
    get_owned_schedule update_schedule update_installment lots_of get_eligible_lots push_share
    push_shares allocate_onto allocate_installments find_owned_budget derive_regular_total get_fund
    approve_found approve installment_rows create_schedule create_regular find_target create_charge
    charge_row create_charges refresh_schedule post_installment issue_pending issue_target issue
    ◌+ℤ◌ create_adjustment_row adjust_once create_adjustment
adjusted_now = refl

db_planned-Standing : Standing milli rounding uuid 1 1 db_planned
db_planned-Standing = record {
  ledger = record {
    keyed = record {
      accounts = ((omega arith, (omega arith, tt)), ((omega arith, tt), (tt, tt)));
      funds = ((omega arith, tt), (tt, tt));
    };
    one_per_event = tt;
    fresh = tt;
  };
  linked = tt;
  register = record { consistent = tt; ids = tt; fresh = tt };
}

approved_reached : Reach milli rounding uuid 1 1 db_planned db_approved
approved_reached =
    next (next here (drafted_regular 5 20 80 installments schedule drafted))
      (approved 5 100 schedule_approved approved_now)

pub db_approved-Standing : Standing milli rounding uuid 1 1 db_approved
db_approved-Standing = Reach-Standing milli rounding uuid 1 1 approved_reached db_planned-Standing

create_regular-planned_example :
    (planned schedule ≡ schedule.total_amount)
    × (b : Budget) × (income : ℕ) × (find_owned_budget 1 1 80 db_planned.budgets ≡ some b)
    × (is_active b.status ≡ true)
    × (resolve 1 levy_income (some 20) db_planned ≡ ok (income, db_planned))
    × (schedule.total_amount
        ≡ sum_by
            (λ (x : BudgetLine). x.planned_amount)
            (filter (is_levy_revenue 20 income) b.lines))
create_regular-planned_example =
    create_regular-planned rounding 1 5 1 20 80 installments db_planned db_drafted schedule
      (refl, (refl, tt)) drafted

schedule_found : find_owned_schedule 1 1 100 db_approved.schedules ≡ some schedule_approved
unfolding get_owned_property get_configuration record_activity find_rule find_specific resolve
    find_owned_schedule get_owned_schedule update_schedule find_owned_budget derive_regular_total
    get_fund approve_found approve installment_rows create_schedule create_regular
schedule_found = refl

target_found : find_target (some 101) schedule_approved.installments ≡ some first
unfolding find_target installment_rows
target_found = refl

spaces_distinct : DistinctIds (λ (p : Space). p.id) db_approved.spaces
unfolding get_owned_property get_configuration record_activity find_rule find_specific resolve
    find_owned_schedule get_owned_schedule update_schedule find_owned_budget derive_regular_total
    get_fund approve_found approve installment_rows create_schedule create_regular
spaces_distinct = ((omega arith, tt), (tt, tt))

unposted : find_by_key 1 levy_regular 101 1 db_approved.journals ≡ none
unfolding find_by_key get_owned_property get_configuration record_activity find_rule find_specific
    resolve find_owned_schedule get_owned_schedule update_schedule find_owned_budget
    derive_regular_total get_fund approve_found approve installment_rows create_schedule
    create_regular
unposted = refl

issue_reconciles_example :
    Billed milli rounding 210 1 5 1 schedule_approved first db_approved db_issued
issue_reconciles_example =
    issue_reconciles milli rounding 210 1 5 1 100 (some 101) db_approved db_issued result_issued
      schedule_approved first db_approved-Standing.ledger spaces_distinct schedule_found
      target_found refl unposted issued_now

issue_idempotent_example :
    issue milli rounding 220 1 6 1 100 (some 101) db_issued
    ≡ ok ((result_issued.0, none), db_issued)
issue_idempotent_example =
    issue_idempotent milli rounding 1 1 100 101 210 220 5 6 db_approved db_issued result_issued
      db_approved-Standing.ledger issued_now
