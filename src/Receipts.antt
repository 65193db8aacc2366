-- ===== src/Receipts.antt =====
-- src/modules/financials/receipts.service.ts: cash that arrives for a lot, and its allocation to the
-- lot's levy charges.
pub mod Allocate
pub mod Record
pub mod Books
pub mod Applied
pub mod Effect
pub mod Keeps
pub mod Safety
pub mod Loops
pub mod Recording
pub mod Requests
pub mod Undoing
pub mod Reversals
pub mod Restoring
pub mod Restored
use waslproperty_backend.Prelude.{
  ℕ, ◌+◌, ◌*◌, ◌<◌, Bool, true, false, ◌&&◌, ◌||◌, not, Option, none, some, List, [], ◌∷◌, ltb, leb,
  ◌==◌, if◌then◌else◌, find, filter, length, sum_by,
}
use waslproperty_backend.Prelude.Int.{ℤ, pos, negsuc, pos_part, ◌+ℤ◌, ◌-ℤ◌, ltb_ℤ, leb_ℤ}
use waslproperty_backend.Prelude.Sort.{sort}
use waslproperty_backend.Prelude.Result.{
  not_found, conflict, no_record, lot, fund as fund_row, receipt as receipt_row,
  charge as charge_row, allocation as allocation_row, not_a_lot, receipt_reversed, charge_cancelled,
  fund_mismatch, over_allocated, over_applied, receipt_not_recorded, has_allocations,
  allocation_reversed as already_undone,
}
use waslproperty_backend.Store.{
  Db, Space, Fund, Journal, Charge, ChargeStatus, issued, part_paid, paid, cancelled, Adjustment,
  Receipt, recorded, reversed, Allocation, AllocationStatus, applied, undone, SourceType, receipt,
  payment_allocation, fund_cash, lot_levy_receivable, unapplied_cash, receipt_recorded,
  allocation_created,
}
use waslproperty_backend.Store.Money.{per_cent, Numeric}
use waslproperty_backend.Store.Tx.{Tx, pure, throw, gets, or_throw, throw_if, modify, ◌>>=◌, ◌>>◌}
use waslproperty_backend.Store.Rows.{
  get_owned_property, get_configuration, fresh_id, record_activity,
}
use waslproperty_backend.Posting.{LineInput, PostCommand, find_by_key, post_in_transaction}
use waslproperty_backend.PostingProfile.{resolve}

abbrev pub is_applied : AllocationStatus → Bool
is_applied applied = true
is_applied undone = false

abbrev pub is_recorded : Receipt → Bool
is_recorded r = elim r.status [ recorded ↦ true | reversed ↦ false ]

abbrev pub is_cancelled : ChargeStatus → Bool
is_cancelled cancelled = true
is_cancelled _ = false

-- `_sum.amount` of the applied allocations to a charge.
unfoldable pub applied_to : ℕ → List Allocation → ℕ
applied_to charge_id =
    sum_by (λ a. if a.charge_id == charge_id && is_applied a.status then a.amount else 0)

-- `_sum.amount` of the applied allocations of a receipt.
unfoldable pub applied_from : ℕ → List Allocation → ℕ
applied_from receipt_id =
    sum_by (λ a. if a.receipt_id == receipt_id && is_applied a.status then a.amount else 0)

-- `_sum.amount` of the adjustments of a charge.
unfoldable pub adjusted : ℕ → List Adjustment → ℤ
adjusted charge_id [] = pos 0
adjusted charge_id (a ∷ as') =
    let rest = adjusted charge_id as' in if a.charge_id == charge_id then a.amount +ℤ rest else rest

-- `effectiveAmount` in `chargeOutstanding`
unfoldable pub effective : Charge → List Adjustment → ℤ
effective c adjustments = pos c.amount +ℤ adjusted c.id adjustments

pub record Outstanding : Type 0 where
  pub charge : Charge
  pub effective_amount : ℤ
  pub applied_amount : ℕ
  pub outstanding : ℤ

unfoldable pub find_charge : ℕ → List Charge → Option Charge
find_charge id = find (λ c. c.id == id)

-- `chargeOutstanding`
unfoldable pub charge_outstanding : ℕ → Tx Outstanding
charge_outstanding charge_id = do
  row ← gets (λ s. find_charge charge_id s.charges)
  c ← or_throw row no_record
  total ← gets (λ s. effective c s.adjustments)
  paid_in ← gets (λ s. applied_to charge_id s.allocations)
  pure (record {
    charge = c;
    effective_amount = total;
    applied_amount = paid_in;
    outstanding = if is_cancelled c.status then pos 0 else total -ℤ pos paid_in;
  })

-- `next` in `updateChargeStatus`
abbrev pub next_status : ℤ → ℕ → ChargeStatus
next_status total paid_in =
    if leb_ℤ total (pos paid_in) && ltb_ℤ (pos 0) total
    then paid
    else if ltb 0 paid_in
    then part_paid
    else issued

-- `lotLevyCharge.update({ where: { id }, data: { status } })`
unfoldable pub set_status : ℕ → ChargeStatus → List Charge → List Charge
set_status id status [] = []
set_status id status (c ∷ cs) =
    let rest = set_status id status cs in
    if c.id == id then record c { status = status } ∷ rest else c ∷ rest

-- `updateChargeStatus`; an update to the status that a charge has already is no change.
unfoldable pub update_charge_status : ℕ → Tx (Unit {0})
update_charge_status charge_id = do
  o ← charge_outstanding charge_id
  if is_cancelled o.charge.status
      then pure tt
      else modify (λ s. record s {
        charges = set_status charge_id (next_status o.effective_amount o.applied_amount) s.charges;
      })

-- `receiptUnapplied`
unfoldable pub receipt_unapplied : ℕ → Tx ℤ
receipt_unapplied receipt_id = do
  row ← gets (λ s. find (λ r. r.id == receipt_id) s.receipts)
  r ← or_throw row no_record
  used ← gets (λ s. applied_from receipt_id s.allocations)
  pure (pos r.amount -ℤ pos used)

-- `amountDecimal.greaterThan(limit)`, of a requested amount and a limit in cents
abbrev pub exceeds : ℕ → ℤ → Bool
exceeds amount (pos limit) = ltb (limit * per_cent) amount
exceeds amount (negsuc n) = true

unfoldable pub find_owned_receipt : ℕ → ℕ → ℕ → List Receipt → Option Receipt
find_owned_receipt org prop id =
    find (λ r. r.id == id && r.organisation_id == org && r.property_id == prop)

-- `paymentAllocation.findUnique({ where: { journalEntryId } })`, for the journal of a source event
unfoldable pub find_by_journal : Option Journal → List Allocation → Option Allocation
find_by_journal none allocations = none
find_by_journal (some j) allocations = find (λ a. a.journal_entry_id == j.id) allocations

-- The two lines of a transfer of an amount between accounts within a fund.
abbrev pub transfer_lines : ℕ → ℕ → ℕ → ℕ → List LineInput
transfer_lines debited credited fund_id amount =
    record { account_id = debited; financial_fund_id = fund_id; debit = amount; credit = 0 }
    ∷ record { account_id = credited; financial_fund_id = fund_id; debit = 0; credit = amount }
    ∷ []

abbrev pub transfer_command : ℕ → ℕ → SourceType → ℕ → List LineInput → PostCommand
transfer_command date currency type source_id lines = record {
  effective_date = date;
  currency_code = some currency;
  source_type = type;
  source_id = source_id;
  source_event_version = none;
  lines = lines;
  allow_cross_fund = false;
}
