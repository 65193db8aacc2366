-- ===== src/Receipts/Record.antt =====
-- `recordReceipt`, `createAllocation` and the reversals in src/modules/financials/receipts.service.ts.
use waslproperty_backend.Prelude.{
  ℕ, ◌&&◌, Bool, not, Option, none, some, List, [], ◌∷◌, ltb, ◌==◌, if◌then◌else◌, find, filter,
  length,
}
use waslproperty_backend.Prelude.Result.{
  not_found, conflict, lot, fund as fund_row, receipt as receipt_row, allocation as allocation_row,
  not_a_lot, receipt_not_recorded, has_allocations, allocation_reversed as allocation_not_applied,
}
use waslproperty_backend.Store.{
  Space, Fund, Journal, Receipt, recorded, reversed, Allocation, undone, receipt, fund_cash,
  unapplied_cash, receipt_recorded, receipt_reversed, allocation_reversed,
}
use waslproperty_backend.Store.Money.{Numeric}
use waslproperty_backend.Store.Tx.{Tx, pure, gets, or_throw, throw_if, modify, ◌>>=◌, ◌>>◌}
use waslproperty_backend.Store.Rows.{
  get_owned_property, get_configuration, fresh_id, record_activity,
}
use waslproperty_backend.Posting.{or_default, find_by_key, post_in_transaction}
use waslproperty_backend.Posting.Reverse.{reverse_within_transaction}
use waslproperty_backend.PostingProfile.{resolve}
use waslproperty_backend.Receipts.{
  is_applied, is_recorded, update_charge_status, find_owned_receipt, transfer_lines,
  transfer_command,
}
use waslproperty_backend.Receipts.Allocate.{source_id_of, apply_allocation, auto_allocate}

-- `RecordReceiptInput`, less the texts; a manual allocation is a charge and an amount.
pub record ReceiptInput : Type 0 where
  pub space_id : ℕ
  pub financial_fund_id : ℕ
  pub amount : ℕ
  pub receipt_date : ℕ
  pub posting_date : Option ℕ
  pub idempotency_key : Option ℕ
  pub allocations : List (ℕ × ℕ)
  pub auto_allocate : Bool

-- `getOwnedLot`
unfoldable pub get_owned_lot : ℕ → ℕ → ℕ → Tx Space
get_owned_lot org prop space_id = do
  row ← gets (λ s.
      find (λ x. x.id == space_id && x.organisation_id == org && x.property_id == prop) s.spaces)
  space ← or_throw row (not_found lot)
  throw_if (not space.is_lot) (conflict not_a_lot)
  pure space

unfoldable pub get_owned_fund : ℕ → ℕ → ℕ → Tx Fund
get_owned_fund org prop fund_id = do
  row ← gets (λ s.
      find (λ f. f.id == fund_id && f.organisation_id == org && f.property_id == prop) s.funds)
  or_throw row (not_found fund_row)

-- `receipt.findUnique({ where: { journalEntryId } })`, for the journal of a source event
unfoldable pub find_receipt_by_journal : Option Journal → List Receipt → Option Receipt
find_receipt_by_journal none receipts = none
find_receipt_by_journal (some j) receipts = find (λ r. r.journal_entry_id == j.id) receipts

-- `receipt.update({ where: { id } })` and `paymentAllocation.update({ where: { id } })`
unfoldable pub reverse_receipt_row : ℕ → ℕ → List Receipt → List Receipt
reverse_receipt_row id actor [] = []
reverse_receipt_row id actor (r ∷ rs) =
    let rest = reverse_receipt_row id actor rs in
    if r.id == id
    then record r { status = reversed; reversed_by_user_id = some actor } ∷ rest
    else r ∷ rest

unfoldable pub reverse_allocation_row : ℕ → ℕ → List Allocation → List Allocation
reverse_allocation_row id actor [] = []
reverse_allocation_row id actor (a ∷ as') =
    let rest = reverse_allocation_row id actor as' in
    if a.id == id
    then record a { status = undone; reversed_by_user_id = some actor } ∷ rest
    else a ∷ rest

module _ (num : Numeric) (random_uuid : ℕ → ℕ) (today : ℕ) where
  -- `receipt.create`
  unfoldable pub create_receipt : ℕ → ℕ → ℕ → Space → Fund → ReceiptInput → ℕ → Journal → Tx Receipt
  create_receipt org actor prop space f input cash_account j = do
    id ← fresh_id
    let row : Receipt = record {
      id = id;
      organisation_id = org;
      property_id = prop;
      space_id = space.id;
      financial_fund_id = input.financial_fund_id;
      destination_account_id = cash_account;
      amount = num.to_cents input.amount;
      currency_code = f.currency_code;
      receipt_date = input.receipt_date;
      posting_date = or_default input.posting_date input.receipt_date;
      status = recorded;
      journal_entry_id = j.id;
      reversed_by_user_id = none;
      created_by_user_id = actor;
    }
    modify (λ s. record s { receipts = row ∷ s.receipts })
    pure row

  -- The loop over the manual allocations.
  unfoldable pub apply_each : ℕ → ℕ → ℕ → ℕ → List (ℕ × ℕ) → Tx (Unit {0})
  apply_each org actor prop receipt_id [] = pure tt
  apply_each org actor prop receipt_id ((charge_id, amount) ∷ rest) =
      let later = apply_each org actor prop receipt_id rest in
      do
        apply_allocation num random_uuid today org actor prop receipt_id charge_id amount none
        later

  -- The immediate allocation: the manual one if there is any, else the automatic one if it is asked for.
  unfoldable pub allocate_now : ℕ → ℕ → ℕ → ℕ → ℕ → ReceiptInput → Tx (Unit {0})
  allocate_now org actor prop receipt_id space_id input = elim input.allocations [
    | a ∷ as' ↦ apply_each org actor prop receipt_id (a ∷ as')
    | [] ↦
        if input.auto_allocate
        then (do
          auto_allocate num random_uuid today org actor prop receipt_id space_id
              input.financial_fund_id
          pure tt)
        else pure tt
  ]

  -- The rest of the transaction of `recordReceipt`, where no receipt has the source event yet.
  unfoldable pub record_new : ℕ → ℕ → ℕ → Space → Fund → ReceiptInput → ℕ → Tx ℕ
  record_new org actor prop space f input source_id = do
    cash_account ← resolve prop fund_cash (some input.financial_fund_id)
    unapplied_account ← resolve prop unapplied_cash none
    j ← post_in_transaction num org actor prop (
        transfer_command (or_default input.posting_date input.receipt_date) f.currency_code receipt
          source_id
          (transfer_lines cash_account unapplied_account input.financial_fund_id input.amount))
    row ← create_receipt org actor prop space f input cash_account j
    record_activity org prop actor receipt_recorded row.id
    allocate_now org actor prop row.id space.id input
    pure row.id

  -- `recordReceipt`: the id of the receipt.
  unfoldable pub record_receipt : ℕ → ℕ → ℕ → ReceiptInput → Tx ℕ
  record_receipt org actor prop input = do
    get_owned_property org prop
    get_configuration prop
    space ← get_owned_lot org prop input.space_id
    f ← get_owned_fund org prop input.financial_fund_id
    source_id ← source_id_of num random_uuid today input.idempotency_key
    existing ←
        gets (λ s.
          find_receipt_by_journal (find_by_key prop receipt source_id 1 s.journals) s.receipts)
    elim existing [ some r ↦ pure r.id | none ↦ record_new org actor prop space f input source_id ]

  unfoldable pub create_allocation : ℕ → ℕ → ℕ → ℕ → ℕ → ℕ → Option ℕ → Tx Allocation
  create_allocation org actor prop receipt_id charge_id amount key = do
    get_owned_property org prop
    get_configuration prop
    apply_allocation num random_uuid today org actor prop receipt_id charge_id amount key

module _ (num : Numeric) (today : ℕ) where
  unfoldable pub reverse_receipt : ℕ → ℕ → ℕ → ℕ → Tx (Unit {0})
  reverse_receipt org actor prop receipt_id = do
    get_owned_property org prop
    get_configuration prop
    found ← gets (λ s. find_owned_receipt org prop receipt_id s.receipts)
    r ← or_throw found (not_found receipt_row)
    throw_if (not (is_recorded r)) (conflict receipt_not_recorded)
    active ←
        gets (λ s. filter (λ a. a.receipt_id == receipt_id && is_applied a.status) s.allocations)
    throw_if (ltb 0 (length active)) (conflict has_allocations)
    reverse_within_transaction num org actor prop r.journal_entry_id none today
    modify (λ s. record s { receipts = reverse_receipt_row receipt_id actor s.receipts })
    record_activity org prop actor receipt_reversed r.id

  unfoldable pub reverse_allocation : ℕ → ℕ → ℕ → ℕ → Tx (Unit {0})
  reverse_allocation org actor prop allocation_id = do
    get_owned_property org prop
    get_configuration prop
    found ← gets (λ s.
        find (λ a. a.id == allocation_id && a.organisation_id == org && a.property_id == prop)
          s.allocations)
    a ← or_throw found (not_found allocation_row)
    throw_if (not (is_applied a.status)) (conflict allocation_not_applied)
    reverse_within_transaction num org actor prop a.journal_entry_id none today
    modify
        (λ s. record s { allocations = reverse_allocation_row allocation_id actor s.allocations })
    update_charge_status a.charge_id
    record_activity org prop actor allocation_reversed a.id
