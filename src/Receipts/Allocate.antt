-- ===== src/Receipts/Allocate.antt =====
-- `applyAllocationWithinTransaction` and `autoAllocateWithinTransaction` in
-- src/modules/financials/receipts.service.ts. `random_uuid` is `randomUUID` of node:crypto, by the moment
-- of the call; `today` is the date of the clock.
use waslproperty_backend.Prelude.{
  ℕ, ◌*◌, Bool, true, false, ◌&&◌, ◌||◌, not, Option, none, some, List, [], ◌∷◌, ltb, leb, ◌==◌,
  if◌then◌else◌, filter, min,
}
use waslproperty_backend.Prelude.Int.{pos, pos_part, leb_ℤ}
use waslproperty_backend.Prelude.Sort.{sort}
use waslproperty_backend.Prelude.Result.{
  not_found, conflict, receipt as receipt_row, charge as charge_row, receipt_reversed,
  charge_cancelled, fund_mismatch, over_allocated, over_applied,
}
use waslproperty_backend.Store.{
  Journal, Charge, issued, part_paid, Receipt, Allocation, applied, payment_allocation,
  lot_levy_receivable, unapplied_cash, allocation_created,
}
use waslproperty_backend.Store.Money.{per_cent, Numeric}
use waslproperty_backend.Store.Tx.{Tx, pure, gets, or_throw, throw_if, modify, ◌>>=◌, ◌>>◌}
use waslproperty_backend.Store.Rows.{fresh_id, record_activity}
use waslproperty_backend.Posting.{find_by_key, post_in_transaction}
use waslproperty_backend.PostingProfile.{resolve}
use waslproperty_backend.Receipts.{
  is_recorded, is_cancelled, Outstanding, charge_outstanding, update_charge_status,
  receipt_unapplied, exceeds, find_owned_receipt, find_by_journal, transfer_lines, transfer_command,
}

-- The checks on the charge and the amounts.
unfoldable pub check_allocation : ℕ → ℕ → Receipt → Outstanding → ℕ → Tx (Unit {0})
check_allocation org prop r o amount = do
  throw_if (not (o.charge.organisation_id == org) || not (o.charge.property_id == prop))
      (not_found charge_row)
  throw_if (is_cancelled o.charge.status) (conflict charge_cancelled)
  throw_if (not (o.charge.financial_fund_id == r.financial_fund_id)) (conflict fund_mismatch)
  throw_if (exceeds amount o.outstanding) (conflict over_allocated)
  unapplied ← receipt_unapplied r.id
  throw_if (exceeds amount unapplied) (conflict over_applied)

-- The charges that may be paid from a receipt, oldest first.
abbrev pub is_candidate : ℕ → ℕ → ℕ → ℕ → Charge → Bool
is_candidate org prop space_id fund_id c =
    c.organisation_id == org
    && c.property_id == prop
    && c.space_id == space_id
    && c.financial_fund_id == fund_id
    && elim c.status [ issued ↦ true | part_paid ↦ true | _ ↦ false ]

abbrev pub older : Charge → Charge → Bool
older a b = ltb a.due_date b.due_date || (a.due_date == b.due_date && leb a.sort_order b.sort_order)

module _ (num : Numeric) (random_uuid : ℕ → ℕ) (today : ℕ) where
  -- `idempotencyKey ?? generateManualSourceId()`
  unfoldable pub source_id_of : Option ℕ → Tx ℕ
  source_id_of none = gets (λ s. random_uuid s.next_id)
  source_id_of (some key) = pure key

  -- `paymentAllocation.create`
  unfoldable pub create_row : ℕ → ℕ → ℕ → ℕ → ℕ → ℕ → ℕ → Tx Allocation
  create_row org actor prop receipt_id charge_id amount journal_id = do
    id ← fresh_id
    let row : Allocation = record {
      id = id;
      organisation_id = org;
      property_id = prop;
      receipt_id = receipt_id;
      charge_id = charge_id;
      amount = num.to_cents amount;
      status = applied;
      journal_entry_id = journal_id;
      reversed_by_user_id = none;
      created_by_user_id = actor;
    }
    modify (λ s. record s { allocations = row ∷ s.allocations })
    pure row

  -- The posting, where the checks have passed.
  unfoldable pub post_allocation : ℕ → ℕ → ℕ → Receipt → Charge → ℕ → ℕ → Tx Journal
  post_allocation org actor prop r c amount source_id = do
    receivable ← resolve prop lot_levy_receivable (some c.financial_fund_id)
    unapplied_account ← resolve prop unapplied_cash none
    post_in_transaction num org actor prop (
        transfer_command today r.currency_code payment_allocation source_id
          (transfer_lines unapplied_account receivable c.financial_fund_id amount))

  -- `applyAllocationWithinTransaction`, where no allocation has the source event yet.
  unfoldable pub apply_new : ℕ → ℕ → ℕ → Receipt → ℕ → ℕ → ℕ → Tx Allocation
  apply_new org actor prop r charge_id amount source_id = do
    o ← charge_outstanding charge_id
    check_allocation org prop r o amount
    j ← post_allocation org actor prop r o.charge amount source_id
    row ← create_row org actor prop r.id charge_id amount j.id
    update_charge_status charge_id
    record_activity org prop actor allocation_created row.id
    pure row

  unfoldable pub apply_allocation : ℕ → ℕ → ℕ → ℕ → ℕ → ℕ → Option ℕ → Tx Allocation
  apply_allocation org actor prop receipt_id charge_id amount key = do
    found ← gets (λ s. find_owned_receipt org prop receipt_id s.receipts)
    r ← or_throw found (not_found receipt_row)
    throw_if (not (is_recorded r)) (conflict receipt_reversed)
    source_id ← source_id_of key
    existing ← gets (λ s.
        find_by_journal (find_by_key prop payment_allocation source_id 1 s.journals) s.allocations)
    elim existing [ some a ↦ pure a | none ↦ apply_new org actor prop r charge_id amount source_id ]

  -- The loop of `autoAllocateWithinTransaction`.
  unfoldable pub allocate_each : ℕ → ℕ → ℕ → ℕ → List Charge → Tx (List Allocation)
  allocate_each org actor prop receipt_id [] = pure []
  allocate_each org actor prop receipt_id (c ∷ cs) =
      let rest = allocate_each org actor prop receipt_id cs in
      do
        remaining ← receipt_unapplied receipt_id
        if leb_ℤ remaining (pos 0) then pure [] else do
          o ← charge_outstanding c.id
          if leb_ℤ o.outstanding (pos 0) then rest else do
            a ←
                apply_allocation org actor prop receipt_id c.id
                  (min (pos_part remaining) (pos_part o.outstanding) * per_cent) none
            created ← rest
            pure (a ∷ created)

  -- `autoAllocateWithinTransaction`
  unfoldable pub auto_allocate : ℕ → ℕ → ℕ → ℕ → ℕ → ℕ → Tx (List Allocation)
  auto_allocate org actor prop receipt_id space_id fund_id = do
    candidates ← gets (λ s. sort older (filter (is_candidate org prop space_id fund_id) s.charges))
    allocate_each org actor prop receipt_id candidates
