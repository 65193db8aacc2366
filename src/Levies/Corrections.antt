-- ===== src/Levies/Corrections.antt =====
-- `reverseInstallment` and `createAdjustment` in src/modules/financials/levies.service.ts, and the effective
-- amounts of `listCharges`.
use waslproperty_backend.Prelude.{
  ℕ, zero, suc, ◌+◌, Bool, ◌&&◌, not, Option, none, some, List, [], ◌∷◌, ltb, ◌==◌, is_key,
  if◌then◌else◌, find, filter, length,
}
use waslproperty_backend.Prelude.Int.{ℤ, pos, negsuc, pos_part, neg_part}
use waslproperty_backend.Prelude.Result.{
  not_found, conflict, installment, charge as charge_missing, not_issued, no_journal,
  shared_journal, charge_cancelled,
}
use waslproperty_backend.Store.{
  Charge, cancelled, Adjustment, levy_adjustment, lot_levy_receivable, levy_income, Installment,
  installment_reversed, LevySchedule, levy_installment_reversed, levy_charge_adjusted,
}
use waslproperty_backend.Store.Money.{Numeric}
use waslproperty_backend.Store.Tx.{Tx, pure, gets, or_throw, throw_if, modify, ◌>>=◌, ◌>>◌}
use waslproperty_backend.Store.Rows.{
  get_owned_property, get_configuration, fresh_id, record_activity,
}
use waslproperty_backend.Posting.{LineInput, or_default, post_in_transaction}
use waslproperty_backend.Posting.Reverse.{reverse_within_transaction}
use waslproperty_backend.PostingProfile.{resolve}
use waslproperty_backend.Receipts.{is_cancelled, transfer_lines, transfer_command}
use waslproperty_backend.Levies.{is_issued, is_withdrawn, get_owned_schedule}
use waslproperty_backend.Levies.Issue.{refresh_schedule}

-- `lotLevyCharge.updateMany({ where: { levyInstallmentId }, data: { status: 'CANCELLED' } })`
unfoldable pub cancel_charges : ℕ → List Charge → List Charge
cancel_charges installment_id [] = []
cancel_charges installment_id (c ∷ cs) =
    let rest = cancel_charges installment_id cs in
    if c.levy_installment_id == installment_id
    then record c { status = cancelled } ∷ rest
    else c ∷ rest

-- Another instalment with the same journal that is not reversed.
abbrev pub shares_journal : ℕ → ℕ → Installment → Bool
shares_journal journal_id target_id i =
    is_key i.journal_entry_id journal_id && not (i.id == target_id) && not (is_withdrawn i)

-- `sharedJournalSiblings`
unfoldable pub count_siblings : ℕ → ℕ → List LevySchedule → ℕ
count_siblings journal_id target_id [] = 0
count_siblings journal_id target_id (l ∷ ls) =
    length (filter (shares_journal journal_id target_id) l.installments)
    + count_siblings journal_id target_id ls

abbrev pub mark_reversed : ℕ → Installment → Installment
mark_reversed actor i = record i { status = installment_reversed; reversed_by_user_id = some actor }

abbrev pub find_levy_charge : ℕ → ℕ → ℕ → List Charge → Option Charge
find_levy_charge org prop id =
    find (λ c. c.id == id && c.organisation_id == org && c.property_id == prop)

-- `Math.abs(amount)`
abbrev pub magnitude : ℤ → ℕ
magnitude a = pos_part a + neg_part a

-- `amount > 0`
abbrev pub is_increase : ℤ → Bool
is_increase a = ltb 0 (pos_part a)

-- The lines of an adjustment: an increase debits the receivable account.
abbrev pub adjustment_lines : ℕ → ℕ → ℕ → ℤ → List LineInput
adjustment_lines receivable income fund_id amount =
    if is_increase amount
    then transfer_lines receivable income fund_id (magnitude amount)
    else transfer_lines income receivable fund_id (magnitude amount)

abbrev pub minus : ℕ → ℤ
minus zero = pos 0
minus (suc n) = negsuc n

module _ (num : Numeric) (today : ℕ) where
  -- The part of `reverseInstallment` after the look-ups.
  unfoldable pub reverse_target : ℕ → ℕ → ℕ → LevySchedule → Installment → Tx LevySchedule
  reverse_target org actor prop l i = do
    throw_if (not (is_issued i)) (conflict not_issued)
    journal_id ← or_throw i.journal_entry_id (conflict no_journal)
    siblings ← gets (λ s. count_siblings journal_id i.id s.schedules)
    throw_if (ltb 0 siblings) (conflict shared_journal)
    reverse_within_transaction num org actor prop journal_id none today
    modify (λ s. record s { charges = cancel_charges i.id s.charges })
    updated ← refresh_schedule l i.id (mark_reversed actor)
    record_activity org prop actor levy_installment_reversed i.id
    pure updated

  unfoldable pub reverse_installment : ℕ → ℕ → ℕ → ℕ → ℕ → Tx LevySchedule
  reverse_installment org actor prop schedule_id installment_id = do
    get_owned_property org prop
    get_configuration prop
    l ← get_owned_schedule org prop schedule_id
    i ←
        or_throw (find (λ (x : Installment). x.id == installment_id) l.installments)
          (not_found installment)
    reverse_target org actor prop l i

  -- The signed column rounds like the others.
  abbrev pub to_signed_cents : ℤ → ℤ
  to_signed_cents (pos n) = pos (num.to_cents n)
  to_signed_cents (negsuc n) = minus (num.to_cents (suc n))

  -- `levyAdjustment.create`
  unfoldable pub create_adjustment_row : ℕ → Charge → ℤ → ℕ → Tx Adjustment
  create_adjustment_row actor c amount journal_id = do
    id ← fresh_id
    let row : Adjustment = record {
      id = id;
      charge_id = c.id;
      amount = to_signed_cents amount;
      journal_entry_id = journal_id;
      created_by_user_id = actor;
    }
    modify (λ s. record s { adjustments = row ∷ s.adjustments })
    pure row

  -- The part of `createAdjustment` after the posting.
  unfoldable pub adjust_once : ℕ → ℕ → ℕ → Charge → ℤ → ℕ → Tx Adjustment
  adjust_once org actor prop c amount journal_id = do
    existing ← gets (λ s. find (λ (a : Adjustment). a.journal_entry_id == journal_id) s.adjustments)
    elim existing [
      | some a ↦ pure a
      | none ↦ do
        row ← create_adjustment_row actor c amount journal_id
        record_activity org prop actor levy_charge_adjusted c.id
        pure row
    ]

  module _ (random_uuid : ℕ → ℕ) where
    -- `createAdjustment`, with the signed amount in units of 1/`per_cent` of a cent
    unfoldable pub create_adjustment : ℕ → ℕ → ℕ → ℕ → ℤ → Option ℕ → Tx Adjustment
    create_adjustment org actor prop charge_id amount key = do
      get_owned_property org prop
      cf ← get_configuration prop
      row ← gets (λ s. find_levy_charge org prop charge_id s.charges)
      c ← or_throw row (not_found charge_missing)
      throw_if (is_cancelled c.status) (conflict charge_cancelled)
      receivable ← resolve prop lot_levy_receivable (some c.financial_fund_id)
      income ← resolve prop levy_income (some c.financial_fund_id)
      source_id ← gets (λ s. or_default key (random_uuid s.next_id))
      j ← post_in_transaction num org actor prop (
          transfer_command today cf.currency_code levy_adjustment source_id
            (adjustment_lines receivable income c.financial_fund_id amount))
      adjust_once org actor prop c amount j.id
