-- ===== src/Levies/Issue.antt =====
-- `issue` in src/modules/financials/levies.service.ts: one instalment of a schedule is charged to the
-- lots and posted as one journal. The notices that follow the transaction cannot change what it did.
use waslproperty_backend.Prelude.{
  ℕ, ◌*◌, Bool, true, false, Option, none, some, List, [], ◌∷◌, ◌==◌, if◌then◌else◌, find,
}
use waslproperty_backend.Prelude.Result.{
  not_found, conflict, no_record, installment, not_approved, cannot_reissue,
}
use waslproperty_backend.LevyAllocation.{Decimal}
use waslproperty_backend.Store.{
  Configuration, Fund, Charge, issued, Journal, SourceType, levy_regular, levy_special,
  lot_levy_receivable, levy_income, Installment, installment_pending, installment_issued,
  installment_reversed, LevyKind, regular, special, LevySchedule, ScheduleStatus, levy_draft,
  levy_cancelled, levy_installment_issued,
}
use waslproperty_backend.Store.Money.{per_cent, Numeric}
use waslproperty_backend.Store.Tx.{Tx, pure, throw, gets, or_throw, throw_if, modify, ◌>>=◌, ◌>>◌}
use waslproperty_backend.Store.Rows.{
  get_owned_property, get_configuration, fresh_id, record_activity,
}
use waslproperty_backend.Posting.{post_in_transaction}
use waslproperty_backend.PostingProfile.{resolve}
use waslproperty_backend.Receipts.{transfer_lines, transfer_command}
use waslproperty_backend.Levies.{
  is_pending, compute_schedule_status, get_owned_schedule, update_schedule, update_installment,
  get_eligible_lots, lift,
}
use waslproperty_backend.Levies.Split.{LotRow, allocate_installments}

abbrev pub is_unissuable : ScheduleStatus → Bool
is_unissuable levy_draft = true
is_unissuable levy_cancelled = true
is_unissuable _ = false

-- `target`
unfoldable pub find_target : Option ℕ → List Installment → Option Installment
find_target (some id) installments = find (λ (i : Installment). i.id == id) installments
find_target none installments = find is_pending installments

abbrev pub source_type_of : LevyKind → SourceType
source_type_of regular = levy_regular
source_type_of special = levy_special

-- `lotLevyCharge.create`
unfoldable pub create_charge : ℕ → ℕ → LevySchedule → Installment → ℕ → ℕ → Tx (Unit {0})
create_charge org prop l i space_id amount = do
  id ← fresh_id
  let row : Charge = record {
    id = id;
    organisation_id = org;
    property_id = prop;
    levy_schedule_id = l.id;
    levy_installment_id = i.id;
    space_id = space_id;
    financial_fund_id = l.financial_fund_id;
    amount = amount;
    status = issued;
    due_date = i.due_date;
    sort_order = i.sort_order;
  }
  modify (λ s. record s { charges = row ∷ s.charges })

-- The charge of one row: none if the lot has no share, or a share of nothing.
unfoldable pub charge_row : ℕ → ℕ → LevySchedule → Installment → LotRow → Tx (Unit {0})
charge_row org prop l i r = elim r.installments [
  | [] ↦ pure tt
  | x ∷ _ ↦ if x.amount == 0 then pure tt else create_charge org prop l i r.space_id x.amount
]

-- The loop over the rows.
unfoldable pub create_charges : ℕ → ℕ → LevySchedule → Installment → List LotRow → Tx (Unit {0})
create_charges org prop l i [] = pure tt
create_charges org prop l i (r ∷ rs) = charge_row org prop l i r >> create_charges org prop l i rs

-- The instalment after it was issued, or reversed.
abbrev pub mark_issued : ℕ → ℕ → Installment → Installment
mark_issued actor journal_id i = record i {
  status = installment_issued;
  issued_by_user_id = some actor;
  journal_entry_id = some journal_id;
}

-- `levyInstallment.update` and `levySchedule.update`: the instalment changes, and the status of its
-- schedule is computed again.
unfoldable pub refresh_schedule : LevySchedule → ℕ → (Installment → Installment) → Tx LevySchedule
refresh_schedule l installment_id f = do
  let refreshed = update_installment installment_id f l.installments
  let status = compute_schedule_status l.status refreshed
  modify (λ s. record s {
    schedules =
        update_schedule l.id
          (λ r. record r { installments = update_installment installment_id f r.installments })
          s.schedules;
  })
  modify (λ s. record s {
    schedules = update_schedule l.id (λ r. record r { status = status }) s.schedules;
  })
  pure (record l { installments = refreshed; status = status })

module _ (dec : Decimal) (num : Numeric) (today : ℕ) where
  -- The posting of an instalment.
  unfoldable pub post_installment :
      ℕ → ℕ → ℕ → Configuration → LevySchedule → Installment → ℕ → ℕ → Tx Journal
  post_installment org actor prop cf l i receivable income =
      post_in_transaction num org actor prop (
        transfer_command today cf.currency_code (source_type_of l.kind) i.id
          (transfer_lines receivable income l.financial_fund_id (i.amount * per_cent)))

  -- The part of `issue` where the instalment is pending. It returns the view and the rows that the
  -- notices are sent for.
  unfoldable pub issue_pending :
      ℕ
      → ℕ
      → ℕ
      → Configuration
      → LevySchedule
      → Installment
      → Tx (LevySchedule × Option (List LotRow))
  issue_pending org actor prop cf l i = do
    lots ← get_eligible_lots prop
    rows ← lift (allocate_installments dec (i ∷ []) lots)
    receivable ← resolve prop lot_levy_receivable (some l.financial_fund_id)
    income ← resolve prop levy_income (some l.financial_fund_id)
    create_charges org prop l i rows
    j ← post_installment org actor prop cf l i receivable income
    updated ← refresh_schedule l i.id (mark_issued actor j.id)
    record_activity org prop actor levy_installment_issued i.id
    pure (updated, some rows)

  -- The part of `issue` after the look-ups, for the instalment that was found.
  unfoldable pub issue_target :
      ℕ
      → ℕ
      → ℕ
      → Configuration
      → LevySchedule
      → Option ℕ
      → Option Installment
      → Tx (LevySchedule × Option (List LotRow))
  issue_target org actor prop cf l (some _) none = throw (not_found installment)
  issue_target org actor prop cf l none none = pure (l, none)
  issue_target org actor prop cf l asked (some i) = elim i.status [
    | installment_issued ↦ pure (l, none)
    | installment_reversed ↦ throw (conflict cannot_reissue)
    | installment_pending ↦ issue_pending org actor prop cf l i
  ]

  unfoldable pub issue : ℕ → ℕ → ℕ → ℕ → Option ℕ → Tx (LevySchedule × Option (List LotRow))
  issue org actor prop schedule_id asked = do
    get_owned_property org prop
    cf ← get_configuration prop
    l ← get_owned_schedule org prop schedule_id
    throw_if (is_unissuable l.status) (conflict not_approved)
    row ← gets (λ s. find (λ (f : Fund). f.id == l.financial_fund_id) s.funds)
    or_throw row no_record
    issue_target org actor prop cf l asked (find_target asked l.installments)
