-- ===== src/Receipts/Recording.antt =====
-- `recordReceipt` and `createAllocation` in src/modules/financials/receipts.service.ts keep the books.
use waslproperty_backend.Prelude.{
  ℕ, ◌+◌, ◌≤◌, ◌<◌, ◌≡◌, ◌⊎◌, refl, inl, inr, ◌∙◌, none, some, List, [], ◌∷◌, arith, All,
  All-implies, Bool-cases,
}
use waslproperty_backend.Prelude.Result.{ok, Result-cases}
use waslproperty_backend.Store.{
  Db, Space, Fund, Journal, Receipt, recorded, Allocation, receipt, fund_cash, unapplied_cash,
  EventType, receipt_recorded,
}
use waslproperty_backend.Store.Money.{Numeric}
use waslproperty_backend.Store.Rows.{fresh_id, record_activity}
use waslproperty_backend.Posting.{or_default, post_in_transaction}
use waslproperty_backend.Posting.Ledger.{Ledger-same}
use waslproperty_backend.PostingProfile.{resolve}
use waslproperty_backend.Receipts.{applied_from, transfer_lines, transfer_command}
use waslproperty_backend.Receipts.Allocate.{auto_allocate}
use waslproperty_backend.Receipts.Record.{ReceiptInput, create_receipt, allocate_now, record_new}
use waslproperty_backend.Receipts.Applied.{Frame, post-Frame}
use waslproperty_backend.Receipts.Effect.{resolve-same}
use waslproperty_backend.Receipts.Books.{Books, WithinReceipt}
use waslproperty_backend.Receipts.Loops.{
  KeepsBooks, auto_allocate-KeepsBooks, apply_each-KeepsBooks,
}

applied_from-fresh :
    (k next : ℕ) (as' : List Allocation)
    → next ≤ k
    → All (λ a. (a.id < next) × (a.receipt_id < next)) as'
    → applied_from k as' ≡ 0
unfolding applied_from
applied_from-fresh k next [] le h = refl
applied_from-fresh k next (a ∷ as') le h =
    ground (arith, h.0.1, applied_from-fresh k next as' le h.1)

-- A new receipt, of which nothing is allocated yet, keeps the books.
Books-receipt :
    (s t : Db) (row : Receipt)
    → Books s
    → Frame s t
    → row.id ≡ t.next_id
    → row.status ≡ recorded
    → Books (record t { receipts = row ∷ t.receipts; next_id = t.next_id + 1 })
Books-receipt s t row b f id new =
    let later = f.later in
    let unused : applied_from row.id t.allocations ≡ 0 =
      rw f.allocations
        (applied_from-fresh row.id s.next_id s.allocations (omega arith) b.allocations_fresh) in
    let kept : All (WithinReceipt t.allocations) s.receipts = rw f.allocations b.receipts in
    record {
      ledger = Ledger-same t _ f.ledger refl refl refl (omega arith);
      linked = f.linked;
      receipt_ids =
          rw f.receipts
            (All-implies (λ r h. omega arith) s.receipts b.receipts_fresh, b.receipt_ids);
      charge_ids = rw f.charges b.charge_ids;
      receipts_fresh =
          rw f.receipts (omega arith, All-implies (λ r h. omega arith) s.receipts b.receipts_fresh);
      allocations_fresh =
          rw f.allocations
            (All-implies (λ a h. (omega arith, omega arith)) s.allocations b.allocations_fresh);
      allocation_ids = rw f.allocations b.allocation_ids;
      receipts = ((omega arith, λ back. unused), rw f.receipts kept);
      charges = rw (f.charges, f.adjustments, f.allocations) b.charges;
      settled = rw (f.charges, f.adjustments, f.allocations) b.settled;
    }

pub record_activity-KeepsBooks :
    (org prop actor : ℕ) (event : EventType) (entity : ℕ)
    → KeepsBooks (record_activity org prop actor event entity)
unfolding record_activity
record_activity-KeepsBooks org prop actor event entity s s' done b h =
    let state : record s { activities = s'.activities } ≡ s' = ground arith in
    let logged : Books (record s { activities = s'.activities }) = record {
      ledger = Ledger-same s _ b.ledger refl refl refl (omega arith);
      linked = b.linked;
      receipt_ids = b.receipt_ids;
      charge_ids = b.charge_ids;
      receipts_fresh = b.receipts_fresh;
      allocations_fresh = b.allocations_fresh;
      allocation_ids = b.allocation_ids;
      receipts = b.receipts;
      charges = b.charges;
      settled = b.settled;
    } in
    rw state at logged

List-cases : {A : Type 0} (l : List A) → (l ≡ []) ⊎ ((a : A) × (as' : List A) × (l ≡ a ∷ as'))
List-cases [] = inl refl
List-cases (a ∷ as') = inr (a, as', refl)

module _ (num : Numeric) (random_uuid : ℕ → ℕ) (today : ℕ) where
  create_receipt-Books :
      (org actor prop : ℕ) (space : Space) (f : Fund) (input : ReceiptInput) (cash : ℕ)
      (j : Journal) (s t u : Db) {row : Receipt}
      → Books s
      → Frame s t
      → create_receipt num random_uuid today org actor prop space f input cash j t ≡ ok (row, u)
      → Books u
  unfolding create_receipt fresh_id
  create_receipt-Books org actor prop space f input cash j s t u {row} b frame h =
      let id : row.id ≡ t.next_id = ground arith in
      let state : record t { receipts = row ∷ t.receipts; next_id = t.next_id + 1 } ≡ u =
        ground arith in
      rw state at (Books-receipt s t row b frame id (ground arith))

  allocate_now-KeepsBooks :
      (org actor prop receipt_id space_id : ℕ) (input : ReceiptInput)
      → KeepsBooks (allocate_now num random_uuid today org actor prop receipt_id space_id input)
  unfolding allocate_now
  allocate_now-KeepsBooks org actor prop receipt_id space_id input s s' done b h =
      elim (List-cases input.allocations) [
        | inr (a, as', e) ↦
            apply_each-KeepsBooks num random_uuid today org actor prop receipt_id (a ∷ as') s s'
              done b (ground (arith, e))
        | inl e ↦ elim (Bool-cases input.auto_allocate) [
          | inr off ↦ let same : s ≡ s' = ground (arith, e, off) in rw (← same) b
          | inl on ↦
              elim (Result-cases (
                auto_allocate num random_uuid today org actor prop receipt_id space_id
                  input.financial_fund_id s)) [
                    | inl (x, q) ↦ absurd (ground (arith, e, on, q))
                    | inr ((made, t), q) ↦
                        let same : t ≡ s' = ground (arith, e, on, q) in
                        rw same at (
                          auto_allocate-KeepsBooks num random_uuid today org actor prop receipt_id
                            space_id input.financial_fund_id s t made b q)
                  ]
        ]
      ]

  pub record_new-KeepsBooks :
      (org actor prop : ℕ) (space : Space) (f : Fund) (input : ReceiptInput) (source_id : ℕ)
      → KeepsBooks (record_new num random_uuid today org actor prop space f input source_id)
  unfolding record_new
  record_new-KeepsBooks org actor prop space f input source_id s s' done b h =
      elim (Result-cases (resolve prop fund_cash (some input.financial_fund_id) s)) [
        | inl (e, q) ↦ absurd (ground (arith, q))
        | inr ((x, t1), q) ↦ elim (Result-cases (resolve prop unapplied_cash none t1)) [
          | inl (e, p) ↦ absurd (ground (arith, q, p))
          | inr ((y, t2), p) ↦
              let same : t2 ≡ s =
                resolve-same prop unapplied_cash none t1 p
                ∙ resolve-same prop fund_cash (some input.financial_fund_id) s q in
              let command =
                transfer_command (or_default input.posting_date input.receipt_date) f.currency_code
                  receipt source_id (transfer_lines x y input.financial_fund_id input.amount) in
              elim (Result-cases (post_in_transaction num org actor prop command t2)) [
                | inl (e, z) ↦ absurd (ground (arith, q, p, z))
                | inr ((j, t), z) ↦
                    let frame =
                      post-Frame num org actor prop command s t {j = j} b.ledger b.linked
                        (λ e. cc e) (rw same at z) in
                    elim (Result-cases
                      (create_receipt num random_uuid today org actor prop space f input x j t)) [
                        | inl (e, w) ↦ absurd (ground (arith, q, p, z, w))
                        | inr ((row, u), w) ↦
                            let kept =
                              create_receipt-Books org actor prop space f input x j s t u
                                {row = row} b frame w in
                            elim (Result-cases
                              (record_activity org prop actor receipt_recorded row.id u)) [
                                | inl (e, v) ↦ absurd (ground (arith, q, p, z, w, v))
                                | inr ((o, u'), v) ↦
                                    let logged =
                                      record_activity-KeepsBooks org prop actor receipt_recorded
                                        row.id u u' o kept v in
                                    elim (Result-cases (
                                      allocate_now num random_uuid today org actor prop row.id
                                        space.id input u')) [
                                          | inl (e, g) ↦ absurd (ground (arith, q, p, z, w, v, g))
                                          | inr ((o', u''), g) ↦
                                              let last : u'' ≡ s' =
                                                ground (arith, q, p, z, w, v, g) in
                                              rw last at (
                                                allocate_now-KeepsBooks org actor prop row.id
                                                  space.id input u' u'' o' logged g)
                                        ]
                              ]
                      ]
              ]
        ]
      ]
