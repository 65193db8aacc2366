-- ===== src/Receipts/Keeps.antt =====
-- A new allocation of src/modules/financials/receipts.service.ts keeps the books.
use waslproperty_backend.Prelude.{
  ℕ, ◌+◌, ◌≤◌, ◌<◌, ◌≡◌, ◌≢◌, refl, sym, ap, ◌∙◌, inl, inr, false, List, ◌∷◌, arith, In, All-at,
  All-implies, All-both, Bool-cases, ◌==◌, if◌then◌else◌,
}
use waslproperty_backend.Prelude.Int.{pos_part}
use waslproperty_backend.Prelude.Unique.{find_unique}
use waslproperty_backend.Store.{
  Db, Charge, ChargeStatus, Receipt, reversed, Adjustment, Allocation, applied,
}
use waslproperty_backend.Store.Money.{Numeric}
use waslproperty_backend.Posting.Ledger.{Ledger-same}
use waslproperty_backend.Receipts.{applied_to, applied_from, effective, find_charge, next_status}
use waslproperty_backend.Receipts.Effect.{Applied}
use waslproperty_backend.Receipts.Books.{
  Books, IsSettled, WithinCharge, WithinReceipt, All-set_status, set_status-DistinctIds,
}

-- A new applied allocation counts for its receipt and its charge, and for no other.
applied_from-new :
    (a : Allocation) (as' : List Allocation) (k : ℕ)
    → a.status ≡ applied
    → applied_from k (a ∷ as') ≡ (if a.receipt_id == k then a.amount else 0) + applied_from k as'
unfolding applied_from
applied_from-new a as' k h = ground arith

applied_to-new :
    (a : Allocation) (as' : List Allocation) (k : ℕ)
    → a.status ≡ applied
    → applied_to k (a ∷ as') ≡ (if a.charge_id == k then a.amount else 0) + applied_to k as'
unfolding applied_to
applied_to-new a as' k h = ground arith

WithinReceipt-new :
    (a : Allocation) (as' : List Allocation) (q payer : Receipt) (k : ℕ)
    → a.status ≡ applied
    → a.receipt_id ≡ k
    → a.amount + applied_from k as' ≤ payer.amount
    → payer.status ≢ reversed
    → WithinReceipt as' q
    → (q.id ≡ k → q ≡ payer)
    → WithinReceipt (a ∷ as') q
WithinReceipt-new a as' q payer k on same room live w only =
    let sum = applied_from-new a as' q.id on in
    elim (Bool-cases (q.id == k)) [
      | inl e ↦
          let id : q.id ≡ k = ground arith in
          let row = only id in
          (
            ground (arith, sum, same, id, row, room),
            λ back. absurd (live (ap (λ (x : Receipt). x.status) (sym row) ∙ back)),
          )
      | inr e ↦ (ground (arith, sum, same, w.0), λ back. ground (arith, sum, same, w.1 back))
    ]

WithinCharge-new :
    (a : Allocation) (as' : List Allocation) (adjustments : List Adjustment) (c charge : Charge)
    (status : ChargeStatus) (k : ℕ)
    → a.status ≡ applied
    → a.charge_id ≡ k
    → a.amount + applied_to k as' ≤ pos_part (effective charge adjustments)
    → WithinCharge adjustments as' c
    → (c.id ≡ k → c ≡ charge)
    → (c.id ≡ k → WithinCharge adjustments (a ∷ as') (record c { status = status }))
      × ((c.id == k) ≡ false → WithinCharge adjustments (a ∷ as') c)
unfolding effective
WithinCharge-new a as' adjustments c charge status k on same room w only =
    let sum = applied_to-new a as' c.id on in
    (
      (λ id.
          let total = ap (λ (x : Charge). pos_part (effective x adjustments)) (only id) in
          ground (arith, sum, same, id, room, total)),
      (λ e. ground (arith, sum, same, w)),
    )

IsSettled-new :
    (a : Allocation) (as' : List Allocation) (adjustments : List Adjustment) (c charge : Charge)
    (k : ℕ)
    → a.status ≡ applied
    → a.charge_id ≡ k
    → IsSettled adjustments as' c
    → (c.id ≡ k → c ≡ charge)
    → let status = next_status (effective charge adjustments) (applied_to k (a ∷ as')) in
      (c.id ≡ k → IsSettled adjustments (a ∷ as') (record c { status = status }))
      × ((c.id == k) ≡ false → IsSettled adjustments (a ∷ as') c)
unfolding effective
IsSettled-new a as' adjustments c charge k on same w only =
    let sum = applied_to-new a as' c.id on in
    (
      (λ id. inr (
          ap (λ (x : Charge). next_status (effective x adjustments) (applied_to k (a ∷ as')))
            (sym (only id))
          ∙ ap (λ i. next_status (effective c adjustments) (applied_to i (a ∷ as'))) (sym id))),
      (λ e.
          let other : applied_to c.id (a ∷ as') ≡ applied_to c.id as' = ground (arith, sum, same) in
          rw other w),
    )

module _ (num : Numeric) (random_uuid : ℕ → ℕ) (today : ℕ) where
  pub Books-Applied :
      (org prop : ℕ) (r : Receipt) (charge_id amount : ℕ) (s s' : Db) {a : Allocation}
      → Books s
      → In r s.receipts
      → r.status ≢ reversed
      → Applied num random_uuid today org prop r charge_id amount s a s'
      → Books s'
  unfolding find_charge
  Books-Applied org prop r charge_id amount s s' {a} b i live p =
      let payers =
        find_unique (λ (q : Receipt). q.id) r.id {x = p.payer} s.receipts b.receipt_ids
          p.payer_found in
      let owners =
        find_unique (λ (c : Charge). c.id) charge_id {x = p.charge} s.charges b.charge_ids
          p.found in
      let payer_live : p.payer.status ≢ reversed =
        rw (All-at (λ (q : Receipt). q.id ≡ r.id → q ≡ p.payer) s.receipts payers i refl) at live in
      let from : a.amount + applied_from r.id s.allocations ≤ p.payer.amount =
        rw p.a_amount p.within_receipt in
      let to : a.amount + applied_to charge_id s.allocations
          ≤ pos_part (effective p.charge s.adjustments) =
        rw p.a_amount p.within_charge in
      let status =
        next_status (effective p.charge s.adjustments) (applied_to charge_id (a ∷ s.allocations)) in
      let below = All-at (λ (q : Receipt). q.id < s.next_id) s.receipts b.receipts_fresh i in
      let later = p.frame.later in
      rw p.state_eq (record {
        ledger = Ledger-same p.posted _ p.frame.ledger refl refl refl (omega arith);
        linked = p.frame.linked;
        receipt_ids = rw p.frame.receipts b.receipt_ids;
        charge_ids = set_status-DistinctIds charge_id status s.charges b.charge_ids;
        receipts_fresh =
            rw p.frame.receipts (All-implies (λ q h. omega arith) s.receipts b.receipts_fresh);
        allocations_fresh = (
          (rw p.a_id (omega arith), rw p.a_receipt (omega arith)),
          All-implies (λ q h. (omega arith, omega arith)) s.allocations b.allocations_fresh,
        );
        allocation_ids = (
          All-implies (λ q h. rw p.a_id (omega arith)) s.allocations b.allocations_fresh,
          b.allocation_ids,
        );
        receipts = rw p.frame.receipts (
            All-both
              (λ q w only.
                WithinReceipt-new a s.allocations q p.payer r.id p.a_status p.a_receipt from
                  payer_live w only)
              s.receipts b.receipts payers);
        charges = rw p.frame.adjustments (
            All-set_status charge_id status (WithinCharge s.adjustments (a ∷ s.allocations))
              s.charges
              (All-both
                (λ c w only.
                  WithinCharge-new a s.allocations s.adjustments c p.charge status charge_id
                    p.a_status p.a_charge to w only)
                s.charges b.charges owners));
        settled = rw p.frame.adjustments (
            All-set_status charge_id status (IsSettled s.adjustments (a ∷ s.allocations)) s.charges
              (All-both
                (λ c w only.
                  IsSettled-new a s.allocations s.adjustments c p.charge charge_id p.a_status
                    p.a_charge w only)
                s.charges b.settled owners));
      })
