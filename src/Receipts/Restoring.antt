-- ===== src/Receipts/Restoring.antt =====
-- Reversing an allocation in src/modules/financials/receipts.service.ts keeps the books.
use waslproperty_backend.Prelude.{
  ℕ, ◌<◌, ◌≡◌, ◌≢◌, refl, sym, inl, inr, ap, ◌∙◌, true, false, ◌&&◌, none, List, arith, In, All,
  All-implies, All-both, Bool-cases, Option-cases, find, find-eq-some, ◌==◌,
}
use waslproperty_backend.Prelude.Result.{ok, Result-cases}
use waslproperty_backend.Prelude.Unique.{DistinctIds, find_unique, In-unique_id}
use waslproperty_backend.Store.{Db, Charge, Receipt, Adjustment, Allocation, allocation_reversed}
use waslproperty_backend.Store.Money.{Numeric}
use waslproperty_backend.Store.Tx.{after}
use waslproperty_backend.Store.Rows.{
  get_owned_property, get_configuration, get_owned_property-same, get_configuration-same,
}
use waslproperty_backend.Posting.Ledger.{Ledger-same}
use waslproperty_backend.Posting.Reverse.{reverse_within_transaction}
use waslproperty_backend.Receipts.{
  is_cancelled, applied_to, effective, find_charge, next_status, set_status, update_charge_status,
}
use waslproperty_backend.Receipts.Record.{
  reverse_allocation_row, reverse_allocation, reverse_receipt,
}
use waslproperty_backend.Receipts.Applied.{Frame}
use waslproperty_backend.Receipts.Books.{
  Books, IsSettled, WithinCharge, WithinReceipt, All-set_status, set_status-DistinctIds,
}
use waslproperty_backend.Receipts.Loops.{KeepsBooks}
use waslproperty_backend.Receipts.Recording.{record_activity-KeepsBooks}
use waslproperty_backend.Receipts.Requests.{after_same}
use waslproperty_backend.Receipts.Undoing.{
  reverse-Frame, All-reverse_allocation_row, reverse_allocation_row-DistinctIds,
  applied_from-undone, applied_to-undone, applied_to_others, update_charge_status-cases,
}
use waslproperty_backend.Receipts.Reversals.{reverse_receipt-KeepsBooks}

module _ (actor : ℕ) (a : Allocation) (as' : List Allocation)
    (distinct : DistinctIds (λ (x : Allocation). x.id) as') (i : In a as') where
  abbrev undone_rows : List Allocation
  undone_rows = reverse_allocation_row a.id actor as'

  applied_to-kept : (k : ℕ) → k ≢ a.charge_id → applied_to k undone_rows ≡ applied_to k as'
  applied_to-kept k n = applied_to_others a.id actor k as' (
      All-implies (λ x same e q. n (sym q ∙ ap (λ (y : Allocation). y.charge_id) (same e))) as'
        (In-unique_id (λ (x : Allocation). x.id) {x = a} as' distinct i))

  IsSettled-undone :
      (adjustments : List Adjustment) (charge : Charge) (c : Charge)
      → IsSettled adjustments as' c
      → (c.id ≡ a.charge_id → c ≡ charge)
      → (is_cancelled charge.status ≡ true → IsSettled adjustments undone_rows c)
        × (let status =
              next_status (effective charge adjustments) (applied_to a.charge_id undone_rows) in
            (c.id ≡ a.charge_id → IsSettled adjustments undone_rows (record c { status = status }))
            × ((c.id == a.charge_id) ≡ false → IsSettled adjustments undone_rows c))
  unfolding effective
  IsSettled-undone adjustments charge c w only =
      let elsewhere : (c.id == a.charge_id) ≡ false → IsSettled adjustments undone_rows c =
        λ e. rw (applied_to-kept c.id (ground arith)) w in
      (
        (λ cancelled. elim (Bool-cases (c.id == a.charge_id)) [
          | inl e ↦
              inl (ap (λ (x : Charge). is_cancelled x.status) (only (ground arith)) ∙ cancelled)
          | inr e ↦ elsewhere e
        ]),
        (
          (λ id. inr (
              ap
                (λ (x : Charge).
                  next_status (effective x adjustments) (applied_to a.charge_id undone_rows))
                (sym (only id))
              ∙ ap (λ k. next_status (effective c adjustments) (applied_to k undone_rows))
                  (sym id))),
          elsewhere,
        ),
      )

  WithinReceipt-undone : (r : Receipt) → WithinReceipt as' r → WithinReceipt undone_rows r
  WithinReceipt-undone r w =
      let le = applied_from-undone a.id actor r.id as' in
      (omega (arith, w.0), λ back. omega (arith, w.1 back))

-- The books with the allocation marked and the charges as they are set.
Books-marked :
    (actor : ℕ) (a : Allocation) (s t : Db) (cs : List Charge)
    → Books s
    → Frame s t
    → In a s.allocations
    → let rows = reverse_allocation_row a.id actor s.allocations in
      DistinctIds (λ (c : Charge). c.id) cs
      → All (WithinCharge s.adjustments rows) cs
      → All (IsSettled s.adjustments rows) cs
      → Books (record t { charges = cs; allocations = rows })
Books-marked actor a s t cs b f i distinct within settled =
    let later = f.later in
    let rows = reverse_allocation_row a.id actor s.allocations in
    let receipts : All (WithinReceipt rows) s.receipts =
      All-implies (WithinReceipt-undone actor a s.allocations b.allocation_ids i) s.receipts
        b.receipts in
    record {
      ledger = Ledger-same t _ f.ledger refl refl refl (omega arith);
      linked = f.linked;
      receipt_ids = rw f.receipts b.receipt_ids;
      charge_ids = distinct;
      receipts_fresh = rw f.receipts (All-implies (λ r h. omega arith) s.receipts b.receipts_fresh);
      allocations_fresh =
          All-reverse_allocation_row a.id actor
            (λ x. (x.id < t.next_id) × (x.receipt_id < t.next_id)) s.allocations
            (All-implies (λ x h. ((λ _. (omega arith, omega arith)), (omega arith, omega arith)))
              s.allocations b.allocations_fresh);
      allocation_ids = reverse_allocation_row-DistinctIds a.id actor s.allocations b.allocation_ids;
      receipts = rw f.receipts receipts;
      charges = rw f.adjustments within;
      settled = rw f.adjustments settled;
    }

-- The books after the allocation is marked and the status of its charge is brought up to date.
Books-undone :
    (actor : ℕ) (a : Allocation) (s t w : Db) (u : Unit {0})
    → Books s
    → Frame s t
    → In a s.allocations
    → update_charge_status a.charge_id
        (record t { allocations = reverse_allocation_row a.id actor t.allocations })
      ≡ ok (u, w)
    → Books w
unfolding find_charge effective
Books-undone actor a s t w u b f i h =
    let rows = reverse_allocation_row a.id actor s.allocations in
    let marked = record t { allocations = reverse_allocation_row a.id actor t.allocations } in
    let charges : All (WithinCharge s.adjustments rows) s.charges =
      All-implies
        (λ c h. let le = applied_to-undone a.id actor c.id s.allocations in omega (arith, h, le))
        s.charges b.charges in
    let (charge, found, outcome) = update_charge_status-cases a.charge_id marked w u h in
    let owners =
      find_unique (λ (c : Charge). c.id) a.charge_id {x = charge} s.charges b.charge_ids
        (rw f.charges at found) in
    let settled =
      All-both
        (λ c h only.
          IsSettled-undone actor a s.allocations b.allocation_ids i s.adjustments charge c h only)
        s.charges b.settled owners in
    elim outcome [
      | inl (gone, same) ↦
          let kept =
            Books-marked actor a s t s.charges b f i b.charge_ids charges
              (All-implies (λ c h. h.0 gone) s.charges settled) in
          let state : record t { charges = s.charges; allocations = rows } ≡ w =
            ground (arith, f.charges, f.allocations, same) in
          rw state at kept
      | inr same ↦
          let status = next_status (effective charge s.adjustments) (applied_to a.charge_id rows) in
          let kept =
            Books-marked actor a s t (set_status a.charge_id status s.charges) b f i
              (set_status-DistinctIds a.charge_id status s.charges b.charge_ids)
              (All-set_status a.charge_id status (WithinCharge s.adjustments rows) s.charges
                (All-implies (λ c h. ((λ _. h), (λ _. h))) s.charges charges))
              (All-set_status a.charge_id status (IsSettled s.adjustments rows) s.charges
                (All-implies (λ c h. h.1) s.charges settled)) in
          let state : record t {
            charges = set_status a.charge_id status s.charges;
            allocations = rows;
          }
              ≡ w =
            ground (arith, f.charges, f.allocations, f.adjustments, same) in
          rw state at kept
    ]

module _ (num : Numeric) (today : ℕ) where
  reverse_allocation-KeepsBooks :
      (org actor prop allocation_id : ℕ)
      → KeepsBooks (reverse_allocation num today org actor prop allocation_id)
  unfolding reverse_allocation
  reverse_allocation-KeepsBooks org actor prop allocation_id s s' u b h =
      let (p, h1) =
        after_same (get_owned_property org prop) _ s s' u
          (λ x t q. get_owned_property-same org prop s q) h in
      let (c, h2) =
        after_same (get_configuration prop) _ s s' u (λ x t q. get_configuration-same prop s q)
          h1 in
      let is_it = λ (x : Allocation).
        x.id == allocation_id && x.organisation_id == org && x.property_id == prop in
      elim (Option-cases (find is_it s.allocations)) [
        | inl e ↦ absurd (ground (arith, h2, e))
        | inr (a, e) ↦
            let (fits, i) = find-eq-some is_it s.allocations e in
            let id : a.id ≡ allocation_id = ground arith in
            elim (Result-cases
              (reverse_within_transaction num org actor prop a.journal_entry_id none today s)) [
                | inl (x, q) ↦ absurd (ground (arith, h2, e, q))
                | inr ((j, t), q) ↦
                    let frame =
                      reverse-Frame num org actor prop a.journal_entry_id none today s t {j = j}
                        b.ledger b.linked q in
                    let v = record t {
                      allocations = reverse_allocation_row a.id actor t.allocations;
                    } in
                    elim (Result-cases (update_charge_status a.charge_id v)) [
                      | inl (x, z) ↦ absurd (ground (arith, h2, e, q, z, id))
                      | inr ((o, w), z) ↦
                          record_activity-KeepsBooks org prop actor allocation_reversed a.id w s' u
                            (Books-undone actor a s t w o b frame i z)
                            (ground (arith, h2, e, q, z, id))
                    ]
              ]
      ]

  -- Reversing an allocation keeps the books, whether it succeeds or throws: no charge and no receipt is
  -- over-allocated, and each charge has the status that its allocations give it.
  pub reverse_allocation-Books :
      (org actor prop allocation_id : ℕ) (s : Db)
      → Books s
      → Books (after s (reverse_allocation num today org actor prop allocation_id s))
  reverse_allocation-Books org actor prop allocation_id s b =
      elim (Result-cases (reverse_allocation num today org actor prop allocation_id s)) [
        | inl (e, q) ↦ rw (q, after) b
        | inr ((u, s'), q) ↦
            rw (q, after) (reverse_allocation-KeepsBooks org actor prop allocation_id s s' u b q)
      ]

  -- Reversing a receipt keeps the books, whether it succeeds or throws: in particular nothing is
  -- allocated from a receipt that is reversed.
  pub reverse_receipt-Books :
      (org actor prop receipt_id : ℕ) (s : Db)
      → Books s
      → Books (after s (reverse_receipt num today org actor prop receipt_id s))
  reverse_receipt-Books org actor prop receipt_id s b =
      elim (Result-cases (reverse_receipt num today org actor prop receipt_id s)) [
        | inl (e, q) ↦ rw (q, after) b
        | inr ((u, s'), q) ↦
            rw (q, after)
              (reverse_receipt-KeepsBooks num today org actor prop receipt_id s s' u b q)
      ]
