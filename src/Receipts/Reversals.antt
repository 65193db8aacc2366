-- ===== src/Receipts/Reversals.antt =====
-- The reversals of src/modules/financials/receipts.service.ts keep the books.
use waslproperty_backend.Prelude.{
  ℕ, ◌<◌, ◌≡◌, refl, inl, inr, ap, ◌∙◌, false, ◌&&◌, none, arith, All, All-implies, Option-cases,
  length, filter, ltb, ◌==◌,
}
use waslproperty_backend.Prelude.Result.{Result-cases}
use waslproperty_backend.Store.{Db, receipt_reversed}
use waslproperty_backend.Store.Money.{Numeric}
use waslproperty_backend.Store.Rows.{
  get_owned_property, get_configuration, get_owned_property-same, get_configuration-same,
}
use waslproperty_backend.Posting.Ledger.{Ledger-same}
use waslproperty_backend.Posting.Reverse.{reverse_within_transaction}
use waslproperty_backend.Receipts.{is_applied, applied_from, find_owned_receipt}
use waslproperty_backend.Receipts.Record.{reverse_receipt_row, reverse_receipt}
use waslproperty_backend.Receipts.Applied.{Frame}
use waslproperty_backend.Receipts.Books.{Books, WithinReceipt}
use waslproperty_backend.Receipts.Loops.{KeepsBooks}
use waslproperty_backend.Receipts.Recording.{record_activity-KeepsBooks}
use waslproperty_backend.Receipts.Requests.{after_same}
use waslproperty_backend.Receipts.Undoing.{
  reverse-Frame, applied_from_none, All-reverse_receipt_row, reverse_receipt_row-DistinctIds,
}

Books-reversed_receipt :
    (id actor : ℕ) (s t : Db)
    → Books s
    → Frame s t
    → applied_from id s.allocations ≡ 0
    → Books (record t { receipts = reverse_receipt_row id actor t.receipts })
Books-reversed_receipt id actor s t b f none_left =
    let later = f.later in
    let rows : All (WithinReceipt s.allocations) (reverse_receipt_row id actor s.receipts) =
      All-reverse_receipt_row id actor (WithinReceipt s.allocations) s.receipts (
        All-implies
          (λ r w. ((λ e. (w.0, λ back. ap (λ k. applied_from k s.allocations) e ∙ none_left)), w))
          s.receipts b.receipts) in
    record {
      ledger = Ledger-same t _ f.ledger refl refl refl (omega arith);
      linked = f.linked;
      receipt_ids =
          rw f.receipts (reverse_receipt_row-DistinctIds id actor s.receipts b.receipt_ids);
      charge_ids = rw f.charges b.charge_ids;
      receipts_fresh = rw f.receipts (
          All-reverse_receipt_row id actor (λ r. r.id < t.next_id) s.receipts
            (All-implies (λ r h. ((λ _. omega arith), omega arith)) s.receipts b.receipts_fresh));
      allocations_fresh =
          rw f.allocations
            (All-implies (λ a h. (omega arith, omega arith)) s.allocations b.allocations_fresh);
      allocation_ids = rw f.allocations b.allocation_ids;
      receipts = rw (f.receipts, f.allocations) rows;
      charges = rw (f.charges, f.adjustments, f.allocations) b.charges;
      settled = rw (f.charges, f.adjustments, f.allocations) b.settled;
    }

module _ (num : Numeric) (today : ℕ) where
  pub reverse_receipt-KeepsBooks :
      (org actor prop receipt_id : ℕ)
      → KeepsBooks (reverse_receipt num today org actor prop receipt_id)
  unfolding reverse_receipt
  reverse_receipt-KeepsBooks org actor prop receipt_id s s' u b h =
      let (p, h1) =
        after_same (get_owned_property org prop) _ s s' u
          (λ x t q. get_owned_property-same org prop s q) h in
      let (c, h2) =
        after_same (get_configuration prop) _ s s' u (λ x t q. get_configuration-same prop s q)
          h1 in
      elim (Option-cases (find_owned_receipt org prop receipt_id s.receipts)) [
        | inl e ↦ absurd (ground (arith, h2, e))
        | inr (r, e) ↦
            elim (Result-cases
              (reverse_within_transaction num org actor prop r.journal_entry_id none today s)) [
                | inl (x, q) ↦ absurd (ground (arith, h2, e, q))
                | inr ((j, t), q) ↦
                    let idle : ltb 0 (
                          length (
                            filter (λ a. a.receipt_id == receipt_id && is_applied a.status)
                              s.allocations))
                        ≡ false =
                      ground (arith, h2, e, q) in
                    let frame =
                      reverse-Frame num org actor prop r.journal_entry_id none today s t {j = j}
                        b.ledger b.linked q in
                    let v = record t {
                      receipts = reverse_receipt_row receipt_id actor t.receipts;
                    } in
                    let kept =
                      Books-reversed_receipt receipt_id actor s t b frame
                        (applied_from_none receipt_id s.allocations idle) in
                    record_activity-KeepsBooks org prop actor receipt_reversed r.id v s' u kept
                      (ground (arith, h2, e, q))
              ]
      ]
