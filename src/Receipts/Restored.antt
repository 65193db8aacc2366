-- ===== src/Receipts/Restored.antt =====
-- Reversing an allocation in src/modules/financials/receipts.service.ts gives the amount back.
use waslproperty_backend.Prelude.{
  ℕ, ◌+◌, ◌≡◌, ◌≢◌, refl, sym, inl, inr, ap, ◌∙◌, true, false, ◌&&◌, none, List, [], ◌∷◌, arith, In,
  here, there, All, All-at, All-implies, Option-cases, find, find-eq-some, ◌==◌,
}
use waslproperty_backend.Prelude.Result.{ok, Result-cases}
use waslproperty_backend.Prelude.Unique.{DistinctIds}
use waslproperty_backend.Store.{Db, Allocation, applied}
use waslproperty_backend.Store.Money.{Numeric}
use waslproperty_backend.Store.Rows.{
  get_owned_property, get_configuration, get_owned_property-same, get_configuration-same,
  record_activity,
}
use waslproperty_backend.Posting.Reverse.{reverse_within_transaction}
use waslproperty_backend.Receipts.{applied_to, applied_from, update_charge_status}
use waslproperty_backend.Receipts.Record.{reverse_allocation_row, reverse_allocation}
use waslproperty_backend.Receipts.Books.{Books}
use waslproperty_backend.Receipts.Requests.{after_same}
use waslproperty_backend.Receipts.Undoing.{reverse-Frame, update_charge_status-cases}

module _ (id actor : ℕ) where
  reverse_allocation_row_absent :
      (as' : List Allocation) → All (λ a. a.id ≢ id) as' → reverse_allocation_row id actor as' ≡ as'
  unfolding reverse_allocation_row
  reverse_allocation_row_absent [] h = refl
  reverse_allocation_row_absent (a ∷ as') h =
      ground (arith, h.0, reverse_allocation_row_absent as' h.1)

-- The amount of the allocation is no longer applied, on either side.
undone-sums :
    (actor : ℕ) (a : Allocation) (as' : List Allocation)
    → DistinctIds (λ (x : Allocation). x.id) as'
    → In a as'
    → a.status ≡ applied
    → let rows = reverse_allocation_row a.id actor as' in
      (applied_from a.receipt_id rows + a.amount ≡ applied_from a.receipt_id as')
      × (applied_to a.charge_id rows + a.amount ≡ applied_to a.charge_id as')
unfolding applied_from applied_to reverse_allocation_row
undone-sums actor a [] d i on = elim i [ ]
undone-sums actor a (x ∷ as') d (here e) on =
    let rest =
      reverse_allocation_row_absent a.id actor as'
        (All-implies (λ y n q. n (q ∙ ap (λ (z : Allocation). z.id) (sym e))) as' d.0) in
    let self : (a.id == a.id) ≡ true = ground arith in
    let from = ap (applied_from a.receipt_id) rest in
    let to = ap (applied_to a.charge_id) rest in
    rw (e, self) (ground (arith, from, on), ground (arith, to, on))
undone-sums actor a (x ∷ as') d (there i) on =
    let ih = undone-sums actor a as' d.1 i on in
    let other : a.id ≢ x.id = All-at (λ (y : Allocation). y.id ≢ x.id) as' d.0 i in
    let kept : (x.id == a.id) ≡ false = ground (arith, other) in
    rw kept (ground (arith, ih.0), ground (arith, ih.1))

-- After a successful reversal, the allocation's amount is available on its receipt again, and open on
-- its charge again.
pub reverse_allocation_restores :
    (num : Numeric) (today org actor prop allocation_id : ℕ) (s s' : Db)
    → Books s
    → reverse_allocation num today org actor prop allocation_id s ≡ ok (tt, s')
    → (a : Allocation) × In a s.allocations
      × (a.id ≡ allocation_id)
      × (applied_from a.receipt_id s'.allocations + a.amount
          ≡ applied_from a.receipt_id s.allocations)
      × (applied_to a.charge_id s'.allocations + a.amount ≡ applied_to a.charge_id s.allocations)
unfolding reverse_allocation record_activity
reverse_allocation_restores num today org actor prop allocation_id s s' b h =
    let (p, h1) =
      after_same (get_owned_property org prop) _ s s' tt
        (λ x t q. get_owned_property-same org prop s q) h in
    let (c, h2) =
      after_same (get_configuration prop) _ s s' tt (λ x t q. get_configuration-same prop s q) h1 in
    let is_it = λ (x : Allocation).
      x.id == allocation_id && x.organisation_id == org && x.property_id == prop in
    elim (Option-cases (find is_it s.allocations)) [
      | inl e ↦ absurd (ground (arith, h2, e))
      | inr (a, e) ↦
          let (fits, i) = find-eq-some is_it s.allocations e in
          let id : a.id ≡ allocation_id = ground arith in
          elim (Result-cases
            (reverse_within_transaction num org actor prop a.journal_entry_id none today s)) [
              | inl (x, q) ↦ absurd (ground (arith, h2, e, q))
              | inr ((j, t), q) ↦
                  let frame =
                    reverse-Frame num org actor prop a.journal_entry_id none today s t {j = j}
                      b.ledger b.linked q in
                  let on : a.status ≡ applied = ground (arith, h2, e, q) in
                  let v = record t {
                    allocations = reverse_allocation_row a.id actor t.allocations;
                  } in
                  elim (Result-cases (update_charge_status a.charge_id v)) [
                    | inl (x, z) ↦ absurd (ground (arith, h2, e, q, z, id))
                    | inr ((o, w), z) ↦
                        let (charge, found, outcome) =
                          update_charge_status-cases a.charge_id v w o z in
                        let kept : w.allocations ≡ reverse_allocation_row a.id actor s.allocations =
                          elim outcome [
                            | inl (gone, same) ↦ ground (arith, same, frame.allocations)
                            | inr same ↦ ground (arith, same, frame.allocations)
                          ] in
                        let final : s'.allocations ≡ w.allocations =
                          ground (arith, h2, e, q, z, id) in
                        let sums = undone-sums actor a s.allocations b.allocation_ids i on in
                        (a, i, id, rw (final, kept) sums.0, rw (final, kept) sums.1)
                  ]
            ]
    ]
