-- ===== src/Receipts/Safety.antt =====
-- Allocations of src/modules/financials/receipts.service.ts never exceed the receipt or the charge.
use waslproperty_backend.Prelude.{
  ℕ, ◌≡◌, ◌≢◌, ◌⊎◌, refl, inl, inr, ◌&&◌, Option, none, some, arith, In, Option-cases, find-eq-some,
  ◌==◌,
}
use waslproperty_backend.Prelude.Result.{ok, Result-cases}
use waslproperty_backend.Store.{Db, Receipt, reversed, Allocation, payment_allocation}
use waslproperty_backend.Store.Money.{Numeric}
use waslproperty_backend.Store.Tx.{after}
use waslproperty_backend.Posting.{or_default, find_by_key}
use waslproperty_backend.Receipts.{find_owned_receipt, find_by_journal}
use waslproperty_backend.Receipts.Allocate.{source_id_of, apply_allocation}
use waslproperty_backend.Receipts.Effect.{Applied, apply_new-Applied}
use waslproperty_backend.Receipts.Books.{Books}
use waslproperty_backend.Receipts.Keeps.{Books-Applied}

find_owned_receipt-eq-some :
    (org prop id : ℕ) (s : Db) {r : Receipt}
    → find_owned_receipt org prop id s.receipts ≡ some r
    → In r s.receipts × (r.id ≡ id)
unfolding find_owned_receipt
find_owned_receipt-eq-some org prop id s {r} h =
    let (t, i) =
      find-eq-some
        (λ (r : Receipt). r.id == id && r.organisation_id == org && r.property_id == prop)
        s.receipts h in
    (i, ground arith)

module _ (num : Numeric) (random_uuid : ℕ → ℕ) (today : ℕ) where
  pub source_id_of-eq-ok :
      (key : Option ℕ) (s : Db)
      → source_id_of num random_uuid today key s ≡ ok (or_default key (random_uuid s.next_id), s)
  unfolding source_id_of
  source_id_of-eq-ok none s = refl
  source_id_of-eq-ok (some k) s = refl

  -- A successful allocation returned an earlier one and changed nothing, or made a new one.
  pub apply_allocation-cases :
      (org actor prop receipt_id charge_id amount : ℕ) (key : Option ℕ) (s s' : Db) {a : Allocation}
      → Books s
      → apply_allocation num random_uuid today org actor prop receipt_id charge_id amount key s
        ≡ ok (a, s')
      → (s' ≡ s)
        ⊎ ((r : Receipt) × In r s.receipts
            × (r.id ≡ receipt_id)
            × (r.status ≢ reversed)
            × Applied num random_uuid today org prop r charge_id amount s a s')
  unfolding apply_allocation
  apply_allocation-cases org actor prop receipt_id charge_id amount key s s' {a} b h =
      elim (Option-cases (find_owned_receipt org prop receipt_id s.receipts)) [
        | inl e ↦ absurd (ground (arith, e))
        | inr (r, e) ↦
            let source = or_default key (random_uuid s.next_id) in
            let drawn = source_id_of-eq-ok key s in
            elim (Option-cases (
              find_by_journal (find_by_key prop payment_allocation source 1 s.journals)
                s.allocations)) [
                  | inr (x, f) ↦ inl (ground (arith, e, f, drawn))
                  | inl f ↦
                      let (i, id) = find_owned_receipt-eq-some org prop receipt_id s {r = r} e in
                      inr (
                        r,
                        i,
                        id,
                        (λ back. absurd (ground (arith, e, f, drawn))),
                        apply_new-Applied num random_uuid today org actor prop r charge_id amount
                            source s s' b.ledger b.linked (ground (arith, e, f, drawn)),
                      )
                ]
      ]

  -- An allocation keeps the books, whether it is new, the repetition of an earlier one, or throws.
  pub apply_allocation-Books :
      (org actor prop receipt_id charge_id amount : ℕ) (key : Option ℕ) (s : Db)
      → Books s
      → Books (
          after s (
            apply_allocation num random_uuid today org actor prop receipt_id charge_id amount key
              s))
  apply_allocation-Books org actor prop receipt_id charge_id amount key s b =
      elim (Result-cases
        (apply_allocation num random_uuid today org actor prop receipt_id charge_id amount key s)) [
          | inl (e, q) ↦ rw (q, after) b
          | inr ((a, s'), q) ↦
              elim (apply_allocation-cases org actor prop receipt_id charge_id amount key s s'
                {a = a} b q) [
                  | inl same ↦ rw (q, after, same) b
                  | inr (r, i, id, live, p) ↦
                      rw (q, after)
                        (Books-Applied num random_uuid today org prop r charge_id amount s s' b i
                          live p)
                ]
        ]
