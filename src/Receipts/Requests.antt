-- ===== src/Receipts/Requests.antt =====
-- The requests of src/modules/financials/receipts.service.ts that record or allocate keep the books.
use waslproperty_backend.Prelude.{ℕ, ◌≡◌, inl, inr, Option, arith, Option-cases}
use waslproperty_backend.Prelude.Result.{ok, Result-cases}
use waslproperty_backend.Store.{Db, Space, Fund, receipt}
use waslproperty_backend.Store.Money.{Numeric}
use waslproperty_backend.Store.Tx.{Tx, after, ◌>>=◌}
use waslproperty_backend.Store.Rows.{
  get_owned_property, get_configuration, get_owned_property-same, get_configuration-same,
}
use waslproperty_backend.Posting.{or_default, find_by_key}
use waslproperty_backend.Receipts.Record.{
  ReceiptInput, get_owned_lot, get_owned_fund, find_receipt_by_journal, record_receipt,
  create_allocation,
}
use waslproperty_backend.Receipts.Books.{Books}
use waslproperty_backend.Receipts.Safety.{source_id_of-eq-ok}
use waslproperty_backend.Receipts.Loops.{KeepsBooks, apply_allocation-KeepsBooks}
use waslproperty_backend.Receipts.Recording.{record_new-KeepsBooks}

pub get_owned_lot-same :
    (org prop id : ℕ) (s : Db) {x : Space} {t : Db}
    → get_owned_lot org prop id s ≡ ok (x, t)
    → t ≡ s
unfolding get_owned_lot
get_owned_lot-same org prop id s h = ground arith

get_owned_fund-same :
    (org prop id : ℕ) (s : Db) {x : Fund} {t : Db}
    → get_owned_fund org prop id s ≡ ok (x, t)
    → t ≡ s
unfolding get_owned_fund
get_owned_fund-same org prop id s h = ground arith

-- A step that changes nothing may stand in front.
pub after_same :
    {A B : Type 0} (m : Tx A) (f : A → Tx B) (s s' : Db) (b : B)
    → ((a : A) (t : Db) → m s ≡ ok (a, t) → t ≡ s)
    → (m >>= f) s ≡ ok (b, s')
    → (a : A) × (f a s ≡ ok (b, s'))
after_same m f s s' b same h = elim (Result-cases (m s)) [
  | inl (e, q) ↦ absurd (ground (arith, q))
  | inr ((a, t), q) ↦ (a, ground (arith, q, same a t q))
]

module _ (num : Numeric) (random_uuid : ℕ → ℕ) (today : ℕ) where
  create_allocation-KeepsBooks :
      (org actor prop receipt_id charge_id amount : ℕ) (key : Option ℕ)
      → KeepsBooks
          (create_allocation num random_uuid today org actor prop receipt_id charge_id amount key)
  unfolding create_allocation
  create_allocation-KeepsBooks org actor prop receipt_id charge_id amount key s s' a b h =
      let (p, h1) =
        after_same (get_owned_property org prop) _ s s' a
          (λ x t q. get_owned_property-same org prop s q) h in
      let (c, h2) =
        after_same (get_configuration prop) _ s s' a (λ x t q. get_configuration-same prop s q)
          h1 in
      apply_allocation-KeepsBooks num random_uuid today org actor prop receipt_id charge_id amount
        key s s' a b h2

  record_receipt-KeepsBooks :
      (org actor prop : ℕ) (input : ReceiptInput)
      → KeepsBooks (record_receipt num random_uuid today org actor prop input)
  unfolding record_receipt
  record_receipt-KeepsBooks org actor prop input s s' done b h =
      let (p, h1) =
        after_same (get_owned_property org prop) _ s s' done
          (λ x t q. get_owned_property-same org prop s q) h in
      let (c, h2) =
        after_same (get_configuration prop) _ s s' done (λ x t q. get_configuration-same prop s q)
          h1 in
      let (space, h3) =
        after_same (get_owned_lot org prop input.space_id) _ s s' done
          (λ x t q. get_owned_lot-same org prop input.space_id s q) h2 in
      let (f, h4) =
        after_same (get_owned_fund org prop input.financial_fund_id) _ s s' done
          (λ x t q. get_owned_fund-same org prop input.financial_fund_id s q) h3 in
      let source = or_default input.idempotency_key (random_uuid s.next_id) in
      let drawn = source_id_of-eq-ok num random_uuid today input.idempotency_key s in
      elim (Option-cases
        (find_receipt_by_journal (find_by_key prop receipt source 1 s.journals) s.receipts)) [
          | inr (r, e) ↦ let same : s ≡ s' = ground (arith, h4, drawn, e) in rw (← same) b
          | inl e ↦
              record_new-KeepsBooks num random_uuid today org actor prop space f input source s s'
                done b (ground (arith, h4, drawn, e))
        ]

  -- Recording a receipt, with its immediate allocations, keeps the books, whether it succeeds or throws:
  -- no charge and no receipt is over-allocated, and each charge has the status that its allocations give it.
  pub record_receipt-Books :
      (org actor prop : ℕ) (input : ReceiptInput) (s : Db)
      → Books s
      → Books (after s (record_receipt num random_uuid today org actor prop input s))
  record_receipt-Books org actor prop input s b =
      elim (Result-cases (record_receipt num random_uuid today org actor prop input s)) [
        | inl (e, q) ↦ rw (q, after) b
        | inr ((id, s'), q) ↦
            rw (q, after) (record_receipt-KeepsBooks org actor prop input s s' id b q)
      ]

  -- Allocating a receipt to a charge later on keeps the books, whether it succeeds or throws: no charge
  -- and no receipt is over-allocated, and each charge has the status that its allocations give it.
  pub create_allocation-Books :
      (org actor prop receipt_id charge_id amount : ℕ) (key : Option ℕ) (s : Db)
      → Books s
      → Books (
          after s (
            create_allocation num random_uuid today org actor prop receipt_id charge_id amount key
              s))
  create_allocation-Books org actor prop receipt_id charge_id amount key s b =
      elim (Result-cases (
        create_allocation num random_uuid today org actor prop receipt_id charge_id amount key s)) [
          | inl (e, q) ↦ rw (q, after) b
          | inr ((a, s'), q) ↦
              rw (q, after)
                (create_allocation-KeepsBooks org actor prop receipt_id charge_id amount key s s' a
                  b q)
        ]
