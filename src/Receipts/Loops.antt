-- ===== src/Receipts/Loops.antt =====
-- The loops over charges in src/modules/financials/receipts.service.ts keep the books.
use waslproperty_backend.Prelude.{
  ℕ, ◌*◌, ◌≡◌, inl, inr, Option, none, List, [], ◌∷◌, arith, Bool-cases, min, filter,
}
use waslproperty_backend.Prelude.Int.{pos, pos_part, leb_ℤ}
use waslproperty_backend.Prelude.Sort.{sort}
use waslproperty_backend.Prelude.Result.{ok, Result-cases}
use waslproperty_backend.Store.{Db, Charge}
use waslproperty_backend.Store.Money.{per_cent, Numeric}
use waslproperty_backend.Store.Tx.{Tx, after}
use waslproperty_backend.Receipts.{charge_outstanding, receipt_unapplied}
use waslproperty_backend.Receipts.Allocate.{
  apply_allocation, allocate_each, auto_allocate, is_candidate, older,
}
use waslproperty_backend.Receipts.Record.{apply_each}
use waslproperty_backend.Receipts.Applied.{charge_outstanding-eq-ok, receipt_unapplied-eq-ok}
use waslproperty_backend.Receipts.Books.{Books}
use waslproperty_backend.Receipts.Safety.{apply_allocation-Books}

-- A transaction body that keeps the books when it succeeds.
abbrev pub KeepsBooks : {A : Type 0} → Tx A → Type 0
KeepsBooks {A} m = (s s' : Db) (a : A) → Books s → m s ≡ ok (a, s') → Books s'

module _ (num : Numeric) (random_uuid : ℕ → ℕ) (today : ℕ) where
  pub apply_allocation-KeepsBooks :
      (org actor prop receipt_id charge_id amount : ℕ) (key : Option ℕ)
      → KeepsBooks
          (apply_allocation num random_uuid today org actor prop receipt_id charge_id amount key)
  apply_allocation-KeepsBooks org actor prop receipt_id charge_id amount key s s' a b h =
      rw (h, after) at
        (apply_allocation-Books num random_uuid today org actor prop receipt_id charge_id amount key
          s b)

  allocate_each-KeepsBooks :
      (org actor prop receipt_id : ℕ) (cs : List Charge)
      → KeepsBooks (allocate_each num random_uuid today org actor prop receipt_id cs)
  unfolding allocate_each
  allocate_each-KeepsBooks org actor prop receipt_id [] s s' a b h =
      let same : s ≡ s' = ground arith in rw (← same) b
  allocate_each-KeepsBooks org actor prop receipt_id (c ∷ cs) s s' made b h =
      elim (Result-cases (receipt_unapplied receipt_id s)) [
        | inl (e, q) ↦ absurd (ground (arith, q))
        | inr ((x, t), q) ↦
            let (unread, _, _, _) = receipt_unapplied-eq-ok receipt_id s {x = x} {s' = t} q in
            elim (Bool-cases (leb_ℤ x (pos 0))) [
              | inl stop ↦ let same : s ≡ s' = ground (arith, q, stop, unread) in rw (← same) b
              | inr go ↦ elim (Result-cases (charge_outstanding c.id t)) [
                | inl (e, p) ↦ absurd (ground (arith, q, go, p))
                | inr ((o, u), p) ↦
                    let unread' = (charge_outstanding-eq-ok c.id t {o = o} {s' = u} p).0 in
                    elim (Bool-cases (leb_ℤ o.outstanding (pos 0))) [
                      | inl skip ↦
                          allocate_each-KeepsBooks org actor prop receipt_id cs u s' made
                            (rw (unread', unread) b) (ground (arith, q, go, p, skip))
                      | inr pay ↦
                          let share = min (pos_part x) (pos_part o.outstanding) * per_cent in
                          elim (Result-cases (
                            apply_allocation num random_uuid today org actor prop receipt_id c.id
                              share none u)) [
                                | inl (e, z) ↦ absurd (ground (arith, q, go, p, pay, z))
                                | inr ((a, v), z) ↦
                                    let kept =
                                      apply_allocation-KeepsBooks org actor prop receipt_id c.id
                                        share none u v a (rw (unread', unread) b) z in
                                    elim (Result-cases (
                                      allocate_each num random_uuid today org actor prop receipt_id
                                        cs v)) [
                                          | inl (e, y) ↦
                                              absurd (ground (arith, q, go, p, pay, z, y))
                                          | inr ((rest, w), y) ↦
                                              let same : w ≡ s' =
                                                ground (arith, q, go, p, pay, z, y) in
                                              rw same at (
                                                allocate_each-KeepsBooks org actor prop receipt_id
                                                  cs v w rest kept y)
                                        ]
                              ]
                    ]
              ]
            ]
      ]

  -- The automatic allocation keeps the books.
  pub auto_allocate-KeepsBooks :
      (org actor prop receipt_id space_id fund_id : ℕ)
      → KeepsBooks (auto_allocate num random_uuid today org actor prop receipt_id space_id fund_id)
  unfolding auto_allocate
  auto_allocate-KeepsBooks org actor prop receipt_id space_id fund_id s s' made b h =
      allocate_each-KeepsBooks org actor prop receipt_id
        (sort older (filter (is_candidate org prop space_id fund_id) s.charges)) s s' made b h

  pub apply_each-KeepsBooks :
      (org actor prop receipt_id : ℕ) (ls : List (ℕ × ℕ))
      → KeepsBooks (apply_each num random_uuid today org actor prop receipt_id ls)
  unfolding apply_each
  apply_each-KeepsBooks org actor prop receipt_id [] s s' a b h =
      let same : s ≡ s' = ground arith in rw (← same) b
  apply_each-KeepsBooks org actor prop receipt_id ((charge_id, amount) ∷ rest) s s' done b h =
      elim (Result-cases (
        apply_allocation num random_uuid today org actor prop receipt_id charge_id amount none s)) [
          | inl (e, z) ↦ absurd (ground (arith, z))
          | inr ((a, v), z) ↦
              apply_each-KeepsBooks org actor prop receipt_id rest v s' done
                (apply_allocation-KeepsBooks org actor prop receipt_id charge_id amount none s v a b
                  z)
                (ground (arith, z))
        ]
