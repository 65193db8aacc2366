-- ===== src/Receipts/Undoing.antt =====
-- The reversals of src/modules/financials/receipts.service.ts: what they have checked and written.
use waslproperty_backend.Prelude.{
  ℕ, ◌≤◌, ◌≡◌, ◌≢◌, ◌⊎◌, refl, inl, inr, true, false, ◌&&◌, Option, some, List, [], ◌∷◌, arith, All,
  All-implies, Bool-cases, length, filter, ltb, ◌==◌,
}
use waslproperty_backend.Prelude.Result.{ok, Result-cases}
use waslproperty_backend.Prelude.Unique.{DistinctIds}
use waslproperty_backend.Store.{Db, Journal, Charge, Receipt, reversed, Allocation, undone}
use waslproperty_backend.Store.Money.{Numeric}
use waslproperty_backend.Store.Tx.{after}
use waslproperty_backend.Posting.Ledger.{Ledger}
use waslproperty_backend.Posting.Reverse.{reverse_within_transaction}
use waslproperty_backend.Posting.Reversal.{Linked, reverse_in_transaction-Reversed}
use waslproperty_backend.Posting.Undo.{reverse-Ledger}
use waslproperty_backend.Receipts.{
  is_applied, is_cancelled, applied_to, applied_from, effective, find_charge, charge_outstanding,
  next_status, set_status, update_charge_status,
}
use waslproperty_backend.Receipts.Record.{reverse_receipt_row, reverse_allocation_row}
use waslproperty_backend.Receipts.Applied.{Frame, charge_outstanding-eq-ok}
use waslproperty_backend.Receipts.Effect.{update_charge_status-eq-ok}

-- A reversal in the ledger leaves the other tables alone.
pub reverse-Frame :
    (num : Numeric) (org actor prop journal_id : ℕ) (date : Option ℕ) (today : ℕ) (s s' : Db)
    {j : Journal}
    → Ledger s
    → Linked s
    → reverse_within_transaction num org actor prop journal_id date today s ≡ ok (j, s')
    → Frame s s'
unfolding reverse_within_transaction
reverse-Frame num org actor prop journal_id date today s s' {j} l k h =
    let r =
      reverse_in_transaction-Reversed num org actor prop journal_id date today true s s' {j = j} l k
        h in
    let (ledger, linked) =
      rw (h, after) at (reverse-Ledger num org actor prop journal_id date today true s l k) in
    record {
      charges = rw (r.state_eq, r.posting.state_eq) refl;
      adjustments = rw (r.state_eq, r.posting.state_eq) refl;
      receipts = rw (r.state_eq, r.posting.state_eq) refl;
      allocations = rw (r.state_eq, r.posting.state_eq) refl;
      schedules = rw (r.state_eq, r.posting.state_eq) refl;
      later = rw (r.state_eq, r.posting.state_eq) (omega arith);
      ledger = ledger;
      linked = linked;
    }

-- A receipt with no active allocation has nothing applied.
pub applied_from_none :
    (k : ℕ) (as' : List Allocation)
    → ltb 0 (length (filter (λ a. a.receipt_id == k && is_applied a.status) as')) ≡ false
    → applied_from k as' ≡ 0
unfolding applied_from
applied_from_none k [] h = refl
applied_from_none k (a ∷ as') h = ground (arith, applied_from_none k as')

module _ (id actor : ℕ) where
  pub All-reverse_receipt_row :
      (P : Receipt → Type 0)
      → (rs : List Receipt)
      → All
          (λ r.
            (r.id ≡ id → P (record r { status = reversed; reversed_by_user_id = some actor }))
            × P r)
          rs
      → All P (reverse_receipt_row id actor rs)
  unfolding reverse_receipt_row
  All-reverse_receipt_row P [] h = tt
  All-reverse_receipt_row P (r ∷ rs) h = elim (Bool-cases (r.id == id)) [
    | inl e ↦ rw e (h.0.0 (ground arith), All-reverse_receipt_row P rs h.1)
    | inr e ↦ rw e (h.0.1, All-reverse_receipt_row P rs h.1)
  ]

  pub reverse_receipt_row-DistinctIds :
      (rs : List Receipt)
      → DistinctIds (λ (r : Receipt). r.id) rs
      → DistinctIds (λ (r : Receipt). r.id) (reverse_receipt_row id actor rs)
  unfolding reverse_receipt_row
  reverse_receipt_row-DistinctIds [] h = tt
  reverse_receipt_row-DistinctIds (r ∷ rs) h =
      let others =
        All-reverse_receipt_row (λ q. q.id ≢ r.id) rs (All-implies (λ q n. ((λ _. n), n)) rs h.0) in
      elim (Bool-cases (r.id == id)) [
        | inl e ↦ rw e (others, reverse_receipt_row-DistinctIds rs h.1)
        | inr e ↦ rw e (others, reverse_receipt_row-DistinctIds rs h.1)
      ]

  pub All-reverse_allocation_row :
      (P : Allocation → Type 0)
      → (as' : List Allocation)
      → All
          (λ a.
            (a.id ≡ id → P (record a { status = undone; reversed_by_user_id = some actor })) × P a)
          as'
      → All P (reverse_allocation_row id actor as')
  unfolding reverse_allocation_row
  All-reverse_allocation_row P [] h = tt
  All-reverse_allocation_row P (a ∷ as') h = elim (Bool-cases (a.id == id)) [
    | inl e ↦ rw e (h.0.0 (ground arith), All-reverse_allocation_row P as' h.1)
    | inr e ↦ rw e (h.0.1, All-reverse_allocation_row P as' h.1)
  ]

  pub reverse_allocation_row-DistinctIds :
      (as' : List Allocation)
      → DistinctIds (λ (a : Allocation). a.id) as'
      → DistinctIds (λ (a : Allocation). a.id) (reverse_allocation_row id actor as')
  unfolding reverse_allocation_row
  reverse_allocation_row-DistinctIds [] h = tt
  reverse_allocation_row-DistinctIds (a ∷ as') h =
      let others =
        All-reverse_allocation_row (λ q. q.id ≢ a.id) as'
          (All-implies (λ q n. ((λ _. n), n)) as' h.0) in
      elim (Bool-cases (a.id == id)) [
        | inl e ↦ rw e (others, reverse_allocation_row-DistinctIds as' h.1)
        | inr e ↦ rw e (others, reverse_allocation_row-DistinctIds as' h.1)
      ]

  -- Undoing an allocation takes nothing from what is left.
  pub applied_from-undone :
      (k : ℕ) (as' : List Allocation)
      → applied_from k (reverse_allocation_row id actor as') ≤ applied_from k as'
  unfolding applied_from reverse_allocation_row
  applied_from-undone k [] = omega arith
  applied_from-undone k (a ∷ as') = ground (arith, applied_from-undone k as')

  pub applied_to-undone :
      (k : ℕ) (as' : List Allocation)
      → applied_to k (reverse_allocation_row id actor as') ≤ applied_to k as'
  unfolding applied_to reverse_allocation_row
  applied_to-undone k [] = omega arith
  applied_to-undone k (a ∷ as') = ground (arith, applied_to-undone k as')

  -- The other charges keep what is applied to them.
  pub applied_to_others :
      (k : ℕ) (as' : List Allocation)
      → All (λ a. a.id ≡ id → a.charge_id ≢ k) as'
      → applied_to k (reverse_allocation_row id actor as') ≡ applied_to k as'
  unfolding applied_to reverse_allocation_row
  applied_to_others k [] h = refl
  applied_to_others k (a ∷ as') h = elim (Bool-cases (a.id == id)) [
    | inl e ↦
        let other = h.0 (ground arith) in ground (arith, e, other, applied_to_others k as' h.1)
    | inr e ↦ ground (arith, e, applied_to_others k as' h.1)
  ]

-- What a successful update of a charge's status has done.
pub update_charge_status-cases :
    (k : ℕ) (s s' : Db) (u : Unit {0})
    → update_charge_status k s ≡ ok (u, s')
    → (c : Charge) × (find_charge k s.charges ≡ some c)
      × (((is_cancelled c.status ≡ true) × (s ≡ s'))
          ⊎ (record s {
            charges =
                set_status k
                  (next_status (effective c s.adjustments) (applied_to k s.allocations))
                  s.charges;
          }
              ≡ s'))
unfolding update_charge_status
update_charge_status-cases k s s' u h = elim (Result-cases (charge_outstanding k s)) [
  | inl (e, q) ↦ absurd (ground (arith, q))
  | inr ((o, t), q) ↦
      let (same, found, total, used, left) = charge_outstanding-eq-ok k s {o = o} {s' = t} q in
      (
        o.charge,
        found,
        elim (Bool-cases (is_cancelled o.charge.status)) [
          | inl e ↦ inl (e, ground (arith, q, e, same))
          | inr e ↦ inr (ground (arith, update_charge_status-eq-ok k s {c = o.charge} found e, h))
        ],
      )
]
