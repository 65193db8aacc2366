-- ===== src/Receipts/Books.antt =====
-- The invariant that the operations of src/modules/financials/receipts.service.ts keep.
use waslproperty_backend.Prelude.{
  ℕ, ◌≤◌, ◌<◌, ◌≡◌, ◌≢◌, ◌⊎◌, inl, inr, true, false, List, [], ◌∷◌, arith, All, All-implies,
  Bool-cases, ◌==◌,
}
use waslproperty_backend.Prelude.Int.{pos_part}
use waslproperty_backend.Prelude.Unique.{DistinctIds}
use waslproperty_backend.Store.{Db, Charge, ChargeStatus, Receipt, reversed, Adjustment, Allocation}
use waslproperty_backend.Receipts.{
  is_cancelled, applied_to, applied_from, effective, next_status, set_status,
}
use waslproperty_backend.Posting.Ledger.{Ledger}
use waslproperty_backend.Posting.Reversal.{Linked}

-- A charge that is not cancelled has the status that its allocations give it.
abbrev pub IsSettled : List Adjustment → List Allocation → Charge → Type 0
IsSettled adjustments allocations c =
    (is_cancelled c.status ≡ true)
    ⊎ (c.status ≡ next_status (effective c adjustments) (applied_to c.id allocations))

-- No more is allocated to a charge than its effective amount.
abbrev pub WithinCharge : List Adjustment → List Allocation → Charge → Type 0
WithinCharge adjustments allocations c =
    applied_to c.id allocations ≤ pos_part (effective c adjustments)

-- No more is allocated from a receipt than its amount, and nothing from a reversed one.
abbrev pub WithinReceipt : List Allocation → Receipt → Type 0
WithinReceipt allocations r =
    (applied_from r.id allocations ≤ r.amount)
    × (r.status ≡ reversed → applied_from r.id allocations ≡ 0)

pub record Books (s : Db) : Type 0 where
  pub ledger : Ledger s
  pub linked : Linked s
  pub receipt_ids : DistinctIds (λ (r : Receipt). r.id) s.receipts
  pub charge_ids : DistinctIds (λ (c : Charge). c.id) s.charges
  pub receipts_fresh : All (λ r. r.id < s.next_id) s.receipts
  pub allocations_fresh : All (λ a. (a.id < s.next_id) × (a.receipt_id < s.next_id)) s.allocations
  pub allocation_ids : DistinctIds (λ (a : Allocation). a.id) s.allocations
  pub receipts : All (WithinReceipt s.allocations) s.receipts
  pub charges : All (WithinCharge s.adjustments s.allocations) s.charges
  pub settled : All (IsSettled s.adjustments s.allocations) s.charges

module _ (id : ℕ) (status : ChargeStatus) where
  pub All-set_status :
      (P : Charge → Type 0)
      → (cs : List Charge)
      → All (λ c. (c.id ≡ id → P (record c { status = status })) × ((c.id == id) ≡ false → P c)) cs
      → All P (set_status id status cs)
  unfolding set_status
  All-set_status P [] h = tt
  All-set_status P (c ∷ cs) h = elim (Bool-cases (c.id == id)) [
    | inl e ↦ rw e (h.0.0 (ground arith), All-set_status P cs h.1)
    | inr e ↦ rw e (h.0.1 e, All-set_status P cs h.1)
  ]

  set_status-others :
      (k : ℕ) (cs : List Charge)
      → All (λ c. c.id ≢ k) cs
      → All (λ c. c.id ≢ k) (set_status id status cs)
  set_status-others k cs h =
      All-set_status (λ c. c.id ≢ k) cs (All-implies (λ c n. ((λ _. n), (λ _. n))) cs h)

  pub set_status-DistinctIds :
      (cs : List Charge)
      → DistinctIds (λ (c : Charge). c.id) cs
      → DistinctIds (λ (c : Charge). c.id) (set_status id status cs)
  unfolding set_status
  set_status-DistinctIds [] h = tt
  set_status-DistinctIds (c ∷ cs) h = elim (Bool-cases (c.id == id)) [
    | inl e ↦ rw e (set_status-others c.id cs h.0, set_status-DistinctIds cs h.1)
    | inr e ↦ rw e (set_status-others c.id cs h.0, set_status-DistinctIds cs h.1)
  ]
