-- ===== src/Levies/Books.antt =====
-- Issuing and reversing instalments in src/modules/financials/levies.service.ts keep the books that
-- src/modules/financials/receipts.service.ts relies on.
use waslproperty_backend.Prelude.{
  ℕ, ◌+◌, ◌≡◌, ◌≢◌, ◌≤◌, ◌<◌, refl, inr, List, [], ◌∷◌, arith, length, All, All-append, All-implies,
}
use waslproperty_backend.Prelude.Int.{pos, ◌+ℤ◌}
use waslproperty_backend.Store.{
  Db, Activity, Charge, Adjustment, Allocation, Installment, LevySchedule,
}
use waslproperty_backend.Posting.Ledger.{Ledger-same}
use waslproperty_backend.Receipts.{applied_to, adjusted, effective}
use waslproperty_backend.Receipts.Books.{Books, IsSettled, WithinCharge}
use waslproperty_backend.Receipts.Applied.{Frame}
use waslproperty_backend.Levies.Charged.{IsChargeOf, Created, DistinctIds-append}

-- No row names a charge that is not there yet.
pub record ChargesFresh (s : Db) : Type 0 where
  pub charges : All (λ (c : Charge). c.id < s.next_id) s.charges
  pub adjustments : All (λ (a : Adjustment). a.charge_id < s.next_id) s.adjustments
  pub allocations : All (λ (a : Allocation). a.charge_id < s.next_id) s.allocations

applied_to-fresh :
    (k next : ℕ) (as' : List Allocation)
    → next ≤ k
    → All (λ (a : Allocation). a.charge_id < next) as'
    → applied_to k as' ≡ 0
unfolding applied_to
applied_to-fresh k next [] le h = refl
applied_to-fresh k next (a ∷ as') le h = ground (arith, h.0, applied_to-fresh k next as' le h.1)

adjusted-fresh :
    (k next : ℕ) (as' : List Adjustment)
    → next ≤ k
    → All (λ (a : Adjustment). a.charge_id < next) as'
    → adjusted k as' ≡ pos 0
unfolding adjusted
adjusted-fresh k next [] le h = refl
adjusted-fresh k next (a ∷ as') le h = ground (arith, h.0, adjusted-fresh k next as' le h.1)

-- A new charge is settled, as nothing is allocated to it.
new_charge :
    (s : Db) (l : LevySchedule) (i : Installment) (high : ℕ) (c : Charge)
    → ChargesFresh s
    → IsChargeOf l i s.next_id high c
    → WithinCharge s.adjustments s.allocations c × IsSettled s.adjustments s.allocations c
unfolding effective ◌+ℤ◌
new_charge s l i high c f h =
    let above = h.above in
    let unpaid = h.unpaid in
    let positive = h.positive in
    let unapplied = applied_to-fresh c.id s.next_id s.allocations above f.allocations in
    let plain = adjusted-fresh c.id s.next_id s.adjustments above f.adjustments in
    (rw unapplied (omega arith), inr (rw (unpaid, unapplied, plain) (ground arith)))

module _ (l : LevySchedule) (i : Installment) (total : ℕ) (s t : Db)
    (c : Created l i total s t) where
  pub Created-Books : Books s → ChargesFresh s → Books t
  Created-Books b f =
      let each = c.each in
      let old : All (λ (x : Charge). All (λ (y : Charge). y.id ≢ x.id) s.charges) c.rows =
        All-implies
          (λ x h.
            let above = h.above in All-implies (λ y q. (λ e. omega arith)) s.charges f.charges)
          c.rows each in
      rw c.state_eq (record {
        ledger = Ledger-same s _ b.ledger refl refl refl (omega arith);
        linked = b.linked;
        receipt_ids = b.receipt_ids;
        charge_ids = DistinctIds-append c.rows s.charges old c.distinct b.charge_ids;
        receipts_fresh = All-implies (λ r h. omega arith) s.receipts b.receipts_fresh;
        allocations_fresh =
            All-implies (λ a h. (omega arith, omega arith)) s.allocations b.allocations_fresh;
        allocation_ids = b.allocation_ids;
        receipts = b.receipts;
        charges =
            All-append (WithinCharge s.adjustments s.allocations) c.rows s.charges
              (All-implies (λ x h. (new_charge s l i _ x f h).0) c.rows each) b.charges;
        settled =
            All-append (IsSettled s.adjustments s.allocations) c.rows s.charges
              (All-implies (λ x h. (new_charge s l i _ x f h).1) c.rows each) b.settled;
      })

  pub Created-ChargesFresh : ChargesFresh s → ChargesFresh t
  Created-ChargesFresh f = rw c.state_eq (record {
    charges =
        All-append (λ (x : Charge). x.id < s.next_id + length c.rows) c.rows s.charges
          (All-implies (λ x h. h.below) c.rows c.each)
          (All-implies (λ x h. omega arith) s.charges f.charges);
    adjustments = All-implies (λ x h. omega arith) s.adjustments f.adjustments;
    allocations = All-implies (λ x h. omega arith) s.allocations f.allocations;
  })

-- A posting, and any change beside the books, keeps them.
pub Frame-Books : (s t : Db) → Frame s t → Books s → Books t
Frame-Books s t f b =
    let later = f.later in
    record {
      ledger = f.ledger;
      linked = f.linked;
      receipt_ids = rw f.receipts b.receipt_ids;
      charge_ids = rw f.charges b.charge_ids;
      receipts_fresh = rw f.receipts (All-implies (λ r h. omega arith) s.receipts b.receipts_fresh);
      allocations_fresh =
          rw f.allocations
            (All-implies (λ a h. (omega arith, omega arith)) s.allocations b.allocations_fresh);
      allocation_ids = rw f.allocations b.allocation_ids;
      receipts = rw (f.receipts, f.allocations) b.receipts;
      charges = rw (f.charges, f.adjustments, f.allocations) b.charges;
      settled = rw (f.charges, f.adjustments, f.allocations) b.settled;
    }

pub Frame-ChargesFresh : (s t : Db) → Frame s t → ChargesFresh s → ChargesFresh t
Frame-ChargesFresh s t f b =
    let later = f.later in
    record {
      charges = rw f.charges (All-implies (λ x h. omega arith) s.charges b.charges);
      adjustments = rw f.adjustments (All-implies (λ x h. omega arith) s.adjustments b.adjustments);
      allocations = rw f.allocations (All-implies (λ x h. omega arith) s.allocations b.allocations);
    }

-- The end of a request that writes schedules and the log.
pub Books-aside :
    (schedules : List LevySchedule) (activities : List Activity) (s : Db)
    → Books s
    → Books (record s { schedules = schedules; activities = activities })
Books-aside schedules activities s b = record {
  ledger = Ledger-same s _ b.ledger refl refl refl (omega arith);
  linked = b.linked;
  receipt_ids = b.receipt_ids;
  charge_ids = b.charge_ids;
  receipts_fresh = b.receipts_fresh;
  allocations_fresh = b.allocations_fresh;
  allocation_ids = b.allocation_ids;
  receipts = b.receipts;
  charges = b.charges;
  settled = b.settled;
}
