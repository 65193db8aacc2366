-- ===== src/LevyAllocation/Keys.antt =====
-- Which lots are in the Map that src/modules/financials/levy-allocation.ts returns.
use waslproperty_backend.Prelude.{ℕ, ◌-◌, ◌≡◌, List, All, sum_by, ◌/◌}
use waslproperty_backend.Prelude.Result.{ok}
use waslproperty_backend.LevyAllocation.{
  EntitlementEntry, per_cent, Decimal, order_floors, allocate_by_entitlement,
}
use waslproperty_backend.LevyAllocation.Sorting.{
  Distinct, keys, All-keys-order_floors, Distinct-order_floors,
}
use waslproperty_backend.LevyAllocation.Shares.{allotted, allotted-shares}
use waslproperty_backend.LevyAllocation.Exact.{
  weight, lots, allocate-Accepted, floors, keys-floors, whole_cents, apportion-eq-shares,
}

module _ (dec : Decimal) (total : ℕ) (es : List EntitlementEntry) {m : List (ℕ × ℕ)}
    (done : allocate_by_entitlement dec total es ≡ ok m) (distinct : Distinct (lots es)) where
  allotted-eq-keys :
      allotted m
      ≡ keys (
          order_floors (
            floors dec
              (total / per_cent)
              (sum_by weight es)
              (allocate-Accepted dec total es done).sum_pos
              es))
  allotted-eq-keys =
      let a = allocate-Accepted dec total es done in
      let t = total / per_cent in
      let s = sum_by weight es in
      rw (a.result, apportion-eq-shares dec t s a.sum_pos es distinct)
        (allotted-shares 0 (t - whole_cents dec t s a.sum_pos es)
          (order_floors (floors dec t s a.sum_pos es)))

  -- No lot is listed twice.
  pub allotted-Distinct : Distinct (allotted m)
  allotted-Distinct =
      let a = allocate-Accepted dec total es done in
      let t = total / per_cent in
      let s = sum_by weight es in
      rw allotted-eq-keys (
        Distinct-order_floors (floors dec t s a.sum_pos es)
          (rw (keys-floors dec t s a.sum_pos es) distinct))

  -- Only lots that were given are listed.
  pub allotted-All : (P : ℕ → Type 0) → All P (lots es) → All P (allotted m)
  allotted-All P h =
      let a = allocate-Accepted dec total es done in
      let t = total / per_cent in
      let s = sum_by weight es in
      rw allotted-eq-keys (
        All-keys-order_floors P (floors dec t s a.sum_pos es)
          (rw (keys-floors dec t s a.sum_pos es) h))
