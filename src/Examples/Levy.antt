-- ===== src/Examples/Levy.antt =====
-- The split of src/modules/financials/levy-allocation.ts on concrete lots: 100.00 over entitlements of
-- 1, 1 and 4, with shares of 1666 2/3, 1666 2/3 and 6666 2/3 cents.
use native.Mathlib.Nat.{div-div-eq-div-mul, mul-div-mul_right}
use mathlib.Core.List.{Permᴰ}
use waslproperty_backend.Prelude.{
  ℕ, ◌*◌, ◌/◌, ◌≤◌, ◌<◌, ◌≡◌, ◌⊎◌, ◌↔◌, ◌%◌, refl, ◌∙◌, some, List, [], ◌∷◌, arith, sum_by, All,
  here, there,
}
use waslproperty_backend.Prelude.Int.{pos, negsuc, ◌≤ℤ◌, ◌+ℤ◌}
use waslproperty_backend.Prelude.Result.{ok, err, validation, not_whole_cents, negative_entitlement}
use waslproperty_backend.LevyAllocation.{
  EntitlementEntry, per_cent, Decimal, before, get, floor_of, apportion, allocate_by_entitlement,
  sum_entitlement, find_negative, insert_floor, order_floors, set, distribute,
}
use waslproperty_backend.LevyAllocation.Sorting.{Distinct}
use waslproperty_backend.LevyAllocation.Shares.{value}
use waslproperty_backend.LevyAllocation.Exact.{weight, lots}
use waslproperty_backend.LevyAllocation.Fairness.{
  allocate_by_entitlement-sum, allocate_by_entitlement-quota, allocate_by_entitlement_priority,
  allocate_by_entitlement_ok_iff,
}
use waslproperty_backend.LevyAllocation.Reordering.{allocate_by_entitlement-perm}

-- Three digits after the point.
abbrev pub milli : Decimal
milli = record {
  scale = 1000;
  scale_pos = omega arith;
  share = λ t e s. t * e * 1000 / s;
  floor_share = λ t e s p.
      div-div-eq-div-mul (t * e * 1000) s 1000 ∙ mul-div-mul_right (t * e) s (omega arith);
}

abbrev pub lot : ℕ → ℕ → EntitlementEntry
lot key units = record { key = key; entitlement_value = pos units }

abbrev pub lots_123 : List EntitlementEntry
lots_123 = lot 1 1 ∷ lot 2 1 ∷ lot 3 4 ∷ []

abbrev pub shares_123 : List (ℕ × ℕ)
shares_123 = (1, 1667) ∷ (2, 1667) ∷ (3, 6666) ∷ []

split_123 : allocate_by_entitlement milli (10_000 * per_cent) lots_123 ≡ ok shares_123
unfolding allocate_by_entitlement apportion floor_of sum_entitlement find_negative insert_floor
    order_floors set distribute before ◌+ℤ◌
split_123 = refl

-- Of equal remainders the smaller key comes first, wherever it stands in the list.
split_tie :
    allocate_by_entitlement milli (101 * per_cent) (lot 2 1 ∷ lot 1 1 ∷ [])
    ≡ ok ((1, 51) ∷ (2, 50) ∷ [])
unfolding allocate_by_entitlement apportion floor_of sum_entitlement find_negative insert_floor
    order_floors set distribute before ◌+ℤ◌
split_tie = refl

split_negative :
    allocate_by_entitlement milli per_cent
      (lot 1 5 ∷ record { key = 2; entitlement_value = negsuc 0 } ∷ [])
    ≡ err (validation (negative_entitlement 2))
unfolding allocate_by_entitlement sum_entitlement find_negative ◌+ℤ◌
split_negative = refl

split_half_cent : allocate_by_entitlement milli 500_000 lots_123 ≡ err (validation not_whole_cents)
unfolding allocate_by_entitlement sum_entitlement find_negative ◌+ℤ◌
split_half_cent = refl

Distinct-123 : Distinct (lots lots_123)
Distinct-123 = ((omega arith, (omega arith, tt)), ((omega arith, tt), (tt, tt)))

allocate_by_entitlement-sum_example : sum_by value shares_123 * per_cent ≡ 10_000 * per_cent
allocate_by_entitlement-sum_example =
    allocate_by_entitlement-sum milli (10_000 * per_cent) lots_123 {m = shares_123} split_123
      Distinct-123

allocate_by_entitlement-quota_example :
    (c : ℕ) × (get 3 shares_123 ≡ some c) × (6666 ≤ c) × (c ≤ 6667)
allocate_by_entitlement-quota_example =
    allocate_by_entitlement-quota milli (10_000 * per_cent) lots_123 {m = shares_123} {e = lot 3 4}
      split_123 Distinct-123 (there (there (here refl)))

allocate_by_entitlement_priority_example :
    let remainder = λ (e : EntitlementEntry). (floor_of milli 10_000 6 e).remainder in
    (remainder (lot 3 4) < remainder (lot 2 1))
    ⊎ ((remainder (lot 2 1) ≡ remainder (lot 3 4)) × (2 ≤ 3))
unfolding get
allocate_by_entitlement_priority_example =
    allocate_by_entitlement_priority milli (10_000 * per_cent) lots_123 {m = shares_123}
      {a = lot 2 1} {b = lot 3 4} split_123 Distinct-123 (there (here refl))
      (there (there (here refl))) refl refl

allocate_by_entitlement_ok_iff_example :
    ((m : List (ℕ × ℕ)) × (allocate_by_entitlement milli (10_000 * per_cent) lots_123 ≡ ok m)) ↔ (
      (0 < sum_by weight lots_123)
      × All (λ e. pos 0 ≤ℤ e.entitlement_value) lots_123
      × (10_000 * per_cent % per_cent ≡ 0))
allocate_by_entitlement_ok_iff_example =
    allocate_by_entitlement_ok_iff milli (10_000 * per_cent) lots_123

allocate_by_entitlement-perm_example :
    allocate_by_entitlement milli (10_000 * per_cent) (lot 2 1 ∷ lot 1 1 ∷ lot 3 4 ∷ [])
    ≡ ok shares_123
allocate_by_entitlement-perm_example =
    allocate_by_entitlement-perm milli (10_000 * per_cent) {xs = lots_123} {m = shares_123}
      (∣ Permᴰ.swap refl refl ∣₁) Distinct-123 split_123
