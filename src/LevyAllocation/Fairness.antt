-- ===== src/LevyAllocation/Fairness.antt =====
-- What allocateByEntitlement of src/modules/financials/levy-allocation.ts promises its callers.
use waslproperty_backend.Prelude.{
  ℕ, ◌+◌, ◌*◌, ◌/◌, ◌%◌, ◌≤◌, ◌<◌, ◌≡◌, ◌⊎◌, ◌↔◌, refl, some, List, [], ◌∷◌, arith, if◌then◌else◌,
  sum_by, All, In, Bool-cases,
}
use waslproperty_backend.Prelude.Int.{pos, ◌≤ℤ◌}
use waslproperty_backend.Prelude.Result.{ok}
use waslproperty_backend.LevyAllocation.{
  EntitlementEntry, per_cent, Decimal, before, get, floor_of, apportion, allocate_by_entitlement,
}
use waslproperty_backend.LevyAllocation.Sorting.{Distinct}
use waslproperty_backend.LevyAllocation.Shares.{value}
use waslproperty_backend.LevyAllocation.Exact.{
  weight, lots, allocate-Accepted, sum_entitlement-eq-pos, find_of_nonneg, sum_by-apportion,
  get-apportion, apportion_priority,
}

-- A successful split hands out the total exactly, provided that no lot is listed twice: the allotted
-- cents add up to the amount, which is a whole number of cents.
pub allocate_by_entitlement-sum :
    (dec : Decimal) (total : ℕ) (es : List EntitlementEntry) {m : List (ℕ × ℕ)}
    → allocate_by_entitlement dec total es ≡ ok m
    → Distinct (lots es)
    → sum_by value m * per_cent ≡ total
allocate_by_entitlement-sum dec total es h d =
    let a = allocate-Accepted dec total es h in
    rw (a.result, sum_by-apportion dec (total / per_cent) (sum_by weight es) a.sum_pos es refl d)
      a.whole

-- After a successful split over distinct lots, each lot has an amount in the result, and it is the
-- whole part of the lot's exact proportional share of the cents or one cent more.
pub allocate_by_entitlement-quota :
    (dec : Decimal) (total : ℕ) (es : List EntitlementEntry) {m : List (ℕ × ℕ)}
    {e : EntitlementEntry}
    → allocate_by_entitlement dec total es ≡ ok m
    → Distinct (lots es)
    → In e es
    → let quota = total / per_cent * weight e / sum_by weight es in
      (c : ℕ) × (get e.key m ≡ some c) × (quota ≤ c) × (c ≤ quota + 1)
allocate_by_entitlement-quota dec total es {e = e} h d i =
    let a = allocate-Accepted dec total es h in
    let quota = total / per_cent * weight e / sum_by weight es in
    let (extra, p) = get-apportion dec (total / per_cent) (sum_by weight es) a.sum_pos es d i in
    (
      (if extra then quota + 1 else quota),
      rw a.result p,
      ground (arith, Bool-cases extra),
      ground (arith, Bool-cases extra),
    )

-- The extra cents go by largest remainder: of two lots of a successful split over distinct lots, if
-- the first got a cent above the whole part of its share and the second did not, then the first has
-- the larger remainder, or the same remainder and a key that is not larger.
pub allocate_by_entitlement_priority :
    (dec : Decimal) (total : ℕ) (es : List EntitlementEntry) {m : List (ℕ × ℕ)}
    {a b : EntitlementEntry}
    → allocate_by_entitlement dec total es ≡ ok m
    → Distinct (lots es)
    → In a es
    → In b es
    → get a.key m ≡ some (total / per_cent * weight a / sum_by weight es + 1)
    → get b.key m ≡ some (total / per_cent * weight b / sum_by weight es)
    → let remainder = λ (e : EntitlementEntry).
      (floor_of dec (total / per_cent) (sum_by weight es) e).remainder in
      (remainder b < remainder a) ⊎ ((remainder a ≡ remainder b) × (a.key ≤ b.key))
unfolding before floor_of
allocate_by_entitlement_priority dec total es {m} {a} {b} h d i j p q =
    let acc = allocate-Accepted dec total es h in
    let first =
      apportion_priority dec (total / per_cent) (sum_by weight es) acc.sum_pos es d i j
        (rw acc.result at p) (rw acc.result at q) in
    ground (arith, first)

pub allocate-eq-ok :
    (dec : Decimal) (total : ℕ) (es : List EntitlementEntry)
    → 0 < sum_by weight es
    → All (λ e. pos 0 ≤ℤ e.entitlement_value) es
    → total % per_cent ≡ 0
    → allocate_by_entitlement dec total es
      ≡ ok (apportion dec (total / per_cent) (sum_by weight es) es)
unfolding allocate_by_entitlement
allocate-eq-ok dec total [] p n w = absurd (omega arith)
allocate-eq-ok dec total (e ∷ es) p n w =
    let none_negative = find_of_nonneg (e ∷ es) n in
    ground (arith, none_negative, sum_entitlement-eq-pos (e ∷ es) none_negative)

-- The split succeeds exactly when there is a lot, the values add up to more than zero, none is
-- negative, and the amount is a whole number of cents.
pub allocate_by_entitlement_ok_iff :
    (dec : Decimal) (total : ℕ) (es : List EntitlementEntry)
    → ((m : List (ℕ × ℕ)) × (allocate_by_entitlement dec total es ≡ ok m)) ↔ (
        (0 < sum_by weight es)
        × All (λ e. pos 0 ≤ℤ e.entitlement_value) es
        × (total % per_cent ≡ 0))
allocate_by_entitlement_ok_iff dec total es = (
  (λ (m, h).
      let a = allocate-Accepted dec total es h in (a.sum_pos, a.nonneg, omega (arith, a.whole))),
  (λ (p, n, w).
      (apportion dec (total / per_cent) (sum_by weight es) es, allocate-eq-ok dec total es p n w)),
)
