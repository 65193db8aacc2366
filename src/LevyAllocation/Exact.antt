-- ===== src/LevyAllocation/Exact.antt =====
-- The cents that src/modules/financials/levy-allocation.ts hands out: their sum, and the share of each lot.
use native.Mathlib.Nat.{div-add-mod, mod-lt, le_of_mul-le-mul_right, le_trans, le-add_right}
use waslproperty_backend.Prelude.{
  ℕ, suc, ◌+◌, ◌-◌, ◌*◌, ◌/◌, ◌≤◌, ◌<◌, ◌≡◌, refl, ap, inl, inr, Bool, true, none, some, List, [],
  ◌∷◌, map, arith, if◌then◌else◌, length, sum_by, All, In, In-map, Option-cases,
}
use waslproperty_backend.Prelude.Int.{pos, pos_part, ◌≤ℤ◌, int_laws}
use waslproperty_backend.Prelude.Result.{ok}
use waslproperty_backend.LevyAllocation.{
  EntitlementEntry, per_cent, Decimal, Floor, before, sum_entitlement, find_negative, order_floors,
  get, floor_of, apportion, allocate_by_entitlement,
}
use waslproperty_backend.LevyAllocation.Sorting.{
  Distinct, keys, sum_by-order_floors, length-order_floors, In-order_floors, Distinct-order_floors,
  IsOrdered-order_floors,
}
use waslproperty_backend.LevyAllocation.Shares.{
  shares, value, distribute-eq-shares, sum_by-shares, get-shares, extra_before,
}

-- The weight of an entry, and the keys of the entries.
abbrev pub weight : EntitlementEntry → ℕ
weight e = pos_part e.entitlement_value

abbrev pub lots : List EntitlementEntry → List ℕ
lots = map (λ e. e.key)

-- What the checks of `allocate_by_entitlement` have established when it succeeds.
pub record Accepted (dec : Decimal) (total : ℕ) (es : List EntitlementEntry) (m : List (ℕ × ℕ))
    : Type 0 where
  pub whole : total / per_cent * per_cent ≡ total
  pub nonneg : All (λ e. pos 0 ≤ℤ e.entitlement_value) es
  pub sum_pos : 0 < sum_by weight es
  pub result : m ≡ apportion dec (total / per_cent) (sum_by weight es) es

pub sum_entitlement-eq-pos :
    (es : List EntitlementEntry)
    → find_negative es ≡ none
    → sum_entitlement es ≡ pos (sum_by weight es)
unfolding sum_entitlement find_negative
sum_entitlement-eq-pos [] h = refl
sum_entitlement-eq-pos (e ∷ es) h = grind (int_laws, sum_entitlement-eq-pos es)

pub nonneg_of_find :
    (es : List EntitlementEntry)
    → find_negative es ≡ none
    → All (λ e. pos 0 ≤ℤ e.entitlement_value) es
unfolding find_negative
nonneg_of_find [] h = tt
nonneg_of_find (e ∷ es) h = (ground arith, nonneg_of_find es (ground arith))

pub find_of_nonneg :
    (es : List EntitlementEntry)
    → All (λ e. pos 0 ≤ℤ e.entitlement_value) es
    → find_negative es ≡ none
unfolding find_negative
find_of_nonneg [] h = refl
find_of_nonneg (e ∷ es) h = ground (arith, find_of_nonneg es h.1)

pub allocate-Accepted :
    (dec : Decimal) (total : ℕ) (es : List EntitlementEntry) {m : List (ℕ × ℕ)}
    → allocate_by_entitlement dec total es ≡ ok m
    → Accepted dec total es m
unfolding allocate_by_entitlement
allocate-Accepted dec total [] h = cc
allocate-Accepted dec total (e ∷ es) h = elim (Option-cases (find_negative (e ∷ es))) [
  | inl none_negative ↦
      ground (
        arith,
        sum_entitlement-eq-pos (e ∷ es) none_negative,
        nonneg_of_find (e ∷ es) none_negative,
      )
  | inr (k, negative) ↦ ground arith
]

module _ (dec : Decimal) (t s : ℕ) (sp : 0 < s) where
  abbrev pub floors : List EntitlementEntry → List Floor
  floors = map (floor_of dec t s)

  -- The whole cents fall short of the exact shares by less than a cent for each lot.
  floors_bounds :
      (es : List EntitlementEntry)
      → (sum_by (λ f. f.floor_cents) (floors es) * s ≤ t * sum_by weight es)
        × (t * sum_by weight es + length es
            ≤ (sum_by (λ f. f.floor_cents) (floors es) + length es) * s)
  unfolding floor_of
  floors_bounds [] = (omega arith, omega arith)
  floors_bounds (e ∷ es) =
      let fl = dec.floor_share t (weight e) s sp in
      let dm = div-add-mod (t * weight e) s in
      let lt = mod-lt (t * weight e) sp in let ih = floors_bounds es in (grind arith, grind arith)

  pub keys-floors : (es : List EntitlementEntry) → keys (floors es) ≡ lots es
  unfolding floor_of
  keys-floors [] = refl
  keys-floors (e ∷ es) = ap (◌∷◌ e.key) (keys-floors es)

  abbrev pub whole_cents : List EntitlementEntry → ℕ
  whole_cents es = sum_by (λ f. f.floor_cents) (floors es)

  -- The cents that are left over are at most one for each lot.
  leftover_bounds :
      (es : List EntitlementEntry)
      → sum_by weight es ≡ s
      → (whole_cents es ≤ t) × (t ≤ whole_cents es + length es)
  leftover_bounds es h =
      let (low, high) = floors_bounds es in
      (
        le_of_mul-le-mul_right (rw h at low) sp,
        le_of_mul-le-mul_right (le_trans (le-add_right (t * s) (length es)) (rw h at high)) sp,
      )

  pub apportion-eq-shares :
      (es : List EntitlementEntry)
      → Distinct (lots es)
      → apportion dec t s es ≡ shares 0 (t - whole_cents es) (order_floors (floors es))
  unfolding apportion
  apportion-eq-shares es d =
      distribute-eq-shares (t - whole_cents es) (order_floors (floors es))
        (Distinct-order_floors (floors es) (rw (keys-floors es) d))

  length-floors : (es : List EntitlementEntry) → length (floors es) ≡ length es
  length-floors [] = refl
  length-floors (e ∷ es) = ap suc (length-floors es)

  pub sum_by-apportion :
      (es : List EntitlementEntry)
      → sum_by weight es ≡ s
      → Distinct (lots es)
      → sum_by value (apportion dec t s es) ≡ t
  sum_by-apportion es h d = rw (apportion-eq-shares es d) (
      omega (
        arith,
        sum_by-shares 0 (t - whole_cents es) (order_floors (floors es)),
        sum_by-order_floors (λ f. f.floor_cents) (floors es),
        length-order_floors (floors es),
        length-floors es,
        leftover_bounds es h,
      ))

  pub get-apportion :
      {e : EntitlementEntry} (es : List EntitlementEntry)
      → Distinct (lots es)
      → In e es
      → (extra : Bool) × (get e.key (apportion dec t s es)
          ≡ some (if extra then t * weight e / s + 1 else t * weight e / s))
  unfolding floor_of
  get-apportion {e} es d i =
      let (extra, p) =
        get-shares 0 (t - whole_cents es) (order_floors (floors es))
          (Distinct-order_floors (floors es) (rw (keys-floors es) d))
          (In-order_floors (floors es) (In-map (floor_of dec t s) es i)) in
      (extra, rw (apportion-eq-shares es d, ← dec.floor_share t (weight e) s sp) p)

  pub apportion_priority :
      {a b : EntitlementEntry} (es : List EntitlementEntry)
      → Distinct (lots es)
      → In a es
      → In b es
      → get a.key (apportion dec t s es) ≡ some (t * weight a / s + 1)
      → get b.key (apportion dec t s es) ≡ some (t * weight b / s)
      → before (floor_of dec t s a) (floor_of dec t s b) ≡ true
  unfolding floor_of
  apportion_priority {a} {b} es d i j p q =
      extra_before 0 (t - whole_cents es) (order_floors (floors es))
        (IsOrdered-order_floors (floors es))
        (Distinct-order_floors (floors es) (rw (keys-floors es) d))
        (In-order_floors (floors es) (In-map (floor_of dec t s) es i))
        (In-order_floors (floors es) (In-map (floor_of dec t s) es j))
        (rw (apportion-eq-shares es d, ← dec.floor_share t (weight a) s sp) at p)
        (rw (apportion-eq-shares es d, ← dec.floor_share t (weight b) s sp) at q)
