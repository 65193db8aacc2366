-- ===== src/LevyAllocation.antt =====
-- src/modules/financials/levy-allocation.ts: the split of a levy over lots in proportion to their
-- units of entitlement, by largest remainders. Lots are known by their keys, which are only compared.
pub mod Sorting
pub mod Shares
pub mod Exact
pub mod Fairness
pub mod Reordering
pub mod Keys
use waslproperty_backend.Prelude.{
  ℕ, zero, suc, ◌+◌, ◌-◌, ◌*◌, ◌/◌, ◌%◌, ◌<◌, ◌≡◌, Bool, true, false, ◌&&◌, ◌||◌, not, Option, none,
  some, List, [], ◌∷◌, map, ltb, leb, ◌==◌, if◌then◌else◌, sum_by,
}
use waslproperty_backend.Prelude.Int.{ℤ, pos, pos_part, neg_part, ◌+ℤ◌, ltb_ℤ, leb_ℤ}
use waslproperty_backend.Prelude.Result.{
  Result, ok, err, validation, no_lots, no_entitlement, negative_entitlement, not_whole_cents,
}

pub record EntitlementEntry : Type 0 where
  pub key : ℕ
  pub entitlement_value : ℤ

-- An exact amount of money, `cents` and a part of a cent in units of 1/`per_cent`.
abbrev pub per_cent : ℕ
per_cent = 1_000_000

-- decimal.js, as far as this file relies on it. `share t e s` is
-- `t.times(e).dividedBy(s)` in units of 1/`scale`: the result may be rounded, but its whole part is
-- that of the exact quotient.
pub record Decimal : Type 0 where
  pub scale : ℕ
  pub scale_pos : 0 < scale
  pub share : ℕ → ℕ → ℕ → ℕ
  pub floor_share : (t e s : ℕ) → 0 < s → share t e s / scale ≡ t * e / s

pub record Floor : Type 0 where
  pub key : ℕ
  pub floor_cents : ℕ
  pub remainder : ℕ

-- `entries.reduce((sum, e) => sum.plus(e.entitlementValue), 0)`
unfoldable pub sum_entitlement : List EntitlementEntry → ℤ
sum_entitlement [] = pos 0
sum_entitlement (e ∷ es) = e.entitlement_value +ℤ sum_entitlement es

-- The first entry whose value is negative, by its key.
unfoldable pub find_negative : List EntitlementEntry → Option ℕ
find_negative [] = none
find_negative (e ∷ es) =
    let rest = find_negative es in if ltb_ℤ e.entitlement_value (pos 0) then some e.key else rest

-- The comparator of the sort: the larger remainder first, then the smaller key. `true` means that
-- `a` may stand before `b`.
unfoldable pub before : Floor → Floor → Bool
before a b = ltb b.remainder a.remainder || (a.remainder == b.remainder && leb a.key b.key)

unfoldable pub insert_floor : Floor → List Floor → List Floor
insert_floor x [] = x ∷ []
insert_floor x (y ∷ ys) =
    let rest = insert_floor x ys in if before x y then x ∷ y ∷ ys else y ∷ rest

-- `[...floors].sort(…)`
unfoldable pub order_floors : List Floor → List Floor
unfolding insert_floor
order_floors [] = []
order_floors (x ∷ xs) = insert_floor x (order_floors xs)

-- `result.set(key, cents)` on a Map
unfoldable pub set : ℕ → ℕ → List (ℕ × ℕ) → List (ℕ × ℕ)
set k v [] = (k, v) ∷ []
set k v ((j, w) ∷ m) = if j == k then (k, v) ∷ m else (j, w) ∷ set k v m

-- `result.get(key)`
unfoldable pub get : ℕ → List (ℕ × ℕ) → Option ℕ
get k [] = none
get k ((j, v) ∷ m) = if j == k then some v else get k m

-- The last loop: the first `leftover` shares get one cent more.
unfoldable pub distribute : ℕ → ℕ → List Floor → List (ℕ × ℕ) → List (ℕ × ℕ)
distribute index leftover [] result = result
distribute index leftover (f ∷ fs) result =
    distribute (index + 1) leftover fs
      (set f.key (if ltb index leftover then f.floor_cents + 1 else f.floor_cents) result)

module _ (dec : Decimal) where
  unfoldable pub floor_of : ℕ → ℕ → EntitlementEntry → Floor
  floor_of total sum e =
      let raw = dec.share total (pos_part e.entitlement_value) sum in
      record { key = e.key; floor_cents = raw / dec.scale; remainder = raw % dec.scale }

  -- The computation after the checks, in whole cents. A negative `leftoverCents` gives no extra
  -- cent, and neither does the truncated difference.
  unfoldable pub apportion : ℕ → ℕ → List EntitlementEntry → List (ℕ × ℕ)
  apportion total_cents sum entries =
      let floors = map (floor_of total_cents sum) entries in
      distribute 0 (total_cents - sum_by (λ f. f.floor_cents) floors) (order_floors floors) []

  -- `allocateByEntitlement`, with the total in units of 1/`per_cent` of a cent.
  unfoldable pub allocate_by_entitlement : ℕ → List EntitlementEntry → Result (List (ℕ × ℕ))
  allocate_by_entitlement total [] = err (validation no_lots)
  allocate_by_entitlement total (e ∷ es) =
      let entries = e ∷ es in
      let sum = sum_entitlement entries in
      if leb_ℤ sum (pos 0) then err (validation no_entitlement) else elim (find_negative entries) [
        | some k ↦ err (validation (negative_entitlement k))
        | none ↦
            if total % per_cent == 0
            then ok (apportion (total / per_cent) (pos_part sum) entries)
            else err (validation not_whole_cents)
      ]
