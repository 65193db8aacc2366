-- ===== src/LevyAllocation/Reordering.antt =====
-- The result of src/modules/financials/levy-allocation.ts does not depend on the order in which the
-- caller lists the lots.
use mathlib.Core.List.{Perm, Permᴰ}
use mathlib.Core.Logic.{∥∥₁_elim}
use native.Mathlib.Decide.{ℕ_discrete}
use waslproperty_backend.Prelude.{
  ℕ, ◌+◌, ◌/◌, ◌≡◌, ◌≢◌, refl, subst, ap, ◌∙◌, List, [], ◌∷◌, map, arith, sum_by, All,
}
use waslproperty_backend.Prelude.Int.{pos, ◌≤ℤ◌}
use waslproperty_backend.Prelude.Result.{Result, ok}
use waslproperty_backend.LevyAllocation.{
  EntitlementEntry, per_cent, Decimal, Floor, order_floors, floor_of, apportion,
  allocate_by_entitlement,
}
use waslproperty_backend.LevyAllocation.Sorting.{Distinct, insert_floor_comm}
use waslproperty_backend.LevyAllocation.Exact.{weight, lots, allocate-Accepted}
use waslproperty_backend.LevyAllocation.Fairness.{allocate-eq-ok}

module _ {ℓ} {A : Type ℓ} where
  sum_by-perm : (g : A → ℕ) {xs ys : List A} → Permᴰ xs ys → sum_by g xs ≡ sum_by g ys
  sum_by-perm g Permᴰ.nil = refl
  sum_by-perm g (Permᴰ.cons e p) = omega (arith, ap g e, sum_by-perm g p)
  sum_by-perm g (Permᴰ.swap e e') = omega (arith, ap g e, ap g e')
  sum_by-perm g (Permᴰ.trans p q) = sum_by-perm g p ∙ sum_by-perm g q

  All-perm {κ} : (P : A → Type κ) {xs ys : List A} → Permᴰ xs ys → All P xs → All P ys
  All-perm P Permᴰ.nil h = h
  All-perm P (Permᴰ.cons e p) h = (rw e at h.0, All-perm P p h.1)
  All-perm P (Permᴰ.swap e e') h = (rw e' at h.1.0, (rw e at h.0, h.1.1))
  All-perm P (Permᴰ.trans p q) h = All-perm P q (All-perm P p h)

All-lots :
    (k : ℕ) (es : List EntitlementEntry) → All (λ j. j ≢ k) (lots es) → All (λ f. f.key ≢ k) es
All-lots k [] h = tt
All-lots k (e ∷ es) h = (h.0, All-lots k es h.1)

lots-All :
    (k : ℕ) (es : List EntitlementEntry) → All (λ f. f.key ≢ k) es → All (λ j. j ≢ k) (lots es)
lots-All k [] h = tt
lots-All k (e ∷ es) h = (h.0, lots-All k es h.1)

Distinct-perm :
    {xs ys : List EntitlementEntry} → Permᴰ xs ys → Distinct (lots xs) → Distinct (lots ys)
Distinct-perm Permᴰ.nil d = d
Distinct-perm (Permᴰ.cons {b = b} {l₁ = l₁} {l₂ = l₂} e p) d = (
  lots-All b.key l₂ (All-perm (λ f. f.key ≢ b.key) p (All-lots b.key l₁ (rw e at d.0))),
  Distinct-perm p d.1,
)
Distinct-perm (Permᴰ.swap {a' = a'} {b' = b'} {l = l} e e') d = (
  (
    (λ q.
        d.0.0
          (cc (ap (λ (x : EntitlementEntry). x.key) e, ap (λ (x : EntitlementEntry). x.key) e'))),
    fresh e' d.1.0,
  ),
  (fresh e d.0.1, d.1.1),
)
  where
    fresh :
        {x y : EntitlementEntry}
        → x ≡ y
        → All (λ j. j ≢ x.key) (lots l)
        → All (λ j. j ≢ y.key) (lots l)
    fresh q h = subst (λ (z : EntitlementEntry). All (λ j. j ≢ z.key) (lots l)) q h
Distinct-perm (Permᴰ.trans p q) d = Distinct-perm q (Distinct-perm p d)

order_floors-perm :
    (f : EntitlementEntry → Floor) (same : (e : EntitlementEntry) → (f e).key ≡ e.key)
    {xs ys : List EntitlementEntry}
    → Permᴰ xs ys
    → Distinct (lots xs)
    → order_floors (map f xs) ≡ order_floors (map f ys)
unfolding order_floors
order_floors-perm f same Permᴰ.nil d = refl
order_floors-perm f same (Permᴰ.cons e p) d = cc (order_floors-perm f same p d.1)
order_floors-perm f same (Permᴰ.swap {a = a} {b = b} {l = l} e e') d =
    rw (← e, ← e')
      (insert_floor_comm (f a) (f b) (order_floors (map f l)) (λ q. d.0.0 (cc (same a, same b))))
order_floors-perm f same (Permᴰ.trans p q) d =
    order_floors-perm f same p d ∙ order_floors-perm f same q (Distinct-perm p d)

Result-set : IsSet (Result (List (ℕ × ℕ)))
Result-set = hlevel ℕ_discrete

sum_by-map {ℓ κ} :
    {A : Type ℓ} {B : Type κ} (g : B → ℕ) (f : A → B) (xs : List A)
    → sum_by g (map f xs) ≡ sum_by (λ x. g (f x)) xs
sum_by-map g f [] = refl
sum_by-map g f (x ∷ xs) = ap (◌+◌ (g (f x))) (sum_by-map g f xs)

apportion-perm :
    (dec : Decimal) (t s : ℕ) {xs ys : List EntitlementEntry}
    → Permᴰ xs ys
    → Distinct (lots xs)
    → apportion dec t s xs ≡ apportion dec t s ys
unfolding apportion floor_of
apportion-perm dec t s {xs} {ys} p d = rw (
  sum_by-map (λ f. f.floor_cents) (floor_of dec t s) xs,
  sum_by-map (λ f. f.floor_cents) (floor_of dec t s) ys,
  sum_by-perm (λ e. (floor_of dec t s e).floor_cents) p,
  order_floors-perm (floor_of dec t s) (λ e. refl) p d,
)

-- Whoever lists the lots in another order gets the same result, entry by entry, when the split
-- succeeds and no lot is listed twice.
pub allocate_by_entitlement-perm :
    (dec : Decimal) (total : ℕ) {xs ys : List EntitlementEntry} {m : List (ℕ × ℕ)}
    → Perm xs ys
    → Distinct (lots xs)
    → allocate_by_entitlement dec total xs ≡ ok m
    → allocate_by_entitlement dec total ys ≡ ok m
allocate_by_entitlement-perm dec total {xs} {ys} {m} perm d h = ∥∥₁_elim perm (Result-set _ _) λ p.
    let a = allocate-Accepted dec total xs h in
    let weights = sum_by-perm weight p in
    allocate-eq-ok dec total ys (rw weights at a.sum_pos)
      (All-perm (λ e. pos 0 ≤ℤ e.entitlement_value) p a.nonneg) (omega (arith, a.whole))
    ∙ cc (a.result, weights, apportion-perm dec (total / per_cent) (sum_by weight xs) p d)
