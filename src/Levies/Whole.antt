-- ===== src/Levies/Whole.antt =====
-- The rows of `allocateInstallments` in src/modules/financials/levies.service.ts for one instalment: their
-- shares add up to the instalment.
use waslproperty_backend.Prelude.{
  ℕ, ◌+◌, ◌*◌, ◌≡◌, ◌≢◌, ◌⊎◌, refl, sym, inl, inr, List, [], ◌∷◌, arith, sum_by, All, All-both,
  Bool-cases, ◌==◌,
}
use waslproperty_backend.Prelude.Result.{ok, Result-cases}
use waslproperty_backend.Prelude.Unique.{DistinctIds}
use waslproperty_backend.LevyAllocation.{per_cent, Decimal, allocate_by_entitlement}
use waslproperty_backend.LevyAllocation.Sorting.{Distinct}
use waslproperty_backend.LevyAllocation.Shares.{value, allotted}
use waslproperty_backend.LevyAllocation.Exact.{lots}
use waslproperty_backend.LevyAllocation.Fairness.{allocate_by_entitlement-sum}
use waslproperty_backend.LevyAllocation.Keys.{allotted-Distinct, allotted-All}
use waslproperty_backend.Store.{Installment}
use waslproperty_backend.Levies.{Lot}
use waslproperty_backend.Levies.Split.{
  Share, LotRow, entries, empty_rows, push_share, push_shares, allocate_onto, allocate_installments,
}

-- `row.installments[0].amount`
abbrev pub first_amount : List Share → ℕ
first_amount [] = 0
first_amount (x ∷ _) = x.amount

abbrev pub charged : LotRow → ℕ
charged r = first_amount r.installments

-- One row has the id, and it has no share yet.
abbrev IsFree : ℕ → List LotRow → Type 0
IsFree k [] = ⊥
IsFree k (r ∷ rs) =
    ((r.space_id ≡ k) × (r.installments ≡ []) × All (λ (q : LotRow). q.space_id ≢ k) rs)
    ⊎ ((r.space_id ≢ k) × IsFree k rs)

push_share_absent :
    (k : ℕ) (x : Share) (rows : List LotRow)
    → All (λ (q : LotRow). q.space_id ≢ k) rows
    → push_share k x rows ≡ rows
unfolding push_share
push_share_absent k x [] h = refl
push_share_absent k x (r ∷ rs) h = ground (arith, push_share_absent k x rs h.1)

sum_by-push_share :
    (k : ℕ) (x : Share) (rows : List LotRow)
    → IsFree k rows
    → sum_by charged (push_share k x rows) ≡ x.amount + sum_by charged rows
unfolding push_share
sum_by-push_share k x [] h = absurd h
sum_by-push_share k x (r ∷ rs) (inl (e, none_yet, others)) =
    rw (push_share_absent k x rs others) (ground (arith, none_yet))
sum_by-push_share k x (r ∷ rs) (inr (n, h)) = ground (arith, sum_by-push_share k x rs h)

push_share-others :
    (j k : ℕ) (x : Share) (rows : List LotRow)
    → All (λ (q : LotRow). q.space_id ≢ j) rows
    → All (λ (q : LotRow). q.space_id ≢ j) (push_share k x rows)
unfolding push_share
push_share-others j k x [] h = tt
push_share-others j k x (r ∷ rs) h = elim (Bool-cases (r.space_id == k)) [
  | inl e ↦ rw e (h.0, push_share-others j k x rs h.1)
  | inr e ↦ rw e (h.0, push_share-others j k x rs h.1)
]

push_share-IsFree :
    (j k : ℕ) (x : Share) (rows : List LotRow)
    → j ≢ k
    → IsFree j rows
    → IsFree j (push_share k x rows)
unfolding push_share
push_share-IsFree j k x [] n h = h
push_share-IsFree j k x (r ∷ rs) n (inl (e, none_yet, others)) =
    elim (Bool-cases (r.space_id == k)) [
      | inl t ↦ absurd (n (ground arith))
      | inr t ↦ rw t (inl (e, none_yet, push_share-others j k x rs others))
    ]
push_share-IsFree j k x (r ∷ rs) n (inr (m, h)) = elim (Bool-cases (r.space_id == k)) [
  | inl t ↦ rw t (inr (m, push_share-IsFree j k x rs n h))
  | inr t ↦ rw t (inr (m, push_share-IsFree j k x rs n h))
]

sum_by-push_shares :
    (i : Installment) (m : List (ℕ × ℕ)) (rows : List LotRow)
    → Distinct (allotted m)
    → All (λ k. IsFree k rows) (allotted m)
    → sum_by charged (push_shares i m rows) ≡ sum_by value m + sum_by charged rows
unfolding push_shares
sum_by-push_shares i [] rows d h = omega arith
sum_by-push_shares i ((k, v) ∷ m) rows d h =
    let x : Share = record { levy_installment_id = i.id; due_date = i.due_date; amount = v } in
    let free = All-both (λ j n f. push_share-IsFree j k x rows n f) (allotted m) d.0 h.1 in
    omega
      (arith, sum_by-push_shares i m (push_share k x rows) d.1 free, sum_by-push_share k x rows h.0)

abbrev pub DistinctLots : List Lot → Type 0
DistinctLots = DistinctIds (λ (l : Lot). l.id)

lots-entries-Distinct : (ls : List Lot) → DistinctLots ls → Distinct (lots (entries ls))
lots-entries-Distinct [] d = tt
lots-entries-Distinct (l ∷ ls) d = (go ls d.0, lots-entries-Distinct ls d.1)
  where
    go :
        (ms : List Lot)
        → All (λ (q : Lot). q.id ≢ l.id) ms
        → All (λ k. k ≢ l.id) (lots (entries ms))
    go [] h = tt
    go (q ∷ ms) h = (h.0, go ms h.1)

empty_rows-others :
    (k : ℕ) (ls : List Lot)
    → All (λ (q : Lot). q.id ≢ k) ls
    → All (λ (q : LotRow). q.space_id ≢ k) (empty_rows ls)
empty_rows-others k [] h = tt
empty_rows-others k (l ∷ ls) h = (h.0, empty_rows-others k ls h.1)

empty_rows-IsFree :
    (ls : List Lot) → DistinctLots ls → All (λ k. IsFree k (empty_rows ls)) (lots (entries ls))
empty_rows-IsFree [] d = tt
empty_rows-IsFree (l ∷ ls) d =
    (inl (refl, refl, empty_rows-others l.id ls d.0), go ls d.0 (empty_rows-IsFree ls d.1))
  where
    go :
        (ms : List Lot)
        → All (λ (q : Lot). q.id ≢ l.id) ms
        → All (λ k. IsFree k (empty_rows ls)) (lots (entries ms))
        → All (λ k. IsFree k (empty_rows (l ∷ ls))) (lots (entries ms))
    go [] h f = tt
    go (q ∷ ms) h f = (inr ((λ e. h.0 (sym e)), f.0), go ms h.1 f.1)

sum_by-empty_rows : (ls : List Lot) → sum_by charged (empty_rows ls) ≡ 0
sum_by-empty_rows [] = refl
sum_by-empty_rows (l ∷ ls) = omega (arith, sum_by-empty_rows ls)

-- The first shares of the rows for one instalment add up to its amount.
pub allocate_installments-sum :
    (dec : Decimal) (i : Installment) (ls : List Lot) {rows : List LotRow}
    → DistinctLots ls
    → allocate_installments dec (i ∷ []) ls ≡ ok rows
    → sum_by charged rows ≡ i.amount
unfolding allocate_installments allocate_onto
allocate_installments-sum dec i ls {rows} d h =
    elim (Result-cases (allocate_by_entitlement dec (i.amount * per_cent) (entries ls))) [
      | inl (e, q) ↦ absurd (ground (arith, q))
      | inr (m, q) ↦
          let distinct = lots-entries-Distinct ls d in
          let same : push_shares i m (empty_rows ls) ≡ rows = ground (arith, q) in
          let sum = allocate_by_entitlement-sum dec (i.amount * per_cent) (entries ls) q distinct in
          let pushed =
            sum_by-push_shares i m (empty_rows ls)
              (allotted-Distinct dec (i.amount * per_cent) (entries ls) q distinct)
              (allotted-All dec (i.amount * per_cent) (entries ls) q distinct
                (λ k. IsFree k (empty_rows ls)) (empty_rows-IsFree ls d)) in
          let total : sum_by charged (push_shares i m (empty_rows ls)) ≡ i.amount =
            omega (arith, sum, pushed, sum_by-empty_rows ls) in
          rw same at total
    ]
