-- ===== src/Prelude/Buckets.antt =====
-- A Map from a key to the sums of debits and credits of the rows with that key, filled by a loop.
use Prim.Native.Nat.{ℕ, ◌+◌}
use mathlib.Core.Path.{◌≡◌, refl}
use mathlib.Core.List.{List, [], ◌∷◌}
use mathlib.Core.Option.{Option, none, some}
use native.Mathlib.Omega.{arith}
use waslproperty_backend.Prelude.Tests.{◌==◌, if◌then◌else◌}
use waslproperty_backend.Prelude.Lists.{sum_by}

pub record Bucket : Type 0 where
  pub key : ℕ
  pub debit : ℕ
  pub credit : ℕ

-- `byKey.get(k) ?? { debit: 0, credit: 0 }`, with the amounts added, and `byKey.set(k, …)`
unfoldable pub add : ℕ → ℕ → ℕ → List Bucket → List Bucket
add k d c [] = record { key = k; debit = d; credit = c } ∷ []
add k d c (b ∷ bs) =
    let rest = add k d c bs in
    if b.key == k then record b { debit = b.debit + d; credit = b.credit + c } ∷ bs else b ∷ rest

-- The first bucket whose debits and credits differ, by its key.
unfoldable pub find_unbalanced : List Bucket → Option ℕ
find_unbalanced [] = none
find_unbalanced (b ∷ bs) =
    let rest = find_unbalanced bs in if b.debit == b.credit then rest else some b.key

debit_at : ℕ → List Bucket → ℕ
debit_at k [] = 0
debit_at k (b ∷ bs) = let rest = debit_at k bs in if b.key == k then b.debit else rest

credit_at : ℕ → List Bucket → ℕ
credit_at k [] = 0
credit_at k (b ∷ bs) = let rest = credit_at k bs in if b.key == k then b.credit else rest

at-add :
    (j k d c : ℕ) (m : List Bucket)
    → (debit_at j (add k d c m) ≡ debit_at j m + (if k == j then d else 0))
      × (credit_at j (add k d c m) ≡ credit_at j m + (if k == j then c else 0))
unfolding add debit_at credit_at
at-add j k d c [] = (ground arith, ground arith)
at-add j k d c (b ∷ bs) = let ih = at-add j k d c bs in (ground (arith, ih.0), ground (arith, ih.1))

balanced_at : (k : ℕ) (m : List Bucket) → find_unbalanced m ≡ none → debit_at k m ≡ credit_at k m
unfolding find_unbalanced debit_at credit_at
balanced_at k [] h = refl
balanced_at k (b ∷ bs) h = ground (arith, balanced_at k bs)

sum_by-add :
    (k d c : ℕ) (m : List Bucket)
    → (sum_by (λ b. b.debit) (add k d c m) ≡ sum_by (λ b. b.debit) m + d)
      × (sum_by (λ b. b.credit) (add k d c m) ≡ sum_by (λ b. b.credit) m + c)
unfolding add
sum_by-add k d c [] = (omega arith, omega arith)
sum_by-add k d c (b ∷ bs) =
    let ih = sum_by-add k d c bs in (ground (arith, ih.0), ground (arith, ih.1))

module _ {ℓ} {A : Type ℓ} (key debit credit : A → ℕ) where
  -- The loop over the rows.
  unfoldable pub group : List Bucket → List A → List Bucket
  group m [] = m
  group m (x ∷ xs) = group (add (key x) (debit x) (credit x) m) xs

  -- The amounts of the rows with a key.
  abbrev pub debits_of : ℕ → List A → ℕ
  debits_of k = sum_by (λ x. if key x == k then debit x else 0)

  abbrev pub credits_of : ℕ → List A → ℕ
  credits_of k = sum_by (λ x. if key x == k then credit x else 0)

  at-group :
      (k : ℕ) (m : List Bucket) (xs : List A)
      → (debit_at k (group m xs) ≡ debit_at k m + debits_of k xs)
        × (credit_at k (group m xs) ≡ credit_at k m + credits_of k xs)
  unfolding group
  at-group k m [] = (omega arith, omega arith)
  at-group k m (x ∷ xs) =
      let ih = at-group k (add (key x) (debit x) (credit x) m) xs in
      let one = at-add k (key x) (debit x) (credit x) m in
      (omega (arith, ih.0, one.0), omega (arith, ih.1, one.1))

  -- With no unbalanced bucket, the rows of each key balance.
  pub group-balanced :
      (k : ℕ) (xs : List A)
      → find_unbalanced (group [] xs) ≡ none
      → debits_of k xs ≡ credits_of k xs
  unfolding debit_at credit_at
  group-balanced k xs h =
      let ends = at-group k [] xs in omega (arith, ends.0, ends.1, balanced_at k (group [] xs) h)

  -- The buckets hold the sums of all rows.
  pub sum_by-group :
      (m : List Bucket) (xs : List A)
      → (sum_by (λ b. b.debit) (group m xs) ≡ sum_by (λ b. b.debit) m + sum_by debit xs)
        × (sum_by (λ b. b.credit) (group m xs) ≡ sum_by (λ b. b.credit) m + sum_by credit xs)
  unfolding group
  sum_by-group m [] = (omega arith, omega arith)
  sum_by-group m (x ∷ xs) =
      let ih = sum_by-group (add (key x) (debit x) (credit x) m) xs in
      let one = sum_by-add (key x) (debit x) (credit x) m in
      (omega (arith, ih.0, one.0), omega (arith, ih.1, one.1))
