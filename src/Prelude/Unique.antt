-- ===== src/Prelude/Unique.antt =====
-- `[...new Set(ids)]` and `includes`, and counting against the ids of a table.
use Prim.Native.Nat.{ℕ, ◌≤◌, ◌<◌}
use mathlib.Core.Path.{◌≡◌, refl, sym, ap, ◌∙◌}
use mathlib.Core.Logic.{◌≢◌, ◌⊎◌, inl, inr}
use mathlib.Core.Bool.{Bool, true, false, ◌&&◌, ◌||◌}
use mathlib.Core.Option.{some}
use mathlib.Core.List.{List, [], ◌∷◌, map}
use native.Mathlib.Omega.{arith}
use waslproperty_backend.Prelude.Tests.{◌==◌, if◌then◌else◌, Bool-cases, Option-cases}
use waslproperty_backend.Prelude.Lists.{
  All-at, length, filter, find, All, In, here, there, All-implies, find-eq-some, find-eq-none,
}

unfoldable pub contains : List ℕ → ℕ → Bool
contains [] k = false
contains (j ∷ js) k = j == k || contains js k

unfoldable pub unique : List ℕ → List ℕ
unique [] = []
unique (k ∷ ks) = let rest = unique ks in if contains rest k then rest else k ∷ rest

pub contains-unique : (ks : List ℕ) (k : ℕ) → contains (unique ks) k ≡ contains ks k
unfolding contains unique
contains-unique [] k = refl
contains-unique (j ∷ ks) k = ground (arith, contains-unique ks k, contains-unique ks j)

remove : ℕ → List ℕ → List ℕ
remove k [] = []
remove k (j ∷ js) = let rest = remove k js in if j == k then rest else j ∷ rest

contains-remove :
    (k j : ℕ) (ks : List ℕ) → j ≢ k → contains ks j ≡ true → contains (remove k ks) j ≡ true
unfolding contains remove
contains-remove k j [] n h = h
contains-remove k j (i ∷ ks) n h = ground (arith, contains-remove k j ks n)

length-remove-le : (k : ℕ) (ks : List ℕ) → length (remove k ks) ≤ length ks
unfolding remove
length-remove-le k [] = omega arith
length-remove-le k (j ∷ ks) = ground (arith, length-remove-le k ks)

length-remove : (k : ℕ) (ks : List ℕ) → contains ks k ≡ true → length (remove k ks) < length ks
unfolding contains remove
length-remove k [] h = cc
length-remove k (j ∷ ks) h = ground (arith, length-remove k ks, length-remove-le k ks)

module _ {ℓ} {A : Type ℓ} (id : A → ℕ) where
  -- No two rows have the same id.
  abbrev pub DistinctIds : List A → Type 0
  DistinctIds [] = Unit
  DistinctIds (x ∷ xs) = All (λ y. id y ≢ id x) xs × DistinctIds xs

  pub All-filter {κ} :
      (P : A → Type κ) (p : A → Bool) (xs : List A) → All P xs → All P (filter p xs)
  All-filter P p [] h = tt
  All-filter P p (x ∷ xs) h = elim (Bool-cases (p x)) [
    | inl e ↦ rw e (h.0, All-filter P p xs h.1)
    | inr e ↦ rw e (All-filter P p xs h.1)
  ]

  pub In-unique_id :
      {x : A} (xs : List A) → DistinctIds xs → In x xs → All (λ y. id y ≡ id x → y ≡ x) xs
  In-unique_id [] d i = tt
  In-unique_id (y ∷ ys) d (here e) =
      (λ _. e, All-implies (λ z n q. absurd (n (q ∙ ap id (sym e)))) ys d.0)
  In-unique_id (y ∷ ys) d (there i) =
      (λ q. absurd (All-at (λ z. id z ≢ id y) ys d.0 i (sym q)), In-unique_id ys d.1 i)

  -- Among distinct rows, the one that a query by id finds is the only one with that id.
  pub find_unique :
      (k : ℕ) {x : A} (xs : List A)
      → DistinctIds xs
      → find (λ y. id y == k) xs ≡ some x
      → All (λ y. id y ≡ k → y ≡ x) xs
  find_unique k [] d h = tt
  find_unique k {x} (y ∷ ys) d h = elim (Bool-cases (id y == k)) [
    | inl e ↦
        let same : y ≡ x = ground arith in
        (λ _. same, All-implies (λ z n q. absurd (n (ground arith))) ys d.0)
    | inr e ↦ (λ q. absurd (ground arith), find_unique k {x = x} ys d.1 (ground arith))
  ]

  pub All-filter_holds : (p : A → Bool) (xs : List A) → All (λ x. p x ≡ true) (filter p xs)
  All-filter_holds p [] = tt
  All-filter_holds p (x ∷ xs) = elim (Bool-cases (p x)) [
    | inl e ↦ rw e (e, All-filter_holds p xs)
    | inr e ↦ rw e (All-filter_holds p xs)
  ]

  pub DistinctIds-filter : (p : A → Bool) (xs : List A) → DistinctIds xs → DistinctIds (filter p xs)
  DistinctIds-filter p [] h = tt
  DistinctIds-filter p (x ∷ xs) h = elim (Bool-cases (p x)) [
    | inl e ↦ rw e (All-filter (λ y. id y ≢ id x) p xs h.0, DistinctIds-filter p xs h.1)
    | inr e ↦ rw e (DistinctIds-filter p xs h.1)
  ]

  length-le-contains :
      (ks : List ℕ) (xs : List A)
      → DistinctIds xs
      → All (λ x. contains ks (id x) ≡ true) xs
      → length xs ≤ length ks
  length-le-contains ks [] d h = omega arith
  length-le-contains ks (x ∷ xs) d h =
      let others = All-others xs d.0 h.1 in
      omega
        (arith, length-le-contains (remove (id x) ks) xs d.1 others, length-remove (id x) ks h.0)
    where
      All-others :
          (ys : List A)
          → All (λ y. id y ≢ id x) ys
          → All (λ y. contains ks (id y) ≡ true) ys
          → All (λ y. contains (remove (id x) ks) (id y) ≡ true) ys
      All-others [] a b = tt
      All-others (y ∷ ys) a b = (contains-remove (id x) (id y) ks a.0 b.0, All-others ys a.1 b.1)

  All-without :
      (k : ℕ) (ks : List ℕ) (ys : List A)
      → All (λ y. (id y == k) ≡ false) ys
      → All (λ y. contains ks (id y) ≡ true) ys
      → All (λ y. contains (remove k ks) (id y) ≡ true) ys
  All-without k ks [] a b = tt
  All-without k ks (y ∷ ys) a b =
      (contains-remove k (id y) ks (ground arith) b.0, All-without k ks ys a.1 b.1)

  -- If as many rows are found as there are different ids, each id has a row.
  pub find_of_count :
      (ks : List ℕ) (q : A → Bool) (rows : List A)
      → DistinctIds rows
      → length (filter (λ a. contains ks (id a) && q a) rows) ≡ length ks
      → (k : ℕ) → contains ks k ≡ true
      → (a : A) × In a (filter (λ a. contains ks (id a) && q a) rows) × (id a ≡ k)
  find_of_count ks q rows d same k h =
      let found = filter (λ a. contains ks (id a) && q a) rows in
      elim (Option-cases (find (λ a. id a == k) found)) [
        | inr (a, e) ↦ let (t, i) = find-eq-some (λ a. id a == k) found e in (a, i, ground arith)
        | inl e ↦
            let others = All-without k ks found (find-eq-none (λ a. id a == k) found e) (
              All-implies (λ a t. ground arith) found
                (All-filter_holds (λ a. contains ks (id a) && q a) rows)) in
            absurd (
              omega (
                arith,
                length-le-contains (remove k ks) found
                    (DistinctIds-filter (λ a. contains ks (id a) && q a) rows d) others,
                length-remove k ks h,
              ))
      ]

In-cases {ℓ} : {A : Type ℓ} {a x : A} {xs : List A} → In a (x ∷ xs) → (x ≡ a) ⊎ In a xs
In-cases (here e) = inl e
In-cases (there i) = inr i

pub In-filter {ℓ} :
    {A : Type ℓ} (p : A → Bool) {a : A} (xs : List A) → In a (filter p xs) → In a xs × (p a ≡ true)
In-filter p [] i = elim i [ ]
In-filter p {a} (x ∷ xs) i =
    let rest = In-filter p {a = a} xs in
    elim (Bool-cases (p x)) [
      | inr e ↦ let (j, t) = rest (rw e at i) in (there j, t)
      | inl e ↦ elim (In-cases (rw e at i)) [
        | inl q ↦ (here q, rw (← q) e)
        | inr k ↦ let (j, t) = rest k in (there j, t)
      ]
    ]

pub contains-map {ℓ} :
    {A : Type ℓ} (f : A → ℕ) {a : A} (xs : List A) → In a xs → contains (map f xs) (f a) ≡ true
unfolding contains
contains-map f [] i = elim i [ ]
contains-map f (x ∷ xs) (here e) = ground (arith, ap f e)
contains-map f (x ∷ xs) (there i) = ground (arith, contains-map f xs i)
