-- ===== src/Prelude/Lists.antt =====
-- Lists: length, sums and membership over the native numbers, and the array methods of the source.
use Prim.Native.Nat.{ℕ, suc, ◌+◌}
use mathlib.Core.Path.{◌≡◌, refl, ap, subst}
use mathlib.Core.Logic.{inl, inr}
use mathlib.Core.Bool.{Bool, true, false}
use mathlib.Core.List.{List, [], ◌∷◌, ◌++◌, map}
use mathlib.Core.Option.{Option, none, some}
use native.Mathlib.Omega.{arith}
use waslproperty_backend.Prelude.Tests.{if◌then◌else◌, Bool-cases}

module _ {ℓ} {A : Type ℓ} where
  abbrev pub length : List A → ℕ
  length [] = 0
  length (x ∷ xs) = suc (length xs)

  -- `xs.filter(p)`
  abbrev pub filter : (A → Bool) → List A → List A
  filter p [] = []
  filter p (x ∷ xs) = let rest = filter p xs in if p x then x ∷ rest else rest

  -- `xs.find(p)`, and a query for the first row that satisfies `p`
  abbrev pub find : (A → Bool) → List A → Option A
  find p [] = none
  find p (x ∷ xs) = let rest = find p xs in if p x then some x else rest

  -- The sum of a measure over a list.
  abbrev pub sum_by : (A → ℕ) → List A → ℕ
  sum_by f [] = 0
  sum_by f (x ∷ xs) = f x + sum_by f xs

  -- `P` holds of each element.
  abbrev pub All {κ} : (A → Type κ) → List A → Type κ
  All P [] = Unit
  All P (x ∷ xs) = P x × All P xs

  -- An occurrence of `a` in the list.
  pub data In (a : A) : List A → Type ℓ where
    here : {x : A} {xs : List A} → x ≡ a → In a (x ∷ xs)
    there : {x : A} {xs : List A} → In a xs → In a (x ∷ xs)

  pub length-append : (xs ys : List A) → length (xs ++ ys) ≡ length xs + length ys
  length-append [] ys = omega arith
  length-append (x ∷ xs) ys = omega (arith, length-append xs ys)

  pub sum_by-append : (f : A → ℕ) (xs ys : List A) → sum_by f (xs ++ ys) ≡ sum_by f xs + sum_by f ys
  sum_by-append f [] ys = omega arith
  sum_by-append f (x ∷ xs) ys = omega (arith, sum_by-append f xs ys)

module _ {ℓ κ μ} {A : Type ℓ} {P : A → Type κ} {Q : A → Type μ} where
  pub All-implies : ((a : A) → P a → Q a) → (xs : List A) → All P xs → All Q xs
  All-implies f [] h = tt
  All-implies f (x ∷ xs) h = (f x h.0, All-implies f xs h.1)

module _ {ℓ κ μ ν} {A : Type ℓ} {P : A → Type κ} {Q : A → Type μ} {R : A → Type ν} where
  pub All-both : ((a : A) → P a → Q a → R a) → (xs : List A) → All P xs → All Q xs → All R xs
  All-both f [] h k = tt
  All-both f (x ∷ xs) h k = (f x h.0 k.0, All-both f xs h.1 k.1)

module _ {ℓ κ} {A : Type ℓ} (P : A → Type κ) where
  pub All-at : {a : A} (xs : List A) → All P xs → In a xs → P a
  All-at [] h i = elim i [ ]
  All-at (x ∷ xs) h (here e) = subst P e h.0
  All-at (x ∷ xs) h (there i) = All-at xs h.1 i

  pub All-append : (xs ys : List A) → All P xs → All P ys → All P (xs ++ ys)
  All-append [] ys hx hy = hy
  All-append (x ∷ xs) ys hx hy = (hx.0, All-append xs ys hx.1 hy)

module _ {ℓ κ} {A : Type ℓ} {B : Type κ} (f : A → B) where
  pub In-map : {a : A} (xs : List A) → In a xs → In (f a) (map f xs)
  In-map [] i = elim i [ ]
  In-map (x ∷ xs) (here e) = here (ap f e)
  In-map (x ∷ xs) (there i) = there (In-map xs i)

module _ {ℓ} {A : Type ℓ} (p : A → Bool) where
  -- What a query returns is a row that satisfies its condition.
  pub find-eq-some : (xs : List A) {a : A} → find p xs ≡ some a → (p a ≡ true) × In a xs
  find-eq-some [] h = cc
  find-eq-some (x ∷ xs) {a} h = elim (Bool-cases (p x)) [
    | inl e ↦ let same : x ≡ a = ground arith in (rw (← same) e, here same)
    | inr e ↦ let (t, i) = find-eq-some xs (ground arith) in (t, there i)
  ]

  -- A query that returns nothing has no row that satisfies its condition.
  pub find-eq-none : (xs : List A) → find p xs ≡ none → All (λ a. p a ≡ false) xs
  find-eq-none [] h = tt
  find-eq-none (x ∷ xs) h = (ground arith, find-eq-none xs (ground arith))

  pub find_of_All : (xs : List A) → All (λ a. p a ≡ false) xs → find p xs ≡ none
  find_of_All [] h = refl
  find_of_All (x ∷ xs) h = ground (arith, find_of_All xs h.1)

pub All-of_In {ℓ κ} :
    {A : Type ℓ} (P : A → Type κ) (xs : List A) → ((a : A) → In a xs → P a) → All P xs
All-of_In P [] f = tt
All-of_In P (x ∷ xs) f = (f x (here refl), All-of_In P xs (λ a i. f a (there i)))
