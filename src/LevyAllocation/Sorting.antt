-- ===== src/LevyAllocation/Sorting.antt =====
-- The sort of the shares in src/modules/financials/levy-allocation.ts: what it keeps, and that its
-- result does not depend on the order of its input.
use waslproperty_backend.Prelude.{
  ℕ, ◌+◌, ◌≡◌, ◌≢◌, refl, sym, inl, inr, true, false, List, [], ◌∷◌, map, arith, Bool-cases, length,
  sum_by, All, In, here, there, All-implies,
}
use waslproperty_backend.LevyAllocation.{Floor, before, insert_floor, order_floors}

-- No two entries of a list of keys are equal.
abbrev pub Distinct : List ℕ → Type 0
Distinct [] = Unit
Distinct (k ∷ ks) = All (λ j. j ≢ k) ks × Distinct ks

abbrev pub keys : List Floor → List ℕ
keys = map (λ f. f.key)

sum_by-insert_floor :
    (g : Floor → ℕ) (x : Floor) (l : List Floor) → sum_by g (insert_floor x l) ≡ g x + sum_by g l
unfolding insert_floor
sum_by-insert_floor g x [] = omega arith
sum_by-insert_floor g x (y ∷ ys) = ground (arith, sum_by-insert_floor g x ys)

pub sum_by-order_floors : (g : Floor → ℕ) (l : List Floor) → sum_by g (order_floors l) ≡ sum_by g l
unfolding order_floors
sum_by-order_floors g [] = refl
sum_by-order_floors g (x ∷ xs) =
    omega (arith, sum_by-insert_floor g x (order_floors xs), sum_by-order_floors g xs)

module _ (P : Floor → Type 0) where
  All-insert_floor : (x : Floor) (l : List Floor) → P x → All P l → All P (insert_floor x l)
  unfolding insert_floor
  All-insert_floor x [] p h = (p, tt)
  All-insert_floor x (y ∷ ys) p h = elim (Bool-cases (before x y)) [
    | inl e ↦ rw e (p, h)
    | inr e ↦ rw e (h.0, All-insert_floor x ys p h.1)
  ]

  pub All-order_floors : (l : List Floor) → All P l → All P (order_floors l)
  unfolding order_floors
  All-order_floors [] h = tt
  All-order_floors (x ∷ xs) h = All-insert_floor x (order_floors xs) h.0 (All-order_floors xs h.1)

length-insert_floor : (x : Floor) (l : List Floor) → length (insert_floor x l) ≡ 1 + length l
unfolding insert_floor
length-insert_floor x [] = omega arith
length-insert_floor x (y ∷ ys) = ground (arith, length-insert_floor x ys)

pub length-order_floors : (l : List Floor) → length (order_floors l) ≡ length l
unfolding order_floors
length-order_floors [] = refl
length-order_floors (x ∷ xs) =
    omega (arith, length-insert_floor x (order_floors xs), length-order_floors xs)

In-insert_floor_self : (x : Floor) (l : List Floor) → In x (insert_floor x l)
unfolding insert_floor
In-insert_floor_self x [] = here refl
In-insert_floor_self x (y ∷ ys) = elim (Bool-cases (before x y)) [
  | inl e ↦ rw e (here refl)
  | inr e ↦ rw e (there (In-insert_floor_self x ys))
]

In-insert_floor : (x : Floor) {a : Floor} (l : List Floor) → In a l → In a (insert_floor x l)
unfolding insert_floor
In-insert_floor x [] i = elim i [ ]
In-insert_floor x (y ∷ ys) (here e) = elim (Bool-cases (before x y)) [
  | inl t ↦ rw t (there (here e))
  | inr t ↦ rw t (here e)
]
In-insert_floor x (y ∷ ys) (there i) = elim (Bool-cases (before x y)) [
  | inl t ↦ rw t (there (there i))
  | inr t ↦ rw t (there (In-insert_floor x ys i))
]

pub In-order_floors : {a : Floor} (l : List Floor) → In a l → In a (order_floors l)
unfolding order_floors
In-order_floors [] i = elim i [ ]
In-order_floors {a} (x ∷ xs) (here e) = rw (← e) (In-insert_floor_self x (order_floors xs))
In-order_floors (x ∷ xs) (there i) = In-insert_floor x (order_floors xs) (In-order_floors xs i)

module _ (P : ℕ → Type 0) where
  All-keys-insert_floor :
      (x : Floor) (l : List Floor) → P x.key → All P (keys l) → All P (keys (insert_floor x l))
  unfolding insert_floor
  All-keys-insert_floor x [] p h = (p, tt)
  All-keys-insert_floor x (y ∷ ys) p h = elim (Bool-cases (before x y)) [
    | inl e ↦ rw e (p, h)
    | inr e ↦ rw e (h.0, All-keys-insert_floor x ys p h.1)
  ]

  pub All-keys-order_floors : (l : List Floor) → All P (keys l) → All P (keys (order_floors l))
  unfolding order_floors
  All-keys-order_floors [] h = tt
  All-keys-order_floors (x ∷ xs) h =
      All-keys-insert_floor x (order_floors xs) h.0 (All-keys-order_floors xs h.1)

Distinct-insert_floor :
    (x : Floor) (l : List Floor)
    → All (λ j. j ≢ x.key) (keys l)
    → Distinct (keys l)
    → Distinct (keys (insert_floor x l))
unfolding insert_floor
Distinct-insert_floor x [] h d = (tt, tt)
Distinct-insert_floor x (y ∷ ys) h d = elim (Bool-cases (before x y)) [
  | inl e ↦ rw e (h, d)
  | inr e ↦ rw e (
    All-keys-insert_floor (λ j. j ≢ y.key) x ys (λ q. h.0 (sym q)) d.0,
    Distinct-insert_floor x ys h.1 d.1,
  )
]

pub Distinct-order_floors : (l : List Floor) → Distinct (keys l) → Distinct (keys (order_floors l))
unfolding order_floors
Distinct-order_floors [] d = tt
Distinct-order_floors (x ∷ xs) d =
    Distinct-insert_floor x (order_floors xs) (All-keys-order_floors (λ j. j ≢ x.key) xs d.0)
      (Distinct-order_floors xs d.1)

-- The comparator is a strict order on shares with different keys.
before_total : (a b : Floor) → before a b ≡ false → before b a ≡ true
unfolding before
before_total a b h = ground arith

before_asym : (a b : Floor) → a.key ≢ b.key → before a b ≡ true → before b a ≡ false
unfolding before
before_asym a b n h = ground arith

before_trans : (a b c : Floor) → before a b ≡ true → before b c ≡ true → before a c ≡ true
unfolding before
before_trans a b c h k = ground arith

pub insert_floor_comm :
    (x y : Floor) (l : List Floor)
    → x.key ≢ y.key
    → insert_floor x (insert_floor y l) ≡ insert_floor y (insert_floor x l)
unfolding insert_floor
insert_floor_comm x y [] n = ground (arith, before_total x y, before_asym x y n, before_total y x)
insert_floor_comm x y (z ∷ zs) n = ground (
  arith,
  insert_floor_comm x y zs n,
  before_total x y,
  before_total y x,
  before_asym x y n,
  before_trans x y z,
  before_trans y x z,
)

-- The shares in ascending order of the comparator.
abbrev pub IsOrdered : List Floor → Type 0
IsOrdered [] = Unit
IsOrdered (x ∷ xs) = All (λ y. before x y ≡ true) xs × IsOrdered xs

IsOrdered-insert_floor : (x : Floor) (l : List Floor) → IsOrdered l → IsOrdered (insert_floor x l)
unfolding insert_floor
IsOrdered-insert_floor x [] h = (tt, tt)
IsOrdered-insert_floor x (y ∷ ys) h = elim (Bool-cases (before x y)) [
  | inl e ↦ rw e ((e, All-implies (λ z t. before_trans x y z e t) ys h.0), h)
  | inr e ↦ rw e (
    All-insert_floor (λ z. before y z ≡ true) x ys (before_total x y e) h.0,
    IsOrdered-insert_floor x ys h.1,
  )
]

pub IsOrdered-order_floors : (l : List Floor) → IsOrdered (order_floors l)
unfolding order_floors
IsOrdered-order_floors [] = tt
IsOrdered-order_floors (x ∷ xs) =
    IsOrdered-insert_floor x (order_floors xs) (IsOrdered-order_floors xs)
