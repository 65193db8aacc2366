-- ===== src/LevyAllocation/Shares.antt =====
-- The loop that hands out the cents in src/modules/financials/levy-allocation.ts, as a plain map over
-- the sorted shares.
use waslproperty_backend.Prelude.{
  ℕ, ◌+◌, ◌-◌, ◌≤◌, ◌≡◌, ◌≢◌, refl, sym, ◌∙◌, Bool, true, none, some, ap, List, [], ◌∷◌, ◌++◌, map,
  arith, ltb, if◌then◌else◌, min, length, sum_by, All, In, here, there, All-at,
}
use waslproperty_backend.LevyAllocation.{Floor, before, set, get, distribute}
use waslproperty_backend.LevyAllocation.Sorting.{Distinct, keys, IsOrdered}
use mathlib.Core.List.{append-nil, append_assoc}

-- The cents of the share at a position.
abbrev pub given : ℕ → ℕ → Floor → ℕ
given index leftover f = if ltb index leftover then f.floor_cents + 1 else f.floor_cents

pub shares : ℕ → ℕ → List Floor → List (ℕ × ℕ)
shares index leftover [] = []
shares index leftover (f ∷ fs) = (f.key, given index leftover f) ∷ shares (index + 1) leftover fs

abbrev pub value : ℕ × ℕ → ℕ
value (k, v) = v

-- The keys of a Map.
abbrev pub allotted : List (ℕ × ℕ) → List ℕ
allotted = map λ (k, v). k

pub allotted-shares :
    (index leftover : ℕ) (fs : List Floor) → allotted (shares index leftover fs) ≡ keys fs
unfolding shares
allotted-shares i l [] = refl
allotted-shares i l (f ∷ fs) = ap (◌∷◌ f.key) (allotted-shares (i + 1) l fs)

get-append_none : (k : ℕ) (m n : List (ℕ × ℕ)) → get k m ≡ none → get k (m ++ n) ≡ get k n
unfolding get
get-append_none k [] n h = refl
get-append_none k ((j, v) ∷ m) n h = ground (arith, get-append_none k m n)

set_new : (k v : ℕ) (m : List (ℕ × ℕ)) → get k m ≡ none → set k v m ≡ m ++ (k, v) ∷ []
unfolding set get
set_new k v [] h = refl
set_new k v ((j, w) ∷ m) h = ground (arith, set_new k v m)

get-append_one :
    (k j v : ℕ) (m : List (ℕ × ℕ)) → k ≢ j → get k m ≡ none → get k (m ++ (j, v) ∷ []) ≡ none
unfolding get
get-append_one k j v m n h = get-append_none k m ((j, v) ∷ []) h ∙ ground arith

-- The keys that are not in a map yet.
abbrev AllNew : List (ℕ × ℕ) → List ℕ → Type 0
AllNew m = All (λ k. get k m ≡ none)

AllNew-append :
    (m : List (ℕ × ℕ)) (j v : ℕ) (ks : List ℕ)
    → All (λ k. k ≢ j) ks
    → AllNew m ks
    → AllNew (m ++ (j, v) ∷ []) ks
AllNew-append m j v [] d h = tt
AllNew-append m j v (k ∷ ks) d h = (get-append_one k j v m d.0 h.0, AllNew-append m j v ks d.1 h.1)

distribute-eq-append :
    (index leftover : ℕ) (fs : List Floor) (m : List (ℕ × ℕ))
    → Distinct (keys fs)
    → AllNew m (keys fs)
    → distribute index leftover fs m ≡ m ++ shares index leftover fs
unfolding distribute shares
distribute-eq-append i l [] m d h = sym (append-nil m)
distribute-eq-append i l (f ∷ fs) m d h = rw (set_new f.key (given i l f) m h.0) (
    distribute-eq-append (i + 1) l fs (m ++ (f.key, given i l f) ∷ []) d.1
      (AllNew-append m f.key (given i l f) (keys fs) d.0 h.1)
    ∙ append_assoc m ((f.key, given i l f) ∷ []) (shares (i + 1) l fs))

AllNew-nil : (ks : List ℕ) → AllNew [] ks
unfolding get
AllNew-nil [] = tt
AllNew-nil (k ∷ ks) = (refl, AllNew-nil ks)

-- With distinct keys the Map holds one entry per share, in the order of the shares.
pub distribute-eq-shares :
    (leftover : ℕ) (fs : List Floor)
    → Distinct (keys fs)
    → distribute 0 leftover fs [] ≡ shares 0 leftover fs
distribute-eq-shares l fs d = distribute-eq-append 0 l fs [] d (AllNew-nil (keys fs))

-- The handed out cents are the whole cents and one for each position below `leftover`.
pub sum_by-shares :
    (index leftover : ℕ) (fs : List Floor)
    → sum_by value (shares index leftover fs)
      ≡ sum_by (λ f. f.floor_cents) fs + min (leftover - index) (length fs)
unfolding shares
sum_by-shares i l [] = omega arith
sum_by-shares i l (f ∷ fs) = ground (arith, sum_by-shares (i + 1) l fs)

get-shares_ne :
    (k i l : ℕ) (fs : List Floor) → All (λ j. j ≢ k) (keys fs) → get k (shares i l fs) ≡ none
unfolding shares get
get-shares_ne k i l [] h = refl
get-shares_ne k i l (f ∷ fs) h = ground (arith, get-shares_ne k (i + 1) l fs h.1)

ne_of_In : {f : Floor} (k : ℕ) (fs : List Floor) → All (λ j. j ≢ k) (keys fs) → In f fs → f.key ≢ k
ne_of_In k [] h i = elim i [ ]
ne_of_In k (x ∷ fs) h (here e) = rw e at h.0
ne_of_In k (x ∷ fs) h (there i) = ne_of_In k fs h.1 i

-- Each share is found under its key, with its whole cents or one cent more.
pub get-shares :
    {f : Floor} (i l : ℕ) (fs : List Floor)
    → Distinct (keys fs)
    → In f fs
    → (extra : Bool) × (get f.key (shares i l fs)
        ≡ some (if extra then f.floor_cents + 1 else f.floor_cents))
unfolding shares get
get-shares i l [] d m = elim m [ ]
get-shares {f} i l (x ∷ fs) d (here e) = (ltb i l, rw e (ground arith))
get-shares {f} i l (x ∷ fs) d (there m) =
    let (extra, e) = get-shares (i + 1) l fs d.1 m in
    (extra, ground (arith, e, ne_of_In x.key fs d.0 m))

-- From the position `leftover` on, no share gets more than its whole cents.
get-shares_late :
    {f : Floor} (i l : ℕ) (fs : List Floor)
    → l ≤ i
    → Distinct (keys fs)
    → In f fs
    → get f.key (shares i l fs) ≡ some f.floor_cents
unfolding shares get
get-shares_late i l [] h d m = elim m [ ]
get-shares_late {f} i l (x ∷ fs) h d (here e) = rw e (ground arith)
get-shares_late {f} i l (x ∷ fs) h d (there m) =
    let e = get-shares_late (i + 1) l fs (omega arith) d.1 m in
    ground (arith, e, ne_of_In x.key fs d.0 m)

before_refl : (f : Floor) → before f f ≡ true
unfolding before
before_refl f = ground arith

-- A share that gets the extra cent stands before a share that does not.
pub extra_before :
    {f g : Floor} (i l : ℕ) (fs : List Floor)
    → IsOrdered fs
    → Distinct (keys fs)
    → In f fs
    → In g fs
    → get f.key (shares i l fs) ≡ some (f.floor_cents + 1)
    → get g.key (shares i l fs) ≡ some g.floor_cents
    → before f g ≡ true
unfolding shares get
extra_before i l [] o d m n p q = elim m [ ]
extra_before {f} {g} i l (x ∷ fs) o d (here e) (here e') p q = rw (← e, ← e') (before_refl x)
extra_before {f} {g} i l (x ∷ fs) o d (here e) (there n) p q =
    rw (← e) (All-at (λ y. before x y ≡ true) fs o.0 n)
extra_before {f} {g} i l (x ∷ fs) o d (there m) (here e') p q =
    let late = λ (h : l ≤ i + 1). get-shares_late (i + 1) l fs h d.1 m in
    absurd (ground (arith, late, e', ne_of_In x.key fs d.0 m))
extra_before {f} {g} i l (x ∷ fs) o d (there m) (there n) p q =
    extra_before (i + 1) l fs o.1 d.1 m n (ground (arith, p, ne_of_In x.key fs d.0 m))
      (ground (arith, q, ne_of_In x.key fs d.0 n))
