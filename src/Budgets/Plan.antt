-- ===== src/Budgets/Plan.antt =====
-- The invariant of the budgets of src/modules/financials/budgets.service.ts.
use waslproperty_backend.Prelude.{
  ℕ, refl, ◌⊎◌, ◌≤◌, ◌<◌, ◌≡◌, ◌≢◌, sym, inl, inr, ◌∙◌, true, false, some, List, [], ◌∷◌, arith,
  All, All-implies, Bool-cases,
}
use waslproperty_backend.Prelude.Unique.{DistinctIds}
use waslproperty_backend.Store.{Budget, budget_active}
use waslproperty_backend.Budgets.{is_active, collides, is_year}
use waslproperty_backend.Budgets.Tables.{Rowwise}
use waslproperty_backend.Budgets.Evolve.{SameKey, Calms}

-- Two budgets of one property have the same dates, or one year starts on the last day of the other or
-- later. The two may have that one day in common: the code allows it.
abbrev pub YearsApart : Budget → Budget → Type 0
YearsApart b c =
    (b.property_id ≢ c.property_id)
    ⊎ ((b.start_date ≡ c.start_date) × (b.end_date ≡ c.end_date))
    ⊎ (b.end_date ≤ c.start_date)
    ⊎ (c.end_date ≤ b.start_date)

abbrev pub SameYear : Budget → Budget → Type 0
SameYear b c =
    (c.property_id ≡ b.property_id) × (c.start_date ≡ b.start_date) × (c.end_date ≡ b.end_date)

-- Two budgets get along: their years are the same or have at most a day in common, on which one ends
-- and the other starts, and in one year they have different versions and are not both active.
pub record Apart (b c : Budget) : Type 0 where
  pub years : YearsApart b c
  pub versions : SameYear b c → b.version ≢ c.version
  pub one_active : SameYear b c → b.status ≡ budget_active → c.status ≢ budget_active

-- What the tests of the code say of two budgets.
pub collides-YearsApart :
    (b c : Budget) → collides b.property_id b.start_date b.end_date c ≡ false → YearsApart b c
collides-YearsApart b c h = ground arith

pub is_year-SameYear :
    (b c : Budget) → is_year b.property_id b.start_date b.end_date c ≡ true → SameYear b c
is_year-SameYear b c h = (ground arith, ground arith, ground arith)

pub SameYear-is_year :
    (b c : Budget) → SameYear b c → is_year b.property_id b.start_date b.end_date c ≡ true
SameYear-is_year b c h = ground arith

pub is_active-status : (b : Budget) → is_active b.status ≡ true → b.status ≡ budget_active
is_active-status b h = ground arith

-- Of two budgets that get along, an active one leaves the other of the year inactive.
pub Apart-inactive :
    (b c : Budget)
    → Apart b c
    → is_year b.property_id b.start_date b.end_date c ≡ true
    → is_active b.status ≡ true
    → is_active c.status ≡ false
Apart-inactive b c a y h = elim (Bool-cases (is_active c.status)) [
  | inr e ↦ e
  | inl e ↦
      absurd (a.one_active (is_year-SameYear b c y) (is_active-status b h) (is_active-status c e))
]

abbrev pub Pairs : (Budget → Budget → Type 0) → List Budget → Type 0
Pairs R [] = Unit
Pairs R (b ∷ bs) = All (R b) bs × Pairs R bs

-- A revision is newer than what it revises.
abbrev pub Descends : Budget → Type 0
Descends b = (k : ℕ) → b.revision_of_budget_id ≡ some k → k < b.id

pub record Plans (bs : List Budget) (next_id : ℕ) : Type 0 where
  pub ids : DistinctIds (λ (b : Budget). b.id) bs
  pub fresh : All (λ (b : Budget). b.id < next_id) bs
  pub descends : All Descends bs
  pub forward : All (λ (b : Budget). b.start_date < b.end_date) bs
  pub apart : Pairs Apart bs

module _ (R : Budget → Budget → Type 0) (key : (b c : Budget) → R b c → SameKey b c) where
  module _ (P : Budget → Type 0) (keep : (b c : Budget) → R b c → P b → P c) where
    pub All-Rowwise : (bs cs : List Budget) → Rowwise R bs cs → All P bs → All P cs
    All-Rowwise [] [] h p = tt
    All-Rowwise [] (c ∷ cs) h p = absurd h
    All-Rowwise (b ∷ bs) [] h p = tt
    All-Rowwise (b ∷ bs) (c ∷ cs) h p = (keep b c h.0 p.0, All-Rowwise bs cs h.1 p.1)

  pub DistinctIds-Rowwise :
      (bs cs : List Budget)
      → Rowwise R bs cs
      → DistinctIds (λ (b : Budget). b.id) bs
      → DistinctIds (λ (b : Budget). b.id) cs
  DistinctIds-Rowwise [] [] h d = tt
  DistinctIds-Rowwise [] (c ∷ cs) h d = absurd h
  DistinctIds-Rowwise (b ∷ bs) [] h d = tt
  DistinctIds-Rowwise (b ∷ bs) (c ∷ cs) h d =
      let k = key b c h.0 in
      let same = k.id in
      (
        All-Rowwise (λ x. x.id ≢ c.id)
            (λ x y r n. let l = key x y r in let e = l.id in λ q. n (sym e ∙ q)) bs cs h.1
            (All-implies (λ x n q. n (q ∙ same)) bs d.0),
        DistinctIds-Rowwise bs cs h.1 d.1,
      )

  Pairs-Rowwise :
      ((a b c d : Budget) → R a c → R b d → Apart a b → Apart c d)
      → (bs cs : List Budget) → Rowwise R bs cs
      → Pairs Apart bs
      → Pairs Apart cs
  Pairs-Rowwise keep [] [] h p = tt
  Pairs-Rowwise keep [] (c ∷ cs) h p = absurd h
  Pairs-Rowwise keep (b ∷ bs) [] h p = tt
  Pairs-Rowwise keep (b ∷ bs) (c ∷ cs) h p = (go bs cs h.1 p.0, Pairs-Rowwise keep bs cs h.1 p.1)
    where
      go : (xs ys : List Budget) → Rowwise R xs ys → All (Apart b) xs → All (Apart c) ys
      go [] [] r q = tt
      go [] (y ∷ ys) r q = absurd r
      go (x ∷ xs) [] r q = tt
      go (x ∷ xs) (y ∷ ys) r q = (keep b x c y h.0 r.0 q.0, go xs ys r.1 q.1)

Apart-Calms : (a b c d : Budget) → Calms a c → Calms b d → Apart a b → Apart c d
Apart-Calms a b c d p q h =
    let e = p.evolves in
    let f = q.evolves in
    let k = e.key in
    let l = f.key in
    record {
      years = rw (k.property, k.start, k.end_date, l.property, l.start, l.end_date) h.years;
      versions =
          rw
            (k.property, k.start, k.end_date, l.property, l.start, l.end_date, k.version, l.version)
            h.versions;
      one_active =
          rw (k.property, k.start, k.end_date, l.property, l.start, l.end_date)
            (λ y t u.
              h.one_active y (is_active-status a (p.calm (rw t refl)))
                (is_active-status b (q.calm (rw u refl))));
    }

-- A calm change of the rows keeps the plans.
pub Plans-Calms :
    (bs cs : List Budget) (m n : ℕ) → m ≤ n → Rowwise Calms bs cs → Plans bs m → Plans cs n
Plans-Calms bs cs m n le h p =
    let key = λ (b c : Budget) (r : Calms b c). let e = r.evolves in e.key in
    record {
      ids = DistinctIds-Rowwise Calms key bs cs h p.ids;
      fresh =
          All-Rowwise Calms key (λ b. b.id < n)
            (λ b c r lt. let k = key b c r in let e = k.id in omega arith) bs cs h
            (All-implies (λ b lt. omega arith) bs p.fresh);
      descends =
          All-Rowwise Calms key Descends
            (λ b c r d j e.
              let k = key b c r in
              let lt = d j (sym k.revision_of ∙ e) in let same = k.id in omega arith)
            bs cs h p.descends;
      forward =
          All-Rowwise Calms key (λ b. b.start_date < b.end_date)
            (λ b c r lt. let k = key b c r in let e = k.start in let f = k.end_date in omega arith)
            bs cs h p.forward;
      apart = Pairs-Rowwise Calms key Apart-Calms bs cs h p.apart;
    }
