-- ===== src/Budgets/Kept.antt =====
-- What a request about budgets in src/modules/financials/budgets.service.ts must keep, and the two ways in
-- which most do: a calm change of one row, and one row more.
use waslproperty_backend.Prelude.{
  ℕ, ◌≤◌, ◌<◌, ◌≡◌, ◌&&◌, some, List, ◌∷◌, arith, All, All-implies, In, there, ◌==◌, find-eq-some,
}
use waslproperty_backend.Prelude.Result.{ok}
use waslproperty_backend.Prelude.Unique.{In-unique_id}
use waslproperty_backend.Store.{Db, Budget}
use waslproperty_backend.Budgets.{find_owned_budget, get_owned_budget, update_budget}
use waslproperty_backend.Budgets.Tables.{Rowwise, Rowwise-update_budget, Rowwise-In}
use waslproperty_backend.Budgets.Evolve.{Evolves, Evolves-refl, Evolves-trans, Calms, Calms-refl}
use waslproperty_backend.Budgets.Plan.{Apart, Descends, Plans, Plans-Calms}

-- Each budget is still there, further on in its life at most.
abbrev pub Persists : List Budget → List Budget → Type 0
Persists bs cs = (b : Budget) → In b bs → (c : Budget) × In c cs × Evolves b c

pub Persists-refl : (bs : List Budget) → Persists bs bs
Persists-refl bs b i = (b, i, Evolves-refl b)

pub Persists-trans : (bs cs ds : List Budget) → Persists bs cs → Persists cs ds → Persists bs ds
Persists-trans bs cs ds p q b i =
    let (c, j, e) = p b i in let (d, k, f) = q c j in (d, k, Evolves-trans b c d e f)

pub record Kept (s s' : Db) : Type 0 where
  pub plans : Plans s'.budgets s'.next_id
  pub persists : Persists s.budgets s'.budgets

-- A calm change of one row.
pub record Changed (s s' : Db) : Type 0 where
  pub b : Budget
  pub change : Budget → Budget
  pub found : In b s.budgets
  pub calms : Calms b (change b)
  pub budgets_eq : s'.budgets ≡ update_budget b.id change s.budgets
  pub later : s.next_id ≤ s'.next_id

pub Changed-Kept : (s s' : Db) → Changed s s' → Plans s.budgets s.next_id → Kept s s'
Changed-Kept s s' c p =
    let b = c.b in
    let only = In-unique_id (λ (x : Budget). x.id) s.budgets p.ids c.found in
    let rows : Rowwise Calms s.budgets (update_budget b.id c.change s.budgets) =
      Rowwise-update_budget Calms b.id c.change Calms-refl s.budgets
        (All-implies (λ x u e. let same : x ≡ b = u e in rw same c.calms) s.budgets only) in
    record {
      plans = rw c.budgets_eq (
          Plans-Calms s.budgets (update_budget b.id c.change s.budgets) s.next_id s'.next_id c.later
            rows p);
      persists = rw c.budgets_eq (λ x i.
          let (y, j, r) =
            Rowwise-In Calms s.budgets (update_budget b.id c.change s.budgets) rows i in
          (y, j, r.evolves));
    }

-- One row more, with a new id.
pub record Added (s s' : Db) (row : Budget) : Type 0 where
  pub new : row.id ≡ s.next_id
  pub later : row.id < s'.next_id
  pub descends : Descends row
  pub ordered : row.start_date < row.end_date
  pub apart : All (Apart row) s.budgets
  pub budgets_eq : s'.budgets ≡ row ∷ s.budgets

pub Added-Kept : (s s' : Db) (row : Budget) → Added s s' row → Plans s.budgets s.next_id → Kept s s'
Added-Kept s s' row a p =
    let new = a.new in
    let later = a.later in
    record {
      plans = rw a.budgets_eq (record {
        ids = (All-implies (λ b lt e. absurd (omega arith)) s.budgets p.fresh, p.ids);
        fresh = (later, All-implies (λ b lt. omega arith) s.budgets p.fresh);
        descends = (a.descends, p.descends);
        forward = (a.ordered, p.forward);
        apart = (a.apart, p.apart);
      });
      persists = rw a.budgets_eq (λ b i. (b, there i, Evolves-refl b));
    }

-- The budget that a lookup of the caller's budgets returns.
pub record Owned (org prop budget_id : ℕ) (s : Db) (b : Budget) : Type 0 where
  pub found : In b s.budgets
  pub id : b.id ≡ budget_id
  pub property : b.property_id ≡ prop
  pub row : find_owned_budget org prop budget_id s.budgets ≡ some b

pub get_owned_budget-Owned :
    (org prop id : ℕ) (s : Db) {b : Budget} {t : Db}
    → get_owned_budget org prop id s ≡ ok (b, t)
    → (t ≡ s) × Owned org prop id s b
unfolding get_owned_budget find_owned_budget
get_owned_budget-Owned org prop id s {b} {t} h =
    let same : t ≡ s = ground arith in
    let row : find_owned_budget org prop id s.budgets ≡ some b = ground arith in
    let (t, i) =
      find-eq-some (λ (b : Budget). b.id == id && b.organisation_id == org && b.property_id == prop)
        s.budgets row in
    (same, record { found = i; id = ground arith; property = ground arith; row = row })
