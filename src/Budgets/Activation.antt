-- ===== src/Budgets/Activation.antt =====
-- What `activate` in src/modules/financials/budgets.service.ts does to the table of budgets.
use waslproperty_backend.Prelude.{
  ℕ, zero, suc, ◌<◌, ◌≡◌, ◌≢◌, ◌⊎◌, refl, sym, inl, inr, ◌∙◌, true, false, Option, none, some, List,
  [], ◌∷◌, arith, find, All, All-at, All-implies, In, here, there, find-eq-some, Option-cases,
  Bool-cases, ◌==◌,
}
use waslproperty_backend.Store.{Budget}
use waslproperty_backend.Budgets.{is_approved, is_active, update_budget}
use waslproperty_backend.Budgets.Lifecycle.{supersede, is_current_beside, supersede_chain}
use waslproperty_backend.Budgets.Tables.{
  All-update_budget, Rowwise, Rowwise-refl, Rowwise-trans, Rowwise-update_budget,
}
use waslproperty_backend.Budgets.Evolve.{Evolves-refl, Calms, Calms-refl, Calms-trans}
use waslproperty_backend.Budgets.Plan.{Apart, Apart-inactive, Pairs, Descends}

-- A calm change that spares one budget.
pub record Spares (one : ℕ) (b c : Budget) : Type 0 where
  pub calms : Calms b c
  pub spared : b.id ≡ one → c ≡ b

pub Spares-refl : (one : ℕ) (b : Budget) → Spares one b b
Spares-refl one b = record { calms = Calms-refl b; spared = λ _. refl }

pub Spares-trans : (one : ℕ) (a b c : Budget) → Spares one a b → Spares one b c → Spares one a c
Spares-trans one a b c p q =
    let first = p.calms in
    let e = first.evolves in
    let k = e.key in
    let same = k.id in
    record {
      calms = Calms-trans a b c p.calms q.calms;
      spared = λ h. q.spared (same ∙ h) ∙ p.spared h;
    }

pub supersede-Calms : (b : Budget) → Calms b (supersede b)
supersede-Calms b = record {
  evolves = record {
    key =
        let e = Evolves-refl b in
        let k = e.key in
        record {
          id = refl;
          property = refl;
          start = refl;
          end_date = refl;
          version = refl;
          revision_of = refl;
        };
    forward = ground arith;
    frozen = λ _. (refl, refl, refl);
  };
  calm = λ h. cc h;
}

pub supersede-Rowwise :
    (one id : ℕ) (bs : List Budget)
    → id ≢ one
    → Rowwise (Spares one) bs (update_budget id supersede bs)
supersede-Rowwise one id bs lt =
    Rowwise-update_budget (Spares one) id supersede (Spares-refl one) bs (go bs)
  where
    go : (cs : List Budget) → All (λ b. b.id ≡ id → Spares one b (supersede b)) cs
    go [] = tt
    go (c ∷ cs) =
        ((λ e. record { calms = supersede-Calms c; spared = λ h. absurd (lt (sym e ∙ h)) }), go cs)

-- The loop over the ancestors of a budget spares the budget.
pub supersede_chain-Rowwise :
    (one fuel : ℕ) (ancestor : Option ℕ) (bs cs : List Budget)
    → ((k : ℕ) → ancestor ≡ some k → k < one)
    → All Descends bs
    → supersede_chain fuel ancestor bs ≡ some cs
    → Rowwise (Spares one) bs cs
unfolding supersede_chain
supersede_chain-Rowwise one zero ancestor bs cs lt d h = cc
supersede_chain-Rowwise one (suc n) none bs cs lt d h =
    let same : bs ≡ cs = ground arith in
    rw (← same) (Rowwise-refl (Spares one) (Spares-refl one) bs)
supersede_chain-Rowwise one (suc n) (some id) bs cs lt d h =
    elim (Option-cases (find (λ (b : Budget). b.id == id) bs)) [
      | inl e ↦
          let same : bs ≡ cs = ground (arith, e) in
          rw (← same) (Rowwise-refl (Spares one) (Spares-refl one) bs)
      | inr (a, e) ↦ elim (Bool-cases (is_approved a.status)) [
        | inr stop ↦
            let same : bs ≡ cs = ground (arith, e, stop) in
            rw (← same) (Rowwise-refl (Spares one) (Spares-refl one) bs)
        | inl go ↦
            let (t, i) = find-eq-some (λ (b : Budget). b.id == id) bs e in
            let below : a.id < one = let lt' = lt id refl in ground arith in
            let older = All-at Descends bs d i in
            let first = supersede-Rowwise one a.id bs (λ q. omega arith) in
            let rest : supersede_chain n a.revision_of_budget_id (update_budget a.id supersede bs)
                ≡ some cs =
              ground (arith, e, go) in
            Rowwise-trans (Spares one) (Spares-trans one) bs (update_budget a.id supersede bs) cs
              first
              (supersede_chain-Rowwise one n a.revision_of_budget_id
                (update_budget a.id supersede bs) cs (λ k q. let lt' = older k q in omega arith)
                (All-update_budget a.id supersede Descends bs d (All-implies (λ b h _. h) bs d))
                rest)
      ]
    ]

-- No other budget of the year is active.
abbrev pub IsAlone : Budget → List Budget → Type 0
IsAlone b = All (λ c. is_current_beside b c ≡ false)

pub IsAlone-keep :
    (b c d : Budget) → Calms c d → is_current_beside b c ≡ false → is_current_beside b d ≡ false
IsAlone-keep b c d p h =
    let e = p.evolves in
    let k = e.key in
    elim (Bool-cases (is_active d.status)) [
      | inr off ↦ ground (arith, off)
      | inl on ↦ let was = p.calm on in rw (k.property, k.start, k.end_date, k.id, on) (rw was at h)
    ]

-- Of two rows of one table that get along, one comes first.
pub Pairs-at :
    (bs : List Budget) {c : Budget}
    → Pairs Apart bs
    → In c bs
    → All (λ b. (b ≡ c) ⊎ (Apart b c ⊎ Apart c b)) bs
Pairs-at [] p i = tt
Pairs-at (b ∷ bs) p (here e) = (inl e, All-implies (λ x a. inr (inr (rw e at a))) bs p.0)
Pairs-at (b ∷ bs) p (there i) = (inr (inl (All-at (Apart b) bs p.0 i)), Pairs-at bs p.1 i)

-- Once the current budget of the year is superseded, none is active but the one to come.
pub supersede_current-IsAlone :
    (b c : Budget) (bs : List Budget)
    → Pairs Apart bs
    → find (is_current_beside b) bs ≡ some c
    → IsAlone b (update_budget c.id supersede bs)
unfolding update_budget
supersede_current-IsAlone b c bs p f =
    let (t, i) = find-eq-some (is_current_beside b) bs f in
    let near = Pairs-at bs p i in All-alone bs near t
  where
    rival :
        (x : Budget)
        → (x ≡ c) ⊎ (Apart x c ⊎ Apart c x)
        → is_current_beside b c ≡ true
        → (x.id == c.id) ≡ false
        → is_current_beside b x ≡ false
    rival x (inl e) t n = absurd (ground (arith, e))
    rival x (inr (inl a)) t n = let alone = Apart-inactive x c a in ground arith
    rival x (inr (inr a)) t n = let alone = Apart-inactive c x a in ground arith

    All-alone :
        (xs : List Budget)
        → All (λ x. (x ≡ c) ⊎ (Apart x c ⊎ Apart c x)) xs
        → is_current_beside b c ≡ true
        → IsAlone b (update_budget c.id supersede xs)
    All-alone [] h t = tt
    All-alone (x ∷ xs) h t = elim (Bool-cases (x.id == c.id)) [
      | inl e ↦ rw e (ground arith, All-alone xs h.1 t)
      | inr e ↦ rw e (rival x h.0 t e, All-alone xs h.1 t)
    ]
