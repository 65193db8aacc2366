-- ===== src/Budgets/Activated.antt =====
-- `activate` in src/modules/financials/budgets.service.ts keeps the plans: one budget of a year is active.
use waslproperty_backend.Prelude.{
  ℕ, ◌<◌, ◌≡◌, ◌≢◌, refl, sym, ap, inl, inr, ◌∙◌, false, List, [], ◌∷◌, arith, All, All-both,
  All-implies, In, Bool-cases, ◌==◌,
}
use waslproperty_backend.Prelude.Unique.{DistinctIds, In-unique_id}
use waslproperty_backend.Store.{Budget, budget_approved}
use waslproperty_backend.Budgets.{update_budget}
use waslproperty_backend.Budgets.Lifecycle.{activated, is_current_beside}
use waslproperty_backend.Budgets.Tables.{All-update_budget, Rowwise, Rowwise-update_budget}
use waslproperty_backend.Budgets.Evolve.{Evolves, Evolves-refl}
use waslproperty_backend.Budgets.Plan.{
  Apart, SameYear-is_year, Pairs, Descends, Plans, DistinctIds-Rowwise,
}
use waslproperty_backend.Budgets.Activation.{IsAlone}

module _ {R S : Budget → Budget → Type 0} where
  pub Rowwise-implies :
      ((b c : Budget) → R b c → S b c) → (bs cs : List Budget) → Rowwise R bs cs → Rowwise S bs cs
  Rowwise-implies f [] [] h = tt
  Rowwise-implies f [] (c ∷ cs) h = absurd h
  Rowwise-implies f (b ∷ bs) [] h = absurd h
  Rowwise-implies f (b ∷ bs) (c ∷ cs) h = (f b c h.0, Rowwise-implies f bs cs h.1)

activated-Evolves : (b : Budget) → b.status ≡ budget_approved → Evolves b (activated b)
activated-Evolves b e = record {
  key = record {
    id = refl;
    property = refl;
    start = refl;
    end_date = refl;
    version = refl;
    revision_of = refl;
  };
  forward = rw e (omega arith);
  frozen = λ _. (refl, refl, refl);
}

module _ (b : Budget) where
  -- Of two budgets, one of which becomes active.
  Apart-left :
      (x : Budget)
      → (x.id == b.id) ≡ false
      → is_current_beside b x ≡ false
      → Apart b x
      → Apart (activated b) x
  Apart-left x n alone a = record {
    years = a.years;
    versions = a.versions;
    one_active = λ y _ on. let year = SameYear-is_year b x y in absurd (ground arith);
  }

  Apart-right :
      (x : Budget)
      → (x.id == b.id) ≡ false
      → is_current_beside b x ≡ false
      → Apart x b
      → Apart x (activated b)
  Apart-right x n alone a = record {
    years = a.years;
    versions = a.versions;
    one_active = λ y on. absurd (ground arith);
  }

  All-Apart-right :
      (x : Budget) (bs : List Budget)
      → (x.id == b.id) ≡ false
      → is_current_beside b x ≡ false
      → All (λ y. y.id ≡ b.id → y ≡ b) bs
      → All (Apart x) bs
      → All (Apart x) (update_budget b.id activated bs)
  All-Apart-right x bs n alone only h = All-update_budget b.id activated (Apart x) bs h (
      All-both (λ y u a e. let same : y ≡ b = u e in rw same (Apart-right x n alone (rw same at a)))
        bs only h)

  Pairs-activated :
      (bs : List Budget)
      → DistinctIds (λ (b : Budget). b.id) bs
      → All (λ y. y.id ≡ b.id → y ≡ b) bs
      → IsAlone b bs
      → Pairs Apart bs
      → Pairs Apart (update_budget b.id activated bs)
  unfolding update_budget
  Pairs-activated [] d only alone p = tt
  Pairs-activated (x ∷ xs) d only alone p = elim (Bool-cases (x.id == b.id)) [
    | inl e ↦
        let same : x ≡ b = only.0 (ground arith) in
        let unchanged =
          update_absent xs
            (All-implies (λ y n q. n (q ∙ sym (ap (λ (z : Budget). z.id) same))) xs d.0) in
        rw (e, same, unchanged)
          (
            go xs (All-implies (λ y n q. n (q ∙ sym (ap (λ (z : Budget). z.id) same))) xs d.0)
                alone.1 (rw same at p.0),
            p.1,
          )
    | inr e ↦
        rw e (All-Apart-right x xs e alone.0 only.1 p.0, Pairs-activated xs d.1 only.1 alone.1 p.1)
  ]
    where
      update_absent :
          (ys : List Budget) → All (λ y. y.id ≢ b.id) ys → update_budget b.id activated ys ≡ ys
      update_absent [] h = refl
      update_absent (y ∷ ys) h = ground (arith, update_absent ys h.1)

      go :
          (ys : List Budget)
          → All (λ y. y.id ≢ b.id) ys
          → IsAlone b ys
          → All (Apart b) ys
          → All (Apart (activated b)) ys
      go [] n a h = tt
      go (y ∷ ys) n a h = (Apart-left y (ground arith) a.0 h.0, go ys n.1 a.1 h.1)

  -- The budget becomes active, and the plans hold.
  pub activated-Plans :
      (us : List Budget) (n : ℕ)
      → b.status ≡ budget_approved
      → In b us
      → IsAlone b us
      → Plans us n
      → Plans (update_budget b.id activated us) n
        × Rowwise Evolves us (update_budget b.id activated us)
  activated-Plans us n approved i alone p =
      let only = In-unique_id (λ (b : Budget). b.id) us p.ids i in
      let key = λ (b c : Budget) (r : Evolves b c). r.key in
      let rows : Rowwise Evolves us (update_budget b.id activated us) =
        Rowwise-update_budget Evolves b.id activated Evolves-refl us (
          All-implies (λ x u e. let same : x ≡ b = u e in rw same (activated-Evolves b approved)) us
            only) in
      (
        record {
          ids = DistinctIds-Rowwise Evolves key us (update_budget b.id activated us) rows p.ids;
          fresh =
              All-update_budget b.id activated (λ x. x.id < n) us p.fresh
                (All-implies (λ x h _. h) us p.fresh);
          forward =
              All-update_budget b.id activated (λ x. x.start_date < x.end_date) us p.forward
                (All-implies (λ x h _. h) us p.forward);
          descends =
              All-update_budget b.id activated Descends us p.descends
                (All-implies (λ x h _. h) us p.descends);
          apart = Pairs-activated us p.ids only alone p.apart;
        },
        rows,
      )
