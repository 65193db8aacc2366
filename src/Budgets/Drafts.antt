-- ===== src/Budgets/Drafts.antt =====
-- The requests of src/modules/financials/budgets.service.ts that add a budget: `create` and
-- `createRevision`.
use waslproperty_backend.Prelude.{
  ℕ, ◌+◌, ◌≤◌, ◌<◌, ◌≡◌, ◌⊎◌, refl, sym, inl, inr, true, false, none, some, List, [], ◌∷◌, arith,
  find, All, All-implies, All-both, find-eq-none, Option-cases,
}
use waslproperty_backend.Prelude.Result.{ok, conflict, budget_exists}
use waslproperty_backend.Store.{Db, Configuration, Budget, BudgetSource, financial_budget_created}
use waslproperty_backend.Store.Tx.{Tx, pure, throw, gets, modify, bind-eq-ok, run-same, ◌>>=◌, ◌>>◌}
use waslproperty_backend.Store.Rows.{
  get_owned_property, get_owned_property-same, fresh_id, record_activity,
}
use waslproperty_backend.Budgets.{
  is_active, get_active_configuration, validate_period, collides, is_year, new_budget, create,
}
use waslproperty_backend.Budgets.Lifecycle.{max_version}
use waslproperty_backend.Budgets.Plan.{YearsApart, collides-YearsApart, SameYear-is_year, Apart}
use waslproperty_backend.Budgets.Kept.{Added}

-- The version of a revision is greater than each of its year.
pub max_version-ge :
    (prop start end least : ℕ) (bs : List Budget)
    → All
        (λ b. is_year prop start end b ≡ true → b.version ≤ max_version prop start end least bs)
        bs
unfolding max_version
max_version-ge prop start end least [] = tt
max_version-ge prop start end least (b ∷ bs) = (
  λ y. ground arith,
  All-implies (λ x le y. let le' = le y in ground (arith, le')) bs
      (max_version-ge prop start end least bs),
)

-- A new draft of a year that no budget has.
new_year-Apart :
    (row : Budget) (bs : List Budget)
    → is_active row.status ≡ false
    → All (λ b. is_year row.property_id row.start_date row.end_date b ≡ false) bs
    → All (λ b. collides row.property_id row.start_date row.end_date b ≡ false) bs
    → All (Apart row) bs
new_year-Apart row bs draft fresh apart =
    All-both
      (λ b n h. record {
        years = collides-YearsApart row b h;
        versions = λ y. absurd (cc (SameYear-is_year row b y, n));
        one_active = λ y. absurd (cc (SameYear-is_year row b y, n));
      })
      bs fresh apart

YearsApart-sym : (b c : Budget) → YearsApart b c → YearsApart c b
YearsApart-sym b c (inl n) = inl (λ e. n (sym e))
YearsApart-sym b c (inr (inl (p, q))) = inr (inl (sym p, sym q))
YearsApart-sym b c (inr (inr (inl h))) = inr (inr (inr h))
YearsApart-sym b c (inr (inr (inr h))) = inr (inr (inl h))

-- A revision of a budget gets along with whatever its source gets along with.
pub revision-Apart :
    (row b : Budget) (bs : List Budget)
    → is_active row.status ≡ false
    → row.property_id ≡ b.property_id
    → row.start_date ≡ b.start_date
    → row.end_date ≡ b.end_date
    → All (λ c. is_year b.property_id b.start_date b.end_date c ≡ true → c.version < row.version) bs
    → All (λ c. (c ≡ b) ⊎ (Apart c b ⊎ Apart b c)) bs
    → All (Apart row) bs
revision-Apart row b bs draft prop start end newer near =
    All-both
      (λ c v n. record {
        years = rw (prop, start, end) (disjoint c n);
        versions =
            rw (prop, start, end) (λ y e. let lt = v (SameYear-is_year b c y) in omega arith);
        one_active = λ y on. absurd (ground arith);
      })
      bs newer near
  where
    disjoint : (c : Budget) → (c ≡ b) ⊎ (Apart c b ⊎ Apart b c) → YearsApart b c
    disjoint c (inl e) = rw e (inr (inl (refl, refl)))
    disjoint c (inr (inl a)) = YearsApart-sym c b a.years
    disjoint c (inr (inr a)) = a.years

module _ (org prop : ℕ) where
  get_active_configuration-same :
      (s t : Db) {cf : Configuration} → get_active_configuration prop s ≡ ok (cf, t) → t ≡ s
  unfolding get_active_configuration
  get_active_configuration-same s t h = ground arith

  validate_period-free :
      (cf : Configuration) (start end : ℕ) (s t : Db) {u : Unit {0}}
      → validate_period prop cf start end s ≡ ok (u, t)
      → (t ≡ s) × (start < end) × All (λ b. collides prop start end b ≡ false) s.budgets
  unfolding validate_period
  validate_period-free cf start end s t h =
      elim (Option-cases (find (collides prop start end) s.budgets)) [
        | inl e ↦ (
          ground (arith, e),
          ground (arith, e),
          find-eq-none (collides prop start end) s.budgets e,
        )
        | inr (b, e) ↦ absurd (ground (arith, e))
      ]

  new_year-free :
      (start end : ℕ) (s : Db) {r : Budget × Db} (rest : Tx Budget)
      → (gets (λ s. find (is_year prop start end) s.budgets) >>= λ row.
            (elim row as (λ _. Tx (Unit {0})) [
              | none ↦ pure tt
              | some _ ↦ throw (conflict budget_exists)
            ])
            >> rest)
          s
        ≡ ok r
      → (rest s ≡ ok r) × All (λ b. is_year prop start end b ≡ false) s.budgets
  new_year-free start end s rest h = elim (Option-cases (find (is_year prop start end) s.budgets)) [
    | inl e ↦ (ground (arith, e), find-eq-none (is_year prop start end) s.budgets e)
    | inr (b, e) ↦ absurd (ground (arith, e))
  ]

  inserted :
      (actor start end : ℕ) (source : BudgetSource) (cf : Configuration) (s s' : Db) (r : Budget)
      → start < end
      → All (λ b. is_year prop start end b ≡ false) s.budgets
      → All (λ b. collides prop start end b ≡ false) s.budgets
      → (fresh_id >>= λ id.
            modify (λ s. record s {
              budgets =
                  new_budget id org actor prop cf.id start end 1 source cf.currency_code none
                  ∷ s.budgets;
            })
            >> (record_activity org prop actor financial_budget_created id
                >> pure
                    (new_budget id org actor prop cf.id start end 1 source cf.currency_code none)))
          s
        ≡ ok (r, s')
      → Added s s' r
  unfolding fresh_id record_activity
  inserted actor start end source cf s s' r ordered fresh apart h =
      let row : Budget =
        new_budget s.next_id org actor prop cf.id start end 1 source cf.currency_code none in
      let same : r ≡ row = ground arith in
      let rows : s'.budgets ≡ row ∷ s.budgets = ground arith in
      let next : s'.next_id ≡ s.next_id + 1 = ground arith in
      rw same (record {
        new = refl;
        later = omega arith;
        descends = λ k e. absurd (cc e);
        ordered = ordered;
        apart = new_year-Apart row s.budgets refl fresh apart;
        budgets_eq = rows;
      })

  -- `create` adds a draft of a year of its own.
  pub create-Added :
      (actor start end : ℕ) (source : BudgetSource) (s s' : Db) (r : Budget)
      → create org actor prop start end source s ≡ ok (r, s')
      → Added s s' r
  unfolding create
  create-Added actor start end source s s' r h =
      let row : Configuration → ℕ → Budget =
        λ cf id. new_budget id org actor prop cf.id start end 1 source cf.currency_code none in
      let insert : Configuration → Tx Budget = λ cf. fresh_id >>= λ id.
      modify (λ s. record s { budgets = row cf id ∷ s.budgets })
      >> (record_activity org prop actor financial_budget_created id >> pure (row cf id)) in
      let unique : Configuration → Tx Budget = λ cf.
        gets (λ s. find (is_year prop start end) s.budgets) >>= λ found.
        (elim found as (λ _. Tx (Unit {0})) [
          | none ↦ pure tt
          | some _ ↦ throw (conflict budget_exists)
        ])
        >> insert cf in
      let checked : Configuration → Tx Budget =
        λ cf. validate_period prop cf start end >> unique cf in
      let set_up : Tx Budget = get_active_configuration prop >>= checked in
      let (_, t0, got, h0) = bind-eq-ok (get_owned_property org prop) (λ _. set_up) s h in
      let h1 = run-same set_up (get_owned_property-same org prop s got) h0 in
      let (cf, t1, started, h2) = bind-eq-ok (get_active_configuration prop) checked s h1 in
      let h3 = run-same (checked cf) (get_active_configuration-same s t1 started) h2 in
      let (_, t2, valid, h4) =
        bind-eq-ok (validate_period prop cf start end) (λ _. unique cf) s h3 in
      let (same, ordered, apart) = validate_period-free cf start end s t2 valid in
      let h5 = run-same (unique cf) same h4 in
      let (h6, fresh) = new_year-free start end s (insert cf) h5 in
      inserted actor start end source cf s s' r ordered fresh apart h6
