-- ===== src/Levies/Drafted.antt =====
-- What `createRegular` and `createSpecial` of src/modules/financials/levies.service.ts write: the instalments
-- add up to the total.
use waslproperty_backend.Prelude.{
  ℕ, ◌+◌, ◌*◌, ◌/◌, ◌%◌, ◌≡◌, sym, ap, ◌∙◌, true, not, Option, none, some, List, [], ◌∷◌, arith,
  length, filter, sum_by, All, ◌==◌,
}
use waslproperty_backend.Prelude.Result.{ok, not_found, budget as budget_missing}
use waslproperty_backend.Store.{
  Db, Configuration, Fund, Budget, BudgetLine, Installment, LevySchedule, LevyKind, regular,
  levy_income, levy_schedule_created,
}
use waslproperty_backend.Store.Money.{per_cent, Numeric}
use waslproperty_backend.Store.Tx.{
  throw_if, or_throw, bind-eq-ok, throw_if-eq-ok, throw_unless-eq-ok, or_throw-eq-ok, run-same,
  read-same, pure-eq-ok,
}
use waslproperty_backend.Store.Rows.{
  get_owned_property, get_configuration, record_activity-pure, get_owned_property-same,
  get_configuration-same,
}
use waslproperty_backend.PostingProfile.{resolve}
use waslproperty_backend.Receipts.Effect.{resolve-same}
use waslproperty_backend.Budgets.{is_active, find_owned_budget}
use waslproperty_backend.Levies.Schedules.{
  InstallmentInput, is_levy_revenue, derive_regular_total, get_fund, requested, installment_rows,
  create_schedule, create_regular,
}

pub get_fund-same :
    (org prop id : ℕ) (s : Db) {f : Fund} {t : Db} → get_fund org prop id s ≡ ok (f, t) → t ≡ s
unfolding get_fund
get_fund-same org prop id s h = ground arith

-- Where the total of a regular schedule comes from.
pub record Derived (org prop budget_id fund_id : ℕ) (s : Db) (total : ℕ) (t : Db) : Type 0 where
  pub same : t ≡ s
  pub source : Budget
  pub found : find_owned_budget org prop budget_id s.budgets ≡ some source
  pub current : is_active source.status ≡ true
  pub income : ℕ
  pub resolved : resolve prop levy_income (some fund_id) s ≡ ok (income, s)
  pub sum :
      total
      ≡ sum_by
          (λ (x : BudgetLine). x.planned_amount)
          (filter (is_levy_revenue fund_id income) source.lines)

pub derive_regular_total-eq-ok :
    (org prop budget_id fund_id : ℕ) (s : Db) {n : ℕ} {t : Db}
    → derive_regular_total org prop budget_id fund_id s ≡ ok (n, t)
    → Derived org prop budget_id fund_id s n t
unfolding derive_regular_total
derive_regular_total-eq-ok org prop budget_id fund_id s h =
    let row = find_owned_budget org prop budget_id s.budgets in
    let (b, t0, p0, h0) = bind-eq-ok (or_throw row (not_found budget_missing)) _ s h in
    let (_, t1, p1, h1) = bind-eq-ok (throw_if (not (is_active b.status)) _) _ t0 h0 in
    let (income, t2, p2, h2) = bind-eq-ok (resolve prop levy_income (some fund_id)) _ t1 h1 in
    let lines = filter (is_levy_revenue fund_id income) b.lines in
    let (_, t3, p3, h3) = bind-eq-ok (throw_if (length lines == 0) _) _ t2 h2 in
    let (found, same0) = or_throw-eq-ok row _ s p0 in
    let (current, same1) = throw_unless-eq-ok (is_active b.status) _ t0 p1 in
    let same2 : t2 ≡ s = resolve-same prop levy_income (some fund_id) t1 p2 ∙ same1 ∙ same0 in
    let last = pure-eq-ok (sum_by (λ (x : BudgetLine). x.planned_amount) lines) t3 h3 in
    let same3 : t3 ≡ s = (throw_if-eq-ok (length lines == 0) _ t2 p3).1 ∙ same2 in
    record {
      same = last.1 ∙ same3;
      source = b;
      found = found;
      current = current;
      income = income;
      resolved = read-same (resolve prop levy_income (some fund_id)) (same1 ∙ same0) same2 p2;
      sum = last.0;
    }

-- Each amount is a whole number of cents.
abbrev pub WholeCents : List InstallmentInput → Type 0
WholeCents = All (λ (i : InstallmentInput). i.amount % per_cent ≡ 0)

abbrev pub planned : LevySchedule → ℕ
planned l = sum_by (λ (i : Installment). i.amount) l.installments

module _ (num : Numeric) where
  sum_by-installment_rows :
      (id index : ℕ) (inputs : List InstallmentInput)
      → WholeCents inputs
      → sum_by (λ (i : Installment). i.amount) (installment_rows num id index inputs) * per_cent
        ≡ requested inputs
  unfolding installment_rows
  sum_by-installment_rows id index [] h = omega arith
  sum_by-installment_rows id index (i ∷ is') h =
      let whole : i.amount / per_cent * per_cent ≡ i.amount = let exact = h.0 in omega arith in
      let cents : num.to_cents i.amount ≡ i.amount / per_cent =
        rw whole at (num.exact (i.amount / per_cent)) in
      omega (arith, cents, sum_by-installment_rows (id + 1) (index + 1) is' h.1)

  create_schedule-planned :
      (org actor prop : ℕ) (cf : Configuration) (fund_id : ℕ) (budget_id : Option ℕ)
      (kind : LevyKind) (date : Option ℕ) (inputs : List InstallmentInput) (total : ℕ) (s t : Db)
      {l : LevySchedule}
      → WholeCents inputs
      → total ≡ requested inputs
      → create_schedule num org actor prop cf fund_id budget_id kind total date inputs s ≡ ok (l, t)
      → (planned l ≡ l.total_amount) × (l.total_amount * per_cent ≡ requested inputs)
  unfolding create_schedule
  create_schedule-planned org actor prop cf fund_id budget_id kind date inputs total s t {l} h equal
        e =
      let rows = installment_rows num (s.next_id + 1) 0 inputs in
      let cents = sum_by (λ (i : Installment). i.amount) rows in
      let inside : l.installments ≡ rows = ground arith in
      let stored : l.total_amount ≡ num.to_cents (requested inputs) = ground arith in
      let whole = sum_by-installment_rows (s.next_id + 1) 0 inputs h in
      let exact : num.to_cents (requested inputs) ≡ cents = rw whole at (num.exact cents) in
      (rw inside (sym exact ∙ sym stored), rw (stored, exact) whole)

  -- A regular schedule that is drafted from amounts in whole cents: its instalments add up to its total,
  -- which is the sum of the revenue lines of the budget that it is drawn from. The budget is the one
  -- named, of this property, and active, and the lines are those of the fund that are linked to the
  -- account for levy income.
  pub create_regular-planned :
      (org actor prop fund_id budget_id : ℕ) (inputs : List InstallmentInput) (s s' : Db)
      (l : LevySchedule)
      → WholeCents inputs
      → create_regular num org actor prop fund_id budget_id inputs s ≡ ok (l, s')
      → (planned l ≡ l.total_amount)
        × (b : Budget) × (income : ℕ) × (find_owned_budget org prop budget_id s.budgets ≡ some b)
        × (is_active b.status ≡ true)
        × (resolve prop levy_income (some fund_id) s ≡ ok (income, s))
        × (l.total_amount
            ≡ sum_by
                (λ (x : BudgetLine). x.planned_amount)
                (filter (is_levy_revenue fund_id income) b.lines))
  unfolding create_regular
  create_regular-planned org actor prop fund_id budget_id inputs s s' l w h =
      let (_, t0, p0, h0) = bind-eq-ok (get_owned_property org prop) _ s h in
      let (cf, t1, p1, h1) = bind-eq-ok (get_configuration prop) _ t0 h0 in
      let (_, t2, p2, h2) = bind-eq-ok (get_fund org prop fund_id) _ t1 h1 in
      let (total, t3, p3, h3) =
        bind-eq-ok (derive_regular_total org prop budget_id fund_id) _ t2 h2 in
      let matches = requested inputs == total * per_cent in
      let (_, t4, p4, h4) = bind-eq-ok (throw_if (not matches) _) _ t3 h3 in
      let (row, t5, p5, h5) =
        bind-eq-ok
          (create_schedule num org actor prop cf fund_id (some budget_id) regular (total * per_cent)
            none inputs)
          _ t4 h4 in
      let same2 : t2 ≡ s =
        get_fund-same org prop fund_id t1 p2
        ∙ get_configuration-same prop t0 p1
        ∙ get_owned_property-same org prop s p0 in
      let d =
        derive_regular_total-eq-ok org prop budget_id fund_id s
          (run-same (derive_regular_total org prop budget_id fund_id) same2 p3) in
      let equal : total * per_cent ≡ requested inputs =
        equal_of_test (requested inputs) (total * per_cent)
          (throw_unless-eq-ok matches _ t3 p4).0 in
      let (view, _) = record_activity-pure org prop actor levy_schedule_created row.id row t5 h5 in
      let (sum, whole) =
        create_schedule-planned org actor prop cf fund_id (some budget_id) regular none inputs
          (total * per_cent) t4 t5 {l = row} w equal p5 in
      let cents : row.total_amount ≡ total = omega (arith, whole, equal) in
      (
        ap planned view ∙ sum ∙ sym (ap (λ (x : LevySchedule). x.total_amount) view),
        d.source,
        d.income,
        d.found,
        d.current,
        d.resolved,
        ap (λ (x : LevySchedule). x.total_amount) view ∙ cents ∙ d.sum,
      )
    where
      equal_of_test : (a b : ℕ) → (a == b) ≡ true → b ≡ a
      equal_of_test a b h = ground arith
