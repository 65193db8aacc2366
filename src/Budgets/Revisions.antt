-- ===== src/Budgets/Revisions.antt =====
-- `createRevision` in src/modules/financials/budgets.service.ts: when it succeeds, and what it adds.
use waslproperty_backend.Prelude.{
  ℕ, ◌+◌, ◌<◌, ◌≡◌, refl, sym, true, ◌||◌, not, some, ◌∷◌, arith, length, All, All-at, All-implies,
  In,
}
use waslproperty_backend.Prelude.Result.{ok, conflict, not_revisable}
use waslproperty_backend.Store.{Db, Budget, budget_draft, created, financial_budget_revised}
use waslproperty_backend.Store.Tx.{
  Tx, throw_if, bind-eq-ok, throw_unless-eq-ok, run-same, ◌>>=◌, ◌>>◌,
}
use waslproperty_backend.Store.Rows.{get_owned_property, get_owned_property-same, record_activity}
use waslproperty_backend.Budgets.{
  is_approved, is_active, find_owned_budget, get_owned_budget, is_year, new_budget,
}
use waslproperty_backend.Budgets.Lifecycle.{max_version, copy_lines, revise, create_revision}
use waslproperty_backend.Budgets.Plan.{Plans}
use waslproperty_backend.Budgets.Activation.{Pairs-at}
use waslproperty_backend.Budgets.Kept.{Added, get_owned_budget-Owned}
use waslproperty_backend.Budgets.Drafts.{max_version-ge, revision-Apart}

-- The row of the revision of a budget.
abbrev pub revision : ℕ → ℕ → ℕ → Budget → Db → Budget
revision org actor prop b s =
    record (new_budget s.next_id org actor prop b.configuration_id b.start_date b.end_date
      (max_version prop b.start_date b.end_date b.version s.budgets + 1) created b.currency_code
      (some b.id)) { lines = copy_lines (s.next_id + 1) b.lines }

-- A revision of a budget in the table.
pub record Revision (b : Budget) (s s' : Db) (r : Budget) : Type 0 where
  pub is_new : r.id ≡ s.next_id
  pub added : s'.budgets ≡ r ∷ s.budgets
  pub next : s'.next_id ≡ s.next_id + 1 + length b.lines
  pub draft : r.status ≡ budget_draft
  pub lines : r.lines ≡ copy_lines (s.next_id + 1) b.lines
  pub revises : r.revision_of_budget_id ≡ some b.id
  pub property : r.property_id ≡ b.property_id
  pub start : r.start_date ≡ b.start_date
  pub end_date : r.end_date ≡ b.end_date
  pub newest :
      All
        (λ c. is_year b.property_id b.start_date b.end_date c ≡ true → c.version < r.version)
        s.budgets

Revision-Added :
    (b : Budget) (s s' : Db) (r : Budget)
    → Plans s.budgets s.next_id
    → In b s.budgets
    → Revision b s s' r
    → Added s s' r
Revision-Added b s s' r p i v =
    let draft = v.draft in
    let next = v.next in
    let is_new = v.is_new in
    let older = All-at (λ (c : Budget). c.id < s.next_id) s.budgets p.fresh i in
    let revises = v.revises in
    record {
      new = is_new;
      later = omega arith;
      descends = λ k e. let same : k ≡ b.id = cc (e, revises) in omega arith;
      ordered =
          rw (v.start, v.end_date)
            (All-at (λ (c : Budget). c.start_date < c.end_date) s.budgets p.forward i);
      apart =
          revision-Apart r b s.budgets (ground arith) v.property v.start v.end_date v.newest
            (Pairs-at s.budgets p.apart i);
      budgets_eq = v.added;
    }

module _ (org actor prop : ℕ) where
  revision-Revision :
      (b : Budget) (s s' : Db)
      → b.property_id ≡ prop
      → s'.budgets ≡ revision org actor prop b s ∷ s.budgets
      → s'.next_id ≡ s.next_id + 1 + length b.lines
      → Revision b s s' (revision org actor prop b s)
  revision-Revision b s s' same rows next = record {
    is_new = refl;
    added = rows;
    next = next;
    draft = refl;
    lines = refl;
    revises = refl;
    property = sym same;
    start = refl;
    end_date = refl;
    newest =
        All-implies (λ c le y. let le' = le (rw same at y) in omega arith) s.budgets
          (max_version-ge prop b.start_date b.end_date b.version s.budgets);
  }

  revise_lem :
      (b : Budget) (s : Db)
      → (s' : Db) × (revise org actor prop b s ≡ ok (revision org actor prop b s, s'))
        × (s'.budgets ≡ revision org actor prop b s ∷ s.budgets)
        × (s'.next_id ≡ s.next_id + 1 + length b.lines)
  unfolding revise record_activity get_owned_budget find_owned_budget
  revise_lem b s =
      let s' : Db = record s {
        budgets = revision org actor prop b s ∷ s.budgets;
        next_id = s.next_id + 1 + length b.lines;
        activities =
            record {
              organisation_id = org;
              property_id = prop;
              actor_user_id = actor;
              event_type = financial_budget_revised;
              entity_id = s.next_id;
            }
            ∷ s.activities;
      } in
      (s', ground arith, refl, refl)

  pub create_revision-Added :
      (budget_id : ℕ) (s s' : Db) (r : Budget)
      → Plans s.budgets s.next_id
      → create_revision org actor prop budget_id s ≡ ok (r, s')
      → Added s s' r
  unfolding create_revision
  create_revision-Added budget_id s s' r p h =
      let checked : Budget → Tx Budget = λ b.
        throw_if (not (is_approved b.status || is_active b.status)) (conflict not_revisable)
        >> revise org actor prop b in
      let (_, t0, got, h0) =
        bind-eq-ok (get_owned_property org prop)
          (λ _. get_owned_budget org prop budget_id >>= checked) s h in
      let h1 =
        run-same (get_owned_budget org prop budget_id >>= checked)
          (get_owned_property-same org prop s got) h0 in
      let (b, t1, own, h2) = bind-eq-ok (get_owned_budget org prop budget_id) checked s h1 in
      let (same, owned) = get_owned_budget-Owned org prop budget_id s own in
      let h3 = run-same (checked b) same h2 in
      let (_, t2, may, h4) =
        bind-eq-ok
          (throw_if (not (is_approved b.status || is_active b.status)) (conflict not_revisable))
          (λ _. revise org actor prop b) s h3 in
      let h5 =
        run-same (revise org actor prop b)
          (throw_unless-eq-ok (is_approved b.status || is_active b.status) (conflict not_revisable)
            s may).1
          h4 in
      let (u, run, rows, next) = revise_lem b s in
      let state : s' ≡ u = cc (h5, run) in
      let row : r ≡ revision org actor prop b s = cc (h5, run) in
      rw (state, row)
        (Revision-Added b s u (revision org actor prop b s) p owned.found
          (revision-Revision b s u owned.property rows next))
