-- ===== src/Budgets/Approving.antt =====
-- `approve` in src/modules/financials/budgets.service.ts, as a calm change of one row.
use waslproperty_backend.Prelude.{
  ℕ, ◌≡◌, refl, true, Option, none, some, arith, length, ◌==◌, if◌then◌else◌,
}
use waslproperty_backend.Prelude.Result.{ok, validation, empty_budget}
use waslproperty_backend.Store.{
  Db, Budget, BudgetSource, EventType, financial_budget_approved, financial_budget_import_recorded,
}
use waslproperty_backend.Store.Tx.{Tx, pure, throw_if, bind-eq-ok, throw_if-eq-ok, run-same, ◌>>◌}
use waslproperty_backend.Store.Rows.{record_activity}
use waslproperty_backend.Budgets.{is_draft, update_budget, write_budget}
use waslproperty_backend.Budgets.Lifecycle.{is_imported, mark_approved, check_external, approve}
use waslproperty_backend.Budgets.Evolve.{Calms}
use waslproperty_backend.Budgets.Kept.{Changed}
use waslproperty_backend.Budgets.Requests.{draft_request, draft-rank}

mark_approved-Calms :
    (actor : ℕ) (date : Option ℕ) (b : Budget)
    → is_draft b.status ≡ true
    → Calms b (mark_approved actor date b)
mark_approved-Calms actor date b d = record {
  evolves = record {
    key = record {
      id = refl;
      property = refl;
      start = refl;
      end_date = refl;
      version = refl;
      revision_of = refl;
    };
    forward = let zero_rank = draft-rank b d in omega arith;
    frozen = λ n. absurd (cc (d, n));
  };
  calm = λ h. absurd (ground arith);
}

check_external-same :
    (today : ℕ) (source : BudgetSource) (date reference : Option ℕ) (s t : Db) {u : Unit {0}}
    → check_external today source date reference s ≡ ok (u, t)
    → t ≡ s
unfolding check_external
check_external-same today source none reference s t h = ground arith
check_external-same today source (some d) reference s t h = ground arith

module _ (org prop id : ℕ) where
  approval_recorded :
      (b : Budget) (actor : ℕ) (date : Option ℕ) (event : EventType) (s : Db) {r : Budget} {s' : Db}
      → (write_budget b.id (mark_approved actor date)
            >> (record_activity org prop actor event b.id >> pure (mark_approved actor date b)))
          s
        ≡ ok (r, s')
      → (s'.budgets ≡ update_budget b.id (mark_approved actor date) s.budgets)
        × (s'.next_id ≡ s.next_id)
  unfolding write_budget record_activity
  approval_recorded b actor date event s h = (ground arith, ground arith)

  pub approve-Changed :
      (today actor : ℕ) (date reference : Option ℕ) (s s' : Db) (r : Budget)
      → approve today org actor prop id date reference s ≡ ok (r, s')
      → Changed s s'
  unfolding approve
  approve-Changed today actor date reference s s' r h =
      let end : Budget → Tx Budget = λ b.
        write_budget b.id (mark_approved actor date)
        >> (record_activity org prop actor
              (if is_imported b.source
                then financial_budget_import_recorded
                else financial_budget_approved)
              b.id
            >> pure (mark_approved actor date b)) in
      let checked : Budget → Tx Budget =
        λ b. check_external today b.source date reference >> end b in
      let rest : Budget → Tx Budget =
        λ b. throw_if (length b.lines == 0) (validation empty_budget) >> checked b in
      let q = draft_request org prop id rest s s' r h in
      let b = q.b in
      let own = q.owned in
      let (_, t, some_line, h1) =
        bind-eq-ok (throw_if (length b.lines == 0) (validation empty_budget)) (λ _. checked b) s
          q.goes_on in
      let h2 =
        run-same (checked b)
          (throw_if-eq-ok (length b.lines == 0) (validation empty_budget) s some_line).1 h1 in
      let (_, u, external, h3) =
        bind-eq-ok (check_external today b.source date reference) (λ _. end b) s h2 in
      let h4 =
        run-same (end b) (check_external-same today b.source date reference s u external) h3 in
      let (rows, next) =
        approval_recorded b actor date
          (if is_imported b.source
            then financial_budget_import_recorded
            else financial_budget_approved)
          s h4 in
      record {
        b = b;
        change = mark_approved actor date;
        found = own.found;
        calms = mark_approved-Calms actor date b q.draft;
        budgets_eq = rows;
        later = omega arith;
      }
