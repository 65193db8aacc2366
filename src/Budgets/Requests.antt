-- ===== src/Budgets/Requests.antt =====
-- The requests of src/modules/financials/budgets.service.ts that edit a draft, each as a calm
-- change of one row.
use waslproperty_backend.Prelude.{
  ℕ, ◌≤◌, ◌≡◌, refl, ap, ◌∙◌, ◌+◌, ◌&&◌, true, Option, none, some, List, [], ◌∷◌, ◌++◌, arith, find,
  ◌==◌,
}
use waslproperty_backend.Prelude.Result.{
  ok, not_found, conflict, not_draft, budget_line, fund as fund_row,
}
use waslproperty_backend.Store.{Db, Fund, Budget, BudgetLine}
use waslproperty_backend.Store.Money.{Numeric}
use waslproperty_backend.Store.Tx.{
  Tx, pure, gets, or_throw, or_throw-eq-ok, bind-eq-ok, throw_unless-eq-ok, pure-eq-ok, run-same,
  ◌>>=◌, ◌>>◌,
}
use waslproperty_backend.Store.Rows.{get_owned_property, get_owned_property-same, fresh_id}
use waslproperty_backend.Budgets.{
  is_draft, get_owned_budget, assert_draft, check_account, update_budget, write_budget,
}
use waslproperty_backend.Budgets.Lines.{
  NewLine, LineEdit, set_lines, next_sort_order, update_line, delete_from, edit_line, assigned,
  update_metadata, delete_line, add_line, edit,
}
use waslproperty_backend.Budgets.Evolve.{rank, Calms}
use waslproperty_backend.Budgets.Kept.{Changed, Owned, get_owned_budget-Owned}

-- The head of each request on a draft.
pub record OfDraft {A : Type 0} (org prop id : ℕ) (rest : Budget → Tx A) (s s' : Db) (r : A)
    : Type 0 where
  pub b : Budget
  pub owned : Owned org prop id s b
  pub draft : is_draft b.status ≡ true
  pub goes_on : rest b s ≡ ok (r, s')

pub draft_request :
    {A : Type 0} (org prop id : ℕ) (rest : Budget → Tx A) (s s' : Db) (r : A)
    → (get_owned_property org prop
          >> (get_owned_budget org prop id >>= λ b. assert_draft b >> rest b))
        s
      ≡ ok (r, s')
    → OfDraft org prop id rest s s' r
draft_request org prop id rest s s' r h =
    let (_, t0, got, h0) = bind-eq-ok (get_owned_property org prop) _ s h in
    let h1 =
      run-same (get_owned_budget org prop id >>= λ b. assert_draft b >> rest b)
        (get_owned_property-same org prop s got) h0 in
    let (b, t1, own, h2) = bind-eq-ok (get_owned_budget org prop id) _ s h1 in
    let (same, owned) = get_owned_budget-Owned org prop id s own in
    let h3 = run-same (assert_draft b >> rest b) same h2 in
    let (_, t2, check, h4) = bind-eq-ok (assert_draft b) _ s h3 in
    let (draft, same') = throw_unless-eq-ok (is_draft b.status) (conflict not_draft) s check in
    record { b = b; owned = owned; draft = draft; goes_on = run-same (rest b) same' h4 }

pub draft-rank : (b : Budget) → is_draft b.status ≡ true → rank b.status ≡ 0
draft-rank b d = ground arith

set_lines-Calms :
    (g : List BudgetLine → List BudgetLine) (b : Budget)
    → is_draft b.status ≡ true
    → Calms b (set_lines g b)
set_lines-Calms g b d = record {
  evolves = record {
    key = record {
      id = refl;
      property = refl;
      start = refl;
      end_date = refl;
      version = refl;
      revision_of = refl;
    };
    forward = omega arith;
    frozen = λ n. absurd (cc (d, n));
  };
  calm = λ h. h;
}

check_account-same :
    (org prop : ℕ) (account : Option ℕ) (s t : Db) {u : Unit {0}}
    → check_account org prop account s ≡ ok (u, t)
    → t ≡ s
unfolding check_account
check_account-same org prop none s t h = ground arith
check_account-same org prop (some id) s t h = ground arith

module _ (org prop id : ℕ) where
  pub update_metadata-same :
      (s s' : Db) (r : Budget) → update_metadata org prop id s ≡ ok (r, s') → s' ≡ s
  unfolding update_metadata
  update_metadata-same s s' r h =
      let q = draft_request org prop id pure s s' r h in (pure-eq-ok q.b s q.goes_on).1

  -- The end of each edit of the lines.
  abbrev write_lines : Budget → (List BudgetLine → List BudgetLine) → Tx Budget
  write_lines b g = write_budget b.id (set_lines g) >> get_owned_budget org prop id

  written :
      (b : Budget) (g : List BudgetLine → List BudgetLine) (s t s' : Db) (r : Budget)
      → Owned org prop id s b
      → is_draft b.status ≡ true
      → t.budgets ≡ s.budgets
      → s.next_id ≤ t.next_id
      → write_lines b g t ≡ ok (r, s')
      → Changed s s'
  unfolding write_budget get_owned_budget
  written b g s t s' r own draft same le h =
      let next : s'.next_id ≡ t.next_id = ground arith in
      let rows : s'.budgets ≡ update_budget b.id (set_lines g) t.budgets = ground arith in
      record {
        b = b;
        change = set_lines g;
        found = own.found;
        calms = set_lines-Calms g b draft;
        budgets_eq = rows ∙ ap (update_budget b.id (set_lines g)) same;
        later = omega arith;
      }

  abbrev find_line : ℕ → Budget → Tx BudgetLine
  find_line line_id b =
      or_throw (find (λ (l : BudgetLine). l.id == line_id) b.lines) (not_found budget_line)

  find_line-same :
      (line_id : ℕ) (b : Budget) (s : Db) {l : BudgetLine} {t : Db}
      → find_line line_id b s ≡ ok (l, t)
      → t ≡ s
  find_line-same line_id b s h = (or_throw-eq-ok _ (not_found budget_line) s h).1

  pub delete_line-Changed :
      (line_id : ℕ) (s s' : Db) (r : Budget)
      → delete_line org prop id line_id s ≡ ok (r, s')
      → Changed s s'
  unfolding delete_line
  delete_line-Changed line_id s s' r h =
      let rest : Budget → Tx Budget =
        λ b. find_line line_id b >> write_lines b (delete_from line_id) in
      let q = draft_request org prop id rest s s' r h in
      let b = q.b in
      let (_, t, got, h1) =
        bind-eq-ok (find_line line_id b) (λ _. write_lines b (delete_from line_id)) s q.goes_on in
      let same = find_line-same line_id b s got in
      written b (delete_from line_id) s s s' r q.owned q.draft refl (omega arith)
        (run-same (write_lines b (delete_from line_id)) same h1)

  module _ (num : Numeric) where
    pub edit-Changed :
        (line_id : ℕ) (e : LineEdit) (s s' : Db) (r : Budget)
        → edit num org prop id line_id e s ≡ ok (r, s')
        → Changed s s'
    unfolding edit
    edit-Changed line_id e s s' r h =
        let g = update_line line_id (edit_line num e) in
        let checked : Budget → Tx Budget =
          λ b. check_account org prop (assigned num e) >> write_lines b g in
        let q = draft_request org prop id (λ b. find_line line_id b >> checked b) s s' r h in
        let b = q.b in
        let (_, t, got, h1) = bind-eq-ok (find_line line_id b) (λ _. checked b) s q.goes_on in
        let h2 = run-same (checked b) (find_line-same line_id b s got) h1 in
        let (_, u, check, h3) =
          bind-eq-ok (check_account org prop (assigned num e)) (λ _. write_lines b g) s h2 in
        let same = check_account-same org prop (assigned num e) s u check in
        written b g s s s' r q.owned q.draft refl (omega arith) (run-same (write_lines b g) same h3)

    pub add_line-Changed :
        (input : NewLine) (s s' : Db) (r : Budget)
        → add_line num org prop id input s ≡ ok (r, s')
        → Changed s s'
    unfolding add_line fresh_id
    add_line-Changed input s s' r h =
        let line : Budget → ℕ → BudgetLine = λ b k. record {
          id = k;
          financial_fund_id = input.financial_fund_id;
          line_type = input.line_type;
          planned_amount = num.to_cents input.planned_amount;
          sort_order = next_sort_order b.lines;
          account_id = input.account_id;
        } in
        let written_line : Budget → Tx Budget =
          λ b. fresh_id >>= λ k. write_lines b (λ ls. ls ++ line b k ∷ []) in
        let checked : Budget → Tx Budget =
          λ b. check_account org prop input.account_id >> written_line b in
        let row : Budget → Db → Option Fund = λ b s.
          find
            (λ (f : Fund).
              f.id == input.financial_fund_id
              && f.organisation_id == org
              && f.property_id == prop
              && f.configuration_id == b.configuration_id)
            s.funds in
        let rest : Budget → Tx Budget =
          λ b. gets (row b) >>= λ x. or_throw x (not_found fund_row) >> checked b in
        let q = draft_request org prop id rest s s' r h in
        let b = q.b in
        let (_, t, got, h1) =
          bind-eq-ok (or_throw (row b s) (not_found fund_row)) (λ _. checked b) s q.goes_on in
        let h2 = run-same (checked b) (or_throw-eq-ok (row b s) (not_found fund_row) s got).1 h1 in
        let (_, u, check, h3) =
          bind-eq-ok (check_account org prop input.account_id) (λ _. written_line b) s h2 in
        let h4 =
          run-same (written_line b) (check_account-same org prop input.account_id s u check) h3 in
        written b (λ ls. ls ++ line b s.next_id ∷ []) s (record s { next_id = s.next_id + 1 }) s' r
          q.owned q.draft refl (omega arith) h4
