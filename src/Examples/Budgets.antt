-- ===== src/Examples/Budgets.antt =====
-- The budgets of src/modules/financials/budgets.service.ts on a concrete property: the active budget is
-- revised, the revision is approved and put in force, and the next year gets a budget.
use waslproperty_backend.Prelude.{ℕ, ◌≡◌, refl, none, some, [], ◌∷◌, arith, map}
use waslproperty_backend.Store.{
  Db, Budget, BudgetStatus, budget_active, budget_approved, budget_draft, budget_superseded,
  imported,
}
use waslproperty_backend.Store.Tx.{after}
use waslproperty_backend.Store.Rows.{get_owned_property, fresh_id, record_activity}
use waslproperty_backend.Budgets.{
  get_active_configuration, find_owned_budget, get_owned_budget, validate_period, create,
  update_budget, write_budget,
}
use waslproperty_backend.Budgets.Lifecycle.{
  check_external, approve, supersede_current, supersede_chain, supersede_ancestors,
  activate_approved, activate_by_status, activate, max_version, copy_lines, revise, create_revision,
}
use waslproperty_backend.Budgets.Plan.{Plans}
use waslproperty_backend.Budgets.Kept.{Persists}
use waslproperty_backend.Budgets.Reachable.{
  drafted, signed_off, put_in_force, revised, Reach, here, next, Reach-Plans, Reach-Persists,
}
use waslproperty_backend.Examples.Data.{rounding}
use waslproperty_backend.Examples.LevyData.{budget, db_planned}

abbrev db_revised : Db
db_revised = after db_planned (create_revision 1 5 1 80 db_planned)

abbrev db_signed : Db
db_signed = after db_revised (approve 200 1 5 1 100 none none db_revised)

abbrev db_in_force : Db
db_in_force = after db_signed (activate 1 5 1 100 db_signed)

abbrev db_next_year : Db
db_next_year = after db_in_force (create 1 5 1 366 731 imported db_in_force)

budgets_next_year :
    map {B = ℕ × ℕ × BudgetStatus}
      (λ (b : Budget). (b.id, b.version, b.status))
      db_next_year.budgets
    ≡ (103, 1, budget_draft) ∷ (100, 2, budget_active) ∷ (80, 1, budget_superseded) ∷ []
unfolding get_owned_property fresh_id record_activity get_active_configuration find_owned_budget
    get_owned_budget validate_period create update_budget write_budget check_external approve
    supersede_current supersede_chain supersede_ancestors activate_approved activate_by_status
    activate max_version copy_lines revise create_revision
budgets_next_year = refl

reached_signed : Reach rounding 1 1 db_planned db_signed
unfolding get_owned_property fresh_id record_activity get_active_configuration find_owned_budget
    get_owned_budget validate_period create update_budget write_budget check_external approve
    supersede_current supersede_chain supersede_ancestors activate_approved activate_by_status
    activate max_version copy_lines revise create_revision
reached_signed = next (next here (revised 5 80 _ refl)) (signed_off 200 5 100 none none _ refl)

reached : Reach rounding 1 1 db_planned db_next_year
unfolding get_owned_property fresh_id record_activity get_active_configuration find_owned_budget
    get_owned_budget validate_period create update_budget write_budget check_external approve
    supersede_current supersede_chain supersede_ancestors activate_approved activate_by_status
    activate max_version copy_lines revise create_revision
reached = next (next reached_signed (put_in_force 5 100 _ refl)) (drafted 5 366 731 imported _ refl)

db_planned-Plans : Plans db_planned.budgets db_planned.next_id
db_planned-Plans = record {
  ids = (tt, tt);
  fresh = (omega arith, tt);
  descends = (λ k e. absurd (cc e), tt);
  forward = (omega arith, tt);
  apart = (tt, tt);
}

Reach-Plans_example : Plans db_next_year.budgets db_next_year.next_id
Reach-Plans_example = Reach-Plans rounding 1 1 reached db_planned-Plans

Reach-Persists_example : Persists db_planned.budgets db_next_year.budgets
Reach-Persists_example = Reach-Persists rounding 1 1 reached db_planned-Plans

-- The revision of the active budget, approved.
abbrev signed : Budget
signed = record budget {
  id = 100;
  version = 2;
  status = budget_approved;
  revision_of_budget_id = some 80;
  lines = copy_lines 101 budget.lines;
}

-- Two approved budgets, each a revision of the other.
abbrev approved_budget : ℕ → ℕ → Budget
approved_budget id revised_id = record budget {
  id = id;
  status = budget_approved;
  revision_of_budget_id = some revised_id;
}

cycle_ends :
    supersede_chain 3 (some 80) (approved_budget 80 81 ∷ approved_budget 81 80 ∷ [])
    ≡ some (
        record (approved_budget 80 81) { status = budget_superseded }
        ∷ record (approved_budget 81 80) { status = budget_superseded }
        ∷ [])
unfolding update_budget supersede_chain
cycle_ends = refl
