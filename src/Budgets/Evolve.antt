-- ===== src/Budgets/Evolve.antt =====
-- How a budget of src/modules/financials/budgets.service.ts may change: forward through its states, and only
-- in its state once it is no draft.
use waslproperty_backend.Prelude.{ℕ, ◌≤◌, ◌≡◌, refl, ◌∙◌, true, false, arith}
use waslproperty_backend.Store.{
  Budget, BudgetStatus, budget_draft, budget_approved, budget_active, budget_superseded,
}
use waslproperty_backend.Budgets.{is_draft, is_active}

-- DRAFT, APPROVED, ACTIVE, SUPERSEDED
abbrev pub rank : BudgetStatus → ℕ
rank budget_draft = 0
rank budget_approved = 1
rank budget_active = 2
rank budget_superseded = 3

-- The columns that no request changes.
pub record SameKey (b c : Budget) : Type 0 where
  pub id : c.id ≡ b.id
  pub property : c.property_id ≡ b.property_id
  pub start : c.start_date ≡ b.start_date
  pub end_date : c.end_date ≡ b.end_date
  pub version : c.version ≡ b.version
  pub revision_of : c.revision_of_budget_id ≡ b.revision_of_budget_id

pub record Evolves (b c : Budget) : Type 0 where
  pub key : SameKey b c
  pub forward : rank b.status ≤ rank c.status
  -- The lines and the approval of what is no draft any more.
  pub frozen :
      is_draft b.status ≡ false
      → (c.lines ≡ b.lines)
        × (c.approved_by_user_id ≡ b.approved_by_user_id)
        × (c.external_approval_date ≡ b.external_approval_date)

SameKey-refl : (b : Budget) → SameKey b b
SameKey-refl b = record {
  id = refl;
  property = refl;
  start = refl;
  end_date = refl;
  version = refl;
  revision_of = refl;
}

pub Evolves-refl : (b : Budget) → Evolves b b
Evolves-refl b = record {
  key = SameKey-refl b;
  forward = omega arith;
  frozen = λ _. (refl, refl, refl);
}

rank_draft : (s t : BudgetStatus) → is_draft s ≡ false → rank s ≤ rank t → is_draft t ≡ false
rank_draft s t h k = ground arith

pub Evolves-trans : (a b c : Budget) → Evolves a b → Evolves b c → Evolves a c
Evolves-trans a b c p q =
    let k = p.key in
    let l = q.key in
    let below = p.forward in
    let above = q.forward in
    record {
      key = record {
        id = l.id ∙ k.id;
        property = l.property ∙ k.property;
        start = l.start ∙ k.start;
        end_date = l.end_date ∙ k.end_date;
        version = l.version ∙ k.version;
        revision_of = l.revision_of ∙ k.revision_of;
      };
      forward = omega arith;
      frozen = λ h.
          let (x, y, z) = p.frozen h in
          let (u, v, w) = q.frozen (rank_draft a.status b.status h below) in (u ∙ x, v ∙ y, w ∙ z);
    }

-- A change that makes nothing active.
pub record Calms (b c : Budget) : Type 0 where
  pub evolves : Evolves b c
  pub calm : is_active c.status ≡ true → is_active b.status ≡ true

pub Calms-refl : (b : Budget) → Calms b b
Calms-refl b = record { evolves = Evolves-refl b; calm = λ h. h }

pub Calms-trans : (a b c : Budget) → Calms a b → Calms b c → Calms a c
Calms-trans a b c p q = record {
  evolves = Evolves-trans a b c p.evolves q.evolves;
  calm = λ h. p.calm (q.calm h);
}
