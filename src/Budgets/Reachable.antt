-- ===== src/Budgets/Reachable.antt =====
-- Any sequence of the requests of src/modules/financials/budgets.service.ts, as steps between databases.
use waslproperty_backend.Prelude.{ℕ, ◌≡◌, Option}
use waslproperty_backend.Prelude.Result.{ok}
use waslproperty_backend.Store.{Db, Budget, BudgetSource}
use waslproperty_backend.Store.Money.{Numeric}
use waslproperty_backend.Budgets.{create}
use waslproperty_backend.Budgets.Lines.{
  NewLine, LineEdit, update_metadata, delete_line, add_line, edit,
}
use waslproperty_backend.Budgets.Lifecycle.{approve, activate, create_revision}
use waslproperty_backend.Budgets.Plan.{Plans}
use waslproperty_backend.Budgets.Kept.{
  Kept, Persists, Persists-refl, Persists-trans, Changed-Kept, Added-Kept,
}
use waslproperty_backend.Budgets.Superseding.{activate-Kept}
use waslproperty_backend.Budgets.Drafts.{create-Added}
use waslproperty_backend.Budgets.Revisions.{create_revision-Added}
use waslproperty_backend.Budgets.Requests.{
  update_metadata-same, delete_line-Changed, edit-Changed, add_line-Changed,
}
use waslproperty_backend.Budgets.Approving.{approve-Changed}

module _ (num : Numeric) (org prop : ℕ) where
  -- A request of some user on some day that succeeded.
  pub data Step (s s' : Db) : Type 0 where
    drafted :
        (actor start end : ℕ) (source : BudgetSource) (r : Budget)
        → create org actor prop start end source s ≡ ok (r, s')
        → Step s s'
    noted : (id : ℕ) (r : Budget) → update_metadata org prop id s ≡ ok (r, s') → Step s s'
    line_added :
        (id : ℕ) (input : NewLine) (r : Budget)
        → add_line num org prop id input s ≡ ok (r, s')
        → Step s s'
    line_edited :
        (id line_id : ℕ) (e : LineEdit) (r : Budget)
        → edit num org prop id line_id e s ≡ ok (r, s')
        → Step s s'
    line_deleted :
        (id line_id : ℕ) (r : Budget) → delete_line org prop id line_id s ≡ ok (r, s') → Step s s'
    signed_off :
        (today actor id : ℕ) (date reference : Option ℕ) (r : Budget)
        → approve today org actor prop id date reference s ≡ ok (r, s')
        → Step s s'
    put_in_force :
        (actor id : ℕ) (r : Budget) → activate org actor prop id s ≡ ok (r, s') → Step s s'
    revised :
        (actor id : ℕ) (r : Budget) → create_revision org actor prop id s ≡ ok (r, s') → Step s s'

  pub data Reach (s : Db) : Db → Type 0 where
    here : Reach s s
    next : {t u : Db} → Reach s t → Step t u → Reach s u

  Step-Kept : {s t : Db} → Step s t → Plans s.budgets s.next_id → Kept s t
  Step-Kept {s} {t} (drafted actor start end source r e) p =
      Added-Kept s t r (create-Added org prop actor start end source s t r e) p
  Step-Kept {s} {t} (noted id r e) p =
      let same = update_metadata-same org prop id s t r e in
      rw same (record { plans = p; persists = Persists-refl s.budgets })
  Step-Kept {s} {t} (line_added id input r e) p =
      Changed-Kept s t (add_line-Changed org prop id num input s t r e) p
  Step-Kept {s} {t} (line_edited id line_id edits r e) p =
      Changed-Kept s t (edit-Changed org prop id num line_id edits s t r e) p
  Step-Kept {s} {t} (line_deleted id line_id r e) p =
      Changed-Kept s t (delete_line-Changed org prop id line_id s t r e) p
  Step-Kept {s} {t} (signed_off today actor id date reference r e) p =
      Changed-Kept s t (approve-Changed org prop id today actor date reference s t r e) p
  Step-Kept {s} {t} (put_in_force actor id r e) p = activate-Kept org actor prop id s t r p e
  Step-Kept {s} {t} (revised actor id r e) p =
      Added-Kept s t r (create_revision-Added org actor prop id s t r p e) p

  Reach-Kept : {s u : Db} → Reach s u → Plans s.budgets s.next_id → Kept s u
  Reach-Kept {s} here p = record { plans = p; persists = Persists-refl s.budgets }
  Reach-Kept {s} {u} (next {t} r st) p =
      let k = Reach-Kept r p in
      let l = Step-Kept st k.plans in
      record {
        plans = l.plans;
        persists = Persists-trans s.budgets t.budgets u.budgets k.persists l.persists;
      }

  -- Whatever requests about the budgets of a property are made, in whatever order and by whomever, as
  -- long as the start is in order: each year starts before it ends, two years of one property have the
  -- same dates or have no more than one day in common, on which one ends and the other starts, the
  -- budgets of one year have different versions, at most one of them is active, and a revision is newer
  -- than what it revises.
  pub Reach-Plans : {s t : Db} → Reach s t → Plans s.budgets s.next_id → Plans t.budgets t.next_id
  Reach-Plans r p = let k = Reach-Kept r p in k.plans

  -- From a start that is in order, whatever requests are made: every budget is still there with its id,
  -- property, year, version and source of revision, its state never goes back in the order DRAFT,
  -- APPROVED, ACTIVE, SUPERSEDED, and once it is no draft neither its lines nor its approval change.
  pub Reach-Persists :
      {s t : Db} → Reach s t → Plans s.budgets s.next_id → Persists s.budgets t.budgets
  Reach-Persists r p = let k = Reach-Kept r p in k.persists
