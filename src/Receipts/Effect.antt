-- ===== src/Receipts/Effect.antt =====
-- The effect of a new allocation of src/modules/financials/receipts.service.ts on the tables.
use waslproperty_backend.Prelude.{
  ℕ, ◌+◌, ◌≤◌, ◌≡◌, refl, ◌∙◌, inl, inr, false, Option, none, some, ◌∷◌, arith, find, Option-cases,
  ◌==◌,
}
use waslproperty_backend.Prelude.Int.{pos, pos_part, ◌-ℤ◌}
use waslproperty_backend.Prelude.Result.{ok, Result-cases}
use waslproperty_backend.Store.{
  Db, Journal, Charge, Receipt, Allocation, applied, PostingRole, lot_levy_receivable,
  unapplied_cash, payment_allocation,
}
use waslproperty_backend.Store.Money.{Numeric}
use waslproperty_backend.Store.Rows.{fresh_id, record_activity}
use waslproperty_backend.Posting.Ledger.{Ledger}
use waslproperty_backend.Posting.Reversal.{Linked}
use waslproperty_backend.PostingProfile.{resolve, find_specific, find_rule}
use waslproperty_backend.Receipts.{
  is_cancelled, applied_to, applied_from, effective, find_charge, charge_outstanding, next_status,
  set_status, update_charge_status, transfer_lines, transfer_command,
}
use waslproperty_backend.Receipts.Allocate.{
  check_allocation, create_row, post_allocation, apply_new,
}
use waslproperty_backend.Receipts.Applied.{
  to_cents-within, charge_outstanding-eq-ok, check_allocation-eq-ok, Frame, post-Frame,
}

pub resolve-same :
    (prop : ℕ) (role : PostingRole) (fund : Option ℕ) (s : Db) {x : ℕ} {t : Db}
    → resolve prop role fund s ≡ ok (x, t)
    → t ≡ s
unfolding resolve
resolve-same prop role fund s {x} {t} h =
    elim (Option-cases (find_specific prop role fund s.rules)) [
      | inr (r, e) ↦ ground (arith, e)
      | inl e ↦ elim (Option-cases (find_rule prop role none s.rules)) [
        | inr (r, f) ↦ ground (arith, e, f)
        | inl f ↦ absurd (ground (arith, e, f))
      ]
    ]

pub update_charge_status-eq-ok :
    (id : ℕ) (s : Db) {c : Charge}
    → find_charge id s.charges ≡ some c
    → is_cancelled c.status ≡ false
    → update_charge_status id s
      ≡ ok (
        tt,
        record s {
          charges =
              set_status id
                (next_status (effective c s.adjustments) (applied_to id s.allocations))
                s.charges;
        },
      )
unfolding update_charge_status charge_outstanding
update_charge_status-eq-ok id s {c} e o = ground (arith, e, o)

module _ (num : Numeric) (random_uuid : ℕ → ℕ) (today : ℕ) where
  post_allocation-Frame :
      (org actor prop : ℕ) (r : Receipt) (c : Charge) (amount source_id : ℕ) (s t : Db)
      {j : Journal}
      → Ledger s
      → Linked s
      → post_allocation num random_uuid today org actor prop r c amount source_id s ≡ ok (j, t)
      → Frame s t
  unfolding post_allocation
  post_allocation-Frame org actor prop r c amount source_id s t {j} l k h =
      elim (Result-cases (resolve prop lot_levy_receivable (some c.financial_fund_id) s)) [
        | inl (e, q) ↦ absurd (ground (arith, q))
        | inr ((x, t1), q) ↦ elim (Result-cases (resolve prop unapplied_cash none t1)) [
          | inl (e, p) ↦ absurd (ground (arith, q, p))
          | inr ((y, t2), p) ↦
              let same : t2 ≡ s =
                resolve-same prop unapplied_cash none t1 p
                ∙ resolve-same prop lot_levy_receivable (some c.financial_fund_id) s q in
              post-Frame num org actor prop
                (transfer_command today r.currency_code payment_allocation source_id
                  (transfer_lines y x c.financial_fund_id amount))
                s t {j = j} l k (λ e. cc e) (ground (arith, q, p, same))
        ]
      ]

  abbrev new_row : ℕ → ℕ → ℕ → ℕ → ℕ → ℕ → ℕ → ℕ → Allocation
  new_row org actor prop receipt_id charge_id amount journal_id id = record {
    id = id;
    organisation_id = org;
    property_id = prop;
    receipt_id = receipt_id;
    charge_id = charge_id;
    amount = num.to_cents amount;
    status = applied;
    journal_entry_id = journal_id;
    reversed_by_user_id = none;
    created_by_user_id = actor;
  }

  pub record Applied (org prop : ℕ) (r : Receipt) (charge_id amount : ℕ) (s : Db) (a : Allocation)
      (s' : Db) : Type 0 where
    pub charge : Charge
    pub found : find_charge charge_id s.charges ≡ some charge
    pub is_open : is_cancelled charge.status ≡ false
    pub payer : Receipt
    pub payer_found : find (λ (q : Receipt). q.id == r.id) s.receipts ≡ some payer
    pub within_charge :
        num.to_cents amount + applied_to charge_id s.allocations
        ≤ pos_part (effective charge s.adjustments)
    pub within_receipt : num.to_cents amount + applied_from r.id s.allocations ≤ payer.amount
    pub posted : Db
    pub frame : Frame s posted
    pub a_id : a.id ≡ posted.next_id
    pub a_receipt : a.receipt_id ≡ r.id
    pub a_charge : a.charge_id ≡ charge_id
    pub a_amount : a.amount ≡ num.to_cents amount
    pub a_status : a.status ≡ applied
    pub state_eq : s' ≡ record posted {
      charges =
          set_status charge_id
            (next_status
              (effective charge s.adjustments)
              (applied_to charge_id (a ∷ s.allocations)))
            s.charges;
      allocations = a ∷ s.allocations;
      activities = s'.activities;
      next_id = posted.next_id + 1;
    }

  pub apply_new-Applied :
      (org actor prop : ℕ) (r : Receipt) (charge_id amount source_id : ℕ) (s s' : Db)
      {a : Allocation}
      → Ledger s
      → Linked s
      → apply_new num random_uuid today org actor prop r charge_id amount source_id s ≡ ok (a, s')
      → Applied org prop r charge_id amount s a s'
  unfolding apply_new create_row fresh_id record_activity
  apply_new-Applied org actor prop r charge_id amount source_id s s' {a} l k h =
      elim (Result-cases (charge_outstanding charge_id s)) [
        | inl (e, q) ↦ absurd (ground (arith, q))
        | inr ((o, s1), q) ↦
            let (same1, found, total, used, left) =
              charge_outstanding-eq-ok charge_id s {o = o} {s' = s1} q in
            elim (Result-cases (check_allocation org prop r o amount s1)) [
              | inl (e, p) ↦ absurd (ground (arith, q, p))
              | inr ((u, s2), p) ↦
                  let (same2, is_open, fund, fits, payer, payer_found, fits_receipt) =
                    check_allocation-eq-ok org prop r o amount s1 s2 p in
                  elim (Result-cases (
                    post_allocation num random_uuid today org actor prop r o.charge amount source_id
                      s2)) [
                        | inl (e, z) ↦ absurd (ground (arith, q, p, z))
                        | inr ((j, t), z) ↦
                            let frame =
                              post_allocation-Frame org actor prop r o.charge amount source_id s t
                                {j = j} l k (rw (same2, same1) at z) in
                            let left_open : o.outstanding
                                ≡ effective o.charge s.adjustments -ℤ pos o.applied_amount =
                              ground (arith, left, is_open, total) in
                            let row = new_row org actor prop r.id charge_id amount j.id t.next_id in
                            let made = record t {
                              allocations = row ∷ t.allocations;
                              next_id = t.next_id + 1;
                            } in
                            let update =
                              update_charge_status-eq-ok charge_id made {c = o.charge}
                                (rw frame.charges found) is_open in
                            let row_eq : a ≡ row = ground (arith, q, p, z, update) in
                            record {
                              charge = o.charge;
                              found = found;
                              is_open = is_open;
                              payer = payer;
                              payer_found = rw same1 at payer_found;
                              within_charge = rw used at (
                                  to_cents-within num amount o.applied_amount
                                    (effective o.charge s.adjustments) (rw left_open at fits));
                              within_receipt =
                                  to_cents-within num amount (applied_from r.id s.allocations)
                                    (pos payer.amount) (rw same1 at fits_receipt);
                              posted = t;
                              frame = frame;
                              a_id = rw row_eq refl;
                              a_receipt = rw row_eq refl;
                              a_charge = rw row_eq refl;
                              a_amount = rw row_eq refl;
                              a_status = rw row_eq refl;
                              state_eq = ground (
                                arith, q, p, z, update, row_eq, frame.charges, frame.adjustments,
                                frame.allocations,
                              );
                            }
                      ]
            ]
      ]
