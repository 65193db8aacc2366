-- ===== src/Receipts/Applied.antt =====
-- What a successful new allocation of src/modules/financials/receipts.service.ts has checked and written.
use waslproperty_backend.Prelude.{
  ℕ, ◌+◌, ◌*◌, ◌≤◌, ◌≡◌, ◌≢◌, refl, inl, inr, false, some, arith, find, Option-cases, ◌==◌,
  if◌then◌else◌,
}
use waslproperty_backend.Prelude.Int.{ℤ, pos, negsuc, pos_part, neg_part, ◌-ℤ◌, -ℤ_parts}
use waslproperty_backend.Prelude.Result.{ok, Result-cases}
use waslproperty_backend.Store.{Db, Journal, Receipt, reversal}
use waslproperty_backend.Store.Money.{per_cent, Numeric}
use waslproperty_backend.Store.Tx.{after}
use waslproperty_backend.Posting.{PostCommand, post_in_transaction}
use waslproperty_backend.Posting.Ledger.{Ledger, post_in_transaction-Ledger}
use waslproperty_backend.Posting.Reversal.{Linked}
use waslproperty_backend.Posting.Posted.{repeated, written, post_in_transaction-Outcome}
use waslproperty_backend.Receipts.{
  is_cancelled, applied_to, applied_from, effective, Outstanding, find_charge, charge_outstanding,
  receipt_unapplied, exceeds,
}
use waslproperty_backend.Receipts.Allocate.{check_allocation}

-- An amount that does not exceed what is left stays within the whole after rounding.
pub to_cents-within :
    (num : Numeric) (amount used : ℕ) (x : ℤ)
    → exceeds amount (x -ℤ pos used) ≡ false
    → num.to_cents amount + used ≤ pos_part x
to_cents-within num amount used x h = go (x -ℤ pos used) h (-ℤ_parts x (pos used))
  where
    go :
        (d : ℤ)
        → exceeds amount d ≡ false
        → pos_part d + neg_part x + used ≡ neg_part d + pos_part x + 0
        → num.to_cents amount + used ≤ pos_part x
    go (pos limit) e parts =
        let below : num.to_cents amount ≤ limit =
          rw (num.exact limit) at (num.mono amount (limit * per_cent) (ground arith)) in
        omega arith
    go (negsuc n) e parts = cc

-- What is left of a charge, after a successful look.
pub charge_outstanding-eq-ok :
    (id : ℕ) (s : Db) {o : Outstanding} {s' : Db}
    → charge_outstanding id s ≡ ok (o, s')
    → (s' ≡ s)
      × (find_charge id s.charges ≡ some o.charge)
      × (o.effective_amount ≡ effective o.charge s.adjustments)
      × (o.applied_amount ≡ applied_to id s.allocations)
      × (o.outstanding ≡ (
          if is_cancelled o.charge.status
          then pos 0
          else o.effective_amount -ℤ pos o.applied_amount))
unfolding charge_outstanding
charge_outstanding-eq-ok id s {o} {s'} h = elim (Option-cases (find_charge id s.charges)) [
  | inl e ↦ absurd (ground (arith, e))
  | inr (c, e) ↦ (
    ground (arith, e),
    ground (arith, e),
    ground (arith, e),
    ground (arith, e),
    ground (arith, e),
  )
]

pub receipt_unapplied-eq-ok :
    (id : ℕ) (s : Db) {x : ℤ} {s' : Db}
    → receipt_unapplied id s ≡ ok (x, s')
    → (s' ≡ s)
      × (r : Receipt) × (find (λ (q : Receipt). q.id == id) s.receipts ≡ some r)
      × (x ≡ pos r.amount -ℤ pos (applied_from id s.allocations))
unfolding receipt_unapplied
receipt_unapplied-eq-ok id s {x} {s'} h =
    elim (Option-cases (find (λ (q : Receipt). q.id == id) s.receipts)) [
      | inl e ↦ absurd (ground (arith, e))
      | inr (r, e) ↦ (ground (arith, e), r, e, ground (arith, e))
    ]

pub check_allocation-eq-ok :
    (org prop : ℕ) (r : Receipt) (o : Outstanding) (amount : ℕ) (s s' : Db)
    → check_allocation org prop r o amount s ≡ ok (tt, s')
    → (s' ≡ s)
      × (is_cancelled o.charge.status ≡ false)
      × (o.charge.financial_fund_id ≡ r.financial_fund_id)
      × (exceeds amount o.outstanding ≡ false)
      × (q : Receipt) × (find (λ (q : Receipt). q.id == r.id) s.receipts ≡ some q)
      × (exceeds amount (pos q.amount -ℤ pos (applied_from r.id s.allocations)) ≡ false)
unfolding check_allocation
check_allocation-eq-ok org prop r o amount s s' h = elim (Result-cases (receipt_unapplied r.id s)) [
  | inl (e, q) ↦ absurd (ground (arith, q))
  | inr ((x, t), q) ↦
      let (same, row, f, eq) = receipt_unapplied-eq-ok r.id s {x = x} {s' = t} q in
      (
        ground (arith, q, same),
        ground (arith, q),
        ground (arith, q),
        ground (arith, q),
        row,
        f,
        ground (arith, q, eq),
      )
]

-- The tables that a posting leaves alone.
pub record Frame (s t : Db) : Type 0 where
  pub charges : t.charges ≡ s.charges
  pub adjustments : t.adjustments ≡ s.adjustments
  pub receipts : t.receipts ≡ s.receipts
  pub allocations : t.allocations ≡ s.allocations
  pub schedules : t.schedules ≡ s.schedules
  pub later : s.next_id ≤ t.next_id
  pub ledger : Ledger t
  pub linked : Linked t

pub post-Frame :
    (num : Numeric) (org actor prop : ℕ) (c : PostCommand) (s t : Db) {j : Journal}
    → Ledger s
    → Linked s
    → c.source_type ≢ reversal
    → post_in_transaction num org actor prop c s ≡ ok (j, t)
    → Frame s t
post-Frame num org actor prop c s t {j} l k other h =
    let kept : Ledger t = rw (h, after) at (post_in_transaction-Ledger num org actor prop c s l) in
    elim (post_in_transaction-Outcome num org actor prop c s l.keyed h) [
      | repeated f same ↦ rw same (record {
        charges = refl;
        adjustments = refl;
        receipts = refl;
        allocations = refl;
        schedules = refl;
        later = omega arith;
        ledger = l;
        linked = k;
      })
      | written cf f p ↦ rw p.state_eq (record {
        charges = refl;
        adjustments = refl;
        receipts = refl;
        allocations = refl;
        schedules = refl;
        later = omega arith;
        ledger = rw p.state_eq at kept;
        linked = (rw p.row_eq (record { link = λ e. absurd (other e); source = λ id e. cc e }), k);
      })
    ]
