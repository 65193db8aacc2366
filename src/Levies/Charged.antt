-- ===== src/Levies/Charged.antt =====
-- What the loop over the rows in `issue` of src/modules/financials/levies.service.ts writes.
use waslproperty_backend.Prelude.{
  ℕ, ◌+◌, ◌≤◌, ◌<◌, ◌≡◌, ◌≢◌, refl, ap, inl, inr, false, List, [], ◌∷◌, ◌++◌, arith, length, sum_by,
  All, All-implies, All-append, length-append, sum_by-append, Bool-cases, ◌==◌,
}
use waslproperty_backend.Prelude.Result.{ok, Result-cases}
use waslproperty_backend.Prelude.Unique.{DistinctIds}
use waslproperty_backend.Store.{Db, Charge, issued, Installment, LevySchedule}
use waslproperty_backend.Store.Rows.{fresh_id}
use waslproperty_backend.Levies.Split.{Share, LotRow}
use waslproperty_backend.Levies.Issue.{create_charge, charge_row, create_charges}
use waslproperty_backend.Levies.Whole.{charged}
use mathlib.Core.List.{append_assoc}

-- A charge of the instalment, new since `low` and before `high`.
pub record IsChargeOf (l : LevySchedule) (i : Installment) (low high : ℕ) (c : Charge)
    : Type 0 where
  pub schedule : c.levy_schedule_id ≡ l.id
  pub installment : c.levy_installment_id ≡ i.id
  pub fund : c.financial_fund_id ≡ l.financial_fund_id
  pub unpaid : c.status ≡ issued
  pub positive : 0 < c.amount
  pub above : low ≤ c.id
  pub below : c.id < high

pub record Created (l : LevySchedule) (i : Installment) (total : ℕ) (s s' : Db) : Type 0 where
  pub rows : List Charge
  pub state_eq : s' ≡ record s { charges = rows ++ s.charges; next_id = s.next_id + length rows }
  pub sum : sum_by (λ (c : Charge). c.amount) rows ≡ total
  pub each : All (IsChargeOf l i s.next_id (s.next_id + length rows)) rows
  pub distinct : DistinctIds (λ (c : Charge). c.id) rows

widen :
    (l : LevySchedule) (i : Installment) (a b c d : ℕ)
    → a ≤ c
    → d ≤ b
    → (x : Charge) → IsChargeOf l i c d x
    → IsChargeOf l i a b x
widen l i a b c d p q x h =
    let above = h.above in
    let below = h.below in
    record {
      schedule = h.schedule;
      installment = h.installment;
      fund = h.fund;
      unpaid = h.unpaid;
      positive = h.positive;
      above = omega arith;
      below = omega arith;
    }

pub DistinctIds-append :
    (xs ys : List Charge)
    → All (λ (x : Charge). All (λ (y : Charge). y.id ≢ x.id) ys) xs
    → DistinctIds (λ (c : Charge). c.id) xs
    → DistinctIds (λ (c : Charge). c.id) ys
    → DistinctIds (λ (c : Charge). c.id) (xs ++ ys)
DistinctIds-append [] ys h d e = e
DistinctIds-append (x ∷ xs) ys h d e =
    (All-append (λ y. y.id ≢ x.id) xs ys d.0 h.0, DistinctIds-append xs ys h.1 d.1 e)

module _ (org prop : ℕ) (l : LevySchedule) (i : Installment) where
  charge_row-Created :
      (r : LotRow) (s s' : Db)
      → charge_row org prop l i r s ≡ ok (tt, s')
      → Created l i (charged r) s s'
  unfolding charge_row create_charge fresh_id
  charge_row-Created r s s' h = go r.installments refl
    where
      nothing : s ≡ s' → charged r ≡ 0 → Created l i (charged r) s s'
      nothing same empty_sum = record {
        rows = [];
        state_eq = ground (arith, same);
        sum = ground (arith, empty_sum);
        each = tt;
        distinct = tt;
      }

      one :
          (x : Share) (xs : List Share)
          → r.installments ≡ x ∷ xs
          → (x.amount == 0) ≡ false
          → Created l i (charged r) s s'
      one x xs e z =
          let row : Charge = record {
            id = s.next_id;
            organisation_id = org;
            property_id = prop;
            levy_schedule_id = l.id;
            levy_installment_id = i.id;
            space_id = r.space_id;
            financial_fund_id = l.financial_fund_id;
            amount = x.amount;
            status = issued;
            due_date = i.due_date;
            sort_order = i.sort_order;
          } in
          record {
            rows = row ∷ [];
            state_eq = ground (arith, e, z);
            sum = ground (arith, e);
            each = (
              record {
                schedule = refl;
                installment = refl;
                fund = refl;
                unpaid = refl;
                positive = ground arith;
                above = omega arith;
                below = omega arith;
              },
              tt,
            );
            distinct = (tt, tt);
          }

      go : (xs : List Share) → r.installments ≡ xs → Created l i (charged r) s s'
      go [] e = nothing (ground (arith, e)) (ground (arith, e))
      go (x ∷ xs) e = elim (Bool-cases (x.amount == 0)) [
        | inl z ↦ nothing (ground (arith, e, z)) (ground (arith, e, z))
        | inr z ↦ one x xs e z
      ]

  pub create_charges-Created :
      (rs : List LotRow) (s s' : Db)
      → create_charges org prop l i rs s ≡ ok (tt, s')
      → Created l i (sum_by charged rs) s s'
  unfolding create_charges
  create_charges-Created [] s s' h =
      let same : s ≡ s' = ground arith in
      record { rows = []; state_eq = ground (arith, same); sum = refl; each = tt; distinct = tt }
  create_charges-Created (r ∷ rs) s s' h = elim (Result-cases (charge_row org prop l i r s)) [
    | inl (e, q) ↦ absurd (ground (arith, q))
    | inr ((_, t), q) ↦
        let a = charge_row-Created r s t q in
        let b = create_charges-Created rs t s' (ground (arith, q)) in
        let next : t.next_id ≡ s.next_id + length a.rows = ap (λ (x : Db). x.next_id) a.state_eq in
        let count : length (b.rows ++ a.rows) ≡ length b.rows + length a.rows =
          length-append b.rows a.rows in
        record {
          rows = b.rows ++ a.rows;
          state_eq =
              ground (arith, append_assoc b.rows a.rows s.charges, count, a.state_eq, b.state_eq);
          sum =
              rw (sum_by-append (λ (c : Charge). c.amount) b.rows a.rows)
                (omega (arith, a.sum, b.sum));
          each =
              All-append (IsChargeOf l i s.next_id (s.next_id + length (b.rows ++ a.rows))) b.rows
                a.rows
                (All-implies
                  (widen l i s.next_id (s.next_id + length (b.rows ++ a.rows)) t.next_id
                    (t.next_id + length b.rows) (omega arith) (omega arith))
                  b.rows b.each)
                (All-implies
                  (widen l i s.next_id (s.next_id + length (b.rows ++ a.rows)) s.next_id
                    (s.next_id + length a.rows) (omega arith) (omega arith))
                  a.rows a.each);
          distinct =
              DistinctIds-append b.rows a.rows
                (All-implies
                  (λ x hx.
                    All-implies (λ y hy. let low = hx.above in let high = hy.below in omega arith)
                      a.rows a.each)
                  b.rows b.each)
                b.distinct a.distinct;
        }
  ]
