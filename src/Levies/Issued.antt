-- ===== src/Levies/Issued.antt =====
-- What a successful `issue` of src/modules/financials/levies.service.ts has checked and written.
use waslproperty_backend.Prelude.{
  ℕ, ◌≡◌, ◌≢◌, inl, inr, ◌∙◌, Option, some, List, [], ◌∷◌, arith, filter, sum_by, All, Option-cases,
}
use waslproperty_backend.Prelude.Result.{Result, ok, Result-cases}
use waslproperty_backend.Prelude.Unique.{DistinctIds, DistinctIds-filter}
use waslproperty_backend.LevyAllocation.{Decimal}
use waslproperty_backend.Store.{
  Db, Configuration, Space, Journal, Installment, LevySchedule, lot_levy_receivable, levy_income,
  levy_installment_issued,
}
use waslproperty_backend.Store.Money.{Numeric}
use waslproperty_backend.Store.Tx.{bind-eq-ok, read-same}
use waslproperty_backend.Store.Rows.{record_activity-pure}
use waslproperty_backend.PostingProfile.{resolve}
use waslproperty_backend.Receipts.Effect.{resolve-same}
use waslproperty_backend.Levies.{Lot, lots_of, is_lot_of, update_schedule, get_eligible_lots, lift}
use waslproperty_backend.Levies.Split.{LotRow, allocate_installments}
use waslproperty_backend.Levies.Issue.{
  create_charges, mark_issued, refresh_schedule, post_installment, issue_pending,
}
use waslproperty_backend.Levies.Whole.{charged, DistinctLots}
use waslproperty_backend.Levies.Charged.{Created, create_charges-Created}
use waslproperty_backend.Levies.Tables.{with_refreshed, refresh_schedule-eq-ok}

-- The lots are those of the table, once each.
lots_of-others :
    (k : ℕ) (ps : List Space)
    → All (λ (p : Space). p.id ≢ k) ps
    → All (λ (l : Lot). l.id ≢ k) (lots_of ps)
unfolding lots_of
lots_of-others k [] h = tt
lots_of-others k (p ∷ ps) h = elim (Option-cases p.entitlement_value) [
  | inl e ↦ rw e (lots_of-others k ps h.1)
  | inr (v, e) ↦ rw e (h.0, lots_of-others k ps h.1)
]

lots_of-DistinctLots :
    (ps : List Space) → DistinctIds (λ (p : Space). p.id) ps → DistinctLots (lots_of ps)
unfolding lots_of
lots_of-DistinctLots [] d = tt
lots_of-DistinctLots (p ∷ ps) d = elim (Option-cases p.entitlement_value) [
  | inl e ↦ rw e (lots_of-DistinctLots ps d.1)
  | inr (v, e) ↦ rw e (lots_of-others p.id ps d.0, lots_of-DistinctLots ps d.1)
]

pub get_eligible_lots-eq-ok :
    (prop : ℕ) (s : Db) {lots : List Lot} {t : Db}
    → get_eligible_lots prop s ≡ ok (lots, t)
    → (t ≡ s) × (lots ≡ lots_of (filter (is_lot_of prop) s.spaces))
unfolding get_eligible_lots
get_eligible_lots-eq-ok prop s h = (ground arith, ground arith)

pub get_eligible_lots-DistinctLots :
    (prop : ℕ) (s : Db) {lots : List Lot} {t : Db}
    → DistinctIds (λ (p : Space). p.id) s.spaces
    → get_eligible_lots prop s ≡ ok (lots, t)
    → DistinctLots lots
get_eligible_lots-DistinctLots prop s d h = rw (get_eligible_lots-eq-ok prop s h).1 (
    lots_of-DistinctLots (filter (is_lot_of prop) s.spaces)
      (DistinctIds-filter (λ (p : Space). p.id) (is_lot_of prop) s.spaces d))

lift-eq-ok :
    {A : Type 0} (r : Result A) (s : Db) {a : A} {t : Db}
    → lift r s ≡ ok (a, t)
    → (t ≡ s) × (r ≡ ok a)
lift-eq-ok r s h = elim (Result-cases r) [
  | inl (e, q) ↦ absurd (ground (arith, q))
  | inr (a, q) ↦ (ground (arith, q), ground (arith, q))
]

module _ (dec : Decimal) (num : Numeric) (today org actor prop : ℕ) where
  -- The steps of the transaction for a pending instalment.
  pub record Struck (cf : Configuration) (l : LevySchedule) (i : Installment) (s : Db)
      (r : LevySchedule × Option (List LotRow)) (s' : Db) : Type 0 where
    pub lots : List Lot
    pub rows : List LotRow
    pub eligible : get_eligible_lots prop s ≡ ok (lots, s)
    pub split : allocate_installments dec (i ∷ []) lots ≡ ok rows
    pub charging : Db
    pub created : Created l i (sum_by charged rows) s charging
    pub receivable : ℕ
    pub income : ℕ
    pub resolved_receivable :
        resolve prop lot_levy_receivable (some l.financial_fund_id) s ≡ ok (receivable, s)
    pub resolved_income : resolve prop levy_income (some l.financial_fund_id) s ≡ ok (income, s)
    pub journal : Journal
    pub posted : Db
    pub posting :
        post_installment dec num today org actor prop cf l i receivable income charging
        ≡ ok (journal, posted)
    pub state_eq : s' ≡ record posted {
      schedules =
          update_schedule l.id
            (with_refreshed l i.id (mark_issued actor journal.id))
            posted.schedules;
      activities = s'.activities;
    }
    pub view_eq : r ≡ (with_refreshed l i.id (mark_issued actor journal.id) l, some rows)

  pub issue_pending-Struck :
      (cf : Configuration) (l : LevySchedule) (i : Installment) (s s' : Db)
      (r : LevySchedule × Option (List LotRow))
      → issue_pending dec num today org actor prop cf l i s ≡ ok (r, s')
      → Struck cf l i s r s'
  unfolding issue_pending
  issue_pending-Struck cf l i s s' r h =
      let (lots, t0, q, h0) = bind-eq-ok (get_eligible_lots prop) _ s h in
      let (rows, t1, p, h1) = bind-eq-ok (lift (allocate_installments dec (i ∷ []) lots)) _ t0 h0 in
      let (same1, split) = lift-eq-ok (allocate_installments dec (i ∷ []) lots) t0 p in
      let (receivable, t2, a, h2) =
        bind-eq-ok (resolve prop lot_levy_receivable (some l.financial_fund_id)) _ t1 h1 in
      let (income, t3, b, h3) =
        bind-eq-ok (resolve prop levy_income (some l.financial_fund_id)) _ t2 h2 in
      let (_, t4, c, h4) = bind-eq-ok (create_charges org prop l i rows) _ t3 h3 in
      let (j, t5, d, h5) =
        bind-eq-ok (post_installment dec num today org actor prop cf l i receivable income) _ t4
          h4 in
      let (l', t6, f, h6) = bind-eq-ok (refresh_schedule l i.id (mark_issued actor j.id)) _ t5 h5 in
      let same0 = (get_eligible_lots-eq-ok prop s q).0 in
      let at1 : t1 ≡ s = same1 ∙ same0 in
      let at2 : t2 ≡ s =
        resolve-same prop lot_levy_receivable (some l.financial_fund_id) t1 a ∙ at1 in
      let same : t3 ≡ s = resolve-same prop levy_income (some l.financial_fund_id) t2 b ∙ at2 in
      let (view, state) = refresh_schedule-eq-ok l i.id (mark_issued actor j.id) t5 f in
      let (result, logged) =
        record_activity-pure org prop actor levy_installment_issued i.id (l', some rows) t6 h6 in
      record {
        lots = lots;
        rows = rows;
        eligible = rw same0 at q;
        split = split;
        charging = t4;
        created = create_charges-Created org prop l i rows s t4 (rw same at c);
        receivable = receivable;
        income = income;
        resolved_receivable =
            read-same (resolve prop lot_levy_receivable (some l.financial_fund_id)) at1 at2 a;
        resolved_income =
            read-same (resolve prop levy_income (some l.financial_fund_id)) at2 same b;
        journal = j;
        posted = t5;
        posting = d;
        state_eq = rw state at logged;
        view_eq = rw view at result;
      }
