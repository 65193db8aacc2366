-- ===== src/Levies/Adjusted.antt =====
-- What a successful `createAdjustment` of src/modules/financials/levies.service.ts has checked and written.
use waslproperty_backend.Prelude.{
  ℕ, ◌+◌, ◌≡◌, ◌≤◌, refl, sym, ap, ◌⊎◌, inl, inr, ◌∙◌, false, Option, none, some, ◌∷◌, arith, find,
  Option-cases, ◌==◌,
}
use waslproperty_backend.Prelude.Int.{ℤ}
use waslproperty_backend.Prelude.Result.{ok, not_found, charge as charge_missing}
use waslproperty_backend.Store.{
  Db, Configuration, Charge, Adjustment, Journal, levy_adjustment, lot_levy_receivable, levy_income,
}
use waslproperty_backend.Store.Money.{Numeric}
use waslproperty_backend.Store.Tx.{
  throw_if, or_throw, bind-eq-ok, throw_if-eq-ok, or_throw-eq-ok, run-same, read-same,
}
use waslproperty_backend.Store.Rows.{
  get_owned_property, get_configuration, fresh_id, record_activity, get_owned_property-same,
  get_configuration-same,
}
use waslproperty_backend.Posting.{PostCommand, or_default, post_in_transaction}
use waslproperty_backend.Posting.Ledger.{Ledger, Ledger-same}
use waslproperty_backend.Posting.Reversal.{Linked}
use waslproperty_backend.PostingProfile.{resolve}
use waslproperty_backend.Receipts.{is_cancelled, transfer_command}
use waslproperty_backend.Receipts.Effect.{resolve-same}
use waslproperty_backend.Receipts.Applied.{post-Frame}
use waslproperty_backend.Levies.Corrections.{
  find_levy_charge, adjustment_lines, to_signed_cents, create_adjustment_row, adjust_once,
  create_adjustment,
}

module _ (num : Numeric) (today : ℕ) (random_uuid : ℕ → ℕ) (org actor prop : ℕ) where
  abbrev pub adjustment_command : Configuration → ℕ → ℕ → ℕ → Charge → ℤ → PostCommand
  adjustment_command cf receivable income source_id c amount =
      transfer_command today cf.currency_code levy_adjustment source_id
        (adjustment_lines receivable income c.financial_fund_id amount)

  pub record Adjusted (charge_id : ℕ) (amount : ℤ) (key : Option ℕ) (s : Db) (r : Adjustment)
      (s' : Db) : Type 0 where
    pub cf : Configuration
    pub charge : Charge
    pub found : find_levy_charge org prop charge_id s.charges ≡ some charge
    pub live : is_cancelled charge.status ≡ false
    pub receivable : ℕ
    pub income : ℕ
    pub resolved_receivable :
        resolve prop lot_levy_receivable (some charge.financial_fund_id) s ≡ ok (receivable, s)
    pub resolved_income :
        resolve prop levy_income (some charge.financial_fund_id) s ≡ ok (income, s)
    pub journal : Journal
    pub posted : Db
    pub posting :
        post_in_transaction num org actor prop
          (adjustment_command cf receivable income
            (or_default key (random_uuid s.next_id))
            charge
            amount)
          s
        ≡ ok (journal, posted)
    pub written_once :
        adjust_once num today org actor prop charge amount journal.id posted ≡ ok (r, s')

  pub create_adjustment-Adjusted :
      (charge_id : ℕ) (amount : ℤ) (key : Option ℕ) (s s' : Db) (r : Adjustment)
      → create_adjustment num today random_uuid org actor prop charge_id amount key s ≡ ok (r, s')
      → Adjusted charge_id amount key s r s'
  unfolding create_adjustment
  create_adjustment-Adjusted charge_id amount key s s' r h =
      let (_, t0, p0, h0) = bind-eq-ok (get_owned_property org prop) _ s h in
      let (cf, t1, p1, h1) = bind-eq-ok (get_configuration prop) _ t0 h0 in
      let row = find_levy_charge org prop charge_id t1.charges in
      let (c, t2, p2, h2) = bind-eq-ok (or_throw row (not_found charge_missing)) _ t1 h1 in
      let (_, t3, p3, h3) = bind-eq-ok (throw_if (is_cancelled c.status) _) _ t2 h2 in
      let (receivable, t4, p4, h4) =
        bind-eq-ok (resolve prop lot_levy_receivable (some c.financial_fund_id)) _ t3 h3 in
      let (income, t5, p5, h5) =
        bind-eq-ok (resolve prop levy_income (some c.financial_fund_id)) _ t4 h4 in
      let command = λ (u : Db).
        adjustment_command cf receivable income (or_default key (random_uuid u.next_id)) c amount in
      let (j, t6, p6, h6) =
        bind-eq-ok (post_in_transaction num org actor prop (command t5)) _ t5 h5 in
      let (found, same2) = or_throw-eq-ok row _ t1 p2 in
      let (live, same3) = throw_if-eq-ok (is_cancelled c.status) _ t2 p3 in
      let same1 : t1 ≡ s =
        get_configuration-same prop t0 p1 ∙ get_owned_property-same org prop s p0 in
      let at3 : t3 ≡ s = same3 ∙ same2 ∙ same1 in
      let at4 : t4 ≡ s =
        resolve-same prop lot_levy_receivable (some c.financial_fund_id) t3 p4 ∙ at3 in
      let same5 : t5 ≡ s = resolve-same prop levy_income (some c.financial_fund_id) t4 p5 ∙ at4 in
      record {
        cf = cf;
        charge = c;
        found = ap (λ (u : Db). find_levy_charge org prop charge_id u.charges) (sym same1) ∙ found;
        live = live;
        receivable = receivable;
        income = income;
        resolved_receivable =
            read-same (resolve prop lot_levy_receivable (some c.financial_fund_id)) at3 at4 p4;
        resolved_income =
            read-same (resolve prop levy_income (some c.financial_fund_id)) at4 same5 p5;
        journal = j;
        posted = t6;
        posting =
            run-same (λ u. post_in_transaction num org actor prop (command u) u) {r = (j, t6)} same5
              p6;
        written_once = h6;
      }

  -- The end of the request writes one row at most, for the journal.
  pub adjust_once-eq-ok :
      (c : Charge) (amount : ℤ) (journal_id : ℕ) (s s' : Db) (r : Adjustment)
      → adjust_once num today org actor prop c amount journal_id s ≡ ok (r, s')
      → ((find (λ (a : Adjustment). a.journal_entry_id == journal_id) s.adjustments ≡ some r)
          × (s' ≡ s))
        ⊎ ((find (λ (a : Adjustment). a.journal_entry_id == journal_id) s.adjustments ≡ none)
            × (r.charge_id ≡ c.id)
            × (r.amount ≡ to_signed_cents num today amount)
            × (r.journal_entry_id ≡ journal_id)
            × (s' ≡ record s {
              adjustments = r ∷ s.adjustments;
              activities = s'.activities;
              next_id = s.next_id + 1;
            }))
  unfolding adjust_once create_adjustment_row fresh_id record_activity
  adjust_once-eq-ok c amount journal_id s s' r h =
      elim (Option-cases
        (find (λ (a : Adjustment). a.journal_entry_id == journal_id) s.adjustments)) [
          | inr (a, e) ↦ inl (ground (arith, e), ground (arith, e))
          | inl e ↦
              inr (e, ground (arith, e), ground (arith, e), ground (arith, e), ground (arith, e))
        ]

  -- An adjustment keeps the ledger and leaves the schedules alone.
  pub create_adjustment-Kept :
      (charge_id : ℕ) (amount : ℤ) (key : Option ℕ) (s s' : Db) (r : Adjustment)
      → Ledger s
      → Linked s
      → create_adjustment num today random_uuid org actor prop charge_id amount key s ≡ ok (r, s')
      → Ledger s' × Linked s' × (s'.schedules ≡ s.schedules) × (s.next_id ≤ s'.next_id)
  create_adjustment-Kept charge_id amount key s s' r ledger linked h =
      let a = create_adjustment-Adjusted charge_id amount key s s' r h in
      let f =
        post-Frame num org actor prop _ s a.posted {j = a.journal} ledger linked (λ e. cc e)
          a.posting in
      let later = f.later in
      elim (adjust_once-eq-ok a.charge amount a.journal.id a.posted s' r a.written_once) [
        | inl (_, same) ↦ rw same (f.ledger, f.linked, f.schedules, later)
        | inr (_, _, _, _, state) ↦ rw state (
          Ledger-same a.posted _ f.ledger refl refl refl (omega arith),
          f.linked,
          f.schedules,
          omega arith,
        )
      ]
