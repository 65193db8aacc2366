-- ===== src/Levies/Effective.antt =====
-- `createAdjustment` of src/modules/financials/levies.service.ts moves the receivable account and the effective
-- amount of the charge by the same amount.
use waslproperty_backend.Prelude.{
  ℕ, zero, suc, ltb, true, ◌+◌, ◌≡◌, ◌<◌, refl, ap, inl, inr, ◌∙◌, false, ◌&&◌, Option, none, some,
  List, [], ◌∷◌, arith, find, All, find-eq-some, ◌==◌,
}
use waslproperty_backend.Prelude.Int.{ℤ, pos, negsuc, ◌+ℤ◌, ◌-ℤ◌}
use waslproperty_backend.Prelude.Result.{ok}
use waslproperty_backend.Store.{
  Db, Charge, Adjustment, Journal, JournalLine, levy_adjustment, lot_levy_receivable, levy_income,
}
use waslproperty_backend.Store.Money.{Numeric}
use waslproperty_backend.Posting.{or_default, stored_lines, find_by_key}
use waslproperty_backend.Posting.Ledger.{Ledger}
use waslproperty_backend.Posting.Posted.{repeated, written, post_in_transaction-Outcome}
use waslproperty_backend.PostingProfile.{resolve}
use waslproperty_backend.Receipts.{is_cancelled, adjusted}
use waslproperty_backend.Levies.Corrections.{
  find_levy_charge, minus, adjustment_lines, to_signed_cents, create_adjustment,
}
use waslproperty_backend.Levies.Reconciled.{line, stored-transfer_lines}
use waslproperty_backend.Levies.Adjusted.{create_adjustment-Adjusted, adjust_once-eq-ok}

-- The lines that an adjustment should have: an amount above zero debits the receivable account and
-- credits income, one below zero the other way round.
abbrev pub moving : Numeric → ℕ → ℕ → ℕ → ℤ → List JournalLine
moving num receivable income fund_id (pos zero) =
    line income fund_id 0 0 0 ∷ line receivable fund_id 0 0 1 ∷ []
moving num receivable income fund_id (pos (suc n)) =
    line receivable fund_id (num.to_cents (suc n)) 0 0
    ∷ line income fund_id 0 (num.to_cents (suc n)) 1
    ∷ []
moving num receivable income fund_id (negsuc n) =
    line income fund_id (num.to_cents (suc n)) 0 0
    ∷ line receivable fund_id 0 (num.to_cents (suc n)) 1
    ∷ []

-- A signed amount in cents.
abbrev pub signed_cents : Numeric → ℤ → ℤ
signed_cents num (pos n) = pos (num.to_cents n)
signed_cents num (negsuc n) = pos 0 -ℤ pos (num.to_cents (suc n))

minus-eq-sub : (n : ℕ) → minus n ≡ pos 0 -ℤ pos n
unfolding ◌-ℤ◌
minus-eq-sub zero = refl
minus-eq-sub (suc n) = ground arith

to_signed_cents-eq-signed :
    (num : Numeric) (today : ℕ) (amount : ℤ)
    → to_signed_cents num today amount ≡ signed_cents num amount
to_signed_cents-eq-signed num today (pos n) = refl
to_signed_cents-eq-signed num today (negsuc n) = minus-eq-sub (num.to_cents (suc n))

stored-adjustment_lines :
    (num : Numeric) (receivable income fund_id : ℕ) (amount : ℤ)
    → stored_lines num 0 (adjustment_lines receivable income fund_id amount)
      ≡ moving num receivable income fund_id amount
stored-adjustment_lines num receivable income fund_id (pos zero) =
    rw (num.exact 0) at (stored-transfer_lines num income receivable fund_id 0)
stored-adjustment_lines num receivable income fund_id (pos (suc n)) =
    let positive : ltb 0 (suc n) ≡ true = ground arith in
    let same : suc n + 0 ≡ suc n = omega arith in
    rw (positive, same) (stored-transfer_lines num receivable income fund_id (suc n))
stored-adjustment_lines num receivable income fund_id (negsuc n) =
    let same : 0 + suc n ≡ suc n = omega arith in
    rw same (stored-transfer_lines num income receivable fund_id (suc n))

adjusted_cons :
    (id : ℕ) (a : Adjustment) (as' : List Adjustment)
    → a.charge_id ≡ id
    → adjusted id (a ∷ as') ≡ a.amount +ℤ adjusted id as'
unfolding adjusted
adjusted_cons id a as' e = ground arith

find_levy_charge_id :
    (org prop id : ℕ) (cs : List Charge) {c : Charge}
    → find_levy_charge org prop id cs ≡ some c
    → c.id ≡ id
find_levy_charge_id org prop id cs {c} h =
    let (t, _) =
      find-eq-some (λ c. c.id == id && c.organisation_id == org && c.property_id == prop) cs h in
    ground arith

no_row_for :
    (k : ℕ) (as' : List Adjustment)
    → All (λ (a : Adjustment). a.journal_entry_id < k) as'
    → find (λ (a : Adjustment). a.journal_entry_id == k) as' ≡ none
no_row_for k [] h = refl
no_row_for k (a ∷ as') h = ground (arith, h.0, no_row_for k as' h.1)

module _ (num : Numeric) (today : ℕ) (random_uuid : ℕ → ℕ) (org actor prop : ℕ) where
  -- An adjustment under a key that was not posted yet: the charge was live, its effective amount changes
  -- by the signed amount, and one new journal moves the absolute amount between the accounts that the
  -- posting profile gives for the fund of the charge: an increase debits levies receivable and credits
  -- levy income, a decrease the other way round. It needs the invariant of the ledger, and that no
  -- adjustment points to a journal that does not exist yet.
  pub create_adjustment-effective :
      (charge_id : ℕ) (amount : ℤ) (key : Option ℕ) (s s' : Db) (r : Adjustment)
      → Ledger s
      → All (λ (a : Adjustment). a.journal_entry_id < s.next_id) s.adjustments
      → find_by_key prop levy_adjustment (or_default key (random_uuid s.next_id)) 1 s.journals
        ≡ none
      → create_adjustment num today random_uuid org actor prop charge_id amount key s ≡ ok (r, s')
      → (c : Charge) × (find_levy_charge org prop charge_id s.charges ≡ some c)
        × (is_cancelled c.status ≡ false)
        × (adjusted charge_id s'.adjustments
            ≡ signed_cents num amount +ℤ adjusted charge_id s.adjustments)
        × (receivable : ℕ) × (resolve prop lot_levy_receivable (some c.financial_fund_id) s
            ≡ ok (receivable, s))
        × (income : ℕ) × (resolve prop levy_income (some c.financial_fund_id) s ≡ ok (income, s))
        × (j : Journal) × (s'.journals ≡ j ∷ s.journals)
        × (j.lines ≡ moving num receivable income c.financial_fund_id amount)
  create_adjustment-effective charge_id amount key s s' r ledger fresh unposted h =
      let a =
        create_adjustment-Adjusted num today random_uuid org actor prop charge_id amount key s s' r
          h in
      let c = a.charge in
      let id = find_levy_charge_id org prop charge_id s.charges a.found in
      elim (post_in_transaction-Outcome num org actor prop _ s ledger.keyed a.posting) [
        | repeated f _ ↦ absurd (ground (arith, f, unposted))
        | written cf f p ↦
            let number : a.journal.id ≡ s.next_id = ap (λ (x : Journal). x.id) p.row_eq in
            let same : a.posted.adjustments ≡ s.adjustments =
              ap (λ (x : Db). x.adjustments) p.state_eq in
            let absent : find (λ (x : Adjustment). x.journal_entry_id == a.journal.id)
                  a.posted.adjustments
                ≡ none =
              rw (same, number) (no_row_for s.next_id s.adjustments fresh) in
            elim (adjust_once-eq-ok num today random_uuid org actor prop c amount a.journal.id
              a.posted s' r a.written_once) [
                | inl (some_row, _) ↦ absurd (cc (absent, some_row))
                | inr (_, of_charge, by_amount, _, state) ↦
                    let rows : s'.adjustments ≡ r ∷ s.adjustments =
                      ap (λ (x : Db). x.adjustments) state ∙ ap (◌∷◌ r) same in
                    (
                      c,
                      a.found,
                      a.live,
                      rw (rows, ← to_signed_cents-eq-signed num today amount, ← by_amount)
                          (adjusted_cons charge_id r s.adjustments (of_charge ∙ id)),
                      a.receivable,
                      a.resolved_receivable,
                      a.income,
                      a.resolved_income,
                      a.journal,
                      ap (λ (x : Db). x.journals) state ∙ ap (λ (x : Db). x.journals) p.state_eq,
                      ap (λ (x : Journal). x.lines) p.row_eq
                          ∙ stored-adjustment_lines num a.receivable a.income c.financial_fund_id
                              amount,
                    )
              ]
      ]
