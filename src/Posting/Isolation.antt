-- ===== src/Posting/Isolation.antt =====
-- The journals that src/modules/financials/ledger-posting.service.ts writes stay within their property.
use waslproperty_backend.Periods.{covers, find_covering_period}
use waslproperty_backend.Prelude.{
  ℕ, ◌≤◌, ◌&&◌, some, arith, find-eq-some, ◌==◌, ◌+◌, ◌≡◌, refl, true, none, List, [], ◌∷◌, In, All,
}
use waslproperty_backend.Prelude.Result.{ok}
use waslproperty_backend.Store.{Db, Account, Fund, Period, opened, JournalLine, Journal}
use waslproperty_backend.Store.Money.{Numeric}
use waslproperty_backend.Posting.{
  LineInput, PostCommand, or_default, find_by_key, stored_lines, post,
}
use waslproperty_backend.Posting.Checks.{Referenced}
use waslproperty_backend.Posting.Ledger.{Ledger}
use waslproperty_backend.Posting.Posted.{repeated, written, post_in_transaction-Outcome, post-eq-ok}

-- The account of a line is an active account of the property, and its fund is a fund of it.
pub record OwnedLine (org prop : ℕ) (s : Db) (l : JournalLine) : Type 0 where
  pub account :
      (a : Account) × In a s.accounts
      × (a.id ≡ l.account_id)
      × (a.organisation_id ≡ org)
      × (a.property_id ≡ prop)
      × (a.is_active ≡ true)
  pub fund :
      (f : Fund) × In f s.funds
      × (f.id ≡ l.financial_fund_id)
      × (f.organisation_id ≡ org)
      × (f.property_id ≡ prop)

stored_lines-OwnedLine :
    (num : Numeric) (org prop index : ℕ) (s : Db) (ls : List LineInput)
    → All (Referenced org prop s) ls
    → All (OwnedLine org prop s) (stored_lines num index ls)
unfolding stored_lines
stored_lines-OwnedLine num org prop index s [] h = tt
stored_lines-OwnedLine num org prop index s (l ∷ ls) h = (
  record { account = h.0.account; fund = h.0.fund },
  stored_lines-OwnedLine num org prop (index + 1) s ls h.1,
)

covering_period :
    (prop date : ℕ) (s : Db) (p : Period)
    → find_covering_period prop date s.periods ≡ some p
    → In p s.periods × (p.property_id ≡ prop) × (p.start_date ≤ date) × (date ≤ p.end_date)
unfolding find_covering_period
covering_period prop date s p h =
    let (t, i) = find-eq-some (λ p. p.property_id == prop && covers p date) s.periods h in
    (i, ground arith, ground arith, ground arith)

-- A successful posting under a source event that has no journal yet writes a journal of this
-- organisation and property, in a period of the table that is of this property, covers the date and is
-- open, and each of its lines is on an active account and a fund of the same property.
pub post-OwnedLine :
    (num : Numeric) (org actor prop : ℕ) (c : PostCommand) (s s' : Db) {row : Journal}
    → Ledger s
    → find_by_key prop c.source_type c.source_id (or_default c.source_event_version 1) s.journals
      ≡ none
    → post num org actor prop c s ≡ ok (row, s')
    → (row.organisation_id ≡ org)
      × (row.property_id ≡ prop)
      × ((p : Period) × In p s.periods
          × (p.id ≡ row.period_id)
          × (p.property_id ≡ prop)
          × (p.start_date ≤ c.effective_date)
          × (c.effective_date ≤ p.end_date)
          × (p.status ≡ opened))
      × All (OwnedLine org prop s) row.lines
post-OwnedLine num org actor prop c s s' l absent h =
    elim (post_in_transaction-Outcome num org actor prop c s l.keyed
      (post-eq-ok num org actor prop c s h)) [
        | repeated f same ↦ absurd (cc (f, absent))
        | written cf f p ↦
            let covered = covering_period prop c.effective_date s p.period p.covering in
            rw p.row_eq (
              refl,
              refl,
              (p.period, covered.0, refl, covered.1, covered.2, covered.3, p.is_open),
              stored_lines-OwnedLine num org prop 0 s c.lines p.references,
            )
      ]
