-- ===== src/Posting/Balance.antt =====
-- The journals that src/modules/financials/ledger-posting.service.ts writes balance.
use waslproperty_backend.Prelude.{
  ℕ, ◌+◌, ◌*◌, ◌/◌, ◌%◌, ◌≡◌, refl, false, none, List, [], ◌∷◌, arith, sum_by, All,
}
use waslproperty_backend.Prelude.Buckets.{debits_of, credits_of}
use waslproperty_backend.Prelude.Result.{ok}
use waslproperty_backend.Store.{Db, JournalLine, Journal}
use waslproperty_backend.Store.Money.{per_cent, Numeric}
use waslproperty_backend.Posting.{
  LineInput, PostCommand, or_default, find_by_key, stored_lines, post,
}
use waslproperty_backend.Posting.Ledger.{Ledger}
use waslproperty_backend.Posting.Posted.{repeated, written, post_in_transaction-Outcome, post-eq-ok}

-- A line's amounts are whole numbers of cents.
abbrev pub IsWhole : LineInput → Type 0
IsWhole l = (l.debit % per_cent ≡ 0) × (l.credit % per_cent ≡ 0)

abbrev pub total_debit : List JournalLine → ℕ
total_debit = sum_by (λ l. l.debit)

abbrev pub total_credit : List JournalLine → ℕ
total_credit = sum_by (λ l. l.credit)

-- The debits and the credits of a fund's lines.
abbrev pub fund_debit : ℕ → List JournalLine → ℕ
fund_debit = debits_of (λ l. l.financial_fund_id) (λ l. l.debit) (λ l. l.credit)

abbrev pub fund_credit : ℕ → List JournalLine → ℕ
fund_credit = credits_of (λ l. l.financial_fund_id) (λ l. l.debit) (λ l. l.credit)

module _ (num : Numeric) where
  to_cents_whole : (a : ℕ) → a % per_cent ≡ 0 → num.to_cents a * per_cent ≡ a
  to_cents_whole a h =
      let whole : a / per_cent * per_cent ≡ a = omega arith in
      rw (← whole, num.exact (a / per_cent)) refl

  sum_stored :
      (index : ℕ) (ls : List LineInput)
      → All IsWhole ls
      → (total_debit (stored_lines num index ls) * per_cent ≡ sum_by (λ l. l.debit) ls)
        × (total_credit (stored_lines num index ls) * per_cent ≡ sum_by (λ l. l.credit) ls)
  unfolding stored_lines
  sum_stored index [] w = (omega arith, omega arith)
  sum_stored index (l ∷ ls) w =
      let ih = sum_stored (index + 1) ls w.1 in
      (
        omega (arith, ih.0, to_cents_whole l.debit w.0.0),
        omega (arith, ih.1, to_cents_whole l.credit w.0.1),
      )

  fund_stored :
      (fund index : ℕ) (ls : List LineInput)
      → All IsWhole ls
      → (fund_debit fund (stored_lines num index ls) * per_cent
          ≡ debits_of
              (λ (l : LineInput). l.financial_fund_id)
              (λ l. l.debit)
              (λ l. l.credit)
              fund
              ls)
        × (fund_credit fund (stored_lines num index ls) * per_cent
            ≡ credits_of
                (λ (l : LineInput). l.financial_fund_id)
                (λ l. l.debit)
                (λ l. l.credit)
                fund
                ls)
  unfolding stored_lines
  fund_stored fund index [] w = (omega arith, omega arith)
  fund_stored fund index (l ∷ ls) w =
      let ih = fund_stored fund (index + 1) ls w.1 in
      (
        ground (arith, ih.0, to_cents_whole l.debit w.0.0),
        ground (arith, ih.1, to_cents_whole l.credit w.0.1),
      )

-- A successful posting of whole cents under a source event that has no journal yet writes a journal
-- whose debits equal its credits, in all and, unless the command is marked as a transfer between funds,
-- within each fund.
pub post_balanced :
    (num : Numeric) (org actor prop : ℕ) (c : PostCommand) (s s' : Db) {row : Journal}
    → Ledger s
    → All IsWhole c.lines
    → find_by_key prop c.source_type c.source_id (or_default c.source_event_version 1) s.journals
      ≡ none
    → post num org actor prop c s ≡ ok (row, s')
    → (total_debit row.lines ≡ total_credit row.lines)
      × (c.allow_cross_fund ≡ false
          → (fund : ℕ) → fund_debit fund row.lines ≡ fund_credit fund row.lines)
post_balanced num org actor prop c s s' l w absent h =
    elim (post_in_transaction-Outcome num org actor prop c s l.keyed
      (post-eq-ok num org actor prop c s h)) [
        | repeated f same ↦ absurd (cc (f, absent))
        | written cf f p ↦
            let sums = sum_stored num 0 c.lines w in
            rw p.row_eq (
              omega (arith, sums.0, sums.1, p.balanced.totals),
              λ one_fund fund.
                  let sums = fund_stored num fund 0 c.lines w in
                  omega (arith, sums.0, sums.1, p.balanced.funds one_fund fund),
            )
      ]
