-- ===== src/Posting/TrialTotals.antt =====
-- The totals of the trial balance in src/modules/financials/ledger-posting.service.ts.
use waslproperty_backend.Prelude.{
  ℕ, ◌+◌, ◌≡◌, refl, ap, ◌⊎◌, Option, none, some, List, [], ◌∷◌, map, arith, filter, sum_by,
  sum_by-append, All, ◌==◌, if◌then◌else◌,
}
use waslproperty_backend.Prelude.Sort.{sort, sum_by-sort, All-sort}
use waslproperty_backend.Prelude.Buckets.{Bucket, group, sum_by-group}
use waslproperty_backend.Prelude.Result.{ok}
use waslproperty_backend.Store.{Db, Account, JournalLine, Journal}
use waslproperty_backend.Store.Rows.{get_owned_property}
use waslproperty_backend.Posting.TrialBalance.{
  debit_side, credit_side, TrialRow, admits, lines_until, trial_row, by_code, trial_balance,
}
use waslproperty_backend.Posting.Balance.{total_debit, total_credit, fund_debit, fund_credit}

-- The journal balances as far as the query looks: in all, or on the lines of one fund.
abbrev pub BalancedFor : Option ℕ → Journal → Type 0
BalancedFor none j = total_debit j.lines ≡ total_credit j.lines
BalancedFor (some fund) j = fund_debit fund j.lines ≡ fund_credit fund j.lines

sum_admitted_all :
    (ls : List JournalLine) (f : JournalLine → ℕ)
    → sum_by f (filter (λ l. admits none l.financial_fund_id) ls) ≡ sum_by f ls
sum_admitted_all [] f = refl
sum_admitted_all (l ∷ ls) f = ap (◌+◌ (f l)) (sum_admitted_all ls f)

sum_admitted_fund :
    (fund : ℕ) (ls : List JournalLine) (f : JournalLine → ℕ)
    → sum_by f (filter (λ l. admits (some fund) l.financial_fund_id) ls)
      ≡ sum_by (λ l. if l.financial_fund_id == fund then f l else 0) ls
sum_admitted_fund fund [] f = refl
sum_admitted_fund fund (l ∷ ls) f = ground (arith, sum_admitted_fund fund ls f)

admitted_balanced :
    (fund : Option ℕ) (j : Journal)
    → BalancedFor fund j
    → total_debit (filter (λ l. admits fund l.financial_fund_id) j.lines)
      ≡ total_credit (filter (λ l. admits fund l.financial_fund_id) j.lines)
admitted_balanced none j h =
    omega (arith, sum_admitted_all j.lines (λ l. l.debit), sum_admitted_all j.lines (λ l. l.credit))
admitted_balanced (some fund) j h = omega (
  arith,
  sum_admitted_fund fund j.lines (λ l. l.debit),
  sum_admitted_fund fund j.lines (λ l. l.credit),
)

module _ (org prop cutoff : ℕ) (fund : Option ℕ) where
  lines_until-balanced :
      (js : List Journal)
      → All (BalancedFor fund) js
      → total_debit (lines_until org prop cutoff fund js)
        ≡ total_credit (lines_until org prop cutoff fund js)
  unfolding lines_until
  lines_until-balanced [] h = refl
  lines_until-balanced (j ∷ js) h =
      let these = filter (λ l. admits fund l.financial_fund_id) j.lines in
      let rest = lines_until org prop cutoff fund js in
      ground (
        arith,
        lines_until-balanced js h.1,
        admitted_balanced fund j h.0,
        sum_by-append (λ l. l.debit) these rest,
        sum_by-append (λ l. l.credit) these rest,
      )

sum_rows :
    (accounts : List Account) (bs : List Bucket)
    → (sum_by (λ (r : TrialRow). r.total_debit) (map (trial_row accounts) bs)
        ≡ sum_by (λ b. b.debit) bs)
      × (sum_by (λ (r : TrialRow). r.total_credit) (map (trial_row accounts) bs)
          ≡ sum_by (λ b. b.credit) bs)
unfolding trial_row
sum_rows accounts [] = (refl, refl)
sum_rows accounts (b ∷ bs) =
    let ih = sum_rows accounts bs in (ap (◌+◌ b.debit) ih.0, ap (◌+◌ b.credit) ih.1)

-- The date up to which the lines are read.
abbrev pub cutoff_of : Option ℕ → ℕ → ℕ
cutoff_of none today = today
cutoff_of (some d) today = d

trial_balance-eq-ok :
    (org prop : ℕ) (as_of fund : Option ℕ) (today : ℕ) (s s' : Db) {rows : List TrialRow}
    → trial_balance org prop as_of fund today s ≡ ok (rows, s')
    → (s' ≡ s)
      × (rows
          ≡ sort by_code (
              map (trial_row s.accounts) (
                group
                  (λ (l : JournalLine). l.account_id)
                  (λ l. l.debit)
                  (λ l. l.credit)
                  []
                  (lines_until org prop (cutoff_of as_of today) fund s.journals))))
unfolding trial_balance get_owned_property
trial_balance-eq-ok org prop none fund today s s' h = ground arith
trial_balance-eq-ok org prop (some d) fund today s s' h = ground arith

-- The columns of a trial balance add up to the same total, provided that each journal of the ledger
-- balances, on all its lines or, for the trial balance of one fund, on the lines of that fund. They
-- are the totals of the lines that the query selects, and reading them changes nothing.
pub trial_balance_totals :
    (org prop : ℕ) (as_of fund : Option ℕ) (today : ℕ) (s s' : Db) {rows : List TrialRow}
    → All (BalancedFor fund) s.journals
    → trial_balance org prop as_of fund today s ≡ ok (rows, s')
    → let lines = lines_until org prop (cutoff_of as_of today) fund s.journals in
      (sum_by (λ (r : TrialRow). r.total_debit) rows ≡ total_debit lines)
      × (sum_by (λ (r : TrialRow). r.total_credit) rows ≡ total_credit lines)
      × (total_debit lines ≡ total_credit lines)
      × (s' ≡ s)
trial_balance_totals org prop as_of fund today s s' h e =
    let (same, q) = trial_balance-eq-ok org prop as_of fund today s s' e in
    let lines = lines_until org prop (cutoff_of as_of today) fund s.journals in
    let buckets =
      group (λ (l : JournalLine). l.account_id) (λ l. l.debit) (λ l. l.credit) [] lines in
    let sums =
      sum_by-group (λ (l : JournalLine). l.account_id) (λ l. l.debit) (λ l. l.credit) [] lines in
    let columns = sum_rows s.accounts buckets in
    (
      rw q (
          omega (
            arith,
            sum_by-sort by_code (λ r. r.total_debit) (map (trial_row s.accounts) buckets),
            columns.0,
            sums.0,
          )),
      rw q (
          omega (
            arith,
            sum_by-sort by_code (λ r. r.total_credit) (map (trial_row s.accounts) buckets),
            columns.1,
            sums.1,
          )),
      lines_until-balanced org prop (cutoff_of as_of today) fund s.journals h,
      same,
    )

-- A row is presented on the side of its larger column, with the difference of the two.
abbrev pub IsPresented : TrialRow → Type 0
IsPresented r =
    ((r.presented_side ≡ debit_side) × (r.total_debit ≡ r.total_credit + r.presented_balance))
    ⊎ ((r.presented_side ≡ credit_side) × (r.total_credit ≡ r.total_debit + r.presented_balance))

trial_row-IsPresented : (accounts : List Account) (b : Bucket) → IsPresented (trial_row accounts b)
unfolding trial_row
trial_row-IsPresented accounts b = ground arith

All-rows :
    (accounts : List Account) (bs : List Bucket) → All IsPresented (map (trial_row accounts) bs)
All-rows accounts [] = tt
All-rows accounts (b ∷ bs) = (trial_row-IsPresented accounts b, All-rows accounts bs)

-- Each row of a trial balance is presented on one side only: the presented balance is what its larger
-- column exceeds the other by, on the side of the larger column.
pub trial_balance-IsPresented :
    (org prop : ℕ) (as_of fund : Option ℕ) (today : ℕ) (s s' : Db) {rows : List TrialRow}
    → trial_balance org prop as_of fund today s ≡ ok (rows, s')
    → All IsPresented rows
trial_balance-IsPresented org prop as_of fund today s s' e =
    let (same, q) = trial_balance-eq-ok org prop as_of fund today s s' e in
    rw q (All-sort by_code IsPresented _ (All-rows s.accounts _))
