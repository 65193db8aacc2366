-- ===== src/Posting/Checks.antt =====
-- What the checks of a posting establish.
use waslproperty_backend.Prelude.{
  ℕ, ◌≤◌, ◌≡◌, true, false, not, ◌&&◌, none, some, List, [], map, arith, length, sum_by, filter,
  find, All, All-at, In, find-eq-none, All-of_In, ◌∙◌,
}
use waslproperty_backend.Prelude.Buckets.{
  group, find_unbalanced, debits_of, credits_of, group-balanced,
}
use waslproperty_backend.Prelude.Unique.{
  contains, unique, contains-unique, contains-map, DistinctIds, find_of_count, In-filter,
}
use waslproperty_backend.Store.{Db, Account, Fund, Period, opened}
use waslproperty_backend.Prelude.Result.{ok}
use waslproperty_backend.Posting.{
  LineInput, PostCommand, check_lines, owned_account, owned_fund, check_references,
  require_open_period,
}
use waslproperty_backend.Periods.{find_covering_period}

-- The lines balance, and unless the command is a transfer, the lines of each fund do.
pub record Balanced (c : PostCommand) : Type 0 where
  pub two_lines : 2 ≤ length c.lines
  pub totals : sum_by (λ (l : LineInput). l.debit) c.lines ≡ sum_by (λ l. l.credit) c.lines
  pub funds :
      c.allow_cross_fund ≡ false
      → (fund : ℕ)
      → debits_of
          (λ (l : LineInput). l.financial_fund_id)
          (λ l. l.debit)
          (λ l. l.credit)
          fund
          c.lines
        ≡ credits_of
            (λ (l : LineInput). l.financial_fund_id)
            (λ l. l.debit)
            (λ l. l.credit)
            fund
            c.lines

fund_balance :
    (c : PostCommand) (fund : ℕ)
    → find_unbalanced
        (group (λ (l : LineInput). l.financial_fund_id) (λ l. l.debit) (λ l. l.credit) [] c.lines)
      ≡ none
    → debits_of (λ (l : LineInput). l.financial_fund_id) (λ l. l.debit) (λ l. l.credit) fund c.lines
      ≡ credits_of
          (λ (l : LineInput). l.financial_fund_id)
          (λ l. l.debit)
          (λ l. l.credit)
          fund
          c.lines
fund_balance c fund h =
    group-balanced (λ (l : LineInput). l.financial_fund_id) (λ l. l.debit) (λ l. l.credit) fund
      c.lines h

pub check_lines-eq-ok :
    (c : PostCommand) (s s' : Db) → check_lines c s ≡ ok (tt, s') → (s' ≡ s) × Balanced c
unfolding check_lines
check_lines-eq-ok c s s' h = (
  ground arith,
  record {
    two_lines = ground arith;
    totals = ground arith;
    funds = λ one_fund fund. fund_balance c fund (ground arith);
  },
)

-- A line's account is an active account of the property, and its fund a fund of it.
pub record Referenced (org prop : ℕ) (s : Db) (l : LineInput) : Type 0 where
  pub account :
      (a : Account) × In a s.accounts
      × (a.id ≡ l.account_id)
      × (a.organisation_id ≡ org)
      × (a.property_id ≡ prop)
      × (a.is_active ≡ true)
  pub fund :
      (f : Fund) × In f s.funds
      × (f.id ≡ l.financial_fund_id)
      × (f.organisation_id ≡ org)
      × (f.property_id ≡ prop)

-- The ids of accounts and of funds are primary keys.
pub record KeyedRefs (s : Db) : Type 0 where
  pub accounts : DistinctIds (λ (a : Account). a.id) s.accounts
  pub funds : DistinctIds (λ (f : Fund). f.id) s.funds

module _ (org prop : ℕ) (s : Db) (keyed : KeyedRefs s) (account_ids fund_ids : List ℕ) where
  abbrev accounts_found : List Account
  accounts_found = filter (λ a. contains account_ids a.id && owned_account org prop a) s.accounts

  abbrev funds_found : List Fund
  funds_found = filter (λ f. contains fund_ids f.id && owned_fund org prop f) s.funds

  Referenced-line :
      (l : LineInput)
      → length accounts_found ≡ length account_ids
      → length funds_found ≡ length fund_ids
      → find (λ a. not a.is_active) accounts_found ≡ none
      → contains account_ids l.account_id ≡ true
      → contains fund_ids l.financial_fund_id ≡ true
      → Referenced org prop s l
  Referenced-line l na nf active ha hf =
      let (a, i, e) =
        find_of_count (λ (a : Account). a.id) account_ids (owned_account org prop) s.accounts
          keyed.accounts na l.account_id ha in
      let (f, j, g) =
        find_of_count (λ (f : Fund). f.id) fund_ids (owned_fund org prop) s.funds keyed.funds nf
          l.financial_fund_id hf in
      let ia =
        In-filter (λ a. contains account_ids a.id && owned_account org prop a) s.accounts i in
      let jf = In-filter (λ f. contains fund_ids f.id && owned_fund org prop f) s.funds j in
      let on =
        All-at (λ (a : Account). not a.is_active ≡ false) accounts_found
          (find-eq-none (λ a. not a.is_active) accounts_found active) i in
      record {
        account = (a, ia.0, e, ground arith, ground arith, ground arith);
        fund = (f, jf.0, g, ground arith, ground arith);
      }

pub check_references-eq-ok :
    (org prop : ℕ) (lines : List LineInput) (s s' : Db)
    → KeyedRefs s
    → check_references org prop lines s ≡ ok (tt, s')
    → (s' ≡ s) × All (Referenced org prop s) lines
unfolding check_references
check_references-eq-ok org prop lines s s' keyed h = (
  ground arith,
  All-of_In (Referenced org prop s) lines (λ l i.
      Referenced-line org prop s keyed account_ids fund_ids l (ground arith) (ground arith)
        (ground arith)
        (contains-unique (map (λ (x : LineInput). x.account_id) lines) l.account_id
          ∙ contains-map (λ (x : LineInput). x.account_id) lines i)
        (contains-unique (map (λ (x : LineInput). x.financial_fund_id) lines) l.financial_fund_id
          ∙ contains-map (λ (x : LineInput). x.financial_fund_id) lines i)),
)
  where
    account_ids : List ℕ
    account_ids = unique (map (λ (x : LineInput). x.account_id) lines)

    fund_ids : List ℕ
    fund_ids = unique (map (λ (x : LineInput). x.financial_fund_id) lines)

pub require_open_period-eq-ok :
    (prop date : ℕ) (s s' : Db) {p : Period}
    → require_open_period prop date s ≡ ok (p, s')
    → (s' ≡ s) × (p.status ≡ opened) × (find_covering_period prop date s.periods ≡ some p)
unfolding require_open_period
require_open_period-eq-ok prop date s s' h = ground arith
