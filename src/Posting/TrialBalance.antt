-- ===== src/Posting/TrialBalance.antt =====
-- `trialBalance` in src/modules/financials/ledger-posting.service.ts.
use waslproperty_backend.Prelude.{
  ℕ, ◌-◌, Bool, true, false, ◌&&◌, Option, none, some, List, [], ◌∷◌, ◌++◌, map, ltb, leb, ◌==◌,
  if◌then◌else◌, filter,
}
use waslproperty_backend.Prelude.Int.{ℤ, sub_ℕ}
use waslproperty_backend.Prelude.Sort.{sort}
use waslproperty_backend.Prelude.Buckets.{Bucket, group}
use waslproperty_backend.Store.{Account, Classification, asset, expense, JournalLine, Journal}
use waslproperty_backend.Store.Tx.{Tx, pure, gets, ◌>>=◌, ◌>>◌}
use waslproperty_backend.Store.Rows.{get_owned_property}

pub data Side : Type 0 where
  debit_side credit_side : Side

pub record TrialRow : Type 0 where
  pub account_id : ℕ
  pub account_code : ℕ
  pub classification : Classification
  pub total_debit : ℕ
  pub total_credit : ℕ
  pub net_balance : ℤ
  pub presented_side : Side
  pub presented_balance : ℕ

-- `!filter || filter === value`, for an optional filter
abbrev pub admits : Option ℕ → ℕ → Bool
admits none k = true
admits (some j) k = j == k

-- `journalLine.findMany`: the lines of the property's journals up to the cutoff, of the fund if one is
-- given.
unfoldable pub lines_until : ℕ → ℕ → ℕ → Option ℕ → List Journal → List JournalLine
lines_until org prop cutoff fund [] = []
lines_until org prop cutoff fund (j ∷ js) =
    let rest = lines_until org prop cutoff fund js in
    if j.organisation_id == org && j.property_id == prop && leb j.effective_date cutoff
    then filter (λ l. admits fund l.financial_fund_id) j.lines ++ rest
    else rest

-- `creditNormal.has(classification)`
abbrev pub is_credit_normal : Classification → Bool
is_credit_normal asset = false
is_credit_normal expense = false
is_credit_normal _ = true

-- The presented side of a balance.
abbrev pub side : Classification → ℕ → ℕ → Side
side c debit credit =
    if debit == credit
    then (if is_credit_normal c then credit_side else debit_side)
    else if ltb credit debit
    then debit_side
    else credit_side

-- The account of a line (the join of the query): a foreign key, so that it is always found.
unfoldable pub account_of : List Account → ℕ → Account
account_of [] id = record {
  id = id;
  organisation_id = 0;
  property_id = 0;
  code = 0;
  classification = asset;
  is_active = false;
}
account_of (a ∷ as') id = let rest = account_of as' id in if a.id == id then a else rest

unfoldable pub trial_row : List Account → Bucket → TrialRow
trial_row accounts b =
    let a = account_of accounts b.key in
    record {
      account_id = b.key;
      account_code = a.code;
      classification = a.classification;
      total_debit = b.debit;
      total_credit = b.credit;
      net_balance = sub_ℕ b.debit b.credit;
      presented_side = side a.classification b.debit b.credit;
      presented_balance = if leb b.credit b.debit then b.debit - b.credit else b.credit - b.debit;
    }

abbrev pub by_code : TrialRow → TrialRow → Bool
by_code a b = leb a.account_code b.account_code

-- `trialBalance`; `today` is the date of the clock.
unfoldable pub trial_balance : ℕ → ℕ → Option ℕ → Option ℕ → ℕ → Tx (List TrialRow)
trial_balance org prop as_of fund today = do
  get_owned_property org prop
  let cutoff : ℕ = elim as_of [ none ↦ today | some d ↦ d ]
  lines ← gets (λ s. lines_until org prop cutoff fund s.journals)
  accounts ← gets (λ s. s.accounts)
  let buckets = group (λ (l : JournalLine). l.account_id) (λ l. l.debit) (λ l. l.credit) [] lines
  pure (sort by_code (map (trial_row accounts) buckets))
