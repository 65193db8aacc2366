-- ===== src/LotLedger/Views.antt =====
-- `getFinancialAccount`, `getLedger` and `getStatement` in src/modules/financials/lot-ledger.service.ts.
use waslproperty_backend.Prelude.{
  ℕ, zero, suc, ◌-◌, ◌*◌, Bool, true, false, ◌&&◌, not, Option, none, some, List, [], ◌∷◌, map, ltb,
  leb, ◌==◌, filter, length, sum_by, is_key,
}
use waslproperty_backend.Prelude.Int.{ℤ, pos, negsuc, ◌+ℤ◌, ◌-ℤ◌}
use waslproperty_backend.Prelude.Result.{conflict, period_dates}
use waslproperty_backend.Store.{Fund}
use waslproperty_backend.Store.Tx.{Tx, pure, gets, throw_if, ◌>>=◌, ◌>>◌}
use waslproperty_backend.Store.Rows.{get_owned_property, get_configuration}
use waslproperty_backend.Receipts.Record.{get_owned_lot}
use waslproperty_backend.LotLedger.{
  RowType, opening_position, regular_levy_charge, special_levy_charge, levy_reversal,
  levy_adjustment, receipt, receipt_reversal, Opening, LotReceipt, History, LedgerRow,
  build_full_ledger, last_balance, sum_debit, sum_credit,
}

abbrev pub is_charge : RowType → Bool
is_charge regular_levy_charge = true
is_charge special_levy_charge = true
is_charge _ = false

abbrev pub is_levy_reversal : RowType → Bool
is_levy_reversal levy_reversal = true
is_levy_reversal _ = false

abbrev pub is_adjustment : RowType → Bool
is_adjustment levy_adjustment = true
is_adjustment _ = false

abbrev pub is_receipt : RowType → Bool
is_receipt receipt = true
is_receipt _ = false

abbrev pub is_receipt_reversal : RowType → Bool
is_receipt_reversal receipt_reversal = true
is_receipt_reversal _ = false

pub data BalanceClassification : Type 0 where
  amount_owing in_credit settled : BalanceClassification

abbrev pub classify : ℤ → BalanceClassification
classify (pos zero) = settled
classify (pos (suc n)) = amount_owing
classify (negsuc n) = in_credit

-- `net` of the opening position.
abbrev pub opening_net : Option Opening → ℤ
opening_net none = pos 0
opening_net (some o) = pos o.amount_owing -ℤ pos o.credit_balance

pub record FundBreakdown : Type 0 where
  pub financial_fund_id : ℕ
  pub issued : ℕ
  pub reversed : ℕ
  pub adjustments : ℤ
  pub receipts : ℤ
  pub net_balance : ℤ

-- The adjustments, and the receipts less their reversals, of some rows.
abbrev pub adjustments_of : List LedgerRow → ℤ
adjustments_of rows = pos (sum_debit is_adjustment rows) -ℤ pos (sum_credit is_adjustment rows)

abbrev pub receipts_of : List LedgerRow → ℤ
receipts_of rows = pos (sum_credit is_receipt rows) -ℤ pos (sum_debit is_receipt_reversal rows)

unfoldable pub fund_breakdown : List LedgerRow → Fund → FundBreakdown
fund_breakdown rows f =
    let own = filter (λ r. is_key r.financial_fund_id f.id) rows in
    let issued = sum_debit is_charge own in
    let reversed = sum_credit is_levy_reversal own in
    record {
      financial_fund_id = f.id;
      issued = issued;
      reversed = reversed;
      adjustments = adjustments_of own;
      receipts = receipts_of own;
      net_balance = pos issued -ℤ pos reversed +ℤ adjustments_of own -ℤ receipts_of own;
    }

pub record FinancialAccount : Type 0 where
  pub opening : ℤ
  pub issued : ℕ
  pub reversed : ℕ
  pub adjustments : ℤ
  pub receipts : ℕ
  pub unapplied : ℤ
  pub current_balance : ℤ
  pub classification : BalanceClassification
  pub breakdown : List FundBreakdown

-- The applied allocations of a receipt.
abbrev pub applied_of : LotReceipt → ℕ
applied_of r = sum_by (λ a. a.amount) (filter (λ a. a.is_applied) r.allocations)

unfoldable pub get_financial_account : ℕ → ℕ → ℕ → History → Tx FinancialAccount
get_financial_account org prop space_id h = do
  get_owned_property org prop
  get_owned_lot org prop space_id
  get_configuration prop
  funds ← gets (λ s. filter (λ f. f.property_id == prop) s.funds)
  let rows = build_full_ledger h
  let live = filter (λ r. not r.is_reversed) h.receipts
  let total = sum_by (λ r. r.amount) live
  let current = last_balance (pos 0) rows
  pure (record {
    opening = opening_net h.opening;
    issued = sum_debit is_charge rows;
    reversed = sum_credit is_levy_reversal rows;
    adjustments = adjustments_of rows;
    receipts = total;
    unapplied = pos total -ℤ pos (sum_by applied_of live);
    current_balance = current;
    classification = classify current;
    breakdown = map (fund_breakdown rows) funds;
  })

-- `LotLedgerQuery`
pub record LedgerQuery : Type 0 where
  pub page : ℕ
  pub page_size : ℕ
  pub financial_fund_id : Option ℕ
  pub type : Option RowType
  pub from_day : Option ℕ
  pub to_day : Option ℕ

-- The types are compared as strings; their numbers here are.
abbrev pub type_code : RowType → ℕ
type_code opening_position = 0
type_code regular_levy_charge = 1
type_code special_levy_charge = 2
type_code levy_reversal = 3
type_code levy_adjustment = 4
type_code receipt = 5
type_code receipt_reversal = 6
type_code _ = 7

abbrev pub passes : LedgerQuery → LedgerRow → Bool
passes q r =
    elim q.financial_fund_id [ none ↦ true | some f ↦ is_key r.financial_fund_id f ]
    && elim q.type [ none ↦ true | some t ↦ type_code r.type == type_code t ]
    && elim q.from_day [ none ↦ true | some d ↦ leb d r.day ]
    && elim q.to_day [ none ↦ true | some d ↦ leb r.day d ]

-- `rows.slice(start, start + size)`
unfoldable pub slice : ℕ → ℕ → List LedgerRow → List LedgerRow
slice start size [] = []
slice zero zero (r ∷ rs) = []
slice zero (suc size) (r ∷ rs) = r ∷ slice zero size rs
slice (suc start) size (r ∷ rs) = slice start size rs

pub record LedgerPage : Type 0 where
  pub items : List LedgerRow
  pub total : ℕ

unfoldable pub get_ledger : ℕ → ℕ → ℕ → LedgerQuery → History → Tx LedgerPage
get_ledger org prop space_id q h = do
  get_owned_property org prop
  get_owned_lot org prop space_id
  get_configuration prop
  let filtered = filter (passes q) (build_full_ledger h)
  pure (record {
    items = slice ((q.page - 1) * q.page_size) q.page_size filtered;
    total = length filtered;
  })

pub record Statement : Type 0 where
  pub opening_balance : ℤ
  pub movements : List LedgerRow
  pub total_debits : ℕ
  pub total_credits : ℕ
  pub closing_balance : ℤ

unfoldable pub get_statement : ℕ → ℕ → ℕ → ℕ → ℕ → History → Tx Statement
get_statement org prop space_id start end h = do
  throw_if (ltb end start) (conflict period_dates)
  get_owned_property org prop
  get_owned_lot org prop space_id
  get_configuration prop
  let full = build_full_ledger h
  let opening = last_balance (pos 0) (filter (λ r. ltb r.day start) full)
  let movements = filter (λ r. leb start r.day && leb r.day end) full
  pure (record {
    opening_balance = opening;
    movements = movements;
    total_debits = sum_debit (λ _. true) movements;
    total_credits = sum_credit (λ _. true) movements;
    closing_balance = last_balance opening movements;
  })
