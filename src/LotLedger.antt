-- ===== src/LotLedger.antt =====
-- src/modules/financials/lot-ledger.service.ts: the account of a lot, derived from its opening position,
-- its levy charges and its receipts. What the queries of `buildFullLedger` return is an argument here
-- (`History`), with their instants in milliseconds; the texts of a row are left out.
pub mod Views
pub mod Running
pub mod Reconciled
pub mod Totals
use waslproperty_backend.Prelude.{
  ℕ, ◌+◌, ◌-◌, ◌*◌, ◌/◌, Bool, true, false, ◌&&◌, ◌||◌, not, Option, none, some, List, [], ◌∷◌,
  ◌++◌, map, ltb, leb, ◌==◌, if◌then◌else◌, filter, length, sum_by, is_key,
}
use waslproperty_backend.Prelude.Int.{ℤ, pos, negsuc, sub_ℕ, pos_part, neg_part, ◌+ℤ◌, ◌-ℤ◌, ltb_ℤ}
use waslproperty_backend.Prelude.Sort.{sort}
use waslproperty_backend.Prelude.Result.{conflict, period_dates}
use waslproperty_backend.Store.Tx.{Tx, pure, throw_if, ◌>>=◌, ◌>>◌}
use waslproperty_backend.Store.Rows.{get_owned_property, get_configuration}
use waslproperty_backend.Receipts.Record.{get_owned_lot}

pub data RowType : Type 0 where
  opening_position regular_levy_charge special_levy_charge levy_reversal : RowType
  levy_adjustment receipt receipt_reversal payment_allocation : RowType

-- `TYPE_PRIORITY`
abbrev pub priority : RowType → ℕ
priority opening_position = 0
priority regular_levy_charge = 1
priority special_levy_charge = 1
priority receipt = 2
priority levy_adjustment = 3
priority payment_allocation = 4
priority levy_reversal = 5
priority receipt_reversal = 5

-- The rows that the queries return.
pub record Opening : Type 0 where
  pub id : ℕ
  pub as_of : ℕ
  pub amount_owing : ℕ
  pub credit_balance : ℕ

pub record LotAdjustment : Type 0 where
  pub id : ℕ
  pub amount : ℤ
  pub created_at : ℕ

pub record LotCharge : Type 0 where
  pub id : ℕ
  pub financial_fund_id : ℕ
  pub amount : ℕ
  pub created_at : ℕ
  pub is_special : Bool
  pub is_cancelled : Bool
  -- of the charge's instalment
  pub reversed_at : Option ℕ
  pub adjustments : List LotAdjustment

pub record LotAllocation : Type 0 where
  pub id : ℕ
  pub amount : ℕ
  pub created_at : ℕ
  pub is_applied : Bool

pub record LotReceipt : Type 0 where
  pub id : ℕ
  pub financial_fund_id : ℕ
  pub amount : ℕ
  pub posting_date : ℕ
  pub is_reversed : Bool
  pub reversed_at : Option ℕ
  pub allocations : List LotAllocation

pub record History : Type 0 where
  pub opening : Option Opening
  pub charges : List LotCharge
  pub receipts : List LotReceipt

-- `RawRow`; `prefix` is the place of the text before the colon of the row's id in the order of strings.
pub record RawRow : Type 0 where
  pub prefix : ℕ
  pub entity : ℕ
  pub date : ℕ
  pub type : RowType
  pub financial_fund_id : Option ℕ
  pub debit : ℕ
  pub credit : ℕ

abbrev pub row : ℕ → ℕ → ℕ → RowType → Option ℕ → ℕ → ℕ → RawRow
row prefix entity date type fund debit credit = record {
  prefix = prefix;
  entity = entity;
  date = date;
  type = type;
  financial_fund_id = fund;
  debit = debit;
  credit = credit;
}

-- The steps of `buildFullLedger` that push rows.
unfoldable pub opening_rows : Option Opening → List RawRow
opening_rows none = []
opening_rows (some o) =
    row 3 o.id o.as_of opening_position none o.amount_owing o.credit_balance ∷ []

unfoldable pub reversal_rows : Bool → Option ℕ → (ℕ → RawRow) → List RawRow
reversal_rows true (some at_time) f = f at_time ∷ []
reversal_rows _ _ f = []

-- An increase is a debit, any other adjustment a credit of its absolute value.
abbrev pub adjustment_row : ℕ → LotAdjustment → RawRow
adjustment_row fund a =
    if ltb_ℤ (pos 0) a.amount
    then row 0 a.id a.created_at levy_adjustment (some fund) (pos_part a.amount) 0
    else row 0 a.id a.created_at levy_adjustment (some fund) 0
        (pos_part a.amount + neg_part a.amount)

unfoldable pub charge_rows : LotCharge → List RawRow
charge_rows c =
    row 2 c.id c.created_at (if c.is_special then special_levy_charge else regular_levy_charge)
        (some c.financial_fund_id) c.amount 0
      ∷ reversal_rows c.is_cancelled c.reversed_at
          (λ t. row 6 c.id t levy_reversal (some c.financial_fund_id) 0 c.amount)
    ++ map (adjustment_row c.financial_fund_id) c.adjustments

unfoldable pub receipt_rows : LotReceipt → List RawRow
receipt_rows r =
    row 5 r.id r.posting_date receipt (some r.financial_fund_id) 0 r.amount
      ∷ reversal_rows r.is_reversed r.reversed_at
          (λ t. row 4 r.id t receipt_reversal (some r.financial_fund_id) r.amount 0)
    ++ map (λ a. row 1 a.id a.created_at payment_allocation (some r.financial_fund_id) 0 0)
        r.allocations

unfoldable pub gather {ℓ} : {A : Type ℓ} → (A → List RawRow) → List A → List RawRow
gather f [] = []
gather f (x ∷ xs) = f x ++ gather f xs

unfoldable pub raw_rows : History → List RawRow
raw_rows h =
    opening_rows h.opening ++ (gather charge_rows h.charges ++ gather receipt_rows h.receipts)

-- The comparator of the sort: the earlier instant, then the priority, then the id. `true` means that
-- `a` may stand before `b`.
abbrev pub before : RawRow → RawRow → Bool
before a b =
    ltb a.date b.date
    || (a.date == b.date
        && (ltb (priority a.type) (priority b.type)
            || (priority a.type == priority b.type
                && (ltb a.prefix b.prefix || (a.prefix == b.prefix && leb a.entity b.entity)))))

-- `formatDateOnly`: the day of an instant.
abbrev pub day_of : ℕ → ℕ
day_of t = t / 86_400_000

pub record LedgerRow : Type 0 where
  pub entity : ℕ
  pub day : ℕ
  pub type : RowType
  pub financial_fund_id : Option ℕ
  pub debit : ℕ
  pub credit : ℕ
  pub running_balance : ℤ

-- The last loop of `buildFullLedger`, from a balance.
unfoldable pub with_balance : ℤ → List RawRow → List LedgerRow
with_balance balance [] = []
with_balance balance (r ∷ rs) =
    let next = balance +ℤ pos r.debit -ℤ pos r.credit in
    record {
      entity = r.entity;
      day = day_of r.date;
      type = r.type;
      financial_fund_id = r.financial_fund_id;
      debit = r.debit;
      credit = r.credit;
      running_balance = next;
    }
    ∷ with_balance next rs

unfoldable pub build_full_ledger : History → List LedgerRow
build_full_ledger h = with_balance (pos 0) (sort before (raw_rows h))

-- `rows.at(-1)?.runningBalance ?? balance`
unfoldable pub last_balance : ℤ → List LedgerRow → ℤ
last_balance balance [] = balance
last_balance balance (r ∷ rs) = last_balance r.running_balance rs

-- `sumRows(rows, predicate, 'debit')` and `sumRows(rows, predicate, 'credit')`
abbrev pub sum_debit : (RowType → Bool) → List LedgerRow → ℕ
sum_debit p rows = sum_by (λ r. r.debit) (filter (λ r. p r.type) rows)

abbrev pub sum_credit : (RowType → Bool) → List LedgerRow → ℕ
sum_credit p rows = sum_by (λ r. r.credit) (filter (λ r. p r.type) rows)
