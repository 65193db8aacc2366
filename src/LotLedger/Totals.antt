-- ===== src/LotLedger/Totals.antt =====
-- The totals of a lot's account in src/modules/financials/lot-ledger.service.ts add up to its balance.
use waslproperty_backend.Prelude.{
  ℕ, ◌+◌, ◌≡◌, refl, inl, inr, Bool, true, false, Option, none, some, List, [], ◌∷◌, ◌++◌, map,
  arith, if◌then◌else◌, sum_by, sum_by-append, All, All-append, All-implies, Bool-cases,
}
use waslproperty_backend.Prelude.Int.{ℤ, pos, ltb_ℤ, ◌+ℤ◌, ◌-ℤ◌, eq_of_parts, +ℤ_parts, -ℤ_parts}
use waslproperty_backend.Prelude.Sort.{sort, sum_by-sort, All-sort}
use waslproperty_backend.Prelude.Result.{ok}
use waslproperty_backend.Store.{Db}
use waslproperty_backend.Store.Rows.{
  get_owned_property, get_configuration, get_owned_property-same, get_configuration-same,
}
use waslproperty_backend.Receipts.Record.{get_owned_lot}
use waslproperty_backend.Receipts.Requests.{after_same, get_owned_lot-same}
use waslproperty_backend.LotLedger.{
  RowType, opening_position, regular_levy_charge, special_levy_charge, levy_reversal,
  levy_adjustment, receipt, receipt_reversal, payment_allocation, Opening, LotAdjustment, LotCharge,
  LotAllocation, LotReceipt, History, RawRow, row, opening_rows, reversal_rows, adjustment_row,
  charge_rows, receipt_rows, gather, raw_rows, before, with_balance, build_full_ledger,
  last_balance, sum_debit, sum_credit,
}
use waslproperty_backend.LotLedger.Views.{
  is_charge, is_levy_reversal, is_adjustment, is_receipt, is_receipt_reversal, opening_net,
  adjustments_of, receipts_of, FinancialAccount, get_financial_account,
}
use waslproperty_backend.LotLedger.Running.{Moves, step-Moves}

abbrev is_opening : RowType → Bool
is_opening opening_position = true
is_opening _ = false

-- The debits and the credits of the rows of some types.
abbrev debit_of : (RowType → Bool) → List RawRow → ℕ
debit_of p = sum_by (λ r. if p r.type then r.debit else 0)

abbrev credit_of : (RowType → Bool) → List RawRow → ℕ
credit_of p = sum_by (λ r. if p r.type then r.credit else 0)

sum-with_balance :
    (p : RowType → Bool) (b : ℤ) (rs : List RawRow)
    → (sum_debit p (with_balance b rs) ≡ debit_of p rs)
      × (sum_credit p (with_balance b rs) ≡ credit_of p rs)
unfolding with_balance
sum-with_balance p b [] = (refl, refl)
sum-with_balance p b (r ∷ rs) =
    let ih = sum-with_balance p (b +ℤ pos r.debit -ℤ pos r.credit) rs in
    (ground (arith, ih.0), ground (arith, ih.1))

last_balance-Moves :
    (b : ℤ) (rs : List RawRow)
    → Moves b
        (last_balance b (with_balance b rs))
        (sum_by (λ r. r.debit) rs)
        (sum_by (λ r. r.credit) rs)
unfolding with_balance last_balance
last_balance-Moves b [] = omega arith
last_balance-Moves b (r ∷ rs) =
    omega (
      arith,
      step-Moves b r.debit r.credit,
      last_balance-Moves (b +ℤ pos r.debit -ℤ pos r.credit) rs,
    )

-- Which columns a row of a type may use.
abbrev OneSided : RowType → ℕ → ℕ → Type 0
OneSided regular_levy_charge debit credit = credit ≡ 0
OneSided special_levy_charge debit credit = credit ≡ 0
OneSided receipt_reversal debit credit = credit ≡ 0
OneSided levy_reversal debit credit = debit ≡ 0
OneSided receipt debit credit = debit ≡ 0
OneSided payment_allocation debit credit = (debit ≡ 0) × (credit ≡ 0)
OneSided _ debit credit = Unit

abbrev Sided : RawRow → Type 0
Sided r = OneSided r.type r.debit r.credit

split_row :
    (t : RowType) (d c : ℕ)
    → OneSided t d c
    → (d
        ≡ (if is_opening t then d else 0)
          + (if is_charge t then d else 0)
          + (if is_adjustment t then d else 0)
          + (if is_receipt_reversal t then d else 0))
      × (c
          ≡ (if is_opening t then c else 0)
            + (if is_levy_reversal t then c else 0)
            + (if is_adjustment t then c else 0)
            + (if is_receipt t then c else 0))
split_row opening_position d c h = (omega arith, omega arith)
split_row regular_levy_charge d c h = (omega arith, omega arith)
split_row special_levy_charge d c h = (omega arith, omega arith)
split_row levy_reversal d c h = (omega arith, omega arith)
split_row levy_adjustment d c h = (omega arith, omega arith)
split_row receipt d c h = (omega arith, omega arith)
split_row receipt_reversal d c h = (omega arith, omega arith)
split_row payment_allocation d c h = (omega (arith, h.0), omega (arith, h.1))

split_rows :
    (rs : List RawRow)
    → All Sided rs
    → (sum_by (λ r. r.debit) rs
        ≡ debit_of is_opening rs
          + debit_of is_charge rs
          + debit_of is_adjustment rs
          + debit_of is_receipt_reversal rs)
      × (sum_by (λ r. r.credit) rs
          ≡ credit_of is_opening rs
            + credit_of is_levy_reversal rs
            + credit_of is_adjustment rs
            + credit_of is_receipt rs)
split_rows [] h = (omega arith, omega arith)
split_rows (r ∷ rs) h =
    let first = split_row r.type r.debit r.credit h.0 in
    let rest = split_rows rs h.1 in (omega (arith, first.0, rest.0), omega (arith, first.1, rest.1))

-- The rows of charges and receipts: one-sided, and no opening position.
abbrev Derived : RawRow → Type 0
Derived r = Sided r × (is_opening r.type ≡ false)

no_opening :
    (rs : List RawRow)
    → All Derived rs
    → (debit_of is_opening rs ≡ 0) × (credit_of is_opening rs ≡ 0)
no_opening [] h = (refl, refl)
no_opening (r ∷ rs) h =
    let ih = no_opening rs h.1 in (ground (arith, h.0.1, ih.0), ground (arith, h.0.1, ih.1))

reversal_rows-Derived :
    (c : Bool) (at_time : Option ℕ) (f : ℕ → RawRow)
    → ((t : ℕ) → Derived (f t))
    → All Derived (reversal_rows c at_time f)
unfolding reversal_rows
reversal_rows-Derived true (some t) f h = (h t, tt)
reversal_rows-Derived true none f h = tt
reversal_rows-Derived false (some t) f h = tt
reversal_rows-Derived false none f h = tt

adjustment_rows-Derived :
    (fund : ℕ) (as' : List LotAdjustment) → All Derived (map (adjustment_row fund) as')
adjustment_rows-Derived fund [] = tt
adjustment_rows-Derived fund (a ∷ as') = elim (Bool-cases (ltb_ℤ (pos 0) a.amount)) [
  | inl e ↦ rw e ((tt, refl), adjustment_rows-Derived fund as')
  | inr e ↦ rw e ((tt, refl), adjustment_rows-Derived fund as')
]

allocation_rows-Derived :
    (fund : ℕ) (as' : List LotAllocation)
    → All Derived (map (λ a. row 1 a.id a.created_at payment_allocation (some fund) 0 0) as')
allocation_rows-Derived fund [] = tt
allocation_rows-Derived fund (a ∷ as') = (((refl, refl), refl), allocation_rows-Derived fund as')

charge_rows-Derived : (c : LotCharge) → All Derived (charge_rows c)
unfolding charge_rows
charge_rows-Derived c =
    let rest =
      All-append Derived
        (reversal_rows c.is_cancelled c.reversed_at
          (λ t. row 6 c.id t levy_reversal (some c.financial_fund_id) 0 c.amount))
        (map (adjustment_row c.financial_fund_id) c.adjustments)
        (reversal_rows-Derived c.is_cancelled c.reversed_at _ (λ t. (refl, refl)))
        (adjustment_rows-Derived c.financial_fund_id c.adjustments) in
    elim (Bool-cases c.is_special) [
      | inl e ↦ rw e ((refl, refl), rest)
      | inr e ↦ rw e ((refl, refl), rest)
    ]

receipt_rows-Derived : (r : LotReceipt) → All Derived (receipt_rows r)
unfolding receipt_rows
receipt_rows-Derived r = (
  (refl, refl),
  All-append Derived
      (reversal_rows r.is_reversed r.reversed_at
        (λ t. row 4 r.id t receipt_reversal (some r.financial_fund_id) r.amount 0))
      (map (λ a. row 1 a.id a.created_at payment_allocation (some r.financial_fund_id) 0 0)
        r.allocations)
      (reversal_rows-Derived r.is_reversed r.reversed_at _ (λ t. (refl, refl)))
      (allocation_rows-Derived r.financial_fund_id r.allocations),
)

gather-Derived :
    {A : Type 0} (f : A → List RawRow) (xs : List A)
    → ((x : A) → All Derived (f x))
    → All Derived (gather f xs)
unfolding gather
gather-Derived f [] h = tt
gather-Derived f (x ∷ xs) h = All-append Derived (f x) (gather f xs) (h x) (gather-Derived f xs h)

abbrev owing : Option Opening → ℕ
owing none = 0
owing (some o) = o.amount_owing

abbrev in_favour : Option Opening → ℕ
in_favour none = 0
in_favour (some o) = o.credit_balance

opening_net-eq : (o : Option Opening) → opening_net o ≡ pos (owing o) -ℤ pos (in_favour o)
unfolding ◌-ℤ◌
opening_net-eq none = refl
opening_net-eq (some o) = refl

opening_rows-sums :
    (o : Option Opening)
    → All Sided (opening_rows o)
      × (debit_of is_opening (opening_rows o) ≡ owing o)
      × (credit_of is_opening (opening_rows o) ≡ in_favour o)
unfolding opening_rows
opening_rows-sums none = (tt, refl, refl)
opening_rows-sums (some o) = ((tt, tt), omega arith, omega arith)

raw_rows-sums :
    (h : History)
    → All Sided (raw_rows h)
      × (debit_of is_opening (raw_rows h) ≡ owing h.opening)
      × (credit_of is_opening (raw_rows h) ≡ in_favour h.opening)
unfolding raw_rows
raw_rows-sums h =
    let derived = gather charge_rows h.charges ++ gather receipt_rows h.receipts in
    let (sided, owed, favour) = opening_rows-sums h.opening in
    let rest : All Derived derived =
      All-append Derived (gather charge_rows h.charges) (gather receipt_rows h.receipts)
        (gather-Derived charge_rows h.charges charge_rows-Derived)
        (gather-Derived receipt_rows h.receipts receipt_rows-Derived) in
    let none_left = no_opening derived rest in
    (
      All-append Sided (opening_rows h.opening) derived sided
          (All-implies (λ r d. d.0) derived rest),
      omega (
        arith,
        owed,
        none_left.0,
        sum_by-append (λ (r : RawRow). if is_opening r.type then r.debit else 0)
            (opening_rows h.opening) derived,
      ),
      omega (
        arith,
        favour,
        none_left.1,
        sum_by-append (λ (r : RawRow). if is_opening r.type then r.credit else 0)
            (opening_rows h.opening) derived,
      ),
    )

-- The balance of the whole ledger by the totals of its rows.
balance_by_totals :
    (h : History)
    → let rows = build_full_ledger h in
      last_balance (pos 0) rows
      ≡ opening_net h.opening
        +ℤ pos (sum_debit is_charge rows)
        -ℤ pos (sum_credit is_levy_reversal rows)
        +ℤ adjustments_of rows
        -ℤ receipts_of rows
unfolding build_full_ledger
balance_by_totals h =
    let raw = raw_rows h in
    let rs = sort before raw in
    let (sided, owed, favour) = raw_rows-sums h in
    let split = split_rows rs (All-sort before Sided raw sided) in
    let same_debit = sum_by-sort before (λ r. if is_opening r.type then r.debit else 0) raw in
    let same_credit = sum_by-sort before (λ r. if is_opening r.type then r.credit else 0) raw in
    let issued = sum-with_balance is_charge (pos 0) rs in
    let reversed = sum-with_balance is_levy_reversal (pos 0) rs in
    let adjusted = sum-with_balance is_adjustment (pos 0) rs in
    let received = sum-with_balance is_receipt (pos 0) rs in
    let returned = sum-with_balance is_receipt_reversal (pos 0) rs in
    rw
      (
        opening_net-eq h.opening,
        issued.0,
        reversed.1,
        adjusted.0,
        adjusted.1,
        received.1,
        returned.0,
      )
      (let o = pos (owing h.opening) -ℤ pos (in_favour h.opening) in
        let o1 = o +ℤ pos (debit_of is_charge rs) in
        let o2 = o1 -ℤ pos (credit_of is_levy_reversal rs) in
        let adj = pos (debit_of is_adjustment rs) -ℤ pos (credit_of is_adjustment rs) in
        let o3 = o2 +ℤ adj in
        let rec = pos (credit_of is_receipt rs) -ℤ pos (debit_of is_receipt_reversal rs) in
        eq_of_parts (last_balance (pos 0) (with_balance (pos 0) rs)) (o3 -ℤ rec) (
          omega (
            arith,
            last_balance-Moves (pos 0) rs,
            split.0,
            split.1,
            same_debit,
            same_credit,
            owed,
            favour,
            -ℤ_parts (pos (owing h.opening)) (pos (in_favour h.opening)),
            +ℤ_parts o (pos (debit_of is_charge rs)),
            -ℤ_parts o1 (pos (credit_of is_levy_reversal rs)),
            -ℤ_parts (pos (debit_of is_adjustment rs)) (pos (credit_of is_adjustment rs)),
            +ℤ_parts o2 adj,
            -ℤ_parts (pos (credit_of is_receipt rs)) (pos (debit_of is_receipt_reversal rs)),
            -ℤ_parts o3 rec,
          )))

-- The current balance of a lot's account is its opening position with the issued charges added, the
-- reversed ones taken away, the adjustments added, and the receipts less their reversals taken away.
pub get_financial_account_balance :
    (org prop space_id : ℕ) (h : History) (s s' : Db) {account : FinancialAccount}
    → get_financial_account org prop space_id h s ≡ ok (account, s')
    → account.current_balance
      ≡ account.opening
        +ℤ pos account.issued
        -ℤ pos account.reversed
        +ℤ account.adjustments
        -ℤ receipts_of (build_full_ledger h)
unfolding get_financial_account
get_financial_account_balance org prop space_id h s s' {account} e =
    let (p, e1) =
      after_same (get_owned_property org prop) _ s s' account
        (λ x t q. get_owned_property-same org prop s q) e in
    let (l, e2) =
      after_same (get_owned_lot org prop space_id) _ s s' account
        (λ x t q. get_owned_lot-same org prop space_id s q) e1 in
    let (c, e3) =
      after_same (get_configuration prop) _ s s' account (λ x t q. get_configuration-same prop s q)
        e2 in
    let rows = build_full_ledger h in
    let opening : account.opening ≡ opening_net h.opening = ground (arith, e3) in
    let issued : account.issued ≡ sum_debit is_charge rows = ground (arith, e3) in
    let reversed : account.reversed ≡ sum_credit is_levy_reversal rows = ground (arith, e3) in
    let adjusted : account.adjustments ≡ adjustments_of rows = ground (arith, e3) in
    let current : account.current_balance ≡ last_balance (pos 0) rows = ground (arith, e3) in
    rw (opening, issued, reversed, adjusted, current) (balance_by_totals h)
