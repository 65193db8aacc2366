-- ===== src/LotLedger/Reconciled.antt =====
-- The statements of src/modules/financials/lot-ledger.service.ts reconcile.
use waslproperty_backend.Prelude.{
  ℕ, ◌+◌, ◌≤◌, ◌≡◌, refl, ap, inl, inr, true, false, ◌&&◌, List, [], ◌∷◌, arith, ltb, leb, filter,
  All, All-implies, Bool-cases,
}
use waslproperty_backend.Prelude.Int.{ℤ, pos, ◌+ℤ◌, ◌-ℤ◌, eq_of_parts}
use waslproperty_backend.Prelude.Sort.{sort}
use waslproperty_backend.Prelude.Result.{conflict, period_dates, ok}
use waslproperty_backend.Store.{Db}
use waslproperty_backend.Store.Tx.{throw_if}
use waslproperty_backend.Store.Rows.{
  get_owned_property, get_configuration, get_owned_property-same, get_configuration-same,
}
use waslproperty_backend.Receipts.Requests.{after_same, get_owned_lot-same}
use waslproperty_backend.Receipts.Record.{get_owned_lot}
use waslproperty_backend.LotLedger.{
  RawRow, LedgerRow, History, before, day_of, raw_rows, with_balance, build_full_ledger,
  last_balance,
}
use waslproperty_backend.LotLedger.Views.{Statement, get_statement}
use waslproperty_backend.LotLedger.Running.{
  Moves, InOrder, debits, credits, step-Moves, filter_none, balance_until, sort-InOrder,
}

-- From a day on, the rows of a period are those up to its last day.
filter_period :
    (start end : ℕ) (b : ℤ) (rs : List RawRow)
    → All (λ r. start ≤ day_of r.date) rs
    → filter (λ r. leb start r.day && leb r.day end) (with_balance b rs)
      ≡ filter (λ r. ltb r.day (end + 1)) (with_balance b rs)
unfolding with_balance
filter_period start end b [] h = refl
filter_period start end b (r ∷ rs) h =
    ground (arith, h.0, filter_period start end (b +ℤ pos r.debit -ℤ pos r.credit) rs h.1)

period-Moves :
    (start end : ℕ) (b : ℤ) (rs : List RawRow)
    → InOrder rs
    → let full = with_balance b rs in
      let opening = last_balance b (filter (λ r. ltb r.day start) full) in
      let movements = filter (λ r. leb start r.day && leb r.day end) full in
      Moves opening (last_balance opening movements) (debits movements) (credits movements)
unfolding with_balance last_balance
period-Moves start end b [] o = omega arith
period-Moves start end b (r ∷ rs) o =
    let next = b +ℤ pos r.debit -ℤ pos r.credit in
    elim (Bool-cases (ltb (day_of r.date) start)) [
      | inl e ↦
          let late : leb start (day_of r.date) ≡ false = ground (arith, e) in
          rw (e, late) (period-Moves start end next rs o.1)
      | inr e ↦
          let from : start ≤ day_of r.date = ground (arith, e) in
          let rest = All-implies (λ q h. omega (arith, from, h)) rs o.0 in
          let none_before =
            filter_none (λ day. ltb day start) next rs
              (All-implies (λ q h. ground (arith, e, h)) rs o.0) in
          let same = filter_period start end b (r ∷ rs) (from, rest) in
          rw (e, none_before) (rw same (balance_until (end + 1) b (r ∷ rs) o))
    ]

filter_all : (rows : List LedgerRow) → filter (λ r. true) rows ≡ rows
filter_all [] = refl
filter_all (r ∷ rs) = ap (◌∷◌ r) (filter_all rs)

-- A statement reconciles: its closing balance is its opening balance with its total debits added and its
-- total credits taken away.
pub get_statement_reconciles :
    (org prop space_id start end : ℕ) (h : History) (s s' : Db) {st : Statement}
    → get_statement org prop space_id start end h s ≡ ok (st, s')
    → st.closing_balance ≡ st.opening_balance +ℤ pos st.total_debits -ℤ pos st.total_credits
unfolding get_statement build_full_ledger
get_statement_reconciles org prop space_id start end h s s' {st} e =
    let rs = sort before (raw_rows h) in
    let full = with_balance (pos 0) rs in
    let opening = last_balance (pos 0) (filter (λ r. ltb r.day start) full) in
    let movements = filter (λ r. leb start r.day && leb r.day end) full in
    let moves = period-Moves start end (pos 0) rs (sort-InOrder (raw_rows h)) in
    let (u, e0) =
      after_same (throw_if (ltb end start) (conflict period_dates)) _ s s' st
        (λ x t q. ground (arith, q)) e in
    let (p, e1) =
      after_same (get_owned_property org prop) _ s s' st
        (λ x t q. get_owned_property-same org prop s q) e0 in
    let (l, e2) =
      after_same (get_owned_lot org prop space_id) _ s s' st
        (λ x t q. get_owned_lot-same org prop space_id s q) e1 in
    let (c, e3) =
      after_same (get_configuration prop) _ s s' st (λ x t q. get_configuration-same prop s q) e2 in
    let starts : st.opening_balance ≡ opening = ground (arith, e3) in
    let ends : st.closing_balance ≡ last_balance opening movements = ground (arith, e3) in
    let debited : st.total_debits ≡ debits movements = ground (arith, e3, filter_all movements) in
    let credited : st.total_credits ≡ credits movements =
      ground (arith, e3, filter_all movements) in
    rw (starts, ends, debited, credited)
      (eq_of_parts (last_balance opening movements)
        (opening +ℤ pos (debits movements) -ℤ pos (credits movements))
        (omega (arith, moves, step-Moves opening (debits movements) (credits movements))))
