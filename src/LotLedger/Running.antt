-- ===== src/LotLedger/Running.antt =====
-- The running balance of src/modules/financials/lot-ledger.service.ts.
use waslproperty_backend.Prelude.{
  ℕ, ◌+◌, ◌≤◌, ◌≡◌, refl, inl, inr, Bool, true, false, List, [], ◌∷◌, arith, ltb, filter, sum_by,
  All, All-implies, Bool-cases,
}
use waslproperty_backend.Prelude.Int.{ℤ, pos, pos_part, neg_part, ◌+ℤ◌, ◌-ℤ◌, +ℤ_parts, -ℤ_parts}
use waslproperty_backend.Prelude.Sort.{insert, sort, All-insert}
use waslproperty_backend.LotLedger.{RawRow, LedgerRow, before, day_of, with_balance, last_balance}

abbrev pub debits : List LedgerRow → ℕ
debits = sum_by (λ r. r.debit)

abbrev pub credits : List LedgerRow → ℕ
credits = sum_by (λ r. r.credit)

-- A later balance is an earlier one with some debits and credits between.
abbrev pub Moves : ℤ → ℤ → ℕ → ℕ → Type 0
Moves from to debit credit =
    pos_part to + neg_part from + credit ≡ pos_part from + neg_part to + debit

pub step-Moves : (b : ℤ) (d c : ℕ) → Moves b (b +ℤ pos d -ℤ pos c) d c
step-Moves b d c = omega (arith, +ℤ_parts b (pos d), -ℤ_parts (b +ℤ pos d) (pos c))

-- The rows are in the order of their days.
abbrev pub InOrder : List RawRow → Type 0
InOrder [] = Unit
InOrder (r ∷ rs) = All (λ q. day_of r.date ≤ day_of q.date) rs × InOrder rs

day_le : (a b : RawRow) → before a b ≡ true → day_of a.date ≤ day_of b.date
day_le a b h = let dates : a.date ≤ b.date = ground arith in omega arith

day_ge : (a b : RawRow) → before a b ≡ false → day_of b.date ≤ day_of a.date
day_ge a b h = let dates : b.date ≤ a.date = ground arith in omega arith

InOrder-insert : (x : RawRow) (rs : List RawRow) → InOrder rs → InOrder (insert before x rs)
unfolding insert
InOrder-insert x [] h = (tt, tt)
InOrder-insert x (y ∷ ys) h = elim (Bool-cases (before x y)) [
  | inl e ↦
      let first = day_le x y e in
      rw e ((first, All-implies (λ z t. omega (arith, first, t)) ys h.0), h)
  | inr e ↦ rw e (
    All-insert before (λ z. day_of y.date ≤ day_of z.date) x ys (day_ge x y e) h.0,
    InOrder-insert x ys h.1,
  )
]

pub sort-InOrder : (rs : List RawRow) → InOrder (sort before rs)
unfolding sort
sort-InOrder [] = tt
sort-InOrder (r ∷ rs) = InOrder-insert r (sort before rs) (sort-InOrder rs)

module _ (p : ℕ → Bool) where
  -- No row of a list that is out of reach is selected.
  pub filter_none :
      (b : ℤ) (rs : List RawRow)
      → All (λ q. p (day_of q.date) ≡ false) rs
      → filter (λ r. p r.day) (with_balance b rs) ≡ []
  unfolding with_balance
  filter_none b [] h = refl
  filter_none b (r ∷ rs) h =
      ground (arith, h.0, filter_none (b +ℤ pos r.debit -ℤ pos r.credit) rs h.1)

-- The balance before a day is that of the rows before it.
pub balance_until :
    (d : ℕ) (b : ℤ) (rs : List RawRow)
    → InOrder rs
    → let early = filter (λ r. ltb r.day d) (with_balance b rs) in
      Moves b (last_balance b early) (debits early) (credits early)
unfolding with_balance last_balance
balance_until d b [] o = omega arith
balance_until d b (r ∷ rs) o =
    let next = b +ℤ pos r.debit -ℤ pos r.credit in
    elim (Bool-cases (ltb (day_of r.date) d)) [
      | inl e ↦ rw e (omega (arith, step-Moves b r.debit r.credit, balance_until d next rs o.1))
      | inr e ↦
          let none_left =
            filter_none (λ day. ltb day d) next rs
              (All-implies (λ q h. ground (arith, e, h)) rs o.0) in
          rw (e, none_left) (omega arith)
    ]
