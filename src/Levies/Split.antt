-- ===== src/Levies/Split.antt =====
-- `allocateInstallments` in src/modules/financials/levies.service.ts: the rows of the lots with their
-- shares of the instalments.
use waslproperty_backend.Prelude.{ℕ, ◌+◌, ◌*◌, List, [], ◌∷◌, ◌++◌, map, ◌==◌, if◌then◌else◌}
use waslproperty_backend.Prelude.Int.{ℤ}
use waslproperty_backend.Prelude.Result.{Result, ok, err}
use waslproperty_backend.LevyAllocation.{
  EntitlementEntry, per_cent, Decimal, allocate_by_entitlement,
}
use waslproperty_backend.Store.{Installment}
use waslproperty_backend.Levies.{Lot}

-- A lot's share of an instalment.
pub record Share : Type 0 where
  pub levy_installment_id : ℕ
  pub due_date : ℕ
  pub amount : ℕ

-- `LotAllocationPreviewRow`
pub record LotRow : Type 0 where
  pub space_id : ℕ
  pub entitlement_value : ℤ
  pub installments : List Share
  pub total : ℕ

abbrev pub entries : List Lot → List EntitlementEntry
entries = map (λ (l : Lot). record { key = l.id; entitlement_value = l.entitlement_value })

-- The Map `rows` before the loop. The ids of the lots are keys of a table.
abbrev pub empty_rows : List Lot → List LotRow
empty_rows = map (λ (l : Lot). record {
  space_id = l.id;
  entitlement_value = l.entitlement_value;
  installments = [];
  total = 0;
})

abbrev pub add_share : Share → LotRow → LotRow
add_share x r = record r { installments = r.installments ++ x ∷ []; total = r.total + x.amount }

-- The body of the inner loop, on the row of `rows.get(spaceId)`
unfoldable pub push_share : ℕ → Share → List LotRow → List LotRow
push_share k x [] = []
push_share k x (r ∷ rs) =
    let rest = push_share k x rs in if r.space_id == k then add_share x r ∷ rest else r ∷ rest

-- The inner loop.
unfoldable pub push_shares : Installment → List (ℕ × ℕ) → List LotRow → List LotRow
push_shares i [] rows = rows
push_shares i ((k, v) ∷ m) rows =
    push_shares i m
      (push_share k (record { levy_installment_id = i.id; due_date = i.due_date; amount = v }) rows)

module _ (dec : Decimal) where
  -- The outer loop.
  unfoldable pub allocate_onto : List Lot → List Installment → List LotRow → Result (List LotRow)
  allocate_onto lots [] rows = ok rows
  allocate_onto lots (i ∷ is') rows =
      elim (allocate_by_entitlement dec (i.amount * per_cent) (entries lots)) [
        | ok m ↦ allocate_onto lots is' (push_shares i m rows)
        | err e ↦ err e
      ]

  unfoldable pub allocate_installments : List Installment → List Lot → Result (List LotRow)
  allocate_installments installments lots = allocate_onto lots installments (empty_rows lots)
