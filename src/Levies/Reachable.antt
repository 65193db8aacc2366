-- ===== src/Levies/Reachable.antt =====
-- Any sequence of the requests of src/modules/financials/levies.service.ts, as steps between databases.
use waslproperty_backend.Prelude.{ℕ, ◌≡◌, Option, List}
use waslproperty_backend.Prelude.Int.{ℤ}
use waslproperty_backend.Prelude.Result.{ok}
use waslproperty_backend.LevyAllocation.{Decimal}
use waslproperty_backend.Store.{Db, Adjustment, LevySchedule}
use waslproperty_backend.Store.Money.{Numeric}
use waslproperty_backend.Posting.Ledger.{Ledger, Ledger-same}
use waslproperty_backend.Posting.Reversal.{Linked}
use waslproperty_backend.Levies.Split.{LotRow}
use waslproperty_backend.Levies.Schedules.{
  InstallmentInput, create_regular, create_special, approve, cancel,
}
use waslproperty_backend.Levies.Issue.{issue}
use waslproperty_backend.Levies.Corrections.{reverse_installment, create_adjustment}
use waslproperty_backend.Levies.Lifecycle.{Register, Register-same}
use waslproperty_backend.Levies.Register.{IsQuiet, approve-KeepsRegister, cancel-KeepsRegister}
use waslproperty_backend.Levies.Registered.{
  create_regular-KeepsRegister, create_special-KeepsRegister, issue-KeepsRegister,
}
use waslproperty_backend.Levies.Withdrawn.{reverse_installment-Register}
use waslproperty_backend.Levies.Kept.{issue-Ledger, reverse_installment-Ledger}
use waslproperty_backend.Levies.Adjusted.{create_adjustment-Kept}

module _ (dec : Decimal) (num : Numeric) (random_uuid : ℕ → ℕ) (org prop : ℕ) where
  -- A request of some user on some day that succeeded.
  pub data Step (s s' : Db) : Type 0 where
    drafted_regular :
        (actor fund_id budget_id : ℕ) (inputs : List InstallmentInput) (l : LevySchedule)
        → create_regular num org actor prop fund_id budget_id inputs s ≡ ok (l, s')
        → Step s s'
    drafted_special :
        (today actor fund_id date : ℕ) (inputs : List InstallmentInput) (l : LevySchedule)
        → create_special num today org actor prop fund_id date inputs s ≡ ok (l, s')
        → Step s s'
    approved :
        (actor id : ℕ) (l : LevySchedule) → approve org actor prop id s ≡ ok (l, s') → Step s s'
    dropped :
        (actor id : ℕ) (l : LevySchedule) → cancel org actor prop id s ≡ ok (l, s') → Step s s'
    struck :
        (today actor id : ℕ) (asked : Option ℕ) (r : LevySchedule × Option (List LotRow))
        → issue dec num today org actor prop id asked s ≡ ok (r, s')
        → Step s s'
    withdrawn :
        (today actor id installment_id : ℕ) (l : LevySchedule)
        → reverse_installment num today org actor prop id installment_id s ≡ ok (l, s')
        → Step s s'
    corrected :
        (today actor charge_id : ℕ) (amount : ℤ) (key : Option ℕ) (a : Adjustment)
        → create_adjustment num today random_uuid org actor prop charge_id amount key s ≡ ok (a, s')
        → Step s s'

  pub data Reach (s : Db) : Db → Type 0 where
    here : Reach s s
    next : {t u : Db} → Reach s t → Step t u → Reach s u

  pub record Standing (s : Db) : Type 0 where
    pub ledger : Ledger s
    pub linked : Linked s
    pub register : Register s

  Standing-quiet : (s t : Db) → Standing s → Register t × IsQuiet s t → Standing t
  Standing-quiet s t h (r, q) = record {
    ledger = Ledger-same s t h.ledger q.accounts q.funds q.journals q.later;
    linked = rw q.journals h.linked;
    register = r;
  }

  pub Step-Standing : {s t : Db} → Step s t → Standing s → Standing t
  Step-Standing {s} {t} (drafted_regular actor fund_id budget_id inputs l e) h =
      Standing-quiet s t h (
        create_regular-KeepsRegister num org actor prop fund_id budget_id inputs s t l h.register e)
  Step-Standing {s} {t} (drafted_special today actor fund_id date inputs l e) h =
      Standing-quiet s t h (
        create_special-KeepsRegister num org actor prop today fund_id date inputs s t l h.register
          e)
  Step-Standing {s} {t} (approved actor id l e) h =
      Standing-quiet s t h (approve-KeepsRegister org actor prop id s t l h.register e)
  Step-Standing {s} {t} (dropped actor id l e) h =
      Standing-quiet s t h (cancel-KeepsRegister org actor prop id s t l h.register e)
  Step-Standing {s} {t} (struck today actor id asked r e) h =
      let (ledger, linked) =
        issue-Ledger dec num today org actor prop id asked s t r h.ledger h.linked e in
      record {
        ledger = ledger;
        linked = linked;
        register =
            issue-KeepsRegister dec num today org actor prop id asked s t r h.ledger h.register e;
      }
  Step-Standing {s} {t} (withdrawn today actor id installment_id l e) h =
      let (ledger, linked) =
        reverse_installment-Ledger num today org actor prop id installment_id s t l h.ledger
          h.linked e in
      record {
        ledger = ledger;
        linked = linked;
        register =
            reverse_installment-Register num today org actor prop id installment_id s t l h.ledger
              h.linked h.register e;
      }
  Step-Standing {s} {t} (corrected today actor charge_id amount key a e) h =
      let (ledger, linked, same, later) =
        create_adjustment-Kept num today random_uuid org actor prop charge_id amount key s t a
          h.ledger h.linked e in
      record {
        ledger = ledger;
        linked = linked;
        register = Register-same s t h.register same later;
      }

  pub Reach-Standing : {s t : Db} → Reach s t → Standing s → Standing t
  Reach-Standing here h = h
  Reach-Standing (next r st) h = Step-Standing st (Reach-Standing r h)
