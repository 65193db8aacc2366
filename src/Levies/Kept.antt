-- ===== src/Levies/Kept.antt =====
-- Issuing an instalment in src/modules/financials/levies.service.ts keeps the books of receipts and charges;
-- issuing and reversing one keep the ledger.
use waslproperty_backend.Prelude.{ℕ, ◌≡◌, ◌≢◌, refl, Option, none, List, arith}
use waslproperty_backend.Prelude.Result.{ok}
use waslproperty_backend.LevyAllocation.{Decimal}
use waslproperty_backend.Store.{
  Db, Configuration, Journal, Installment, LevySchedule, reversal, LevyKind, regular, special,
}
use waslproperty_backend.Store.Money.{Numeric}
use waslproperty_backend.Posting.Ledger.{Ledger, Ledger-same}
use waslproperty_backend.Posting.Reversal.{Linked}
use waslproperty_backend.Receipts.Books.{Books}
use waslproperty_backend.Receipts.Applied.{Frame, post-Frame}
use waslproperty_backend.Receipts.Undoing.{reverse-Frame}
use waslproperty_backend.Levies.Split.{LotRow}
use waslproperty_backend.Levies.Issue.{source_type_of, post_installment, issue}
use waslproperty_backend.Levies.Corrections.{reverse_installment}
use waslproperty_backend.Levies.Issued.{Struck}
use waslproperty_backend.Levies.Requests.{none_left, repeated_request, struck, issue-Request}
use waslproperty_backend.Levies.Reconciled.{command_of}
use waslproperty_backend.Levies.Withdrawn.{reverse_installment-Withdrawn}
use waslproperty_backend.Levies.Books.{
  ChargesFresh, Created-Books, Created-ChargesFresh, Frame-Books, Frame-ChargesFresh, Books-aside,
}

source_type_of-ne-reversal : (k : LevyKind) → source_type_of k ≢ reversal
source_type_of-ne-reversal regular e = cc e
source_type_of-ne-reversal special e = cc e

module _ (dec : Decimal) (num : Numeric) (today org actor prop : ℕ) where
  post_installment-Frame :
      (cf : Configuration) (l : LevySchedule) (i : Installment) (receivable income : ℕ) (s t : Db)
      {j : Journal}
      → Ledger s
      → Linked s
      → post_installment dec num today org actor prop cf l i receivable income s ≡ ok (j, t)
      → Frame s t
  unfolding post_installment
  post_installment-Frame cf l i receivable income s t ledger linked h =
      post-Frame num org actor prop
        (command_of dec num today org actor prop cf l i receivable income) s t ledger linked
        (source_type_of-ne-reversal l.kind) h

  Struck-Books :
      (cf : Configuration) (l : LevySchedule) (i : Installment) (s s' : Db)
      (r : LevySchedule × Option (List LotRow))
      → Books s
      → ChargesFresh s
      → Struck dec num today org actor prop cf l i s r s'
      → Books s' × ChargesFresh s'
  Struck-Books cf l i s s' r b f st =
      let charged = Created-Books l i _ s st.charging st.created b f in
      let frame =
        post_installment-Frame cf l i st.receivable st.income st.charging st.posted {j = st.journal}
          charged.ledger charged.linked st.posting in
      let fresh =
        Frame-ChargesFresh st.charging st.posted frame
          (Created-ChargesFresh l i _ s st.charging st.created f) in
      rw st.state_eq (
        Books-aside _ _ st.posted (Frame-Books st.charging st.posted frame charged),
        record {
          charges = fresh.charges;
          adjustments = fresh.adjustments;
          allocations = fresh.allocations;
        },
      )

  -- Issuing an instalment keeps the ledger.
  pub issue-Ledger :
      (schedule_id : ℕ) (asked : Option ℕ) (s s' : Db) (r : LevySchedule × Option (List LotRow))
      → Ledger s
      → Linked s
      → issue dec num today org actor prop schedule_id asked s ≡ ok (r, s')
      → Ledger s' × Linked s'
  issue-Ledger schedule_id asked s s' r ledger linked h =
      let q = issue-Request dec num today org actor prop schedule_id asked s s' r h in
      elim q.branch [
        | none_left _ _ same _ ↦ rw same (ledger, linked)
        | repeated_request _ _ _ same _ ↦ rw same (ledger, linked)
        | struck i _ _ st ↦
            let c = st.created in
            let charging : Ledger st.charging × Linked st.charging =
              rw c.state_eq (Ledger-same s _ ledger refl refl refl (omega arith), linked) in
            let f =
              post_installment-Frame q.cf q.schedule i st.receivable st.income st.charging st.posted
                {j = st.journal} charging.0 charging.1 st.posting in
            rw st.state_eq (Ledger-same st.posted _ f.ledger refl refl refl (omega arith), f.linked)
      ]

  -- Issuing an instalment keeps the books of the receipts: no charge is over-allocated, and each has the
  -- status that its allocations give it, the new charges included. It needs that no allocation and no
  -- adjustment names a charge that does not exist yet, and keeps that too.
  pub issue-Books :
      (schedule_id : ℕ) (asked : Option ℕ) (s s' : Db) (r : LevySchedule × Option (List LotRow))
      → Books s
      → ChargesFresh s
      → issue dec num today org actor prop schedule_id asked s ≡ ok (r, s')
      → Books s' × ChargesFresh s'
  issue-Books schedule_id asked s s' r b f h =
      let q = issue-Request dec num today org actor prop schedule_id asked s s' r h in
      elim q.branch [
        | none_left _ _ same _ ↦ rw same (b, f)
        | repeated_request _ _ _ same _ ↦ rw same (b, f)
        | struck i _ _ st ↦ Struck-Books q.cf q.schedule i s s' r b f st
      ]

-- Reversing an instalment keeps the ledger.
pub reverse_installment-Ledger :
    (num : Numeric) (today org actor prop schedule_id installment_id : ℕ) (s s' : Db)
    (r : LevySchedule)
    → Ledger s
    → Linked s
    → reverse_installment num today org actor prop schedule_id installment_id s ≡ ok (r, s')
    → Ledger s' × Linked s'
reverse_installment-Ledger num today org actor prop schedule_id installment_id s s' r ledger linked
      h =
    let w =
      reverse_installment-Withdrawn num today org actor prop schedule_id installment_id s s' r h in
    let u = w.steps in
    let f =
      reverse-Frame num org actor prop u.journal_id none today s u.reversing {j = u.journal} ledger
        linked u.undoing in
    rw u.state_eq (Ledger-same u.reversing _ f.ledger refl refl refl (omega arith), f.linked)
