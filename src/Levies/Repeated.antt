-- ===== src/Levies/Repeated.antt =====
-- The repetition of `issue` in src/modules/financials/levies.service.ts: a retry for the same instalment
-- returns success and changes nothing.
use waslproperty_backend.Prelude.{
  ℕ, ◌≡◌, ◌≤◌, refl, false, Option, none, some, List, arith, find, ◌==◌,
}
use waslproperty_backend.Prelude.Result.{ok}
use waslproperty_backend.LevyAllocation.{Decimal}
use waslproperty_backend.Store.{
  Db, Configuration, Fund, Journal, Installment, installment_issued, LevySchedule,
}
use waslproperty_backend.Store.Money.{Numeric}
use waslproperty_backend.Store.Rows.{get_owned_property, get_configuration}
use waslproperty_backend.Posting.{PostCommand}
use waslproperty_backend.Posting.Checks.{KeyedRefs}
use waslproperty_backend.Posting.Ledger.{Ledger}
use waslproperty_backend.Posting.Posted.{Outcome, repeated, written}
use waslproperty_backend.Levies.{find_owned_schedule, get_owned_schedule, update_installment}
use waslproperty_backend.Levies.Split.{LotRow}
use waslproperty_backend.Levies.Issue.{is_unissuable, find_target, mark_issued, issue_target, issue}
use waslproperty_backend.Levies.Issued.{Struck}
use waslproperty_backend.Levies.Requests.{Setup, none_left, repeated_request, struck, issue-Request}
use waslproperty_backend.Levies.Reconciled.{post_installment-Outcome}
use waslproperty_backend.Levies.Tables.{
  with_refreshed, find_owned-update, find-update_installment, compute_schedule_status-issuable,
}

-- A posting changes the journals, the activity log and the next id only.
pub record Beside (s t : Db) : Type 0 where
  pub properties : t.properties ≡ s.properties
  pub configurations : t.configurations ≡ s.configurations
  pub funds : t.funds ≡ s.funds
  pub schedules : t.schedules ≡ s.schedules
  pub later : s.next_id ≤ t.next_id

pub Outcome-Beside :
    (num : Numeric) (org actor prop : ℕ) (c : PostCommand) (s t : Db) {j : Journal}
    → Outcome num org actor prop c s j t
    → Beside s t
Outcome-Beside num org actor prop c s t (repeated f e) = rw e (record {
  properties = refl;
  configurations = refl;
  funds = refl;
  schedules = refl;
  later = omega arith;
})
Outcome-Beside num org actor prop c s t (written cf f p) = rw p.state_eq (record {
  properties = refl;
  configurations = refl;
  funds = refl;
  schedules = refl;
  later = omega arith;
})

module _ (dec : Decimal) (num : Numeric) (today org actor prop : ℕ) where
  issue_found :
      (schedule_id : ℕ) (asked : Option ℕ) (s : Db) {cf : Configuration} {l : LevySchedule}
      {f : Fund} {i : Installment}
      → Setup org prop cf s
      → find_owned_schedule org prop schedule_id s.schedules ≡ some l
      → is_unissuable l.status ≡ false
      → find (λ (f : Fund). f.id == l.financial_fund_id) s.funds ≡ some f
      → find_target asked l.installments ≡ some i
      → i.status ≡ installment_issued
      → issue dec num today org actor prop schedule_id asked s ≡ ok ((l, none), s)
  unfolding issue get_owned_property get_configuration get_owned_schedule issue_target
  issue_found schedule_id asked s u found issuable funded target e =
      let a = u.owned in let b = u.configured in ground (arith, a, b)

  pub Struck-Beside :
      (cf : Configuration) (l : LevySchedule) (i : Installment) (s s' : Db)
      (r : LevySchedule × Option (List LotRow))
      → Ledger s
      → (st : Struck dec num today org actor prop cf l i s r s') → Beside s st.posted
  Struck-Beside cf l i s s' r ledger st =
      let c = st.created in
      let keyed : KeyedRefs st.charging =
        rw c.state_eq (record { accounts = ledger.keyed.accounts; funds = ledger.keyed.funds }) in
      let b = Outcome-Beside num org actor prop _ st.charging st.posted (
        post_installment-Outcome dec num today org actor prop cf l i st.receivable st.income
          st.charging st.posted keyed st.posting) in
      let aside = rw c.state_eq at b in
      record {
        properties = aside.properties;
        configurations = aside.configurations;
        funds = aside.funds;
        schedules = aside.schedules;
        later = let next = aside.later in omega arith;
      }

module _ (dec : Decimal) (num : Numeric) (org prop schedule_id installment_id : ℕ) where
  -- After a successful request to issue an instalment, the same request again, by whoever and on
  -- whatever day, succeeds with the same view, sends no notices and leaves the database as it is.
  pub issue_idempotent :
      (today later actor later_actor : ℕ) (s s' : Db) (r : LevySchedule × Option (List LotRow))
      → Ledger s
      → issue dec num today org actor prop schedule_id (some installment_id) s ≡ ok (r, s')
      → issue dec num later org later_actor prop schedule_id (some installment_id) s'
        ≡ ok ((r.0, none), s')
  unfolding find_target
  issue_idempotent today later actor later_actor s s' r ledger h =
      let q =
        issue-Request dec num today org actor prop schedule_id (some installment_id) s s' r h in
      let l = q.schedule in
      elim q.branch [
        | none_left e _ _ _ ↦ absurd (cc e)
        | repeated_request i f e same view ↦
            rw (same, view)
              (issue_found dec num later org later_actor prop schedule_id (some installment_id) s
                q.setup q.found q.issuable q.funded f e)
        | struck i f e st ↦
            let b = Struck-Beside dec num today org actor prop q.cf l i s s' r ledger st in
            let mark = mark_issued actor st.journal.id in
            let now = with_refreshed l i.id mark in
            let found =
              find_owned-update org prop schedule_id now s.schedules (λ x. refl) (λ x. refl)
                (λ x. refl) q.found in
            let target = find-update_installment installment_id mark l.installments (λ x. refl) f in
            let u = q.setup in
            let setup : Setup org prop q.cf s' = record {
              owner = u.owner;
              owned = rw (st.state_eq, b.properties) u.owned;
              configured = rw (st.state_eq, b.configurations) u.configured;
            } in
            rw st.view_eq (
              issue_found dec num later org later_actor prop schedule_id (some installment_id) s'
                {f = q.fund} setup (rw (st.state_eq, b.schedules) found)
                (compute_schedule_status-issuable l.status
                  (update_installment i.id mark l.installments) q.issuable)
                (rw (st.state_eq, b.funds) q.funded) target refl)
      ]
