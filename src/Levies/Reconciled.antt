-- ===== src/Levies/Reconciled.antt =====
-- `issue` in src/modules/financials/levies.service.ts: the charges of the lots agree with the journal of the
-- instalment, and a repeated request does nothing.
use waslproperty_backend.Prelude.{
  ℕ, ◌*◌, ◌≡◌, refl, ap, ◌∙◌, Option, none, some, List, [], ◌∷◌, ◌++◌, arith, sum_by, All,
  All-implies,
}
use waslproperty_backend.Prelude.Result.{ok}
use waslproperty_backend.Prelude.Unique.{DistinctIds}
use waslproperty_backend.LevyAllocation.{Decimal}
use waslproperty_backend.Store.{
  Db, Configuration, Space, Journal, JournalLine, Charge, issued, Installment, installment_pending,
  LevySchedule, lot_levy_receivable, levy_income,
}
use waslproperty_backend.Store.Money.{per_cent, Numeric}
use waslproperty_backend.Posting.{PostCommand, stored_lines, find_by_key}
use waslproperty_backend.Posting.Checks.{KeyedRefs}
use waslproperty_backend.Posting.Ledger.{Ledger}
use waslproperty_backend.Posting.Posted.{Outcome, repeated, written, post_in_transaction-Outcome}
use waslproperty_backend.Receipts.{transfer_lines, transfer_command}
use waslproperty_backend.PostingProfile.{resolve}
use waslproperty_backend.Levies.{find_owned_schedule}
use waslproperty_backend.Levies.Split.{LotRow}
use waslproperty_backend.Levies.Issue.{find_target, source_type_of, post_installment, issue}
use waslproperty_backend.Levies.Whole.{allocate_installments-sum}
use waslproperty_backend.Levies.Issued.{Struck, get_eligible_lots-DistinctLots}
use waslproperty_backend.Levies.Requests.{none_left, repeated_request, struck, issue-Request}

-- A line of a journal that moves an amount.
abbrev pub line : ℕ → ℕ → ℕ → ℕ → ℕ → JournalLine
line account_id fund_id debit credit index = record {
  account_id = account_id;
  financial_fund_id = fund_id;
  debit = debit;
  credit = credit;
  sort_order = index;
}

pub stored-transfer_lines :
    (num : Numeric) (a b fund amount : ℕ)
    → stored_lines num 0 (transfer_lines a b fund amount)
      ≡ line a fund (num.to_cents amount) 0 0 ∷ line b fund 0 (num.to_cents amount) 1 ∷ []
unfolding stored_lines
stored-transfer_lines num a b fund amount =
    let zero_exact : num.to_cents 0 ≡ 0 = num.exact 0 in rw zero_exact refl

module _ (dec : Decimal) (num : Numeric) (today org actor prop : ℕ) where
  abbrev pub command_of : Configuration → LevySchedule → Installment → ℕ → ℕ → PostCommand
  command_of cf l i receivable income =
      transfer_command today cf.currency_code (source_type_of l.kind) i.id
        (transfer_lines receivable income l.financial_fund_id (i.amount * per_cent))

  pub post_installment-Outcome :
      (cf : Configuration) (l : LevySchedule) (i : Installment) (receivable income : ℕ) (s t : Db)
      {j : Journal}
      → KeyedRefs s
      → post_installment dec num today org actor prop cf l i receivable income s ≡ ok (j, t)
      → Outcome num org actor prop (command_of cf l i receivable income) s j t
  unfolding post_installment
  post_installment-Outcome cf l i receivable income s t k h =
      post_in_transaction-Outcome num org actor prop (command_of cf l i receivable income) s k h

  -- What the books of the lots and the ledger gained.
  pub record Billed (l : LevySchedule) (i : Installment) (s s' : Db) : Type 0 where
    pub charges : List Charge
    pub charged : s'.charges ≡ charges ++ s.charges
    pub of_installment :
        All
          (λ (c : Charge).
            (c.levy_installment_id ≡ i.id)
            × (c.financial_fund_id ≡ l.financial_fund_id)
            × (c.status ≡ issued))
          charges
    pub total : sum_by (λ (c : Charge). c.amount) charges ≡ i.amount
    pub receivable : ℕ
    pub income : ℕ
    pub resolved_receivable :
        resolve prop lot_levy_receivable (some l.financial_fund_id) s ≡ ok (receivable, s)
    pub resolved_income : resolve prop levy_income (some l.financial_fund_id) s ≡ ok (income, s)
    pub journal : Journal
    pub journaled : s'.journals ≡ journal ∷ s.journals
    pub lines :
        journal.lines
        ≡ line receivable l.financial_fund_id i.amount 0 0
          ∷ line income l.financial_fund_id 0 i.amount 1
          ∷ []

  Struck-Billed :
      (cf : Configuration) (l : LevySchedule) (i : Installment) (s s' : Db)
      (r : LevySchedule × Option (List LotRow))
      → Ledger s
      → DistinctIds (λ (p : Space). p.id) s.spaces
      → find_by_key prop (source_type_of l.kind) i.id 1 s.journals ≡ none
      → Struck dec num today org actor prop cf l i s r s'
      → Billed l i s s'
  Struck-Billed cf l i s s' r ledger d unposted st =
      let c = st.created in
      let keyed : KeyedRefs st.charging =
        rw c.state_eq (record { accounts = ledger.keyed.accounts; funds = ledger.keyed.funds }) in
      let same : st.charging.journals ≡ s.journals = ap (λ (x : Db). x.journals) c.state_eq in
      elim (post_installment-Outcome cf l i st.receivable st.income st.charging st.posted keyed
        st.posting) [
          | repeated f e ↦ absurd (ground (arith, f, same, unposted))
          | written cf' f p ↦ record {
            charges = c.rows;
            charged = rw (st.state_eq, p.state_eq, c.state_eq) refl;
            of_installment = All-implies (λ x h. (h.installment, h.fund, h.unpaid)) c.rows c.each;
            total =
                c.sum
                ∙ allocate_installments-sum dec i st.lots
                    (get_eligible_lots-DistinctLots prop s d st.eligible) st.split;
            receivable = st.receivable;
            income = st.income;
            resolved_receivable = st.resolved_receivable;
            resolved_income = st.resolved_income;
            journal = st.journal;
            journaled = rw (st.state_eq, p.state_eq, c.state_eq) refl;
            lines =
                ap (λ (x : Journal). x.lines) p.row_eq
                ∙ rw (num.exact i.amount) at (
                    stored-transfer_lines num st.receivable st.income l.financial_fund_id
                      (i.amount * per_cent));
          }
        ]

  -- Issuing a pending instalment for which no journal was posted yet: the request that succeeds writes
  -- charges for that instalment that add up to its amount to the cent, and one journal that debits the
  -- same amount to the account that the posting profile gives for levies receivable and credits it to
  -- the account that it gives for levy income. It needs the invariant of the ledger and different ids of
  -- the spaces.
  pub issue_reconciles :
      (schedule_id : ℕ) (asked : Option ℕ) (s s' : Db) (r : LevySchedule × Option (List LotRow))
      (l : LevySchedule) (i : Installment)
      → Ledger s
      → DistinctIds (λ (p : Space). p.id) s.spaces
      → find_owned_schedule org prop schedule_id s.schedules ≡ some l
      → find_target asked l.installments ≡ some i
      → i.status ≡ installment_pending
      → find_by_key prop (source_type_of l.kind) i.id 1 s.journals ≡ none
      → issue dec num today org actor prop schedule_id asked s ≡ ok (r, s')
      → Billed l i s s'
  issue_reconciles schedule_id asked s s' r l i ledger d found target pending unposted h =
      let q = issue-Request dec num today org actor prop schedule_id asked s s' r h in
      let same : q.schedule ≡ l = ground (arith, q.found) in
      elim q.branch [
        | none_left e f _ _ ↦ absurd (ground (arith, e, f, same))
        | repeated_request j f e _ _ ↦ absurd (ground (arith, e, f, same))
        | struck j f e st ↦
            let same_target : j ≡ i = ground (arith, f, same) in
            Struck-Billed q.cf l i s s' r ledger d unposted (rw (same, same_target) at st)
      ]
