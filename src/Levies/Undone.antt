-- ===== src/Levies/Undone.antt =====
-- `reverseInstallment` of src/modules/financials/levies.service.ts undoes an instalment in the ledger and among
-- the charges.
use waslproperty_backend.Prelude.{
  ℕ, ◌≡◌, ◌≢◌, false, filter, length, refl, ap, inl, inr, ◌∙◌, true, none, some, List, [], ◌∷◌,
  arith, find, All, Bool-cases, ◌==◌,
}
use waslproperty_backend.Prelude.Result.{ok}
use waslproperty_backend.Store.{
  Db, Charge, cancelled, Journal, Installment, installment_issued, installment_reversed,
  LevySchedule,
}
use waslproperty_backend.Store.Money.{Numeric}
use waslproperty_backend.Posting.Undo.{account_debit, account_credit}
use waslproperty_backend.Posting.Ledger.{Ledger}
use waslproperty_backend.Posting.Reversal.{Linked}
use waslproperty_backend.Posting.Reverse.{find_owned_journal, reverse_within_transaction}
use waslproperty_backend.Posting.Undo.{reverse_undoes}
use waslproperty_backend.Levies.{is_issued, find_owned_schedule}
use waslproperty_backend.Levies.Corrections.{
  cancel_charges, shares_journal, count_siblings, reverse_installment,
}
use waslproperty_backend.Levies.Withdrawn.{reverse_installment-Withdrawn}

All-cancel_charges_of :
    (id : ℕ) (cs : List Charge)
    → All (λ c. c.levy_installment_id ≡ id → c.status ≡ cancelled) (cancel_charges id cs)
unfolding cancel_charges
All-cancel_charges_of id [] = tt
All-cancel_charges_of id (c ∷ cs) = elim (Bool-cases (c.levy_installment_id == id)) [
  | inl e ↦ rw e ((λ _. refl), All-cancel_charges_of id cs)
  | inr e ↦ rw e ((λ q. absurd (ground arith)), All-cancel_charges_of id cs)
]

find_installment_id :
    (id : ℕ) (is' : List Installment) {i : Installment}
    → find (λ (x : Installment). x.id == id) is' ≡ some i
    → i.id ≡ id
find_installment_id id [] h = cc
find_installment_id id (x ∷ xs) {i} h =
    let ih = find_installment_id id xs {i = i} in ground (arith, ih)

-- Every other instalment with the journal is reversed.
abbrev pub Unshared : ℕ → ℕ → List LevySchedule → Type 0
Unshared journal_id target_id = All (λ (l : LevySchedule).
    All
      (λ (x : Installment).
        x.journal_entry_id ≡ some journal_id → x.id ≢ target_id → x.status ≡ installment_reversed)
      l.installments)

withdrawn_other :
    (journal_id target_id : ℕ) (x : Installment)
    → shares_journal journal_id target_id x ≡ false
    → x.journal_entry_id ≡ some journal_id
    → x.id ≢ target_id
    → x.status ≡ installment_reversed
withdrawn_other journal_id target_id x h j n = let seen = rw j at h in ground arith

none_shares :
    (journal_id target_id : ℕ) (xs : List Installment)
    → length (filter (shares_journal journal_id target_id) xs) ≡ 0
    → All
        (λ (x : Installment).
          x.journal_entry_id ≡ some journal_id → x.id ≢ target_id → x.status ≡ installment_reversed)
        xs
none_shares journal_id target_id [] h = tt
none_shares journal_id target_id (x ∷ xs) h =
    elim (Bool-cases (shares_journal journal_id target_id x)) [
      | inl e ↦ absurd (ground (arith, e))
      | inr e ↦ (
        λ j n. withdrawn_other journal_id target_id x e j n,
        none_shares journal_id target_id xs (rw e at h),
      )
    ]

count_siblings-Unshared :
    (journal_id target_id : ℕ) (ls : List LevySchedule)
    → count_siblings journal_id target_id ls ≡ 0
    → Unshared journal_id target_id ls
unfolding count_siblings
count_siblings-Unshared journal_id target_id [] h = tt
count_siblings-Unshared journal_id target_id (l ∷ ls) h = (
  none_shares journal_id target_id l.installments (omega arith),
  count_siblings-Unshared journal_id target_id ls (omega arith),
)

is_issued-status : (i : Installment) → is_issued i ≡ true → i.status ≡ installment_issued
is_issued-status i h = ground arith

module _ (num : Numeric) (today org actor prop schedule_id installment_id : ℕ) where
  undo-lines :
      (journal_id : ℕ) (s t : Db) {j : Journal}
      → Ledger s
      → Linked s
      → reverse_within_transaction num org actor prop journal_id none today s ≡ ok (j, t)
      → (original : Journal) × (find_owned_journal org prop journal_id s.journals ≡ some original)
        × (j.reversal_of ≡ some original.id)
        × (t.journals ≡ j ∷ s.journals)
        × ((account : ℕ)
            → (account_debit account j.lines ≡ account_credit account original.lines)
              × (account_credit account j.lines ≡ account_debit account original.lines))
  unfolding reverse_within_transaction
  undo-lines journal_id s t {j} ledger linked h =
      reverse_undoes num org actor prop journal_id none today true s t {j = j} ledger linked h

  -- A reversal of an instalment that succeeds: the caller's schedule lists the instalment, which was
  -- issued, and every other instalment with the same journal was reversed before; afterwards each of its
  -- charges is cancelled, and the ledger has one more journal, linked to that of the instalment, which
  -- takes back account by account what that one debited and credited. It needs the invariants of the
  -- ledger.
  pub reverse_installment_undoes :
      (s s' : Db) (r : LevySchedule)
      → Ledger s
      → Linked s
      → reverse_installment num today org actor prop schedule_id installment_id s ≡ ok (r, s')
      → (l : LevySchedule) × (find_owned_schedule org prop schedule_id s.schedules ≡ some l)
        × (i : Installment) × (find (λ (x : Installment). x.id == installment_id) l.installments
            ≡ some i)
        × (i.status ≡ installment_issued)
        × All (λ c. c.levy_installment_id ≡ installment_id → c.status ≡ cancelled) s'.charges
        × (journal_id : ℕ) × (i.journal_entry_id ≡ some journal_id)
        × Unshared journal_id installment_id s.schedules
        × (j : Journal) × (original : Journal) × (find_owned_journal org prop journal_id s.journals
            ≡ some original)
        × (j.reversal_of ≡ some original.id)
        × (s'.journals ≡ j ∷ s.journals)
        × ((account : ℕ)
            → (account_debit account j.lines ≡ account_credit account original.lines)
              × (account_credit account j.lines ≡ account_debit account original.lines))
  reverse_installment_undoes s s' r ledger linked h =
      let w =
        reverse_installment-Withdrawn num today org actor prop schedule_id installment_id s s' r
          h in
      let u = w.steps in
      let i = w.target in
      let id = find_installment_id installment_id w.schedule.installments w.listed in
      let (original, f, link, rows, lines) =
        undo-lines u.journal_id s u.reversing {j = u.journal} ledger linked u.undoing in
      let table : s'.charges ≡ cancel_charges installment_id u.reversing.charges =
        ap (λ (x : Db). x.charges) u.state_eq ∙ ap (λ k. cancel_charges k u.reversing.charges) id in
      (
        w.schedule,
        w.found,
        i,
        w.listed,
        is_issued-status i u.struck,
        rw table (All-cancel_charges_of installment_id u.reversing.charges),
        u.journal_id,
        u.journaled,
        count_siblings-Unshared u.journal_id installment_id s.schedules (rw id at u.unshared),
        u.journal,
        original,
        f,
        link,
        ap (λ (x : Db). x.journals) u.state_eq ∙ rows,
        lines,
      )
