-- ===== src/Posting/Undo.antt =====
-- What a reversal of src/modules/financials/ledger-posting.service.ts means for the ledger.
use waslproperty_backend.Prelude.{
  ℕ, ◌+◌, ◌<◌, ◌≡◌, ◌≢◌, refl, ap, ◌∙◌, inl, inr, Bool, false, ◌&&◌, not, Option, some, List, [],
  ◌∷◌, map, arith, find, All-implies, All-at, Option-cases, find-eq-some, find-eq-none, ◌==◌,
}
use waslproperty_backend.Prelude.Buckets.{debits_of, credits_of}
use waslproperty_backend.Prelude.Result.{ok, err, conflict, already_reversed, Result-cases}
use waslproperty_backend.Store.{Db, Configuration, reversal, JournalLine, Journal}
use waslproperty_backend.Store.Money.{Numeric}
use waslproperty_backend.Store.Tx.{after}
use waslproperty_backend.Store.Rows.{get_configuration}
use waslproperty_backend.Posting.{find_by_key, has_key, stored_lines, is_subledger}
use waslproperty_backend.Posting.Reverse.{
  swapped, find_owned_journal, find_reversal, reverse_in_transaction,
}
use waslproperty_backend.Posting.Ledger.{Ledger}
use waslproperty_backend.Posting.Reversal.{Linked, reverse_in_transaction-Reversed, no_key_of_first}

-- The debits and the credits of the lines on an account.
abbrev pub account_debit : ℕ → List JournalLine → ℕ
account_debit = debits_of (λ l. l.account_id) (λ l. l.debit) (λ l. l.credit)

abbrev pub account_credit : ℕ → List JournalLine → ℕ
account_credit = credits_of (λ l. l.account_id) (λ l. l.debit) (λ l. l.credit)

stored-swapped :
    (num : Numeric) (account index : ℕ) (ls : List JournalLine)
    → (account_debit account (stored_lines num index (map swapped ls)) ≡ account_credit account ls)
      × (account_credit account (stored_lines num index (map swapped ls))
          ≡ account_debit account ls)
unfolding stored_lines
stored-swapped num account index [] = (refl, refl)
stored-swapped num account index (l ∷ ls) =
    let ih = stored-swapped num account (index + 1) ls in
    (ground (arith, ih.0, num.exact l.credit), ground (arith, ih.1, num.exact l.debit))

-- A reversal undoes its original account by account: what the original debited an account, the
-- reversal credits, and the other way round. The reversal is linked to the original, which stays in
-- the ledger as it was, and it is the only journal that is added.
pub reverse_undoes :
    (num : Numeric) (org actor prop journal_id : ℕ) (date : Option ℕ) (today : ℕ) (allow : Bool)
    (s s' : Db) {j : Journal}
    → Ledger s
    → Linked s
    → reverse_in_transaction num org actor prop journal_id date today allow s ≡ ok (j, s')
    → (original : Journal) × (find_owned_journal org prop journal_id s.journals ≡ some original)
      × (j.reversal_of ≡ some original.id)
      × (s'.journals ≡ j ∷ s.journals)
      × ((account : ℕ)
          → (account_debit account j.lines ≡ account_credit account original.lines)
            × (account_credit account j.lines ≡ account_debit account original.lines))
reverse_undoes num org actor prop jid date today allow s s' {j} l k h =
    let r = reverse_in_transaction-Reversed num org actor prop jid date today allow s s' l k h in
    (
      r.original,
      r.found,
      rw r.row_eq refl,
      ap (λ (t : Db). t.journals) r.state_eq,
      λ account. rw (r.row_eq, r.posting.row_eq) (stored-swapped num account 0 r.original.lines),
    )

owned_below :
    (org prop jid : ℕ) (s : Db) {o : Journal}
    → Ledger s
    → find_owned_journal org prop jid s.journals ≡ some o
    → (o.id ≡ jid) × (o.id < s.next_id)
unfolding find_owned_journal
owned_below org prop jid s {o} l f =
    let (t, i) =
      find-eq-some (λ j. j.id == jid && j.organisation_id == org && j.property_id == prop)
        s.journals f in
    (ground arith, All-at (λ (j : Journal). j.id < s.next_id) s.journals l.fresh i)

HasConfiguration-reverse :
    (num : Numeric) (org actor prop jid : ℕ) (date : Option ℕ) (today : ℕ) (allow : Bool) (s : Db)
    {o : Journal} {r : Journal × Db}
    → find_owned_journal org prop jid s.journals ≡ some o
    → reverse_in_transaction num org actor prop jid date today allow s ≡ ok r
    → ((c : Configuration) × (find (λ (x : Configuration). x.property_id == prop) s.configurations
          ≡ some c))
      × ((not allow && is_subledger o.source_type) ≡ false)
unfolding reverse_in_transaction get_configuration
HasConfiguration-reverse num org actor prop jid date today allow s f h =
    elim (Option-cases (find (λ (x : Configuration). x.property_id == prop) s.configurations)) [
      | inl e ↦ absurd (ground (arith, e))
      | inr (c, e) ↦ ((c, e), ground (arith, e, f))
    ]

reverse_refused :
    (num : Numeric) (org actor prop jid : ℕ) (date : Option ℕ) (today : ℕ) (allow : Bool) (s : Db)
    {c : Configuration} {o r : Journal}
    → find (λ (x : Configuration). x.property_id == prop) s.configurations ≡ some c
    → find_owned_journal org prop jid s.journals ≡ some o
    → (not allow && is_subledger o.source_type) ≡ false
    → find_reversal o.id s.journals ≡ some r
    → reverse_in_transaction num org actor prop jid date today allow s
      ≡ err (conflict already_reversed)
unfolding reverse_in_transaction get_configuration
reverse_refused num org actor prop jid date today allow s e f a g = ground (arith, e, f, g)

find_owned_ne :
    (org prop jid : ℕ) (j : Journal) (js : List Journal) {o : Journal}
    → j.id ≢ jid
    → find_owned_journal org prop jid js ≡ some o
    → find_owned_journal org prop jid (j ∷ js) ≡ some o
unfolding find_owned_journal
find_owned_ne org prop jid j js n f = ground arith

find_reversal_self :
    (id : ℕ) (j : Journal) (js : List Journal)
    → j.reversal_of ≡ some id
    → find_reversal id (j ∷ js) ≡ some j
unfolding find_reversal
find_reversal_self id j js e = ground arith

-- A journal is reversed at most once: after a reversal, any later attempt through the same entry point
-- is refused as already reversed, whoever makes it and whatever its date.
pub reverse_once :
    (num : Numeric) (org actor later prop journal_id : ℕ) (date later_date : Option ℕ)
    (today later_day : ℕ) (allow : Bool) (s s' : Db) {j : Journal}
    → Ledger s
    → Linked s
    → reverse_in_transaction num org actor prop journal_id date today allow s ≡ ok (j, s')
    → reverse_in_transaction num org later prop journal_id later_date later_day allow s'
      ≡ err (conflict already_reversed)
reverse_once num org actor later prop jid date later_date today later_day allow s s' {j} l k h =
    let r = reverse_in_transaction-Reversed num org actor prop jid date today allow s s' l k h in
    let (same, below) = owned_below org prop jid s l r.found in
    let ((c, e), a) =
      HasConfiguration-reverse num org actor prop jid date today allow s r.found h in
    let new_id : j.id ≡ s.next_id =
      ap (λ (x : Journal). x.id) r.row_eq ∙ ap (λ (x : Journal). x.id) r.posting.row_eq in
    let journals : s'.journals ≡ j ∷ s.journals = ap (λ (t : Db). t.journals) r.state_eq in
    reverse_refused num org later prop jid later_date later_day allow s' {c = c} {o = r.original}
      {r = j} (rw (r.state_eq, r.posting.state_eq) e)
      (rw journals (find_owned_ne org prop jid j s.journals (omega arith) r.found)) a
      (rw journals (
        find_reversal_self r.original.id j s.journals
          (ap (λ (x : Journal). x.reversal_of) r.row_eq)))

-- A reversal keeps the ledger, and every journal linked, whether it succeeds or throws.
pub reverse-Ledger :
    (num : Numeric) (org actor prop journal_id : ℕ) (date : Option ℕ) (today : ℕ) (allow : Bool)
    (s : Db)
    → Ledger s
    → Linked s
    → let t = after s (reverse_in_transaction num org actor prop journal_id date today allow s) in
      Ledger t × Linked t
unfolding find_by_key
reverse-Ledger num org actor prop jid date today allow s l k =
    elim (Result-cases (reverse_in_transaction num org actor prop jid date today allow s)) [
      | inl (e, q) ↦ rw (q, after) (l, k)
      | inr ((j, s'), q) ↦
          let r =
            reverse_in_transaction-Reversed num org actor prop jid date today allow s s' l k q in
          let absent = no_key_of_first prop r.original.id s.journals k r.first in
          rw (q, after, r.state_eq, r.posting.state_eq, r.row_eq, r.posting.row_eq)
            (
              record {
                keyed = record { accounts = l.keyed.accounts; funds = l.keyed.funds };
                one_per_event = (
                  find-eq-none (has_key prop reversal r.original.id 1) s.journals absent,
                  l.one_per_event,
                );
                fresh = (omega arith, All-implies (λ j h. omega arith) s.journals l.fresh);
              },
              (record { link = λ e. refl; source = λ id e. (refl, cc e, refl) }, k),
            )
    ]
