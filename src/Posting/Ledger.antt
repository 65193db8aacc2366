-- ===== src/Posting/Ledger.antt =====
-- The invariant of the journals that src/modules/financials/ledger-posting.service.ts writes: a source
-- event has one journal at most.
use waslproperty_backend.Prelude.{
  ℕ, ◌≤◌, ◌<◌, ◌≡◌, inl, inr, false, none, List, [], ◌∷◌, arith, All, All-implies, find-eq-none,
}
use waslproperty_backend.Prelude.Result.{Result-cases}
use waslproperty_backend.Store.{Db, Configuration, SourceType, Journal}
use waslproperty_backend.Store.Money.{Numeric}
use waslproperty_backend.Store.Tx.{after}
use waslproperty_backend.Posting.{
  PostCommand, or_default, source_code, has_key, find_by_key, post_in_transaction,
}
use waslproperty_backend.Posting.Checks.{KeyedRefs}
use waslproperty_backend.Posting.Posted.{Posted, repeated, written, post_in_transaction-Outcome}

-- Journal `k` is not of the source event of `j`.
abbrev pub OtherKey : Journal → Journal → Type 0
OtherKey j k = has_key j.property_id j.source_type j.source_id j.source_event_version k ≡ false

abbrev pub DistinctKeys : List Journal → Type 0
DistinctKeys [] = Unit
DistinctKeys (j ∷ js) = All (OtherKey j) js × DistinctKeys js

pub record Ledger (s : Db) : Type 0 where
  pub keyed : KeyedRefs s
  pub one_per_event : DistinctKeys s.journals
  pub fresh : All (λ j. j.id < s.next_id) s.journals

pub source_code-injective : (a b : SourceType) → source_code a ≡ source_code b → a ≡ b
source_code-injective a b h = ground arith

Ledger-Posted :
    (num : Numeric) (org actor prop : ℕ) (cf : Configuration) (c : PostCommand) (s s' : Db)
    {row : Journal}
    → Ledger s
    → find_by_key prop c.source_type c.source_id (or_default c.source_event_version 1) s.journals
      ≡ none
    → Posted num org actor prop cf c s row s'
    → Ledger s'
unfolding find_by_key
Ledger-Posted num org actor prop cf c s s' {row} l absent p =
    rw (p.state_eq, p.row_eq)
      (record {
        keyed = record { accounts = l.keyed.accounts; funds = l.keyed.funds };
        one_per_event = (
          find-eq-none
              (has_key prop c.source_type c.source_id (or_default c.source_event_version 1))
              s.journals absent,
          l.one_per_event,
        );
        fresh = (omega arith, All-implies (λ j h. omega arith) s.journals l.fresh);
      })

-- Posting keeps the ledger, whether it writes, repeats an earlier posting, or throws.
pub post_in_transaction-Ledger :
    (num : Numeric) (org actor prop : ℕ) (c : PostCommand) (s : Db)
    → Ledger s
    → Ledger (after s (post_in_transaction num org actor prop c s))
post_in_transaction-Ledger num org actor prop c s l =
    elim (Result-cases (post_in_transaction num org actor prop c s)) [
      | inl (e, q) ↦ rw (q, after) l
      | inr ((row, s'), q) ↦ elim (post_in_transaction-Outcome num org actor prop c s l.keyed q) [
        | repeated f same ↦ rw (q, after, same) l
        | written cf f p ↦ rw (q, after) (Ledger-Posted num org actor prop cf c s s' l f p)
      ]
    ]

-- A change of other tables keeps the ledger.
pub Ledger-same :
    (s t : Db)
    → Ledger s
    → t.accounts ≡ s.accounts
    → t.funds ≡ s.funds
    → t.journals ≡ s.journals
    → s.next_id ≤ t.next_id
    → Ledger t
Ledger-same s t l accounts funds journals later = record {
  keyed = record { accounts = rw accounts l.keyed.accounts; funds = rw funds l.keyed.funds };
  one_per_event = rw journals l.one_per_event;
  fresh = rw journals (All-implies (λ j h. omega arith) s.journals l.fresh);
}
