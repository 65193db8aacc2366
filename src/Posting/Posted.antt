-- ===== src/Posting/Posted.antt =====
-- What a posting of src/modules/financials/ledger-posting.service.ts has checked and written.
use waslproperty_backend.Prelude.{
  ℕ, ◌+◌, ◌≡◌, ◌⊎◌, inl, inr, none, some, ◌∷◌, arith, All, Option-cases, find, ◌==◌,
}
use waslproperty_backend.Prelude.Result.{AppError, ok, err, Result-cases}
use waslproperty_backend.Store.{Db, Configuration, Period, opened, Journal, journal_posted}
use waslproperty_backend.Store.Money.{Numeric}
use waslproperty_backend.Store.Rows.{
  get_owned_property, get_configuration, fresh_id, record_activity,
}
use waslproperty_backend.Periods.{find_covering_period}
use waslproperty_backend.Posting.{
  PostCommand, or_default, find_by_key, check_lines, check_references, require_open_period,
  stored_lines, create_journal, post_new, post_in_transaction, post,
}
use waslproperty_backend.Posting.Checks.{
  Balanced, Referenced, KeyedRefs, check_lines-eq-ok, check_references-eq-ok,
  require_open_period-eq-ok,
}

-- The row that a posting writes.
abbrev pub journal_row : Numeric → ℕ → ℕ → ℕ → Configuration → Period → PostCommand → ℕ → Journal
journal_row num org actor prop configuration period c id = record {
  id = id;
  organisation_id = org;
  property_id = prop;
  configuration_id = configuration.id;
  period_id = period.id;
  effective_date = c.effective_date;
  currency_code = or_default c.currency_code configuration.currency_code;
  source_type = c.source_type;
  source_id = c.source_id;
  source_event_version = or_default c.source_event_version 1;
  posted_by_user_id = actor;
  reversal_of = none;
  lines = stored_lines num 0 c.lines;
}

-- The tables after it.
abbrev pub posted_db : ℕ → ℕ → ℕ → Journal → Db → Db
posted_db org actor prop row s = record s {
  journals = row ∷ s.journals;
  activities =
      record {
        organisation_id = org;
        property_id = prop;
        actor_user_id = actor;
        event_type = journal_posted;
        entity_id = row.id;
      }
      ∷ s.activities;
  next_id = s.next_id + 1;
}

pub record Posted (num : Numeric) (org actor prop : ℕ) (cf : Configuration) (c : PostCommand)
    (s : Db) (row : Journal) (s' : Db) : Type 0 where
  pub balanced : Balanced c
  pub references : All (Referenced org prop s) c.lines
  pub period : Period
  pub covering : find_covering_period prop c.effective_date s.periods ≡ some period
  pub is_open : period.status ≡ opened
  pub row_eq : row ≡ journal_row num org actor prop cf period c s.next_id
  pub state_eq : s' ≡ posted_db org actor prop row s

check_lines-cases :
    (c : PostCommand) (s : Db)
    → ((e : AppError) × (check_lines c s ≡ err e)) ⊎ ((check_lines c s ≡ ok (tt, s)) × Balanced c)
check_lines-cases c s = elim (Result-cases (check_lines c s)) [
  | inl failed ↦ inl failed
  | inr ((u, s'), q) ↦ let (same, b) = check_lines-eq-ok c s s' q in inr (rw same at q, b)
]

check_references-cases :
    (org prop : ℕ) (c : PostCommand) (s : Db)
    → KeyedRefs s
    → ((e : AppError) × (check_references org prop c.lines s ≡ err e))
      ⊎ ((check_references org prop c.lines s ≡ ok (tt, s)) × All (Referenced org prop s) c.lines)
check_references-cases org prop c s keyed =
    elim (Result-cases (check_references org prop c.lines s)) [
      | inl failed ↦ inl failed
      | inr ((u, s'), q) ↦
          let (same, b) = check_references-eq-ok org prop c.lines s s' keyed q in
          inr (rw same at q, b)
    ]

require_open_period-cases :
    (prop date : ℕ) (s : Db)
    → ((e : AppError) × (require_open_period prop date s ≡ err e))
      ⊎ ((p : Period) × (require_open_period prop date s ≡ ok (p, s))
          × (p.status ≡ opened)
          × (find_covering_period prop date s.periods ≡ some p))
require_open_period-cases prop date s = elim (Result-cases (require_open_period prop date s)) [
  | inl failed ↦ inl failed
  | inr ((p, s'), q) ↦
      let (same, o, f) = require_open_period-eq-ok prop date s s' q in inr (p, rw same at q, o, f)
]

post_new-Posted :
    (num : Numeric) (org actor prop : ℕ) (cf : Configuration) (c : PostCommand) (s : Db)
    {row : Journal} {s' : Db}
    → KeyedRefs s
    → post_new num org actor prop cf c s ≡ ok (row, s')
    → Posted num org actor prop cf c s row s'
unfolding post_new create_journal fresh_id record_activity
post_new-Posted num org actor prop cf c s {row} {s'} keyed h = elim (check_lines-cases c s) [
  | inl (e, q) ↦ absurd (ground (arith, q))
  | inr (q, balanced) ↦ elim (check_references-cases org prop c s keyed) [
    | inl (e, r) ↦ absurd (ground (arith, q, r))
    | inr (r, references) ↦ elim (require_open_period-cases prop c.effective_date s) [
      | inl (e, t) ↦ absurd (ground (arith, q, r, t))
      | inr (p, t, is_open, covering) ↦ record {
        balanced = balanced;
        references = references;
        period = p;
        covering = covering;
        is_open = is_open;
        row_eq = ground (arith, q, r, t);
        state_eq = ground (arith, q, r, t);
      }
    ]
  ]
]

-- A successful posting returned the journal that had the key already and changed nothing, or found
-- none and wrote a new row.
pub data Outcome (num : Numeric) (org actor prop : ℕ) (c : PostCommand) (s : Db) (row : Journal)
    (s' : Db) : Type 0 where
  repeated :
      find_by_key prop c.source_type c.source_id (or_default c.source_event_version 1) s.journals
        ≡ some row
      → s' ≡ s
      → Outcome num org actor prop c s row s'
  written :
      (cf : Configuration)
      → find_by_key prop c.source_type c.source_id (or_default c.source_event_version 1) s.journals
        ≡ none
      → Posted num org actor prop cf c s row s'
      → Outcome num org actor prop c s row s'

pub post_in_transaction-Outcome :
    (num : Numeric) (org actor prop : ℕ) (c : PostCommand) (s : Db) {row : Journal} {s' : Db}
    → KeyedRefs s
    → post_in_transaction num org actor prop c s ≡ ok (row, s')
    → Outcome num org actor prop c s row s'
unfolding post_in_transaction get_configuration
post_in_transaction-Outcome num org actor prop c s {row} {s'} keyed h =
    elim (Option-cases (find (λ (x : Configuration). x.property_id == prop) s.configurations)) [
      | inl e ↦ absurd (ground (arith, e))
      | inr (cf, e) ↦
          elim (Option-cases (
            find_by_key prop c.source_type c.source_id (or_default c.source_event_version 1)
              s.journals)) [
                | inr (j, f) ↦ repeated (ground (arith, e, f)) (ground (arith, e, f))
                | inl f ↦
                    written cf f
                      (post_new-Posted num org actor prop cf c s keyed (ground (arith, e, f)))
              ]
    ]

-- With the owner check in front.
pub post-eq-ok :
    (num : Numeric) (org actor prop : ℕ) (c : PostCommand) (s : Db) {row : Journal} {s' : Db}
    → post num org actor prop c s ≡ ok (row, s')
    → post_in_transaction num org actor prop c s ≡ ok (row, s')
unfolding post get_owned_property
post-eq-ok num org actor prop c s h = ground arith
