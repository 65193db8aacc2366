-- ===== src/Posting/Locking.antt =====
-- What `close` and `reopen` of src/modules/financials/accounting-periods.service.ts mean for the postings of
-- src/modules/financials/ledger-posting.service.ts.
use waslproperty_backend.Prelude.{ℕ, ◌≡◌, ◌≢◌, In}
use waslproperty_backend.Store.{Db, Period}
use waslproperty_backend.Periods.Calendar.{Calendar}

-- The period that a request is about.
pub record Target (org prop id : ℕ) (s : Db) (p : Period) : Type 0 where
  pub listed : In p s.periods
  pub named : p.id ≡ id
  pub owner : p.organisation_id ≡ org
  pub property : p.property_id ≡ prop

-- The row that a request about a period leaves, in place of `p`; the other periods stay.
pub record Replaced (p : Period) (s s' : Db) (row : Period) : Type 0 where
  pub listed : In row s'.periods
  pub id : row.id ≡ p.id
  pub property : row.property_id ≡ p.property_id
  pub start : row.start_date ≡ p.start_date
  pub end_date : row.end_date ≡ p.end_date
  pub others : (q : Period) → In q s.periods → q.id ≢ p.id → In q s'.periods
