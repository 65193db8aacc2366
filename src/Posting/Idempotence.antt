-- ===== src/Posting/Idempotence.antt =====
-- A source event is posted once: src/modules/financials/ledger-posting.service.ts.
use waslproperty_backend.Prelude.{ℕ, ◌≡◌, inl, inr, ◌&&◌, some, arith, find, Option-cases, ◌==◌}
use waslproperty_backend.Prelude.Result.{ok}
use waslproperty_backend.Store.{Db, Property, Configuration, Period, closed, Journal}
use waslproperty_backend.Store.Money.{Numeric}
use waslproperty_backend.Store.Rows.{get_owned_property, get_configuration}
use waslproperty_backend.Periods.{find_covering_period}
use waslproperty_backend.Posting.{PostCommand, or_default, find_by_key, post_in_transaction, post}
use waslproperty_backend.Posting.Ledger.{Ledger}
use waslproperty_backend.Posting.Posted.{
  Outcome, repeated, written, post_in_transaction-Outcome, post-eq-ok,
}

-- Two commands name the same source event.
pub record SameEvent (c d : PostCommand) : Type 0 where
  pub type : c.source_type ≡ d.source_type
  pub id : c.source_id ≡ d.source_id
  pub version : or_default c.source_event_version 1 ≡ or_default d.source_event_version 1

pub find_by_key-Outcome :
    (num : Numeric) (org actor prop : ℕ) (c : PostCommand) (s s' : Db) {row : Journal}
    → Outcome num org actor prop c s row s'
    → find_by_key prop c.source_type c.source_id (or_default c.source_event_version 1) s'.journals
      ≡ some row
unfolding find_by_key
find_by_key-Outcome num org actor prop c s s' (repeated f same) = rw same f
find_by_key-Outcome num org actor prop c s s' (written cf f p) =
    rw (p.state_eq, p.row_eq) (ground arith)

-- The property and its financial setup, which every posting looks up first.
abbrev pub HasSetup : ℕ → ℕ → Db → Type 0
HasSetup org prop s =
    (p : Property) × (cf : Configuration) × (find
        (λ (x : Property). x.id == prop && x.organisation_id == org) s.properties
      ≡ some p)
    × (find (λ (x : Configuration). x.property_id == prop) s.configurations ≡ some cf)

post-HasSetup :
    (num : Numeric) (org actor prop : ℕ) (c : PostCommand) (s : Db) {r : Journal × Db}
    → post num org actor prop c s ≡ ok r
    → HasSetup org prop s
unfolding post post_in_transaction get_owned_property get_configuration
post-HasSetup num org actor prop c s h =
    elim (Option-cases
      (find (λ (x : Property). x.id == prop && x.organisation_id == org) s.properties)) [
        | inl e ↦ absurd (ground (arith, e))
        | inr (p, e) ↦
            elim (Option-cases
              (find (λ (x : Configuration). x.property_id == prop) s.configurations)) [
                | inl f ↦ absurd (ground (arith, e, f))
                | inr (cf, f) ↦ (p, cf, e, f)
              ]
      ]

HasSetup-Outcome :
    (num : Numeric) (org actor prop : ℕ) (c : PostCommand) (s s' : Db) {row : Journal}
    → Outcome num org actor prop c s row s'
    → HasSetup org prop s
    → HasSetup org prop s'
HasSetup-Outcome num org actor prop c s s' (repeated f same) h = rw same h
HasSetup-Outcome num org actor prop c s s' (written cf f p) (a, b, e, g) =
    rw p.state_eq (a, b, e, g)

post_found :
    (num : Numeric) (org actor prop : ℕ) (d : PostCommand) (s : Db) {row : Journal}
    → HasSetup org prop s
    → find_by_key prop d.source_type d.source_id (or_default d.source_event_version 1) s.journals
      ≡ some row
    → post num org actor prop d s ≡ ok (row, s)
unfolding post post_in_transaction get_owned_property get_configuration
post_found num org actor prop d s (a, b, e, g) f = ground arith

-- Once an event is posted, any later command for the same source event returns that journal and
-- changes nothing, whoever sends it and whatever its lines, amounts and date are.
pub post_idempotent :
    (num : Numeric) (org actor later_actor prop : ℕ) (c d : PostCommand) (s s' : Db) {row : Journal}
    → Ledger s
    → SameEvent c d
    → post num org actor prop c s ≡ ok (row, s')
    → post num org later_actor prop d s' ≡ ok (row, s')
post_idempotent num org actor later prop c d s s' l same h =
    let out =
      post_in_transaction-Outcome num org actor prop c s l.keyed
        (post-eq-ok num org actor prop c s h) in
    post_found num org later prop d s'
      (HasSetup-Outcome num org actor prop c s s' out (post-HasSetup num org actor prop c s h))
      (rw (← same.type, ← same.id, ← same.version)
        (find_by_key-Outcome num org actor prop c s s' out))

-- Nothing is posted into a closed period: where the period that covers the date is closed, a posting
-- that succeeds is the repetition of an earlier one, and changes nothing.
pub post_closed_period :
    (num : Numeric) (org actor prop : ℕ) (c : PostCommand) (s s' : Db) {p : Period} {row : Journal}
    → Ledger s
    → find_covering_period prop c.effective_date s.periods ≡ some p
    → p.status ≡ closed
    → post num org actor prop c s ≡ ok (row, s')
    → (find_by_key prop c.source_type c.source_id (or_default c.source_event_version 1) s.journals
        ≡ some row)
      × (s' ≡ s)
post_closed_period num org actor prop c s s' l covering shut h =
    elim (post_in_transaction-Outcome num org actor prop c s l.keyed
      (post-eq-ok num org actor prop c s h)) [
        | repeated f same ↦ (f, same)
        | written cf f q ↦ absurd (ground (arith, q.is_open, q.covering, covering, shut))
      ]
