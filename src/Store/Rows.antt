-- ===== src/Store/Rows.antt =====
-- The steps that the services of src/modules/financials share: the owner check of a property, the
-- start of financial setup, new ids, and the activity log (src/modules/activity/activity.ts).
use waslproperty_backend.Prelude.{ℕ, ◌+◌, ◌&&◌, ◌∷◌, ◌==◌, find}
use waslproperty_backend.Prelude.{◌≡◌, arith}
use waslproperty_backend.Prelude.Result.{ok, not_found, conflict, property, setup_not_started}
use waslproperty_backend.Store.{Db, Property, Configuration, EventType}
use waslproperty_backend.Store.Tx.{Tx, pure, or_throw, gets, modify, ◌>>=◌, ◌>>◌}

-- `getOwnedProperty`
unfoldable pub get_owned_property : ℕ → ℕ → Tx Property
get_owned_property organisation_id property_id = do
  row ←
      gets
        (λ s. find (λ p. p.id == property_id && p.organisation_id == organisation_id) s.properties)
  or_throw row (not_found property)

-- `financialConfiguration.findUnique({ where: { propertyId } })`, and the error if there is none. A lock
-- on the row follows it in the transactions that post and in those of accounting periods, not in the
-- upsert of the posting profile.
unfoldable pub get_configuration : ℕ → Tx Configuration
get_configuration property_id = do
  row ← gets (λ s. find (λ c. c.property_id == property_id) s.configurations)
  or_throw row (conflict setup_not_started)

-- A new row's id.
unfoldable pub fresh_id : Tx ℕ
fresh_id = do
  id ← gets (λ s. s.next_id)
  modify (λ s. record s { next_id = s.next_id + 1 })
  pure id

-- `recordActivity`
unfoldable pub record_activity : ℕ → ℕ → ℕ → EventType → ℕ → Tx (Unit {0})
record_activity organisation_id property_id actor event entity = modify λ s. record s {
  activities =
      record {
        organisation_id = organisation_id;
        property_id = property_id;
        actor_user_id = actor;
        event_type = event;
        entity_id = entity;
      }
      ∷ s.activities;
}

-- The lookups change nothing.
pub get_owned_property-same :
    (org prop : ℕ) (s : Db) {p : Property} {t : Db}
    → get_owned_property org prop s ≡ ok (p, t)
    → t ≡ s
unfolding get_owned_property
get_owned_property-same org prop s h = ground arith

pub get_configuration-same :
    (prop : ℕ) (s : Db) {c : Configuration} {t : Db} → get_configuration prop s ≡ ok (c, t) → t ≡ s
unfolding get_configuration
get_configuration-same prop s h = ground arith

-- The end of a request that is written to the activity log.
pub record_activity-pure :
    {A : Type 0} (org prop actor : ℕ) (event : EventType) (entity : ℕ) (a : A) (s : Db) {r : A}
    {s' : Db}
    → (record_activity org prop actor event entity >> pure a) s ≡ ok (r, s')
    → (r ≡ a) × (s' ≡ record s { activities = s'.activities })
unfolding record_activity
record_activity-pure org prop actor event entity a s h = (ground arith, ground arith)
