-- ===== src/Periods.antt =====
-- src/modules/financials/accounting-periods.service.ts: the calendar of accounting periods.
pub mod Calendar
use waslproperty_backend.Prelude.{
  ℕ, ◌≡◌, Bool, true, false, ◌&&◌, Option, none, some, List, [], ◌∷◌, leb, ◌==◌, if◌then◌else◌,
  find, filter,
}
use waslproperty_backend.Prelude.Result.{
  not_found, validation, conflict, period, end_not_after_start, period_overlap, period_not_closed,
}
use waslproperty_backend.Store.{
  Db, Period, PeriodStatus, opened, closed, period_opened, period_closed, period_reopened,
}
use waslproperty_backend.Store.Tx.{Tx, pure, throw, gets, or_throw, throw_if, modify, ◌>>=◌, ◌>>◌}
use waslproperty_backend.Store.Rows.{
  get_owned_property, get_configuration, fresh_id, record_activity,
}

-- `getOwnedPeriod`
unfoldable pub get_owned_period : ℕ → ℕ → ℕ → Tx Period
get_owned_period organisation_id property_id period_id = do
  row ← gets (λ s.
      find
        (λ p.
          p.id == period_id && p.organisation_id == organisation_id && p.property_id == property_id)
        s.periods)
  or_throw row (not_found period)

-- The period's days hold the date.
abbrev pub covers : Period → ℕ → Bool
covers p date = leb p.start_date date && leb date p.end_date

-- `findCoveringPeriod`
unfoldable pub find_covering_period : ℕ → ℕ → List Period → Option Period
find_covering_period property_id date = find (λ p. p.property_id == property_id && covers p date)

-- `overlaps` in `create`
abbrev pub overlaps : ℕ → ℕ → Period → Bool
overlaps start end p = leb start p.end_date && leb p.start_date end

-- The loop over the existing periods of the property: the first that overlaps.
unfoldable pub find_overlap : ℕ → ℕ → ℕ → List Period → Option Period
find_overlap property_id start end =
    find (λ p. p.property_id == property_id && overlaps start end p)

-- `accountingPeriod.update({ where: { id } })`
unfoldable pub update_period : ℕ → (Period → Period) → List Period → List Period
update_period id f [] = []
update_period id f (p ∷ ps) =
    let rest = update_period id f ps in if p.id == id then f p ∷ rest else p ∷ rest

unfoldable pub create : ℕ → ℕ → ℕ → ℕ → ℕ → Tx Period
create organisation_id actor property_id start end = do
  get_owned_property organisation_id property_id
  configuration ← get_configuration property_id
  throw_if (leb end start) (validation end_not_after_start)
  clash ← gets (λ s. find_overlap property_id start end s.periods)
  elim clash [ some _ ↦ throw (conflict period_overlap) | none ↦ pure tt ]
  id ← fresh_id
  let row : Period = record {
    id = id;
    organisation_id = organisation_id;
    property_id = property_id;
    configuration_id = configuration.id;
    start_date = start;
    end_date = end;
    status = opened;
    closed_by_user_id = none;
    reopened_by_user_id = none;
  }
  modify (λ s. record s { periods = row ∷ s.periods })
  record_activity organisation_id property_id actor period_opened id
  pure row

-- The columns that `close` and `reopen` write.
abbrev pub closing : ℕ → Period → Period
closing actor p = record p { status = closed; closed_by_user_id = some actor }

abbrev pub reopening : ℕ → Period → Period
reopening actor p = record p { status = opened; reopened_by_user_id = some actor }

unfoldable pub close : ℕ → ℕ → ℕ → ℕ → Tx Period
close organisation_id actor property_id period_id = do
  get_owned_property organisation_id property_id
  get_configuration property_id
  row ← get_owned_period organisation_id property_id period_id
  elim row.status [
    | closed ↦ pure row
    | opened ↦ do
      modify (λ s. record s { periods = update_period row.id (closing actor) s.periods })
      record_activity organisation_id property_id actor period_closed row.id
      pure (closing actor row)
  ]

unfoldable pub reopen : ℕ → ℕ → ℕ → ℕ → Tx Period
reopen organisation_id actor property_id period_id = do
  get_owned_property organisation_id property_id
  get_configuration property_id
  row ← get_owned_period organisation_id property_id period_id
  elim row.status [
    | opened ↦ throw (conflict period_not_closed)
    | closed ↦ do
      modify (λ s. record s { periods = update_period row.id (reopening actor) s.periods })
      record_activity organisation_id property_id actor period_reopened row.id
      pure (reopening actor row)
  ]
