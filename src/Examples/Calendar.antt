-- ===== src/Examples/Calendar.antt =====
-- The calendar of src/modules/financials/accounting-periods.service.ts on concrete periods.
use waslproperty_backend.Prelude.{◌≡◌, refl, inr, some, arith, here}
use waslproperty_backend.Prelude.Result.{
  err, validation, end_not_after_start, conflict, period_overlap,
}
use waslproperty_backend.Store.{Db, Period}
use waslproperty_backend.Store.Tx.{after}
use waslproperty_backend.Store.Rows.{
  get_owned_property, get_configuration, fresh_id, record_activity,
}
use waslproperty_backend.Periods.{
  find_covering_period, find_overlap, closing, reopening, create, close, reopen,
}
use waslproperty_backend.Periods.Calendar.{Calendar, create-Calendar, find_covering_period_unique}
use waslproperty_backend.Examples.Data.{db, first_half, second_half}

db-Calendar : Calendar db
db-Calendar = record {
  disjoint = ((inr (inr (omega arith)), tt), (tt, tt));
  forward = (omega arith, (omega arith, tt));
  fresh = (omega arith, (omega arith, tt));
}

-- The last day of a period is in it.
create_same_day : create 1 1 1 365 400 db ≡ err (conflict period_overlap)
unfolding create get_owned_property get_configuration find_overlap
create_same_day = refl

create_next_day : (after db (create 1 1 1 366 400 db)).next_id ≡ 101
unfolding create get_owned_property get_configuration find_overlap fresh_id record_activity
create_next_day = refl

create_empty : create 1 1 1 400 400 db ≡ err (validation end_not_after_start)
unfolding create get_owned_property get_configuration
create_empty = refl

create_example : Calendar (after db (create 1 1 1 366 400 db))
create_example = create-Calendar 1 1 1 366 400 db db-Calendar

abbrev db_closed : Db
db_closed = after db (close 1 7 1 31 db)

abbrev shut : Period
shut = closing 7 second_half

abbrev db_reopened : Db
db_reopened = after db (reopen 1 7 1 30 db)

abbrev open_again : Period
open_again = reopening 7 first_half

find_covering_period_example : find_covering_period 1 200 db.periods ≡ some second_half
find_covering_period_example =
    find_covering_period_unique 1 200 db {p = second_half} db-Calendar (here refl) (refl, refl)
