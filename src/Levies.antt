-- ===== src/Levies.antt =====
-- src/modules/financials/levies.service.ts: levy schedules, whose instalments are issued to the lots of
-- a property in proportion to their units of entitlement.
pub mod Split
pub mod Schedules
pub mod Issue
pub mod Corrections
pub mod Whole
pub mod Charged
pub mod Tables
pub mod Issued
pub mod Requests
pub mod Reconciled
pub mod Repeated
pub mod Lifecycle
pub mod Register
pub mod Registered
pub mod Withdrawn
pub mod Books
pub mod Kept
pub mod Adjusted
pub mod Effective
pub mod Undone
pub mod Drafted
pub mod Reachable
use waslproperty_backend.Prelude.{
  ℕ, ◌+◌, ◌*◌, Bool, true, false, ◌&&◌, ◌||◌, Option, none, some, List, [], ◌∷◌, ltb, ◌==◌,
  if◌then◌else◌, find, filter, length,
}
use waslproperty_backend.Prelude.Int.{ℤ}
use waslproperty_backend.Prelude.Result.{
  Result, ok, err, not_found, validation, levy_schedule, missing_entitlements, no_lots,
}
use waslproperty_backend.Store.{
  Db, Space, Installment, InstallmentStatus, installment_pending, installment_issued,
  installment_reversed, LevySchedule, ScheduleStatus, levy_draft, levy_approved,
  levy_partially_issued, levy_issued, levy_cancelled, levy_reversed,
}
use waslproperty_backend.Store.Tx.{Tx, pure, throw, gets, or_throw, throw_if, ◌>>=◌, ◌>>◌}

abbrev pub is_pending : Installment → Bool
is_pending i = elim i.status [ installment_pending ↦ true | _ ↦ false ]

abbrev pub is_issued : Installment → Bool
is_issued i = elim i.status [ installment_issued ↦ true | _ ↦ false ]

abbrev pub is_withdrawn : Installment → Bool
is_withdrawn i = elim i.status [ installment_reversed ↦ true | _ ↦ false ]

-- `i.issuedAt !== null`
abbrev pub was_issued : Installment → Bool
was_issued i = elim i.issued_by_user_id [ none ↦ false | some _ ↦ true ]

-- `installments.some(p)`
unfoldable pub some_of : (Installment → Bool) → List Installment → Bool
some_of p [] = false
some_of p (i ∷ is') = p i || some_of p is'

-- `computeScheduleStatus`, where the schedule is neither a draft nor cancelled
abbrev pub status_of : List Installment → ScheduleStatus
status_of installments =
    let count = length (filter is_issued installments) in
    if count == 0
    then levy_approved
    else if count == length installments
    then levy_issued
    else levy_partially_issued

unfoldable pub compute_schedule_status : ScheduleStatus → List Installment → ScheduleStatus
compute_schedule_status levy_draft installments = levy_draft
compute_schedule_status levy_cancelled installments = levy_cancelled
compute_schedule_status levy_approved installments = status_of installments
compute_schedule_status levy_partially_issued installments = status_of installments
compute_schedule_status levy_issued installments = status_of installments
compute_schedule_status levy_reversed installments = status_of installments

unfoldable pub find_owned_schedule : ℕ → ℕ → ℕ → List LevySchedule → Option LevySchedule
find_owned_schedule org prop id =
    find (λ l. l.id == id && l.organisation_id == org && l.property_id == prop)

-- `getOwnedSchedule`
unfoldable pub get_owned_schedule : ℕ → ℕ → ℕ → Tx LevySchedule
get_owned_schedule org prop id = do
  row ← gets (λ s. find_owned_schedule org prop id s.schedules)
  or_throw row (not_found levy_schedule)

-- `levySchedule.update({ where: { id } })`
unfoldable pub update_schedule :
    ℕ → (LevySchedule → LevySchedule) → List LevySchedule → List LevySchedule
update_schedule id f [] = []
update_schedule id f (l ∷ ls) =
    let rest = update_schedule id f ls in if l.id == id then f l ∷ rest else l ∷ rest

-- `levyInstallment.update({ where: { id } })` on the instalments of the schedule that holds the row, and
-- `refreshedInstallments`
unfoldable pub update_installment :
    ℕ → (Installment → Installment) → List Installment → List Installment
update_installment id f [] = []
update_installment id f (i ∷ is') =
    let rest = update_installment id f is' in if i.id == id then f i ∷ rest else i ∷ rest

pub record Lot : Type 0 where
  pub id : ℕ
  pub entitlement_value : ℤ

abbrev pub lacks_entitlement : Space → Bool
lacks_entitlement p = elim p.entitlement_value [ none ↦ true | some _ ↦ false ]

-- The spaces with their entitlement values, none of which is missing.
unfoldable pub lots_of : List Space → List Lot
lots_of [] = []
lots_of (p ∷ ps) = elim p.entitlement_value [
  | none ↦ lots_of ps
  | some v ↦ record { id = p.id; entitlement_value = v } ∷ lots_of ps
]

abbrev pub is_lot_of : ℕ → Space → Bool
is_lot_of prop p = p.property_id == prop && p.is_lot

-- `getEligibleLots` and `getEligibleLotsInTx`
unfoldable pub get_eligible_lots : ℕ → Tx (List Lot)
get_eligible_lots prop = do
  spaces ← gets (λ s. filter (is_lot_of prop) s.spaces)
  throw_if (ltb 0 (length (filter lacks_entitlement spaces))) (validation missing_entitlements)
  throw_if (length spaces == 0) (validation no_lots)
  pure (lots_of spaces)

-- What a computation outside the database throws, the transaction throws.
abbrev pub lift : {A : Type 0} → Result A → Tx A
lift (ok a) = pure a
lift (err e) = throw e
