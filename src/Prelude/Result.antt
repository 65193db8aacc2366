-- ===== src/Prelude/Result.antt =====
-- Computations that throw, with the error classes of src/errors/AppError.ts. The message of an error
-- is a constructor that says which check threw it.
use Prim.Native.Nat.{ℕ}
use mathlib.Core.Path.{◌≡◌, refl}
use mathlib.Core.Logic.{◌⊎◌, inl, inr}

-- What a NotFoundError says was not found.
pub data Missing : Type 0 where
  property period account fund journal lot receipt charge allocation : Missing
  levy_schedule installment budget budget_line : Missing

-- The reasons of a ValidationError.
pub data Invalid : Type 0 where
  no_lots no_entitlement not_whole_cents end_not_after_start : Invalid
  too_few_lines unbalanced : Invalid
  missing_entitlements approval_in_future installments_total no_levy_revenue : Invalid
  year_length empty_budget approval_required approval_not_allowed : Invalid
  negative_entitlement cross_fund : ℕ → Invalid

-- The reasons of a ConflictError.
pub data Conflict : Type 0 where
  setup_not_started period_overlap period_not_closed : Conflict
  account_inactive no_covering_period period_closed : Conflict
  subledger_journal already_reversed : Conflict
  no_posting_account not_a_lot : Conflict
  receipt_reversed charge_cancelled fund_mismatch over_allocated over_applied : Conflict
  budget_not_active not_draft not_cancellable has_history nothing_to_preview : Conflict
  not_approved cannot_reissue not_issued no_journal shared_journal : Conflict
  setup_not_active year_overlap budget_exists not_revisable : Conflict
  receipt_not_recorded has_allocations allocation_reversed period_dates : Conflict

pub data AppError : Type 0 where
  not_found : Missing → AppError
  validation : Invalid → AppError
  conflict : Conflict → AppError
  -- Prisma's `findUniqueOrThrow` on a row that is not there.
  no_record : AppError
  -- A loop of the model used up its fuel.
  loop_limit : AppError

pub data Result {ℓ} (A : Type ℓ) : Type ℓ where
  ok : A → Result A
  err : AppError → Result A

pub Result-cases {ℓ} :
    {A : Type ℓ} (r : Result A) → ((e : AppError) × (r ≡ err e)) ⊎ ((a : A) × (r ≡ ok a))
Result-cases (ok a) = inr (a, refl)
Result-cases (err e) = inl (e, refl)
