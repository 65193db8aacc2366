-- ===== src/Levies/Tables.antt =====
-- The updates of schedules and instalments in src/modules/financials/levies.service.ts, and the queries
-- after them.
use waslproperty_backend.Prelude.{
  ℕ, ◌≡◌, refl, inl, inr, false, some, List, [], ◌∷◌, arith, find, All, Bool-cases, ◌==◌,
}
use waslproperty_backend.Prelude.Result.{ok}
use waslproperty_backend.Store.{Db, Installment, LevySchedule, ScheduleStatus}
use waslproperty_backend.Levies.{
  compute_schedule_status, find_owned_schedule, get_owned_schedule, update_schedule,
  update_installment,
}
use waslproperty_backend.Levies.Issue.{is_unissuable, refresh_schedule}

-- The row of a schedule after `refresh_schedule`.
abbrev pub with_refreshed :
    LevySchedule → ℕ → (Installment → Installment) → LevySchedule → LevySchedule
with_refreshed l id f r = record r {
  installments = update_installment id f r.installments;
  status = compute_schedule_status l.status (update_installment id f l.installments);
}

update_schedule-twice :
    (id : ℕ) (f g : LevySchedule → LevySchedule) (ls : List LevySchedule)
    → ((r : LevySchedule) → (f r).id ≡ r.id)
    → update_schedule id g (update_schedule id f ls) ≡ update_schedule id (λ r. g (f r)) ls
unfolding update_schedule
update_schedule-twice id f g [] keep = refl
update_schedule-twice id f g (l ∷ ls) keep =
    ground (arith, update_schedule-twice id f g ls keep, keep l)

pub refresh_schedule-eq-ok :
    (l : LevySchedule) (id : ℕ) (f : Installment → Installment) (s : Db) {l' : LevySchedule}
    {s' : Db}
    → refresh_schedule l id f s ≡ ok (l', s')
    → (l' ≡ with_refreshed l id f l)
      × (s' ≡ record s { schedules = update_schedule l.id (with_refreshed l id f) s.schedules })
unfolding refresh_schedule
refresh_schedule-eq-ok l id f s {l'} {s'} h =
    let twice =
      update_schedule-twice l.id
        (λ r. record r { installments = update_installment id f r.installments })
        (λ r. record r {
          status = compute_schedule_status l.status (update_installment id f l.installments);
        })
        s.schedules (λ r. refl) in
    (ground arith, ground (arith, twice))

-- A query for a schedule by its id finds the updated row.
pub find_owned-update :
    (org prop id : ℕ) (f : LevySchedule → LevySchedule) (ls : List LevySchedule) {l : LevySchedule}
    → ((r : LevySchedule) → (f r).id ≡ r.id)
    → ((r : LevySchedule) → (f r).organisation_id ≡ r.organisation_id)
    → ((r : LevySchedule) → (f r).property_id ≡ r.property_id)
    → find_owned_schedule org prop id ls ≡ some l
    → find_owned_schedule org prop id (update_schedule l.id f ls) ≡ some (f l)
unfolding find_owned_schedule update_schedule
find_owned-update org prop id f [] a b c h = cc
find_owned-update org prop id f (r ∷ rs) {l} a b c h =
    let ih = find_owned-update org prop id f rs {l = l} a b c in ground (arith, ih, a r, b r, c r)

pub find-update_installment :
    (k : ℕ) (f : Installment → Installment) (is' : List Installment) {i : Installment}
    → ((x : Installment) → (f x).id ≡ x.id)
    → find (λ (x : Installment). x.id == k) is' ≡ some i
    → find (λ (x : Installment). x.id == k) (update_installment i.id f is') ≡ some (f i)
unfolding update_installment
find-update_installment k f [] a h = cc
find-update_installment k f (x ∷ xs) {i} a h =
    let ih = find-update_installment k f xs {i = i} a in ground (arith, ih, a x)

-- A schedule that may be issued stays so when its status is computed again.
pub compute_schedule_status-issuable :
    (st : ScheduleStatus) (is' : List Installment)
    → is_unissuable st ≡ false
    → is_unissuable (compute_schedule_status st is') ≡ false
unfolding compute_schedule_status
compute_schedule_status-issuable st is' h = ground arith

pub get_owned_schedule-eq-ok :
    (org prop id : ℕ) (s : Db) {l : LevySchedule} {t : Db}
    → get_owned_schedule org prop id s ≡ ok (l, t)
    → (t ≡ s) × (find_owned_schedule org prop id s.schedules ≡ some l)
unfolding get_owned_schedule
get_owned_schedule-eq-ok org prop id s h = (ground arith, ground arith)

module _ (P : LevySchedule → Type 0) (id : ℕ) (f : LevySchedule → LevySchedule) where
  -- An update keeps what it keeps of the row that it changes.
  pub All-update_schedule :
      (ls : List LevySchedule)
      → All P ls
      → All (λ r. r.id ≡ id → P (f r)) ls
      → All P (update_schedule id f ls)
  unfolding update_schedule
  All-update_schedule [] h k = tt
  All-update_schedule (l ∷ ls) h k = elim (Bool-cases (l.id == id)) [
    | inl e ↦ rw e (k.0 (ground arith), All-update_schedule ls h.1 k.1)
    | inr e ↦ rw e (h.0, All-update_schedule ls h.1 k.1)
  ]
