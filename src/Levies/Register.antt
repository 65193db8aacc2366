-- ===== src/Levies/Register.antt =====
-- The requests of src/modules/financials/levies.service.ts keep the register of schedules.
use waslproperty_backend.Prelude.{
  ℕ, ◌≡◌, ◌≤◌, refl, ◌∙◌, not, some, List, arith, All-at, In, find-eq-some,
}
use waslproperty_backend.Prelude.Result.{ok}
use waslproperty_backend.Store.{
  Db, EventType, LevySchedule, ScheduleStatus, levy_draft, levy_approved, levy_partially_issued,
  levy_issued, levy_cancelled, levy_reversed, levy_schedule_approved, levy_schedule_cancelled,
}
use waslproperty_backend.Store.Tx.{Tx, pure, modify, throw_if, ◌>>◌, bind-eq-ok, throw_if-eq-ok}
use waslproperty_backend.Store.Rows.{
  get_owned_property, record_activity, get_owned_property-same, record_activity-pure,
}
use waslproperty_backend.Levies.{
  was_issued, some_of, compute_schedule_status, find_owned_schedule, get_owned_schedule,
  update_schedule,
}
use waslproperty_backend.Levies.Schedules.{is_cancellable, approve_found, approve, cancel}
use waslproperty_backend.Levies.Tables.{get_owned_schedule-eq-ok}
use waslproperty_backend.Levies.Lifecycle.{
  IsConsistent, Register, status_of-pending, pending_of_some_of, Register-update,
}

-- A change that the ledger does not see.
pub record IsQuiet (s t : Db) : Type 0 where
  pub accounts : t.accounts ≡ s.accounts
  pub funds : t.funds ≡ s.funds
  pub journals : t.journals ≡ s.journals
  pub later : s.next_id ≤ t.next_id

-- A transaction body that keeps the register, and the ledger, when it succeeds.
abbrev pub KeepsRegister : {A : Type 0} → Tx A → Type 0
KeepsRegister {A} m =
    (s s' : Db) (a : A) → Register s → m s ≡ ok (a, s') → Register s' × IsQuiet s s'

pub In-find_owned :
    (org prop id : ℕ) (ls : List LevySchedule) {l : LevySchedule}
    → find_owned_schedule org prop id ls ≡ some l
    → In l ls
unfolding find_owned_schedule
In-find_owned org prop id ls h = (find-eq-some _ ls h).1

pub IsConsistent-at : (s : Db) {l : LevySchedule} → Register s → In l s.schedules → IsConsistent l
IsConsistent-at s r i = All-at IsConsistent s.schedules r.consistent i

-- The end of a request that writes one schedule.
Register-written :
    {A : Type 0} (org prop actor id : ℕ) (event : EventType) (l : LevySchedule)
    (f : LevySchedule → LevySchedule) (a b : A) (s s' : Db)
    → Register s
    → In l s.schedules
    → ((r : LevySchedule) → (f r).id ≡ r.id)
    → IsConsistent (f l)
    → (modify (λ u. record u { schedules = update_schedule l.id f u.schedules })
          >> (record_activity org prop actor event id >> pure a))
        s
      ≡ ok (b, s')
    → Register s' × IsQuiet s s'
Register-written org prop actor id event l f a b s s' r i keep c h =
    let (_, logged) =
      record_activity-pure org prop actor event id a
        (record s { schedules = update_schedule l.id f s.schedules }) h in
    rw logged (
      Register-update s _ l f r i keep c refl (omega arith),
      record { accounts = refl; funds = refl; journals = refl; later = omega arith },
    )

approve_found-KeepsRegister :
    (org actor prop : ℕ) (l : LevySchedule) (s s' : Db) (a : LevySchedule)
    → Register s
    → In l s.schedules
    → approve_found org actor prop l s ≡ ok (a, s')
    → Register s' × IsQuiet s s'
unfolding approve_found compute_schedule_status
approve_found-KeepsRegister org actor prop l s s' a r i h = go l.status refl
  where
    f : LevySchedule → LevySchedule
    f x = record x { status = levy_approved; approved_by_user_id = some actor }

    go : (st : ScheduleStatus) → l.status ≡ st → Register s' × IsQuiet s s'
    go levy_draft e =
        let c = IsConsistent-at s r i in
        let all_pending = c.unissued (rw e refl) in
        Register-written org prop actor l.id levy_schedule_approved l f (f l) a s s' r i (λ x. refl)
          (record {
            derived = status_of-pending l.installments all_pending;
            marked = c.marked;
            distinct = c.distinct;
            unissued = λ e. absurd (cc e);
          })
          (ground (arith, e))
    go levy_approved e = absurd (ground (arith, e))
    go levy_partially_issued e = absurd (ground (arith, e))
    go levy_issued e = absurd (ground (arith, e))
    go levy_cancelled e = absurd (ground (arith, e))
    go levy_reversed e = absurd (ground (arith, e))

module _ (org actor prop : ℕ) where
  pub approve-KeepsRegister : (id : ℕ) → KeepsRegister (approve org actor prop id)
  unfolding approve
  approve-KeepsRegister id s s' a r h =
      let (_, t0, p, h0) = bind-eq-ok (get_owned_property org prop) _ s h in
      let (l, t1, q, h1) = bind-eq-ok (get_owned_schedule org prop id) _ t0 h0 in
      let same0 = get_owned_property-same org prop s p in
      let (same1, found) = get_owned_schedule-eq-ok org prop id t0 q in
      approve_found-KeepsRegister org actor prop l s s' a r
        (In-find_owned org prop id s.schedules (rw same0 at found)) (rw (same1, same0) at h1)

  pub cancel-KeepsRegister : (id : ℕ) → KeepsRegister (cancel org actor prop id)
  unfolding cancel compute_schedule_status
  cancel-KeepsRegister id s s' a r h =
      let (_, t0, p, h0) = bind-eq-ok (get_owned_property org prop) _ s h in
      let (l, t1, q, h1) = bind-eq-ok (get_owned_schedule org prop id) _ t0 h0 in
      let (_, t2, b, h2) = bind-eq-ok (throw_if (not (is_cancellable l.status)) _) _ t1 h1 in
      let (_, t3, d, h3) = bind-eq-ok (throw_if (some_of was_issued l.installments) _) _ t2 h2 in
      let same0 = get_owned_property-same org prop s p in
      let (same1, found) = get_owned_schedule-eq-ok org prop id t0 q in
      let (clean, same3) = throw_if-eq-ok (some_of was_issued l.installments) _ t2 d in
      let same : t3 ≡ s =
        same3 ∙ (throw_if-eq-ok (not (is_cancellable l.status)) _ t1 b).1 ∙ same1 ∙ same0 in
      let i = In-find_owned org prop id s.schedules (rw same0 at found) in
      let c = IsConsistent-at s r i in
      let f : LevySchedule → LevySchedule =
        λ x. record x { status = levy_cancelled; cancelled_by_user_id = some actor } in
      Register-written org prop actor l.id levy_schedule_cancelled l f (f l) a s s' r i (λ x. refl)
        (record {
          derived = refl;
          marked = c.marked;
          distinct = c.distinct;
          unissued = λ _. pending_of_some_of l.installments clean c.marked;
        })
        (rw same at h3)
