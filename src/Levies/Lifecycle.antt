-- ===== src/Levies/Lifecycle.antt =====
-- The states of a levy schedule in src/modules/financials/levies.service.ts and the invariant that ties
-- them to the instalments.
use waslproperty_backend.Prelude.{
  ℕ, ◌≡◌, ◌<◌, ◌≤◌, ◌≢◌, refl, inl, inr, true, false, not, List, [], ◌∷◌, arith, filter, length,
  All, All-implies, In, Bool-cases, ◌==◌,
}
use waslproperty_backend.Prelude.Unique.{DistinctIds, In-unique_id}
use waslproperty_backend.Store.{Db, Installment, LevySchedule, ScheduleStatus, levy_approved}
use waslproperty_backend.Levies.{
  is_pending, is_issued, was_issued, some_of, status_of, compute_schedule_status, update_schedule,
  update_installment,
}
use waslproperty_backend.Levies.Issue.{is_unissuable}
use waslproperty_backend.Levies.Tables.{with_refreshed, All-update_schedule}

-- An instalment is pending exactly if it never was issued.
abbrev pub IsMarked : Installment → Type 0
IsMarked i = was_issued i ≡ not (is_pending i)

pub record IsConsistent (l : LevySchedule) : Type 0 where
  -- The status of the schedule is the one that its instalments give it.
  pub derived : compute_schedule_status l.status l.installments ≡ l.status
  pub marked : All IsMarked l.installments
  -- Nothing of a draft or a cancelled schedule was ever issued.
  pub unissued : is_unissuable l.status ≡ true → All (λ i. is_pending i ≡ true) l.installments
  pub distinct : DistinctIds (λ (i : Installment). i.id) l.installments

pub record Register (s : Db) : Type 0 where
  pub consistent : All IsConsistent s.schedules
  pub ids : DistinctIds (λ (l : LevySchedule). l.id) s.schedules
  pub fresh : All (λ (l : LevySchedule). l.id < s.next_id) s.schedules

pub compute_schedule_status_idempotent :
    (st : ScheduleStatus) (is' : List Installment)
    → compute_schedule_status (compute_schedule_status st is') is' ≡ compute_schedule_status st is'
unfolding compute_schedule_status
compute_schedule_status_idempotent st is' = ground arith

none_issued :
    (is' : List Installment)
    → All (λ i. is_pending i ≡ true) is'
    → length (filter is_issued is') ≡ 0
none_issued [] h = refl
none_issued (i ∷ is') h = ground (arith, none_issued is' h.1)

pub status_of-pending :
    (is' : List Installment) → All (λ i. is_pending i ≡ true) is' → status_of is' ≡ levy_approved
status_of-pending is' h = ground (arith, none_issued is' h)

pub pending_of_some_of :
    (is' : List Installment)
    → some_of was_issued is' ≡ false
    → All IsMarked is'
    → All (λ i. is_pending i ≡ true) is'
unfolding some_of
pending_of_some_of [] h m = tt
pending_of_some_of (i ∷ is') h m =
    let first = m.0 in (ground arith, pending_of_some_of is' (ground arith) m.1)

module _ (id : ℕ) (f : Installment → Installment) where
  pub All-update_installment :
      (P : Installment → Type 0) (is' : List Installment)
      → All P is'
      → All (λ i. i.id ≡ id → P (f i)) is'
      → All P (update_installment id f is')
  unfolding update_installment
  All-update_installment P [] h k = tt
  All-update_installment P (i ∷ is') h k = elim (Bool-cases (i.id == id)) [
    | inl e ↦ rw e (k.0 (ground arith), All-update_installment P is' h.1 k.1)
    | inr e ↦ rw e (h.0, All-update_installment P is' h.1 k.1)
  ]

  module _ (keep : (i : Installment) → (f i).id ≡ i.id) where
    update_installment-others :
        (k : ℕ) (is' : List Installment)
        → All (λ (i : Installment). i.id ≢ k) is'
        → All (λ (i : Installment). i.id ≢ k) (update_installment id f is')
    update_installment-others k is' h =
        All-update_installment (λ i. i.id ≢ k) is' h (All-implies (λ i n e. rw (keep i) n) is' h)

    update_installment-DistinctIds :
        (is' : List Installment)
        → DistinctIds (λ (i : Installment). i.id) is'
        → DistinctIds (λ (i : Installment). i.id) (update_installment id f is')
    unfolding update_installment
    update_installment-DistinctIds [] h = tt
    update_installment-DistinctIds (i ∷ is') h = elim (Bool-cases (i.id == id)) [
      | inl e ↦
          rw (e, keep i)
            (update_installment-others i.id is' h.0, update_installment-DistinctIds is' h.1)
      | inr e ↦
          rw e (update_installment-others i.id is' h.0, update_installment-DistinctIds is' h.1)
    ]

    -- A refreshed schedule is consistent.
    pub with_refreshed-IsConsistent :
        (l : LevySchedule)
        → IsConsistent l
        → is_unissuable (compute_schedule_status l.status (update_installment id f l.installments))
          ≡ false
        → All (λ i. i.id ≡ id → IsMarked (f i)) l.installments
        → IsConsistent (with_refreshed l id f l)
    with_refreshed-IsConsistent l c issuable marks = record {
      derived =
          compute_schedule_status_idempotent l.status (update_installment id f l.installments);
      marked = All-update_installment IsMarked l.installments c.marked marks;
      unissued = λ e. absurd (cc (e, issuable));
      distinct = update_installment-DistinctIds l.installments c.distinct;
    }

module _ (id : ℕ) (f : LevySchedule → LevySchedule)
    (keep : (r : LevySchedule) → (f r).id ≡ r.id) where
  update_schedule-others :
      (k : ℕ) (ls : List LevySchedule)
      → All (λ (l : LevySchedule). l.id ≢ k) ls
      → All (λ (l : LevySchedule). l.id ≢ k) (update_schedule id f ls)
  unfolding update_schedule
  update_schedule-others k [] h = tt
  update_schedule-others k (l ∷ ls) h = elim (Bool-cases (l.id == id)) [
    | inl e ↦ rw e ((λ q. h.0 (ground (arith, keep l))), update_schedule-others k ls h.1)
    | inr e ↦ rw e (h.0, update_schedule-others k ls h.1)
  ]

  update_schedule-DistinctIds :
      (ls : List LevySchedule)
      → DistinctIds (λ (l : LevySchedule). l.id) ls
      → DistinctIds (λ (l : LevySchedule). l.id) (update_schedule id f ls)
  unfolding update_schedule
  update_schedule-DistinctIds [] h = tt
  update_schedule-DistinctIds (l ∷ ls) h = elim (Bool-cases (l.id == id)) [
    | inl e ↦
        rw (e, keep l) (update_schedule-others l.id ls h.0, update_schedule-DistinctIds ls h.1)
    | inr e ↦ rw e (update_schedule-others l.id ls h.0, update_schedule-DistinctIds ls h.1)
  ]

-- A change of other tables keeps the register.
pub Register-same :
    (s t : Db) → Register s → t.schedules ≡ s.schedules → s.next_id ≤ t.next_id → Register t
Register-same s t r same later = record {
  consistent = rw same r.consistent;
  ids = rw same r.ids;
  fresh = rw same (All-implies (λ l h. omega arith) s.schedules r.fresh);
}

-- So does a change of one schedule that leaves it consistent.
pub Register-update :
    (s t : Db) (l : LevySchedule) (f : LevySchedule → LevySchedule)
    → Register s
    → In l s.schedules
    → ((r : LevySchedule) → (f r).id ≡ r.id)
    → IsConsistent (f l)
    → t.schedules ≡ update_schedule l.id f s.schedules
    → s.next_id ≤ t.next_id
    → Register t
Register-update s t l f r i keep c eq later =
    let only = In-unique_id (λ (l : LevySchedule). l.id) s.schedules r.ids i in
    record {
      consistent = rw eq (
          All-update_schedule IsConsistent l.id f s.schedules r.consistent
            (All-implies (λ x u e. rw (u e) c) s.schedules only));
      ids = rw eq (update_schedule-DistinctIds l.id f keep s.schedules r.ids);
      fresh = rw eq (
          All-update_schedule (λ (x : LevySchedule). x.id < t.next_id) l.id f s.schedules
            (All-implies (λ x h. omega arith) s.schedules r.fresh)
            (All-implies (λ x h e. rw (keep x) (omega arith)) s.schedules r.fresh));
    }
