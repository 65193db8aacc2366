-- ===== src/Levies/Withdrawn.antt =====
-- What a successful `reverseInstallment` of src/modules/financials/levies.service.ts has checked and written.
use waslproperty_backend.Prelude.{
  ℕ, ◌≡◌, refl, ap, inl, inr, ◌∙◌, true, false, not, none, some, List, arith, find, ltb, All,
  All-at, All-both, find-eq-some, Bool-cases, ◌==◌,
}
use waslproperty_backend.Prelude.Result.{
  ok, not_found, conflict, installment, no_journal, shared_journal,
}
use waslproperty_backend.Prelude.Unique.{In-unique_id}
use waslproperty_backend.Store.{Db, Journal, Installment, LevySchedule, levy_installment_reversed}
use waslproperty_backend.Store.Money.{Numeric}
use waslproperty_backend.Store.Tx.{
  throw_if, or_throw, bind-eq-ok, throw_if-eq-ok, throw_unless-eq-ok, or_throw-eq-ok, run-same,
}
use waslproperty_backend.Store.Rows.{
  get_owned_property, get_configuration, get_owned_property-same, get_configuration-same,
  record_activity-pure,
}
use waslproperty_backend.Posting.Ledger.{Ledger}
use waslproperty_backend.Posting.Reversal.{Linked}
use waslproperty_backend.Posting.Reverse.{reverse_within_transaction}
use waslproperty_backend.Receipts.Undoing.{reverse-Frame}
use waslproperty_backend.Levies.{
  is_issued, is_pending, find_owned_schedule, get_owned_schedule, update_schedule,
  update_installment,
}
use waslproperty_backend.Levies.Issue.{is_unissuable, refresh_schedule}
use waslproperty_backend.Levies.Corrections.{
  cancel_charges, count_siblings, mark_reversed, reverse_target, reverse_installment,
}
use waslproperty_backend.Levies.Tables.{
  with_refreshed, refresh_schedule-eq-ok, get_owned_schedule-eq-ok,
  compute_schedule_status-issuable,
}
use waslproperty_backend.Levies.Lifecycle.{
  IsMarked, Register, with_refreshed-IsConsistent, Register-update,
}
use waslproperty_backend.Levies.Register.{In-find_owned, IsConsistent-at}

none_counted :
    (count : List LevySchedule → ℕ) (ls ms : List LevySchedule)
    → ls ≡ ms
    → ltb 0 (count ls) ≡ false
    → count ms ≡ 0
none_counted count ls ms e h = let zero_count : count ls ≡ 0 = ground arith in rw e at zero_count

module _ (num : Numeric) (today org actor prop : ℕ) where
  -- The steps of the transaction for an instalment.
  pub record Undone (l : LevySchedule) (i : Installment) (s s' : Db) : Type 0 where
    pub struck : is_issued i ≡ true
    pub journal_id : ℕ
    pub journaled : i.journal_entry_id ≡ some journal_id
    pub unshared : count_siblings journal_id i.id s.schedules ≡ 0
    pub journal : Journal
    pub reversing : Db
    pub undoing :
        reverse_within_transaction num org actor prop journal_id none today s
        ≡ ok (journal, reversing)
    pub state_eq : s' ≡ record reversing {
      charges = cancel_charges i.id reversing.charges;
      schedules =
          update_schedule l.id (with_refreshed l i.id (mark_reversed actor)) reversing.schedules;
      activities = s'.activities;
    }

  reverse_target-Undone :
      (l : LevySchedule) (i : Installment) (s s' : Db) (r : LevySchedule)
      → reverse_target num today org actor prop l i s ≡ ok (r, s')
      → Undone l i s s'
  unfolding reverse_target
  reverse_target-Undone l i s s' r h =
      let (_, t4, p4, h4) = bind-eq-ok (throw_if (not (is_issued i)) _) _ s h in
      let (journal_id, t5, p5, h5) =
        bind-eq-ok (or_throw i.journal_entry_id (conflict no_journal)) _ t4 h4 in
      let shared = ltb 0 (count_siblings journal_id i.id t5.schedules) in
      let (_, t6, p6, h6) = bind-eq-ok (throw_if shared (conflict shared_journal)) _ t5 h5 in
      let (j, t7, p7, h7) =
        bind-eq-ok (reverse_within_transaction num org actor prop journal_id none today) _ t6 h6 in
      let t8 : Db = record t7 { charges = cancel_charges i.id t7.charges } in
      let (updated, t9, p9, h9) =
        bind-eq-ok (refresh_schedule l i.id (mark_reversed actor)) _ t8 h7 in
      let (struck, same4) = throw_unless-eq-ok (is_issued i) _ s p4 in
      let (journaled, same5) = or_throw-eq-ok i.journal_entry_id _ t4 p5 in
      let (unshared, same6) = throw_if-eq-ok shared (conflict shared_journal) t5 p6 in
      let at5 : t5 ≡ s = same5 ∙ same4 in
      let (_, state) = refresh_schedule-eq-ok l i.id (mark_reversed actor) t8 p9 in
      let (_, logged) =
        record_activity-pure org prop actor levy_installment_reversed i.id updated t9 h9 in
      record {
        struck = struck;
        journal_id = journal_id;
        journaled = journaled;
        unshared =
            none_counted (count_siblings journal_id i.id) t5.schedules s.schedules
              (ap (λ (x : Db). x.schedules) at5) unshared;
        journal = j;
        reversing = t7;
        undoing =
            run-same (reverse_within_transaction num org actor prop journal_id none today)
              (same6 ∙ at5) p7;
        state_eq = rw state at logged;
      }

  pub record Withdrawn (schedule_id installment_id : ℕ) (s s' : Db) : Type 0 where
    pub schedule : LevySchedule
    pub found : find_owned_schedule org prop schedule_id s.schedules ≡ some schedule
    pub target : Installment
    pub listed :
        find (λ (i : Installment). i.id == installment_id) schedule.installments ≡ some target
    pub steps : Undone schedule target s s'

  pub reverse_installment-Withdrawn :
      (schedule_id installment_id : ℕ) (s s' : Db) (r : LevySchedule)
      → reverse_installment num today org actor prop schedule_id installment_id s ≡ ok (r, s')
      → Withdrawn schedule_id installment_id s s'
  unfolding reverse_installment
  reverse_installment-Withdrawn schedule_id installment_id s s' r h =
      let (_, t0, p0, h0) = bind-eq-ok (get_owned_property org prop) _ s h in
      let (_, t1, p1, h1) = bind-eq-ok (get_configuration prop) _ t0 h0 in
      let (l, t2, p2, h2) = bind-eq-ok (get_owned_schedule org prop schedule_id) _ t1 h1 in
      let row = find (λ (x : Installment). x.id == installment_id) l.installments in
      let (i, t3, p3, h3) = bind-eq-ok (or_throw row (not_found installment)) _ t2 h2 in
      let (same2, found) = get_owned_schedule-eq-ok org prop schedule_id t1 p2 in
      let (listed, same3) = or_throw-eq-ok row _ t2 p3 in
      let same1 : t1 ≡ s =
        get_configuration-same prop t0 p1 ∙ get_owned_property-same org prop s p0 in
      record {
        schedule = l;
        found = rw same1 at found;
        target = i;
        listed = listed;
        steps =
            reverse_target-Undone l i s s' r
              (run-same (reverse_target num today org actor prop l i) (same3 ∙ same2 ∙ same1) h3);
      }

  -- A reversal keeps the register.
  pub reverse_installment-Register :
      (schedule_id installment_id : ℕ) (s s' : Db) (r : LevySchedule)
      → Ledger s
      → Linked s
      → Register s
      → reverse_installment num today org actor prop schedule_id installment_id s ≡ ok (r, s')
      → Register s'
  reverse_installment-Register schedule_id installment_id s s' r ledger linked reg h =
      let w = reverse_installment-Withdrawn schedule_id installment_id s s' r h in
      let l = w.schedule in
      let i = w.target in
      let u = w.steps in
      let frame =
        reverse-Frame num org actor prop u.journal_id none today s u.reversing {j = u.journal}
          ledger linked u.undoing in
      let inside = In-find_owned org prop schedule_id s.schedules w.found in
      let c = IsConsistent-at s reg inside in
      let (_, listed) = find-eq-some _ l.installments w.listed in
      let was_struck = u.struck in
      let later = frame.later in
      let issuable : is_unissuable l.status ≡ false = elim (Bool-cases (is_unissuable l.status)) [
        | inr e ↦ e
        | inl e ↦
            let waiting = All-at (λ i. is_pending i ≡ true) l.installments (c.unissued e) listed in
            absurd (ground arith)
      ] in
      let only = In-unique_id (λ (i : Installment). i.id) l.installments c.distinct listed in
      let marks : All (λ x. x.id ≡ i.id → IsMarked (mark_reversed actor x)) l.installments =
        All-both
          (λ x m only_one e.
            let same : x ≡ i = only_one e in
            let struck' : is_issued x ≡ true = rw same was_struck in ground arith)
          l.installments c.marked only in
      Register-update s s' l (with_refreshed l i.id (mark_reversed actor)) reg inside (λ x. refl)
        (with_refreshed-IsConsistent i.id (mark_reversed actor) (λ x. refl) l c
          (compute_schedule_status-issuable l.status
            (update_installment i.id (mark_reversed actor) l.installments) issuable)
          marks)
        (rw (u.state_eq, frame.schedules) refl) (rw u.state_eq (omega arith))
