-- ===== src/Levies/Registered.antt =====
-- The requests of src/modules/financials/levies.service.ts that draft, issue and reverse keep the register.
use waslproperty_backend.Prelude.{
  ℕ, ◌+◌, ◌*◌, ◌≡◌, ◌≢◌, ◌<◌, refl, ◌∙◌, true, not, Option, none, some, List, [], ◌∷◌, arith, ltb,
  length, All, All-implies, ◌==◌,
}
use waslproperty_backend.Prelude.Result.{ok}
use waslproperty_backend.Prelude.Unique.{DistinctIds}
use waslproperty_backend.LevyAllocation.{Decimal}
use waslproperty_backend.Store.{
  Db, Configuration, EventType, Installment, LevySchedule, levy_draft, LevyKind, regular, special,
  levy_schedule_created,
}
use waslproperty_backend.Store.Money.{per_cent, Numeric}
use waslproperty_backend.Store.Tx.{pure, throw_if, ◌>>◌, bind-eq-ok, throw_if-eq-ok}
use waslproperty_backend.Store.Rows.{
  get_owned_property, get_configuration, record_activity, get_owned_property-same,
  get_configuration-same, record_activity-pure,
}
use waslproperty_backend.Posting.Ledger.{Ledger}
use waslproperty_backend.Levies.{is_pending, compute_schedule_status, update_installment}
use waslproperty_backend.Levies.Split.{LotRow}
use waslproperty_backend.Levies.Schedules.{
  InstallmentInput, derive_regular_total, get_fund, requested, installment_rows, create_schedule,
  create_regular, create_special,
}
use waslproperty_backend.Levies.Issue.{mark_issued, issue}
use waslproperty_backend.Levies.Requests.{none_left, repeated_request, struck, issue-Request}
use waslproperty_backend.Levies.Repeated.{Struck-Beside}
use waslproperty_backend.Levies.Tables.{with_refreshed, compute_schedule_status-issuable}
use waslproperty_backend.Levies.Lifecycle.{
  IsMarked, Register, with_refreshed-IsConsistent, Register-same, Register-update,
}
use waslproperty_backend.Levies.Drafted.{get_fund-same, derive_regular_total-eq-ok}
use waslproperty_backend.Levies.Register.{IsQuiet, KeepsRegister, In-find_owned, IsConsistent-at}

installment_rows-pending :
    (num : Numeric) (id index : ℕ) (inputs : List InstallmentInput)
    → All (λ i. IsMarked i × (is_pending i ≡ true)) (installment_rows num id index inputs)
unfolding installment_rows
installment_rows-pending num id index [] = tt
installment_rows-pending num id index (i ∷ is') =
    ((refl, refl), installment_rows-pending num (id + 1) (index + 1) is')

installment_rows-above :
    (num : Numeric) (k id index : ℕ) (inputs : List InstallmentInput)
    → k < id
    → All (λ (i : Installment). i.id ≢ k) (installment_rows num id index inputs)
unfolding installment_rows
installment_rows-above num k id index [] h = tt
installment_rows-above num k id index (i ∷ is') h =
    ((λ e. omega arith), installment_rows-above num k (id + 1) (index + 1) is' (omega arith))

installment_rows-DistinctIds :
    (num : Numeric) (id index : ℕ) (inputs : List InstallmentInput)
    → DistinctIds (λ (i : Installment). i.id) (installment_rows num id index inputs)
unfolding installment_rows
installment_rows-DistinctIds num id index [] = tt
installment_rows-DistinctIds num id index (i ∷ is') = (
  installment_rows-above num id (id + 1) (index + 1) is' (omega arith),
  installment_rows-DistinctIds num (id + 1) (index + 1) is',
)

module _ (num : Numeric) (org actor prop : ℕ) where
  create_schedule-KeepsRegister :
      (cf : Configuration) (fund_id : ℕ) (budget_id : Option ℕ) (kind : LevyKind) (total : ℕ)
      (date : Option ℕ) (inputs : List InstallmentInput)
      → KeepsRegister
          (create_schedule num org actor prop cf fund_id budget_id kind total date inputs)
  unfolding create_schedule compute_schedule_status
  create_schedule-KeepsRegister cf fund_id budget_id kind total date inputs s s' a r h =
      let rows = installment_rows num (s.next_id + 1) 0 inputs in
      let ready = installment_rows-pending num (s.next_id + 1) 0 inputs in
      let draft : a.status ≡ levy_draft = ground arith in
      let inside : a.installments ≡ rows = ground arith in
      let id : a.id ≡ s.next_id = ground arith in
      let state : record s { schedules = a ∷ s.schedules; next_id = s.next_id + 1 + length inputs }
          ≡ s' =
        ground arith in
      let kept : Register
          (record s { schedules = a ∷ s.schedules; next_id = s.next_id + 1 + length inputs }) =
        record {
          consistent = (
            record {
              derived = rw draft refl;
              marked = rw inside (All-implies (λ i h. h.0) rows ready);
              unissued = λ _. rw inside (All-implies (λ i h. h.1) rows ready);
              distinct = rw inside (installment_rows-DistinctIds num (s.next_id + 1) 0 inputs);
            },
            r.consistent,
          );
          ids = (All-implies (λ l h. omega arith) s.schedules r.fresh, r.ids);
          fresh = (omega arith, All-implies (λ l h. omega arith) s.schedules r.fresh);
        } in
      let quiet : IsQuiet s
          (record s { schedules = a ∷ s.schedules; next_id = s.next_id + 1 + length inputs }) =
        record { accounts = refl; funds = refl; journals = refl; later = omega arith } in
      (rw state at kept, rw state at quiet)

  Register-logged :
      {A : Type 0} (event : EventType) (id : ℕ) (a b : A) (o s s' : Db)
      → Register s
      → IsQuiet o s
      → (record_activity org prop actor event id >> pure a) s ≡ ok (b, s')
      → Register s' × IsQuiet o s'
  Register-logged event id a b o s s' r q h =
      let (_, logged) = record_activity-pure org prop actor event id a s h in
      rw logged (
        Register-same s (record s { activities = s'.activities }) r refl (omega arith),
        record { accounts = q.accounts; funds = q.funds; journals = q.journals; later = q.later },
      )

  pub create_regular-KeepsRegister :
      (fund_id budget_id : ℕ) (inputs : List InstallmentInput)
      → KeepsRegister (create_regular num org actor prop fund_id budget_id inputs)
  unfolding create_regular
  create_regular-KeepsRegister fund_id budget_id inputs s s' a r h =
      let (_, t0, p0, h0) = bind-eq-ok (get_owned_property org prop) _ s h in
      let (cf, t1, p1, h1) = bind-eq-ok (get_configuration prop) _ t0 h0 in
      let (_, t2, p2, h2) = bind-eq-ok (get_fund org prop fund_id) _ t1 h1 in
      let (total, t3, p3, h3) =
        bind-eq-ok (derive_regular_total org prop budget_id fund_id) _ t2 h2 in
      let (_, t4, p4, h4) =
        bind-eq-ok (throw_if (not (requested inputs == total * per_cent)) _) _ t3 h3 in
      let (row, t5, p5, h5) =
        bind-eq-ok
          (create_schedule num org actor prop cf fund_id (some budget_id) regular (total * per_cent)
            none inputs)
          _ t4 h4 in
      let same : t4 ≡ s =
        (throw_if-eq-ok (not (requested inputs == total * per_cent)) _ t3 p4).1
        ∙ (derive_regular_total-eq-ok org prop budget_id fund_id t2 p3).same
        ∙ get_fund-same org prop fund_id t1 p2
        ∙ get_configuration-same prop t0 p1
        ∙ get_owned_property-same org prop s p0 in
      let (kept, quiet) =
        create_schedule-KeepsRegister cf fund_id (some budget_id) regular (total * per_cent) none
          inputs s t5 row r (rw same at p5) in
      Register-logged levy_schedule_created row.id row a s t5 s' kept quiet h5

  pub create_special-KeepsRegister :
      (today fund_id date : ℕ) (inputs : List InstallmentInput)
      → KeepsRegister (create_special num today org actor prop fund_id date inputs)
  unfolding create_special
  create_special-KeepsRegister today fund_id date inputs s s' a r h =
      let (_, t0, p0, h0) = bind-eq-ok (get_owned_property org prop) _ s h in
      let (_, t1, p1, h1) = bind-eq-ok (throw_if (ltb today date) _) _ t0 h0 in
      let (cf, t2, p2, h2) = bind-eq-ok (get_configuration prop) _ t1 h1 in
      let (_, t3, p3, h3) = bind-eq-ok (get_fund org prop fund_id) _ t2 h2 in
      let (row, t4, p4, h4) =
        bind-eq-ok
          (create_schedule num org actor prop cf fund_id none special (requested inputs) (some date)
            inputs)
          _ t3 h3 in
      let same : t3 ≡ s =
        get_fund-same org prop fund_id t2 p3
        ∙ get_configuration-same prop t1 p2
        ∙ (throw_if-eq-ok (ltb today date) _ t0 p1).1
        ∙ get_owned_property-same org prop s p0 in
      let (kept, quiet) =
        create_schedule-KeepsRegister cf fund_id none special (requested inputs) (some date) inputs
          s t4 row r (rw same at p4) in
      Register-logged levy_schedule_created row.id row a s t4 s' kept quiet h4

mark_issued-IsMarked :
    (actor journal_id : ℕ) (i : Installment) → IsMarked (mark_issued actor journal_id i)
mark_issued-IsMarked actor journal_id i = refl

-- Issuing an instalment keeps the register.
pub issue-KeepsRegister :
    (dec : Decimal) (num : Numeric) (today org actor prop id : ℕ) (asked : Option ℕ) (s s' : Db)
    (r : LevySchedule × Option (List LotRow))
    → Ledger s
    → Register s
    → issue dec num today org actor prop id asked s ≡ ok (r, s')
    → Register s'
issue-KeepsRegister dec num today org actor prop id asked s s' r ledger reg h =
    let q = issue-Request dec num today org actor prop id asked s s' r h in
    let l = q.schedule in
    let inside = In-find_owned org prop id s.schedules q.found in
    elim q.branch [
      | none_left _ _ same _ ↦ rw same reg
      | repeated_request _ _ _ same _ ↦ rw same reg
      | struck i f e st ↦
          let b = Struck-Beside dec num today org actor prop q.cf l i s s' r ledger st in
          let later = b.later in
          let mark = mark_issued actor st.journal.id in
          Register-update s s' l (with_refreshed l i.id mark) reg inside (λ x. refl)
            (with_refreshed-IsConsistent i.id mark (λ x. refl) l (IsConsistent-at s reg inside)
              (compute_schedule_status-issuable l.status
                (update_installment i.id mark l.installments) q.issuable)
              (All-implies (λ x m e. mark_issued-IsMarked actor st.journal.id x) l.installments
                (IsConsistent-at s reg inside).marked))
            (rw (st.state_eq, b.schedules) refl) (rw st.state_eq (omega arith))
    ]
