-- ===== src/Budgets/Superseding.antt =====
-- `activate` in src/modules/financials/budgets.service.ts, from the budget that it finds to the table that
-- it leaves.
use waslproperty_backend.Prelude.{
  ℕ, ◌+◌, ◌≡◌, ◌⊎◌, refl, inl, inr, ◌∙◌, false, Option, List, arith, find, length, All, All-at, In,
  find-eq-some, find-eq-none, Option-cases, ◌==◌,
}
use waslproperty_backend.Prelude.Result.{ok, not_found, budget}
use waslproperty_backend.Store.{
  Db, Configuration, Budget, BudgetStatus, budget_draft, budget_approved, budget_active,
  budget_superseded, financial_budget_activated,
}
use waslproperty_backend.Store.Tx.{
  pure, gets, or_throw, bind-eq-ok, or_throw-eq-ok, run-same, ◌>>=◌, ◌>>◌,
}
use waslproperty_backend.Store.Rows.{get_owned_property, get_owned_property-same, record_activity}
use waslproperty_backend.Budgets.{get_owned_budget, update_budget, write_budget}
use waslproperty_backend.Budgets.Lifecycle.{
  supersede, activated, is_current_beside, supersede_current, supersede_chain, supersede_ancestors,
  activate_approved, activate_by_status, activate,
}
use waslproperty_backend.Budgets.Tables.{Rowwise, Rowwise-refl, Rowwise-In, In-update_budget}
use waslproperty_backend.Budgets.Evolve.{Evolves, Calms}
use waslproperty_backend.Budgets.Plan.{Descends, Plans, All-Rowwise, Plans-Calms}
use waslproperty_backend.Budgets.Activation.{
  Spares, Spares-refl, supersede-Rowwise, supersede_chain-Rowwise, IsAlone, IsAlone-keep,
  supersede_current-IsAlone,
}
use waslproperty_backend.Budgets.Activated.{Rowwise-implies, activated-Plans}
use waslproperty_backend.Budgets.Kept.{
  Kept, Persists, Persists-refl, Persists-trans, get_owned_budget-Owned,
}

-- A part of `activate` that spares the budget and after which no other of the year is active.
record Cleared (b : Budget) (s t : Db) : Type 0 where
  pub rows : Rowwise (Spares b.id) s.budgets t.budgets
  pub alone : IsAlone b t.budgets
  pub next : t.next_id ≡ s.next_id

supersede_current-Cleared :
    (b : Budget) (s t : Db) {u : Unit {0}}
    → Plans s.budgets s.next_id
    → supersede_current b s ≡ ok (u, t)
    → Cleared b s t
unfolding supersede_current write_budget
supersede_current-Cleared b s t p h = elim (Option-cases (find (is_current_beside b) s.budgets)) [
  | inl e ↦
      let rows : t.budgets ≡ s.budgets = ground (arith, e) in
      let next : t.next_id ≡ s.next_id = ground (arith, e) in
      record {
        rows = rw rows (Rowwise-refl (Spares b.id) (Spares-refl b.id) s.budgets);
        alone = rw rows (find-eq-none (is_current_beside b) s.budgets e);
        next = next;
      }
  | inr (c, e) ↦
      let rows : t.budgets ≡ update_budget c.id supersede s.budgets = ground (arith, e) in
      let next : t.next_id ≡ s.next_id = ground (arith, e) in
      let (is, i) = find-eq-some (is_current_beside b) s.budgets e in
      record {
        rows = rw rows (supersede-Rowwise b.id c.id s.budgets (λ q. ground arith));
        alone = rw rows (supersede_current-IsAlone b c s.budgets p.apart e);
        next = next;
      }
]

supersede_ancestors-Rowwise :
    (b : Budget) (s t : Db) {u : Unit {0}}
    → All Descends s.budgets
    → Descends b
    → supersede_ancestors b s ≡ ok (u, t)
    → Rowwise (Spares b.id) s.budgets t.budgets × (t.next_id ≡ s.next_id)
unfolding supersede_ancestors
supersede_ancestors-Rowwise b s t all d h =
    let chain = supersede_chain (length s.budgets + 1) b.revision_of_budget_id s.budgets in
    elim (Option-cases chain) [
      | inl e ↦ absurd (ground (arith, e))
      | inr (cs, e) ↦
          let rows : t.budgets ≡ cs = ground (arith, e) in
          let next : t.next_id ≡ s.next_id = ground (arith, e) in
          (
            rw rows (
                supersede_chain-Rowwise b.id (length s.budgets + 1) b.revision_of_budget_id
                  s.budgets cs d all e),
            next,
          )
    ]

module _ (b : Budget) where
  Spares-Calms : (bs cs : List Budget) → Rowwise (Spares b.id) bs cs → Rowwise Calms bs cs
  Spares-Calms = Rowwise-implies (λ x y r. r.calms)

  Spares-In : (bs cs : List Budget) → Rowwise (Spares b.id) bs cs → In b bs → In b cs
  Spares-In bs cs h i =
      let (c, j, r) = Rowwise-In (Spares b.id) bs cs h i in rw (r.spared refl) at j

  Spares-IsAlone : (bs cs : List Budget) → Rowwise (Spares b.id) bs cs → IsAlone b bs → IsAlone b cs
  Spares-IsAlone =
      All-Rowwise (Spares b.id) (λ x y r. let p = r.calms in let e = p.evolves in e.key)
        (λ x. is_current_beside b x ≡ false) (λ x y r h. IsAlone-keep b x y r.calms h)

Persists-Calms : (bs cs : List Budget) → Rowwise Calms bs cs → Persists bs cs
Persists-Calms bs cs h b i = let (c, j, r) = Rowwise-In Calms bs cs h i in (c, j, r.evolves)

ended :
    (org actor prop : ℕ) (b : Budget) (s : Db) {r : Budget} {s' : Db}
    → (write_budget b.id activated
          >> (record_activity org prop actor financial_budget_activated b.id >> pure (activated b)))
        s
      ≡ ok (r, s')
    → (s'.budgets ≡ update_budget b.id activated s.budgets)
      × (s'.next_id ≡ s.next_id)
      × (r ≡ activated b)
unfolding write_budget record_activity
ended org actor prop b s h = (ground arith, ground arith, ground arith)

-- The part of `activate` for an approved budget keeps the plans.
pub activate_approved-Kept :
    (org actor prop : ℕ) (b : Budget) (s s' : Db) (r : Budget)
    → Plans s.budgets s.next_id
    → In b s.budgets
    → b.status ≡ budget_approved
    → activate_approved org actor prop b s ≡ ok (r, s')
    → Kept s s' × (r ≡ activated b) × In (activated b) s'.budgets
unfolding activate_approved
activate_approved-Kept org actor prop b s s' r p i approved h =
    let recorded =
      record_activity org prop actor financial_budget_activated b.id >> pure (activated b) in
    let (_, t, cleared, h1) =
      bind-eq-ok (supersede_current b)
        (λ _. supersede_ancestors b >> (write_budget b.id activated >> recorded)) s h in
    let first = supersede_current-Cleared b s t p cleared in
    let calm = Spares-Calms b s.budgets t.budgets first.rows in
    let same = first.next in
    let planned : Plans t.budgets s.next_id =
      Plans-Calms s.budgets t.budgets s.next_id s.next_id (omega arith) calm p in
    let (_, u, chained, h2) =
      bind-eq-ok (supersede_ancestors b) (λ _. write_budget b.id activated >> recorded) t h1 in
    let (rows, next) =
      supersede_ancestors-Rowwise b t u planned.descends (All-at Descends s.budgets p.descends i)
        chained in
    let calm' = Spares-Calms b t.budgets u.budgets rows in
    let planned' : Plans u.budgets s.next_id =
      Plans-Calms t.budgets u.budgets s.next_id s.next_id (omega arith) calm' planned in
    let there' =
      Spares-In b t.budgets u.budgets rows (Spares-In b s.budgets t.budgets first.rows i) in
    let alone = Spares-IsAlone b t.budgets u.budgets rows first.alone in
    let (done, grown) = activated-Plans b u.budgets s.next_id approved there' alone planned' in
    let (end_rows, end_next, row) = ended org actor prop b u h2 in
    let later : s'.next_id ≡ s.next_id = end_next ∙ next ∙ same in
    let kept : Kept s s' = record {
      plans = rw (end_rows, later) done;
      persists = rw end_rows (
          Persists-trans s.budgets t.budgets (update_budget b.id activated u.budgets)
            (Persists-Calms s.budgets t.budgets calm)
            (Persists-trans t.budgets u.budgets (update_budget b.id activated u.budgets)
              (Persists-Calms t.budgets u.budgets calm')
              (λ x j.
                Rowwise-In Evolves u.budgets (update_budget b.id activated u.budgets) grown j)));
    } in
    (kept, row, rw end_rows (In-update_budget b.id activated u.budgets there' refl))

status_cases :
    (st : BudgetStatus)
    → (st ≡ budget_approved)
      ⊎ ((st ≡ budget_active) ⊎ ((st ≡ budget_draft) ⊎ (st ≡ budget_superseded)))
status_cases budget_approved = inl refl
status_cases budget_active = inr (inl refl)
status_cases budget_draft = inr (inr (inl refl))
status_cases budget_superseded = inr (inr (inr refl))

activate_by_status-Kept :
    (org actor prop : ℕ) (b : Budget) (s s' : Db) (r : Budget)
    → Plans s.budgets s.next_id
    → In b s.budgets
    → activate_by_status org actor prop b s ≡ ok (r, s')
    → Kept s s'
unfolding activate_by_status
activate_by_status-Kept org actor prop b s s' r p i h = elim (status_cases b.status) [
  | inl e ↦
      let run : activate_approved org actor prop b s ≡ ok (r, s') = ground (arith, e) in
      (activate_approved-Kept org actor prop b s s' r p i e run).0
  | inr (inl e) ↦
      let unchanged : s' ≡ s = ground (arith, e) in
      rw unchanged (record { plans = p; persists = Persists-refl s.budgets })
  | inr (inr (inl e)) ↦ absurd (ground (arith, e))
  | inr (inr (inr e)) ↦ absurd (ground (arith, e))
]

-- `activate` keeps the plans.
pub activate-Kept :
    (org actor prop id : ℕ) (s s' : Db) (r : Budget)
    → Plans s.budgets s.next_id
    → activate org actor prop id s ≡ ok (r, s')
    → Kept s s'
unfolding activate
activate-Kept org actor prop id s s' r p h =
    let by_status = activate_by_status org actor prop in
    let found = get_owned_budget org prop id >>= by_status in
    let row : Db → Option Configuration =
      λ s. find (λ (c : Configuration). c.property_id == prop) s.configurations in
    let set_up = gets row >>= λ x. or_throw x (not_found budget) >> found in
    let (_, t0, got, h0) = bind-eq-ok (get_owned_property org prop) (λ _. set_up) s h in
    let h1 = run-same set_up (get_owned_property-same org prop s got) h0 in
    let (_, t1, locked, h2) = bind-eq-ok (or_throw (row s) (not_found budget)) (λ _. found) s h1 in
    let h3 = run-same found (or_throw-eq-ok (row s) (not_found budget) s locked).1 h2 in
    let (b, t2, own, h4) = bind-eq-ok (get_owned_budget org prop id) by_status s h3 in
    let (same, owned) = get_owned_budget-Owned org prop id s own in
    let h5 = run-same (by_status b) same h4 in
    activate_by_status-Kept org actor prop b s s' r p owned.found h5
