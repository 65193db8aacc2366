-- ===== src/Budgets/Chain.antt =====
-- The loop of `activate` in src/modules/financials/budgets.service.ts over the ancestors of a budget ends,
-- whatever the links between the budgets are: each turn takes an approved budget out of that state.
use waslproperty_backend.Prelude.{
  ℕ, zero, suc, ◌≤◌, ◌<◌, ◌≡◌, refl, inl, inr, true, Option, none, some, List, [], ◌∷◌, arith, find,
  filter, length, Option-cases, Bool-cases, ◌==◌,
}
use waslproperty_backend.Store.{Budget}
use waslproperty_backend.Budgets.{is_approved, update_budget}
use waslproperty_backend.Budgets.Lifecycle.{supersede, supersede_chain}

abbrev pub count_approved : List Budget → ℕ
count_approved bs = length (filter (λ (b : Budget). is_approved b.status) bs)

count_supersede-le :
    (id : ℕ) (bs : List Budget) → count_approved (update_budget id supersede bs) ≤ count_approved bs
unfolding update_budget
count_supersede-le id [] = omega arith
count_supersede-le id (b ∷ bs) = ground (arith, count_supersede-le id bs)

count_supersede :
    (id : ℕ) (bs : List Budget) {a : Budget}
    → find (λ (b : Budget). b.id == id) bs ≡ some a
    → is_approved a.status ≡ true
    → count_approved (update_budget a.id supersede bs) < count_approved bs
unfolding update_budget
count_supersede id [] f h = cc
count_supersede id (b ∷ bs) {a} f h = elim (Bool-cases (b.id == id)) [
  | inl e ↦
      let same : b ≡ a = ground arith in
      let rest = count_supersede-le a.id bs in ground (arith, same, rest)
  | inr e ↦
      let ih = count_supersede id bs {a = a} (ground arith) h in
      let rest = count_supersede-le a.id bs in ground (arith, ih, rest)
]

-- More fuel than there are approved budgets is enough for the loop over the ancestors, wherever it
-- starts and even if the revisions form a cycle.
pub supersede_chain_total :
    (fuel : ℕ) (ancestor : Option ℕ) (bs : List Budget)
    → count_approved bs < fuel
    → (cs : List Budget) × (supersede_chain fuel ancestor bs ≡ some cs)
unfolding supersede_chain
supersede_chain_total zero ancestor bs h = absurd (omega arith)
supersede_chain_total (suc n) none bs h = (bs, refl)
supersede_chain_total (suc n) (some id) bs h =
    elim (Option-cases (find (λ (b : Budget). b.id == id) bs)) [
      | inl e ↦ (bs, ground (arith, e))
      | inr (a, e) ↦ elim (Bool-cases (is_approved a.status)) [
        | inr stop ↦ (bs, ground (arith, e, stop))
        | inl go ↦
            let fewer = count_supersede id bs {a = a} e go in
            let (cs, q) =
              supersede_chain_total n a.revision_of_budget_id (update_budget a.id supersede bs)
                (omega arith) in
            (cs, ground (arith, e, go, q))
      ]
    ]
