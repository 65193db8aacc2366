-- ===== src/Budgets/Tables.antt =====
-- The updates of the table of budgets in src/modules/financials/budgets.service.ts.
use waslproperty_backend.Prelude.{
  ℕ, ◌≡◌, refl, ap, inl, inr, true, List, [], ◌∷◌, arith, All, In, here, there, Bool-cases, ◌==◌,
}
use waslproperty_backend.Store.{Budget}
use waslproperty_backend.Budgets.{update_budget}

module _ (id : ℕ) (f : Budget → Budget) where
  pub All-update_budget :
      (P : Budget → Type 0) (bs : List Budget)
      → All P bs
      → All (λ b. b.id ≡ id → P (f b)) bs
      → All P (update_budget id f bs)
  unfolding update_budget
  All-update_budget P [] h k = tt
  All-update_budget P (b ∷ bs) h k = elim (Bool-cases (b.id == id)) [
    | inl e ↦ rw e (k.0 (ground arith), All-update_budget P bs h.1 k.1)
    | inr e ↦ rw e (h.0, All-update_budget P bs h.1 k.1)
  ]

  pub In-update_budget :
      {b : Budget} (bs : List Budget) → In b bs → b.id ≡ id → In (f b) (update_budget id f bs)
  unfolding update_budget
  In-update_budget [] i e = elim i [ ]
  In-update_budget {b} (c ∷ bs) (here same) e =
      let taken : (c.id == id) ≡ true = ground (arith, same, e) in rw taken (here (ap f same))
  In-update_budget {b} (c ∷ bs) (there i) e = elim (Bool-cases (c.id == id)) [
    | inl t ↦ rw t (there (In-update_budget bs i e))
    | inr n ↦ rw n (there (In-update_budget bs i e))
  ]

-- What stands in relation to each row, row by row.
abbrev pub Rowwise : (Budget → Budget → Type 0) → List Budget → List Budget → Type 0
Rowwise R [] [] = Unit
Rowwise R [] (c ∷ cs) = ⊥
Rowwise R (b ∷ bs) [] = ⊥
Rowwise R (b ∷ bs) (c ∷ cs) = R b c × Rowwise R bs cs

module _ (R : Budget → Budget → Type 0) where
  pub Rowwise-refl : ((b : Budget) → R b b) → (bs : List Budget) → Rowwise R bs bs
  Rowwise-refl r [] = tt
  Rowwise-refl r (b ∷ bs) = (r b, Rowwise-refl r bs)

  pub Rowwise-trans :
      ((a b c : Budget) → R a b → R b c → R a c)
      → (as' bs cs : List Budget) → Rowwise R as' bs
      → Rowwise R bs cs
      → Rowwise R as' cs
  Rowwise-trans t [] [] [] h k = tt
  Rowwise-trans t [] [] (c ∷ cs) h k = absurd k
  Rowwise-trans t [] (b ∷ bs) cs h k = absurd h
  Rowwise-trans t (a ∷ as') [] cs h k = absurd h
  Rowwise-trans t (a ∷ as') (b ∷ bs) [] h k = absurd k
  Rowwise-trans t (a ∷ as') (b ∷ bs) (c ∷ cs) h k =
      (t a b c h.0 k.0, Rowwise-trans t as' bs cs h.1 k.1)

  pub Rowwise-update_budget :
      (id : ℕ) (f : Budget → Budget)
      → ((b : Budget) → R b b)
      → (bs : List Budget) → All (λ b. b.id ≡ id → R b (f b)) bs
      → Rowwise R bs (update_budget id f bs)
  unfolding update_budget
  Rowwise-update_budget id f r [] h = tt
  Rowwise-update_budget id f r (b ∷ bs) h = elim (Bool-cases (b.id == id)) [
    | inl e ↦ rw e (h.0 (ground arith), Rowwise-update_budget id f r bs h.1)
    | inr e ↦ rw e (r b, Rowwise-update_budget id f r bs h.1)
  ]

  pub Rowwise-In :
      {b : Budget} (bs cs : List Budget)
      → Rowwise R bs cs
      → In b bs
      → (c : Budget) × In c cs × R b c
  Rowwise-In [] cs h i = elim i [ ]
  Rowwise-In (b ∷ bs) [] h i = absurd h
  Rowwise-In (x ∷ bs) (c ∷ cs) h (here e) = (c, here refl, rw e at h.0)
  Rowwise-In (x ∷ bs) (c ∷ cs) h (there i) =
      let (d, j, r) = Rowwise-In bs cs h.1 i in (d, there j, r)
