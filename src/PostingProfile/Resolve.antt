-- ===== src/PostingProfile/Resolve.antt =====
-- The posting profile of src/modules/financials/posting-profile.service.ts has one rule for a role and a
-- fund, and the roles resolve to what was configured.
use waslproperty_backend.Prelude.{
  ℕ, ◌+◌, ◌<◌, ◌≡◌, ◌≢◌, ◌⊎◌, refl, inl, inr, false, Option, none, some, List, [], ◌∷◌, arith, All,
  All-implies, Option-cases, Bool-cases, find-eq-none, ◌==◌,
}
use waslproperty_backend.Prelude.Result.{ok, Result-cases}
use waslproperty_backend.Store.{Db, Rule, PostingRole}
use waslproperty_backend.Store.Tx.{after}
use waslproperty_backend.Store.Rows.{
  get_owned_property, get_configuration, fresh_id, record_activity,
}
use waslproperty_backend.PostingProfile.{
  is_rule_for, find_rule, find_specific, update_rule, resolve, check_fund, create_rule, upsert,
}

-- Rule `q` is for another property, role or fund than `r`.
abbrev pub OtherRule : Rule → Rule → Type 0
OtherRule r q = (is_rule_for r.property_id r.role r.financial_fund_id q ≡ false) × (q.id ≢ r.id)

abbrev pub DistinctRules : List Rule → Type 0
DistinctRules [] = Unit
DistinctRules (r ∷ rs) = All (OtherRule r) rs × DistinctRules rs

pub record Profile (s : Db) : Type 0 where
  pub distinct : DistinctRules s.rules
  pub fresh : All (λ r. r.id < s.next_id) s.rules

-- The row that `upsert` writes.
abbrev new_rule : ℕ → ℕ → PostingRole → Option ℕ → ℕ → ℕ → Rule
new_rule org prop role fund account id = record {
  id = id;
  organisation_id = org;
  property_id = prop;
  role = role;
  financial_fund_id = fund;
  account_id = account;
}

-- What a successful `upsert` has written.
upsert-eq-ok :
    (org actor prop : ℕ) (role : PostingRole) (fund : Option ℕ) (account : ℕ) (s : Db) {r : Rule}
    {s' : Db}
    → upsert org actor prop role fund account s ≡ ok (r, s')
    → ((q : Rule) × (find_rule prop role fund s.rules ≡ some q)
        × (s'.rules ≡ update_rule q.id account s.rules)
        × (s'.next_id ≡ s.next_id))
      ⊎ ((find_rule prop role fund s.rules ≡ none)
          × (s'.rules ≡ new_rule org prop role fund account s.next_id ∷ s.rules)
          × (s'.next_id ≡ s.next_id + 1))
unfolding upsert get_owned_property get_configuration check_fund create_rule fresh_id
    record_activity
upsert-eq-ok org actor prop role none account s {r} {s'} h =
    elim (Option-cases (find_rule prop role none s.rules)) [
      | inl e ↦ inr (e, ground (arith, e), ground (arith, e))
      | inr (q, e) ↦ inl (q, e, ground (arith, e), ground (arith, e))
    ]
upsert-eq-ok org actor prop role (some f) account s {r} {s'} h =
    elim (Option-cases (find_rule prop role (some f) s.rules)) [
      | inl e ↦ inr (e, ground (arith, e), ground (arith, e))
      | inr (q, e) ↦ inl (q, e, ground (arith, e), ground (arith, e))
    ]

find_rule_of_id :
    (prop : ℕ) (role : PostingRole) (fund : Option ℕ) (account : ℕ) (rs : List Rule) {q : Rule}
    → DistinctRules rs
    → find_rule prop role fund rs ≡ some q
    → (p : Rule) × (find_rule prop role fund (update_rule q.id account rs) ≡ some p)
      × (p.account_id ≡ account)
unfolding find_rule update_rule
find_rule_of_id prop role fund account [] d h = cc
find_rule_of_id prop role fund account (r ∷ rs) {q} d h =
    elim (Bool-cases (is_rule_for prop role fund r)) [
      | inl e ↦
          let same : r ≡ q = ground arith in
          (record r { account_id = account }, rw (← same) (ground arith), refl)
      | inr e ↦
          let (p, f, a) = find_rule_of_id prop role fund account rs {q = q} d.1 (ground arith) in
          (p, ground (arith, e, f), a)
    ]

resolve_of_rule :
    (prop : ℕ) (role : PostingRole) (fund : Option ℕ) (s : Db) {p : Rule}
    → find_rule prop role fund s.rules ≡ some p
    → resolve prop role fund s ≡ ok (p.account_id, s)
unfolding resolve find_specific
resolve_of_rule prop role none s h = ground arith
resolve_of_rule prop role (some f) s h = ground arith

find_rule_first :
    (prop : ℕ) (role : PostingRole) (fund : Option ℕ) (r : Rule) (rs : List Rule)
    → r.property_id ≡ prop
    → r.role ≡ role
    → r.financial_fund_id ≡ fund
    → find_rule prop role fund (r ∷ rs) ≡ some r
unfolding find_rule
find_rule_first prop role none r rs a b c = ground arith
find_rule_first prop role (some f) r rs a b c = ground arith

-- After a successful `upsert` of an account for a role and a fund, or for the whole property, the role
-- resolves to that account there.
pub resolve-upsert :
    (org actor prop : ℕ) (role : PostingRole) (fund : Option ℕ) (account : ℕ) (s s' : Db) {r : Rule}
    → Profile s
    → upsert org actor prop role fund account s ≡ ok (r, s')
    → resolve prop role fund s' ≡ ok (account, s')
resolve-upsert org actor prop role fund account s s' {r} inv h =
    elim (upsert-eq-ok org actor prop role fund account s h) [
      | inl (q, e, rules, next) ↦
          let (p, f, a) = find_rule_of_id prop role fund account s.rules {q = q} inv.distinct e in
          rw (← a) (resolve_of_rule prop role fund s' {p = p} (rw rules f))
      | inr (e, rules, next) ↦
          let row = new_rule org prop role fund account s.next_id in
          resolve_of_rule prop role fund s' {p = row}
            (rw rules (find_rule_first prop role fund row s.rules refl refl refl))
    ]

module _ (id account : ℕ) where
  All-OtherRule :
      (r : Rule) (rs : List Rule)
      → All (OtherRule r) rs
      → All (OtherRule r) (update_rule id account rs)
  unfolding update_rule
  All-OtherRule r [] h = tt
  All-OtherRule r (q ∷ rs) h = elim (Bool-cases (q.id == id)) [
    | inl e ↦ rw e (h.0, All-OtherRule r rs h.1)
    | inr e ↦ rw e (h.0, All-OtherRule r rs h.1)
  ]

  update_rule-DistinctRules :
      (rs : List Rule) → DistinctRules rs → DistinctRules (update_rule id account rs)
  unfolding update_rule
  update_rule-DistinctRules [] h = tt
  update_rule-DistinctRules (q ∷ rs) h = elim (Bool-cases (q.id == id)) [
    | inl e ↦
        rw e (
          All-OtherRule (record q { account_id = account }) rs h.0,
          update_rule-DistinctRules rs h.1,
        )
    | inr e ↦ rw e (All-OtherRule q rs h.0, update_rule-DistinctRules rs h.1)
  ]

  All-update_rule :
      (next : ℕ) (rs : List Rule)
      → All (λ r. r.id < next) rs
      → All (λ r. r.id < next) (update_rule id account rs)
  unfolding update_rule
  All-update_rule next [] h = tt
  All-update_rule next (q ∷ rs) h = elim (Bool-cases (q.id == id)) [
    | inl e ↦ rw e (h.0, All-update_rule next rs h.1)
    | inr e ↦ rw e (h.0, All-update_rule next rs h.1)
  ]

All-new :
    (prop : ℕ) (role : PostingRole) (fund : Option ℕ) (next : ℕ) (rs : List Rule)
    → All (λ r. is_rule_for prop role fund r ≡ false) rs
    → All (λ r. r.id < next) rs
    → All (λ r. (is_rule_for prop role fund r ≡ false) × (r.id ≢ next)) rs
All-new prop role fund next [] a b = tt
All-new prop role fund next (r ∷ rs) a b =
    ((a.0, omega arith), All-new prop role fund next rs a.1 b.1)

-- The profile keeps one rule at most for a role and a fund of a property, and ids that are not given
-- out twice, whether an `upsert` succeeds or throws.
pub upsert-Profile :
    (org actor prop : ℕ) (role : PostingRole) (fund : Option ℕ) (account : ℕ) (s : Db)
    → Profile s
    → Profile (after s (upsert org actor prop role fund account s))
unfolding find_rule
upsert-Profile org actor prop role fund account s inv =
    elim (Result-cases (upsert org actor prop role fund account s)) [
      | inl (e, q) ↦ rw (q, after) inv
      | inr ((r, s'), q) ↦ elim (upsert-eq-ok org actor prop role fund account s q) [
        | inl (p, e, rules, next) ↦
            rw (q, after)
              (record {
                distinct = rw rules (update_rule-DistinctRules p.id account s.rules inv.distinct);
                fresh = rw (rules, next) (All-update_rule p.id account s.next_id s.rules inv.fresh);
              })
        | inr (e, rules, next) ↦
            rw (q, after)
              (record {
                distinct = rw rules (
                  All-new prop role fund s.next_id s.rules
                      (find-eq-none (is_rule_for prop role fund) s.rules e) inv.fresh,
                  inv.distinct,
                );
                fresh =
                    rw (rules, next)
                      (omega arith, All-implies (λ r h. omega arith) s.rules inv.fresh);
              })
      ]
    ]
