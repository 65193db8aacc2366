-- ===== src/Periods/Calendar.antt =====
-- The calendar of src/modules/financials/accounting-periods.service.ts stays free of overlaps, so that
-- a date has at most one period.
use waslproperty_backend.Prelude.{
  ℕ, ◌+◌, ◌≤◌, ◌<◌, ◌≡◌, ◌≢◌, ◌⊎◌, refl, sym, ap, ◌∙◌, inl, inr, true, false, none, some, List, [],
  ◌∷◌, ◌&&◌, ◌==◌, arith, All, All-at, In, here, there, Bool-cases, Option-cases, All-implies,
  find-eq-some, find-eq-none,
}
use waslproperty_backend.Prelude.Result.{ok, Result-cases}
use waslproperty_backend.Store.{Db, Period, opened, closed}
use waslproperty_backend.Store.Tx.{after}
use waslproperty_backend.Store.Rows.{
  get_owned_property, get_configuration, fresh_id, record_activity,
}
use waslproperty_backend.Periods.{
  get_owned_period, covers, find_covering_period, find_overlap, update_period, closing, reopening,
  create, close, reopen,
}

-- Two periods of one property have no day in common.
abbrev pub Apart : Period → Period → Type 0
Apart p q =
    (p.property_id ≢ q.property_id) ⊎ (p.end_date < q.start_date) ⊎ (q.end_date < p.start_date)

abbrev pub Disjoint : List Period → Type 0
Disjoint [] = Unit
Disjoint (p ∷ ps) = All (Apart p) ps × Disjoint ps

pub record Calendar (s : Db) : Type 0 where
  pub disjoint : Disjoint s.periods
  pub forward : All (λ p. p.start_date < p.end_date) s.periods
  pub fresh : All (λ p. p.id < s.next_id) s.periods

-- A change that keeps a period's place in the calendar.
abbrev KeepsPlace : (Period → Period) → Type 0
KeepsPlace f =
    (p : Period)
    → ((f p).property_id ≡ p.property_id)
      × ((f p).start_date ≡ p.start_date)
      × ((f p).end_date ≡ p.end_date)
      × ((f p).id ≡ p.id)

All-find_overlap :
    (prop start end : ℕ) (q : Period) (ps : List Period)
    → q.property_id ≡ prop
    → q.start_date ≡ start
    → q.end_date ≡ end
    → find_overlap prop start end ps ≡ none
    → All (Apart q) ps
unfolding find_overlap
All-find_overlap prop start end q [] a b c h = tt
All-find_overlap prop start end q (p ∷ ps) a b c h =
    (ground arith, All-find_overlap prop start end q ps a b c (ground arith))

module _ (id : ℕ) (f : Period → Period) where
  All-update_period :
      (P : Period → Type 0)
      → ((p : Period) → P p → P (f p))
      → (ps : List Period) → All P ps
      → All P (update_period id f ps)
  unfolding update_period
  All-update_period P keep [] h = tt
  All-update_period P keep (p ∷ ps) h = elim (Bool-cases (p.id == id)) [
    | inl e ↦ rw e (keep p h.0, All-update_period P keep ps h.1)
    | inr e ↦ rw e (h.0, All-update_period P keep ps h.1)
  ]

  Disjoint-update_period :
      KeepsPlace f → (ps : List Period) → Disjoint ps → Disjoint (update_period id f ps)
  unfolding update_period
  Disjoint-update_period keeps [] h = tt
  Disjoint-update_period keeps (p ∷ ps) h =
      let rest = Disjoint-update_period keeps ps h.1 in
      let same = All-update_period (Apart p) (λ q a. ground (arith, keeps q)) ps h.0 in
      elim (Bool-cases (p.id == id)) [
        | inl e ↦
            rw e (All-implies (λ q a. ground (arith, keeps p)) (update_period id f ps) same, rest)
        | inr e ↦ rw e (same, rest)
      ]

  -- A change in place of one period keeps the calendar.
  Calendar-update_period :
      KeepsPlace f
      → (s : Db) → Calendar s
      → Calendar (record s { periods = update_period id f s.periods })
  Calendar-update_period keeps s c = record {
    disjoint = Disjoint-update_period keeps s.periods c.disjoint;
    forward =
        All-update_period (λ p. p.start_date < p.end_date) (λ p h. ground (arith, keeps p))
          s.periods c.forward;
    fresh =
        All-update_period (λ p. p.id < s.next_id) (λ p h. ground (arith, keeps p)) s.periods
          c.fresh;
  }

  -- So does any change of the tables that updates a period and gives out no id.
  Calendar-changed :
      KeepsPlace f
      → (s s' : Db) → Calendar s
      → s'.periods ≡ update_period id f s.periods
      → s'.next_id ≡ s.next_id
      → Calendar s'
  Calendar-changed keeps s s' c e n =
      let u = Calendar-update_period keeps s c in
      record { disjoint = rw e u.disjoint; forward = rw e u.forward; fresh = rw (e, n) u.fresh }

All-id_mono : (n m : ℕ) (ps : List Period) → n ≤ m → All (λ p. p.id < n) ps → All (λ p. p.id < m) ps
All-id_mono n m ps le = All-implies (λ p h. omega arith) ps

-- What a successful `create` has checked and written.
pub record Created (org prop start end : ℕ) (s : Db) (row : Period) (s' : Db) : Type 0 where
  pub no_overlap : find_overlap prop start end s.periods ≡ none
  pub ordered : start < end
  pub periods_eq : s'.periods ≡ row ∷ s.periods
  pub next_id_eq : s'.next_id ≡ s.next_id + 1
  pub place : (row.property_id ≡ prop) × (row.start_date ≡ start) × (row.end_date ≡ end)
  pub id_eq : row.id ≡ s.next_id
  pub is_open : row.status ≡ opened
  pub owner : row.organisation_id ≡ org

pub create-Created :
    (org actor prop start end : ℕ) (s : Db) {row : Period} {s' : Db}
    → create org actor prop start end s ≡ ok (row, s')
    → Created org prop start end s row s'
unfolding create get_owned_property get_configuration fresh_id record_activity
create-Created org actor prop start end s h = ground arith

-- Opening a period keeps the calendar, whether it succeeds or throws.
pub create-Calendar :
    (org actor prop start end : ℕ) (s : Db)
    → Calendar s
    → Calendar (after s (create org actor prop start end s))
create-Calendar org actor prop start end s c =
    elim (Result-cases (create org actor prop start end s)) [
      | inl (e, q) ↦ rw (q, after) c
      | inr ((row, s'), q) ↦
          let k = create-Created org actor prop start end s q in
          let apart =
            All-find_overlap prop start end row s.periods k.place.0 k.place.1 k.place.2
              k.no_overlap in
          rw (q, after)
            (record {
              disjoint = rw k.periods_eq (apart, c.disjoint);
              forward = rw k.periods_eq (ground (arith, k), c.forward);
              fresh = rw k.periods_eq (
                ground (arith, k),
                All-id_mono s.next_id s'.next_id s.periods (omega (arith, k.next_id_eq)) c.fresh,
              );
            })
    ]

-- What a successful `close` has written.
pub close-eq-ok :
    (org actor prop id : ℕ) (s : Db) {row : Period} {s' : Db}
    → close org actor prop id s ≡ ok (row, s')
    → (row.status ≡ closed)
      × (s'.next_id ≡ s.next_id)
      × ((s' ≡ s) ⊎ (s'.periods ≡ update_period row.id (closing actor) s.periods))
unfolding close get_owned_property get_configuration get_owned_period record_activity
close-eq-ok org actor prop id s h = ground arith

-- What a successful `reopen` has written.
pub reopen-eq-ok :
    (org actor prop id : ℕ) (s : Db) {row : Period} {s' : Db}
    → reopen org actor prop id s ≡ ok (row, s')
    → (row.status ≡ opened)
      × (s'.next_id ≡ s.next_id)
      × (s'.periods ≡ update_period row.id (reopening actor) s.periods)
unfolding reopen get_owned_property get_configuration get_owned_period record_activity
reopen-eq-ok org actor prop id s h = ground arith

-- Closing a period keeps the calendar, whether it succeeds or throws.
pub close-Calendar :
    (org actor prop id : ℕ) (s : Db) → Calendar s → Calendar (after s (close org actor prop id s))
close-Calendar org actor prop id s c = elim (Result-cases (close org actor prop id s)) [
  | inl (e, q) ↦ rw (q, after) c
  | inr ((row, s'), q) ↦
      let k = close-eq-ok org actor prop id s q in
      rw (q, after)
        (elim k.2 [
          | inl same ↦ rw same c
          | inr changed ↦
              Calendar-changed row.id (closing actor) (λ p. (refl, refl, refl, refl)) s s' c changed
                k.1
        ])
]

-- Reopening a period keeps the calendar, whether it succeeds or throws.
pub reopen-Calendar :
    (org actor prop id : ℕ) (s : Db) → Calendar s → Calendar (after s (reopen org actor prop id s))
reopen-Calendar org actor prop id s c = elim (Result-cases (reopen org actor prop id s)) [
  | inl (e, q) ↦ rw (q, after) c
  | inr ((row, s'), q) ↦
      let k = reopen-eq-ok org actor prop id s q in
      rw (q, after)
        (Calendar-changed row.id (reopening actor) (λ p. (refl, refl, refl, refl)) s s' c k.2 k.1)
]

Disjoint-unique :
    (prop date : ℕ) {p q : Period} (ps : List Period)
    → Disjoint ps
    → In p ps
    → In q ps
    → (p.property_id ≡ prop) × (covers p date ≡ true)
    → (q.property_id ≡ prop) × (covers q date ≡ true)
    → p ≡ q
Disjoint-unique prop date [] d i j h k = elim i [ ]
Disjoint-unique prop date (x ∷ ps) d (here e) (here e') h k = sym e ∙ e'
Disjoint-unique prop date {p} {q} (x ∷ ps) d (here e) (there j) h k =
    absurd (ground (arith, e, All-at (Apart x) ps d.0 j))
Disjoint-unique prop date {p} {q} (x ∷ ps) d (there i) (here e) h k =
    absurd (ground (arith, e, All-at (Apart x) ps d.0 i))
Disjoint-unique prop date (x ∷ ps) d (there i) (there j) h k =
    Disjoint-unique prop date ps d.1 i j h k

-- In a calendar the query for the covering period has one answer at most: whatever period of the
-- property covers the date, `find_covering_period` returns that one.
pub find_covering_period_unique :
    (prop date : ℕ) (s : Db) {p : Period}
    → Calendar s
    → In p s.periods
    → (p.property_id ≡ prop) × (covers p date ≡ true)
    → find_covering_period prop date s.periods ≡ some p
unfolding find_covering_period
find_covering_period_unique prop date s {p} c i h =
    elim (Option-cases (find_covering_period prop date s.periods)) [
      | inl e ↦ absurd (
          ground (
            arith,
            All-at (λ q. (q.property_id == prop && covers q date) ≡ false) s.periods
                (find-eq-none (λ q. q.property_id == prop && covers q date) s.periods e) i,
          ))
      | inr (q, e) ↦
          let (t, j) = find-eq-some (λ x. x.property_id == prop && covers x date) s.periods e in
          e ∙ ap some (Disjoint-unique prop date s.periods c.disjoint j i (ground arith) h)
    ]
