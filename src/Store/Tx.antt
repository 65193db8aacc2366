-- ===== src/Store/Tx.antt =====
-- The body of a `prisma.$transaction`: an action on the database that returns a value and the new
-- database, or throws. A throw rolls back, so that it has no database.
use waslproperty_backend.Prelude.{◌≡◌, inl, inr, Bool, true, false, Option, none, some, arith, not}
use waslproperty_backend.Prelude.Result.{AppError, Result, ok, err, Result-cases}
use waslproperty_backend.Store.{Db}

abbrev pub Tx : Type 0 → Type 0
Tx A = Db → Result (A × Db)

module _ {A : Type 0} where
  abbrev pub pure : A → Tx A
  pure a s = ok (a, s)

  abbrev pub throw : AppError → Tx A
  throw e s = err e

  abbrev pub gets : (Db → A) → Tx A
  gets f s = ok (f s, s)

  -- `if (!x) throw e`
  abbrev pub or_throw : Option A → AppError → Tx A
  or_throw none e = throw e
  or_throw (some a) e = pure a

infixl 5 ◌>>=◌ ◌>>◌
abbrev pub ◌>>=◌ : {A B : Type 0} → Tx A → (A → Tx B) → Tx B
◌>>=◌ m f s = elim (m s) [ ok (a, s') ↦ f a s' | err e ↦ err e ]

abbrev pub ◌>>◌ : {A B : Type 0} → Tx A → Tx B → Tx B
m >> k = m >>= λ _. k

-- `if (c) throw e`
abbrev pub throw_if : Bool → AppError → Tx (Unit {0})
throw_if true e = throw e
throw_if false e = pure tt

abbrev pub modify : (Db → Db) → Tx (Unit {0})
modify f s = ok (tt, f s)

-- The database after a request: that of the committed transaction, or the one before a rollback.
abbrev pub after : {A : Type 0} → Db → Result (A × Db) → Db
after s (ok (a, s')) = s'
after s (err e) = s

-- A sequence that succeeds has a first step that succeeds, and the rest succeeds from there.
pub bind-eq-ok :
    {A B : Type 0} (m : Tx A) (f : A → Tx B) (s : Db) {r : B × Db}
    → (m >>= f) s ≡ ok r
    → (a : A) × (t : Db) × (m s ≡ ok (a, t)) × (f a t ≡ ok r)
bind-eq-ok m f s h = elim (Result-cases (m s)) [
  | inl (e, q) ↦ absurd (ground (arith, q))
  | inr ((a, t), q) ↦ (a, t, q, ground (arith, q))
]

-- What a passed check says.
pub throw_if-eq-ok :
    (b : Bool) (e : AppError) (s : Db) {u : Unit {0}} {t : Db}
    → throw_if b e s ≡ ok (u, t)
    → (b ≡ false) × (t ≡ s)
throw_if-eq-ok b e s h = (ground arith, ground arith)

pub or_throw-eq-ok :
    {A : Type 0} (x : Option A) (e : AppError) (s : Db) {a : A} {t : Db}
    → or_throw x e s ≡ ok (a, t)
    → (x ≡ some a) × (t ≡ s)
or_throw-eq-ok x e s h = (ground arith, ground arith)

pub throw_unless-eq-ok :
    (b : Bool) (e : AppError) (s : Db) {u : Unit {0}} {t : Db}
    → throw_if (not b) e s ≡ ok (u, t)
    → (b ≡ true) × (t ≡ s)
throw_unless-eq-ok b e s h = (ground arith, ground arith)

-- A run from an equal database.
pub run-same : {A : Type 0} (m : Tx A) {s t : Db} {r : A × Db} → t ≡ s → m t ≡ ok r → m s ≡ ok r
run-same m same h = rw same at h

-- A run that changes nothing.
pub read-same :
    {A : Type 0} (m : Tx A) {s t u : Db} {a : A} → t ≡ s → u ≡ s → m t ≡ ok (a, u) → m s ≡ ok (a, s)
read-same m from to h = rw (from, to) at h

pub pure-eq-ok :
    {A : Type 0} (a : A) (s : Db) {b : A} {t : Db} → pure a s ≡ ok (b, t) → (b ≡ a) × (t ≡ s)
pure-eq-ok a s h = (ground arith, ground arith)
