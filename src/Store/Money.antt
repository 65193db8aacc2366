-- ===== src/Store/Money.antt =====
-- Amounts of money. A request carries a decimal number, here in units of 1/`per_cent` of a cent; the
-- columns of prisma/schema.prisma are `Decimal(14, 2)`, so that PostgreSQL rounds to cents on a write.
use waslproperty_backend.Prelude.{ℕ, ◌*◌, ◌≤◌, ◌≡◌}

abbrev pub per_cent : ℕ
per_cent = 1_000_000

-- What the services rely on of the rounding on a write: it keeps whole cents and the order.
pub record Numeric : Type 0 where
  pub to_cents : ℕ → ℕ
  pub exact : (c : ℕ) → to_cents (c * per_cent) ≡ c
  pub mono : (a b : ℕ) → a ≤ b → to_cents a ≤ to_cents b
