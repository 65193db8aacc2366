-- ===== src/Budgets/Activates.antt =====
-- `activate` in src/modules/financials/budgets.service.ts ends, and puts an approved budget in force.
use waslproperty_backend.Store.Tx.{Tx}
