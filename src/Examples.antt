-- ===== src/Examples.antt =====
-- Tests of the definitions on concrete inputs, and the theorems applied to them.
mod Data
mod Levy
mod LevyData
mod Levies
mod Withdrawal
mod Budgets
mod Ledger
mod Reversals
mod Receipting
mod LotAccount
mod Calendar
