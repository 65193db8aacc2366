-- ===== src/Lib.antt =====
-- Verification of the financial core of the property backend: the services of src/modules/financials
-- that move money, and the one engine through which they write the general ledger.
--
-- The parts, and how they interact:
-- - LevyAllocation (src/modules/financials/levy-allocation.ts): allocateByEntitlement splits a levy over
--   lots in whole cents by largest remainders. It is a pure function; `allocate_by_entitlement` has its
--   checks in its order, and the loops are structural recursion.
-- - Store: the rows of the tables (prisma/schema.prisma) as records, the database `Db` as a record of
--   lists, newest row first, and `Tx`, the body of a `prisma.$transaction`: a function from a database to
--   a value and a new database, or an error, in which case nothing is written.
-- - Periods (src/modules/financials/accounting-periods.service.ts): create, close, reopen, and the lookup
--   of the period that covers a date, which every posting makes.
-- - Posting (src/modules/financials/ledger-posting.service.ts): post, postInTransaction (which is
--   postWithinTransaction), reverse, reverseWithinTransaction and trialBalance. Other services write
--   journals through it only.
-- - PostingProfile (src/modules/financials/posting-profile.service.ts): upsert, and resolve, which gives
--   the account that stands for a role on a property or for a fund.
-- - Receipts (src/modules/financials/receipts.service.ts): recordReceipt, createAllocation,
--   reverseReceipt, reverseAllocation, on Receipts/Allocate and Receipts/Record. Each posts through
--   Posting, with the accounts of PostingProfile. `Books` (Receipts/Books) is the invariant of the
--   receipts, the allocations, the charges and the ledger together. `random_uuid` is node:crypto's
--   randomUUID by the moment of the call, any function here.
-- - LotLedger (src/modules/financials/lot-ledger.service.ts): buildFullLedger on what its queries return
--   (`History`, an argument), and on it getFinancialAccount, getLedger and getStatement (LotLedger/Views).
-- - Levies (src/modules/financials/levies.service.ts): createRegular, createSpecial, approve, cancel and
--   preview on Levies/Schedules, allocateInstallments on Levies/Split, issue on Levies/Issue,
--   reverseInstallment and createAdjustment on Levies/Corrections. An issued instalment is split by
--   LevyAllocation, writes the charges that Receipts are applied to, and posts through Posting. The
--   instalments are a list in their schedule. `Register` (Levies/Lifecycle) is the invariant of the
--   schedules, and `Step` (Levies/Reachable) the relation of the requests.
-- - Budgets (src/modules/financials/budgets.service.ts): create on Budgets, updateMetadata, addLine,
--   updateLine and deleteLine on Budgets/Lines, approve, activate and createRevision on
--   Budgets/Lifecycle. Levies draws the total of a regular levy from an active budget. The lines are a
--   list in their budget. `Plans` (Budgets/Plan) is the invariant of the table, `Evolves`
--   (Budgets/Evolve) how a row may change, and `Step` (Budgets/Reachable) the relation of the requests.
--
-- How the code is read:
-- - Ids, keys, user ids and enumeration strings are numbers or constructors; the code only compares
--   them. Days of `@db.Date` columns are numbers, and `today` is the argument that stands for the clock.
-- - A `Decimal(14, 2)` column is a number of cents. A requested amount is in units of 1/1,000,000 of a
--   cent; `Numeric` (Store/Money) is what PostgreSQL's rounding on a write does: exact on whole cents and
--   monotone. `Decimal` (LevyAllocation) is what decimal.js does in a division: the whole part is right,
--   the digits after it are any. decimal.js keeps 20 significant digits, which the law
--   leaves out: a share whose whole part has w digits can round up to the next whole cent where it is
--   within about 10^(w - 20) of it, which takes a sum of entitlements of about 10^(20 - w).
-- - An operation is one function from the database before it to the one after it, and an interleaving is
--   a sequence of them: requests run one after the other. The transactions that post, and those of
--   accounting periods, ensure it by a lock on the row of the property's financial configuration. The
--   others take no lock: createRegular, createSpecial, approve and cancel of levies, upsert of the posting
--   profile, and the requests about budgets but for activate. The results say nothing of two such
--   requests that overlap, or of one that overlaps with a request under the lock.
-- - The loops run over lists, but for the one of activate over the ancestors of a budget, which follows
--   the links of the table. It has fuel: one more than there are budgets is enough, since each turn takes
--   an approved budget out of that state.
--
-- Not modelled: narrations, names and public references, and timestamps but for the instants in the
-- `History` of LotLedger; views that only copy rows; the catch of a unique violation in
-- postInTransaction, which the lock makes unreachable; the retry of createRevision and the order of the
-- lines in the view of a budget; the notices of levies, arrears, reminders,
-- bank accounts and reports of src/modules/financials, and the other modules of src/modules.
pub mod Prelude
pub mod LevyAllocation
pub mod Store
pub mod Periods
pub mod Posting
pub mod PostingProfile
pub mod Receipts
pub mod LotLedger
pub mod Budgets
pub mod Levies
pub mod Examples
