-- ===== src/Repositories.antt =====
-- asyncgate/db/repositories.py. A query is a selection from the list of rows; `scalar_one_or_none`
-- on a key is the first row, since the keys are unique (Invariant.antt). Transactions run one
-- after the other, so no row is ever skipped because another transaction has locked it.
pub mod Tasks
pub mod Leases
pub mod Receipts
pub mod Ledger
pub mod Progress
