-- ===== src/Queries.antt =====
-- What the queries and updates of db/repositories.py promise to the engine.
pub mod Selection
pub mod Obligations
