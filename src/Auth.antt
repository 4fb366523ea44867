-- ===== src/Auth.antt =====
-- asyncgate/auth and asyncgate/api/deps.py: who a request comes from, and for which tenant it acts.
pub mod Keys
pub mod Token
pub mod Deps
pub mod Tenancy
pub mod Provenance
pub mod Issue
