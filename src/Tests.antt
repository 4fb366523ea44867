-- ===== src/Tests.antt =====
-- Concrete states and runs of the code, and the theorems at them.
pub mod Server
pub mod Client
pub mod Rows
pub mod Access
pub mod Calls
pub mod Limits
pub mod Completes
