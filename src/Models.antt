-- ===== src/Models.antt =====
-- asyncgate/models: the enumerations, the records, the termination table and the receipt hash.
pub mod Enums
pub mod Json
pub mod Records
pub mod Auth
pub mod Termination
pub mod ReceiptBody
pub mod ReceiptHash
