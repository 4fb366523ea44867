-- ===== src/Isolation.antt =====
-- What the calls of one tenant leave of the rows of another (mcp/server.py, and all below it).
pub mod Views
pub mod Rows
pub mod Tools
