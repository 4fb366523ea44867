-- ===== src/Engine.antt =====
-- asyncgate/engine/core.py
pub mod Emit
pub mod Tasker
pub mod Worker
pub mod Sweep
