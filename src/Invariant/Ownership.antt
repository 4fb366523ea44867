-- ===== src/Invariant/Ownership.antt =====
-- Whose a task is (`create_task` and `_resolve_obligation_owner` of engine/core.py).
use async_gate.Store.{Store}
