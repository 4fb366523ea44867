-- ===== src/Invariant/Verdicts.antt =====
-- What an emission to the ledger comes to (memorygate_client.py).
use async_gate.Store.{Store}
