-- ===== src/Writes/Tasker.antt =====
-- The engine's operations (engine/core.py) of those who post tasks.
use async_gate.Prelude.{ℕ, Bool, List, [], ◌∷◌, Option, none, some, String}
use async_gate.Models.Records.{Principal, Task, Receipt}
use async_gate.Store.{Store}
use async_gate.Store.Frame.{Within}
use async_gate.Writes.{Writes}
use async_gate.Store.Closed.{Closed, Within-pure, Within-raise, within_rules}
use async_gate.Repositories.Receipts.{NewReceipt}
use async_gate.Repositories.Ledger
use async_gate.Engine.Emit.{emit, emit_result_ready, task_obligation_or_raise}
use async_gate.Engine.Tasker
use async_gate.Invariant.Emission
use async_gate.Writes.Rows.{savepoint-Within, create-Within, cancel-Within}
use async_gate.Writes.Leases.{release-Within}

module _ {R : Store → Store → Type 0} (c : Closed R) (tenant_id : ℕ) (w : Writes R tenant_id) where
  pub emit-Within : (new : NewReceipt) → Within R (emit tenant_id new)
  emit-Within = Emission.emit-Within c tenant_id w.add_receipt

  pub result_ready-Within :
      (task : Task) (owner : Principal) (parents : List ℕ)
      → Within R (emit_result_ready tenant_id task owner parents)
  result_ready-Within = Emission.emit_result_ready-Within c tenant_id w.add_receipt

  pub obligation-Within :
      (task_id : ℕ) (hint : Principal) → Within R (task_obligation_or_raise tenant_id task_id hint)
  unfolding task_obligation_or_raise
  obligation-Within task_id hint = search (within_rules)

  create_checked-Within :
      (created_by : Principal) (request : Tasker.TaskRequest)
      → Within R (Tasker.create_checked tenant_id created_by request)
  unfolding Tasker.create_checked
  create_checked-Within created_by request =
      search (within_rules, create-Within, emit-Within) depth 12

  pub create_task-Within :
      (request : Tasker.TaskRequest) (internal : Bool)
      → Within R (Tasker.create_task tenant_id request internal)
  unfolding Tasker.create_task
  create_task-Within request internal = search (within_rules, create_checked-Within)

  pub get_task-Within : (task_id : ℕ) → Within R (Tasker.get_task tenant_id task_id)
  unfolding Tasker.get_task
  get_task-Within task_id = search within_rules

  cancel_block-Within :
      (task_id : ℕ) (principal owner : Principal) (parents : List ℕ) (reason : Option String)
      → Within R (Tasker.cancel_block tenant_id task_id principal owner parents reason)
  unfolding Tasker.cancel_block
  cancel_block-Within task_id principal owner parents reason =
      search (within_rules, release-Within, cancel-Within, emit-Within) depth 20

  cancel_found-Within :
      (task : Task) (principal : Principal) (reason : Option String) (internal : Bool)
      → Within R (Tasker.cancel_found tenant_id task principal reason internal)
  unfolding Tasker.cancel_found
  cancel_found-Within task principal reason internal =
      search (within_rules, obligation-Within, savepoint-Within, cancel_block-Within) depth 16

  pub cancel_task-Within :
      (task_id : ℕ) (principal : Principal) (reason : Option String) (internal : Bool)
      → Within R (Tasker.cancel_task tenant_id task_id principal reason internal)
  unfolding Tasker.cancel_task
  cancel_task-Within task_id principal reason internal =
      search (within_rules, cancel_found-Within) depth 12

  pub ack_receipt-Within :
      (receipt_id : ℕ) (principal : Principal)
      → Within R (Tasker.ack_receipt tenant_id receipt_id principal)
  unfolding Tasker.ack_receipt
  ack_receipt-Within receipt_id principal = search emit-Within

  cursor-Within : (id : Option ℕ) → Within R (Ledger.cursor_or_raise id)
  cursor-Within none = Within-raise c _
  cursor-Within (some id) = Within-pure c _

  next_cursor-Within :
      (limit : ℕ) (open_ rows : List Receipt) (more : Bool)
      → Within R (Ledger.next_cursor limit open_ rows more)
  next_cursor-Within limit open_ rows more = search (within_rules, cursor-Within)

  open_page-Within :
      (limit : ℕ) (open_ rows : List Receipt) (more : Bool) (fetched : List Receipt)
      → Within R (Ledger.open_page limit open_ rows more fetched)
  open_page-Within limit open_ rows more [] = Within-pure c ([], none)
  open_page-Within limit open_ rows more (r ∷ rs) = search (within_rules, next_cursor-Within)

  pub list_open_obligations-Within :
      (principal : Principal) (since : Option ℕ) (limit : ℕ)
      → Within R (Tasker.list_open_obligations tenant_id principal since limit)
  unfolding Tasker.list_open_obligations Ledger.list_open_obligations
  list_open_obligations-Within principal since limit = search (within_rules, open_page-Within)
