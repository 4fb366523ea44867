-- ===== src/Writes/Tools.antt =====
-- The branches of `_handle_tool` (mcp/server.py) that act for a tenant.
use async_gate.Prelude.{ℕ, Bool}
use async_gate.Models.Json.{Fields}
use async_gate.Store.{Store}
use async_gate.Store.Frame.{Within}
use async_gate.Writes.{Writes}
use async_gate.Store.Closed.{Closed, Within-pure, within_rules}
use async_gate.Engine.Tasker
use async_gate.Mcp.Server.{Tool, bootstrap_tool, task_request, tenant_tool}
use async_gate.Writes.Rows.{upsert-Within}
use async_gate.Writes.Arguments.{argument_rules}
use async_gate.Writes.Tasker.{
  create_task-Within, get_task-Within, cancel_task-Within, ack_receipt-Within,
  list_open_obligations-Within,
}
use async_gate.Writes.Worker.{
  lease_next-Within, renew_lease-Within, report_progress-Within, complete-Within, fail-Within,
}

module _ {R : Store → Store → Type 0} (c : Closed R) (tenant_id : ℕ) (w : Writes R tenant_id) where
  bootstrap-Within : (arguments : Fields) → Within R (bootstrap_tool tenant_id arguments)
  bootstrap-Within arguments =
      search (within_rules, argument_rules, upsert-Within, list_open_obligations-Within) depth 24

  task_request-Within : (arguments : Fields) → Within R (task_request arguments)
  task_request-Within arguments = search (within_rules, argument_rules) depth 48

  create_task_tool :
      (internal : Bool) (arguments : Fields)
      → Within R (tenant_tool Tool.create_task tenant_id internal arguments)
  unfolding tenant_tool
  create_task_tool internal arguments =
      search (within_rules, argument_rules, task_request-Within, create_task-Within) depth 24

  get_task_tool :
      (internal : Bool) (arguments : Fields)
      → Within R (tenant_tool Tool.get_task tenant_id internal arguments)
  unfolding tenant_tool
  get_task_tool internal arguments = search (within_rules, argument_rules, get_task-Within) depth 24

  list_tasks_tool :
      (internal : Bool) (arguments : Fields)
      → Within R (tenant_tool Tool.list_tasks tenant_id internal arguments)
  unfolding tenant_tool Tasker.list_tasks
  list_tasks_tool internal arguments = search (within_rules, argument_rules) depth 24

  cancel_task_tool :
      (internal : Bool) (arguments : Fields)
      → Within R (tenant_tool Tool.cancel_task tenant_id internal arguments)
  unfolding tenant_tool
  cancel_task_tool internal arguments =
      search (within_rules, argument_rules, cancel_task-Within) depth 24

  list_receipts_tool :
      (internal : Bool) (arguments : Fields)
      → Within R (tenant_tool Tool.list_receipts tenant_id internal arguments)
  unfolding tenant_tool Tasker.list_receipts
  list_receipts_tool internal arguments = search (within_rules, argument_rules) depth 24

  list_receipts_ledger_tool :
      (internal : Bool) (arguments : Fields)
      → Within R (tenant_tool Tool.list_receipts_ledger tenant_id internal arguments)
  unfolding tenant_tool Tasker.list_receipts_ledger
  list_receipts_ledger_tool internal arguments = search (within_rules, argument_rules) depth 24

  ack_receipt_tool :
      (internal : Bool) (arguments : Fields)
      → Within R (tenant_tool Tool.ack_receipt tenant_id internal arguments)
  unfolding tenant_tool
  ack_receipt_tool internal arguments =
      search (within_rules, argument_rules, ack_receipt-Within) depth 24

  check_terminator_tool :
      (internal : Bool) (arguments : Fields)
      → Within R (tenant_tool Tool.check_terminator tenant_id internal arguments)
  unfolding tenant_tool
  check_terminator_tool internal arguments = search (within_rules, argument_rules) depth 24

  lease_next_tool :
      (internal : Bool) (arguments : Fields)
      → Within R (tenant_tool Tool.lease_next tenant_id internal arguments)
  unfolding tenant_tool
  lease_next_tool internal arguments =
      search (within_rules, argument_rules, lease_next-Within) depth 24

  renew_lease_tool :
      (internal : Bool) (arguments : Fields)
      → Within R (tenant_tool Tool.renew_lease tenant_id internal arguments)
  unfolding tenant_tool
  renew_lease_tool internal arguments =
      search (within_rules, argument_rules, renew_lease-Within) depth 24

  report_progress_tool :
      (internal : Bool) (arguments : Fields)
      → Within R (tenant_tool Tool.report_progress tenant_id internal arguments)
  unfolding tenant_tool
  report_progress_tool internal arguments =
      search (within_rules, argument_rules, report_progress-Within) depth 24

  complete_tool :
      (internal : Bool) (arguments : Fields)
      → Within R (tenant_tool Tool.complete tenant_id internal arguments)
  unfolding tenant_tool
  complete_tool internal arguments = search (within_rules, argument_rules, complete-Within) depth 24

  fail_tool :
      (internal : Bool) (arguments : Fields)
      → Within R (tenant_tool Tool.fail tenant_id internal arguments)
  unfolding tenant_tool
  fail_tool internal arguments = search (within_rules, argument_rules, fail-Within) depth 24

  pub tenant_tool-Within :
      (tool : Tool) (internal : Bool) (arguments : Fields)
      → Within R (tenant_tool tool tenant_id internal arguments)
  tenant_tool-Within Tool.bootstrap internal arguments =
      unfold tenant_tool in bootstrap-Within arguments
  tenant_tool-Within Tool.create_task internal arguments = create_task_tool internal arguments
  tenant_tool-Within Tool.get_task internal arguments = get_task_tool internal arguments
  tenant_tool-Within Tool.list_tasks internal arguments = list_tasks_tool internal arguments
  tenant_tool-Within Tool.cancel_task internal arguments = cancel_task_tool internal arguments
  tenant_tool-Within Tool.list_receipts internal arguments = list_receipts_tool internal arguments
  tenant_tool-Within Tool.list_receipts_ledger internal arguments =
      list_receipts_ledger_tool internal arguments
  tenant_tool-Within Tool.ack_receipt internal arguments = ack_receipt_tool internal arguments
  tenant_tool-Within Tool.check_terminator internal arguments =
      check_terminator_tool internal arguments
  tenant_tool-Within Tool.lease_next internal arguments = lease_next_tool internal arguments
  tenant_tool-Within Tool.renew_lease internal arguments = renew_lease_tool internal arguments
  tenant_tool-Within Tool.report_progress internal arguments =
      report_progress_tool internal arguments
  tenant_tool-Within Tool.complete internal arguments = complete_tool internal arguments
  tenant_tool-Within Tool.fail internal arguments = fail_tool internal arguments
  tenant_tool-Within Tool.health internal arguments = unfold tenant_tool in Within-pure c _
  tenant_tool-Within Tool.get_config internal arguments = unfold tenant_tool in Within-pure c _
