-- ===== src/Mcp/Server.antt =====
-- asyncgate/mcp/server.py: `_handle_tool`. Where several arguments are wrong, which of the errors is
-- raised may differ from the source.
use async_gate.Prelude.{
  ℕ, Bool, true, false, not, ◌&&◌, Option, none, some, List, [], ◌∷◌, String, str_eq, if◌then◌else◌,
  get_or, count_or, first,
}
use async_gate.Models.Enums.{TaskStatus, PrincipalKind}
use async_gate.Models.Json.{Json, Fields, end, get, truthy}
use async_gate.Models.Records.{Principal, Task, Receipt, Progress, Relationship}
use async_gate.Models.Auth.{AuthContext}
use async_gate.Store.{
  M, ◌>>=◌, ◌>>◌, pure, raise, gets, modify, or_raise, transaction, type_error, value_error,
  unknown_tool,
}
use async_gate.Repositories.Progress
use async_gate.Repositories.Ledger
use async_gate.Engine.Tasker
use async_gate.Engine.Worker
use async_gate.Engine.Worker.{LeaseInfo}
use async_gate.Auth.Token.{is_open, verify_auth_token}
use async_gate.Mcp.Arguments.{
  text_arg, dict_arg, uuid_arg, text_opt, dict_opt, count_opt, int_opt, bool_opt, list_opt,
  uuid_opt, status_opt, type_opt, kind_arg, time_opt, requirements_opt,
}

pub data Tool : Type 0 where
  bootstrap create_task get_task list_tasks cancel_task : Tool
  list_receipts list_receipts_ledger ack_receipt check_terminator : Tool
  lease_next renew_lease report_progress complete fail : Tool
  health get_config : Tool

-- The names in TOOL_DEFS.
abbrev pub tool_name : Tool → String
tool_name Tool.bootstrap = "asyncgate.bootstrap"
tool_name Tool.create_task = "asyncgate.create_task"
tool_name Tool.get_task = "asyncgate.get_task"
tool_name Tool.list_tasks = "asyncgate.list_tasks"
tool_name Tool.cancel_task = "asyncgate.cancel_task"
tool_name Tool.list_receipts = "asyncgate.list_receipts"
tool_name Tool.list_receipts_ledger = "asyncgate.list_receipts_ledger"
tool_name Tool.ack_receipt = "asyncgate.ack_receipt"
tool_name Tool.check_terminator = "asyncgate.check_terminator"
tool_name Tool.lease_next = "asyncgate.lease_next"
tool_name Tool.renew_lease = "asyncgate.renew_lease"
tool_name Tool.report_progress = "asyncgate.report_progress"
tool_name Tool.complete = "asyncgate.complete"
tool_name Tool.fail = "asyncgate.fail"
tool_name Tool.health = "asyncgate.health"
tool_name Tool.get_config = "asyncgate.get_config"

abbrev tools : List Tool
tools =
    Tool.bootstrap ∷ Tool.create_task ∷ Tool.get_task ∷ Tool.list_tasks ∷ Tool.cancel_task
    ∷ Tool.list_receipts ∷ Tool.list_receipts_ledger ∷ Tool.ack_receipt ∷ Tool.check_terminator
    ∷ Tool.lease_next ∷ Tool.renew_lease ∷ Tool.report_progress ∷ Tool.complete ∷ Tool.fail
    ∷ Tool.health ∷ Tool.get_config ∷ []

unfoldable pub find_tool : String → Option Tool
unfolding first
find_tool name = first (λ t. str_eq (tool_name t) name) tools

pub data ToolResult : Type 0 where
  bootstrapped : Relationship → List Receipt → Option ℕ → ToolResult
  created : ℕ → TaskStatus → ToolResult
  found : Task → Option Progress → ToolResult
  tasks : List Task → Option ℕ → ToolResult
  canceled : Bool → TaskStatus → ToolResult
  receipts : List Receipt → Option ℕ → ToolResult
  ledger : List Fields → Option ℕ → ToolResult
  acknowledged : ToolResult
  terminator : ℕ → Bool → ToolResult
  leases : List LeaseInfo → ToolResult
  renewed : ℕ → ToolResult
  reported : ToolResult
  completed : ToolResult
  failed : Bool → Option ℕ → ToolResult
  healthy : ToolResult
  config : ToolResult

-- `UUID(auth.tenant_id)`
unfoldable pub tenant_of : AuthContext → M ℕ
tenant_of auth = do
  id ← gets (λ s. s.env.parse_uuid auth.tenant_id)
  or_raise id (value_error "badly formed hexadecimal UUID string")

abbrev pub agent : String → Option String → Principal
agent id instance_id = record { kind = PrincipalKind.agent; id = id; instance_id = instance_id }

abbrev pub bootstrap_tool : ℕ → Fields → M ToolResult
bootstrap_tool tenant_id arguments = do
  agent_id ← text_arg "agent_id" arguments
  instance_id ← text_opt "agent_instance_id" arguments
  relationship ← Progress.upsert tenant_id PrincipalKind.agent agent_id instance_id
  since ← uuid_opt "since_receipt_id" arguments
  max_items ← count_opt "max_items" arguments
  default ← gets (λ s. s.settings.default_bootstrap_max_items)
  open_ ←
      Tasker.list_open_obligations tenant_id (agent agent_id instance_id) since
        (count_or max_items default)
  pure (bootstrapped relationship open_.0 open_.1)

abbrev pub task_request : Fields → M Tasker.TaskRequest
task_request arguments = do
  agent_id ← text_arg "agent_id" arguments
  type ← text_arg "type" arguments
  payload ← dict_opt "payload" arguments
  payload_pointer ← text_opt "payload_pointer" arguments
  principal_ai ← text_arg "principal_ai" arguments
  requirements ← requirements_opt arguments
  expected_outcome_kind ← text_opt "expected_outcome_kind" arguments
  expected_artifact_mime ← text_opt "expected_artifact_mime" arguments
  priority ← int_opt "priority" arguments
  idempotency_key ← text_opt "idempotency_key" arguments
  max_attempts ← count_opt "max_attempts" arguments
  retry_backoff_seconds ← count_opt "retry_backoff_seconds" arguments
  delay_seconds ← count_opt "delay_seconds" arguments
  default ← gets (λ s. s.settings.default_priority)
  pure (record {
    new = record {
      type = type;
      payload = get_or payload end;
      created_by = agent agent_id none;
      principal_ai = some principal_ai;
      payload_pointer = payload_pointer;
      requirements = requirements;
      expected_outcome_kind = expected_outcome_kind;
      expected_artifact_mime = expected_artifact_mime;
      priority = default;
      idempotency_key = idempotency_key;
      max_attempts = max_attempts;
      retry_backoff_seconds = retry_backoff_seconds;
      delay_seconds = delay_seconds;
    };
    priority = priority;
  })

-- The branches of `_handle_tool` that act for a tenant.
unfoldable pub tenant_tool : Tool → ℕ → Bool → Fields → M ToolResult
unfolding Progress.upsert Tasker.list_open_obligations Tasker.create_task Tasker.get_task
    Tasker.list_tasks Tasker.cancel_task Tasker.list_receipts Tasker.list_receipts_ledger
    Tasker.ack_receipt Ledger.has_terminator Worker.lease_next Worker.renew_lease
    Worker.report_progress Worker.complete Worker.fail text_arg dict_arg uuid_arg text_opt dict_opt
    count_opt int_opt bool_opt list_opt uuid_opt status_opt type_opt kind_arg time_opt
    requirements_opt
tenant_tool Tool.bootstrap tenant_id is_internal arguments = bootstrap_tool tenant_id arguments
tenant_tool Tool.create_task tenant_id is_internal arguments = do
  request ← task_request arguments
  task ← Tasker.create_task tenant_id request is_internal
  pure (created task.0 task.1)
tenant_tool Tool.get_task tenant_id is_internal arguments = do
  task_id ← uuid_arg "task_id" arguments
  task ← Tasker.get_task tenant_id task_id
  pure (found task.0 task.1)
tenant_tool Tool.list_tasks tenant_id is_internal arguments = do
  status ← status_opt "status" arguments
  type ← text_opt "type" arguments
  limit ← count_opt "limit" arguments
  cursor ← time_opt "cursor" arguments
  page ←
      Tasker.list_tasks tenant_id
        (record { status = status; type = type; created_by_id = none; cursor = cursor }) limit
  pure (tasks page.0 page.1)
tenant_tool Tool.cancel_task tenant_id is_internal arguments = do
  agent_id ← text_arg "agent_id" arguments
  task_id ← uuid_arg "task_id" arguments
  reason ← text_opt "reason" arguments
  done ← Tasker.cancel_task tenant_id task_id (agent agent_id none) reason is_internal
  pure (canceled done.0 done.1)
tenant_tool Tool.list_receipts tenant_id is_internal arguments = do
  to_kind ← kind_arg "to_kind" arguments
  to_id ← text_arg "to_id" arguments
  since ← uuid_opt "since_receipt_id" arguments
  limit ← count_opt "limit" arguments
  page ← Tasker.list_receipts tenant_id to_kind to_id since limit
  pure (receipts page.0 page.1)
tenant_tool Tool.list_receipts_ledger tenant_id is_internal arguments = do
  task_id ← uuid_opt "task_id" arguments
  lease_id ← uuid_opt "lease_id" arguments
  receipt_type ← type_opt "receipt_type" arguments
  task_status ← status_opt "task_status" arguments
  since ← uuid_opt "since_receipt_id" arguments
  limit ← count_opt "limit" arguments
  page ←
      Tasker.list_receipts_ledger tenant_id
        (record {
          task_id = task_id;
          lease_id = lease_id;
          receipt_type = receipt_type;
          task_status = task_status;
        })
        since limit
  pure (ledger page.0 page.1)
tenant_tool Tool.ack_receipt tenant_id is_internal arguments = do
  agent_id ← text_arg "agent_id" arguments
  receipt_id ← uuid_arg "receipt_id" arguments
  Tasker.ack_receipt tenant_id receipt_id (agent agent_id none)
  pure acknowledged
tenant_tool Tool.check_terminator tenant_id is_internal arguments = do
  parent ← uuid_arg "parent_receipt_id" arguments
  ended ← gets (Ledger.has_terminator tenant_id parent)
  pure (terminator parent ended)
tenant_tool Tool.lease_next tenant_id is_internal arguments = do
  worker_id ← text_arg "worker_id" arguments
  capabilities ← list_opt "capabilities" arguments
  accept_types ← list_opt "accept_types" arguments
  max_tasks ← count_opt "max_tasks" arguments
  ttl ← count_opt "lease_ttl_seconds" arguments
  got ← Worker.lease_next tenant_id worker_id capabilities accept_types (get_or max_tasks 1) ttl
  pure (leases got)
tenant_tool Tool.renew_lease tenant_id is_internal arguments = do
  worker_id ← text_arg "worker_id" arguments
  task_id ← uuid_arg "task_id" arguments
  lease_id ← uuid_arg "lease_id" arguments
  extend_by ← count_opt "extend_by_seconds" arguments
  expires_at ← Worker.renew_lease tenant_id worker_id task_id lease_id extend_by
  pure (renewed expires_at)
tenant_tool Tool.report_progress tenant_id is_internal arguments = do
  worker_id ← text_arg "worker_id" arguments
  task_id ← uuid_arg "task_id" arguments
  lease_id ← uuid_arg "lease_id" arguments
  progress ← dict_arg "progress" arguments
  Worker.report_progress tenant_id worker_id task_id lease_id progress
  pure reported
tenant_tool Tool.complete tenant_id is_internal arguments = do
  worker_id ← text_arg "worker_id" arguments
  task_id ← uuid_arg "task_id" arguments
  lease_id ← uuid_arg "lease_id" arguments
  result ← dict_arg "result" arguments
  artifacts ← gets (λ s. get "artifacts" arguments)
  Worker.complete tenant_id worker_id task_id lease_id result artifacts
  pure completed
tenant_tool Tool.fail tenant_id is_internal arguments = do
  worker_id ← text_arg "worker_id" arguments
  task_id ← uuid_arg "task_id" arguments
  lease_id ← uuid_arg "lease_id" arguments
  error ← dict_arg "error" arguments
  retryable ← bool_opt "retryable" arguments
  done ← Worker.fail tenant_id worker_id task_id lease_id error (get_or retryable false)
  pure (failed done.0 done.1)
tenant_tool Tool.health tenant_id is_internal arguments = pure healthy
tenant_tool Tool.get_config tenant_id is_internal arguments = pure config

-- Two branches need no tenant.
abbrev pub needs_tenant : Tool → Bool
needs_tenant Tool.health = false
needs_tenant Tool.get_config = false
needs_tenant _ = true

abbrev pub in_tenant : Tool → AuthContext → Fields → M ToolResult
in_tenant tool auth arguments =
    if needs_tenant tool
    then (do tenant_id ← tenant_of auth; tenant_tool tool tenant_id auth.is_internal arguments)
    else tenant_tool tool 0 auth.is_internal arguments

abbrev pub call_tool : String → AuthContext → Fields → M ToolResult
call_tool name auth arguments = do
  tool ← or_raise (find_tool name) (unknown_tool name)
  in_tenant tool auth arguments

-- `auth_token`: none where it is missing, null or empty. Where it is looked at, any other value than
-- a text is an error, since it has no `count`.
abbrev pub token_of : Option Json → M (Option String)
token_of none = pure none
token_of (some (Json.str s)) = pure (some s)
token_of (some v) = do
  open_ ← gets is_open
  if truthy v && not open_ then raise type_error else pure none

abbrev pub truthy_or : Option Json → Option Json → Option Json
truthy_or none other = other
truthy_or (some v) other = if truthy v then some v else other

-- _extract_principal_id
unfoldable pub extract_principal_id : Fields → Option Json
unfolding get truthy
extract_principal_id arguments = truthy_or (get "agent_id" arguments) (
    truthy_or (get "worker_id" arguments)
      (truthy_or (get "principal_id" arguments) (truthy_or (get "to_id" arguments) none)))

-- The beginning of `_handle_tool`; a trace that is empty counts as none. The arguments that are popped are read by nothing that follows.
unfoldable pub authenticated : Fields → M AuthContext
unfolding get truthy extract_principal_id verify_auth_token
authenticated arguments = do
  token ← token_of (get "auth_token" arguments)
  modify (λ s. record s { trace_id = truthy_or (get "trace_id" arguments) none })
  verify_auth_token token (get "tenant_id" arguments) (extract_principal_id arguments)

unfoldable pub handle : String → Fields → M ToolResult
unfolding authenticated find_tool tenant_of tenant_tool
handle name arguments = do auth ← authenticated arguments; call_tool name auth arguments

unfoldable pub handle_tool : String → Fields → M ToolResult
unfolding transaction handle
handle_tool name arguments = transaction (handle name arguments)
