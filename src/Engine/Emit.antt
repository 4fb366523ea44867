-- ===== src/Engine/Emit.antt =====
-- engine/core.py: principals, obligations, and the emission of receipts.
use async_gate.Prelude.{
  ℕ, Bool, true, false, ◌&&◌, ◌||◌, Option, none, some, List, [], ◌∷◌, String, str_eq,
  if◌then◌else◌, is_some, is_text, any,
}
use async_gate.Models.Enums.{PrincipalKind, ReceiptType, status_value, type_in}
use async_gate.Models.Json.{Json, Fields, get, put}
use async_gate.Models.Records.{Principal, Task, TaskResult, Receipt}
use async_gate.Models.ReceiptBody
use async_gate.Principals.{system_principal_id, service_principal_id, is_system, normalize_external}
use async_gate.Adapter.{to_memorygate_receipt}
use async_gate.Store.{
  Store, receipt_not_yet_committed, value_error, M, ◌>>=◌, ◌>>◌, pure, raise, gets, modify, uuid4,
  when, or_raise,
}
use async_gate.Repositories.Tasks.{find_task}
use async_gate.Repositories.Receipts.{NewReceipt, create}
use async_gate.Repositories.Ledger.{get_task_obligation}
use async_gate.Client.{Emission, delivered, buffered, skipped, refusal, emit_receipt}

abbrev pub service_principal : Principal
service_principal = record {
  kind = PrincipalKind.service;
  id = service_principal_id;
  instance_id = none;
}

abbrev pub system_owner : Principal
system_owner = record { kind = PrincipalKind.system; id = system_principal_id; instance_id = none }

abbrev pub worker_principal : String → Principal
worker_principal worker_id = record {
  kind = PrincipalKind.worker;
  id = worker_id;
  instance_id = none;
}

unfoldable pub normalize_principal : Principal → Principal
unfolding normalize_external
normalize_principal principal = record principal { id = normalize_external principal.id }

unfoldable pub resolve_obligation_owner : Principal → Principal
unfolding normalize_principal is_system
resolve_obligation_owner created_by =
    let normalized = normalize_principal created_by in
    if is_system normalized.id || str_eq normalized.id service_principal_id
    then system_owner
    else normalized

abbrev pub or_any_owner : Option Receipt → Option Receipt → Option Receipt
or_any_owner none other = other
or_any_owner (some r) other = some r

-- `_get_task_obligation`, with the owner as a hint.
unfoldable pub task_obligation : ℕ → ℕ → Principal → Store → Option Receipt
unfolding get_task_obligation
task_obligation tenant_id task_id owner_hint s =
    or_any_owner (get_task_obligation tenant_id task_id (some owner_hint) s)
      (get_task_obligation tenant_id task_id none s)

unfoldable pub task_obligation_or_raise : ℕ → ℕ → Principal → M Receipt
unfolding task_obligation
task_obligation_or_raise tenant_id task_id owner_hint = do
  obligation ← gets (task_obligation tenant_id task_id owner_hint)
  or_raise obligation (value_error "Missing task.assigned receipt")

abbrev pub owner_or : Option Receipt → Principal → Principal
owner_or none hint = hint
owner_or (some r) hint = r.to_

abbrev pub parents_of : Option Receipt → List ℕ
parents_of none = []
parents_of (some r) = r.receipt_id ∷ []

-- Who owns the task, and the parents of the receipts about it.
unfoldable pub owner_and_parents : ℕ → Task → Store → Principal × List ℕ
unfolding task_obligation resolve_obligation_owner
owner_and_parents tenant_id task s =
    let hint = resolve_obligation_owner task.created_by in
    let obligation = task_obligation tenant_id task.task_id hint s in
    (owner_or obligation hint, parents_of obligation)

-- `get_trace_id() or ensure_trace_id()`
abbrev pub trace_found : Option Json → M Json
trace_found (some t) = pure t
trace_found none = do
  id ← uuid4
  modify (λ s. record s { trace_id = some (Json.uuid id) })
  pure (Json.uuid id)

unfoldable pub ensure_trace_id : M Json
ensure_trace_id = do trace ← gets (λ s. s.trace_id); trace_found trace

abbrev pub traced : Json → Fields → Fields
traced trace body = if is_some (get "trace_id" body) then body else put "trace_id" trace body

-- The transitions that the ledger hears of.
abbrev eligible : List ReceiptType
eligible =
    ReceiptType.task_accepted ∷ ReceiptType.task_completed ∷ ReceiptType.task_failed
    ∷ ReceiptType.task_canceled ∷ ReceiptType.task_escalated ∷ []

abbrev is_integrated : Store → Bool
is_integrated s = s.settings.receiptgate_integrated && is_text s.settings.receiptgate_endpoint

unfoldable pub is_forwarded : ReceiptType → Store → Bool
unfolding any
is_forwarded receipt_type s = is_integrated s && type_in receipt_type eligible

abbrev text_is : String → Option Json → Bool
text_is s (some (Json.str t)) = str_eq t s
text_is s _ = false

-- `outcome.get("status") == "buffered"`
unfoldable pub is_buffered : Emission → Bool
unfolding get
is_buffered (buffered id pending) = true
is_buffered (delivered fields) = text_is "buffered" (get "status" fields)
is_buffered skipped = false
is_buffered (refusal code) = false

abbrev task_of : ℕ → Option ℕ → Store → Option Task
task_of tenant_id none s = none
task_of tenant_id (some task_id) s = find_task tenant_id task_id s.db

abbrev or_zero : Option ℕ → ℕ
or_zero none = 0
or_zero (some n) = n

-- A payload that the ledger's model refuses is logged, and the operation goes on; so it does after a
-- refusal. A buffered receipt is an error of the operation.
abbrev pub forward_payload : NewReceipt → Option Fields → M Unit
forward_payload new none = pure tt
forward_payload new (some payload) = do
  outcome ← emit_receipt payload
  when (is_buffered outcome)
      (raise (receipt_not_yet_committed new.receipt_type (or_zero new.task_id)))

unfoldable pub forward : ℕ → NewReceipt → Receipt → M Unit
unfolding is_buffered to_memorygate_receipt emit_receipt
forward tenant_id new receipt = do
  payload ← gets λ s. to_memorygate_receipt s.env receipt (task_of tenant_id new.task_id s)
  forward_payload new payload

-- `_emit_receipt`
unfoldable pub emit : ℕ → NewReceipt → M Receipt
unfolding ensure_trace_id get put create is_forwarded forward
emit tenant_id new = do
  trace ← ensure_trace_id
  let traced_new = record new { body = traced trace new.body }
  receipt ← create tenant_id traced_new
  sent ← gets (is_forwarded new.receipt_type)
  when sent (forward tenant_id traced_new receipt)
  pure receipt

-- A receipt about a task.
abbrev pub about : ReceiptType → Principal → Principal → ℕ → Option ℕ → List ℕ → Fields → NewReceipt
about receipt_type from_principal to_principal task_id lease_id parents body = record {
  receipt_type = receipt_type;
  from_principal = from_principal;
  to_principal = to_principal;
  task_id = some task_id;
  lease_id = lease_id;
  schedule_id = none;
  parents = parents;
  body = body;
  receipt_hash = none;
}

abbrev result_of : Option TaskResult → Option Fields
result_of none = none
result_of (some r) = r.result

abbrev error_of : Option TaskResult → Option Fields
error_of none = none
error_of (some r) = r.error

abbrev artifacts_of : Option TaskResult → Option Json
artifacts_of none = none
artifacts_of (some r) = r.artifacts

-- `_emit_result_ready_receipt`, with the owner given.
unfoldable pub emit_result_ready : ℕ → Task → Principal → List ℕ → M Receipt
unfolding emit ReceiptBody.task_result_ready
emit_result_ready tenant_id task owner parents = emit tenant_id (
    about ReceiptType.task_result_ready service_principal owner task.task_id none parents (
      ReceiptBody.task_result_ready (status_value task.status) (result_of task.result)
        (error_of task.result) (artifacts_of task.result)))
