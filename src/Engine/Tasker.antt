-- ===== src/Engine/Tasker.antt =====
-- engine/core.py: the operations of those who post tasks and read receipts.
use async_gate.Prelude.{
  ℕ, min, Bool, true, false, not, ◌&&◌, ◌||◌, Option, none, some, List, [], ◌∷◌, map, String,
  str_eq, str_append, if◌then◌else◌, count_or, is_text, ◌==◌, select,
}
use async_gate.Models.Enums.{TaskStatus, ReceiptType, PrincipalKind, kind_eq, type_eq, kind_value}
use async_gate.Models.Json.{ℤ, Json, Fields, end, field, texts, text_or_null}
use async_gate.Models.Records.{
  Principal, TaskRequirements, Task, Receipt, Progress, Relationship, task_is_terminal,
}
use async_gate.Models.ReceiptBody
use async_gate.Principals.{is_internal_principal_id, system_principal_id, normalize_external}
use async_gate.Adapter.{to_memorygate_receipt}
use async_gate.Store.{
  Store, task_not_found, unauthorized, attribute_error, value_error, M, ◌>>=◌, ◌>>◌, pure, raise,
  gets, savepoint, or_raise,
}
use async_gate.Repositories.Tasks
use async_gate.Repositories.Tasks.{NewTask, TaskFilter, find_task}
use async_gate.Repositories.Leases.{release}
use async_gate.Repositories.Ledger
use async_gate.Repositories.Ledger.{ReceiptFilter}
use async_gate.Repositories.Progress
use async_gate.Engine.Emit.{
  service_principal, normalize_principal, resolve_obligation_owner, task_obligation_or_raise, emit,
  about, emit_result_ready,
}

abbrev priority_or : Option ℤ → ℤ → ℤ
priority_or none d = d
priority_or (some (ℤ.pos n)) d = if n == 0 then d else ℤ.pos n
priority_or (some (ℤ.negsuc n)) d = ℤ.negsuc n

abbrev requirements_dict : TaskRequirements → Fields
requirements_dict r =
    field "capabilities" (Json.arr (texts r.capabilities))
      (field "tags" (Json.arr (texts r.tags)) end)

-- The request of `create_task`: what `TaskRepository.create` takes, with the priority still optional.
pub record TaskRequest : Type 0 where
  pub new : NewTask
  pub priority : Option ℤ

abbrev pub request_row : Principal → TaskRequest → ℤ → NewTask
request_row created_by request default = record request.new {
  created_by = created_by;
  priority = priority_or request.priority default;
}

-- The receipt for the new task.
abbrev pub assign : ℕ → Principal → TaskRequest → Task → M (ℕ × TaskStatus)
assign tenant_id created_by request task = do
  emit tenant_id (
      about ReceiptType.task_assigned service_principal (resolve_obligation_owner created_by)
        task.task_id none []
        (ReceiptBody.task_assigned (str_append "Execute task type: " request.new.type)
          (some (requirements_dict task.requirements))))
  pure (task.task_id, task.status)

-- The rest of `create_task`, behind its checks.
unfoldable pub create_checked : ℕ → Principal → TaskRequest → M (ℕ × TaskStatus)
unfolding Tasks.create resolve_obligation_owner emit ReceiptBody.task_assigned
create_checked tenant_id created_by request = do
  default ← gets (λ s. s.settings.default_priority)
  task ← Tasks.create tenant_id (request_row created_by request default)
  assign tenant_id created_by request task

unfoldable pub create_task : ℕ → TaskRequest → Bool → M (ℕ × TaskStatus)
unfolding normalize_principal is_internal_principal_id create_checked
create_task tenant_id request actor_is_internal =
    let created_by = normalize_principal request.new.created_by in
    if is_internal_principal_id created_by.id && not actor_is_internal
    then raise unauthorized
    else if not (is_text request.new.principal_ai)
    then raise (value_error "principal_ai is required")
    else create_checked tenant_id created_by request

unfoldable pub get_task : ℕ → ℕ → M (Task × Option Progress)
unfolding Tasks.get Progress.get
get_task tenant_id task_id = do
  found ← Tasks.get tenant_id task_id
  task ← or_raise found (task_not_found task_id)
  progress ← gets (Progress.get tenant_id task_id)
  pure (task, progress)

abbrev page_size : Option ℕ → Store → ℕ
page_size limit s = min (count_or limit s.settings.default_list_limit) s.settings.max_list_limit

unfoldable pub list_tasks : ℕ → TaskFilter → Option ℕ → M (List Task × Option ℕ)
unfolding Tasks.list
list_tasks tenant_id f limit = gets λ s. Tasks.list tenant_id f (page_size limit s) s

-- Only the owner may cancel, and a task of the system only from inside.
unfoldable pub may_cancel : Principal → Principal → Bool → Bool
may_cancel owner principal actor_is_internal =
    actor_is_internal
    || (not (kind_eq owner.kind PrincipalKind.system && str_eq owner.id system_principal_id)
        && str_eq owner.id principal.id
        && kind_eq owner.kind principal.kind)

unfoldable pub cancel_body : Principal → Option String → ℕ → Fields
cancel_body principal reason now =
    field "canceled_by"
      (Json.obj (
        field "kind" (Json.str (kind_value principal.kind))
          (field "id" (Json.str principal.id) end)))
      (field "reason" (text_or_null reason) (field "canceled_at" (Json.time now) end))

-- The atomic block of `cancel_task`.
unfoldable pub cancel_block : ℕ → ℕ → Principal → Principal → List ℕ → Option String → M TaskStatus
unfolding release Tasks.cancel emit emit_result_ready cancel_body
cancel_block tenant_id task_id principal owner parents reason = do
  release tenant_id task_id none
  canceled ← Tasks.cancel tenant_id task_id reason
  task ← or_raise canceled attribute_error
  now ← gets (λ s. s.clock)
  emit tenant_id (
      about ReceiptType.task_canceled principal owner task.task_id none parents
        (cancel_body principal reason now))
  emit_result_ready tenant_id task owner parents
  pure task.status

-- `cancel_task` for a task that exists: whether it did cancel, and the status.
unfoldable pub cancel_found : ℕ → Task → Principal → Option String → Bool → M (Bool × TaskStatus)
unfolding task_obligation_or_raise resolve_obligation_owner may_cancel cancel_block
cancel_found tenant_id task principal reason actor_is_internal = do
  obligation ←
      task_obligation_or_raise tenant_id task.task_id (resolve_obligation_owner task.created_by)
  if not (may_cancel obligation.to_ principal actor_is_internal)
      then raise unauthorized
      else if task_is_terminal task
      then pure (false, task.status)
      else do
        status ← savepoint (
            cancel_block tenant_id task.task_id principal obligation.to_
              (obligation.receipt_id ∷ []) reason)
        pure (true, status)

unfoldable pub cancel_task : ℕ → ℕ → Principal → Option String → Bool → M (Bool × TaskStatus)
unfolding normalize_principal Tasks.get cancel_found
cancel_task tenant_id task_id principal reason actor_is_internal = do
  found ← Tasks.get tenant_id task_id
  task ← or_raise found (task_not_found task_id)
  cancel_found tenant_id task (normalize_principal principal) reason actor_is_internal

unfoldable pub list_receipts :
    ℕ → PrincipalKind → String → Option ℕ → Option ℕ → M (List Receipt × Option ℕ)
unfolding Ledger.list normalize_external
list_receipts tenant_id to_kind to_id since_receipt_id limit = gets λ s.
    Ledger.list tenant_id to_kind (normalize_external to_id) since_receipt_id (page_size limit s) s

abbrev render : ℕ → Store → Receipt → Option Fields
render tenant_id s r = to_memorygate_receipt s.env r (task_of r.task_id)
  where
    task_of : Option ℕ → Option Task
    task_of none = none
    task_of (some id) = find_task tenant_id id s.db

abbrev all_or_none : List (Option Fields) → Option (List Fields)
all_or_none [] = some []
all_or_none (none ∷ rest) = none
all_or_none (some d ∷ rest) = elim (all_or_none rest) [ none ↦ none | some ds ↦ some (d ∷ ds) ]

-- Receipts in the ledger's schema: one that its model refuses is an error.
unfoldable pub list_receipts_ledger :
    ℕ → ReceiptFilter → Option ℕ → Option ℕ → M (List Fields × Option ℕ)
unfolding Ledger.list_filtered to_memorygate_receipt find_task
list_receipts_ledger tenant_id f since_receipt_id limit = do
  found ← gets λ s. Ledger.list_filtered tenant_id f since_receipt_id (page_size limit s) s
  rendered ← gets (λ s. all_or_none (map (render tenant_id s) found.0))
  receipts ← or_raise rendered (value_error "receipt does not validate")
  pure (receipts, found.1)

unfoldable pub ack_receipt : ℕ → ℕ → Principal → M Receipt
unfolding normalize_principal emit
ack_receipt tenant_id receipt_id principal = emit tenant_id (record {
  receipt_type = ReceiptType.receipt_acknowledged;
  from_principal = normalize_principal principal;
  to_principal = service_principal;
  task_id = none;
  lease_id = none;
  schedule_id = none;
  parents = receipt_id ∷ [];
  body = field "acknowledged_receipt_id" (Json.uuid receipt_id) end;
  receipt_hash = none;
})

-- `list_open_obligations` of the engine.
unfoldable pub list_open_obligations : ℕ → Principal → Option ℕ → ℕ → M (List Receipt × Option ℕ)
unfolding normalize_principal Ledger.list_open_obligations
list_open_obligations tenant_id principal since_receipt_id limit =
    let p = normalize_principal principal in
    Ledger.list_open_obligations tenant_id p.kind p.id since_receipt_id limit

-- What the deprecated `bootstrap` answers, but for the constant parts.
pub record Bootstrap : Type 0 where
  pub relationship : Relationship
  pub inbox_receipts : List Receipt
  pub anomalies : List Fields
  pub latest_receipt_id : Option ℕ

abbrev ids : List Receipt → List ℕ
ids rs = map (λ r. r.receipt_id) rs

abbrev bootstrap_size : Option ℕ → Store → ℕ
bootstrap_size max_items s =
    min (count_or max_items s.settings.default_bootstrap_max_items)
      s.settings.max_bootstrap_max_items

unfoldable pub bootstrap : ℕ → Principal → Option ℕ → Option ℕ → M Bootstrap
unfolding normalize_principal Progress.upsert Ledger.list Ledger.mark_delivered select
bootstrap tenant_id principal since_receipt_id max_items =
    let p = normalize_principal principal in
    do
      relationship ← Progress.upsert tenant_id p.kind p.id p.instance_id
      inbox ←
          gets
            λ s. Ledger.list tenant_id p.kind p.id since_receipt_id (bootstrap_size max_items s) s
      Ledger.mark_delivered tenant_id (ids inbox.0)
      pure (record {
        relationship = relationship;
        inbox_receipts = inbox.0;
        anomalies =
            map (λ (r : Receipt). r.body)
              (select (λ r. type_eq r.receipt_type ReceiptType.system_anomaly) inbox.0);
        latest_receipt_id = inbox.1;
      })
