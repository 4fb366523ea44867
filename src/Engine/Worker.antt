-- ===== src/Engine/Worker.antt =====
-- engine/core.py: the operations of workers. `complete` and `fail` check the lease once before their
-- atomic block and once inside it, where the answer counts; other transactions may come between.
use async_gate.Prelude.{
  ℕ, ◌+◌, min, Bool, true, false, not, ◌&&◌, ◌||◌, Option, none, some, List, [], ◌∷◌, String, ltb,
  if◌then◌else◌, get_or,
}
use async_gate.Models.Enums.{TaskStatus, Outcome, ReceiptType, status_eq}
use async_gate.Models.Json.{Json, Fields, end, field, num, time_or_null}
use async_gate.Models.Records.{
  Principal, Task, TaskResult, Lease, Receipt, can_transition, can_transition_to,
}
use async_gate.Models.ReceiptBody
use async_gate.Store.{
  task_not_found, invalid_state_transition, lease_invalid_or_expired, attribute_error, M, ◌>>=◌,
  ◌>>◌, pure, raise, gets, savepoint, or_raise, when,
}
use async_gate.Repositories.Tasks
use async_gate.Repositories.Leases
use async_gate.Repositories.Progress
use async_gate.Engine.Emit.{
  worker_principal, resolve_obligation_owner, task_obligation_or_raise, owner_and_parents, emit,
  about, emit_result_ready,
}

-- What a worker holds of a task that it was given.
pub record LeaseInfo : Type 0 where
  pub lease : Lease
  pub task : Task
  pub caused_by : List ℕ

abbrev pub accept_found : ℕ → String → List String → Lease → Option Task → M (List LeaseInfo)
accept_found tenant_id worker_id capabilities lease none = pure []
accept_found tenant_id worker_id capabilities lease (some task) = do
  owned ← gets (owner_and_parents tenant_id task)
  emit tenant_id (
      about ReceiptType.task_accepted (worker_principal worker_id) owned.0 task.task_id
        (some lease.lease_id) owned.1 (ReceiptBody.task_accepted capabilities))
  pure (record { lease = lease; task = task; caused_by = owned.1 } ∷ [])

abbrev join : List LeaseInfo → List LeaseInfo → List LeaseInfo
join [] rest = rest
join (x ∷ xs) rest = x ∷ join xs rest

-- One round, with the rest of the loop.
unfoldable pub accept_one :
    ℕ → String → List String → Lease → M (List LeaseInfo) → M (List LeaseInfo)
unfolding Tasks.get owner_and_parents emit ReceiptBody.task_accepted
accept_one tenant_id worker_id capabilities l rest = do
  task ← Tasks.get tenant_id l.task_id
  one ← accept_found tenant_id worker_id capabilities l task
  more ← rest
  pure (join one more)

-- The loop of `lease_next`: a `task.accepted` receipt for each lease.
unfoldable pub accept_all : ℕ → String → List String → List Lease → M (List LeaseInfo)
unfolding accept_one
accept_all tenant_id worker_id capabilities [] = pure []
accept_all tenant_id worker_id capabilities (l ∷ ls) =
    accept_one tenant_id worker_id capabilities l (accept_all tenant_id worker_id capabilities ls)

unfoldable pub lease_next :
    ℕ → String → Option (List String) → Option (List String) → ℕ → Option ℕ → M (List LeaseInfo)
unfolding Leases.claim_next accept_all
lease_next tenant_id worker_id capabilities accept_types max_tasks lease_ttl_seconds = do
  leases ←
      Leases.claim_next tenant_id worker_id capabilities accept_types (min max_tasks 10)
        lease_ttl_seconds
  accept_all tenant_id worker_id (get_or capabilities []) leases

abbrev pub in_flight : TaskStatus → Bool
in_flight s = status_eq s TaskStatus.leased || status_eq s TaskStatus.running

abbrev pub renew_held : ℕ → String → ℕ → ℕ → Option ℕ → Task → M ℕ
renew_held tenant_id worker_id task_id lease_id extend_by_seconds task =
    if not (in_flight task.status) then raise (lease_invalid_or_expired task_id lease_id) else do
      renewed ← Leases.renew tenant_id task_id lease_id worker_id extend_by_seconds
      lease ← or_raise renewed (lease_invalid_or_expired task_id lease_id)
      pure lease.expires_at

-- The new expiry of the lease.
unfoldable pub renew_lease : ℕ → String → ℕ → ℕ → Option ℕ → M ℕ
unfolding Tasks.get Leases.renew
renew_lease tenant_id worker_id task_id lease_id extend_by_seconds = do
  found ← Tasks.get tenant_id task_id
  task ← or_raise found (task_not_found task_id)
  renew_held tenant_id worker_id task_id lease_id extend_by_seconds task

-- The atomic block of `_transition_to_running`.
unfoldable pub running_block : ℕ → Task → String → ℕ → Principal → List ℕ → ℕ → M Unit
unfolding Tasks.update_status emit ReceiptBody.task_started
running_block tenant_id task worker_id lease_id owner parents started_at = do
  Tasks.update_status tenant_id task.task_id TaskStatus.running none (some started_at)
  emit tenant_id (
      about ReceiptType.task_started (worker_principal worker_id) owner task.task_id (some lease_id)
        parents (ReceiptBody.task_started (some started_at)))
  pure tt

unfoldable pub transition_to_running : ℕ → Task → String → ℕ → Principal → List ℕ → M ℕ
unfolding running_block
transition_to_running tenant_id task worker_id lease_id owner parents = do
  started_at ← gets (λ s. get_or task.started_at s.clock)
  if status_eq task.status TaskStatus.running
      then pure started_at
      else if not (status_eq task.status TaskStatus.leased)
      then raise (invalid_state_transition task.status TaskStatus.running)
      else do
        savepoint (running_block tenant_id task worker_id lease_id owner parents started_at)
        pure started_at

-- The lease is valid and the task is there, or the operation raises.
unfoldable pub holding : ℕ → String → ℕ → ℕ → M Task
unfolding Leases.validate Tasks.get
holding tenant_id worker_id task_id lease_id = do
  lease ← Leases.validate tenant_id task_id lease_id worker_id
  or_raise lease (lease_invalid_or_expired task_id lease_id)
  found ← Tasks.get tenant_id task_id
  or_raise found (task_not_found task_id)

unfoldable pub report_progress : ℕ → String → ℕ → ℕ → Fields → M Unit
unfolding holding owner_and_parents transition_to_running Progress.update emit
report_progress tenant_id worker_id task_id lease_id progress_data = do
  task ← holding tenant_id worker_id task_id lease_id
  owned ← gets (owner_and_parents tenant_id task)
  when (status_eq task.status TaskStatus.leased)
      do transition_to_running tenant_id task worker_id lease_id owned.0 owned.1; pure tt
  Progress.update tenant_id task_id progress_data
  emit tenant_id (
      about ReceiptType.task_progress (worker_principal worker_id) owned.0 task_id (some lease_id)
        owned.1 (field "progress" (Json.obj progress_data) end))
  pure tt

-- The time at which the task started, which a running task may lack.
unfoldable pub start_task : ℕ → String → ℕ → ℕ → M (Option ℕ)
unfolding holding owner_and_parents transition_to_running
start_task tenant_id worker_id task_id lease_id = do
  task ← holding tenant_id worker_id task_id lease_id
  if status_eq task.status TaskStatus.running then pure task.started_at else do
    owned ← gets (owner_and_parents tenant_id task)
    started_at ← transition_to_running tenant_id task worker_id lease_id owned.0 owned.1
    pure (some started_at)

abbrev pub check_transition : Task → TaskStatus → M Unit
check_transition task status =
    if can_transition_to task status
    then pure tt
    else raise (invalid_state_transition task.status status)

-- The checks of `complete` before its block: the owner and the obligation.
unfoldable pub complete_check : ℕ → String → ℕ → ℕ → M Receipt
unfolding holding can_transition resolve_obligation_owner task_obligation_or_raise
complete_check tenant_id worker_id task_id lease_id = do
  task ← holding tenant_id worker_id task_id lease_id
  check_transition task TaskStatus.succeeded
  task_obligation_or_raise tenant_id task_id (resolve_obligation_owner task.created_by)

abbrev pub success : Fields → Option Json → ℕ → TaskResult
success result artifacts now = record {
  outcome = Outcome.succeeded;
  result = some result;
  error = none;
  artifacts = artifacts;
  completed_at = now;
}

abbrev pub ready : ℕ → ℕ → Principal → List ℕ → M Unit
ready tenant_id task_id owner parents = do
  found ← Tasks.get tenant_id task_id
  task ← or_raise found attribute_error
  emit_result_ready tenant_id task owner parents
  pure tt

-- The receipts of a completion, which come after the rows.
unfoldable pub complete_receipts :
    ℕ → String → ℕ → ℕ → Fields → Option Json → Principal → List ℕ → M Unit
unfolding emit Tasks.get emit_result_ready ReceiptBody.task_completed
complete_receipts tenant_id worker_id task_id lease_id result artifacts owner parents = do
  emit tenant_id (
      about ReceiptType.task_completed (worker_principal worker_id) owner task_id (some lease_id)
        parents (ReceiptBody.task_completed "Task completed successfully" (some result) artifacts))
  ready tenant_id task_id owner parents

unfoldable pub complete_block :
    ℕ → String → ℕ → ℕ → Fields → Option Json → Principal → List ℕ → M Unit
unfolding holding can_transition Tasks.update_status Leases.release complete_receipts
complete_block tenant_id worker_id task_id lease_id result artifacts owner parents = do
  task ← holding tenant_id worker_id task_id lease_id
  check_transition task TaskStatus.succeeded
  now ← gets (λ s. s.clock)
  Tasks.update_status tenant_id task_id TaskStatus.succeeded (some (success result artifacts now))
      none
  Leases.release tenant_id task_id (some lease_id)
  complete_receipts tenant_id worker_id task_id lease_id result artifacts owner parents

unfoldable pub complete_commit : ℕ → String → ℕ → ℕ → Fields → Option Json → Receipt → M Unit
unfolding complete_block
complete_commit tenant_id worker_id task_id lease_id result artifacts obligation = savepoint (
    complete_block tenant_id worker_id task_id lease_id result artifacts obligation.to_
      (obligation.receipt_id ∷ []))

unfoldable pub complete : ℕ → String → ℕ → ℕ → Fields → Option Json → M Unit
unfolding complete_check complete_commit
complete tenant_id worker_id task_id lease_id result artifacts = do
  obligation ← complete_check tenant_id worker_id task_id lease_id
  complete_commit tenant_id worker_id task_id lease_id result artifacts obligation

unfoldable pub should_requeue : Bool → Task → Bool
should_requeue retryable task = retryable && ltb (task.attempt + 1) task.max_attempts

-- The checks of `fail` before its block, with the decision to try again.
unfoldable pub fail_check : ℕ → String → ℕ → ℕ → Bool → M (Receipt × Bool)
unfolding holding should_requeue resolve_obligation_owner task_obligation_or_raise
fail_check tenant_id worker_id task_id lease_id retryable = do
  task ← holding tenant_id worker_id task_id lease_id
  obligation ← task_obligation_or_raise tenant_id task_id (resolve_obligation_owner task.created_by)
  pure (obligation, should_requeue retryable task)

unfoldable pub retry_body : Fields → Task → Fields
retry_body error task = field "reason" (Json.str "Worker reported retryable failure") (
    field "error" (Json.obj error) (
      field "requeued" (Json.bool true) (
        field "attempt" (num task.attempt) (
          field "max_attempts" (num task.max_attempts)
            (field "next_eligible_at" (time_or_null task.next_eligible_at) end)))))

-- The requeue path: the time at which the task is eligible again.
unfoldable pub fail_requeue : ℕ → String → ℕ → ℕ → Fields → Principal → List ℕ → M (Option ℕ)
unfolding Tasks.requeue_with_backoff emit retry_body
fail_requeue tenant_id worker_id task_id lease_id error owner parents = do
  requeued ← Tasks.requeue_with_backoff tenant_id task_id true
  task ← or_raise requeued attribute_error
  emit tenant_id (
      about ReceiptType.task_retry_scheduled (worker_principal worker_id) owner task_id
        (some lease_id) parents (retry_body error task))
  pure task.next_eligible_at

abbrev pub failure : Fields → ℕ → TaskResult
failure error now = record {
  outcome = Outcome.failed;
  result = none;
  error = some error;
  artifacts = none;
  completed_at = now;
}

-- The terminal path.
unfoldable pub fail_terminal : ℕ → String → ℕ → ℕ → Fields → Principal → List ℕ → M (Option ℕ)
unfolding Tasks.update_status Tasks.get emit emit_result_ready ReceiptBody.task_failed
fail_terminal tenant_id worker_id task_id lease_id error owner parents = do
  now ← gets (λ s. s.clock)
  Tasks.update_status tenant_id task_id TaskStatus.failed (some (failure error now)) none
  emit tenant_id (
      about ReceiptType.task_failed (worker_principal worker_id) owner task_id (some lease_id)
        parents (ReceiptBody.task_failed error false))
  ready tenant_id task_id owner parents
  pure none

unfoldable pub fail_block : ℕ → String → ℕ → ℕ → Fields → Bool → Principal → List ℕ → M (Option ℕ)
unfolding holding Leases.release fail_requeue fail_terminal
fail_block tenant_id worker_id task_id lease_id error requeue owner parents = do
  holding tenant_id worker_id task_id lease_id
  Leases.release tenant_id task_id (some lease_id)
  if requeue
      then fail_requeue tenant_id worker_id task_id lease_id error owner parents
      else fail_terminal tenant_id worker_id task_id lease_id error owner parents

unfoldable pub fail_commit : ℕ → String → ℕ → ℕ → Fields → Receipt × Bool → M (Bool × Option ℕ)
unfolding fail_block
fail_commit tenant_id worker_id task_id lease_id error (obligation, requeue) = do
  next_eligible_at ← savepoint (
      fail_block tenant_id worker_id task_id lease_id error requeue obligation.to_
        (obligation.receipt_id ∷ []))
  pure (requeue, next_eligible_at)

-- Whether the task is queued again, and when it is eligible.
unfoldable pub fail : ℕ → String → ℕ → ℕ → Fields → Bool → M (Bool × Option ℕ)
unfolding fail_check fail_commit
fail tenant_id worker_id task_id lease_id error retryable = do
  checked ← fail_check tenant_id worker_id task_id lease_id retryable
  fail_commit tenant_id worker_id task_id lease_id error checked
