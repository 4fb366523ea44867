-- ===== src/Invariant/Fail.antt =====
-- `fail` keeps the invariant (engine/core.py).
use async_gate.Prelude.{
  ℕ, ◌+◌, ◌<◌, ◌≡◌, refl, inr, Bool, true, false, List, [], ◌∷◌, Option, none, some, arith, any,
  first, delete_where, String,
}
use async_gate.Models.Enums.{ReceiptType, TaskStatus}
use async_gate.Models.Json.{Fields}
use async_gate.Models.Records.{Principal, Task, Receipt}
use async_gate.Models.ReceiptBody
use async_gate.Store.{Store, M, ok, ◌>>=◌, ◌>>◌, or_raise, savepoint, attribute_error, pure}
use async_gate.Store.Frame.{IsQuiet, quiet_rules, IsReader, bind-ok, reader_rules}
use async_gate.Repositories.Tasks
use async_gate.Repositories.Tasks.{is_task, find_task, change_task, with_status, requeued}
use async_gate.Repositories.Leases
use async_gate.Repositories.Leases.{is_lease_of, is_valid_at, released, find_valid, drop_leases}
use async_gate.Engine.Emit.{
  resolve_obligation_owner, worker_principal, about, emit, task_obligation_or_raise,
}
use async_gate.Engine.Worker.{
  retry_body, should_requeue, holding, ready, fail_block, fail_commit, fail_check, fail,
  fail_requeue, fail_terminal, failure,
}
use async_gate.Invariant.Holding.{
  holding-IsReader, holding-row, leaves-Settles, with_status-Follows, requeued-Follows,
}
use async_gate.Invariant.{Keeps-refl, IsKeeping}
use async_gate.Invariant.Stores.{Ends, savepoint-Keeps, reader-Keeps, reader-Ends, bind-Keeps}
use async_gate.Invariant.Release.{active-status, settled-Keeps, quiet-Ends}
use async_gate.Invariant.Receipts.{emit-IsQuiet, emit_result_ready-IsQuiet}

-- What `fail_terminal` does after its write.
abbrev failed_tail : ℕ → String → ℕ → ℕ → Fields → Principal → List ℕ → M (Option ℕ)
failed_tail tenant_id worker_id task_id lease_id error owner parents = do
  emit tenant_id (
      about ReceiptType.task_failed (worker_principal worker_id) owner task_id (some lease_id)
        parents (ReceiptBody.task_failed error false))
  ready tenant_id task_id owner parents
  pure none

failed_tail-IsQuiet :
    (tenant_id : ℕ) (worker_id : String) (task_id lease_id : ℕ) (error : Fields) (owner : Principal)
    (parents : List ℕ)
    → IsQuiet (failed_tail tenant_id worker_id task_id lease_id error owner parents)
unfolding Tasks.get
failed_tail-IsQuiet tenant_id worker_id task_id lease_id error owner parents =
    search (quiet_rules, emit-IsQuiet, emit_result_ready-IsQuiet) depth 12

-- What `fail_requeue` does after its write.
abbrev retried_tail : ℕ → String → ℕ → ℕ → Fields → Principal → List ℕ → M (Option ℕ)
retried_tail tenant_id worker_id task_id lease_id error owner parents = do
  requeued ← Tasks.get tenant_id task_id
  task ← or_raise requeued attribute_error
  emit tenant_id (
      about ReceiptType.task_retry_scheduled (worker_principal worker_id) owner task_id
        (some lease_id) parents (retry_body error task))
  pure task.next_eligible_at

retried_tail-IsQuiet :
    (tenant_id : ℕ) (worker_id : String) (task_id lease_id : ℕ) (error : Fields) (owner : Principal)
    (parents : List ℕ)
    → IsQuiet (retried_tail tenant_id worker_id task_id lease_id error owner parents)
unfolding Tasks.get
retried_tail-IsQuiet tenant_id worker_id task_id lease_id error owner parents =
    search (quiet_rules, emit-IsQuiet) depth 12

module _ (tenant_id : ℕ) (worker_id : String) (task_id lease_id : ℕ) (error : Fields)
    (owner : Principal) (parents : List ℕ) (s : Store) where
  failed_rows-Ends :
      (task : Task)
      → find_task tenant_id task_id s.db ≡ some task
      → any (released tenant_id task_id (some lease_id)) s.db.leases ≡ true
      → Ends s (
          fail_terminal tenant_id worker_id task_id lease_id error owner parents
            (record s { db = drop_leases (released tenant_id task_id (some lease_id)) s.db }))
  unfolding fail_terminal Tasks.update_status Tasks.get change_task drop_leases
  failed_rows-Ends task found held =
      let f = with_status TaskStatus.failed (some (failure error s.clock)) none s.clock in
      quiet-Ends s _ (failed_tail tenant_id worker_id task_id lease_id error owner parents)
        (settled-Keeps s tenant_id task_id f
          (delete_where (released tenant_id task_id (some lease_id)) s.db.leases)
          (leaves-Settles s tenant_id task_id lease_id f task found held (λ u. refl) (λ u. refl)
            (λ one retried. (
              with_status-Follows task TaskStatus.failed (some (failure error s.clock)) none s.clock
                  one (active-status task.status one).3,
              retried,
            ))
            refl))
        refl (failed_tail-IsQuiet tenant_id worker_id task_id lease_id error owner parents)

  requeued_rows-Ends :
      (task : Task)
      → find_task tenant_id task_id s.db ≡ some task
      → any (released tenant_id task_id (some lease_id)) s.db.leases ≡ true
      → task.attempt + 1 < task.max_attempts
      → Ends s (
          fail_requeue tenant_id worker_id task_id lease_id error owner parents
            (record s { db = drop_leases (released tenant_id task_id (some lease_id)) s.db }))
  unfolding fail_requeue Tasks.requeue_with_backoff Tasks.get find_task change_task drop_leases
  requeued_rows-Ends task found held left =
      let there : first (is_task tenant_id task_id) s.db.tasks ≡ some task = found in
      rw (there, Ends)
        (quiet-Ends s _ (retried_tail tenant_id worker_id task_id lease_id error owner parents)
          (settled-Keeps s tenant_id task_id (requeued (task.attempt + 1) _ s.clock)
            (delete_where (released tenant_id task_id (some lease_id)) s.db.leases)
            (leaves-Settles s tenant_id task_id lease_id (requeued (task.attempt + 1) _ s.clock)
              task found held (λ u. refl) (λ u. refl)
              (λ one retried.
                (requeued-Follows task (task.attempt + 1) _ s.clock (omega arith) one, inr left))
              refl))
          refl (retried_tail-IsQuiet tenant_id worker_id task_id lease_id error owner parents))

  fail_block-Ends :
      (requeue : Bool)
      → ((task : Task)
          → requeue ≡ true
          → find_task tenant_id task_id s.db ≡ some task
          → task.attempt + 1 < task.max_attempts)
      → Ends s (fail_block tenant_id worker_id task_id lease_id error requeue owner parents s)
  unfolding fail_block Leases.release
  fail_block-Ends true left =
      reader-Ends s _ _ (holding-IsReader tenant_id worker_id task_id lease_id) λ task h.
        let row = holding-row tenant_id worker_id task_id lease_id s s task h in
        requeued_rows-Ends task row.0 row.1 (left task refl row.0)
  fail_block-Ends false left =
      reader-Ends s _ _ (holding-IsReader tenant_id worker_id task_id lease_id) λ task h.
        let row = holding-row tenant_id worker_id task_id lease_id s s task h in
        failed_rows-Ends task row.0 row.1

pub fail_check-IsReader :
    (tenant_id : ℕ) (worker_id : String) (task_id lease_id : ℕ) (retryable : Bool)
    → IsReader (fail_check tenant_id worker_id task_id lease_id retryable)
unfolding fail_check task_obligation_or_raise
fail_check-IsReader tenant_id worker_id task_id lease_id retryable =
    search (reader_rules, holding-IsReader) depth 8

fail_check-row :
    (tenant_id : ℕ) (worker_id : String) (task_id lease_id : ℕ) (retryable : Bool) (s : Store)
    (obligation : Receipt) (requeue : Bool) (task : Task)
    → fail_check tenant_id worker_id task_id lease_id retryable s ≡ ok (obligation, requeue) s
    → requeue ≡ true
    → find_task tenant_id task_id s.db ≡ some task
    → task.attempt + 1 < task.max_attempts
unfolding fail_check task_obligation_or_raise should_requeue
fail_check-row tenant_id worker_id task_id lease_id retryable s obligation requeue task h r e =
    let (row, t, k, rest) = bind-ok (holding tenant_id worker_id task_id lease_id) _ s s _ h in
    let there = (holding-row tenant_id worker_id task_id lease_id s t row k).0 in
    let (owed, u, read, last) =
      bind-ok (task_obligation_or_raise tenant_id task_id (resolve_obligation_owner row.created_by))
        _ t s _ rest in
    let same : row ≡ task = ground (arith, there, e) in
    let out : should_requeue retryable row ≡ true = ground (arith, last, r) in
    unfold should_requeue in ground (arith, same, out)

pub fail-IsKeeping :
    (tenant_id : ℕ) (worker_id : String) (task_id lease_id : ℕ) (error : Fields) (retryable : Bool)
    → IsKeeping (fail tenant_id worker_id task_id lease_id error retryable)
unfolding fail fail_commit
fail-IsKeeping tenant_id worker_id task_id lease_id error retryable = record {
  at = λ s.
      reader-Keeps s _ _ (fail_check-IsReader tenant_id worker_id task_id lease_id retryable)
        λ (obligation, requeue) h.
          let block =
            fail_block tenant_id worker_id task_id lease_id error requeue obligation.to_
              (obligation.receipt_id ∷ []) in
          bind-Keeps {A = Option ℕ} {B = Bool × Option ℕ} s (savepoint block)
            (λ at. pure (requeue, at))
            (savepoint-Keeps s block (
              fail_block-Ends tenant_id worker_id task_id lease_id error obligation.to_
                (obligation.receipt_id ∷ []) s requeue
                (λ task r e.
                  fail_check-row tenant_id worker_id task_id lease_id retryable s obligation requeue
                    task h r e)))
            (λ a t k. Keeps-refl t);
}
