-- ===== src/Invariant/Worker.antt =====
-- `complete` keeps the invariant (engine/core.py).
use async_gate.Prelude.{ℕ, refl, List, [], ◌∷◌, Option, none, some, delete_where, String}
use async_gate.Models.Enums.{TaskStatus}
use async_gate.Models.Json.{Json, Fields}
use async_gate.Models.Records.{Principal}
use async_gate.Store.{Store}
use async_gate.Store.Frame.{IsQuiet, quiet_rules, IsReader, reader_rules}
use async_gate.Repositories.Tasks
use async_gate.Repositories.Tasks.{is_task, find_task, change_task, with_status, requeued}
use async_gate.Repositories.Leases
use async_gate.Repositories.Leases.{is_lease_of, is_valid_at, released, find_valid, drop_leases}
use async_gate.Engine.Emit.{task_obligation_or_raise}
use async_gate.Engine.Worker.{
  complete_receipts, complete_block, complete_commit, complete_check, complete, success,
}
use async_gate.Invariant.Holding.{
  holding-IsReader, holding-row, leaves-Settles, with_status-Follows, check_transition-IsReader,
}
use async_gate.Invariant.{IsKeeping}
use async_gate.Invariant.Stores.{Ends, savepoint-Keeps, reader-Keeps, reader-Ends}
use async_gate.Invariant.Release.{active-status, settled-Keeps, quiet-Ends}
use async_gate.Invariant.Receipts.{emit-IsQuiet}

pub complete_receipts-IsQuiet :
    (tenant_id : ℕ) (worker_id : String) (task_id lease_id : ℕ) (result : Fields)
    (artifacts : Option Json) (owner : Principal) (parents : List ℕ)
    → IsQuiet
        (complete_receipts tenant_id worker_id task_id lease_id result artifacts owner parents)
unfolding complete_receipts Tasks.get
complete_receipts-IsQuiet tenant_id worker_id task_id lease_id result artifacts owner parents =
    search (quiet_rules, emit-IsQuiet) depth 12

complete_block-Ends :
    (tenant_id : ℕ) (worker_id : String) (task_id lease_id : ℕ) (result : Fields)
    (artifacts : Option Json) (owner : Principal) (parents : List ℕ) (s : Store)
    → Ends s (complete_block tenant_id worker_id task_id lease_id result artifacts owner parents s)
unfolding complete_block Tasks.update_status Tasks.get Leases.release change_task drop_leases
complete_block-Ends tenant_id worker_id task_id lease_id result artifacts owner parents s =
    reader-Ends s _ _ (holding-IsReader tenant_id worker_id task_id lease_id) λ task h.
      reader-Ends s _ _ (check_transition-IsReader task TaskStatus.succeeded) λ u allowed.
        let row = holding-row tenant_id worker_id task_id lease_id s s task h in
        let f =
          with_status TaskStatus.succeeded (some (success result artifacts s.clock)) none s.clock in
        quiet-Ends s _
          (complete_receipts tenant_id worker_id task_id lease_id result artifacts owner parents)
          (settled-Keeps s tenant_id task_id f
            (delete_where (released tenant_id task_id (some lease_id)) s.db.leases)
            (leaves-Settles s tenant_id task_id lease_id f task row.0 row.1 (λ u. refl) (λ u. refl)
              (λ one retried. (
                with_status-Follows task TaskStatus.succeeded
                    (some (success result artifacts s.clock)) none s.clock one
                    (active-status task.status one).2,
                retried,
              ))
              refl))
          refl
          (complete_receipts-IsQuiet tenant_id worker_id task_id lease_id result artifacts owner
            parents)

pub complete_check-IsReader :
    (tenant_id : ℕ) (worker_id : String) (task_id lease_id : ℕ)
    → IsReader (complete_check tenant_id worker_id task_id lease_id)
unfolding complete_check task_obligation_or_raise
complete_check-IsReader tenant_id worker_id task_id lease_id =
    search (reader_rules, holding-IsReader) depth 8

pub complete-IsKeeping :
    (tenant_id : ℕ) (worker_id : String) (task_id lease_id : ℕ) (result : Fields)
    (artifacts : Option Json)
    → IsKeeping (complete tenant_id worker_id task_id lease_id result artifacts)
unfolding complete complete_commit
complete-IsKeeping tenant_id worker_id task_id lease_id result artifacts = record {
  at = λ s.
      reader-Keeps s _ _ (complete_check-IsReader tenant_id worker_id task_id lease_id)
        λ obligation h.
          savepoint-Keeps s
            (complete_block tenant_id worker_id task_id lease_id result artifacts obligation.to_
              (obligation.receipt_id ∷ []))
            (complete_block-Ends tenant_id worker_id task_id lease_id result artifacts
              obligation.to_ (obligation.receipt_id ∷ []) s);
}
