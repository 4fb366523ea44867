-- ===== src/Writes/Worker.antt =====
-- The engine's operations of workers (engine/core.py), for any relation that their writes keep.
use async_gate.Prelude.{ℕ, Bool, List, [], ◌∷◌, Option, none, some, String}
use async_gate.Models.Enums.{TaskStatus}
use async_gate.Models.Json.{Json, Fields}
use async_gate.Models.Records.{Principal, Task, Lease, Receipt}
use async_gate.Store.{Store, M}
use async_gate.Store.Frame.{Within}
use async_gate.Writes.{Writes}
use async_gate.Store.Closed.{Closed, Within-pure, Within-when, within_rules}
use async_gate.Engine.Worker
use async_gate.Writes.Rows.{
  savepoint-Within, get-Within, update_status-Within, requeue_with_backoff-Within, update-Within,
}
use async_gate.Writes.Leases.{claim_next-Within, renew-Within, release-Within}
use async_gate.Writes.Tasker.{emit-Within, result_ready-Within, obligation-Within}

module _ {R : Store → Store → Type 0} (c : Closed R) (tenant_id : ℕ) (w : Writes R tenant_id) where
  accept_found-Within :
      (worker_id : String) (capabilities : List String) (l : Lease) (found : Option Task)
      → Within R (Worker.accept_found tenant_id worker_id capabilities l found)
  accept_found-Within worker_id capabilities l none = Within-pure c []
  accept_found-Within worker_id capabilities l (some task) =
      search (within_rules, emit-Within) depth 12

  accept_one-Within :
      (worker_id : String) (capabilities : List String) (l : Lease)
      (rest : M (List Worker.LeaseInfo))
      → Within R rest
      → Within R (Worker.accept_one tenant_id worker_id capabilities l rest)
  unfolding Worker.accept_one
  accept_one-Within worker_id capabilities l rest p =
      search (within_rules, accept_found-Within) depth 12

  accept_all-Within :
      (worker_id : String) (capabilities : List String) (ls : List Lease)
      → Within R (Worker.accept_all tenant_id worker_id capabilities ls)
  unfolding Worker.accept_all
  accept_all-Within worker_id capabilities [] = Within-pure c []
  accept_all-Within worker_id capabilities (l ∷ ls) =
      accept_one-Within worker_id capabilities l _ (accept_all-Within worker_id capabilities ls)

  pub lease_next-Within :
      (worker_id : String) (capabilities accept_types : Option (List String)) (max_tasks : ℕ)
      (ttl : Option ℕ)
      → Within R (Worker.lease_next tenant_id worker_id capabilities accept_types max_tasks ttl)
  unfolding Worker.lease_next
  lease_next-Within worker_id capabilities accept_types max_tasks ttl =
      search (within_rules, claim_next-Within, accept_all-Within)

  renew_held-Within :
      (worker_id : String) (task_id lease_id : ℕ) (extend_by : Option ℕ) (task : Task)
      → Within R (Worker.renew_held tenant_id worker_id task_id lease_id extend_by task)
  renew_held-Within worker_id task_id lease_id extend_by task =
      search (within_rules, renew-Within) depth 12

  pub renew_lease-Within :
      (worker_id : String) (task_id lease_id : ℕ) (extend_by : Option ℕ)
      → Within R (Worker.renew_lease tenant_id worker_id task_id lease_id extend_by)
  unfolding Worker.renew_lease
  renew_lease-Within worker_id task_id lease_id extend_by =
      search (within_rules, renew_held-Within) depth 12

  holding-Within :
      (worker_id : String) (task_id lease_id : ℕ)
      → Within R (Worker.holding tenant_id worker_id task_id lease_id)
  unfolding Worker.holding
  holding-Within worker_id task_id lease_id = search within_rules depth 12

  running_block-Within :
      (task : Task) (worker_id : String) (lease_id : ℕ) (owner : Principal) (parents : List ℕ)
      (started_at : ℕ)
      → Within R (Worker.running_block tenant_id task worker_id lease_id owner parents started_at)
  unfolding Worker.running_block
  running_block-Within task worker_id lease_id owner parents started_at =
      search (within_rules, update_status-Within, emit-Within) depth 12

  running-Within :
      (task : Task) (worker_id : String) (lease_id : ℕ) (owner : Principal) (parents : List ℕ)
      → Within R (Worker.transition_to_running tenant_id task worker_id lease_id owner parents)
  unfolding Worker.transition_to_running
  running-Within task worker_id lease_id owner parents =
      search (within_rules, savepoint-Within, running_block-Within) depth 16

  pub report_progress-Within :
      (worker_id : String) (task_id lease_id : ℕ) (progress_data : Fields)
      → Within R (Worker.report_progress tenant_id worker_id task_id lease_id progress_data)
  unfolding Worker.report_progress
  report_progress-Within worker_id task_id lease_id progress_data =
      search (within_rules, Within-when, holding-Within, running-Within, update-Within, emit-Within)
        depth 24

  check-Within :
      (task : Task) (status : TaskStatus) → Within R (Worker.check_transition task status)
  check-Within task status = search within_rules

  ready-Within :
      (task_id : ℕ) (owner : Principal) (parents : List ℕ)
      → Within R (Worker.ready tenant_id task_id owner parents)
  ready-Within task_id owner parents =
      search (within_rules, get-Within, result_ready-Within) depth 12

  complete_receipts-Within :
      (worker_id : String) (task_id lease_id : ℕ) (result : Fields) (artifacts : Option Json)
      (owner : Principal) (parents : List ℕ)
      → Within R (
          Worker.complete_receipts tenant_id worker_id task_id lease_id result artifacts owner
            parents)
  unfolding Worker.complete_receipts
  complete_receipts-Within worker_id task_id lease_id result artifacts owner parents =
      search (within_rules, emit-Within, ready-Within) depth 12

  complete_block-Within :
      (worker_id : String) (task_id lease_id : ℕ) (result : Fields) (artifacts : Option Json)
      (owner : Principal) (parents : List ℕ)
      → Within R (
          Worker.complete_block tenant_id worker_id task_id lease_id result artifacts owner parents)
  unfolding Worker.complete_block
  complete_block-Within worker_id task_id lease_id result artifacts owner parents =
      search
        (
          within_rules, holding-Within, update_status-Within, release-Within,
          complete_receipts-Within,
        )
        depth 24

  complete_check-Within :
      (worker_id : String) (task_id lease_id : ℕ)
      → Within R (Worker.complete_check tenant_id worker_id task_id lease_id)
  unfolding Worker.complete_check
  complete_check-Within worker_id task_id lease_id =
      search (within_rules, holding-Within, obligation-Within) depth 12

  pub complete-Within :
      (worker_id : String) (task_id lease_id : ℕ) (result : Fields) (artifacts : Option Json)
      → Within R (Worker.complete tenant_id worker_id task_id lease_id result artifacts)
  unfolding Worker.complete Worker.complete_commit
  complete-Within worker_id task_id lease_id result artifacts =
      search (within_rules, complete_check-Within, savepoint-Within, complete_block-Within) depth 12

  fail_check-Within :
      (worker_id : String) (task_id lease_id : ℕ) (retryable : Bool)
      → Within R (Worker.fail_check tenant_id worker_id task_id lease_id retryable)
  unfolding Worker.fail_check
  fail_check-Within worker_id task_id lease_id retryable =
      search (within_rules, holding-Within, obligation-Within) depth 12

  fail_requeue-Within :
      (worker_id : String) (task_id lease_id : ℕ) (error : Fields) (owner : Principal)
      (parents : List ℕ)
      → Within R (Worker.fail_requeue tenant_id worker_id task_id lease_id error owner parents)
  unfolding Worker.fail_requeue
  fail_requeue-Within worker_id task_id lease_id error owner parents =
      search (within_rules, requeue_with_backoff-Within, emit-Within) depth 16

  fail_terminal-Within :
      (worker_id : String) (task_id lease_id : ℕ) (error : Fields) (owner : Principal)
      (parents : List ℕ)
      → Within R (Worker.fail_terminal tenant_id worker_id task_id lease_id error owner parents)
  unfolding Worker.fail_terminal
  fail_terminal-Within worker_id task_id lease_id error owner parents =
      search (within_rules, update_status-Within, emit-Within, ready-Within) depth 16

  fail_block-Within :
      (worker_id : String) (task_id lease_id : ℕ) (error : Fields) (requeue : Bool)
      (owner : Principal) (parents : List ℕ)
      → Within R
          (Worker.fail_block tenant_id worker_id task_id lease_id error requeue owner parents)
  unfolding Worker.fail_block
  fail_block-Within worker_id task_id lease_id error requeue owner parents =
      search
        (within_rules, holding-Within, release-Within, fail_requeue-Within, fail_terminal-Within)
        depth 16

  fail_commit-Within :
      (worker_id : String) (task_id lease_id : ℕ) (error : Fields) (checked : Receipt × Bool)
      → Within R (Worker.fail_commit tenant_id worker_id task_id lease_id error checked)
  unfolding Worker.fail_commit
  fail_commit-Within worker_id task_id lease_id error (obligation, requeue) =
      search (within_rules, savepoint-Within, fail_block-Within) depth 12

  pub fail-Within :
      (worker_id : String) (task_id lease_id : ℕ) (error : Fields) (retryable : Bool)
      → Within R (Worker.fail tenant_id worker_id task_id lease_id error retryable)
  unfolding Worker.fail
  fail-Within worker_id task_id lease_id error retryable =
      search (within_rules, fail_check-Within, fail_commit-Within) depth 12
