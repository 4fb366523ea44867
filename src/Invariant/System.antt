-- ===== src/Invariant/System.antt =====
-- Any sequence of operations: each is one session (db/base.py `get_session`) around one method of the
-- engine (engine/core.py, engine/reconcile.py), and time passes between them.
use async_gate.Prelude.{ℕ, ◌+◌, Bool, List, [], ◌∷◌, Option, String}
use async_gate.Models.Json.{Json, Fields}
use async_gate.Models.Records.{Principal}
use async_gate.Store.{Store, after, transaction}
use async_gate.Client.Replay.{replay_buffered_receipts}
use async_gate.Engine.Tasker
use async_gate.Engine.Tasker.{TaskRequest}
use async_gate.Engine.Worker
use async_gate.Engine.Sweep
use async_gate.Reconcile
use async_gate.Invariant.{Evolves, Evolves-refl, Evolves-trans, IsValid, Keeps}
use async_gate.Invariant.Stores.{Quiet-Keeps, transaction-Keeps}
use async_gate.Invariant.Tasker.{cancel_task-IsKeeping}
use async_gate.Invariant.Create.{create_task-Keeps}
use async_gate.Invariant.Claim.{lease_next-Keeps}
use async_gate.Invariant.Renew.{renew_lease-IsKeeping}
use async_gate.Invariant.Start.{start_task-IsKeeping, report_progress-IsKeeping}
use async_gate.Invariant.Worker.{complete-IsKeeping}
use async_gate.Invariant.Fail.{fail-IsKeeping}
use async_gate.Invariant.Sweep.{expire_leases-Keeps}
use async_gate.Invariant.Custody.{reconcile_worker-Keeps}
use async_gate.Invariant.Receipts.{ack_receipt-IsQuiet, bootstrap-IsQuiet, replay-IsQuiet}

-- What may happen to the server: the calls of its engine, the sweep, the replay of the buffer, and
-- the passing of time, after which a request has a trace of its own or none.
pub data Operation : Type 0 where
  create_task : ℕ → TaskRequest → Bool → Operation
  cancel_task : ℕ → ℕ → Principal → Option String → Bool → Operation
  ack_receipt : ℕ → ℕ → Principal → Operation
  bootstrap : ℕ → Principal → Option ℕ → Option ℕ → Operation
  lease_next : ℕ → String → Option (List String) → Option (List String) → ℕ → Option ℕ → Operation
  renew_lease : ℕ → String → ℕ → ℕ → Option ℕ → Operation
  start_task : ℕ → String → ℕ → ℕ → Operation
  report_progress : ℕ → String → ℕ → ℕ → Fields → Operation
  complete : ℕ → String → ℕ → ℕ → Fields → Option Json → Operation
  fail : ℕ → String → ℕ → ℕ → Fields → Bool → Operation
  expire_leases : (ℕ → ℕ) → ℕ → Operation
  reconcile_worker : ℕ → String → Operation
  replay : ℕ → Operation
  wait : ℕ → Option Json → Operation

unfoldable pub perform : Operation → Store → Store
unfolding transaction Tasker.create_task Tasker.cancel_task Tasker.ack_receipt Tasker.bootstrap
    Worker.lease_next Worker.renew_lease Worker.start_task Worker.report_progress Worker.complete
    Worker.fail Sweep.expire_leases Reconcile.reconcile_worker replay_buffered_receipts
perform (create_task tenant_id request internal) s =
    after (transaction (Tasker.create_task tenant_id request internal) s)
perform (cancel_task tenant_id task_id principal reason internal) s =
    after (transaction (Tasker.cancel_task tenant_id task_id principal reason internal) s)
perform (ack_receipt tenant_id receipt_id principal) s =
    after (transaction (Tasker.ack_receipt tenant_id receipt_id principal) s)
perform (bootstrap tenant_id principal since max_items) s =
    after (transaction (Tasker.bootstrap tenant_id principal since max_items) s)
perform (lease_next tenant_id worker_id capabilities accept_types max_tasks ttl) s =
    after (
      transaction (Worker.lease_next tenant_id worker_id capabilities accept_types max_tasks ttl) s)
perform (renew_lease tenant_id worker_id task_id lease_id extend_by) s =
    after (transaction (Worker.renew_lease tenant_id worker_id task_id lease_id extend_by) s)
perform (start_task tenant_id worker_id task_id lease_id) s =
    after (transaction (Worker.start_task tenant_id worker_id task_id lease_id) s)
perform (report_progress tenant_id worker_id task_id lease_id progress) s =
    after (transaction (Worker.report_progress tenant_id worker_id task_id lease_id progress) s)
perform (complete tenant_id worker_id task_id lease_id result artifacts) s =
    after (transaction (Worker.complete tenant_id worker_id task_id lease_id result artifacts) s)
perform (fail tenant_id worker_id task_id lease_id error retryable) s =
    after (transaction (Worker.fail tenant_id worker_id task_id lease_id error retryable) s)
perform (expire_leases jitter batch_size) s =
    after (transaction (Sweep.expire_leases jitter batch_size) s)
perform (reconcile_worker tenant_id worker_id) s =
    after (transaction (Reconcile.reconcile_worker tenant_id worker_id) s)
perform (replay limit) s = after (replay_buffered_receipts limit s)
perform (wait time trace_id) s = record s { clock = s.clock + time; trace_id = trace_id }

unfoldable pub run : Store → List Operation → Store
unfolding perform
run s [] = s
run s (op ∷ ops) = run (perform op s) ops

-- A valid state, whose tasks come from those of an earlier one.
pub record From (s t : Store) : Type 0 where
  pub valid : IsValid t
  pub tasks : Evolves s.db.tasks t.db.tasks

kept : (s t : Store) → IsValid s → Keeps s t → From s t
kept s t v k = record { valid = k.valid v; tasks = k.tasks v }

perform-From : (op : Operation) (s : Store) → IsValid s → From s (perform op s)
unfolding perform
perform-From (create_task tenant_id request internal) s v = kept s _ v (
    transaction-Keeps s (Tasker.create_task tenant_id request internal) v
      (λ t w c. create_task-Keeps tenant_id request internal t c))
perform-From (cancel_task tenant_id task_id principal reason internal) s v = kept s _ v (
    transaction-Keeps s (Tasker.cancel_task tenant_id task_id principal reason internal) v
      (λ t w c. (cancel_task-IsKeeping tenant_id task_id principal reason internal).at t))
perform-From (ack_receipt tenant_id receipt_id principal) s v = kept s _ v (
    transaction-Keeps s (Tasker.ack_receipt tenant_id receipt_id principal) v
      (λ t w c. Quiet-Keeps ((ack_receipt-IsQuiet tenant_id receipt_id principal).at t)))
perform-From (bootstrap tenant_id principal since max_items) s v = kept s _ v (
    transaction-Keeps s (Tasker.bootstrap tenant_id principal since max_items) v
      (λ t w c. Quiet-Keeps ((bootstrap-IsQuiet tenant_id principal since max_items).at t)))
perform-From (lease_next tenant_id worker_id capabilities accept_types max_tasks ttl) s v =
    kept s _ v (
      transaction-Keeps s
        (Worker.lease_next tenant_id worker_id capabilities accept_types max_tasks ttl) v
        (λ t w c. lease_next-Keeps tenant_id worker_id capabilities accept_types max_tasks ttl t w))
perform-From (renew_lease tenant_id worker_id task_id lease_id extend_by) s v = kept s _ v (
    transaction-Keeps s (Worker.renew_lease tenant_id worker_id task_id lease_id extend_by) v
      (λ t w c. (renew_lease-IsKeeping tenant_id worker_id task_id lease_id extend_by).at t))
perform-From (start_task tenant_id worker_id task_id lease_id) s v = kept s _ v (
    transaction-Keeps s (Worker.start_task tenant_id worker_id task_id lease_id) v
      (λ t w c. (start_task-IsKeeping tenant_id worker_id task_id lease_id).at t))
perform-From (report_progress tenant_id worker_id task_id lease_id progress) s v = kept s _ v (
    transaction-Keeps s (Worker.report_progress tenant_id worker_id task_id lease_id progress) v
      (λ t w c. (report_progress-IsKeeping tenant_id worker_id task_id lease_id progress).at t))
perform-From (complete tenant_id worker_id task_id lease_id result artifacts) s v = kept s _ v (
    transaction-Keeps s (Worker.complete tenant_id worker_id task_id lease_id result artifacts) v
      (λ t w c. (complete-IsKeeping tenant_id worker_id task_id lease_id result artifacts).at t))
perform-From (fail tenant_id worker_id task_id lease_id error retryable) s v = kept s _ v (
    transaction-Keeps s (Worker.fail tenant_id worker_id task_id lease_id error retryable) v
      (λ t w c. (fail-IsKeeping tenant_id worker_id task_id lease_id error retryable).at t))
perform-From (expire_leases jitter batch_size) s v = kept s _ v (
    transaction-Keeps s (Sweep.expire_leases jitter batch_size) v
      (λ t w c. expire_leases-Keeps jitter batch_size t w))
perform-From (reconcile_worker tenant_id worker_id) s v = kept s _ v (
    transaction-Keeps s (Reconcile.reconcile_worker tenant_id worker_id) v
      (λ t w c. reconcile_worker-Keeps tenant_id worker_id t w))
perform-From (replay limit) s v = kept s _ v (Quiet-Keeps ((replay-IsQuiet limit).at s))
perform-From (wait time trace_id) s v = record {
  valid = record { sound = v.sound; committed = v.committed; evolves = v.evolves };
  tasks = Evolves-refl s.db.tasks;
}

pub run-From : (s : Store) (ops : List Operation) → IsValid s → From s (run s ops)
unfolding run
run-From s [] v = record { valid = v; tasks = Evolves-refl s.db.tasks }
run-From s (op ∷ ops) v =
    let one = perform-From op s v in
    let more = run-From (perform op s) ops one.valid in
    record {
      valid = more.valid;
      tasks =
          Evolves-trans s.db.tasks (perform op s).db.tasks (run (perform op s) ops).db.tasks
            one.tasks more.tasks;
    }
