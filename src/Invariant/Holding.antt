-- ===== src/Invariant/Holding.antt =====
-- A worker that holds a task, and the rows when the task leaves its hands (engine/core.py).
use async_gate.Prelude.{
  ℕ, ◌≤◌, ◌≡◌, refl, inl, inr, true, Option, some, arith, any, first, delete_where, String,
  Option-cases,
}
use native.Mathlib.Nat.{le_refl}
use async_gate.Models.Enums.{TaskStatus}
use async_gate.Models.Records.{Task, TaskResult, can_transition}
use async_gate.Store.{Store, ok}
use async_gate.Store.Frame.{IsReader, reader_rules}
use async_gate.Repositories.Tasks
use async_gate.Repositories.Tasks.{is_task, find_task, change_task, with_status, requeued}
use async_gate.Repositories.Leases
use async_gate.Repositories.Leases.{is_lease_of, is_valid_at, released, find_valid, drop_leases}
use async_gate.Engine.Worker.{holding, check_transition}
use async_gate.Invariant.{active, IsRetried, Follows, IsValid}
use async_gate.Invariant.Lists.{All-first, any-first, any-weaken}
use async_gate.Invariant.Rows.{Settles}
use async_gate.Invariant.Release.{
  Follows-step, held-active, active-status, release-Settles, released-none,
}

pub holding-IsReader :
    (tenant_id : ℕ) (worker_id : String) (task_id lease_id : ℕ)
    → IsReader (holding tenant_id worker_id task_id lease_id)
unfolding holding Leases.validate Tasks.get
holding-IsReader tenant_id worker_id task_id lease_id = search reader_rules depth 8

-- A worker that holds the task: its row, and the lease.
pub holding-row :
    (tenant_id : ℕ) (worker_id : String) (task_id lease_id : ℕ) (s t : Store) (task : Task)
    → holding tenant_id worker_id task_id lease_id s ≡ ok task t
    → (find_task tenant_id task_id s.db ≡ some task)
      × (any (released tenant_id task_id (some lease_id)) s.db.leases ≡ true)
unfolding holding Leases.validate Tasks.get find_valid find_task
holding-row tenant_id worker_id task_id lease_id s t task h =
    elim (Option-cases
      (first (is_valid_at s.clock tenant_id task_id lease_id worker_id) s.db.leases)) [
        | inl e ↦ ground (arith, e)
        | inr (l, e) ↦ elim (Option-cases (first (is_task tenant_id task_id) s.db.tasks)) [
          | inl k ↦ ground (arith, e, k)
          | inr (u, k) ↦ (
            ground (arith, e, k),
            any-weaken (released tenant_id task_id (some lease_id))
                (is_valid_at s.clock tenant_id task_id lease_id worker_id) s.db.leases
                (λ x held. ground arith)
                (any-first (is_valid_at s.clock tenant_id task_id lease_id worker_id) s.db.leases l
                  e),
          )
        ]
      ]

pub row-IsRetried :
    (s : Store) (tenant_id task_id : ℕ) (task : Task)
    → find_task tenant_id task_id s.db ≡ some task
    → IsValid s
    → IsRetried task
unfolding find_task
row-IsRetried s tenant_id task_id task e v =
    All-first IsRetried (is_task tenant_id task_id) s.db.tasks task e v.sound.retried

-- The rows after a task that a worker holds has left its hands.
module _ (s : Store) (tenant_id task_id lease_id : ℕ) (f : Task → Task) (task : Task)
    (found : find_task tenant_id task_id s.db ≡ some task)
    (held : any (released tenant_id task_id (some lease_id)) s.db.leases ≡ true) where
  pub leaves-Settles :
      ((u : Task) → (f u).task_id ≡ u.task_id)
      → ((u : Task) → (f u).tenant_id ≡ u.tenant_id)
      → (active task.status ≡ 1 → IsRetried task → Follows task (f task) × IsRetried (f task))
      → active (f task).status ≡ 0
      → IsValid s
      → Settles s.settings s.next_id tenant_id task_id f s.db
          (delete_where (released tenant_id task_id (some lease_id)) s.db.leases)
  leaves-Settles i t g a v =
      let one =
        held-active s.settings s.next_id tenant_id task_id
          (released tenant_id task_id (some lease_id)) s.db task v.sound found (λ l h. ground arith)
          held in
      let step = g one.0 (row-IsRetried s tenant_id task_id task found v) in
      release-Settles s.settings s.next_id tenant_id task_id f
        (released tenant_id task_id (some lease_id)) s.db task v.sound i t found
        (λ l h. ground arith)
        (released-none tenant_id task_id lease_id s.db.leases (omega (arith, one.1)) held) step.0
        step.1 a

pub with_status-Follows :
    (task : Task) (new_status : TaskStatus) (result : Option TaskResult) (started_at : Option ℕ)
    (now : ℕ)
    → active task.status ≡ 1
    → can_transition task.status new_status ≡ true
    → Follows task (with_status new_status result started_at now task)
unfolding with_status
with_status-Follows task new_status result started_at now one allowed =
    Follows-step task (with_status new_status result started_at now task) refl refl refl refl
      (le_refl _) allowed (active-status task.status one).1

pub check_transition-IsReader :
    (task : Task) (status : TaskStatus) → IsReader (check_transition task status)
check_transition-IsReader task status = search reader_rules

pub requeued-Follows :
    (task : Task) (attempt at now : ℕ)
    → task.attempt ≤ attempt
    → active task.status ≡ 1
    → Follows task (requeued attempt at now task)
unfolding requeued
requeued-Follows task attempt at now le one =
    let out = active-status task.status one in
    Follows-step task (requeued attempt at now task) refl refl refl refl le out.5 out.1
