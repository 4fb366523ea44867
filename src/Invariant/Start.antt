-- ===== src/Invariant/Start.antt =====
-- A leased task starts to run: `start_task` and `report_progress` (engine/core.py).
use async_gate.Prelude.{
  ℕ, ◌≡◌, refl, sym, subst, true, not, List, Option, none, some, arith, first, String, get_or,
}
use native.Mathlib.Nat.{le_refl}
use async_gate.Models.Enums.{ReceiptType, TaskStatus, is_terminal, status_eq, status_eq_iff}
use async_gate.Models.Json.{Json, Fields, field, end}
use async_gate.Models.Records.{Principal, Task, can_transition}
use async_gate.Models.ReceiptBody
use async_gate.Store.{Settings, Db, Store, M, after, ◌>>=◌, ◌>>◌, savepoint, when, pure}
use async_gate.Store.Frame.{IsQuiet, quiet_rules}
use async_gate.Repositories.Tasks
use async_gate.Repositories.Progress
use async_gate.Repositories.Tasks.{is_task, find_task, change_task, with_status}
use async_gate.Engine.Emit.{about, worker_principal, emit, owner_and_parents}
use async_gate.Engine.Worker.{running_block, transition_to_running, start_task, report_progress}
use async_gate.Invariant.{
  active, lease_count, HasLeases, IsRetried, Sound, Follows, Keeps, Keeps-refl, IsKeeping,
}
use async_gate.Invariant.Lists.{All-map, All-first, first-holds}
use async_gate.Invariant.Rows.{Moves, Settles, only_row, row_key}
use async_gate.Invariant.Stores.{
  Quiet-Keeps, Ends, savepoint-Keeps, reader-Keeps, bind-Keeps, if-Keeps,
}
use async_gate.Invariant.Release.{Follows-step, settled-Keeps, quiet-Ends}
use async_gate.Invariant.Receipts.{emit-IsQuiet, update-IsQuiet}
use async_gate.Invariant.Holding.{holding-IsReader, holding-row, row-IsRetried}

-- The row of a task changes, and it has as many leases as before.
pub stays-Settles :
    (settings : Settings) (next_id tenant_id task_id : ℕ) (f : Task → Task) (db : Db) (task : Task)
    → Sound settings next_id db
    → ((u : Task) → (f u).task_id ≡ u.task_id)
    → ((u : Task) → (f u).tenant_id ≡ u.tenant_id)
    → find_task tenant_id task_id db ≡ some task
    → Follows task (f task)
    → IsRetried (f task)
    → active (f task).status ≡ active task.status
    → Settles settings next_id tenant_id task_id f db db.leases
unfolding find_task
stays-Settles settings next_id tenant_id task_id f db task v i t e follows retried a =
    let here =
      All-first (HasLeases db.leases) (is_task tenant_id task_id) db.tasks task e v.one_lease in
    let key =
      row_key tenant_id task_id task (first-holds (is_task tenant_id task_id) db.tasks task e) in
    record {
      keeps_id = i;
      keeps_tenant = t;
      rows =
          All-map (λ u. is_task tenant_id task_id u ≡ true → u ≡ task) _ db.tasks
            (λ u same k.
              subst (Moves settings (lease_count tenant_id task_id db.leases) f) (sym (same k))
                (record {
                  follows = follows;
                  retried = retried;
                  leases = cc (here, key.0, key.1, a);
                }))
            (only_row tenant_id task_id db.tasks task v.distinct e);
      others = λ c d n. refl;
      has_task = v.has_task;
      distinct_leases = v.distinct_leases;
      fresh_leases = v.fresh_leases;
      limited = v.limited;
    }

module _ (tenant_id : ℕ) (task : Task) (worker_id : String) (lease_id : ℕ) (owner : Principal)
    (parents : List ℕ) (s : Store) (found : find_task tenant_id task.task_id s.db ≡ some task) where
  running_block-Ends :
      (started_at : ℕ)
      → task.status ≡ TaskStatus.leased
      → Ends s (running_block tenant_id task worker_id lease_id owner parents started_at s)
  unfolding running_block Tasks.update_status Tasks.get change_task
  running_block-Ends started_at leased =
      let f = with_status TaskStatus.running none (some started_at) s.clock in
      quiet-Ends s _
        (do
          emit tenant_id (
              about ReceiptType.task_started (worker_principal worker_id) owner task.task_id
                (some lease_id) parents (ReceiptBody.task_started (some started_at)))
          pure tt)
        (settled-Keeps s tenant_id task.task_id f s.db.leases λ v.
          stays-Settles s.settings s.next_id tenant_id task.task_id f s.db task v.sound
            (λ u. unfold with_status in refl) (λ u. unfold with_status in refl) found
            (unfold with_status in
              Follows-step task (f task) refl refl refl refl (le_refl _)
                (unfold can_transition in rw leased refl) (unfold is_terminal in rw leased refl))
            (unfold with_status in row-IsRetried s tenant_id task.task_id task found v)
            (unfold with_status in rw leased refl))
        refl (search (quiet_rules, emit-IsQuiet))

  pub transition_to_running-Keeps :
      Keeps s (after (transition_to_running tenant_id task worker_id lease_id owner parents s))
  unfolding transition_to_running
  transition_to_running-Keeps =
      let started_at = get_or task.started_at s.clock in
      let block = running_block tenant_id task worker_id lease_id owner parents started_at in
      if-Keeps (status_eq task.status TaskStatus.running) (pure started_at) _ s (λ e. Keeps-refl s)
        λ e.
          if-Keeps (not (status_eq task.status TaskStatus.leased)) _
            (savepoint block >> pure started_at) s (λ k. Keeps-refl s)
            λ k.
              bind-Keeps {A = Unit} {B = ℕ} s (savepoint block) (λ u. pure started_at)
                (savepoint-Keeps s block (
                  running_block-Ends started_at
                    ((status_eq_iff task.status TaskStatus.leased).0 (ground (arith, k)))))
                (λ a t h. Keeps-refl t)

-- The row that a worker holds, by its own identifier.
held_row :
    (tenant_id task_id : ℕ) (s : Store) (task : Task)
    → find_task tenant_id task_id s.db ≡ some task
    → find_task tenant_id task.task_id s.db ≡ some task
unfolding find_task
held_row tenant_id task_id s task e =
    let key =
      row_key tenant_id task_id task (first-holds (is_task tenant_id task_id) s.db.tasks task e) in
    subst (λ i. first (is_task tenant_id i) s.db.tasks ≡ some task) (sym key.1) e

pub start_task-IsKeeping :
    (tenant_id : ℕ) (worker_id : String) (task_id lease_id : ℕ)
    → IsKeeping (start_task tenant_id worker_id task_id lease_id)
unfolding start_task
start_task-IsKeeping tenant_id worker_id task_id lease_id = record {
  at = λ s. reader-Keeps s _ _ (holding-IsReader tenant_id worker_id task_id lease_id) λ task h.
      let row =
        held_row tenant_id task_id s task
          (holding-row tenant_id worker_id task_id lease_id s s task h).0 in
      let owned = owner_and_parents tenant_id task s in
      if-Keeps (status_eq task.status TaskStatus.running) (pure task.started_at) _ s
        (λ e. Keeps-refl s)
        λ e.
          bind-Keeps {A = ℕ} {B = Option ℕ} s
            (transition_to_running tenant_id task worker_id lease_id owned.0 owned.1)
            (λ started_at. pure (some started_at))
            (transition_to_running-Keeps tenant_id task worker_id lease_id owned.0 owned.1 s row)
            (λ a t k. Keeps-refl t);
}

-- What `report_progress` does for a task that runs.
abbrev progress_tail : ℕ → String → ℕ → ℕ → Fields → Principal → List ℕ → M Unit
progress_tail tenant_id worker_id task_id lease_id progress_data owner parents = do
  Progress.update tenant_id task_id progress_data
  emit tenant_id (
      about ReceiptType.task_progress (worker_principal worker_id) owner task_id (some lease_id)
        parents (field "progress" (Json.obj progress_data) end))
  pure tt

pub report_progress-IsKeeping :
    (tenant_id : ℕ) (worker_id : String) (task_id lease_id : ℕ) (progress_data : Fields)
    → IsKeeping (report_progress tenant_id worker_id task_id lease_id progress_data)
unfolding report_progress
report_progress-IsKeeping tenant_id worker_id task_id lease_id progress_data = record {
  at = λ s. reader-Keeps s _ _ (holding-IsReader tenant_id worker_id task_id lease_id) λ task h.
      let row =
        held_row tenant_id task_id s task
          (holding-row tenant_id worker_id task_id lease_id s s task h).0 in
      let owned = owner_and_parents tenant_id task s in
      let tail = progress_tail tenant_id worker_id task_id lease_id progress_data owned.0 owned.1 in
      let start =
        transition_to_running tenant_id task worker_id lease_id owned.0 owned.1
        >>= (λ at. pure tt) in
      bind-Keeps {A = Unit} {B = Unit} s (when (status_eq task.status TaskStatus.leased) start)
        (λ u. tail)
        (if-Keeps (status_eq task.status TaskStatus.leased) start (pure tt) s
          (λ e.
            bind-Keeps {A = ℕ} {B = Unit} s
              (transition_to_running tenant_id task worker_id lease_id owned.0 owned.1)
              (λ started_at. pure tt)
              (transition_to_running-Keeps tenant_id task worker_id lease_id owned.0 owned.1 s row)
              (λ a t k. Keeps-refl t))
          (λ e. Keeps-refl s))
        (λ a t k.
          let quiet : IsQuiet tail = search (quiet_rules, emit-IsQuiet, update-IsQuiet) depth 8 in
          Quiet-Keeps (quiet.at t));
}
