-- ===== src/Invariant/Release.antt =====
-- A task leaves the hands of its worker: its row changes, and its lease is deleted
-- (TaskRepository.update_status and its kin, LeaseRepository.release).
use async_gate.Prelude.{
  ℕ, ◌≤◌, ◌<◌, ◌≡◌, refl, sym, subst, ◌∙◌, ◌⊎◌, Bool, true, false, List, some, arith, any,
  update_where, delete_where,
}
use async_gate.Models.Enums.{TaskStatus, is_terminal}
use async_gate.Models.Records.{Task, Lease, can_transition}
use async_gate.Store.{Settings, Db, Store, M, Out, ok, err, after}
use async_gate.Store.Frame.{Steady-trans, Steady-put, Quiet, IsQuiet}
use async_gate.Repositories.Tasks.{is_task, find_task, change_task}
use async_gate.Repositories.Leases.{is_lease_of, released, drop_leases}
use async_gate.Invariant.{
  active, lease_count, IsLimited, HasTask, HasLeases, IsRetried, Sound, Follows, stays, moves,
  IsValid, Keeps, Keeps-trans,
}
use async_gate.Invariant.Lists.{
  All-map, All-first, All-delete, count-delete_one, count-delete_ne, any-count, first-holds,
}
use async_gate.Invariant.Rows.{
  Moves, Settles, only_row, row_key, Settles-Sound, Evolves-update, DistinctLeases-delete,
}
use async_gate.Invariant.Stores.{write-Keeps, Quiet-Keeps, Ends}

-- A step of the diagram from a status that is not terminal.
pub Follows-step :
    (x y : Task)
    → y.task_id ≡ x.task_id
    → y.tenant_id ≡ x.tenant_id
    → y.created_by ≡ x.created_by
    → y.max_attempts ≡ x.max_attempts
    → x.attempt ≤ y.attempt
    → can_transition x.status y.status ≡ true
    → is_terminal x.status ≡ false
    → Follows x y
Follows-step x y i t c m a h n = record {
  task_id = i;
  tenant_id = t;
  created_by = c;
  max_attempts = m;
  attempt = a;
  advances = moves h n stays;
  frozen = λ k. ground (arith, n, k);
}

-- A task with a lease is leased or running.
pub held-active :
    (settings : Settings) (next_id tenant_id task_id : ℕ) (p : Lease → Bool) (db : Db) (task : Task)
    → Sound settings next_id db
    → find_task tenant_id task_id db ≡ some task
    → ((l : Lease) → p l ≡ true → is_lease_of tenant_id task_id l ≡ true)
    → any p db.leases ≡ true
    → (active task.status ≡ 1) × (lease_count tenant_id task_id db.leases ≡ 1)
unfolding find_task
held-active settings next_id tenant_id task_id p db task v e h a =
    let one =
      All-first (HasLeases db.leases) (is_task tenant_id task_id) db.tasks task e v.one_lease in
    let key =
      row_key tenant_id task_id task (first-holds (is_task tenant_id task_id) db.tasks task e) in
    let some_lease = any-count (is_lease_of tenant_id task_id) p db.leases h a in
    let here : lease_count tenant_id task_id db.leases ≡ active task.status =
      cc (one, key.0, key.1) in
    (ground (arith, here, some_lease), ground (arith, here, some_lease))

-- Statuses with a lease lead everywhere but to `leased`.
pub active-status :
    (s : TaskStatus)
    → active s ≡ 1
    → ((s ≡ TaskStatus.leased) ⊎ (s ≡ TaskStatus.running))
      × (is_terminal s ≡ false)
      × (can_transition s TaskStatus.succeeded ≡ true)
      × (can_transition s TaskStatus.failed ≡ true)
      × (can_transition s TaskStatus.canceled ≡ true)
      × (can_transition s TaskStatus.queued ≡ true)
active-status s h = unfold is_terminal can_transition in ground arith

module _ (settings : Settings) (next_id tenant_id task_id : ℕ) (f : Task → Task) (p : Lease → Bool)
    (db : Db) (task : Task) where
  -- The leases of the task are deleted, and it has a status without one.
  pub release-Settles :
      Sound settings next_id db
      → ((u : Task) → (f u).task_id ≡ u.task_id)
      → ((u : Task) → (f u).tenant_id ≡ u.tenant_id)
      → find_task tenant_id task_id db ≡ some task
      → ((l : Lease) → p l ≡ true → is_lease_of tenant_id task_id l ≡ true)
      → lease_count tenant_id task_id (delete_where p db.leases) ≡ 0
      → Follows task (f task)
      → IsRetried (f task)
      → active (f task).status ≡ 0
      → Settles settings next_id tenant_id task_id f db (delete_where p db.leases)
  unfolding find_task
  release-Settles v i t e h z follows retried a = record {
    keeps_id = i;
    keeps_tenant = t;
    rows =
        All-map (λ u. is_task tenant_id task_id u ≡ true → u ≡ task) _ db.tasks
          (λ u same k.
            subst (Moves settings (lease_count tenant_id task_id (delete_where p db.leases)) f)
              (sym (same k)) (record { follows = follows; retried = retried; leases = z ∙ sym a }))
          (only_row tenant_id task_id db.tasks task v.distinct e);
    others = λ c d n. count-delete_ne (is_lease_of c d) p db.leases (λ l k. ground (arith, h l k));
    has_task = All-delete (HasTask db.tasks) p db.leases v.has_task;
    distinct_leases = DistinctLeases-delete p db.leases v.distinct_leases;
    fresh_leases = All-delete (λ l. l.lease_id < next_id) p db.leases v.fresh_leases;
    limited = All-delete (IsLimited settings) p db.leases v.limited;
  }

-- The database after both writes, in either order.
abbrev pub settled : ℕ → ℕ → (Task → Task) → (Lease → Bool) → Db → Db
settled tenant_id task_id f p db = drop_leases p (change_task tenant_id task_id f db)

pub settled-Keeps :
    (s : Store) (tenant_id task_id : ℕ) (f : Task → Task) (ls : List Lease)
    → (IsValid s → Settles s.settings s.next_id tenant_id task_id f s.db ls)
    → Keeps s (record s {
      db = record s.db {
        tasks = update_where (is_task tenant_id task_id) f s.db.tasks;
        leases = ls;
      };
    })
settled-Keeps s tenant_id task_id f ls w =
    write-Keeps s _ (Steady-put s _ s.client s.trace_id) refl λ v. (
      Settles-Sound s.settings s.next_id tenant_id task_id f s.db ls (w v) v.sound,
      Evolves-update (is_task tenant_id task_id) f s.db.tasks (
          All-map _ (λ u. is_task tenant_id task_id u ≡ true → Follows u (f u)) s.db.tasks
            (λ u m k. (m k).follows) (w v).rows),
    )

-- A deletion of the one lease leaves none.
pub released-none :
    (tenant_id task_id lease_id : ℕ) (ls : List Lease)
    → lease_count tenant_id task_id ls ≤ 1
    → any (released tenant_id task_id (some lease_id)) ls ≡ true
    → lease_count tenant_id task_id (delete_where (released tenant_id task_id (some lease_id)) ls)
      ≡ 0
released-none tenant_id task_id lease_id ls n a =
    count-delete_one (is_lease_of tenant_id task_id) (released tenant_id task_id (some lease_id)) ls
      (λ l h. ground arith) a n

module _ {A : Type 0} where
  pub quiet-Ends :
      (s t : Store) (m : M A) → Keeps s t → t.committed ≡ s.committed → IsQuiet m → Ends s (m t)
  quiet-Ends s t m k c q = go (m t) refl
    where
      go : (o : Out A) → m t ≡ o → Ends s o
      go (ok a u) e = Keeps-trans k (Quiet-Keeps (subst (λ o. Quiet t (after o)) e (q.at t)))
      go (err x u) e =
          let w : Quiet t u = subst (λ o. Quiet t (after o)) e (q.at t) in
          (Steady-trans k.steady w.steady, w.committed ∙ c)
