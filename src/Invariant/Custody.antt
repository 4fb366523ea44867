-- ===== src/Invariant/Custody.antt =====
-- The reconciliation of a worker's leases with the ledger (engine/reconcile.py).
use async_gate.Prelude.{
  ℕ, ◌≡◌, refl, sym, subst, inl, inr, Bool, ◌&&◌, List, [], ◌∷◌, ◌++◌, Option, none, some, arith,
  ◌==◌, String, str_eq, select, delete_where, Bool-cases, if◌then◌else◌,
}
use async_gate.Models.Enums.{TaskStatus, is_terminal}
use async_gate.Models.Records.{Task, Lease}
use async_gate.Store.{Store, M, ok, after, ◌>>=◌, ◌>>◌, pure, custody_unreadable}
use async_gate.Repositories.Tasks
use async_gate.Repositories.Tasks.{find_task, with_status, change_task}
use async_gate.Repositories.Leases
use async_gate.Repositories.Leases.{released, drop_leases, list_for_worker}
use async_gate.Client.{list_custody}
use async_gate.Reconcile.{
  is_owed, owed_task_ids, requeue_found, drop_stale, reconcile_leases, reconcile_worker,
}
use async_gate.Invariant.{IsValid, Keeps, Keeps-refl}
use async_gate.Invariant.Stores.{bind-Keeps, if-Keeps, or_raise-Keeps}
use async_gate.Invariant.Release.{held-active, active-status, settled-Keeps}
use async_gate.Invariant.Holding.{leaves-Settles, with_status-Follows}
use async_gate.Invariant.Snapshot.{
  by_key, Stored, Snapshot, select-Snapshot, rest-Snapshot, Stored-task,
}

-- The store between the deletion of the lease and the change of the task.
abbrev pub dropped : Lease → Store → Store
dropped l s = record s { db = drop_leases (by_key l) s.db }

module _ (l : Lease) (s : Store) (v : IsValid s) (held : Stored s.db.leases l) where
  requeued-Keeps :
      (task : Task)
      → find_task l.tenant_id l.task_id s.db ≡ some task
      → Keeps s (after (requeue_found l.tenant_id l.task_id (some task) (dropped l s)))
  unfolding Tasks.update_status Tasks.get change_task drop_leases
  requeued-Keeps task found =
      let f = with_status TaskStatus.queued none none s.clock in
      let one =
        held-active s.settings s.next_id l.tenant_id l.task_id (by_key l) s.db task v.sound found
          (λ k h. ground arith) held in
      subst
        (λ b. Keeps s (
          after (
            (if b then pure [] else (do
              Tasks.update_status l.tenant_id l.task_id TaskStatus.queued none none
              pure (l.task_id ∷ [])))
              (dropped l s))))
        (sym (active-status task.status one.0).1)
        (settled-Keeps s l.tenant_id l.task_id f (delete_where (by_key l) s.db.leases) (
          leaves-Settles s l.tenant_id l.task_id l.lease_id f task found held
            (λ u. unfold with_status in refl) (λ u. unfold with_status in refl)
            (λ a retried. (
              with_status-Follows task TaskStatus.queued none none s.clock a
                  (active-status task.status a).5,
              unfold with_status in retried,
            ))
            (unfold with_status in refl)))

  drop_stale-Keeps :
      (tenant_id : ℕ) → l.tenant_id ≡ tenant_id → Keeps s (after (drop_stale tenant_id l s))
  unfolding drop_stale Leases.release Tasks.get find_task drop_leases
  drop_stale-Keeps tenant_id e =
      let (task, found) = Stored-task s l v held in
      subst
        (λ i.
          Keeps s (after (requeue_found i l.task_id (find_task i l.task_id s.db) (dropped l s))))
        e
        (subst (λ o. Keeps s (after (requeue_found l.tenant_id l.task_id o (dropped l s))))
          (sym found) (requeued-Keeps task found))

requeue_found-leases :
    (tenant_id task_id : ℕ) (found : Option Task) (s u : Store) (r : List ℕ)
    → requeue_found tenant_id task_id found s ≡ ok r u
    → u.db.leases ≡ s.db.leases
unfolding Tasks.update_status Tasks.get change_task
requeue_found-leases tenant_id task_id none s u r h = ground (arith, h)
requeue_found-leases tenant_id task_id (some task) s u r h =
    elim (Bool-cases (is_terminal task.status)) [
      | inl e ↦ ground (arith, h, e)
      | inr e ↦ ground (arith, h, e)
    ]

pub drop_stale-leases :
    (tenant_id : ℕ) (l : Lease) (s u : Store) (r : List ℕ)
    → drop_stale tenant_id l s ≡ ok r u
    → u.db.leases ≡ delete_where (by_key l) s.db.leases
unfolding drop_stale Leases.release Tasks.get drop_leases
drop_stale-leases tenant_id l s u r h =
    requeue_found-leases tenant_id l.task_id (find_task tenant_id l.task_id s.db) (dropped l s) u r
      h

abbrev pub of_worker : ℕ → String → Lease → Bool
of_worker tenant_id worker_id l = l.tenant_id == tenant_id && str_eq l.worker_id worker_id

reconcile_leases-Keeps :
    (tenant_id : ℕ) (worker_id : String) (owed : List ℕ) (ls : List Lease) (s : Store)
    → IsValid s
    → Snapshot (of_worker tenant_id worker_id) s.db.leases ls
    → Keeps s (after (reconcile_leases tenant_id owed ls s))
unfolding reconcile_leases
reconcile_leases-Keeps tenant_id worker_id owed [] s v c = Keeps-refl s
reconcile_leases-Keeps tenant_id worker_id owed (l ∷ ls) s v c =
    let rest = reconcile_leases tenant_id owed ls in
    let more : List ℕ → M (List ℕ × List ℕ) =
      λ settled. rest >>= (λ done. pure (l.lease_id ∷ done.0, settled ++ done.1)) in
    if-Keeps {A = List ℕ × List ℕ} (is_owed owed l.task_id) rest (drop_stale tenant_id l >>= more) s
      (λ e.
        reconcile_leases-Keeps tenant_id worker_id owed ls s v
          (rest-Snapshot (of_worker tenant_id worker_id) s.db.leases s.db.leases l ls c (inl refl)))
      (λ e.
        let one = drop_stale-Keeps l s v c.there.0 tenant_id (ground (arith, c.satisfy.0)) in
        bind-Keeps {A = List ℕ} {B = List ℕ × List ℕ} s (drop_stale tenant_id l) more one
          (λ settled u h.
            bind-Keeps {A = List ℕ × List ℕ} {B = List ℕ × List ℕ} u rest _
              (reconcile_leases-Keeps tenant_id worker_id owed ls u
                ((subst (λ o. Keeps s (after o)) h one).valid v)
                (rest-Snapshot (of_worker tenant_id worker_id) s.db.leases u.db.leases l ls c
                  (inr (drop_stale-leases tenant_id l s u settled h))))
              (λ done x k. Keeps-refl x)))

pub reconcile_worker-Keeps :
    (tenant_id : ℕ) (worker_id : String) (s : Store)
    → IsValid s
    → Keeps s (after (reconcile_worker tenant_id worker_id s))
unfolding reconcile_worker list_for_worker
reconcile_worker-Keeps tenant_id worker_id s v =
    or_raise-Keeps (list_custody worker_id s) custody_unreadable _ s λ custody e.
      let local = select (of_worker tenant_id worker_id) s.db.leases in
      bind-Keeps {A = List ℕ × List ℕ} {B = _} s
        (reconcile_leases tenant_id (owed_task_ids custody) local) _
        (reconcile_leases-Keeps tenant_id worker_id (owed_task_ids custody) local s v
          (select-Snapshot (of_worker tenant_id worker_id) s v))
        (λ done u h. Keeps-refl u)
