-- ===== src/Reconcile.antt =====
-- asyncgate/engine/reconcile.py
use async_gate.Prelude.{
  ℕ, Bool, true, false, not, Option, none, some, List, [], ◌∷◌, ◌++◌, String, ◌==◌, leb,
  if◌then◌else◌, length, any, select, order_by,
}
use async_gate.Models.Enums.{TaskStatus}
use async_gate.Models.Records.{Task, Lease, task_is_terminal}
use async_gate.Store.{custody_unreadable, M, ◌>>=◌, ◌>>◌, pure, gets, or_raise}
use async_gate.Repositories.Tasks
use async_gate.Repositories.Leases
use async_gate.Client.{list_custody}

pub record ReconciliationReport : Type 0 where
  pub worker_id : String
  pub held_by_ledger : ℕ
  pub local_leases : ℕ
  pub released_stale : List ℕ
  pub settled_tasks : List ℕ
  pub missing_locally : List ℕ

unfoldable pub changed : ReconciliationReport → Bool
changed r = elim r.released_stale [
  | x ∷ xs ↦ true
  | [] ↦ elim r.settled_tasks [ x ∷ xs ↦ true | [] ↦ false ]
]

-- The tasks that the ledger's rows name.
unfoldable pub owed_task_ids : List (Option ℕ) → List ℕ
owed_task_ids [] = []
owed_task_ids (none ∷ rows) = owed_task_ids rows
owed_task_ids (some t ∷ rows) = t ∷ owed_task_ids rows

abbrev pub is_owed : List ℕ → ℕ → Bool
is_owed owed task_id = any (λ t. t == task_id) owed

-- Ids in order, each once: `sorted` of a set.
abbrev cons_new : ℕ → List ℕ → List ℕ
cons_new x xs = if is_owed xs x then xs else x ∷ xs

abbrev dedup : List ℕ → List ℕ
dedup [] = []
dedup (x ∷ xs) = cons_new x (dedup xs)

unfoldable pub missing : List ℕ → List Lease → List ℕ
unfolding order_by select any
missing owed local = order_by leb (dedup (select (λ t. not (any (λ l. l.task_id == t) local)) owed))

-- The task of a lease that was released goes back to the queue, unless it has ended.
abbrev pub requeue_found : ℕ → ℕ → Option Task → M (List ℕ)
requeue_found tenant_id task_id none = pure []
requeue_found tenant_id task_id (some task) =
    if task_is_terminal task
    then pure []
    else do Tasks.update_status tenant_id task_id TaskStatus.queued none none; pure (task_id ∷ [])

-- A lease that the ledger does not list.
unfoldable pub drop_stale : ℕ → Lease → M (List ℕ)
unfolding Leases.release Tasks.get Tasks.update_status
drop_stale tenant_id l = do
  Leases.release l.tenant_id l.task_id (some l.lease_id)
  task ← Tasks.get tenant_id l.task_id
  requeue_found tenant_id l.task_id task

-- The loop over the local leases: the leases that it released, and the tasks that it settled.
unfoldable pub reconcile_leases : ℕ → List ℕ → List Lease → M (List ℕ × List ℕ)
unfolding drop_stale any
reconcile_leases tenant_id owed [] = pure ([], [])
reconcile_leases tenant_id owed (l ∷ ls) =
    let rest = reconcile_leases tenant_id owed ls in
    if is_owed owed l.task_id then rest else (do
      settled ← drop_stale tenant_id l
      more ← rest
      pure (l.lease_id ∷ more.0, settled ++ more.1))

unfoldable pub reconcile_worker : ℕ → String → M ReconciliationReport
unfolding list_custody owed_task_ids Leases.list_for_worker reconcile_leases missing
reconcile_worker tenant_id worker_id = do
  read ← gets (list_custody worker_id)
  custody ← or_raise read custody_unreadable
  local ← gets (Leases.list_for_worker tenant_id worker_id)
  let owed = owed_task_ids custody
  done ← reconcile_leases tenant_id owed local
  pure (record {
    worker_id = worker_id;
    held_by_ledger = length custody;
    local_leases = length local;
    released_stale = done.0;
    settled_tasks = done.1;
    missing_locally = missing owed local;
  })
