-- ===== src/Writes/Rows.antt =====
-- The writes of the repositories (db/repositories.py) on tasks, progress and relationships.
use async_gate.Prelude.{ℕ, ◌≡◌, refl, Bool, Option, none, some, String}
use async_gate.Models.Enums.{TaskStatus, PrincipalKind}
use async_gate.Models.Json.{Fields}
use async_gate.Models.Records.{Task, TaskResult, Progress, Relationship}
use async_gate.Store.{Store, M, Out, ok, err, after, restore, savepoint, rollback, put_db}
use async_gate.Store.Frame.{Within}
use async_gate.Writes.{Writes}
use async_gate.Store.Closed.{
  Closed, Within-pure, Within-raise, Within-gets, Within-if, Within-bind, within_rules,
}
use async_gate.Repositories.Tasks
use async_gate.Repositories.Progress
use async_gate.Repositories.Tasks.{NewTask, is_task, add_task, change_task, new_task}

module _ {R : Store → Store → Type 0} (c : Closed R) (tenant_id : ℕ) (w : Writes R tenant_id) where
  pub get-Within : (task_id : ℕ) → Within R (Tasks.get tenant_id task_id)
  unfolding Tasks.get
  get-Within task_id = Within-gets c _

  restored : {A : Type 0} (s : Store) (o : Out A) → R s (after o) → R s (after (restore s.db o))
  restored s (ok a t) p = p
  restored s (err e t) p = w.restored s t p

  pub savepoint-Within : {A : Type 0} (m : M A) → Within R m → Within R (savepoint m)
  savepoint-Within m p = record { at = λ s. restored s (m s) (p.at s) }

  pub change-Within :
      (task_id : ℕ) (f : Task → Task)
      → ((t : Task) → (f t).tenant_id ≡ t.tenant_id)
      → Within R (put_db (change_task tenant_id task_id f))
  change-Within task_id f same = record { at = λ s. w.change_task s task_id f same }

  pub update_status-Within :
      (task_id : ℕ) (status : TaskStatus) (result : Option TaskResult) (started_at : Option ℕ)
      → Within R (Tasks.update_status tenant_id task_id status result started_at)
  unfolding Tasks.update_status Tasks.with_status
  update_status-Within task_id status result started_at = Within-bind c _ _ (Within-gets c _) λ now.
      Within-bind c _ _
        (change-Within task_id (Tasks.with_status status result started_at now) (λ t. refl))
        λ _. get-Within task_id

  cancel_found-Within :
      (task_id : ℕ) (reason : Option String) (found : Option Task)
      → Within R (Tasks.cancel_found tenant_id task_id reason found)
  cancel_found-Within task_id reason none = Within-pure c _
  cancel_found-Within task_id reason (some task) = search (within_rules, update_status-Within)

  pub cancel-Within :
      (task_id : ℕ) (reason : Option String) → Within R (Tasks.cancel tenant_id task_id reason)
  unfolding Tasks.cancel
  cancel-Within task_id reason = search (within_rules, get-Within, cancel_found-Within)

  requeued-Within :
      (task_id attempt at now : ℕ)
      → Within R (put_db (change_task tenant_id task_id (Tasks.requeued attempt at now)))
  unfolding Tasks.requeued
  requeued-Within task_id attempt at now = change-Within task_id _ (λ t. refl)

  requeue_found-Within :
      (task_id : ℕ) (increment : Bool) (found : Option Task)
      → Within R (Tasks.requeue_backoff_found tenant_id task_id increment found)
  requeue_found-Within task_id increment none = Within-pure c _
  requeue_found-Within task_id increment (some task) =
      search (within_rules, requeued-Within, get-Within)

  pub requeue_with_backoff-Within :
      (task_id : ℕ) (increment : Bool)
      → Within R (Tasks.requeue_with_backoff tenant_id task_id increment)
  unfolding Tasks.requeue_with_backoff
  requeue_with_backoff-Within task_id increment =
      search (within_rules, get-Within, requeue_found-Within)

  found-Within : (found : Option Task) → Within R (Tasks.found_or_raise found)
  found-Within none = Within-raise c _
  found-Within (some t) = Within-pure c t

  fetch_existing-Within : (key : Option String) → Within R (Tasks.fetch_existing tenant_id key)
  unfolding Tasks.fetch_existing Tasks.get_by_idempotency_key
  fetch_existing-Within none = Within-raise c _
  fetch_existing-Within (some key) = search (within_rules, found-Within)

  pub create-Within : (new : NewTask) → Within R (Tasks.create tenant_id new)
  unfolding Tasks.create Tasks.new_task
  create-Within new = record {
    at = λ s.
        let row = new_task s tenant_id s.next_id new in
        c.both (c.fresh s) (
          (Within-if (Tasks.violates row new.idempotency_key s.db.tasks) _ _
              (Within-bind c rollback _ (record { at = w.rolled_back })
                λ _. fetch_existing-Within new.idempotency_key)
              (Within-bind c (put_db (add_task row)) _ (record { at = λ t. w.add_task t row refl })
                λ _. Within-pure c row)).at
            _);
  }

  upsert_found-Within :
      (now : ℕ) (kind : PrincipalKind) (id : String) (instance_id : Option String)
      (found : Option Relationship)
      → Within R (Progress.upsert_found now tenant_id kind id instance_id found)
  upsert_found-Within now kind id instance_id none =
      let row = Progress.seen_first now tenant_id kind id instance_id in
      record { at = λ s. w.add_relationship s row refl }
  upsert_found-Within now kind id instance_id (some existing) = record {
    at = λ s. w.see_again s now kind id instance_id;
  }

  pub upsert-Within :
      (kind : PrincipalKind) (id : String) (instance_id : Option String)
      → Within R (Progress.upsert tenant_id kind id instance_id)
  unfolding Progress.upsert
  upsert-Within kind id instance_id = search (within_rules, upsert_found-Within)

  pub update-Within :
      (task_id : ℕ) (progress : Fields) → Within R (Progress.update tenant_id task_id progress)
  unfolding Progress.update
  update-Within task_id progress = record {
    at = λ s.
        let row : Progress = record {
          tenant_id = tenant_id;
          task_id = task_id;
          progress = progress;
          updated_at = s.clock;
        } in
        w.upsert_progress s row refl;
  }
