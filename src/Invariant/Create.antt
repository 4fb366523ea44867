-- ===== src/Invariant/Create.antt =====
-- A task is added (`TaskRepository.create`, `create_task` of engine/core.py).
use async_gate.Prelude.{
  ℕ, suc, ◌<◌, ◌≡◌, ◌≢◌, refl, sym, ap, ◌∙◌, inl, inr, Bool, true, false, not, ◌&&◌, List, [], ◌∷◌,
  ◌++◌, Option, none, some, arith, any, All, String, is_text, if◌then◌else◌, Bool-cases,
}
use async_gate.Models.Records.{Task, Lease}
use async_gate.Models.Enums.{TaskStatus}
use async_gate.Store.{
  Settings, Db, Store, M, after, ◌>>◌, pure, raise, rollback, put_db, unauthorized, value_error,
}
use async_gate.Store.Frame.{IsQuiet, quiet_rules}
use async_gate.Repositories.Tasks
use async_gate.Repositories.Tasks.{
  NewTask, is_task, new_task, violates, fetch_existing, found_or_raise, add_task,
  get_by_idempotency_key,
}
use async_gate.Repositories.Leases.{is_lease_of}
use async_gate.Engine.Emit.{normalize_principal}
use async_gate.Engine.Tasker.{TaskRequest, request_row, assign, create_checked, create_task}
use async_gate.Principals.{is_internal_principal_id}
use async_gate.Invariant.{
  active, lease_count, HasTask, HasLeases, IsRetried, Sound, Keeps, Keeps-refl, Keeps-trans,
}
use async_gate.Invariant.Lists.{All-map, All-append, any-append, count-none}
use async_gate.Invariant.Rows.{Distinct-append, Evolves-append}
use async_gate.Invariant.Stores.{write-Keeps, Quiet-Keeps, bind-Keeps, if-Keeps}
use async_gate.Invariant.Receipts.{emit-IsQuiet}

module _ (settings : Settings) (n : ℕ) (db : Db) (t : Task) (v : Sound settings n db)
    (fresh : t.task_id ≡ n) (queued : t.status ≡ TaskStatus.queued) (first_ : t.attempt ≡ 0) where
  -- A row with a new key has no lease.
  no_lease : lease_count t.tenant_id t.task_id db.leases ≡ 0
  no_lease =
      count-none (is_lease_of t.tenant_id t.task_id) db.leases (
        All-map (HasTask db.tasks) _ db.leases (λ l h. older l db.tasks h v.fresh_tasks) v.has_task)
    where
      older :
          (l : Lease) (ts : List Task)
          → any (is_task l.tenant_id l.task_id) ts ≡ true
          → All (λ u. u.task_id < n) ts
          → is_lease_of t.tenant_id t.task_id l ≡ false
      older l [] h a = unfold any in ground arith
      older l (u ∷ us) h (a, b) = elim (Bool-cases (is_task l.tenant_id l.task_id u)) [
        | inl e ↦ ground arith
        | inr e ↦ older l us (unfold any in ground (arith, h, e)) b
      ]

  added-Sound : Sound settings (suc n) (add_task t db)
  added-Sound = record {
    one_lease =
        All-append (HasLeases db.leases) db.tasks (t ∷ []) v.one_lease
          (no_lease ∙ ap active (sym queued), tt);
    has_task =
        All-map (HasTask db.tasks) (HasTask (db.tasks ++ t ∷ [])) db.leases
          (λ l h. any-append (is_task l.tenant_id l.task_id) db.tasks (t ∷ []) h) v.has_task;
    distinct = Distinct-append db.tasks t v.distinct (
        All-map (λ u. u.task_id < n) (λ u. u.task_id ≢ t.task_id) db.tasks (λ u h. ground arith)
          v.fresh_tasks);
    distinct_leases = v.distinct_leases;
    fresh_tasks =
        All-append (λ u. u.task_id < suc n) db.tasks (t ∷ [])
          (All-map (λ u. u.task_id < n) (λ u. u.task_id < suc n) db.tasks (λ u h. omega arith)
            v.fresh_tasks)
          (omega (arith, fresh), tt);
    fresh_leases =
        All-map (λ l. l.lease_id < n) (λ l. l.lease_id < suc n) db.leases (λ l h. omega arith)
          v.fresh_leases;
    limited = v.limited;
    retried = All-append IsRetried db.tasks (t ∷ []) v.retried (inl first_, tt);
  }

found_or_raise-IsQuiet : (found : Option Task) → IsQuiet (found_or_raise found)
found_or_raise-IsQuiet none = search quiet_rules
found_or_raise-IsQuiet (some t) = search quiet_rules

fetch_existing-IsQuiet :
    (tenant_id : ℕ) (key : Option String) → IsQuiet (fetch_existing tenant_id key)
unfolding fetch_existing get_by_idempotency_key
fetch_existing-IsQuiet tenant_id none = search quiet_rules
fetch_existing-IsQuiet tenant_id (some key) = search (quiet_rules, found_or_raise-IsQuiet) depth 8

-- The insert that fails rolls the whole session back: nothing may be uncommitted before it.
create-Keeps :
    (tenant_id : ℕ) (new : NewTask) (s : Store)
    → s.committed ≡ s.db
    → Keeps s (after (Tasks.create tenant_id new s))
unfolding Tasks.create new_task
create-Keeps tenant_id new s clean =
    let s1 = record s { next_id = suc s.next_id } in
    let row = new_task s1 tenant_id s.next_id new in
    if-Keeps-from s s1 (violates row new.idempotency_key s.db.tasks)
      (rollback >> fetch_existing tenant_id new.idempotency_key) (put_db (add_task row) >> pure row)
      (Keeps-trans
        (Quiet-Keeps (record {
          steady = record { env = refl; settings = refl; clock = refl; next_id = omega arith };
          tasks = ap (λ z. z.tasks) clean;
          leases = ap (λ z. z.leases) clean;
          committed = refl;
        }))
        (Quiet-Keeps (
          (fetch_existing-IsQuiet tenant_id new.idempotency_key).at
            (record s1 { db = s.committed }))))
      (write-Keeps s (record s1 { db = add_task row s.db })
        (record { env = refl; settings = refl; clock = refl; next_id = omega arith }) refl
        (λ v. (
          added-Sound s.settings s.next_id s.db row v.sound refl refl refl,
          Evolves-append s.db.tasks (row ∷ []),
        )))
  where
    if-Keeps-from :
        (s s1 : Store) (b : Bool) (m n : M Task)
        → Keeps s (after (m s1))
        → Keeps s (after (n s1))
        → Keeps s (after ((if b then m else n) s1))
    if-Keeps-from s s1 true m n h k = h
    if-Keeps-from s s1 false m n h k = k

pub create_task-Keeps :
    (tenant_id : ℕ) (request : TaskRequest) (actor_is_internal : Bool) (s : Store)
    → s.committed ≡ s.db
    → Keeps s (after (create_task tenant_id request actor_is_internal s))
unfolding create_task create_checked
create_task-Keeps tenant_id request actor_is_internal s clean =
    let created_by = normalize_principal request.new.created_by in
    if-Keeps {A = ℕ × TaskStatus} (is_internal_principal_id created_by.id && not actor_is_internal)
      (raise unauthorized) _ s (λ e. Keeps-refl s)
      λ e.
        if-Keeps {A = ℕ × TaskStatus} (not (is_text request.new.principal_ai))
          (raise (value_error "principal_ai is required"))
          (create_checked tenant_id created_by request) s (λ k. Keeps-refl s)
          λ k.
            let row = request_row created_by request s.settings.default_priority in
            bind-Keeps {A = Task} {B = ℕ × TaskStatus} s (Tasks.create tenant_id row)
              (assign tenant_id created_by request) (create-Keeps tenant_id row s clean)
              (λ task t h.
                let quiet : IsQuiet (assign tenant_id created_by request task) =
                  search (quiet_rules, emit-IsQuiet) in
                Quiet-Keeps (quiet.at t))
