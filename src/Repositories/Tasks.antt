-- ===== src/Repositories/Tasks.antt =====
-- TaskRepository of asyncgate/db/repositories.py
use async_gate.Prelude.{
  ℕ, zero, suc, ◌+◌, ◌*◌, ◌^◌, min, Bool, true, false, ◌&&◌, ◌||◌, Option, none, some, List, [],
  ◌∷◌, ◌++◌, String, str_eq, str_append, ◌==◌, ltb, leb, if◌then◌else◌, count_or, text_or, is_text,
  text_in, length, take, last?, first, any, select, order_by, update_where, count,
}
use async_gate.Models.Enums.{TaskStatus, Outcome, status_eq}
use async_gate.Models.Json.{ℤ, Json, Fields, end, field}
use async_gate.Models.Records.{Principal, TaskRequirements, TaskResult, Task, task_is_terminal}
use async_gate.Principals.{principal_id_variants}
use async_gate.Store.{
  Store, Db, integrity_error, M, ◌>>=◌, ◌>>◌, pure, raise, gets, put_db, uuid4, rollback,
}

-- Microseconds in a second: the sources add `timedelta(seconds=…)` to times.
abbrev pub second : ℕ
second = 1_000_000

abbrev pub is_task : ℕ → ℕ → Task → Bool
is_task tenant_id task_id t = t.tenant_id == tenant_id && t.task_id == task_id

-- The arguments of `create`.
pub record NewTask : Type 0 where
  pub type : String
  pub payload : Fields
  pub created_by : Principal
  pub principal_ai : Option String
  pub payload_pointer : Option String
  pub requirements : Option TaskRequirements
  pub expected_outcome_kind : Option String
  pub expected_artifact_mime : Option String
  pub priority : ℤ
  pub idempotency_key : Option String
  pub max_attempts : Option ℕ
  pub retry_backoff_seconds : Option ℕ
  pub delay_seconds : Option ℕ

abbrev delayed : ℕ → Option ℕ → Option ℕ
delayed now none = none
delayed now (some d) = if d == 0 then none else some (now + d * second)

abbrev no_requirements : TaskRequirements
no_requirements = record { capabilities = []; tags = [] }

abbrev or_no_requirements : Option TaskRequirements → TaskRequirements
or_no_requirements none = no_requirements
or_no_requirements (some r) = r

-- The row that `create` adds.
unfoldable pub new_task : Store → ℕ → ℕ → NewTask → Task
new_task s tenant_id task_id new = record {
  task_id = task_id;
  tenant_id = tenant_id;
  type = new.type;
  payload = new.payload;
  payload_pointer =
      some (text_or new.payload_pointer (str_append "inline://task/" (s.env.uuid_text task_id)));
  created_by = new.created_by;
  principal_ai = text_or new.principal_ai (text_or new.created_by.instance_id new.created_by.id);
  requirements = or_no_requirements new.requirements;
  priority = new.priority;
  status = TaskStatus.queued;
  attempt = 0;
  max_attempts = count_or new.max_attempts s.settings.default_max_attempts;
  retry_backoff_seconds =
      count_or new.retry_backoff_seconds s.settings.default_retry_backoff_seconds;
  idempotency_key = new.idempotency_key;
  created_at = s.clock;
  updated_at = s.clock;
  next_eligible_at = delayed s.clock new.delay_seconds;
  started_at = none;
  result = none;
  expected_outcome_kind = new.expected_outcome_kind;
  expected_artifact_mime = new.expected_artifact_mime;
  asyncgate_instance = s.settings.instance_id;
}

abbrev has_key : Option String → String → Bool
has_key none key = false
has_key (some k) key = str_eq k key

-- The rows of a tenant that hold the key.
abbrev pub holds_key : ℕ → String → Task → Bool
holds_key tenant_id key t = t.tenant_id == tenant_id && has_key t.idempotency_key key

-- The unique constraints of the table: the primary key, and the tenant with the idempotency key.
unfoldable pub violates : Task → Option String → List Task → Bool
unfolding any
violates row none ts = any (is_task row.tenant_id row.task_id) ts
violates row (some key) ts =
    any (is_task row.tenant_id row.task_id) ts || any (holds_key row.tenant_id key) ts

unfoldable pub get_by_idempotency_key : ℕ → String → M (Option Task)
unfolding first
get_by_idempotency_key tenant_id key = gets λ s. first (holds_key tenant_id key) s.db.tasks

abbrev pub found_or_raise : Option Task → M Task
found_or_raise none = raise integrity_error
found_or_raise (some t) = pure t

-- After the failed insert: the existing task, if there is a key and it has one.
unfoldable pub fetch_existing : ℕ → Option String → M Task
unfolding get_by_idempotency_key
fetch_existing tenant_id none = raise integrity_error
fetch_existing tenant_id (some key) =
    if is_text (some key)
    then (do existing ← get_by_idempotency_key tenant_id key; found_or_raise existing)
    else raise integrity_error

abbrev pub add_task : Task → Db → Db
add_task row db = record db { tasks = db.tasks ++ row ∷ [] }

unfoldable pub create : ℕ → NewTask → M Task
unfolding new_task violates fetch_existing
create tenant_id new = do
  task_id ← uuid4
  row ← gets (λ s. new_task s tenant_id task_id new)
  refused ← gets (λ s. violates row new.idempotency_key s.db.tasks)
  if refused
      then (do rollback; fetch_existing tenant_id new.idempotency_key)
      else (do put_db (add_task row); pure row)

unfoldable pub find_task : ℕ → ℕ → Db → Option Task
unfolding first
find_task tenant_id task_id db = first (is_task tenant_id task_id) db.tasks

unfoldable pub get : ℕ → ℕ → M (Option Task)
unfolding find_task
get tenant_id task_id = gets λ s. find_task tenant_id task_id s.db

-- list: the tenant's tasks that pass the filters, the latest first, a page of them.
pub record TaskFilter : Type 0 where
  pub status : Option TaskStatus
  pub type : Option String
  pub created_by_id : Option String
  pub cursor : Option ℕ

abbrev passes_status : Option TaskStatus → Task → Bool
passes_status none t = true
passes_status (some s) t = status_eq t.status s

abbrev passes_type : Option String → Task → Bool
passes_type none t = true
passes_type (some ty) t = if str_eq ty "" then true else str_eq t.type ty

abbrev passes_creator : Option String → Task → Bool
passes_creator none t = true
passes_creator (some id) t =
    if str_eq id "" then true else text_in t.created_by.id (principal_id_variants id)

abbrev passes_cursor : Option ℕ → Task → Bool
passes_cursor none t = true
passes_cursor (some before) t = ltb t.created_at before

unfoldable pub matches : ℕ → TaskFilter → Task → Bool
matches tenant_id f t =
    t.tenant_id == tenant_id
    && passes_status f.status t
    && passes_type f.type t
    && passes_creator f.created_by_id t
    && passes_cursor f.cursor t

abbrev pub newer_first : Task → Task → Bool
newer_first x y = leb y.created_at x.created_at

abbrev last_created : List Task → Option ℕ
last_created ts = elim (last? ts) [ none ↦ none | some t ↦ some t.created_at ]

unfoldable pub list : ℕ → TaskFilter → ℕ → Store → List Task × Option ℕ
unfolding matches order_by select
list tenant_id f limit s =
    let rows = take (limit + 1) (order_by newer_first (select (matches tenant_id f) s.db.tasks)) in
    if ltb limit (length rows)
    then (take limit rows, last_created (take limit rows))
    else (rows, none)

abbrev or_keep {ℓ} : {A : Type ℓ} → Option A → Option A → Option A
or_keep none old = old
or_keep (some new) old = some new

unfoldable pub with_status : TaskStatus → Option TaskResult → Option ℕ → ℕ → Task → Task
with_status new_status result started_at now t = record t {
  status = new_status;
  updated_at = now;
  result = or_keep result t.result;
  started_at = or_keep started_at t.started_at;
}

-- UPDATE tasks … WHERE the key
unfoldable pub change_task : ℕ → ℕ → (Task → Task) → Db → Db
unfolding update_where
change_task tenant_id task_id f db = record db {
  tasks = update_where (is_task tenant_id task_id) f db.tasks;
}

unfoldable pub update_status : ℕ → ℕ → TaskStatus → Option TaskResult → Option ℕ → M (Option Task)
unfolding with_status change_task get
update_status tenant_id task_id new_status result started_at = do
  now ← gets (λ s. s.clock)
  put_db (change_task tenant_id task_id (with_status new_status result started_at now))
  get tenant_id task_id

abbrev pub reason_error : Option String → Option Fields
reason_error none = none
reason_error (some r) = if str_eq r "" then none else some (field "reason" (Json.str r) end)

abbrev pub cancel_found : ℕ → ℕ → Option String → Option Task → M (Option Task)
cancel_found tenant_id task_id reason none = pure none
cancel_found tenant_id task_id reason (some task) =
    if task_is_terminal task then pure (some task) else do
      now ← gets (λ s. s.clock)
      update_status tenant_id task_id TaskStatus.canceled
          (some (record {
            outcome = Outcome.canceled;
            result = none;
            error = reason_error reason;
            artifacts = none;
            completed_at = now;
          }))
          none

unfoldable pub cancel : ℕ → ℕ → Option String → M (Option Task)
unfolding get update_status
cancel tenant_id task_id reason = do
  task ← get tenant_id task_id
  cancel_found tenant_id task_id reason task

-- base * 2^(attempt - 1), in microseconds: for attempt 0 the power is a half.
abbrev pub raw_backoff : ℕ → ℕ → ℕ
raw_backoff base zero = base * 500_000
raw_backoff base (suc n) = base * 2 ^ n * second

unfoldable pub backoff : ℕ → ℕ → ℕ → ℕ
backoff base attempt max_backoff = min (raw_backoff base attempt) (max_backoff * second)

unfoldable pub requeued : ℕ → ℕ → ℕ → Task → Task
requeued attempt next_eligible_at now t = record t {
  status = TaskStatus.queued;
  attempt = attempt;
  next_eligible_at = some next_eligible_at;
  updated_at = now;
  started_at = none;
}

abbrev pub requeue_backoff_found : ℕ → ℕ → Bool → Option Task → M (Option Task)
requeue_backoff_found tenant_id task_id increment_attempt none = pure none
requeue_backoff_found tenant_id task_id increment_attempt (some task) = do
  let attempt = if increment_attempt then task.attempt + 1 else task.attempt
  now ← gets (λ s. s.clock)
  delay ←
      gets (λ s. backoff task.retry_backoff_seconds attempt s.settings.max_retry_backoff_seconds)
  put_db (change_task tenant_id task_id (requeued attempt (now + delay) now))
  get tenant_id task_id

unfoldable pub requeue_with_backoff : ℕ → ℕ → Bool → M (Option Task)
unfolding get backoff requeued change_task
requeue_with_backoff tenant_id task_id increment_attempt = do
  task ← get tenant_id task_id
  requeue_backoff_found tenant_id task_id increment_attempt task

abbrev pub requeue_expiry_found : ℕ → ℕ → ℕ → Option Task → M (Option Task)
requeue_expiry_found tenant_id task_id jitter none = pure none
requeue_expiry_found tenant_id task_id jitter (some task) = do
  now ← gets (λ s. s.clock)
  put_db (change_task tenant_id task_id (requeued task.attempt (now + jitter) now))
  get tenant_id task_id

-- The jitter is in microseconds.
unfoldable pub requeue_on_expiry : ℕ → ℕ → ℕ → M (Option Task)
unfolding get requeued change_task
requeue_on_expiry tenant_id task_id jitter = do
  task ← get tenant_id task_id
  requeue_expiry_found tenant_id task_id jitter task

unfoldable pub count_by_status : ℕ → TaskStatus → Store → ℕ
unfolding count
count_by_status tenant_id status s =
    count (λ t. t.tenant_id == tenant_id && status_eq t.status status) s.db.tasks
