-- ===== src/Tests/Server.antt =====
-- A server with an empty database, a task, a worker, and the theorems on the engine at them.
use async_gate.Prelude.{
  ◌≡◌, refl, Bool, true, false, List, [], ◌∷◌, Option, none, some, String, str_eq, if◌then◌else◌,
  any, All, get_or, update_where, delete_where,
}
use async_gate.Models.Enums.{ReceiptType, TaskStatus, PrincipalKind, is_terminal}
use async_gate.Models.Json.{ℤ, Json, Fields, end}
use async_gate.Models.Records.{Principal, Task, Lease}
use async_gate.Models.Auth.{Environment}
use async_gate.Store.{
  Env, Settings, Db, Store, ReceiptGateClient, Response, lease_invalid_or_expired,
  receipt_not_yet_committed, Error, ok, err, after,
}
use async_gate.Repositories.Tasks.{NewTask, is_task, find_task, new_task, with_status}
use async_gate.Repositories.Leases.{released, list_for_worker}
use async_gate.Engine.Tasker.{TaskRequest, create_task}
use async_gate.Engine.Worker
use async_gate.Invariant.{IsValid, Sound}
use async_gate.Invariant.System.{Operation, run}
use async_gate.Invariant.Reach
use async_gate.Invariant.Settlement
use async_gate.Invariant.Completion
use async_gate.Invariant.Ownership
use async_gate.Invariant.Reconciled
use async_gate.Client.{list_custody}
use async_gate.Reconcile.{ReconciliationReport, is_owed, owed_task_ids, reconcile_worker}

abbrev pub env : Env
env = record {
  post = λ n receipt. Response.unreachable "no route to host";
  list_inbox = λ n principal. some [];
  may_buffer = λ transition. true;
  uuid_text = λ n. "uuid";
  derive_ulid = λ prefix n. "ulid";
  validate_receipt = λ d. some d;
  dumps_text = λ d. "{}";
  dumps = λ d. 123 ∷ 125 ∷ [];
  dumps_sorted = λ d. 123 ∷ 125 ∷ [];
  sha256 = λ bytes. "digest";
  parse_int = λ text. none;
  parse_time = λ text. none;
  parse_uuid = λ text. if str_eq text "tenant" then some 7 else none;
  hashpw = λ n key. key;
  checkpw = λ key hash. str_eq key hash;
  token_urlsafe = λ n. "abcdefghijklm";
  jwt_decode = λ token key algorithm. none;
  read_file = λ path. none;
}

abbrev pub settings : Settings
settings = record {
  instance_id = "asyncgate-1";
  receiptgate_integrated = false;
  receiptgate_endpoint = some "https://ledger";
  receiptgate_emission_buffer_size = 2;
  receiptgate_emission_retry_interval_seconds = 5;
  receiptgate_emission_max_retries = 3;
  default_lease_ttl_seconds = 120;
  max_lease_ttl_seconds = 1800;
  max_lease_renewals = 10;
  max_lease_lifetime_seconds = 7200;
  default_max_attempts = 2;
  default_retry_backoff_seconds = 15;
  max_retry_backoff_seconds = 900;
  default_priority = ℤ.pos 0;
  default_list_limit = 50;
  max_list_limit = 200;
  default_bootstrap_max_items = 50;
  max_bootstrap_max_items = 200;
  escalation_enabled = false;
  escalation_targets = [];
  escalation_lease_expiry_class = ℤ.pos 1;
  env = Environment.production;
  allow_insecure_dev = false;
  api_key = some "secret";
  default_tenant_id = "tenant";
  jwt_algorithm = "RS256";
  jwt_private_key_path = none;
  jwt_public_key_path = none;
}

abbrev pub empty_db : Db
empty_db = record {
  tasks = [];
  leases = [];
  receipts = [];
  progress = [];
  relationships = [];
  users = [];
  api_keys = [];
}

abbrev pub client : ReceiptGateClient
client = record {
  circuit_breaker = none;
  buffered_receipts = [];
  dropped_count = 0;
  replayed_success_count = 0;
  replayed_failure_count = 0;
  posts = [];
}

abbrev pub start : Store
start = record {
  env = env;
  settings = settings;
  clock = 1_000_000_000;
  next_id = 1;
  trace_id = none;
  jwt_key_cache = none;
  db = empty_db;
  committed = empty_db;
  client = client;
}

empty-Sound : Sound settings 1 empty_db
empty-Sound = record {
  one_lease = tt;
  has_task = tt;
  distinct = tt;
  distinct_leases = tt;
  fresh_tasks = tt;
  fresh_leases = tt;
  limited = tt;
  retried = tt;
}

start-IsValid : IsValid start
start-IsValid = record { sound = empty-Sound; committed = empty-Sound; evolves = tt }

abbrev pub agent : String → Principal
agent id = record { kind = PrincipalKind.agent; id = id; instance_id = none }

abbrev pub new : String → NewTask
new creator = record {
  type = "summarize";
  payload = end;
  created_by = agent creator;
  principal_ai = some "model";
  payload_pointer = none;
  requirements = none;
  expected_outcome_kind = none;
  expected_artifact_mime = none;
  priority = ℤ.pos 5;
  idempotency_key = some "key-1";
  max_attempts = some 3;
  retry_backoff_seconds = none;
  delay_seconds = none;
}

abbrev pub request : String → TaskRequest
request creator = record { new = new creator; priority = some (ℤ.pos 5) }

-- A task of tenant 7 is created and leased by a worker: task 1 under lease 4.
abbrev leased_ops : List Operation
leased_ops =
    Operation.create_task 7 (request "ada") false
    ∷ Operation.wait 1_000_000 none
    ∷ Operation.lease_next 7 "worker-1" none none 1 none
    ∷ []

abbrev pub leased : Store
leased = run start leased_ops

-- And the same up to its end.
abbrev ended_ops : List Operation
ended_ops =
    Operation.start_task 7 "worker-1" 1 4 ∷ Operation.complete 7 "worker-1" 1 4 end none ∷ []

abbrev ended : Store
ended = run leased ended_ops

abbrev later_ops : List Operation
later_ops =
    Operation.fail 7 "worker-1" 1 4 end true
    ∷ Operation.cancel_task 7 1 (agent "ada") none false
    ∷ Operation.expire_leases (λ i. 0) 20
    ∷ []

leased-IsValid : IsValid leased
leased-IsValid = Reach.run-IsValid start leased_ops start-IsValid

ended-IsValid : IsValid ended
ended-IsValid = Reach.run-IsValid leased ended_ops leased-IsValid

abbrev pub the_task : Store → Task
the_task s = get_or (find_task 7 1 s.db) (new_task start 7 1 (new "nobody"))

pub leased_row : find_task 7 1 leased.db ≡ some (the_task leased)
unfolding run find_task new_task
leased_row = refl

ended_row : find_task 7 1 ended.db ≡ some (the_task ended)
unfolding run find_task new_task
ended_row = refl

ended_terminal : is_terminal (the_task ended).status ≡ true
unfolding run find_task new_task is_terminal
ended_terminal = refl

run-terminal_example : find_task 7 1 (run ended later_ops).db ≡ some (the_task ended)
run-terminal_example =
    Reach.run-terminal ended later_ops 7 1 (the_task ended) ended-IsValid ended_row ended_terminal

-- The completion of the leased task.
abbrev completed : Store
completed = after (Worker.complete 7 "worker-1" 1 4 end none leased)

completed_ok : Worker.complete 7 "worker-1" 1 4 end none leased ≡ ok tt completed
unfolding run Worker.complete
completed_ok = refl

complete_once_example :
    (completed.db.tasks
      ≡ update_where
          (is_task 7 1)
          (with_status TaskStatus.succeeded
            (some (Worker.success end none leased.clock))
            none
            leased.clock)
          leased.db.tasks)
    × (completed.db.leases ≡ delete_where (released 7 1 (some 4)) leased.db.leases)
    × ((again : Fields) (more : Option Json)
        → Worker.complete 7 "worker-1" 1 4 again more completed
          ≡ err (lease_invalid_or_expired 1 4) completed)
    × ((error : Fields) (retryable : Bool)
        → Worker.fail 7 "worker-1" 1 4 error retryable completed
          ≡ err (lease_invalid_or_expired 1 4) completed)
complete_once_example =
    Completion.complete_once 7 "worker-1" 1 4 end none leased completed completed_ok

-- Two minutes later the lease has expired.
abbrev too_late : Store
too_late = run leased (Operation.wait 120_000_000 none ∷ [])

-- The same state, where the receipts of a settlement have to reach a ledger that is away.
abbrev cut_off : Store
cut_off = record leased { settings = record settings { receiptgate_integrated = true } }

abbrev unheard : Error
unheard = receipt_not_yet_committed ReceiptType.task_completed 1

abbrev given_up : Store
given_up = after (Worker.complete 7 "worker-1" 1 4 end none cut_off)

given_up_err : Worker.complete 7 "worker-1" 1 4 end none cut_off ≡ err unheard given_up
unfolding run Worker.complete
given_up_err = refl

complete_atomic_example : given_up.db ≡ cut_off.db
complete_atomic_example =
    Settlement.complete_atomic 7 "worker-1" 1 4 end none cut_off given_up unheard given_up_err

abbrev not_failed : Store
not_failed = after (Worker.fail 7 "worker-1" 1 4 end false cut_off)

not_failed_err :
    Worker.fail 7 "worker-1" 1 4 end false cut_off
    ≡ err (receipt_not_yet_committed ReceiptType.task_failed 1) not_failed
unfolding run Worker.fail
not_failed_err = refl

fail_atomic_example : not_failed.db ≡ cut_off.db
fail_atomic_example =
    Settlement.fail_atomic 7 "worker-1" 1 4 end false cut_off not_failed
      (receipt_not_yet_committed ReceiptType.task_failed 1) not_failed_err

-- The ledger lists nothing for the worker.
no_custody : list_custody "worker-1" leased ≡ some []
unfolding run list_custody
no_custody = refl

reconcile_worker-All_owed_example :
    (report : ReconciliationReport) × (t : Store) × (reconcile_worker 7 "worker-1" leased
      ≡ ok report t)
    × All (λ l. is_owed (owed_task_ids []) l.task_id ≡ true) (list_for_worker 7 "worker-1" t)
    × ((k : Lease)
        → is_owed (owed_task_ids []) k.task_id ≡ true
        → any (released k.tenant_id k.task_id (some k.lease_id)) t.db.leases
          ≡ any (released k.tenant_id k.task_id (some k.lease_id)) leased.db.leases)
reconcile_worker-All_owed_example =
    Reconciled.reconcile_worker-All_owed 7 "worker-1" [] leased no_custody
