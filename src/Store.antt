-- ===== src/Store.antt =====
-- What the operations of AsyncGate read and write (db/tables.py, config.py, the fields of the
-- clients), and how they raise: an operation returns its result and the store, or an error and what
-- it left of the store. `savepoint` is `session.begin_nested()` (engine/core.py), and
-- `transaction` is what `get_session` (db/base.py) puts around an operation.
pub mod Frame
pub mod Closed
use async_gate.Prelude.{
  ℕ, suc, Bool, true, false, List, [], ◌∷◌, Option, none, some, String, if◌then◌else◌,
}
use async_gate.Models.Enums.{TaskStatus, ReceiptType}
use async_gate.Models.Json.{ℤ, Json, Fields}
use async_gate.Models.Records.{Task, Lease, Receipt, Progress, Relationship}
use async_gate.Models.Auth.{User, ApiKey, Claims, Environment}
use async_gate.Circuit.{CircuitBreaker}

-- What a POST of a receipt to ReceiptGate comes to: a failure to connect, a failed status or an
-- unreadable answer; an error, with its code if it has a text for one; or a result.
pub data Response : Type 0 where
  unreachable : String → Response
  error : Option String → Response
  result : Fields → Response

-- Code that is not in the repository. `post` takes the number of the request.
pub record Env : Type 0 where
  pub post : ℕ → Fields → Response
  pub list_inbox : ℕ → String → Option (List (Option ℕ))
  pub may_buffer : String → Bool
  pub uuid_text : ℕ → String
  pub derive_ulid : String → ℕ → String
  pub validate_receipt : Fields → Option Fields
  pub dumps_text : Fields → String
  pub dumps : Fields → List ℕ
  pub dumps_sorted : Fields → List ℕ
  pub sha256 : List ℕ → String
  pub parse_int : String → Option ℤ
  pub parse_time : String → Option ℕ
  -- uuid.UUID, bcrypt, secrets, jose and open.
  pub parse_uuid : String → Option ℕ
  pub hashpw : ℕ → String → String
  pub checkpw : String → String → Bool
  pub token_urlsafe : ℕ → String
  pub jwt_decode : String → String → String → Option Claims
  pub read_file : String → Option String

pub record EscalationTarget : Type 0 where
  pub class_id : ℤ
  pub to_kind : String
  pub to_id : String
  pub tenant_id : Option ℕ

-- config.py: the settings that the modelled operations read.
pub record Settings : Type 0 where
  pub instance_id : String
  pub receiptgate_integrated : Bool
  pub receiptgate_endpoint : Option String
  pub receiptgate_emission_buffer_size : ℕ
  pub receiptgate_emission_retry_interval_seconds : ℕ
  pub receiptgate_emission_max_retries : ℕ
  pub default_lease_ttl_seconds : ℕ
  pub max_lease_ttl_seconds : ℕ
  pub max_lease_renewals : ℕ
  pub max_lease_lifetime_seconds : ℕ
  pub default_max_attempts : ℕ
  pub default_retry_backoff_seconds : ℕ
  pub max_retry_backoff_seconds : ℕ
  pub default_priority : ℤ
  pub default_list_limit : ℕ
  pub max_list_limit : ℕ
  pub default_bootstrap_max_items : ℕ
  pub max_bootstrap_max_items : ℕ
  pub escalation_enabled : Bool
  pub escalation_targets : List EscalationTarget
  pub escalation_lease_expiry_class : ℤ
  pub env : Environment
  pub allow_insecure_dev : Bool
  pub api_key : Option String
  pub default_tenant_id : String
  pub jwt_algorithm : String
  pub jwt_private_key_path : Option String
  pub jwt_public_key_path : Option String

-- db/tables.py and auth/models.py: a table is the list of its rows, in the order in which they were added.
pub record Db : Type 0 where
  pub tasks : List Task
  pub leases : List Lease
  pub receipts : List Receipt
  pub progress : List Progress
  pub relationships : List Relationship
  pub users : List User
  pub api_keys : List ApiKey

-- Why a receipt could not be delivered.
pub data Fault : Type 0 where
  circuit_open : Fault
  breaker_open : ℕ → Fault
  refused : String → Fault
  failed : String → Fault

pub record BufferedReceipt : Type 0 where
  pub buffer_id : ℕ
  pub receipt : Fields
  pub queued_at : ℕ
  pub next_retry_at : ℕ
  pub retry_count : ℕ
  pub last_error : Option Fault

-- The ReceiptGate client, with the receipts that it has posted, the latest first.
pub record ReceiptGateClient : Type 0 where
  pub circuit_breaker : Option CircuitBreaker
  pub buffered_receipts : List BufferedReceipt
  pub dropped_count : ℕ
  pub replayed_success_count : ℕ
  pub replayed_failure_count : ℕ
  pub posts : List Fields

-- `next_id` stands for `uuid4`, whose values are new each time. `committed` is the database as
-- `session.rollback()` finds it.
pub record Store : Type 0 where
  pub env : Env
  pub settings : Settings
  pub clock : ℕ
  pub next_id : ℕ
  pub trace_id : Option Json
  pub jwt_key_cache : Option String
  pub db : Db
  pub committed : Db
  pub client : ReceiptGateClient

pub data Error : Type 0 where
  task_not_found : ℕ → Error
  invalid_state_transition : TaskStatus → TaskStatus → Error
  lease_invalid_or_expired : ℕ → ℕ → Error
  unauthorized : Error
  lease_renewal_limit_exceeded : ℕ → ℕ → Error
  lease_lifetime_exceeded : ℕ → ℕ → Error
  receipt_not_yet_committed : ReceiptType → ℕ → Error
  receipt_unbufferable : Error
  value_error : String → Error
  integrity_error : Error
  index_error : Error
  attribute_error : Error
  custody_unreadable : Error
  multiple_results_found : Error
  type_error : Error
  key_error : String → Error
  file_not_found : Error
  unknown_tool : String → Error
  http_error : ℕ → Error
  runtime_error : Error

pub data Out (A : Type 0) : Type 0 where
  ok : A → Store → Out A
  err : Error → Store → Out A

abbrev pub M : Type 0 → Type 0
M A = Store → Out A

infixl 5 ◌>>=◌ ◌>>◌
abbrev pub ◌>>=◌ : {A B : Type 0} → M A → (A → M B) → M B
◌>>=◌ m f s = elim (m s) [ ok a s' ↦ f a s' | err e s' ↦ err e s' ]

abbrev pub ◌>>◌ : {A B : Type 0} → M A → M B → M B
m >> k = m >>= λ _. k

abbrev pub pure : {A : Type 0} → A → M A
pure a s = ok a s

abbrev pub raise : {A : Type 0} → Error → M A
raise e s = err e s

abbrev pub gets : {A : Type 0} → (Store → A) → M A
gets f s = ok (f s) s

abbrev pub modify : (Store → Store) → M Unit
modify f s = ok tt (f s)

abbrev pub when : Bool → M Unit → M Unit
when b m = if b then m else pure tt

-- The value, or the error where there is none.
abbrev pub or_raise : {A : Type 0} → Option A → Error → M A
or_raise none e = raise e
or_raise (some a) e = pure a

-- uuid4()
abbrev pub uuid4 : M ℕ
uuid4 s = ok s.next_id (record s { next_id = suc s.next_id })

abbrev pub put_db : (Db → Db) → M Unit
put_db f s = ok tt (record s { db = f s.db })

-- What is left of a block that raised: its database changes are undone, and nothing else is.
abbrev pub restore : {A : Type 0} → Db → Out A → Out A
restore db (ok a s) = ok a s
restore db (err e s) = err e (record s { db = db })

abbrev pub savepoint : {A : Type 0} → M A → M A
savepoint m s = restore s.db (m s)

-- try … except Exception: what was raised is dropped.
abbrev pub caught : {A : Type 0} → Out A → Out (Option A)
caught (ok a s) = ok (some a) s
caught (err e s) = ok none s

abbrev pub attempt : {A : Type 0} → M A → M (Option A)
attempt m s = caught (m s)

-- session.rollback() and session.commit()
abbrev pub rollback : M Unit
rollback s = ok tt (record s { db = s.committed })

abbrev pub commit : M Unit
commit s = ok tt (record s { committed = s.db })

abbrev pub settle : {A : Type 0} → Out A → Out A
settle (ok a s) = ok a (record s { committed = s.db })
settle (err e s) = err e (record s { db = s.committed })

-- A session around an operation: it commits what succeeds and rolls back what raises.
unfoldable pub transaction : {A : Type 0} → M A → M A
transaction m s = settle (m (record s { committed = s.db }))

-- The store that an operation leaves, whether it returns or raises.
abbrev pub after : {A : Type 0} → Out A → Store
after (ok a s) = s
after (err e s) = s
