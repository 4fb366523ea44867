-- ===== src/Models/Records.antt =====
-- asyncgate/models/{principal,task,lease,receipt,progress,relationship}.py. Identifiers (UUIDs) are
-- numbers, and times are microseconds.
use async_gate.Prelude.{ℕ, Bool, List, [], ◌∷◌, Option, String, leb, any}
use async_gate.Models.Enums.{
  TaskStatus, Outcome, PrincipalKind, ReceiptType, status_eq, is_terminal,
}
use async_gate.Models.Json.{ℤ, Json, Fields}

pub record Principal : Type 0 where
  pub kind : PrincipalKind
  pub id : String
  pub instance_id : Option String

pub record TaskRequirements : Type 0 where
  pub capabilities : List String
  pub tags : List String

pub record TaskResult : Type 0 where
  pub outcome : Outcome
  pub result : Option Fields
  pub error : Option Fields
  pub artifacts : Option Json
  pub completed_at : ℕ

pub record Task : Type 0 where
  pub task_id : ℕ
  pub tenant_id : ℕ
  pub type : String
  pub payload : Fields
  pub payload_pointer : Option String
  pub created_by : Principal
  pub principal_ai : String
  pub requirements : TaskRequirements
  pub priority : ℤ
  pub status : TaskStatus
  pub attempt : ℕ
  pub max_attempts : ℕ
  pub retry_backoff_seconds : ℕ
  pub idempotency_key : Option String
  pub created_at : ℕ
  pub updated_at : ℕ
  pub next_eligible_at : Option ℕ
  pub started_at : Option ℕ
  pub result : Option TaskResult
  pub expected_outcome_kind : Option String
  pub expected_artifact_mime : Option String
  pub asyncgate_instance : String

-- The transition table of `can_transition_to`.
abbrev pub valid_transitions : TaskStatus → List TaskStatus
valid_transitions TaskStatus.queued = TaskStatus.leased ∷ TaskStatus.canceled ∷ []
valid_transitions TaskStatus.leased =
    TaskStatus.running ∷ TaskStatus.succeeded ∷ TaskStatus.failed ∷ TaskStatus.canceled
    ∷ TaskStatus.queued ∷ []
valid_transitions TaskStatus.running =
    TaskStatus.succeeded ∷ TaskStatus.failed ∷ TaskStatus.canceled ∷ TaskStatus.queued ∷ []
valid_transitions TaskStatus.failed = TaskStatus.queued ∷ []
valid_transitions TaskStatus.succeeded = []
valid_transitions TaskStatus.canceled = []

unfoldable pub can_transition : TaskStatus → TaskStatus → Bool
unfolding any
can_transition status new_status = any (λ s. status_eq s new_status) (valid_transitions status)

abbrev pub can_transition_to : Task → TaskStatus → Bool
can_transition_to task new_status = can_transition task.status new_status

abbrev pub task_is_terminal : Task → Bool
task_is_terminal task = is_terminal task.status

pub record Lease : Type 0 where
  pub lease_id : ℕ
  pub tenant_id : ℕ
  pub task_id : ℕ
  pub worker_id : String
  pub expires_at : ℕ
  pub created_at : ℕ
  pub acquired_at : ℕ
  pub renewal_count : ℕ

unfoldable pub is_expired : Lease → ℕ → Bool
is_expired lease now = leb lease.expires_at now

pub record Receipt : Type 0 where
  pub receipt_id : ℕ
  pub tenant_id : ℕ
  pub receipt_type : ReceiptType
  pub created_at : ℕ
  pub from_ : Principal
  pub to_ : Principal
  pub task_id : Option ℕ
  pub lease_id : Option ℕ
  pub schedule_id : Option String
  pub parents : List ℕ
  pub body : Fields
  pub hash : Option String
  pub asyncgate_instance : String
  pub delivered_at : Option ℕ

pub record Progress : Type 0 where
  pub tenant_id : ℕ
  pub task_id : ℕ
  pub progress : Fields
  pub updated_at : ℕ

pub record Relationship : Type 0 where
  pub tenant_id : ℕ
  pub principal_kind : PrincipalKind
  pub principal_id : String
  pub principal_instance_id : Option String
  pub first_seen_at : ℕ
  pub last_seen_at : ℕ
  pub sessions_count : ℕ
