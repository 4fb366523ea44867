-- ===== src/Models/Enums.antt =====
-- asyncgate/models/enums.py, with the test of equality on each enumeration and what it decides.
use async_gate.Prelude.{ℕ, Bool, true, ◌≡◌, ◌↔◌, arith, ◌==◌, List, [], ◌∷◌, any, String}

pub data TaskStatus : Type 0 where
  queued leased running succeeded failed canceled : TaskStatus

pub data Outcome : Type 0 where
  succeeded failed canceled : Outcome

pub data PrincipalKind : Type 0 where
  agent worker service system human : PrincipalKind

pub data ReceiptType : Type 0 where
  task_assigned task_accepted task_started task_completed task_failed : ReceiptType
  task_canceled task_retry_scheduled task_result_ready task_progress : ReceiptType
  lease_expired task_escalated receipt_acknowledged system_anomaly : ReceiptType

-- A number for each member: members are equal when their numbers are.
abbrev status_code : TaskStatus → ℕ
status_code TaskStatus.queued = 0
status_code TaskStatus.leased = 1
status_code TaskStatus.running = 2
status_code TaskStatus.succeeded = 3
status_code TaskStatus.failed = 4
status_code TaskStatus.canceled = 5

abbrev pub status_eq : TaskStatus → TaskStatus → Bool
status_eq a b = status_code a == status_code b

abbrev kind_code : PrincipalKind → ℕ
kind_code PrincipalKind.agent = 0
kind_code PrincipalKind.worker = 1
kind_code PrincipalKind.service = 2
kind_code PrincipalKind.system = 3
kind_code PrincipalKind.human = 4

abbrev pub kind_eq : PrincipalKind → PrincipalKind → Bool
kind_eq a b = kind_code a == kind_code b

abbrev type_code : ReceiptType → ℕ
type_code ReceiptType.task_assigned = 0
type_code ReceiptType.task_accepted = 1
type_code ReceiptType.task_started = 2
type_code ReceiptType.task_completed = 3
type_code ReceiptType.task_failed = 4
type_code ReceiptType.task_canceled = 5
type_code ReceiptType.task_retry_scheduled = 6
type_code ReceiptType.task_result_ready = 7
type_code ReceiptType.task_progress = 8
type_code ReceiptType.lease_expired = 9
type_code ReceiptType.task_escalated = 10
type_code ReceiptType.receipt_acknowledged = 11
type_code ReceiptType.system_anomaly = 12

abbrev pub type_eq : ReceiptType → ReceiptType → Bool
type_eq a b = type_code a == type_code b

abbrev pub type_in : ReceiptType → List ReceiptType → Bool
type_in t ts = any (λ u. type_eq u t) ts

-- The text that each member stands for.
abbrev pub status_value : TaskStatus → String
status_value TaskStatus.queued = "queued"
status_value TaskStatus.leased = "leased"
status_value TaskStatus.running = "running"
status_value TaskStatus.succeeded = "succeeded"
status_value TaskStatus.failed = "failed"
status_value TaskStatus.canceled = "canceled"

abbrev pub kind_value : PrincipalKind → String
kind_value PrincipalKind.agent = "agent"
kind_value PrincipalKind.worker = "worker"
kind_value PrincipalKind.service = "service"
kind_value PrincipalKind.system = "system"
kind_value PrincipalKind.human = "human"

abbrev pub type_value : ReceiptType → String
type_value ReceiptType.task_assigned = "task.assigned"
type_value ReceiptType.task_accepted = "task.accepted"
type_value ReceiptType.task_started = "task.started"
type_value ReceiptType.task_completed = "task.completed"
type_value ReceiptType.task_failed = "task.failed"
type_value ReceiptType.task_canceled = "task.canceled"
type_value ReceiptType.task_retry_scheduled = "task.retry_scheduled"
type_value ReceiptType.task_result_ready = "task.result_ready"
type_value ReceiptType.task_progress = "task.progress"
type_value ReceiptType.lease_expired = "lease.expired"
type_value ReceiptType.task_escalated = "task.escalated"
type_value ReceiptType.receipt_acknowledged = "receipt.acknowledged"
type_value ReceiptType.system_anomaly = "system.anomaly"

unfoldable pub is_terminal : TaskStatus → Bool
is_terminal s =
    any (λ t. status_eq t s) (TaskStatus.succeeded ∷ TaskStatus.failed ∷ TaskStatus.canceled ∷ [])

pub status_eq_iff : (a b : TaskStatus) → (status_eq a b ≡ true) ↔ (a ≡ b)
status_eq_iff a b = ground arith

pub kind_eq_iff : (a b : PrincipalKind) → (kind_eq a b ≡ true) ↔ (a ≡ b)
kind_eq_iff a b = ground arith

pub type_eq_iff : (a b : ReceiptType) → (type_eq a b ≡ true) ↔ (a ≡ b)
type_eq_iff a b = ground arith
