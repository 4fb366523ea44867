-- ===== src/Engine/Sweep.antt =====
-- engine/core.py: `expire_leases`, which tasks/sweep.py calls in its loop, and the escalation of an
-- expired lease. The random delays are an argument, by the position of the lease.
use async_gate.Prelude.{
  ℕ, suc, ◌%◌, true, false, Option, none, some, List, [], ◌∷◌, String, str_eq, ◌==◌, if◌then◌else◌,
  first, get_or,
}
use async_gate.Models.Enums.{PrincipalKind, ReceiptType}
use async_gate.Models.Json.{ℤ, Json, get, int_eq}
use async_gate.Models.Records.{Principal, Task, Lease, Receipt, task_is_terminal}
use async_gate.Models.ReceiptBody
use async_gate.Principals.{normalize_external}
use async_gate.Store.{
  Env, EscalationTarget, Settings, Store, value_error, M, ◌>>=◌, ◌>>◌, pure, raise, gets, savepoint,
  attempt, commit, when,
}
use async_gate.Repositories.Tasks
use async_gate.Repositories.Leases
use async_gate.Engine.Emit.{
  service_principal, worker_principal, resolve_obligation_owner, task_obligation, owner_or,
  parents_of, emit, about,
}

-- PrincipalKind(value)
abbrev parse_kind : String → Option PrincipalKind
parse_kind k =
    if str_eq k "agent"
    then some PrincipalKind.agent
    else if str_eq k "worker"
    then some PrincipalKind.worker
    else if str_eq k "service"
    then some PrincipalKind.service
    else if str_eq k "system"
    then some PrincipalKind.system
    else if str_eq k "human"
    then some PrincipalKind.human
    else none

unfoldable pub get_escalation_target : Settings → ℤ → Option EscalationTarget
unfolding first
get_escalation_target settings class_id =
    first (λ t. int_eq t.class_id class_id) settings.escalation_targets

abbrev parse_or : Option ℤ → ℤ → ℤ
parse_or none d = d
parse_or (some n) d = n

abbrev class_of_value : Env → Option Json → ℤ → ℤ
class_of_value env (some (Json.int n)) d = n
class_of_value env (some (Json.bool true)) d = ℤ.pos 1
class_of_value env (some (Json.bool false)) d = ℤ.pos 0
class_of_value env (some (Json.str s)) d = parse_or (env.parse_int s) d
class_of_value env _ d = d

-- The class that the task's payload asks for, if it is a number or reads as one.
unfoldable pub escalation_class : Store → Task → ℤ
unfolding get
escalation_class s task =
    class_of_value s.env (get "escalation_class" task.payload)
      s.settings.escalation_lease_expiry_class

-- Where an escalation goes: the tenant, the principal and the text that the body names.
pub record Destination : Type 0 where
  pub tenant_id : ℕ
  pub principal : Principal
  pub escalation_to : String

abbrev pub known_target : EscalationTarget → ℕ → Option PrincipalKind → M Destination
known_target target tenant_id none = raise (value_error "unknown principal kind")
known_target target tenant_id (some kind) = pure (record {
  tenant_id = get_or target.tenant_id tenant_id;
  principal = record { kind = kind; id = normalize_external target.to_id; instance_id = none };
  escalation_to = target.to_id;
})

abbrev pub destination : ℕ → Task → Option Receipt → Option EscalationTarget → M Destination
destination tenant_id task obligation none =
    let fallback = owner_or obligation task.created_by in
    pure (record { tenant_id = tenant_id; principal = fallback; escalation_to = fallback.id })
destination tenant_id task obligation (some target) =
    known_target target tenant_id (parse_kind target.to_kind)

-- `_emit_escalation_receipt`, with the arguments of its one caller.
unfoldable pub emit_escalation : ℕ → Task → ℤ → Option Receipt → Lease → M Unit
unfolding get_escalation_target normalize_external emit ReceiptBody.task_escalated
emit_escalation tenant_id task class obligation lease = do
  enabled ← gets (λ s. s.settings.escalation_enabled)
  when enabled do
    target ← gets (λ s. get_escalation_target s.settings class)
    to ← destination tenant_id task obligation target
    emit to.tenant_id (
        about ReceiptType.task_escalated (worker_principal lease.worker_id) to.principal
          task.task_id (some lease.lease_id) (parents_of obligation)
          (ReceiptBody.task_escalated "policy" "lease_expired" to.escalation_to
            task.expected_outcome_kind task.expected_artifact_mime))
    pure tt

-- The receipts of an expiry, which come after the rows.
unfoldable pub expiry_receipts : Lease → Task → Option Receipt → M Unit
unfolding emit ReceiptBody.lease_expired escalation_class emit_escalation
expiry_receipts lease task obligation = do
  emit lease.tenant_id (
      about ReceiptType.lease_expired service_principal
        (owner_or obligation (resolve_obligation_owner task.created_by)) task.task_id
        (some lease.lease_id) (parents_of obligation)
        (ReceiptBody.lease_expired task.task_id lease.worker_id task.attempt true))
  class ← gets (λ s. escalation_class s task)
  emit_escalation lease.tenant_id task class obligation lease

-- The atomic block for one lease.
unfoldable pub expire_block : Lease → Task → Option Receipt → ℕ → M Unit
unfolding Tasks.requeue_on_expiry Leases.release expiry_receipts
expire_block lease task obligation jitter = do
  Tasks.requeue_on_expiry lease.tenant_id lease.task_id jitter
  Leases.release lease.tenant_id lease.task_id (some lease.lease_id)
  expiry_receipts lease task obligation

abbrev pub due_commit : ℕ → ℕ → M Unit
due_commit count batch_size = when (count % batch_size == 0) commit

-- What the block came to: one more expired lease, and a commit where a batch is full; or nothing.
abbrev pub expired_or_not : ℕ → ℕ → Option (Unit {0}) → M ℕ
expired_or_not count batch_size none = pure count
expired_or_not count batch_size (some done) = do due_commit (suc count) batch_size; pure (suc count)

abbrev pub expire_found : Lease → ℕ → ℕ → ℕ → Option Task → M ℕ
expire_found lease jitter batch_size count none = pure count
expire_found lease jitter batch_size count (some task) =
    if task_is_terminal task then pure count else do
      obligation ← gets λ s.
          task_obligation lease.tenant_id lease.task_id (resolve_obligation_owner task.created_by) s
      expired ← attempt (savepoint (expire_block lease task obligation jitter))
      expired_or_not count batch_size expired

-- One round of the loop, with the count of expired leases.
unfoldable pub expire_one : Lease → ℕ → ℕ → ℕ → M ℕ
unfolding Tasks.get task_obligation resolve_obligation_owner expire_block
expire_one lease jitter batch_size count = do
  task ← Tasks.get lease.tenant_id lease.task_id
  expire_found lease jitter batch_size count task

unfoldable pub expire_all : (ℕ → ℕ) → ℕ → ℕ → ℕ → List Lease → M ℕ
unfolding expire_one
expire_all jitter batch_size position count [] = pure count
expire_all jitter batch_size position count (l ∷ ls) = do
  count' ← expire_one l (jitter position) batch_size count
  expire_all jitter batch_size (suc position) count' ls

unfoldable pub expire_leases : (ℕ → ℕ) → ℕ → M ℕ
unfolding Leases.get_expired expire_all
expire_leases jitter batch_size = do
  leases ← gets (λ s. Leases.get_expired 100 s.settings.instance_id s)
  expire_all jitter batch_size 0 0 leases
