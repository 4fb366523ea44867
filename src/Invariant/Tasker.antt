-- ===== src/Invariant/Tasker.antt =====
-- The operations of those who post tasks keep the invariant (engine/core.py).
use async_gate.Prelude.{
  ℕ, ◌≡◌, refl, sym, subst, Bool, true, false, not, List, [], ◌∷◌, Option, none, some, arith, first,
  delete_where, String, if◌then◌else◌,
}
use native.Mathlib.Nat.{le_refl}
use async_gate.Models.Enums.{Outcome, TaskStatus, ReceiptType, is_terminal}
use async_gate.Models.Records.{Principal, Task, TaskResult, can_transition, task_is_terminal}
use async_gate.Store.{
  Store, M, after, ◌>>=◌, ◌>>◌, pure, gets, or_raise, attribute_error, task_not_found, raise,
  savepoint, unauthorized,
}
use async_gate.Store.Frame.{IsQuiet, quiet_rules}
use async_gate.Repositories.Tasks
use async_gate.Repositories.Tasks.{
  NewTask, is_task, find_task, change_task, with_status, new_task, violates, fetch_existing,
  found_or_raise, add_task, get_by_idempotency_key,
}
use async_gate.Repositories.Leases
use async_gate.Repositories.Leases.{is_lease_of, released, drop_leases}
use async_gate.Engine.Emit.{
  about, task_obligation, emit, emit_result_ready, normalize_principal, task_obligation_or_raise,
  resolve_obligation_owner,
}
use async_gate.Engine.Tasker.{may_cancel, cancel_body, cancel_block, cancel_found, cancel_task}
use async_gate.Invariant.{Follows, Keeps, Keeps-refl, IsKeeping}
use async_gate.Invariant.Lists.{count-delete_self, first-holds}
use async_gate.Invariant.Rows.{row_key}
use async_gate.Invariant.Stores.{Ends, savepoint-Keeps, bind-Keeps, if-Keeps, or_raise-Keeps}
use async_gate.Invariant.Release.{Follows-step, release-Settles, settled-Keeps, quiet-Ends}
use async_gate.Invariant.Receipts.{emit-IsQuiet, emit_result_ready-IsQuiet}
use async_gate.Invariant.Holding.{row-IsRetried}

-- Only terminal tasks cannot be canceled.
canceled-Follows :
    (task : Task) (result : Option TaskResult) (now : ℕ)
    → is_terminal task.status ≡ false
    → Follows task (with_status TaskStatus.canceled result none now task)
unfolding with_status
canceled-Follows task result now open_ =
    Follows-step task (with_status TaskStatus.canceled result none now task) refl refl refl refl
      (le_refl _) (cancelable task.status open_) open_
  where
    cancelable :
        (s : TaskStatus) → is_terminal s ≡ false → can_transition s TaskStatus.canceled ≡ true
    cancelable s h = unfold is_terminal can_transition in ground arith

-- What `cancel_block` does with the row that it wrote.
abbrev announce : ℕ → Principal → Principal → List ℕ → Option String → Option Task → M TaskStatus
announce tenant_id principal owner parents reason canceled = do
  task ← or_raise canceled attribute_error
  now ← gets (λ s. s.clock)
  emit tenant_id (
      about ReceiptType.task_canceled principal owner task.task_id none parents
        (cancel_body principal reason now))
  emit_result_ready tenant_id task owner parents
  pure task.status

abbrev canceled_tail : ℕ → ℕ → Principal → Principal → List ℕ → Option String → M TaskStatus
canceled_tail tenant_id task_id principal owner parents reason =
    Tasks.get tenant_id task_id >>= announce tenant_id principal owner parents reason

canceled_tail-IsQuiet :
    (tenant_id task_id : ℕ) (principal owner : Principal) (parents : List ℕ)
    (reason : Option String)
    → IsQuiet (canceled_tail tenant_id task_id principal owner parents reason)
unfolding Tasks.get
canceled_tail-IsQuiet tenant_id task_id principal owner parents reason =
    search (quiet_rules, emit-IsQuiet, emit_result_ready-IsQuiet) depth 14

abbrev canceled : Option String → ℕ → Option TaskResult
canceled reason now = some (record {
  outcome = Outcome.canceled;
  result = none;
  error = Tasks.reason_error reason;
  artifacts = none;
  completed_at = now;
})

module _ (tenant_id : ℕ) (task : Task) (principal owner : Principal) (parents : List ℕ)
    (reason : Option String) (s : Store) (found : find_task tenant_id task.task_id s.db ≡ some task)
    (open_ : is_terminal task.status ≡ false) where
  canceled_store : Store
  canceled_store = record s {
    db =
        change_task tenant_id task.task_id
          (with_status TaskStatus.canceled (canceled reason s.clock) none s.clock)
          (drop_leases (released tenant_id task.task_id none) s.db);
  }

  canceled-Keeps : Keeps s canceled_store
  unfolding change_task drop_leases canceled_store
  canceled-Keeps =
      let f = with_status TaskStatus.canceled (canceled reason s.clock) none s.clock in
      settled-Keeps s tenant_id task.task_id f
        (delete_where (is_lease_of tenant_id task.task_id) s.db.leases)
        λ v.
          release-Settles s.settings s.next_id tenant_id task.task_id f
            (is_lease_of tenant_id task.task_id) s.db task v.sound (λ u. unfold with_status in refl)
            (λ u. unfold with_status in refl) found (λ l h. h)
            (count-delete_self (is_lease_of tenant_id task.task_id) s.db.leases)
            (canceled-Follows task (canceled reason s.clock) s.clock open_)
            (unfold with_status in row-IsRetried s tenant_id task.task_id task found v)
            (unfold with_status in refl)

  cancel_block-run :
      cancel_block tenant_id task.task_id principal owner parents reason s
      ≡ canceled_tail tenant_id task.task_id principal owner parents reason canceled_store
  unfolding cancel_block Leases.release Tasks.cancel Tasks.get Tasks.update_status change_task
      drop_leases canceled_store
  cancel_block-run =
      let rest = announce tenant_id principal owner parents reason in
      let s' = record s { db = drop_leases (released tenant_id task.task_id none) s.db } in
      let done =
        canceled_tail tenant_id task.task_id principal owner parents reason canceled_store in
      subst (λ o. (Tasks.cancel_found tenant_id task.task_id reason o >>= rest) s' ≡ done)
        (sym found)
        (subst
          (λ b.
            ((if b then pure (some task) else (do
              now ← gets (λ s. s.clock)
              Tasks.update_status tenant_id task.task_id TaskStatus.canceled (canceled reason now)
                  none))
                >>= rest)
              s'
            ≡ done)
          (sym open_) refl)

  cancel_block-Ends : Ends s (cancel_block tenant_id task.task_id principal owner parents reason s)
  cancel_block-Ends = subst (Ends s) (sym cancel_block-run) (
      quiet-Ends s canceled_store
        (canceled_tail tenant_id task.task_id principal owner parents reason) canceled-Keeps
        (unfold canceled_store in refl)
        (canceled_tail-IsQuiet tenant_id task.task_id principal owner parents reason))

own_row :
    (tenant_id task_id : ℕ) (s : Store) (task : Task)
    → find_task tenant_id task_id s.db ≡ some task
    → find_task tenant_id task.task_id s.db ≡ some task
unfolding find_task
own_row tenant_id task_id s task e =
    let key =
      row_key tenant_id task_id task (first-holds (is_task tenant_id task_id) s.db.tasks task e) in
    subst (λ i. first (is_task tenant_id i) s.db.tasks ≡ some task) (sym key.1) e

cancel_found-Keeps :
    (tenant_id : ℕ) (task : Task) (principal : Principal) (reason : Option String)
    (actor_is_internal : Bool) (s : Store)
    → find_task tenant_id task.task_id s.db ≡ some task
    → Keeps s (after (cancel_found tenant_id task principal reason actor_is_internal s))
unfolding cancel_found task_obligation_or_raise
cancel_found-Keeps tenant_id task principal reason actor_is_internal s found =
    or_raise-Keeps
      (task_obligation tenant_id task.task_id (resolve_obligation_owner task.created_by) s) _ _ s
      λ obligation h.
        let block =
          cancel_block tenant_id task.task_id principal obligation.to_ (obligation.receipt_id ∷ [])
            reason in
        if-Keeps {A = Bool × TaskStatus}
          (not (may_cancel obligation.to_ principal actor_is_internal)) (raise unauthorized) _ s
          (λ e. Keeps-refl s)
          λ e.
            if-Keeps {A = Bool × TaskStatus} (task_is_terminal task) (pure (false, task.status))
              (savepoint block >>= (λ status. pure (true, status))) s (λ k. Keeps-refl s)
              λ k.
                bind-Keeps {A = TaskStatus} {B = Bool × TaskStatus} s (savepoint block)
                  (λ status. pure (true, status))
                  (savepoint-Keeps s block (
                    cancel_block-Ends tenant_id task principal obligation.to_
                      (obligation.receipt_id ∷ []) reason s found k))
                  (λ a t x. Keeps-refl t)

pub cancel_task-IsKeeping :
    (tenant_id task_id : ℕ) (principal : Principal) (reason : Option String)
    (actor_is_internal : Bool)
    → IsKeeping (cancel_task tenant_id task_id principal reason actor_is_internal)
unfolding cancel_task Tasks.get
cancel_task-IsKeeping tenant_id task_id principal reason actor_is_internal = record {
  at = λ s. or_raise-Keeps (find_task tenant_id task_id s.db) (task_not_found task_id) _ s λ task e.
      cancel_found-Keeps tenant_id task (normalize_principal principal) reason actor_is_internal s
        (own_row tenant_id task_id s task e);
}
