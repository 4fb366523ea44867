-- ===== src/Invariant/Completion.antt =====
-- What a completion leaves (engine/core.py `complete`).
use async_gate.Prelude.{
  ℕ, ◌≡◌, refl, sym, ap, subst, ◌∙◌, Bool, true, List, [], ◌∷◌, Option, none, some, arith, String,
  first, delete_where, update_where,
}
use async_gate.Models.Json.{Json, Fields}
use async_gate.Models.Records.{Principal, Lease}
use async_gate.Store.{
  Store, Error, lease_invalid_or_expired, M, Out, ok, err, after, savepoint, restore, ◌>>=◌,
}
use async_gate.Store.Frame.{Quiet, bind-ok}
use async_gate.Repositories.Leases
use async_gate.Repositories.Leases.{is_lease_of, is_valid_at, find_valid, released, drop_leases}
use async_gate.Repositories.Tasks
use async_gate.Repositories.Tasks.{is_task, with_status, change_task}
use async_gate.Invariant.Holding.{check_transition-IsReader, holding-IsReader}
use async_gate.Invariant.Worker.{complete_check-IsReader, complete_receipts-IsQuiet}
use async_gate.Models.Enums.{TaskStatus}
use async_gate.Engine.Worker.{
  check_transition, complete_receipts, holding, complete_check, complete_block, complete_commit,
  complete, fail_check, fail, success,
}
use async_gate.Invariant.Settlement.{holding_stale}

-- The rows after a completion.
complete-rows :
    (tenant_id : ℕ) (worker_id : String) (task_id lease_id : ℕ) (result : Fields)
    (artifacts : Option Json) (owner : Principal) (parents : List ℕ) (s t : Store)
    → complete_block tenant_id worker_id task_id lease_id result artifacts owner parents s ≡ ok tt t
    → (t.db.tasks
        ≡ update_where
            (is_task tenant_id task_id)
            (with_status TaskStatus.succeeded
              (some (success result artifacts s.clock))
              none
              s.clock)
            s.db.tasks)
      × (t.db.leases ≡ delete_where (released tenant_id task_id (some lease_id)) s.db.leases)
      × (t.clock ≡ s.clock)
unfolding complete_block Tasks.update_status Tasks.get Leases.release change_task drop_leases
complete-rows tenant_id worker_id task_id lease_id result artifacts owner parents s t h =
    let (task, s1, held, rest) =
      bind-ok (holding tenant_id worker_id task_id lease_id) _ s t tt h in
    let same : s1 ≡ s =
      sym (ap after held) ∙ (holding-IsReader tenant_id worker_id task_id lease_id).at s in
    let (u, s2, allowed, receipts) =
      bind-ok (check_transition task TaskStatus.succeeded) _ s1 t tt rest in
    let same2 : s2 ≡ s =
      sym (ap after allowed) ∙ (check_transition-IsReader task TaskStatus.succeeded).at s1 ∙ same in
    written s2 receipts same2
  where
    written :
        (z : Store)
        → complete_receipts tenant_id worker_id task_id lease_id result artifacts owner parents
            (record z {
              db = drop_leases (released tenant_id task_id (some lease_id)) (
                  change_task tenant_id task_id
                    (with_status TaskStatus.succeeded
                      (some (success result artifacts z.clock))
                      none
                      z.clock)
                    z.db);
            })
          ≡ ok tt t
        → z ≡ s
        → (t.db.tasks
            ≡ update_where
                (is_task tenant_id task_id)
                (with_status TaskStatus.succeeded
                  (some (success result artifacts s.clock))
                  none
                  s.clock)
                s.db.tasks)
          × (t.db.leases ≡ delete_where (released tenant_id task_id (some lease_id)) s.db.leases)
          × (t.clock ≡ s.clock)
    written z k same =
        let rows = record z {
          db = drop_leases (released tenant_id task_id (some lease_id)) (
              change_task tenant_id task_id
                (with_status TaskStatus.succeeded (some (success result artifacts z.clock)) none
                  z.clock)
                z.db);
        } in
        let quiet =
          subst (λ o. Quiet rows (after o)) k
            ((complete_receipts-IsQuiet tenant_id worker_id task_id lease_id result artifacts owner
                parents).at
              rows) in
        (cc (quiet.tasks, same), cc (quiet.leases, same), cc (quiet.clock, same))

first-deleted :
    (p q : Lease → Bool) (ls : List Lease)
    → ((l : Lease) → p l ≡ true → q l ≡ true)
    → first p (delete_where q ls) ≡ none
unfolding first delete_where
first-deleted p q [] h = refl
first-deleted p q (l ∷ ls) h = ground (arith, h l, first-deleted p q ls h)

module _ {A B : Type 0} where
  raises_bind :
      (m : M A) (f : A → M B) (s : Store) (e : Error) → m s ≡ err e s → (m >>= f) s ≡ err e s
  raises_bind m f s e h =
      subst (λ o. elim o [ ok a t ↦ f a t | err x t ↦ err x t ] ≡ err e s) (sym h) refl

-- A completion that returns has made the task succeeded with the result, has deleted the lease, and
-- has left every other row of the tasks and the leases as it was; and the lease is good for nothing
-- more: a second `complete` and a `fail` with it raise and change nothing.
pub complete_once :
    (tenant_id : ℕ) (worker_id : String) (task_id lease_id : ℕ) (result : Fields)
    (artifacts : Option Json) (s t : Store)
    → complete tenant_id worker_id task_id lease_id result artifacts s ≡ ok tt t
    → (t.db.tasks
        ≡ update_where
            (is_task tenant_id task_id)
            (with_status TaskStatus.succeeded
              (some (success result artifacts s.clock))
              none
              s.clock)
            s.db.tasks)
      × (t.db.leases ≡ delete_where (released tenant_id task_id (some lease_id)) s.db.leases)
      × ((again : Fields) (more : Option Json)
          → complete tenant_id worker_id task_id lease_id again more t
            ≡ err (lease_invalid_or_expired task_id lease_id) t)
      × ((error : Fields) (retryable : Bool)
          → fail tenant_id worker_id task_id lease_id error retryable t
            ≡ err (lease_invalid_or_expired task_id lease_id) t)
unfolding complete complete_commit complete_check fail fail_check find_valid
complete_once tenant_id worker_id task_id lease_id result artifacts s t h =
    let (obligation, s1, checked, ended) =
      bind-ok (complete_check tenant_id worker_id task_id lease_id) _ s t tt h in
    let same : s1 ≡ s =
      sym (ap after checked)
      ∙ (complete_check-IsReader tenant_id worker_id task_id lease_id).at s in
    let block =
      complete_block tenant_id worker_id task_id lease_id result artifacts obligation.to_
        (obligation.receipt_id ∷ []) in
    let rows =
      complete-rows tenant_id worker_id task_id lease_id result artifacts obligation.to_
        (obligation.receipt_id ∷ []) s1 t (returned block s1 t ended) in
    let none_left : find_valid tenant_id task_id lease_id worker_id t ≡ none =
      ap (first (is_valid_at t.clock tenant_id task_id lease_id worker_id)) rows.1
      ∙ first-deleted (is_valid_at t.clock tenant_id task_id lease_id worker_id)
          (released tenant_id task_id (some lease_id)) s1.db.leases (λ l k. ground arith) in
    let stale = holding_stale tenant_id worker_id task_id lease_id t none_left in
    (
      cc (rows.0, same),
      cc (rows.1, same),
      (λ again more. twice again more stale),
      (λ error retryable. failing error retryable stale),
    )
  where
    returned : (m : M Unit) (s u : Store) → savepoint m s ≡ ok tt u → m s ≡ ok tt u
    returned m s u k = go (m s) k
      where
        go : (o : Out Unit) → restore s.db o ≡ ok tt u → o ≡ ok tt u
        go (ok a w) k = k
        go (err x w) k = ground (arith, k)

    twice :
        (again : Fields) (more : Option Json)
        → holding tenant_id worker_id task_id lease_id t
          ≡ err (lease_invalid_or_expired task_id lease_id) t
        → complete tenant_id worker_id task_id lease_id again more t
          ≡ err (lease_invalid_or_expired task_id lease_id) t
    twice again more stale =
        raises_bind (complete_check tenant_id worker_id task_id lease_id) _ t _
          (raises_bind (holding tenant_id worker_id task_id lease_id) _ t _ stale)

    failing :
        (error : Fields) (retryable : Bool)
        → holding tenant_id worker_id task_id lease_id t
          ≡ err (lease_invalid_or_expired task_id lease_id) t
        → fail tenant_id worker_id task_id lease_id error retryable t
          ≡ err (lease_invalid_or_expired task_id lease_id) t
    failing error retryable stale =
        raises_bind (fail_check tenant_id worker_id task_id lease_id retryable) _ t _
          (raises_bind (holding tenant_id worker_id task_id lease_id) _ t _ stale)
