-- ===== src/Invariant/Settlement.antt =====
-- What `complete` and `fail` come to (engine/core.py).
use async_gate.Prelude.{ℕ, ◌≡◌, subst, Bool, [], ◌∷◌, Option, none, arith, String}
use async_gate.Models.Json.{Json, Fields}
use async_gate.Store.{
  Store, Error, lease_invalid_or_expired, M, Out, ok, err, after, savepoint, restore, ◌>>=◌,
}
use async_gate.Store.Frame.{IsReader}
use async_gate.Repositories.Leases
use async_gate.Repositories.Leases.{is_lease_of, is_valid_at, find_valid, released, drop_leases}
use async_gate.Invariant.Worker.{complete_check-IsReader}
use async_gate.Invariant.Fail.{fail_check-IsReader}
use async_gate.Engine.Worker.{
  holding, complete_check, complete_block, complete_commit, complete, fail_check, fail_block,
  fail_commit, fail,
}

pub holding_stale :
    (tenant_id : ℕ) (worker_id : String) (task_id lease_id : ℕ) (s : Store)
    → find_valid tenant_id task_id lease_id worker_id s ≡ none
    → holding tenant_id worker_id task_id lease_id s
      ≡ err (lease_invalid_or_expired task_id lease_id) s
unfolding holding Leases.validate
holding_stale tenant_id worker_id task_id lease_id s h = ground (arith, h)

-- The outcome of `fail` from that of its block.
abbrev paired : Bool → Out (Option ℕ) → Out (Bool × Option ℕ)
paired requeue (ok at t) = ok (requeue, at) t
paired requeue (err x t) = err x t

module _ {A : Type 0} where
  savepoint-db : (m : M A) (s t : Store) (e : Error) → savepoint m s ≡ err e t → t.db ≡ s.db
  savepoint-db m s t e h = go (m s) h
    where
      go : (o : Out A) → restore s.db o ≡ err e t → t.db ≡ s.db
      go (ok a u) k = ground (arith, k)
      go (err x u) k = ground (arith, k)

-- A sequence of a reader and an operation that undoes its own failures.
module _ {A B : Type 0} where
  undone :
      (m : M A) (f : A → M B) (s t : Store) (e : Error)
      → IsReader m
      → ((a : A) → f a s ≡ err e t → t.db ≡ s.db)
      → (m >>= f) s ≡ err e t
      → t.db ≡ s.db
  undone m f s t e r k h = go (m s) (r.at s) h
    where
      go :
          (o : Out A)
          → after o ≡ s
          → elim o [ ok a u ↦ f a u | err x u ↦ err x u ] ≡ err e t
          → t.db ≡ s.db
      go (ok a u) same h = k a (subst (λ z. f a z ≡ err e t) same h)
      go (err x u) same h = ground (arith, same, h)

-- `complete` is all or nothing: when it raises, whether at a check, at a receipt that is refused
-- before it is written or at one that is only buffered, the database is as before.
pub complete_atomic :
    (tenant_id : ℕ) (worker_id : String) (task_id lease_id : ℕ) (result : Fields)
    (artifacts : Option Json) (s t : Store) (e : Error)
    → complete tenant_id worker_id task_id lease_id result artifacts s ≡ err e t
    → t.db ≡ s.db
unfolding complete complete_commit
complete_atomic tenant_id worker_id task_id lease_id result artifacts s t e h =
    undone (complete_check tenant_id worker_id task_id lease_id) _ s t e
      (complete_check-IsReader tenant_id worker_id task_id lease_id)
      (λ obligation k.
        savepoint-db
          (complete_block tenant_id worker_id task_id lease_id result artifacts obligation.to_
            (obligation.receipt_id ∷ []))
          s t e k)
      h

-- `fail` is all or nothing in the same way.
pub fail_atomic :
    (tenant_id : ℕ) (worker_id : String) (task_id lease_id : ℕ) (error : Fields) (retryable : Bool)
    (s t : Store) (e : Error)
    → fail tenant_id worker_id task_id lease_id error retryable s ≡ err e t
    → t.db ≡ s.db
unfolding fail fail_commit
fail_atomic tenant_id worker_id task_id lease_id error retryable s t e h =
    undone (fail_check tenant_id worker_id task_id lease_id retryable) _ s t e
      (fail_check-IsReader tenant_id worker_id task_id lease_id retryable)
      (λ (obligation, requeue) k.
        savepoint-db
          (fail_block tenant_id worker_id task_id lease_id error requeue obligation.to_
            (obligation.receipt_id ∷ []))
          s t e (first_error requeue _ k))
      h
  where
    first_error : (requeue : Bool) (o : Out (Option ℕ)) → paired requeue o ≡ err e t → o ≡ err e t
    first_error requeue (ok at u) k = ground (arith, k)
    first_error requeue (err x u) k = ground (arith, k)
