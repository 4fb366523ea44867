-- ===== src/Invariant/Reach.antt =====
-- What holds in every state that the server can reach (engine/core.py, engine/reconcile.py).
use async_gate.Prelude.{
  ℕ, ◌≡◌, ap, subst, ◌∙◌, inl, inr, true, List, [], ◌∷◌, some, arith, first, Bool-cases,
}
use async_gate.Models.Enums.{is_terminal}
use async_gate.Models.Records.{Task}
use async_gate.Store.{Store}
use async_gate.Repositories.Tasks.{is_task, find_task}
use async_gate.Invariant.{Follows, Evolves, IsValid}
use async_gate.Invariant.System.{Operation, run, run-From}

pub run-IsValid : (s : Store) (ops : List Operation) → IsValid s → IsValid (run s ops)
run-IsValid s ops v = (run-From s ops v).valid

Evolves-first :
    (tenant_id task_id : ℕ) (xs ys : List Task) (x : Task)
    → Evolves xs ys
    → first (is_task tenant_id task_id) xs ≡ some x
    → (y : Task) × (first (is_task tenant_id task_id) ys ≡ some y) × Follows x y
unfolding first
Evolves-first tenant_id task_id [] ys x e h = ground (arith, h)
Evolves-first tenant_id task_id (u ∷ us) [] x e h = elim e [ ]
Evolves-first tenant_id task_id (u ∷ us) (w ∷ ws) x (f, fs) h =
    elim (Bool-cases (is_task tenant_id task_id u)) [
      | inl k ↦
          let same : u ≡ x = ground arith in
          let key : is_task tenant_id task_id w ≡ is_task tenant_id task_id u =
            cc (f.task_id, f.tenant_id) in
          (w, ground (arith, key, k), subst (λ z. Follows z w) same f)
      | inr k ↦
          let key : is_task tenant_id task_id w ≡ is_task tenant_id task_id u =
            cc (f.task_id, f.tenant_id) in
          let (y, there, g) = Evolves-first tenant_id task_id us ws x fs (ground arith) in
          (y, ground (arith, key, k, there), g)
    ]

pub run-Follows :
    (s : Store) (ops : List Operation) (tenant_id task_id : ℕ) (task : Task)
    → IsValid s
    → find_task tenant_id task_id s.db ≡ some task
    → (later : Task) × (find_task tenant_id task_id (run s ops).db ≡ some later)
      × Follows task later
unfolding find_task
run-Follows s ops tenant_id task_id task v h =
    Evolves-first tenant_id task_id s.db.tasks (run s ops).db.tasks task (run-From s ops v).tasks h

-- From a valid state, a task that has succeeded, failed or been canceled keeps its whole row, the
-- result included, through every sequence of operations.
pub run-terminal :
    (s : Store) (ops : List Operation) (tenant_id task_id : ℕ) (task : Task)
    → IsValid s
    → find_task tenant_id task_id s.db ≡ some task
    → is_terminal task.status ≡ true
    → find_task tenant_id task_id (run s ops).db ≡ some task
run-terminal s ops tenant_id task_id task v h t =
    let (later, there, f) = run-Follows s ops tenant_id task_id task v h in
    there ∙ ap some (f.frozen t)
