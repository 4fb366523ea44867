-- ===== src/Invariant/Reconciled.antt =====
-- What a reconciliation (engine/reconcile.py) leaves to a worker.
use async_gate.Prelude.{
  ℕ, ◌≡◌, refl, sym, subst, ◌∙◌, inl, inr, Bool, true, false, ◌||◌, List, [], ◌∷◌, ◌++◌, Option,
  none, some, arith, String, any, length, select, delete_where, All, Bool-cases,
}
use async_gate.Models.Enums.{TaskStatus, is_terminal}
use async_gate.Models.Records.{Task, Lease}
use async_gate.Store.{Store, M, ok, ◌>>=◌, pure}
use async_gate.Repositories.Tasks
use async_gate.Repositories.Tasks.{find_task, with_status, change_task}
use async_gate.Repositories.Leases
use async_gate.Repositories.Leases.{released, list_for_worker}
use async_gate.Client.{list_custody}
use async_gate.Reconcile.{
  ReconciliationReport, is_owed, owed_task_ids, requeue_found, drop_stale, reconcile_leases,
  reconcile_worker, missing,
}
use async_gate.Invariant.Lists.{All-map, All-select, any-delete_ne}
use async_gate.Invariant.Snapshot.{by_key}
use async_gate.Invariant.Custody.{of_worker, dropped, drop_stale-leases}

run-bind :
    {A B : Type 0}
    → (m : M A) (f : A → M B) (s t : Store) (a : A) → m s ≡ ok a t
    → (m >>= f) s ≡ f a t
run-bind m f s t a h = rw (h, ◌>>=◌) refl

requeue_found-returns :
    (tenant_id task_id : ℕ) (found : Option Task) (s : Store)
    → (r : List ℕ) × (u : Store) × (requeue_found tenant_id task_id found s ≡ ok r u)
unfolding Tasks.update_status Tasks.get
requeue_found-returns tenant_id task_id none s = ([], s, refl)
requeue_found-returns tenant_id task_id (some task) s =
    elim (Bool-cases (is_terminal task.status)) [
      | inl e ↦ ([], s, ground (arith, e))
      | inr e ↦ (
        task_id ∷ [],
        record s {
          db = change_task tenant_id task_id (with_status TaskStatus.queued none none s.clock) s.db;
        },
        ground (arith, e),
      )
    ]

drop_stale-returns :
    (tenant_id : ℕ) (l : Lease) (s : Store)
    → (r : List ℕ) × (u : Store) × (drop_stale tenant_id l s ≡ ok r u)
unfolding drop_stale Leases.release Tasks.get
drop_stale-returns tenant_id l s =
    requeue_found-returns tenant_id l.task_id (find_task tenant_id l.task_id s.db) (dropped l s)

-- The ledger lists the task, or the loop has still to come to the lease.
abbrev covered : List ℕ → List Lease → Lease → Bool
covered owed ls k = is_owed owed k.task_id || any (λ l. by_key l k) ls

abbrev Covers : (Lease → Bool) → List ℕ → List Lease → List Lease → Type 0
Covers p owed ls stored = All (λ k. p k ≡ true → covered owed ls k ≡ true) stored

deleted-Covers :
    (p : Lease → Bool) (owed : List ℕ) (l : Lease) (ls stored : List Lease)
    → Covers p owed (l ∷ ls) stored
    → Covers p owed ls (delete_where (by_key l) stored)
unfolding delete_where any
deleted-Covers p owed l ls [] h = tt
deleted-Covers p owed l ls (k ∷ ks) (h, hs) = elim (Bool-cases (by_key l k)) [
  | inl e ↦ rw e (deleted-Covers p owed l ls ks hs)
  | inr e ↦ rw e ((λ w. ground (arith, h w, e)), deleted-Covers p owed l ls ks hs)
]

owed-covered :
    (owed : List ℕ) (l : Lease) (ls : List Lease) (k : Lease)
    → is_owed owed l.task_id ≡ true
    → covered owed (l ∷ ls) k ≡ true
    → covered owed ls k ≡ true
unfolding any
owed-covered owed l ls k e h = elim (Bool-cases (by_key l k)) [
  | inl same ↦
      let key : l.task_id ≡ k.task_id = ground (arith, same) in
      let here : is_owed owed k.task_id ≡ true = subst (λ i. is_owed owed i ≡ true) key e in
      ground (arith, here)
  | inr other ↦ ground (arith, h, other)
]

select-Covers :
    (p : Lease → Bool) (owed : List ℕ) (ls : List Lease) → Covers p owed (select p ls) ls
unfolding select any
select-Covers p owed [] = tt
select-Covers p owed (l ∷ ls) = elim (Bool-cases (p l)) [
  | inl e ↦
      rw e (
        (λ w. ground arith),
        All-map _ _ ls (λ k h w. ground (arith, h w)) (select-Covers p owed ls),
      )
  | inr e ↦
      let same : select p (l ∷ ls) ≡ select p ls = ground (arith, e) in
      subst (λ chosen. Covers p owed chosen (l ∷ ls)) (sym same)
        ((λ w. ground (arith, w, e)), select-Covers p owed ls)
]

abbrev Owes : (Lease → Bool) → List ℕ → Store → Type 0
Owes p owed t = All (λ k. p k ≡ true → is_owed owed k.task_id ≡ true) t.db.leases

-- The leases whose task the ledger lists are still stored.
abbrev Spares : List ℕ → Store → Store → Type 0
Spares owed s t =
    (k : Lease)
    → is_owed owed k.task_id ≡ true
    → any (by_key k) t.db.leases ≡ any (by_key k) s.db.leases

deleted-any :
    (owed : List ℕ) (l k : Lease) (ls : List Lease)
    → is_owed owed l.task_id ≡ false
    → is_owed owed k.task_id ≡ true
    → any (by_key k) (delete_where (by_key l) ls) ≡ any (by_key k) ls
deleted-any owed l k ls e w = any-delete_ne (by_key k) (by_key l) ls λ x h.
    elim (Bool-cases (by_key k x)) [
      | inl same ↦
          let key : k.task_id ≡ l.task_id = ground (arith, same, h) in
          let here : is_owed owed l.task_id ≡ true = subst (λ i. is_owed owed i ≡ true) key w in
          ground (arith, here, e)
      | inr other ↦ other
    ]

reconcile_leases-Owes :
    (p : Lease → Bool) (tenant_id : ℕ) (owed : List ℕ) (ls : List Lease) (s : Store)
    → Covers p owed ls s.db.leases
    → (done : List ℕ × List ℕ) × (t : Store) × (reconcile_leases tenant_id owed ls s ≡ ok done t)
      × Owes p owed t
      × Spares owed s t
unfolding reconcile_leases any
reconcile_leases-Owes p tenant_id owed [] s c =
    (([], []), s, refl, All-map _ _ s.db.leases (λ k h w. ground (arith, h w)) c, (λ k w. refl))
reconcile_leases-Owes p tenant_id owed (l ∷ ls) s c = elim (Bool-cases (is_owed owed l.task_id)) [
  | inl e ↦
      let (done, t, h, owes, spares) =
        reconcile_leases-Owes p tenant_id owed ls s
          (All-map _ _ s.db.leases (λ k h w. owed-covered owed l ls k e (h w)) c) in
      (done, t, rw e h, owes, spares)
  | inr e ↦
      let (settled, u, d) = drop_stale-returns tenant_id l s in
      let (done, t, h, owes, spares) = reconcile_leases-Owes p tenant_id owed ls u (
        subst (Covers p owed ls) (sym (drop_stale-leases tenant_id l s u settled d))
          (deleted-Covers p owed l ls s.db.leases c)) in
      let more : List ℕ → M (List ℕ × List ℕ) = λ found.
        reconcile_leases tenant_id owed ls
        >>= (λ more. pure (l.lease_id ∷ more.0, found ++ more.1)) in
      (
        (l.lease_id ∷ done.0, settled ++ done.1),
        t,
        rw e (
            run-bind (drop_stale tenant_id l) more s u settled d
            ∙ run-bind (reconcile_leases tenant_id owed ls) _ u t done h),
        owes,
        (λ k w.
            spares k w
            ∙ subst (λ left. any (by_key k) left ≡ any (by_key k) s.db.leases)
                (sym (drop_stale-leases tenant_id l s u settled d))
                (deleted-any owed l k s.db.leases e w)),
      )
]

-- If the ledger can be read, a reconciliation returns. Of the worker's leases it leaves those only
-- whose task the ledger lists for the worker, and a lease with such a task is there after it exactly
-- if it was before.
pub reconcile_worker-All_owed :
    (tenant_id : ℕ) (worker_id : String) (custody : List (Option ℕ)) (s : Store)
    → list_custody worker_id s ≡ some custody
    → (report : ReconciliationReport) × (t : Store) × (reconcile_worker tenant_id worker_id s
        ≡ ok report t)
      × All
          (λ l. is_owed (owed_task_ids custody) l.task_id ≡ true)
          (list_for_worker tenant_id worker_id t)
      × ((k : Lease)
          → is_owed (owed_task_ids custody) k.task_id ≡ true
          → any (released k.tenant_id k.task_id (some k.lease_id)) t.db.leases
            ≡ any (released k.tenant_id k.task_id (some k.lease_id)) s.db.leases)
unfolding reconcile_worker list_for_worker
reconcile_worker-All_owed tenant_id worker_id custody s e =
    let p = of_worker tenant_id worker_id in
    let owed = owed_task_ids custody in
    let (done, t, h, owes, spares) =
      reconcile_leases-Owes p tenant_id owed (select p s.db.leases) s
        (select-Covers p owed s.db.leases) in
    let report : ReconciliationReport = record {
      worker_id = worker_id;
      held_by_ledger = length custody;
      local_leases = length (select p s.db.leases);
      released_stale = done.0;
      settled_tasks = done.1;
      missing_locally = missing owed (select p s.db.leases);
    } in
    (
      report,
      t,
      rw e (run-bind (reconcile_leases tenant_id owed (select p s.db.leases)) _ s t done h),
      All-map _ _ (select p t.db.leases) (λ k (w, o). o w)
          (All-select (λ k. p k ≡ true → is_owed owed k.task_id ≡ true) p t.db.leases owes),
      spares,
    )
