-- ===== src/Invariant/Sweep.antt =====
-- The sweep of expired leases (`expire_leases` of engine/core.py), with its commits in between.
use async_gate.Prelude.{
  ℕ, suc, ◌+◌, ◌%◌, ◌≡◌, refl, sym, subst, ◌∙◌, inl, inr, Bool, true, false, List, [], ◌∷◌, Option,
  none, some, ◌==◌, select, take, delete_where, if◌then◌else◌,
}
use native.Mathlib.Nat.{le_refl}
use async_gate.Models.Records.{Task, Lease, Receipt, task_is_terminal}
use async_gate.Store.{
  Store, M, Out, ok, err, after, restore, caught, ◌>>=◌, ◌>>◌, pure, gets, when, commit, savepoint,
  attempt,
}
use async_gate.Store.Frame.{IsQuiet, quiet_rules}
use async_gate.Repositories.Tasks
use async_gate.Repositories.Tasks.{is_task, find_task, requeued, change_task}
use async_gate.Repositories.Leases
use async_gate.Repositories.Leases.{released, drop_leases, is_swept, get_expired}
use async_gate.Engine.Emit.{task_obligation, resolve_obligation_owner}
use async_gate.Engine.Sweep.{
  known_target, destination, emit_escalation, expiry_receipts, expire_block, expired_or_not,
  expire_found, expire_one, expire_all, expire_leases,
}
use async_gate.Store.{EscalationTarget}
use async_gate.Models.Enums.{PrincipalKind}
use async_gate.Models.Json.{ℤ}
use async_gate.Invariant.{IsValid, Keeps, Keeps-refl, Keeps-trans}
use async_gate.Invariant.Stores.{Ends, bind-Keeps, commit-Keeps, restored-Keeps}
use async_gate.Invariant.Release.{settled-Keeps, quiet-Ends}
use async_gate.Invariant.Receipts.{emit-IsQuiet, IsQuiet-when}
use async_gate.Invariant.Holding.{leaves-Settles, requeued-Follows}
use async_gate.Invariant.Snapshot.{
  by_key, Stored, Spares, Snapshot, select-Snapshot, take-Snapshot, rest-Snapshot,
}

known_target-IsQuiet :
    (target : EscalationTarget) (tenant_id : ℕ) (kind : Option PrincipalKind)
    → IsQuiet (known_target target tenant_id kind)
known_target-IsQuiet target tenant_id none = search quiet_rules
known_target-IsQuiet target tenant_id (some kind) = search quiet_rules

destination-IsQuiet :
    (tenant_id : ℕ) (task : Task) (obligation : Option Receipt) (target : Option EscalationTarget)
    → IsQuiet (destination tenant_id task obligation target)
destination-IsQuiet tenant_id task obligation none = search quiet_rules
destination-IsQuiet tenant_id task obligation (some target) =
    known_target-IsQuiet target tenant_id _

emit_escalation-IsQuiet :
    (tenant_id : ℕ) (task : Task) (class : ℤ) (obligation : Option Receipt) (lease : Lease)
    → IsQuiet (emit_escalation tenant_id task class obligation lease)
unfolding emit_escalation
emit_escalation-IsQuiet tenant_id task class obligation lease =
    search (quiet_rules, destination-IsQuiet, emit-IsQuiet, IsQuiet-when) depth 12

expiry_receipts-IsQuiet :
    (lease : Lease) (task : Task) (obligation : Option Receipt)
    → IsQuiet (expiry_receipts lease task obligation)
unfolding expiry_receipts
expiry_receipts-IsQuiet lease task obligation =
    search (quiet_rules, emit_escalation-IsQuiet, emit-IsQuiet) depth 12

-- The rows of an expiry.
abbrev expired : Lease → ℕ → Task → Store → Store
expired l jitter task s = record s {
  db =
      drop_leases (by_key l)
        (change_task l.tenant_id l.task_id (requeued task.attempt (s.clock + jitter) s.clock) s.db);
}

expire_block-run :
    (l : Lease) (jitter : ℕ) (task : Task) (obligation : Option Receipt) (s : Store)
    → find_task l.tenant_id l.task_id s.db ≡ some task
    → expire_block l task obligation jitter s
      ≡ expiry_receipts l task obligation (expired l jitter task s)
unfolding expire_block Tasks.requeue_on_expiry Tasks.get Leases.release change_task drop_leases
expire_block-run l jitter task obligation s found =
    let rest : M Unit =
      Leases.release l.tenant_id l.task_id (some l.lease_id) >> expiry_receipts l task obligation in
    subst
      (λ o.
        (Tasks.requeue_expiry_found l.tenant_id l.task_id jitter o >> rest) s
        ≡ expiry_receipts l task obligation (expired l jitter task s))
      (sym found) refl

module _ (l : Lease) (jitter : ℕ) (task : Task) (obligation : Option Receipt) (s : Store)
    (v : IsValid s) (held : Stored s.db.leases l)
    (found : find_task l.tenant_id l.task_id s.db ≡ some task) where
  expired-Keeps : Keeps s (expired l jitter task s)
  unfolding change_task drop_leases
  expired-Keeps =
      let f = requeued task.attempt (s.clock + jitter) s.clock in
      settled-Keeps s l.tenant_id l.task_id f (delete_where (by_key l) s.db.leases) (
        leaves-Settles s l.tenant_id l.task_id l.lease_id f task found held
          (λ u. unfold requeued in refl) (λ u. unfold requeued in refl)
          (λ one retried. (
            requeued-Follows task task.attempt (s.clock + jitter) s.clock (le_refl _) one,
            unfold requeued in retried,
          ))
          (unfold requeued in refl))

  expire_block-Ends : Ends s (expire_block l task obligation jitter s)
  expire_block-Ends = subst (Ends s) (sym (expire_block-run l jitter task obligation s found)) (
      quiet-Ends s (expired l jitter task s) (expiry_receipts l task obligation) expired-Keeps refl
        (expiry_receipts-IsQuiet l task obligation))

  expire_block-leases :
      (a : Unit {0}) (u : Store)
      → expire_block l task obligation jitter s ≡ ok a u
      → u.db.leases ≡ delete_where (by_key l) s.db.leases
  unfolding drop_leases change_task
  expire_block-leases a u h =
      let quiet = (expiry_receipts-IsQuiet l task obligation).at (expired l jitter task s) in
      subst (λ o. (after o).db.leases ≡ delete_where (by_key l) s.db.leases)
        (sym (expire_block-run l jitter task obligation s found) ∙ h) quiet.leases

-- A round: the store follows, and the loop's other leases are still there.
abbrev Round : Lease → Store → Store → Type 0
Round l s t = Keeps s t × Spares l s.db.leases t.db.leases

committed-Round :
    (l : Lease) (s t : Store) (b : Bool) (n : ℕ)
    → Round l s t
    → Round l s (after ((when b commit >> pure n) t))
committed-Round l s t true n (k, r) = (Keeps-trans k (commit-Keeps t), r)
committed-Round l s t false n r = r

counted-Round :
    (l : Lease) (s : Store) (count batch_size : ℕ) (o : Out (Unit {0}))
    → Ends s o
    → ((a : Unit {0}) (u : Store) → o ≡ ok a u → u.db.leases ≡ delete_where (by_key l) s.db.leases)
    → Round l s (
        after (elim (caught (restore s.db o)) [
          | ok a u ↦ expired_or_not count batch_size a u
          | err e u ↦ err e u
        ]))
counted-Round l s count batch_size (ok a u) k h =
    committed-Round l s u (suc count % batch_size == 0) (suc count) (k, inr (h a u refl))
counted-Round l s count batch_size (err e u) k h =
    (restored-Keeps {A = Unit} s (err e u) k, inl refl)

module _ (l : Lease) (jitter batch_size count : ℕ) (s : Store) (v : IsValid s)
    (held : Stored s.db.leases l) where
  expire_found-Round :
      (o : Option Task)
      → find_task l.tenant_id l.task_id s.db ≡ o
      → Round l s (after (expire_found l jitter batch_size count o s))
  expire_found-Round none e = (Keeps-refl s, inl refl)
  expire_found-Round (some task) e = go (task_is_terminal task)
    where
      obligation : Option Receipt
      obligation =
          task_obligation l.tenant_id l.task_id (resolve_obligation_owner task.created_by) s

      round : Round l s (
          after (
            (attempt (savepoint (expire_block l task obligation jitter))
                >>= expired_or_not count batch_size)
              s))
      round =
          counted-Round l s count batch_size (expire_block l task obligation jitter s)
            (expire_block-Ends l jitter task obligation s v held e)
            (expire_block-leases l jitter task obligation s v held e)

      go :
          (b : Bool)
          → Round l s (
              after (
                (if b then pure count else (do
                  obligation ← gets λ s.
                      task_obligation l.tenant_id l.task_id
                        (resolve_obligation_owner task.created_by)
                        s
                  expired ← attempt (savepoint (expire_block l task obligation jitter))
                  expired_or_not count batch_size expired))
                  s))
      go true = (Keeps-refl s, inl refl)
      go false = round

  expire_one-Round : Round l s (after (expire_one l jitter batch_size count s))
  unfolding expire_one Tasks.get
  expire_one-Round = expire_found-Round (find_task l.tenant_id l.task_id s.db) refl

expire_all-Keeps :
    (p : Lease → Bool) (jitter : ℕ → ℕ) (batch_size position count : ℕ) (ls : List Lease)
    (s : Store)
    → IsValid s
    → Snapshot p s.db.leases ls
    → Keeps s (after (expire_all jitter batch_size position count ls s))
unfolding expire_all
expire_all-Keeps p jitter batch_size position count [] s v c = Keeps-refl s
expire_all-Keeps p jitter batch_size position count (l ∷ ls) s v c =
    let round = expire_one-Round l (jitter position) batch_size count s v c.there.0 in
    bind-Keeps {A = ℕ} {B = ℕ} s (expire_one l (jitter position) batch_size count)
      (λ n. expire_all jitter batch_size (suc position) n ls) round.0
      (λ n u h.
        let out = subst (λ o. Round l s (after o)) h round in
        expire_all-Keeps p jitter batch_size (suc position) n ls u (out.0.valid v)
          (rest-Snapshot p s.db.leases u.db.leases l ls c out.1))

pub expire_leases-Keeps :
    (jitter : ℕ → ℕ) (batch_size : ℕ) (s : Store)
    → IsValid s
    → Keeps s (after (expire_leases jitter batch_size s))
unfolding expire_leases get_expired
expire_leases-Keeps jitter batch_size s v =
    let p = is_swept s.clock s.settings.instance_id s.db.tasks in
    expire_all-Keeps p jitter batch_size 0 0 (take 100 (select p s.db.leases)) s v
      (take-Snapshot p 100 s.db.leases (select p s.db.leases) (select-Snapshot p s v))
