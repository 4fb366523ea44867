-- ===== src/Invariant/Renew.antt =====
-- The renewal of a lease (`LeaseRepository.renew`, `renew_lease` of engine/core.py).
use async_gate.Prelude.{
  ℕ, ◌+◌, ◌-◌, ◌*◌, ◌/◌, ◌≤◌, ◌<◌, ◌≡◌, ◌≢◌, refl, sym, subst, ◌∙◌, Bool, true, false, not, List,
  [], ◌∷◌, Option, none, some, arith, ◌==◌, leb, first, update_where, All, String, inl, inr,
  Bool-cases,
}
use async_gate.Models.Records.{Task, Lease}
use async_gate.Store.{
  Settings, Store, M, after, ◌>>=◌, or_raise, pure, raise, task_not_found, lease_invalid_or_expired,
}
use async_gate.Store.Frame.{Steady-put}
use async_gate.Repositories.Tasks
use async_gate.Repositories.Tasks.{second}
use async_gate.Repositories.Leases
use async_gate.Repositories.Leases.{is_lease_of, is_held, lease_ttl, renewed, renew_found}
use async_gate.Engine.Worker.{in_flight, renew_held, renew_lease}
use async_gate.Invariant.{
  DistinctLeases, IsLimited, HasTask, HasLeases, Sound, Evolves-refl, Keeps, Keeps-refl, IsKeeping,
}
use async_gate.Invariant.Lists.{All-map, All-both, All-update, All-first, count-update}
use async_gate.Invariant.Rows.{DistinctLeases-update}
use async_gate.Invariant.Stores.{write-Keeps, bind-Keeps, if-Keeps, or_raise-Keeps}

-- The lease with an identifier is the only one.
only_lease :
    (p : Lease → Bool) (ls : List Lease) (l : Lease)
    → DistinctLeases ls
    → first p ls ≡ some l
    → All (λ k. (k.lease_id == l.lease_id) ≡ true → k ≡ l) ls
unfolding first
only_lease p [] l d e = tt
only_lease p (x ∷ xs) l (d, ds) e = elim (Bool-cases (p x)) [
  | inl h ↦
      let same : x ≡ l = ground arith in
      (
        (λ k. same),
        All-map (λ k. x.lease_id ≢ k.lease_id) (λ k. (k.lease_id == l.lease_id) ≡ true → k ≡ l) xs
            (λ k n m. ground (arith, same)) d,
      )
  | inr h ↦
      let there : first p xs ≡ some l = ground arith in
      (
        (λ k. ground (arith, All-first (λ k. x.lease_id ≢ k.lease_id) p xs l there d)),
        only_lease p xs l ds there,
      )
]

-- A renewal that passes the checks keeps within the limits.
renewed-IsLimited :
    (settings : Settings) (now extend_by : ℕ) (l : Lease)
    → leb settings.max_lease_renewals l.renewal_count ≡ false
    → leb settings.max_lease_lifetime_seconds ((now - l.acquired_at) / second) ≡ false
    → extend_by ≤ settings.max_lease_ttl_seconds
    → IsLimited settings (renewed (now + extend_by * second) (l.renewal_count + 1) l)
renewed-IsLimited settings now extend_by l h k e = record {
  renewals = ground arith;
  lifetime = ground arith;
}

module _ (s : Store) (l : Lease) (p : Lease → Bool) (extend_by : ℕ)
    (found : first p s.db.leases ≡ some l)
    (renewals : leb s.settings.max_lease_renewals l.renewal_count ≡ false)
    (lifetime : leb s.settings.max_lease_lifetime_seconds ((s.clock - l.acquired_at) / second)
      ≡ false)
    (ttl : extend_by ≤ s.settings.max_lease_ttl_seconds) where
  renewed_rows-Sound :
      Sound s.settings s.next_id s.db
      → Sound s.settings s.next_id (record s.db {
        leases =
            update_where
              (λ k. k.lease_id == l.lease_id)
              (renewed (s.clock + extend_by * second) (l.renewal_count + 1))
              s.db.leases;
      })
  renewed_rows-Sound v =
      let f = renewed (s.clock + extend_by * second) (l.renewal_count + 1) in
      let q : Lease → Bool = λ k. k.lease_id == l.lease_id in
      record {
        one_lease =
            All-map (HasLeases s.db.leases) (HasLeases (update_where q f s.db.leases)) s.db.tasks
              (λ t h.
                count-update (is_lease_of t.tenant_id t.task_id) q f s.db.leases (λ k. refl) ∙ h)
              v.one_lease;
        has_task =
            All-update (HasTask s.db.tasks) (HasTask s.db.tasks) q f s.db.leases (λ k e h. h)
              (λ k e h. h) v.has_task;
        distinct = v.distinct;
        distinct_leases = DistinctLeases-update q f s.db.leases (λ k. refl) v.distinct_leases;
        fresh_tasks = v.fresh_tasks;
        fresh_leases =
            All-update (λ k. k.lease_id < s.next_id) (λ k. k.lease_id < s.next_id) q f s.db.leases
              (λ k e h. h) (λ k e h. h) v.fresh_leases;
        limited =
            All-update _ (IsLimited s.settings) q f s.db.leases
              (λ k e (h, same).
                subst (λ z. IsLimited s.settings (f z)) (sym (same e))
                  (renewed-IsLimited s.settings s.clock extend_by l renewals lifetime ttl))
              (λ k e (h, same). h)
              (All-both (IsLimited s.settings) _ s.db.leases v.limited
                (only_lease p s.db.leases l v.distinct_leases found));
        retried = v.retried;
      }

lease_ttl-le :
    (s : Store) (seconds : Option ℕ) → lease_ttl s seconds ≤ s.settings.max_lease_ttl_seconds
lease_ttl-le s seconds = ground arith

renew_found-Keeps :
    (p : Lease → Bool) (extend_by_seconds : Option ℕ) (row : Option Lease) (s : Store)
    → first p s.db.leases ≡ row
    → Keeps s (after (renew_found extend_by_seconds row s))
renew_found-Keeps p extend_by_seconds none s e = Keeps-refl s
renew_found-Keeps p extend_by_seconds (some l) s e =
    if-Keeps (leb s.settings.max_lease_renewals l.renewal_count) _ _ s (λ h. Keeps-refl s)
      λ h.
        if-Keeps (leb s.settings.max_lease_lifetime_seconds ((s.clock - l.acquired_at) / second)) _
          _ s (λ k. Keeps-refl s)
          λ k. write-Keeps s _ (Steady-put s _ s.client s.trace_id) refl λ v. (
            renewed_rows-Sound s l p (lease_ttl s extend_by_seconds) e h k
                (lease_ttl-le s extend_by_seconds) v.sound,
            Evolves-refl s.db.tasks,
          )

renew_held-Keeps :
    (tenant_id : ℕ) (worker_id : String) (task_id lease_id : ℕ) (extend_by_seconds : Option ℕ)
    (task : Task) (s : Store)
    → Keeps s (after (renew_held tenant_id worker_id task_id lease_id extend_by_seconds task s))
unfolding Leases.renew
renew_held-Keeps tenant_id worker_id task_id lease_id extend_by_seconds task s =
    let refused = lease_invalid_or_expired task_id lease_id in
    let rest : Option Lease → M ℕ =
      λ renewed. or_raise renewed refused >>= (λ l. pure l.expires_at) in
    if-Keeps {A = ℕ} (not (in_flight task.status)) (raise refused)
      (Leases.renew tenant_id task_id lease_id worker_id extend_by_seconds >>= rest) s
      (λ e. Keeps-refl s)
      λ e.
        bind-Keeps {A = Option Lease} {B = ℕ} s
          (Leases.renew tenant_id task_id lease_id worker_id extend_by_seconds) rest
          (renew_found-Keeps (is_held tenant_id task_id lease_id worker_id) extend_by_seconds _ s
            refl)
          (λ renewed t m.
            or_raise-Keeps {A = Lease} {B = ℕ} renewed refused (λ l. pure l.expires_at) t
              (λ l n. Keeps-refl t))

pub renew_lease-IsKeeping :
    (tenant_id : ℕ) (worker_id : String) (task_id lease_id : ℕ) (extend_by_seconds : Option ℕ)
    → IsKeeping (renew_lease tenant_id worker_id task_id lease_id extend_by_seconds)
unfolding renew_lease Tasks.get
renew_lease-IsKeeping tenant_id worker_id task_id lease_id extend_by_seconds = record {
  at = λ s.
      or_raise-Keeps (Tasks.find_task tenant_id task_id s.db) (task_not_found task_id)
        (renew_held tenant_id worker_id task_id lease_id extend_by_seconds) s
        (λ task e. renew_held-Keeps tenant_id worker_id task_id lease_id extend_by_seconds task s);
}
