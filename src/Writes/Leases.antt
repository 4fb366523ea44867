-- ===== src/Writes/Leases.antt =====
-- The writes of LeaseRepository (db/repositories.py) for a tenant.
use async_gate.Prelude.{
  ℕ, ◌≡◌, refl, true, List, [], ◌∷◌, ◌++◌, Option, none, some, String, ◌==◌, arith, update_where,
  All,
}
use async_gate.Models.Records.{Task, Lease}
use async_gate.Store.{Store, put_db}
use async_gate.Store.Frame.{Within}
use async_gate.Writes.{Writes}
use async_gate.Store.Closed.{Closed, Within-pure, Within-gets, Within-if, Within-bind, within_rules}
use async_gate.Repositories.Tasks.{change_task}
use async_gate.Repositories.Leases
use async_gate.Writes.Rows.{change-Within}
use async_gate.Invariant.Lists.{All-map}
use async_gate.Queries.Selection.{claimable-Sorted}

module _ {R : Store → Store → Type 0} (c : Closed R) (tenant_id : ℕ) (w : Writes R tenant_id) where
  put_lease-Within :
      (l : Lease)
      → l.tenant_id ≡ tenant_id
      → Within R (put_db λ db. record db { leases = db.leases ++ l ∷ [] })
  put_lease-Within l h = record { at = λ s. w.add_lease s l h }

  add_lease-Within : (l : Lease) → l.tenant_id ≡ tenant_id → Within R (Leases.add_lease l)
  unfolding Leases.add_lease
  add_lease-Within l h = search (within_rules, put_lease-Within)

  mark_leased-Within :
      (task_id now : ℕ) → Within R (put_db (change_task tenant_id task_id (Leases.mark_leased now)))
  mark_leased-Within task_id now = change-Within c tenant_id w task_id _ (λ t. refl)

  new_lease-Within :
      (lease_id task_id expires_at now : ℕ) (worker_id : String)
      → Within R
          (Leases.add_lease (Leases.new_lease lease_id tenant_id task_id worker_id expires_at now))
  unfolding Leases.new_lease
  new_lease-Within lease_id task_id expires_at now worker_id = add_lease-Within _ refl

  claim-Within :
      (worker_id : String) (expires_at : ℕ) (t : Task)
      → (t.tenant_id ≡ tenant_id)
      → Within R (Leases.claim tenant_id worker_id expires_at t)
  unfolding Leases.claim
  claim-Within worker_id expires_at t h =
      rw h (search (within_rules, new_lease-Within, mark_leased-Within))

  claim_all-Within :
      (worker_id : String) (capabilities : Option (List String)) (expires_at : ℕ) (ts : List Task)
      → All (λ t. t.tenant_id ≡ tenant_id) ts
      → Within R (Leases.claim_all tenant_id worker_id capabilities expires_at ts)
  unfolding Leases.claim_all
  claim_all-Within worker_id capabilities expires_at [] h = Within-pure c []
  claim_all-Within worker_id capabilities expires_at (t ∷ ts) (h, hs) =
      let first = claim-Within worker_id expires_at t h in
      let rest = claim_all-Within worker_id capabilities expires_at ts hs in
      Within-if (Leases.has_capabilities t.requirements.capabilities capabilities) _ _
        (Within-bind c _ _ first λ l. Within-bind c _ _ rest λ ls. Within-pure c (l ∷ ls)) rest

  of_tenant :
      (accept_types : Option (List String)) (now : ℕ) (t : Task)
      → Leases.is_eligible tenant_id now accept_types t ≡ true
      → t.tenant_id ≡ tenant_id
  unfolding Leases.is_eligible
  of_tenant accept_types now t h = ground (arith, h)

  claimable-All :
      (accept_types : Option (List String)) (max_tasks : ℕ) (s : Store)
      → All (λ t. t.tenant_id ≡ tenant_id) (Leases.claimable tenant_id accept_types max_tasks s)
  claimable-All accept_types max_tasks s =
      All-map (λ t. Leases.is_eligible tenant_id s.clock accept_types t ≡ true) _
        (Leases.claimable tenant_id accept_types max_tasks s) (of_tenant accept_types s.clock)
        (claimable-Sorted tenant_id accept_types max_tasks s).1

  pub claim_next-Within :
      (worker_id : String) (capabilities accept_types : Option (List String)) (max_tasks : ℕ)
      (ttl : Option ℕ)
      → Within R (Leases.claim_next tenant_id worker_id capabilities accept_types max_tasks ttl)
  unfolding Leases.claim_next
  claim_next-Within worker_id capabilities accept_types max_tasks ttl = record {
    at = λ s.
        (claim_all-Within worker_id capabilities _ _ (claimable-All accept_types max_tasks s)).at s;
  }

  extend-Within :
      (lease_id expires_at renewal_count : ℕ)
      → Within R (
          put_db λ db. record db {
            leases =
                update_where
                  (λ k. k.lease_id == lease_id)
                  (Leases.renewed expires_at renewal_count)
                  db.leases;
          })
  extend-Within lease_id expires_at renewal_count = record {
    at = λ s. w.extend s lease_id expires_at renewal_count;
  }

  renew_found-Within :
      (extend_by : Option ℕ) (found : Option Lease) → Within R (Leases.renew_found extend_by found)
  renew_found-Within extend_by none = Within-pure c none
  renew_found-Within extend_by (some l) = search (within_rules, extend-Within) depth 16

  pub renew-Within :
      (task_id lease_id : ℕ) (worker_id : String) (extend_by : Option ℕ)
      → Within R (Leases.renew tenant_id task_id lease_id worker_id extend_by)
  unfolding Leases.renew
  renew-Within task_id lease_id worker_id extend_by = search (within_rules, renew_found-Within)

  drop-Within :
      (task_id : ℕ) (lease_id : Option ℕ)
      → Within R (put_db (Leases.drop_leases (Leases.released tenant_id task_id lease_id)))
  drop-Within task_id lease_id = record { at = λ s. w.drop_leases s task_id lease_id }

  pub release-Within :
      (task_id : ℕ) (lease_id : Option ℕ) → Within R (Leases.release tenant_id task_id lease_id)
  unfolding Leases.release
  release-Within task_id lease_id = search (within_rules, drop-Within)

  pub validate-Within :
      (task_id lease_id : ℕ) (worker_id : String)
      → Within R (Leases.validate tenant_id task_id lease_id worker_id)
  unfolding Leases.validate
  validate-Within task_id lease_id worker_id = Within-gets c _
