-- ===== src/Writes.antt =====
-- The ways in which the operations for a tenant (db/repositories.py and what uses it) write rows: a
-- relation between stores that each of them keeps is kept by every operation.
pub mod Kept
pub mod Access
pub mod Rows
pub mod Leases
pub mod Arguments
pub mod Tasker
pub mod Worker
pub mod Tools
pub mod Calls
use async_gate.Prelude.{ℕ, ◌≡◌, List, ◌∷◌, [], ◌++◌, Option, String, update_where, ◌==◌}
use async_gate.Models.Enums.{PrincipalKind}
use async_gate.Models.Records.{Task, Lease, Receipt, Progress, Relationship}
use async_gate.Store.{Store, Db}
use async_gate.Repositories.Tasks.{add_task, change_task}
use async_gate.Repositories.Leases.{drop_leases, released, renewed}
use async_gate.Repositories.Receipts.{add_receipt}
use async_gate.Repositories.Progress.{upserted, is_relationship, seen_again}

pub record Writes (R : Store → Store → Type 0) (tenant_id : ℕ) : Type 0 where
  pub restored : (s t : Store) → R s t → R s (record t { db = s.db })
  pub rolled_back : (s : Store) → R s (record s { db = s.committed })
  pub change_task :
      (s : Store) (task_id : ℕ) (f : Task → Task)
      → ((t : Task) → (f t).tenant_id ≡ t.tenant_id)
      → R s (record s { db = change_task tenant_id task_id f s.db })
  pub add_task :
      (s : Store) (row : Task)
      → row.tenant_id ≡ tenant_id
      → R s (record s { db = add_task row s.db })
  pub add_receipt :
      (s : Store) (r : Receipt)
      → r.tenant_id ≡ tenant_id
      → R s (record s { db = add_receipt r s.db })
  pub add_lease :
      (s : Store) (l : Lease)
      → l.tenant_id ≡ tenant_id
      → R s (record s { db = record s.db { leases = s.db.leases ++ l ∷ [] } })
  pub extend :
      (s : Store) (lease_id expires_at renewal_count : ℕ)
      → R s (record s {
        db = record s.db {
          leases =
              update_where
                (λ k. k.lease_id == lease_id)
                (renewed expires_at renewal_count)
                s.db.leases;
        };
      })
  pub drop_leases :
      (s : Store) (task_id : ℕ) (lease_id : Option ℕ)
      → R s (record s { db = drop_leases (released tenant_id task_id lease_id) s.db })
  pub upsert_progress :
      (s : Store) (row : Progress)
      → row.tenant_id ≡ tenant_id
      → R s (record s { db = record s.db { progress = upserted row s.db.progress } })
  pub add_relationship :
      (s : Store) (row : Relationship)
      → row.tenant_id ≡ tenant_id
      → R s (record s { db = record s.db { relationships = s.db.relationships ++ row ∷ [] } })
  pub see_again :
      (s : Store) (now : ℕ) (kind : PrincipalKind) (id : String) (instance_id : Option String)
      → R s (record s {
        db = record s.db {
          relationships =
              update_where
                (is_relationship tenant_id kind id)
                (seen_again now instance_id)
                s.db.relationships;
        };
      })
