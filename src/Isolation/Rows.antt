-- ===== src/Isolation/Rows.antt =====
-- The writes for one tenant (db/repositories.py) keep the rows of another.
use async_gate.Prelude.{
  ℕ, ◌≡◌, refl, ap, ◌∙◌, true, false, List, map, Option, none, some, ◌==◌, arith, select,
  update_where, delete_where, Bool-cases, inl, inr, any,
}
use async_gate.Models.Records.{Task, Lease, Receipt, Progress, Relationship}
use async_gate.Store.{Db}
use async_gate.Repositories.Tasks.{is_task, change_task}
use async_gate.Repositories.Leases.{drop_leases, released, renewed}
use async_gate.Repositories.Receipts.{add_receipt}
use async_gate.Repositories.Progress.{upserted, is_progress, is_relationship, seen_again}
use async_gate.Writes.{Writes}
use async_gate.Writes.Kept.{Kept, Kept-put, Kept-rolled_back, Kept-restored}
use async_gate.Isolation.Views.{
  view, lease_key, select-append_ne, select-update_ne, select-delete_ne, map-select-update,
}

elsewhere :
    (other tenant_id n : ℕ)
    → (tenant_id == other) ≡ false
    → (n == tenant_id) ≡ true
    → (n == other) ≡ false
elsewhere other tenant_id n apart h = ground (arith, h, apart)

module _ (other tenant_id : ℕ) (apart : (tenant_id == other) ≡ false) where
  -- A row of the tenant is none of the other's.
  foreign : (n : ℕ) → n ≡ tenant_id → (n == other) ≡ false
  foreign n h = ap (λ m. m == other) h ∙ apart

  tasks-view :
      (db : Db) (ts : List Task)
      → select (λ t. t.tenant_id == other) ts ≡ select (λ t. t.tenant_id == other) db.tasks
      → view other (record db { tasks = ts }) ≡ view other db
  tasks-view db ts e = ap (λ rows. record (view other db) { tasks = rows }) e

  leases-view :
      (db : Db) (ls : List Lease)
      → map lease_key (select (λ l. l.tenant_id == other) ls)
        ≡ map lease_key (select (λ l. l.tenant_id == other) db.leases)
      → view other (record db { leases = ls }) ≡ view other db
  leases-view db ls e = ap (λ rows. record (view other db) { leases = rows }) e

  relationships-view :
      (db : Db) (rs : List Relationship)
      → select (λ r. r.tenant_id == other) rs ≡ select (λ r. r.tenant_id == other) db.relationships
      → view other (record db { relationships = rs }) ≡ view other db
  relationships-view db rs e = ap (λ rows. record (view other db) { relationships = rows }) e

  change_task-view :
      (task_id : ℕ) (f : Task → Task) (db : Db)
      → ((t : Task) → (f t).tenant_id ≡ t.tenant_id)
      → view other (change_task tenant_id task_id f db) ≡ view other db
  unfolding change_task
  change_task-view task_id f db same =
      tasks-view db (update_where (is_task tenant_id task_id) f db.tasks) (
        select-update_ne (λ t. t.tenant_id == other) (is_task tenant_id task_id) f db.tasks
          (λ t h. elsewhere other tenant_id t.tenant_id apart (ground (arith, h)))
          (λ t. ap (λ n. n == other) (same t)))

  add_receipt-view :
      (r : Receipt) (db : Db)
      → r.tenant_id ≡ tenant_id
      → view other (add_receipt r db) ≡ view other db
  add_receipt-view r db h =
      ap (λ rs. record (view other db) { receipts = rs })
        (select-append_ne (λ q. q.tenant_id == other) db.receipts r (foreign r.tenant_id h))

  released-ne :
      (task_id : ℕ) (lease_id : Option ℕ) (l : Lease)
      → released tenant_id task_id lease_id l ≡ true
      → (l.tenant_id == other) ≡ false
  released-ne task_id none l h = elsewhere other tenant_id l.tenant_id apart (ground (arith, h))
  released-ne task_id (some lease_id) l h =
      elsewhere other tenant_id l.tenant_id apart (ground (arith, h))

  drop_leases-view :
      (task_id : ℕ) (lease_id : Option ℕ) (db : Db)
      → view other (drop_leases (released tenant_id task_id lease_id) db) ≡ view other db
  unfolding drop_leases
  drop_leases-view task_id lease_id db =
      leases-view db (delete_where (released tenant_id task_id lease_id) db.leases) (
        ap (map lease_key) (
          select-delete_ne (λ l. l.tenant_id == other) (released tenant_id task_id lease_id)
            db.leases (released-ne task_id lease_id)))

  upserted-view :
      (row : Progress) (ps : List Progress)
      → (row.tenant_id == other) ≡ false
      → select (λ p. p.tenant_id == other) (upserted row ps) ≡ select (λ p. p.tenant_id == other) ps
  unfolding upserted
  upserted-view row ps here = elim (Bool-cases (any (is_progress row.tenant_id row.task_id) ps)) [
    | inl e ↦ rw e (
        select-update_ne (λ p. p.tenant_id == other) (is_progress row.tenant_id row.task_id) _ ps
          (λ p k. elsewhere other row.tenant_id p.tenant_id here (ground (arith, k))) (λ p. refl))
    | inr e ↦ rw e (select-append_ne (λ p. p.tenant_id == other) ps row here)
  ]

  pub Kept-Writes : Writes (Kept (view other)) tenant_id
  Kept-Writes = record {
    restored = Kept-restored (view other);
    rolled_back = Kept-rolled_back (view other);
    change_task = λ s task_id f same. Kept-put _ s _ (change_task-view task_id f s.db same);
    add_task = λ s row h.
        Kept-put _ s _
          (tasks-view s.db _ (select-append_ne _ s.db.tasks row (foreign row.tenant_id h)));
    add_receipt = λ s r h. Kept-put _ s _ (add_receipt-view r s.db h);
    add_lease = λ s l h. Kept-put _ s _ (
        leases-view s.db _
          (ap (map lease_key) (select-append_ne _ s.db.leases l (foreign l.tenant_id h))));
    extend = λ s lease_id expires_at renewal_count. Kept-put _ s _ (
        leases-view s.db _ (
          map-select-update _ lease_key _ (renewed expires_at renewal_count) s.db.leases (λ k. refl)
            (λ k. refl)));
    drop_leases = λ s task_id lease_id. Kept-put _ s _ (drop_leases-view task_id lease_id s.db);
    upsert_progress = λ s row h. Kept-put _ s _ (
        ap (λ ps. record (view other s.db) { progress = ps })
          (upserted-view row s.db.progress (foreign row.tenant_id h)));
    add_relationship = λ s row h. Kept-put _ s _ (
        relationships-view s.db _
          (select-append_ne _ s.db.relationships row (foreign row.tenant_id h)));
    see_again = λ s now kind id instance_id. Kept-put _ s _ (
        relationships-view s.db _ (
          select-update_ne _ (is_relationship tenant_id kind id) (seen_again now instance_id)
            s.db.relationships
            (λ r h. elsewhere other tenant_id r.tenant_id apart (ground (arith, h))) (λ r. refl)));
  }
