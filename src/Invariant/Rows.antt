-- ===== src/Invariant/Rows.antt =====
-- One task changes, and its leases with it: what such a write has to satisfy, and that the tables
-- stay sound (db/tables.py).
use async_gate.Prelude.{
  ℕ, ◌<◌, ◌≡◌, ◌≢◌, refl, ◌∙◌, ◌⊎◌, inl, inr, Bool, true, false, ◌&&◌, if◌then◌else◌, List, [], ◌∷◌,
  ◌++◌, some, arith, ◌==◌, first, update_where, delete_where, All, Bool-cases,
}
use async_gate.Models.Records.{Task, Lease}
use async_gate.Store.{Settings, Db}
use async_gate.Repositories.Tasks.{is_task}
use async_gate.Invariant.{
  active, lease_count, Distinct, DistinctLeases, IsLimited, HasTask, HasLeases, IsRetried, Sound,
  Follows, Follows-refl, Evolves,
}
use async_gate.Invariant.Lists.{All-map, All-both, All-update, All-delete, All-append, any-update}

pub row_key :
    (tenant_id task_id : ℕ) (u : Task)
    → is_task tenant_id task_id u ≡ true
    → (u.tenant_id ≡ tenant_id) × (u.task_id ≡ task_id)
row_key tenant_id task_id u h = ground arith

-- The row with a key is the only one.
pub only_row :
    (tenant_id task_id : ℕ) (ts : List Task) (t : Task)
    → Distinct ts
    → first (is_task tenant_id task_id) ts ≡ some t
    → All (λ u. is_task tenant_id task_id u ≡ true → u ≡ t) ts
unfolding first
only_row tenant_id task_id [] t d e = tt
only_row tenant_id task_id (x ∷ xs) t (d, ds) e = elim (Bool-cases (is_task tenant_id task_id x)) [
  | inl h ↦
      let same : x ≡ t = ground arith in
      (
        (λ k. same),
        All-map (λ u. x.task_id ≢ u.task_id) (λ u. is_task tenant_id task_id u ≡ true → u ≡ t) xs
            (λ u n k. ground arith) d,
      )
  | inr h ↦ ((λ k. ground arith), only_row tenant_id task_id xs t ds (ground arith))
]

pub Distinct-update :
    (p : Task → Bool) (f : Task → Task) (ts : List Task)
    → ((u : Task) → (f u).task_id ≡ u.task_id)
    → Distinct ts
    → Distinct (update_where p f ts)
unfolding update_where
Distinct-update p f [] k d = tt
Distinct-update p f (t ∷ ts) k (d, ds) = (differs (Bool-cases (p t)), Distinct-update p f ts k ds)
  where
    differs :
        (p t ≡ true) ⊎ (p t ≡ false)
        → All (λ u. (if p t then f t else t).task_id ≢ u.task_id) (update_where p f ts)
    differs (inl e) =
        rw (e, k t)
          (All-update (λ u. t.task_id ≢ u.task_id) (λ u. t.task_id ≢ u.task_id) p f ts
            (λ u h n. rw (k u) n) (λ u h n. n) d)
    differs (inr e) = rw e (
        All-update (λ u. t.task_id ≢ u.task_id) (λ u. t.task_id ≢ u.task_id) p f ts
          (λ u h n. rw (k u) n) (λ u h n. n) d)

pub Distinct-append :
    (ts : List Task) (t : Task)
    → Distinct ts
    → All (λ u. u.task_id ≢ t.task_id) ts
    → Distinct (ts ++ t ∷ [])
Distinct-append [] t d n = (tt, tt)
Distinct-append (x ∷ xs) t (d, ds) (n, ns) =
    (All-append (λ u. x.task_id ≢ u.task_id) xs (t ∷ []) d (n, tt), Distinct-append xs t ds ns)

pub DistinctLeases-append :
    (ls : List Lease) (l : Lease)
    → DistinctLeases ls
    → All (λ k. k.lease_id ≢ l.lease_id) ls
    → DistinctLeases (ls ++ l ∷ [])
DistinctLeases-append [] l d n = (tt, tt)
DistinctLeases-append (x ∷ xs) l (d, ds) (n, ns) = (
  All-append (λ k. x.lease_id ≢ k.lease_id) xs (l ∷ []) d (n, tt),
  DistinctLeases-append xs l ds ns,
)

pub DistinctLeases-delete :
    (p : Lease → Bool) (ls : List Lease) → DistinctLeases ls → DistinctLeases (delete_where p ls)
unfolding delete_where
DistinctLeases-delete p [] d = tt
DistinctLeases-delete p (l ∷ ls) (d, ds) = elim (Bool-cases (p l)) [
  | inl e ↦ rw e (DistinctLeases-delete p ls ds)
  | inr e ↦ rw e (All-delete (λ k. l.lease_id ≢ k.lease_id) p ls d, DistinctLeases-delete p ls ds)
]

pub DistinctLeases-update :
    (p : Lease → Bool) (f : Lease → Lease) (ls : List Lease)
    → ((k : Lease) → (f k).lease_id ≡ k.lease_id)
    → DistinctLeases ls
    → DistinctLeases (update_where p f ls)
unfolding update_where
DistinctLeases-update p f [] k d = tt
DistinctLeases-update p f (l ∷ ls) k (d, ds) =
    (differs (Bool-cases (p l)), DistinctLeases-update p f ls k ds)
  where
    differs :
        (p l ≡ true) ⊎ (p l ≡ false)
        → All (λ u. (if p l then f l else l).lease_id ≢ u.lease_id) (update_where p f ls)
    differs (inl e) =
        rw (e, k l)
          (All-update (λ u. l.lease_id ≢ u.lease_id) (λ u. l.lease_id ≢ u.lease_id) p f ls
            (λ u h n. rw (k u) n) (λ u h n. n) d)
    differs (inr e) = rw e (
        All-update (λ u. l.lease_id ≢ u.lease_id) (λ u. l.lease_id ≢ u.lease_id) p f ls
          (λ u h n. rw (k u) n) (λ u h n. n) d)

-- What the write does to a row that has the key.
pub record Moves (settings : Settings) (n : ℕ) (f : Task → Task) (u : Task) : Type 0 where
  pub follows : Follows u (f u)
  pub retried : IsRetried (f u)
  pub leases : n ≡ active (f u).status

-- A change of the task with this key by `f`, after which `ls` are the leases.
pub record Settles (settings : Settings) (next_id tenant_id task_id : ℕ) (f : Task → Task) (db : Db)
    (ls : List Lease) : Type 0 where
  pub keeps_id : (u : Task) → (f u).task_id ≡ u.task_id
  pub keeps_tenant : (u : Task) → (f u).tenant_id ≡ u.tenant_id
  pub rows :
      All
        (λ u.
          is_task tenant_id task_id u ≡ true
          → Moves settings (lease_count tenant_id task_id ls) f u)
        db.tasks
  pub others :
      (a b : ℕ)
      → (a == tenant_id && b == task_id) ≡ false
      → lease_count a b ls ≡ lease_count a b db.leases
  pub has_task : All (HasTask db.tasks) ls
  pub distinct_leases : DistinctLeases ls
  pub fresh_leases : All (λ l. l.lease_id < next_id) ls
  pub limited : All (IsLimited settings) ls

module _ (settings : Settings) (next_id tenant_id task_id : ℕ) (f : Task → Task) (db : Db)
    (ls : List Lease) (w : Settles settings next_id tenant_id task_id f db ls)
    (v : Sound settings next_id db) where
  checked_rows :
      All
        (λ u.
          HasLeases db.leases u
          × (is_task tenant_id task_id u ≡ true
              → Moves settings (lease_count tenant_id task_id ls) f u))
        db.tasks
  checked_rows =
      All-both (HasLeases db.leases)
        (λ u.
          is_task tenant_id task_id u ≡ true
          → Moves settings (lease_count tenant_id task_id ls) f u)
        db.tasks v.one_lease w.rows

  moved :
      (u : Task)
      → is_task tenant_id task_id u ≡ true
      → Moves settings (lease_count tenant_id task_id ls) f u
      → HasLeases ls (f u)
  moved u h m =
      let key = row_key tenant_id task_id u h in
      cc (key.0, key.1, w.keeps_id u, w.keeps_tenant u, m.leases)

  pub Settles-Sound :
      Sound settings next_id
        (record db { tasks = update_where (is_task tenant_id task_id) f db.tasks; leases = ls })
  Settles-Sound = record {
    one_lease =
        All-update _ (HasLeases ls) (is_task tenant_id task_id) f db.tasks
          (λ u h (k, m). moved u h (m h))
          (λ u h (k, m). w.others u.tenant_id u.task_id (ground arith) ∙ k) checked_rows;
    has_task =
        All-map (HasTask db.tasks) _ ls
          (λ l h.
            any-update (is_task l.tenant_id l.task_id) (is_task tenant_id task_id) f db.tasks
              (λ u. rw (w.keeps_id u) (rw (w.keeps_tenant u) refl))
            ∙ h)
          w.has_task;
    distinct = Distinct-update (is_task tenant_id task_id) f db.tasks w.keeps_id v.distinct;
    distinct_leases = w.distinct_leases;
    fresh_tasks =
        All-update (λ t. t.task_id < next_id) (λ t. t.task_id < next_id) (is_task tenant_id task_id)
          f db.tasks (λ u h k. rw (w.keeps_id u) k) (λ u h k. k) v.fresh_tasks;
    fresh_leases = w.fresh_leases;
    limited = w.limited;
    retried =
        All-update _ IsRetried (is_task tenant_id task_id) f db.tasks (λ u h (k, m). (m h).retried)
          (λ u h (k, m). k) (All-both IsRetried _ db.tasks v.retried w.rows);
  }

pub Evolves-update :
    (p : Task → Bool) (f : Task → Task) (ts : List Task)
    → All (λ u. p u ≡ true → Follows u (f u)) ts
    → Evolves ts (update_where p f ts)
unfolding update_where
Evolves-update p f [] h = tt
Evolves-update p f (t ∷ ts) (h, hs) = elim (Bool-cases (p t)) [
  | inl e ↦ rw e (h e, Evolves-update p f ts hs)
  | inr e ↦ rw e (Follows-refl t, Evolves-update p f ts hs)
]

pub Evolves-append : (ts us : List Task) → Evolves ts (ts ++ us)
Evolves-append [] us = tt
Evolves-append (t ∷ ts) us = (Follows-refl t, Evolves-append ts us)
