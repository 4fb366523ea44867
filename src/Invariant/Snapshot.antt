-- ===== src/Invariant/Snapshot.antt =====
-- A list of leases that a loop goes through: those that the loop has not come to are still stored.
use async_gate.Prelude.{
  ℕ, zero, suc, ◌≡◌, ◌≢◌, sym, subst, ◌∙◌, ◌⊎◌, inl, inr, Bool, true, List, [], ◌∷◌, some, arith,
  any, first, select, take, delete_where, All, Bool-cases, Option-cases,
}
use async_gate.Models.Records.{Task, Lease}
use async_gate.Store.{Store}
use async_gate.Repositories.Tasks.{is_task, find_task}
use async_gate.Repositories.Leases.{released}
use async_gate.Invariant.{DistinctLeases, HasTask, IsValid}
use async_gate.Invariant.Lists.{All-map, All-select, All-take, All-both, any-delete_ne, first-none}

abbrev pub by_key : Lease → Lease → Bool
by_key l k = released l.tenant_id l.task_id (some l.lease_id) k

abbrev pub Stored : List Lease → Lease → Type 0
Stored ls l = any (by_key l) ls ≡ true

all-Stored : (ls : List Lease) → All (Stored ls) ls
unfolding any
all-Stored [] = tt
all-Stored (l ∷ ls) = (
  ground arith,
  All-map (Stored ls) (Stored (l ∷ ls)) ls (λ k h. ground (arith, h)) (all-Stored ls),
)

DistinctLeases-select :
    (p : Lease → Bool) (ls : List Lease) → DistinctLeases ls → DistinctLeases (select p ls)
unfolding select
DistinctLeases-select p [] d = tt
DistinctLeases-select p (l ∷ ls) (d, ds) = elim (Bool-cases (p l)) [
  | inl e ↦ rw e (
    All-map _ (λ k. l.lease_id ≢ k.lease_id) (select p ls) (λ k h. h.1)
        (All-select (λ k. l.lease_id ≢ k.lease_id) p ls d),
    DistinctLeases-select p ls ds,
  )
  | inr e ↦ rw e (DistinctLeases-select p ls ds)
]

DistinctLeases-take : (n : ℕ) (ls : List Lease) → DistinctLeases ls → DistinctLeases (take n ls)
DistinctLeases-take zero ls d = tt
DistinctLeases-take (suc n) [] d = tt
DistinctLeases-take (suc n) (l ∷ ls) (d, ds) =
    (All-take (λ k. l.lease_id ≢ k.lease_id) n ls d, DistinctLeases-take n ls ds)

-- What a query of the leases yields.
pub record Snapshot (p : Lease → Bool) (stored ls : List Lease) : Type 0 where
  pub there : All (Stored stored) ls
  pub satisfy : All (λ l. p l ≡ true) ls
  pub distinct : DistinctLeases ls

pub select-Snapshot :
    (p : Lease → Bool) (s : Store) → IsValid s → Snapshot p s.db.leases (select p s.db.leases)
select-Snapshot p s v =
    let chosen = All-select (Stored s.db.leases) p s.db.leases (all-Stored s.db.leases) in
    record {
      there = All-map _ (Stored s.db.leases) (select p s.db.leases) (λ l h. h.1) chosen;
      satisfy = All-map _ (λ l. p l ≡ true) (select p s.db.leases) (λ l h. h.0) chosen;
      distinct = DistinctLeases-select p s.db.leases v.sound.distinct_leases;
    }

pub take-Snapshot :
    (p : Lease → Bool) (n : ℕ) (stored ls : List Lease)
    → Snapshot p stored ls
    → Snapshot p stored (take n ls)
take-Snapshot p n stored ls c = record {
  there = All-take (Stored stored) n ls c.there;
  satisfy = All-take (λ l. p l ≡ true) n ls c.satisfy;
  distinct = DistinctLeases-take n ls c.distinct;
}

-- A round of the loop deletes its own lease or none.
abbrev pub Spares : Lease → List Lease → List Lease → Type 0
Spares l xs ys = (ys ≡ xs) ⊎ (ys ≡ delete_where (by_key l) xs)

pub rest-Snapshot :
    (p : Lease → Bool) (stored after_ : List Lease) (l : Lease) (ls : List Lease)
    → Snapshot p stored (l ∷ ls)
    → Spares l stored after_
    → Snapshot p after_ ls
rest-Snapshot p stored after_ l ls c (inl e) =
    subst (λ z. Snapshot p z ls) (sym e)
      (record { there = c.there.1; satisfy = c.satisfy.1; distinct = c.distinct.1 })
rest-Snapshot p stored after_ l ls c (inr e) =
    subst (λ z. Snapshot p z ls) (sym e)
      (record {
        there =
            All-map (λ k. (l.lease_id ≢ k.lease_id) × Stored stored k)
              (Stored (delete_where (by_key l) stored)) ls
              (λ k (n, h). any-delete_ne (by_key k) (by_key l) stored (λ x m. ground arith) ∙ h)
              (All-both (λ k. l.lease_id ≢ k.lease_id) (Stored stored) ls c.distinct.0 c.there.1);
        satisfy = c.satisfy.1;
        distinct = c.distinct.1;
      })

All-any :
    (P : Lease → Type 0) (p : Lease → Bool) (ls : List Lease)
    → All P ls
    → any p ls ≡ true
    → (l : Lease) × P l × (p l ≡ true)
unfolding any
All-any P p [] h a = ground arith
All-any P p (l ∷ ls) (h, hs) a = elim (Bool-cases (p l)) [
  | inl e ↦ (l, h, e)
  | inr e ↦ All-any P p ls hs (ground arith)
]

-- A stored lease has its task.
pub Stored-task :
    (s : Store) (l : Lease)
    → IsValid s
    → Stored s.db.leases l
    → (task : Task) × (find_task l.tenant_id l.task_id s.db ≡ some task)
unfolding find_task
Stored-task s l v h =
    let (k, there, same) = All-any (HasTask s.db.tasks) (by_key l) s.db.leases v.sound.has_task h in
    elim (Option-cases (first (is_task l.tenant_id l.task_id) s.db.tasks)) [
      | inr found ↦ found
      | inl e ↦
          let none_there = first-none (is_task l.tenant_id l.task_id) s.db.tasks e in
          ground (arith, keys k same there, none_there)
    ]
  where
    keys :
        (k : Lease)
        → by_key l k ≡ true
        → any (is_task k.tenant_id k.task_id) s.db.tasks ≡ true
        → any (is_task l.tenant_id l.task_id) s.db.tasks ≡ true
    keys k same there =
        let a : k.tenant_id ≡ l.tenant_id = ground arith in
        let b : k.task_id ≡ l.task_id = ground arith in cc (a, b, there)
