-- ===== src/Invariant/Waiting.antt =====
-- Tasks that wait for a worker, and the rows when one is given out (repositories.py `claim_next`).
use async_gate.Prelude.{
  ℕ, ◌<◌, ◌≡◌, ◌≢◌, ◌⊎◌, refl, sym, ◌∙◌, ap, true, false, ◌&&◌, List, [], ◌∷◌, ◌++◌, Option, arith,
  ◌==◌, any, count, select, update_where, All, String, inl, inr, count-append,
}
use native.Mathlib.Nat.{le_refl}
use async_gate.Models.Enums.{TaskStatus, is_terminal}
use async_gate.Models.Records.{Task, Lease, can_transition}
use async_gate.Store.{Settings, Db, Store}
use async_gate.Repositories.Tasks.{is_task}
use async_gate.Repositories.Leases.{is_lease_of, is_eligible, before, mark_leased, claimable}
use async_gate.Invariant.{
  active, lease_count, Distinct, IsLimited, HasTask, HasLeases, IsRetried, Sound, Follows, IsValid,
}
use async_gate.Invariant.Lists.{
  All-map, All-both, All-append, All-update, All-select, All-order, All-take, any-update, count-any,
}
use async_gate.Invariant.Rows.{Settles, row_key, DistinctLeases-append}
use async_gate.Invariant.Release.{Follows-step}

abbrev Open : Task → Task → Type 0
Open t u =
    is_task t.tenant_id t.task_id u ≡ true
    → (u.status ≡ TaskStatus.queued) ⊎ (u.status ≡ TaskStatus.leased)

-- The task has a row of the tenant, and it is queued, unless it was given out since.
pub record Waits (tenant_id : ℕ) (ts : List Task) (t : Task) : Type 0 where
  pub tenant : t.tenant_id ≡ tenant_id
  pub there : any (is_task t.tenant_id t.task_id) ts ≡ true
  pub queued : All (Open t) ts

-- Each row is the only one with its key.
abbrev Own : List Task → Task → Type 0
Own ts t =
    (any (is_task t.tenant_id t.task_id) ts ≡ true)
    × All (λ u. is_task t.tenant_id t.task_id u ≡ true → u ≡ t) ts

all-Own : (ts : List Task) → Distinct ts → All (Own ts) ts
unfolding any
all-Own [] d = tt
all-Own (x ∷ xs) (d, ds) = (
  (
    ground arith,
    (
      (λ k. refl),
      All-map (λ u. x.task_id ≢ u.task_id) (λ u. is_task x.tenant_id x.task_id u ≡ true → u ≡ x) xs
          (λ u n k. ground arith) d,
    ),
  ),
  All-map (λ t. (x.task_id ≢ t.task_id) × Own xs t) (Own (x ∷ xs)) xs
      (λ t (n, (h, k)). (ground arith, ((λ m. ground arith), k)))
      (All-both (λ u. x.task_id ≢ u.task_id) (Own xs) xs d (all-Own xs ds)),
)

pub claimable-Waits :
    (tenant_id : ℕ) (accept_types : Option (List String)) (max_tasks : ℕ) (s : Store)
    → IsValid s
    → All (Waits tenant_id s.db.tasks) (claimable tenant_id accept_types max_tasks s)
unfolding claimable is_eligible
claimable-Waits tenant_id accept_types max_tasks s v =
    let eligible = is_eligible tenant_id s.clock accept_types in
    All-take (Waits tenant_id s.db.tasks) max_tasks _ (
      All-order (Waits tenant_id s.db.tasks) before (select eligible s.db.tasks) (
        All-map (λ t. (eligible t ≡ true) × Own s.db.tasks t) (Waits tenant_id s.db.tasks)
          (select eligible s.db.tasks)
          (λ t (h, (there, own)). record {
            tenant = ground arith;
            there = there;
            queued =
                All-map (λ u. is_task t.tenant_id t.task_id u ≡ true → u ≡ t) _ s.db.tasks
                  (λ u same k. inl (ap (λ z. z.status) (same k) ∙ ground arith)) own;
          })
          (All-select (Own s.db.tasks) eligible s.db.tasks (all-Own s.db.tasks v.sound.distinct))))

-- A claim of another task takes none of this away.
pub marked-Waits :
    (tenant_id now a b : ℕ) (ts : List Task) (t : Task)
    → Waits tenant_id ts t
    → Waits tenant_id (update_where (is_task a b) (mark_leased now) ts) t
marked-Waits tenant_id now a b ts t w = record {
  tenant = w.tenant;
  there =
      any-update (is_task t.tenant_id t.task_id) (is_task a b) (mark_leased now) ts (λ u. refl)
      ∙ w.there;
  queued =
      All-update _ _ (is_task a b) (mark_leased now) ts (λ u e h k. inr refl) (λ u e h k. h k)
        w.queued;
}

mark_leased-Follows :
    (now : ℕ) (u : Task) → u.status ≡ TaskStatus.queued → Follows u (mark_leased now u)
unfolding can_transition is_terminal
mark_leased-Follows now u queued =
    Follows-step u (mark_leased now u) refl refl refl refl (le_refl _) (rw queued refl)
      (rw queued refl)

one_more :
    (settings : Settings) (tenant_id : ℕ) (db : Db) (t : Task) (l : Lease)
    → l.tenant_id ≡ tenant_id
    → l.task_id ≡ t.task_id
    → t.tenant_id ≡ tenant_id
    → lease_count t.tenant_id t.task_id db.leases ≡ 0
    → lease_count t.tenant_id t.task_id (db.leases ++ l ∷ []) ≡ 1
unfolding count
one_more settings tenant_id db t l a b c z =
    ground (arith, count-append (is_lease_of t.tenant_id t.task_id) db.leases (l ∷ []))

one_other :
    (a b : ℕ) (db : Db) (t : Task) (l : Lease)
    → l.tenant_id ≡ t.tenant_id
    → l.task_id ≡ t.task_id
    → (a == t.tenant_id && b == t.task_id) ≡ false
    → lease_count a b (db.leases ++ l ∷ []) ≡ lease_count a b db.leases
unfolding count
one_other a b db t l h k n = ground (arith, count-append (is_lease_of a b) db.leases (l ∷ []))

-- The lease is added, and the task is marked.
pub claimed-Settles :
    (settings : Settings) (next_id tenant_id now : ℕ) (db : Db) (t : Task) (l : Lease)
    → Sound settings next_id db
    → Waits tenant_id db.tasks t
    → l.lease_id < next_id
    → All (λ k. k.lease_id ≢ l.lease_id) db.leases
    → l.tenant_id ≡ tenant_id
    → l.task_id ≡ t.task_id
    → IsLimited settings l
    → any (is_lease_of l.tenant_id l.task_id) db.leases ≡ false
    → Settles settings next_id t.tenant_id t.task_id (mark_leased now) db (db.leases ++ l ∷ [])
claimed-Settles settings next_id tenant_id now db t l v w fresh new tenant task limit free =
    record {
      keeps_id = λ u. refl;
      keeps_tenant = λ u. refl;
      rows =
          All-map (λ u. HasLeases db.leases u × (IsRetried u × Open t u)) _ db.tasks
            (λ u (h, (retried, q)) k.
              let key = row_key t.tenant_id t.task_id u k in
              let none_yet = count-any (is_lease_of l.tenant_id l.task_id) db.leases free in
              let idle : active u.status ≡ 0 =
                cc (h, none_yet, key.0, key.1, tenant, task, w.tenant) in
              let queued : u.status ≡ TaskStatus.queued = ground (arith, q k, idle) in
              record {
                follows = mark_leased-Follows now u queued;
                retried = retried;
                leases =
                    one_more settings tenant_id db t l tenant task w.tenant
                      (cc (none_yet, tenant, task, w.tenant));
              })
            (All-both (HasLeases db.leases) (λ u. IsRetried u × Open t u) db.tasks v.one_lease
              (All-both IsRetried (Open t) db.tasks v.retried w.queued));
      others = λ a b n. one_other a b db t l (tenant ∙ sym w.tenant) task n;
      has_task =
          All-append (HasTask db.tasks) db.leases (l ∷ []) v.has_task
            (cc (w.there, tenant, task, w.tenant), tt);
      distinct_leases = DistinctLeases-append db.leases l v.distinct_leases new;
      fresh_leases =
          All-append (λ k. k.lease_id < next_id) db.leases (l ∷ []) v.fresh_leases (fresh, tt);
      limited = All-append (IsLimited settings) db.leases (l ∷ []) v.limited (limit, tt);
    }
