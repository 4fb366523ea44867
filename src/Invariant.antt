-- ===== src/Invariant.antt =====
-- What holds of the rows between two operations of the engine (engine/core.py, db/tables.py), and
-- how the rows of one state come from those of an earlier one.
pub mod Lists
pub mod Rows
pub mod Stores
pub mod Emission
pub mod Returns
pub mod Receipts
pub mod Release
pub mod Tasker
pub mod Create
pub mod Holding
pub mod Worker
pub mod Fail
pub mod Start
pub mod Renew
pub mod Waiting
pub mod Claim
pub mod Snapshot
pub mod Sweep
pub mod Custody
pub mod Reconciled
pub mod System
pub mod Reach
pub mod Settlement
pub mod Completion
pub mod Completes
pub mod Verdicts
pub mod Ownership
use async_gate.Prelude.{
  ℕ, ◌+◌, ◌*◌, ◌≤◌, ◌<◌, ◌≡◌, ◌≢◌, ◌⊎◌, refl, sym, ◌∙◌, true, false, List, [], ◌∷◌, any, count, All,
  arith, String,
}
use native.Mathlib.Nat.{le_refl, le_trans}
use async_gate.Models.Enums.{TaskStatus, is_terminal}
use async_gate.Models.Records.{Principal, Task, Lease, can_transition}
use async_gate.Store.{Settings, Db, Store, M, Out, after, ok, err, savepoint, restore}
use async_gate.Store.Frame.{Steady, Steady-refl, Steady-trans, Quiet, Within}
use async_gate.Repositories.Tasks.{second, is_task}
use async_gate.Repositories.Leases.{is_lease_of}

-- How many leases a task of this status has.
abbrev pub active : TaskStatus → ℕ
active TaskStatus.leased = 1
active TaskStatus.running = 1
active _ = 0

abbrev pub lease_count : ℕ → ℕ → List Lease → ℕ
lease_count tenant_id task_id ls = count (is_lease_of tenant_id task_id) ls

abbrev pub Distinct : List Task → Type 0
Distinct [] = Unit
Distinct (t ∷ ts) = All (λ u. t.task_id ≢ u.task_id) ts × Distinct ts

abbrev pub DistinctLeases : List Lease → Type 0
DistinctLeases [] = Unit
DistinctLeases (l ∷ ls) = All (λ k. l.lease_id ≢ k.lease_id) ls × DistinctLeases ls

-- The limits on renewals: their number, and the lifetime with the longest extension.
pub record IsLimited (settings : Settings) (l : Lease) : Type 0 where
  pub renewals : l.renewal_count ≤ settings.max_lease_renewals
  pub lifetime :
      l.expires_at
      ≤ l.acquired_at
        + settings.max_lease_lifetime_seconds * second
        + settings.max_lease_ttl_seconds * second

abbrev pub HasTask : List Task → Lease → Type 0
HasTask ts l = any (is_task l.tenant_id l.task_id) ts ≡ true

abbrev pub HasLeases : List Lease → Task → Type 0
HasLeases ls t = lease_count t.tenant_id t.task_id ls ≡ active t.status

-- A retry is only counted while an attempt is left.
abbrev pub IsRetried : Task → Type 0
IsRetried t = (t.attempt ≡ 0) ⊎ (t.attempt < t.max_attempts)

-- A task has one lease while it is leased or running, and none otherwise; a lease has a task;
-- identifiers are unique and were given out; the limits hold.
pub record Sound (settings : Settings) (next_id : ℕ) (db : Db) : Type 0 where
  pub one_lease : All (HasLeases db.leases) db.tasks
  pub has_task : All (HasTask db.tasks) db.leases
  pub distinct : Distinct db.tasks
  pub distinct_leases : DistinctLeases db.leases
  pub fresh_tasks : All (λ t. t.task_id < next_id) db.tasks
  pub fresh_leases : All (λ l. l.lease_id < next_id) db.leases
  pub limited : All (IsLimited settings) db.leases
  pub retried : All IsRetried db.tasks

-- A path in the diagram of `can_transition_to` that leaves no terminal status.
pub data Advances : TaskStatus → TaskStatus → Type 0 where
  stays : {a : TaskStatus} → Advances a a
  moves :
      {a b c : TaskStatus}
      → can_transition a b ≡ true
      → is_terminal a ≡ false
      → Advances b c
      → Advances a c

pub Advances-trans : {a b c : TaskStatus} → Advances a b → Advances b c → Advances a c
Advances-trans stays q = q
Advances-trans (moves p n r) q = moves p n (Advances-trans r q)

-- The same task later.
pub record Follows (x y : Task) : Type 0 where
  pub task_id : y.task_id ≡ x.task_id
  pub tenant_id : y.tenant_id ≡ x.tenant_id
  pub created_by : y.created_by ≡ x.created_by
  pub max_attempts : y.max_attempts ≡ x.max_attempts
  pub attempt : x.attempt ≤ y.attempt
  pub advances : Advances x.status y.status
  pub frozen : is_terminal x.status ≡ true → y ≡ x

pub Follows-refl : (x : Task) → Follows x x
Follows-refl x = record {
  task_id = refl;
  tenant_id = refl;
  created_by = refl;
  max_attempts = refl;
  attempt = le_refl _;
  advances = stays;
  frozen = λ h. refl;
}

pub Follows-trans : {x y z : Task} → Follows x y → Follows y z → Follows x z
Follows-trans {x} {y} {z} p q = record {
  task_id = q.task_id ∙ p.task_id;
  tenant_id = q.tenant_id ∙ p.tenant_id;
  created_by = q.created_by ∙ p.created_by;
  max_attempts = q.max_attempts ∙ p.max_attempts;
  attempt = le_trans p.attempt q.attempt;
  advances = Advances-trans p.advances q.advances;
  frozen = λ h. q.frozen (cc (p.frozen h)) ∙ p.frozen h;
}

-- Every row of the first table is followed by the row at its place in the second, which may have
-- more rows at its end.
abbrev pub Evolves : List Task → List Task → Type 0
Evolves [] ys = Unit
Evolves (x ∷ xs) [] = ⊥
Evolves (x ∷ xs) (y ∷ ys) = Follows x y × Evolves xs ys

pub Evolves-refl : (xs : List Task) → Evolves xs xs
Evolves-refl [] = tt
Evolves-refl (x ∷ xs) = (Follows-refl x, Evolves-refl xs)

pub Evolves-trans : (xs ys zs : List Task) → Evolves xs ys → Evolves ys zs → Evolves xs zs
Evolves-trans [] ys zs p q = tt
Evolves-trans (x ∷ xs) (y ∷ ys) (z ∷ zs) (p, ps) (q, qs) =
    (Follows-trans p q, Evolves-trans xs ys zs ps qs)
Evolves-trans (x ∷ xs) [] zs p q = elim p [ ]
Evolves-trans (x ∷ xs) (y ∷ ys) [] p q = elim q [ ]

-- The database, and the one that a rollback would find, are sound.
pub record IsValid (s : Store) : Type 0 where
  pub sound : Sound s.settings s.next_id s.db
  pub committed : Sound s.settings s.next_id s.committed
  pub evolves : Evolves s.committed.tasks s.db.tasks

-- One valid state comes from another.
pub record Keeps (s t : Store) : Type 0 where
  pub steady : Steady s t
  pub open steady use *
  pub valid : IsValid s → IsValid t
  pub tasks : IsValid s → Evolves s.db.tasks t.db.tasks
  pub committed : IsValid s → Evolves s.committed.tasks t.committed.tasks

pub Keeps-refl : (s : Store) → Keeps s s
Keeps-refl s = record {
  steady = Steady-refl s;
  valid = λ v. v;
  tasks = λ v. Evolves-refl s.db.tasks;
  committed = λ v. Evolves-refl s.committed.tasks;
}

pub Keeps-trans : {s t u : Store} → Keeps s t → Keeps t u → Keeps s u
Keeps-trans {s} {t} {u} p q = record {
  steady = Steady-trans p.steady q.steady;
  valid = λ v. q.valid (p.valid v);
  tasks = λ v. Evolves-trans s.db.tasks t.db.tasks u.db.tasks (p.tasks v) (q.tasks (p.valid v));
  committed = λ v.
      Evolves-trans s.committed.tasks t.committed.tasks u.committed.tasks (p.committed v)
        (q.committed (p.valid v));
}

abbrev pub IsKeeping : {A : Type 0} → M A → Type 0
IsKeeping m = Within Keeps m
