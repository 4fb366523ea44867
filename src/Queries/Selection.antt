-- ===== src/Queries/Selection.antt =====
-- Which tasks a worker is given, and when a task comes back (repositories.py).
use async_gate.Prelude.{
  ℕ, zero, suc, ◌*◌, ◌≤◌, ◌≡◌, sym, subst, inl, inr, Bool, true, false, List, [], ◌∷◌, Option, some,
  arith, String, leb, is_text, if◌then◌else◌, length, take, first, select, insert_by, order_by, All,
  Bool-cases,
}
use native.Mathlib.Nat.{mul-le-mul_left, pow-le-pow_right, one-le-pow}
use async_gate.Models.Json.{ℤ, int_lt}
use async_gate.Models.Records.{Task}
use async_gate.Store.{Store, ok, ◌>>◌, rollback, put_db, pure}
use async_gate.Invariant.Lists.{All-map, All-select, All-take, All-order, any-first}
use async_gate.Repositories.Tasks
use async_gate.Repositories.Tasks.{
  second, NewTask, holds_key, raw_backoff, backoff, new_task, violates, fetch_existing,
  get_by_idempotency_key,
}
use async_gate.Repositories.Leases.{is_eligible, before, claimable}

-- Each element may stand before the next one.
abbrev pub Sorted {ℓ} : {A : Type ℓ} → (A → A → Bool) → List A → Type 0
Sorted le [] = Unit
Sorted le (x ∷ []) = Unit
Sorted le (x ∷ y ∷ ys) = (le x y ≡ true) × Sorted le (y ∷ ys)

module _ {A : Type 0} (le : A → A → Bool) where
  insert_by-Sorted :
      ((x y : A) → le x y ≡ false → le y x ≡ true)
      → (x : A) (xs : List A) → Sorted le xs
      → Sorted le (insert_by le x xs)
  unfolding insert_by
  insert_by-Sorted total x [] s = tt
  insert_by-Sorted total x (y ∷ []) s = elim (Bool-cases (le x y)) [
    | inl e ↦ rw e (e, tt)
    | inr e ↦ rw e (total x y e, tt)
  ]
  insert_by-Sorted total x (y ∷ z ∷ zs) (h, s) = elim (Bool-cases (le x y)) [
    | inl e ↦ rw e (e, (h, s))
    | inr e ↦ elim (Bool-cases (le x z)) [
      | inl k ↦ rw (e, k) (total x y e, (k, s))
      | inr k ↦
          let rest : Sorted le (insert_by le x (z ∷ zs)) = insert_by-Sorted total x (z ∷ zs) s in
          rw (e, k) (h, rw k at rest)
    ]
  ]

  order_by-Sorted :
      ((x y : A) → le x y ≡ false → le y x ≡ true) → (xs : List A) → Sorted le (order_by le xs)
  unfolding order_by
  order_by-Sorted total [] = tt
  order_by-Sorted total (x ∷ xs) =
      insert_by-Sorted total x (order_by le xs) (order_by-Sorted total xs)

  take-Sorted : (n : ℕ) (xs : List A) → Sorted le xs → Sorted le (take n xs)
  take-Sorted zero xs s = tt
  take-Sorted (suc n) [] s = tt
  take-Sorted (suc zero) (x ∷ []) s = tt
  take-Sorted (suc (suc n)) (x ∷ []) s = tt
  take-Sorted (suc zero) (x ∷ y ∷ ys) s = tt
  take-Sorted (suc (suc n)) (x ∷ y ∷ ys) (h, s) = (h, take-Sorted (suc n) (y ∷ ys) s)

before-total : (x y : Task) → before x y ≡ false → before y x ≡ true
before-total x y h = by_priority x.priority y.priority h
  where
    by_priority :
        (p q : ℤ)
        → (if int_lt q p then true else if int_lt p q then false else leb x.created_at y.created_at)
          ≡ false
        → (if int_lt p q then true else if int_lt q p then false else leb y.created_at x.created_at)
          ≡ true
    by_priority (ℤ.pos a) (ℤ.pos b) k = ground arith
    by_priority (ℤ.pos a) (ℤ.negsuc b) k = ground arith
    by_priority (ℤ.negsuc a) (ℤ.pos b) k = ground arith
    by_priority (ℤ.negsuc a) (ℤ.negsuc b) k = ground arith

length-take : {A : Type 0} (n : ℕ) (xs : List A) → length (take n xs) ≤ n
length-take zero xs = omega arith
length-take (suc n) [] = omega arith
length-take (suc n) (x ∷ xs) = omega (arith, length-take n xs)

pub claimable-Sorted :
    (tenant_id : ℕ) (accept_types : Option (List String)) (max_tasks : ℕ) (s : Store)
    → (length (claimable tenant_id accept_types max_tasks s) ≤ max_tasks)
      × All
          (λ t. is_eligible tenant_id s.clock accept_types t ≡ true)
          (claimable tenant_id accept_types max_tasks s)
      × Sorted before (claimable tenant_id accept_types max_tasks s)
unfolding claimable
claimable-Sorted tenant_id accept_types max_tasks s =
    let eligible = is_eligible tenant_id s.clock accept_types in
    let rows = select eligible s.db.tasks in
    (
      length-take max_tasks (order_by before rows),
      All-take _ max_tasks (order_by before rows) (
          All-order (λ t. eligible t ≡ true) before rows
            (All-map (λ t. (eligible t ≡ true) × Unit {0}) _ rows (λ t h. h.0)
              (All-select (λ t. Unit) eligible s.db.tasks (trivial s.db.tasks)))),
      take-Sorted before max_tasks (order_by before rows)
          (order_by-Sorted before before-total rows),
    )
  where
    trivial : (ts : List Task) → All (λ t. Unit {0}) ts
    trivial [] = tt
    trivial (t ∷ ts) = (tt, trivial ts)

-- The wait before a retry is never longer than the maximum, and it does not get shorter from one
-- attempt to the next.
pub backoff_mono :
    (base max_backoff m n : ℕ)
    → m ≤ n
    → (backoff base m max_backoff ≤ backoff base n max_backoff)
      × (backoff base n max_backoff ≤ max_backoff * second)
unfolding backoff
backoff_mono base max_backoff m n h = (omega (arith, raw m n h), omega arith)
  where
    raw : (m n : ℕ) → m ≤ n → raw_backoff base m ≤ raw_backoff base n
    raw zero zero h = omega arith
    raw zero (suc n) h =
        let more = mul-le-mul_left base (one-le-pow n 2 (omega arith)) in omega (arith, more)
    raw (suc m) zero h = ground arith
    raw (suc m) (suc n) h =
        let more =
          mul-le-mul_left base
            (pow-le-pow_right {n = 2} (omega arith) {i = m} {j = n} (omega arith)) in
        omega (arith, more)

-- A second `create` with an idempotency key that a task of the tenant holds adds nothing: where the
-- session had nothing uncommitted, it returns that task and leaves the database as it was.
pub create_again :
    (tenant_id : ℕ) (new : NewTask) (key : String) (task : Task) (s : Store)
    → s.committed ≡ s.db
    → new.idempotency_key ≡ some key
    → is_text (some key) ≡ true
    → first (holds_key tenant_id key) s.db.tasks ≡ some task
    → Tasks.create tenant_id new s ≡ ok task (record s { next_id = suc s.next_id })
unfolding Tasks.create new_task violates fetch_existing get_by_idempotency_key
create_again tenant_id new key task s clean k t h =
    let s1 = record s { next_id = suc s.next_id } in
    let row = new_task s1 tenant_id s.next_id new in
    let held = any-first (holds_key tenant_id key) s.db.tasks task h in
    let same : first (holds_key tenant_id key) s.committed.tasks ≡ some task = cc (clean, h) in
    subst
      (λ o.
        (if violates row o s.db.tasks
            then (rollback >> fetch_existing tenant_id o)
            else (put_db (Tasks.add_task row) >> pure row))
          s1
        ≡ ok task s1)
      (sym k) (ground (arith, held, same, t, clean))
