-- ===== src/Isolation/Views.antt =====
-- The rows of a tenant, and the operations that leave them alone.
use async_gate.Prelude.{
  ℕ, ◌≡◌, refl, Bool, true, false, List, [], ◌∷◌, ◌++◌, map, String, ◌==◌, arith, select,
  update_where, delete_where,
}
use async_gate.Models.Records.{Task, Lease, Receipt, Progress, Relationship}
use async_gate.Store.{Db}

-- A renewal changes the expiry of a lease and nothing of this.
abbrev pub lease_key : Lease → ℕ × ℕ × String
lease_key l = (l.lease_id, l.task_id, l.worker_id)

-- What the database holds of a tenant; of its leases, which worker holds which task.
pub record View : Type 0 where
  pub tasks : List Task
  pub leases : List (ℕ × ℕ × String)
  pub receipts : List Receipt
  pub progress : List Progress
  pub relationships : List Relationship

abbrev pub view : ℕ → Db → View
view tenant_id db = record {
  tasks = select (λ (t : Task). t.tenant_id == tenant_id) db.tasks;
  leases = map lease_key (select (λ (l : Lease). l.tenant_id == tenant_id) db.leases);
  receipts = select (λ (r : Receipt). r.tenant_id == tenant_id) db.receipts;
  progress = select (λ (p : Progress). p.tenant_id == tenant_id) db.progress;
  relationships = select (λ (r : Relationship). r.tenant_id == tenant_id) db.relationships;
}

module _ {ℓ} {A : Type ℓ} (p : A → Bool) where
  pub select-append_ne : (xs : List A) (x : A) → p x ≡ false → select p (xs ++ x ∷ []) ≡ select p xs
  unfolding select
  select-append_ne [] x h = ground (arith, h)
  select-append_ne (y ∷ ys) x h = ground (arith, h, select-append_ne ys x)

  pub select-update_ne :
      (q : A → Bool) (f : A → A) (xs : List A)
      → ((x : A) → q x ≡ true → p x ≡ false)
      → ((x : A) → p (f x) ≡ p x)
      → select p (update_where q f xs) ≡ select p xs
  unfolding select update_where
  select-update_ne q f [] h k = refl
  select-update_ne q f (x ∷ xs) h k = ground (arith, h x, k x, select-update_ne q f xs h k)

  pub select-delete_ne :
      (q : A → Bool) (xs : List A)
      → ((x : A) → q x ≡ true → p x ≡ false)
      → select p (delete_where q xs) ≡ select p xs
  unfolding select delete_where
  select-delete_ne q [] h = refl
  select-delete_ne q (x ∷ xs) h = ground (arith, h x, select-delete_ne q xs h)

  pub map-select-update {κ} :
      {B : Type κ} (key : A → B) (q : A → Bool) (f : A → A) (xs : List A)
      → ((x : A) → p (f x) ≡ p x)
      → ((x : A) → key (f x) ≡ key x)
      → map key (select p (update_where q f xs)) ≡ map key (select p xs)
  unfolding select update_where
  map-select-update key q f [] h k = refl
  map-select-update key q f (x ∷ xs) h k =
      ground (arith, h x, k x, map-select-update key q f xs h k)
