-- ===== src/Invariant/Claim.antt =====
-- Leases are given out (`LeaseRepository.claim_next`, `lease_next` of engine/core.py).
use async_gate.Prelude.{
  ℕ, ◌+◌, ◌*◌, ◌≤◌, ◌<◌, ◌≡◌, ◌≢◌, refl, sym, subst, ◌∙◌, ap, min, Bool, false, ◌||◌, List, [], ◌∷◌,
  ◌++◌, Option, none, some, arith, ◌==◌, any, update_where, All, String, get_or, inl, inr,
  Bool-cases,
}
use native.Mathlib.Nat.{le_refl}
use async_gate.Models.Records.{Task, Lease}
use async_gate.Store.{Store, M, ok, after, ◌>>=◌, pure, uuid4, put_db, integrity_error}
use async_gate.Store.Frame.{IsQuiet, IsQuiet-uuid4, quiet_rules}
use async_gate.Repositories.Tasks
use async_gate.Repositories.Tasks.{second, is_task, change_task}
use async_gate.Repositories.Leases
use async_gate.Repositories.Leases.{
  is_lease_of, is_eligible, lease_ttl, before, new_lease, mark_leased, claim, claim_all, claimable,
  claim_next, has_capabilities,
}
use async_gate.Engine.Worker.{LeaseInfo, accept_found, accept_one, accept_all, lease_next}
use async_gate.Invariant.Waiting.{Waits, claimable-Waits, marked-Waits, claimed-Settles}
use async_gate.Invariant.{IsValid, Keeps, Keeps-refl, Keeps-trans}
use async_gate.Invariant.Lists.{All-map}
use async_gate.Invariant.Stores.{Quiet-Keeps, bind-Keeps, if-Keeps, guard-Keeps}
use async_gate.Invariant.Release.{settled-Keeps}
use async_gate.Invariant.Receipts.{emit-IsQuiet}

abbrev collides : Lease → Store → Bool
collides l s =
    any (λ k. k.lease_id == l.lease_id || is_lease_of l.tenant_id l.task_id k) s.db.leases

free_key :
    (l : Lease) (ls : List Lease)
    → any (λ k. k.lease_id == l.lease_id || is_lease_of l.tenant_id l.task_id k) ls ≡ false
    → any (is_lease_of l.tenant_id l.task_id) ls ≡ false
unfolding any
free_key l [] h = refl
free_key l (k ∷ ks) h = ground (arith, free_key l ks)

module _ (tenant_id : ℕ) (worker_id : String) (expires_at : ℕ) (t : Task) (s : Store)
    (v : IsValid s) (w : Waits tenant_id s.db.tasks t)
    (limit : expires_at ≤ s.clock + s.settings.max_lease_ttl_seconds * second) where
  claim-Keeps : Keeps s (after (claim tenant_id worker_id expires_at t s))
  unfolding claim Leases.add_lease change_task
  claim-Keeps =
      let l = new_lease s.next_id tenant_id t.task_id worker_id expires_at s.clock in
      let s1 = after (uuid4 s) in
      Keeps-trans (Quiet-Keeps (IsQuiet-uuid4.at s)) (
        guard-Keeps {A = Unit} {B = Lease} (collides l s) integrity_error
          (put_db (λ db. record db { leases = db.leases ++ l ∷ [] })) _ s1
          (λ free.
            settled-Keeps s1 t.tenant_id t.task_id (mark_leased s.clock) (s.db.leases ++ l ∷ [])
              (λ v1.
                claimed-Settles s.settings s1.next_id tenant_id s.clock s.db t l v1.sound w
                  (unfold new_lease in le_refl _)
                  (All-map (λ k. k.lease_id < s.next_id) (λ k. k.lease_id ≢ l.lease_id) s.db.leases
                    (λ k h. unfold new_lease in ground arith) v.sound.fresh_leases)
                  (unfold new_lease in refl) (unfold new_lease in refl)
                  (unfold new_lease in
                    record { renewals = omega arith; lifetime = omega (arith, limit) })
                  (free_key l s.db.leases free))))

  claim-tasks :
      (l : Lease) (u : Store)
      → claim tenant_id worker_id expires_at t s ≡ ok l u
      → (u.db.tasks ≡ update_where (is_task t.tenant_id t.task_id) (mark_leased s.clock) s.db.tasks)
        × (u.clock ≡ s.clock)
        × (u.settings ≡ s.settings)
  unfolding claim Leases.add_lease change_task
  claim-tasks l u h =
      elim (Bool-cases
        (collides (new_lease s.next_id tenant_id t.task_id worker_id expires_at s.clock) s)) [
          | inl e ↦ ground (arith, e, h)
          | inr e ↦ ground (arith, e, h)
        ]

claim_all-Keeps :
    (tenant_id : ℕ) (worker_id : String) (capabilities : Option (List String)) (expires_at : ℕ)
    (ts : List Task) (s : Store)
    → IsValid s
    → All (Waits tenant_id s.db.tasks) ts
    → expires_at ≤ s.clock + s.settings.max_lease_ttl_seconds * second
    → Keeps s (after (claim_all tenant_id worker_id capabilities expires_at ts s))
unfolding claim_all
claim_all-Keeps tenant_id worker_id capabilities expires_at [] s v w limit = Keeps-refl s
claim_all-Keeps tenant_id worker_id capabilities expires_at (t ∷ ts) s v (w, ws) limit =
    let rest = claim_all tenant_id worker_id capabilities expires_at ts in
    let one = claim-Keeps tenant_id worker_id expires_at t s v w limit in
    if-Keeps {A = List Lease} (has_capabilities t.requirements.capabilities capabilities)
      (claim tenant_id worker_id expires_at t >>= (λ l. rest >>= (λ ls. pure (l ∷ ls)))) rest s
      (λ h.
        bind-Keeps {A = Lease} {B = List Lease} s (claim tenant_id worker_id expires_at t)
          (λ l. rest >>= (λ ls. pure (l ∷ ls))) one
          (λ l u e.
            let out = claim-tasks tenant_id worker_id expires_at t s v w limit l u e in
            let waits =
              All-map (Waits tenant_id s.db.tasks) (Waits tenant_id u.db.tasks) ts
                (λ x k.
                  subst (λ z. Waits tenant_id z x) (sym out.0)
                    (marked-Waits tenant_id s.clock t.tenant_id t.task_id s.db.tasks x k))
                ws in
            bind-Keeps {A = List Lease} {B = List Lease} u rest (λ ls. pure (l ∷ ls))
              (claim_all-Keeps tenant_id worker_id capabilities expires_at ts u
                ((subst (λ o. Keeps s (after o)) e one).valid v) waits
                (subst (λ z. expires_at ≤ z)
                  (sym (
                    ap (λ c. c + u.settings.max_lease_ttl_seconds * second) out.1
                    ∙ ap (λ z. s.clock + z.max_lease_ttl_seconds * second) out.2))
                  limit))
              (λ ls x k. Keeps-refl x)))
      (λ h. claim_all-Keeps tenant_id worker_id capabilities expires_at ts s v ws limit)

accept_found-IsQuiet :
    (tenant_id : ℕ) (worker_id : String) (capabilities : List String) (l : Lease)
    (found : Option Task)
    → IsQuiet (accept_found tenant_id worker_id capabilities l found)
accept_found-IsQuiet tenant_id worker_id capabilities l none = search quiet_rules
accept_found-IsQuiet tenant_id worker_id capabilities l (some task) =
    search (quiet_rules, emit-IsQuiet) depth 8

accept_one-IsQuiet :
    (tenant_id : ℕ) (worker_id : String) (capabilities : List String) (l : Lease)
    (rest : M (List LeaseInfo))
    → IsQuiet rest
    → IsQuiet (accept_one tenant_id worker_id capabilities l rest)
unfolding accept_one Tasks.get
accept_one-IsQuiet tenant_id worker_id capabilities l rest h =
    search (quiet_rules, accept_found-IsQuiet) depth 8

accept_all-IsQuiet :
    (tenant_id : ℕ) (worker_id : String) (capabilities : List String) (ls : List Lease)
    → IsQuiet (accept_all tenant_id worker_id capabilities ls)
unfolding accept_all
accept_all-IsQuiet tenant_id worker_id capabilities [] = search quiet_rules
accept_all-IsQuiet tenant_id worker_id capabilities (l ∷ ls) =
    accept_one-IsQuiet tenant_id worker_id capabilities l _
      (accept_all-IsQuiet tenant_id worker_id capabilities ls)

-- Valid states only lead to valid ones; the claims count on it.
pub lease_next-Keeps :
    (tenant_id : ℕ) (worker_id : String) (capabilities accept_types : Option (List String))
    (max_tasks : ℕ) (lease_ttl_seconds : Option ℕ) (s : Store)
    → IsValid s
    → Keeps s (
        after
          (lease_next tenant_id worker_id capabilities accept_types max_tasks lease_ttl_seconds s))
unfolding lease_next claim_next
lease_next-Keeps tenant_id worker_id capabilities accept_types max_tasks lease_ttl_seconds s v =
    bind-Keeps {A = List Lease} {B = List LeaseInfo} s
      (claim_next tenant_id worker_id capabilities accept_types (min max_tasks 10)
        lease_ttl_seconds)
      (accept_all tenant_id worker_id (get_or capabilities []))
      (claim_all-Keeps tenant_id worker_id capabilities
        (s.clock + lease_ttl s lease_ttl_seconds * second)
        (claimable tenant_id accept_types (min max_tasks 10) s) s v
        (claimable-Waits tenant_id accept_types (min max_tasks 10) s v) (ground arith))
      (λ ls u e.
        Quiet-Keeps ((accept_all-IsQuiet tenant_id worker_id (get_or capabilities []) ls).at u))
