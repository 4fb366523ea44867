-- ===== src/Repositories/Leases.antt =====
-- LeaseRepository of asyncgate/db/repositories.py
use async_gate.Prelude.{
  ℕ, ◌+◌, ◌-◌, ◌*◌, ◌/◌, min, Bool, true, false, ◌&&◌, ◌||◌, Option, none, some, List, [], ◌∷◌,
  ◌++◌, String, str_eq, ◌==◌, ltb, leb, if◌then◌else◌, count_or, text_in, take, first, any, all,
  select, order_by, delete_where, update_where,
}
use async_gate.Models.Enums.{TaskStatus, status_eq}
use async_gate.Models.Json.{int_lt}
use async_gate.Models.Records.{Task, Lease}
use async_gate.Store.{
  Store, Db, integrity_error, lease_renewal_limit_exceeded, lease_lifetime_exceeded, M, ◌>>=◌, ◌>>◌,
  pure, raise, gets, put_db, uuid4,
}
use async_gate.Repositories.Tasks.{second, is_task, change_task}

abbrev pub is_lease_of : ℕ → ℕ → Lease → Bool
is_lease_of tenant_id task_id l = l.tenant_id == tenant_id && l.task_id == task_id

abbrev not_before : Option ℕ → ℕ → Bool
not_before none now = true
not_before (some t) now = leb t now

abbrev accepts : Option (List String) → Task → Bool
accepts none t = true
accepts (some []) t = true
accepts (some (ty ∷ tys)) t = text_in t.type (ty ∷ tys)

-- The WHERE clause of `claim_next`.
unfoldable pub is_eligible : ℕ → ℕ → Option (List String) → Task → Bool
is_eligible tenant_id now accept_types t =
    t.tenant_id == tenant_id
    && status_eq t.status TaskStatus.queued
    && not_before t.next_eligible_at now
    && accepts accept_types t

-- Its ORDER BY: the higher priority first, then the older task.
abbrev pub before : Task → Task → Bool
before x y =
    if int_lt y.priority x.priority
    then true
    else if int_lt x.priority y.priority
    then false
    else leb x.created_at y.created_at

abbrev pub subset : List String → List String → Bool
subset xs ys = all (λ x. text_in x ys) xs

unfoldable pub has_capabilities : List String → Option (List String) → Bool
has_capabilities [] capabilities = true
has_capabilities (c ∷ cs) none = false
has_capabilities (c ∷ cs) (some []) = false
has_capabilities (c ∷ cs) (some (d ∷ ds)) = subset (c ∷ cs) (d ∷ ds)

unfoldable pub new_lease : ℕ → ℕ → ℕ → String → ℕ → ℕ → Lease
new_lease lease_id tenant_id task_id worker_id expires_at now = record {
  lease_id = lease_id;
  tenant_id = tenant_id;
  task_id = task_id;
  worker_id = worker_id;
  expires_at = expires_at;
  created_at = now;
  acquired_at = now;
  renewal_count = 0;
}

abbrev pub mark_leased : ℕ → Task → Task
mark_leased now t = record t { status = TaskStatus.leased; updated_at = now }

-- INSERT INTO leases, under the table's unique constraints.
unfoldable pub add_lease : Lease → M Unit
unfolding any
add_lease l = do
  refused ←
      gets
        λ s. any (λ k. k.lease_id == l.lease_id || is_lease_of l.tenant_id l.task_id k) s.db.leases
  if refused
      then raise integrity_error
      else put_db (λ db. record db { leases = db.leases ++ l ∷ [] })

-- One round of the loop of `claim_next`.
unfoldable pub claim : ℕ → String → ℕ → Task → M Lease
unfolding new_lease add_lease change_task
claim tenant_id worker_id expires_at t = do
  lease_id ← uuid4
  now ← gets (λ s. s.clock)
  let l = new_lease lease_id tenant_id t.task_id worker_id expires_at now
  add_lease l
  put_db (change_task t.tenant_id t.task_id (mark_leased now))
  pure l

unfoldable pub claim_all : ℕ → String → Option (List String) → ℕ → List Task → M (List Lease)
unfolding claim has_capabilities
claim_all tenant_id worker_id capabilities expires_at [] = pure []
claim_all tenant_id worker_id capabilities expires_at (t ∷ ts) =
    let rest = claim_all tenant_id worker_id capabilities expires_at ts in
    if has_capabilities t.requirements.capabilities capabilities
    then (do l ← claim tenant_id worker_id expires_at t; ls ← rest; pure (l ∷ ls))
    else rest

-- The tasks that `claim_next` selects.
unfoldable pub claimable : ℕ → Option (List String) → ℕ → Store → List Task
unfolding is_eligible select order_by
claimable tenant_id accept_types max_tasks s =
    take max_tasks
      (order_by before (select (is_eligible tenant_id s.clock accept_types) s.db.tasks))

abbrev pub lease_ttl : Store → Option ℕ → ℕ
lease_ttl s seconds =
    min (count_or seconds s.settings.default_lease_ttl_seconds) s.settings.max_lease_ttl_seconds

unfoldable pub claim_next :
    ℕ → String → Option (List String) → Option (List String) → ℕ → Option ℕ → M (List Lease)
unfolding claimable claim_all
claim_next tenant_id worker_id capabilities accept_types max_tasks lease_ttl_seconds = do
  expires_at ← gets (λ s. s.clock + lease_ttl s lease_ttl_seconds * second)
  tasks ← gets (claimable tenant_id accept_types max_tasks)
  claim_all tenant_id worker_id capabilities expires_at tasks

-- The WHERE clause of `validate`, but for the expiry.
abbrev pub is_held : ℕ → ℕ → ℕ → String → Lease → Bool
is_held tenant_id task_id lease_id worker_id l =
    is_lease_of tenant_id task_id l && l.lease_id == lease_id && str_eq l.worker_id worker_id

abbrev pub is_valid_at : ℕ → ℕ → ℕ → ℕ → String → Lease → Bool
is_valid_at now tenant_id task_id lease_id worker_id l =
    is_held tenant_id task_id lease_id worker_id l && ltb now l.expires_at

unfoldable pub find_valid : ℕ → ℕ → ℕ → String → Store → Option Lease
unfolding first
find_valid tenant_id task_id lease_id worker_id s =
    first (is_valid_at s.clock tenant_id task_id lease_id worker_id) s.db.leases

-- `for_update` takes a row lock, which decides nothing where transactions run one after the other.
unfoldable pub validate : ℕ → ℕ → ℕ → String → M (Option Lease)
unfolding find_valid
validate tenant_id task_id lease_id worker_id =
    gets (find_valid tenant_id task_id lease_id worker_id)

abbrev pub renewed : ℕ → ℕ → Lease → Lease
renewed expires_at renewal_count l = record l {
  expires_at = expires_at;
  renewal_count = renewal_count;
}

abbrev pub renew_found : Option ℕ → Option Lease → M (Option Lease)
renew_found extend_by_seconds none = pure none
renew_found extend_by_seconds (some l) = do
  now ← gets (λ s. s.clock)
  max_renewals ← gets (λ s. s.settings.max_lease_renewals)
  max_lifetime ← gets (λ s. s.settings.max_lease_lifetime_seconds)
  extend_by ← gets (λ s. lease_ttl s extend_by_seconds)
  let lifetime_seconds = (now - l.acquired_at) / second
  if leb max_renewals l.renewal_count
      then raise (lease_renewal_limit_exceeded l.renewal_count max_renewals)
      else if leb max_lifetime lifetime_seconds
      then raise (lease_lifetime_exceeded lifetime_seconds max_lifetime)
      else do
        let expires_at = now + extend_by * second
        let renewal_count = l.renewal_count + 1
        put_db λ db. record db {
          leases =
              update_where (λ k. k.lease_id == l.lease_id) (renewed expires_at renewal_count)
                db.leases;
        }
        pure (some (renewed expires_at renewal_count l))

unfoldable pub renew : ℕ → ℕ → ℕ → String → Option ℕ → M (Option Lease)
unfolding first update_where
renew tenant_id task_id lease_id worker_id extend_by_seconds = do
  row ← gets (λ s. first (is_held tenant_id task_id lease_id worker_id) s.db.leases)
  renew_found extend_by_seconds row

abbrev pub released : ℕ → ℕ → Option ℕ → Lease → Bool
released tenant_id task_id none l = is_lease_of tenant_id task_id l
released tenant_id task_id (some lease_id) l =
    is_lease_of tenant_id task_id l && l.lease_id == lease_id

unfoldable pub drop_leases : (Lease → Bool) → Db → Db
unfolding delete_where
drop_leases p db = record db { leases = delete_where p db.leases }

unfoldable pub release : ℕ → ℕ → Option ℕ → M Bool
unfolding any drop_leases
release tenant_id task_id lease_id = do
  found ← gets (λ s. any (released tenant_id task_id lease_id) s.db.leases)
  put_db (drop_leases (released tenant_id task_id lease_id))
  pure found

unfoldable pub list_for_worker : ℕ → String → Store → List Lease
unfolding select
list_for_worker tenant_id worker_id s =
    select (λ l. l.tenant_id == tenant_id && str_eq l.worker_id worker_id) s.db.leases

abbrev is_running_task : String → Task → Bool
is_running_task instance_id t =
    (status_eq t.status TaskStatus.leased || status_eq t.status TaskStatus.running)
    && (if str_eq instance_id "" then true else str_eq t.asyncgate_instance instance_id)

-- The row of the join, and its conditions.
unfoldable pub is_swept : ℕ → String → List Task → Lease → Bool
unfolding any
is_swept now instance_id tasks l =
    ltb l.expires_at now
    && any (λ t. is_task l.tenant_id l.task_id t && is_running_task instance_id t) tasks

unfoldable pub get_expired : ℕ → String → Store → List Lease
unfolding is_swept select
get_expired limit instance_id s =
    take limit (select (is_swept s.clock instance_id s.db.tasks) s.db.leases)
