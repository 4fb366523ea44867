-- ===== src/Invariant/Completes.antt =====
-- When a worker's completion returns (engine/core.py `complete`).
use async_gate.Prelude.{
  ℕ, ◌≤◌, ◌≡◌, refl, sym, ap, subst, ◌∙◌, Bool, true, false, not, ◌&&◌, Option, none, some, List,
  [], ◌∷◌, String, arith, length, any, all, select, order_by, first, update_where, head?, All, ◌==◌,
}
use async_gate.Models.Enums.{TaskStatus, ReceiptType, status_value}
use async_gate.Models.Json.{Json, Fields, get, put, or_null}
use async_gate.Models.Records.{Principal, Task, Lease, Receipt, can_transition_to}
use async_gate.Models.Termination.{is_terminal_type}
use async_gate.Models.ReceiptBody
use async_gate.Store.{
  Store, Settings, ok, err, after, M, savepoint, restore, ◌>>=◌, ◌>>◌, pure, or_raise,
  attribute_error, value_error, Out,
}
use async_gate.Store.Frame.{Quiet}
use async_gate.Repositories.Tasks
use async_gate.Repositories.Tasks.{find_task, is_task, with_status, change_task}
use async_gate.Repositories.Leases
use async_gate.Repositories.Leases.{find_valid, released, drop_leases}
use async_gate.Repositories.Receipts.{
  NewReceipt, rejection, exists_receipt, too_many_artifacts, max_receipt_body_bytes,
}
use async_gate.Repositories.Ledger.{get_task_obligation, assigns, newer_first}
use async_gate.Engine.Emit.{
  emit, emit_result_ready, or_any_owner, about, traced, task_obligation, task_obligation_or_raise,
  resolve_obligation_owner, worker_principal, service_principal,
}
use async_gate.Engine.Worker.{
  holding, check_transition, complete_check, complete_block, complete_commit, complete_receipts,
  complete, ready, success,
}
use async_gate.Invariant.Lists.{All-map, All-select, All-order}
use async_gate.Invariant.Receipts.{emit-IsQuiet}
use async_gate.Invariant.Returns.{Returns, Returns-bind, emit-Returns, current, current_trace}

-- The obligation of a task is a receipt of the tenant.
Known : ℕ → List Receipt → Receipt → Type 0
Known tenant_id rs r =
    (r.tenant_id == tenant_id) ≡ true → exists_receipt tenant_id rs r.receipt_id ≡ true

all-Known : (tenant_id : ℕ) (rs : List Receipt) → All (Known tenant_id rs) rs
unfolding any Known
all-Known tenant_id [] = tt
all-Known tenant_id (r ∷ rs) = (
  (λ h. ground (arith, h)),
  All-map (Known tenant_id rs) (Known tenant_id (r ∷ rs)) rs (λ x k h. ground (arith, k h))
      (all-Known tenant_id rs),
)

get_task_obligation-exists :
    (tenant_id task_id : ℕ) (owner : Option Principal) (s : Store) (r : Receipt)
    → get_task_obligation tenant_id task_id owner s ≡ some r
    → exists_receipt tenant_id s.db.receipts r.receipt_id ≡ true
unfolding get_task_obligation Known
get_task_obligation-exists tenant_id task_id owner s r h =
    let p = assigns tenant_id task_id owner in
    let rows = select p s.db.receipts in
    go (order_by newer_first rows)
      (All-order (λ x. (p x ≡ true) × Known tenant_id s.db.receipts x) newer_first rows
        (All-select (Known tenant_id s.db.receipts) p s.db.receipts
          (all-Known tenant_id s.db.receipts)))
      h
  where
    go :
        (xs : List Receipt)
        → All (λ x. (assigns tenant_id task_id owner x ≡ true) × Known tenant_id s.db.receipts x) xs
        → head? xs ≡ some r
        → exists_receipt tenant_id s.db.receipts r.receipt_id ≡ true
    go [] a e = ground (arith, e)
    go (x ∷ xs) ((q, k), a) e =
        let same : x ≡ r = ground (arith, e) in
        subst (λ y. exists_receipt tenant_id s.db.receipts y.receipt_id ≡ true) same
          (k (ground (arith, q)))

task_obligation-exists :
    (tenant_id task_id : ℕ) (hint : Principal) (s : Store) (r : Receipt)
    → task_obligation tenant_id task_id hint s ≡ some r
    → exists_receipt tenant_id s.db.receipts r.receipt_id ≡ true
unfolding task_obligation
task_obligation-exists tenant_id task_id hint s r h =
    go (get_task_obligation tenant_id task_id (some hint) s)
      (get_task_obligation tenant_id task_id none s)
      (get_task_obligation-exists tenant_id task_id (some hint) s r)
      (get_task_obligation-exists tenant_id task_id none s r) h
  where
    go :
        {E : Type 0} (a b : Option Receipt)
        → (a ≡ some r → E)
        → (b ≡ some r → E)
        → or_any_owner a b ≡ some r
        → E
    go none b f g e = g e
    go (some x) b f g e = f e

-- No check rejects a receipt that is not too large and whose parents are there, if it needs any.
accepted :
    (tenant_id : ℕ) (new : NewReceipt) (parent : ℕ) (t : Store)
    → length (t.env.dumps new.body) ≤ max_receipt_body_bytes
    → new.parents ≡ parent ∷ []
    → too_many_artifacts (get "artifacts" new.body) ≡ false
    → (is_terminal_type new.receipt_type && not (exists_receipt tenant_id t.db.receipts parent))
      ≡ false
    → rejection t tenant_id new ≡ none
unfolding rejection all
accepted tenant_id new parent t small one few there = rw one (ground (arith, small, few, there))

or_null-few :
    (artifacts : Option Json)
    → too_many_artifacts artifacts ≡ false
    → too_many_artifacts (some (or_null artifacts)) ≡ false
or_null-few none h = refl
or_null-few (some v) h = h

first-update :
    {A : Type 0} (p : A → Bool) (f : A → A) (xs : List A) (x : A)
    → ((y : A) → p (f y) ≡ p y)
    → first p xs ≡ some x
    → first p (update_where p f xs) ≡ some (f x)
unfolding first update_where
first-update p f [] x k h = ground (arith, h)
first-update p f (y ∷ ys) x k h = ground (arith, h, k y, first-update p f ys x k)

-- The body of a receipt, with the trace, is small enough.
abbrev pub Fits : Store → Fields → Type 0
Fits s body = length (s.env.dumps (traced (current_trace s) body)) ≤ max_receipt_body_bytes

-- The bodies of the receipts of a completion.
abbrev pub completed_body : Fields → Option Json → Fields
completed_body result artifacts =
    ReceiptBody.task_completed "Task completed successfully" (some result) artifacts

abbrev pub ready_body : Fields → Option Json → Fields
ready_body result artifacts =
    ReceiptBody.task_result_ready (status_value TaskStatus.succeeded) (some result) none artifacts

module _ (tenant_id : ℕ) (worker_id : String) (task_id lease_id : ℕ) (result : Fields)
    (artifacts : Option Json) (owner : Principal) (parent : ℕ) (task : Task) (s : Store)
    (apart : s.settings.receiptgate_integrated ≡ false)
    (completed : Fits s (completed_body result artifacts))
    (noticed : Fits s (ready_body result artifacts)) (few : too_many_artifacts artifacts ≡ false)
    (owed : exists_receipt tenant_id s.db.receipts parent ≡ true)
    (found : find_task tenant_id task_id s.db ≡ some task) where
  abbrev outcome : Task → Task
  outcome = with_status TaskStatus.succeeded (some (success result artifacts s.clock)) none s.clock

  abbrev rows : Store
  rows = record s {
    db =
        drop_leases (released tenant_id task_id (some lease_id))
          (change_task tenant_id task_id outcome s.db);
  }

  abbrev report : NewReceipt
  report =
      about ReceiptType.task_completed (worker_principal worker_id) owner task_id (some lease_id)
        (parent ∷ [])
        (ReceiptBody.task_completed "Task completed successfully" (some result) artifacts)

  report-Returns :
      (r : Returns (emit tenant_id report) rows) × (r.store.trace_id ≡ some (current_trace s))
  unfolding ReceiptBody.task_completed get put is_terminal_type drop_leases change_task
  report-Returns = emit-Returns tenant_id report rows apart λ t alike.
      accepted tenant_id (record report { body = traced (current_trace s) report.body }) parent t
        (subst
          (λ e. length (e.dumps (traced (current_trace s) report.body)) ≤ max_receipt_body_bytes)
          (sym alike.env) completed)
        refl (or_null-few artifacts few) (rw alike.db (ground (arith, owed)))

  rows-found : find_task tenant_id task_id rows.db ≡ some (outcome task)
  unfolding find_task drop_leases change_task with_status
  rows-found = first-update (is_task tenant_id task_id) outcome s.db.tasks task (λ y. refl) found

  abbrev notice : NewReceipt
  notice =
      about ReceiptType.task_result_ready service_principal owner (outcome task).task_id none
        (parent ∷ [])
        (ReceiptBody.task_result_ready (status_value TaskStatus.succeeded) (some result) none
          artifacts)

  notice-Returns :
      (t : Store)
      → t.env ≡ s.env
      → t.settings ≡ s.settings
      → t.trace_id ≡ some (current_trace s)
      → Returns (emit_result_ready tenant_id (outcome task) owner (parent ∷ [])) t
  unfolding emit_result_ready ReceiptBody.task_result_ready get put is_terminal_type any with_status
  notice-Returns t env settings trace =
      let same : current_trace t ≡ current_trace s = ap (λ found. current found t.next_id) trace in
      let (r, kept) =
        emit-Returns tenant_id notice t
          (ap (λ (z : Settings). z.receiptgate_integrated) settings ∙ apart)
          λ u alike.
            accepted tenant_id (record notice { body = traced (current_trace t) notice.body })
              parent u
              (subst
                (λ e.
                  length (e.dumps (traced (current_trace t) notice.body)) ≤ max_receipt_body_bytes)
                (sym (alike.env ∙ env))
                (subst (λ τ. length (s.env.dumps (traced τ notice.body)) ≤ max_receipt_body_bytes)
                  (sym same) noticed))
              refl (or_null-few artifacts few) refl in
      record { value = r.value; store = r.store; returns = r.returns; trace = r.trace }

  -- The receipt for the owner, wherever the rows, the environment and the settings are the same.
  ready-Returns :
      (t : Store)
      → t.env ≡ s.env
      → t.settings ≡ s.settings
      → t.trace_id ≡ some (current_trace s)
      → t.db.tasks ≡ rows.db.tasks
      → Returns (ready tenant_id task_id owner (parent ∷ [])) t
  unfolding Tasks.get find_task
  ready-Returns t env settings trace tasks =
      let r = notice-Returns t env settings trace in
      Returns-bind (Tasks.get tenant_id task_id)
        (λ row. or_raise row attribute_error >>= λ task'.
          emit_result_ready tenant_id task' owner (parent ∷ []) >> pure tt)
        t (some (outcome task)) t
        (ap (λ row. ok row t) (ap (first (is_task tenant_id task_id)) tasks ∙ rows-found))
        (λ τ h. h)
        (Returns-bind (emit_result_ready tenant_id (outcome task) owner (parent ∷ []))
          (λ _. pure tt) t r.value r.store r.returns r.trace
          (record { value = tt; store = r.store; returns = refl; trace = λ τ h. h }))

  receipts-Returns :
      Returns
        (complete_receipts tenant_id worker_id task_id lease_id result artifacts owner
          (parent ∷ []))
        rows
  unfolding complete_receipts drop_leases change_task
  receipts-Returns =
      let (r, trace) = report-Returns in
      let quiet =
        subst (λ o. Quiet rows (after o)) r.returns ((emit-IsQuiet tenant_id report).at rows) in
      Returns-bind (emit tenant_id report) _ rows r.value r.store r.returns r.trace
        (ready-Returns r.store quiet.env quiet.settings trace quiet.tasks)

  block-Returns :
      holding tenant_id worker_id task_id lease_id s ≡ ok task s
      → can_transition_to task TaskStatus.succeeded ≡ true
      → Returns
          (complete_block tenant_id worker_id task_id lease_id result artifacts owner (parent ∷ []))
          s
  unfolding complete_block Tasks.update_status Tasks.get Leases.release change_task drop_leases
  block-Returns held allowed =
      let r = receipts-Returns in
      Returns-bind (holding tenant_id worker_id task_id lease_id) _ s task s held (λ τ h. h)
        (Returns-bind (check_transition task TaskStatus.succeeded) _ s tt s (rw allowed refl)
          (λ τ h. h)
          (record { value = r.value; store = r.store; returns = r.returns; trace = r.trace }))

savepoint-Returns : {A : Type 0} (m : M A) (s : Store) → Returns m s → Returns (savepoint m) s
savepoint-Returns m s r = record {
  value = r.value;
  store = r.store;
  returns = ap (restore s.db) r.returns;
  trace = r.trace;
}

bind-ok :
    {A B : Type 0} (m : M A) (f : A → M B) (s : Store) (a : A) (t : Store)
    → m s ≡ ok a t
    → (m >>= f) s ≡ f a t
bind-ok {B = B} m f s a t e =
    ap (λ o. elim o as (λ x. Out B) [ ok x u ↦ f x u | err x u ↦ err x u ]) e

-- The checks of `complete` find the obligation.
checks-pass :
    (tenant_id : ℕ) (worker_id : String) (task_id lease_id : ℕ) (s : Store) (task : Task)
    (obligation : Receipt)
    → holding tenant_id worker_id task_id lease_id s ≡ ok task s
    → can_transition_to task TaskStatus.succeeded ≡ true
    → task_obligation tenant_id task_id (resolve_obligation_owner task.created_by) s
      ≡ some obligation
    → complete_check tenant_id worker_id task_id lease_id s ≡ ok obligation s
unfolding complete_check task_obligation_or_raise
checks-pass tenant_id worker_id task_id lease_id s task obligation held allowed owed =
    let owner = resolve_obligation_owner task.created_by in
    let allow : check_transition task TaskStatus.succeeded s ≡ ok tt s = rw allowed refl in
    bind-ok (holding tenant_id worker_id task_id lease_id)
      (λ row.
        check_transition row TaskStatus.succeeded
        >> task_obligation_or_raise tenant_id task_id (resolve_obligation_owner row.created_by))
      s task s held
    ∙ bind-ok (check_transition task TaskStatus.succeeded)
        (λ _. task_obligation_or_raise tenant_id task_id owner) s tt s allow
    ∙ ap (λ found. or_raise found (value_error "Missing task.assigned receipt") s) owed

-- A worker completes its task: if its lease is valid, the task is there and may succeed, and its
-- obligation is there, then `complete` returns, if the bodies of its two receipts are not too large, the result has
-- no more artifacts than a receipt may have, and the ledger is not integrated.
pub complete-Returns :
    (tenant_id : ℕ) (worker_id : String) (task_id lease_id : ℕ) (result : Fields)
    (artifacts : Option Json) (s : Store) (l : Lease) (task : Task) (obligation : Receipt)
    → find_valid tenant_id task_id lease_id worker_id s ≡ some l
    → find_task tenant_id task_id s.db ≡ some task
    → can_transition_to task TaskStatus.succeeded ≡ true
    → task_obligation tenant_id task_id (resolve_obligation_owner task.created_by) s
      ≡ some obligation
    → s.settings.receiptgate_integrated ≡ false
    → Fits s (completed_body result artifacts)
    → Fits s (ready_body result artifacts)
    → too_many_artifacts artifacts ≡ false
    → (t : Store) × (complete tenant_id worker_id task_id lease_id result artifacts s ≡ ok tt t)
unfolding complete complete_commit holding Leases.validate Tasks.get
complete-Returns tenant_id worker_id task_id lease_id result artifacts s l task obligation valid
      found allowed owed apart completed noticed few =
    let held : holding tenant_id worker_id task_id lease_id s ≡ ok task s =
      rw (valid, found) refl in
    let block =
      block-Returns tenant_id worker_id task_id lease_id result artifacts obligation.to_
        obligation.receipt_id task s apart completed noticed few
        (task_obligation-exists tenant_id task_id (resolve_obligation_owner task.created_by) s
          obligation owed)
        found held allowed in
    let r = savepoint-Returns _ s block in
    let checked : complete_check tenant_id worker_id task_id lease_id s ≡ ok obligation s =
      checks-pass tenant_id worker_id task_id lease_id s task obligation held allowed owed in
    let whole =
      Returns-bind (complete_check tenant_id worker_id task_id lease_id) _ s obligation s checked
        (λ τ h. h) r in
    (whole.store, whole.returns)
