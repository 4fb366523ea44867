-- ===== src/Invariant/Receipts.antt =====
-- Receipts, progress, relationships and the ledger's client leave tasks and leases alone.
use async_gate.Prelude.{ℕ, Bool, Option, none, some, List, [], ◌∷◌, String, ◌≡◌, refl}
use async_gate.Models.Json.{Fields}
use async_gate.Models.Records.{Principal, Task, Receipt, Relationship}
use async_gate.Store.{Store, M, when}
use async_gate.Store.Closed.{Closed, Within-when}
use async_gate.Invariant.Emission.{
  emit_with_circuit-Within, emit-Within, emit_result_ready-Within, replay-Within,
}
use async_gate.Store.Frame.{
  Quiet, Quiet-refl, Quiet-trans, IsQuiet-uuid4, Quiet-put, IsQuiet, IsQuiet-pure, quiet_rules,
}
use async_gate.Engine.Tasker.{ack_receipt, bootstrap}
use async_gate.Client.Replay.{replay_buffered_receipts}
use async_gate.Client.{emit_with_circuit}
use async_gate.Models.Enums.{PrincipalKind}
use async_gate.Repositories.Progress
use async_gate.Repositories.Ledger
use async_gate.Repositories.Receipts.{NewReceipt, add_receipt}
use async_gate.Engine.Emit.{emit, emit_result_ready}

pub Quiet-Closed : Closed Quiet
Quiet-Closed = record {
  same = Quiet-refl;
  both = Quiet-trans;
  fresh = λ s. IsQuiet-uuid4.at s;
  client = λ s client. Quiet-put s s.db client s.trace_id refl refl;
  trace = λ s trace_id. Quiet-put s s.db s.client trace_id refl refl;
}

pub IsQuiet-when : (b : Bool) (m : M Unit) → IsQuiet m → IsQuiet (when b m)
IsQuiet-when b m p = Within-when Quiet-Closed b m p

pub emit_with_circuit-IsQuiet : (receipt : Fields) → IsQuiet (emit_with_circuit receipt)
emit_with_circuit-IsQuiet receipt = emit_with_circuit-Within Quiet-Closed receipt

pub Quiet-add :
    (tenant_id : ℕ) (s : Store) (r : Receipt)
    → r.tenant_id ≡ tenant_id
    → Quiet s (record s { db = add_receipt r s.db })
Quiet-add tenant_id s r h = Quiet-put s (add_receipt r s.db) s.client s.trace_id refl refl

pub emit-IsQuiet : (tenant_id : ℕ) (new : NewReceipt) → IsQuiet (emit tenant_id new)
emit-IsQuiet tenant_id new = emit-Within Quiet-Closed tenant_id (Quiet-add tenant_id) new

pub emit_result_ready-IsQuiet :
    (tenant_id : ℕ) (task : Task) (owner : Principal) (parents : List ℕ)
    → IsQuiet (emit_result_ready tenant_id task owner parents)
emit_result_ready-IsQuiet tenant_id task owner parents =
    emit_result_ready-Within Quiet-Closed tenant_id (Quiet-add tenant_id) task owner parents

pub replay-IsQuiet : (limit : ℕ) → IsQuiet (replay_buffered_receipts limit)
replay-IsQuiet limit = replay-Within Quiet-Closed limit

pub update-IsQuiet :
    (tenant_id task_id : ℕ) (progress : Fields)
    → IsQuiet (Progress.update tenant_id task_id progress)
unfolding Progress.update
update-IsQuiet tenant_id task_id progress = record {
  at = λ s.
      Quiet-put s (record s.db { progress = Progress.upserted _ s.db.progress }) s.client s.trace_id
        refl refl;
}

upsert_found-IsQuiet :
    (now tenant_id : ℕ) (kind : PrincipalKind) (id : String) (instance_id : Option String)
    (found : Option Relationship)
    → IsQuiet (Progress.upsert_found now tenant_id kind id instance_id found)
upsert_found-IsQuiet now tenant_id kind id instance_id none = record {
  at = λ s. Quiet-put s _ s.client s.trace_id refl refl;
}
upsert_found-IsQuiet now tenant_id kind id instance_id (some r) = record {
  at = λ s. Quiet-put s _ s.client s.trace_id refl refl;
}

pub upsert-IsQuiet :
    (tenant_id : ℕ) (kind : PrincipalKind) (id : String) (instance_id : Option String)
    → IsQuiet (Progress.upsert tenant_id kind id instance_id)
unfolding Progress.upsert
upsert-IsQuiet tenant_id kind id instance_id = search (quiet_rules, upsert_found-IsQuiet)

pub mark_delivered-IsQuiet :
    (tenant_id : ℕ) (receipt_ids : List ℕ) → IsQuiet (Ledger.mark_delivered tenant_id receipt_ids)
unfolding Ledger.mark_delivered
mark_delivered-IsQuiet tenant_id [] = IsQuiet-pure 0
mark_delivered-IsQuiet tenant_id (i ∷ is) = record {
  at = λ s. Quiet-put s _ s.client s.trace_id refl refl;
}

pub ack_receipt-IsQuiet :
    (tenant_id receipt_id : ℕ) (principal : Principal)
    → IsQuiet (ack_receipt tenant_id receipt_id principal)
unfolding ack_receipt
ack_receipt-IsQuiet tenant_id receipt_id principal = search emit-IsQuiet

pub bootstrap-IsQuiet :
    (tenant_id : ℕ) (principal : Principal) (since max_items : Option ℕ)
    → IsQuiet (bootstrap tenant_id principal since max_items)
unfolding bootstrap
bootstrap-IsQuiet tenant_id principal since max_items =
    search (quiet_rules, upsert-IsQuiet, mark_delivered-IsQuiet) depth 12
