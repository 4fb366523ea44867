-- ===== src/Invariant/Emission.antt =====
-- The ledger's client, the trace and the receipts of a tenant, under any relation that their writes
-- keep.
use async_gate.Prelude.{ℕ, ◌+◌, ◌≡◌, Option, none, some, List, [], ◌∷◌, String, refl}
use async_gate.Models.Json.{Json, Fields}
use async_gate.Models.Records.{Principal, Task, Receipt}
use async_gate.Circuit.{Called, Reply, done, rejected, CircuitBreaker, proceed, reject, Entry}
use async_gate.Store.{
  Store, Error, M, ReceiptGateClient, Fault, refused, circuit_open, breaker_open, failed, pure,
  modify, when, ◌>>◌,
}
use async_gate.Store.Frame.{Within}
use async_gate.Store.Closed.{
  Closed, Within-pure, Within-raise, Within-client, within_rules, Within-trace, Within-bind,
  Within-when,
}
use async_gate.Store.{BufferedReceipt}
use async_gate.Client.Replay.{
  Summary, give_back, replayed_one, replay_items, replay_buffered_receipts,
}
use async_gate.Client.{
  end_call, entered, through_breaker, conclude, emit_to, emit_to_receiptgate, emit_with_circuit,
  buffer_receipt, buffer_or_fail, emit_receipt,
}
use async_gate.Repositories.Receipts
use async_gate.Repositories.Receipts.{
  NewReceipt, add_receipt, anomaly_receipt, new_receipt, lacks_locatability,
}
use async_gate.Engine.Emit.{
  trace_found, forward_payload, emit, forward, ensure_trace_id, emit_result_ready,
}

module _ {R : Store → Store → Type 0} (c : Closed R) where
  client_put : (f : Store → ReceiptGateClient) → Within R (modify λ s. record s { client = f s })
  client_put f = Within-client c f

  trace_put : (t : Option Json) → Within R (modify λ s. record s { trace_id = t })
  trace_put t = Within-trace c (λ s. t)

  emit_to_receiptgate-Within : (receipt : Fields) → Within R (emit_to_receiptgate receipt)
  unfolding emit_to_receiptgate
  emit_to_receiptgate-Within receipt = search (within_rules, client_put) depth 16

  end_call-Within : (b : CircuitBreaker) (reply : Reply Fields Fault) → Within R (end_call b reply)
  end_call-Within b reply = search (within_rules, client_put) depth 16

  entered-Within :
      (receipt : Fields) (b : CircuitBreaker) (entry : Entry) → Within R (entered receipt b entry)
  entered-Within receipt b proceed =
      search (within_rules, emit_to_receiptgate-Within, end_call-Within) depth 16
  entered-Within receipt b (reject wait) = Within-pure c _

  through_breaker-Within :
      (receipt : Fields) (b : Option CircuitBreaker) → Within R (through_breaker receipt b)
  through_breaker-Within receipt none = search (within_rules, emit_to_receiptgate-Within) depth 16
  through_breaker-Within receipt (some b) =
      search (within_rules, client_put, entered-Within) depth 16

  pub emit_with_circuit-Within : (receipt : Fields) → Within R (emit_with_circuit receipt)
  unfolding emit_with_circuit
  emit_with_circuit-Within receipt = search (within_rules, through_breaker-Within) depth 16

  buffer_receipt-Within :
      (receipt : Fields) (fault : Fault) → Within R (buffer_receipt receipt fault)
  unfolding buffer_receipt
  buffer_receipt-Within receipt fault = search (within_rules, client_put) depth 16

  buffer_or_fail-Within :
      (receipt : Fields) (fault : Fault) → Within R (buffer_or_fail receipt fault)
  unfolding buffer_or_fail
  buffer_or_fail-Within receipt fault = search (within_rules, buffer_receipt-Within) depth 16

  conclude-Within :
      (receipt : Fields) (called : Called Fields Fault) → Within R (conclude receipt called)
  conclude-Within receipt (done fields) = Within-pure c _
  conclude-Within receipt (rejected wait) = buffer_or_fail-Within receipt _
  conclude-Within receipt (Called.error (refused code)) = Within-pure c _
  conclude-Within receipt (Called.error circuit_open) = buffer_or_fail-Within receipt _
  conclude-Within receipt (Called.error (breaker_open wait)) = buffer_or_fail-Within receipt _
  conclude-Within receipt (Called.error (failed why)) = buffer_or_fail-Within receipt _

  emit_to-Within :
      (endpoint : Option String) (receipt : Fields) → Within R (emit_to endpoint receipt)
  emit_to-Within none receipt = Within-pure c _
  emit_to-Within (some endpoint) receipt =
      search (within_rules, emit_with_circuit-Within, conclude-Within) depth 16

  emit_receipt-Within : (receipt : Fields) → Within R (emit_receipt receipt)
  unfolding emit_receipt
  emit_receipt-Within receipt = search (within_rules, emit_to-Within) depth 16

  trace_found-Within : (t : Option Json) → Within R (trace_found t)
  trace_found-Within (some t) = Within-pure c t
  trace_found-Within none = search (within_rules, trace_put) depth 16

  ensure_trace_id-Within : Within R ensure_trace_id
  unfolding ensure_trace_id
  ensure_trace_id-Within = search (within_rules, trace_found-Within) depth 16

  forward_payload-Within :
      (new : NewReceipt) (payload : Option Fields) → Within R (forward_payload new payload)
  forward_payload-Within new none = Within-pure c tt
  forward_payload-Within new (some payload) =
      search (within_rules, emit_receipt-Within, Within-when) depth 16

  forward-Within :
      (tenant_id : ℕ) (new : NewReceipt) (receipt : Receipt)
      → Within R (forward tenant_id new receipt)
  unfolding forward
  forward-Within tenant_id new receipt = search (within_rules, forward_payload-Within) depth 16

  give_back-Within : (item : BufferedReceipt) (fault : Fault) → Within R (give_back item fault)
  give_back-Within item fault = client_put _

  replayed_one-Within :
      (sum : Summary) (item : BufferedReceipt) (replayed gone missed : M Summary)
      (called : Called Fields Fault)
      → Within R replayed
      → Within R gone
      → Within R missed
      → Within R (replayed_one sum item replayed gone missed called)
  replayed_one-Within sum item replayed gone missed (done fields) p q r =
      search (within_rules, client_put) depth 16
  replayed_one-Within sum item replayed gone missed (rejected wait) p q r =
      search (within_rules, give_back-Within) depth 16
  replayed_one-Within sum item replayed gone missed (Called.error fault) p q r =
      search (within_rules, give_back-Within) depth 16

  replay_items-Within :
      (items : List BufferedReceipt) (sum : Summary) → Within R (replay_items sum items)
  unfolding replay_items
  replay_items-Within [] sum = Within-pure c sum
  replay_items-Within (item ∷ items) sum =
      Within-bind c (emit_with_circuit item.receipt) _ (emit_with_circuit-Within item.receipt)
        λ called.
          replayed_one-Within sum item _ _ _ called
            (replay_items-Within items (record sum { replayed = sum.replayed + 1 }))
            (replay_items-Within items sum)
            (replay_items-Within items (record sum { failed = sum.failed + 1 }))

  pub replay-Within : (limit : ℕ) → Within R (replay_buffered_receipts limit)
  unfolding replay_buffered_receipts
  replay-Within limit = search (within_rules, replay_items-Within) depth 16

module _ {R : Store → Store → Type 0} (c : Closed R) (tenant_id : ℕ)
    (add : (s : Store) (r : Receipt)
      → r.tenant_id ≡ tenant_id
      → R s (record s { db = add_receipt r s.db })) where
  emit_anomaly-Within :
      (receipt_id : ℕ) (new : NewReceipt)
      → Within R (Receipts.emit_anomaly tenant_id receipt_id new)
  unfolding Receipts.emit_anomaly
  emit_anomaly-Within receipt_id new = record {
    at = λ s. c.both (c.fresh s) (add _ _ (unfold anomaly_receipt in refl));
  }

  anomaly_then :
      (receipt_id : ℕ) (new : NewReceipt) (row : Receipt)
      → Within R (
          when (lacks_locatability new) (Receipts.emit_anomaly tenant_id receipt_id new)
          >> pure row)
  anomaly_then receipt_id new row = search (within_rules, Within-when, emit_anomaly-Within) depth 12

  insert-Within :
      (receipt_id : ℕ) (new : NewReceipt) → Within R (Receipts.insert tenant_id receipt_id new)
  unfolding Receipts.insert
  insert-Within receipt_id new = record {
    at = λ s.
        c.both (add s (new_receipt s tenant_id receipt_id new) (unfold new_receipt in refl))
          ((anomaly_then receipt_id new (new_receipt s tenant_id receipt_id new)).at _);
  }

  insert_unless-Within :
      (receipt_id : ℕ) (new : NewReceipt) (found : Option Receipt)
      → Within R (Receipts.insert_unless tenant_id receipt_id new found)
  insert_unless-Within receipt_id new none = insert-Within receipt_id new
  insert_unless-Within receipt_id new (some r) = Within-pure c r

  create_checked-Within :
      (receipt_id : ℕ) (new : NewReceipt) (refused : Option Error)
      → Within R (Receipts.create_checked tenant_id receipt_id new refused)
  create_checked-Within receipt_id new (some e) = Within-raise c e
  create_checked-Within receipt_id new none = search (within_rules, insert_unless-Within)

  pub create-Within : (new : NewReceipt) → Within R (Receipts.create tenant_id new)
  unfolding Receipts.create
  create-Within new = search (within_rules, create_checked-Within)

  pub emit-Within : (new : NewReceipt) → Within R (emit tenant_id new)
  unfolding emit
  emit-Within new =
      search (within_rules, ensure_trace_id-Within, create-Within, forward-Within, Within-when)
        depth 16

  pub emit_result_ready-Within :
      (task : Task) (owner : Principal) (parents : List ℕ)
      → Within R (emit_result_ready tenant_id task owner parents)
  unfolding emit_result_ready
  emit_result_ready-Within task owner parents = search emit-Within
