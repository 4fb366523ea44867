-- ===== src/Client/Replay.antt =====
-- `replay_buffered_receipts` of memorygate_client.py
use async_gate.Prelude.{ℕ, ◌+◌, Bool, List, [], ◌∷◌, is_text, if◌then◌else◌, length}
use async_gate.Circuit.{Called, done, rejected}
use async_gate.Models.Json.{Fields}
use async_gate.Store.{
  ReceiptGateClient, BufferedReceipt, Fault, breaker_open, M, ◌>>=◌, ◌>>◌, pure, gets, modify,
}
use async_gate.Client.{emit_with_circuit}
use async_gate.Client.Buffer.{remove_buffer_item, schedule_retry, due_items}

pub record Summary : Type 0 where
  pub replayed : ℕ
  pub failed : ℕ
  pub blocked : ℕ
  pub remaining : ℕ

abbrev pub nothing : Summary
nothing = record { replayed = 0; failed = 0; blocked = 0; remaining = 0 }

-- `_remove_buffer_item`, with the success counted if the item was still there.
abbrev pub count_success : ReceiptGateClient × Bool → ReceiptGateClient
count_success (c, removed) =
    if removed then record c { replayed_success_count = c.replayed_success_count + 1 } else c

abbrev pub give_back : BufferedReceipt → Fault → M Unit
give_back item fault = modify λ s. record s {
  client =
      schedule_retry s.settings s.clock fault item.buffer_id
        (record s.client { replayed_failure_count = s.client.replayed_failure_count + 1 });
}

-- One round, with the rest of the loop for each way in which it ends: an open circuit ends the loop,
-- and any other failure, a refusal included, goes on.
abbrev pub replayed_one :
    Summary → BufferedReceipt → M Summary → M Summary → M Summary → Called Fields Fault → M Summary
replayed_one sum item replayed gone failed (done fields) = do
  removed ← gets (λ s. (remove_buffer_item item.buffer_id s.client).1)
  modify (λ s. record s { client = count_success (remove_buffer_item item.buffer_id s.client) })
  if removed then replayed else gone
replayed_one sum item replayed gone failed (rejected wait) = do
  give_back item (breaker_open wait)
  pure (record sum { blocked = sum.blocked + 1 })
replayed_one sum item replayed gone failed (Called.error fault) = do give_back item fault; failed

-- The loop.
unfoldable pub replay_items : Summary → List BufferedReceipt → M Summary
unfolding emit_with_circuit remove_buffer_item schedule_retry
replay_items sum [] = pure sum
replay_items sum (item ∷ items) =
    let replayed = replay_items (record sum { replayed = sum.replayed + 1 }) items in
    let gone = replay_items sum items in
    let failed = replay_items (record sum { failed = sum.failed + 1 }) items in
    do called ← emit_with_circuit item.receipt; replayed_one sum item replayed gone failed called

abbrev pub count_remaining : Summary → M Summary
count_remaining sum = gets λ s. record sum { remaining = length s.client.buffered_receipts }

unfoldable pub replay_buffered_receipts : ℕ → M Summary
unfolding replay_items due_items
replay_buffered_receipts limit = do
  configured ← gets (λ s. is_text s.settings.receiptgate_endpoint)
  if configured
      then (do
        items ← gets (λ s. due_items s.clock limit s.client.buffered_receipts)
        sum ← replay_items nothing items
        count_remaining sum)
      else count_remaining nothing
