-- ===== src/Client/Buffer.antt =====
-- The durable buffer of memorygate_client.py as a list, the oldest item first.
use async_gate.Prelude.{
  ℕ, ◌+◌, ◌-◌, ◌*◌, ◌^◌, min, max, Bool, some, List, [], ◌∷◌, ◌++◌, ◌==◌, leb, if◌then◌else◌,
  length, take, drop, any, select, order_by,
}
use async_gate.Store.{Settings, ReceiptGateClient, BufferedReceipt, Fault}

abbrev pub second : ℕ
second = 1_000_000

-- max(1, …buffer_size)
abbrev pub buffer_capacity : Settings → ℕ
buffer_capacity settings = max 1 settings.receiptgate_emission_buffer_size

-- `_buffer_receipt`: a full buffer drops its oldest item first.
unfoldable pub push_bounded : ℕ → BufferedReceipt → ReceiptGateClient → ReceiptGateClient
push_bounded capacity item c =
    if leb capacity (length c.buffered_receipts)
    then record c {
      buffered_receipts = drop 1 c.buffered_receipts ++ item ∷ [];
      dropped_count = c.dropped_count + 1;
    }
    else record c { buffered_receipts = c.buffered_receipts ++ item ∷ [] }

-- `_retry_delay_seconds`, in seconds: truncated subtraction is `max(0, retry_count - 1)`.
unfoldable pub retry_delay_seconds : Settings → ℕ → ℕ
retry_delay_seconds settings retry_count =
    min (max 1 settings.receiptgate_emission_retry_interval_seconds * 2 ^ (retry_count - 1)) 3600

-- The first item with the identifier is removed.
unfoldable pub remove_first : ℕ → List BufferedReceipt → List BufferedReceipt
remove_first buffer_id [] = []
remove_first buffer_id (item ∷ items) =
    if item.buffer_id == buffer_id then items else item ∷ remove_first buffer_id items

unfoldable pub has_item : ℕ → List BufferedReceipt → Bool
unfolding any
has_item buffer_id items = any (λ i. i.buffer_id == buffer_id) items

unfoldable pub remove_buffer_item : ℕ → ReceiptGateClient → ReceiptGateClient × Bool
unfolding has_item remove_first
remove_buffer_item buffer_id c = (
  record c { buffered_receipts = remove_first buffer_id c.buffered_receipts },
  has_item buffer_id c.buffered_receipts,
)

abbrev retried : Settings → ℕ → Fault → BufferedReceipt → BufferedReceipt
retried settings now fault item = record item {
  retry_count = item.retry_count + 1;
  last_error = some fault;
  next_retry_at = now + retry_delay_seconds settings (item.retry_count + 1) * second;
}

-- The first item with the identifier is tried again later, or dropped when it has had its retries.
-- The second result counts what is dropped.
unfoldable pub retry_first :
    Settings → ℕ → Fault → ℕ → List BufferedReceipt → List BufferedReceipt × ℕ
unfolding retry_delay_seconds
retry_first settings now fault buffer_id [] = ([], 0)
retry_first settings now fault buffer_id (item ∷ items) =
    let (items', dropped) = retry_first settings now fault buffer_id items in
    if item.buffer_id == buffer_id
    then (if leb settings.receiptgate_emission_max_retries item.retry_count
        then (items, 1)
        else (retried settings now fault item ∷ items, 0))
    else (item ∷ items', dropped)

unfoldable pub schedule_retry : Settings → ℕ → Fault → ℕ → ReceiptGateClient → ReceiptGateClient
unfolding retry_first
schedule_retry settings now fault buffer_id c =
    let (items, dropped) = retry_first settings now fault buffer_id c.buffered_receipts in
    record c { buffered_receipts = items; dropped_count = c.dropped_count + dropped }

-- `_load_buffer_from_disk`: the latest items that fit.
unfoldable pub load_buffer : ℕ → List BufferedReceipt → List BufferedReceipt
load_buffer capacity loaded = drop (length loaded - capacity) loaded

abbrev queued_first : BufferedReceipt → BufferedReceipt → Bool
queued_first x y = leb x.queued_at y.queued_at

-- The items that `replay_buffered_receipts` takes up.
unfoldable pub due_items : ℕ → ℕ → List BufferedReceipt → List BufferedReceipt
unfolding select order_by
due_items now limit items =
    take (max 1 limit) (order_by queued_first (select (λ i. leb i.next_retry_at now) items))
