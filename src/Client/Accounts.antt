-- ===== src/Client/Accounts.antt =====
-- No buffered receipt is lost without a trace (memorygate_client.py).
use async_gate.Prelude.{
  ℕ, ◌+◌, ◌-◌, ◌*◌, ◌^◌, ◌≤◌, ◌<◌, ◌≡◌, refl, ◌∙◌, max, Bool, true, false, List, [], ◌∷◌, Option,
  none, some, arith, is_text, if◌then◌else◌, length, any,
}
use native.Mathlib.Nat.{mul-le-mul_left, pow-le-pow_right, one-le-pow, one-le-mul}
use async_gate.Models.Json.{Fields}
use async_gate.Circuit.{CircuitBreaker, Called, done, rejected, enter, Entry, proceed, reject}
use async_gate.Store.{
  Settings, Store, ReceiptGateClient, BufferedReceipt, Fault, breaker_open, M, Out, ok, err, after,
}
use async_gate.Client.{emit_to_receiptgate, entered, through_breaker, emit_with_circuit}
use async_gate.Client.Buffer.{
  retry_delay_seconds, remove_first, has_item, remove_buffer_item, retry_first, schedule_retry,
  due_items,
}
use async_gate.Client.Replay.{
  nothing, count_remaining, Summary, count_success, give_back, replayed_one, replay_items,
  replay_buffered_receipts,
}

-- The delay before a retry is at least a second and at most an hour, and it does not get shorter from
-- one retry to the next.
pub retry_delay-bounds :
    (settings : Settings) (m n : ℕ)
    → m ≤ n
    → (1 ≤ retry_delay_seconds settings m)
      × (retry_delay_seconds settings n ≤ 3600)
      × (retry_delay_seconds settings m ≤ retry_delay_seconds settings n)
unfolding retry_delay_seconds
retry_delay-bounds settings m n h =
    let base : ℕ = max 1 settings.receiptgate_emission_retry_interval_seconds in
    let later : m - 1 ≤ n - 1 = omega arith in
    let two : 0 < 2 = omega arith in
    let one : 1 ≤ base * 2 ^ (m - 1) = positive base (m - 1) (omega arith) in
    let more : base * 2 ^ (m - 1) ≤ base * 2 ^ (n - 1) =
      mul-le-mul_left base (pow-le-pow_right {n = 2} two {i = m - 1} {j = n - 1} later) in
    (omega (arith, one), omega arith, omega (arith, more))
  where
    positive : (base k : ℕ) → 1 ≤ base → 1 ≤ base * 2 ^ k
    positive base k h = one-le-mul h (one-le-pow k 2 (omega arith))

-- What the client has in hand and what it has let go of.
unfoldable pub total : ReceiptGateClient → ℕ
total c = length c.buffered_receipts + c.dropped_count + c.replayed_success_count

remove_first-length :
    (id : ℕ) (items : List BufferedReceipt)
    → length (remove_first id items) + (if has_item id items then 1 else 0) ≡ length items
unfolding remove_first has_item any
remove_first-length id [] = omega arith
remove_first-length id (i ∷ is) = ground (arith, remove_first-length id is)

retry_first-length :
    (settings : Settings) (now : ℕ) (fault : Fault) (id : ℕ) (items : List BufferedReceipt)
    → length (retry_first settings now fault id items).0
        + (retry_first settings now fault id items).1
      ≡ length items
unfolding retry_first
retry_first-length settings now fault id [] = omega arith
retry_first-length settings now fault id (i ∷ is) =
    ground (arith, retry_first-length settings now fault id is)

schedule_retry-total :
    (settings : Settings) (now : ℕ) (fault : Fault) (id : ℕ) (c : ReceiptGateClient)
    → total (schedule_retry settings now fault id c) ≡ total c
unfolding total schedule_retry
schedule_retry-total settings now fault id c =
    omega (arith, retry_first-length settings now fault id c.buffered_receipts)

success-total :
    (id : ℕ) (c : ReceiptGateClient) → total (count_success (remove_buffer_item id c)) ≡ total c
unfolding total remove_buffer_item
success-total id c = ground (arith, remove_first-length id c.buffered_receipts)

entered-total :
    (receipt : Fields) (b : CircuitBreaker) (entry : Entry) (s : Store)
    → total (after (entered receipt b entry s)).client ≡ total s.client
unfolding total emit_to_receiptgate
entered-total receipt b proceed s = refl
entered-total receipt b (reject wait) s = refl

-- A call of the ledger moves no receipt.
emit-total :
    (receipt : Fields) (s : Store)
    → total (after (emit_with_circuit receipt s)).client ≡ total s.client
unfolding emit_with_circuit
emit-total receipt s = through s.client.circuit_breaker
  where
    through :
        (b : Option CircuitBreaker)
        → total (after (through_breaker receipt b s)).client ≡ total s.client
    through none = unfold total emit_to_receiptgate in refl
    through (some b) =
        let (b', entry) = enter b s.clock in
        entered-total receipt b' entry
          (record s { client = record s.client { circuit_breaker = some b' } })
        ∙ (unfold total in refl)

module _ {A B : Type 0} where
  bind-total :
      (s : Store) (o : Out A) (f : A → M B)
      → total (after o).client ≡ total s.client
      → ((a : A) (t : Store) → total (after (f a t)).client ≡ total t.client)
      → total (after (elim o [ ok a t ↦ f a t | err e t ↦ err e t ])).client ≡ total s.client
  bind-total s (ok a t) f h k = k a t ∙ h
  bind-total s (err e t) f h k = h

give_back-total :
    (item : BufferedReceipt) (fault : Fault) (s : Store)
    → total (after (give_back item fault s)).client ≡ total s.client
give_back-total item fault s =
    schedule_retry-total s.settings s.clock fault item.buffer_id
      (record s.client { replayed_failure_count = s.client.replayed_failure_count + 1 })
    ∙ (unfold total in refl)

if-total :
    (b : Bool) (m n : M Summary) (s : Store)
    → total (after (m s)).client ≡ total s.client
    → total (after (n s)).client ≡ total s.client
    → total (after ((if b then m else n) s)).client ≡ total s.client
if-total true m n s h k = h
if-total false m n s h k = k

replayed_one-total :
    (sum : Summary) (item : BufferedReceipt) (replayed gone missed : M Summary)
    (called : Called Fields Fault)
    → ((t : Store) → total (after (replayed t)).client ≡ total t.client)
    → ((t : Store) → total (after (gone t)).client ≡ total t.client)
    → ((t : Store) → total (after (missed t)).client ≡ total t.client)
    → (s : Store)
    → total (after (replayed_one sum item replayed gone missed called s)).client ≡ total s.client
replayed_one-total sum item replayed gone missed (done fields) p q r s =
    let t = record s { client = count_success (remove_buffer_item item.buffer_id s.client) } in
    if-total (remove_buffer_item item.buffer_id s.client).1 replayed gone t (p t) (q t)
    ∙ success-total item.buffer_id s.client
replayed_one-total sum item replayed gone missed (rejected wait) p q r s =
    give_back-total item (breaker_open wait) s
replayed_one-total sum item replayed gone missed (Called.error fault) p q r s =
    r (after (give_back item fault s)) ∙ give_back-total item fault s

replay_items-total :
    (items : List BufferedReceipt) (sum : Summary) (s : Store)
    → total (after (replay_items sum items s)).client ≡ total s.client
unfolding replay_items
replay_items-total [] sum s = refl
replay_items-total (item ∷ items) sum s =
    bind-total s (emit_with_circuit item.receipt s) _ (emit-total item.receipt s) λ called t.
      replayed_one-total sum item (replay_items (record sum { replayed = sum.replayed + 1 }) items)
        (replay_items sum items) (replay_items (record sum { failed = sum.failed + 1 }) items)
        called (replay_items-total items (record sum { replayed = sum.replayed + 1 }))
        (replay_items-total items sum)
        (replay_items-total items (record sum { failed = sum.failed + 1 })) t

-- Whatever the ledger answers, a replay loses no receipt without a trace: the buffered receipts with
-- the numbers of those that were dropped and of those that were replayed stay the same in total.
pub replay-total :
    (limit : ℕ) (s : Store)
    → total (after (replay_buffered_receipts limit s)).client ≡ total s.client
unfolding replay_buffered_receipts
replay-total limit s =
    if-total (is_text s.settings.receiptgate_endpoint) _ (count_remaining nothing) s
      (bind-total s (replay_items nothing (due_items s.clock limit s.client.buffered_receipts) s)
        count_remaining
        (replay_items-total (due_items s.clock limit s.client.buffered_receipts) nothing s)
        (λ sum t. refl))
      refl
