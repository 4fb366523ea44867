-- ===== src/Client.antt =====
-- asyncgate/integrations/memorygate_client.py: the ReceiptGate client and its buffer. The network is
-- `env.post`; the buffer is what the file on disk holds, and the background worker is a call of
-- `replay_buffered_receipts`.
pub mod Buffer
pub mod Replay
pub mod Accounts
use async_gate.Prelude.{
  ℕ, suc, ◌+◌, ◌-◌, ◌*◌, ◌^◌, min, max, Bool, true, false, Option, none, some, List, [], ◌∷◌, ◌++◌,
  String, str_eq, ◌==◌, if◌then◌else◌, length, any,
}
use async_gate.Circuit.{
  CircuitBreaker, Reply, returned, answered, raised, Called, done, rejected, enter, finish, Entry,
  proceed, reject,
}
use async_gate.Models.Json.{Json, Fields, get}
use async_gate.Store.{
  Env, Settings, Store, ReceiptGateClient, BufferedReceipt, Response, unreachable, result, Fault,
  circuit_open, breaker_open, refused, failed, Error, receipt_unbufferable, M, ◌>>=◌, ◌>>◌, pure,
  raise, gets, modify, uuid4,
}
use Buffer.{push_bounded, buffer_capacity}

-- GOVERNANCE_REFUSALS
abbrev pub governance_refusals : List String
governance_refusals =
    "OBLIGATION_ALREADY_ACCEPTED" ∷ "OBLIGATION_ALREADY_EXISTS" ∷ "OBLIGATION_ALREADY_TERMINATED"
    ∷ "OBLIGATION_NOT_RECOVERABLE" ∷ "ACTOR_NOT_PERMITTED" ∷ "COMPLETE_WITHOUT_ACCEPT"
    ∷ "ESCALATE_WITHOUT_ACCEPT" ∷ "ACTOR_NOT_CUSTODIAN" ∷ "OBLIGATION_ID_REQUIRED"
    ∷ "IDENTITY_MISMATCH" ∷ "TENANT_MISMATCH" ∷ "NOT_PERMITTED" ∷ "NOT_VISIBLE"
    ∷ "ROUTING_INVARIANT_VIOLATION" ∷ "validation_failed" ∷ []

-- _TRANSITION_FOR_PHASE
abbrev transition_for_phase : String → Option String
transition_for_phase phase =
    if str_eq phase "accepted"
    then some "ACCEPT"
    else if str_eq phase "complete"
    then some "COMPLETE"
    else if str_eq phase "escalate"
    then some "ESCALATE"
    else none

abbrev text_of : Option Json → String
text_of (some (Json.str s)) = s
text_of _ = ""

abbrev pub phase_of : Fields → String
phase_of receipt = text_of (get "phase" receipt)

abbrev may_buffer_name : Env → Option String → Bool
may_buffer_name env none = false
may_buffer_name env (some name) = env.may_buffer name

unfoldable pub phase_may_buffer : Env → String → Bool
phase_may_buffer env phase = may_buffer_name env (transition_for_phase phase)

-- What `_emit_to_receiptgate` makes of an answer.
unfoldable pub read_response : Response → Reply Fields Fault
unfolding any
read_response (unreachable why) = raised (failed why)
read_response (Response.error none) = raised (failed "ReceiptGate error")
read_response (Response.error (some code)) =
    if any (λ c. str_eq code c) governance_refusals
    then answered (refused code)
    else raised (failed "ReceiptGate error")
read_response (result fields) = returned fields

abbrev put_client : (ReceiptGateClient → ReceiptGateClient) → M Unit
put_client f = modify λ s. record s { client = f s.client }

-- The POST: the client remembers what it has sent.
unfoldable pub emit_to_receiptgate : Fields → M (Reply Fields Fault)
unfolding read_response
emit_to_receiptgate receipt = do
  reply ← gets (λ s. read_response (s.env.post (length s.client.posts) receipt))
  put_client (λ c. record c { posts = receipt ∷ c.posts })
  pure reply

-- A call through the breaker, or straight to the ledger where there is none.
abbrev pub end_call : CircuitBreaker → Reply Fields Fault → M (Called Fields Fault)
end_call b reply = do
  now ← gets (λ s. s.clock)
  let (b', called) = finish b reply now
  put_client (λ c. record c { circuit_breaker = some b' })
  pure called

abbrev plain : Reply Fields Fault → Called Fields Fault
plain (returned a) = done a
plain (answered e) = Called.error e
plain (raised e) = Called.error e

abbrev pub entered : Fields → CircuitBreaker → Entry → M (Called Fields Fault)
entered receipt b proceed = do reply ← emit_to_receiptgate receipt; end_call b reply
entered receipt b (reject wait) = pure (rejected wait)

abbrev pub through_breaker : Fields → Option CircuitBreaker → M (Called Fields Fault)
through_breaker receipt none = do reply ← emit_to_receiptgate receipt; pure (plain reply)
through_breaker receipt (some b) = do
  now ← gets (λ s. s.clock)
  let (b', entry) = enter b now
  put_client (λ c. record c { circuit_breaker = some b' })
  entered receipt b' entry

unfoldable pub emit_with_circuit : Fields → M (Called Fields Fault)
unfolding emit_to_receiptgate enter finish
emit_with_circuit receipt = do
  breaker ← gets (λ s. s.client.circuit_breaker)
  through_breaker receipt breaker

-- The status of an emission.
pub data Emission : Type 0 where
  skipped : Emission
  delivered : Fields → Emission
  refusal : String → Emission
  buffered : ℕ → ℕ → Emission

unfoldable pub new_item : ℕ → ℕ → Fields → Fault → BufferedReceipt
new_item buffer_id now receipt fault = record {
  buffer_id = buffer_id;
  receipt = receipt;
  queued_at = now;
  next_retry_at = now;
  retry_count = 0;
  last_error = some fault;
}

unfoldable pub buffer_receipt : Fields → Fault → M Emission
unfolding new_item push_bounded
buffer_receipt receipt fault = do
  now ← gets (λ s. s.clock)
  buffer_id ← uuid4
  capacity ← gets (λ s. buffer_capacity s.settings)
  put_client (push_bounded capacity (new_item buffer_id now receipt fault))
  pending ← gets (λ s. length s.client.buffered_receipts)
  pure (buffered buffer_id pending)

-- A transition that may not wait fails instead.
unfoldable pub buffer_or_fail : Fields → Fault → M Emission
unfolding phase_may_buffer buffer_receipt
buffer_or_fail receipt fault = do
  may ← gets (λ s. phase_may_buffer s.env (phase_of receipt))
  if may then buffer_receipt receipt fault else raise receipt_unbufferable

-- With an open circuit the fallback runs; a refusal is a verdict; any other failure is buffered.
abbrev pub conclude : Fields → Called Fields Fault → M Emission
conclude receipt (done fields) = pure (delivered fields)
conclude receipt (rejected wait) = buffer_or_fail receipt circuit_open
conclude receipt (Called.error (refused code)) = pure (refusal code)
conclude receipt (Called.error fault) = buffer_or_fail receipt fault

abbrev pub emit_to : Option String → Fields → M Emission
emit_to none receipt = pure skipped
emit_to (some endpoint) receipt =
    if str_eq endpoint ""
    then pure skipped
    else do called ← emit_with_circuit receipt; conclude receipt called

unfoldable pub emit_receipt : Fields → M Emission
unfolding emit_with_circuit buffer_or_fail
emit_receipt receipt = do
  endpoint ← gets (λ s. s.settings.receiptgate_endpoint)
  emit_to endpoint receipt

-- list_custody: the tasks of the obligations that the ledger lists for the principal, or none where
-- it cannot be read.
abbrev read_custody : String → Option String → Store → Option (List (Option ℕ))
read_custody recipient none s = none
read_custody recipient (some endpoint) s =
    if str_eq endpoint "" then none else s.env.list_inbox (length s.client.posts) recipient

unfoldable pub list_custody : String → Store → Option (List (Option ℕ))
list_custody recipient s = read_custody recipient s.settings.receiptgate_endpoint s
