-- ===== src/Invariant/Returns.antt =====
-- That an operation returns (repositories.py `ReceiptRepository.create`, core.py `_emit_receipt`).
use async_gate.Prelude.{
  ℕ, suc, ◌≡◌, refl, sym, ap, subst, ◌∙◌, Bool, true, false, Option, none, some, arith,
}
use async_gate.Models.Json.{Json}
use async_gate.Models.Enums.{ReceiptType}
use async_gate.Models.Records.{Receipt}
use async_gate.Store.{Store, Settings, after, M, Error, ok, err, ◌>>=◌, when, pure}
use async_gate.Repositories.Receipts.{
  NewReceipt, rejection, lacks_locatability, emit_anomaly, insert, insert_unless, create_checked,
  create, new_receipt, add_receipt, get_by_hash, receipt_hash_to_use,
}
use async_gate.Invariant.Emission.{create-Within}
use async_gate.Invariant.Receipts.{Quiet-Closed, Quiet-add}
use async_gate.Engine.Emit.{trace_found, ensure_trace_id, traced, emit, is_forwarded}

-- The trace, once there is one, stays.
abbrev pub TraceStays : Store → Store → Type 0
TraceStays s t = (trace : Json) → s.trace_id ≡ some trace → t.trace_id ≡ some trace

pub record Returns {A : Type 0} (m : M A) (s : Store) : Type 0 where
  pub value : A
  pub store : Store
  pub returns : m s ≡ ok value store
  pub trace : TraceStays s store

module _ {A B : Type 0} where
  pub Returns-bind :
      (m : M A) (f : A → M B) (s : Store) (a : A) (t : Store)
      → m s ≡ ok a t
      → TraceStays s t
      → Returns (f a) t
      → Returns (m >>= f) s
  Returns-bind m f s a t e k r = record {
    value = r.value;
    store = r.store;
    returns =
        subst (λ o. elim o [ ok x u ↦ f x u | err x u ↦ err x u ] ≡ ok r.value r.store) (sym e)
          r.returns;
    trace = λ trace h. r.trace trace (k trace h);
  }

when-Returns : (b : Bool) (m : M Unit) (s : Store) → Returns m s → Returns (when b m) s
when-Returns true m s r = r
when-Returns false m s r = record { value = tt; store = s; returns = refl; trace = λ trace h. h }

anomaly-Returns :
    (tenant_id receipt_id : ℕ) (new : NewReceipt) (s : Store)
    → Returns (emit_anomaly tenant_id receipt_id new) s
unfolding emit_anomaly
anomaly-Returns tenant_id receipt_id new s = record {
  value = tt;
  store = _;
  returns = refl;
  trace = λ trace h. h;
}

insert-Returns :
    (tenant_id receipt_id : ℕ) (new : NewReceipt) (s : Store)
    → Returns (insert tenant_id receipt_id new) s
unfolding insert
insert-Returns tenant_id receipt_id new s =
    let row = new_receipt s tenant_id receipt_id new in
    let added = record s { db = add_receipt row s.db } in
    let r =
      when-Returns (lacks_locatability new) _ added
        (anomaly-Returns tenant_id receipt_id new added) in
    let whole =
      Returns-bind (when (lacks_locatability new) (emit_anomaly tenant_id receipt_id new))
        (λ _. pure row) added r.value r.store r.returns r.trace
        (record { value = row; store = r.store; returns = refl; trace = λ trace h. h }) in
    record {
      value = whole.value;
      store = whole.store;
      returns = whole.returns;
      trace = whole.trace;
    }

insert_unless-Returns :
    (tenant_id receipt_id : ℕ) (new : NewReceipt) (found : Option Receipt) (s : Store)
    → Returns (insert_unless tenant_id receipt_id new found) s
insert_unless-Returns tenant_id receipt_id new none s = insert-Returns tenant_id receipt_id new s
insert_unless-Returns tenant_id receipt_id new (some r) s = record {
  value = r;
  store = s;
  returns = refl;
  trace = λ trace h. h;
}

checked-Returns :
    (tenant_id receipt_id : ℕ) (new : NewReceipt) (refused : Option Error) (s : Store)
    → refused ≡ none
    → Returns (create_checked tenant_id receipt_id new refused) s
checked-Returns tenant_id receipt_id new (some e) s h = ground (arith, h)
checked-Returns tenant_id receipt_id new none s h =
    let r =
      insert_unless-Returns tenant_id receipt_id new
        (get_by_hash tenant_id (receipt_hash_to_use s new) s) s in
    record { value = r.value; store = r.store; returns = r.returns; trace = r.trace }

-- A receipt that no check rejects is created, or the one with its hash is found.
create-Returns :
    (tenant_id : ℕ) (new : NewReceipt) (s : Store)
    → rejection (record s { next_id = suc s.next_id }) tenant_id new ≡ none
    → Returns (create tenant_id new) s
unfolding create
create-Returns tenant_id new s h =
    let r = checked-Returns tenant_id s.next_id new _ (record s { next_id = suc s.next_id }) h in
    record { value = r.value; store = r.store; returns = r.returns; trace = r.trace }

-- The same rows, in the same environment and with the same settings.
pub record Alike (s t : Store) : Type 0 where
  pub db : t.db ≡ s.db
  pub env : t.env ≡ s.env
  pub settings : t.settings ≡ s.settings

-- The trace of the request, or the one that it is given.
abbrev pub current : Option Json → ℕ → Json
current none next_id = Json.uuid next_id
current (some trace) next_id = trace

abbrev pub current_trace : Store → Json
current_trace s = current s.trace_id s.next_id

pub record Traced (s t : Store) : Type 0 where
  pub ensured : ensure_trace_id s ≡ ok (current_trace s) t
  pub alike : Alike s t
  pub trace : t.trace_id ≡ some (current_trace s)

ensure_trace_id-Traced : (s : Store) → (t : Store) × Traced s t
unfolding ensure_trace_id
ensure_trace_id-Traced s =
    let (t, e, alike, h) = go s.trace_id refl in
    (t, record { ensured = e; alike = alike; trace = h })
  where
    go :
        (found : Option Json)
        → s.trace_id ≡ found
        → (t : Store) × (trace_found found s ≡ ok (current found s.next_id) t)
          × Alike s t
          × (t.trace_id ≡ some (current found s.next_id))
    go (some t) h = (s, refl, record { db = refl; env = refl; settings = refl }, h)
    go none h = (_, refl, record { db = refl; env = refl; settings = refl }, refl)

unforwarded :
    (receipt_type : ReceiptType) (s : Store)
    → s.settings.receiptgate_integrated ≡ false
    → is_forwarded receipt_type s ≡ false
unfolding is_forwarded
unforwarded receipt_type s h = ground (arith, h)

TraceStays-current : (s t : Store) → t.trace_id ≡ some (current_trace s) → TraceStays s t
TraceStays-current s t h trace e = h ∙ ap (λ found. some (current found s.next_id)) e

-- Where the ledger is not integrated, a receipt is emitted if no check rejects it with the trace.
pub emit-Returns :
    (tenant_id : ℕ) (new : NewReceipt) (s : Store)
    → s.settings.receiptgate_integrated ≡ false
    → ((t : Store)
        → Alike s t
        → rejection t tenant_id (record new { body = traced (current_trace s) new.body }) ≡ none)
    → (r : Returns (emit tenant_id new) s) × (r.store.trace_id ≡ some (current_trace s))
unfolding emit Returns-bind create-Returns
emit-Returns tenant_id new s apart accepted =
    let (t, found) = ensure_trace_id-Traced s in
    let alike = found.alike in
    let traced_new = record new { body = traced (current_trace s) new.body } in
    let r = create-Returns tenant_id traced_new t (
      accepted (record t { next_id = suc t.next_id })
        (record { db = alike.db; env = alike.env; settings = alike.settings })) in
    let quiet = (create-Within Quiet-Closed tenant_id (Quiet-add tenant_id) traced_new).at t in
    let unsent : is_forwarded new.receipt_type r.store ≡ false =
      unforwarded new.receipt_type r.store (
        ap (λ (z : Store). z.settings.receiptgate_integrated) (sym (ap after r.returns))
        ∙ ap (λ (z : Settings). z.receiptgate_integrated) (quiet.settings ∙ alike.settings)
        ∙ apart) in
    let whole =
      Returns-bind ensure_trace_id _ s (current_trace s) t found.ensured
        (TraceStays-current s t found.trace)
        (Returns-bind (create tenant_id traced_new) _ t r.value r.store r.returns r.trace (record {
          value = r.value;
          store = r.store;
          returns = rw unsent refl;
          trace = λ trace h. h;
        })) in
    (
      record {
        value = whole.value;
        store = whole.store;
        returns = whole.returns;
        trace = whole.trace;
      },
      r.trace _ found.trace,
    )
