-- ===== src/Repositories/Receipts.antt =====
-- ReceiptRepository.create of asyncgate/db/repositories.py
use async_gate.Prelude.{
  ℕ, ◌*◌, Bool, false, not, ◌&&◌, ◌||◌, Option, none, some, List, [], ◌∷◌, ◌++◌, String, str_eq,
  str_append, ◌==◌, ltb, if◌then◌else◌, length, first, any, all,
}
use async_gate.Models.Enums.{ReceiptType, PrincipalKind, type_eq}
use async_gate.Models.Json.{
  Json, Fields, end, field, get, put, length_items, is_end, is_given, truthy, uuids,
}
use async_gate.Models.Records.{Principal, Receipt}
use async_gate.Models.Termination.{is_terminal_type}
use async_gate.Models.ReceiptHash.{compute_receipt_hash}
use async_gate.Principals.{service_principal_id}
use async_gate.Store.{
  Store, Db, Error, value_error, M, ◌>>=◌, ◌>>◌, pure, raise, gets, put_db, uuid4, when,
}

-- constants.py
abbrev pub max_receipt_body_bytes : ℕ
max_receipt_body_bytes = 64 * 1024

abbrev pub max_receipt_parents : ℕ
max_receipt_parents = 10

abbrev pub max_receipt_artifacts : ℕ
max_receipt_artifacts = 100

-- The arguments of `create`; missing parents are no parents, and a missing body is an empty one.
pub record NewReceipt : Type 0 where
  pub receipt_type : ReceiptType
  pub from_principal : Principal
  pub to_principal : Principal
  pub task_id : Option ℕ
  pub lease_id : Option ℕ
  pub schedule_id : Option String
  pub parents : List ℕ
  pub body : Fields
  pub receipt_hash : Option String

abbrev pub too_many_artifacts : Option Json → Bool
too_many_artifacts (some (Json.arr xs)) = ltb max_receipt_artifacts (length_items xs)
too_many_artifacts _ = false

abbrev pub is_receipt : ℕ → ℕ → Receipt → Bool
is_receipt tenant_id receipt_id r = r.tenant_id == tenant_id && r.receipt_id == receipt_id

-- The parent exists, for this tenant.
abbrev pub exists_receipt : ℕ → List Receipt → ℕ → Bool
exists_receipt tenant_id receipts receipt_id = any (is_receipt tenant_id receipt_id) receipts

-- The error of the checks that come before anything is written, if one of them fails.
unfoldable pub rejection : Store → ℕ → NewReceipt → Option Error
unfolding get is_terminal_type any all
rejection s tenant_id new =
    if not (is_end new.body) && ltb max_receipt_body_bytes (length (s.env.dumps new.body))
    then some (value_error "Receipt body too large")
    else if ltb max_receipt_parents (length new.parents)
    then some (value_error "Too many parent receipts")
    else if too_many_artifacts (get "artifacts" new.body)
    then some (value_error "Too many artifacts")
    else if not (is_terminal_type new.receipt_type)
    then none
    else if length new.parents == 0
    then some (value_error "Terminal receipt type must specify parents")
    else if all (exists_receipt tenant_id s.db.receipts) new.parents
    then none
    else some (value_error "Parent receipt not found")

-- A success that says neither where its work is nor that it was delivered.
unfoldable pub lacks_locatability : NewReceipt → Bool
unfolding get
lacks_locatability new =
    type_eq new.receipt_type ReceiptType.task_completed
    && not (is_given (get "artifacts" new.body) || is_given (get "delivery_proof" new.body))

-- Such a success is kept without its parents.
unfoldable pub parents_to_use : NewReceipt → List ℕ
unfolding lacks_locatability
parents_to_use new = if lacks_locatability new then [] else new.parents

unfoldable pub receipt_hash_to_use : Store → NewReceipt → String
unfolding parents_to_use compute_receipt_hash
receipt_hash_to_use s new = elim new.receipt_hash [
  | some h ↦ h
  | none ↦
      compute_receipt_hash s.env.dumps_sorted s.env.sha256 new.receipt_type new.task_id
        new.from_principal new.to_principal new.lease_id new.body (parents_to_use new)
]

abbrev same_hash : String → Option String → Bool
same_hash h none = false
same_hash h (some k) = str_eq k h

abbrev pub has_hash : ℕ → String → Receipt → Bool
has_hash tenant_id h r = r.tenant_id == tenant_id && same_hash h r.hash

unfoldable pub get_by_hash : ℕ → String → Store → Option Receipt
unfolding first
get_by_hash tenant_id h s = first (has_hash tenant_id h) s.db.receipts

-- A row keeps the kind and the identifier of a principal.
abbrev stored : Principal → Principal
stored p = record { kind = p.kind; id = p.id; instance_id = none }

unfoldable pub new_receipt : Store → ℕ → ℕ → NewReceipt → Receipt
unfolding parents_to_use receipt_hash_to_use
new_receipt s tenant_id receipt_id new = record {
  receipt_id = receipt_id;
  tenant_id = tenant_id;
  receipt_type = new.receipt_type;
  created_at = s.clock;
  from_ = stored new.from_principal;
  to_ = stored new.to_principal;
  task_id = new.task_id;
  lease_id = new.lease_id;
  schedule_id = new.schedule_id;
  parents = parents_to_use new;
  body = new.body;
  hash = some (receipt_hash_to_use s new);
  asyncgate_instance = s.settings.instance_id;
  delivered_at = none;
}

abbrev anomaly_trace : Option Json → Option Json → Option Json
anomaly_trace none t = t
anomaly_trace (some v) t = if truthy v then some v else t

abbrev with_trace : Option Json → Fields → Fields
with_trace none d = d
with_trace (some v) d = put "trace_id" v d

unfoldable pub anomaly_body : Store → ℕ → NewReceipt → Fields
unfolding get put truthy
anomaly_body s receipt_id new = with_trace (anomaly_trace (get "trace_id" new.body) s.trace_id) (
    field "anomaly_type" (Json.str "locatability_missing") (
      field "message"
        (Json.str (
          str_append "Success receipt " (
            str_append (s.env.uuid_text receipt_id)
              " lacks locatability (no artifacts or delivery_proof). Obligation remains open until properly locatable success is provided.")))
        (field "original_receipt_id" (Json.uuid receipt_id)
          (field "stripped_parents" (Json.arr (uuids new.parents)) end))))

-- The receipt that tells the recipient of a success without its place.
unfoldable pub anomaly_receipt : Store → ℕ → ℕ → ℕ → NewReceipt → Receipt
unfolding anomaly_body
anomaly_receipt s tenant_id anomaly_id receipt_id new = record {
  receipt_id = anomaly_id;
  tenant_id = tenant_id;
  receipt_type = ReceiptType.system_anomaly;
  created_at = s.clock;
  from_ = record { kind = PrincipalKind.service; id = service_principal_id; instance_id = none };
  to_ = stored new.to_principal;
  task_id = new.task_id;
  lease_id = none;
  schedule_id = none;
  parents = receipt_id ∷ [];
  body = anomaly_body s receipt_id new;
  hash = none;
  asyncgate_instance = s.settings.instance_id;
  delivered_at = none;
}

abbrev pub add_receipt : Receipt → Db → Db
add_receipt r db = record db { receipts = db.receipts ++ r ∷ [] }

unfoldable pub emit_anomaly : ℕ → ℕ → NewReceipt → M Unit
unfolding anomaly_receipt
emit_anomaly tenant_id receipt_id new = do
  anomaly_id ← uuid4
  anomaly ← gets (λ s. anomaly_receipt s tenant_id anomaly_id receipt_id new)
  put_db (add_receipt anomaly)

unfoldable pub insert : ℕ → ℕ → NewReceipt → M Receipt
unfolding new_receipt emit_anomaly lacks_locatability
insert tenant_id receipt_id new = do
  row ← gets (λ s. new_receipt s tenant_id receipt_id new)
  put_db (add_receipt row)
  when (lacks_locatability new) (emit_anomaly tenant_id receipt_id new)
  pure row

abbrev pub insert_unless : ℕ → ℕ → NewReceipt → Option Receipt → M Receipt
insert_unless tenant_id receipt_id new none = insert tenant_id receipt_id new
insert_unless tenant_id receipt_id new (some existing) = pure existing

abbrev pub create_checked : ℕ → ℕ → NewReceipt → Option Error → M Receipt
create_checked tenant_id receipt_id new (some e) = raise e
create_checked tenant_id receipt_id new none = do
  existing ← gets (λ s. get_by_hash tenant_id (receipt_hash_to_use s new) s)
  insert_unless tenant_id receipt_id new existing

unfoldable pub create : ℕ → NewReceipt → M Receipt
unfolding rejection receipt_hash_to_use get_by_hash insert
create tenant_id new = do
  receipt_id ← uuid4
  refused ← gets (λ s. rejection s tenant_id new)
  create_checked tenant_id receipt_id new refused
