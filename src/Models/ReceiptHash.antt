-- ===== src/Models/ReceiptHash.antt =====
-- asyncgate/models/receipt.py: `compute_receipt_hash`. `json.dumps` with sorted keys and SHA-256 are
-- arguments; `sorted` on the texts of identifiers is the order of the identifiers.
use async_gate.Prelude.{ℕ, Bool, true, false, List, Option, none, some, String, leb, order_by}
use async_gate.Models.Enums.{ReceiptType, type_value, kind_value}
use async_gate.Models.Json.{Json, Fields, end, field, uuids, is_end}
use async_gate.Models.Records.{Principal}

abbrev uuid_or_null : Option ℕ → Json
uuid_or_null none = Json.null
uuid_or_null (some u) = Json.uuid u

-- What the hash is taken of.
unfoldable pub hash_content :
    (Fields → List ℕ)
    → (List ℕ → String)
    → ReceiptType
    → Option ℕ
    → Principal
    → Principal
    → Option ℕ
    → Fields
    → List ℕ
    → Fields
unfolding order_by
hash_content dumps sha256 receipt_type task_id from_ to_ lease_id body parents =
    field "receipt_type" (Json.str (type_value receipt_type)) (
      field "task_id" (uuid_or_null task_id) (
        field "from_kind" (Json.str (kind_value from_.kind)) (
          field "from_id" (Json.str from_.id) (
            field "to_kind" (Json.str (kind_value to_.kind)) (
              field "to_id" (Json.str to_.id) (
                field "lease_id" (uuid_or_null lease_id) (
                  field "parents" (Json.arr (uuids (order_by leb parents)))
                    (field "body_hash" (body_hash (is_end body)) end))))))))
  where
    body_hash : Bool → Json
    body_hash true = Json.null
    body_hash false = Json.str (sha256 (dumps body))

unfoldable pub compute_receipt_hash :
    (Fields → List ℕ)
    → (List ℕ → String)
    → ReceiptType
    → Option ℕ
    → Principal
    → Principal
    → Option ℕ
    → Fields
    → List ℕ
    → String
unfolding hash_content
compute_receipt_hash dumps sha256 receipt_type task_id from_ to_ lease_id body parents =
    sha256 (dumps (hash_content dumps sha256 receipt_type task_id from_ to_ lease_id body parents))
