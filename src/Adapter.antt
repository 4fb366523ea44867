-- ===== src/Adapter.antt =====
-- asyncgate/receipts/memorygate_adapter.py: a receipt in the ledger's schema. The ledger's own
-- validation, and the identifier that it derives for an obligation, belong to the `legivellum` package.
use async_gate.Prelude.{
  ℕ, Bool, false, not, ◌&&◌, ◌||◌, Option, none, some, List, [], ◌∷◌, String, str_eq, if◌then◌else◌,
  is_some, text_or, any,
}
use async_gate.Models.Enums.{ReceiptType, Outcome, type_eq, type_in, type_value, kind_value}
use async_gate.Models.Json.{
  Json, Items, Fields, nil, cons, end, field, get, truthy, is_null, is_end, is_given, uuids, num,
  time_or_null,
}
use async_gate.Models.Records.{Task, TaskResult, Receipt}
use async_gate.Store.{Env}

-- The value, where it is neither missing nor null.
abbrev given : Option Json → Option Json
given none = none
given (some v) = if is_null v then none else some v

-- `d.get(k1) or d.get(k2) or … or default`
unfoldable pub first_truthy : List String → Fields → Json → Json
unfolding get truthy
first_truthy [] d default = default
first_truthy (k ∷ ks) d default = elim (get k d) [
  | none ↦ first_truthy ks d default
  | some v ↦ if truthy v then v else first_truthy ks d default
]

abbrev na : Json
na = Json.str "NA"

-- The one artifact that the flat fields describe.
abbrev main_artifact : Option Json → Option Fields
main_artifact (some (Json.obj d)) = some d
main_artifact (some (Json.arr (cons (Json.obj d) rest))) = some d
main_artifact _ = none

abbrev no_artifact_fields : Fields → Fields
no_artifact_fields rest = field "artifact_location" na (
    field "artifact_pointer" na (
      field "artifact_checksum" na
        (field "artifact_size_bytes" (num 0) (field "artifact_mime" na rest))))

-- These are the first entries of `rest` in the payload.
unfoldable pub artifact_fields : Option Json → Fields → Fields
unfolding first_truthy
artifact_fields artifacts rest = elim (main_artifact artifacts) [
  | none ↦ no_artifact_fields rest
  | some d ↦ field "artifact_location" (first_truthy ("type" ∷ "store" ∷ []) d na) (
      field "artifact_pointer" (first_truthy ("url" ∷ "uri" ∷ "output_path" ∷ "pointer" ∷ []) d na)
        (field "artifact_checksum" (first_truthy ("checksum" ∷ "etag" ∷ []) d na) (
          field "artifact_size_bytes" (first_truthy ("size_bytes" ∷ "bytes" ∷ []) d (num 0)) (
            field "artifact_mime"
              (first_truthy ("mime" ∷ "content_type" ∷ "artifact_mime" ∷ []) d na) rest))))
]

abbrev keep_dict : Json → Items → Items
keep_dict (Json.obj d) rest = cons (Json.obj d) rest
keep_dict _ rest = rest

abbrev dicts : Items → Items
dicts nil = nil
dicts (cons x xs) = keep_dict x (dicts xs)

abbrev single_dict : Fields → Items
single_dict end = nil
single_dict (field k v d) = cons (Json.obj (field k v d)) nil

unfoldable pub artifact_refs : Option Json → Items
artifact_refs (some (Json.arr xs)) = dicts xs
artifact_refs (some (Json.obj d)) = single_dict d
artifact_refs _ = nil

abbrev task_result : Option Task → Option TaskResult
task_result none = none
task_result (some t) = t.result

abbrev outcome_status : Option TaskResult → String
outcome_status none = "success"
outcome_status (some r) = elim r.outcome [
  | Outcome.failed ↦ "failure"
  | Outcome.canceled ↦ "canceled"
  | Outcome.succeeded ↦ "success"
]

unfoldable pub derive_phase_and_status : ReceiptType → Option Task → String × String
derive_phase_and_status ReceiptType.task_escalated task = ("escalate", "NA")
derive_phase_and_status ReceiptType.task_failed task = ("complete", "failure")
derive_phase_and_status ReceiptType.task_canceled task = ("complete", "canceled")
derive_phase_and_status ReceiptType.task_result_ready task =
    ("complete", outcome_status (task_result task))
derive_phase_and_status ReceiptType.task_completed task = ("complete", "success")
derive_phase_and_status _ task = ("accepted", "NA")

abbrev result_artifacts : Option TaskResult → Option Json
result_artifacts none = none
result_artifacts (some r) = r.artifacts

-- `body.get(key)`, or where that is None the artifacts of the task's result.
abbrev artifacts_of : Option Json → Option Task → Option Json
artifacts_of v task = elim (given v) [
  | none ↦ given (result_artifacts (task_result task))
  | some a ↦ some a
]

unfoldable pub derive_outcome_kind : Fields → Option Task → String
unfolding get
derive_outcome_kind body task =
    let has_artifacts = is_some (artifacts_of (get "artifacts" body) task) in
    let has_result = is_given (get "result_payload" body) in
    let has_error = is_given (get "error" body) in
    if has_artifacts && has_result
    then "mixed"
    else if has_artifacts
    then "artifact_pointer"
    else if has_result || has_error
    then "response_text"
    else if is_some (task_result task)
    then "response_text"
    else "NA"

abbrev error_dict : Option Json → Option Fields
error_dict (some (Json.obj d)) = some d
error_dict _ = none

-- The message of an error, where it is a dictionary that holds one.
abbrev error_message : Option Json → Json → Json
error_message e default = elim (error_dict e) [
  | none ↦ default
  | some d ↦ first_truthy ("message" ∷ []) d default
]

abbrev task_type : Option Task → Json
task_type none = na
task_type (some t) = Json.str t.type

abbrev summary : Option Json → Option Json → Option Json → Option Task → Json
summary (some v) result_summary err task = v
summary none (some v) err task = v
summary none none err task = error_message err (task_type task)

unfoldable pub task_summary : ReceiptType → Fields → Option Task → Json
unfolding get first_truthy
task_summary receipt_type body task =
    summary
      (if type_eq receipt_type ReceiptType.task_assigned then get "instructions" body else none)
      (get "result_summary" body) (get "error" body) task

abbrev text_is : String → Json → Bool
text_is s (Json.str t) = str_eq t s
text_is s _ = false

unfoldable pub outcome_text : Fields → Json
unfolding get first_truthy
outcome_text body =
    let text = first_truthy ("result_summary" ∷ []) body na in
    if text_is "NA" text then error_message (get "error" body) na else text

-- Who performs the transition, who holds the obligation, and whose inbox the receipt is for.
pub record Parties : Type 0 where
  pub from_principal : String
  pub for_principal : String
  pub recipient_ai : String

abbrev worker_bearing : ReceiptType → Bool
worker_bearing t = type_in t (
    ReceiptType.task_accepted ∷ ReceiptType.task_completed ∷ ReceiptType.task_failed
    ∷ ReceiptType.task_canceled ∷ [])

unfoldable pub parties : Receipt → Option Task → Parties
unfolding any
parties r none = record {
  from_principal = r.from_.id;
  for_principal = r.to_.id;
  recipient_ai = r.to_.id;
}
parties r (some t) =
    let accepted = type_eq r.receipt_type ReceiptType.task_accepted in
    let bearing = worker_bearing r.receipt_type in
    let escalated = type_eq r.receipt_type ReceiptType.task_escalated in
    record {
      from_principal =
          if bearing
          then (if accepted then t.created_by.id else r.from_.id)
          else if escalated
          then r.from_.id
          else t.created_by.id;
      for_principal = if bearing || escalated then r.from_.id else t.created_by.id;
      recipient_ai = if accepted then r.from_.id else text_or (some t.principal_ai) r.to_.id;
    }

abbrev or_na : Option Json → Json
or_na none = na
or_na (some v) = v

abbrev or_false : Option Json → Json
or_false none = Json.bool false
or_false (some v) = v

-- The escalation target takes the recipient's place, where it is a text other than "NA".
abbrev redirect : String → Option Json → String → Json
redirect phase target recipient =
    if str_eq phase "escalate" && truthy (or_na target) && not (text_is "NA" (or_na target))
    then or_na target
    else Json.str recipient

abbrev text_or_na : Option String → Json
text_or_na s = Json.str (text_or s "NA")

abbrev expected_kind : Option Task → Option String
expected_kind none = none
expected_kind (some t) = t.expected_outcome_kind

abbrev expected_mime : Option Task → Option String
expected_mime none = none
expected_mime (some t) = t.expected_artifact_mime

abbrev started : Option Task → Option ℕ
started none = none
started (some t) = t.started_at

abbrev completed : Option TaskResult → Option ℕ
completed none = none
completed (some r) = some r.completed_at

abbrev pointer_input : Option String → Fields → Fields
pointer_input none rest = rest
pointer_input (some p) rest =
    if str_eq p "" then rest else field "payload_pointer" (Json.str p) rest

abbrev payload_input : Fields → Fields
payload_input end = end
payload_input (field k v d) = field "payload" (Json.obj (field k v d)) end

abbrev inputs : Option Task → Fields
inputs none = end
inputs (some t) = pointer_input t.payload_pointer (payload_input t.payload)

abbrev task_body : Env → Option Task → Json
task_body env none = Json.str "TBD"
task_body env (some t) =
    if is_end t.payload
    then Json.str (text_or t.payload_pointer "TBD")
    else Json.str (env.dumps_text t.payload)

abbrev attempt_of : Option Task → ℕ
attempt_of none = 0
attempt_of (some t) = t.attempt

abbrev uuid_or_na : Option ℕ → Json
uuid_or_na none = na
uuid_or_na (some u) = Json.uuid u

abbrev first_uuid : List ℕ → Json
first_uuid [] = na
first_uuid (p ∷ ps) = Json.uuid p

abbrev obligation_id : Env → Receipt → String
obligation_id env r = elim r.task_id [
  | some t ↦ env.derive_ulid "asyncgate.task" t
  | none ↦ env.derive_ulid "asyncgate.receipt" r.receipt_id
]

abbrev trace_field : Option Json → Fields
trace_field none = end
trace_field (some v) = field "trace_id" v end

unfoldable pub metadata : Receipt → Fields
unfolding get
metadata r = field "receipt_type" (Json.str (type_value r.receipt_type)) (
    field "lease_id" (uuid_or_na r.lease_id) (
      field "parents" (Json.arr (uuids r.parents)) (
        field "from_kind" (Json.str (kind_value r.from_.kind)) (
          field "to_kind" (Json.str (kind_value r.to_.kind))
            (trace_field (get "trace_id" r.body))))))

-- The last part of the payload, from the artifacts on.
unfoldable pub evidence : Receipt → Option Task → Fields
unfolding get artifact_fields artifact_refs metadata
evidence r task =
    let source = artifacts_of (get "artifacts" r.body) task in
    let refs : Option Json = elim (given (get "artifact_refs" r.body)) [
      | none ↦ source
      | some v ↦ some v
    ] in
    artifact_fields source (
      field "escalation_class" (or_na (get "escalation_class" r.body)) (
        field "escalation_reason" (or_na (get "escalation_reason" r.body)) (
          field "escalation_to" (or_na (get "escalation_to" r.body)) (
            field "retry_requested" (or_false (get "retry_requested" r.body)) (
              field "body" (Json.obj r.body) (
                field "artifact_refs" (Json.arr (artifact_refs refs)) (
                  field "created_at" (Json.time r.created_at) (
                    field "stored_at" (Json.time r.created_at) (
                      field "started_at" (time_or_null (started task)) (
                        field "completed_at" (time_or_null (completed (task_result task))) (
                          field "read_at" Json.null (
                            field "archived_at" Json.null
                              (field "metadata" (Json.obj (metadata r)) end)))))))))))))

-- The middle part: the transition and the task.
unfoldable pub transition : Env → Receipt → Option Task → Fields
unfolding derive_phase_and_status derive_outcome_kind task_summary outcome_text evidence parties
    truthy
transition env r task =
    let (phase, status) = derive_phase_and_status r.receipt_type task in
    let who = parties r task in
    field "from_principal" (Json.str who.from_principal) (
      field "for_principal" (Json.str who.for_principal) (
        field "source_system" (Json.str "asyncgate") (
          field "recipient_ai" (redirect phase (get "escalation_to" r.body) who.recipient_ai) (
            field "trust_domain" (Json.str "default") (
              field "phase" (Json.str phase) (
                field "status" (Json.str status) (
                  field "realtime" (Json.bool false) (
                    field "task_type" (task_type task) (
                      field "task_summary" (task_summary r.receipt_type r.body task) (
                        field "task_body" (task_body env task) (
                          field "inputs" (Json.obj (inputs task)) (
                            field "expected_outcome_kind" (text_or_na (expected_kind task)) (
                              field "expected_artifact_mime" (text_or_na (expected_mime task)) (
                                field "outcome_kind" (Json.str (derive_outcome_kind r.body task)) (
                                  field "outcome_text" (outcome_text r.body)
                                    (evidence r task))))))))))))))))

unfoldable pub payload : Env → Receipt → Option Task → Fields
unfolding transition
payload env r task = field "schema_version" (Json.str "1.0") (
    field "tenant_id" (Json.uuid r.tenant_id) (
      field "receipt_id" (Json.uuid r.receipt_id) (
        field "task_id" (uuid_or_na r.task_id) (
          field "obligation_id" (Json.str (obligation_id env r)) (
            field "parent_task_id" na (
              field "caused_by_receipt_id" (first_uuid r.parents) (
                field "dedupe_key" (text_or_na r.hash)
                  (field "attempt" (num (attempt_of task)) (transition env r task)))))))))

-- None where the ledger's model refuses the payload, which raises.
unfoldable pub to_memorygate_receipt : Env → Receipt → Option Task → Option Fields
unfolding payload
to_memorygate_receipt env r task = env.validate_receipt (payload env r task)
