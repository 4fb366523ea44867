-- ===== src/Models/ReceiptBody.antt =====
-- asyncgate/models/receipt.py: the bodies that `ReceiptBody` builds.
use async_gate.Prelude.{ℕ, Bool, List, Option, none, some, String}
use async_gate.Models.Json.{
  Json, Fields, end, field, num, or_null, text_or_null, time_or_null, texts, dict_or_null,
}

unfoldable pub task_assigned : String → Option Fields → Fields
task_assigned instructions requirements = field "instructions" (Json.str instructions) (
    field "requirements" (elim requirements [ none ↦ Json.obj end | some r ↦ Json.obj r ])
      (field "success_criteria" Json.null (
        field "result_delivery" (Json.str "return_payload") (field "timeouts" (Json.obj end) end))))

unfoldable pub task_accepted : List String → Fields
task_accepted worker_capabilities =
    field "worker_capabilities" (Json.arr (texts worker_capabilities))
      (field "expected_duration" Json.null end)

unfoldable pub task_started : Option ℕ → Fields
task_started started_at = field "started_at" (time_or_null started_at) end

unfoldable pub task_completed : String → Option Fields → Option Json → Fields
task_completed result_summary result_payload artifacts =
    field "result_summary" (Json.str result_summary) (
      field "result_payload" (dict_or_null result_payload) (
        field "artifacts" (or_null artifacts)
          (field "delivery_proof" Json.null (field "completion_metadata" (Json.obj end) end))))

unfoldable pub task_failed : Fields → Bool → Fields
task_failed error retry_recommended = field "error" (Json.obj error) (
    field "retry_recommended" (Json.bool retry_recommended)
      (field "retry_after_seconds" Json.null end))

unfoldable pub task_result_ready : String → Option Fields → Option Fields → Option Json → Fields
task_result_ready status result_payload error artifacts = field "status" (Json.str status) (
    field "result_payload" (dict_or_null result_payload) (
      field "error" (dict_or_null error)
        (field "artifacts" (or_null artifacts) (field "how_to_retrieve" Json.null end))))

unfoldable pub lease_expired : ℕ → String → ℕ → Bool → Fields
lease_expired task_id previous_worker_id attempt requeued = field "task_id" (Json.uuid task_id) (
    field "previous_worker_id" (Json.str previous_worker_id)
      (field "attempt" (num attempt) (field "requeued" (Json.bool requeued) end)))

unfoldable pub task_escalated : String → String → String → Option String → Option String → Fields
task_escalated escalation_class reason escalation_to outcome_kind artifact_mime =
    field "escalation_class" (Json.str escalation_class) (
      field "escalation_reason" (Json.str reason) (
        field "escalation_to" (Json.str escalation_to) (
          field "expected_outcome_kind" (text_or_null outcome_kind)
            (field "expected_artifact_mime" (text_or_null artifact_mime) end))))
