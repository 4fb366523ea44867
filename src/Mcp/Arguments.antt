-- ===== src/Mcp/Arguments.antt =====
-- The arguments of a tool (mcp/server.py, `_handle_tool`), each read as its schema declares it.
use async_gate.Prelude.{
  ℕ, Bool, Option, none, some, List, [], ◌∷◌, String, str_eq, if◌then◌else◌, first,
}
use async_gate.Models.Enums.{
  TaskStatus, PrincipalKind, ReceiptType, status_value, kind_value, type_value,
}
use async_gate.Models.Json.{ℤ, Json, Items, nil, cons, Fields, end, field, get, truthy}
use async_gate.Models.Records.{TaskRequirements}
use async_gate.Store.{M, ◌>>=◌, pure, raise, gets, or_raise, key_error, type_error, value_error}

-- arguments[key]
unfoldable pub required : String → Fields → M Json
unfolding get
required key arguments = or_raise (get key arguments) (key_error key)

-- An argument that may be missing; null counts as missing.
abbrev pub present : Option Json → Option Json
present none = none
present (some Json.null) = none
present (some v) = some v

abbrev pub as_text : Json → M String
as_text (Json.str s) = pure s
as_text _ = raise type_error

abbrev pub as_dict : Json → M Fields
as_dict (Json.obj d) = pure d
as_dict _ = raise type_error

abbrev pub as_count : Json → M ℕ
as_count (Json.int (ℤ.pos n)) = pure n
as_count _ = raise type_error

abbrev pub as_int : Json → M ℤ
as_int (Json.int i) = pure i
as_int _ = raise type_error

abbrev pub as_bool : Json → M Bool
as_bool (Json.bool b) = pure b
as_bool _ = raise type_error

-- UUID(text)
abbrev pub as_uuid : Json → M ℕ
as_uuid (Json.str s) = do
  id ← gets (λ st. st.env.parse_uuid s)
  or_raise id (value_error "badly formed hexadecimal UUID string")
as_uuid _ = raise type_error

abbrev pub as_texts : Items → M (List String)
as_texts nil = pure []
as_texts (cons x xs) = do t ← as_text x; ts ← as_texts xs; pure (t ∷ ts)

abbrev pub as_list : Json → M (List String)
as_list (Json.arr xs) = as_texts xs
as_list _ = raise type_error

-- arguments.get(key)
abbrev pub optional : {A : Type 0} → (Json → M A) → Option Json → M (Option A)
optional read none = pure none
optional read (some v) = do a ← read v; pure (some a)

-- `… if arguments.get(key) else None`
abbrev pub truthy_only : Option Json → Option Json
truthy_only none = none
truthy_only (some v) = if truthy v then some v else none

unfoldable pub text_arg : String → Fields → M String
unfolding required
text_arg key arguments = do v ← required key arguments; as_text v

unfoldable pub dict_arg : String → Fields → M Fields
unfolding required
dict_arg key arguments = do v ← required key arguments; as_dict v

unfoldable pub uuid_arg : String → Fields → M ℕ
unfolding required
uuid_arg key arguments = do v ← required key arguments; as_uuid v

unfoldable pub text_opt : String → Fields → M (Option String)
unfolding get
text_opt key arguments = optional as_text (present (get key arguments))

unfoldable pub dict_opt : String → Fields → M (Option Fields)
unfolding get
dict_opt key arguments = optional as_dict (present (get key arguments))

unfoldable pub count_opt : String → Fields → M (Option ℕ)
unfolding get
count_opt key arguments = optional as_count (present (get key arguments))

unfoldable pub int_opt : String → Fields → M (Option ℤ)
unfolding get
int_opt key arguments = optional as_int (present (get key arguments))

unfoldable pub bool_opt : String → Fields → M (Option Bool)
unfolding get
bool_opt key arguments = optional as_bool (present (get key arguments))

unfoldable pub list_opt : String → Fields → M (Option (List String))
unfolding get
list_opt key arguments = optional as_list (present (get key arguments))

unfoldable pub uuid_opt : String → Fields → M (Option ℕ)
unfolding get truthy
uuid_opt key arguments = optional as_uuid (truthy_only (get key arguments))

-- `TaskStatus(text)`, `PrincipalKind(text)`, `ReceiptType(text)`: the member with this value.
abbrev statuses : List TaskStatus
statuses =
    TaskStatus.queued ∷ TaskStatus.leased ∷ TaskStatus.running ∷ TaskStatus.succeeded
    ∷ TaskStatus.failed ∷ TaskStatus.canceled ∷ []

abbrev kinds : List PrincipalKind
kinds =
    PrincipalKind.agent ∷ PrincipalKind.worker ∷ PrincipalKind.service ∷ PrincipalKind.system
    ∷ PrincipalKind.human ∷ []

abbrev types : List ReceiptType
types =
    ReceiptType.task_assigned ∷ ReceiptType.task_accepted ∷ ReceiptType.task_started
    ∷ ReceiptType.task_completed ∷ ReceiptType.task_failed ∷ ReceiptType.task_canceled
    ∷ ReceiptType.task_retry_scheduled ∷ ReceiptType.task_result_ready ∷ ReceiptType.task_progress
    ∷ ReceiptType.lease_expired ∷ ReceiptType.task_escalated ∷ ReceiptType.receipt_acknowledged
    ∷ ReceiptType.system_anomaly ∷ []

unfoldable pub parse_status : String → Option TaskStatus
unfolding first
parse_status text = first (λ m. str_eq (status_value m) text) statuses

unfoldable pub parse_kind : String → Option PrincipalKind
unfolding first
parse_kind text = first (λ m. str_eq (kind_value m) text) kinds

unfoldable pub parse_type : String → Option ReceiptType
unfolding first
parse_type text = first (λ m. str_eq (type_value m) text) types

-- A member where the text is given and not empty, or an error where there is none of that value.
abbrev pub member : {A : Type 0} → (String → Option A) → Option String → M (Option A)
member parse none = pure none
member parse (some text) =
    if str_eq text ""
    then pure none
    else do m ← or_raise (parse text) (value_error "not a valid member"); pure (some m)

unfoldable pub status_opt : String → Fields → M (Option TaskStatus)
unfolding text_opt parse_status
status_opt key arguments = do text ← text_opt key arguments; member parse_status text

unfoldable pub type_opt : String → Fields → M (Option ReceiptType)
unfolding text_opt parse_type
type_opt key arguments = do text ← text_opt key arguments; member parse_type text

unfoldable pub kind_arg : String → Fields → M PrincipalKind
unfolding text_arg parse_kind
kind_arg key arguments = do
  text ← text_arg key arguments
  or_raise (parse_kind text) (value_error "not a valid PrincipalKind")

abbrev pub list_of : Option Json → M (List String)
list_of none = pure []
list_of (some v) = as_list v

abbrev pub read_time : Option String → M (Option ℕ)
read_time none = pure none
read_time (some t) = if str_eq t "" then pure none else do
  time ← gets (λ s. s.env.parse_time t)
  at ← or_raise time (value_error "Invalid isoformat string")
  pure (some at)

-- `datetime.fromisoformat(cursor)`, where the cursor is not empty.
unfoldable pub time_opt : String → Fields → M (Option ℕ)
unfolding text_opt
time_opt key arguments = do text ← text_opt key arguments; read_time text

abbrev pub read_requirements : Option Fields → M (Option TaskRequirements)
read_requirements none = pure none
read_requirements (some end) = pure none
read_requirements (some (field k v d)) = do
  capabilities ← list_of (get "capabilities" (field k v d))
  tags ← list_of (get "tags" (field k v d))
  pure (some (record { capabilities = capabilities; tags = tags }))

-- `TaskRequirements(**requirements)`, where the dictionary is not empty.
unfoldable pub requirements_opt : Fields → M (Option TaskRequirements)
unfolding dict_opt get
requirements_opt arguments = do found ← dict_opt "requirements" arguments; read_requirements found
