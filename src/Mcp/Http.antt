-- ===== src/Mcp/Http.antt =====
-- asyncgate/mcp/http.py: the JSON-RPC entry.
use async_gate.Prelude.{
  Bool, Option, none, some, String, str_eq, if◌then◌else◌, is_some, is_text, take_text, split_at,
  is_lower_form,
}
use async_gate.Models.Json.{Json, Fields, end, get, put, truthy}
use async_gate.Store.{Store, Error, Out, ok, err}
use async_gate.Mcp.Server.{ToolResult, handle_tool}

-- A request with the two headers that may carry a credential.
pub record McpRequest : Type 0 where
  pub method : String
  pub params : Fields
  pub authorization : Option String
  pub x_api_key : Option String

pub data McpReply : Type 0 where
  tools_listed : McpReply
  result : ToolResult → McpReply
  method_not_found : String → McpReply
  missing_tool_name : McpReply
  error : Error → McpReply
  -- An exception outside of the `try`, for arguments that are no dictionary; or, if there is no
  -- header to add to them, one inside.
  internal_error : McpReply

abbrev is_bearer : String → Bool
is_bearer header = is_lower_form (take_text 7 header) "bearer "

abbrev behind_space : String → String
behind_space header = elim (split_at 32 header) [ none ↦ "" | some (scheme, rest) ↦ rest ]

abbrev given_key : Option String → Fields → Fields
given_key none arguments = arguments
given_key (some key) arguments =
    if is_text (some key) then put "auth_token" (Json.str key) arguments else arguments

abbrev given_token : Option String → Option String → Fields → Fields
given_token none x_api_key arguments = given_key x_api_key arguments
given_token (some header) x_api_key arguments =
    if is_bearer header
    then put "auth_token" (Json.str (behind_space header)) arguments
    else given_key x_api_key arguments

-- The token of the headers, where the caller gives none.
unfoldable pub inject_token : McpRequest → Fields → Fields
unfolding get put is_lower_form take_text split_at
inject_token request arguments =
    if is_some (get "auth_token" arguments)
    then arguments
    else given_token request.authorization request.x_api_key arguments

abbrev pub replied : Out ToolResult → McpReply × Store
replied (ok r s) = (result r, s)
replied (err e s) = (error e, s)

-- A name that is no text is the name of no tool.
abbrev pub name_of : Json → String
name_of (Json.str s) = s
name_of _ = ""

abbrev pub call : McpRequest → Json → Fields → Store → McpReply × Store
call request name arguments s =
    replied (handle_tool (name_of name) (inject_token request arguments) s)

abbrev pub with_arguments : McpRequest → Json → Option Json → Store → McpReply × Store
with_arguments request name none s = call request name end s
with_arguments request name (some (Json.obj d)) s = call request name d s
with_arguments request name (some v) s =
    if truthy v then (internal_error, s) else call request name end s

abbrev pub with_name : McpRequest → Option Json → Store → McpReply × Store
with_name request none s = (missing_tool_name, s)
with_name request (some name) s =
    if truthy name
    then with_arguments request name (get "arguments" request.params) s
    else (missing_tool_name, s)

unfoldable pub mcp_entry : McpRequest → Store → McpReply × Store
unfolding get truthy inject_token handle_tool
mcp_entry request s =
    if str_eq request.method "tools/list"
    then (tools_listed, s)
    else if str_eq request.method "tools/call"
    then with_name request (get "name" request.params) s
    else (method_not_found request.method, s)
