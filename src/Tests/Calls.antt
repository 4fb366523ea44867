-- ===== src/Tests/Calls.antt =====
-- Calls of the MCP interface at a server with two tenants.
use async_gate.Prelude.{◌≡◌, refl, true, false, [], ◌∷◌, none, some}
use async_gate.Models.Json.{Json, Fields, end, get, put}
use async_gate.Store.{Store, after}
use async_gate.Auth.Token.{
  verify_auth_token, verify_jwt, load_jwt_key, resolve_tenant, claims_other, names_other,
  looks_like_jwt,
}
use async_gate.Mcp.Server.{handle_tool, authenticated, extract_principal_id}
use async_gate.Mcp.Http.{McpRequest, mcp_entry}
use async_gate.Invariant.System.{Operation, run}
use async_gate.Isolation.Views.{view}
use async_gate.Isolation.Tools
use async_gate.Isolation.Tools.{acts_in}
use async_gate.Atomic
use async_gate.Atomic.{engine_tables, is_result}
use async_gate.Tests.Server.{settings, start, request}
use async_gate.Tests.Access.{tokens}

-- Two tenants have a task each, and a worker of tenant 7 asks for work.
abbrev shared : Store
shared =
    record (run start (
      Operation.create_task 7 (request "eve") false
      ∷ Operation.create_task 8 (request "bob") false
      ∷ [])) { env = tokens.env; jwt_key_cache = some "pem" }

abbrev wanted : Fields
wanted = put "auth_token" (Json.str "head.body.sign") (put "worker_id" (Json.str "eve") end)

another : acts_in 8 wanted (record shared { committed = shared.db }) ≡ false
unfolding authenticated verify_auth_token verify_jwt load_jwt_key resolve_tenant claims_other run
    get put extract_principal_id names_other looks_like_jwt
another = refl

handle_tool-view_example :
    view 8 (after (handle_tool "asyncgate.lease_next" wanted shared)).db ≡ view 8 shared.db
handle_tool-view_example = Tools.handle_tool-view "asyncgate.lease_next" wanted 8 shared another

-- The ledger cannot be reached, so that the acceptance of the lease fails.
abbrev cut_off : Store
cut_off = record shared { settings = record settings { receiptgate_integrated = true } }

abbrev posted : McpRequest
posted = record {
  method = "tools/call";
  params =
      put "name" (Json.str "asyncgate.lease_next")
        (put "arguments" (Json.obj (put "worker_id" (Json.str "eve") end)) end);
  authorization = some "Bearer head.body.sign";
  x_api_key = none;
}

refused : is_result (mcp_entry posted cut_off).0 ≡ false
unfolding mcp_entry run
refused = refl

mcp_entry-atomic_example : engine_tables (mcp_entry posted cut_off).1.db ≡ engine_tables cut_off.db
mcp_entry-atomic_example = Atomic.mcp_entry-atomic posted cut_off refused
