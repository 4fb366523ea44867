-- ===== src/Atomic.antt =====
-- A request that fails leaves the rows as they were (mcp/server.py, mcp/http.py, db/base.py): no tool
-- commits before its session ends.
use async_gate.Prelude.{
  ℕ, ◌≡◌, Bool, true, false, Option, none, some, [], String, arith, ap, refl, ◌∙◌, str_eq,
  if◌then◌else◌,
}
use async_gate.Models.Json.{Json, Fields, get}
use async_gate.Models.Auth.{AuthContext}
use async_gate.Store.{Db, Store, Out, ok, err, Error, after, settle, transaction}
use async_gate.Store.Closed.{Closed}
use async_gate.Mcp.Server.{ToolResult, call_tool, authenticated, handle, handle_tool}
use async_gate.Mcp.Http.{
  McpRequest, McpReply, replied, call, with_arguments, with_name, name_of, mcp_entry, inject_token,
}
use async_gate.Models.Json.{truthy}
use async_gate.Writes.{Writes}
use async_gate.Writes.Kept.{Kept, Kept-Closed}
use async_gate.Writes.Access.{authenticated-Kept}
use async_gate.Writes.Calls.{call_tool-Within}

-- The tables of the engine: all but the accounts and their keys.
abbrev pub engine_tables : Db → Db
engine_tables db = record db { users = []; api_keys = [] }

-- The session has committed nothing.
record Open (s t : Store) : Type 0 where
  committed : t.committed ≡ s.committed

Open-Closed : Closed Open
Open-Closed = record {
  same = λ s. record { committed = refl };
  both = λ p q. record { committed = q.committed ∙ p.committed };
  fresh = λ s. record { committed = refl };
  client = λ s client. record { committed = refl };
  trace = λ s trace_id. record { committed = refl };
}

Open-Writes : (tenant_id : ℕ) → Writes Open tenant_id
Open-Writes tenant_id = record {
  restored = λ s t p. record { committed = p.committed };
  rolled_back = λ s. record { committed = refl };
  change_task = λ s task_id f same. record { committed = refl };
  add_task = λ s row h. record { committed = refl };
  add_receipt = λ s r h. record { committed = refl };
  add_lease = λ s l h. record { committed = refl };
  extend = λ s lease_id expires_at renewal_count. record { committed = refl };
  drop_leases = λ s task_id lease_id. record { committed = refl };
  upsert_progress = λ s row h. record { committed = refl };
  add_relationship = λ s row h. record { committed = refl };
  see_again = λ s now kind id instance_id. record { committed = refl };
}

handled-committed :
    (name : String) (arguments : Fields) (s : Store) (o : Out AuthContext)
    → s.committed ≡ s.db
    → Kept engine_tables s (after o)
    → engine_tables
        (after
          (elim o [ ok auth t ↦ call_tool name auth arguments t | err e t ↦ err e t ])).committed
      ≡ engine_tables s.db
handled-committed name arguments s (ok auth t) h p =
    ap engine_tables
      (call_tool-Within Open-Closed auth t (λ n e. Open-Writes n) name arguments).committed
    ∙ (p.kept (ap engine_tables h)).1
handled-committed name arguments s (err e t) h p = (p.kept (ap engine_tables h)).1

settle-err :
    {A : Type 0} (o : Out A) (e : Error) (t : Store)
    → settle o ≡ err e t
    → t.db ≡ (after o).committed
settle-err (ok a u) e t h = ground (arith, h)
settle-err (err x u) e t h = ground (arith, h)

handle_tool-err :
    (name : String) (arguments : Fields) (e : Error) (s t : Store)
    → handle_tool name arguments s ≡ err e t
    → engine_tables t.db ≡ engine_tables s.db
unfolding handle_tool handle transaction
handle_tool-err name arguments e s t h =
    let start : Store = record s { committed = s.db } in
    ap engine_tables (settle-err (handle name arguments start) e t h)
    ∙ handled-committed name arguments start (authenticated arguments start) refl (
        (authenticated-Kept engine_tables (Kept-Closed engine_tables) (λ db ks. refl) arguments).at
          start)

abbrev pub is_result : McpReply → Bool
is_result (McpReply.result r) = true
is_result McpReply.tools_listed = false
is_result (McpReply.method_not_found method) = false
is_result McpReply.missing_tool_name = false
is_result (McpReply.error e) = false
is_result McpReply.internal_error = false

-- What a request that is not answered with a result leaves.
abbrev Unchanged : McpReply × Store → Store → Type 0
Unchanged answer s = is_result answer.0 ≡ false → engine_tables answer.1.db ≡ engine_tables s.db

Unchanged-if :
    (b : Bool) (x y : McpReply × Store) (s : Store)
    → Unchanged x s
    → Unchanged y s
    → Unchanged (if b then x else y) s
Unchanged-if true x y s p q = p
Unchanged-if false x y s p q = q

replied-Unchanged :
    (name : String) (arguments : Fields) (s : Store) (o : Out ToolResult)
    → handle_tool name arguments s ≡ o
    → Unchanged (replied o) s
replied-Unchanged name arguments s (ok r t) e h = ground (arith, h)
replied-Unchanged name arguments s (err x t) e h = handle_tool-err name arguments x s t e

call-Unchanged :
    (request : McpRequest) (name : Json) (arguments : Fields) (s : Store)
    → Unchanged (call request name arguments s) s
call-Unchanged request name arguments s =
    replied-Unchanged (name_of name) (inject_token request arguments) s _ refl

with_arguments-Unchanged :
    (request : McpRequest) (name : Json) (arguments : Option Json) (s : Store)
    → Unchanged (with_arguments request name arguments s) s
with_arguments-Unchanged request name none s = call-Unchanged request name _ s
with_arguments-Unchanged request name (some (Json.obj d)) s = call-Unchanged request name d s
with_arguments-Unchanged request name (some v) s =
    Unchanged-if (truthy v) _ _ s (λ h. refl) (call-Unchanged request name _ s)

with_name-Unchanged :
    (request : McpRequest) (name : Option Json) (s : Store) → Unchanged (with_name request name s) s
with_name-Unchanged request none s = λ h. refl
with_name-Unchanged request (some name) s =
    Unchanged-if (truthy name) _ _ s
      (with_arguments-Unchanged request name (get "arguments" request.params) s) (λ h. refl)

-- A request of the JSON-RPC interface is all or nothing: if it is answered with anything but a
-- result, then the tasks, leases, receipts, progress and relationships of the database are those from
-- before it. Its API key may have been counted.
pub mcp_entry-atomic :
    (request : McpRequest) (s : Store)
    → is_result (mcp_entry request s).0 ≡ false
    → engine_tables (mcp_entry request s).1.db ≡ engine_tables s.db
unfolding mcp_entry
mcp_entry-atomic request s =
    Unchanged-if (str_eq request.method "tools/list") _ _ s (λ h. refl)
      (Unchanged-if (str_eq request.method "tools/call") _ _ s
        (with_name-Unchanged request (get "name" request.params) s) (λ h. refl))
