-- ===== src/Isolation/Tools.antt =====
-- A call of the MCP interface (mcp/server.py, `_handle_tool`), and the rows of another tenant.
use async_gate.Prelude.{ℕ, ◌≡◌, Bool, false, Option, none, some, String, ◌==◌, arith, refl}
use async_gate.Models.Json.{Fields}
use async_gate.Models.Auth.{AuthContext}
use async_gate.Store.{Store, Out, ok, err, after, transaction}
use async_gate.Mcp.Server.{call_tool, authenticated, handle, handle_tool}
use async_gate.Writes.Kept.{Kept, Kept-Closed, settle-Kept}
use async_gate.Writes.Access.{authenticated-Kept}
use async_gate.Writes.Calls.{call_tool-Within}
use async_gate.Isolation.Views.{view}
use async_gate.Isolation.Rows.{Kept-Writes}

abbrev names : Option ℕ → ℕ → Bool
names none other = false
names (some tenant_id) other = tenant_id == other

-- Whether the credential of a call names this tenant.
abbrev pub acts_in : ℕ → Fields → Store → Bool
acts_in other arguments s = elim (authenticated arguments s) [
  | ok auth t ↦ names (t.env.parse_uuid auth.tenant_id) other
  | err e t ↦ false
]

handled-Kept :
    (other : ℕ) (name : String) (arguments : Fields) (s : Store) (o : Out AuthContext)
    → Kept (view other) s (after o)
    → elim o [ ok auth t ↦ names (t.env.parse_uuid auth.tenant_id) other | err e t ↦ false ] ≡ false
    → Kept
        (view other)
        s
        (after (elim o [ ok auth t ↦ call_tool name auth arguments t | err e t ↦ err e t ]))
handled-Kept other name arguments s (ok auth t) p h =
    let c = Kept-Closed (view other) in
    c.both p
      (call_tool-Within c auth t (λ n e. Kept-Writes other n (ground (arith, h, e))) name arguments)
handled-Kept other name arguments s (err e t) p h = p

-- Tenants are apart: a call of a tool, whatever its name and arguments and however it ends, leaves the
-- tasks, the receipts, the progress and the relationships of every tenant that its credential does not
-- name, and which of that tenant's leases there are, with their tasks and workers.
pub handle_tool-view :
    (name : String) (arguments : Fields) (other : ℕ) (s : Store)
    → acts_in other arguments (record s { committed = s.db }) ≡ false
    → view other (after (handle_tool name arguments s)).db ≡ view other s.db
unfolding handle_tool handle transaction
handle_tool-view name arguments other s h =
    let start : Store = record s { committed = s.db } in
    let c = Kept-Closed (view other) in
    settle-Kept (view other) start (handle name arguments start) refl (
      handled-Kept other name arguments start (authenticated arguments start)
        ((authenticated-Kept (view other) c (λ db ks. refl) arguments).at start) h)
