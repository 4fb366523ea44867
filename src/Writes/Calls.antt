-- ===== src/Writes/Calls.antt =====
-- The call of a tool (mcp/server.py, `_handle_tool`), once it is authenticated.
use async_gate.Prelude.{
  ℕ, ◌≡◌, Bool, false, Option, none, some, String, arith, refl, Option-cases, Bool-cases, inl, inr,
}
use async_gate.Models.Json.{Fields}
use async_gate.Models.Auth.{AuthContext}
use async_gate.Store.{Store, M, Error, ◌>>=◌, after, or_raise}
use async_gate.Store.Frame.{Within}
use async_gate.Store.Closed.{Closed, Within-pure}
use async_gate.Mcp.Server
use async_gate.Mcp.Server.{
  Tool, ToolResult, tenant_tool, needs_tenant, call_tool, find_tool, tenant_of,
}
use async_gate.Writes.{Writes}
use async_gate.Writes.Tools.{tenant_tool-Within}

module _ {R : Store → Store → Type 0} (c : Closed R) where
  free-Within :
      (tool : Tool) (internal : Bool) (arguments : Fields)
      → needs_tenant tool ≡ false
      → Within R (tenant_tool tool 0 internal arguments)
  unfolding tenant_tool
  free-Within Tool.health internal arguments h = Within-pure c _
  free-Within Tool.get_config internal arguments h = Within-pure c _
  free-Within tool internal arguments h = ground (arith, h)

  for_tenant-Within :
      (id : Option ℕ) (e : Error) (f : ℕ → M ToolResult) (t : Store)
      → ((n : ℕ) → id ≡ some n → Within R (f n))
      → R t (after ((or_raise id e >>= f) t))
  for_tenant-Within none e f t p = c.same t
  for_tenant-Within (some n) e f t p = (p n refl).at t

module _ {R : Store → Store → Type 0} (c : Closed R) (auth : AuthContext) (t : Store)
    (w : (n : ℕ) → t.env.parse_uuid auth.tenant_id ≡ some n → Writes R n) where
  in_tenant-Within :
      (tool : Tool) (arguments : Fields) → R t (after (Server.in_tenant tool auth arguments t))
  unfolding tenant_of
  in_tenant-Within tool arguments = elim (Bool-cases (needs_tenant tool)) [
    | inl k ↦ rw k (
        for_tenant-Within c (t.env.parse_uuid auth.tenant_id) _ _ t
          (λ n e. tenant_tool-Within c n (w n e) tool auth.is_internal arguments))
    | inr k ↦ rw k ((free-Within c tool auth.is_internal arguments k).at t)
  ]

  -- The writes of a call are those for the tenant of its context.
  pub call_tool-Within :
      (name : String) (arguments : Fields) → R t (after (call_tool name auth arguments t))
  call_tool-Within name arguments = elim (Option-cases (find_tool name)) [
    | inl e ↦ rw e (c.same t)
    | inr (tool, e) ↦ rw e (in_tenant-Within tool arguments)
  ]
