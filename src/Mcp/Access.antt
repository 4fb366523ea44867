-- ===== src/Mcp/Access.antt =====
-- Which calls of tools a credential opens (mcp/server.py `_handle_tool`, auth/token.py).
use async_gate.Prelude.{
  ℕ, ◌≡◌, ◌||◌, min, refl, Bool, true, false, Option, none, some, List, String, str_eq_refl, arith,
  is_text, text_or, codes, all, ltb, starts_with,
}
use async_gate.Models.Enums.{PrincipalKind}
use async_gate.Models.Json.{Json, Fields, get}
use async_gate.Models.Auth.{Claims, AuthType}
use async_gate.Store.{Store, ok, err, value_error, transaction, ◌>>=◌}
use async_gate.Auth.Keys.{api_key_prefix}
use async_gate.Auth.Token.{
  is_open, looks_like_jwt, load_jwt_key, compare_digest, verify_legacy, verify_jwt, tenant_claim,
  resolve_tenant, names_other, claims_other, verify_auth_token, in_tenant, is_true,
}
use async_gate.Models.Records.{Receipt}
use async_gate.Principals.{normalize_external}
use async_gate.Repositories.Ledger
use async_gate.Engine.Tasker.{list_receipts}
use async_gate.Mcp.Arguments.{required, text_arg, kind_arg, parse_kind, uuid_opt, count_opt}
use async_gate.Mcp.Server
use async_gate.Mcp.Server.{
  Tool, ToolResult, tenant_tool, find_tool, needs_tenant, tenant_of, extract_principal_id,
  authenticated, handle, handle_tool,
}

abbrev inbox : List Receipt × Option ℕ → ToolResult
inbox page = ToolResult.receipts page.0 page.1

-- The size of a page where the caller gives none.
abbrev default_page : Store → ℕ
default_page s = min s.settings.default_list_limit s.settings.max_list_limit

-- The store behind `set_trace_id`, in a session that begins at `s`.
abbrev in_session : Fields → Store → Store
in_session arguments s = record s {
  committed = s.db;
  trace_id = Server.truthy_or (get "trace_id" arguments) none;
}

module _ (token : String) (arguments : Fields) (s : Store) (shut : is_open s ≡ false)
    (given : get "auth_token" arguments ≡ some (Json.str token))
    (text : is_text (some token) ≡ true) where
  legacy-authenticated :
      looks_like_jwt token ≡ false
      → starts_with token api_key_prefix ≡ false
      → all (λ c. ltb c 128) (codes token) ≡ true
      → s.settings.api_key ≡ some token
      → authenticated arguments s
        ≡ ok
            (in_tenant none AuthType.legacy_api_key false "")
            (record s { trace_id = Server.truthy_or (get "trace_id" arguments) none })
  unfolding authenticated verify_auth_token verify_legacy compare_digest
  legacy-authenticated dots asks ascii shared =
      rw given (ground (arith, shut, text, dots, asks, ascii, shared, str_eq_refl token))

-- The shared key gets a context without a tenant, and the text of no tenant is no UUID. So a call
-- with the shared key fails for every tool that acts for a tenant, whatever its arguments, and
-- changes nothing.
pub legacy_key-handle_tool :
    (name token : String) (arguments : Fields) (tool : Tool) (s : Store)
    → is_open s ≡ false
    → get "auth_token" arguments ≡ some (Json.str token)
    → is_text (some token) ≡ true
    → looks_like_jwt token ≡ false
    → starts_with token api_key_prefix ≡ false
    → all (λ c. ltb c 128) (codes token) ≡ true
    → s.settings.api_key ≡ some token
    → find_tool name ≡ some tool
    → needs_tenant tool ≡ true
    → s.env.parse_uuid "" ≡ none
    → (t : Store) × (handle_tool name arguments s
        ≡ err (value_error "badly formed hexadecimal UUID string") t)
      × (t.db ≡ s.db)
unfolding handle_tool handle tenant_of transaction
legacy_key-handle_tool name token arguments tool s shut given text dots asks ascii shared named
      needs blank =
    let start : Store = record s { committed = s.db } in
    let entered =
      legacy-authenticated token arguments start shut given text dots asks ascii shared in
    (in_session arguments s, rw (entered, ◌>>=◌) (ground (arith, named, needs, blank)), refl)

-- The tenant that a token's claims name, or the default one.
abbrev pub jwt_tenant : Claims → Store → String
jwt_tenant claims s = text_or (tenant_claim claims) s.settings.default_tenant_id

abbrev pub jwt_internal : Claims → Bool
jwt_internal claims = is_true claims.is_admin || is_true claims.admin

module _ (token key sub : String) (claims : Claims) (arguments : Fields) (s : Store)
    (shut : is_open s ≡ false) (given : get "auth_token" arguments ≡ some (Json.str token))
    (unclaimed : get "tenant_id" arguments ≡ none) (text : is_text (some token) ≡ true)
    (dots : looks_like_jwt token ≡ true) (cached : s.jwt_key_cache ≡ some key)
    (usable : is_text (some key) ≡ true)
    (decoded : s.env.jwt_decode token key s.settings.jwt_algorithm ≡ some claims)
    (subject : claims.sub ≡ some sub) (named : get "agent_id" arguments ≡ some (Json.str sub)) where
  jwt-authenticated :
      authenticated arguments s
      ≡ ok
          (in_tenant none AuthType.jwt (jwt_internal claims) (jwt_tenant claims s))
          (record s { trace_id = Server.truthy_or (get "trace_id" arguments) none })
  unfolding authenticated verify_auth_token verify_jwt load_jwt_key names_other claims_other
      resolve_tenant extract_principal_id
  jwt-authenticated =
      rw (given, unclaimed, named)
        (ground (arith, shut, text, dots, cached, usable, decoded, subject, str_eq_refl sub))

module _ (token key sub : String) (claims : Claims) (arguments : Fields) (s : Store)
    (shut : is_open s ≡ false) (given : get "auth_token" arguments ≡ some (Json.str token))
    (unclaimed : get "tenant_id" arguments ≡ none) (text : is_text (some token) ≡ true)
    (dots : looks_like_jwt token ≡ true) (cached : s.jwt_key_cache ≡ some key)
    (usable : is_text (some key) ≡ true)
    (decoded : s.env.jwt_decode token key s.settings.jwt_algorithm ≡ some claims)
    (subject : claims.sub ≡ some sub) (named : get "agent_id" arguments ≡ some (Json.str sub)) where
  -- A token's subject is compared with `agent_id` where the call has one, and `list_receipts` reads
  -- the inbox of `to_id`: so the holder of a token reads, in its tenant, the receipts that are
  -- addressed to anyone, by giving its own subject as `agent_id`.
  pub jwt-reads-inbox :
      (tenant_id : ℕ) (kind_text to_id : String) (to_kind : PrincipalKind)
      → s.env.parse_uuid (jwt_tenant claims s) ≡ some tenant_id
      → get "to_kind" arguments ≡ some (Json.str kind_text)
      → parse_kind kind_text ≡ some to_kind
      → get "to_id" arguments ≡ some (Json.str to_id)
      → get "since_receipt_id" arguments ≡ none
      → get "limit" arguments ≡ none
      → (t : Store) × (handle_tool "asyncgate.list_receipts" arguments s
          ≡ ok
              (inbox
                (Ledger.list tenant_id to_kind (normalize_external to_id) none (default_page s) s))
              t)
        × (t.db ≡ s.db)
  unfolding handle_tool handle tenant_of tenant_tool find_tool list_receipts Ledger.list uuid_opt
      count_opt kind_arg text_arg required transaction
  jwt-reads-inbox tenant_id kind_text to_id to_kind tenant kind kinds ids since limit =
      let start : Store = record s { committed = s.db } in
      let entered =
        jwt-authenticated token key sub claims arguments start shut given unclaimed text dots cached
          usable decoded subject named in
      (
        in_session arguments s,
        rw (entered, ◌>>=◌) (rw (kind, ids, since, limit) (ground (arith, tenant, kinds))),
        refl,
      )
