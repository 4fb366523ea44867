-- ===== src/Tests/Access.antt =====
-- Credentials at a server with a user, and the theorems on authentication and the tools at them.
use async_gate.Prelude.{
  ◌≡◌, refl, true, false, List, [], ◌∷◌, none, some, String, str_eq, str_eq_refl, ℕ, if◌then◌else◌,
  select, starts_with, codes, all, ltb, prepend, take_text,
}
use async_gate.Models.Enums.{PrincipalKind}
use async_gate.Models.Json.{Json, Fields, end, get, put}
use async_gate.Models.Auth.{User, ApiKey, AuthType, Claims, is_valid}
use async_gate.Store.{Store, ok, err, value_error, after}
use async_gate.Auth.Keys.{
  api_key_prefix, extract_key, has_prefix, find_user, create_api_key_for_user,
  verify_request_api_key, new_key,
}
use async_gate.Auth.Token.{in_tenant, looks_like_jwt, verify_auth_token}
use async_gate.Auth.Tenancy
use async_gate.Auth.Tenancy.{settle_claim}
use async_gate.Auth.Provenance
use async_gate.Auth.Provenance.{counted}
use async_gate.Auth.Issue
use async_gate.Mcp.Arguments.{parse_kind}
use async_gate.Mcp.Server.{Tool, ToolResult, find_tool, handle_tool}
use async_gate.Mcp.Access
use async_gate.Principals.{normalize_external}
use async_gate.Repositories.Ledger
use async_gate.Tests.Server.{env, start, empty_db}

abbrev root : User
root = record {
  id = 3;
  email = "system@asyncgate.local";
  name = some "System";
  oauth_provider = none;
  oauth_subject = none;
  is_active = true;
  is_admin = true;
  created_at = 0;
  last_login = 0;
  updated_at = 0;
  metadata = end;
}

abbrev staffed : Store
staffed = record start { next_id = 10; db = record empty_db { users = root ∷ [] } }

-- The key that the server makes for the user, and the store behind.
abbrev full_key : String
full_key = "ag_abcdefghijklm"

abbrev row : ApiKey
row = new_key 12 3 (full_key, "ag_abcdefgh", full_key) "ci" [] 1_000_000_000

abbrev equipped : Store
equipped = after (create_api_key_for_user root "ci" [] staffed)

made : create_api_key_for_user root "ci" [] staffed ≡ ok (full_key, row) equipped
unfolding create_api_key_for_user prepend take_text
made = refl

hashes : (salt : ℕ) (key : String) → env.checkpw key (env.hashpw salt key) ≡ true
hashes salt key = str_eq_refl key

owner : find_user 3 staffed.db ≡ some root
unfolding find_user
owner = refl

one_word : looks_like_jwt full_key ≡ false
unfolding looks_like_jwt
one_word = refl

create_api_key-verify_auth_token_example :
    verify_auth_token (some full_key) none none equipped
    ≡ ok (in_tenant (some root) AuthType.db_api_key true "tenant") (counted row equipped)
unfolding select
create_api_key-verify_auth_token_example =
    Issue.create_api_key-verify_auth_token root "ci" [] none staffed equipped full_key row hashes
      made refl one_word owner refl refl

abbrev headers : List (String × String)
headers = ("Authorization", "bearer ag_abcdefghijklm") ∷ []

abbrev recognised : Store
recognised = after (verify_request_api_key headers equipped)

known : verify_request_api_key headers equipped ≡ ok (some root) recognised
unfolding verify_request_api_key extract_key create_api_key_for_user prepend take_text
known = refl

verify_request_api_key-counted_example :
    (api_key : String) × (row : ApiKey) × (extract_key headers ≡ some api_key)
    × (starts_with api_key api_key_prefix ≡ true)
    × (select (has_prefix api_key) equipped.db.api_keys ≡ row ∷ [])
    × (equipped.env.checkpw api_key row.key_hash ≡ true)
    × (is_valid row equipped.clock ≡ true)
    × (find_user row.user_id equipped.db ≡ some root)
    × (recognised ≡ counted row equipped)
verify_request_api_key-counted_example =
    Provenance.verify_request_api_key-counted headers equipped recognised root known

verify_auth_token-settle_claim_example :
    verify_auth_token (some full_key) (some (Json.str "other")) none equipped
    ≡ settle_claim (some (Json.str "other")) (verify_auth_token (some full_key) none none equipped)
verify_auth_token-settle_claim_example =
    Tenancy.verify_auth_token-settle_claim (some full_key) (some (Json.str "other")) none equipped

abbrev keyed : Fields
keyed = put "auth_token" (Json.str "secret") (put "task_id" (Json.str "tenant") end)

keyed_token : get "auth_token" keyed ≡ some (Json.str "secret")
unfolding get put
keyed_token = refl

shared_word : looks_like_jwt "secret" ≡ false
unfolding looks_like_jwt
shared_word = refl

shared_prefix : starts_with "secret" api_key_prefix ≡ false
unfolding starts_with
shared_prefix = refl

shared_ascii : all (λ c. ltb c 128) (codes "secret") ≡ true
unfolding all
shared_ascii = refl

get_task_named : find_tool "asyncgate.get_task" ≡ some Tool.get_task
unfolding find_tool
get_task_named = refl

legacy_key-handle_tool_example :
    (t : Store) × (handle_tool "asyncgate.get_task" keyed start
      ≡ err (value_error "badly formed hexadecimal UUID string") t)
    × (t.db ≡ start.db)
legacy_key-handle_tool_example =
    Access.legacy_key-handle_tool "asyncgate.get_task" "secret" keyed Tool.get_task start refl
      keyed_token refl shared_word shared_prefix shared_ascii refl get_task_named refl refl

abbrev claims : Claims
claims = record {
  sub = some "eve";
  tenant_id = some "tenant";
  tid = none;
  is_admin = none;
  admin = none;
}

abbrev pub tokens : Store
tokens = record start {
  env = record env {
    jwt_decode = λ token key algorithm. if str_eq token "head.body.sign" then some claims else none;
  };
  jwt_key_cache = some "pem";
}

abbrev asked : Fields
asked = put "auth_token" (Json.str "head.body.sign") (
    put "agent_id" (Json.str "eve")
      (put "to_kind" (Json.str "agent") (put "to_id" (Json.str "ada") end)))

asked_token : get "auth_token" asked ≡ some (Json.str "head.body.sign")
unfolding get put
asked_token = refl

asked_agent : get "agent_id" asked ≡ some (Json.str "eve")
unfolding get put
asked_agent = refl

asked_kind : get "to_kind" asked ≡ some (Json.str "agent")
unfolding get put
asked_kind = refl

asked_to : get "to_id" asked ≡ some (Json.str "ada")
unfolding get put
asked_to = refl

asked_no :
    (get "tenant_id" asked ≡ none)
    × (get "since_receipt_id" asked ≡ none)
    × (get "limit" asked ≡ none)
unfolding get put
asked_no = (refl, refl, refl)

three_parts : looks_like_jwt "head.body.sign" ≡ true
unfolding looks_like_jwt
three_parts = refl

agent_kind : parse_kind "agent" ≡ some PrincipalKind.agent
unfolding parse_kind
agent_kind = refl

jwt-reads-inbox_example :
    (t : Store) × (handle_tool "asyncgate.list_receipts" asked tokens
      ≡ ok
          (ToolResult.receipts
            (Ledger.list 7 PrincipalKind.agent (normalize_external "ada") none 50 tokens).0
            (Ledger.list 7 PrincipalKind.agent (normalize_external "ada") none 50 tokens).1)
          t)
    × (t.db ≡ tokens.db)
jwt-reads-inbox_example =
    Access.jwt-reads-inbox "head.body.sign" "pem" "eve" claims asked tokens refl asked_token
      asked_no.0 refl three_parts refl refl refl refl asked_agent 7 "agent" "ada"
      PrincipalKind.agent refl asked_kind agent_kind asked_to asked_no.1 asked_no.2
