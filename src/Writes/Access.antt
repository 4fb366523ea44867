-- ===== src/Writes/Access.antt =====
-- Authentication (auth/token.py, auth/middleware.py) keeps what does not depend on the API keys.
use async_gate.Prelude.{◌≡◌, ℕ, refl, List, [], ◌∷◌, Option, none, some, String}
use async_gate.Models.Json.{Json, Fields}
use async_gate.Models.Auth.{User, ApiKey, Claims}
use async_gate.Store.{Db, modify, put_db, commit}
use async_gate.Store.Frame.{Within}
use async_gate.Store.Closed.{Closed, Within-pure, Within-raise, Within-trace, within_rules}
use async_gate.Auth.Keys.{
  scalar_one_or_none, count_use, use_key, verify_row, verify_key, verify_request_api_key,
}
use async_gate.Auth.Token.{
  read_key, read_configured, load_jwt_key, resolve_tenant, accept_claims, verify_jwt, accept_user,
  verify_db_key, compare_digest, verify_legacy, verify_token, verify_auth_token,
}
use async_gate.Mcp.Server.{token_of, authenticated}
use async_gate.Writes.Kept.{Kept, Kept-put, Kept-commit}

module _ {V : Type 0} (part : Db → V) (c : Closed (Kept part))
    (blind : (db : Db) (ks : List ApiKey) → part (record db { api_keys = ks }) ≡ part db) where
  cache-Kept :
      (key : String) → Within (Kept part) (modify λ s. record s { jwt_key_cache = some key })
  cache-Kept key = record { at = λ s. record { kept = λ h. (refl, h) } }

  count_use-Kept : (id now : ℕ) → Within (Kept part) (put_db (count_use id now))
  count_use-Kept id now = record {
    at = λ s. Kept-put part s (count_use id now s.db) (blind s.db _);
  }

  commit-Kept : Within (Kept part) commit
  commit-Kept = Kept-commit part

  scalar-Kept : {A : Type 0} (rows : List A) → Within (Kept part) (scalar_one_or_none rows)
  scalar-Kept [] = Within-pure c _
  scalar-Kept (x ∷ []) = Within-pure c _
  scalar-Kept (x ∷ y ∷ rest) = Within-raise c _

  use_key-Kept : (row : ApiKey) → Within (Kept part) (use_key row)
  unfolding use_key
  use_key-Kept row = search (within_rules, count_use-Kept, commit-Kept) depth 12

  verify_row-Kept :
      (api_key : String) (found : Option ApiKey) → Within (Kept part) (verify_row api_key found)
  verify_row-Kept api_key none = Within-pure c _
  verify_row-Kept api_key (some row) = search (within_rules, use_key-Kept)

  verify_key-Kept : (api_key : String) → Within (Kept part) (verify_key api_key)
  unfolding verify_key
  verify_key-Kept api_key = search (within_rules, scalar-Kept, verify_row-Kept) depth 12

  verify_request-Kept :
      (headers : List (String × String)) → Within (Kept part) (verify_request_api_key headers)
  unfolding verify_request_api_key
  verify_request-Kept headers = search (within_rules, verify_key-Kept)

  read_key-Kept : (path : String) → Within (Kept part) (read_key path)
  read_key-Kept path = search (within_rules, cache-Kept) depth 12

  read_configured-Kept :
      (public private : Option String) → Within (Kept part) (read_configured public private)
  read_configured-Kept public private = search (within_rules, read_key-Kept)

  load_jwt_key-Kept : Within (Kept part) load_jwt_key
  unfolding load_jwt_key
  load_jwt_key-Kept = search (within_rules, read_configured-Kept) depth 12

  resolve-Kept :
      (from_credential : Option String) (claimed : Option Json)
      → Within (Kept part) (resolve_tenant from_credential claimed)
  unfolding resolve_tenant
  resolve-Kept from_credential claimed = search within_rules

  accept_claims-Kept :
      (claims : Claims) (claimed principal : Option Json)
      → Within (Kept part) (accept_claims claims claimed principal)
  accept_claims-Kept claims claimed principal = search (within_rules, resolve-Kept)

  verify_jwt-Kept :
      (token : String) (claimed principal : Option Json)
      → Within (Kept part) (verify_jwt token claimed principal)
  unfolding verify_jwt
  verify_jwt-Kept token claimed principal =
      search (within_rules, load_jwt_key-Kept, accept_claims-Kept) depth 12

  accept_user-Kept :
      (found : Option User) (claimed : Option Json) → Within (Kept part) (accept_user found claimed)
  accept_user-Kept none claimed = Within-raise c _
  accept_user-Kept (some user) claimed = search (within_rules, resolve-Kept)

  verify_db_key-Kept :
      (token : String) (claimed : Option Json) → Within (Kept part) (verify_db_key token claimed)
  unfolding verify_db_key
  verify_db_key-Kept token claimed = search (within_rules, verify_request-Kept, accept_user-Kept)

  verify_legacy-Kept : (token : String) → Within (Kept part) (verify_legacy token)
  unfolding verify_legacy compare_digest
  verify_legacy-Kept token = search within_rules depth 12

  verify_token-Kept :
      (token : String) (claimed principal : Option Json)
      → Within (Kept part) (verify_token token claimed principal)
  verify_token-Kept token claimed principal =
      search (within_rules, verify_jwt-Kept, verify_db_key-Kept, verify_legacy-Kept)

  verify_auth_token-Kept :
      (token : Option String) (claimed principal : Option Json)
      → Within (Kept part) (verify_auth_token token claimed principal)
  unfolding verify_auth_token
  verify_auth_token-Kept token claimed principal =
      search (within_rules, resolve-Kept, verify_token-Kept) depth 12

  token_of-Kept : (found : Option Json) → Within (Kept part) (token_of found)
  token_of-Kept none = Within-pure c _
  token_of-Kept (some (Json.str s)) = Within-pure c _
  token_of-Kept (some v) = search within_rules

  trace-Kept : (t : Option Json) → Within (Kept part) (modify λ s. record s { trace_id = t })
  trace-Kept t = Within-trace c (λ s. t)

  pub authenticated-Kept : (arguments : Fields) → Within (Kept part) (authenticated arguments)
  unfolding authenticated
  authenticated-Kept arguments =
      search (within_rules, token_of-Kept, trace-Kept, verify_auth_token-Kept) depth 12
