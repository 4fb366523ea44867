-- ===== src/Auth/Deps.antt =====
-- asyncgate/api/deps.py: the checks of a request by its headers. The headers have lower-case names.
use async_gate.Prelude.{
  ℕ, false, not, ◌&&◌, Option, none, some, List, [], ◌∷◌, ◌++◌, String, if◌then◌else◌, is_text,
  get_or, starts_with, strip_prefix,
}
use async_gate.Models.Auth.{User, AuthType, AuthContext, is_development}
use async_gate.Store.{M, ◌>>=◌, pure, raise, gets, or_raise, http_error, runtime_error}
use async_gate.Auth.Keys.{api_key_prefix, verify_request_api_key}
use async_gate.Auth.Token.{in_tenant, is_open, compare_digest}

-- UUID(x_tenant_id), or the development tenant 0.
unfoldable pub get_tenant_id : Option String → M ℕ
get_tenant_id x_tenant_id =
    if is_text x_tenant_id
    then (do
      id ← gets (λ s. s.env.parse_uuid (get_or x_tenant_id ""))
      or_raise id (http_error 400))
    else (do open_ ← gets is_open; if open_ then pure 0 else raise (http_error 401))

-- `Bearer ` in just this spelling, or else the other header.
unfoldable pub header_key : Option String → Option String → Option String
unfolding starts_with strip_prefix
header_key authorization x_api_key =
    if is_text authorization && starts_with (get_or authorization "") "Bearer "
    then strip_prefix "Bearer " (get_or authorization "")
    else x_api_key

abbrev given : String → Option String → List (String × String)
given name none = []
given name (some value) = if is_text (some value) then (name, value) ∷ [] else []

abbrev accept_user : Option User → M AuthContext
accept_user none = raise (http_error 401)
accept_user (some user) =
    if not user.is_active
    then raise (http_error 403)
    else pure (in_tenant (some user) AuthType.db_api_key user.is_admin "")

abbrev check_shared : String → Option String → M AuthContext
check_shared api_key shared = if not (is_text shared) then raise (http_error 503) else do
  same ← compare_digest api_key (get_or shared "")
  if same then pure (in_tenant none AuthType.legacy_api_key false "") else raise (http_error 401)

unfoldable pub verify_api_key : Option String → Option String → M AuthContext
unfolding header_key starts_with verify_request_api_key compare_digest
verify_api_key authorization x_api_key = do
  open_ ← gets is_open
  shared ← gets (λ s. s.settings.api_key)
  let api_key = header_key authorization x_api_key
  if open_
      then pure (in_tenant none AuthType.insecure_dev false "")
      else if not (is_text api_key)
      then raise (http_error 401)
      else if starts_with (get_or api_key "") api_key_prefix
      then (do
        user ←
            verify_request_api_key
              (given "authorization" authorization ++ given "x-api-key" x_api_key)
        accept_user user)
      else check_shared (get_or api_key "") shared

-- At startup: no server without authentication but in development.
unfoldable pub validate_auth_config : M Unit
validate_auth_config = do
  insecure ← gets (λ s. s.settings.allow_insecure_dev && not (is_development s.settings.env))
  if insecure then raise runtime_error else pure tt
