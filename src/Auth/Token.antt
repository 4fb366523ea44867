-- ===== src/Auth/Token.antt =====
-- asyncgate/auth/token.py: the context of a request of the MCP interface.
use async_gate.Prelude.{
  Bool, false, not, ◌&&◌, ◌||◌, Option, none, some, [], ◌∷◌, String, str_eq, ◌==◌, ltb,
  if◌then◌else◌, is_text, text_or, get_or, codes, count, all, starts_with, prepend,
}
use async_gate.Models.Json.{Json, truthy}
use async_gate.Models.Auth.{User, AuthType, AuthContext, Claims, is_development}
use async_gate.Store.{
  Store, M, ◌>>=◌, ◌>>◌, pure, raise, gets, modify, or_raise, unauthorized, type_error,
  file_not_found,
}
use async_gate.Auth.Keys.{api_key_prefix, verify_request_api_key}

-- token.count(".") == 2
unfoldable pub looks_like_jwt : String → Bool
unfolding count
looks_like_jwt token = count (λ c. c == 46) (codes token) == 2

abbrev pub read_key : String → M String
read_key path = do
  text ← gets (λ s. s.env.read_file path)
  key ← or_raise text file_not_found
  modify (λ s. record s { jwt_key_cache = some key })
  pure key

-- The public key's file, or else the private key's.
abbrev pub read_configured : Option String → Option String → M String
read_configured public private =
    if is_text public
    then read_key (get_or public "")
    else if is_text private
    then read_key (get_or private "")
    else raise unauthorized

unfoldable pub load_jwt_key : M String
load_jwt_key = do
  cached ← gets (λ s. s.jwt_key_cache)
  public ← gets (λ s. s.settings.jwt_public_key_path)
  private ← gets (λ s. s.settings.jwt_private_key_path)
  if is_text cached then pure (get_or cached "") else read_configured public private

-- Whether an argument of a call, which may be any value, is this text.
abbrev pub is_that : Json → String → Bool
is_that (Json.str t) s = str_eq t s
is_that _ s = false

-- `claimed and claimed != resolved`
unfoldable pub claims_other : Option Json → String → Bool
unfolding truthy
claims_other none resolved = false
claims_other (some v) resolved = truthy v && not (is_that v resolved)

unfoldable pub resolve_tenant : Option String → Option Json → M String
unfolding claims_other
resolve_tenant from_credential claimed = do
  resolved ← gets (λ s. text_or from_credential s.settings.default_tenant_id)
  if claims_other claimed resolved then raise unauthorized else pure resolved

-- `principal_id and subject and subject != principal_id`
unfoldable pub names_other : Option String → Option Json → Bool
unfolding claims_other
names_other none principal_id = false
names_other (some sub) principal_id = is_text (some sub) && claims_other principal_id sub

abbrev pub is_true : Option Json → Bool
is_true none = false
is_true (some v) = truthy v

abbrev pub in_tenant : Option User → AuthType → Bool → String → AuthContext
in_tenant user auth_type is_internal tenant_id = record {
  user = user;
  auth_type = auth_type;
  is_internal = is_internal;
  tenant_id = tenant_id;
}

-- payload.get("tenant_id") or payload.get("tid")
abbrev pub tenant_claim : Claims → Option String
tenant_claim claims = if is_text claims.tenant_id then claims.tenant_id else claims.tid

abbrev pub accept_claims : Claims → Option Json → Option Json → M AuthContext
accept_claims claims tenant_id principal_id =
    if names_other claims.sub principal_id then raise unauthorized else do
      tenant ← resolve_tenant (tenant_claim claims) tenant_id
      pure (in_tenant none AuthType.jwt (is_true claims.is_admin || is_true claims.admin) tenant)

unfoldable pub verify_jwt : String → Option Json → Option Json → M AuthContext
unfolding load_jwt_key names_other resolve_tenant truthy
verify_jwt token tenant_id principal_id = do
  key ← load_jwt_key
  payload ← gets (λ s. s.env.jwt_decode token key s.settings.jwt_algorithm)
  claims ← or_raise payload unauthorized
  accept_claims claims tenant_id principal_id

abbrev pub accept_user : Option User → Option Json → M AuthContext
accept_user none tenant_id = raise unauthorized
accept_user (some user) tenant_id = if not user.is_active then raise unauthorized else do
  tenant ← resolve_tenant none tenant_id
  pure (in_tenant (some user) AuthType.db_api_key user.is_admin tenant)

unfoldable pub verify_db_key : String → Option Json → M AuthContext
unfolding verify_request_api_key prepend resolve_tenant
verify_db_key token tenant_id = do
  user ← verify_request_api_key (("authorization", prepend "Bearer " token) ∷ [])
  accept_user user tenant_id

-- `secrets.compare_digest` of two texts, which wants ASCII.
unfoldable pub compare_digest : String → String → M Bool
unfolding all
compare_digest a b =
    if all (λ c. ltb c 128) (codes a) && all (λ c. ltb c 128) (codes b)
    then pure (str_eq a b)
    else raise type_error

-- The shared key, of a context that names no tenant.
unfoldable pub verify_legacy : String → M AuthContext
unfolding compare_digest
verify_legacy token = do
  api_key ← gets (λ s. s.settings.api_key)
  if not (is_text api_key) then raise unauthorized else do
    same ← compare_digest token (get_or api_key "")
    if same then pure (in_tenant none AuthType.legacy_api_key false "") else raise unauthorized

abbrev pub verify_token : String → Option Json → Option Json → M AuthContext
verify_token token tenant_id principal_id =
    if looks_like_jwt token
    then verify_jwt token tenant_id principal_id
    else if starts_with token api_key_prefix
    then verify_db_key token tenant_id
    else verify_legacy token

abbrev pub is_open : Store → Bool
is_open s = s.settings.allow_insecure_dev && is_development s.settings.env

unfoldable pub verify_auth_token : Option String → Option Json → Option Json → M AuthContext
unfolding resolve_tenant looks_like_jwt verify_jwt starts_with verify_db_key verify_legacy
verify_auth_token token tenant_id principal_id = do
  open_ ← gets is_open
  if open_
      then (do
        tenant ← resolve_tenant none tenant_id
        pure (in_tenant none AuthType.insecure_dev false tenant))
      else if not (is_text token)
      then raise unauthorized
      else verify_token (get_or token "") tenant_id principal_id
