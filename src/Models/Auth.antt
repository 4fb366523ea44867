-- ===== src/Models/Auth.antt =====
-- asyncgate/auth/{models,context}.py: accounts, API keys, and what a request is allowed to be; and
-- the environment (config.py) and the claims of a token.
use async_gate.Prelude.{ℕ, ◌+◌, Bool, true, false, not, ◌&&◌, List, Option, none, some, String, ltb}
use async_gate.Models.Json.{Json, Fields}

pub data Environment : Type 0 where
  development : Environment
  staging : Environment
  production : Environment

abbrev pub is_development : Environment → Bool
is_development Environment.development = true
is_development Environment.staging = false
is_development Environment.production = false

pub record User : Type 0 where
  pub id : ℕ
  pub email : String
  pub name : Option String
  pub oauth_provider : Option String
  pub oauth_subject : Option String
  pub is_active : Bool
  pub is_admin : Bool
  pub created_at : ℕ
  pub last_login : ℕ
  pub updated_at : ℕ
  pub metadata : Fields

pub record ApiKey : Type 0 where
  pub id : ℕ
  pub user_id : ℕ
  pub key_prefix : String
  pub key_hash : String
  pub name : String
  pub scopes : List String
  pub created_at : ℕ
  pub last_used : Option ℕ
  pub usage_count : ℕ
  pub expires_at : Option ℕ
  pub is_revoked : Bool

-- `expires_at and utcnow() > expires_at`
abbrev pub has_expired : Option ℕ → ℕ → Bool
has_expired none now = false
has_expired (some at) now = ltb at now

unfoldable pub is_valid : ApiKey → ℕ → Bool
is_valid k now = not k.is_revoked && not (has_expired k.expires_at now)

abbrev pub increment_usage : ℕ → ApiKey → ApiKey
increment_usage now k = record k { usage_count = k.usage_count + 1; last_used = some now }

pub data AuthType : Type 0 where
  db_api_key : AuthType
  legacy_api_key : AuthType
  insecure_dev : AuthType
  jwt : AuthType

pub record AuthContext : Type 0 where
  pub user : Option User
  pub auth_type : AuthType
  pub is_internal : Bool
  pub tenant_id : String

-- The payload of a token that jose has verified. jose refuses a subject that is no text; a tenant
-- that is none is not modelled.
pub record Claims : Type 0 where
  pub sub : Option String
  pub tenant_id : Option String
  pub tid : Option String
  pub is_admin : Option Json
  pub admin : Option Json
