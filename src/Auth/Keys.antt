-- ===== src/Auth/Keys.antt =====
-- asyncgate/auth/middleware.py: API keys. Headers are texts of Latin-1, where `lower` reaches no
-- ASCII letter but from its capital.
use async_gate.Prelude.{
  ℕ, Bool, ◌&&◌, Option, none, some, List, [], ◌∷◌, ◌++◌, String, str_eq, ◌==◌, not, true, false,
  if◌then◌else◌, is_text, first, select, any, update_where, starts_with, prepend, take_text,
  split_at, is_lower_form, get_or,
}
use async_gate.Models.Json.{end}
use async_gate.Models.Auth.{User, ApiKey, is_valid, increment_usage}
use async_gate.Store.{
  Store, Db, M, ◌>>=◌, ◌>>◌, pure, raise, gets, uuid4, put_db, commit, multiple_results_found,
  integrity_error,
}

abbrev pub api_key_prefix : String
api_key_prefix = "ag_"

-- `result.scalar_one_or_none()`
abbrev pub scalar_one_or_none : {A : Type 0} → List A → M (Option A)
scalar_one_or_none [] = pure none
scalar_one_or_none (x ∷ []) = pure (some x)
scalar_one_or_none (x ∷ y ∷ rest) = raise multiple_results_found

-- hash_api_key; `gensalt` is a number that is new each time.
unfoldable pub hash_api_key : String → M String
hash_api_key api_key = do salt ← uuid4; gets (λ s. s.env.hashpw salt api_key)

-- The key, its prefix, its hash.
unfoldable pub generate_api_key : M (String × String × String)
unfolding hash_api_key prepend take_text
generate_api_key = do
  n ← uuid4
  random ← gets (λ s. s.env.token_urlsafe n)
  let full_key = prepend api_key_prefix random
  key_hash ← hash_api_key full_key
  pure (full_key, take_text 11 full_key, key_hash)

-- The first header of this name, in whatever case.
unfoldable pub header : String → List (String × String) → Option String
unfolding is_lower_form
header name [] = none
header name ((key, value) ∷ rest) = if is_lower_form key name then some value else header name rest

-- `auth_header.split(' ', 1)`, where the scheme is `bearer`
unfoldable pub bearer : Option String → Option String
unfolding split_at is_lower_form
bearer none = none
bearer (some auth_header) = elim (split_at 32 auth_header) [
  | none ↦ none
  | some (scheme, rest) ↦ if is_lower_form scheme "bearer" then some rest else none
]

unfoldable pub extract_key : List (String × String) → Option String
unfolding header bearer
extract_key headers =
    let from_bearer = bearer (header "authorization" headers) in
    if is_text from_bearer then from_bearer else header "x-api-key" headers

unfoldable pub find_user : ℕ → Db → Option User
unfolding first
find_user user_id db = first (λ (u : User). u.id == user_id) db.users

abbrev pub is_key : ℕ → ApiKey → Bool
is_key id k = k.id == id

abbrev pub count_use : ℕ → ℕ → Db → Db
count_use id now db = record db {
  api_keys = update_where (is_key id) (increment_usage now) db.api_keys;
}

-- The use of a key that is good is counted and committed.
unfoldable pub use_key : ApiKey → M (Option User)
unfolding find_user update_where
use_key row = do
  now ← gets (λ s. s.clock)
  put_db (count_use row.id now)
  commit
  gets (λ s. find_user row.user_id s.db)

-- The hash of the whole key, then revocation and expiry.
abbrev pub is_good : String → ApiKey → Store → Bool
is_good api_key row s = s.env.checkpw api_key row.key_hash && is_valid row s.clock

abbrev pub verify_row : String → Option ApiKey → M (Option User)
verify_row api_key none = pure none
verify_row api_key (some row) = do
  good ← gets (is_good api_key row)
  if good then use_key row else pure none

abbrev pub has_prefix : String → ApiKey → Bool
has_prefix api_key k = str_eq k.key_prefix (take_text 11 api_key)

unfoldable pub verify_key : String → M (Option User)
unfolding starts_with take_text select is_valid use_key
verify_key api_key = if not (starts_with api_key api_key_prefix) then pure none else do
  rows ← gets (λ s. select (has_prefix api_key) s.db.api_keys)
  found ← scalar_one_or_none rows
  verify_row api_key found

unfoldable pub verify_request_api_key : List (String × String) → M (Option User)
unfolding extract_key verify_key
verify_request_api_key headers =
    if is_text (extract_key headers)
    then verify_key (get_or (extract_key headers) "")
    else pure none

abbrev system_user : ℕ → String → ℕ → User
system_user id email now = record {
  id = id;
  email = email;
  name = some "System";
  oauth_provider = none;
  oauth_subject = none;
  is_active = true;
  is_admin = true;
  created_at = now;
  last_login = now;
  updated_at = now;
  metadata = end;
}

abbrev create_user_unless : String → Option User → M User
create_user_unless email (some user) = pure user
create_user_unless email none = do
  id ← uuid4
  now ← gets (λ s. s.clock)
  put_db (λ db. record db { users = db.users ++ system_user id email now ∷ [] })
  commit
  pure (system_user id email now)

unfoldable pub get_or_create_bootstrap_user : String → M User
unfolding first
get_or_create_bootstrap_user email = do
  user ← gets (λ s. first (λ u. str_eq u.email email) s.db.users)
  create_user_unless email user

abbrev pub new_key : ℕ → ℕ → String × String × String → String → List String → ℕ → ApiKey
new_key id user_id (full, prefix, key_hash) name scopes now = record {
  id = id;
  user_id = user_id;
  key_prefix = prefix;
  key_hash = key_hash;
  name = name;
  scopes = scopes;
  created_at = now;
  last_used = none;
  usage_count = 0;
  expires_at = none;
  is_revoked = false;
}

-- A key whose hash is taken violates the table's unique key.
unfoldable pub create_api_key_for_user : User → String → List String → M (String × ApiKey)
unfolding generate_api_key any
create_api_key_for_user user name scopes = do
  generated ← generate_api_key
  id ← uuid4
  now ← gets (λ s. s.clock)
  let row = new_key id user.id generated name scopes now
  taken ← gets (λ s. any (λ k. str_eq k.key_hash row.key_hash) s.db.api_keys)
  if taken then raise integrity_error else do
    put_db (λ db. record db { api_keys = db.api_keys ++ row ∷ [] })
    commit
    pure (generated.0, row)
