-- ===== src/Auth/Issue.antt =====
-- A key that was just created is one that a request can use (auth/middleware.py, auth/token.py).
use async_gate.Prelude.{
  ℕ, suc, ◌≡◌, refl, sym, ap, subst, ◌∙◌, inl, inr, Bool, true, false, List, [], ◌∷◌, ◌++◌, Option,
  none, some, String, str_eq, str_eq_iff, str_eq_refl, arith, Bool-cases, is_text, select, any,
  starts_with, prepend, take_text, is_lower_form, codes,
}
use async_gate.Models.Json.{Json}
use async_gate.Models.Auth.{User, ApiKey, AuthType, is_valid}
use async_gate.Store.{Store, ok}
use async_gate.Auth.Keys.{
  api_key_prefix, find_user, has_prefix, is_good, use_key, verify_key, extract_key, header, bearer,
  verify_request_api_key, generate_api_key, hash_api_key, create_api_key_for_user,
}
use async_gate.Auth.Token.{
  in_tenant, is_open, verify_db_key, looks_like_jwt, resolve_tenant, claims_other,
  verify_auth_token,
}
use async_gate.Auth.Provenance.{counted}

issued_text : (random : String) → is_text (some (prepend api_key_prefix random)) ≡ true
unfolding prepend
issued_text random = elim (Bool-cases (str_eq (prepend api_key_prefix random) "")) [
  | inl e ↦
      let none_left = ap codes ((str_eq_iff (prepend api_key_prefix random) "").0 e) in
      ground (arith, none_left)
  | inr e ↦ ground (arith, e)
]

issued_prefix :
    (random : String) → starts_with (prepend api_key_prefix random) api_key_prefix ≡ true
unfolding prepend starts_with
issued_prefix random = refl

bearer-prepend : (token : String) → bearer (some (prepend "Bearer " token)) ≡ some token
unfolding bearer prepend
bearer-prepend token = refl

extract_key-bearer :
    (token : String)
    → is_text (some token) ≡ true
    → extract_key (("authorization", prepend "Bearer " token) ∷ []) ≡ some token
unfolding extract_key header is_lower_form
extract_key-bearer token h = rw (bearer-prepend token, h) refl

select-append :
    (p : ApiKey → Bool) (xs : List ApiKey) (row : ApiKey)
    → select p xs ≡ []
    → p row ≡ true
    → select p (xs ++ row ∷ []) ≡ row ∷ []
unfolding select
select-append p [] row h k = ground (arith, k)
select-append p (x ∷ xs) row h k = elim (Bool-cases (p x)) [
  | inl e ↦ ground (arith, e, h)
  | inr e ↦ ground (arith, e, h, select-append p xs row)
]

-- What a creation that returns has done.
pub record Issued (user : User) (s t : Store) (full : String) (row : ApiKey) : Type 0 where
  pub random : String
  pub is_full : full ≡ prepend api_key_prefix random
  pub prefix : row.key_prefix ≡ take_text 11 full
  pub salt : ℕ
  pub key_hash : row.key_hash ≡ s.env.hashpw salt full
  pub owner : row.user_id ≡ user.id
  pub is_revoked : row.is_revoked ≡ false
  pub expires_at : row.expires_at ≡ none
  pub env : t.env ≡ s.env
  pub settings : t.settings ≡ s.settings
  pub clock : t.clock ≡ s.clock
  pub users : t.db.users ≡ s.db.users
  pub api_keys : t.db.api_keys ≡ s.db.api_keys ++ row ∷ []

create_api_key-Issued :
    (user : User) (name : String) (scopes : List String) (s t : Store) (full : String)
    (row : ApiKey)
    → create_api_key_for_user user name scopes s ≡ ok (full, row) t
    → Issued user s t full row
unfolding create_api_key_for_user generate_api_key hash_api_key
create_api_key-Issued user name scopes s t full row h =
    let random = s.env.token_urlsafe s.next_id in
    let whole = prepend api_key_prefix random in
    elim (Bool-cases
      (any (λ k. str_eq k.key_hash (s.env.hashpw (suc s.next_id) whole)) s.db.api_keys)) [
        | inl taken ↦ ground (arith, h, taken)
        | inr free ↦ record {
          random = random;
          is_full = ground (arith, h, free);
          prefix = ground (arith, h, free);
          salt = suc s.next_id;
          key_hash = ground (arith, h, free);
          owner = ground (arith, h, free);
          is_revoked = ground (arith, h, free);
          expires_at = ground (arith, h, free);
          env = ground (arith, h, free);
          settings = ground (arith, h, free);
          clock = ground (arith, h, free);
          users = ground (arith, h, free);
          api_keys = ground (arith, h, free);
        }
      ]

-- The key that was created is good where it is looked up.
module _ (user : User) (s t : Store) (full : String) (row : ApiKey) (i : Issued user s t full row)
    (hashes : (salt : ℕ) (key : String) → s.env.checkpw key (s.env.hashpw salt key) ≡ true)
    (owner : find_user user.id s.db ≡ some user) where
  issued-good : is_good full row t ≡ true
  unfolding is_valid
  issued-good = ground (arith, i.env, i.key_hash, i.is_revoked, i.expires_at, hashes i.salt full)

  issued-owner : find_user row.user_id t.db ≡ some user
  unfolding find_user
  issued-owner = rw (i.users, i.owner) owner

  issued-verified :
      select (has_prefix full) s.db.api_keys ≡ []
      → verify_key full t ≡ ok (some user) (counted row t)
  unfolding verify_key use_key
  issued-verified free =
      let asks : starts_with full api_key_prefix ≡ true =
        subst (λ k. starts_with k api_key_prefix ≡ true) (sym i.is_full) (issued_prefix i.random) in
      let only : select (has_prefix full) t.db.api_keys ≡ row ∷ [] =
        ap (select (has_prefix full)) i.api_keys
        ∙ select-append (has_prefix full) s.db.api_keys row free
            (ground (arith, i.prefix, str_eq_refl (take_text 11 full))) in
      ground (arith, asks, only, issued-good, issued-owner)

-- A key that `create_api_key_for_user` has just returned authenticates its owner: as the token of a
-- call it gives the owner's context, internal if the owner is an administrator, in the default
-- tenant, and its use is counted. This is so if bcrypt accepts what it has hashed, no earlier key has
-- the same prefix, the random part has no two dots, the owner is there and active, and the server
-- does authenticate.
pub create_api_key-verify_auth_token :
    (user : User) (name : String) (scopes : List String) (principal_id : Option Json) (s t : Store)
    (full : String) (row : ApiKey)
    → ((salt : ℕ) (key : String) → s.env.checkpw key (s.env.hashpw salt key) ≡ true)
    → create_api_key_for_user user name scopes s ≡ ok (full, row) t
    → select (has_prefix full) s.db.api_keys ≡ []
    → looks_like_jwt full ≡ false
    → find_user user.id s.db ≡ some user
    → user.is_active ≡ true
    → is_open s ≡ false
    → verify_auth_token (some full) none principal_id t
      ≡ ok
          (in_tenant (some user) AuthType.db_api_key user.is_admin s.settings.default_tenant_id)
          (counted row t)
unfolding verify_auth_token verify_db_key verify_request_api_key resolve_tenant claims_other
create_api_key-verify_auth_token user name scopes principal_id s t full row hashes made free dots
      owner active closed =
    let i = create_api_key-Issued user name scopes s t full row made in
    let text : is_text (some full) ≡ true =
      subst (λ k. is_text (some k) ≡ true) (sym i.is_full) (issued_text i.random) in
    let asks : starts_with full api_key_prefix ≡ true =
      subst (λ k. starts_with k api_key_prefix ≡ true) (sym i.is_full) (issued_prefix i.random) in
    let shut : is_open t ≡ false = ground (arith, i.settings, closed) in
    ground (
      arith,
      i.settings,
      shut,
      asks,
      text,
      extract_key-bearer full text,
      issued-verified user s t full row i hashes owner free,
    )
