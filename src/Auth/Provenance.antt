-- ===== src/Auth/Provenance.antt =====
-- Where an accepted API key comes from (auth/middleware.py).
use async_gate.Prelude.{
  ◌≡◌, refl, inl, inr, true, List, [], ◌∷◌, some, String, arith, Bool-cases, Option-cases, is_text,
  select, starts_with,
}
use async_gate.Models.Auth.{User, ApiKey, is_valid}
use async_gate.Store.{Store, ok, ◌>>=◌}
use async_gate.Auth.Keys.{
  api_key_prefix, scalar_one_or_none, find_user, count_use, has_prefix, is_good, use_key,
  verify_row, verify_key, extract_key, verify_request_api_key,
}

-- The store after a use of the key at its time.
abbrev pub counted : ApiKey → Store → Store
counted row s = record s {
  db = count_use row.id s.clock s.db;
  committed = count_use row.id s.clock s.db;
}

verify_rows :
    (api_key : String) (rows : List ApiKey) (s t : Store) (user : User)
    → (do found ← scalar_one_or_none rows; verify_row api_key found) s ≡ ok (some user) t
    → (row : ApiKey) × (rows ≡ row ∷ [])
      × (is_good api_key row s ≡ true)
      × (find_user row.user_id s.db ≡ some user)
      × (t ≡ counted row s)
unfolding use_key find_user
verify_rows api_key [] s t user h = ground (arith, h)
verify_rows api_key (row ∷ []) s t user h = elim (Bool-cases (is_good api_key row s)) [
  | inl good ↦ (row, refl, good, ground (arith, h, good), ground (arith, h, good))
  | inr bad ↦ ground (arith, h, bad)
]
verify_rows api_key (x ∷ y ∷ rest) s t user h = ground (arith, h)

-- A request that is taken for a user has a key of AsyncGate in its headers, and that key is the one
-- row with its first eleven characters: the row's hash is the key's, the row is neither revoked nor
-- expired, and the user is the row's. Its use is counted and committed, and nothing else changes.
pub verify_request_api_key-counted :
    (headers : List (String × String)) (s t : Store) (user : User)
    → verify_request_api_key headers s ≡ ok (some user) t
    → (api_key : String) × (row : ApiKey) × (extract_key headers ≡ some api_key)
      × (starts_with api_key api_key_prefix ≡ true)
      × (select (has_prefix api_key) s.db.api_keys ≡ row ∷ [])
      × (s.env.checkpw api_key row.key_hash ≡ true)
      × (is_valid row s.clock ≡ true)
      × (find_user row.user_id s.db ≡ some user)
      × (t ≡ counted row s)
unfolding verify_request_api_key verify_key
verify_request_api_key-counted headers s t user h = elim (Option-cases (extract_key headers)) [
  | inl e ↦ ground (arith, e, h)
  | inr (api_key, e) ↦
      let texts : is_text (some api_key) ≡ true = ground (arith, e, h) in
      let asks : starts_with api_key api_key_prefix ≡ true = ground (arith, e, h) in
      let run : (do
        found ← scalar_one_or_none (select (has_prefix api_key) s.db.api_keys)
        verify_row api_key found)
            s
          ≡ ok (some user) t =
        ground (arith, e, h, texts, asks) in
      let (row, only, good, owner, after) =
        verify_rows api_key (select (has_prefix api_key) s.db.api_keys) s t user run in
      (api_key, row, e, asks, only, ground (arith, good), ground (arith, good), owner, after)
]
