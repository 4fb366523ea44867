-- ===== src/Repositories/Progress.antt =====
-- ProgressRepository and RelationshipRepository of asyncgate/db/repositories.py
use async_gate.Prelude.{
  ℕ, ◌+◌, Bool, ◌&&◌, Option, none, some, List, [], ◌∷◌, ◌++◌, String, str_eq, ◌==◌, if◌then◌else◌,
  is_text, first, any, update_where,
}
use async_gate.Models.Enums.{PrincipalKind, kind_eq}
use async_gate.Models.Json.{Fields}
use async_gate.Models.Records.{Progress, Relationship}
use async_gate.Store.{Store, M, ◌>>=◌, ◌>>◌, pure, gets, put_db}

abbrev pub is_progress : ℕ → ℕ → Progress → Bool
is_progress tenant_id task_id p = p.tenant_id == tenant_id && p.task_id == task_id

unfoldable pub get : ℕ → ℕ → Store → Option Progress
unfolding first
get tenant_id task_id s = first (is_progress tenant_id task_id) s.db.progress

-- The table after an upsert.
unfoldable pub upserted : Progress → List Progress → List Progress
unfolding any update_where
upserted p rows =
    if any (is_progress p.tenant_id p.task_id) rows
    then update_where (is_progress p.tenant_id p.task_id)
        (λ q. record q { progress = p.progress; updated_at = p.updated_at }) rows
    else rows ++ p ∷ []

unfoldable pub update : ℕ → ℕ → Fields → M Progress
unfolding upserted
update tenant_id task_id progress = do
  row ← gets λ s. record {
    tenant_id = tenant_id;
    task_id = task_id;
    progress = progress;
    updated_at = s.clock;
  }
  put_db (λ db. record db { progress = upserted row db.progress })
  pure row

abbrev pub is_relationship : ℕ → PrincipalKind → String → Relationship → Bool
is_relationship tenant_id kind id r =
    r.tenant_id == tenant_id && kind_eq r.principal_kind kind && str_eq r.principal_id id

abbrev pub seen_again : ℕ → Option String → Relationship → Relationship
seen_again now instance_id r = record r {
  last_seen_at = now;
  sessions_count = r.sessions_count + 1;
  principal_instance_id = if is_text instance_id then instance_id else r.principal_instance_id;
}

abbrev pub seen_first : ℕ → ℕ → PrincipalKind → String → Option String → Relationship
seen_first now tenant_id kind id instance_id = record {
  tenant_id = tenant_id;
  principal_kind = kind;
  principal_id = id;
  principal_instance_id = instance_id;
  first_seen_at = now;
  last_seen_at = now;
  sessions_count = 1;
}

abbrev pub upsert_found :
    ℕ → ℕ → PrincipalKind → String → Option String → Option Relationship → M Relationship
upsert_found now tenant_id kind id instance_id none = do
  let row = seen_first now tenant_id kind id instance_id
  put_db (λ db. record db { relationships = db.relationships ++ row ∷ [] })
  pure row
upsert_found now tenant_id kind id instance_id (some existing) = do
  put_db λ db. record db {
    relationships =
        update_where (is_relationship tenant_id kind id) (seen_again now instance_id)
          db.relationships;
  }
  pure (seen_again now instance_id existing)

unfoldable pub upsert : ℕ → PrincipalKind → String → Option String → M Relationship
unfolding first update_where
upsert tenant_id principal_kind principal_id principal_instance_id = do
  now ← gets (λ s. s.clock)
  existing ←
      gets λ s. first (is_relationship tenant_id principal_kind principal_id) s.db.relationships
  upsert_found now tenant_id principal_kind principal_id principal_instance_id existing
