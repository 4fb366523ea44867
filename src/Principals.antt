-- ===== src/Principals.antt =====
-- asyncgate/principals.py
use async_gate.Prelude.{
  str_append, String, none, some, Bool, ◌||◌, List, [], ◌∷◌, str_eq, strip_prefix, starts_with,
  if◌then◌else◌,
}

abbrev pub system_principal_id : String
system_principal_id = "sys:legivellum"

abbrev pub service_principal_id : String
service_principal_id = "svc:asyncgate"

unfoldable pub is_system : String → Bool
is_system principal_id = str_eq principal_id system_principal_id

unfoldable pub normalize_external : String → String
unfolding strip_prefix
normalize_external principal_id = elim (strip_prefix "ext:" principal_id) [
  | none ↦ principal_id
  | some rest ↦ rest
]

unfoldable pub is_internal_principal_id : String → Bool
unfolding starts_with
is_internal_principal_id principal_id =
    starts_with principal_id "sys:" || starts_with principal_id "svc:"

-- The order of the two variants is not fixed by the source, which lists a set.
unfoldable pub principal_id_variants : String → List String
unfolding normalize_external is_internal_principal_id
principal_id_variants principal_id =
    let normalized = normalize_external principal_id in
    if is_internal_principal_id normalized
    then normalized ∷ []
    else normalized ∷ str_append "ext:" normalized ∷ []
