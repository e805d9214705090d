-- ===== src/Catalog/Snapshots.antt =====
-- `activate_catalog` of src/boiler_reviews/catalog/service.py.
use boiler_reviews.Prelude.{
  ℕ, String, Bool, true, false, Option, none, some, List, [], ◌∷◌, ◌++◌, ◌==◌, nat_eq, ◌&&◌, not,
  if◌then◌else◌, select, concat,
}
use boiler_reviews.Prelude.Int.{pos}
use boiler_reviews.Prelude.Json.{Items, num, arr, nil, cons}
use boiler_reviews.Prelude.Table.{find, put}
use boiler_reviews.Exec.{
  Exec, pure, gets, or_raise, modify, raise_if, ◌>>=◌, ◌>>◌, not_found, conflict,
}
use boiler_reviews.Reviews.Model.{AuditEvent}

pub data SnapshotStatus : Type 0 where
  staged active archived : SnapshotStatus
  other : String → SnapshotStatus

pub record CatalogSnapshot : Type 0 where
  pub id : ℕ
  pub institution_id : ℕ
  pub version : String
  pub status : SnapshotStatus
  pub content_hash : String
  pub activated_at : Option ℕ

pub record Catalogs : Type 0 where
  pub snapshots : List CatalogSnapshot
  pub audits : List AuditEvent

abbrev pub snapshot_id : CatalogSnapshot → ℕ
snapshot_id s = s.id

abbrev pub is_active : SnapshotStatus → Bool
is_active active = true
is_active _ = false

-- `status in {"staged", "active"}`
abbrev pub can_activate : SnapshotStatus → Bool
can_activate staged = true
can_activate active = true
can_activate _ = false

abbrev status_text : SnapshotStatus → String
status_text staged = "staged"
status_text active = "active"
status_text archived = "archived"
status_text (other s) = s

-- The `where` of the query for `previous`.
abbrev pub is_previous : ℕ → ℕ → CatalogSnapshot → Bool
is_previous institution id s =
    s.institution_id == institution && is_active s.status && not (s.id == id)

abbrev pub archive_if : ℕ → ℕ → CatalogSnapshot → CatalogSnapshot
archive_if institution id s =
    if is_previous institution id s then record s { status = archived } else s

-- `for value in previous: value.status = "archived"`
unfoldable pub archive : ℕ → ℕ → List CatalogSnapshot → List CatalogSnapshot
archive institution id [] = []
archive institution id (s ∷ rows) = archive_if institution id s ∷ archive institution id rows

abbrev pub activated : ℕ → CatalogSnapshot → CatalogSnapshot
activated now s = record s { status = active; activated_at = some now }

abbrev ids_json : List CatalogSnapshot → Items
ids_json [] = nil
ids_json (s ∷ rows) = cons (num (pos s.id)) (ids_json rows)

abbrev pub activation : CatalogSnapshot → List CatalogSnapshot → AuditEvent
activation s previous = record {
  actor_id = none;
  event_type = "catalog.activated";
  entity_type = "catalog_snapshot";
  entity_id = some s.id;
  payload_json = ("previous", arr (ids_json previous)) ∷ [];
}

abbrev pub replace_active :
    ℕ → CatalogSnapshot → List CatalogSnapshot → Exec Catalogs CatalogSnapshot
replace_active now s previous = do
  modify (λ c. record c { snapshots = archive s.institution_id s.id c.snapshots })
  modify (λ c. record c { snapshots = put snapshot_id (activated now s) c.snapshots })
  modify (λ c. record c { audits = c.audits ++ activation s previous ∷ [] })
  pure (activated now s)

unfoldable pub activate_catalog : ℕ → ℕ → Exec Catalogs CatalogSnapshot
unfolding archive
activate_catalog id now = do
  s ←
      or_raise (← gets (λ c. find snapshot_id id c.snapshots))
        (not_found "Catalog snapshot not found.")
  raise_if (not (can_activate s.status))
      (conflict (concat ("Snapshot is " ∷ status_text s.status ∷ " and cannot be activated." ∷ [])))
  previous ← gets (λ c. select (is_previous s.institution_id s.id) c.snapshots)
  replace_active now s previous
