-- ===== src/Catalog/SnapshotTests.antt =====
-- Catalog snapshots at concrete inputs.
use boiler_reviews.Prelude.{ℕ, ◌≡◌, refl, String, none, [], ◌∷◌}
use boiler_reviews.Prelude.Table.{find}
use boiler_reviews.Exec.{ok}
use boiler_reviews.Catalog.Snapshots.{
  SnapshotStatus, staged, active, CatalogSnapshot, Catalogs, activated, activate_catalog,
}
use boiler_reviews.Catalog.Active.{active_ids, rows_of, activate_catalog-active}

abbrev snapshot : ℕ → ℕ → String → SnapshotStatus → CatalogSnapshot
snapshot id institution version status = record {
  id = id;
  institution_id = institution;
  version = version;
  status = status;
  content_hash = "";
  activated_at = none;
}

abbrev catalogs : Catalogs
catalogs = record {
  snapshots =
      snapshot 1 1 "2025" active ∷ snapshot 2 1 "2026" staged ∷ snapshot 3 2 "2025" active ∷ [];
  audits = [];
}

activate_catalog-active_example :
    (c' : Catalogs) × (activate_catalog 2 50 catalogs
      ≡ (ok (activated 50 (snapshot 2 1 "2026" staged)), c'))
    × (active_ids 1 c'.snapshots ≡ 2 ∷ [])
    × (rows_of 2 c'.snapshots ≡ rows_of 2 catalogs.snapshots)
unfolding find
activate_catalog-active_example =
    activate_catalog-active 2 50 2 catalogs (snapshot 2 1 "2026" staged) (refl, (refl, (refl, tt)))
      refl refl refl
