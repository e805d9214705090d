-- ===== src/Catalog/Active.antt =====
-- An institution has one active catalog after an activation.
use boiler_reviews.Prelude.{
  ℕ, ◌≡◌, refl, ap, inl, inr, Bool, true, false, none, some, List, [], ◌∷◌, ◌++◌, map, arith, ◌==◌,
  nat_eq, ◌&&◌, select, Bool-cases,
}
use boiler_reviews.Prelude.Table.{find, put, HasUniqueKeys, find-key}
use boiler_reviews.Exec.{ok}
use boiler_reviews.Catalog.Snapshots.{
  CatalogSnapshot, Catalogs, snapshot_id, is_active, can_activate, is_previous, archive_if, archive,
  activated, activation, activate_catalog,
}

abbrev pub is_active_of : ℕ → CatalogSnapshot → Bool
is_active_of institution s = s.institution_id == institution && is_active s.status

-- The ids of the institution's active snapshots.
abbrev pub active_ids : ℕ → List CatalogSnapshot → List ℕ
active_ids institution rows = map snapshot_id (select (is_active_of institution) rows)

archive_if-active :
    (institution id : ℕ) (s : CatalogSnapshot)
    → is_active_of institution (archive_if institution id s)
      ≡ (is_active_of institution s && s.id == id)
archive_if-active institution id s = ground arith

archived-none :
    (institution id : ℕ) (rows : List CatalogSnapshot)
    → find snapshot_id id rows ≡ none
    → active_ids institution (archive institution id rows) ≡ []
unfolding archive find
archived-none institution id [] h = refl
archived-none institution id (s ∷ rows) h =
    ground (arith, archive_if-active institution id s, archived-none institution id rows)

archive_if-id : (institution id : ℕ) (s : CatalogSnapshot) → (archive_if institution id s).id ≡ s.id
archive_if-id institution id s = ground arith

-- The row with the new status comes in the place of the old one.
put-here :
    (a s : CatalogSnapshot) (rows : List CatalogSnapshot)
    → s.id ≡ a.id
    → put snapshot_id a (s ∷ rows) ≡ a ∷ rows
unfolding put
put-here a s rows h = ground (arith, nat_eq.beq_iff s.id a.id)

put-later :
    (a s : CatalogSnapshot) (rows : List CatalogSnapshot)
    → (s.id == a.id) ≡ false
    → put snapshot_id a (s ∷ rows) ≡ s ∷ put snapshot_id a rows
unfolding put
put-later a s rows h = rw h refl

activated-one :
    (now id institution : ℕ) (a : CatalogSnapshot) (rows : List CatalogSnapshot)
    → HasUniqueKeys snapshot_id rows
    → find snapshot_id id rows ≡ some a
    → a.id ≡ id
    → a.institution_id ≡ institution
    → active_ids institution (put snapshot_id (activated now a) (archive institution id rows))
      ≡ id ∷ []
unfolding archive find
activated-one now id institution a [] u h key i = absurd (cc)
activated-one now id institution a (s ∷ rows) u h key i = elim (Bool-cases (s.id == id)) [
  | inl here ↦
      let same = (nat_eq.beq_iff s.id id).0 here in
      rw
        (put-here (activated now a) (archive_if institution id s) (archive institution id rows)
          (ground (arith, archive_if-id institution id s)))
        (ground (
          arith,
          nat_eq.beq_iff a.institution_id institution,
          archived-none institution id rows (rw same at u.0),
        ))
  | inr other ↦
      rw
        (put-later (activated now a) (archive_if institution id s) (archive institution id rows)
          (ground (arith, archive_if-id institution id s)))
        (ground (
          arith,
          archive_if-active institution id s,
          activated-one now id institution a rows u.1,
          other,
        ))
]

-- The rows of other institutions stay as they are.
abbrev pub rows_of : ℕ → List CatalogSnapshot → List CatalogSnapshot
rows_of institution rows = select (λ s. s.institution_id == institution) rows

archived-elsewhere :
    (id institution elsewhere : ℕ) (rows : List CatalogSnapshot)
    → (institution == elsewhere) ≡ false
    → rows_of elsewhere (archive institution id rows) ≡ rows_of elsewhere rows
unfolding archive
archived-elsewhere id institution elsewhere [] away = refl
archived-elsewhere id institution elsewhere (s ∷ rows) away =
    ground (arith, archived-elsewhere id institution elsewhere rows)

activated-elsewhere :
    (now id institution elsewhere : ℕ) (a : CatalogSnapshot) (rows : List CatalogSnapshot)
    → (institution == elsewhere) ≡ false
    → find snapshot_id id rows ≡ some a
    → a.id ≡ id
    → a.institution_id ≡ institution
    → rows_of elsewhere (put snapshot_id (activated now a) (archive institution id rows))
      ≡ rows_of elsewhere rows
unfolding archive find
activated-elsewhere now id institution elsewhere a [] away h key i = absurd (cc)
activated-elsewhere now id institution elsewhere a (s ∷ rows) away h key i =
    elim (Bool-cases (s.id == id)) [
      | inl here ↦
          rw
            (put-here (activated now a) (archive_if institution id s) (archive institution id rows)
              (ground (arith, archive_if-id institution id s)))
            (ground (arith, h, here, archived-elsewhere id institution elsewhere rows))
      | inr other ↦
          rw
            (put-later (activated now a) (archive_if institution id s) (archive institution id rows)
              (ground (arith, archive_if-id institution id s)))
            (ground (arith, activated-elsewhere now id institution elsewhere a rows, other))
    ]

-- If the snapshot is there and is staged or active, and ids are unique, `activate_catalog` returns;
-- then this snapshot is the one active snapshot of its institution, and the rows of any other
-- institution are as before.
pub activate_catalog-active :
    (id now elsewhere : ℕ) (c : Catalogs) (a : CatalogSnapshot)
    → HasUniqueKeys snapshot_id c.snapshots
    → find snapshot_id id c.snapshots ≡ some a
    → can_activate a.status ≡ true
    → (a.institution_id == elsewhere) ≡ false
    → (c' : Catalogs) × (activate_catalog id now c ≡ (ok (activated now a), c'))
      × (active_ids a.institution_id c'.snapshots ≡ id ∷ [])
      × (rows_of elsewhere c'.snapshots ≡ rows_of elsewhere c.snapshots)
unfolding activate_catalog
activate_catalog-active id now elsewhere c a u h ready away =
    let key = find-key snapshot_id id a c.snapshots h in
    let same = ap (λ k. archive a.institution_id k c.snapshots) key in
    (
      record {
        snapshots = put snapshot_id (activated now a) (archive a.institution_id a.id c.snapshots);
        audits =
            c.audits ++ activation a (select (is_previous a.institution_id a.id) c.snapshots) ∷ [];
      },
      rw (h, ready) refl,
      rw same (activated-one now id a.institution_id a c.snapshots u h key refl),
      rw same (activated-elsewhere now id a.institution_id elsewhere a c.snapshots away h key refl),
    )
