-- ===== src/Legacy/Twice.antt =====
-- A second import by `import_legacy` of src/boiler_reviews/db/legacy.py.
use boiler_reviews.Prelude.{ℕ, String, false, [], ◌≡◌}
use boiler_reviews.Prelude.Sort.{sorted_by}
use boiler_reviews.Exec.{Result, ok, err}
use boiler_reviews.Legacy.Model.{Legacy, Database}
use boiler_reviews.Legacy.Inspect.{LegacyReport, inspect_legacy}
use boiler_reviews.Legacy.Import.{
  import_rows, has_failed, import_inspected, import_legacy, is_numbered,
}
use boiler_reviews.Legacy.Settles.{
  Keeps-refl, Settles, bind-Settles, pure-Settles, raise_if-Settles,
}
use boiler_reviews.Legacy.Rows.{
  institution_for-Settles, author_for-Settles, import_courses-Settles, import_terms-Settles,
}
use boiler_reviews.Legacy.Reviews.{import_reviews-Settles}

module _ (new_id new_id' : ℕ → ℕ) (now now' : ℕ) (legacy : Legacy) where
  import_rows-Settles : Settles (import_rows new_id now legacy) (import_rows new_id' now' legacy)
  unfolding import_rows
  import_rows-Settles =
      bind-Settles _ _ _ _ (institution_for-Settles new_id new_id' now now') λ institution.
        bind-Settles _ _ _ _ (author_for-Settles new_id new_id' now now') λ author.
          bind-Settles _ _ _ _
            (import_courses-Settles new_id new_id' now now' institution
              (sorted_by (is_numbered (λ c. c.id)) legacy.courses) [])
            λ course_ids.
              bind-Settles _ _ _ _
                (import_terms-Settles new_id new_id' now now' institution
                  (sorted_by (is_numbered (λ t. t.id)) legacy.semesters) [])
                λ term_ids.
                  import_reviews-Settles new_id new_id' now now' author course_ids term_ids
                    (sorted_by (is_numbered (λ r. r.id)) legacy.reviews)

  import_inspected-Settles :
      (found : Result LegacyReport)
      → Settles
          (import_inspected new_id now legacy false found)
          (import_inspected new_id' now' legacy false found)
  import_inspected-Settles (err x) = λ d e a h. absurd (cc)
  import_inspected-Settles (ok report) =
      bind-Settles _ _ _ _ (raise_if-Settles (has_failed report) _)
        λ checked. bind-Settles _ _ _ _ import_rows-Settles λ done. pure-Settles report

-- If an import that writes returns, then a second one of the same file, at any later time, returns the
-- same report and writes nothing.
pub import_legacy-twice :
    (new_id new_id' : ℕ → ℕ) (now now' : ℕ) (digest : String → String) (source : String)
    (legacy : Legacy) (d e : Database) (report : LegacyReport)
    → import_legacy new_id now digest source legacy false d ≡ (ok report, e)
    → import_legacy new_id' now' digest source legacy false e ≡ (ok report, e)
unfolding import_legacy
import_legacy-twice new_id new_id' now now' digest source legacy d e report h =
    (import_inspected-Settles new_id new_id' now now' legacy (inspect_legacy digest source legacy) d
        e report h).1
      e (Keeps-refl e)
