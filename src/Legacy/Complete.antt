-- ===== src/Legacy/Complete.antt =====
-- What is there after `import_legacy` of src/boiler_reviews/db/legacy.py.
use boiler_reviews.Prelude.{
  ℕ, String, true, false, List, [], ◌∷◌, ◌≡◌, ap, first, All, string_eq, option_eq,
}
use mathlib.Core.Path.{subst}
use boiler_reviews.Prelude.Table.{is_some}
use boiler_reviews.Prelude.Sort.{sorted_by, sorted_by-All_back}
use boiler_reviews.Exec.{Result, ok, err, pure, ◌>>=◌, >>=-eq-ok, raise_if, value_error}
use boiler_reviews.Legacy.Model.{Legacy, LegacyCourse, LegacySemester, LegacyReview, Database}
use boiler_reviews.Legacy.Inspect.{LegacyReport, inspect_legacy}
use boiler_reviews.Legacy.Import.{
  institution_for, author_for, import_courses, import_terms, review_for, import_reviews,
  import_rows, has_failed, import_inspected, import_legacy, is_numbered, has_request, request_key,
}
use boiler_reviews.Legacy.Reviews.{review_for-adds, import_reviews-Settles}

-- The database has a review under the key of the row.
abbrev pub IsImported : Database → LegacyReview → Type 0
IsImported d row = is_some (first (has_request (request_key row)) d.store.reviews) ≡ true

module _ (new_id : ℕ → ℕ) (now : ℕ) where
  import_reviews-IsImported :
      (author : ℕ) (course_ids term_ids : List (ℕ × ℕ)) (rows : List LegacyReview) (d e : Database)
      (a : Unit {0})
      → import_reviews new_id now author course_ids term_ids rows d ≡ (ok a, e)
      → All (IsImported e) rows
  unfolding import_reviews
  import_reviews-IsImported author course_ids term_ids [] d e a h = tt
  import_reviews-IsImported author course_ids term_ids (row ∷ rows) d e a h =
      let rest = (λ (x : Unit {0}). import_reviews new_id now author course_ids term_ids rows) in
      let (b, u, added, others) =
        >>=-eq-ok (review_for new_id now author course_ids term_ids row) rest d h in
      let (kept, there) = review_for-adds new_id now author course_ids term_ids row d u b added in
      let (kept', again) =
        import_reviews-Settles new_id new_id now now author course_ids term_ids rows u e a others in
      (
        kept'.requests (request_key row) there,
        import_reviews-IsImported author course_ids term_ids rows u e a others,
      )

  import_rows-IsImported :
      (legacy : Legacy) (d e : Database) (a : Unit {0})
      → import_rows new_id now legacy d ≡ (ok a, e)
      → All (IsImported e) legacy.reviews
  unfolding import_rows
  import_rows-IsImported legacy d e a h =
      let courses = sorted_by (is_numbered (λ (c : LegacyCourse). c.id)) legacy.courses in
      let semesters = sorted_by (is_numbered (λ (s : LegacySemester). s.id)) legacy.semesters in
      let rows = sorted_by (is_numbered (λ (r : LegacyReview). r.id)) legacy.reviews in
      let last = (λ (author : ℕ) (course_ids term_ids : List (ℕ × ℕ)).
        import_reviews new_id now author course_ids term_ids rows) in
      let third = (λ (institution author : ℕ) (course_ids : List (ℕ × ℕ)).
        import_terms new_id now institution semesters [] >>= last author course_ids) in
      let second = (λ (institution author : ℕ).
        import_courses new_id now institution courses [] >>= third institution author) in
      let (institution, d1, _, h1) =
        >>=-eq-ok (institution_for new_id now) (λ (i : ℕ). author_for new_id now >>= second i) d
          h in
      let (author, d2, _, h2) = >>=-eq-ok (author_for new_id now) (second institution) d1 h1 in
      let (course_ids, d3, _, h3) =
        >>=-eq-ok (import_courses new_id now institution courses []) (third institution author) d2
          h2 in
      let (term_ids, d4, _, h4) =
        >>=-eq-ok (import_terms new_id now institution semesters []) (last author course_ids) d3
          h3 in
      sorted_by-All_back (IsImported e) (is_numbered (λ r. r.id)) legacy.reviews
        (import_reviews-IsImported author course_ids term_ids rows d4 e a h4)

  import_inspected-IsImported :
      (legacy : Legacy) (found : Result LegacyReport) (d e : Database) (report : LegacyReport)
      → import_inspected new_id now legacy false found d ≡ (ok report, e)
      → All (IsImported e) legacy.reviews
  import_inspected-IsImported legacy (err x) d e report h = absurd (cc)
  import_inspected-IsImported legacy (ok r) d e report h =
      let end = (λ (x : Unit {0}). pure {S = Database} r) in
      let (a, u, checked, rest) =
        >>=-eq-ok
          (raise_if (has_failed r)
            (value_error "legacy data failed validation; refusing partial import"))
          (λ (x : Unit {0}). import_rows new_id now legacy >>= end) d h in
      let (b, v, wrote, same) = >>=-eq-ok (import_rows new_id now legacy) end u rest in
      subst (λ w. All (IsImported w) legacy.reviews) (ap (λ x. x.1) same)
        (import_rows-IsImported legacy u v b wrote)

-- If an import that writes returns, then every review of the file has a review in the database under its key.
pub import_legacy-IsImported :
    (new_id : ℕ → ℕ) (now : ℕ) (digest : String → String) (source : String) (legacy : Legacy)
    (d e : Database) (report : LegacyReport)
    → import_legacy new_id now digest source legacy false d ≡ (ok report, e)
    → All (IsImported e) legacy.reviews
unfolding import_legacy
import_legacy-IsImported new_id now digest source legacy d e report h =
    import_inspected-IsImported new_id now legacy (inspect_legacy digest source legacy) d e report h
