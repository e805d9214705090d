-- ===== src/Legacy/Tests.antt =====
-- The import of the first release's database at concrete inputs.
use boiler_reviews.Prelude.{ℕ, ◌+◌, false, none, List, [], ◌∷◌, ◌≡◌, refl, All, length}
use boiler_reviews.Prelude.Int.{ℤ, pos}
use boiler_reviews.Prelude.Decimal.{digits}
use boiler_reviews.Prelude.Sort.{sorted_by}
use boiler_reviews.Prelude.Table.{find, put}
use boiler_reviews.Prelude.Dict.{lookup, dict_of}
use boiler_reviews.Exec.{Result, ok, err, integrity_error, value_error}
use boiler_reviews.Reviews.Operations.{insert_review, add_revision}
use boiler_reviews.Legacy.Model.{Legacy, LegacyReview, Database}
use boiler_reviews.Legacy.Inspect.{LegacyReport, inspect_legacy}
use boiler_reviews.Legacy.Import.{
  found_or, institution_for, author_for, course_for, term_for, import_courses, import_terms,
  write_review, add_review, review_for, import_reviews, import_rows, import_legacy,
}
use boiler_reviews.Legacy.Complete.{IsImported, import_legacy-IsImported}
use boiler_reviews.Legacy.Twice.{import_legacy-twice}

abbrev review : ℕ → ℕ → ℤ → LegacyReview
review id course overall = record {
  id = id;
  course_id = course;
  semester_id = 7;
  professor = "Kim";
  difficulty_rating = pos 3;
  workload_hours = pos 10;
  overall_rating = overall;
  would_recommend = pos 1;
  comment = none;
}

abbrev file : List LegacyReview → Legacy
file reviews = record {
  tables = "courses" ∷ "semesters" ∷ "reviews" ∷ "course_stats" ∷ [];
  courses =
      record { id = 2; course_code = "CS2"; course_name = "Two" }
      ∷ record { id = 1; course_code = "CS1"; course_name = "One" }
      ∷ [];
  semesters = record { id = 7; term = "Fall"; year = 2023 } ∷ [];
  reviews = reviews;
  course_stats = 0;
}

abbrev empty : Database
empty = record {
  institutions = [];
  accounts = [];
  courses = [];
  terms = [];
  store = record {
    accounts = [];
    reviews = [];
    revisions = [];
    aggregates = [];
    decisions = [];
    audits = [];
    outbox = [];
  };
  drawn = 0;
}

abbrev two_reviews : Legacy
two_reviews = file (review 1 1 (pos 4) ∷ review 2 2 (pos 5) ∷ [])

abbrev imported : Result LegacyReport × Database
imported = import_legacy (λ n. n) 100 (λ code. code) "reviews.db" two_reviews false empty

abbrev outcome_of : Result LegacyReport × Database → Result ℕ
outcome_of (ok report, d) = ok (length d.store.reviews)
outcome_of (err e, d) = err e

both_imported : outcome_of imported ≡ ok 2
unfolding import_legacy import_rows inspect_legacy institution_for author_for course_for term_for
    import_courses import_terms import_reviews review_for add_review write_review insert_review
    add_revision found_or find put lookup sorted_by dict_of digits
both_imported = refl

-- Two reviews of one course in one term have the same author, so the second breaks the unique key.
same_course_refused :
    outcome_of (
      import_legacy
        (λ n. n)
        100
        (λ code. code)
        "reviews.db"
        (file (review 1 1 (pos 4) ∷ review 2 1 (pos 5) ∷ []))
        false
        empty)
    ≡ err (integrity_error "uq_review_account_course_term")
unfolding import_legacy import_rows inspect_legacy institution_for author_for course_for term_for
    import_courses import_terms import_reviews review_for add_review write_review insert_review
    add_revision found_or find put lookup sorted_by dict_of digits
same_course_refused = refl

invalid_refused :
    outcome_of (
      import_legacy
        (λ n. n)
        100
        (λ code. code)
        "reviews.db"
        (file (review 1 1 (pos 9) ∷ []))
        false
        empty)
    ≡ err (value_error "legacy data failed validation; refusing partial import")
unfolding import_legacy import_rows inspect_legacy institution_for author_for course_for term_for
    import_courses import_terms import_reviews review_for add_review write_review insert_review
    add_revision found_or find put lookup sorted_by dict_of digits
invalid_refused = refl

abbrev report : LegacyReport
report = record {
  source = "reviews.db";
  rows = ("course_stats", 0) ∷ ("courses", 2) ∷ ("reviews", 2) ∷ ("semesters", 1) ∷ [];
  invalid_ratings = 0;
  missing_foreign_keys = 0;
  unknown_authorship = 2;
  aggregate_mismatches = 0;
  course_identity_mappings = ("CS1", "CS1") ∷ ("CS2", "CS2") ∷ [];
}

imports : imported ≡ (ok report, imported.1)
unfolding import_legacy import_rows inspect_legacy institution_for author_for course_for term_for
    import_courses import_terms import_reviews review_for add_review write_review insert_review
    add_revision found_or find put lookup sorted_by dict_of digits
imports = refl

import_legacy-twice_example :
    import_legacy (λ n. n + 1000) 200 (λ code. code) "reviews.db" two_reviews false imported.1
    ≡ (ok report, imported.1)
import_legacy-twice_example =
    import_legacy-twice (λ n. n) (λ n. n + 1000) 100 200 (λ code. code) "reviews.db" two_reviews
      empty imported.1 report imports

import_legacy-IsImported_example : All (IsImported imported.1) two_reviews.reviews
import_legacy-IsImported_example =
    import_legacy-IsImported (λ n. n) 100 (λ code. code) "reviews.db" two_reviews empty imported.1
      report imports
