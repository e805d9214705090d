-- ===== src/Reviews/PageTests.antt =====
-- Review pages at concrete inputs: three reviews, a page at a time.
use boiler_reviews.Prelude.{
  ℕ, suc, ◌≡◌, refl, String, Bool, true, false, none, some, [], ◌∷◌, map, length,
}
use boiler_reviews.Prelude.Sort.{sorted_by}
use boiler_reviews.Prelude.Table.{find}
use boiler_reviews.Reviews.Model.{Review, ReviewRevision, published, hidden, ReviewStatus}
use boiler_reviews.Reviews.Reconcile.{joined}
use boiler_reviews.Reviews.Query.{
  Tables, ReviewFilter, review_page, rows_after, statement, join_rows, newer, item,
}
use boiler_reviews.Reviews.Pages.{follow, follow-statement}

abbrev review : ℕ → ℕ → ReviewStatus → Review
review id created_at status = record {
  id = id;
  account_id = id;
  course_id = 3;
  term_id = 4;
  status = status;
  current_revision = 1;
  published_revision = some 1;
  client_request_id = none;
  created_at = created_at;
}

abbrev revision : ℕ → ReviewRevision
revision id = record {
  review_id = id;
  revision = 1;
  professor = "Ada";
  difficulty = 3;
  workload_hours = 8;
  overall = 4;
  would_recommend = true;
  comment = none;
  submitted_at = none;
}

abbrev tables : Tables
tables = record {
  reviews =
      review 1 10 published
      ∷ review 2 20 published
      ∷ review 5 20 published
      ∷ review 6 30 hidden
      ∷ [];
  revisions = revision 1 ∷ revision 2 ∷ revision 5 ∷ revision 6 ∷ [];
  courses = record { id = 3; stable_code = "CS18000" } ∷ [];
  terms = record { id = 4; name = "Fall"; year = 2025 } ∷ [];
}

abbrev everything : ReviewFilter
everything = record {
  course_id = none;
  term_id = none;
  professor = none;
  min_overall = none;
  would_recommend = none;
}

abbrev never : String → String → Bool
never name pattern = false

second_page :
    (review_page never everything tables
      (some (record { created_at = 20; review_id = 5 }))
      1).next_cursor
    ≡ some (record { created_at = 20; review_id = 2 })
unfolding review_page rows_after statement join_rows joined find sorted_by
second_page = refl

follow-statement_example :
    follow never everything tables 2
      (suc (length (sorted_by newer (statement never everything tables))))
      none
    ≡ map item (sorted_by newer (statement never everything tables))
unfolding find
follow-statement_example =
    follow-statement never everything tables 2 (refl, (refl, (refl, (refl, tt))))
