-- ===== src/Legacy/Model.antt =====
-- The rows that src/boiler_reviews/db/legacy.py reads, and the tables of src/boiler_reviews/db/models.py
-- that it writes. No column that it reads is NULL but a comment, and years are not negative.
use boiler_reviews.Prelude.{ℕ, String, Option, List}
use boiler_reviews.Prelude.Int.{ℤ}
use boiler_reviews.Identity.Accounts.{Account}
use boiler_reviews.Reviews.Model.{Store}

pub record LegacyCourse : Type 0 where
  pub id : ℕ
  pub course_code : String
  pub course_name : String

pub record LegacySemester : Type 0 where
  pub id : ℕ
  pub term : String
  pub year : ℕ

pub record LegacyReview : Type 0 where
  pub id : ℕ
  pub course_id : ℕ
  pub semester_id : ℕ
  pub professor : String
  pub difficulty_rating : ℤ
  pub workload_hours : ℤ
  pub overall_rating : ℤ
  pub would_recommend : ℤ
  pub comment : Option String

-- `tables` has the names of all tables, and `course_stats` is the number of rows of that table.
pub record Legacy : Type 0 where
  pub tables : List String
  pub courses : List LegacyCourse
  pub semesters : List LegacySemester
  pub reviews : List LegacyReview
  pub course_stats : ℕ

pub record Institution : Type 0 where
  pub id : ℕ
  pub name : String
  pub code : String
  pub timezone : String

pub record Course : Type 0 where
  pub id : ℕ
  pub institution_id : ℕ
  pub stable_code : String
  pub canonical_title : String

pub record Term : Type 0 where
  pub id : ℕ
  pub institution_id : ℕ
  pub name : String
  pub year : ℕ
  pub starts_on : String
  pub ends_on : String

-- The tables of the new database; the reviews and their revisions are in `store`. `drawn` counts the
-- ids that were drawn.
pub record Database : Type 0 where
  pub institutions : List Institution
  pub accounts : List Account
  pub courses : List Course
  pub terms : List Term
  pub store : Store
  pub drawn : ℕ

abbrev pub institution_id : Institution → ℕ
institution_id i = i.id

abbrev pub course_id : Course → ℕ
course_id c = c.id

abbrev pub term_id : Term → ℕ
term_id t = t.id
