-- ===== src/Legacy/Inspect.antt =====
-- `inspect_legacy` of src/boiler_reviews/db/legacy.py. The first 16 digits of a text's SHA-256
-- are a parameter.
use boiler_reviews.Prelude.{
  ℕ, String, Bool, false, List, [], ◌∷◌, map, length, ◌==◌, nat_eq, string_eq, ◌||◌, not, leb,
  select, contains, concat, any,
}
use boiler_reviews.Prelude.Int.{ℤ, pos, negsuc, ltb_ℤ}
use boiler_reviews.Prelude.Sort.{sorted_by, leb_text}
use boiler_reviews.Prelude.Dict.{dict_of}
use boiler_reviews.Reviews.Operations.{in_scale}
use boiler_reviews.Exec.{Result, ok, err, value_error}
use boiler_reviews.Legacy.Model.{Legacy, LegacyCourse, LegacyReview}

pub record LegacyReport : Type 0 where
  pub source : String
  pub rows : List (String × ℕ)
  pub invalid_ratings : ℕ
  pub missing_foreign_keys : ℕ
  pub unknown_authorship : ℕ
  pub aggregate_mismatches : ℕ
  pub course_identity_mappings : List (String × String)

-- The required tables, sorted.
abbrev required : List String
required = "course_stats" ∷ "courses" ∷ "reviews" ∷ "semesters" ∷ []

abbrev is_flag : ℤ → Bool
is_flag (pos n) = leb n 1
is_flag (negsuc n) = false

abbrev pub has_invalid_ratings : LegacyReview → Bool
has_invalid_ratings r =
    not (in_scale r.difficulty_rating)
    || (not (in_scale r.overall_rating)
        || (ltb_ℤ r.workload_hours (pos 0) || not (is_flag r.would_recommend)))

abbrev pub misses_foreign_key : Legacy → LegacyReview → Bool
misses_foreign_key legacy r =
    not (any (λ c. c.id == r.course_id) legacy.courses)
    || not (any (λ s. s.id == r.semester_id) legacy.semesters)

abbrev quoted : String → String
quoted name = concat ("'" ∷ name ∷ "'" ∷ [])

-- `str` of a list of names
abbrev list_text : List String → String
list_text [] = ""
list_text (x ∷ []) = quoted x
list_text (x ∷ xs) = concat (quoted x ∷ ", " ∷ list_text xs ∷ [])

abbrev missing_tables : Legacy → List String
missing_tables legacy = select (λ name. not (contains legacy.tables name)) required

-- The dict comprehension over the codes in order.
abbrev mappings : (String → String) → List LegacyCourse → List (String × String)
mappings digest courses =
    dict_of (λ entry. entry.0)
      (map (λ code. (code, digest code)) (sorted_by leb_text (map (λ c. c.course_code) courses)))

abbrev report_of : (String → String) → String → Legacy → LegacyReport
report_of digest source legacy = record {
  source = source;
  rows =
      ("course_stats", legacy.course_stats)
      ∷ ("courses", length legacy.courses)
      ∷ ("reviews", length legacy.reviews)
      ∷ ("semesters", length legacy.semesters)
      ∷ [];
  invalid_ratings = length (select has_invalid_ratings legacy.reviews);
  missing_foreign_keys = length (select (misses_foreign_key legacy) legacy.reviews);
  unknown_authorship = length legacy.reviews;
  aggregate_mismatches = 0;
  course_identity_mappings = mappings digest legacy.courses;
}

abbrev inspect_tables : (String → String) → String → Legacy → List String → Result LegacyReport
inspect_tables digest source legacy [] = ok (report_of digest source legacy)
inspect_tables digest source legacy (name ∷ names) = err (
    value_error
      (concat ("legacy database missing tables: [" ∷ list_text (name ∷ names) ∷ "]" ∷ [])))

unfoldable pub inspect_legacy : (String → String) → String → Legacy → Result LegacyReport
unfolding sorted_by dict_of
inspect_legacy digest source legacy = inspect_tables digest source legacy (missing_tables legacy)
